-- ===== src/Facade/Session/Calls/Stages.antt =====
-- The calls that wait for a restore, by the steps of a restore.
use rabbitmq.Base.{
  ℕ, zero, suc, ◌≡◌, ◌≢◌, refl, Bool, true, false, Option, none, some, if◌then◌else◌, ident_ℕ,
  arith,
}
use rabbitmq.Base.Map
use rabbitmq.Base.Map.{get-set, get-delete}
use rabbitmq.Facade.Session.{
  Phase, refused, initializing, discarding, asserting, recreating, closing, Restore, Stage,
  restoring, Call, Session, Answer, Step, settle_call, signal, signal_stage, is_number,
  announcement, announce, answer, answer_stage, release, finish,
}
use rabbitmq.Facade.Session.Steps.{enter, install, pool_number, abandon, advance, restore_step}
use rabbitmq.Facade.Session.Endings.{finish_lem}

-- The restore that the call in flight waits for.
abbrev pub waits_for : Option Call → Option ℕ
waits_for none = none
waits_for (some c) = by_stage c.stage
  where
    by_stage : Stage → Option ℕ
    by_stage (restoring r d) = some r
    by_stage _ = none

abbrev pub Runs : Session → Type 0
Runs s = (r : ℕ) → waits_for s.connect_promise ≡ some r → Map.get s.restores r ≢ none

-- Whoever waits now waited before.
abbrev pub Fewer : Session → Session → Type 0
Fewer s t = (r : ℕ) → waits_for t.connect_promise ≡ some r → waits_for s.connect_promise ≡ some r

pub signal-Fewer : (s : Session) (o : Option Call) (a : Answer) → Fewer s (signal s o a).0
unfolding signal signal_stage settle_call
signal-Fewer s none a r h = h
signal-Fewer s (some c) a r h = ground arith

announce-Fewer : (n : ℕ) (ok : Bool) (s : Session) → Fewer s (announce n ok s).0
unfolding announce announcement
announce-Fewer zero ok s r h = h
announce-Fewer (suc n) true s r h =
    signal-Fewer s s.connect_promise _ r (announce-Fewer n true _ r h)
announce-Fewer (suc n) false s r h =
    signal-Fewer s s.connect_promise _ r (announce-Fewer n false _ r h)

answer-Fewer :
    (j : ℕ) (ok : Bool) (s : Session) (o : Option Call) (r : ℕ)
    → s.connect_promise ≡ o
    → waits_for (answer j ok s o).0.connect_promise ≡ some r
    → (waits_for s.connect_promise ≡ some r) × (j ≢ r)
unfolding answer answer_stage settle_call
answer-Fewer j ok s none r e h = ground (arith, e)
answer-Fewer j ok s (some c) r e h = ground (arith, e)

finish-Runs : (s : Session) (j : ℕ) (q : Restore) (ok : Bool) → Runs s → Runs (finish s j q ok).0
unfolding finish
finish-Runs s j q ok v r h =
    let t : Session = record s {
      restores = Map.delete s.restores j;
      restore_promise = release s.restore_promise j;
    } in
    let u = (announce q.reconnections ok t).0 in
    let a = answer-Fewer j ok u u.connect_promise r refl h in
    let b = announce-Fewer q.reconnections ok t r a.0 in
    let f = finish_lem s j q ok in
    unfold finish in ground (arith, v r b, a.1, get-delete s.restores j r, f.0)

enter-Runs : (s : Session) (j : ℕ) (q : Restore) (f : Phase) → Runs s → Runs (enter s j q f)
unfolding enter
enter-Runs s j q f v r h = ground (arith, v r h, get-set s.restores j r (record q { phase = f }))

choose-Runs : (b : Bool) (x y : Step) → Runs x.0 → Runs y.0 → Runs (if b then x else y).0
choose-Runs true x y v w = v
choose-Runs false x y v w = w

install-Runs :
    (s : Session) (j : ℕ) (q : Restore) (o : Option ℕ) → Runs s → Runs (install s j q o).0
unfolding install
install-Runs s j q none v = finish-Runs s j q false v
install-Runs s j q (some c) v =
    choose-Runs (is_number s.connection c) _ _ (enter-Runs s j q asserting v)
      (enter-Runs s j q discarding v)

abandon-Runs : (s : Session) (j : ℕ) (q : Restore) → Runs s → Runs (abandon s j q).0
unfolding abandon
abandon-Runs s j q v =
    choose-Runs (is_number (pool_number s.channel_pool) j) _ _ (enter-Runs s j q closing v)
      (finish-Runs s j q false v)

advance-Runs :
    (s : Session) (j : ℕ) (q : Restore) (f : Phase) (ok : Bool)
    → Runs s
    → Runs (advance s j q f ok).0
unfolding advance
advance-Runs s j q refused ok v = finish-Runs s j q false v
advance-Runs s j q initializing false v = finish-Runs s j q false v
advance-Runs s j q initializing true v = install-Runs s j q q.built_on v
advance-Runs s j q discarding ok v = finish-Runs s j q false v
advance-Runs s j q asserting false v = abandon-Runs s j q v
advance-Runs s j q asserting true v = enter-Runs s j q recreating v
advance-Runs s j q recreating false v = abandon-Runs s j q v
advance-Runs s j q recreating true v = finish-Runs s j q true v
advance-Runs s j q closing ok v = finish-Runs s j q false v

pub restore_step-Runs :
    (s : Session) (j : ℕ) (ok : Bool) (o : Option Restore) → Runs s → Runs (restore_step s j ok o).0
unfolding restore_step
restore_step-Runs s j ok none v = v
restore_step-Runs s j ok (some q) v = advance-Runs s j q q.phase ok v
