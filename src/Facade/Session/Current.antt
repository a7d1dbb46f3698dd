-- ===== src/Facade/Session/Current.antt =====
-- The pool that is in place belongs to the connection that is in place.
use rabbitmq.Base.{
  ℕ, zero, suc, ◌≡◌, refl, Bool, true, false, Option, none, some, ident_ℕ, List, [], ◌∷◌, All,
  arith, Bool-cases, inl, inr,
}
use rabbitmq.Base.Map
use rabbitmq.Facade.Session.{
  Phase, refused, initializing, discarding, asserting, recreating, closing, Restore, Pool, Stage,
  dialing, restoring, parked, Call, Session, Event, opens, loses, gives_up, reconnects, connects,
  dial_settles, restore_returns, times_out, disconnects, consumers_disposed, pool_closed,
  connection_closed, Answer, init, restore_state, join, handle_reconnection, settle_call,
  signal_stage, signal, handle_disconnection, is_number, announcement, announce, answer_stage,
  answer, finish,
}
use rabbitmq.Facade.Session.Steps.{
  enter, install, pool_number, abandon, advance, restore_step, connect_step, take_connection, park,
  after_dial, dial_stage, dial_step, timeout_step, disposed_event, pool_closed_event,
  connection_closed_event, open_step, open_event, step, run,
}
use rabbitmq.Facade.Session.Ownership.Restores.{is_number→}

abbrev pub NoDisconnect : Event → Type 0
NoDisconnect disconnects = ⊥
NoDisconnect _ = Unit

pub record Fits (s : Session) : Type 0 where
  pub current : (p : Pool) → s.channel_pool ≡ some p → s.connection ≡ some p.connection
  pub none_disposing : s.disposing ≡ 0
  pub none_closing_pool : s.closing_pool ≡ 0
  pub none_closing : s.closing_connection ≡ 0

signal-Fits : (s : Session) (o : Option Call) (a : Answer) → Fits s → Fits (signal s o a).0
unfolding signal signal_stage settle_call
signal-Fits s none a v = v
signal-Fits s (some c) a v = ground arith

announce-Fits : (n : ℕ) (ok : Bool) (s : Session) → Fits s → Fits (announce n ok s).0
unfolding announce announcement
announce-Fits zero ok s v = v
announce-Fits (suc n) true s v =
    announce-Fits n true (announcement s true).0 (signal-Fits s s.connect_promise _ v)
announce-Fits (suc n) false s v =
    announce-Fits n false (announcement s false).0 (signal-Fits s s.connect_promise _ v)

answer-Fits :
    (r : ℕ) (ok : Bool) (s : Session) (o : Option Call) → Fits s → Fits (answer r ok s o).0
unfolding answer answer_stage settle_call
answer-Fits r ok s none v = v
answer-Fits r ok s (some c) v = ground arith

-- Neither the slot nor the restores matter here.
abbrev Only : Session → Session → Type 0
Only s t =
    (t.channel_pool ≡ s.channel_pool)
    × (t.connection ≡ s.connection)
    × (t.disposing ≡ s.disposing)
    × (t.closing_pool ≡ s.closing_pool)
    × (t.closing_connection ≡ s.closing_connection)

Only-Fits : (s t : Session) → Only s t → Fits s → Fits t
Only-Fits s t e v = record {
  current = λ p h. ground (arith, v.current p, e);
  none_disposing = ground (arith, v, e);
  none_closing_pool = ground (arith, v, e);
  none_closing = ground (arith, v, e);
}

finish-Fits : (s : Session) (r : ℕ) (q : Restore) (ok : Bool) → Fits s → Fits (finish s r q ok).0
unfolding finish
finish-Fits s r q ok v =
    let u = announce-Fits q.reconnections ok _ (Only-Fits s _ (refl, refl, refl, refl, refl) v) in
    answer-Fits r ok _ _ u

install-Fits :
    (s : Session) (r : ℕ) (q : Restore) (o : Option ℕ) → Fits s → Fits (install s r q o).0
unfolding install enter
install-Fits s r q none v = finish-Fits s r q false v
install-Fits s r q (some c) v = elim (Bool-cases (is_number s.connection c)) [
  | inl t ↦ rw t (record {
    current = λ p h. ground (arith, is_number→ s.connection c t);
    none_disposing = v.none_disposing;
    none_closing_pool = v.none_closing_pool;
    none_closing = v.none_closing;
  })
  | inr t ↦ rw t (Only-Fits s _ (refl, refl, refl, refl, refl) v)
]

abandon-Fits : (s : Session) (r : ℕ) (q : Restore) → Fits s → Fits (abandon s r q).0
unfolding abandon enter
abandon-Fits s r q v = elim (Bool-cases (is_number (pool_number s.channel_pool) r)) [
  | inl t ↦ rw t (record {
    current = λ p h. cc;
    none_disposing = v.none_disposing;
    none_closing_pool = v.none_closing_pool;
    none_closing = v.none_closing;
  })
  | inr t ↦ rw t (finish-Fits s r q false v)
]

advance-Fits :
    (s : Session) (r : ℕ) (q : Restore) (f : Phase) (ok : Bool)
    → Fits s
    → Fits (advance s r q f ok).0
unfolding advance enter
advance-Fits s r q refused ok v = finish-Fits s r q false v
advance-Fits s r q initializing false v = finish-Fits s r q false v
advance-Fits s r q initializing true v = install-Fits s r q q.built_on v
advance-Fits s r q discarding ok v = finish-Fits s r q false v
advance-Fits s r q asserting false v = abandon-Fits s r q v
advance-Fits s r q asserting true v = Only-Fits s _ (refl, refl, refl, refl, refl) v
advance-Fits s r q recreating false v = abandon-Fits s r q v
advance-Fits s r q recreating true v = finish-Fits s r q true v
advance-Fits s r q closing ok v = finish-Fits s r q false v

restore_step-Fits :
    (s : Session) (r : ℕ) (ok : Bool) (o : Option Restore) → Fits s → Fits (restore_step s r ok o).0
unfolding restore_step
restore_step-Fits s r ok none v = v
restore_step-Fits s r ok (some q) v = advance-Fits s r q q.phase ok v

restore_state-Only : (s : Session) (o : Option ℕ) → Only s (restore_state s o).0
unfolding restore_state
restore_state-Only s none = (refl, refl, refl, refl, refl)
restore_state-Only s (some r) = (refl, refl, refl, refl, refl)

join-Only : (s : Session) (r : ℕ) (o : Option Restore) → Only s (join s r o)
unfolding join
join-Only s r none = (refl, refl, refl, refl, refl)
join-Only s r (some q) = (refl, refl, refl, refl, refl)

reconnection-Only : (s : Session) → Only s (handle_reconnection s)
unfolding handle_reconnection
reconnection-Only s =
    let t = restore_state s s.restore_promise in
    ground
      (arith, restore_state-Only s s.restore_promise, join-Only t.0 t.1 (Map.get t.0.restores t.1))

connect-Only : (s : Session) (a b : Bool) (o : Option Call) → Only s (connect_step s a b o)
unfolding connect_step
connect-Only s a b none = (refl, refl, refl, refl, refl)
connect-Only s a b (some c) = (refl, refl, refl, refl, refl)

take-Only : (s : Session) (c : Call) (d : ℕ) (o : Option Pool) → Only s (take_connection s c d o).0
unfolding take_connection settle_call
take-Only s c d (some p) = (refl, refl, refl, refl, refl)
take-Only s c d none = restore_state-Only s s.restore_promise

after_dial-Only : (s : Session) (c : Call) (o : Option ℕ) → Only s (after_dial s c o).0
unfolding after_dial park settle_call
after_dial-Only s c none = ground arith
after_dial-Only s c (some d) = take-Only s c d s.channel_pool

dial_stage-Only :
    (s : Session) (c : Call) (f : Stage) (o : Option ℕ) → Only s (dial_stage s c f o).0
unfolding dial_stage
dial_stage-Only s c dialing o = after_dial-Only s c o
dial_stage-Only s c (restoring r d) o = (refl, refl, refl, refl, refl)
dial_stage-Only s c parked o = (refl, refl, refl, refl, refl)

dial_step-Only : (s : Session) (k : Option Call) (o : Option ℕ) → Only s (dial_step s k o).0
unfolding dial_step
dial_step-Only s none o = (refl, refl, refl, refl, refl)
dial_step-Only s (some c) o = dial_stage-Only s c c.stage o

timeout-Fits : (s : Session) (k : Option Call) → Fits s → Fits (timeout_step s k).0
unfolding timeout_step
timeout-Fits s none v = v
timeout-Fits s (some c) v = ground (arith, signal-Fits s (some c) _ v)

-- No connection is replaced: it was lost first, and the pool with it.
open-Fits :
    (s : Session) (o : Option ℕ) (n : ℕ)
    → s.connection ≡ o
    → s.closing_connection ≡ n
    → Fits s
    → Fits (open_event s o n)
unfolding open_event open_step
open-Fits s none n e f v = record {
  current = λ p h. ground (arith, v.current p h);
  none_disposing = v.none_disposing;
  none_closing_pool = v.none_closing_pool;
  none_closing = v.none_closing;
}
open-Fits s (some c) zero e f v = v
open-Fits s (some c) (suc n) e f v = absurd (omega (arith, v.none_closing, f))

loses-Fits : (s : Session) → Fits s → Fits (handle_disconnection (record s { connection = none })).0
unfolding handle_disconnection
loses-Fits s v = record {
  current = λ p h. cc;
  none_disposing = v.none_disposing;
  none_closing_pool = v.none_closing_pool;
  none_closing = v.none_closing;
}

gives_up-Fits : (s : Session) → Fits s → Fits (step s gives_up).0
unfolding step
gives_up-Fits s v =
    let t = record s { has_failed = true } in
    signal-Fits t t.connect_promise _ (Only-Fits s t (refl, refl, refl, refl, refl) v)

-- What only a disconnect() waits for changes nothing.
disposed-Fits : (s : Session) (n : ℕ) → s.disposing ≡ n → Fits s → Fits (disposed_event s n).0
unfolding disposed_event
disposed-Fits s zero e v = v
disposed-Fits s (suc n) e v = absurd (omega (arith, v.none_disposing, e))

pool_closed-Fits :
    (s : Session) (n : ℕ) → s.closing_pool ≡ n → Fits s → Fits (pool_closed_event s n).0
unfolding pool_closed_event
pool_closed-Fits s zero e v = v
pool_closed-Fits s (suc n) e v = absurd (omega (arith, v.none_closing_pool, e))

closed-Fits :
    (s : Session) (n : ℕ) → s.closing_connection ≡ n → Fits s → Fits (connection_closed_event s n).0
unfolding connection_closed_event
closed-Fits s zero e v = v
closed-Fits s (suc n) e v = absurd (omega (arith, v.none_closing, e))

step-Fits : (s : Session) (e : Event) → NoDisconnect e → Fits s → Fits (step s e).0
unfolding step
step-Fits s opens h v = open-Fits s s.connection s.closing_connection refl refl v
step-Fits s loses h v = loses-Fits s v
step-Fits s gives_up h v = unfold step in gives_up-Fits s v
step-Fits s reconnects h v = Only-Fits s _ (reconnection-Only s) v
step-Fits s (connects a b) h v = Only-Fits s _ (connect-Only s a b s.connect_promise) v
step-Fits s (dial_settles o) h v = Only-Fits s _ (dial_step-Only s s.connect_promise o) v
step-Fits s (restore_returns r ok) h v = restore_step-Fits s r ok (Map.get s.restores r) v
step-Fits s times_out h v = timeout-Fits s s.connect_promise v
step-Fits s disconnects h v = absurd h
step-Fits s consumers_disposed h v = disposed-Fits s s.disposing refl v
step-Fits s pool_closed h v = pool_closed-Fits s s.closing_pool refl v
step-Fits s connection_closed h v = closed-Fits s s.closing_connection refl v

run-Fits : (es : List Event) (s : Session) → All NoDisconnect es → Fits s → Fits (run s es).0
unfolding run
run-Fits [] s h v = v
run-Fits (e ∷ es) s h v = run-Fits es (step s e).0 h.1 (step-Fits s e h.0 v)

-- Whatever happens from the constructor on, in whatever order, as long as disconnect() is not called:
-- a pool that is in place was built on the connection that is in place.
pub reachable_pool-IsCurrent :
    (es : List Event) (p : Pool)
    → All NoDisconnect es
    → (run init es).0.channel_pool ≡ some p
    → (run init es).0.connection ≡ some p.connection
reachable_pool-IsCurrent es p h e =
    let z : Fits init =
      unfold init in
      record {
        current = λ q d. cc;
        none_disposing = refl;
        none_closing_pool = refl;
        none_closing = refl;
      } in
    let v = run-Fits es init h z in v.current p e
