-- ===== src/Facade/Session/Endings.antt =====
-- A restore ends, however the other events fall between its awaits.
use rabbitmq.Base.{
  ℕ, ◌+◌, ◌-◌, ◌<◌, ◌≤◌, ◌≡◌, refl, Bool, true, false, Option, none, some, ◌==◌, if◌then◌else◌,
  ident_ℕ, List, [], ◌∷◌, arith,
}
use rabbitmq.Base.Map
use rabbitmq.Base.Map.{get-set, get-delete}
use rabbitmq.Facade.Session.{
  Phase, refused, initializing, discarding, asserting, recreating, closing, Restore, Pool, Stage,
  dialing, restoring, parked, Call, Session, Event, opens, loses, gives_up, reconnects, connects,
  dial_settles, restore_returns, times_out, disconnects, consumers_disposed, pool_closed,
  connection_closed, rejected, all_failed, was_disconnected, Step, restore_state, join, first_phase,
  handle_reconnection, settle_call, signal, handle_disconnection, is_number, announce, release,
  finish,
}
use rabbitmq.Facade.Session.Steps.{
  enter, install, pool_number, abandon, advance, restore_step, take_connection, after_dial,
  dial_stage, dial_step, disconnect_step, disposed_step, disposed_event, pool_closed_step,
  pool_closed_event, connection_closed_event, open_step, open_event, step, run,
}
use rabbitmq.Facade.Session.Ownership.{Same, signal-Same, announce-Same, answer-Same}
use rabbitmq.Facade.Session.Ownership.Reachable.{park-Same, timeout-Same, connect-Same}

-- How many awaits a restore can still make, this one included.
abbrev pub rank : Phase → ℕ
rank initializing = 4
rank asserting = 3
rank recreating = 2
rank _ = 1

abbrev pub left : Option Restore → ℕ
left none = 0
left (some q) = rank q.phase

-- What a settled restore leaves.
pub finish_lem :
    (s : Session) (j : ℕ) (q : Restore) (ok : Bool)
    → let t = (finish s j q ok).0 in
      (t.restores ≡ Map.delete s.restores j) × (t.next_restore ≡ s.next_restore)
unfolding finish
finish_lem s j q ok =
    let t : Session = record s {
      restores = Map.delete s.restores j;
      restore_promise = release s.restore_promise j;
    } in
    let u = (announce q.reconnections ok t).0 in
    ground (arith, announce-Same q.reconnections ok t, answer-Same j ok u u.connect_promise)

module _ (r : ℕ) where
  abbrev pub awaits : Session → ℕ
  awaits s = left (Map.get s.restores r)

  abbrev pub is_return : Event → ℕ
  is_return (restore_returns j ok) = if j == r then 1 else 0
  is_return _ = 0

  -- One await is behind it, where `n` is 1. It does not run anew.
  abbrev Moves : ℕ → Session → Session → Type 0
  Moves n s t = (awaits t ≤ awaits s - n) × (s.next_restore ≤ t.next_restore)

  Same-Moves : (s t : Session) → Same s t → Moves 0 s t
  Same-Moves s t e = ground (arith, e)

  choose-Moves :
      (b : Bool) (n : ℕ) (s : Session) (x y : Step)
      → Moves n s x.0
      → Moves n s y.0
      → Moves n s (if b then x else y).0
  choose-Moves true n s x y g h = g
  choose-Moves false n s x y g h = h

  finish-Moves :
      (s : Session) (j : ℕ) (q : Restore) (ok : Bool)
      → Moves (if j == r then 1 else 0) s (finish s j q ok).0
  finish-Moves s j q ok = ground (arith, finish_lem s j q ok, get-delete s.restores j r)

  enter-Moves :
      (s : Session) (j : ℕ) (q : Restore) (f : Phase)
      → Map.get s.restores j ≡ some q
      → rank f < rank q.phase
      → Moves (if j == r then 1 else 0) s (enter s j q f)
  unfolding enter
  enter-Moves s j q f e h = ground (arith, get-set s.restores j r (record q { phase = f }))

  install-Moves :
      (s : Session) (j : ℕ) (q : Restore) (o : Option ℕ)
      → Map.get s.restores j ≡ some q
      → q.phase ≡ initializing
      → Moves (if j == r then 1 else 0) s (install s j q o).0
  unfolding install
  install-Moves s j q none e h = finish-Moves s j q false
  install-Moves s j q (some c) e h =
      choose-Moves (is_number s.connection c) _ s _ _
        (enter-Moves s j q asserting e (ground (arith, h)))
        (enter-Moves s j q discarding e (ground (arith, h)))

  abandon-Moves :
      (s : Session) (j : ℕ) (q : Restore)
      → Map.get s.restores j ≡ some q
      → rank closing < rank q.phase
      → Moves (if j == r then 1 else 0) s (abandon s j q).0
  unfolding abandon
  abandon-Moves s j q e h =
      choose-Moves (is_number (pool_number s.channel_pool) j) _ s _ _
        (enter-Moves s j q closing e h) (finish-Moves s j q false)

  advance-Moves :
      (s : Session) (j : ℕ) (q : Restore) (f : Phase) (ok : Bool)
      → Map.get s.restores j ≡ some q
      → q.phase ≡ f
      → Moves (if j == r then 1 else 0) s (advance s j q f ok).0
  unfolding advance
  advance-Moves s j q refused ok e h = finish-Moves s j q false
  advance-Moves s j q initializing false e h = finish-Moves s j q false
  advance-Moves s j q initializing true e h = install-Moves s j q q.built_on e h
  advance-Moves s j q discarding ok e h = finish-Moves s j q false
  advance-Moves s j q asserting false e h = abandon-Moves s j q e (ground (arith, h))
  advance-Moves s j q asserting true e h = enter-Moves s j q recreating e (ground (arith, h))
  advance-Moves s j q recreating false e h = abandon-Moves s j q e (ground (arith, h))
  advance-Moves s j q recreating true e h = finish-Moves s j q true
  advance-Moves s j q closing ok e h = finish-Moves s j q false

  restore_step-Moves :
      (s : Session) (j : ℕ) (ok : Bool) (o : Option Restore)
      → Map.get s.restores j ≡ o
      → Moves (if j == r then 1 else 0) s (restore_step s j ok o).0
  unfolding restore_step
  restore_step-Moves s j ok none e = ground arith
  restore_step-Moves s j ok (some q) e = advance-Moves s j q q.phase ok e refl

  -- The restore has begun, so none that begins now has its number.
  restore_state-Moves :
      (s : Session) (o : Option ℕ) → r < s.next_restore → Moves 0 s (restore_state s o).0
  unfolding restore_state
  restore_state-Moves s none k =
      let q : Restore = record {
        built_on = s.connection;
        phase = first_phase s.connection;
        reconnections = 0;
      } in
      ground (arith, get-set s.restores s.next_restore r q)
  restore_state-Moves s (some j) k = ground arith

  join-Moves :
      (s : Session) (j : ℕ) (o : Option Restore) → Map.get s.restores j ≡ o → Moves 0 s (join s j o)
  unfolding join
  join-Moves s j none e = ground arith
  join-Moves s j (some q) e =
      ground (arith, get-set s.restores j r (record q { reconnections = q.reconnections + 1 }))

  reconnection-Moves : (s : Session) → r < s.next_restore → Moves 0 s (handle_reconnection s)
  unfolding handle_reconnection
  reconnection-Moves s k =
      let t = restore_state s s.restore_promise in
      let a = restore_state-Moves s s.restore_promise k in
      let b = join-Moves t.0 t.1 (Map.get t.0.restores t.1) refl in
      omega (arith, a.0, a.1, b.0, b.1)

  take-Moves :
      (s : Session) (c : Call) (d : ℕ) (o : Option Pool)
      → r < s.next_restore
      → Moves 0 s (take_connection s c d o).0
  unfolding take_connection settle_call
  take-Moves s c d (some p) k = ground arith
  take-Moves s c d none k = restore_state-Moves s s.restore_promise k

  after_dial-Moves :
      (s : Session) (c : Call) (o : Option ℕ) → r < s.next_restore → Moves 0 s (after_dial s c o).0
  unfolding after_dial
  after_dial-Moves s c none k = Same-Moves s _ (park-Same s c)
  after_dial-Moves s c (some d) k = take-Moves s c d s.channel_pool k

  dial_stage-Moves :
      (s : Session) (c : Call) (f : Stage) (o : Option ℕ)
      → r < s.next_restore
      → Moves 0 s (dial_stage s c f o).0
  unfolding dial_stage
  dial_stage-Moves s c dialing o k = after_dial-Moves s c o k
  dial_stage-Moves s c (restoring j d) o k = ground arith
  dial_stage-Moves s c parked o k = ground arith

  dial_step-Moves :
      (s : Session) (a : Option Call) (o : Option ℕ)
      → r < s.next_restore
      → Moves 0 s (dial_step s a o).0
  unfolding dial_step
  dial_step-Moves s none o k = ground arith
  dial_step-Moves s (some c) o k = dial_stage-Moves s c c.stage o k

  step-Moves : (s : Session) (e : Event) → r < s.next_restore → Moves (is_return e) s (step s e).0
  unfolding step
  step-Moves s opens k = unfold open_event open_step in ground arith
  step-Moves s loses k = unfold handle_disconnection in ground arith
  step-Moves s gives_up k =
      let t = record s { has_failed = true } in
      Same-Moves t (signal t t.connect_promise (rejected all_failed)).0
        (signal-Same t t.connect_promise (rejected all_failed))
  step-Moves s reconnects k = reconnection-Moves s k
  step-Moves s (connects a b) k = Same-Moves s _ (connect-Same s a b s.connect_promise)
  step-Moves s (dial_settles o) k = dial_step-Moves s s.connect_promise o k
  step-Moves s (restore_returns j ok) k = restore_step-Moves s j ok (Map.get s.restores j) refl
  step-Moves s times_out k = Same-Moves s _ (timeout-Same s s.connect_promise)
  step-Moves s disconnects k =
      unfold disconnect_step in
      Same-Moves s (signal s s.connect_promise (rejected was_disconnected)).0
        (signal-Same s s.connect_promise (rejected was_disconnected))
  step-Moves s consumers_disposed k = unfold disposed_event disposed_step in ground arith
  step-Moves s pool_closed k = unfold pool_closed_event pool_closed_step in ground arith
  step-Moves s connection_closed k = unfold connection_closed_event in ground arith

  abbrev pub returns : List Event → ℕ
  returns [] = 0
  returns (e ∷ es) = is_return e + returns es

  pub run-Moves :
      (es : List Event) (s : Session) → r < s.next_restore → Moves (returns es) s (run s es).0
  unfolding run
  run-Moves [] s k = omega arith
  run-Moves (e ∷ es) s k =
      let a = step-Moves s e k in
      let b = run-Moves es (step s e).0 (omega (arith, a.1, k)) in omega (arith, a.0, a.1, b.0, b.1)
