-- ===== src/Facade/Session/Calls.antt =====
-- A call of connect() that waits for a restore.
pub mod Stages
use rabbitmq.Base.{
  ℕ, zero, suc, ◌+◌, ◌<◌, ◌≤◌, ◌≡◌, ◌≢◌, refl, Bool, true, false, Option, none, some, if◌then◌else◌,
  ident_ℕ, List, [], ◌∷◌, ◌++◌, arith,
}
use rabbitmq.Base.Map
use rabbitmq.Base.Map.{get-set, get-delete}
use rabbitmq.Facade.Session.{
  Phase, refused, initializing, discarding, asserting, recreating, closing, Restore, Pool, Stage,
  dialing, restoring, parked, Call, Session, Event, opens, loses, gives_up, reconnects, connects,
  dial_settles, restore_returns, times_out, disconnects, consumers_disposed, pool_closed,
  connection_closed, Answer, rejected, all_failed, was_disconnected, timed_out, Step, restore_state,
  join, first_phase, handle_reconnection, settle_call, signal, signal_stage, handle_disconnection,
  is_number, announcement, announce, answer, answer_stage, release, finish, init,
}
use rabbitmq.Facade.Session.Steps.{
  enter, install, pool_number, abandon, advance, restore_step, connect_step, take_connection, park,
  after_dial, dial_stage, dial_step, timeout_step, disconnect_step, disposed_step, disposed_event,
  pool_closed_step, pool_closed_event, connection_closed_event, open_step, open_event, step, run,
}
use rabbitmq.Facade.Session.Ownership.{Inv, init-Inv, signal-Same}
use rabbitmq.Facade.Session.Ownership.Reachable.{step-Inv, run-Inv, timeout-Same, connect-Same}
use rabbitmq.Facade.Session.Endings.{finish_lem, left, returns, run-Moves}
use rabbitmq.Facade.Session.Calls.Stages.{waits_for, Runs, Fewer, signal-Fewer, restore_step-Runs}

-- The slot's restore runs, and the others still do.
restore_state-runs :
    (s : Session) (o : Option ℕ) (r : ℕ)
    → s.restore_promise ≡ o
    → Inv s
    → let t = restore_state s o in
      (Map.get t.0.restores t.1 ≢ none)
      × (Map.get s.restores r ≢ none → Map.get t.0.restores r ≢ none)
unfolding restore_state
restore_state-runs s none r e v =
    let q : Restore = record {
      built_on = s.connection;
      phase = first_phase s.connection;
      reconnections = 0;
    } in
    ground (
      arith,
      get-set s.restores s.next_restore s.next_restore q,
      get-set s.restores s.next_restore r q,
    )
restore_state-runs s (some j) r e v = (v.slot_runs j e, λ h. h)

join-runs :
    (s : Session) (j r : ℕ) (o : Option Restore)
    → Map.get s.restores r ≢ none
    → Map.get (join s j o).restores r ≢ none
unfolding join
join-runs s j r none h = h
join-runs s j r (some q) h =
    ground (arith, get-set s.restores j r (record q { reconnections = q.reconnections + 1 }))

reconnection-Runs : (s : Session) → Inv s → Runs s → Runs (handle_reconnection s)
reconnection-Runs s w v r h =
    let t = restore_state s s.restore_promise in
    let k : waits_for s.connect_promise ≡ some r =
      unfold handle_reconnection restore_state join in ground arith in
    unfold handle_reconnection in
    join-runs t.0 t.1 r (Map.get t.0.restores t.1)
      ((restore_state-runs s s.restore_promise r refl w).1 (v r k))

take-Runs :
    (s : Session) (c : Call) (d : ℕ) (o : Option Pool) → Inv s → Runs (take_connection s c d o).0
unfolding take_connection settle_call
take-Runs s c d (some p) w r h = cc
take-Runs s c d none w r h = ground (arith, restore_state-runs s s.restore_promise r refl w)

after_dial-Runs :
    (s : Session) (c : Call) (o : Option ℕ) → Inv s → Runs s → Runs (after_dial s c o).0
unfolding after_dial
after_dial-Runs s c none w v r h = unfold park settle_call in ground arith
after_dial-Runs s c (some d) w v r h = take-Runs s c d s.channel_pool w r h

dial_stage-Runs :
    (s : Session) (c : Call) (f : Stage) (o : Option ℕ)
    → Inv s
    → Runs s
    → Runs (dial_stage s c f o).0
unfolding dial_stage
dial_stage-Runs s c dialing o w v = after_dial-Runs s c o w v
dial_stage-Runs s c (restoring r d) o w v = v
dial_stage-Runs s c parked o w v = v

dial_step-Runs :
    (s : Session) (k : Option Call) (o : Option ℕ) → Inv s → Runs s → Runs (dial_step s k o).0
unfolding dial_step
dial_step-Runs s none o w v = v
dial_step-Runs s (some c) o w v = dial_stage-Runs s c c.stage o w v

timeout-Fewer : (s : Session) (k : Option Call) → Fewer s (timeout_step s k).0
unfolding timeout_step
timeout-Fewer s none r h = h
timeout-Fewer s (some c) r h = ground (arith, signal-Fewer s (some c) (rejected timed_out) r)

connect-Fewer :
    (s : Session) (a b : Bool) (k : Option Call)
    → s.connect_promise ≡ k
    → Fewer s (connect_step s a b k)
unfolding connect_step
connect-Fewer s a b none e r h = cc
connect-Fewer s a b (some c) e r h = ground (arith, e)

-- A step that leaves the restores.
quiet-Runs : (s t : Session) → t.restores ≡ s.restores → Fewer s t → Runs s → Runs t
quiet-Runs s t e f v r h = ground (arith, v r (f r h), e)

step-Runs : (s : Session) (e : Event) → Inv s → Runs s → Runs (step s e).0
unfolding step
step-Runs s opens w v =
    quiet-Runs s (open_event s s.connection s.closing_connection)
      (unfold open_event open_step in ground arith)
      (λ r h. unfold open_event open_step in ground arith) v
step-Runs s loses w v = unfold handle_disconnection in v
step-Runs s gives_up w v =
    let t = record s { has_failed = true } in
    quiet-Runs s (signal t t.connect_promise (rejected all_failed)).0
      (signal-Same t t.connect_promise (rejected all_failed)).restores
      (signal-Fewer t t.connect_promise (rejected all_failed)) v
step-Runs s reconnects w v = reconnection-Runs s w v
step-Runs s (connects a b) w v =
    quiet-Runs s (connect_step s a b s.connect_promise)
      (connect-Same s a b s.connect_promise).restores (connect-Fewer s a b s.connect_promise refl) v
step-Runs s (dial_settles o) w v = dial_step-Runs s s.connect_promise o w v
step-Runs s (restore_returns j ok) w v = restore_step-Runs s j ok (Map.get s.restores j) v
step-Runs s times_out w v =
    quiet-Runs s (timeout_step s s.connect_promise).0 (timeout-Same s s.connect_promise).restores
      (timeout-Fewer s s.connect_promise) v
step-Runs s disconnects w v =
    unfold disconnect_step in
    quiet-Runs s (signal s s.connect_promise (rejected was_disconnected)).0
      (signal-Same s s.connect_promise (rejected was_disconnected)).restores
      (signal-Fewer s s.connect_promise (rejected was_disconnected)) v
step-Runs s consumers_disposed w v =
    unfold disposed_event disposed_step in λ r h. ground (arith, v r)
step-Runs s pool_closed w v =
    unfold pool_closed_event pool_closed_step in λ r h. ground (arith, v r)
step-Runs s connection_closed w v = unfold connection_closed_event in λ r h. ground (arith, v r)

run-Runs : (es : List Event) (s : Session) → Inv s → Runs s → Runs (run s es).0
unfolding run
run-Runs [] s w v = v
run-Runs (e ∷ es) s w v = run-Runs es (step s e).0 (step-Inv s e w) (step-Runs s e w v)

run-append : (es fs : List Event) (s : Session) → (run s (es ++ fs)).0 ≡ (run (run s es).0 fs).0
unfolding run
run-append [] fs s = refl
run-append (e ∷ es) fs s = run-append es fs (step s e).0

left-le : (o : Option Restore) → left o ≤ 4
left-le none = omega arith
left-le (some q) = ground arith

left-none : (o : Option Restore) → left o ≡ 0 → o ≡ none
left-none none e = refl
left-none (some q) e = ground arith

known :
    (s : Session) (r : ℕ) (o : Option Restore)
    → Map.get s.restores r ≡ o
    → Inv s
    → o ≢ none
    → r < s.next_restore
known s r none e w n = absurd (n refl)
known s r (some q) e w n = let u = w.running r q e in u.known

-- From the constructor on: a call of connect() that waits for a restore waits for one that runs, and
-- once that restore has come back from four more awaits, whatever they brought and whatever happened
-- between them, the restore has settled and no call waits for it.
pub awaited_restore-settles :
    (es fs : List Event) (r : ℕ)
    → waits_for (run init es).0.connect_promise ≡ some r
    → 4 ≤ returns r fs
    → let t = (run init (es ++ fs)).0 in
      (Map.get (run init es).0.restores r ≢ none)
      × (Map.get t.restores r ≡ none)
      × (waits_for t.connect_promise ≢ some r)
awaited_restore-settles es fs r h n =
    let s = (run init es).0 in
    let z : Runs init = unfold init in λ j k. cc in
    let v = run-Runs es init init-Inv z in
    let w = run-Inv es init init-Inv in
    let x = run-Runs (es ++ fs) init init-Inv z in
    let k = known s r (Map.get s.restores r) refl w (v r h) in
    let m = run-Moves r fs s k in
    let a : left (Map.get (run init (es ++ fs)).0.restores r) ≡ 0 =
      rw (run-append es fs init) (omega (arith, left-le (Map.get s.restores r), m.0)) in
    let b = left-none (Map.get (run init (es ++ fs)).0.restores r) a in (v r h, b, λ g. x r g b)
