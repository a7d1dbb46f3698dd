-- ===== src/Tests/Facade.antt =====
-- Runs of the model of src/index.js at concrete inputs.
use rabbitmq.Base.{
  ℕ, ◌+◌, ◌≡◌, ◌≢◌, refl, true, false, none, some, ident_ℕ, ℕ_discrete, List, [], ◌∷◌, ◌++◌, arith,
}
use rabbitmq.Base.Map
use rabbitmq.Base.Tally.{sum_list}
use rabbitmq.Facade.Session.{
  initializing, recreating, asserting, Restore, Pool, dialing, parked, Call, Session, Event, opens,
  loses, reconnects, connects, dial_settles, restore_returns, disconnects, consumers_disposed,
  pool_closed, connection_closed, init, first_phase, restore_state, join, handle_reconnection,
  settle_call, signal, signal_stage, close_pool, handle_disconnection, is_number, rejected,
  was_disconnected,
}
use rabbitmq.Facade.Session.Steps.{
  enter, install, advance, restore_step, connect_step, take_connection, park, after_dial,
  dial_stage, dial_step, disconnect_step, open_step, open_event, step, run,
}
use rabbitmq.Facade.Session.Stale.{restores-are_one, stale_restore-Keeps}
use rabbitmq.Facade.Session.Current.{reachable_pool-IsCurrent}
use rabbitmq.Facade.Session.Waiters.{callers-are_answered_once, waiting, answered, made}
use rabbitmq.Facade.Session.Calls.{awaited_restore-settles}
use rabbitmq.Facade.Session.Calls.Stages.{waits_for}
use rabbitmq.Facade.Session.Signals.{signals-answer, shut_down, answers}
use rabbitmq.Facade.Session.Overlap.{says_connected, connect-joins_stale, connect-keeps_dead_pool}

abbrev begins : List Event
begins = connects false false ∷ opens ∷ dial_settles (some 0) ∷ []

abbrev first : Restore
first = record { built_on = some 0; phase = initializing; reconnections = 0 }

restores-are_one_example : (◌≡◌ {A = ℕ} 0 0) × ((run init begins).0.restore_promise ≡ some 0)
unfolding run step init open_event open_step connect_step dial_step dial_stage after_dial
    take_connection restore_state first_phase Map.get Map.set ℕ_discrete
restores-are_one_example = restores-are_one begins 0 0 0 first first refl refl refl refl refl

-- A restore is dropped by a disconnection, and the next one installs its pool.
abbrev turnover : List Event
turnover = opens ∷ reconnects ∷ loses ∷ opens ∷ reconnects ∷ restore_returns 1 true ∷ []

turnover-slot : (run init turnover).0.restore_promise ≡ some 1
unfolding run step init open_event open_step handle_reconnection join restore_state first_phase
    handle_disconnection close_pool restore_step advance install enter is_number Map.get Map.set
    ℕ_discrete
turnover-slot = refl

stale_restore-Keeps_example :
    let s = (run init turnover).0 in
    let t = (step s (restore_returns 0 true)).0 in
    (t.channel_pool ≡ s.channel_pool) × (t.restore_promise ≡ s.restore_promise)
stale_restore-Keeps_example =
    stale_restore-Keeps turnover 0 true (λ e. absurd (slots turnover-slot e))
  where
    slots :
        (run init turnover).0.restore_promise ≡ some 1
        → (run init turnover).0.restore_promise ≡ some 0
        → ⊥
    slots a b = ground arith

abbrev second_pool : Pool
second_pool = record { id = 1; connection = 1 }

turnover-pool : (run init turnover).0.channel_pool ≡ some second_pool
unfolding run step init open_event open_step handle_reconnection join restore_state first_phase
    handle_disconnection close_pool restore_step advance install enter is_number Map.get Map.set
    ℕ_discrete
turnover-pool = refl

reachable_pool-IsCurrent_example : (run init turnover).0.connection ≡ some 1
reachable_pool-IsCurrent_example =
    reachable_pool-IsCurrent turnover second_pool (omega arith) turnover-pool

abbrev three_callers : List Event
three_callers =
    connects true false
    ∷ connects true true
    ∷ dial_settles none
    ∷ connects false false
    ∷ disconnects
    ∷ []

callers-are_answered_once_example :
    let r = run init three_callers in waiting r.0 + sum_list answered r.1 ≡ made three_callers
callers-are_answered_once_example = callers-are_answered_once three_callers

-- Three callers, and all have their answer.
three-are_answered : sum_list answered (run init three_callers).1 ≡ 3
unfolding run step init connect_step dial_step dial_stage after_dial park signal signal_stage
    settle_call disconnect_step
three-are_answered = refl

abbrev four_returns : List Event
four_returns =
    restore_returns 0 true
    ∷ loses
    ∷ restore_returns 0 false
    ∷ opens
    ∷ restore_returns 0 true
    ∷ restore_returns 0 true
    ∷ []

begins-waits : waits_for (run init begins).0.connect_promise ≡ some 0
unfolding run step init open_event open_step connect_step dial_step dial_stage after_dial
    take_connection restore_state first_phase
begins-waits = refl

awaited_restore-settles_example :
    let t = (run init (begins ++ four_returns)).0 in
    (Map.get (run init begins).0.restores 0 ≢ none)
    × (Map.get t.restores 0 ≡ none)
    × (waits_for t.connect_promise ≢ some 0)
awaited_restore-settles_example =
    awaited_restore-settles begins four_returns 0 begins-waits (omega arith)

abbrev waiting_call : Call
waiting_call = record { waits = true; is_timed = false; callers = 1; stage = parked }

abbrev waiting_client : Session
unfolding init
waiting_client = record init { connect_promise = some waiting_call }

signals-answer_example :
    ((step waiting_client disconnects).0.connect_promise ≡ none)
    × (answers (step waiting_client disconnects).1 ≡ (1, rejected was_disconnected) ∷ [])
unfolding waiting_client
signals-answer_example =
    signals-answer waiting_client waiting_call disconnects (rejected was_disconnected) refl
      (shut_down refl)

-- A restore of a reconnection that recreates the consumers.
abbrev recreating_one : Restore
recreating_one = record { built_on = some 0; phase = recreating; reconnections = 1 }

abbrev recreates : List Event
recreates = opens ∷ reconnects ∷ restore_returns 0 true ∷ restore_returns 0 true ∷ []

abbrev recreating_client : Session
unfolding init
recreating_client = record init {
  connection = some 0;
  channel_pool = some (record { id = 0; connection = 0 });
  restore_promise = some 0;
  restores = (0, recreating_one) ∷ [];
  next_connection = 1;
  next_restore = 1;
}

-- The client does come to that state.
recreates-reaches : (run init recreates).0 ≡ recreating_client
unfolding recreating_client run step init open_event open_step handle_reconnection join
    restore_state first_phase restore_step advance install enter is_number Map.get Map.set
    ℕ_discrete
recreates-reaches = refl

connect-joins_stale_example :
    let t = run recreating_client (
      disconnects
      ∷ consumers_disposed
      ∷ pool_closed
      ∷ connection_closed
      ∷ connects false false
      ∷ opens
      ∷ dial_settles (some 1)
      ∷ restore_returns 0 true
      ∷ []) in
    (says_connected t.1 1 ≡ true) × (t.0.connection ≡ some 1) × (t.0.channel_pool ≡ none)
unfolding recreating_client init Map.get ℕ_discrete
connect-joins_stale_example =
    connect-joins_stale recreating_client 0 0 (record { id = 0; connection = 0 }) recreating_one
      refl refl refl refl refl refl refl refl refl refl

-- A disconnect() while the pool is built.
abbrev building : Session
unfolding init
building = record init {
  connection = some 0;
  restore_promise = some 0;
  restores = (0, first) ∷ [];
  closing_connection = 1;
  next_connection = 1;
  next_restore = 1;
}

connect-keeps_dead_pool_example :
    let t = run building (
      restore_returns 0 true
      ∷ connection_closed
      ∷ connects false false
      ∷ opens
      ∷ dial_settles (some 1)
      ∷ []) in
    (says_connected t.1 1 ≡ true)
    × (t.0.connection ≡ some 1)
    × (t.0.channel_pool ≡ some (record { id = 0; connection = 0 }))
    × (◌≢◌ {A = ℕ} 0 1)
unfolding building init Map.get ℕ_discrete
connect-keeps_dead_pool_example =
    connect-keeps_dead_pool building 0 0 0 first refl refl refl refl refl refl (omega arith)

abbrev restoring_client : Session
unfolding init
restoring_client = record init {
  connection = some 0;
  channel_pool = some (record { id = 0; connection = 0 });
  restore_promise = some 0;
  restores = (0, recreating_one) ∷ [];
  next_connection = 1;
  next_restore = 1;
}

abbrev manual_call : Call
manual_call = record { waits = false; is_timed = false; callers = 1; stage = dialing }

abbrev asserting_one : Restore
asserting_one = record recreating_one { phase = asserting }

abbrev dialing_client : Session
unfolding restoring_client
dialing_client = record restoring_client {
  restores = (0, asserting_one) ∷ [];
  connect_promise = some manual_call;
}
