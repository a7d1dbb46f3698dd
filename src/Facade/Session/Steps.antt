-- ===== src/Facade/Session/Steps.antt =====
-- The steps of src/index.js's connect(), restore and disconnect(): what follows each await.
use rabbitmq.Base.{
  ℕ, zero, suc, ◌+◌, Bool, true, false, Option, none, some, if◌then◌else◌, ident_ℕ, List, [], ◌∷◌,
}
use rabbitmq.Base.Map
use rabbitmq.Facade.Session.{
  Phase, refused, initializing, discarding, asserting, recreating, closing, Restore, Pool, Stage,
  dialing, restoring, parked, Call, Session, Event, opens, loses, gives_up, reconnects, connects,
  dial_settles, restore_returns, times_out, disconnects, consumers_disposed, pool_closed,
  connection_closed, resolved, rejected, all_failed, was_disconnected, timed_out, recreates_all,
  closes_pool, resets_breaker, loses_rpc, reconnect_failed, is_disconnected, is_disconnecting, Step,
  ◌then_do◌, restore_state, handle_reconnection, settle_call, signal, handle_disconnection,
  is_number, finish,
}

unfoldable pub enter : Session → ℕ → Restore → Phase → Session
enter s r q phase = record s { restores = Map.set s.restores r (record q { phase = phase }) }

-- The end of `#setupChannelPool`: a connection that has turned over is not built on.
unfoldable pub install : Session → ℕ → Restore → Option ℕ → Step
unfolding enter is_number
install s r q none = finish s r q false
install s r q (some c) =
    if is_number s.connection c
    then (
      enter (record s { channel_pool = some (record { id = r; connection = c }) }) r q asserting,
      [],
    )
    else (enter s r q discarding, closes_pool r ∷ [])

unfoldable pub pool_number : Option Pool → Option ℕ
pool_number none = none
pool_number (some p) = some p.id

-- The `catch` of `#doRestoreState`: only its own pool is torn down.
unfoldable pub abandon : Session → ℕ → Restore → Step
unfolding is_number pool_number enter
abandon s r q =
    if is_number (pool_number s.channel_pool) r
    then (enter (record s { channel_pool = none }) r q closing, closes_pool r ∷ [])
    else finish s r q false

-- `#doRestoreState` after each of its awaits. `refused`, and the closes, end in the error.
unfoldable pub advance : Session → ℕ → Restore → Phase → Bool → Step
unfolding install abandon enter
advance s r q refused ok = finish s r q false
advance s r q initializing false = finish s r q false
advance s r q initializing true = install s r q q.built_on
advance s r q discarding ok = finish s r q false
advance s r q asserting false = abandon s r q
advance s r q asserting true = (enter s r q recreating, recreates_all r ∷ [])
advance s r q recreating false = abandon s r q
advance s r q recreating true = (s, resets_breaker ∷ []) then_do (λ t. finish t r q true)
advance s r q closing ok = finish s r q false

unfoldable pub restore_step : Session → ℕ → Bool → Option Restore → Step
unfolding advance
restore_step s r ok none = (s, [])
restore_step s r ok (some q) = advance s r q q.phase ok

-- `connect`: one attempt in flight, shared. Its options are the first caller's.
unfoldable pub connect_step : Session → Bool → Bool → Option Call → Session
connect_step s waits is_timed none = record s {
  has_failed = false;
  connect_promise =
      some (record { waits = waits; is_timed = is_timed; callers = 1; stage = dialing });
}
connect_step s waits is_timed (some c) = record s {
  connect_promise = some (record c { callers = c.callers + 1 });
}

-- `#doConnect` after the dial.
unfoldable pub take_connection : Session → Call → ℕ → Option Pool → Step
unfolding restore_state settle_call
take_connection s c d (some p) = settle_call s c (resolved (some d))
take_connection s c d none =
    let (s', r) = restore_state s s.restore_promise in
    (record s' { connect_promise = some (record c { stage = restoring r d }) }, [])

unfoldable pub park : Session → Call → Step
unfolding settle_call
park s c =
    if c.waits
    then (if s.has_failed
        then settle_call s c (rejected all_failed)
        else (record s { connect_promise = some (record c { stage = parked }) }, []))
    else settle_call s c (resolved none)

unfoldable pub after_dial : Session → Call → Option ℕ → Step
unfolding take_connection park
after_dial s c (some d) = take_connection s c d s.channel_pool
after_dial s c none = park s c

unfoldable pub dial_stage : Session → Call → Stage → Option ℕ → Step
unfolding after_dial
dial_stage s c dialing o = after_dial s c o
dial_stage s c (restoring r d) o = (s, [])
dial_stage s c parked o = (s, [])

unfoldable pub dial_step : Session → Option Call → Option ℕ → Step
unfolding dial_stage
dial_step s none o = (s, [])
dial_step s (some c) o = dial_stage s c c.stage o

-- The timer of a parked call, where it set one.
unfoldable pub timeout_step : Session → Option Call → Step
unfolding signal
timeout_step s none = (s, [])
timeout_step s (some c) = if c.is_timed then signal s (some c) (rejected timed_out) else (s, [])

-- `disconnect` up to its first await, and after each.
unfoldable pub disconnect_step : Session → Step
unfolding signal
disconnect_step s =
    (s, is_disconnecting ∷ [])
    then_do (λ t. signal t t.connect_promise (rejected was_disconnected))
    then_do (λ t. (record t { disposing = t.disposing + 1 }, loses_rpc ∷ []))

unfoldable pub disposed_step : Session → Option Pool → Step
disposed_step s none =
    (record s { closing_connection = s.closing_connection + 1; has_failed = false }, [])
disposed_step s (some p) = (record s { closing_pool = s.closing_pool + 1 }, closes_pool p.id ∷ [])

unfoldable pub pool_closed_step : Session → Session
pool_closed_step s = record s {
  channel_pool = none;
  closing_connection = s.closing_connection + 1;
  has_failed = false;
}

-- Those come back only to a call of `disconnect` that awaits them.
unfoldable pub disposed_event : Session → ℕ → Step
unfolding disposed_step
disposed_event s zero = (s, [])
disposed_event s (suc n) = disposed_step (record s { disposing = n }) s.channel_pool

unfoldable pub pool_closed_event : Session → ℕ → Step
unfolding pool_closed_step
pool_closed_event s zero = (s, [])
pool_closed_event s (suc n) = (pool_closed_step (record s { closing_pool = n }), [])

unfoldable pub connection_closed_event : Session → ℕ → Step
connection_closed_event s zero = (s, [])
connection_closed_event s (suc n) =
    (record s { closing_connection = n; connection = none }, is_disconnected ∷ [])

-- A new connection. The one in place is only replaced while a close of it is awaited: else the dial
-- returns it.
unfoldable pub open_step : Session → Session
open_step s = record s {
  connection = some s.next_connection;
  has_failed = false;
  next_connection = s.next_connection + 1;
}

unfoldable pub open_event : Session → Option ℕ → ℕ → Session
unfolding open_step
open_event s none n = open_step s
open_event s (some c) zero = s
open_event s (some c) (suc n) = open_step s

unfoldable pub step : Session → Event → Step
unfolding handle_reconnection handle_disconnection signal restore_step connect_step dial_step
    timeout_step disconnect_step disposed_event pool_closed_event connection_closed_event open_event
step s opens = (open_event s s.connection s.closing_connection, [])
step s loses = handle_disconnection (record s { connection = none })
step s gives_up =
    (record s { has_failed = true }, reconnect_failed ∷ [])
    then_do (λ t. signal t t.connect_promise (rejected all_failed))
step s reconnects = (handle_reconnection s, [])
step s (connects waits is_timed) = (connect_step s waits is_timed s.connect_promise, [])
step s (dial_settles o) = dial_step s s.connect_promise o
step s (restore_returns r ok) = restore_step s r ok (Map.get s.restores r)
step s times_out = timeout_step s s.connect_promise
step s disconnects = disconnect_step s
step s consumers_disposed = disposed_event s s.disposing
step s pool_closed = pool_closed_event s s.closing_pool
step s connection_closed = connection_closed_event s s.closing_connection

unfoldable pub run : Session → List Event → Step
unfolding step
run s [] = (s, [])
run s (e ∷ es) = step s e then_do (λ t. run t es)
