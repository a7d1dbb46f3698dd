-- ===== src/Connection/Machine.antt =====
-- src/connection/connection.js as a state machine. A method runs without interruption up to its next
-- `await`; what comes back from there (a dial, a close, a timer, a 'close' event) is an event of its
-- own, so every interleaving is a list of events. Each step returns the events that it emits.
pub mod Invariant
pub mod Backoff
pub mod Shutdown
pub mod Rotation
use rabbitmq.Base.{
  ℕ, zero, suc, ◌+◌, ◌*◌, ◌%◌, ◌^◌, Bool, true, false, Option, none, some, ltb, leb, ◌==◌, min,
  ◌&&◌, if◌then◌else◌, List, [], ◌∷◌, ◌++◌, length, get_elem?,
}

pub data ConnectionState : Type 0 where
  disconnected connecting connected reconnecting disconnecting failed : ConnectionState

-- Where the attempt in flight stands: `amqp.connect` for the `attempt`-th endpoint of the loop, or
-- the close of a connection that landed after a shutdown.
pub data Dial : Type 0 where
  dialing : ℕ → Dial
  discarding : Dial

pub record Connection : Type 0 where
  pub endpoints : List ℕ
  pub reconnect_interval : ℕ
  pub max_reconnect_interval : ℕ
  pub max_reconnect_attempts : Option ℕ  -- `none` is Infinity
  pub connection : Option ℕ
  pub is_watched : Bool  -- the connection has its 'close' listener
  pub orphans : ℕ  -- connections that were dropped while open, each with its listener
  pub reconnect_timeout : Option ℕ  -- the delay of the timer that is pending
  pub reconnect_attempt : ℕ
  pub connection_state : ConnectionState
  pub current_endpoint_index : ℕ
  pub is_shutting_down : Bool
  pub is_reconnecting : Bool
  pub connect_promise : Option Dial
  pub timer_waiters : ℕ  -- calls of `#attemptReconnect` that await the attempt in flight
  pub closing : ℕ  -- calls of `disconnect` that await `connection.close()`

pub data Event : Type 0 where
  connect : Event
  dial_succeeds : ℕ → Event
  dial_fails : Event
  discard_settles : Event
  timer_fires : Event
  connection_closes orphan_closes : Event
  disconnect : Event
  close_settles : Event

pub data Emitted : Type 0 where
  state_changed : ConnectionState → Emitted
  connected_to : Option ℕ → Emitted
  is_disconnected : Emitted
  reconnect_failed : Emitted
  reconnected : Emitted

abbrev pub Step : Type 0
Step = Connection × List Emitted

-- The constructor. `||` takes a zero for an interval left out. It throws on no endpoint. Endpoints are
-- texts that are not empty, and the protocol is one of the two: on others it throws as well.
unfoldable pub or_default : ℕ → ℕ → ℕ
or_default n fallback = if n == 0 then fallback else n

unfoldable pub init : List ℕ → ℕ → ℕ → Option ℕ → Option Connection
unfolding or_default
init [] reconnect_interval max_reconnect_interval max_reconnect_attempts = none
init (e ∷ es) reconnect_interval max_reconnect_interval max_reconnect_attempts = some (record {
  endpoints = e ∷ es;
  reconnect_interval = or_default reconnect_interval 1000;
  max_reconnect_interval = or_default max_reconnect_interval 15000;
  max_reconnect_attempts = max_reconnect_attempts;
  connection = none;
  is_watched = false;
  orphans = 0;
  reconnect_timeout = none;
  reconnect_attempt = 0;
  connection_state = disconnected;
  current_endpoint_index = 0;
  is_shutting_down = false;
  is_reconnecting = false;
  connect_promise = none;
  timer_waiters = 0;
  closing = 0;
})

unfoldable pub same_state : ConnectionState → ConnectionState → Bool
same_state disconnected disconnected = true
same_state connecting connecting = true
same_state connected connected = true
same_state reconnecting reconnecting = true
same_state disconnecting disconnecting = true
same_state failed failed = true
same_state _ _ = false

unfoldable pub set_connection_state : Connection → ConnectionState → Step
unfolding same_state
set_connection_state s state =
    if same_state s.connection_state state
    then (s, [])
    else (record s { connection_state = state }, state_changed state ∷ [])

-- One part of a method after another.
infixl 5 ◌then_do◌
abbrev pub ◌then_do◌ : Step → (Connection → Step) → Step
(s, out) then_do f = let (s', out') = f s in (s', out ++ out')

abbrev pub emit : Emitted → Connection → Step
emit e s = (s, e ∷ [])

-- `reconnectAttempt >= maxReconnectAttempts`, which is never so at Infinity.
unfoldable pub is_spent : ℕ → Option ℕ → Bool
is_spent attempt none = false
is_spent attempt (some n) = leb n attempt

unfoldable pub backoff : Connection → ℕ
backoff s = min (s.reconnect_interval * 2 ^ min s.reconnect_attempt 4) s.max_reconnect_interval

unfoldable pub schedule_reconnect : Connection → Step
unfolding is_spent backoff set_connection_state
schedule_reconnect s =
    let s' = record s { reconnect_timeout = none } in
    if is_spent s.reconnect_attempt s.max_reconnect_attempts
    then set_connection_state (record s' { is_reconnecting = false }) failed
      then_do emit reconnect_failed
    else (record s' { reconnect_timeout = some (backoff s) }, [])

unfoldable pub start_reconnection : Connection → Step
unfolding set_connection_state schedule_reconnect
start_reconnection s =
    if s.is_shutting_down
    then (s, [])
    else if s.is_reconnecting
    then schedule_reconnect s
    else set_connection_state (record s { is_reconnecting = true }) reconnecting
      then_do emit is_disconnected
      then_do schedule_reconnect

-- `connect()`: an attempt in flight is shared, and a connection in place is returned.
unfoldable pub is_connected : Connection → Bool
is_connected s = elim s.connection [
  | none ↦ false
  | some c ↦ same_state s.connection_state connected
]

unfoldable pub do_connect : Connection → Step
unfolding is_connected set_connection_state
do_connect s =
    if is_connected s
    then (s, [])
    else set_connection_state
        (record s { is_shutting_down = false; connect_promise = some (dialing 0) }) connecting

unfoldable pub connect_step : Connection → Step
unfolding do_connect
connect_step s = elim s.connect_promise [ none ↦ do_connect s | some d ↦ (s, []) ]

-- The promise settles: each waiting timer callback emits 'reconnected' on a connection.
unfoldable pub reconnected_events : ℕ → List Emitted
reconnected_events zero = []
reconnected_events (suc n) = reconnected ∷ reconnected_events n

unfoldable pub settle_connected : Connection → Step
unfolding reconnected_events
settle_connected s =
    (record s { connect_promise = none; timer_waiters = 0 }, reconnected_events s.timer_waiters)

unfoldable pub settle_null : Connection → Step
settle_null s = (record s { connect_promise = none; timer_waiters = 0 }, [])

unfoldable pub dial_succeeds_step : Connection → ℕ → Step
unfolding set_connection_state settle_connected
dial_succeeds_step s c =
    if s.is_shutting_down
    then (record s { connect_promise = some discarding }, [])
    else set_connection_state
        (record s {
          connection = some c;
          is_watched = true;
          reconnect_timeout = none;
          is_reconnecting = false;
          reconnect_attempt = 0;
        })
        connected
      then_do emit (connected_to (get_elem? s.endpoints s.current_endpoint_index))
      then_do settle_connected

-- The end of the loop: no endpoint answered.
unfoldable pub give_up : Connection → Step
unfolding start_reconnection set_connection_state settle_null
give_up s =
    (if s.is_shutting_down
      then set_connection_state (record s { connection = none }) disconnected
      else start_reconnection (record s { connection = none }))
    then_do settle_null

unfoldable pub dial_fails_step : Connection → ℕ → Step
unfolding give_up
dial_fails_step s attempt =
    let s' = record s {
      current_endpoint_index = (s.current_endpoint_index + 1) % length s.endpoints;
      connect_promise = some (dialing (attempt + 1));
    } in
    if ltb (attempt + 1) (length s.endpoints) then (s', []) else give_up s'

-- `#attemptReconnect`, which the timer starts.
unfoldable pub timer_step : Connection → Step
unfolding connect_step
timer_step s =
    let s' = record s { reconnect_timeout = none } in
    if same_state s.connection_state connected
    then (s', [])
    else connect_step (record s' {
      reconnect_attempt = s.reconnect_attempt + 1;
      timer_waiters = s.timer_waiters + 1;
    })

-- The connection in place is forgotten. If it is open, it keeps its listener.
unfoldable pub drop_connection : Connection → Bool → Connection
drop_connection s false = record s { connection = none }
drop_connection s true = record s { connection = none; is_watched = false; orphans = s.orphans + 1 }

-- A 'close' listener, be it that of the connection in place or of one that was forgotten.
unfoldable pub connection_closes_step : Connection → Step
unfolding start_reconnection drop_connection
connection_closes_step s =
    if s.is_shutting_down then (s, []) else start_reconnection (drop_connection s s.is_watched)

-- `disconnect()` up to its `await`, or to its end where there is no connection to close.
unfoldable pub disconnect_step : Connection → Step
unfolding set_connection_state
disconnect_step s =
    let s' = record s {
      is_shutting_down = true;
      is_reconnecting = false;
      reconnect_timeout = none;
    } in
    if same_state s.connection_state disconnected
    then (s', [])
    else set_connection_state s' disconnecting then_do λ t. elim t.connection [
      | none ↦ set_connection_state t disconnected
      | some c ↦ (record t { is_watched = false; closing = t.closing + 1 }, [])
    ]

-- The rest of it, whether the close succeeds or fails.
unfoldable pub close_settles_step : Connection → Step
unfolding set_connection_state drop_connection
close_settles_step s = set_connection_state (drop_connection s s.is_watched) disconnected

-- An event for which nothing is waiting does not occur, and changes nothing here.
unfoldable pub dial_event : Connection → Event → Option Dial → Step
unfolding dial_succeeds_step dial_fails_step set_connection_state settle_null
dial_event s (dial_succeeds c) (some (dialing attempt)) = dial_succeeds_step s c
dial_event s dial_fails (some (dialing attempt)) = dial_fails_step s attempt
dial_event s discard_settles (some discarding) =
    set_connection_state s disconnected then_do settle_null
dial_event s _ _ = (s, [])

unfoldable pub timer_event : Connection → Option ℕ → Step
unfolding timer_step
timer_event s none = (s, [])
timer_event s (some delay) = timer_step s

unfoldable pub close_event : Connection → ℕ → Step
unfolding close_settles_step
close_event s zero = (s, [])
close_event s (suc n) = close_settles_step (record s { closing = n })

unfoldable pub closed_event : Connection → Bool → Step
unfolding connection_closes_step
closed_event s false = (s, [])
closed_event s true = connection_closes_step (record s { is_watched = false })

unfoldable pub orphan_event : Connection → ℕ → Step
unfolding connection_closes_step
orphan_event s zero = (s, [])
orphan_event s (suc n) = connection_closes_step (record s { orphans = n })

unfoldable pub step : Connection → Event → Step
unfolding connect_step dial_event timer_event closed_event orphan_event disconnect_step close_event
step s connect = connect_step s
step s timer_fires = timer_event s s.reconnect_timeout
step s connection_closes = closed_event s s.is_watched
step s orphan_closes = orphan_event s s.orphans
step s disconnect = disconnect_step s
step s close_settles = close_event s s.closing
step s e = dial_event s e s.connect_promise

unfoldable pub run : Connection → List Event → Connection
unfolding step
run s [] = s
run s (e ∷ es) = run (step s e).0 es
