-- ===== src/Connection/Machine/Invariant.antt =====
-- What holds of the connection between two events, whatever their order.
use rabbitmq.Base.{
  ℕ, zero, suc, ◌+◌, ◌≤◌, ◌<◌, ◌≡◌, refl, Bool, true, false, Option, none, some, List, [], ◌∷◌,
  length, ◌||◌, arith,
}
use native.Mathlib.Nat.{mod-lt}
use rabbitmq.Connection.Machine.{
  connecting, connected, reconnecting, Dial, dialing, discarding, Connection, Event, connect,
  dial_succeeds, dial_fails, discard_settles, timer_fires, connection_closes, orphan_closes,
  disconnect, close_settles, step, run, init, start_reconnection, connect_step, dial_succeeds_step,
  dial_fails_step, timer_step, disconnect_step, close_settles_step, dial_event, timer_event,
  close_event, closed_event, orphan_event, connection_closes_step,
}

abbrev pub is_some {ℓ} : {A : Type ℓ} → Option A → Bool
is_some none = false
is_some (some a) = true

-- The attempts made since the last connection, against the budget.
abbrev pub IsWithin : ℕ → Option ℕ → Type 0
IsWithin attempts none = Unit
IsWithin attempts (some n) = attempts ≤ n

-- A pending timer leaves room for the attempt that it makes, and its delay is capped.
abbrev pub IsArmed : ℕ → Option ℕ → ℕ → Option ℕ → Type 0
IsArmed attempts budget cap none = Unit
IsArmed attempts budget cap (some delay) = IsWithin (attempts + 1) budget × (delay ≤ cap)

pub record Inv (s : Connection) : Type 0 where
  pub in_range : s.current_endpoint_index < length s.endpoints
  -- Whoever reads 'connected' finds a connection.
  pub has_connection : s.connection_state ≡ connected → is_some s.connection ≡ true
  pub settled : s.connection_state ≡ connected → s.is_reconnecting ≡ false
  pub not_dialing : s.connection_state ≡ connected → s.connect_promise ≡ none
  -- Reconnection never stalls: a dial is in flight or a timer is pending.
  pub connecting_alive :
      s.connection_state ≡ connecting
      → (is_some s.connect_promise || is_some s.reconnect_timeout) ≡ true
  pub reconnecting_alive :
      s.connection_state ≡ reconnecting
      → (is_some s.connect_promise || is_some s.reconnect_timeout) ≡ true
  -- A shutdown leaves no timer behind.
  pub quiet : s.is_shutting_down ≡ true → s.reconnect_timeout ≡ none
  pub within : IsWithin s.reconnect_attempt s.max_reconnect_attempts
  pub armed :
      IsArmed s.reconnect_attempt s.max_reconnect_attempts s.max_reconnect_interval
        s.reconnect_timeout

-- The listeners do not matter to it.
listeners-Inv :
    (s : Connection) (b : Bool) (n : ℕ) → Inv s → Inv (record s { is_watched = b; orphans = n })
listeners-Inv s b n v = record {
  in_range = v.in_range;
  has_connection = v.has_connection;
  settled = v.settled;
  not_dialing = v.not_dialing;
  connecting_alive = v.connecting_alive;
  reconnecting_alive = v.reconnecting_alive;
  quiet = v.quiet;
  within = v.within;
  armed = v.armed;
}

connect_step-Inv : (s : Connection) → Inv s → Inv (connect_step s).0
unfolding connect_step
connect_step-Inv s v = ground arith

disconnect_step-Inv : (s : Connection) → Inv s → Inv (disconnect_step s).0
unfolding disconnect_step
disconnect_step-Inv s v = ground arith

close_settles_step-Inv : (s : Connection) → Inv s → Inv (close_settles_step s).0
unfolding close_settles_step
close_settles_step-Inv s v = ground arith

timer_step-Inv :
    (s : Connection) (delay : ℕ) → s.reconnect_timeout ≡ some delay → Inv s → Inv (timer_step s).0
unfolding timer_step
timer_step-Inv s delay e v = ground arith

start_reconnection-Inv :
    (s : Connection)
    → Inv s
    → s.is_shutting_down ≡ false
    → s.connect_promise ≡ none
    → Inv (start_reconnection s).0
unfolding start_reconnection
start_reconnection-Inv s v h p = ground arith

dial_succeeds_step-Inv :
    (s : Connection) (c attempt : ℕ)
    → s.connect_promise ≡ some (dialing attempt)
    → Inv s
    → Inv (dial_succeeds_step s c).0
unfolding dial_succeeds_step
dial_succeeds_step-Inv s c attempt e v = ground arith

dial_fails_step-Inv :
    (s : Connection) (attempt : ℕ)
    → s.connect_promise ≡ some (dialing attempt)
    → Inv s
    → Inv (dial_fails_step s attempt).0
unfolding dial_fails_step
dial_fails_step-Inv s attempt e v =
    ground (arith, mod-lt (s.current_endpoint_index + 1) {m = length s.endpoints})

discard_settles-Inv :
    (s : Connection)
    → Inv s
    → s.connect_promise ≡ some discarding
    → Inv (dial_event s discard_settles (some discarding)).0
unfolding dial_event
discard_settles-Inv s v e = ground arith

dial_event-Inv :
    (s : Connection) (e : Event) (d : Option Dial)
    → s.connect_promise ≡ d
    → Inv s
    → Inv (dial_event s e d).0
unfolding dial_event
dial_event-Inv s (dial_succeeds c) (some (dialing attempt)) p v =
    dial_succeeds_step-Inv s c attempt p v
dial_event-Inv s dial_fails (some (dialing attempt)) p v = dial_fails_step-Inv s attempt p v
dial_event-Inv s discard_settles (some discarding) p v = discard_settles-Inv s v p
dial_event-Inv s _ _ p v = v

timer_event-Inv :
    (s : Connection) (t : Option ℕ) → s.reconnect_timeout ≡ t → Inv s → Inv (timer_event s t).0
unfolding timer_event
timer_event-Inv s none e v = v
timer_event-Inv s (some delay) e v = timer_step-Inv s delay e v

close_event-Inv : (s : Connection) (n : ℕ) → Inv s → Inv (close_event s n).0
unfolding close_event
close_event-Inv s zero v = v
close_event-Inv s (suc n) v = close_settles_step-Inv (record s { closing = n }) (ground arith)

connection_closes_step-Inv : (s : Connection) → Inv s → Inv (connection_closes_step s).0
unfolding connection_closes_step
connection_closes_step-Inv s v = ground arith

closed_event-Inv : (s : Connection) (watched : Bool) → Inv s → Inv (closed_event s watched).0
unfolding closed_event
closed_event-Inv s false v = v
closed_event-Inv s true v =
    let t = record s { is_watched = false } in
    connection_closes_step-Inv t (listeners-Inv s false s.orphans v)

orphan_event-Inv : (s : Connection) (n : ℕ) → Inv s → Inv (orphan_event s n).0
unfolding orphan_event
orphan_event-Inv s zero v = v
orphan_event-Inv s (suc n) v =
    let t = record s { orphans = n } in
    connection_closes_step-Inv t (listeners-Inv s s.is_watched n v)

-- Every event, in every state, keeps the invariant.
pub step-Inv : (s : Connection) (e : Event) → Inv s → Inv (step s e).0
unfolding step
step-Inv s connect v = connect_step-Inv s v
step-Inv s timer_fires v = timer_event-Inv s s.reconnect_timeout refl v
step-Inv s connection_closes v = closed_event-Inv s s.is_watched v
step-Inv s orphan_closes v = orphan_event-Inv s s.orphans v
step-Inv s disconnect v = disconnect_step-Inv s v
step-Inv s close_settles v = close_event-Inv s s.closing v
step-Inv s e v = dial_event-Inv s e s.connect_promise refl v

-- So any history of events keeps it.
pub run-Inv : (s : Connection) (es : List Event) → Inv s → Inv (run s es)
unfolding run
run-Inv s [] v = v
run-Inv s (e ∷ es) v = run-Inv (step s e).0 es (step-Inv s e v)

pub init-Inv :
    (es : List ℕ) (interval cap : ℕ) (budget : Option ℕ) (s : Connection)
    → init es interval cap budget ≡ some s
    → Inv s
unfolding init
init-Inv [] interval cap budget s h = cc
init-Inv (e ∷ es) interval cap budget s h = ground arith

-- Whatever the constructor was given, and whatever happens to the connection afterwards, the invariant
-- holds: the current endpoint exists, 'connected' comes with a connection, a connection that is wanted
-- has a dial in flight or a timer pending, a shutdown leaves no timer, the attempts stay within the
-- budget, and no delay passes the cap.
pub reachable-Inv :
    (endpoints : List ℕ) (interval cap : ℕ) (budget : Option ℕ) (s : Connection) (es : List Event)
    → init endpoints interval cap budget ≡ some s
    → Inv (run s es)
reachable-Inv endpoints interval cap budget s es h =
    run-Inv s es (init-Inv endpoints interval cap budget s h)
