-- ===== src/Connection/Machine/Shutdown.antt =====
-- What a shutdown stops, and what it does not.
use rabbitmq.Base.{
  ◌+◌, ℕ, zero, suc, ◌≡◌, refl, Bool, true, false, Option, none, some, List, [], ◌∷◌, arith, ◌⊎◌,
}
use rabbitmq.Connection.Machine.{
  disconnected, connected, disconnecting, Connection, Event, connect, dial_succeeds, dial_fails,
  discard_settles, timer_fires, connection_closes, orphan_closes, disconnect, close_settles, step,
  run, connect_step, start_reconnection, dial_event, dial_fails_step, dial_succeeds_step,
  closed_event, orphan_event, disconnect_step, timer_event, close_event, dialing, discarding, Dial,
}

-- A shutdown in force: no timer, and a state that says so.
pub record IsStopped (s : Connection) : Type 0 where
  pub shut : s.is_shutting_down ≡ true
  pub quiet : s.reconnect_timeout ≡ none
  pub down : (s.connection_state ≡ disconnecting) ⊎ (s.connection_state ≡ disconnected)

-- Nobody calls `connect()`.
abbrev pub IsUnasked : List Event → Type 0
IsUnasked [] = Unit
IsUnasked (connect ∷ es) = ⊥
IsUnasked (e ∷ es) = IsUnasked es

disconnect_step-IsStopped : (s : Connection) → IsStopped (disconnect_step s).0
unfolding disconnect_step
disconnect_step-IsStopped s = ground arith

dial_event-IsStopped :
    (s : Connection) (e : Event) (d : Option Dial) → IsStopped s → IsStopped (dial_event s e d).0
unfolding dial_event
dial_event-IsStopped s dial_fails (some (dialing attempt)) v =
    unfold dial_fails_step start_reconnection in ground arith
dial_event-IsStopped s discard_settles (some discarding) v = ground arith
dial_event-IsStopped s (dial_succeeds c) (some (dialing attempt)) v =
    unfold dial_succeeds_step in ground arith
dial_event-IsStopped s _ _ v = v

timer_event-IsStopped :
    (s : Connection) (t : Option ℕ)
    → s.reconnect_timeout ≡ t
    → IsStopped s
    → IsStopped (timer_event s t).0
unfolding timer_event
timer_event-IsStopped s none e v = v
timer_event-IsStopped s (some delay) e v = absurd (cc)

closed_event-IsStopped :
    (s : Connection) (watched : Bool) → IsStopped s → IsStopped (closed_event s watched).0
unfolding closed_event start_reconnection
closed_event-IsStopped s false v = v
closed_event-IsStopped s true v = ground arith

orphan_event-IsStopped : (s : Connection) (n : ℕ) → IsStopped s → IsStopped (orphan_event s n).0
unfolding orphan_event start_reconnection
orphan_event-IsStopped s zero v = v
orphan_event-IsStopped s (suc n) v = ground arith

close_event-IsStopped : (s : Connection) (n : ℕ) → IsStopped s → IsStopped (close_event s n).0
unfolding close_event
close_event-IsStopped s zero v = v
close_event-IsStopped s (suc n) v = ground arith

run-IsStopped :
    (es : List Event) (s : Connection) → IsStopped s → IsUnasked es → IsStopped (run s es)
unfolding run step
run-IsStopped [] s v h = v
run-IsStopped (connect ∷ es) s v h = absurd h
run-IsStopped (timer_fires ∷ es) s v h =
    run-IsStopped es _ (timer_event-IsStopped s s.reconnect_timeout refl v) h
run-IsStopped (orphan_closes ∷ es) s v h =
    run-IsStopped es _ (orphan_event-IsStopped s s.orphans v) h
run-IsStopped (connection_closes ∷ es) s v h =
    run-IsStopped es _ (closed_event-IsStopped s s.is_watched v) h
run-IsStopped (disconnect ∷ es) s v h = run-IsStopped es _ (disconnect_step-IsStopped s) h
run-IsStopped (close_settles ∷ es) s v h =
    run-IsStopped es _ (close_event-IsStopped s s.closing v) h
run-IsStopped (dial_succeeds c ∷ es) s v h =
    run-IsStopped es _ (dial_event-IsStopped s (dial_succeeds c) s.connect_promise v) h
run-IsStopped (dial_fails ∷ es) s v h =
    run-IsStopped es _ (dial_event-IsStopped s dial_fails s.connect_promise v) h
run-IsStopped (discard_settles ∷ es) s v h =
    run-IsStopped es _ (dial_event-IsStopped s discard_settles s.connect_promise v) h

-- After `disconnect()`, until somebody calls `connect()`, no event makes the connection anything but
-- disconnecting or disconnected, or arms a timer.
pub disconnect-IsStopped :
    (s : Connection) (es : List Event) → IsUnasked es → IsStopped (run s (disconnect ∷ es))
unfolding run step
disconnect-IsStopped s es h = run-IsStopped es _ (disconnect_step-IsStopped s) h

-- A `connect()` while the dial that a `disconnect()` left is in flight does not bring the connection
-- back: it shares that dial, whose connection is discarded.
pub connect-is_discarded :
    (s : Connection) (attempt c : ℕ)
    → s.connect_promise ≡ some (dialing attempt)
    → s.connection ≡ none
    → let t = run s (disconnect ∷ connect ∷ dial_succeeds c ∷ discard_settles ∷ []) in
      (t.connection ≡ none)
      × (t.connection_state ≡ disconnected)
      × (t.connect_promise ≡ none)
      × (t.reconnect_timeout ≡ none)
unfolding run step connect_step disconnect_step dial_event dial_succeeds_step
connect-is_discarded s attempt c p h = ground arith

-- A `connect()` that lands while `disconnect()` awaits the close of the old connection is undone when
-- that close settles: the new connection is dropped, open, from a connection that has its listener.
pub close-drops_new :
    (s : Connection) (old c : ℕ)
    → s.connection ≡ some old
    → s.connection_state ≡ connected
    → s.connect_promise ≡ none
    → s.closing ≡ 0
    → let t = run s (disconnect ∷ connect ∷ dial_succeeds c ∷ []) in
      let u = run s (disconnect ∷ connect ∷ dial_succeeds c ∷ close_settles ∷ []) in
      (t.connection ≡ some c)
      × (t.connection_state ≡ connected)
      × (u.connection ≡ none)
      × (u.connection_state ≡ disconnected)
      × (u.orphans ≡ s.orphans + 1)
unfolding run step connect_step disconnect_step dial_event dial_succeeds_step close_event
close-drops_new s old c p h d k = ground arith
