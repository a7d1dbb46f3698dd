-- ===== src/Connection/Machine/Backoff.antt =====
-- The delays between attempts, and the budget of attempts.
use rabbitmq.Base.{
  ◌∙◌, ℕ, zero, suc, ◌+◌, ◌*◌, ◌≤◌, ◌<◌, ◌≡◌, refl, ap, Bool, true, false, Option, none, some, List,
  [], ◌∷◌, arith, ◌^◌, min, not, ◌&&◌, if◌then◌else◌,
}
use rabbitmq.Connection.Machine.{
  connected, Connection, Event, connect, dial_succeeds, dial_fails, discard_settles, timer_fires,
  connection_closes, orphan_closes, disconnect, close_settles, step, same_state, backoff,
  schedule_reconnect, start_reconnection, connect_step, dial_event, dial_fails_step,
  dial_succeeds_step, timer_step, closed_event, orphan_event, disconnect_step, timer_event,
  close_event, dialing, discarding, Dial,
}
use rabbitmq.Connection.Machine.Invariant.{Inv, step-Inv, is_some}

-- `Math.pow(2, Math.min(k, 4))`.
power_next :
    (k : ℕ)
    → (k < 4 → 2 ^ min (k + 1) 4 ≡ 2 * 2 ^ min k 4) × (4 ≤ k → 2 ^ min (k + 1) 4 ≡ 2 ^ min k 4)
power_next zero = (λ _. refl, λ h. omega arith)
power_next (suc zero) = (λ _. refl, λ h. omega arith)
power_next (suc (suc zero)) = (λ _. refl, λ h. omega arith)
power_next (suc (suc (suc zero))) = (λ _. refl, λ h. omega arith)
power_next (suc (suc (suc (suc k)))) = (λ h. omega arith, λ _. ap (λ (e : ℕ). 2 ^ e) (omega arith))

-- The base delay times that power.
product_next :
    (base k : ℕ)
    → (k < 4 → base * 2 ^ min (k + 1) 4 ≡ 2 * (base * 2 ^ min k 4))
      × (4 ≤ k → base * 2 ^ min (k + 1) 4 ≡ base * 2 ^ min k 4)
product_next base k = (
  λ h. omega (arith, ap (λ (t : ℕ). base * t) ((power_next k).0 h)),
  λ h. ap (λ (t : ℕ). base * t) ((power_next k).1 h),
)

-- The delay of the k-th attempt since the last connection doubles from the base four times, and then
-- stands; the cap is never passed.
pub backoff_doubles :
    (s : Connection)
    → let t = record s { reconnect_attempt = s.reconnect_attempt + 1 } in
      (backoff s ≤ s.max_reconnect_interval)
      × (backoff s ≤ backoff t)
      × (s.reconnect_attempt < 4 → backoff t ≡ min (2 * backoff s) s.max_reconnect_interval)
      × (4 ≤ s.reconnect_attempt → backoff t ≡ backoff s)
unfolding backoff
backoff_doubles s = ground (arith, product_next s.reconnect_interval s.reconnect_attempt)

-- The attempts that timers start in a history of events.
unfoldable pub timer_attempts : Connection → List Event → ℕ
timer_attempts s [] = 0
timer_attempts s (timer_fires ∷ es) =
    (if is_some s.reconnect_timeout && not (same_state s.connection_state connected) then 1 else 0)
    + timer_attempts (step s timer_fires).0 es
timer_attempts s (e ∷ es) = timer_attempts (step s e).0 es

-- No dial of the history succeeds.
abbrev pub IsFailing : List Event → Type 0
IsFailing [] = Unit
IsFailing (dial_succeeds c ∷ es) = ⊥
IsFailing (e ∷ es) = IsFailing es

dial_event_grow :
    (s : Connection) (e : Event) (d : Option Dial)
    → IsFailing (e ∷ [])
    → (dial_event s e d).0.reconnect_attempt ≡ s.reconnect_attempt
unfolding dial_event
dial_event_grow s dial_fails (some (dialing attempt)) h =
    unfold dial_fails_step start_reconnection schedule_reconnect in ground arith
dial_event_grow s discard_settles (some discarding) h = ground arith
dial_event_grow s (dial_succeeds c) d h = absurd h
dial_event_grow s _ _ h = refl

closed_event_grow :
    (s : Connection) (watched : Bool)
    → (closed_event s watched).0.reconnect_attempt ≡ s.reconnect_attempt
unfolding closed_event start_reconnection schedule_reconnect
closed_event_grow s false = refl
closed_event_grow s true = ground arith

orphan_event_grow :
    (s : Connection) (n : ℕ) → (orphan_event s n).0.reconnect_attempt ≡ s.reconnect_attempt
unfolding orphan_event start_reconnection schedule_reconnect
orphan_event_grow s zero = refl
orphan_event_grow s (suc n) = ground arith

close_event_grow :
    (s : Connection) (n : ℕ) → (close_event s n).0.reconnect_attempt ≡ s.reconnect_attempt
unfolding close_event
close_event_grow s zero = refl
close_event_grow s (suc n) = ground arith

abbrev starts : Connection → Option ℕ → ℕ
starts s t = if is_some t && not (same_state s.connection_state connected) then 1 else 0

timer_event_grow :
    (s : Connection) (t : Option ℕ)
    → (timer_event s t).0.reconnect_attempt ≡ s.reconnect_attempt + starts s t
unfolding timer_event timer_step connect_step
timer_event_grow s none = ground arith
timer_event_grow s (some delay) = ground arith

attempts_grow :
    (s : Connection) (e : Event)
    → IsFailing (e ∷ [])
    → (step s e).0.reconnect_attempt ≡ s.reconnect_attempt + timer_attempts s (e ∷ [])
unfolding step timer_attempts
attempts_grow s connect h = unfold connect_step in ground arith
attempts_grow s timer_fires h = ground (arith, timer_event_grow s s.reconnect_timeout)
attempts_grow s connection_closes h = ground (arith, closed_event_grow s s.is_watched)
attempts_grow s orphan_closes h = ground (arith, orphan_event_grow s s.orphans)
attempts_grow s disconnect h = unfold disconnect_step in ground arith
attempts_grow s close_settles h = ground (arith, close_event_grow s s.closing)
attempts_grow s (dial_succeeds c) h = absurd h
attempts_grow s dial_fails h = ground (arith, dial_event_grow s dial_fails s.connect_promise h)
attempts_grow s discard_settles h =
    ground (arith, dial_event_grow s discard_settles s.connect_promise h)

abbrev Keeps : Connection → Connection → Type 0
Keeps s t = t.max_reconnect_attempts ≡ s.max_reconnect_attempts

dial_event-Keeps : (s : Connection) (e : Event) (d : Option Dial) → Keeps s (dial_event s e d).0
unfolding dial_event
dial_event-Keeps s dial_fails (some (dialing attempt)) =
    unfold dial_fails_step start_reconnection schedule_reconnect in ground arith
dial_event-Keeps s discard_settles (some discarding) = ground arith
dial_event-Keeps s (dial_succeeds c) (some (dialing attempt)) =
    unfold dial_succeeds_step in ground arith
dial_event-Keeps s _ _ = refl

timer_event-Keeps : (s : Connection) (t : Option ℕ) → Keeps s (timer_event s t).0
unfolding timer_event timer_step connect_step
timer_event-Keeps s none = refl
timer_event-Keeps s (some delay) = ground arith

closed_event-Keeps : (s : Connection) (watched : Bool) → Keeps s (closed_event s watched).0
unfolding closed_event start_reconnection schedule_reconnect
closed_event-Keeps s false = refl
closed_event-Keeps s true = ground arith

orphan_event-Keeps : (s : Connection) (n : ℕ) → Keeps s (orphan_event s n).0
unfolding orphan_event start_reconnection schedule_reconnect
orphan_event-Keeps s zero = refl
orphan_event-Keeps s (suc n) = ground arith

close_event-Keeps : (s : Connection) (n : ℕ) → Keeps s (close_event s n).0
unfolding close_event
close_event-Keeps s zero = refl
close_event-Keeps s (suc n) = ground arith

step-Keeps : (s : Connection) (e : Event) → Keeps s (step s e).0
unfolding step
step-Keeps s connect = unfold connect_step in ground arith
step-Keeps s timer_fires = timer_event-Keeps s s.reconnect_timeout
step-Keeps s connection_closes = closed_event-Keeps s s.is_watched
step-Keeps s orphan_closes = orphan_event-Keeps s s.orphans
step-Keeps s disconnect = unfold disconnect_step in ground arith
step-Keeps s close_settles = close_event-Keeps s s.closing
step-Keeps s e = dial_event-Keeps s e s.connect_promise

-- One step of the count.
count_step :
    (s : Connection) (e : Event) (es : List Event)
    → IsFailing (e ∷ es)
    → (timer_attempts s (e ∷ es) ≡ timer_attempts s (e ∷ []) + timer_attempts (step s e).0 es)
      × IsFailing (e ∷ [])
      × IsFailing es
unfolding timer_attempts
count_step s connect es h = (ground arith, tt, h)
count_step s timer_fires es h = (ground arith, tt, h)
count_step s connection_closes es h = (ground arith, tt, h)
count_step s orphan_closes es h = (ground arith, tt, h)
count_step s disconnect es h = (ground arith, tt, h)
count_step s close_settles es h = (ground arith, tt, h)
count_step s dial_fails es h = (ground arith, tt, h)
count_step s discard_settles es h = (ground arith, tt, h)
count_step s (dial_succeeds c) es h = absurd h

-- While no dial succeeds, the timers start no more attempts than the budget has left.
pub timer_attempts-le-budget :
    (s : Connection) (es : List Event) (n : ℕ)
    → Inv s
    → s.max_reconnect_attempts ≡ some n
    → IsFailing es
    → s.reconnect_attempt + timer_attempts s es ≤ n
timer_attempts-le-budget s [] n v b h = unfold timer_attempts in ground arith
timer_attempts-le-budget s (e ∷ es) n v b h =
    let c = count_step s e es h in
    let rest =
      timer_attempts-le-budget (step s e).0 es n (step-Inv s e v) (step-Keeps s e ∙ b) c.2 in
    omega (arith, rest, c.0, attempts_grow s e c.1)
