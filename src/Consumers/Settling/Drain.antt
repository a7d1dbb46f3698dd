-- ===== src/Consumers/Settling/Drain.antt =====
-- The count of the deliveries in flight, and who waits for it to come to zero.
use rabbitmq.Base.{
  ℕ, ◌≡◌, refl, Bool, true, false, Option, none, some, if◌then◌else◌, ident_ℕ, List, [], ◌∷◌, arith,
}
use rabbitmq.Base.Map
use rabbitmq.Base.Tally.{sum_values, sum_values-set, sum_values-update}
use rabbitmq.Consumers.Retry.{RetryPolicy, Marks, should_requeue}
use rabbitmq.Consumers.Settling.{
  Message, Consumer, Action, ack, nack, Output, processed, failed, Event, arrives, handler_succeeds,
  handler_fails, settles, drains, Result, init, settle_ack, arrive, leave, store, finish, conclude,
  settle_unless, succeed, fail, settle, drain, step, run,
}

abbrev pub weight : Message → ℕ
weight m = if m.is_running then 1 else 0

pub record Counted (s : Consumer) : Type 0 where
  pub in_flight_counts : s.in_flight ≡ sum_values weight s.messages
  pub none_waits : s.in_flight ≡ 0 → s.drain_waiters ≡ 0

settle_ack-is_running :
    (m : Message) (t : ℕ) (action : Action) (throws : Bool)
    → (settle_ack m t action throws).0.is_running ≡ m.is_running
unfolding settle_ack
settle_ack-is_running m t action throws = ground arith

settle_unless-is_running :
    (b : Bool) (m : Message) (t : ℕ) (action : Action) (throws : Bool)
    → (settle_unless b m t action throws).0.is_running ≡ m.is_running
unfolding settle_unless
settle_unless-is_running true m t action throws = refl
settle_unless-is_running false m t action throws = settle_ack-is_running m t action throws

finish-Counted :
    (s : Consumer) (t : ℕ) (m : Message) (action : Action) (throws : Bool) (report : Output)
    → Map.get s.messages t ≡ some m
    → m.is_running ≡ true
    → Counted s
    → Counted (finish s t m action throws report).0
unfolding finish conclude leave store
finish-Counted s t m action throws report e r v =
    let m' = record m { is_running = false } in
    let x = settle_unless s.no_ack m' t action throws in
    let u = sum_values-update weight s.messages t x.0 m e in
    let i = settle_unless-is_running s.no_ack m' t action throws in ground (arith, u, i, r, v)

arrive-Counted :
    (s : Consumer) (t : ℕ) (marks : Marks) (o : Option Message)
    → Map.get s.messages t ≡ o
    → Counted s
    → Counted (arrive s t marks o).0
unfolding arrive
arrive-Counted s t marks none e v =
    let m : Message = record { marks = marks; ack_settled = false; is_running = true } in
    ground (arith, sum_values-set weight s.messages t m e, v)
arrive-Counted s t marks (some m) e v = v

when :
    (b : Bool) (x y : Result)
    → (b ≡ true → Counted x.0)
    → Counted y.0
    → Counted (if b then x else y).0
when true x y p q = p refl
when false x y p q = q

succeed-Counted :
    (s : Consumer) (t : ℕ) (throws : Bool) (o : Option Message)
    → Map.get s.messages t ≡ o
    → Counted s
    → Counted (succeed s t throws o).0
unfolding succeed
succeed-Counted s t throws none e v = v
succeed-Counted s t throws (some m) e v =
    when m.is_running (finish s t m ack throws (processed t)) (s, [])
      (λ r. finish-Counted s t m ack throws (processed t) e r v) v

fail-Counted :
    (s : Consumer) (t : ℕ) (is_final throws : Bool) (o : Option Message)
    → Map.get s.messages t ≡ o
    → Counted s
    → Counted (fail s t is_final throws o).0
unfolding fail
fail-Counted s t is_final throws none e v = v
fail-Counted s t is_final throws (some m) e v =
    let requeue = should_requeue m.marks is_final s.retry_policy in
    let report = failed t (if s.no_ack then false else requeue) in
    when m.is_running (finish s t m (nack requeue) throws report) (s, [])
      (λ r. finish-Counted s t m (nack requeue) throws report e r v) v

settle-Counted :
    (s : Consumer) (t : ℕ) (action : Action) (throws : Bool) (o : Option Message)
    → Map.get s.messages t ≡ o
    → Counted s
    → Counted (settle s t action throws o).0
unfolding settle store
settle-Counted s t action throws none e v = v
settle-Counted s t action throws (some m) e v =
    let u = sum_values-update weight s.messages t (settle_ack m t action throws).0 m e in
    let i = settle_ack-is_running m t action throws in ground (arith, u, i, v)

drain-Counted : (s : Consumer) → Counted s → Counted (drain s).0
unfolding drain
drain-Counted s v = ground (arith, v)

step-Counted : (s : Consumer) (e : Event) → Counted s → Counted (step s e).0
unfolding step
step-Counted s (arrives t marks) v = arrive-Counted s t marks (Map.get s.messages t) refl v
step-Counted s (handler_succeeds t throws) v =
    succeed-Counted s t throws (Map.get s.messages t) refl v
step-Counted s (handler_fails t is_final throws) v =
    fail-Counted s t is_final throws (Map.get s.messages t) refl v
step-Counted s (settles t action throws) v =
    settle-Counted s t action throws (Map.get s.messages t) refl v
step-Counted s drains v = drain-Counted s v

run-Counted : (es : List Event) (s : Consumer) → Counted s → Counted (run s es).0
unfolding run
run-Counted [] s v = v
run-Counted (e ∷ es) s v = run-Counted es (step s e).0 (step-Counted s e v)

-- Whatever happens and in whatever order, the count in flight is that of the deliveries whose handler
-- runs, and nobody waits for handlers when none runs.
pub reachable-Counted :
    (no_ack : Bool) (policy : RetryPolicy) (es : List Event)
    → Counted (run (init no_ack policy) es).0
reachable-Counted no_ack policy es =
    run-Counted es (init no_ack policy)
      (unfold init in record { in_flight_counts = refl; none_waits = λ h. refl })
