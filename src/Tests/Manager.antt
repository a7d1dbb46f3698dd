-- ===== src/Tests/Manager.antt =====
-- Runs of src/consumers/consumer-manager.js.
use rabbitmq.Base.{
  ℕ, zero, suc, ◌≡◌, ◌≤◌, refl, true, false, none, some, List, [], ◌∷◌, ident_ℕ, arith,
}
use rabbitmq.Base.Map
use rabbitmq.Base.Tally.{sum_list}
use rabbitmq.Consumers.Retry.{once, attempts, Marks}
use rabbitmq.Consumers.Retry.Deliveries.{deliveries, deliveries-attempts}
use rabbitmq.Consumers.Settling as Settling
use rabbitmq.Consumers.Settling.{
  Action, ack, nack, Output, Event, arrives, handler_succeeds, handler_fails, settles, drains,
}
use rabbitmq.Consumers.Settling.Once.{sends, settled, sends-settled}
use rabbitmq.Consumers.Settling.Drain.{Counted, reachable-Counted}
use rabbitmq.Consumers.Prefetch.{defaults, Optimizer, Sample}

-- A quorum queue, and a classic one.
quorum : ℕ → Marks
quorum zero = record { redelivered = false; delivery_count = none }
quorum (suc k) = record { redelivered = true; delivery_count = some (suc k) }

classic : ℕ → Marks
classic zero = record { redelivered = false; delivery_count = none }
classic (suc k) = record { redelivered = true; delivery_count = none }

classic-count : (k : ℕ) → (classic k).delivery_count ≡ none
unfolding classic
classic-count zero = refl
classic-count (suc k) = refl

deliveries-attempts_example : deliveries quorum (attempts 3) 9 0 ≡ 3
unfolding quorum
deliveries-attempts_example =
    deliveries-attempts quorum 3 9 (refl, λ k. refl) (refl, λ k. refl) (omega arith) (omega arith)

abbrev first : Marks
first = record { redelivered = false; delivery_count = none }

abbrev busy : List Event
busy =
    arrives 1 first
    ∷ arrives 2 first
    ∷ settles 1 ack false
    ∷ drains
    ∷ handler_fails 1 false false
    ∷ handler_fails 2 false false
    ∷ settles 2 ack false
    ∷ []

sends-settled_example :
    let r = Settling.run (Settling.init false once) busy in
    (sum_list (sends 2) r.1 ≤ 1) × (sum_list (sends 2) r.1 ≡ settled 2 (Map.get r.0.messages 2))
sends-settled_example = sends-settled 2 false once busy

reachable-Counted_example : Counted (Settling.run (Settling.init false once) busy).0
reachable-Counted_example = reachable-Counted false once busy

abbrev samples : List Sample
samples =
    record { ok = true; duration = 900; epoch = 1; now = 2000 }
    ∷ record { ok = true; duration = 5; epoch = 2; now = 4000 }
    ∷ []

abbrev slowed : Optimizer
slowed = record {
  options = defaults;
  current_prefetch = 1;
  last_optimization_time = 0;
  processing_times = [];
  known_epoch = 1;
}
