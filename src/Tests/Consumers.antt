-- ===== src/Tests/Consumers.antt =====
-- Runs of src/consumers at concrete inputs.
use rabbitmq.Base.{
  ◌+◌, ◌≡◌, refl, true, false, Bool, none, some, List, [], ◌∷◌, ident_ℕ, ℕ_discrete,
}
use rabbitmq.Base.Map
use rabbitmq.Base.Tally.{sum_list}
use rabbitmq.Consumers.Sequential.{
  Delivery, SequentialProcessor, Failure, handler_failed, dependency_never_resolved, succeeded,
  failed, Event, arrives, handler_settles, sweeps, run, init, step, handle, settle, succeed, fail,
  release, park, start, waits_for, index_pending, add, expire, cleanup, remove_pending,
  mark_processing, unmark_processing, dependents_for, forget_dependents, take_task, drop_dependent,
  remove, is_stale,
}
use rabbitmq.Consumers.Sequential.Settlement.{
  held, settlements, arrivals, deliveries-are_settled_once,
}

abbrev requeue_none : Delivery → Failure → Bool
requeue_none d f = false

abbrev parent : Delivery
parent = record { tag = 1; message_id = some 10; depends_on = none }

abbrev child : Delivery
child = record { tag = 2; message_id = some 20; depends_on = some 10 }

abbrev grandchild : Delivery
grandchild = record { tag = 3; message_id = some 30; depends_on = some 20 }

abbrev in_order : List Event
in_order =
    arrives parent 1
    ∷ arrives child 2
    ∷ arrives grandchild 3
    ∷ arrives child 4
    ∷ handler_settles 0 true 5
    ∷ handler_settles 0 true 6
    ∷ handler_settles 0 false 7
    ∷ []

-- The dependents run in their turn, and the second delivery of a parked one is acknowledged.
run-in_order :
    (run requeue_none (init 100) in_order).1
    ≡ succeeded child true
      ∷ succeeded parent false
      ∷ succeeded child false
      ∷ failed grandchild handler_failed false
      ∷ []
unfolding run init step handle settle succeed fail release park start waits_for index_pending add
    expire cleanup remove_pending mark_processing unmark_processing dependents_for forget_dependents
    take_task drop_dependent remove is_stale Map.get Map.set Map.delete Map.sweep ℕ_discrete
run-in_order = refl

-- A dependency that fails does not release what waits for it; the sweep does.
run-expired :
    (run requeue_none
      (init 100)
      (arrives parent 1 ∷ arrives child 2 ∷ handler_settles 0 false 5 ∷ sweeps 103 ∷ [])).1
    ≡ failed parent handler_failed false ∷ failed child dependency_never_resolved false ∷ []
unfolding run init step handle settle succeed fail release park start waits_for index_pending add
    expire cleanup remove_pending mark_processing unmark_processing dependents_for forget_dependents
    take_task drop_dependent remove is_stale Map.get Map.set Map.delete Map.sweep ℕ_discrete
run-expired = refl

deliveries-are_settled_once_example :
    let r = run requeue_none (init 100) in_order in
    held 2 r.0 + sum_list (settlements 2) r.1 ≡ arrivals 2 in_order
deliveries-are_settled_once_example = deliveries-are_settled_once 2 requeue_none 100 in_order

abbrev waiting : SequentialProcessor
waiting = record {
  stale_timeout = 100;
  processing = (10, 1) ∷ [];
  pending = (20, record { message = child; depends_on = 10; queued_at = 2 }) ∷ [];
  pending_by_dependency = (10, 20 ∷ []) ∷ [];
  running = [];
}
