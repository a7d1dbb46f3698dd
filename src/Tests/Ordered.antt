-- ===== src/Tests/Ordered.antt =====
-- Runs of a sequential subscription.
use rabbitmq.Base.{
  ◌+◌, arith, ◌≡◌, ◌≢◌, ap, ◌++◌, ◌≤◌, refl, Bool, true, false, none, some, List, [], ◌∷◌, ident_ℕ,
  ℕ_discrete,
}
use rabbitmq.Base.Map
use rabbitmq.Base.Tally.{sum_list}
use rabbitmq.Consumers.Sequential
use rabbitmq.Consumers.Sequential.{Delivery, Failure, arrives, handler_settles}
use rabbitmq.Consumers.Settling
use rabbitmq.Consumers.Settling.{ack, nack, sent, processed}
use rabbitmq.Consumers.Ordered.{
  Event, processes, closes, init, contains, settle_ack, settle_unless, report_of, tag_of, action_of,
  on_settled, on_each, attach, close, comes_back, sets_up, create_processor, put, late, process,
  step, run,
}
use rabbitmq.Consumers.Ordered.Kept.{deliveries-are_kept, sends, kept, arrivals}

abbrev is_close : Event → Bool
is_close closes = true
is_close _ = false

stays : (e : Event) → is_close e ≡ false → e ≢ closes
stays e a b = let h : is_close e ≡ true = ap is_close b in ground (arith, a, h)

abbrev requeue_all : Delivery → Failure → Bool
requeue_all d failure = true

abbrev leader : Delivery
leader = record { tag = 1; message_id = some 10; depends_on = none }

abbrev follower : Delivery
follower = record { tag = 2; message_id = some 20; depends_on = some 10 }

-- The second message waits for the first, and fails.
abbrev dependent : List Event
dependent =
    processes (arrives leader 1)
    ∷ processes (arrives follower 2)
    ∷ processes (handler_settles 0 true 5)
    ∷ processes (handler_settles 0 false 6)
    ∷ []

dependent-run :
    (run requeue_all (init 100 false) dependent).1
    ≡ sent 1 ack ∷ processed 1 ∷ sent 2 (nack true) ∷ Settling.failed 2 true ∷ []
unfolding run step process on_each on_settled settle_unless settle_ack contains report_of tag_of
    action_of attach init Sequential.init Sequential.step Sequential.handle Sequential.settle
    Sequential.succeed Sequential.fail Sequential.release Sequential.park Sequential.start
    Sequential.waits_for Sequential.index_pending Sequential.add Sequential.mark_processing
    Sequential.unmark_processing Sequential.dependents_for Sequential.forget_dependents
    Sequential.take_task Map.get Map.set Map.delete ℕ_discrete
dependent-run = refl

-- The channel closes while the handler runs: its message is neither acked nor nacked.
closed-run :
    (run requeue_all
      (init 100 false)
      (processes (arrives leader 1) ∷ closes ∷ processes (handler_settles 0 true 5) ∷ [])).1
    ≡ processed 1 ∷ []
unfolding run step process on_each on_settled settle_unless settle_ack contains report_of tag_of
    action_of attach close init Sequential.init Sequential.step Sequential.handle Sequential.settle
    Sequential.succeed Sequential.release Sequential.start Sequential.dispose Sequential.waits_for
    Sequential.mark_processing Sequential.unmark_processing Sequential.dependents_for
    Sequential.forget_dependents Sequential.take_task Map.get Map.set Map.delete ℕ_discrete
closed-run = refl

-- A recovery sets the consumer up again on its channel: what was parked is gone with the processor, and
-- the handler that runs settles all the same.
abbrev set_up_again : List Event
set_up_again =
    processes (arrives leader 1)
    ∷ processes (arrives follower 2)
    ∷ sets_up
    ∷ comes_back 0 0 true 5
    ∷ []

set_up_again-run : (run requeue_all (init 100 false) set_up_again).1 ≡ sent 1 ack ∷ processed 1 ∷ []
unfolding run step process late put create_processor on_each on_settled settle_unless settle_ack
    contains report_of tag_of action_of attach init Sequential.init Sequential.step
    Sequential.handle Sequential.settle Sequential.succeed Sequential.release Sequential.park
    Sequential.start Sequential.dispose Sequential.waits_for Sequential.index_pending Sequential.add
    Sequential.mark_processing Sequential.unmark_processing Sequential.dependents_for
    Sequential.forget_dependents Sequential.take_task Map.get Map.set Map.delete ℕ_discrete
set_up_again-run = refl

deliveries-are_kept_example :
    let s = run requeue_all (init 100 false) set_up_again in
    let r = run requeue_all s.0 dependent in
    (sum_list (sends 2) (s.1 ++ r.1) ≤ 1)
    × (sum_list (sends 2) (s.1 ++ r.1) ≡ 0 → kept 2 r.0 ≡ kept 2 s.0 + arrivals 2 dependent)
deliveries-are_kept_example =
    deliveries-are_kept 2 requeue_all 100 set_up_again dependent
      (
        stays (processes (arrives leader 1)) refl,
        (
          stays (processes (arrives follower 2)) refl,
          (stays sets_up refl, (stays (comes_back 0 0 true 5) refl, tt)),
        ),
      )
      tt
