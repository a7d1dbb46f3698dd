-- ===== src/Consumers/Parallel.antt =====
-- The worker pools that `subscribeParallel` of src/consumers/consumer-manager.js owns. A pool is numbered
-- by its subscription, and so is the consumer that it serves.
pub mod Owned
use rabbitmq.Base.{
  ℕ, ◌+◌, ◌-◌, ◌*◌, Bool, true, false, Option, none, some, ◌==◌, if◌then◌else◌, List, [], ◌∷◌, ◌++◌,
}
use rabbitmq.Consumers.Sequential.{remove}
use rabbitmq.Consumers.Ordered.{contains}

pub record Parallel : Type 0 where
  pub next_pool : ℕ
  pub subscribing : List ℕ  -- pools whose `subscribe` has not come back
  pub worker_pools : List ℕ  -- those in the map
  pub disposals : ℕ  -- calls of `disposeAll` that wait for the pools to end
  pub terminated : List ℕ  -- pools that were told to end

pub data Event : Type 0 where
  subscribes disposes disposed : Event
  resolves : ℕ → Bool → Event  -- with whether the tag still leads to a consumer
  fails drops : ℕ → Event

unfoldable pub init : Parallel
init = record { next_pool = 0; subscribing = []; worker_pools = []; disposals = 0; terminated = [] }

-- Up to its `await`.
unfoldable pub subscribe_parallel : Parallel → Parallel
subscribe_parallel s = record s {
  next_pool = s.next_pool + 1;
  subscribing = s.next_pool ∷ s.subscribing;
}

unfoldable pub register : Bool → Parallel → ℕ → Parallel
register true s pool = record s { worker_pools = pool ∷ s.worker_pools }
register false s pool = s

unfoldable pub terminate : Parallel → ℕ → Parallel
terminate s pool = record s { terminated = pool ∷ s.terminated }

unfoldable pub come_back : Parallel → ℕ → Parallel
unfolding remove
come_back s pool = record s { subscribing = remove s.subscribing pool }

-- The end of `#dropConsumer`.
unfoldable pub drop_pool : Parallel → ℕ → Parallel
unfolding terminate remove
drop_pool s pool = terminate (record s { worker_pools = remove s.worker_pools pool }) pool

-- `disposeAll` up to its `await`, and after it.
unfoldable pub dispose_all : Parallel → Parallel
dispose_all s = record s {
  disposals = s.disposals + 1;
  terminated = s.worker_pools ++ s.terminated;
}

unfoldable pub clear : Parallel → Parallel
clear s =
    if s.disposals == 0 then s else record s { disposals = s.disposals - 1; worker_pools = [] }

-- What comes back for a pool that is not waiting changes nothing.
unfoldable pub given : Bool → Parallel → Parallel → Parallel
given true s t = t
given false s t = s

unfoldable pub step : Parallel → Event → Parallel
unfolding subscribe_parallel register terminate come_back drop_pool dispose_all clear given contains
step s subscribes = subscribe_parallel s
step s (resolves pool is_found) =
    given (contains s.subscribing pool) s (register is_found (come_back s pool) pool)
step s (fails pool) = given (contains s.subscribing pool) s (terminate (come_back s pool) pool)
step s (drops pool) = given (contains s.worker_pools pool) s (drop_pool s pool)
step s disposes = dispose_all s
step s disposed = clear s

unfoldable pub run : Parallel → List Event → Parallel
unfolding step
run s [] = s
run s (e ∷ es) = run (step s e) es

-- The handler of the subscription: whether it returns, by what `run` of the pool gives.
pub data WorkerResult : Type 0 where
  nothing unsuccessful successful : WorkerResult

unfoldable pub message_handler : WorkerResult → Bool
message_handler nothing = false
message_handler unsuccessful = false
message_handler successful = true

unfoldable pub or_ten : Option ℕ → ℕ
or_ten none = 10
or_ten (some n) = n

unfoldable pub prefetch_count : Option ℕ → ℕ → ℕ
unfolding or_ten
prefetch_count prefetch size = or_ten prefetch * size
