-- ===== src/Tests/Parallel.antt =====
-- Runs of parallel subscriptions.
use rabbitmq.Base.{◌<◌, ◌≡◌, refl, true, false, none, List, [], ◌∷◌, arith}
use rabbitmq.Consumers.Sequential.{remove}
use rabbitmq.Consumers.Ordered.{contains}
use rabbitmq.Consumers.Parallel.{
  Event, subscribes, disposes, disposed, resolves, drops, init, subscribe_parallel, register,
  terminate, come_back, drop_pool, dispose_all, clear, given, step, run, prefetch_count, or_ten,
}
use rabbitmq.Consumers.Parallel.Owned.{pools-are_owned, AllInTime, is_owned}

-- Two pools: the first is dropped, and the second is there when everything is disposed of.
abbrev two_pools : List Event
two_pools =
    subscribes ∷ resolves 0 true ∷ subscribes ∷ resolves 1 true ∷ drops 0 ∷ disposes ∷ disposed ∷ []

two_pools-end : (run init two_pools).terminated ≡ 1 ∷ 0 ∷ []
unfolding run step init subscribe_parallel register terminate come_back drop_pool dispose_all clear
    given contains remove
two_pools-end = refl

two_pools-AllInTime : AllInTime 1 init two_pools
unfolding step init subscribe_parallel register terminate come_back drop_pool dispose_all clear
    given contains remove
two_pools-AllInTime = (tt, (λ e. (refl, refl), (tt, (λ e. (refl, refl), (tt, (tt, (tt, tt)))))))

two_pools-made : 1 < (run init two_pools).next_pool
unfolding run step init subscribe_parallel register terminate come_back drop_pool dispose_all clear
    given contains remove
two_pools-made = omega arith

pools-are_owned_example : is_owned 1 (run init two_pools) ≡ true
pools-are_owned_example = pools-are_owned 1 two_pools two_pools-AllInTime two_pools-made

-- A subscription that comes back while disposeAll waits for another pool: nobody ends its own.
late-is_lost :
    is_owned 1 (
      run init
        (subscribes ∷ resolves 0 true ∷ subscribes ∷ disposes ∷ resolves 1 true ∷ disposed ∷ []))
    ≡ false
unfolding run step init subscribe_parallel register terminate come_back dispose_all clear given
    contains remove
late-is_lost = refl

default_prefetch : prefetch_count none 4 ≡ 40
unfolding prefetch_count or_ten
default_prefetch = refl
