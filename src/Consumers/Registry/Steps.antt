-- ===== src/Consumers/Registry/Steps.antt =====
-- The set-up of a consumer after each of its awaits, the recovery of one that was lost, and unsubscribe,
-- recreateAll and disposeAll of src/consumers/consumer-manager.js.
use rabbitmq.Base.{
  ℕ, zero, suc, ◌+◌, Bool, true, false, Option, none, some, ltb, ◌==◌, ◌&&◌, not, if◌then◌else◌,
  Table, ident_ℕ, List, [], ◌∷◌,
}
use rabbitmq.Base.Map
use rabbitmq.Consumers.Registry.{
  Consumer, Owner, by_subscribe, by_recreate, by_loss, Phase, opening, releasing, cancelling,
  prefetching, consuming, Setup, Stage, sleeping, setting_up, Loss, subscribe_failed, unsubscribed,
  recovery_failed, Removal, Manager, Event, subscribes, setup_returns, unsubscribes, cancel_returns,
  drained, broker_cancels, channel_closes, wakes, recreates_all, pool_becomes, disposes_all,
  pools_terminate, Output, subscribed, unsubscribe_returns, unsubscribe_throws, consumer_cancelled,
  consumer_recovered, releases_channel, cancels, consumes, Step, ◌then_do◌, register_consumer,
  fresh_consumer, run_setup, find_consumer_id_by_tag, is_number, track, begin_removal, remove,
}

-- `handleConsumerLoss` up to its first sleep.
unfoldable pub lose_consumer : Manager → ℕ → Option Consumer → Step
lose_consumer s id none = (s, [])
lose_consumer s id (some q) = if q.cancelled then (s, []) else (
  record s {
    losses = Map.set s.losses s.next_loss (record {
      consumer = id;
      owned_pool = s.channel_pool;
      known_epoch = q.epoch;
      attempt = 1;
      stage = sleeping;
    });
    next_loss = s.next_loss + 1;
  },
  consumer_cancelled id ∷ [],
)

-- The listener of `#watchChannelLoss`, a microtask later.
unfoldable pub channel_lost : Manager → ℕ → ℕ → Option ℕ → Option Consumer → Step
unfolding is_number lose_consumer
channel_lost s id channel none o = (s, [])
channel_lost s id channel (some p) none = (s, [])
channel_lost s id channel (some p) (some q) =
    if not q.cancelled && is_number q.channel channel then lose_consumer s id (some q) else (s, [])

-- `stillOurs`.
unfoldable pub same_pool : Option ℕ → Option ℕ → Bool
unfolding is_number
same_pool none none = true
same_pool none (some p) = false
same_pool (some p) o = is_number o p

unfoldable pub still_ours : Manager → Loss → Option Consumer → Bool
unfolding same_pool
still_ours s l none = false
still_ours s l (some q) = not q.cancelled && same_pool s.channel_pool l.owned_pool

unfoldable pub end_loss : Manager → ℕ → Manager
end_loss s n = record s { losses = Map.delete s.losses n }

-- The loop of `handleConsumerLoss` after a sleep.
unfoldable pub try_again : Manager → ℕ → Loss → Option Consumer → Manager
unfolding still_ours end_loss run_setup
try_again s n l none = end_loss s n
try_again s n l (some q) =
    if still_ours s l (some q) && (q.epoch == l.known_epoch)
    then run_setup
        (record s {
          losses = Map.set s.losses n (record l { known_epoch = q.epoch + 1; stage = setting_up });
        })
        l.consumer q (by_loss n)
    else end_loss s n

unfoldable pub wake_stage : Manager → ℕ → Loss → Stage → Manager
unfolding try_again
wake_stage s n l sleeping = try_again s n l (Map.get s.active_consumers l.consumer)
wake_stage s n l setting_up = s

unfoldable pub wake : Manager → ℕ → Option Loss → Manager
unfolding wake_stage
wake s n none = s
wake s n (some l) = wake_stage s n l l.stage

-- The loop of `handleConsumerLoss` after a set-up that failed.
unfoldable pub max_attempts : ℕ
max_attempts = 3

unfoldable pub give_up : Manager → ℕ → Loss → Manager
unfolding still_ours end_loss begin_removal
give_up s n l =
    if still_ours s l (Map.get s.active_consumers l.consumer)
    then begin_removal (end_loss s n) l.consumer recovery_failed false
    else end_loss s n

unfoldable pub attempt_failed : Manager → ℕ → Option Loss → Manager
unfolding give_up max_attempts
attempt_failed s n none = s
attempt_failed s n (some l) =
    if ltb l.attempt max_attempts
    then record s {
      losses = Map.set s.losses n (record l { attempt = l.attempt + 1; stage = sleeping });
    }
    else give_up s n l

-- A set-up settles, for the one who awaits it.
unfoldable pub setup_fails : Manager → ℕ → Owner → Step
unfolding begin_removal attempt_failed
setup_fails s id by_subscribe = (begin_removal s id subscribe_failed false, [])
setup_fails s id by_recreate = (s, [])
setup_fails s id (by_loss n) = (attempt_failed s n (Map.get s.losses n), [])

unfoldable pub setup_succeeds : Manager → ℕ → ℕ → Owner → Step
unfolding end_loss
setup_succeeds s id tag by_subscribe = (s, subscribed id tag ∷ [])
setup_succeeds s id tag by_recreate = (s, [])
setup_succeeds s id tag (by_loss n) = (end_loss s n, consumer_recovered id ∷ [])

unfoldable pub end_setup : Manager → ℕ → Manager
end_setup s i = record s { setups = Map.delete s.setups i }

unfoldable pub fail : Manager → ℕ → Setup → Step
unfolding setup_fails end_setup
fail s i u = setup_fails (end_setup s i) u.consumer u.owner

unfoldable pub enter : Manager → ℕ → Setup → Phase → Manager
enter s i u phase = record s { setups = Map.set s.setups i (record u { phase = phase }) }

-- After the channel: a consumer that is gone gives it back, and one that is going leaves it.
unfoldable pub opened : Manager → ℕ → Setup → ℕ → Option Consumer → Step
unfolding fail enter
opened s i u c none = (enter s i u releasing, releases_channel u.consumer ∷ [])
opened s i u c (some q) =
    if q.cancelled
    then fail s i u
    else (if q.no_ack
        then (enter s i u (consuming c), consumes c u.consumer ∷ [])
        else (enter s i u (prefetching c), []))

-- After the consume: its tag is the next one.
unfoldable pub consumed : Manager → ℕ → Setup → ℕ → Option Consumer → Step
unfolding enter end_setup track setup_succeeds
consumed s i u c none =
    (enter (record s { next_tag = s.next_tag + 1 }) i u cancelling, cancels c s.next_tag ∷ [])
consumed s i u c (some q) =
    if q.cancelled
    then (enter (record s { next_tag = s.next_tag + 1 }) i u cancelling, cancels c s.next_tag ∷ [])
    else track (end_setup s i) u.consumer q c
      then_do (λ t. setup_succeeds t u.consumer s.next_tag u.owner)

-- The closure that `registerConsumer` is given, after each await. A cancel that fails is swallowed.
unfoldable pub advance : Manager → ℕ → Setup → Phase → Option ℕ → Step
unfolding fail enter opened consumed
advance s i u opening none = fail s i u
advance s i u opening (some c) = opened s i u c (Map.get s.active_consumers u.consumer)
advance s i u releasing o = fail s i u
advance s i u (prefetching c) none = fail s i u
advance s i u (prefetching c) (some n) = (enter s i u (consuming c), consumes c u.consumer ∷ [])
advance s i u (consuming c) none = fail s i u
advance s i u (consuming c) (some n) = consumed s i u c (Map.get s.active_consumers u.consumer)
advance s i u cancelling o = fail s i u

unfoldable pub setup_step : Manager → ℕ → Option ℕ → Option Setup → Step
unfolding advance
setup_step s i o none = (s, [])
setup_step s i o (some u) = advance s i u u.phase o

-- `subscribe` up to its first await.
unfoldable pub subscribe : Manager → ℕ → Bool → Manager
unfolding register_consumer run_setup
subscribe s queue no_ack =
    run_setup (register_consumer s queue no_ack) s.consumer_sequence (fresh_consumer queue no_ack)
      by_subscribe

-- `unsubscribe` up to its first await. The broker is told the tag of the current consume.
unfoldable pub cancel_current : ℕ → Option ℕ → Option ℕ → List Output
cancel_current id (some c) (some tag) = cancels c tag ∷ []
cancel_current id _ _ = []

unfoldable pub has_channel : Option ℕ → Bool
has_channel none = false
has_channel (some c) = true

unfoldable pub unsubscribe_consumer : Manager → ℕ → Option Consumer → Step
unfolding begin_removal cancel_current has_channel
unsubscribe_consumer s id none = (s, unsubscribe_throws ∷ [])
unsubscribe_consumer s id (some q) = (
  begin_removal
      (record s {
        active_consumers = Map.set s.active_consumers id (record q { cancelled = true });
      })
      id unsubscribed (has_channel q.channel),
  cancel_current id q.channel q.consumer_tag,
)

unfoldable pub unsubscribe : Manager → Option ℕ → Step
unfolding unsubscribe_consumer
unsubscribe s none = (s, unsubscribe_returns false ∷ [])
unsubscribe s (some id) = unsubscribe_consumer s id (Map.get s.active_consumers id)

unfoldable pub cancel_step : Manager → ℕ → Option Removal → Manager
cancel_step s d none = s
cancel_step s d (some m) = record s {
  removals = Map.set s.removals d (record m { is_cancelling = false });
}

-- The drain is over: the handlers are done, or the grace period is.
unfoldable pub drain_step : Manager → ℕ → Option Removal → Step
unfolding remove
drain_step s d none = (s, [])
drain_step s d (some m) = if m.is_cancelling then (s, []) else remove s d m

-- `recreateAll` up to its await.
unfoldable pub recreate_one : Manager → ℕ → Option Consumer → Manager
unfolding run_setup
recreate_one s id none = s
recreate_one s id (some q) = run_setup s id q by_recreate

unfoldable pub recreate_each : Table ℕ Consumer → Manager → Manager
unfolding recreate_one
recreate_each [] s = s
recreate_each ((id, q) ∷ t) s = recreate_each t (recreate_one s id (Map.get s.active_consumers id))

-- `disposeAll` after its await.
unfoldable pub dispose : Manager → ℕ → Manager
dispose s zero = s
dispose s (suc n) = record s { disposing = n; active_consumers = []; consumers_by_tag = [] }

unfoldable pub step : Manager → Event → Step
unfolding lose_consumer channel_lost wake setup_step subscribe unsubscribe find_consumer_id_by_tag
    cancel_step drain_step recreate_each dispose
step s (subscribes queue no_ack) = (subscribe s queue no_ack, [])
step s (setup_returns i o) = setup_step s i o (Map.get s.setups i)
step s (unsubscribes tag) = unsubscribe s (find_consumer_id_by_tag s tag)
step s (cancel_returns d) = (cancel_step s d (Map.get s.removals d), [])
step s (drained d) = drain_step s d (Map.get s.removals d)
step s (broker_cancels id) = lose_consumer s id (Map.get s.active_consumers id)
step s (channel_closes id c) = channel_lost s id c s.channel_pool (Map.get s.active_consumers id)
step s (wakes n) = (wake s n (Map.get s.losses n), [])
step s recreates_all = (recreate_each s.active_consumers s, [])
step s (pool_becomes o) = (record s { channel_pool = o }, [])
step s disposes_all = (record s { disposing = s.disposing + 1 }, [])
step s pools_terminate = (dispose s s.disposing, [])

unfoldable pub run : Manager → List Event → Step
unfolding step
run s [] = (s, [])
run s (e ∷ es) = step s e then_do (λ t. run t es)
