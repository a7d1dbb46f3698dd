-- ===== src/Tests/Registry.antt =====
-- Runs of the registry of src/consumers/consumer-manager.js at concrete inputs.
use rabbitmq.Base.{
  ◌≤◌, ◌≡◌, ◌≢◌, ◌⊎◌, refl, true, false, none, some, ident_ℕ, ℕ_discrete, List, [], ◌∷◌, ◌++◌,
  arith,
}
use rabbitmq.Base.Map
use rabbitmq.Consumers.Registry.{
  Consumer, Loss, Removal, Manager, Event, sleeping, unsubscribed, subscribes, setup_returns,
  unsubscribes, cancel_returns, drained, broker_cancels, wakes, recreates_all, pool_becomes, init,
  register_consumer, run_setup, find_consumer_id_by_tag, find_queue_name_by_tag, is_number, track,
  watch, begin_removal,
}
use rabbitmq.Consumers.Registry.Steps.{
  lose_consumer, same_pool, still_ours, end_loss, try_again, wake_stage, wake, give_up,
  attempt_failed, max_attempts, setup_fails, setup_succeeds, end_setup, fail, enter, opened,
  consumed, advance, setup_step, subscribe, cancel_current, has_channel, unsubscribe_consumer,
  unsubscribe, cancel_step, recreate_one, recreate_each, step, run,
}
use rabbitmq.Consumers.Registry.Tags.{tags-are_handles, removed-is_gone}
use rabbitmq.Consumers.Registry.Recovery.{begun, recovery-le-max_attempts}
use rabbitmq.Consumers.Registry.Unsubscribed.{unsubscribed-gets_no_tag}
use rabbitmq.Consumers.Registry.Unsubscribed.Losses.{IsHeld}

-- A consumer of queue 7 on channel 4, with tag 0.
abbrev joined : List Event
joined =
    pool_becomes (some 1)
    ∷ subscribes 7 true
    ∷ setup_returns 0 (some 4)
    ∷ setup_returns 0 (some 0)
    ∷ []

-- It is recreated, with tag 1.
abbrev again : List Event
again = recreates_all ∷ setup_returns 1 (some 5) ∷ setup_returns 1 (some 0) ∷ []

joined-tag : find_consumer_id_by_tag (run init joined).0 0 ≡ some 0
unfolding run step init subscribe register_consumer run_setup setup_step advance opened enter
    consumed end_setup track watch is_number setup_succeeds find_consumer_id_by_tag Map.get Map.set
    Map.delete ℕ_discrete
joined-tag = refl

tags-are_handles_example :
    let s = (run init joined).0 in
    let t = (run init (joined ++ again)).0 in
    (find_queue_name_by_tag s 0 ≢ none)
    × ((find_consumer_id_by_tag t 0 ≡ some 0) ⊎ (Map.get t.active_consumers 0 ≡ none))
tags-are_handles_example = tags-are_handles joined again 0 0 joined-tag

abbrev leaving : List Event
leaving =
    pool_becomes (some 1)
    ∷ subscribes 7 true
    ∷ setup_returns 0 (some 4)
    ∷ setup_returns 0 (some 0)
    ∷ unsubscribes 0
    ∷ cancel_returns 0
    ∷ []

abbrev removal : Removal
removal = record { consumer = 0; cause = unsubscribed; is_cancelling = false }

abbrev gone_consumer : Consumer
gone_consumer = record {
  queue = 7;
  no_ack = true;
  channel = some 4;
  consumer_tag = some 0;
  watched_channel = some 4;
  cancelled = true;
  epoch = 1;
}

leaving-state :
    (Map.get (run init leaving).0.removals 0 ≡ some removal)
    × (Map.get (run init leaving).0.active_consumers 0 ≡ some gone_consumer)
unfolding run step init subscribe register_consumer run_setup setup_step advance opened enter
    consumed end_setup track watch is_number setup_succeeds find_consumer_id_by_tag unsubscribe
    unsubscribe_consumer begin_removal cancel_current has_channel cancel_step Map.get Map.set
    Map.delete ℕ_discrete
leaving-state = (refl, refl)

removed-is_gone_example :
    let t = (run (step (run init leaving).0 (drained 0)).0 again).0 in
    (Map.get t.active_consumers 0 ≡ none) × (find_consumer_id_by_tag t 0 ≢ some 0)
removed-is_gone_example =
    removed-is_gone leaving again 0 0 removal leaving-state.0 refl
      (λ e. ground (arith, leaving-state.1))

-- A recovery whose channel never opens.
abbrev failing : List Event
failing =
    pool_becomes (some 1)
    ∷ subscribes 7 true
    ∷ setup_returns 0 (some 4)
    ∷ setup_returns 0 (some 0)
    ∷ broker_cancels 0
    ∷ wakes 0
    ∷ setup_returns 1 none
    ∷ wakes 0
    ∷ setup_returns 2 none
    ∷ wakes 0
    ∷ setup_returns 3 none
    ∷ wakes 0
    ∷ []

recovery-le-max_attempts_example : begun 0 init failing ≤ max_attempts
recovery-le-max_attempts_example = recovery-le-max_attempts 0 failing

failing-begins : begun 0 init failing ≡ 3
unfolding run step init subscribe register_consumer run_setup setup_step advance opened enter
    consumed end_setup track watch is_number setup_succeeds setup_fails fail attempt_failed
    max_attempts give_up begin_removal end_loss lose_consumer wake wake_stage try_again still_ours
    same_pool Map.get Map.set Map.delete ℕ_discrete
failing-begins = refl

abbrev sleeper : Loss
sleeper = record {
  consumer = 0;
  owned_pool = some 1;
  known_epoch = 1;
  attempt = 1;
  stage = sleeping;
}

abbrev lost_consumer : Consumer
lost_consumer = record gone_consumer { cancelled = false }

-- Two recoveries of one consumer.
abbrev two_recoveries : Manager
unfolding init
two_recoveries = record init {
  active_consumers = (0, lost_consumer) ∷ [];
  consumer_sequence = 1;
  channel_pool = some 1;
  losses = (0, sleeper) ∷ (1, sleeper) ∷ [];
  next_loss = 2;
}

abbrev late : List Event
late = recreates_all ∷ setup_returns 1 (some 5) ∷ []

late-tag :
    find_consumer_id_by_tag (run (step (run init joined).0 (unsubscribes 0)).0 late).0 0 ≡ some 0
unfolding run step init subscribe register_consumer run_setup setup_step advance opened enter
    consumed end_setup track watch is_number setup_succeeds setup_fails fail find_consumer_id_by_tag
    unsubscribe unsubscribe_consumer begin_removal cancel_current has_channel recreate_each
    recreate_one Map.get Map.set Map.delete ℕ_discrete
late-tag = refl

unsubscribed-gets_no_tag_example :
    IsHeld 0 (run (step (run init joined).0 (unsubscribes 0)).0 late).0
    × (find_consumer_id_by_tag (run init joined).0 0 ≡ some 0)
unsubscribed-gets_no_tag_example = unsubscribed-gets_no_tag joined late 0 0 0 joined-tag late-tag
