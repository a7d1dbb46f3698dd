-- ===== src/Tests/Publishing.antt =====
-- Runs of the publisher, of watched publishes, of the responder, of the delay probe and of the cache at
-- concrete inputs.
use rabbitmq.Base.{
  ℕ, zero, suc, ◌+◌, ◌<◌, ◌≤◌, ◌≡◌, refl, Bool, true, false, ◌||◌, Option, none, some, ltb, ◌==◌,
  if◌then◌else◌, ident_ℕ, ℕ_discrete, List, [], ◌∷◌, length, arith,
}
use rabbitmq.Base.Map
use rabbitmq.Limits.Limiter
use rabbitmq.Limits.Limiter.{RateLimiter}
use rabbitmq.Messaging.Batch.{attempts_of}
use rabbitmq.Messaging.Publisher.{
  Request, RoutingKey, not_text, blank, text, direct, publish, publish_batch, admit_all, Trial,
  sent, run_publish, run_protected, publish_operation, publish_routable, next_try, is_open,
}
use rabbitmq.Messaging.Publisher.Admission.{admit_all-charges, charge_all, mandatory-is_routed}
use rabbitmq.Messaging.Routable
use rabbitmq.Messaging.Routable.{publishes, returns, confirms, verdict}
use rabbitmq.Messaging.Routable.Watched.{watch_count-unsettled}
use rabbitmq.Messaging.Routable.Watched.Tokens.{all_begun}
use rabbitmq.Messaging.Responder.{
  Delivery, Endings, error_envelope, respond, is_stale, answer, reply_error,
}
use rabbitmq.Messaging.Topology
use rabbitmq.Messaging.Topology.{Probes, probes, unknown_type, broken, found}
use rabbitmq.Messaging.Topology.Declared.{probe-keeps_channel}
use rabbitmq.Facade.Cache
use rabbitmq.Facade.Cache.{Store, Caller, Cached}

-- One request while disconnected, and one that is connected.
abbrev offline : Request ℕ
offline = record {
  method = publish;
  exchange_type = direct;
  routing_key = text 3;
  priority = none;
  mandatory = false;
  rate_limit_key = none;
  rate_limit_cost = none;
  default_rate_key = 3;
  is_connected = false;
  time = 10;
}

abbrev online : Request ℕ
online = record offline { method = publish_batch 2; is_connected = true }

-- Three tokens for each window of a second.
abbrev limiter : RateLimiter ℕ
limiter = record {
  window_ms = 1000;
  max_requests = 3;
  strategy = Limiter.Strategy.fixed_window;
  burstable = false;
  blocked = [];
  limiter =
      Limiter.Limiter.fixed_window (record { max_requests = 3; window_ms = 1000; counters = [] });
  cleanup_interval = 1000000;
}

admit_all-charges_example :
    (admit_all 10 (some limiter) (offline ∷ online ∷ [])).0
    ≡ some (charge_all 10 limiter (offline ∷ online ∷ []))
admit_all-charges_example = admit_all-charges 10 (offline ∷ online ∷ []) limiter

-- The first try is returned, and the second is not.
abbrev trials : ℕ → Trial
trials zero = sent true true
trials (suc n) = sent true false

trials-resolve : run_publish true trials none ≡ none
unfolding run_publish attempts_of run_protected publish_operation publish_routable next_try is_open
trials-resolve = refl

mandatory-is_routed_example : (k : ℕ) × (k < attempts_of none) × (trials k ≡ sent true false)
mandatory-is_routed_example = mandatory-is_routed trials none trials-resolve

watch_count_after :
    Routable.watch_count (Routable.run Routable.init (publishes ∷ confirms 0 true ∷ [])).0 ≡ 0
unfolding Routable.watch_count Routable.size Routable.run Routable.step Routable.init Routable.watch
    Routable.publish_watched Routable.registry_for Routable.on_confirm Routable.settle
    Routable.verdict Map.get Map.set Map.delete ℕ_discrete
watch_count_after = refl

watch_count-unsettled_example :
    let r = Routable.run Routable.init (publishes ∷ publishes ∷ returns 0 ∷ confirms 0 true ∷ []) in
    (Routable.watch_count r.0 + length r.1
      ≡ all_begun (publishes ∷ publishes ∷ returns 0 ∷ confirms 0 true ∷ []))
    × (r.0.listeners ≤ 1)
watch_count-unsettled_example =
    watch_count-unsettled (publishes ∷ publishes ∷ returns 0 ∷ confirms 0 true ∷ [])

abbrev crossed : List Routable.Event
crossed = publishes ∷ returns 0 ∷ returns 1 ∷ confirms 0 true ∷ []

first_token : (Routable.run Routable.init (publishes ∷ [])).0.next_token ≡ 1
unfolding Routable.run Routable.step Routable.init Routable.watch Routable.publish_watched
    Routable.registry_for
first_token = refl

abbrev late_delivery : Delivery
late_delivery = record { deadline = some 5; reply_to = some 1; time = 4 }

abbrev failing : Endings
failing = record { handler_returns = false; is_published = λ r. true }

late-answered :
    respond true late_delivery failing
    ≡ record { is_handled = true; tried = error_envelope ∷ []; resolves = true }
unfolding respond is_stale answer reply_error
late-answered = refl

abbrev idle : Probes
idle = record { probe_sequence = 0; in_flight = []; dedicated = [] }

probe-keeps_channel_example :
    let t =
      (Topology.run
        (Topology.step idle (probes 7)).0
        (probes 8 ∷ Topology.closes 1 ∷ Topology.returns 2 broken ∷ [])).0 in
    (Map.get t.dedicated 1 ≡ none)
    × ((Topology.step t (Topology.returns 1 unknown_type)).1 ≡ found unknown_type ∷ [])
    × (Map.get (Topology.step t (Topology.returns 1 unknown_type)).0.dedicated 1 ≡ none)
probe-keeps_channel_example =
    probe-keeps_channel idle 7 (probes 8 ∷ Topology.closes 1 ∷ Topology.returns 2 broken ∷ [])
      unknown_type (omega arith)

-- A store of one function.
abbrev same_key : RoutingKey → RoutingKey → Bool
same_key not_text not_text = true
same_key blank blank = true
same_key (text a) (text b) = a == b
same_key not_text blank = false
same_key not_text (text b) = false
same_key blank not_text = false
same_key blank (text b) = false
same_key (text a) not_text = false
same_key (text a) blank = false

abbrev is_alive : ℕ → ℕ → ℕ → Bool
is_alive now ttl later = (ttl == 0) || ltb later (now + ttl)

abbrev store : Store ℕ
store = record {
  State = ℕ → RoutingKey → Option ℕ;
  get = λ s. s;
  set = λ s now k v ttl later j.
      if same_key k j then (if is_alive now ttl later then some v else none) else s later j;
  del = λ s k later j. if same_key k j then none else s later j;
  flush_all = λ s later j. none;
  std_ttl = 60;
}

abbrev first_caller : Caller ℕ
first_caller = record {
  exchange_type = direct;
  routing_key = text 3;
  generated = some 9;
  is_published = true;
  cache_ttl = none;
  asked = 0;
  answered = 1;
}

-- The same key, after a second.
abbrev second_caller : Caller ℕ
second_caller = record first_caller { asked = 2 }

abbrev empty_store : ℕ → RoutingKey → Option ℕ
empty_store later k = none

-- Meanwhile another key is published and dropped, and the key is looked up.
abbrev between : List (Cache.Call store)
between =
    Cache.keeps (record first_caller { routing_key = text 4 }) 8
    ∷ Cache.looks 2 (text 3)
    ∷ Cache.invalidates (text 4)
    ∷ []
