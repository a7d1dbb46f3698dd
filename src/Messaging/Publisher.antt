-- ===== src/Messaging/Publisher.antt =====
-- src/messaging/publisher.js: what is refused before a publish, what a publish carries, and how it is
-- tried. What becomes of a try is the environment's. The retry policy and the breaker are not of
-- this repository: a try that fails is repeated up to the number of attempts, and an open circuit
-- ends the tries.
pub mod Admission
use rabbitmq.Base.{
  ℕ, zero, suc, ◌+◌, ◌*◌, Bool, true, false, ◌&&◌, Option, none, some, leb, ◌==◌, if◌then◌else◌,
  Ident, Table, List, [], ◌∷◌,
}
use rabbitmq.Base.Map
use rabbitmq.Limits.Limiter
use rabbitmq.Limits.Limiter.{RateLimiter, Outcome, cost_unsatisfiable, verdict}
use rabbitmq.Messaging.Batch.{attempts_of}

pub data ExchangeType : Type 0 where
  direct topic fanout headers unknown : ExchangeType

-- `blank` is empty or white space only.
pub data RoutingKey : Type 0 where
  not_text blank : RoutingKey
  text : ℕ → RoutingKey

pub data Priority : Type 0 where
  negative : Priority
  natural : ℕ → Priority

pub data Refusal : Type 0 where
  mandatory_refused no_messages invalid_delay invalid_routing_key invalid_priority not_connected :
      Refusal
  rate_limited unsatisfiable : Refusal

-- The methods, with what each checks first: the number of messages, or a delay that is one.
pub data Method : Type 0 where
  publish publish_async : Method
  publish_batch publish_async_batch : ℕ → Method
  publish_delayed : Option ℕ → Method

pub record Request (K : Type 0) : Type 0 where
  pub method : Method
  pub exchange_type : ExchangeType
  pub routing_key : RoutingKey
  pub priority : Option Priority
  pub mandatory : Bool
  pub rate_limit_key : Option K
  pub rate_limit_cost : Option ℕ
  pub default_rate_key : K
  pub is_connected : Bool  -- `getChannel` finds a channel
  pub time : ℕ

unfoldable pub validate_routing_key : RoutingKey → ExchangeType → Bool
validate_routing_key not_text exchange_type = false
validate_routing_key blank fanout = true
validate_routing_key blank headers = true
validate_routing_key blank direct = false
validate_routing_key blank topic = false
validate_routing_key blank unknown = false
validate_routing_key (text t) exchange_type = true

unfoldable pub validate_priority : Option Priority → ℕ → Bool
validate_priority none max_priority = true
validate_priority (some negative) max_priority = false
validate_priority (some (natural n)) max_priority = leb n max_priority

-- What a method looks at before the rest.
unfoldable pub check_method : Method → Bool → Option Refusal
check_method publish mandatory = none
check_method publish_async mandatory = if mandatory then some mandatory_refused else none
check_method (publish_batch n) mandatory = if n == 0 then some no_messages else none
check_method (publish_async_batch n) mandatory =
    if mandatory then some mandatory_refused else (if n == 0 then some no_messages else none)
check_method (publish_delayed none) mandatory = some invalid_delay
check_method (publish_delayed (some delay)) mandatory = none

unfoldable pub message_count : Method → ℕ
message_count (publish_batch n) = n
message_count (publish_async_batch n) = n
message_count _ = 1

unfoldable pub or_one : Option ℕ → ℕ
or_one none = 1
or_one (some n) = n

unfoldable pub or_key : {K : Type 0} → Option K → K → K
or_key none key = key
or_key (some key) default_key = key

unfoldable pub cost_of : {K : Type 0} → Request K → ℕ
unfolding message_count or_one
cost_of r = message_count r.method * or_one r.rate_limit_cost

module _ {K : Type 0} ⦃i : Ident K⦄ where
  -- `applyRateLimit`. A refusal reads the status of the key, which brings its record up to date.
  unfoldable pub conclude :
      RateLimiter K → K → ℕ → Outcome → Option (RateLimiter K) × Option Refusal
  conclude s key now (cost_unsatisfiable cost) = (some s, some unsatisfiable)
  conclude s key now (verdict true wait) = (some s, none)
  conclude s key now (verdict false wait) =
      (some (Limiter.get_status s key now).0, some rate_limited)

  unfoldable pub apply_rate_limit :
      Option (RateLimiter K) → K → ℕ → ℕ → Option (RateLimiter K) × Option Refusal
  unfolding conclude
  apply_rate_limit none key cost now = (none, none)
  apply_rate_limit (some s) key cost now =
      let (s', outcome, events) = Limiter.check_rate_limit s key cost now in
      conclude s' key now outcome

  unfoldable pub preflight :
      ℕ → Option (RateLimiter K) → Request K → Option (RateLimiter K) × Option Refusal
  unfolding validate_routing_key validate_priority apply_rate_limit or_key cost_of
  preflight max_priority s r =
      if validate_routing_key r.routing_key r.exchange_type
      then (if validate_priority r.priority max_priority
          then (if r.is_connected
              then apply_rate_limit s (or_key r.rate_limit_key r.default_rate_key) (cost_of r)
                  r.time
              else (s, some not_connected))
          else (s, some invalid_priority))
      else (s, some invalid_routing_key)

  -- What every method does before it publishes.
  unfoldable pub admit_rest :
      ℕ
      → Option (RateLimiter K)
      → Request K
      → Option Refusal
      → Option (RateLimiter K) × Option Refusal
  unfolding preflight
  admit_rest max_priority s r none = preflight max_priority s r
  admit_rest max_priority s r (some refusal) = (s, some refusal)

  unfoldable pub admit :
      ℕ → Option (RateLimiter K) → Request K → Option (RateLimiter K) × Option Refusal
  unfolding admit_rest check_method
  admit max_priority s r = admit_rest max_priority s r (check_method r.method r.mandatory)

  unfoldable pub admit_all :
      ℕ → Option (RateLimiter K) → List (Request K) → Option (RateLimiter K) × List (Option Refusal)
  unfolding admit
  admit_all max_priority s [] = (s, [])
  admit_all max_priority s (r ∷ rs) =
      let (s', refusal) = admit max_priority s r in
      let (s'', refusals) = admit_all max_priority s' rs in (s'', refusal ∷ refusals)

-- `{ ...a, ...b }`.
unfoldable pub spread : {H V : Type 0} ⦃i : Ident H⦄ → Table H V → Table H V → Table H V
spread a [] = a
spread a ((h, v) ∷ b) = spread (Map.set a h v) b

unfoldable pub or_persistent : Option Bool → Bool
or_persistent none = true
or_persistent (some b) = b

-- `buildOptions`: whether it is persistent, and its headers.
unfoldable pub build_options :
    {H V : Type 0} ⦃i : Ident H⦄ → Option Bool → Table H V → H → V → Table H V → Bool × Table H V
unfolding spread or_persistent
build_options persistent own x_compressed compressed extra =
    (or_persistent persistent, spread (Map.set own x_compressed compressed) extra)

-- A try of `publish` or `publishDelayed`.
pub data Trial : Type 0 where
  circuit_open no_channel not_encoded : Trial
  sent : Bool → Bool → Trial  -- whether it is confirmed, and whether it is returned

pub data Failure : Type 0 where
  circuit_is_open is_not_connected encoding_failed not_confirmed unroutable : Failure

unfoldable pub publish_routable : Bool → Bool → Bool → Option Failure
publish_routable mandatory false returned = some not_confirmed
publish_routable false true returned = none
publish_routable true true returned = if returned then some unroutable else none

unfoldable pub publish_operation : Bool → Trial → Option Failure
unfolding publish_routable
publish_operation mandatory circuit_open = some circuit_is_open
publish_operation mandatory no_channel = some is_not_connected
publish_operation mandatory not_encoded = some encoding_failed
publish_operation mandatory (sent confirmed returned) =
    publish_routable mandatory confirmed returned

-- `runProtected`: the tries from the a-th on, and of their failures the last.
unfoldable pub is_open : Failure → Bool
is_open circuit_is_open = true
is_open is_not_connected = false
is_open encoding_failed = false
is_open not_confirmed = false
is_open unroutable = false

unfoldable pub next_try : Option Failure → (Failure → Option Failure) → Option Failure
unfolding is_open
next_try none rest = none
next_try (some failure) rest = if is_open failure then some failure else rest failure

unfoldable pub run_protected : Bool → (ℕ → Trial) → ℕ → ℕ → Failure → Option Failure
unfolding publish_operation next_try
run_protected mandatory trials a zero last = some last
run_protected mandatory trials a (suc n) last =
    next_try (publish_operation mandatory (trials a)) (run_protected mandatory trials (a + 1) n)

unfoldable pub run_publish : Bool → (ℕ → Trial) → Option ℕ → Option Failure
unfolding run_protected attempts_of
run_publish mandatory trials max_retries =
    run_protected mandatory trials 0 (attempts_of max_retries) is_not_connected

-- `publishFireAndForget`: a full buffer is waited for, and the first event decides.
pub data Ending : Type 0 where
  drains closes errors : Ending

unfoldable pub publish_fire_and_forget : Bool → List Ending → Option Bool
publish_fire_and_forget true endings = some true
publish_fire_and_forget false [] = none
publish_fire_and_forget false (drains ∷ endings) = some true
publish_fire_and_forget false (closes ∷ endings) = some false
publish_fire_and_forget false (errors ∷ endings) = some false
