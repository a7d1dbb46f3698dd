-- ===== src/Messaging/Publisher/Admission.antt =====
-- What a refused publish costs, and what a publish that resolves has come to.
use rabbitmq.Base.{
  ℕ, zero, suc, ◌+◌, ◌<◌, ◌≤◌, ◌≡◌, refl, Bool, true, false, ◌&&◌, Option, none, some,
  if◌then◌else◌, Ident, List, [], ◌∷◌, arith, not, ◌*◌, ltb,
}
use rabbitmq.Limits.Limiter
use rabbitmq.Limits.Limiter.{RateLimiter, Outcome, cost_unsatisfiable, verdict}
use rabbitmq.Messaging.Batch.{attempts_of}
use rabbitmq.Messaging.Publisher.{
  Refusal, Request, validate_routing_key, validate_priority, check_method, or_key, cost_of,
  apply_rate_limit, preflight, admit_rest, admit, admit_all, Trial, circuit_open, no_channel,
  not_encoded, sent, Failure, publish_routable, publish_operation, next_try, run_protected,
  run_publish, Method, publish, publish_async, publish_batch, publish_async_batch, publish_delayed,
  ExchangeType, direct, topic, fanout, headers, unknown, RoutingKey, not_text, blank, text,
  Priority, negative, natural, message_count, or_one, conclude, not_connected, invalid_priority,
  invalid_routing_key,
}

abbrev is_none {ℓ} : {A : Type ℓ} → Option A → Bool
is_none none = true
is_none (some a) = false

-- What a call has to be, written apart from the methods: nothing that the method refuses,
abbrev pub suits : Method → Bool → Bool
suits publish mandatory = true
suits publish_async mandatory = not mandatory
suits (publish_batch n) mandatory = ltb 0 n
suits (publish_async_batch n) mandatory = not mandatory && ltb 0 n
suits (publish_delayed none) mandatory = false
suits (publish_delayed (some delay)) mandatory = true

-- a routing key with text in it, unless the exchange does not look at it,
abbrev pub ignores_key : ExchangeType → Bool
ignores_key fanout = true
ignores_key headers = true
ignores_key _ = false

abbrev pub names : RoutingKey → ExchangeType → Bool
names not_text exchange_type = false
names blank exchange_type = ignores_key exchange_type
names (text t) exchange_type = true

-- and a priority up to the highest.
abbrev pub ranks : Option Priority → ℕ → Bool
ranks none max_priority = true
ranks (some negative) max_priority = false
ranks (some (natural n)) max_priority = not (ltb max_priority n)

-- One cost for each message.
abbrev pub price : Option ℕ → ℕ
price none = 1
price (some cost) = cost

abbrev pub charged : Method → ℕ → ℕ
charged (publish_batch n) cost = n * cost
charged (publish_async_batch n) cost = n * cost
charged publish cost = cost
charged publish_async cost = cost
charged (publish_delayed delay) cost = cost

check_method-suits : (m : Method) (b : Bool) → is_none (check_method m b) ≡ suits m b
unfolding check_method
check_method-suits publish b = refl
check_method-suits publish_async b = ground arith
check_method-suits (publish_batch n) b = ground arith
check_method-suits (publish_async_batch n) b = ground arith
check_method-suits (publish_delayed none) b = refl
check_method-suits (publish_delayed (some d)) b = refl

validate_routing_key-names :
    (k : RoutingKey) (x : ExchangeType) → validate_routing_key k x ≡ names k x
unfolding validate_routing_key
validate_routing_key-names not_text x = refl
validate_routing_key-names blank direct = refl
validate_routing_key-names blank topic = refl
validate_routing_key-names blank fanout = refl
validate_routing_key-names blank headers = refl
validate_routing_key-names blank unknown = refl
validate_routing_key-names (text t) x = refl

validate_priority-ranks : (o : Option Priority) (m : ℕ) → validate_priority o m ≡ ranks o m
unfolding validate_priority
validate_priority-ranks none m = refl
validate_priority-ranks (some negative) m = refl
validate_priority-ranks (some (natural n)) m = ground arith

charged-cost_of :
    {K : Type 0} (r : Request K) → cost_of r ≡ charged r.method (price r.rate_limit_cost)
unfolding cost_of message_count or_one
charged-cost_of r = by_method r.method r.rate_limit_cost
  where
    by_method : (m : Method) (o : Option ℕ) → message_count m * or_one o ≡ charged m (price o)
    by_method publish none = refl
    by_method publish (some c) = omega arith
    by_method publish_async none = refl
    by_method publish_async (some c) = omega arith
    by_method (publish_batch n) none = refl
    by_method (publish_batch n) (some c) = refl
    by_method (publish_async_batch n) none = refl
    by_method (publish_async_batch n) (some c) = refl
    by_method (publish_delayed d) none = refl
    by_method (publish_delayed d) (some c) = omega arith

module _ {K : Type 0} ⦃i : Ident K⦄ (max_priority : ℕ) where
  -- What gets as far as the rate limiter: nothing that is malformed, and nothing while disconnected.
  abbrev pub reaches : Request K → Bool
  reaches r =
      suits r.method r.mandatory
      && (names r.routing_key r.exchange_type && (ranks r.priority max_priority && r.is_connected))

  -- The limiter is asked once; after a refusal its status is read, which brings it up to date.
  abbrev pub asked : RateLimiter K → K → ℕ → Outcome → RateLimiter K
  asked s key now (verdict false wait) = (Limiter.get_status s key now).0
  asked s key now (verdict true wait) = s
  asked s key now (cost_unsatisfiable cost) = s

  abbrev pub charge : RateLimiter K → K → ℕ → ℕ → RateLimiter K
  charge s key cost now = let r = Limiter.check_rate_limit s key cost now in asked r.0 key now r.1

  abbrev pub charge_one : RateLimiter K → Request K → RateLimiter K
  charge_one s r =
      charge s (or_key r.rate_limit_key r.default_rate_key)
        (charged r.method (price r.rate_limit_cost)) r.time

  abbrev pub charge_all : RateLimiter K → List (Request K) → RateLimiter K
  charge_all s [] = s
  charge_all s (r ∷ rs) = charge_all (if reaches r then charge_one s r else s) rs

  conclude-asked :
      (s : RateLimiter K) (key : K) (now : ℕ) (o : Outcome)
      → (conclude s key now o).0 ≡ some (asked s key now o)
  unfolding conclude
  conclude-asked s key now (verdict false wait) = refl
  conclude-asked s key now (verdict true wait) = refl
  conclude-asked s key now (cost_unsatisfiable cost) = refl

  apply_rate_limit-charge :
      (s : RateLimiter K) (key : K) (cost now : ℕ)
      → (apply_rate_limit (some s) key cost now).0 ≡ some (charge s key cost now)
  unfolding apply_rate_limit
  apply_rate_limit-charge s key cost now =
      let r = Limiter.check_rate_limit s key cost now in conclude-asked r.0 key now r.1

  preflight-charges :
      (s : RateLimiter K) (r : Request K)
      → (preflight max_priority (some s) r).0
        ≡ some (
            if names r.routing_key r.exchange_type
              && (ranks r.priority max_priority && r.is_connected)
            then charge_one s r
            else s)
  unfolding preflight
  preflight-charges s r =
      let key = or_key r.rate_limit_key r.default_rate_key in
      let a = apply_rate_limit-charge s key (charged r.method (price r.rate_limit_cost)) r.time in
      rw
        (
          validate_routing_key-names r.routing_key r.exchange_type,
          validate_priority-ranks r.priority max_priority,
          charged-cost_of r,
        )
        (by_flags (names r.routing_key r.exchange_type) (ranks r.priority max_priority)
          r.is_connected
          (apply_rate_limit (some s) key (charged r.method (price r.rate_limit_cost)) r.time)
          (charge_one s r) a)
    where
      by_flags :
          (b c d : Bool) (x : Option (RateLimiter K) × Option Refusal) (t : RateLimiter K)
          → x.0 ≡ some t
          → (if b
              then (if c
                  then (if d then x else (some s, some not_connected))
                  else (some s, some invalid_priority))
              else (some s, some invalid_routing_key)).0
            ≡ some (if b && (c && d) then t else s)
      by_flags b c d x t e = ground (arith, e)

  admit-charges :
      (s : RateLimiter K) (r : Request K)
      → (admit max_priority (some s) r).0 ≡ some (if reaches r then charge_one s r else s)
  unfolding admit
  admit-charges s r =
      by_refusal (check_method r.method r.mandatory) (suits r.method r.mandatory)
        (check_method-suits r.method r.mandatory)
    where
      by_refusal :
          (o : Option Refusal) (b : Bool)
          → is_none o ≡ b
          → (admit_rest max_priority (some s) r o).0
            ≡ some (
                if b
                  && (names r.routing_key r.exchange_type
                      && (ranks r.priority max_priority && r.is_connected))
                then charge_one s r
                else s)
      by_refusal none b e = unfold admit_rest in ground (arith, e, preflight-charges s r)
      by_refusal (some refusal) b e = unfold admit_rest in ground (arith, e)

  -- Over any history of publishes of all kinds, the rate limiter comes to the state that it would come
  -- to if it were only asked for those that are well formed and made while a channel is there, each
  -- for its number of messages times its cost: what is refused before drains nothing.
  pub admit_all-charges :
      (rs : List (Request K)) (s : RateLimiter K)
      → (admit_all max_priority (some s) rs).0 ≡ some (charge_all s rs)
  unfolding admit_all
  admit_all-charges [] s = refl
  admit_all-charges (r ∷ rs) s =
      let t = if reaches r then charge_one s r else s in
      rw (admit-charges s r) (admit_all-charges rs t)

-- The first try that succeeds.
abbrev Success : Bool → (ℕ → Trial) → ℕ → ℕ → Type 0
Success mandatory trials a n =
    (k : ℕ) × (a ≤ k) × (k < a + n) × (publish_operation mandatory (trials k) ≡ none)

next-Success :
    (mandatory : Bool) (trials : ℕ → Trial) (a n : ℕ) (o : Option Failure)
    (rest : Failure → Option Failure)
    → publish_operation mandatory (trials a) ≡ o
    → ((f : Failure) → rest f ≡ none → Success mandatory trials (a + 1) n)
    → next_try o rest ≡ none
    → Success mandatory trials a (suc n)
unfolding next_try
next-Success mandatory trials a n none rest e g h = (a, omega arith, omega arith, e)
next-Success mandatory trials a n (some f) rest e g h =
    let r = g f (ground (arith, h)) in (r.0, omega (arith, r.1), omega (arith, r.2), r.3)

run_protected-Success :
    (mandatory : Bool) (trials : ℕ → Trial) (a n : ℕ) (last : Failure)
    → run_protected mandatory trials a n last ≡ none
    → Success mandatory trials a n
unfolding run_protected
run_protected-Success mandatory trials a zero last h = cc
run_protected-Success mandatory trials a (suc n) last h =
    next-Success mandatory trials a n (publish_operation mandatory (trials a))
      (run_protected mandatory trials (a + 1) n) refl
      (run_protected-Success mandatory trials (a + 1) n) h

routed : (t : Trial) → publish_operation true t ≡ none → t ≡ sent true false
unfolding publish_operation publish_routable
routed circuit_open h = cc
routed no_channel h = cc
routed not_encoded h = cc
routed (sent confirmed returned) h = ground arith

-- A mandatory publish that resolves was sent in one of its tries, as many as maxRetries allows, was
-- confirmed there by the broker and was not returned.
pub mandatory-is_routed :
    (trials : ℕ → Trial) (max_retries : Option ℕ)
    → run_publish true trials max_retries ≡ none
    → (k : ℕ) × (k < attempts_of max_retries) × (trials k ≡ sent true false)
unfolding run_publish
mandatory-is_routed trials max_retries h =
    let r = run_protected-Success true trials 0 (attempts_of max_retries) _ h in
    (r.0, omega (arith, r.2), routed (trials r.0) r.3)
