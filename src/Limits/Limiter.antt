-- ===== src/Limits/Limiter.antt =====
-- src/resilience/rate-limiter.js: one strategy, the blocked keys and the periodic sweep. The clock's
-- reading is an argument of each call, and the events are values: each call returns the ones that
-- it emits, oldest first.
pub mod Laws
use rabbitmq.Base.{
  ℕ, ◌+◌, ◌-◌, ◌*◌, ◌/◌, Bool, true, false, ◌&&◌, Option, none, some, ltb, leb, ◌==◌, min, max,
  if◌then◌else◌, Ident, Table, List, [], ◌∷◌, ◌++◌,
}
use rabbitmq.Base.Map
use rabbitmq.Limits.TokenBucket
use rabbitmq.Limits.TokenBucket.{TokenBucket}
use rabbitmq.Limits.FixedWindow
use rabbitmq.Limits.FixedWindow.{FixedWindow}
use rabbitmq.Limits.WindowLog
use rabbitmq.Limits.WindowLog.{WindowLog}

-- The keys of `STRATEGIES`; any other name is `unknown`.
pub data Strategy : Type 0 where
  token_bucket leaky_bucket fixed_window sliding_window unknown : Strategy

-- The strategy object.
pub data Limiter (K : Type 0) : Type 0 where
  token_bucket : TokenBucket K → Limiter K
  leaky_bucket : WindowLog K → Limiter K
  fixed_window : FixedWindow K → Limiter K
  sliding_window : WindowLog K → Limiter K

pub record Status : Type 0 where
  pub strategy : Strategy
  pub remaining_tokens : ℕ
  pub is_blocked : Bool
  pub window_ms : ℕ
  pub max_requests : ℕ
  pub burstable : Bool
  pub current_time : ℕ

-- What a check comes to: the error of a cost that no waiting can make room for, or the verdict with
-- the delay before it (in units of 1 / `max_requests` ms; only the leaky bucket has one).
pub data Outcome : Type 0 where
  cost_unsatisfiable : ℕ → Outcome
  verdict : Bool → ℕ → Outcome

-- What the caller may leave out. `burst_limit` is in half tokens. A zero is a value left out
-- (`options.windowMs || 60000`), and so is `none`.
pub record Options : Type 0 where
  pub window_ms : Option ℕ
  pub max_requests : Option ℕ
  pub strategy : Option Strategy
  pub burstable : Bool
  pub burst_limit : Option ℕ
  pub queue_limit : Option ℕ

pub record RateLimiter (K : Type 0) : Type 0 where
  pub window_ms : ℕ
  pub max_requests : ℕ
  pub strategy : Strategy
  pub burstable : Bool
  pub blocked : Table K ℕ
  pub limiter : Limiter K
  pub cleanup_interval : ℕ  -- tenths of a millisecond

pub data Event (K : Type 0) : Type 0 where
  key_unblocked : K → Event K
  blocked : K → ℕ → Event K
  limited : K → Strategy → Event K
  key_blocked : K → ℕ → Event K
  was_reset : K → Event K

-- `x || fallback`.
unfoldable pub or_default : Option ℕ → ℕ → ℕ
or_default none fallback = fallback
or_default (some n) fallback = if n == 0 then fallback else n

unfoldable pub strategy_of : Option Strategy → Strategy
strategy_of none = token_bucket
strategy_of (some s) = s

unfoldable pub make : {K : Type 0} → Strategy → ℕ → ℕ → Bool → ℕ → ℕ → Option (Limiter K)
make token_bucket max_requests window_ms burstable burst_limit queue_limit =
    some (token_bucket (TokenBucket.init max_requests window_ms burstable burst_limit))
make leaky_bucket max_requests window_ms burstable burst_limit queue_limit =
    some (leaky_bucket (WindowLog.init queue_limit window_ms))
make fixed_window max_requests window_ms burstable burst_limit queue_limit =
    some (fixed_window (FixedWindow.init max_requests window_ms))
make sliding_window max_requests window_ms burstable burst_limit queue_limit =
    some (sliding_window (WindowLog.init max_requests window_ms))
make unknown max_requests window_ms burstable burst_limit queue_limit = none

unfoldable pub init : {K : Type 0} → Options → Option (RateLimiter K)
unfolding or_default strategy_of make
init o =
    let window_ms = or_default o.window_ms 60000 in
    let max_requests = or_default o.max_requests 100 in
    let strategy = strategy_of o.strategy in
    let burst_limit = or_default o.burst_limit (3 * max_requests) in
    elim (make strategy max_requests window_ms o.burstable burst_limit
      (or_default o.queue_limit 1000)) [
        | none ↦ none
        | some limiter ↦ some (record {
          window_ms = window_ms;
          max_requests = max_requests;
          strategy = strategy;
          burstable = o.burstable;
          blocked = [];
          limiter = limiter;
          cleanup_interval = min (max window_ms 1000) 600000;
        })
      ]

unfoldable pub keep_blocked : ℕ → ℕ → Option ℕ
keep_blocked now expires_at = if leb expires_at now then none else some expires_at

module _ {K : Type 0} ⦃i : Ident K⦄ where
  -- `cost > this.limiter.capacity`.
  unfoldable pub exceeds : Limiter K → ℕ → Bool
  unfolding FixedWindow.capacity WindowLog.capacity
  exceeds (token_bucket s) cost = ltb s.bucket_size (2 * cost)
  exceeds (leaky_bucket s) cost = ltb (WindowLog.capacity s) cost
  exceeds (fixed_window s) cost = ltb (FixedWindow.capacity s) cost
  exceeds (sliding_window s) cost = ltb (WindowLog.capacity s) cost

  unfoldable pub check : Limiter K → K → ℕ → ℕ → Limiter K × Bool × ℕ
  check (token_bucket s) key cost now =
      let (s', granted) = TokenBucket.check s key cost now in (token_bucket s', granted, 0)
  check (leaky_bucket s) key cost now =
      let (s', granted, wait) = WindowLog.leaky_check s key cost now in
      (leaky_bucket s', granted, wait)
  check (fixed_window s) key cost now =
      let (s', granted) = FixedWindow.check s key cost now in (fixed_window s', granted, 0)
  check (sliding_window s) key cost now =
      let (s', granted) = WindowLog.sliding_check s key cost now in (sliding_window s', granted, 0)

  unfoldable pub remaining : Limiter K → K → ℕ → Limiter K × ℕ
  remaining (token_bucket s) key now =
      let (s', n) = TokenBucket.remaining s key now in (token_bucket s', n)
  remaining (leaky_bucket s) key now =
      let (s', n) = WindowLog.remaining s key now in (leaky_bucket s', n)
  remaining (fixed_window s) key now = (fixed_window s, FixedWindow.remaining s key now)
  remaining (sliding_window s) key now =
      let (s', n) = WindowLog.remaining s key now in (sliding_window s', n)

  unfoldable pub sweep : Limiter K → ℕ → Limiter K
  sweep (token_bucket s) now = token_bucket (TokenBucket.cleanup s now)
  sweep (leaky_bucket s) now = leaky_bucket (WindowLog.cleanup s now)
  sweep (fixed_window s) now = fixed_window (FixedWindow.cleanup s now)
  sweep (sliding_window s) now = sliding_window (WindowLog.cleanup s now)

  unfoldable pub forget : Limiter K → K → Limiter K
  forget (token_bucket s) key = token_bucket (TokenBucket.reset s key)
  forget (leaky_bucket s) key = leaky_bucket (WindowLog.reset s key)
  forget (fixed_window s) key = fixed_window (FixedWindow.reset s key)
  forget (sliding_window s) key = sliding_window (WindowLog.reset s key)

  unfoldable pub forget_all : Limiter K → Limiter K
  forget_all (token_bucket s) = token_bucket (TokenBucket.clear s)
  forget_all (leaky_bucket s) = leaky_bucket (WindowLog.clear s)
  forget_all (fixed_window s) = fixed_window (FixedWindow.clear s)
  forget_all (sliding_window s) = sliding_window (WindowLog.clear s)

  -- The events of the sweep's loop, in the order of the map.
  unfoldable pub unblocked_events : ℕ → Table K ℕ → List (Event K)
  unblocked_events now [] = []
  unblocked_events now ((key, expires_at) ∷ t) =
      let rest = unblocked_events now t in
      if leb expires_at now then key_unblocked key ∷ rest else rest

  unfoldable pub cleanup : RateLimiter K → ℕ → RateLimiter K × List (Event K)
  unfolding keep_blocked unblocked_events
  cleanup s now = (
    record s { limiter = sweep s.limiter now; blocked = Map.sweep (keep_blocked now) s.blocked },
    unblocked_events now s.blocked,
  )

  -- The end of `checkRateLimit`, for a key that is not blocked.
  unfoldable pub run_strategy : RateLimiter K → K → ℕ → ℕ → RateLimiter K × Outcome × List (Event K)
  run_strategy s key cost now =
      let (limiter, granted, wait) = check s.limiter key cost now in
      (
        record s { limiter = limiter },
        verdict granted wait,
        if granted then [] else limited key s.strategy ∷ [],
      )

  unfoldable pub check_rate_limit :
      RateLimiter K → K → ℕ → ℕ → RateLimiter K × Outcome × List (Event K)
  unfolding run_strategy
  check_rate_limit s key cost now =
      if exceeds s.limiter cost
      then (s, cost_unsatisfiable cost, [])
      else elim (Map.get s.blocked key) [
        | none ↦ run_strategy s key cost now
        | some blocked_until ↦
            if leb blocked_until now
            then (let (s', outcome, events) =
                  run_strategy (record s { blocked = Map.delete s.blocked key }) key cost now in
                (s', outcome, key_unblocked key ∷ events))
            else (s, verdict false 0, blocked key (blocked_until - now) ∷ [])
      ]

  -- `duration` is `windowMs` where the caller gives none.
  unfoldable pub block_key : RateLimiter K → K → Option ℕ → ℕ → RateLimiter K × List (Event K)
  block_key s key none now = (
    record s { blocked = Map.set s.blocked key (now + s.window_ms) },
    key_blocked key s.window_ms ∷ [],
  )
  block_key s key (some duration) now =
      (record s { blocked = Map.set s.blocked key (now + duration) }, key_blocked key duration ∷ [])

  unfoldable pub get_remaining_tokens : RateLimiter K → K → ℕ → RateLimiter K × ℕ
  get_remaining_tokens s key now =
      let (limiter, n) = remaining s.limiter key now in (record s { limiter = limiter }, n)

  -- `blockedUntil !== undefined && blockedUntil > now`.
  unfoldable pub is_blocked : RateLimiter K → K → ℕ → Bool
  is_blocked s key now = elim (Map.get s.blocked key) [
    | none ↦ false
    | some blocked_until ↦ ltb now blocked_until
  ]

  unfoldable pub get_status : RateLimiter K → K → ℕ → RateLimiter K × Status
  unfolding is_blocked
  get_status s key now =
      let (limiter, n) = remaining s.limiter key now in
      (
        record s { limiter = limiter },
        record {
          strategy = s.strategy;
          remaining_tokens = n;
          is_blocked = is_blocked s key now;
          window_ms = s.window_ms;
          max_requests = s.max_requests;
          burstable = s.burstable;
          current_time = now;
        },
      )

  unfoldable pub reset : RateLimiter K → K → RateLimiter K × List (Event K)
  reset s key = (
    record s { limiter = forget s.limiter key; blocked = Map.delete s.blocked key },
    was_reset key ∷ [],
  )

  -- The timer is the runtime's; what is left of the state is empty.
  unfoldable pub dispose : RateLimiter K → RateLimiter K
  dispose s = record s { limiter = forget_all s.limiter; blocked = [] }
