-- ===== src/Consumers/Retry.antt =====
-- The retry policy of src/consumers/consumer-manager.js: which failed messages go back to the queue.
pub mod Deliveries
use rabbitmq.Base.{ℕ, ◌+◌, Bool, true, false, not, Option, none, some, ltb, ◌==◌, if◌then◌else◌}

pub data RetryPolicy : Type 0 where
  no_retry : RetryPolicy
  once : RetryPolicy
  attempts : ℕ → RetryPolicy

-- What a caller passes. `invalid` is any other text, or an object without a whole number of attempts.
pub data Requested : Type 0 where
  text_none : Requested
  text_once : Requested
  with_attempts : ℕ → Requested
  invalid : Requested

-- `none` is the error.
unfoldable pub validate : Requested → Option RetryPolicy
validate text_none = some no_retry
validate text_once = some once
validate (with_attempts n) = if ltb 0 n then some (attempts n) else none
validate invalid = none

unfoldable pub resolve_retry_policy : Option Requested → Requested → Option RetryPolicy
unfolding validate
resolve_retry_policy none default_policy = validate default_policy
resolve_retry_policy (some r) default_policy = validate r

-- What a delivery says of the ones before it: `redelivered`, and `x-delivery-count` where it is a number.
pub record Marks : Type 0 where
  pub redelivered : Bool
  pub delivery_count : Option ℕ

unfoldable pub has_budget : ℕ → Bool → Option ℕ → Bool
has_budget n redelivered (some count) = ltb (count + 1) n
has_budget n false none = ltb 1 n
has_budget n true none = false

-- The second argument is `error.retryable === false`.
unfoldable pub should_requeue : Marks → Bool → RetryPolicy → Bool
unfolding has_budget
should_requeue m is_final no_retry = false
should_requeue m true once = false
should_requeue m false once = not m.redelivered
should_requeue m true (attempts n) = false
should_requeue m false (attempts n) = has_budget n m.redelivered m.delivery_count
