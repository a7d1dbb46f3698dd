-- ===== src/Limits/TokenBucket.antt =====
-- src/resilience/strategies/token-bucket.js. Token counts are fractions there. Here they are exact:
-- a balance is kept in credits, 2 * `window_ms` to a token, so that a millisecond refills
-- 2 * `max_requests` credits, and `bucket_size` is given in halves of a token (the default burst
-- limit is one and a half times `max_requests`).
pub mod Refill
pub mod Quota
pub mod Sweep
use rabbitmq.Base.{
  ℕ, ◌+◌, ◌-◌, ◌*◌, ◌/◌, Bool, true, false, Option, none, some, ltb, min, if◌then◌else◌, Ident,
  Table, [],
}
use rabbitmq.Base.Map

pub record Bucket : Type 0 where
  pub tokens : ℕ  -- credits
  pub last_refill : ℕ

pub record TokenBucket (K : Type 0) : Type 0 where
  pub bucket_size : ℕ  -- half tokens
  pub max_requests : ℕ
  pub window_ms : ℕ
  pub buckets : Table K Bucket

-- `burst_limit` is in half tokens as well.
unfoldable pub init : {K : Type 0} → ℕ → ℕ → Bool → ℕ → TokenBucket K
init max_requests window_ms burstable burst_limit = record {
  bucket_size = if burstable then burst_limit else 2 * max_requests;
  max_requests = max_requests;
  window_ms = window_ms;
  buckets = [];
}

-- One key's bucket with what has accrued since its last refill. Where the clock has stepped back
-- the elapsed time is 0 here and negative in the source, and both leave the bucket alone.
unfoldable pub refill : ℕ → ℕ → ℕ → Bucket → Bucket
refill full rate now b =
    let tokens_to_add = (now - b.last_refill) * rate in
    if ltb 0 tokens_to_add
    then record { tokens = min full (b.tokens + tokens_to_add); last_refill = now }
    else b

unfoldable pub bucket : ℕ → ℕ → ℕ → Option Bucket → Bucket
unfolding refill
bucket full rate now none = record { tokens = full; last_refill = now }
bucket full rate now (some b) = refill full rate now b

-- The check of one key: the bucket afterwards, and the verdict. The cost is in credits.
unfoldable pub spend : ℕ → Bucket → Bucket × Bool
spend cost b =
    if ltb b.tokens cost then (b, false) else (record b { tokens = b.tokens - cost }, true)

-- The body of the sweep's loop.
unfoldable pub keep_active : ℕ → ℕ → Bucket → Option Bucket
keep_active window_ms now b = if ltb (window_ms * 2) (now - b.last_refill) then none else some b

module _ {K : Type 0} where
  -- A token, the full bucket and a millisecond's refill, in credits.
  unfoldable pub token : TokenBucket K → ℕ
  token s = 2 * s.window_ms

  unfoldable pub full : TokenBucket K → ℕ
  full s = s.bucket_size * s.window_ms

  unfoldable pub rate : TokenBucket K → ℕ
  rate s = 2 * s.max_requests

module _ {K : Type 0} ⦃i : Ident K⦄ where
  unfoldable pub bucket_of : TokenBucket K → K → ℕ → Bucket
  bucket_of s key now = bucket (full s) (rate s) now (Map.get s.buckets key)

  unfoldable pub check : TokenBucket K → K → ℕ → ℕ → TokenBucket K × Bool
  unfolding bucket_of
  check s key cost now =
      let (b, granted) = spend (cost * token s) (bucket_of s key now) in
      (record s { buckets = Map.set s.buckets key b }, granted)

  -- `Math.floor`; a read refills, and stores the bucket.
  unfoldable pub remaining : TokenBucket K → K → ℕ → TokenBucket K × ℕ
  unfolding bucket_of
  remaining s key now =
      let b = bucket_of s key now in
      (record s { buckets = Map.set s.buckets key b }, b.tokens / token s)

  unfoldable pub cleanup : TokenBucket K → ℕ → TokenBucket K
  cleanup s now = record s { buckets = Map.sweep (keep_active s.window_ms now) s.buckets }

  unfoldable pub reset : TokenBucket K → K → TokenBucket K
  reset s key = record s { buckets = Map.delete s.buckets key }

  unfoldable pub clear : TokenBucket K → TokenBucket K
  clear s = record s { buckets = [] }
