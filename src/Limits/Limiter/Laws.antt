-- ===== src/Limits/Limiter/Laws.antt =====
-- What holds of the limiter whatever its strategy.
use rabbitmq.Base.{
  ℕ, ◌+◌, ◌-◌, ◌*◌, ◌≤◌, ◌<◌, ◌≡◌, refl, Bool, true, false, Option, none, some, ltb, [], ◌∷◌, Ident,
  ite, if_pos, if_neg, arith, ltb→lt, ltb→le,
}
use mathlib.Core.Option
use native.Mathlib.Nat.{mul-lt-mul_of_pos_left, mul-le-mul_right}
use rabbitmq.Base.Map
use rabbitmq.Base.Map.{get-set, get-sweep, get-delete}
use rabbitmq.Limits.TokenBucket
use rabbitmq.Limits.TokenBucket.{TokenBucket, Bucket, bucket, bucket_of, spend, full, rate, token}
use rabbitmq.Limits.TokenBucket.Refill.{IsAtMost, bucket-IsAtMost, spend-IsAtMost}
use rabbitmq.Limits.TokenBucket.Quota.{get-check}
use rabbitmq.Limits.FixedWindow
use rabbitmq.Limits.FixedWindow.{admit}
use rabbitmq.Limits.WindowLog
use rabbitmq.Limits.WindowLog.{enter, evict_expired, window_for}
use rabbitmq.Limits.Limiter.{
  Limiter, token_bucket, leaky_bucket, fixed_window, sliding_window, RateLimiter, verdict, exceeds,
  check, check_rate_limit, block_key, cleanup, keep_blocked, is_blocked, blocked,
}

refused-admit :
    (limit start cost : ℕ) (o : Option FixedWindow.Counter)
    → ltb limit cost ≡ true
    → (admit limit start cost o).1 ≡ false
unfolding admit
refused-admit limit start cost none h = ground arith
refused-admit limit start cost (some c) h = ground arith

refused-enter :
    (limit w cost now : ℕ) (o : Option WindowLog.Log)
    → ltb limit cost ≡ true
    → (enter limit w cost now o).1 ≡ none
unfolding enter
refused-enter limit w cost now o h = ground arith

granted-enter :
    (limit w cost now : ℕ) (o : Option WindowLog.Log)
    → o ≡ none
    → ltb limit cost ≡ false
    → (enter limit w cost now o).1 ≡ some 0
unfolding enter evict_expired window_for WindowLog.evict_from
granted-enter limit w cost now o e h = rw e (ground arith)

-- The reading of `is_blocked`.
abbrev blocked_at : ℕ → Option ℕ → Bool
blocked_at now none = false
blocked_at now (some until) = ltb now until

blocked-keep_blocked :
    (at now : ℕ) (o : Option ℕ)
    → at ≤ now
    → blocked_at now (Option.bind o (keep_blocked at)) ≡ blocked_at now o
unfolding keep_blocked Option.bind
blocked-keep_blocked at now none h = refl
blocked-keep_blocked at now (some until) h = ground arith

refused-spend : (cost : ℕ) (b : Bucket) → b.tokens < cost → (spend cost b).1 ≡ false
unfolding spend
refused-spend cost b h = ground arith

module _ {K : Type 0} ⦃i : Ident K⦄ where
  -- No bucket holds more than a full one. The other strategies need no such bound.
  abbrev pub IsBounded : Limiter K → Type 0
  IsBounded (token_bucket s) =
      (0 < s.window_ms) × ((k : K) → IsAtMost (full s) (Map.get s.buckets k))
  IsBounded _ = Unit

  check-IsBounded :
      (l : Limiter K) (key : K) (cost now : ℕ) → IsBounded l → IsBounded (check l key cost now).0
  unfolding check TokenBucket.check full WindowLog.leaky_check
  check-IsBounded (token_bucket s) key cost now b = (b.0, λ k. after k)
    where
      after : (k : K) → IsAtMost (full s) (Map.get (TokenBucket.check s key cost now).0.buckets k)
      after k = rw (get-check s key k cost now) (elim (i.same key k) [
        | yes p ↦ rw (if_pos _ p) (
            spend-IsAtMost (full s) _ _ (
              unfold bucket_of in
              bucket-IsAtMost (full s) (rate s) now (Map.get s.buckets k) (b.1 k)))
        | no p ↦ rw (if_neg _ p) (b.1 k)
      ])
  check-IsBounded (leaky_bucket s) key cost now b = ground arith
  check-IsBounded (fixed_window s) key cost now b = tt
  check-IsBounded (sliding_window s) key cost now b = tt

  -- Halves of tokens compared, and credits.
  over_full :
      (s : TokenBucket K) (cost : ℕ)
      → 0 < s.window_ms
      → ltb s.bucket_size (2 * cost) ≡ true
      → full s < cost * token s
  unfolding full token
  over_full s cost p h = omega (arith, mul-lt-mul_of_pos_left (ltb→lt s.bucket_size (2 * cost) h) p)

  -- A cost over the capacity is refused by the strategy at every time and in every state, so the
  -- early error gives up nothing.
  pub exceeds-refused :
      (l : Limiter K) (key : K) (cost now : ℕ)
      → IsBounded l
      → exceeds l cost ≡ true
      → (check l key cost now).1 ≡ false
  unfolding check exceeds TokenBucket.check bucket_of FixedWindow.check WindowLog.occupy
      WindowLog.leaky_check WindowLog.sliding_check
  exceeds-refused (token_bucket s) key cost now b h = refused-spend _ _ (
      omega (
        arith,
        over_full s cost b.0 h,
        bucket-IsAtMost (full s) (rate s) now (Map.get s.buckets key) (b.1 key),
      ))
  exceeds-refused (leaky_bucket s) key cost now b h =
      ground (arith, refused-enter s.limit s.window_ms cost now (Map.get s.windows key) h)
  exceeds-refused (fixed_window s) key cost now b h = refused-admit s.max_requests _ cost _ h
  exceeds-refused (sliding_window s) key cost now b h =
      ground (arith, refused-enter s.limit s.window_ms cost now (Map.get s.windows key) h)

  -- The strategy has nothing recorded for the key.
  abbrev pub IsFresh : Limiter K → K → Type 0
  IsFresh (token_bucket s) key = Map.get s.buckets key ≡ none
  IsFresh (leaky_bucket s) key = Map.get s.windows key ≡ none
  IsFresh (fixed_window s) key = Map.get s.counters key ≡ none
  IsFresh (sliding_window s) key = Map.get s.windows key ≡ none

  within_full :
      (s : TokenBucket K) (cost : ℕ)
      → ltb s.bucket_size (2 * cost) ≡ false
      → cost * token s ≤ full s
  unfolding full token
  within_full s cost h =
      omega (arith, mul-le-mul_right s.window_ms (ltb→le s.bucket_size (2 * cost) h))

  -- The early error is exact: a cost within the capacity is granted to a key with no record.
  pub fresh-granted :
      (l : Limiter K) (key : K) (cost now : ℕ)
      → IsFresh l key
      → exceeds l cost ≡ false
      → (check l key cost now).1 ≡ true
  unfolding check exceeds TokenBucket.check bucket_of bucket spend FixedWindow.check admit
      WindowLog.occupy WindowLog.leaky_check WindowLog.sliding_check
  fresh-granted (token_bucket s) key cost now f h = rw f (ground (arith, within_full s cost h))
  fresh-granted (leaky_bucket s) key cost now f h =
      ground (arith, granted-enter s.limit s.window_ms cost now (Map.get s.windows key) f h)
  fresh-granted (fixed_window s) key cost now f h = rw f (ground arith)
  fresh-granted (sliding_window s) key cost now f h =
      ground (arith, granted-enter s.limit s.window_ms cost now (Map.get s.windows key) f h)

  -- A check of a key that is blocked until a later time is refused with the time that remains, and
  -- leaves the limiter as it was; the strategy is not asked.
  pub check_rate_limit_blocked :
      (s : RateLimiter K) (key : K) (cost now until : ℕ)
      → exceeds s.limiter cost ≡ false
      → Map.get s.blocked key ≡ some until
      → now < until
      → check_rate_limit s key cost now ≡ (s, verdict false 0, blocked key (until - now) ∷ [])
  unfolding check_rate_limit
  check_rate_limit_blocked s key cost now until c e h = rw (c, e) (ground arith)

  -- After `blockKey` the key reads as blocked until its duration is over and no longer, and the other
  -- keys read as they did.
  pub block_key-is_blocked :
      (s : RateLimiter K) (key other : K) (duration at now : ℕ)
      → is_blocked (block_key s key (some duration) at).0 other now
        ≡ ite (i.same key other) (ltb now (at + duration)) (is_blocked s other now)
  unfolding is_blocked block_key
  block_key-is_blocked s key other duration at now =
      ground (arith, get-set s.blocked key other (at + duration))

  -- The sweep ends no block early: from its time on, every key is blocked as it was.
  pub cleanup-is_blocked :
      (s : RateLimiter K) (key : K) (at now : ℕ)
      → Map.IsDistinct s.blocked
      → at ≤ now
      → is_blocked (cleanup s at).0 key now ≡ is_blocked s key now
  unfolding is_blocked cleanup
  cleanup-is_blocked s key at now d h = ground (
    arith,
    get-sweep (keep_blocked at) s.blocked key d,
    blocked-keep_blocked at now (Map.get s.blocked key) h,
  )
