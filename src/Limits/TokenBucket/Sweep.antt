-- ===== src/Limits/TokenBucket/Sweep.antt =====
-- The periodic sweep of the token bucket.
use mathlib.Core.Option
use rabbitmq.Base.{
  ℕ, ◌+◌, ◌-◌, ◌*◌, ◌≤◌, ◌<◌, ◌≡◌, refl, ap, Bool, true, false, Option, none, some, ltb, List, [],
  ◌∷◌, Ident, ite, if_pos, arith,
}
use native.Mathlib.Nat.{mul-le-mul_right}
use rabbitmq.Base.Map
use rabbitmq.Base.Map.{get-set, get-sweep}
use rabbitmq.Limits.Request.{Request, IsOrdered}
use rabbitmq.Limits.TokenBucket.{
  Bucket, TokenBucket, init, refill, bucket, bucket_of, spend, token, full, rate, keep_active,
  check, cleanup,
}
use rabbitmq.Limits.TokenBucket.Refill.{accrued_split}
use rabbitmq.Limits.TokenBucket.Quota.{get-check}

-- What a bucket that was idle for more than two windows has accrued.
lt→le : {n m : ℕ} → n < m → n ≤ m
lt→le h = omega arith

idle_full :
    (size max_requests w from at : ℕ)
    → size ≤ 4 * max_requests
    → w * 2 < at - from
    → size * w ≤ (at - from) * (2 * max_requests)
idle_full size max_requests w from at h k =
    omega (arith, mul-le-mul_right w h, mul-le-mul_right (2 * max_requests) (lt→le k))

positive : (n m : ℕ) → 0 < n → 0 < m → 0 < n * (2 * m)
positive n m h k = grind arith

-- Whether an idle bucket is dropped or refilled at the next check makes no difference.
bucket-keep_active :
    (size max_requests w at now : ℕ) (o : Option Bucket)
    → size ≤ 4 * max_requests
    → 0 < max_requests
    → at ≤ now
    → bucket (size * w) (2 * max_requests) now (Option.bind o (keep_active w at))
      ≡ bucket (size * w) (2 * max_requests) now o
unfolding bucket keep_active Option.bind
bucket-keep_active size max_requests w at now none h p b = refl
bucket-keep_active size max_requests w at now (some k) h p b = ground (
  arith,
  idle_full size max_requests w k.last_refill at h,
  accrued_split (2 * max_requests) k.last_refill at now,
  positive (now - k.last_refill) max_requests,
)

-- A check that takes a full bucket of `n` tokens leaves nothing.
spend_all :
    (n w at : ℕ)
    → spend (n * (2 * w)) (record { tokens = 2 * n * w; last_refill = at })
      ≡ (record { tokens = 0; last_refill = at }, true)
unfolding spend
spend_all n w at = ground arith

-- Two windows refill less than `n` tokens.
too_little :
    (m w n : ℕ)
    → (2 * w + 1) * m < n * w
    → (spend
        (n * (2 * w))
        (refill (2 * n * w) (2 * m) (2 * w + 1) (record { tokens = 0; last_refill = 0 }))).1
      ≡ false
unfolding spend refill
too_little m w n h =
    let e : 2 * w + 1 - 0 ≡ 2 * w + 1 = omega arith in ground (arith, ap (λ (t : ℕ). t * (2 * m)) e)

is_idle : (w : ℕ) → ltb (w * 2) (2 * w + 1 - 0) ≡ true
is_idle w = ground arith

module _ {K : Type 0} ⦃i : Ident K⦄ where
  -- Two limiters with one configuration, in which every key has the same bucket from `last` on.
  pub record Agrees (last : ℕ) (s t : TokenBucket K) : Type 0 where
    pub sizes : full s ≡ full t
    pub rates : rate s ≡ rate t
    pub tokens : token s ≡ token t
    pub buckets : (k : K) (now : ℕ) → last ≤ now → bucket_of s k now ≡ bucket_of t k now

  -- The verdicts of a history of checks.
  pub verdicts : TokenBucket K → List (Request K) → List Bool
  verdicts s [] = []
  verdicts s (r ∷ rs) = let (s', granted) = check s r.key r.cost r.now in granted ∷ verdicts s' rs

  bucket_of-check :
      (s : TokenBucket K) (key k : K) (cost now later : ℕ)
      → bucket_of (check s key cost now).0 k later
        ≡ ite
            (i.same key k)
            (refill (full s) (rate s) later (spend (cost * token s) (bucket_of s k now)).0)
            (bucket_of s k later)
  unfolding bucket_of check full rate bucket
  bucket_of-check s key k cost now later = elim (i.same key k) [
    | yes p ↦ ground (arith, get-check s key k cost now)
    | no p ↦ ground (arith, get-check s key k cost now)
  ]

  check-Agrees :
      (last now : ℕ) (s t : TokenBucket K) (key : K) (cost : ℕ)
      → Agrees last s t
      → last ≤ now
      → ((check s key cost now).1 ≡ (check t key cost now).1)
        × Agrees now (check s key cost now).0 (check t key cost now).0
  unfolding check
  check-Agrees last now s t key cost a h = (
    verdict,
    record {
      sizes = unfold full in a.sizes;
      rates = unfold rate in a.rates;
      tokens = unfold token in a.tokens;
      buckets = λ k later b. after k later b;
    },
  )
    where
      verdict : (check s key cost now).1 ≡ (check t key cost now).1
      verdict = rw (a.buckets key now h, a.tokens) refl

      after :
          (k : K) (later : ℕ)
          → now ≤ later
          → bucket_of (check s key cost now).0 k later ≡ bucket_of (check t key cost now).0 k later
      after k later b = ground (
        arith,
        bucket_of-check s key k cost now later,
        bucket_of-check t key k cost now later,
        a.buckets k now h,
        a.buckets k later,
        a.sizes,
        a.rates,
        a.tokens,
      )

  verdicts-Agrees :
      (last : ℕ) (s t : TokenBucket K) (rs : List (Request K))
      → Agrees last s t
      → IsOrdered last rs
      → verdicts s rs ≡ verdicts t rs
  unfolding verdicts
  verdicts-Agrees last s t [] a o = refl
  verdicts-Agrees last s t (r ∷ rs) a o =
      let c = check-Agrees last r.now s t r.key r.cost a o.0 in
      cc (
        c.0,
        verdicts-Agrees r.now (check s r.key r.cost r.now).0 (check t r.key r.cost r.now).0 rs c.1
            o.1,
      )

  -- With a bucket of at most twice `max_requests`, every later history of checks in order of time
  -- gets the verdicts that it gets without the sweep.
  pub verdicts-cleanup_small :
      (at : ℕ) (s : TokenBucket K) (rs : List (Request K))
      → Map.IsDistinct s.buckets
      → s.bucket_size ≤ 4 * s.max_requests
      → 0 < s.max_requests
      → IsOrdered at rs
      → verdicts (cleanup s at) rs ≡ verdicts s rs
  unfolding cleanup
  verdicts-cleanup_small at s rs d b p o =
      verdicts-Agrees at (cleanup s at) s rs
        (record {
          sizes = unfold full in refl;
          rates = unfold rate in refl;
          tokens = unfold token in refl;
          buckets = λ k now h. swept k now h;
        })
        o
    where
      swept : (k : K) (now : ℕ) → at ≤ now → bucket_of (cleanup s at) k now ≡ bucket_of s k now
      swept k now h =
          unfold bucket_of full rate in
          rw (get-sweep (keep_active s.window_ms at) s.buckets k d) (
            bucket-keep_active s.bucket_size s.max_requests s.window_ms at now (Map.get s.buckets k)
              b p h)

  -- With a larger one it can: a key that has spent its burst of `n` tokens is granted another burst
  -- two windows later if the sweep runs first, although too little has accrued for it.
  pub cleanup_refills :
      (m w n : ℕ) (key : K)
      → 0 < n
      → (2 * w + 1) * m < n * w
      → let s = (check (init m w true (2 * n)) key n 0).0 in
        let later = 2 * w + 1 in
        ((check s key n later).1 ≡ false) × ((check (cleanup s later) key n later).1 ≡ true)
  unfolding check cleanup init bucket_of bucket refill spend keep_active full rate token Map.get
      Map.set Map.sweep
  cleanup_refills m w n key p h =
      let e : key ≡ key = refl in
      rw (spend_all n w 0) (
        rw
            (if_pos {C = Option Bucket} (i.same key key) e
              (some (record { tokens = 0; last_refill = 0 })) none)
            (too_little m w n h),
        rw (is_idle w) (ap (λ r. r.1) (spend_all n w (2 * w + 1))),
      )
