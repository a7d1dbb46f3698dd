-- ===== src/Limits/TokenBucket/Refill.antt =====
-- The balance of one key's bucket over time.
use rabbitmq.Base.{ℕ, ◌+◌, ◌-◌, ◌*◌, ◌≤◌, ◌≡◌, ap, Option, none, some, if◌then◌else◌, arith}
use rabbitmq.Limits.TokenBucket.{Bucket, refill, bucket, spend, token, rate}

pub not_elapsed : (rate from to : ℕ) → to ≤ from → (to - from) * rate ≡ 0
not_elapsed rate from to h =
    let e : to - from ≡ 0 = omega arith in omega (arith, ap (λ (t : ℕ). t * rate) e)

pub accrued_mono : (rate from to stop : ℕ) → from ≤ to → (stop - to) * rate ≤ (stop - from) * rate
accrued_mono rate from to stop h = grind arith

pub accrued_split :
    (rate from mid to : ℕ)
    → from ≤ mid
    → mid ≤ to
    → (mid - from) * rate + (to - mid) * rate ≡ (to - from) * rate
accrued_split rate from mid to h k =
    let e : (mid - from) + (to - mid) ≡ to - from = omega arith in
    omega (arith, ap (λ (t : ℕ). t * rate) e)

-- All that a key can be granted between `start` and `stop`: what is in its bucket, or a full bucket,
-- and what accrues.
unfoldable pub allowance : ℕ → ℕ → ℕ → ℕ → Option Bucket → ℕ
allowance limit rate start stop none = limit + (stop - start) * rate
allowance limit rate start stop (some b) = b.tokens + (stop - b.last_refill) * rate

-- The bucket was not refilled after `stop`.
abbrev pub IsRefilledBy : ℕ → Option Bucket → Type 0
IsRefilledBy stop none = Unit
IsRefilledBy stop (some b) = b.last_refill ≤ stop

-- A refill draws on the allowance.
refill-allowance :
    (limit rate now stop : ℕ) (b : Bucket)
    → now ≤ stop
    → b.last_refill ≤ stop
    → let b' = refill limit rate now b in
      (b'.tokens + (stop - b'.last_refill) * rate ≤ b.tokens + (stop - b.last_refill) * rate)
      × (b'.last_refill ≤ stop)
unfolding refill
refill-allowance limit rate now stop b h k =
    ground (arith, accrued_split rate b.last_refill now stop, not_elapsed rate b.last_refill now)

pub bucket-allowance :
    (limit rate start now stop : ℕ) (o : Option Bucket)
    → start ≤ now
    → now ≤ stop
    → IsRefilledBy stop o
    → let b' = bucket limit rate now o in
      (b'.tokens + (stop - b'.last_refill) * rate ≤ allowance limit rate start stop o)
      × (b'.last_refill ≤ stop)
unfolding bucket allowance
bucket-allowance limit rate start now stop none h k l =
    omega (arith, accrued_mono rate start now stop h)
bucket-allowance limit rate start now stop (some b) h k l =
    refill-allowance limit rate now stop b k l

-- A granted check pays for its cost out of the allowance.
pub spend-allowance :
    (limit rate token start now stop cost : ℕ) (o : Option Bucket)
    → start ≤ now
    → now ≤ stop
    → IsRefilledBy stop o
    → let (b', granted) = spend (cost * token) (bucket limit rate now o) in
      ((if granted then cost else 0) * token + allowance limit rate start stop (some b')
        ≤ allowance limit rate start stop o)
      × (b'.last_refill ≤ stop)
unfolding spend allowance
spend-allowance limit rate token start now stop cost none h k l =
    ground (arith, bucket-allowance limit rate start now stop none h k l)
spend-allowance limit rate token start now stop cost (some b) h k l =
    ground (arith, bucket-allowance limit rate start now stop (some b) h k l)

-- The balance is within a full bucket.
abbrev pub IsAtMost : ℕ → Option Bucket → Type 0
IsAtMost limit none = Unit
IsAtMost limit (some b) = b.tokens ≤ limit

pub bucket-IsAtMost :
    (limit rate now : ℕ) (o : Option Bucket)
    → IsAtMost limit o
    → (bucket limit rate now o).tokens ≤ limit
unfolding bucket refill
bucket-IsAtMost limit rate now none h = ground arith
bucket-IsAtMost limit rate now (some b) h = ground arith

pub spend-IsAtMost :
    (limit cost : ℕ) (b : Bucket) → b.tokens ≤ limit → (spend cost b).0.tokens ≤ limit
unfolding spend
spend-IsAtMost limit cost b h = ground arith
