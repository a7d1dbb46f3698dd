-- ===== src/Consumers/Retry/Deliveries.antt =====
-- How often a message whose handler always fails is delivered.
use rabbitmq.Base.{
  ℕ, zero, suc, ◌+◌, ◌-◌, ◌≤◌, ◌<◌, ◌≡◌, true, false, none, some, leb, if◌then◌else◌, min, arith,
  ◌⊎◌, inl, inr, Bool-cases,
}
use rabbitmq.Consumers.Retry.{
  RetryPolicy, no_retry, once, attempts, Marks, should_requeue, has_budget,
}

-- The marks of a message's k-th delivery, from 0, are the broker's.
le_or_lt : (a b : ℕ) → (a ≤ b) ⊎ (b < a)
le_or_lt a b = elim (Bool-cases (leb a b)) [
  | inl e ↦ inl (ground arith)
  | inr e ↦ inr (ground arith)
]

module _ (marks : ℕ → Marks) where
  -- The deliveries from the k-th on, `fuel` at most.
  unfoldable pub deliveries : RetryPolicy → ℕ → ℕ → ℕ
  deliveries policy zero k = 0
  deliveries policy (suc fuel) k =
      let rest = deliveries policy fuel (suc k) in
      1 + (if should_requeue (marks k) false policy then rest else 0)

  -- The broker marks every delivery but the first.
  abbrev pub MarksRedelivery : Type 0
  MarksRedelivery = ((marks 0).redelivered ≡ false) × ((k : ℕ) → (marks (suc k)).redelivered ≡ true)

  -- A quorum queue counts, and leaves the count out of the first delivery.
  abbrev pub Counts : Type 0
  Counts =
      ((marks 0).delivery_count ≡ none) × ((k : ℕ) → (marks (suc k)).delivery_count ≡ some (suc k))

  -- A classic queue does not count.
  abbrev pub Countless : Type 0
  Countless = (k : ℕ) → (marks k).delivery_count ≡ none

  -- From a redelivery on, the budget's rest.
  from_redelivery :
      Counts
      → (fuel n k : ℕ) → suc k < n
      → n ≤ fuel + suc k
      → deliveries (attempts n) fuel (suc k) ≡ n - suc k
  unfolding deliveries should_requeue has_budget
  from_redelivery c zero n k h f = absurd (omega (arith, h, f))
  from_redelivery c (suc fuel) n k h f = rw (c.1 k) (elim (le_or_lt n (suc (suc k))) [
    | inl l ↦ ground (arith, l)
    | inr l ↦ ground (arith, l, from_redelivery c fuel n (suc k) l (omega (arith, f)))
  ])

  -- On a quorum queue a budget of n attempts is n deliveries, no more and no fewer, whatever fuel from
  -- n on the count is run with.
  pub deliveries-attempts :
      (n fuel : ℕ)
      → MarksRedelivery
      → Counts
      → 0 < n
      → n ≤ fuel
      → deliveries (attempts n) fuel 0 ≡ n
  unfolding deliveries should_requeue has_budget
  deliveries-attempts n zero r c p f = absurd (omega (arith, p, f))
  deliveries-attempts n (suc fuel) r c p f =
      rw (r.0, c.0)
        (elim (le_or_lt n 1) [
          | inl l ↦ ground (arith, l)
          | inr l ↦ ground (arith, l, from_redelivery c fuel n 0 l (omega (arith, f)))
        ])

  -- On any queue 'none' is one delivery and 'once' is two, and on a classic queue a budget of n attempts
  -- is two at the most.
  pub deliveries-uncounted :
      (n fuel : ℕ)
      → MarksRedelivery
      → Countless
      → 0 < n
      → 2 ≤ fuel
      → (deliveries no_retry fuel 0 ≡ 1)
        × (deliveries once fuel 0 ≡ 2)
        × (deliveries (attempts n) fuel 0 ≡ min n 2)
  unfolding deliveries should_requeue has_budget
  deliveries-uncounted n (suc (suc fuel)) r c p f = rw (r.0, r.1 0, c 0, c 1) (ground arith)
  deliveries-uncounted n (suc zero) r c p f = absurd (omega arith)
  deliveries-uncounted n zero r c p f = absurd (omega arith)
