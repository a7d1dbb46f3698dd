-- ===== src/Limits/TokenBucket/Quota.antt =====
-- What the token bucket grants over any history of checks, under any clock.
use rabbitmq.Base.{
  ℕ, ◌+◌, ◌*◌, ◌≤◌, ◌≡◌, refl, some, if◌then◌else◌, List, [], ◌∷◌, Ident, ite, arith,
}
use rabbitmq.Base.Map
use rabbitmq.Base.Map.{get-set}
use rabbitmq.Limits.Request.{Request, IsBetween}
use rabbitmq.Limits.TokenBucket.{TokenBucket, bucket_of, spend, token, full, rate, check}
use rabbitmq.Limits.TokenBucket.Refill.{allowance, IsRefilledBy, spend-allowance}

module _ {K : Type 0} ⦃i : Ident K⦄ where
  -- What a history of checks grants to one key, in tokens.
  pub granted_cost : K → TokenBucket K → List (Request K) → ℕ
  granted_cost k s [] = 0
  granted_cost k s (r ∷ rs) =
      let (s', granted) = check s r.key r.cost r.now in
      (if granted then ite (i.same r.key k) r.cost 0 else 0) + granted_cost k s' rs

  pub get-check :
      (s : TokenBucket K) (key k : K) (cost now : ℕ)
      → Map.get (check s key cost now).0.buckets k
        ≡ ite
            (i.same key k)
            (some (spend (cost * token s) (bucket_of s k now)).0)
            (Map.get s.buckets k)
  unfolding check
  get-check s key k cost now =
      ground (arith, get-set s.buckets key k (spend (cost * token s) (bucket_of s key now)).0)

  pub allowance_of : TokenBucket K → K → ℕ → ℕ → ℕ
  allowance_of s k start stop = allowance (full s) (rate s) start stop (Map.get s.buckets k)

  allowance-check :
      (s : TokenBucket K) (key k : K) (cost start now stop : ℕ)
      → start ≤ now
      → now ≤ stop
      → IsRefilledBy stop (Map.get s.buckets k)
      → let (s', granted) = check s key cost now in
        ((if granted then ite (i.same key k) cost 0 else 0) * token s + allowance_of s' k start stop
          ≤ allowance_of s k start stop)
        × IsRefilledBy stop (Map.get s'.buckets k)
  unfolding allowance_of check bucket_of full rate token
  allowance-check s key k cost start now stop h b r = elim (i.same key k) [
    | yes p ↦ ground (
      arith,
      get-check s key k cost now,
      spend-allowance (full s) (rate s) (token s) start now stop cost (Map.get s.buckets k) h b r,
    )
    | no p ↦ ground (arith, get-check s key k cost now)
  ]

  token-check :
      (s : TokenBucket K) (key : K) (cost now : ℕ) → token (check s key cost now).0 ≡ token s
  unfolding check token
  token-check s key cost now = refl

  -- Over any history of checks between `start` and `stop`, on any keys and under any clock, what is
  -- granted to a key is at most its balance at the start, or a full bucket, and what accrues.
  pub granted_cost-le-allowance :
      (k : K) (start stop : ℕ) (s : TokenBucket K) (rs : List (Request K))
      → IsRefilledBy stop (Map.get s.buckets k)
      → IsBetween start stop rs
      → granted_cost k s rs * token s ≤ allowance_of s k start stop
  unfolding granted_cost
  granted_cost-le-allowance k start stop s [] r h = omega arith
  granted_cost-le-allowance k start stop s (q ∷ rs) r h =
      let a = allowance-check s q.key k q.cost start q.now stop h.0 h.1 r in
      let rest = granted_cost-le-allowance k start stop (check s q.key q.cost q.now).0 rs a.1 h.2 in
      omega (arith, a.0, rw (token-check s q.key q.cost q.now) at rest)
