-- ===== src/Consumers/Parallel/Owned.antt =====
-- No worker pool is left running that nobody can end.
use rabbitmq.Base.{
  ℕ, ◌<◌, ◌≡◌, ◌≢◌, refl, Bool, true, false, ◌||◌, ◌==◌, List, [], ◌∷◌, ◌++◌, arith, inl, inr,
  Bool-cases,
}
use rabbitmq.Consumers.Sequential.{remove}
use rabbitmq.Consumers.Ordered.{contains}
use rabbitmq.Consumers.Parallel.{
  Parallel, Event, subscribes, disposes, disposed, resolves, fails, drops, init, subscribe_parallel,
  register, terminate, come_back, drop_pool, dispose_all, clear, given, step, run,
}

module _ (p : ℕ) where
  contains-append : (xs ys : List ℕ) → contains (xs ++ ys) p ≡ (contains xs p || contains ys p)
  unfolding contains
  contains-append [] ys = refl
  contains-append (x ∷ xs) ys = ground (arith, contains-append xs ys)

  contains-remove : (xs : List ℕ) (q : ℕ) → q ≢ p → contains (remove xs q) p ≡ contains xs p
  unfolding contains remove
  contains-remove [] q n = refl
  contains-remove (x ∷ xs) q n = ground (arith, contains-remove xs q n)

  -- The subscription of the pool comes back while no disposeAll is waiting, and finds its consumer.
  abbrev pub InTime : Parallel → Event → Type 0
  InTime s (resolves q is_found) = q ≡ p → (s.disposals ≡ 0) × (is_found ≡ true)
  InTime s subscribes = Unit
  InTime s disposes = Unit
  InTime s disposed = Unit
  InTime s (fails q) = Unit
  InTime s (drops q) = Unit

  abbrev pub AllInTime : Parallel → List Event → Type 0
  AllInTime s [] = Unit
  AllInTime s (e ∷ es) = InTime s e × AllInTime (step s e) es

  -- Its subscription is under way, it is in the map, or it was told to end.
  abbrev pub is_owned : Parallel → Bool
  is_owned s = contains s.subscribing p || (contains s.worker_pools p || contains s.terminated p)

  abbrev Inv : Parallel → Type 0
  Inv s =
      (p < s.next_pool → is_owned s ≡ true)
      × (s.disposals ≢ 0 → contains s.worker_pools p ≡ true → contains s.terminated p ≡ true)

  given-Inv : (b : Bool) (s t : Parallel) → Inv s → (b ≡ true → Inv t) → Inv (given b s t)
  unfolding given
  given-Inv true s t v w = w refl
  given-Inv false s t v w = v

  subscribe-Inv : (s : Parallel) → Inv s → Inv (subscribe_parallel s)
  unfolding subscribe_parallel contains
  subscribe-Inv s v = (λ h. ground (arith, h, v.0), v.1)

  no_truth : false ≡ true → ⊥
  no_truth e = ground (arith, e)

  resolve-Inv :
      (s : Parallel) (q : ℕ) (is_found : Bool)
      → InTime s (resolves q is_found)
      → Inv s
      → Inv (register is_found (come_back s q) q)
  unfolding register come_back contains
  resolve-Inv s q true t v = (
    λ h. ground (arith, h, v.0, contains-remove s.subscribing q),
    λ h k. elim (Bool-cases (q == p)) [
      | inl e ↦ absurd (h ((t (ground (arith, e))).0))
      | inr e ↦ v.1 h (ground (arith, k, e))
    ],
  )
  resolve-Inv s q false t v = elim (Bool-cases (q == p)) [
    | inl e ↦ absurd (no_truth (t (ground (arith, e))).1)
    | inr e ↦ (λ h. ground (arith, h, v.0, contains-remove s.subscribing q, e), v.1)
  ]

  fail-Inv : (s : Parallel) (q : ℕ) → Inv s → Inv (terminate (come_back s q) q)
  unfolding terminate come_back contains
  fail-Inv s q v =
      (λ h. ground (arith, h, v.0, contains-remove s.subscribing q), λ h k. ground (arith, v.1 h k))

  drop-Inv : (s : Parallel) (q : ℕ) → Inv s → Inv (drop_pool s q)
  unfolding drop_pool terminate contains
  drop-Inv s q v = (
    λ h. ground (arith, h, v.0, contains-remove s.worker_pools q),
    λ h k. ground (arith, k, contains-remove s.worker_pools q, v.1 h),
  )

  dispose-Inv : (s : Parallel) → Inv s → Inv (dispose_all s)
  unfolding dispose_all
  dispose-Inv s v = (
    λ h. ground (arith, h, v.0, contains-append s.worker_pools s.terminated),
    λ h k. ground (arith, k, contains-append s.worker_pools s.terminated),
  )

  clear-Inv : (s : Parallel) → Inv s → Inv (clear s)
  unfolding clear contains
  clear-Inv s v = elim (Bool-cases (s.disposals == 0)) [
    | inl e ↦ rw (e) v
    | inr e ↦ rw (e) (λ h. ground (arith, e, v.0 h, v.1 (λ z. ground (arith, e, z))), λ h k. cc)
  ]

  step-Inv : (s : Parallel) (e : Event) → InTime s e → Inv s → Inv (step s e)
  unfolding step
  step-Inv s subscribes t v = subscribe-Inv s v
  step-Inv s (resolves q is_found) t v =
      given-Inv (contains s.subscribing q) s (register is_found (come_back s q) q) v
        (λ h. resolve-Inv s q is_found t v)
  step-Inv s (fails q) t v =
      given-Inv (contains s.subscribing q) s (terminate (come_back s q) q) v (λ h. fail-Inv s q v)
  step-Inv s (drops q) t v =
      given-Inv (contains s.worker_pools q) s (drop_pool s q) v (λ h. drop-Inv s q v)
  step-Inv s disposes t v = dispose-Inv s v
  step-Inv s disposed t v = clear-Inv s v

  run-Inv : (es : List Event) (s : Parallel) → AllInTime s es → Inv s → Inv (run s es)
  unfolding run
  run-Inv [] s t v = v
  run-Inv (e ∷ es) s t v = run-Inv es (step s e) t.1 (step-Inv s e t.0 v)

  -- Whatever happens from the constructor on, in whatever order, each pool that a subscribeParallel made
  -- has its subscription under way, is in the map (so that a drop of its consumer or disposeAll ends
  -- it), or was told to end, provided that its own subscription does not come back while a
  -- disposeAll waits, or when its consumer is gone.
  pub pools-are_owned :
      (es : List Event)
      → AllInTime init es
      → p < (run init es).next_pool
      → is_owned (run init es) ≡ true
  pools-are_owned es t l =
      (run-Inv es init t
          (unfold init in (λ h. absurd (omega (arith, h)), λ h k. absurd (h refl)))).0
        l
