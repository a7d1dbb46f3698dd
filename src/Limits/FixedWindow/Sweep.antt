-- ===== src/Limits/FixedWindow/Sweep.antt =====
-- The periodic sweep of the fixed window: it frees memory, and no later check can tell.
use rabbitmq.Base.{
  ℕ, ◌+◌, ◌≤◌, ◌≡◌, refl, ap, Bool, not, Option, none, some, ltb, ◌==◌, if◌then◌else◌, List, [],
  ◌∷◌, Ident, arith,
}
use mathlib.Core.Option
use rabbitmq.Base.Map
use rabbitmq.Base.Map.{get-sweep, or_else}
use rabbitmq.Limits.Request.{Request, IsOrdered}
use rabbitmq.Limits.FixedWindow.{
  Counter, FixedWindow, window_start, admit, check, keep_current, cleanup,
}
use rabbitmq.Limits.FixedWindow.Quota.{spent, window_start_mono, IsValid, get-check, IsCounterValid}

granted-admit :
    (limit start cost : ℕ) (o : Option Counter)
    → (admit limit start cost o).1 ≡ not (ltb limit (spent start o + cost))
unfolding admit
granted-admit limit start cost none = ground arith
granted-admit limit start cost (some c) = ground arith

-- The spending that a check leaves depends on the spending before it, and on nothing else.
spent-after :
    (limit at cost start : ℕ) (o : Option Counter)
    → spent start (or_else (admit limit at cost o).0 o) ≡ (
        if start == at then spent at o + (if ltb limit (spent at o + cost) then 0 else cost) else 0)
unfolding admit
spent-after limit at cost start none = ground arith
spent-after limit at cost start (some c) = ground arith

spent-keep_current :
    (limit before at start : ℕ) (o : Option Counter)
    → before ≤ at
    → at ≤ start
    → IsCounterValid limit before o
    → spent start (Option.bind o (keep_current at)) ≡ spent start o
unfolding keep_current Option.bind
spent-keep_current limit before at start none h b v = refl
spent-keep_current limit before at start (some c) h b v = ground arith

module _ {K : Type 0} ⦃i : Ident K⦄ where
  -- Two limiters with one configuration, in which every key has spent the same in the window of
  -- `last` and in each later one.
  pub record Agrees (last : ℕ) (s t : FixedWindow K) : Type 0 where
    pub limits : s.max_requests ≡ t.max_requests
    pub windows : s.window_ms ≡ t.window_ms
    pub spending :
        (k : K) (start : ℕ)
        → window_start s.window_ms last ≤ start
        → spent start (Map.get s.counters k) ≡ spent start (Map.get t.counters k)

  -- The verdicts of a history of checks.
  pub verdicts : FixedWindow K → List (Request K) → List Bool
  verdicts s [] = []
  verdicts s (r ∷ rs) = let (s', granted) = check s r.key r.cost r.now in granted ∷ verdicts s' rs

  spending-check :
      (last now : ℕ) (s t : FixedWindow K) (key k : K) (cost start : ℕ)
      → Agrees last s t
      → last ≤ now
      → window_start s.window_ms now ≤ start
      → spent start (Map.get (check s key cost now).0.counters k)
        ≡ spent start (Map.get (check t key cost now).0.counters k)
  spending-check last now s t key k cost start a h b =
      let at = window_start s.window_ms now in
      let before = window_start_mono s.window_ms last now h in
      let spent_at = a.spending k at before in
      let spent_start = a.spending k start (omega arith) in
      let other_at = ap (λ w. window_start w now) a.windows in
      rw (get-check s key k cost now, get-check t key k cost now, ← a.windows, ← a.limits)
        (ground (
          arith,
          spent-after s.max_requests at cost start (Map.get s.counters k),
          spent-after s.max_requests at cost start (Map.get t.counters k),
        ))

  granted-check :
      (last now : ℕ) (s t : FixedWindow K) (key : K) (cost : ℕ)
      → Agrees last s t
      → last ≤ now
      → (check s key cost now).1 ≡ (check t key cost now).1
  unfolding check
  granted-check last now s t key cost a h =
      let at = window_start s.window_ms now in
      let spent_at = a.spending key at (window_start_mono s.window_ms last now h) in
      rw (← a.windows, ← a.limits)
        (ground (
          arith,
          granted-admit s.max_requests at cost (Map.get s.counters key),
          granted-admit s.max_requests at cost (Map.get t.counters key),
        ))

  check-Agrees :
      (last now : ℕ) (s t : FixedWindow K) (key : K) (cost : ℕ)
      → Agrees last s t
      → last ≤ now
      → Agrees now (check s key cost now).0 (check t key cost now).0
  unfolding check
  check-Agrees last now s t key cost a h = record {
    limits = a.limits;
    windows = a.windows;
    spending = λ k start b. spending-check last now s t key k cost start a h b;
  }

  verdicts-Agrees :
      (last : ℕ) (s t : FixedWindow K) (rs : List (Request K))
      → Agrees last s t
      → IsOrdered last rs
      → verdicts s rs ≡ verdicts t rs
  unfolding verdicts
  verdicts-Agrees last s t [] a o = refl
  verdicts-Agrees last s t (r ∷ rs) a o = cc (
    granted-check last r.now s t r.key r.cost a o.0,
    verdicts-Agrees r.now (check s r.key r.cost r.now).0 (check t r.key r.cost r.now).0 rs
        (check-Agrees last r.now s t r.key r.cost a o.0) o.1,
  )

  cleanup-Agrees :
      (last now : ℕ) (s : FixedWindow K)
      → Map.IsDistinct s.counters
      → IsValid s last
      → last ≤ now
      → Agrees now (cleanup s now) s
  unfolding cleanup
  cleanup-Agrees last now s d v h = record {
    limits = refl;
    windows = refl;
    spending = λ k start b.
        rw (get-sweep (keep_current (window_start s.window_ms now)) s.counters k d) (
          spent-keep_current s.max_requests (window_start s.window_ms last)
            (window_start s.window_ms now) start (Map.get s.counters k)
            (window_start_mono s.window_ms last now h) b (v k));
  }

  -- After a sweep, every later history of checks gets the verdicts that it gets without it.
  pub verdicts-cleanup :
      (last now : ℕ) (s : FixedWindow K) (rs : List (Request K))
      → Map.IsDistinct s.counters
      → IsValid s last
      → last ≤ now
      → IsOrdered now rs
      → verdicts (cleanup s now) rs ≡ verdicts s rs
  verdicts-cleanup last now s rs d v h o =
      verdicts-Agrees now (cleanup s now) s rs (cleanup-Agrees last now s d v h) o
