-- ===== src/Limits/FixedWindow/Quota.antt =====
-- What the fixed window grants in one window, over any history of checks.
use rabbitmq.Base.{
  ℕ, ◌+◌, ◌/◌, ◌≤◌, ◌<◌, ◌≡◌, ◌≢◌, refl, Option, none, some, ◌==◌, ◌&&◌, if◌then◌else◌, List, [],
  ◌∷◌, Ident, arith, ite, if_pos, if_neg,
}
use rabbitmq.Base.Map
use rabbitmq.Base.Map.{get-store, or_else}
use rabbitmq.Limits.Request.{Request, IsOrdered}
use rabbitmq.Limits.FixedWindow.{Counter, FixedWindow, window_start, admit, check}

-- `floor(a / w)` and `floor(b / w)` in order.
pub div_mono : (w a b : ℕ) → a ≤ b → a / w ≤ b / w
div_mono w a b h = grind arith

pub window_start_mono : (w a b : ℕ) → a ≤ b → window_start w a ≤ window_start w b
unfolding window_start
window_start_mono w a b h = grind (arith, div_mono w a b h)

-- What a key has spent in the window that starts at `start`.
abbrev pub spent : ℕ → Option Counter → ℕ
spent start none = 0
spent start (some c) = if c.window_start == start then c.count else 0

-- One key's counter holds no more than the limit, and lies in no window after `start`.
abbrev pub IsCounterValid : ℕ → ℕ → Option Counter → Type 0
IsCounterValid limit start none = Unit
IsCounterValid limit start (some c) = (c.count ≤ limit) × (c.window_start ≤ start)

-- What one check adds to the key's spending in its own window; of other windows nothing is left.
spent-admit :
    (limit start cost : ℕ) (o : Option Counter)
    → let (o', granted) = admit limit start cost o in
      spent start (or_else o' o) ≡ spent start o + (if granted then cost else 0)
unfolding admit
spent-admit limit start cost none = ground arith
spent-admit limit start cost (some c) = ground arith

spent-admit_other :
    (limit start cost other : ℕ) (o : Option Counter)
    → other ≢ start
    → spent other (or_else (admit limit start cost o).0 o) ≡ 0
unfolding admit
spent-admit_other limit start cost other none h = ground arith
spent-admit_other limit start cost other (some c) h = ground arith

spent_later :
    (limit start last : ℕ) (o : Option Counter)
    → IsCounterValid limit last o
    → (spent start o ≤ limit) × (last < start → spent start o ≡ 0)
spent_later limit start last none v = ground arith
spent_later limit start last (some c) v = ground arith

admit-IsCounterValid :
    (limit last start cost : ℕ) (o : Option Counter)
    → last ≤ start
    → IsCounterValid limit last o
    → IsCounterValid limit start (or_else (admit limit start cost o).0 o)
unfolding admit
admit-IsCounterValid limit last start cost none h v = ground arith
admit-IsCounterValid limit last start cost (some c) h v = ground arith

IsCounterValid-mono :
    (limit last start : ℕ) (o : Option Counter)
    → last ≤ start
    → IsCounterValid limit last o
    → IsCounterValid limit start o
IsCounterValid-mono limit last start none h v = v
IsCounterValid-mono limit last start (some c) h v = omega arith

module _ {K : Type 0} ⦃i : Ident K⦄ where
  abbrev pub IsValid : FixedWindow K → ℕ → Type 0
  IsValid s last =
      (k : K) → IsCounterValid s.max_requests (window_start s.window_ms last) (Map.get s.counters k)

  pub get-check :
      (s : FixedWindow K) (key k : K) (cost now : ℕ)
      → Map.get (check s key cost now).0.counters k
        ≡ ite
            (i.same key k)
            (or_else
              (admit s.max_requests (window_start s.window_ms now) cost (Map.get s.counters k)).0
              (Map.get s.counters k))
            (Map.get s.counters k)
  unfolding check
  get-check s key k cost now = ground (
    arith,
    get-store s.counters key k
        (admit s.max_requests (window_start s.window_ms now) cost (Map.get s.counters key)).0,
  )

  check-IsValid-get :
      (s : FixedWindow K) (key k : K) (cost last now : ℕ)
      → last ≤ now
      → IsValid s last
      → IsCounterValid s.max_requests
          (window_start s.window_ms now)
          (Map.get (check s key cost now).0.counters k)
  check-IsValid-get s key k cost last now h v =
      rw (get-check s key k cost now) (elim (i.same key k) [
        | yes p ↦ rw (if_pos _ p) (
            admit-IsCounterValid s.max_requests _ _ cost (Map.get s.counters k)
              (window_start_mono s.window_ms last now h) (v k))
        | no p ↦ rw (if_neg _ p) (
            IsCounterValid-mono s.max_requests _ _ (Map.get s.counters k)
              (window_start_mono s.window_ms last now h) (v k))
      ])

  -- A check keeps every counter within the limit and in no later window than the clock's.
  pub check-IsValid :
      (s : FixedWindow K) (key : K) (cost last now : ℕ)
      → last ≤ now
      → IsValid s last
      → IsValid (check s key cost now).0 now
  unfolding check
  check-IsValid s key cost last now h v k = check-IsValid-get s key k cost last now h v

  -- What a history of checks grants to one key in one window.
  pub granted_cost : K → ℕ → FixedWindow K → List (Request K) → ℕ
  granted_cost k start s [] = 0
  granted_cost k start s (r ∷ rs) =
      let (s', granted) = check s r.key r.cost r.now in
      (if granted && window_start s.window_ms r.now == start
        then ite (i.same r.key k) r.cost 0
        else 0)
      + granted_cost k start s' rs

  granted_cost_past :
      (k : K) (start last : ℕ) (s : FixedWindow K) (rs : List (Request K))
      → start < window_start s.window_ms last
      → IsOrdered last rs
      → granted_cost k start s rs ≡ 0
  unfolding granted_cost check
  granted_cost_past k start last s [] h o = refl
  granted_cost_past k start last s (r ∷ rs) h o =
      let later = window_start_mono s.window_ms last r.now o.0 in
      ground
        (arith, granted_cost_past k start r.now (check s r.key r.cost r.now).0 rs (omega arith) o.1)

  -- Over any history of checks in order of time, on any keys, what is granted to a key in one
  -- window is at most `max_requests`, less what its counter already holds.
  pub granted_cost-le-max_requests :
      (k : K) (start last : ℕ) (s : FixedWindow K) (rs : List (Request K))
      → IsValid s last
      → IsOrdered last rs
      → spent start (Map.get s.counters k) + granted_cost k start s rs ≤ s.max_requests
  unfolding granted_cost check
  granted_cost-le-max_requests k start last s [] v o = omega (
    arith,
    (spent_later s.max_requests start (window_start s.window_ms last) (Map.get s.counters k)
        (v k)).0,
  )
  granted_cost-le-max_requests k start last s (r ∷ rs) v o =
      let limit = s.max_requests in
      let at = window_start s.window_ms r.now in
      let counter = Map.get s.counters k in
      ground (
        arith,
        window_start_mono s.window_ms last r.now o.0,
        get-check s r.key k r.cost r.now,
        spent-admit limit at r.cost counter,
        spent-admit_other limit at r.cost start counter,
        spent_later limit start (window_start s.window_ms last) counter (v k),
        granted_cost_past k start r.now (check s r.key r.cost r.now).0 rs,
        granted_cost-le-max_requests k start r.now (check s r.key r.cost r.now).0 rs
            (check-IsValid s r.key r.cost last r.now o.0 v) o.1,
      )
