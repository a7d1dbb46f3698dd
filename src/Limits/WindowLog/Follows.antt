-- ===== src/Limits/WindowLog/Follows.antt =====
-- One key of the window log: front eviction with a running total, against the filtered log.
use rabbitmq.Base.{
  ℕ, ◌+◌, ◌-◌, ◌≤◌, ◌≡◌, refl, sym, ap, ◌∙◌, false, Option, none, some, ltb, List, [], ◌∷◌, ◌++◌,
  arith, inl, inr, Bool-cases,
}
use mathlib.Core.Option
use rabbitmq.Limits.WindowLog.{
  Entry, Log, evict_from, evict_expired, window_for, enter, keep_nonempty, keep_occupied,
}
use rabbitmq.Limits.WindowLog.Reference.{recent, sum_cost, ideal_entry}

-- Times from `low` up, oldest first, and none after `last`.
abbrev pub IsTimed : ℕ → ℕ → List Entry → Type 0
IsTimed low last [] = low ≤ last
IsTimed low last (e ∷ es) = (low ≤ e.timestamp) × IsTimed e.timestamp last es

IsTimed-append :
    (low last now : ℕ) (es : List Entry) (e : Entry)
    → IsTimed low last es
    → last ≤ now
    → e.timestamp ≡ now
    → IsTimed low now (es ++ (e ∷ []))
IsTimed-append low last now [] e t h p = omega arith
IsTimed-append low last now (x ∷ es) e t h p =
    (t.0, IsTimed-append x.timestamp last now es e t.1 h p)

recent_fresh :
    (w now low last : ℕ) (es : List Entry)
    → ltb w (now - low) ≡ false
    → IsTimed low last es
    → recent w now es ≡ es
unfolding recent
recent_fresh w now low last [] f t = refl
recent_fresh w now low last (e ∷ es) f t = ground (arith, recent_fresh w now e.timestamp last es)

-- Entries that have left the window stay out of it.
pub recent-recent :
    (w last now : ℕ) (es : List Entry)
    → last ≤ now
    → recent w now (recent w last es) ≡ recent w now es
unfolding recent
recent-recent w last now [] h = refl
recent-recent w last now (e ∷ es) h = ground (arith, recent-recent w last now es h)

recent-append :
    (w now : ℕ) (es ds : List Entry) → recent w now (es ++ ds) ≡ recent w now es ++ recent w now ds
unfolding recent
recent-append w now [] ds = refl
recent-append w now (e ∷ es) ds = ground (arith, recent-append w now es ds)

sum_cost-append : (es ds : List Entry) → sum_cost (es ++ ds) ≡ sum_cost es + sum_cost ds
unfolding sum_cost
sum_cost-append [] ds = omega arith
sum_cost-append (e ∷ es) ds = omega (arith, sum_cost-append es ds)

evict_from-recent :
    (w now low last total : ℕ) (es : List Entry)
    → IsTimed low last es
    → total ≡ sum_cost es
    → evict_from w now es total
      ≡ record { entries = recent w now es; total = sum_cost (recent w now es) }
unfolding evict_from recent sum_cost
evict_from-recent w now low last total [] t e = ground arith
evict_from-recent w now low last total (x ∷ es) t e = ground (
  arith,
  evict_from-recent w now x.timestamp last (total - x.cost) es,
  recent_fresh w now x.timestamp last es,
)

-- A key's log, if it has one, against the entries granted to the key so far.
pub record Follows (w limit last : ℕ) (found : Option Log) (granted : List Entry) : Type 0 where
  pub timed : IsTimed 0 last (window_for found).entries
  pub summed : (window_for found).total ≡ sum_cost (window_for found).entries
  pub same : recent w last (window_for found).entries ≡ recent w last granted
  pub within : sum_cost (recent w last granted) ≤ limit

IsTimed-later :
    (low last now : ℕ) (es : List Entry) → IsTimed low last es → last ≤ now → IsTimed low now es
IsTimed-later low last now [] t h = omega arith
IsTimed-later low last now (e ∷ es) t h = (t.0, IsTimed-later e.timestamp last now es t.1 h)

IsTimed-lower :
    (low low' last : ℕ) (es : List Entry) → IsTimed low last es → low' ≤ low → IsTimed low' last es
IsTimed-lower low low' last [] t h = omega arith
IsTimed-lower low low' last (e ∷ es) t h = (omega arith, t.1)

recent-IsTimed :
    (w now low last : ℕ) (es : List Entry)
    → IsTimed low last es
    → IsTimed low last (recent w now es)
unfolding recent
recent-IsTimed w now low last [] t = t
recent-IsTimed w now low last (e ∷ es) t =
    let rest = recent-IsTimed w now e.timestamp last es t.1 in
    ground (arith, rest, IsTimed-lower e.timestamp low last (recent w now es) rest t.0)

pub sum_cost-recent-le : (w now : ℕ) (es : List Entry) → sum_cost (recent w now es) ≤ sum_cost es
unfolding recent sum_cost
sum_cost-recent-le w now [] = omega arith
sum_cost-recent-le w now (e ∷ es) = ground (arith, sum_cost-recent-le w now es)

-- The entries of the log that are still in the window are those of the history that are.
pub evict_expired-Follows :
    (w limit last now : ℕ) (found : Option Log) (granted : List Entry)
    → Follows w limit last found granted
    → last ≤ now
    → evict_expired w now (window_for found)
      ≡ record { entries = recent w now granted; total = sum_cost (recent w now granted) }
unfolding evict_expired
evict_expired-Follows w limit last now found granted f h =
    let log = window_for found in
    let now_same : recent w now log.entries ≡ recent w now granted =
      sym (recent-recent w last now log.entries h)
      ∙ ap (recent w now) f.same
      ∙ recent-recent w last now granted h in
    rw (← now_same) (evict_from-recent w now 0 last log.total log.entries f.timed f.summed)

-- Time alone changes nothing.
pub Follows-later :
    (w limit last now : ℕ) (found : Option Log) (granted : List Entry)
    → Follows w limit last found granted
    → last ≤ now
    → Follows w limit now found granted
Follows-later w limit last now found granted f h = record {
  timed = IsTimed-later 0 last now (window_for found).entries f.timed h;
  summed = f.summed;
  same =
      sym (recent-recent w last now (window_for found).entries h)
      ∙ ap (recent w now) f.same
      ∙ recent-recent w last now granted h;
  within = omega (
    arith,
    ap sum_cost (recent-recent w last now granted h),
    sum_cost-recent-le w now (recent w last granted),
    f.within,
  );
}

recent_twice : (w now : ℕ) (es : List Entry) → recent w now (recent w now es) ≡ recent w now es
recent_twice w now es = recent-recent w now now es (omega arith)

-- The log after eviction follows the same history.
pub evicted-Follows :
    (w limit last now : ℕ) (found : Option Log) (granted : List Entry)
    → Follows w limit last found granted
    → last ≤ now
    → Follows w limit now (some (evict_expired w now (window_for found))) granted
unfolding window_for
evicted-Follows w limit last now found granted f h =
    let later = Follows-later w limit last now found granted f h in
    rw (evict_expired-Follows w limit last now found granted f h) (record {
      timed = rw (← later.same) (recent-IsTimed w now 0 now (window_for found).entries later.timed);
      summed = refl;
      same = recent_twice w now granted;
      within = later.within;
    })

last_fits :
    (w limit now cost used : ℕ)
    → ltb limit (used + cost) ≡ false
    → used + sum_cost (recent w now (record { timestamp = now; cost = cost } ∷ [])) ≤ limit
unfolding sum_cost recent
last_fits w limit now cost used room = ground arith

-- An entry that fits joins the log and the history.
joined-Follows :
    (w limit now cost : ℕ) (granted : List Entry)
    → Follows w limit now
        (some (record { entries = recent w now granted; total = sum_cost (recent w now granted) }))
        granted
    → ltb limit (sum_cost (recent w now granted) + cost) ≡ false
    → Follows w limit now
        (some (record {
          entries = recent w now granted ++ (record { timestamp = now; cost = cost } ∷ []);
          total = sum_cost (recent w now granted) + cost;
        }))
        (granted ++ (record { timestamp = now; cost = cost } ∷ []))
unfolding window_for
joined-Follows w limit now cost granted f room = record {
  timed = IsTimed-append 0 now now (recent w now granted) _ f.timed (omega arith) refl;
  summed = rw (sum_cost-append (recent w now granted) _) (unfold sum_cost in omega arith);
  same = rw (
    recent-append w now (recent w now granted) _,
    recent-append w now granted _,
    recent_twice w now granted,
  );
  within =
      rw (recent-append w now granted _, sum_cost-append (recent w now granted) _)
        (last_fits w limit now cost (sum_cost (recent w now granted)) room);
}

pub enter-Follows :
    (w limit last now cost : ℕ) (found : Option Log) (granted : List Entry)
    → Follows w limit last found granted
    → last ≤ now
    → let (log, answer) = enter limit w cost now found in
      let (granted', ideal) = ideal_entry limit w cost now granted in
      (answer ≡ ideal) × Follows w limit now (some log) granted'
unfolding enter window_for
enter-Follows w limit last now cost found granted f h =
    let evicted = evicted-Follows w limit last now found granted f h in
    let e = evict_expired-Follows w limit last now found granted f h in
    rw e (elim (Bool-cases (ltb limit (sum_cost (recent w now granted) + cost))) [
      | inl full ↦ rw full (refl, (rw e at evicted))
      | inr room ↦ rw room (refl, joined-Follows w limit now cost granted (rw e at evicted) room)
    ])

-- A log with no entry left may be dropped.
dropped-Follows :
    (w limit now : ℕ) (log : Log) (granted : List Entry)
    → Follows w limit now (some log) granted
    → log.entries ≡ []
    → Follows w limit now none granted
unfolding window_for recent sum_cost
dropped-Follows w limit now log granted f e = record {
  timed = omega arith;
  summed = refl;
  same = ap (recent w now) (sym e) ∙ f.same;
  within = f.within;
}

keep_nonempty-Follows :
    (w limit now : ℕ) (es : List Entry) (log : Log) (granted : List Entry)
    → log.entries ≡ es
    → Follows w limit now (some log) granted
    → Follows w limit now (keep_nonempty es log) granted
unfolding keep_nonempty
keep_nonempty-Follows w limit now [] log granted e f = dropped-Follows w limit now log granted f e
keep_nonempty-Follows w limit now (x ∷ es) log granted e f = f

pub kept-Follows :
    (w limit last now : ℕ) (found : Option Log) (granted : List Entry)
    → Follows w limit last found granted
    → last ≤ now
    → Follows w limit now (Option.bind found (keep_occupied w now)) granted
unfolding keep_occupied Option.bind window_for
kept-Follows w limit last now none granted f h = Follows-later w limit last now none granted f h
kept-Follows w limit last now (some log) granted f h =
    keep_nonempty-Follows w limit now _ (evict_expired w now log) granted refl
      (evicted-Follows w limit last now (some log) granted f h)
