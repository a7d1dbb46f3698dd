-- ===== src/Limits/WindowLog.antt =====
-- src/resilience/strategies/window-log-strategy.js, the base of the sliding window and the leaky
-- bucket. A log is the array of a key's entries, oldest first, with its running total.
pub mod Reference
pub mod Follows
pub mod Refine
pub mod Quota
use rabbitmq.Base.{
  ℕ, ◌+◌, ◌-◌, ◌*◌, Bool, true, false, Option, none, some, ltb, if◌then◌else◌, Ident, Table, List,
  [], ◌∷◌, ◌++◌,
}
use rabbitmq.Base.Map

pub record Entry : Type 0 where
  pub timestamp : ℕ
  pub cost : ℕ

pub record Log : Type 0 where
  pub entries : List Entry
  pub total : ℕ

pub record WindowLog (K : Type 0) : Type 0 where
  pub limit : ℕ
  pub window_ms : ℕ
  pub windows : Table K Log

unfoldable pub init : {K : Type 0} → ℕ → ℕ → WindowLog K
init limit window_ms = record { limit = limit; window_ms = window_ms; windows = [] }

-- `now - timestamp > windowMs`. Where the clock has stepped back the difference is negative and
-- the test fails, and so it does for the truncated `-`.
abbrev pub has_expired : ℕ → ℕ → Entry → Bool
has_expired window_ms now e = ltb window_ms (now - e.timestamp)

-- The loop of `#evictExpired`: entries leave at the front while the first has expired.
unfoldable pub evict_from : ℕ → ℕ → List Entry → ℕ → Log
evict_from window_ms now [] total = record { entries = []; total = total }
evict_from window_ms now (e ∷ es) total =
    let rest = evict_from window_ms now es (total - e.cost) in
    if has_expired window_ms now e then rest else record { entries = e ∷ es; total = total }

unfoldable pub evict_expired : ℕ → ℕ → Log → Log
unfolding evict_from
evict_expired window_ms now log = evict_from window_ms now log.entries log.total

unfoldable pub window_for : Option Log → Log
window_for none = record { entries = []; total = 0 }
window_for (some log) = log

-- The check of one key: its log afterwards, and the occupancy before the entry joined, or `none`.
unfoldable pub enter : ℕ → ℕ → ℕ → ℕ → Option Log → Log × Option ℕ
unfolding evict_expired window_for
enter limit window_ms cost now found =
    let log = evict_expired window_ms now (window_for found) in
    if ltb limit (log.total + cost) then (log, none) else (
      record {
        entries = log.entries ++ (record { timestamp = now; cost = cost } ∷ []);
        total = log.total + cost;
      },
      some log.total,
    )

unfoldable pub keep_nonempty : List Entry → Log → Option Log
keep_nonempty [] log = none
keep_nonempty (e ∷ es) log = some log

-- The body of the sweep's loop.
unfoldable pub keep_occupied : ℕ → ℕ → Log → Option Log
unfolding evict_expired keep_nonempty
keep_occupied window_ms now log =
    let log' = evict_expired window_ms now log in keep_nonempty log'.entries log'

module _ {K : Type 0} ⦃i : Ident K⦄ where
  unfoldable pub capacity : WindowLog K → ℕ
  capacity s = s.limit

  unfoldable pub occupy : WindowLog K → K → ℕ → ℕ → WindowLog K × Option ℕ
  occupy s key cost now =
      let (log, before) = enter s.limit s.window_ms cost now (Map.get s.windows key) in
      (record s { windows = Map.set s.windows key log }, before)

  -- `limit - total`; the total never passes the limit, so `-` is exact.
  unfoldable pub remaining : WindowLog K → K → ℕ → WindowLog K × ℕ
  remaining s key now = elim (Map.get s.windows key) [
    | none ↦ (s, s.limit)
    | some log ↦
        let log' = evict_expired s.window_ms now log in
        (record s { windows = Map.set s.windows key log' }, s.limit - log'.total)
  ]

  unfoldable pub cleanup : WindowLog K → ℕ → WindowLog K
  cleanup s now = record s { windows = Map.sweep (keep_occupied s.window_ms now) s.windows }

  unfoldable pub reset : WindowLog K → K → WindowLog K
  reset s key = record s { windows = Map.delete s.windows key }

  unfoldable pub clear : WindowLog K → WindowLog K
  clear s = record s { windows = [] }

  -- src/resilience/strategies/sliding-window.js.
  unfoldable pub sliding_check : WindowLog K → K → ℕ → ℕ → WindowLog K × Bool
  sliding_check s key cost now =
      let (s', before) = occupy s key cost now in (s', elim before [ none ↦ false | some _ ↦ true ])

  -- src/resilience/strategies/leaky-bucket.js: the verdict, and the delay that comes before it, in
  -- units of 1 / `max_requests` ms (`leakRateMs` is `windowMs / maxRequests`). The log is written
  -- before the delay, so what other checks do meanwhile sees it.
  unfoldable pub leaky_check : WindowLog K → K → ℕ → ℕ → WindowLog K × Bool × ℕ
  leaky_check s key cost now =
      let (s', before) = occupy s key cost now in
      elim before [ none ↦ (s', false, 0) | some occupancy ↦ (s', true, occupancy * s.window_ms) ]
