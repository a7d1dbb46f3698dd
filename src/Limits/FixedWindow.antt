-- ===== src/Limits/FixedWindow.antt =====
-- src/resilience/strategies/fixed-window.js. Times, costs and limits are whole numbers; a check
-- takes the clock's reading as an argument, as in the source.
pub mod Quota
pub mod Sweep
use rabbitmq.Base.{
  ℕ, ◌+◌, ◌-◌, ◌*◌, ◌/◌, Bool, true, false, Option, none, some, ltb, ◌==◌, if◌then◌else◌, Ident,
  Table, [],
}
use rabbitmq.Base.Map

pub record Counter : Type 0 where
  pub count : ℕ
  pub window_start : ℕ

pub record FixedWindow (K : Type 0) : Type 0 where
  pub max_requests : ℕ
  pub window_ms : ℕ
  pub counters : Table K Counter

unfoldable pub init : {K : Type 0} → ℕ → ℕ → FixedWindow K
init max_requests window_ms = record {
  max_requests = max_requests;
  window_ms = window_ms;
  counters = [];
}

unfoldable pub window_start : ℕ → ℕ → ℕ
window_start window_ms now = now / window_ms * window_ms

-- A counter of an earlier window starts again at zero, in place.
unfoldable pub roll : ℕ → Counter → Counter
roll start c = if c.window_start == start then c else record c { count = 0; window_start = start }

-- The check of one key, given its counter: what to store, and the verdict. A refused check leaves
-- the rolled counter in the map; a new counter is stored only by a check that is granted.
unfoldable pub admit : ℕ → ℕ → ℕ → Option Counter → Option Counter × Bool
unfolding roll
admit limit start cost none =
    if ltb limit (0 + cost)
    then (none, false)
    else (some (record { count = 0 + cost; window_start = start }), true)
admit limit start cost (some c) =
    let c' = roll start c in
    if ltb limit (c'.count + cost)
    then (some c', false)
    else (some (record c' { count = c'.count + cost }), true)

-- The body of the sweep's loop.
unfoldable pub keep_current : ℕ → Counter → Option Counter
keep_current start c = if c.window_start == start then some c else none

module _ {K : Type 0} ⦃i : Ident K⦄ where
  unfoldable pub capacity : FixedWindow K → ℕ
  capacity s = s.max_requests

  unfoldable pub check : FixedWindow K → K → ℕ → ℕ → FixedWindow K × Bool
  check s key cost now =
      let (counter, granted) =
        admit s.max_requests (window_start s.window_ms now) cost (Map.get s.counters key) in
      (record s { counters = Map.store s.counters key counter }, granted)

  -- `maxRequests - counter.count`; the count never passes the limit, so `-` is exact.
  unfoldable pub remaining : FixedWindow K → K → ℕ → ℕ
  unfolding window_start
  remaining s key now = elim (Map.get s.counters key) [
    | none ↦ s.max_requests
    | some c ↦
        if c.window_start == window_start s.window_ms now
        then s.max_requests - c.count
        else s.max_requests
  ]

  unfoldable pub cleanup : FixedWindow K → ℕ → FixedWindow K
  unfolding window_start
  cleanup s now = record s {
    counters = Map.sweep (keep_current (window_start s.window_ms now)) s.counters;
  }

  unfoldable pub reset : FixedWindow K → K → FixedWindow K
  reset s key = record s { counters = Map.delete s.counters key }

  unfoldable pub clear : FixedWindow K → FixedWindow K
  clear s = record s { counters = [] }
