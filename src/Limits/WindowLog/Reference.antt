-- ===== src/Limits/WindowLog/Reference.antt =====
-- The limiter that the window log stands for: it keeps every entry ever granted, and filters and
-- sums the log at each check.
use rabbitmq.Base.{
  ℕ, ◌+◌, ◌-◌, Option, none, some, ltb, if◌then◌else◌, List, [], ◌∷◌, ◌++◌, Ident, ite,
}
use rabbitmq.Limits.WindowLog.{
  Entry, WindowLog, has_expired, occupy, remaining, cleanup, reset, clear,
}

-- The entries still in the window at `now`.
unfoldable pub recent : ℕ → ℕ → List Entry → List Entry
recent window_ms now [] = []
recent window_ms now (e ∷ es) =
    let rest = recent window_ms now es in if has_expired window_ms now e then rest else e ∷ rest

unfoldable pub sum_cost : List Entry → ℕ
sum_cost [] = 0
sum_cost (e ∷ es) = e.cost + sum_cost es

-- The answer of a check, and what it adds to the history.
abbrev pub ideal_entry : ℕ → ℕ → ℕ → ℕ → List Entry → List Entry × Option ℕ
ideal_entry limit w cost now granted =
    let used = sum_cost (recent w now granted) in
    if ltb limit (used + cost)
    then (granted, none)
    else (granted ++ (record { timestamp = now; cost = cost } ∷ []), some used)

-- Every entry ever granted, for each key.
abbrev pub History : Type 0 → Type 0
History K = K → List Entry

pub data Op (K : Type 0) : Type 0 where
  occupies : K → ℕ → Op K
  reads : K → Op K
  cleans : Op K
  resets : K → Op K
  clears : Op K

module _ {K : Type 0} ⦃i : Ident K⦄ where
  -- A call at a time, with its answer: the occupancy of a check that is granted, or what remains.
  unfoldable pub step : WindowLog K → ℕ → Op K → WindowLog K × Option ℕ
  step s now (occupies key cost) = occupy s key cost now
  step s now (reads key) = let (s', n) = remaining s key now in (s', some n)
  step s now cleans = (cleanup s now, none)
  step s now (resets key) = (reset s key, none)
  step s now clears = (clear s, none)

  unfoldable pub note : History K → K → List Entry → History K
  note h key es k = ite (i.same key k) es (h k)

  module _ (limit window_ms : ℕ) where
    unfoldable pub ideal_step : History K → ℕ → Op K → History K × Option ℕ
    ideal_step h now (occupies key cost) =
        let (granted, answer) = ideal_entry limit window_ms cost now (h key) in
        (note h key granted, answer)
    ideal_step h now (reads key) = (h, some (limit - sum_cost (recent window_ms now (h key))))
    ideal_step h now cleans = (h, none)
    ideal_step h now (resets key) = (note h key [], none)
    ideal_step h now clears = (λ k. [], none)

    unfoldable pub ideal_run : History K → List (ℕ × Op K) → List (Option ℕ)
    ideal_run h [] = []
    ideal_run h ((now, op) ∷ ops) =
        let (h', answer) = ideal_step h now op in answer ∷ ideal_run h' ops

  unfoldable pub run : WindowLog K → List (ℕ × Op K) → List (Option ℕ)
  run s [] = []
  run s ((now, op) ∷ ops) = let (s', answer) = step s now op in answer ∷ run s' ops
