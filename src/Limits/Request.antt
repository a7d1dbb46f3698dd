-- ===== src/Limits/Request.antt =====
-- A check of a key, as the histories of the strategies hold it.
use rabbitmq.Base.{ℕ, ◌≤◌, List, [], ◌∷◌}

pub record Request (K : Type 0) : Type 0 where
  pub key : K
  pub cost : ℕ
  pub now : ℕ

-- Every check between two times, in any order.
abbrev pub IsBetween : {K : Type 0} → ℕ → ℕ → List (Request K) → Type 0
IsBetween start stop [] = Unit
IsBetween start stop (r ∷ rs) = (start ≤ r.now) × (r.now ≤ stop) × IsBetween start stop rs

-- Checks in order of time.
abbrev pub IsOrdered : {K : Type 0} → ℕ → List (Request K) → Type 0
IsOrdered last [] = Unit
IsOrdered last (r ∷ rs) = (last ≤ r.now) × IsOrdered r.now rs
