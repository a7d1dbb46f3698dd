-- ===== src/Connection/Channels/Slots.antt =====
-- Where the channel of each slot is.
pub mod Steps
use rabbitmq.Base.{
  ℕ, zero, suc, ◌+◌, ◌≤◌, ◌≡◌, refl, Bool, true, false, not, ◌&&◌, ◌||◌, Option, none, some, ltb,
  leb, ◌==◌, if◌then◌else◌, List, [], ◌∷◌, All, arith, Option-cases, inl, inr,
}
use rabbitmq.Base.Tally.{sum_list}
use rabbitmq.Connection.Channels.{
  ChannelPool, Attempt, Event, opens, open_fails, wakes, channel_closes, close, closes_settle, gets,
  at, put, get_channel, opens_step, claim, fails_step, wakes_step, try_again, channel_closes_step,
  is_slot, take, step, run, initialize, slots_from, max_replace_attempts,
}

abbrev pub same : ℕ → ℕ → ℕ
same j i = if i == j then 1 else 0

abbrev pub of_slot : ℕ → Attempt → ℕ
of_slot j a = same j a.slot

abbrev pub live : Option ℕ → ℕ
live none = 0
live (some c) = 1

-- The live channel of a slot, the opens in flight and the backoffs for it, and its loss.
unfoldable pub uses : ℕ → ChannelPool → ℕ
uses j s =
    live (at s.channels j)
    + sum_list (of_slot j) s.opening
    + sum_list (of_slot j) s.sleeping
    + sum_list (same j) s.out_of_rotation

abbrev pub IsWithin : Attempt → Type 0
IsWithin a = a.attempt ≤ max_replace_attempts

pub record Slots (s : ChannelPool) : Type 0 where
  pub is_open : s.closed ≡ false
  -- Each slot of the pool has one of these, and no other number is in use.
  pub accounted : (j : ℕ) → uses j s ≡ (if ltb j s.size then 1 else 0)
  pub opening_within : All IsWithin s.opening
  pub sleeping_within : All IsWithin s.sleeping

at-put :
    (cs : List (Option ℕ)) (i j : ℕ) (c : Option ℕ)
    → at (put cs i c) j ≡ (if i == j then c else at cs j)
unfolding at put
at-put [] zero zero c = refl
at-put [] zero (suc j) c = ground arith
at-put [] (suc i) zero c = ground arith
at-put [] (suc i) (suc j) c = ground (arith, at-put [] i j c)
at-put (d ∷ cs) zero zero c = refl
at-put (d ∷ cs) zero (suc j) c = ground arith
at-put (d ∷ cs) (suc i) zero c = ground arith
at-put (d ∷ cs) (suc i) (suc j) c = ground (arith, at-put cs i j c)

take-sum :
    (as' : List Attempt) (n j : ℕ) (a : Attempt) (rest : List Attempt)
    → take as' n ≡ some (a, rest)
    → sum_list (of_slot j) as' ≡ of_slot j a + sum_list (of_slot j) rest
unfolding take
take-sum [] n j a rest e = cc
take-sum (b ∷ bs) zero j a rest e = ground arith
take-sum (b ∷ bs) (suc n) j a rest e = elim (Option-cases (take bs n)) [
  | inl o ↦ ground (arith, o)
  | inr ((c, cs), o) ↦ ground (arith, o, take-sum bs n j c cs o)
]

take-All :
    (as' : List Attempt) (n : ℕ) (a : Attempt) (rest : List Attempt)
    → take as' n ≡ some (a, rest)
    → All IsWithin as'
    → IsWithin a × All IsWithin rest
unfolding take
take-All [] n a rest e h = cc
take-All (b ∷ bs) zero a rest e h = ground arith
take-All (b ∷ bs) (suc n) a rest e h = elim (Option-cases (take bs n)) [
  | inl o ↦ ground (arith, o)
  | inr ((c, cs), o) ↦ ground (arith, o, take-All bs n c cs o h.1)
]
