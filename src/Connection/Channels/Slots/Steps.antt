-- ===== src/Connection/Channels/Slots/Steps.antt =====
-- Every event keeps each slot in one place.
use rabbitmq.Base.{
  ℕ, zero, suc, ◌+◌, ◌≡◌, refl, Bool, true, false, not, ◌&&◌, ◌||◌, Option, none, some, ltb, leb,
  ◌==◌, if◌then◌else◌, List, [], ◌∷◌, All, arith,
}
use rabbitmq.Base.Tally.{sum_list}
use rabbitmq.Connection.Channels.{
  ChannelPool, Attempt, Event, opens, open_fails, wakes, channel_closes, close, closes_settle, gets,
  at, put, get_channel, opens_step, claim, fails_step, wakes_step, try_again, channel_closes_step,
  is_slot, take, step, run, initialize, slots_from, max_replace_attempts,
}
use rabbitmq.Connection.Channels.Slots.{
  same, of_slot, live, uses, IsWithin, Slots, at-put, take-sum, take-All,
}

otherwise : (b : Bool) (x y : ChannelPool) → b ≡ false → Slots y → Slots (if b then x else y)
otherwise true x y e v = absurd (cc)
otherwise false x y e v = v

either : (b : Bool) (x y : ChannelPool) → Slots x → Slots y → Slots (if b then x else y)
either true x y v w = v
either false x y v w = w

guarded :
    (b c : Bool) (x y : ChannelPool)
    → (b ≡ true → Slots x)
    → Slots y
    → Slots (if b && c then x else y)
guarded false c x y v w = w
guarded true false x y v w = w
guarded true true x y v w = v refl

foreign :
    (b c : Bool) (x y : ChannelPool)
    → Slots x
    → (c ≡ true → Slots y)
    → Slots (if b || not c then x else y)
foreign true c x y v w = v
foreign false false x y v w = v
foreign false true x y v w = w refl

is_slot-live : (o : Option ℕ) (c : ℕ) → is_slot o c ≡ true → live o ≡ 1
unfolding is_slot
is_slot-live none c e = cc
is_slot-live (some d) c e = refl

opens-Slots :
    (s : ChannelPool) (c n : ℕ) (t : Option (Attempt × List Attempt))
    → take s.opening n ≡ t
    → Slots s
    → Slots (opens_step s c t)
unfolding opens_step claim
opens-Slots s c n none e v = v
opens-Slots s c n (some (a, rest)) e v =
    otherwise s.closed (record s { opening = rest })
      (record s { opening = rest; channels = put s.channels a.slot (some c) }) v.is_open
      (record {
        is_open = v.is_open;
        accounted = λ j.
            unfold uses in
            ground (
              arith,
              v.accounted j,
              at-put s.channels a.slot j (some c),
              take-sum s.opening n j a rest e,
            );
        opening_within = (take-All s.opening n a rest e v.opening_within).1;
        sleeping_within = v.sleeping_within;
      })

fails-Slots :
    (s : ChannelPool) (n : ℕ) (t : Option (Attempt × List Attempt))
    → take s.opening n ≡ t
    → Slots s
    → Slots (fails_step s t)
unfolding fails_step
fails-Slots s n none e v = v
fails-Slots s n (some (a, rest)) e v =
    let w = take-All s.opening n a rest e v.opening_within in
    either (a.attempt == 0)
      (record s { opening = rest; out_of_rotation = a.slot ∷ s.out_of_rotation })
      (record s { opening = rest; sleeping = a ∷ s.sleeping })
      (record {
        is_open = v.is_open;
        accounted =
            λ j. unfold uses in ground (arith, v.accounted j, take-sum s.opening n j a rest e);
        opening_within = w.1;
        sleeping_within = v.sleeping_within;
      })
      (record {
        is_open = v.is_open;
        accounted =
            λ j. unfold uses in ground (arith, v.accounted j, take-sum s.opening n j a rest e);
        opening_within = w.1;
        sleeping_within = (w.0, v.sleeping_within);
      })

-- A slot in transit goes to an open, or out of rotation when its attempts are spent.
try_again-Slots :
    (s : ChannelPool) (slot attempt : ℕ)
    → s.closed ≡ false
    → ((j : ℕ) → uses j s + same j slot ≡ (if ltb j s.size then 1 else 0))
    → All IsWithin s.opening
    → All IsWithin s.sleeping
    → Slots (try_again s slot attempt)
unfolding try_again
try_again-Slots s slot attempt o u p q =
    guarded (leb attempt max_replace_attempts) (not s.closed)
      (record s { opening = record { slot = slot; attempt = attempt } ∷ s.opening })
      (record s { out_of_rotation = slot ∷ s.out_of_rotation })
      (λ h. record {
        is_open = o;
        accounted = λ j. unfold uses in ground (arith, u j);
        opening_within = (ground (arith, h), p);
        sleeping_within = q;
      })
      (record {
        is_open = o;
        accounted = λ j. unfold uses in ground (arith, u j);
        opening_within = p;
        sleeping_within = q;
      })

wakes-Slots :
    (s : ChannelPool) (n : ℕ) (t : Option (Attempt × List Attempt))
    → take s.sleeping n ≡ t
    → Slots s
    → Slots (wakes_step s t)
unfolding wakes_step
wakes-Slots s n none e v = v
wakes-Slots s n (some (a, rest)) e v =
    try_again-Slots (record s { sleeping = rest }) a.slot (a.attempt + 1) v.is_open
      (λ j. unfold uses in ground (arith, v.accounted j, take-sum s.sleeping n j a rest e))
      v.opening_within (take-All s.sleeping n a rest e v.sleeping_within).1

closes-Slots : (s : ChannelPool) (slot c : ℕ) → Slots s → Slots (channel_closes_step s slot c)
unfolding channel_closes_step
closes-Slots s slot c v =
    foreign s.closed (is_slot (at s.channels slot) c) s
      (try_again (record s { channels = put s.channels slot none }) slot 1) v
      (λ h.
        try_again-Slots (record s { channels = put s.channels slot none }) slot 1 v.is_open
          (λ j.
            unfold uses in
            ground (arith, v.accounted j, at-put s.channels slot j none, is_slot-live _ c h))
          v.opening_within v.sleeping_within)

-- Nobody closes the pool.
abbrev pub IsUnclosed : List Event → Type 0
IsUnclosed [] = Unit
IsUnclosed (close ∷ es) = ⊥
IsUnclosed (e ∷ es) = IsUnclosed es

gets-Slots : (s : ChannelPool) → Slots s → Slots (get_channel s).0
unfolding get_channel
gets-Slots s v = record {
  is_open = v.is_open;
  accounted = λ j. unfold uses in v.accounted j;
  opening_within = v.opening_within;
  sleeping_within = v.sleeping_within;
}

run-Slots : (es : List Event) (s : ChannelPool) → Slots s → IsUnclosed es → Slots (run s es)
unfolding run step
run-Slots [] s v h = v
run-Slots (opens n c ∷ es) s v h = run-Slots es _ (opens-Slots s c n (take s.opening n) refl v) h
run-Slots (open_fails n ∷ es) s v h = run-Slots es _ (fails-Slots s n (take s.opening n) refl v) h
run-Slots (wakes n ∷ es) s v h = run-Slots es _ (wakes-Slots s n (take s.sleeping n) refl v) h
run-Slots (channel_closes slot c ∷ es) s v h = run-Slots es _ (closes-Slots s slot c v) h
run-Slots (close ∷ es) s v h = absurd h
run-Slots (closes_settle ∷ es) s v h =
    run-Slots es _
      (otherwise s.closed (record s { channels = []; index = 0; dedicated_channels = [] }) s
        v.is_open v)
      h
run-Slots (gets ∷ es) s v h = run-Slots es _ (gets-Slots s v) h

slots_from-sum :
    (n i j : ℕ)
    → sum_list (of_slot j) (slots_from i n) ≡ (if leb i j && ltb j (i + n) then 1 else 0)
unfolding slots_from
slots_from-sum zero i j = ground arith
slots_from-sum (suc n) i j = ground (arith, slots_from-sum n (i + 1) j)

slots_from-IsWithin : (n i : ℕ) → All IsWithin (slots_from i n)
unfolding slots_from
slots_from-IsWithin zero i = tt
slots_from-IsWithin (suc n) i = (omega arith, slots_from-IsWithin n (i + 1))

-- Until the pool is closed, whatever opens, fails, wakes or closes and in whatever order, each slot has
-- a live channel, or an open in flight, or a backoff pending, or is out of rotation, and just one of
-- these; and no loop is past its fifth attempt.
pub reachable-Slots :
    (size : ℕ) (es : List Event) → IsUnclosed es → Slots (run (initialize size) es)
unfolding initialize
reachable-Slots size es h =
    run-Slots es (initialize size)
      (record {
        is_open = refl;
        accounted = λ j. unfold uses at in ground (arith, slots_from-sum size 0 j);
        opening_within = slots_from-IsWithin size 0;
        sleeping_within = tt;
      })
      h
