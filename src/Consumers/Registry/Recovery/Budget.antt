-- ===== src/Consumers/Registry/Recovery/Budget.antt =====
-- The attempts that a recovery has left, by the steps of its loop.
use rabbitmq.Base.{
  ℕ, ◌+◌, ◌-◌, ◌≤◌, ◌≡◌, refl, Bool, true, false, not, ◌&&◌, Option, none, some, ltb, ◌==◌,
  if◌then◌else◌, Table, ident_ℕ, [], ◌∷◌, arith, Bool-cases, inl, inr,
}
use rabbitmq.Base.Map
use rabbitmq.Base.Map.{get-set, get-delete}
use rabbitmq.Consumers.Registry.{
  Consumer, Stage, sleeping, setting_up, Loss, Manager, Event, wakes, Step, run_setup, is_number,
  begin_removal,
}
use rabbitmq.Consumers.Registry.Steps.{
  lose_consumer, channel_lost, still_ours, end_loss, try_again, give_up, recreate_one,
  recreate_each, step,
}

-- The set-ups that a recovery can still begin.
abbrev pub left_of : Loss → Stage → ℕ
left_of l sleeping = 4 - l.attempt
left_of l setting_up = 3 - l.attempt

abbrev pub left : Option Loss → ℕ
left none = 0
left (some l) = left_of l l.stage

pub recreate_each_quiet :
    (t : Table ℕ Consumer) (s : Manager)
    → ((recreate_each t s).losses ≡ s.losses) × ((recreate_each t s).next_loss ≡ s.next_loss)
unfolding recreate_each
recreate_each_quiet [] s = (refl, refl)
recreate_each_quiet ((id, q) ∷ t) s =
    let o = Map.get s.active_consumers id in
    let a = recreate_each_quiet t (recreate_one s id o) in
    let b = one o in (ground (arith, a, b), ground (arith, a, b))
  where
    one :
        (o : Option Consumer)
        → ((recreate_one s id o).losses ≡ s.losses)
          × ((recreate_one s id o).next_loss ≡ s.next_loss)
    one none = unfold recreate_one in (refl, refl)
    one (some p) = unfold recreate_one run_setup in (refl, refl)

module _ (n : ℕ) where
  -- Before it begins it has them all.
  abbrev pub budget : Manager → ℕ
  budget s = if ltb n s.next_loss then left (Map.get s.losses n) else 3

  pub record Inv (s : Manager) : Type 0 where
    pub within : (m : ℕ) (l : Loss) → Map.get s.losses m ≡ some l → l.attempt ≤ 3
    pub fresh : s.next_loss ≤ n → Map.get s.losses n ≡ none

  -- The recovery begins a set-up in this step.
  abbrev pub begins : Manager → Event → ℕ
  begins s (wakes m) = if m == n then (step s (wakes m)).0.next_setup - s.next_setup else 0
  begins s _ = 0

  abbrev pub Spends : ℕ → Manager → Manager → Type 0
  Spends b s t = Inv t × (budget t + b ≤ budget s)

  pub quiet :
      (s t : Manager) → t.losses ≡ s.losses → t.next_loss ≡ s.next_loss → Inv s → Spends 0 s t
  quiet s t e f v = (
    record {
      within = λ j k h. v.within j k (ground (arith, e));
      fresh = λ h. ground (arith, v.fresh, e, f);
    },
    ground (arith, e, f),
  )

  pub end-Spends : (s : Manager) (m : ℕ) → Inv s → Spends 0 s (end_loss s m)
  unfolding end_loss
  end-Spends s m v = (
    record {
      within = λ j k h. ground (arith, v.within j k, get-delete s.losses m j);
      fresh = λ h. ground (arith, v.fresh, get-delete s.losses m n);
    },
    ground (arith, get-delete s.losses m n),
  )

  pub put-Spends :
      (s : Manager) (m b : ℕ) (l k : Loss)
      → Map.get s.losses m ≡ some l
      → k.attempt ≤ 3
      → left (some k) + b ≤ left (some l)
      → Inv s
      → Spends (if m == n then b else 0) s (record s { losses = Map.set s.losses m k })
  put-Spends s m b l k e f g v = (
    record {
      within = λ j p h. ground (arith, v.within j p, get-set s.losses m j k);
      fresh = λ h. ground (arith, v.fresh, get-set s.losses m n k);
    },
    ground (arith, v.fresh, get-set s.losses m n k),
  )

  pub choose-Spends :
      (c : Bool) (b : ℕ) (s : Manager) (x y : Step)
      → Spends b s x.0
      → Spends b s y.0
      → Spends b s (if c then x else y).0
  choose-Spends true b s x y e f = e
  choose-Spends false b s x y e f = f

  begin-Spends :
      (s : Manager) (l : Loss)
      → l.attempt ≡ 1
      → l.stage ≡ sleeping
      → Inv s
      → Spends 0 s
          (record s { losses = Map.set s.losses s.next_loss l; next_loss = s.next_loss + 1 })
  begin-Spends s l e f v = (
    record {
      within = λ j p h. ground (arith, v.within j p, get-set s.losses s.next_loss j l);
      fresh = λ h. ground (arith, v.fresh, get-set s.losses s.next_loss n l);
    },
    ground (arith, get-set s.losses s.next_loss n l),
  )

  pub lose-Spends :
      (s : Manager) (id : ℕ) (o : Option Consumer) → Inv s → Spends 0 s (lose_consumer s id o).0
  unfolding lose_consumer
  lose-Spends s id none v = quiet s s refl refl v
  lose-Spends s id (some q) v =
      choose-Spends q.cancelled 0 s _ _ (quiet s s refl refl v) (begin-Spends s _ refl refl v)

  pub channel_lost-Spends :
      (s : Manager) (id c : ℕ) (p : Option ℕ) (o : Option Consumer)
      → Inv s
      → Spends 0 s (channel_lost s id c p o).0
  unfolding channel_lost
  channel_lost-Spends s id c none o v = quiet s s refl refl v
  channel_lost-Spends s id c (some p) none v = quiet s s refl refl v
  channel_lost-Spends s id c (some p) (some q) v =
      choose-Spends (not q.cancelled && is_number q.channel c) 0 s _ _ (lose-Spends s id (some q) v)
        (quiet s s refl refl v)

  -- A wake that begins a set-up, and one that does not.
  pub try_again-Spends :
      (s : Manager) (m : ℕ) (l : Loss) (o : Option Consumer)
      → Map.get s.losses m ≡ some l
      → l.stage ≡ sleeping
      → Inv s
      → Spends
          (if m == n then (try_again s m l o).next_setup - s.next_setup else 0)
          s
          (try_again s m l o)
  unfolding try_again end_loss run_setup
  try_again-Spends s m l none e f v =
      let a = end-Spends s m v in unfold end_loss in (a.0, ground (arith, a.1))
  try_again-Spends s m l (some q) e f v =
      elim (Bool-cases (still_ours s l (some q) && (q.epoch == l.known_epoch))) [
        | inl t ↦
            let k : Loss = record l { known_epoch = q.epoch + 1; stage = setting_up } in
            let a = put-Spends s m 1 l k e (v.within m l e) (ground (arith, v.within m l e, f)) v in
            rw t (record { within = a.0.within; fresh = a.0.fresh }, ground (arith, a.1))
        | inr t ↦ let a = end-Spends s m v in rw t (a.0, ground (arith, a.1))
      ]

  -- The losses decide.
  like-Spends :
      (b : ℕ) (s t u : Manager)
      → u.losses ≡ t.losses
      → u.next_loss ≡ t.next_loss
      → Spends b s t
      → Spends b s u
  like-Spends b s t u e f a = let c = quiet t u e f a.0 in (c.0, omega (arith, a.1, c.1))

  pub give_up-Spends : (s : Manager) (m : ℕ) (l : Loss) → Inv s → Spends 0 s (give_up s m l)
  unfolding give_up begin_removal
  give_up-Spends s m l v =
      like-Spends 0 s (end_loss s m) _ (ground arith) (ground arith) (end-Spends s m v)
