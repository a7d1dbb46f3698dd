-- ===== src/Consumers/Registry/Fences.antt =====
-- Recoveries that another set-up has overtaken, and consumers that are being unsubscribed.
use rabbitmq.Base.{
  ℕ, ◌+◌, ◌<◌, ◌≤◌, ◌≡◌, ◌≢◌, ◌⊎◌, refl, Option, none, some, ltb, Table, ident_ℕ, ℕ_discrete,
  if_pos, if_neg, [], ◌∷◌, arith, Bool-cases, ltb→lt, ltb→le, inl, inr,
}
use rabbitmq.Base.Map
use rabbitmq.Base.Map.{get-set, get-delete}
use rabbitmq.Consumers.Registry.{
  Consumer, sleeping, setting_up, Stage, Loss, Manager, wakes, recreates_all, run_setup,
}
use rabbitmq.Consumers.Registry.Steps.{
  end_loss, try_again, wake_stage, wake, recreate_one, recreate_each, step,
}
use rabbitmq.Consumers.Registry.Recovery.Budget.{recreate_each_quiet}

abbrev pub epoch_of : Option Consumer → ℕ
epoch_of none = 0
epoch_of (some q) = q.epoch

abbrev is_listed : Option Consumer → ℕ
is_listed none = 0
is_listed (some q) = 1

is_listed-le : (o : Option Consumer) → is_listed o ≤ 1
is_listed-le none = omega arith
is_listed-le (some q) = omega arith

module _ (id : ℕ) where
  abbrev epoch : Manager → ℕ
  epoch s = epoch_of (Map.get s.active_consumers id)

  run_setup-epoch :
      (s : Manager) (j : ℕ) (o : Option Consumer)
      → Map.get s.active_consumers j ≡ o
      → (epoch s ≤ epoch (recreate_one s j o))
        × (o ≢ none → j ≡ id → epoch s + 1 ≤ epoch (recreate_one s j o))
        × (Map.get s.active_consumers id ≢ none
            → Map.get (recreate_one s j o).active_consumers id ≢ none)
  unfolding recreate_one run_setup
  run_setup-epoch s j none e = (omega arith, λ n k. absurd (n refl), λ h. h)
  run_setup-epoch s j (some q) e =
      let p : Consumer = record q { epoch = q.epoch + 1 } in
      ground (arith, get-set s.active_consumers j id p)

  recreate_each-epoch :
      (t : Table ℕ Consumer) (s : Manager)
      → Map.get s.active_consumers id ≢ none
      → (epoch s + is_listed (Map.get t id) ≤ epoch (recreate_each t s))
        × (Map.get (recreate_each t s).active_consumers id ≢ none)
  unfolding recreate_each Map.get
  recreate_each-epoch [] s h = (omega arith, h)
  recreate_each-epoch ((j, q) ∷ t) s h =
      let o = Map.get s.active_consumers j in
      let a = run_setup-epoch s j o refl in
      let b = recreate_each-epoch t (recreate_one s j o) (a.2 h) in
      (
        elim (ℕ_discrete j id) [
          | yes p ↦
              let c = a.1 (λ n. h (ground (arith, p, n))) p in
              rw (if_pos _ p) (omega (arith, c, b.0, is_listed-le (Map.get t id)))
          | no p ↦ rw (if_neg _ p) (omega (arith, a.0, b.0))
        ],
        b.1,
      )

-- A recovery whose consumer has another epoch ends without a set-up.
abbrev EndsQuietly : Manager → ℕ → Manager → Type 0
EndsQuietly s n t = (t.next_setup ≡ s.next_setup) × (Map.get t.losses n ≡ none)

try_again-ends :
    (s : Manager) (n : ℕ) (l : Loss) (o : Option Consumer)
    → epoch_of o ≢ l.known_epoch
    → EndsQuietly s n (try_again s n l o)
unfolding try_again end_loss run_setup
try_again-ends s n l none h = ground (arith, get-delete s.losses n n)
try_again-ends s n l (some q) h = ground (arith, get-delete s.losses n n)

wake-ends :
    (s : Manager) (n : ℕ) (l : Loss) (o : Option Loss)
    → o ≡ some l
    → l.stage ≡ sleeping
    → epoch_of (Map.get s.active_consumers l.consumer) ≢ l.known_epoch
    → EndsQuietly s n (wake s n o)
unfolding wake
wake-ends s n l none e f h = cc
wake-ends s n l (some k) e f h =
    by_stage k.stage (ground (arith, e, f))
      (try_again-ends s n k (Map.get s.active_consumers k.consumer) (ground (arith, e, h)))
  where
    by_stage :
        (g : Stage)
        → g ≡ sleeping
        → EndsQuietly s n (try_again s n k (Map.get s.active_consumers k.consumer))
        → EndsQuietly s n (wake_stage s n k g)
    by_stage sleeping e a = unfold wake_stage in a
    by_stage setting_up e a = cc

-- A wake that begins a set-up bumps the epoch.
abbrev Bumps : Manager → ℕ → Manager → Type 0
Bumps s id t =
    s.next_setup < t.next_setup
    → epoch_of (Map.get s.active_consumers id) < epoch_of (Map.get t.active_consumers id)

try_again-Bumps :
    (s : Manager) (m : ℕ) (l : Loss) (o : Option Consumer)
    → Map.get s.active_consumers l.consumer ≡ o
    → Bumps s l.consumer (try_again s m l o)
unfolding try_again end_loss run_setup
try_again-Bumps s m l none e h = absurd (omega (arith, h))
try_again-Bumps s m l (some q) e h =
    ground
      (arith, get-set s.active_consumers l.consumer l.consumer (record q { epoch = q.epoch + 1 }))

wake-Bumps :
    (s : Manager) (m : ℕ) (k : Loss) (o : Option Loss)
    → o ≡ some k
    → Bumps s k.consumer (wake s m o)
unfolding wake
wake-Bumps s m k none e h = cc
wake-Bumps s m k (some l) e h = ground (arith, e, by_stage l.stage h)
  where
    by_stage : (g : Stage) → Bumps s l.consumer (wake_stage s m l g)
    by_stage sleeping =
        unfold wake_stage in try_again-Bumps s m l (Map.get s.active_consumers l.consumer) refl
    by_stage setting_up = unfold wake_stage in λ a. absurd (omega (arith, a))

wake_other :
    (s : Manager) (n m : ℕ) (o : Option Loss)
    → n ≢ m
    → Map.get (wake s m o).losses n ≡ Map.get s.losses n
unfolding wake
wake_other s n m none h = refl
wake_other s n m (some l) h = by_stage l.stage
  where
    by_consumer : (o : Option Consumer) → Map.get (try_again s m l o).losses n ≡ Map.get s.losses n
    by_consumer none = unfold try_again end_loss in ground (arith, get-delete s.losses m n)
    by_consumer (some q) =
        let k : Loss = record l { known_epoch = q.epoch + 1; stage = setting_up } in
        unfold try_again end_loss run_setup in
        ground (arith, get-delete s.losses m n, get-set s.losses m n k)

    by_stage : (g : Stage) → Map.get (wake_stage s m l g).losses n ≡ Map.get s.losses n
    by_stage sleeping = unfold wake_stage in by_consumer (Map.get s.active_consumers l.consumer)
    by_stage setting_up = unfold wake_stage in refl

is_there : (o : Option Consumer) → o ≢ none → is_listed o ≡ 1
is_there none n = absurd (n refl)
is_there (some q) n = refl

-- A recovery that sleeps, and that has not fallen behind its consumer's epoch, ends without a set-up if it
-- wakes right after recreateAll has begun the consumer's set-up, or another recovery of it has.
pub overtaken_recovery-ends :
    (s : Manager) (n m : ℕ) (l k : Loss)
    → Map.get s.losses n ≡ some l
    → Map.get s.losses m ≡ some k
    → n ≢ m
    → l.stage ≡ sleeping
    → k.consumer ≡ l.consumer
    → Map.get s.active_consumers l.consumer ≢ none
    → l.known_epoch ≤ epoch_of (Map.get s.active_consumers l.consumer)
    → let r = (step s recreates_all).0 in
      let t = (step s (wakes m)).0 in
      EndsQuietly r n (step r (wakes n)).0
      × ((t.next_setup ≤ s.next_setup) ⊎ EndsQuietly t n (step t (wakes n)).0)
unfolding step
overtaken_recovery-ends s n m l k a b c d e f g =
    let r = recreate_each s.active_consumers s in
    let x = recreate_each-epoch l.consumer s.active_consumers s f in
    let q = recreate_each_quiet s.active_consumers s in
    let t = wake s m (Map.get s.losses m) in
    let y = wake-Bumps s m k (Map.get s.losses m) b in
    (
      wake-ends r n l (Map.get r.losses n) (ground (arith, a, q.0)) d
          (omega (arith, x.0, g, is_there (Map.get s.active_consumers l.consumer) f)),
      elim (Bool-cases (ltb s.next_setup t.next_setup)) [
        | inl h ↦
            let z = y (ltb→lt s.next_setup t.next_setup h) in
            inr (
              wake-ends t n l (Map.get t.losses n)
                (ground (arith, a, wake_other s n m (Map.get s.losses m) c)) d
                (ground (arith, z, e, g)))
        | inr h ↦ inl (ltb→le s.next_setup t.next_setup h)
      ],
    )
