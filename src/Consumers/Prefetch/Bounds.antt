-- ===== src/Consumers/Prefetch/Bounds.antt =====
-- What the optimizer asks of the channel.
use rabbitmq.Base.{
  ℕ, ◌-◌, ◌≤◌, ◌<◌, ◌≡◌, refl, Bool, true, false, ◌==◌, ltb, if◌then◌else◌, List, [], ◌∷◌, ◌++◌,
  All, arith,
}
use native.Mathlib.Nat.{le-div_iff_mul-le, div-le_of_le-mul, mul-le-mul_left}
use rabbitmq.Consumers.Prefetch.{
  Factor, Options, defaults, Optimizer, Sample, init, scale, new_prefetch, reapply, adjust,
  optimize, measured, run,
}

abbrev pub IsBetween : Options → ℕ → Type 0
IsBetween o n = (o.min_prefetch ≤ n) × (n ≤ o.max_prefetch)

-- The one factor does not shrink, and the other does not grow.
pub record IsSound (o : Options) : Type 0 where
  pub initial_between : IsBetween o o.initial_prefetch
  pub increases : o.increase_factor.den ≤ o.increase_factor.num
  pub increase_den : 0 < o.increase_factor.den
  pub decreases : o.decrease_factor.num ≤ o.decrease_factor.den
  pub decrease_den : 0 < o.decrease_factor.den

le-scale : (n : ℕ) (f : Factor) → 0 < f.den → f.den ≤ f.num → n ≤ scale n f
unfolding scale
le-scale n f p h = (le-div_iff_mul-le p).1 (omega (arith, mul-le-mul_left n h))

scale-le : (n : ℕ) (f : Factor) → 0 < f.den → f.num ≤ f.den → scale n f ≤ n
unfolding scale
scale-le n f p h = div-le_of_le-mul f.den (omega (arith, mul-le-mul_left n h))

new_prefetch-IsBetween :
    (o : Options) (n : ℕ) (times : List ℕ)
    → IsSound o
    → IsBetween o n
    → IsBetween o (new_prefetch o n times)
unfolding new_prefetch
new_prefetch-IsBetween o n times v h =
    let u = le-scale n o.increase_factor v.increase_den v.increases in
    let d = scale-le n o.decrease_factor v.decrease_den v.decreases in ground (arith, u, d, h)

-- What the rule keeps true of a prefetch, the optimizer keeps true of its own value and of all that it
-- asks for.
module _ (o : Options) (P : ℕ → Type 0)
    (kept : (n : ℕ) (times : List ℕ) → P n → P (new_prefetch o n times)) where
  abbrev Keeps : Optimizer × List ℕ → Type 0
  Keeps r = (r.0.options ≡ o) × P r.0.current_prefetch × All P r.1

  All-append : (xs ys : List ℕ) → All P xs → All P ys → All P (xs ++ ys)
  All-append [] ys p q = q
  All-append (x ∷ xs) ys p q = (p.0, All-append xs ys p.1 q)

  choose-All : (b : Bool) (n : ℕ) → P n → All P (if b then [] else n ∷ [])
  choose-All true n h = tt
  choose-All false n h = (h, tt)

  choose-Keeps :
      (b : Bool) (x y : Optimizer × List ℕ) → Keeps x → Keeps y → Keeps (if b then x else y)
  choose-Keeps true x y p q = p
  choose-Keeps false x y p q = q

  reapply-Keeps :
      (s : Optimizer) (epoch : ℕ) → s.options ≡ o → P s.current_prefetch → Keeps (reapply s epoch)
  unfolding reapply
  reapply-Keeps s epoch e h =
      choose-Keeps (s.known_epoch == epoch) (s, [])
        (
          record s { known_epoch = epoch },
          (if s.current_prefetch == s.options.initial_prefetch
              then []
              else s.current_prefetch ∷ []),
        )
        (e, h, tt) (e, h, choose-All _ s.current_prefetch h)

  adjust-Keeps :
      (s : Optimizer) (now : ℕ) → s.options ≡ o → P s.current_prefetch → Keeps (adjust s now)
  unfolding adjust
  adjust-Keeps s now e h =
      let n = new_prefetch s.options s.current_prefetch s.processing_times in
      let b : P n = rw e (kept s.current_prefetch s.processing_times h) in
      choose-Keeps (ltb (now - s.last_optimization_time) s.options.optimization_interval) (s, [])
        (
          record s { current_prefetch = n; last_optimization_time = now; processing_times = [] },
          (if n == s.current_prefetch then [] else n ∷ []),
        )
        (e, h, tt) (e, b, choose-All _ n b)

  measured-Keeps :
      (s : Optimizer) (ok : Bool) (duration epoch now : ℕ)
      → s.options ≡ o
      → P s.current_prefetch
      → Keeps (measured s ok duration epoch now)
  unfolding measured optimize
  measured-Keeps s ok duration epoch now e h =
      let s' = record s { processing_times = s.processing_times ++ (duration ∷ []) } in
      let a = reapply-Keeps s' epoch e h in
      let r = (reapply s' epoch).0 in
      let b = adjust-Keeps r now a.0 a.1 in
      choose-Keeps ok (optimize s' epoch now) (s', [])
        (b.0, b.1, All-append (reapply s' epoch).1 (adjust r now).1 a.2 b.2) (e, h, tt)

  run-Keeps :
      (ms : List Sample) (s : Optimizer) → s.options ≡ o → P s.current_prefetch → Keeps (run s ms)
  unfolding run
  run-Keeps [] s e h = (e, h, tt)
  run-Keeps (m ∷ ms) s e h =
      let r = measured s m.ok m.duration m.epoch m.now in
      let a = measured-Keeps s m.ok m.duration m.epoch m.now e h in
      let b = run-Keeps ms r.0 a.0 a.1 in (b.0, b.1, All-append r.1 (run r.0 ms).1 a.2 b.2)

-- With an initial value between the bounds, a factor that does not shrink and one that does not grow,
-- whatever the handlers take and however often the channel is replaced, no prefetch outside the bounds
-- is asked for.
pub run-IsBetween :
    (o : Options) (now epoch : ℕ) (ms : List Sample)
    → IsSound o
    → All (IsBetween o) (run (init o now epoch) ms).1
unfolding init
run-IsBetween o now epoch ms v =
    (run-Keeps o (IsBetween o) (λ n times. new_prefetch-IsBetween o n times v) ms (init o now epoch)
      refl v.initial_between).2

one_stays : (n : ℕ) (times : List ℕ) → n ≡ 1 → new_prefetch defaults n times ≡ 1
unfolding new_prefetch scale
one_stays n times e = rw e (ground arith)

-- With the default options a prefetch of 1 is never left, however fast the handlers are.
pub run-stuck :
    (ms : List Sample) (s : Optimizer)
    → s.options ≡ defaults
    → s.current_prefetch ≡ 1
    → (run s ms).0.current_prefetch ≡ 1
run-stuck ms s e h = (run-Keeps defaults (λ n. n ≡ 1) one_stays ms s e h).1
