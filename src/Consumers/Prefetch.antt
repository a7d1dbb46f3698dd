-- ===== src/Consumers/Prefetch.antt =====
-- `subscribeWithOptimizedPrefetch` of src/consumers/consumer-manager.js. The factors are fractions
-- `num / den` (3 / 2 and 3 / 4 by default). The channel's `prefetch` calls are values.
pub mod Bounds
use rabbitmq.Base.{
  ℕ, ◌+◌, ◌-◌, ◌*◌, ◌/◌, Bool, true, false, not, ◌&&◌, Option, none, some, ltb, ◌==◌, min, max,
  if◌then◌else◌, List, [], ◌∷◌, ◌++◌, length,
}
use rabbitmq.Base.Tally.{sum_list}

pub record Factor : Type 0 where
  pub num : ℕ
  pub den : ℕ

pub record Options : Type 0 where
  pub initial_prefetch : ℕ
  pub max_prefetch : ℕ
  pub min_prefetch : ℕ
  pub optimization_interval : ℕ
  pub increase_factor : Factor
  pub decrease_factor : Factor

abbrev pub defaults : Options
defaults = record {
  initial_prefetch = 10;
  max_prefetch = 1000;
  min_prefetch = 1;
  optimization_interval = 1000;
  increase_factor = record { num = 3; den = 2 };
  decrease_factor = record { num = 3; den = 4 };
}

pub record Optimizer : Type 0 where
  pub options : Options
  pub current_prefetch : ℕ
  pub last_optimization_time : ℕ
  pub processing_times : List ℕ
  pub known_epoch : ℕ

unfoldable pub init : Options → ℕ → ℕ → Optimizer
init o now epoch = record {
  options = o;
  current_prefetch = o.initial_prefetch;
  last_optimization_time = now;
  processing_times = [];
  known_epoch = epoch;
}

-- `Math.floor(n * factor)`.
unfoldable pub scale : ℕ → Factor → ℕ
scale n f = n * f.num / f.den

-- The comparisons of the average, without its division.
unfoldable pub new_prefetch : Options → ℕ → List ℕ → ℕ
unfolding scale
new_prefetch o current times =
    let total = sum_list (λ (t : ℕ). t) times in
    if ltb total (100 * length times) && ltb current o.max_prefetch
    then min (scale current o.increase_factor) o.max_prefetch
    else if ltb (500 * length times) total && ltb o.min_prefetch current
    then max (scale current o.decrease_factor) o.min_prefetch
    else current

-- A channel that is new since the last look starts at the initial prefetch.
unfoldable pub reapply : Optimizer → ℕ → Optimizer × List ℕ
reapply s epoch = if s.known_epoch == epoch then (s, []) else (
  record s { known_epoch = epoch },
  (if s.current_prefetch == s.options.initial_prefetch then [] else s.current_prefetch ∷ []),
)

unfoldable pub adjust : Optimizer → ℕ → Optimizer × List ℕ
unfolding new_prefetch
adjust s now =
    if ltb (now - s.last_optimization_time) s.options.optimization_interval
    then (s, [])
    else (let n = new_prefetch s.options s.current_prefetch s.processing_times in
        (
          record s { current_prefetch = n; last_optimization_time = now; processing_times = [] },
          (if n == s.current_prefetch then [] else n ∷ []),
        ))

unfoldable pub optimize : Optimizer → ℕ → ℕ → Optimizer × List ℕ
unfolding reapply adjust
optimize s epoch now =
    let (s', out) = reapply s epoch in let (s'', out') = adjust s' now in (s'', out ++ out')

-- The callback: its time is kept whether it throws or not, and a throw goes on past the optimizer.
unfoldable pub measured : Optimizer → Bool → ℕ → ℕ → ℕ → Optimizer × List ℕ
unfolding optimize
measured s ok duration epoch now =
    let s' = record s { processing_times = s.processing_times ++ (duration ∷ []) } in
    if ok then optimize s' epoch now else (s', [])

pub record Sample : Type 0 where
  pub ok : Bool
  pub duration : ℕ
  pub epoch : ℕ
  pub now : ℕ

unfoldable pub run : Optimizer → List Sample → Optimizer × List ℕ
unfolding measured
run s [] = (s, [])
run s (m ∷ ms) =
    let (s', out) = measured s m.ok m.duration m.epoch m.now in
    let (s'', out') = run s' ms in (s'', out ++ out')
