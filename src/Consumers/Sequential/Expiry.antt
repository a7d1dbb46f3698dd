-- ===== src/Consumers/Sequential/Expiry.antt =====
-- What the sweep expires.
use rabbitmq.Base.{
  ◌∙◌, ℕ, ◌≡◌, refl, Bool, true, false, Option, none, some, if◌then◌else◌, Table, ident_ℕ, [], ◌∷◌,
  arith,
}
use mathlib.Core.Option
use rabbitmq.Base.Map
use rabbitmq.Base.Map.{get-delete}
use rabbitmq.Consumers.Sequential.{
  Delivery, Parked, SequentialProcessor, Failure, Result, failed, dependency_never_resolved, expire,
  cleanup, remove_pending, is_stale,
}

-- What becomes of an entry of the map: an entry of the loop that is stale goes.
abbrev left : SequentialProcessor → ℕ → Option Parked → Option Parked → Option Parked
left s now none current = current
left s now (some p) current = if is_stale s now p.queued_at then none else current

abbrev pub keep_fresh : SequentialProcessor → ℕ → Parked → Option Parked
keep_fresh s now p = if is_stale s now p.queued_at then none else some p

bind_left :
    (s : SequentialProcessor) (now : ℕ) (o : Option Parked)
    → left s now o o ≡ Option.bind o (keep_fresh s now)
unfolding Option.bind
bind_left s now none = refl
bind_left s now (some p) = refl

module _ (should_requeue : Delivery → Failure → Bool) where
  get-choose :
      (b : Bool) (r r' : Result) (id : ℕ)
      → Map.get (if b then r else r').0.pending id
        ≡ (if b then Map.get r.0.pending id else Map.get r'.0.pending id)
  get-choose true r r' id = refl
  get-choose false r r' id = refl

  get-expire :
      (entries : Table ℕ Parked) (s : SequentialProcessor) (now id : ℕ)
      → Map.IsDistinct entries
      → Map.get (expire should_requeue entries s now).0.pending id
        ≡ left s now (Map.get entries id) (Map.get s.pending id)
  unfolding expire Map.get
  get-expire [] s now id d = refl
  get-expire ((k, p) ∷ entries) s now id d =
      let s' = remove_pending s k p.depends_on in
      let kept = expire should_requeue entries s now in
      let gone = expire should_requeue entries s' now in
      let why =
        failed p.message dependency_never_resolved
          (should_requeue p.message dependency_never_resolved) in
      get-choose (is_stale s now p.queued_at) (gone.0, why ∷ gone.1) kept id
      ∙ ground (
        arith,
        d.0,
        get-delete s.pending k id,
        get-expire entries s now id d.1,
        get-expire entries s' now id d.1,
      )

  -- A sweep takes out the parked messages that have waited for longer than the timeout, and no others.
  pub get-cleanup :
      (s : SequentialProcessor) (now id : ℕ)
      → Map.IsDistinct s.pending
      → Map.get (cleanup should_requeue s now).0.pending id
        ≡ Option.bind (Map.get s.pending id) (keep_fresh s now)
  unfolding cleanup
  get-cleanup s now id d =
      get-expire s.pending (record s { processing = _ }) now id d
      ∙ bind_left s now (Map.get s.pending id)
