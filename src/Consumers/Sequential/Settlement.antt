-- ===== src/Consumers/Sequential/Settlement.antt =====
-- Every delivery that comes in is settled once.
use rabbitmq.Base.{
  ℕ, zero, suc, ◌+◌, ◌≡◌, Bool, true, false, none, some, ◌==◌, if◌then◌else◌, Table, ident_ℕ, List,
  [], ◌∷◌, ◌++◌, arith, Option-cases, inl, inr,
}
use rabbitmq.Base.Map
use rabbitmq.Base.Tally.{
  sum_list, sum_values, sum_list-append, sum_values-set, sum_values-delete, IsPart, self-IsPart,
  delete-IsPart,
}
use rabbitmq.Consumers.Sequential.{
  Delivery, Parked, Task, SequentialProcessor, Failure, Settled, succeeded, failed, Result, Event,
  arrives, handler_settles, sweeps, step, run, handle, release, park, start, succeed, fail, settle,
  take_task, expire, cleanup, waits_for, remove_pending, index_pending, init, unmark_processing,
  forget_dependents, dependents_for, is_stale,
}

module _ (tag : ℕ) where
  unfoldable pub hits : Delivery → ℕ
  hits d = if d.tag == tag then 1 else 0

  unfoldable pub settlements : Settled → ℕ
  settlements (succeeded d duplicate) = hits d
  settlements (failed d failure requeue) = hits d

  abbrev weight : Parked → ℕ
  weight p = hits p.message

  -- How often the delivery arrives.
  unfoldable pub arrivals : List Event → ℕ
  arrivals [] = 0
  arrivals (arrives d now ∷ es) = hits d + arrivals es
  arrivals (e ∷ es) = arrivals es

  abbrev task_weight : Task → ℕ
  task_weight t = hits t.message

  -- How often the processor holds the delivery: parked, or with its handler running.
  unfoldable pub held : SequentialProcessor → ℕ
  held s = sum_values weight s.pending + sum_list task_weight s.running

  -- What an operation is given is held or settled, and it loses nothing.
  abbrev Accounts : ℕ → Result → Type 0
  Accounts n r = (held r.0 + sum_list settlements r.1 ≡ n) × Map.IsDistinct r.0.pending

  park-Accounts :
      (s : SequentialProcessor) (d : Delivery) (now id dependency : ℕ)
      → Map.IsDistinct s.pending
      → Accounts (held s + hits d) (park s d now id dependency)
  unfolding park index_pending held settlements
  park-Accounts s d now id dependency v = elim (Option-cases (Map.get s.pending id)) [
    | inl e ↦
        let p : Parked = record { message = d; depends_on = dependency; queued_at = now } in
        rw (e, park)
          (
            omega (arith, sum_values-set weight s.pending id p e),
            Map.set-IsDistinct s.pending id p v,
          )
    | inr (p, e) ↦ rw (e, park) (omega arith, v)
  ]

  start-Accounts :
      (s : SequentialProcessor) (d : Delivery) (now : ℕ) (ids : List ℕ)
      → Map.IsDistinct s.pending
      → Accounts (held s + hits d) (start s d now ids, [])
  unfolding start held settlements
  start-Accounts s d now ids v = (omega arith, v)

  handle-Accounts :
      (s : SequentialProcessor) (d : Delivery) (now : ℕ)
      → Map.IsDistinct s.pending
      → Accounts (held s + hits d) (handle s d now)
  unfolding handle
  handle-Accounts s d now v = elim (Option-cases (waits_for s d.message_id d.depends_on)) [
    | inl e ↦ rw (e, handle) (start-Accounts s d now [] v)
    | inr ((id, dependency), e) ↦ rw (e, handle) (park-Accounts s d now id dependency v)
  ]

  -- A parked message that leaves the map is in the hands of what takes it out.
  held-delete :
      (s : SequentialProcessor) (id : ℕ) (p : Parked)
      → Map.IsDistinct s.pending
      → Map.get s.pending id ≡ some p
      → held (record s { pending = Map.delete s.pending id }) + hits p.message ≡ held s
  unfolding held
  held-delete s id p v e = omega (arith, sum_values-delete weight s.pending id p v e)

  release-Accounts :
      (ids : List ℕ) (s : SequentialProcessor) (now : ℕ)
      → Map.IsDistinct s.pending
      → Accounts (held s) (release ids s now)
  unfolding release
  release-Accounts [] s now v = (omega arith, v)
  release-Accounts (id ∷ ids) s now v = elim (Option-cases (Map.get s.pending id)) [
    | inl e ↦ rw (e, release) (release-Accounts ids s now v)
    | inr (p, e) ↦
        let s' = record s { pending = Map.delete s.pending id } in
        let m = p.message in
        let v' = Map.delete-IsDistinct s.pending id v in
        elim (Option-cases (waits_for s' m.message_id m.depends_on)) [
          | inl w ↦
              let a = start-Accounts s' m now ids v' in
              rw (e, w, release) (omega (arith, a.0, held-delete s id p v e), a.1)
          | inr ((own, dependency), w) ↦
              let a = park-Accounts s' m now own dependency v' in
              let r = release-Accounts ids (park s' m now own dependency).0 now a.1 in
              rw (e, w, release)
                (
                  omega (
                    arith,
                    a.0,
                    r.0,
                    held-delete s id p v e,
                    sum_list-append settlements (park s' m now own dependency).1
                        (release ids (park s' m now own dependency).0 now).1,
                  ),
                  r.1,
                )
        ]
  ]

  take_task-sum :
      (ts : List Task) (n : ℕ) (t : Task) (us : List Task)
      → take_task ts n ≡ some (t, us)
      → sum_list task_weight ts ≡ hits t.message + sum_list task_weight us
  unfolding take_task
  take_task-sum [] n t us e = cc
  take_task-sum (u ∷ ts) zero t us e = ground arith
  take_task-sum (u ∷ ts) (suc n) t us e = elim (Option-cases (take_task ts n)) [
    | inl o ↦ ground (arith, o)
    | inr ((v, vs), o) ↦ ground (arith, o, take_task-sum ts n v vs o)
  ]

  succeed-Accounts :
      (s : SequentialProcessor) (t : Task) (now : ℕ)
      → Map.IsDistinct s.pending
      → Accounts (held s + hits t.message) (succeed s t now)
  unfolding succeed held settlements
  succeed-Accounts s t now v =
      let id = t.message.message_id in
      let s' = record s {
        processing = unmark_processing s.processing id;
        pending_by_dependency = forget_dependents s.pending_by_dependency id;
      } in
      let r =
        release-Accounts (dependents_for s.pending_by_dependency id ++ t.dependents) s' now v in
      (omega (arith, r.0), r.1)

  choose-Accounts :
      (b : Bool) (n : ℕ) (r r' : Result)
      → Accounts n r
      → Accounts n r'
      → Accounts n (if b then r else r')
  choose-Accounts true n r r' a a' = a
  choose-Accounts false n r r' a a' = a'

  module _ (should_requeue : Delivery → Failure → Bool) where
    fail-Accounts :
        (s : SequentialProcessor) (t : Task) (now : ℕ)
        → Map.IsDistinct s.pending
        → Accounts (held s + hits t.message) (fail should_requeue s t now)
    unfolding fail held settlements
    fail-Accounts s t now v =
        let s' = record s { processing = unmark_processing s.processing t.message.message_id } in
        let r = release-Accounts t.dependents s' now v in (omega (arith, r.0), r.1)

    settle-Accounts :
        (s : SequentialProcessor) (n : ℕ) (ok : Bool) (now : ℕ)
        → Map.IsDistinct s.pending
        → Accounts (held s) (settle should_requeue s n ok now)
    unfolding settle held
    settle-Accounts s n ok now v = elim (Option-cases (take_task s.running n)) [
      | inl e ↦ rw (e, settle) (omega arith, v)
      | inr ((t, others), e) ↦
          let s' = record s { running = others } in
          let w : held s ≡ held s' + hits t.message =
            unfold held in omega (arith, take_task-sum s.running n t others e) in
          rw (e, settle, w)
            (choose-Accounts ok _ (succeed s' t now) (fail should_requeue s' t now)
              (succeed-Accounts s' t now v) (fail-Accounts s' t now v))
    ]

    expire-Accounts :
        (entries : Table ℕ Parked) (s : SequentialProcessor) (now : ℕ)
        → Map.IsDistinct s.pending
        → IsPart entries s.pending
        → Accounts (held s) (expire should_requeue entries s now)
    unfolding expire Map.get held settlements
    expire-Accounts [] s now v h = (omega arith, v)
    expire-Accounts ((id, p) ∷ entries) s now v h =
        let s' = remove_pending s id p.depends_on in
        let kept = expire-Accounts entries s now v h.2 in
        let r =
          expire-Accounts entries s' now (Map.delete-IsDistinct s.pending id v)
            (delete-IsPart entries s.pending id h.1 h.2) in
        let w : held s' + hits p.message ≡ held s = held-delete s id p v h.0 in
        choose-Accounts _ _ _ _ (omega (arith, w, r.0), r.1) kept

    cleanup-Accounts :
        (s : SequentialProcessor) (now : ℕ)
        → Map.IsDistinct s.pending
        → Accounts (held s) (cleanup should_requeue s now)
    unfolding cleanup held
    cleanup-Accounts s now v =
        expire-Accounts s.pending
          (record s {
            processing =
                Map.sweep (λ since. if is_stale s now since then none else some since) s.processing;
          })
          now v (self-IsPart s.pending v)

    pub step-Accounts :
        (s : SequentialProcessor) (e : Event)
        → Map.IsDistinct s.pending
        → Accounts (held s + arrivals (e ∷ [])) (step should_requeue s e)
    unfolding step arrivals hits
    step-Accounts s (arrives d now) v =
        let a = handle-Accounts s d now v in (omega (arith, a.0), a.1)
    step-Accounts s (handler_settles n ok now) v =
        let a = settle-Accounts s n ok now v in (omega (arith, a.0), a.1)
    step-Accounts s (sweeps now) v = let a = cleanup-Accounts s now v in (omega (arith, a.0), a.1)

    arrivals-cons :
        (e : Event) (es : List Event) → arrivals (e ∷ es) ≡ arrivals (e ∷ []) + arrivals es
    unfolding arrivals
    arrivals-cons (arrives d now) es = omega arith
    arrivals-cons (handler_settles n ok now) es = omega arith
    arrivals-cons (sweeps now) es = omega arith

    run-Accounts :
        (es : List Event) (s : SequentialProcessor)
        → Map.IsDistinct s.pending
        → Accounts (held s + arrivals es) (run should_requeue s es)
    unfolding run arrivals
    run-Accounts [] s v = (omega arith, v)
    run-Accounts (e ∷ es) s v =
        let r = step should_requeue s e in
        let a = step-Accounts s e v in
        let b = run-Accounts es r.0 a.1 in
        (
          omega (
            arith,
            a.0,
            b.0,
            arrivals-cons e es,
            sum_list-append settlements r.1 (run should_requeue r.0 es).1,
          ),
          b.1,
        )

    -- From an empty processor, in whatever order messages arrive, handlers return or throw and sweeps
    -- run: each delivery has been settled, is parked, or has its handler running, as often as it arrived.
    pub deliveries-are_settled_once :
        (stale_timeout : ℕ) (es : List Event)
        → let r = run should_requeue (init stale_timeout) es in
          held r.0 + sum_list settlements r.1 ≡ arrivals es
    unfolding init held
    deliveries-are_settled_once stale_timeout es =
        let a = run-Accounts es (init stale_timeout) tt in omega (arith, a.0)
