-- ===== src/Consumers/Workers/Handover.antt =====
-- What becomes of a call that waits for a worker when one dies.
use rabbitmq.Base.{◌∙◌, ℕ, ◌+◌, ◌≡◌, refl, some, Table, ident_ℕ, [], ◌∷◌, arith}
use rabbitmq.Base.Map
use rabbitmq.Base.Map.{get-set, get-delete}
use rabbitmq.Consumers.Workers.{
  WorkerPool, rejected, errors, exits, worker_error, worker_exited, step, run, end_job, take_job,
  release, hand_over, exit_event, leave, respawn, spawn, give_up, count_of, remove,
  reject_all_waiters, reject_all,
}

-- With nobody waiting, the pool's own listener settles no call and starts no job.
give_up_quiet :
    (s : WorkerPool) (t : Table ℕ ℕ)
    → s.waiters ≡ []
    → ((give_up s t).0.jobs ≡ s.jobs) × ((give_up s t).1 ≡ [])
unfolding give_up reject_all_waiters reject_all
give_up_quiet s [] e = (refl, rw e refl)
give_up_quiet s (x ∷ xs) e = (refl, refl)

release_quiet : (s : WorkerPool) (w : ℕ) → s.waiters ≡ [] → (release s w).jobs ≡ s.jobs
unfolding release hand_over
release_quiet s w e = rw e (ground arith)

leave_quiet :
    (s : WorkerPool) (w id : ℕ)
    → s.waiters ≡ []
    → ((leave s w id).0.jobs ≡ s.jobs) × ((leave s w id).1 ≡ [])
unfolding leave respawn spawn
leave_quiet s w id e =
    let n = count_of (Map.get s.respawn_counts id) in
    let s' = record s {
      workers = Map.delete s.workers w;
      idle_workers = remove s.idle_workers w;
    } in
    let t = record s' {
      respawn_counts = Map.set s.respawn_counts id (n + 1);
      workers = Map.set s'.workers s.next id;
      next = s.next + 1;
    } in
    ground (arith, release_quiet t s.next e, give_up_quiet s' s'.workers e)

handed :
    (s : WorkerPool) (w id c d : ℕ)
    → Map.get s.workers w ≡ some id
    → s.jobs ≡ record { call = c; worker = w } ∷ []
    → s.waiters ≡ d ∷ []
    → step s (errors w) ≡ (
      record s { waiters = []; jobs = record { call = d; worker = w } ∷ [] },
      rejected c worker_error ∷ [],
    )
unfolding step end_job take_job release hand_over
handed s w id c d a j q = rw (j, q) (ground arith)

exits-fails :
    (s : WorkerPool) (w id d : ℕ)
    → Map.get s.workers w ≡ some id
    → s.jobs ≡ record { call = d; worker = w } ∷ []
    → s.waiters ≡ []
    → (step s (exits w)).1 ≡ rejected d worker_exited ∷ []
unfolding step exit_event
exits-fails s w id d a j q =
    let l = leave_quiet s w id q in
    rw (a, exit_event) (rw (l.0 ∙ j, l.1) (unfold take_job end_job in ground arith))

-- An 'error' of a worker releases it before its 'exit' takes it from the pool: the first call that
-- waits gets it, and fails when it exits, although it was never run.
pub errors-exits-fails_waiter :
    (s : WorkerPool) (w id c d : ℕ)
    → Map.get s.workers w ≡ some id
    → s.jobs ≡ record { call = c; worker = w } ∷ []
    → s.waiters ≡ d ∷ []
    → (run s (errors w ∷ exits w ∷ [])).1 ≡ rejected c worker_error ∷ rejected d worker_exited ∷ []
unfolding run
errors-exits-fails_waiter s w id c d a j q =
    let s' = record s { waiters = []; jobs = record { call = d; worker = w } ∷ [] } in
    rw (handed s w id c d a j q) (rw (exits-fails s' w id d a refl refl) refl)
