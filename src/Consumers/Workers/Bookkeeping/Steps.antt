-- ===== src/Consumers/Workers/Bookkeeping/Steps.antt =====
-- Every event keeps the bookkeeping.
use rabbitmq.Base.{
  ℕ, zero, suc, ◌+◌, ◌-◌, ◌≤◌, ◌≡◌, refl, Bool, true, false, Option, none, some, ltb, if◌then◌else◌,
  Table, ident_ℕ, List, [], ◌∷◌, arith, inl, inr,
}
use rabbitmq.Base.Map
use rabbitmq.Base.Map.{get-set, get-delete}
use rabbitmq.Consumers.Workers.{
  Job, WorkerPool, Settled, resolved, rejected, Event, calls, answers, errors, exits, terminate,
  terminated_all, pool_terminated, worker_error, worker_exited, wait, give_up, count_of, remove,
  Result, spawn, spawn_all, init, empty, reject_all_waiters, take_idle, assign, acquire, take_job,
  end_job, respawn, leave, exit_event, step, run,
}
use rabbitmq.Consumers.Workers.Bookkeeping.{
  same, idle_uses, job_uses, used, taken, Core, release-Core, spawn-Core, spawn-Hope, release-Hope,
  Inv,
}

take_idle-uses :
    (t : Table ℕ ℕ) (ws : List ℕ) (u : ℕ)
    → used u (take_idle t ws).0 + idle_uses u (take_idle t ws).1 ≤ idle_uses u ws
unfolding take_idle
take_idle-uses t [] u = omega arith
take_idle-uses t (w ∷ ws) u = ground (arith, take_idle-uses t ws u)

take_idle-none : (t : Table ℕ ℕ) (ws : List ℕ) → (take_idle t ws).0 ≡ none → (take_idle t ws).1 ≡ []
unfolding take_idle
take_idle-none t [] e = refl
take_idle-none t (w ∷ ws) e = ground (arith, take_idle-none t ws)

pub pick :
    (P : WorkerPool → Type 0) (b : Bool) (x y : Result)
    → (b ≡ true → P x.0)
    → (b ≡ false → P y.0)
    → P (if b then x else y).0
pick P true x y p q = p refl
pick P false x y p q = q refl

wait-Inv :
    (s : WorkerPool) (c : ℕ) (t : Table ℕ ℕ)
    → s.workers ≡ t
    → Inv s
    → s.terminated ≡ false
    → s.idle_workers ≡ []
    → Inv (wait s c t).0
unfolding wait
wait-Inv s c [] e v o i = v
wait-Inv s c (x ∷ xs) e v o i = (
  record { alive = v.0.alive; exclusive = v.0.exclusive; fresh = v.0.fresh; queued = inr (i, o) },
  inr (rw e (omega arith)),
)

assign-Inv :
    (s : WorkerPool) (c : ℕ) (found : Option ℕ) (rest : List ℕ)
    → Inv s
    → s.terminated ≡ false
    → ((u : ℕ) → used u found + idle_uses u rest ≤ idle_uses u s.idle_workers)
    → (found ≡ none → rest ≡ [])
    → Inv (assign (record s { idle_workers = rest }) c found).0
unfolding assign
assign-Inv s c none rest v o h k =
    wait-Inv (record s { idle_workers = rest }) c s.workers refl (thinner, v.1) o (k refl)
  where
    thinner : Core (record s { idle_workers = rest })
    thinner = record {
      alive = λ u n. ground (arith, v.0.alive u, h u);
      exclusive = λ u. omega (arith, v.0.exclusive u, h u);
      fresh = λ u n. ground (arith, v.0.fresh u n, h u);
      queued = inr (k refl, o);
    }
assign-Inv s c (some w) rest v o h k = (
  record {
    alive = λ u n. ground (arith, v.0.alive u, h u);
    exclusive = λ u. ground (arith, v.0.exclusive u, h u);
    fresh = λ u n. ground (arith, v.0.fresh u n, h u);
    queued = ground (arith, v.0.queued, h w);
  },
  v.1,
)

acquire-Inv : (s : WorkerPool) (c : ℕ) → Inv s → Inv (acquire s c).0
unfolding acquire
acquire-Inv s c v =
    let (found, rest) = take_idle s.workers s.idle_workers in
    pick Inv s.terminated (s, rejected c pool_terminated ∷ [])
      (assign (record s { idle_workers = rest }) c found) (λ _. v)
      (λ o.
        assign-Inv s c found rest v o (take_idle-uses s.workers s.idle_workers)
          (take_idle-none s.workers s.idle_workers))

pub take_job-uses :
    (js : List Job) (w u : ℕ)
    → (taken w u (take_job js w).0 + job_uses u (take_job js w).1 ≡ job_uses u js)
      × ((take_job js w).0 ≡ none → job_uses w js ≡ 0)
unfolding take_job
take_job-uses [] w u = (omega arith, λ _. refl)
take_job-uses (j ∷ js) w u = ground (arith, take_job-uses js w u)

-- The worker of a job that has ended is nowhere.
unjob-Core :
    (s : WorkerPool) (w : ℕ) (js : List Job)
    → Core s
    → ((u : ℕ) → same u w + job_uses u js ≡ job_uses u s.jobs)
    → Core (record s { jobs = js })
unjob-Core s w js v h = record {
  alive = v.alive;
  exclusive = λ u. omega (arith, v.exclusive u, h u);
  fresh = λ u n. ground (arith, v.fresh u n, h u);
  queued = v.queued;
}

end_job-Inv :
    (s : WorkerPool) (w : ℕ) (found : Option ℕ) (js : List Job) (outcome : ℕ → Settled)
    → Inv s
    → ((u : ℕ) → taken w u found + job_uses u js ≡ job_uses u s.jobs)
    → Inv (end_job s w (found, js) outcome).0
unfolding end_job
end_job-Inv s w none js outcome v h = v
end_job-Inv s w (some c) js outcome v h =
    let s' = record s { jobs = js } in
    (
      release-Core s' w (unjob-Core s w js v.0 h) (ground (arith, v.0.fresh w, h w))
          (ground (arith, v.0.exclusive w, h w)),
      release-Hope s' w v.1,
    )

pub remove-uses : (ws : List ℕ) (w u : ℕ) → idle_uses u (remove ws w) ≡ idle_uses u ws - same u w
unfolding remove
remove-uses [] w u = omega arith
remove-uses (v ∷ ws) w u = ground (arith, remove-uses ws w u)

give_up-Inv : (s : WorkerPool) (t : Table ℕ ℕ) → s.workers ≡ t → Core s → Inv (give_up s t).0
unfolding give_up reject_all_waiters
give_up-Inv s [] e v = (
  record { alive = v.alive; exclusive = v.exclusive; fresh = v.fresh; queued = inl refl },
  inl refl,
)
give_up-Inv s (x ∷ xs) e v = (v, inr (rw e (omega arith)))

respawn-Inv : (s : WorkerPool) (id : ℕ) → Core s → Inv (respawn s id).0
unfolding respawn
respawn-Inv s id v =
    let n = count_of (Map.get s.respawn_counts id) in
    let s' = record s { respawn_counts = Map.set s.respawn_counts id (n + 1) } in
    let v' : Core s' = record {
      alive = v.alive;
      exclusive = v.exclusive;
      fresh = v.fresh;
      queued = v.queued;
    } in
    pick Inv (ltb n s.max_respawns) (spawn s' id, []) (give_up s s.workers)
      (λ _. (spawn-Core s' id v', spawn-Hope s' id)) (λ _. give_up-Inv s s.workers refl v)

pub gone-Core :
    (s : WorkerPool) (w : ℕ)
    → Core s
    → Core (record s { workers = Map.delete s.workers w; idle_workers = remove s.idle_workers w })
gone-Core s w v = record {
  alive = λ u h.
      ground
        (arith, v.alive u, v.exclusive u, get-delete s.workers w u, remove-uses s.idle_workers w u);
  exclusive = λ u. ground (arith, v.exclusive u, remove-uses s.idle_workers w u);
  fresh =
      λ u n. ground (arith, v.fresh u n, get-delete s.workers w u, remove-uses s.idle_workers w u);
  queued = unfold remove in ground (arith, v.queued);
}

pub leave-Inv : (s : WorkerPool) (w id : ℕ) → Inv s → Inv (leave s w id).0
unfolding leave
leave-Inv s w id v =
    let s' = record s {
      workers = Map.delete s.workers w;
      idle_workers = remove s.idle_workers w;
    } in
    let c = gone-Core s w v.0 in
    pick Inv s.terminated (s', []) (respawn s' id) (λ o. (c, ground (arith, c.queued)))
      (λ _. respawn-Inv s' id c)

exit_event-Inv : (s : WorkerPool) (w : ℕ) (found : Option ℕ) → Inv s → Inv (exit_event s w found).0
unfolding exit_event
exit_event-Inv s w none v = v
exit_event-Inv s w (some id) v =
    let s' = (leave s w id).0 in
    let f = take_job s'.jobs w in
    end_job-Inv s' w f.0 f.1 (λ c. rejected c worker_exited) (leave-Inv s w id v)
      (λ u. (take_job-uses s'.jobs w u).0)

pub step-Inv : (s : WorkerPool) (e : Event) → Inv s → Inv (step s e).0
unfolding step reject_all_waiters
step-Inv s (calls c) v = acquire-Inv s c v
step-Inv s (answers w) v =
    let f = take_job s.jobs w in
    end_job-Inv s w f.0 f.1 resolved v (λ u. (take_job-uses s.jobs w u).0)
step-Inv s (errors w) v =
    let f = take_job s.jobs w in
    end_job-Inv s w f.0 f.1 (λ c. rejected c worker_error) v (λ u. (take_job-uses s.jobs w u).0)
step-Inv s (exits w) v = exit_event-Inv s w (Map.get s.workers w) v
step-Inv s terminate v = (
  record { alive = v.0.alive; exclusive = v.0.exclusive; fresh = v.0.fresh; queued = inl refl },
  inl refl,
)
step-Inv s terminated_all v =
    pick Inv s.terminated (record s { workers = []; idle_workers = [] }, []) (s, [])
      (λ o. cleared s v.0 o) (λ _. v)
  where
    cleared :
        (s : WorkerPool)
        → Core s
        → s.terminated ≡ true
        → Inv (record s { workers = []; idle_workers = [] })
    cleared s v o =
        let e : s.waiters ≡ [] = ground (arith, v.queued) in
        (
          record {
            alive = λ u h. absurd (omega arith);
            exclusive = λ u. omega (arith, v.exclusive u);
            fresh = λ u n. (omega (arith, v.fresh u n), unfold Map.get in refl);
            queued = inl e;
          },
          inl e,
        )

run-Inv : (es : List Event) (s : WorkerPool) → Inv s → Inv (run s es).0
unfolding run
run-Inv [] s v = v
run-Inv (e ∷ es) s v = run-Inv es (step s e).0 (step-Inv s e v)

spawn_all-Inv : (id n : ℕ) (s : WorkerPool) → Inv s → Inv (spawn_all id n s)
unfolding spawn_all
spawn_all-Inv id zero s v = v
spawn_all-Inv id (suc n) s v =
    spawn_all-Inv (id + 1) n (spawn s id) (spawn-Core s id v.0, spawn-Hope s id)

-- From the constructor on: no worker is in two places; an idle worker is alive; and while calls wait, no
-- worker is idle, the pool is not terminated, and there is a worker left to wait for.
pub reachable_pool-Inv :
    (worker_count max_respawns : ℕ) (es : List Event)
    → Inv (run (init worker_count max_respawns) es).0
unfolding init
reachable_pool-Inv worker_count max_respawns es =
    run-Inv es (spawn_all 0 worker_count (empty max_respawns))
      (spawn_all-Inv 0 worker_count (empty max_respawns) empty-Inv)
  where
    empty-Inv : Inv (empty max_respawns)
    empty-Inv =
        unfold empty Map.get in
        (
          record {
            alive = λ u h. absurd (omega arith);
            exclusive = λ u. omega arith;
            fresh = λ u n. (omega arith, refl);
            queued = inl refl;
          },
          inl refl,
        )
