-- ===== src/Consumers/Workers/Bookkeeping/Placed.antt =====
-- No worker is lost: one that is alive is idle or has a job.
use rabbitmq.Base.{
  ℕ, zero, suc, ◌+◌, ◌≡◌, ◌≢◌, refl, Bool, true, false, Option, none, some, ltb, if◌then◌else◌,
  Table, ident_ℕ, ℕ_discrete, List, [], ◌∷◌, arith,
}
use rabbitmq.Base.Map
use rabbitmq.Base.Map.{get-set, get-delete}
use rabbitmq.Base.Tally.{sum_list-append}
use rabbitmq.Consumers.Workers.{
  Job, WorkerPool, Settled, resolved, rejected, Event, calls, answers, errors, exits, terminate,
  terminated_all, pool_terminated, worker_error, worker_exited, wait, give_up, count_of, remove,
  hand_over, release, spawn, spawn_all, init, empty, reject_all_waiters, take_idle, assign, acquire,
  take_job, end_job, respawn, leave, exit_event, step, run, is_alive,
}
use rabbitmq.Consumers.Workers.Bookkeeping.{
  same, idle_uses, job_uses, used, taken, Core, spawn-Core, Inv,
}
use rabbitmq.Consumers.Workers.Bookkeeping.Steps.{
  take_job-uses, remove-uses, pick, step-Inv, leave-Inv, gone-Core, reachable_pool-Inv,
}

-- In how many places a worker is.
abbrev pub places : WorkerPool → ℕ → ℕ
places s w = idle_uses w s.idle_workers + job_uses w s.jobs

abbrev pub Placed : WorkerPool → Type 0
Placed s = (w : ℕ) → is_alive (Map.get s.workers w) ≡ true → places s w ≡ 1

-- All are, but one that is in transit.
abbrev PlacedBut : ℕ → WorkerPool → Type 0
PlacedBut v s =
    (places s v ≡ 0) × ((w : ℕ) → w ≢ v → is_alive (Map.get s.workers w) ≡ true → places s w ≡ 1)

hand_over-Placed :
    (s : WorkerPool) (v : ℕ) (ws : List ℕ) → PlacedBut v s → Placed (hand_over s v ws)
unfolding hand_over
hand_over-Placed s v [] p w a = elim (ℕ_discrete w v) [
  | yes e ↦ ground (arith, e, p.0, sum_list-append (same w) s.idle_workers (v ∷ []))
  | no n ↦ ground (arith, n, p.1 w n a, sum_list-append (same w) s.idle_workers (v ∷ []))
]
hand_over-Placed s v (c ∷ cs) p w a = elim (ℕ_discrete w v) [
  | yes e ↦ ground (arith, e, p.0)
  | no n ↦ ground (arith, n, p.1 w n a)
]

stays-Placed :
    (s : WorkerPool) (v : ℕ) → PlacedBut v s → is_alive (Map.get s.workers v) ≡ false → Placed s
stays-Placed s v p d w a = elim (ℕ_discrete w v) [
  | yes e ↦ ground (arith, e, d, a)
  | no n ↦ p.1 w n a
]

by_flag :
    (b : Bool) (x y : WorkerPool)
    → (b ≡ true → Placed x)
    → (b ≡ false → Placed y)
    → Placed (if b then x else y)
by_flag true x y p q = p refl
by_flag false x y p q = q refl

release-Placed : (s : WorkerPool) (v : ℕ) → PlacedBut v s → Placed (release s v)
unfolding release
release-Placed s v p =
    by_flag (is_alive (Map.get s.workers v)) (hand_over s v s.waiters) s
      (λ _. hand_over-Placed s v s.waiters p) (stays-Placed s v p)

spawn-Placed : (s : WorkerPool) (id : ℕ) → Core s → Placed s → Placed (spawn s id)
unfolding spawn
spawn-Placed s id v p =
    release-Placed (record s { workers = Map.set s.workers s.next id; next = s.next + 1 }) s.next
      (
        (v.fresh s.next (omega arith)).0,
        λ w n a. p w (ground (arith, n, a, get-set s.workers s.next w id)),
      )

-- The dead are dropped from the idle ones, and the others stay.
take_idle-keeps :
    (t : Table ℕ ℕ) (ws : List ℕ) (u : ℕ)
    → is_alive (Map.get t u) ≡ true
    → used u (take_idle t ws).0 + idle_uses u (take_idle t ws).1 ≡ idle_uses u ws
unfolding take_idle
take_idle-keeps t [] u a = omega arith
take_idle-keeps t (w ∷ ws) u a = elim (ℕ_discrete w u) [
  | yes e ↦ ground (arith, e, a)
  | no n ↦ ground (arith, n, take_idle-keeps t ws u a)
]

wait-Placed : (s : WorkerPool) (c : ℕ) (t : Table ℕ ℕ) → Placed s → Placed (wait s c t).0
unfolding wait
wait-Placed s c [] p = p
wait-Placed s c (x ∷ xs) p = p

assign-Placed :
    (s : WorkerPool) (c : ℕ) (found : Option ℕ) (rest : List ℕ)
    → Placed s
    → ((u : ℕ)
        → is_alive (Map.get s.workers u) ≡ true
        → used u found + idle_uses u rest ≡ idle_uses u s.idle_workers)
    → Placed (assign (record s { idle_workers = rest }) c found).0
unfolding assign
assign-Placed s c none rest p h =
    wait-Placed (record s { idle_workers = rest }) c s.workers (λ w a. omega (arith, p w a, h w a))
assign-Placed s c (some v) rest p h = λ w a. ground (arith, p w a, h w a)

acquire-Placed : (s : WorkerPool) (c : ℕ) → Placed s → Placed (acquire s c).0
unfolding acquire
acquire-Placed s c p =
    let (found, rest) = take_idle s.workers s.idle_workers in
    pick Placed s.terminated (s, rejected c pool_terminated ∷ [])
      (assign (record s { idle_workers = rest }) c found) (λ _. p)
      (λ _. assign-Placed s c found rest p (take_idle-keeps s.workers s.idle_workers))

end_job-Placed :
    (s : WorkerPool) (v : ℕ) (found : Option ℕ) (js : List Job) (outcome : ℕ → Settled)
    → Inv s
    → Placed s
    → ((u : ℕ) → taken v u found + job_uses u js ≡ job_uses u s.jobs)
    → Placed (end_job s v (found, js) outcome).0
unfolding end_job
end_job-Placed s v none js outcome i p h = p
end_job-Placed s v (some c) js outcome i p h =
    release-Placed (record s { jobs = js }) v
      (ground (arith, i.0.exclusive v, h v), λ w n a. ground (arith, n, p w a, h w))

give_up-Placed : (s : WorkerPool) (t : Table ℕ ℕ) → Placed s → Placed (give_up s t).0
unfolding give_up reject_all_waiters
give_up-Placed s [] p = p
give_up-Placed s (x ∷ xs) p = p

respawn-Placed : (s : WorkerPool) (id : ℕ) → Core s → Placed s → Placed (respawn s id).0
unfolding respawn
respawn-Placed s id v p =
    let n = count_of (Map.get s.respawn_counts id) in
    let s' = record s { respawn_counts = Map.set s.respawn_counts id (n + 1) } in
    let v' : Core s' = record {
      alive = v.alive;
      exclusive = v.exclusive;
      fresh = v.fresh;
      queued = v.queued;
    } in
    pick Placed (ltb n s.max_respawns) (spawn s' id, []) (give_up s s.workers)
      (λ _. spawn-Placed s' id v' p) (λ _. give_up-Placed s s.workers p)

-- The worker that exits is not alive; the others are where they were.
gone-Placed :
    (s : WorkerPool) (v : ℕ)
    → Placed s
    → Placed (record s { workers = Map.delete s.workers v; idle_workers = remove s.idle_workers v })
gone-Placed s v p w a = elim (ℕ_discrete w v) [
  | yes e ↦ ground (arith, e, a, get-delete s.workers v w)
  | no n ↦ ground (arith, n, a, p w, get-delete s.workers v w, remove-uses s.idle_workers v w)
]

leave-Placed : (s : WorkerPool) (v id : ℕ) → Inv s → Placed s → Placed (leave s v id).0
unfolding leave
leave-Placed s v id i p =
    let s' = record s {
      workers = Map.delete s.workers v;
      idle_workers = remove s.idle_workers v;
    } in
    pick Placed s.terminated (s', []) (respawn s' id) (λ _. gone-Placed s v p)
      (λ _. respawn-Placed s' id (gone-Core s v i.0) (gone-Placed s v p))

exit_event-Placed :
    (s : WorkerPool) (v : ℕ) (found : Option ℕ) → Inv s → Placed s → Placed (exit_event s v found).0
unfolding exit_event
exit_event-Placed s v none i p = p
exit_event-Placed s v (some id) i p =
    let s' = (leave s v id).0 in
    let f = take_job s'.jobs v in
    end_job-Placed s' v f.0 f.1 (λ c. rejected c worker_exited) (leave-Inv s v id i)
      (leave-Placed s v id i p) (λ u. (take_job-uses s'.jobs v u).0)

step-Placed : (s : WorkerPool) (e : Event) → Inv s → Placed s → Placed (step s e).0
unfolding step reject_all_waiters
step-Placed s (calls c) i p = acquire-Placed s c p
step-Placed s (answers v) i p =
    let f = take_job s.jobs v in
    end_job-Placed s v f.0 f.1 resolved i p (λ u. (take_job-uses s.jobs v u).0)
step-Placed s (errors v) i p =
    let f = take_job s.jobs v in
    end_job-Placed s v f.0 f.1 (λ c. rejected c worker_error) i p
      (λ u. (take_job-uses s.jobs v u).0)
step-Placed s (exits v) i p = exit_event-Placed s v (Map.get s.workers v) i p
step-Placed s terminate i p = p
step-Placed s terminated_all i p =
    pick Placed s.terminated (record s { workers = []; idle_workers = [] }, []) (s, [])
      (λ _. unfold Map.get in λ w a. cc) (λ _. p)

run-Placed : (es : List Event) (s : WorkerPool) → Inv s → Placed s → Placed (run s es).0
unfolding run
run-Placed [] s i p = p
run-Placed (e ∷ es) s i p = run-Placed es (step s e).0 (step-Inv s e i) (step-Placed s e i p)

spawn_all-Placed : (id n : ℕ) (s : WorkerPool) → Core s → Placed s → Placed (spawn_all id n s)
unfolding spawn_all
spawn_all-Placed id zero s v p = p
spawn_all-Placed id (suc n) s v p =
    spawn_all-Placed (id + 1) n (spawn s id) (spawn-Core s id v) (spawn-Placed s id v p)

empty-Placed : (max_respawns : ℕ) → Placed (empty max_respawns)
unfolding empty Map.get
empty-Placed max_respawns w a = cc

-- From the constructor on, whatever the threads do and in whatever order: a worker that is alive is idle
-- or has a job, in one place and once, so none is lost; no worker is ever in two places; an idle worker
-- is alive; and while calls wait, no worker is idle, the pool is not terminated, and there is a worker
-- left to wait for.
pub reachable_pool-Placed :
    (worker_count max_respawns : ℕ) (es : List Event)
    → let s = (run (init worker_count max_respawns) es).0 in Inv s × Placed s
unfolding init
reachable_pool-Placed worker_count max_respawns es =
    let s = spawn_all 0 worker_count (empty max_respawns) in
    let i : Inv (empty max_respawns) =
      unfold run spawn_all in reachable_pool-Inv 0 max_respawns [] in
    (
      reachable_pool-Inv worker_count max_respawns es,
      run-Placed es s (unfold run in reachable_pool-Inv worker_count max_respawns [])
          (spawn_all-Placed 0 worker_count (empty max_respawns) i.0 (empty-Placed max_respawns)),
    )
