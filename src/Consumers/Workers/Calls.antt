-- ===== src/Consumers/Workers/Calls.antt =====
-- Every call of `run` is settled once.
use rabbitmq.Base.{
  ◌∙◌, ℕ, zero, suc, ◌+◌, ◌≡◌, refl, Bool, true, false, Option, none, some, ◌==◌, if◌then◌else◌,
  Table, ident_ℕ, List, [], ◌∷◌, arith, ltb,
}
use rabbitmq.Base.Map
use rabbitmq.Base.Tally.{sum_list, sum_list-append}
use rabbitmq.Consumers.Workers.{
  Job, WorkerPool, Reason, Settled, resolved, rejected, Event, calls, answers, errors, exits,
  terminate, terminated_all, pool_terminated, workers_died, worker_error, worker_exited, wait,
  give_up, count_of, Result, hand_over, release, spawn, spawn_all, init, empty, reject_all,
  reject_all_waiters, take_idle, assign, acquire, take_job, end_job, respawn, leave, exit_event,
  step, run,
}

module _ (call : ℕ) where
  unfoldable pub is_it : ℕ → ℕ
  is_it c = if c == call then 1 else 0

  unfoldable pub settlements : Settled → ℕ
  settlements (resolved c) = is_it c
  settlements (rejected c r) = is_it c

  abbrev job_weight : Job → ℕ
  job_weight j = is_it j.call

  -- How often the call waits or has a job.
  unfoldable pub open_calls : WorkerPool → ℕ
  open_calls s = sum_list is_it s.waiters + sum_list job_weight s.jobs

  unfoldable pub made : List Event → ℕ
  made [] = 0
  made (calls c ∷ es) = is_it c + made es
  made (e ∷ es) = made es

  abbrev Accounts : ℕ → Result → Type 0
  Accounts n r = open_calls r.0 + sum_list settlements r.1 ≡ n

  hand_over_calls :
      (s : WorkerPool) (w : ℕ) (ws : List ℕ)
      → s.waiters ≡ ws
      → open_calls (hand_over s w ws) ≡ open_calls s
  unfolding hand_over open_calls
  hand_over_calls s w [] e = omega arith
  hand_over_calls s w (c ∷ cs) e = rw e (omega arith)

  release_calls : (s : WorkerPool) (w : ℕ) → open_calls (release s w) ≡ open_calls s
  unfolding release
  release_calls s w = ground (arith, hand_over_calls s w s.waiters refl)

  spawn_calls : (s : WorkerPool) (id : ℕ) → open_calls (spawn s id) ≡ open_calls s
  unfolding spawn open_calls
  spawn_calls s id = release_calls (record s { workers = _; next = _ }) s.next

  spawn_all_calls : (id n : ℕ) (s : WorkerPool) → open_calls (spawn_all id n s) ≡ open_calls s
  unfolding spawn_all
  spawn_all_calls id zero s = refl
  spawn_all_calls id (suc n) s = spawn_all_calls (id + 1) n (spawn s id) ∙ spawn_calls s id

  reject_all_sum :
      (r : Reason) (cs : List ℕ) → sum_list settlements (reject_all r cs) ≡ sum_list is_it cs
  unfolding reject_all settlements
  reject_all_sum r [] = refl
  reject_all_sum r (c ∷ cs) = omega (arith, reject_all_sum r cs)

  reject_all_waiters-Accounts :
      (s : WorkerPool) (r : Reason) → Accounts (open_calls s) (reject_all_waiters s r)
  unfolding reject_all_waiters open_calls
  reject_all_waiters-Accounts s r = omega (arith, reject_all_sum r s.waiters)

  wait-Accounts :
      (s : WorkerPool) (c : ℕ) (workers : Table ℕ ℕ)
      → Accounts (open_calls s + is_it c) (wait s c workers)
  unfolding wait open_calls settlements
  wait-Accounts s c [] = omega arith
  wait-Accounts s c (x ∷ xs) = omega (arith, sum_list-append is_it s.waiters (c ∷ []))

  assign-Accounts :
      (s : WorkerPool) (c : ℕ) (w : Option ℕ) → Accounts (open_calls s + is_it c) (assign s c w)
  unfolding assign open_calls settlements
  assign-Accounts s c (some w) = omega arith
  assign-Accounts s c none = wait-Accounts s c s.workers

  choose-Accounts :
      (b : Bool) (n : ℕ) (r r' : Result)
      → Accounts n r
      → Accounts n r'
      → Accounts n (if b then r else r')
  choose-Accounts true n r r' a a' = a
  choose-Accounts false n r r' a a' = a'

  acquire-Accounts : (s : WorkerPool) (c : ℕ) → Accounts (open_calls s + is_it c) (acquire s c)
  unfolding acquire settlements open_calls
  acquire-Accounts s c =
      let idle = take_idle s.workers s.idle_workers in
      choose-Accounts s.terminated _ (s, rejected c pool_terminated ∷ []) _ (omega arith)
        (assign-Accounts (record s { idle_workers = idle.1 }) c idle.0)

  abbrev taken : Option ℕ → ℕ
  taken none = 0
  taken (some c) = is_it c

  take_job-sum :
      (js : List Job) (w : ℕ)
      → taken (take_job js w).0 + sum_list job_weight (take_job js w).1 ≡ sum_list job_weight js
  unfolding take_job
  take_job-sum [] w = omega arith
  take_job-sum (j ∷ js) w = ground (arith, take_job-sum js w)

  end_job-Accounts :
      (s : WorkerPool) (w : ℕ) (found : Option ℕ × List Job) (outcome : ℕ → Settled)
      → taken found.0 + sum_list job_weight found.1 ≡ sum_list job_weight s.jobs
      → ((c : ℕ) → settlements (outcome c) ≡ is_it c)
      → Accounts (open_calls s) (end_job s w found outcome)
  unfolding end_job open_calls
  end_job-Accounts s w (none, js) outcome h k = omega arith
  end_job-Accounts s w (some c, js) outcome h k =
      omega (arith, h, k c, release_calls (record s { jobs = js }) w)

  give_up-Accounts :
      (s : WorkerPool) (workers : Table ℕ ℕ) → Accounts (open_calls s) (give_up s workers)
  unfolding give_up
  give_up-Accounts s [] = reject_all_waiters-Accounts s workers_died
  give_up-Accounts s (x ∷ xs) = omega arith

  respawn-Accounts : (s : WorkerPool) (id : ℕ) → Accounts (open_calls s) (respawn s id)
  unfolding respawn open_calls
  respawn-Accounts s id =
      let n = count_of (Map.get s.respawn_counts id) in
      let s' = record s { respawn_counts = Map.set s.respawn_counts id (n + 1) } in
      choose-Accounts (ltb n s.max_respawns) (open_calls s) (spawn s' id, []) (give_up s s.workers)
        (omega (arith, spawn_calls s' id)) (give_up-Accounts s s.workers)

  leave-Accounts : (s : WorkerPool) (w id : ℕ) → Accounts (open_calls s) (leave s w id)
  unfolding leave open_calls
  leave-Accounts s w id =
      choose-Accounts s.terminated _ _ _ (omega arith)
        (respawn-Accounts (record s { workers = _; idle_workers = _ }) id)

  exit_event-Accounts :
      (s : WorkerPool) (w : ℕ) (found : Option ℕ) → Accounts (open_calls s) (exit_event s w found)
  unfolding exit_event
  exit_event-Accounts s w none = omega arith
  exit_event-Accounts s w (some id) =
      let r = leave s w id in
      let f = take_job r.0.jobs w in
      let e = end_job r.0 w f (λ c. rejected c worker_exited) in
      omega (
        arith,
        leave-Accounts s w id,
        end_job-Accounts r.0 w f (λ c. rejected c worker_exited) (take_job-sum r.0.jobs w)
            (λ c. unfold settlements in refl),
        sum_list-append settlements r.1 e.1,
      )

  step-Accounts : (s : WorkerPool) (e : Event) → Accounts (open_calls s + made (e ∷ [])) (step s e)
  unfolding step made settlements
  step-Accounts s (calls c) = omega (arith, acquire-Accounts s c)
  step-Accounts s (answers w) =
      omega (
        arith,
        end_job-Accounts s w (take_job s.jobs w) resolved (take_job-sum s.jobs w) (λ c. refl),
      )
  step-Accounts s (errors w) = omega (
    arith,
    end_job-Accounts s w (take_job s.jobs w) (λ c. rejected c worker_error) (take_job-sum s.jobs w)
        (λ c. refl),
  )
  step-Accounts s (exits w) = omega (arith, exit_event-Accounts s w (Map.get s.workers w))
  step-Accounts s terminate =
      unfold open_calls in
      omega (arith, reject_all_waiters-Accounts (record s { terminated = true }) pool_terminated)
  step-Accounts s terminated_all =
      unfold open_calls in
      choose-Accounts s.terminated _ (record s { workers = []; idle_workers = [] }, []) (s, [])
        (omega arith) (omega arith)

  made-cons : (e : Event) (es : List Event) → made (e ∷ es) ≡ made (e ∷ []) + made es
  unfolding made
  made-cons (calls c) es = omega arith
  made-cons (answers w) es = omega arith
  made-cons (errors w) es = omega arith
  made-cons (exits w) es = omega arith
  made-cons terminate es = omega arith
  made-cons terminated_all es = omega arith

  run-Accounts : (es : List Event) (s : WorkerPool) → Accounts (open_calls s + made es) (run s es)
  unfolding run
  run-Accounts [] s = unfold made in omega arith
  run-Accounts (e ∷ es) s =
      let r = step s e in
      omega (
        arith,
        step-Accounts s e,
        run-Accounts es r.0,
        made-cons e es,
        sum_list-append settlements r.1 (run r.0 es).1,
      )

  -- From the constructor on, whatever the threads do and in whatever order, each call has been settled,
  -- waits, or has a job, as often as it was made.
  pub calls-are_settled_once :
      (worker_count max_respawns : ℕ) (es : List Event)
      → let r = run (init worker_count max_respawns) es in
        open_calls r.0 + sum_list settlements r.1 ≡ made es
  unfolding init
  calls-are_settled_once worker_count max_respawns es =
      let s = empty max_respawns in
      let z : open_calls s ≡ 0 = unfold empty open_calls in omega arith in
      omega
        (arith, z, spawn_all_calls 0 worker_count s, run-Accounts es (spawn_all 0 worker_count s))
