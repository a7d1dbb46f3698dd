-- ===== src/Consumers/Workers.antt =====
-- src/consumers/worker-pool.js. Worker threads are known by their serial number, in the order of their
-- creation, and calls of `run` by a number of theirs. What a thread does (a message, an 'error', an
-- 'exit') is an event. A promise that is resolved with a worker starts its job at once.
pub mod Bookkeeping
pub mod Calls
pub mod Handover
use rabbitmq.Base.{
  ℕ, zero, suc, ◌+◌, Bool, true, false, Option, none, some, ltb, ◌==◌, if◌then◌else◌, Table,
  ident_ℕ, List, [], ◌∷◌, ◌++◌,
}
use rabbitmq.Base.Map

pub record Job : Type 0 where
  pub call : ℕ
  pub worker : ℕ

pub record WorkerPool : Type 0 where
  pub max_respawns : ℕ
  pub workers : Table ℕ ℕ  -- the worker id of each that is alive
  pub idle_workers : List ℕ
  pub waiters : List ℕ
  pub respawn_counts : Table ℕ ℕ
  pub terminated : Bool
  pub jobs : List Job
  pub next : ℕ  -- the serial number of the next thread

pub data Reason : Type 0 where
  pool_terminated workers_died worker_error worker_exited : Reason

pub data Settled : Type 0 where
  resolved : ℕ → Settled
  rejected : ℕ → Reason → Settled

pub data Event : Type 0 where
  calls : ℕ → Event
  answers : ℕ → Event
  errors : ℕ → Event
  exits : ℕ → Event
  terminate : Event
  terminated_all : Event

abbrev pub Result : Type 0
Result = WorkerPool × List Settled

abbrev pub is_alive : Option ℕ → Bool
is_alive none = false
is_alive (some id) = true

-- A worker that is free goes to the first waiter, or to the end of the idle ones.
unfoldable pub hand_over : WorkerPool → ℕ → List ℕ → WorkerPool
hand_over s w [] = record s { idle_workers = s.idle_workers ++ (w ∷ []) }
hand_over s w (c ∷ cs) = record s { waiters = cs; jobs = record { call = c; worker = w } ∷ s.jobs }

unfoldable pub release : WorkerPool → ℕ → WorkerPool
unfolding hand_over
release s w = if is_alive (Map.get s.workers w) then hand_over s w s.waiters else s

unfoldable pub spawn : WorkerPool → ℕ → WorkerPool
unfolding release
spawn s id = release (record s { workers = Map.set s.workers s.next id; next = s.next + 1 }) s.next

-- The constructor's loop, from a worker id on.
unfoldable pub spawn_all : ℕ → ℕ → WorkerPool → WorkerPool
unfolding spawn
spawn_all id zero s = s
spawn_all id (suc n) s = spawn_all (id + 1) n (spawn s id)

unfoldable pub empty : ℕ → WorkerPool
empty max_respawns = record {
  max_respawns = max_respawns;
  workers = [];
  idle_workers = [];
  waiters = [];
  respawn_counts = [];
  terminated = false;
  jobs = [];
  next = 0;
}

unfoldable pub init : ℕ → ℕ → WorkerPool
unfolding spawn_all empty
init worker_count max_respawns = spawn_all 0 worker_count (empty max_respawns)

unfoldable pub reject_all : Reason → List ℕ → List Settled
reject_all r [] = []
reject_all r (c ∷ cs) = rejected c r ∷ reject_all r cs

unfoldable pub reject_all_waiters : WorkerPool → Reason → Result
unfolding reject_all
reject_all_waiters s r = (record s { waiters = [] }, reject_all r s.waiters)

-- The loop of `#acquire`: the first idle worker that is alive, and what is left of the idle ones.
unfoldable pub take_idle : Table ℕ ℕ → List ℕ → Option ℕ × List ℕ
take_idle workers [] = (none, [])
take_idle workers (w ∷ ws) =
    let rest = take_idle workers ws in if is_alive (Map.get workers w) then (some w, ws) else rest

-- `run` up to its job, or to its place among the waiters.
unfoldable pub wait : WorkerPool → ℕ → Table ℕ ℕ → Result
wait s c [] = (s, rejected c workers_died ∷ [])
wait s c (x ∷ xs) = (record s { waiters = s.waiters ++ (c ∷ []) }, [])

unfoldable pub assign : WorkerPool → ℕ → Option ℕ → Result
unfolding wait
assign s c (some w) = (record s { jobs = record { call = c; worker = w } ∷ s.jobs }, [])
assign s c none = wait s c s.workers

unfoldable pub acquire : WorkerPool → ℕ → Result
unfolding take_idle assign
acquire s c =
    if s.terminated
    then (s, rejected c pool_terminated ∷ [])
    else (let (found, idle) = take_idle s.workers s.idle_workers in
        assign (record s { idle_workers = idle }) c found)

-- The job of a worker, and the other jobs.
unfoldable pub take_job : List Job → ℕ → Option ℕ × List Job
take_job [] w = (none, [])
take_job (j ∷ js) w =
    let (found, rest) = take_job js w in
    if j.worker == w then (some j.call, js) else (found, j ∷ rest)

-- A 'message' or an 'error' of a worker: its job is settled, and the worker is released.
unfoldable pub end_job : WorkerPool → ℕ → Option ℕ × List Job → (ℕ → Settled) → Result
unfolding release
end_job s w (none, js) outcome = (s, [])
end_job s w (some c, js) outcome = (release (record s { jobs = js }) w, outcome c ∷ [])

unfoldable pub remove : List ℕ → ℕ → List ℕ
remove [] w = []
remove (v ∷ ws) w = let rest = remove ws w in if v == w then ws else v ∷ rest

abbrev pub count_of : Option ℕ → ℕ
count_of none = 0
count_of (some n) = n

-- No respawn is left: with the last worker goes the hope of those that wait.
unfoldable pub give_up : WorkerPool → Table ℕ ℕ → Result
unfolding reject_all_waiters
give_up s [] = reject_all_waiters s workers_died
give_up s (x ∷ xs) = (s, [])

unfoldable pub respawn : WorkerPool → ℕ → Result
unfolding spawn give_up
respawn s id =
    let n = count_of (Map.get s.respawn_counts id) in
    if ltb n s.max_respawns
    then (spawn (record s { respawn_counts = Map.set s.respawn_counts id (n + 1) }) id, [])
    else give_up s s.workers

-- The 'exit' listener of the pool, and then that of the job. The release that follows does nothing,
-- since the worker has left the pool.
unfoldable pub leave : WorkerPool → ℕ → ℕ → Result
unfolding remove respawn
leave s w id =
    let s' = record s {
      workers = Map.delete s.workers w;
      idle_workers = remove s.idle_workers w;
    } in
    if s.terminated then (s', []) else respawn s' id

unfoldable pub exit_event : WorkerPool → ℕ → Option ℕ → Result
unfolding leave take_job end_job
exit_event s w none = (s, [])
exit_event s w (some id) =
    let (s', out) = leave s w id in
    let (s'', out') = end_job s' w (take_job s'.jobs w) (λ c. rejected c worker_exited) in
    (s'', out ++ out')

-- `terminate()` up to its `await`, and the rest, for which it has to have begun.
unfoldable pub step : WorkerPool → Event → Result
unfolding acquire take_job end_job exit_event reject_all_waiters
step s (calls c) = acquire s c
step s (answers w) = end_job s w (take_job s.jobs w) resolved
step s (errors w) = end_job s w (take_job s.jobs w) (λ c. rejected c worker_error)
step s (exits w) = exit_event s w (Map.get s.workers w)
step s terminate = reject_all_waiters (record s { terminated = true }) pool_terminated
step s terminated_all =
    if s.terminated then (record s { workers = []; idle_workers = [] }, []) else (s, [])

unfoldable pub run : WorkerPool → List Event → Result
unfolding step
run s [] = (s, [])
run s (e ∷ es) = let (s', out) = step s e in let (s'', out') = run s' es in (s'', out ++ out')
