-- ===== src/Tests/Workers.antt =====
-- Runs of src/consumers/worker-pool.js: two workers, one respawn each.
use rabbitmq.Base.{◌+◌, ◌≡◌, refl, false, List, [], ◌∷◌, ident_ℕ, ℕ_discrete}
use rabbitmq.Base.Map
use rabbitmq.Base.Tally.{sum_list}
use rabbitmq.Consumers.Workers.{
  WorkerPool, resolved, rejected, Event, calls, answers, errors, exits, terminate, worker_error,
  worker_exited, run, init, empty, spawn_all, spawn, release, hand_over, step, acquire, assign,
  wait, take_idle, take_job, end_job, exit_event, leave, remove, respawn, give_up,
  reject_all_waiters, reject_all,
}
use rabbitmq.Consumers.Workers.Calls.{open_calls, settlements, made, calls-are_settled_once}
use rabbitmq.Consumers.Workers.Bookkeeping.{Inv}
use rabbitmq.Consumers.Workers.Bookkeeping.Placed.{Placed, reachable_pool-Placed}

abbrev crash : List Event
crash = calls 1 ∷ calls 2 ∷ calls 3 ∷ answers 1 ∷ errors 0 ∷ exits 0 ∷ terminate ∷ exits 1 ∷ []

run-crash :
    (run (init 2 1) crash).1 ≡ resolved 2 ∷ rejected 1 worker_error ∷ rejected 3 worker_exited ∷ []
unfolding run init empty spawn_all spawn release hand_over step acquire assign wait take_idle
    take_job end_job exit_event leave remove respawn give_up reject_all_waiters reject_all Map.get
    Map.set Map.delete ℕ_discrete
run-crash = refl

calls-are_settled_once_example :
    let r = run (init 2 1) crash in open_calls 3 r.0 + sum_list (settlements 3) r.1 ≡ made 3 crash
calls-are_settled_once_example = calls-are_settled_once 3 2 1 crash

reachable_pool-Placed_example : let s = (run (init 2 1) crash).0 in Inv s × Placed s
reachable_pool-Placed_example = reachable_pool-Placed 2 1 crash

abbrev busy : WorkerPool
busy = record {
  max_respawns = 1;
  workers = (0, 0) ∷ [];
  idle_workers = [];
  waiters = 8 ∷ [];
  respawn_counts = [];
  terminated = false;
  jobs = record { call = 7; worker = 0 } ∷ [];
  next = 1;
}
