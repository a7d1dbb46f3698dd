-- ===== src/Consumers/Workers/Bookkeeping.antt =====
-- Which worker is where, in every state that the pool reaches.
pub mod Steps
pub mod Placed
use rabbitmq.Base.{
  ℕ, zero, suc, ◌+◌, ◌-◌, ◌≤◌, ◌<◌, ◌≡◌, refl, Bool, true, false, Option, none, some, ◌==◌, ltb,
  if◌then◌else◌, Table, ident_ℕ, List, [], ◌∷◌, length, arith, ◌⊎◌, inl, inr,
}
use rabbitmq.Base.Map
use rabbitmq.Base.Map.{get-set, get-delete}
use rabbitmq.Base.Tally.{sum_list, sum_list-append}
use rabbitmq.Consumers.Workers.{
  Job, WorkerPool, Settled, resolved, rejected, Event, calls, answers, errors, exits, terminate,
  terminated_all, pool_terminated, worker_error, worker_exited, wait, give_up, count_of, is_alive,
  remove, Result, hand_over, release, spawn, spawn_all, init, empty, reject_all_waiters, take_idle,
  assign, acquire, take_job, end_job, respawn, leave, exit_event, step, run,
}

abbrev pub same : ℕ → ℕ → ℕ
same w v = if v == w then 1 else 0

abbrev pub idle_uses : ℕ → List ℕ → ℕ
idle_uses w ws = sum_list (same w) ws

abbrev pub job_same : ℕ → Job → ℕ
job_same w j = same w j.worker

abbrev pub job_uses : ℕ → List Job → ℕ
job_uses w js = sum_list (job_same w) js

abbrev used : ℕ → Option ℕ → ℕ
used u none = 0
used u (some w) = same u w

abbrev taken : ℕ → ℕ → Option ℕ → ℕ
taken w u none = 0
taken w u (some c) = same u w

-- The part that a worker in transit does not disturb.
pub record Core (s : WorkerPool) : Type 0 where
  pub alive : (w : ℕ) → 0 < idle_uses w s.idle_workers → is_alive (Map.get s.workers w) ≡ true
  pub exclusive : (w : ℕ) → idle_uses w s.idle_workers + job_uses w s.jobs ≤ 1
  pub fresh :
      (w : ℕ)
      → s.next ≤ w
      → (idle_uses w s.idle_workers + job_uses w s.jobs ≡ 0) × (Map.get s.workers w ≡ none)
  pub queued : (s.waiters ≡ []) ⊎ ((s.idle_workers ≡ []) × (s.terminated ≡ false))

-- Whoever waits has a worker to wait for.
abbrev pub Hope : WorkerPool → Type 0
Hope s = (s.waiters ≡ []) ⊎ (0 < length s.workers)

hand_over-Core :
    (s : WorkerPool) (w : ℕ) (ws : List ℕ)
    → s.waiters ≡ ws
    → Core s
    → is_alive (Map.get s.workers w) ≡ true
    → w < s.next
    → idle_uses w s.idle_workers + job_uses w s.jobs ≡ 0
    → Core (hand_over s w ws)
unfolding hand_over
hand_over-Core s w [] e v a n z = record {
  alive = λ u h. ground (arith, v.alive u, sum_list-append (same u) s.idle_workers (w ∷ []));
  exclusive = λ u. ground (arith, v.exclusive u, sum_list-append (same u) s.idle_workers (w ∷ []));
  fresh = λ u h. ground (arith, v.fresh u h, sum_list-append (same u) s.idle_workers (w ∷ []));
  queued = inl e;
}
hand_over-Core s w (c ∷ cs) e v a n z = record {
  alive = λ u h. v.alive u h;
  exclusive = λ u. ground (arith, v.exclusive u);
  fresh = λ u h. ground (arith, v.fresh u h);
  queued = ground (arith, v.queued);
}

when :
    (P : WorkerPool → Type 0) (b : Bool) (x y : WorkerPool)
    → (b ≡ true → P x)
    → P y
    → P (if b then x else y)
when P true x y p q = p refl
when P false x y p q = q

release-Core :
    (s : WorkerPool) (w : ℕ)
    → Core s
    → w < s.next
    → idle_uses w s.idle_workers + job_uses w s.jobs ≡ 0
    → Core (release s w)
unfolding release
release-Core s w v n z =
    when Core (is_alive (Map.get s.workers w)) (hand_over s w s.waiters) s
      (λ a. hand_over-Core s w s.waiters refl v a n z) v

set_nonempty : (t : Table ℕ ℕ) (k v : ℕ) → 0 < length (Map.set t k v)
unfolding Map.set
set_nonempty [] k v = omega arith
set_nonempty ((j, w) ∷ t) k v = ground arith

pub spawn-Core : (s : WorkerPool) (id : ℕ) → Core s → Core (spawn s id)
unfolding spawn
spawn-Core s id v =
    let s' = record s { workers = Map.set s.workers s.next id; next = s.next + 1 } in
    let f = v.fresh s.next (omega arith) in
    release-Core s' s.next
      (record {
        alive = λ w h. ground (arith, v.alive w h, get-set s.workers s.next w id);
        exclusive = v.exclusive;
        fresh = λ w h. ground (arith, v.fresh w (omega arith), get-set s.workers s.next w id);
        queued = v.queued;
      })
      (omega arith) f.0

release_workers : (s : WorkerPool) (w : ℕ) → (release s w).workers ≡ s.workers
unfolding release
release_workers s w =
    when (λ t. t.workers ≡ s.workers) _ _ s (λ _. hand_over_workers s.waiters) refl
  where
    hand_over_workers : (ws : List ℕ) → (hand_over s w ws).workers ≡ s.workers
    hand_over_workers [] = unfold hand_over in refl
    hand_over_workers (c ∷ cs) = unfold hand_over in refl

spawn-Hope : (s : WorkerPool) (id : ℕ) → Hope (spawn s id)
unfolding spawn
spawn-Hope s id =
    let s' = record s { workers = Map.set s.workers s.next id; next = s.next + 1 } in
    inr (rw (release_workers s' s.next) (set_nonempty s.workers s.next id))

hand_over-Hope :
    (s : WorkerPool) (w : ℕ) (ws : List ℕ) → s.waiters ≡ ws → Hope s → Hope (hand_over s w ws)
unfolding hand_over
hand_over-Hope s w [] e h = h
hand_over-Hope s w (c ∷ cs) e h = ground (arith, h)

release-Hope : (s : WorkerPool) (w : ℕ) → Hope s → Hope (release s w)
unfolding release
release-Hope s w h =
    when Hope (is_alive (Map.get s.workers w)) (hand_over s w s.waiters) s
      (λ _. hand_over-Hope s w s.waiters refl h) h

abbrev pub Inv : WorkerPool → Type 0
Inv s = Core s × Hope s
