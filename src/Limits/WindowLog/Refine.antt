-- ===== src/Limits/WindowLog/Refine.antt =====
-- Front eviction with a running total answers as the filtered and summed log does, over any
-- history of calls.
use rabbitmq.Base.{
  ℕ, ◌-◌, ◌≤◌, ◌≡◌, refl, sym, ap, none, some, List, [], ◌∷◌, Ident, if_pos, if_neg, arith, inl,
  inr, Option-cases,
}
use rabbitmq.Base.Map
use rabbitmq.Base.Map.{
  get-set, get-delete, get-sweep, set-IsDistinct, delete-IsDistinct, sweep-IsDistinct,
}
use rabbitmq.Limits.WindowLog.{
  Entry, Log, WindowLog, init, evict_from, evict_expired, window_for, occupy, remaining, cleanup,
  reset, clear,
}
use rabbitmq.Limits.WindowLog.Reference.{
  recent, sum_cost, History, Op, occupies, reads, cleans, resets, clears, step, note, ideal_step,
  ideal_run, run,
}
use rabbitmq.Limits.WindowLog.Follows.{
  Follows, Follows-later, evict_expired-Follows, evicted-Follows, enter-Follows, kept-Follows,
}

empty-Follows : (w limit now : ℕ) → Follows w limit now none []
unfolding window_for recent sum_cost
empty-Follows w limit now = record {
  timed = omega arith;
  summed = refl;
  same = refl;
  within = omega arith;
}

module _ {K : Type 0} ⦃i : Ident K⦄ where
  pub record Tracks (limit w last : ℕ) (s : WindowLog K) (h : History K) : Type 0 where
    pub limits : s.limit ≡ limit
    pub windows : s.window_ms ≡ w
    pub distinct : Map.IsDistinct s.windows
    pub follows : (k : K) → Follows w limit last (Map.get s.windows k) (h k)

  -- One key's log is written; the others stand.
  set-Follows :
      (w limit last now : ℕ) (t : Map.Table K Log) (h : History K) (key k : K) (log : Log)
      (granted : List Entry)
      → last ≤ now
      → ((j : K) → Follows w limit last (Map.get t j) (h j))
      → Follows w limit now (some log) granted
      → Follows w limit now (Map.get (Map.set t key log) k) (note h key granted k)
  unfolding note
  set-Follows w limit last now t h key k log granted b f g =
      rw (get-set t key k log) (elim (i.same key k) [
        | yes p ↦ rw (if_pos _ p, if_pos _ p) g
        | no p ↦ rw (if_neg _ p, if_neg _ p) (Follows-later w limit last now _ _ (f k) b)
      ])

  -- The step of the model and that of the reference, from states that agree.
  abbrev pub Agree : ℕ → ℕ → ℕ → WindowLog K → History K → Op K → Type 0
  Agree limit w now s h op =
      let (s', answer) = step s now op in
      let (h', ideal) = ideal_step limit w h now op in (answer ≡ ideal) × Tracks limit w now s' h'

  module _ (limit w last now : ℕ) (s : WindowLog K) (h : History K) (t : Tracks limit w last s h)
      (b : last ≤ now) where
    occupy-Agree : (key : K) (cost : ℕ) → Agree limit w now s h (occupies key cost)
    unfolding step occupy ideal_step
    occupy-Agree key cost =
        let f =
          enter-Follows w limit last now cost (Map.get s.windows key) (h key) (t.follows key) b in
        (
          rw (t.limits, t.windows) f.0,
          record {
            limits = t.limits;
            windows = t.windows;
            distinct = set-IsDistinct s.windows key _ t.distinct;
            follows =
                rw (t.limits, t.windows)
                  (λ k. set-Follows w limit last now s.windows h key k _ _ b t.follows f.1);
          },
        )

    untouched : Tracks limit w now s h
    untouched = record {
      limits = t.limits;
      windows = t.windows;
      distinct = t.distinct;
      follows = λ k. Follows-later w limit last now _ _ (t.follows k) b;
    }

    -- An answer read from a log that follows the history.
    total-evicted :
        (key : K) (log : Log)
        → Map.get s.windows key ≡ some log
        → (evict_expired w now log).total ≡ sum_cost (recent w now (h key))
    unfolding window_for
    total-evicted key log e =
        ap (λ (l : Log). l.total)
          (evict_expired-Follows w limit last now (some log) (h key) (rw e at (t.follows key)) b)

    remains-fresh : (key : K) → Map.get s.windows key ≡ none → sum_cost (recent w now (h key)) ≡ 0
    unfolding window_for evict_expired evict_from
    remains-fresh key e = sym (
        ap (λ (l : Log). l.total)
          (evict_expired-Follows w limit last now none (h key) (rw e at (t.follows key)) b))

    rewritten-Follows :
        (key k : K) (log : Log)
        → Map.get s.windows key ≡ some log
        → Follows w limit now (Map.get (Map.set s.windows key (evict_expired w now log)) k) (h k)
    unfolding window_for
    rewritten-Follows key k log e = rw (get-set s.windows key k _) (elim (i.same key k) [
      | yes p ↦
          rw (if_pos _ p, ← p)
            (evicted-Follows w limit last now (some log) (h key) (rw e at (t.follows key)) b)
      | no p ↦ rw (if_neg _ p) (Follows-later w limit last now _ _ (t.follows k) b)
    ])

    reads-Agree : (key : K) → Agree limit w now s h (reads key)
    unfolding step remaining ideal_step
    reads-Agree key = elim (Option-cases (Map.get s.windows key)) [
      | inl e ↦
          rw (e, remaining) (ap some (omega (arith, t.limits, remains-fresh key e)), untouched)
      | inr (log, e) ↦
          rw (e, remaining)
            (
              rw (t.limits, t.windows) (ap (λ n. some (limit - n)) (total-evicted key log e)),
              record {
                limits = t.limits;
                windows = t.windows;
                distinct = set-IsDistinct s.windows key _ t.distinct;
                follows = rw t.windows (λ k. rewritten-Follows key k log e);
              },
            )
    ]

    cleans-Agree : Agree limit w now s h cleans
    unfolding step cleanup ideal_step
    cleans-Agree = (
      refl,
      record {
        limits = t.limits;
        windows = t.windows;
        distinct = sweep-IsDistinct _ s.windows t.distinct;
        follows = λ k.
            rw (get-sweep _ s.windows k t.distinct, t.windows)
              (kept-Follows w limit last now (Map.get s.windows k) (h k) (t.follows k) b);
      },
    )

    resets-Agree : (key : K) → Agree limit w now s h (resets key)
    unfolding step reset ideal_step note
    resets-Agree key = (
      refl,
      record {
        limits = t.limits;
        windows = t.windows;
        distinct = delete-IsDistinct s.windows key t.distinct;
        follows = λ k. rw (get-delete s.windows key k) (elim (i.same key k) [
          | yes p ↦ rw (if_pos _ p) (rw (if_pos _ p) (empty-Follows w limit now))
          | no p ↦
              rw (if_neg _ p) (rw (if_neg _ p) (Follows-later w limit last now _ _ (t.follows k) b))
        ]);
      },
    )

    clears-Agree : Agree limit w now s h clears
    unfolding step clear ideal_step Map.get
    clears-Agree = (
      refl,
      record {
        limits = t.limits;
        windows = t.windows;
        distinct = tt;
        follows = λ k. empty-Follows w limit now;
      },
    )

  pub step-Agree :
      (limit w last now : ℕ) (s : WindowLog K) (h : History K) (op : Op K)
      → Tracks limit w last s h
      → last ≤ now
      → Agree limit w now s h op
  step-Agree limit w last now s h (occupies key cost) t b =
      occupy-Agree limit w last now s h t b key cost
  step-Agree limit w last now s h (reads key) t b = reads-Agree limit w last now s h t b key
  step-Agree limit w last now s h cleans t b = cleans-Agree limit w last now s h t b
  step-Agree limit w last now s h (resets key) t b = resets-Agree limit w last now s h t b key
  step-Agree limit w last now s h clears t b = clears-Agree limit w last now s h t b

  -- Calls in order of time.
  abbrev pub IsOrdered : ℕ → List (ℕ × Op K) → Type 0
  IsOrdered last [] = Unit
  IsOrdered last ((now, op) ∷ ops) = (last ≤ now) × IsOrdered now ops

  run-Tracks :
      (limit w last : ℕ) (s : WindowLog K) (h : History K) (ops : List (ℕ × Op K))
      → Tracks limit w last s h
      → IsOrdered last ops
      → run s ops ≡ ideal_run limit w h ops
  unfolding run ideal_run
  run-Tracks limit w last s h [] t o = refl
  run-Tracks limit w last s h ((now, op) ∷ ops) t o =
      let a = step-Agree limit w last now s h op t o.0 in
      cc (a.0, run-Tracks limit w now (step s now op).0 (ideal_step limit w h now op).0 ops a.1 o.1)

  pub init-Tracks : (limit w : ℕ) → Tracks limit w 0 (init limit w) (λ k. [])
  unfolding init Map.get
  init-Tracks limit w = record {
    limits = refl;
    windows = refl;
    distinct = tt;
    follows = λ k. empty-Follows w limit 0;
  }

  -- From an empty log, calls of all kinds in order of time get the answers of the reference.
  pub run-ideal_run :
      (limit w : ℕ) (ops : List (ℕ × Op K))
      → IsOrdered 0 ops
      → run (init limit w) ops ≡ ideal_run limit w (λ k. []) ops
  run-ideal_run limit w ops o = run-Tracks limit w 0 _ _ ops (init-Tracks limit w) o
