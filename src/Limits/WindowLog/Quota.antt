-- ===== src/Limits/WindowLog/Quota.antt =====
-- What the window log grants in any window of time, over any history of calls, from one reset to the next.
use mathlib.Core.Path.{fun_ext}
use rabbitmq.Base.{
  ℕ, ◌+◌, ◌≤◌, ◌≡◌, refl, sym, ap, Option, none, some, List, [], ◌∷◌, ◌++◌, Ident, if_pos, if_neg,
  ltb, Bool-cases, inl, inr,
}
use rabbitmq.Limits.WindowLog.{WindowLog, init}
use rabbitmq.Limits.WindowLog.Reference.{
  recent, sum_cost, History, Op, occupies, reads, cleans, resets, clears, step, note, ideal_step,
}
use rabbitmq.Limits.WindowLog.Follows.{Follows-later}
use rabbitmq.Limits.WindowLog.Refine.{Tracks, step-Agree, IsOrdered, init-Tracks}

module _ {K : Type 0} ⦃i : Ident K⦄ where
  -- The entries that have been granted to each key since its last reset, by the answers alone.
  unfoldable pub grants : History K → ℕ → Op K → Option ℕ → History K
  grants h now (occupies key cost) (some before) =
      note h key (h key ++ (record { timestamp = now; cost = cost } ∷ []))
  grants h now (occupies key cost) none = h
  grants h now (reads key) answer = h
  grants h now cleans answer = h
  grants h now (resets key) answer = note h key []
  grants h now clears answer = λ k. []

  -- Those that a history of calls leaves, and the time of the last one.
  unfoldable pub granted : WindowLog K → History K → List (ℕ × Op K) → History K
  granted s h [] = h
  granted s h ((now, op) ∷ ops) =
      let (s', answer) = step s now op in granted s' (grants h now op answer) ops

  unfoldable pub last_time : ℕ → List (ℕ × Op K) → ℕ
  last_time last [] = last
  last_time last ((now, op) ∷ ops) = last_time now ops

  note_self : (h : History K) (key k : K) → note h key (h key) k ≡ h k
  unfolding note
  note_self h key k = elim (i.same key k) [
    | yes p ↦ rw (if_pos _ p) (ap h p)
    | no p ↦ rw (if_neg _ p)
  ]

  grants-ideal_step :
      (limit w : ℕ) (h : History K) (now : ℕ) (op : Op K)
      → grants h now op (ideal_step limit w h now op).1 ≡ (ideal_step limit w h now op).0
  unfolding grants ideal_step
  grants-ideal_step limit w h now (occupies key cost) =
      elim (Bool-cases (ltb limit (sum_cost (recent w now (h key)) + cost))) [
        | inl full ↦ rw full (sym (fun_ext (note_self h key)))
        | inr room ↦ rw room
      ]
  grants-ideal_step limit w h now (reads key) = refl
  grants-ideal_step limit w h now cleans = refl
  grants-ideal_step limit w h now (resets key) = refl
  grants-ideal_step limit w h now clears = refl

  granted-within :
      (limit w last t : ℕ) (s : WindowLog K) (h : History K) (ops : List (ℕ × Op K)) (k : K)
      → Tracks limit w last s h
      → IsOrdered last ops
      → last_time last ops ≤ t
      → sum_cost (recent w t (granted s h ops k)) ≤ limit
  unfolding granted last_time
  granted-within limit w last t s h [] k r o b =
      (Follows-later w limit last t _ (h k) (r.follows k) b).within
  granted-within limit w last t s h ((now, op) ∷ ops) k r o b =
      let a = step-Agree limit w last now s h op r o.0 in
      rw (a.0, grants-ideal_step)
        (granted-within limit w now t (step s now op).0 (ideal_step limit w h now op).0 ops k a.1
          o.1 b)

  -- From an empty log, over calls of all kinds in order of time: the entries that have been granted to a
  -- key since it was last reset (or all were cleared) and that lie in the window at any later time cost
  -- at most `limit` together.
  pub granted-le-limit :
      (limit w t : ℕ) (ops : List (ℕ × Op K)) (k : K)
      → IsOrdered 0 ops
      → last_time 0 ops ≤ t
      → sum_cost (recent w t (granted (init limit w) (λ j. []) ops k)) ≤ limit
  granted-le-limit limit w t ops k o b =
      granted-within limit w 0 t (init limit w) (λ j. []) ops k (init-Tracks limit w) o b
