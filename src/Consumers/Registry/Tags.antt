-- ===== src/Consumers/Registry/Tags.antt =====
-- What the tags of src/consumers/consumer-manager.js are good for.
use rabbitmq.Base.{
  ℕ, ◌≡◌, ◌≢◌, ◌⊎◌, refl, false, Option, none, some, ident_ℕ, List, [], ◌∷◌, ◌++◌, arith,
  Option-cases, inl, inr,
}
use rabbitmq.Base.Map
use rabbitmq.Base.Map.{get-delete}
use rabbitmq.Consumers.Registry.{
  Consumer, Removal, Manager, Event, drained, init, find_consumer_id_by_tag, find_queue_name,
  find_queue_name_by_tag, queue_of, remove,
}
use rabbitmq.Consumers.Registry.Steps.{drain_step, step, run}
use rabbitmq.Consumers.Registry.Handles.{Inv}
use rabbitmq.Consumers.Registry.Handles.Reachable.{step-Good, run-Good, init-Inv}

run-append : (es fs : List Event) (s : Manager) → (run s (es ++ fs)).0 ≡ (run (run s es).0 fs).0
unfolding run
run-append [] fs s = refl
run-append (e ∷ es) fs s = run-append es fs (step s e).0

finds-queue :
    (s : Manager) (o : Option ℕ) (tag : ℕ)
    → Map.get s.consumers_by_tag tag ≡ o
    → Inv s
    → find_queue_name s o ≢ none
unfolding find_queue_name
finds-queue s none tag e v = λ h. cc
finds-queue s (some id) tag e v =
    let w = v.tags tag id e in has_queue (Map.get s.active_consumers id) w.0
  where
    has_queue : (o : Option Consumer) → o ≢ none → queue_of o ≢ none
    has_queue none n = absurd (n refl)
    has_queue (some q) n = unfold queue_of in λ h. cc

-- Whatever happens from the constructor on, in whatever order: a tag that leads to a consumer leads to
-- one that is registered, so that findQueueNameByTag never throws; and as long as that consumer is
-- registered, whatever happens next, the tag leads to it.
pub tags-are_handles :
    (es fs : List Event) (tag id : ℕ)
    → find_consumer_id_by_tag (run init es).0 tag ≡ some id
    → let t = (run init (es ++ fs)).0 in
      (find_queue_name_by_tag (run init es).0 tag ≢ none)
      × ((find_consumer_id_by_tag t tag ≡ some id) ⊎ (Map.get t.active_consumers id ≡ none))
unfolding find_consumer_id_by_tag find_queue_name_by_tag
tags-are_handles es fs tag id h =
    let s = (run init es).0 in
    let a = run-Good es init init-Inv in
    let b = run-Good fs s a.0 in
    (
      finds-queue s (Map.get s.consumers_by_tag tag) tag refl a.0,
      rw (run-append es fs init) (elim (Option-cases (Map.get (run s fs).0.active_consumers id)) [
        | inl e ↦ inr e
        | inr (q, e) ↦ inl (b.1.handles tag id h (ground (arith, e)))
      ]),
    )

absent-untagged :
    (t : Manager) (id tag : ℕ)
    → Inv t
    → Map.get t.active_consumers id ≡ none
    → Map.get t.consumers_by_tag tag ≢ some id
absent-untagged t id tag v e h = let w = v.tags tag id h in w.0 e

drained_gone :
    (s : Manager) (d : ℕ) (o : Option Removal) (m : Removal)
    → o ≡ some m
    → m.is_cancelling ≡ false
    → Map.get (drain_step s d o).0.active_consumers m.consumer ≡ none
unfolding drain_step remove
drained_gone s d none m e h = cc
drained_gone s d (some n) m e h =
    ground (arith, get-delete s.active_consumers n.consumer m.consumer)

-- A consumer whose removal comes to its end (after unsubscribe, a subscribe that failed, or a recovery
-- that gave up) is gone for good: whatever follows, set-ups that were in flight included, it is not
-- registered and no tag leads to it.
pub removed-is_gone :
    (es fs : List Event) (d tag : ℕ) (m : Removal)
    → Map.get (run init es).0.removals d ≡ some m
    → m.is_cancelling ≡ false
    → Map.get (run init es).0.active_consumers m.consumer ≢ none
    → let t = (run (step (run init es).0 (drained d)).0 fs).0 in
      (Map.get t.active_consumers m.consumer ≡ none)
      × (find_consumer_id_by_tag t tag ≢ some m.consumer)
unfolding find_consumer_id_by_tag
removed-is_gone es fs d tag m h c n =
    let s = (run init es).0 in
    let u = (step s (drained d)).0 in
    let a = run-Good es init init-Inv in
    let b = step-Good s (drained d) a.0 in
    let f = run-Good fs u b.0 in
    let k = a.0.known m.consumer n in
    let g : Map.get u.active_consumers m.consumer ≡ none =
      unfold step in drained_gone s d (Map.get s.removals d) m h c in
    let e = f.1.gone m.consumer (omega (arith, k, b.1.grows)) g in
    (e, absent-untagged (run u fs).0 m.consumer tag f.0 e)
