-- ===== src/Consumers/Sequential.antt =====
-- src/consumers/sequential-processor.js. The handler is asynchronous: a call in flight is a task, and
-- its outcome is an event. What a call of `#processDependents` has left of its loop waits with the task
-- of the dependent that it is on; the loops of nested calls do nothing after their last turn, so what
-- they have left is one list.
pub mod Settlement
pub mod Expiry
use rabbitmq.Base.{
  ℕ, zero, suc, ◌+◌, ◌-◌, Bool, true, false, not, ◌||◌, Option, none, some, ltb, ◌==◌,
  if◌then◌else◌, Table, ident_ℕ, List, [], ◌∷◌, ◌++◌,
}
use rabbitmq.Base.Map

-- `tag` tells deliveries apart. An empty id or header is one left out.
pub record Delivery : Type 0 where
  pub tag : ℕ
  pub message_id : Option ℕ
  pub depends_on : Option ℕ

pub record Parked : Type 0 where
  pub message : Delivery
  pub depends_on : ℕ
  pub queued_at : ℕ

pub record Task : Type 0 where
  pub message : Delivery
  pub start_time : ℕ
  pub dependents : List ℕ  -- what the loop that released it has left

pub record SequentialProcessor : Type 0 where
  pub stale_timeout : ℕ
  pub processing : Table ℕ ℕ  -- start times
  pub pending : Table ℕ Parked
  pub pending_by_dependency : Table ℕ (List ℕ)
  pub running : List Task

pub data Failure : Type 0 where
  handler_failed dependency_never_resolved : Failure

-- Calls of `onSuccess` (with its `duplicate`) and of `onFailure` (with its `requeue`).
pub data Settled : Type 0 where
  succeeded : Delivery → Bool → Settled
  failed : Delivery → Failure → Bool → Settled

pub data Event : Type 0 where
  arrives : Delivery → ℕ → Event
  handler_settles : ℕ → Bool → ℕ → Event
  sweeps : ℕ → Event

abbrev pub Result : Type 0
Result = SequentialProcessor × List Settled

unfoldable pub init : ℕ → SequentialProcessor
init stale_timeout = record {
  stale_timeout = if stale_timeout == 0 then 30000 else stale_timeout;
  processing = [];
  pending = [];
  pending_by_dependency = [];
  running = [];
}

abbrev pub has {ℓ} : {V : Type ℓ} → Option V → Bool
has none = false
has (some v) = true

abbrev pub dependents_of : Option (List ℕ) → List ℕ
dependents_of none = []
dependents_of (some ids) = ids

-- A `Set`: `add` keeps an id that is there.
unfoldable pub add : List ℕ → ℕ → List ℕ
add [] id = id ∷ []
add (j ∷ ids) id = if j == id then j ∷ ids else j ∷ add ids id

unfoldable pub remove : List ℕ → ℕ → List ℕ
remove [] id = []
remove (j ∷ ids) id = let rest = remove ids id in if j == id then rest else j ∷ rest

unfoldable pub index_pending : SequentialProcessor → ℕ → ℕ → SequentialProcessor
index_pending s id dependency =
    let ids = dependents_of (Map.get s.pending_by_dependency dependency) in
    record s { pending_by_dependency = Map.set s.pending_by_dependency dependency (add ids id) }

-- An index entry that becomes empty goes.
unfoldable pub drop_dependent : Table ℕ (List ℕ) → ℕ → List ℕ → Table ℕ (List ℕ)
drop_dependent t dependency [] = Map.delete t dependency
drop_dependent t dependency (id ∷ ids) = Map.set t dependency (id ∷ ids)

unfoldable pub remove_pending : SequentialProcessor → ℕ → ℕ → SequentialProcessor
unfolding drop_dependent
remove_pending s id dependency = record s {
  pending = Map.delete s.pending id;
  pending_by_dependency = elim (Map.get s.pending_by_dependency dependency) [
    | none ↦ s.pending_by_dependency
    | some ids ↦ drop_dependent s.pending_by_dependency dependency (remove ids id)
  ];
}

-- The guard of `handle`: the id and the dependency of a message that has to wait.
unfoldable pub waits_for : SequentialProcessor → Option ℕ → Option ℕ → Option (ℕ × ℕ)
waits_for s (some id) (some dependency) =
    if has (Map.get s.processing dependency) || has (Map.get s.pending dependency)
    then some (id, dependency)
    else none
waits_for s _ _ = none

-- `#process` up to its `await`.
unfoldable pub mark_processing : Table ℕ ℕ → Option ℕ → ℕ → Table ℕ ℕ
mark_processing t none now = t
mark_processing t (some id) now = Map.set t id now

unfoldable pub unmark_processing : Table ℕ ℕ → Option ℕ → Table ℕ ℕ
unmark_processing t none = t
unmark_processing t (some id) = Map.delete t id

unfoldable pub start : SequentialProcessor → Delivery → ℕ → List ℕ → SequentialProcessor
unfolding mark_processing
start s d now ids = record s {
  processing = mark_processing s.processing d.message_id now;
  running = record { message = d; start_time = now; dependents = ids } ∷ s.running;
}

-- A message that has to wait: it is parked, or it is a duplicate of one that is.
unfoldable pub park : SequentialProcessor → Delivery → ℕ → ℕ → ℕ → Result
unfolding index_pending
park s d now id dependency = elim (Map.get s.pending id) [
  | some p ↦ (s, succeeded d true ∷ [])
  | none ↦ (
    index_pending
        (record s {
          pending =
              Map.set s.pending id
                (record { message = d; depends_on = dependency; queued_at = now });
        })
        id dependency,
    [],
  )
]

unfoldable pub handle : SequentialProcessor → Delivery → ℕ → Result
unfolding waits_for start park
handle s d now = elim (waits_for s d.message_id d.depends_on) [
  | none ↦ (start s d now [], [])
  | some (id, dependency) ↦ park s d now id dependency
]

-- The loop of `#processDependents`, up to the first dependent whose handler it awaits.
unfoldable pub release : List ℕ → SequentialProcessor → ℕ → Result
unfolding waits_for start park
release [] s now = (s, [])
release (id ∷ ids) s now = elim (Map.get s.pending id) [
  | none ↦ release ids s now
  | some p ↦
      let s' = record s { pending = Map.delete s.pending id } in
      elim (waits_for s' p.message.message_id p.message.depends_on) [
        | none ↦ (start s' p.message now ids, [])
        | some (own, dependency) ↦
            let (t, out) = park s' p.message now own dependency in
            let (u, out') = release ids t now in (u, out ++ out')
      ]
]

-- The task at a place of the list, and the others.
unfoldable pub take_task : List Task → ℕ → Option (Task × List Task)
take_task [] n = none
take_task (t ∷ ts) zero = some (t, ts)
take_task (t ∷ ts) (suc n) = elim (take_task ts n) [ none ↦ none | some (u, us) ↦ some (u, t ∷ us) ]

unfoldable pub dependents_for : Table ℕ (List ℕ) → Option ℕ → List ℕ
dependents_for t none = []
dependents_for t (some id) = dependents_of (Map.get t id)

unfoldable pub forget_dependents : Table ℕ (List ℕ) → Option ℕ → Table ℕ (List ℕ)
forget_dependents t none = t
forget_dependents t (some id) = Map.delete t id

-- The `try` part of `#process` after its `await`.
unfoldable pub succeed : SequentialProcessor → Task → ℕ → Result
unfolding release unmark_processing dependents_for forget_dependents
succeed s t now =
    let ids = dependents_for s.pending_by_dependency t.message.message_id in
    let (s', out) =
      release (ids ++ t.dependents)
        (record s {
          processing = unmark_processing s.processing t.message.message_id;
          pending_by_dependency = forget_dependents s.pending_by_dependency t.message.message_id;
        })
        now in
    (s', succeeded t.message false ∷ out)

-- The expiry is over the entries that the map has at its start: the loop deletes only the one it is on.
unfoldable pub is_stale : SequentialProcessor → ℕ → ℕ → Bool
is_stale s now since = ltb s.stale_timeout (now - since)

unfoldable pub dispose : SequentialProcessor → SequentialProcessor
dispose s = record s { processing = []; pending = []; pending_by_dependency = [] }

module _ (should_requeue : Delivery → Failure → Bool) where
  -- The `catch` part.
  unfoldable pub fail : SequentialProcessor → Task → ℕ → Result
  unfolding release unmark_processing
  fail s t now =
      let (s', out) =
        release t.dependents
          (record s { processing = unmark_processing s.processing t.message.message_id }) now in
      (s', failed t.message handler_failed (should_requeue t.message handler_failed) ∷ out)

  -- The handler of the n-th task returns, or throws.
  unfoldable pub settle : SequentialProcessor → ℕ → Bool → ℕ → Result
  unfolding take_task succeed fail
  settle s n ok now = elim (take_task s.running n) [
    | none ↦ (s, [])
    | some (t, others) ↦
        if ok
        then succeed (record s { running = others }) t now
        else fail (record s { running = others }) t now
  ]

  unfoldable pub expire : Table ℕ Parked → SequentialProcessor → ℕ → Result
  unfolding remove_pending is_stale
  expire [] s now = (s, [])
  expire ((id, p) ∷ entries) s now =
      let kept = expire entries s now in
      let (s', out) = expire entries (remove_pending s id p.depends_on) now in
      if is_stale s now p.queued_at
      then (
        s',
        failed p.message dependency_never_resolved
              (should_requeue p.message dependency_never_resolved)
            ∷ out,
      )
      else kept

  unfoldable pub cleanup : SequentialProcessor → ℕ → Result
  unfolding expire is_stale
  cleanup s now =
      expire s.pending
        (record s {
          processing =
              Map.sweep (λ since. if is_stale s now since then none else some since) s.processing;
        })
        now

  unfoldable pub step : SequentialProcessor → Event → Result
  unfolding handle settle cleanup
  step s (arrives d now) = handle s d now
  step s (handler_settles n ok now) = settle s n ok now
  step s (sweeps now) = cleanup s now

  unfoldable pub run : SequentialProcessor → List Event → Result
  unfolding step
  run s [] = (s, [])
  run s (e ∷ es) = let (s', out) = step s e in let (s'', out') = run s' es in (s'', out ++ out')
