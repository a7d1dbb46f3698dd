-- ===== src/Consumers/Registry/Unsubscribed.antt =====
-- A consumer that is being unsubscribed gets no other tag.
pub mod Losses
use rabbitmq.Base.{
  ℕ, zero, suc, ◌+◌, ◌<◌, ◌≡◌, ◌≢◌, refl, Bool, true, false, Option, none, some, ◌==◌, not, ◌&&◌,
  if◌then◌else◌, Table, ident_ℕ, List, [], ◌∷◌, arith,
}
use mathlib.Core.Option
use rabbitmq.Base.Map
use rabbitmq.Base.Map.{get-set, get-delete, get-sweep, set-IsDistinct, sweep-IsDistinct}
use rabbitmq.Consumers.Registry.{
  Consumer, Owner, by_subscribe, by_recreate, by_loss, Phase, opening, releasing, cancelling,
  prefetching, consuming, Setup, Stage, sleeping, setting_up, Loss, Removal, Manager, Event,
  subscribes, setup_returns, unsubscribes, cancel_returns, drained, broker_cancels, channel_closes,
  wakes, recreates_all, pool_becomes, disposes_all, pools_terminate, Step, init, register_consumer,
  fresh_consumer, run_setup, find_consumer_id_by_tag, is_number, track, unless_owner, drop_tags,
  begin_removal, remove,
}
use rabbitmq.Consumers.Registry.Steps.{
  lose_consumer, channel_lost, still_ours, end_loss, try_again, wake_stage, wake, give_up,
  attempt_failed, setup_fails, setup_succeeds, end_setup, fail, enter, opened, consumed, advance,
  setup_step, subscribe, unsubscribe_consumer, unsubscribe, cancel_step, drain_step, recreate_one,
  recreate_each, dispose, step, run,
}
use rabbitmq.Consumers.Registry.Handles.{Inv}
use rabbitmq.Consumers.Registry.Handles.Reachable.{init-Inv, run-Good, step-Good, unsubscribe-Same}
use rabbitmq.Consumers.Registry.Unsubscribed.Losses.{
  IsHeld, Stays, quiet, then-Stays, choose-Stays, split-Stays, put-Stays, run_setup-Stays,
  subscribe-Stays, track-Stays, lose-Stays, channel_lost-Stays, end_loss-Stays, wake-Stays,
  setup_fails-Stays,
}

module _ (id : ℕ) where
  setup_succeeds-Stays :
      (s : Manager) (j tag : ℕ) (o : Owner) → IsHeld id s → Stays id s (setup_succeeds s j tag o).0
  unfolding setup_succeeds
  setup_succeeds-Stays s j tag by_subscribe v = quiet id s s refl refl refl v
  setup_succeeds-Stays s j tag by_recreate v = quiet id s s refl refl refl v
  setup_succeeds-Stays s j tag (by_loss n) v = end_loss-Stays id s n v

  fail-Stays : (s : Manager) (i : ℕ) (u : Setup) → IsHeld id s → Stays id s (fail s i u).0
  unfolding fail end_setup
  fail-Stays s i u v =
      let t = record s { setups = Map.delete s.setups i } in
      then-Stays id s t _ (quiet id s t refl refl refl v)
        (setup_fails-Stays id t u.consumer u.owner)

  opened-Stays :
      (s : Manager) (i : ℕ) (u : Setup) (c : ℕ) (o : Option Consumer)
      → IsHeld id s
      → Stays id s (opened s i u c o).0
  unfolding opened enter
  opened-Stays s i u c none v = quiet id s _ refl refl refl v
  opened-Stays s i u c (some q) v = choose-Stays id q.cancelled s _ _ (fail-Stays s i u v) (
      choose-Stays id q.no_ack s _ _ (quiet id s _ refl refl refl v)
        (quiet id s _ refl refl refl v))

  consumed-Stays :
      (s : Manager) (i : ℕ) (u : Setup) (c : ℕ) (o : Option Consumer)
      → Map.get s.active_consumers u.consumer ≡ o
      → IsHeld id s
      → Stays id s (consumed s i u c o).0
  unfolding consumed enter end_setup
  consumed-Stays s i u c none e v = quiet id s _ refl refl refl v
  consumed-Stays s i u c (some q) e v =
      split-Stays id q.cancelled s _ _ (λ f. quiet id s _ refl refl refl v)
        (λ f.
          let m = record s { setups = Map.delete s.setups i } in
          let t = (track m u.consumer q c).0 in
          then-Stays id s m _ (quiet id s m refl refl refl v) (λ w.
            then-Stays id m t _ (track-Stays id m u.consumer c q e f w)
              (setup_succeeds-Stays t u.consumer s.next_tag u.owner)))

  advance-Stays :
      (s : Manager) (i : ℕ) (u : Setup) (f : Phase) (o : Option ℕ)
      → IsHeld id s
      → Stays id s (advance s i u f o).0
  unfolding advance enter
  advance-Stays s i u opening none v = fail-Stays s i u v
  advance-Stays s i u opening (some c) v =
      opened-Stays s i u c (Map.get s.active_consumers u.consumer) v
  advance-Stays s i u releasing o v = fail-Stays s i u v
  advance-Stays s i u (prefetching c) none v = fail-Stays s i u v
  advance-Stays s i u (prefetching c) (some k) v = quiet id s _ refl refl refl v
  advance-Stays s i u (consuming c) none v = fail-Stays s i u v
  advance-Stays s i u (consuming c) (some k) v =
      consumed-Stays s i u c (Map.get s.active_consumers u.consumer) refl v
  advance-Stays s i u cancelling o v = fail-Stays s i u v

  setup_step-Stays :
      (s : Manager) (i : ℕ) (o : Option ℕ) (u : Option Setup)
      → IsHeld id s
      → Stays id s (setup_step s i o u).0
  unfolding setup_step
  setup_step-Stays s i o none v = quiet id s s refl refl refl v
  setup_step-Stays s i o (some u) v = advance-Stays s i u u.phase o v

  recreate_each-Stays :
      (t : Table ℕ Consumer) (s : Manager) → IsHeld id s → Stays id s (recreate_each t s)
  unfolding recreate_each
  recreate_each-Stays [] s v = quiet id s s refl refl refl v
  recreate_each-Stays ((j, q) ∷ t) s v =
      then-Stays id s _ _ (one (Map.get s.active_consumers j) refl) (recreate_each-Stays t _)
    where
      one :
          (o : Option Consumer) → Map.get s.active_consumers j ≡ o → Stays id s (recreate_one s j o)
      one none e = unfold recreate_one in quiet id s s refl refl refl v
      one (some p) e = unfold recreate_one in run_setup-Stays id s j p by_recreate e v

  unsubscribe-Stays : (s : Manager) (o : Option ℕ) → IsHeld id s → Stays id s (unsubscribe s o).0
  unfolding unsubscribe
  unsubscribe-Stays s none v = quiet id s s refl refl refl v
  unsubscribe-Stays s (some j) v = by_consumer (Map.get s.active_consumers j) refl
    where
      by_consumer :
          (o : Option Consumer)
          → Map.get s.active_consumers j ≡ o
          → Stays id s (unsubscribe_consumer s j o).0
      by_consumer none e = unfold unsubscribe_consumer in quiet id s s refl refl refl v
      by_consumer (some q) e =
          unfold unsubscribe_consumer begin_removal in
          put-Stays id s _ j q (record q { cancelled = true }) e (λ h. refl) refl refl refl v

  cancel-Stays :
      (s : Manager) (d : ℕ) (o : Option Removal) → IsHeld id s → Stays id s (cancel_step s d o)
  unfolding cancel_step
  cancel-Stays s d none v = quiet id s s refl refl refl v
  cancel-Stays s d (some m) v = quiet id s _ refl refl refl v

  drop_tags-keeps :
      (t : Table ℕ ℕ) (j tag : ℕ)
      → Map.IsDistinct t
      → Map.get (drop_tags t j) tag ≡ some id
      → Map.get t tag ≡ some id
  unfolding drop_tags unless_owner Option.bind
  drop_tags-keeps t j tag d h = ground (arith, get-sweep (unless_owner j) t tag d)

  remove-Stays :
      (s : Manager) (d : ℕ) (m : Removal) → Inv s → IsHeld id s → Stays id s (remove s d m).0
  unfolding remove
  remove-Stays s d m w v = record {
    held = record {
      known = v.known;
      marked = λ q h. v.marked q (ground (arith, get-delete s.active_consumers m.consumer id));
    };
    no_new_tag = λ tag h. drop_tags-keeps s.consumers_by_tag m.consumer tag w.distinct h;
  }

  drain-Stays :
      (s : Manager) (d : ℕ) (o : Option Removal)
      → Inv s
      → IsHeld id s
      → Stays id s (drain_step s d o).0
  unfolding drain_step
  drain-Stays s d none w v = quiet id s s refl refl refl v
  drain-Stays s d (some m) w v =
      choose-Stays id m.is_cancelling s _ _ (quiet id s s refl refl refl v) (remove-Stays s d m w v)

  dispose-Stays : (s : Manager) (n : ℕ) → IsHeld id s → Stays id s (dispose s n)
  unfolding dispose Map.get
  dispose-Stays s zero v = quiet id s s refl refl refl v
  dispose-Stays s (suc n) v = record {
    held = record { known = v.known; marked = λ q h. cc };
    no_new_tag = λ tag h. cc;
  }

  step-Stays : (s : Manager) (e : Event) → Inv s → IsHeld id s → Stays id s (step s e).0
  unfolding step
  step-Stays s (subscribes queue no_ack) w v = subscribe-Stays id s queue no_ack v
  step-Stays s (setup_returns i o) w v = setup_step-Stays s i o (Map.get s.setups i) v
  step-Stays s (unsubscribes tag) w v = unsubscribe-Stays s (find_consumer_id_by_tag s tag) v
  step-Stays s (cancel_returns d) w v = cancel-Stays s d (Map.get s.removals d) v
  step-Stays s (drained d) w v = drain-Stays s d (Map.get s.removals d) w v
  step-Stays s (broker_cancels j) w v = lose-Stays id s j (Map.get s.active_consumers j) v
  step-Stays s (channel_closes j c) w v =
      channel_lost-Stays id s j c s.channel_pool (Map.get s.active_consumers j) v
  step-Stays s (wakes n) w v = wake-Stays id s n (Map.get s.losses n) v
  step-Stays s recreates_all w v = recreate_each-Stays s.active_consumers s v
  step-Stays s (pool_becomes o) w v = quiet id s _ refl refl refl v
  step-Stays s disposes_all w v = quiet id s _ refl refl refl v
  step-Stays s pools_terminate w v = dispose-Stays s s.disposing v

  run-Stays : (es : List Event) (s : Manager) → Inv s → IsHeld id s → Stays id s (run s es).0
  unfolding run
  run-Stays [] s w v = quiet id s s refl refl refl v
  run-Stays (e ∷ es) s w v =
      let g = step-Good s e w in
      then-Stays id s (step s e).0 _ (step-Stays s e w v) (run-Stays es (step s e).0 g.0)

  -- `unsubscribe` marks the consumer of the tag.
  marks :
      (s : Manager) (o : Option Consumer)
      → Map.get s.active_consumers id ≡ o
      → o ≢ none
      → Inv s
      → IsHeld id (unsubscribe_consumer s id o).0
  unfolding unsubscribe_consumer begin_removal
  marks s none e n w = absurd (n refl)
  marks s (some q) e n w = record {
    known = w.known id (ground (arith, e));
    marked =
        λ r h. ground (arith, get-set s.active_consumers id id (record q { cancelled = true }));
  }

-- From the moment that unsubscribe is called with a tag of a consumer, whatever happens then (set-ups of
-- the consumer that were in flight, recoveries, recreations) and in whatever order, the consumer
-- is marked as cancelled or gone, and every tag that leads to it did so before.
pub unsubscribed-gets_no_tag :
    (es fs : List Event) (tag other id : ℕ)
    → find_consumer_id_by_tag (run init es).0 tag ≡ some id
    → find_consumer_id_by_tag (run (step (run init es).0 (unsubscribes tag)).0 fs).0 other ≡ some id
    → IsHeld id (run (step (run init es).0 (unsubscribes tag)).0 fs).0
      × (find_consumer_id_by_tag (run init es).0 other ≡ some id)
unfolding find_consumer_id_by_tag
unsubscribed-gets_no_tag es fs tag other id h k =
    let s = (run init es).0 in
    let t = (step s (unsubscribes tag)).0 in
    let a = run-Good es init init-Inv in
    let b = step-Good s (unsubscribes tag) a.0 in
    let w = a.0.tags tag id h in
    let v : IsHeld id t =
      unfold step unsubscribe find_consumer_id_by_tag in
      rw h (marks id s (Map.get s.active_consumers id) refl w.0 a.0) in
    let r = run-Stays id fs t b.0 v in
    let z = r.no_new_tag other k in
    let y : t.consumers_by_tag ≡ s.consumers_by_tag =
      unfold step find_consumer_id_by_tag in
      let e = unsubscribe-Same s (Map.get s.consumers_by_tag tag) in e.tags in
    (r.held, ground (arith, z, y))
