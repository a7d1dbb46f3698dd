-- ===== src/Consumers/Registry/Handles/Reachable.antt =====
-- Every event keeps tags and consumers together.
use rabbitmq.Base.{
  ℕ, zero, suc, ◌+◌, ◌≡◌, refl, Bool, true, false, Option, none, some, if◌then◌else◌, ident_ℕ, List,
  [], ◌∷◌, arith, Option-cases, inl, inr,
}
use rabbitmq.Base.Map
use rabbitmq.Base.Map.{get-set, get-delete, get-sweep, set-IsDistinct, sweep-IsDistinct}
use rabbitmq.Consumers.Registry.{
  Consumer, by_subscribe, Phase, opening, releasing, cancelling, prefetching, consuming, Setup,
  Removal, Manager, Event, subscribes, setup_returns, unsubscribes, cancel_returns, drained,
  broker_cancels, channel_closes, wakes, recreates_all, pool_becomes, disposes_all, pools_terminate,
  Step, init, register_consumer, fresh_consumer, run_setup, find_consumer_id_by_tag, track,
  begin_removal,
}
use rabbitmq.Consumers.Registry.Steps.{
  end_setup, enter, consumed, advance, setup_step, subscribe, unsubscribe_consumer, unsubscribe,
  cancel_step, drain_step, dispose, step, run,
}
use rabbitmq.Consumers.Registry.Handles.{Inv, Good, Same, Same-Good, quiet, touch}
use rabbitmq.Consumers.Registry.Handles.Methods.{
  refl-Same, run_setup-Same, lose-Same, channel_lost-Same, wake-Same, setup_succeeds-Same,
  end_setup-Same, fail-Same, enter-Same, opened-Same, recreate_each-Same, track-Good, remove-Good,
}

-- One part of a step after another.
then-Good : (s t u : Manager) → Inv s → Good s t → Good t u → Good s u
then-Good s t u v a b = (
  b.0,
  record {
    handles = λ tag id h n.
        let k = let w = v.tags tag id h in v.known id w.0 in
        elim (Option-cases (Map.get t.active_consumers id)) [
          | inl e ↦ absurd (n (b.1.gone id (omega (arith, k, a.1.grows)) e))
          | inr (q, e) ↦ b.1.handles tag id (a.1.handles tag id h (ground (arith, e))) n
        ];
    gone = λ id k h. b.1.gone id (omega (arith, k, a.1.grows)) (a.1.gone id k h);
    grows = omega (arith, a.1.grows, b.1.grows);
  },
)

register-Good :
    (s : Manager) (queue : ℕ) (no_ack : Bool) → Inv s → Good s (register_consumer s queue no_ack)
unfolding register_consumer
register-Good s queue no_ack v =
    let q = fresh_consumer queue no_ack in
    (
      record {
        distinct = v.distinct;
        tags = λ tag j h.
            let w = v.tags tag j h in
            (ground (arith, get-set s.active_consumers s.consumer_sequence j q, w.0), w.1);
        known =
            λ j h. ground (arith, get-set s.active_consumers s.consumer_sequence j q, v.known j);
      },
      record {
        handles = λ tag j h a. h;
        gone = λ j k h. ground (arith, get-set s.active_consumers s.consumer_sequence j q);
        grows = omega arith;
      },
    )

subscribe-Good :
    (s : Manager) (queue : ℕ) (no_ack : Bool) → Inv s → Good s (subscribe s queue no_ack)
unfolding subscribe
subscribe-Good s queue no_ack v =
    let t = register_consumer s queue no_ack in
    let a = register-Good s queue no_ack v in
    let q = fresh_consumer queue no_ack in
    let e : Map.get t.active_consumers s.consumer_sequence ≡ some q =
      unfold register_consumer in
      ground (arith, get-set s.active_consumers s.consumer_sequence s.consumer_sequence q) in
    then-Good s t (run_setup t s.consumer_sequence q by_subscribe) v a
      (Same-Good t _ a.0 (run_setup-Same t s.consumer_sequence q by_subscribe e))

dispose-Good : (s : Manager) (n : ℕ) → Inv s → Good s (dispose s n)
unfolding dispose Map.get
dispose-Good s zero v = Same-Good s s v (refl-Same s)
dispose-Good s (suc n) v = (
  record { distinct = tt; tags = λ tag id h. cc; known = λ id h. absurd (h refl) },
  record { handles = λ tag id h n. absurd (n refl); gone = λ id k h. refl; grows = omega arith },
)

unsubscribe_consumer-Same :
    (s : Manager) (id : ℕ) (o : Option Consumer)
    → Map.get s.active_consumers id ≡ o
    → Same s (unsubscribe_consumer s id o).0
unfolding unsubscribe_consumer begin_removal
unsubscribe_consumer-Same s id none e = refl-Same s
unsubscribe_consumer-Same s id (some q) e =
    touch s _ id q (record q { cancelled = true }) e refl refl refl (omega arith)

pub unsubscribe-Same : (s : Manager) (o : Option ℕ) → Same s (unsubscribe s o).0
unfolding unsubscribe
unsubscribe-Same s none = refl-Same s
unsubscribe-Same s (some id) = unsubscribe_consumer-Same s id (Map.get s.active_consumers id) refl

cancel-Same : (s : Manager) (d : ℕ) (o : Option Removal) → Same s (cancel_step s d o)
unfolding cancel_step
cancel-Same s d none = refl-Same s
cancel-Same s d (some m) = quiet s _ refl refl refl (omega arith)

choose-Good :
    (b : Bool) (s : Manager) (x y : Step) → Good s x.0 → Good s y.0 → Good s (if b then x else y).0
choose-Good true s x y e f = e
choose-Good false s x y e f = f

drain-Good : (s : Manager) (d : ℕ) (o : Option Removal) → Inv s → Good s (drain_step s d o).0
unfolding drain_step
drain-Good s d none v = Same-Good s s v (refl-Same s)
drain-Good s d (some m) v =
    choose-Good m.is_cancelling s _ _ (Same-Good s s v (refl-Same s)) (remove-Good s d m v)

late-Same :
    (s : Manager) (i : ℕ) (u : Setup)
    → Same s (enter (record s { next_tag = s.next_tag + 1 }) i u cancelling)
unfolding enter
late-Same s i u = quiet s _ refl refl refl (omega arith)

consumed-Good :
    (s : Manager) (i : ℕ) (u : Setup) (c : ℕ) (o : Option Consumer)
    → Map.get s.active_consumers u.consumer ≡ o
    → Inv s
    → Good s (consumed s i u c o).0
unfolding consumed
consumed-Good s i u c none e v = Same-Good s _ v (late-Same s i u)
consumed-Good s i u c (some q) e v =
    choose-Good q.cancelled s _ _ (Same-Good s _ v (late-Same s i u)) (
      let m = end_setup s i in
      let a = Same-Good s m v (end_setup-Same s i) in
      let f : Map.get m.active_consumers u.consumer ≡ some q = unfold end_setup in e in
      let b = track-Good m u.consumer c q f a.0 in
      let t = (track m u.consumer q c).0 in
      then-Good s m _ v a (
        then-Good m t _ a.0 b
          (Same-Good t _ b.0 (setup_succeeds-Same t u.consumer s.next_tag u.owner))))

advance-Good :
    (s : Manager) (i : ℕ) (u : Setup) (f : Phase) (o : Option ℕ)
    → Inv s
    → Good s (advance s i u f o).0
unfolding advance
advance-Good s i u opening none v = Same-Good s _ v (fail-Same s i u)
advance-Good s i u opening (some c) v =
    Same-Good s _ v (opened-Same s i u c (Map.get s.active_consumers u.consumer))
advance-Good s i u releasing o v = Same-Good s _ v (fail-Same s i u)
advance-Good s i u (prefetching c) none v = Same-Good s _ v (fail-Same s i u)
advance-Good s i u (prefetching c) (some n) v = Same-Good s _ v (enter-Same s i u (consuming c))
advance-Good s i u (consuming c) none v = Same-Good s _ v (fail-Same s i u)
advance-Good s i u (consuming c) (some n) v =
    consumed-Good s i u c (Map.get s.active_consumers u.consumer) refl v
advance-Good s i u cancelling o v = Same-Good s _ v (fail-Same s i u)

setup_step-Good :
    (s : Manager) (i : ℕ) (o : Option ℕ) (u : Option Setup) → Inv s → Good s (setup_step s i o u).0
unfolding setup_step
setup_step-Good s i o none v = Same-Good s s v (refl-Same s)
setup_step-Good s i o (some u) v = advance-Good s i u u.phase o v

pub step-Good : (s : Manager) (e : Event) → Inv s → Good s (step s e).0
unfolding step
step-Good s (subscribes queue no_ack) v = subscribe-Good s queue no_ack v
step-Good s (setup_returns i o) v = setup_step-Good s i o (Map.get s.setups i) v
step-Good s (unsubscribes tag) v =
    Same-Good s _ v (unsubscribe-Same s (find_consumer_id_by_tag s tag))
step-Good s (cancel_returns d) v = Same-Good s _ v (cancel-Same s d (Map.get s.removals d))
step-Good s (drained d) v = drain-Good s d (Map.get s.removals d) v
step-Good s (broker_cancels id) v = Same-Good s _ v (lose-Same s id (Map.get s.active_consumers id))
step-Good s (channel_closes id c) v =
    Same-Good s _ v (channel_lost-Same s id c s.channel_pool (Map.get s.active_consumers id))
step-Good s (wakes n) v = Same-Good s _ v (wake-Same s n (Map.get s.losses n))
step-Good s recreates_all v = Same-Good s _ v (recreate_each-Same s.active_consumers s)
step-Good s (pool_becomes o) v = Same-Good s _ v (quiet s _ refl refl refl (omega arith))
step-Good s disposes_all v = Same-Good s _ v (quiet s _ refl refl refl (omega arith))
step-Good s pools_terminate v = dispose-Good s s.disposing v

pub run-Good : (es : List Event) (s : Manager) → Inv s → Good s (run s es).0
unfolding run
run-Good [] s v = Same-Good s s v (refl-Same s)
run-Good (e ∷ es) s v =
    let t = (step s e).0 in
    let a = step-Good s e v in then-Good s t (run t es).0 v a (run-Good es t a.0)

pub init-Inv : Inv init
unfolding init Map.get
init-Inv = record { distinct = tt; tags = λ tag id h. cc; known = λ id h. absurd (h refl) }
