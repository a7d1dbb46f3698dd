-- ===== src/Consumers/Registry/Handles/Methods.antt =====
-- What each method does to the handles and their tags.
use rabbitmq.Base.{
  ℕ, ◌+◌, ◌≡◌, ◌≢◌, refl, Bool, true, false, Option, none, some, ◌==◌, not, ◌&&◌, if◌then◌else◌,
  Table, ident_ℕ, [], ◌∷◌, arith, Bool-cases, inl, inr,
}
use mathlib.Core.Option
use rabbitmq.Base.Map
use rabbitmq.Base.Map.{get-set, get-delete, get-sweep, set-IsDistinct, sweep-IsDistinct}
use rabbitmq.Consumers.Registry.{
  Consumer, Owner, by_subscribe, by_recreate, by_loss, Phase, releasing, prefetching, consuming,
  Setup, Stage, sleeping, setting_up, Loss, Removal, Manager, Step, run_setup, is_number, track,
  unless_owner, drop_tags, begin_removal, remove,
}
use rabbitmq.Consumers.Registry.Steps.{
  lose_consumer, channel_lost, still_ours, end_loss, try_again, wake_stage, wake, give_up,
  attempt_failed, setup_fails, setup_succeeds, end_setup, fail, enter, opened, recreate_one,
  recreate_each,
}
use rabbitmq.Consumers.Registry.Handles.{Inv, Good, Same, Same-trans, quiet, touch}

pub refl-Same : (s : Manager) → Same s s
refl-Same s = quiet s s refl refl refl (omega arith)

pub run_setup-Same :
    (s : Manager) (id : ℕ) (q : Consumer) (o : Owner)
    → Map.get s.active_consumers id ≡ some q
    → Same s (run_setup s id q o)
unfolding run_setup
run_setup-Same s id q o e =
    touch s _ id q (record q { epoch = q.epoch + 1 }) e refl refl refl (omega arith)

pub lose-Same : (s : Manager) (id : ℕ) (o : Option Consumer) → Same s (lose_consumer s id o).0
unfolding lose_consumer
lose-Same s id none = refl-Same s
lose-Same s id (some q) = quiet s _ (ground arith) (ground arith) (ground arith) (ground arith)

pub channel_lost-Same :
    (s : Manager) (id c : ℕ) (p : Option ℕ) (o : Option Consumer)
    → Same s (channel_lost s id c p o).0
unfolding channel_lost
channel_lost-Same s id c none o = refl-Same s
channel_lost-Same s id c (some p) none = refl-Same s
channel_lost-Same s id c (some p) (some q) =
    elim (Bool-cases (not q.cancelled && is_number q.channel c)) [
      | inl e ↦ rw e (lose-Same s id (some q))
      | inr e ↦ rw e (refl-Same s)
    ]

end_loss-Same : (s : Manager) (n : ℕ) → Same s (end_loss s n)
unfolding end_loss
end_loss-Same s n = quiet s _ refl refl refl (omega arith)

try_again-Same :
    (s : Manager) (n : ℕ) (l : Loss) (o : Option Consumer)
    → Map.get s.active_consumers l.consumer ≡ o
    → Same s (try_again s n l o)
unfolding try_again
try_again-Same s n l none e = end_loss-Same s n
try_again-Same s n l (some q) e =
    elim (Bool-cases (still_ours s l (some q) && (q.epoch == l.known_epoch))) [
      | inl t ↦
          let m = record s {
            losses =
                Map.set s.losses n (record l { known_epoch = q.epoch + 1; stage = setting_up });
          } in
          rw t (
            Same-trans s m _ (quiet s m refl refl refl (omega arith))
              (run_setup-Same m l.consumer q (by_loss n) e))
      | inr t ↦ rw t (end_loss-Same s n)
    ]

pub wake-Same : (s : Manager) (n : ℕ) (o : Option Loss) → Same s (wake s n o)
unfolding wake
wake-Same s n none = refl-Same s
wake-Same s n (some l) = by_stage l.stage
  where
    by_stage : (g : Stage) → Same s (wake_stage s n l g)
    by_stage sleeping =
        unfold wake_stage in try_again-Same s n l (Map.get s.active_consumers l.consumer) refl
    by_stage setting_up = unfold wake_stage in refl-Same s

attempt_failed-Same : (s : Manager) (n : ℕ) (o : Option Loss) → Same s (attempt_failed s n o)
unfolding attempt_failed give_up begin_removal end_loss
attempt_failed-Same s n none = refl-Same s
attempt_failed-Same s n (some l) =
    quiet s _ (ground arith) (ground arith) (ground arith) (ground arith)

setup_fails-Same : (s : Manager) (id : ℕ) (o : Owner) → Same s (setup_fails s id o).0
unfolding setup_fails begin_removal
setup_fails-Same s id by_subscribe = quiet s _ refl refl refl (omega arith)
setup_fails-Same s id by_recreate = refl-Same s
setup_fails-Same s id (by_loss n) = attempt_failed-Same s n (Map.get s.losses n)

pub setup_succeeds-Same :
    (s : Manager) (id tag : ℕ) (o : Owner) → Same s (setup_succeeds s id tag o).0
unfolding setup_succeeds
setup_succeeds-Same s id tag by_subscribe = refl-Same s
setup_succeeds-Same s id tag by_recreate = refl-Same s
setup_succeeds-Same s id tag (by_loss n) = end_loss-Same s n

pub end_setup-Same : (s : Manager) (i : ℕ) → Same s (end_setup s i)
unfolding end_setup
end_setup-Same s i = quiet s _ refl refl refl (omega arith)

pub fail-Same : (s : Manager) (i : ℕ) (u : Setup) → Same s (fail s i u).0
unfolding fail
fail-Same s i u =
    Same-trans s (end_setup s i) _ (end_setup-Same s i)
      (setup_fails-Same (end_setup s i) u.consumer u.owner)

pub enter-Same : (s : Manager) (i : ℕ) (u : Setup) (f : Phase) → Same s (enter s i u f)
unfolding enter
enter-Same s i u f = quiet s _ refl refl refl (omega arith)

choose-Same :
    (b : Bool) (s : Manager) (x y : Step) → Same s x.0 → Same s y.0 → Same s (if b then x else y).0
choose-Same true s x y e f = e
choose-Same false s x y e f = f

pub opened-Same :
    (s : Manager) (i : ℕ) (u : Setup) (c : ℕ) (o : Option Consumer) → Same s (opened s i u c o).0
unfolding opened
opened-Same s i u c none = enter-Same s i u releasing
opened-Same s i u c (some q) =
    choose-Same q.cancelled s _ _ (fail-Same s i u) (
      choose-Same q.no_ack s _ _ (enter-Same s i u (consuming c))
        (enter-Same s i u (prefetching c)))

pub recreate_each-Same : (t : Table ℕ Consumer) (s : Manager) → Same s (recreate_each t s)
unfolding recreate_each
recreate_each-Same [] s = refl-Same s
recreate_each-Same ((id, q) ∷ t) s =
    let m = recreate_one s id (Map.get s.active_consumers id) in
    Same-trans s m _ (one (Map.get s.active_consumers id) refl) (recreate_each-Same t m)
  where
    one : (o : Option Consumer) → Map.get s.active_consumers id ≡ o → Same s (recreate_one s id o)
    one none e = unfold recreate_one in refl-Same s
    one (some p) e = unfold recreate_one in run_setup-Same s id p by_recreate e

-- A tag is new, and its consumer is there.
pub track-Good :
    (s : Manager) (id c : ℕ) (q : Consumer)
    → Map.get s.active_consumers id ≡ some q
    → Inv s
    → Good s (track s id q c).0
unfolding track
track-Good s id c q e v =
    let p : Consumer = record q {
      channel = some c;
      consumer_tag = some s.next_tag;
      watched_channel = some c;
    } in
    (
      record {
        distinct = set-IsDistinct s.consumers_by_tag s.next_tag id v.distinct;
        tags = λ tag j h. (
          ground (
            arith,
            get-set s.active_consumers id j p,
            get-set s.consumers_by_tag s.next_tag tag id,
            v.tags tag j,
          ),
          ground (arith, get-set s.consumers_by_tag s.next_tag tag id, v.tags tag j),
        );
        known = λ j h. ground (arith, get-set s.active_consumers id j p, v.known j, v.known id);
      },
      record {
        handles = λ tag j h a.
            ground (arith, get-set s.consumers_by_tag s.next_tag tag id, v.tags tag j h);
        gone = λ j k h. ground (arith, get-set s.active_consumers id j p);
        grows = omega arith;
      },
    )

get-drop_tags :
    (t : Table ℕ ℕ) (id tag : ℕ)
    → Map.IsDistinct t
    → Map.get (drop_tags t id) tag ≡ Option.bind (Map.get t tag) (unless_owner id)
unfolding drop_tags
get-drop_tags t id tag d = get-sweep (unless_owner id) t tag d

pub remove-Good : (s : Manager) (d : ℕ) (m : Removal) → Inv s → Good s (remove s d m).0
unfolding remove
remove-Good s d m v =
    let id = m.consumer in
    (
      record {
        distinct =
            unfold drop_tags in sweep-IsDistinct (unless_owner id) s.consumers_by_tag v.distinct;
        tags = λ tag j h.
            let k = kept tag j (Map.get s.consumers_by_tag tag) refl h in
            let w = v.tags tag j k.0 in
            (ground (arith, get-delete s.active_consumers id j, w.0, k.1), w.1);
        known = λ j h. ground (arith, get-delete s.active_consumers id j, v.known j);
      },
      record {
        handles = λ tag j h a. ground (arith, keeps tag j h, get-delete s.active_consumers id j);
        gone = λ j k h. ground (arith, get-delete s.active_consumers id j);
        grows = omega arith;
      },
    )
  where
    kept :
        (tag j : ℕ) (o : Option ℕ)
        → Map.get s.consumers_by_tag tag ≡ o
        → Map.get (drop_tags s.consumers_by_tag m.consumer) tag ≡ some j
        → (Map.get s.consumers_by_tag tag ≡ some j) × (j ≢ m.consumer)
    kept tag j o e h =
        unfold unless_owner Option.bind in
        ground (arith, get-drop_tags s.consumers_by_tag m.consumer tag v.distinct)

    keeps :
        (tag j : ℕ)
        → Map.get s.consumers_by_tag tag ≡ some j
        → j ≢ m.consumer
        → Map.get (drop_tags s.consumers_by_tag m.consumer) tag ≡ some j
    keeps tag j h n =
        unfold unless_owner Option.bind in
        ground (arith, get-drop_tags s.consumers_by_tag m.consumer tag v.distinct)
