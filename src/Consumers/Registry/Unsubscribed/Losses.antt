-- ===== src/Consumers/Registry/Unsubscribed/Losses.antt =====
-- A consumer that is unsubscribed gets no tag from what a loss or a registration does.
use rabbitmq.Base.{
  ℕ, ◌+◌, ◌<◌, ◌≡◌, refl, Bool, true, false, Option, none, some, ◌==◌, not, ◌&&◌, if◌then◌else◌,
  ident_ℕ, arith,
}
use rabbitmq.Base.Map
use rabbitmq.Base.Map.{get-set, get-delete, get-sweep, set-IsDistinct, sweep-IsDistinct}
use rabbitmq.Consumers.Registry.{
  Consumer, Owner, by_subscribe, by_recreate, by_loss, Stage, sleeping, setting_up, Loss, Manager,
  Step, register_consumer, fresh_consumer, run_setup, is_number, track, begin_removal,
}
use rabbitmq.Consumers.Registry.Steps.{
  lose_consumer, channel_lost, still_ours, end_loss, try_again, wake_stage, wake, give_up,
  attempt_failed, setup_fails, subscribe,
}

module _ (id : ℕ) where
  -- The consumer is marked as cancelled, or gone.
  pub record IsHeld (s : Manager) : Type 0 where
    pub known : id < s.consumer_sequence
    pub marked : (q : Consumer) → Map.get s.active_consumers id ≡ some q → q.cancelled ≡ true

  pub record Stays (s t : Manager) : Type 0 where
    pub held : IsHeld t
    pub no_new_tag :
        (tag : ℕ)
        → Map.get t.consumers_by_tag tag ≡ some id
        → Map.get s.consumers_by_tag tag ≡ some id

  pub quiet :
      (s t : Manager)
      → t.active_consumers ≡ s.active_consumers
      → t.consumers_by_tag ≡ s.consumers_by_tag
      → t.consumer_sequence ≡ s.consumer_sequence
      → IsHeld s
      → Stays s t
  quiet s t a b c v = record {
    held = record {
      known = ground (arith, v.known, c);
      marked = λ q h. v.marked q (ground (arith, a));
    };
    no_new_tag = λ tag h. ground (arith, b);
  }

  pub then-Stays : (s t u : Manager) → Stays s t → (IsHeld t → Stays t u) → Stays s u
  then-Stays s t u a f =
      let b = f a.held in
      record { held = b.held; no_new_tag = λ tag h. a.no_new_tag tag (b.no_new_tag tag h) }

  pub choose-Stays :
      (b : Bool) (s : Manager) (x y : Step)
      → Stays s x.0
      → Stays s y.0
      → Stays s (if b then x else y).0
  choose-Stays true s x y e f = e
  choose-Stays false s x y e f = f

  pick-Stays : (b : Bool) (s x y : Manager) → Stays s x → Stays s y → Stays s (if b then x else y)
  pick-Stays true s x y e f = e
  pick-Stays false s x y e f = f

  pub split-Stays :
      (b : Bool) (s : Manager) (x y : Step)
      → (b ≡ true → Stays s x.0)
      → (b ≡ false → Stays s y.0)
      → Stays s (if b then x else y).0
  split-Stays true s x y e f = e refl
  split-Stays false s x y e f = f refl

  -- A consumer is written back, with its mark or with the mark set.
  pub put-Stays :
      (s t : Manager) (j : ℕ) (q p : Consumer)
      → Map.get s.active_consumers j ≡ some q
      → (q.cancelled ≡ true → p.cancelled ≡ true)
      → t.active_consumers ≡ Map.set s.active_consumers j p
      → t.consumers_by_tag ≡ s.consumers_by_tag
      → t.consumer_sequence ≡ s.consumer_sequence
      → IsHeld s
      → Stays s t
  put-Stays s t j q p e f a b c v = record {
    held = record {
      known = ground (arith, v.known, c);
      marked =
          λ r h. ground (arith, a, get-set s.active_consumers j id p, v.marked q, v.marked r, f);
    };
    no_new_tag = λ tag h. ground (arith, b);
  }

  pub run_setup-Stays :
      (s : Manager) (j : ℕ) (q : Consumer) (o : Owner)
      → Map.get s.active_consumers j ≡ some q
      → IsHeld s
      → Stays s (run_setup s j q o)
  unfolding run_setup
  run_setup-Stays s j q o e v =
      put-Stays s _ j q (record q { epoch = q.epoch + 1 }) e (λ h. h) refl refl refl v

  register-Stays :
      (s : Manager) (queue : ℕ) (no_ack : Bool)
      → IsHeld s
      → Stays s (register_consumer s queue no_ack)
  unfolding register_consumer
  register-Stays s queue no_ack v = record {
    held = record {
      known = omega (arith, v.known);
      marked = λ r h. ground (
        arith,
        v.known,
        v.marked r,
        get-set s.active_consumers s.consumer_sequence id (fresh_consumer queue no_ack),
      );
    };
    no_new_tag = λ tag h. h;
  }

  pub subscribe-Stays :
      (s : Manager) (queue : ℕ) (no_ack : Bool) → IsHeld s → Stays s (subscribe s queue no_ack)
  unfolding subscribe
  subscribe-Stays s queue no_ack v =
      let t = register_consumer s queue no_ack in
      let q = fresh_consumer queue no_ack in
      let e : Map.get t.active_consumers s.consumer_sequence ≡ some q =
        unfold register_consumer in
        ground (arith, get-set s.active_consumers s.consumer_sequence s.consumer_sequence q) in
      then-Stays s t _ (register-Stays s queue no_ack v)
        (run_setup-Stays t s.consumer_sequence q by_subscribe e)

  -- A consumer that is not marked is another: its new tag does not matter.
  pub track-Stays :
      (s : Manager) (j c : ℕ) (q : Consumer)
      → Map.get s.active_consumers j ≡ some q
      → q.cancelled ≡ false
      → IsHeld s
      → Stays s (track s j q c).0
  unfolding track
  track-Stays s j c q e f v =
      let p : Consumer = record q {
        channel = some c;
        consumer_tag = some s.next_tag;
        watched_channel = some c;
      } in
      record {
        held = record {
          known = v.known;
          marked =
              λ r h. ground (arith, get-set s.active_consumers j id p, v.marked q, v.marked r, f);
        };
        no_new_tag =
            λ tag h. ground (arith, get-set s.consumers_by_tag s.next_tag tag j, v.marked q, e, f);
      }

  pub lose-Stays :
      (s : Manager) (j : ℕ) (o : Option Consumer) → IsHeld s → Stays s (lose_consumer s j o).0
  unfolding lose_consumer
  lose-Stays s j none v = quiet s s refl refl refl v
  lose-Stays s j (some q) v =
      choose-Stays q.cancelled s _ _ (quiet s s refl refl refl v) (quiet s _ refl refl refl v)

  pub channel_lost-Stays :
      (s : Manager) (j c : ℕ) (p : Option ℕ) (o : Option Consumer)
      → IsHeld s
      → Stays s (channel_lost s j c p o).0
  unfolding channel_lost
  channel_lost-Stays s j c none o v = quiet s s refl refl refl v
  channel_lost-Stays s j c (some p) none v = quiet s s refl refl refl v
  channel_lost-Stays s j c (some p) (some q) v =
      choose-Stays (not q.cancelled && is_number q.channel c) s _ _ (lose-Stays s j (some q) v)
        (quiet s s refl refl refl v)

  pub end_loss-Stays : (s : Manager) (n : ℕ) → IsHeld s → Stays s (end_loss s n)
  unfolding end_loss
  end_loss-Stays s n v = quiet s _ refl refl refl v

  try_again-Stays :
      (s : Manager) (n : ℕ) (l : Loss) (o : Option Consumer)
      → Map.get s.active_consumers l.consumer ≡ o
      → IsHeld s
      → Stays s (try_again s n l o)
  unfolding try_again
  try_again-Stays s n l none e v = end_loss-Stays s n v
  try_again-Stays s n l (some q) e v =
      let m = record s {
        losses = Map.set s.losses n (record l { known_epoch = q.epoch + 1; stage = setting_up });
      } in
      pick-Stays (still_ours s l (some q) && (q.epoch == l.known_epoch)) s _ _
        (then-Stays s m _ (quiet s m refl refl refl v)
          (run_setup-Stays m l.consumer q (by_loss n) e))
        (end_loss-Stays s n v)

  pub wake-Stays : (s : Manager) (n : ℕ) (o : Option Loss) → IsHeld s → Stays s (wake s n o)
  unfolding wake
  wake-Stays s n none v = quiet s s refl refl refl v
  wake-Stays s n (some l) v = by_stage l.stage
    where
      by_stage : (g : Stage) → Stays s (wake_stage s n l g)
      by_stage sleeping =
          unfold wake_stage in try_again-Stays s n l (Map.get s.active_consumers l.consumer) refl v
      by_stage setting_up = unfold wake_stage in quiet s s refl refl refl v

  attempt_failed-Stays :
      (s : Manager) (n : ℕ) (o : Option Loss) → IsHeld s → Stays s (attempt_failed s n o)
  unfolding attempt_failed give_up begin_removal
  attempt_failed-Stays s n none v = quiet s s refl refl refl v
  attempt_failed-Stays s n (some l) v =
      unfold end_loss in quiet s _ (ground arith) (ground arith) (ground arith) v

  pub setup_fails-Stays :
      (s : Manager) (j : ℕ) (o : Owner) → IsHeld s → Stays s (setup_fails s j o).0
  unfolding setup_fails begin_removal
  setup_fails-Stays s j by_subscribe v = quiet s _ refl refl refl v
  setup_fails-Stays s j by_recreate v = quiet s s refl refl refl v
  setup_fails-Stays s j (by_loss n) v = attempt_failed-Stays s n (Map.get s.losses n) v
