-- ===== src/Consumers/Registry/Handles.antt =====
-- Tags as handles: each leads to a consumer that is there, for as long as it is there.
pub mod Methods
pub mod Reachable
use rabbitmq.Base.{
  ℕ, zero, suc, ◌+◌, ◌<◌, ◌≤◌, ◌≡◌, ◌≢◌, refl, sym, Bool, true, false, Option, none, some, ltb,
  ◌==◌, not, ◌&&◌, if◌then◌else◌, Table, ident_ℕ, ℕ_discrete, List, [], ◌∷◌, ◌++◌, arith,
  Bool-cases, Option-cases, inl, inr,
}
use mathlib.Core.Option
use mathlib.Core.Path.{subst}
use rabbitmq.Base.Map
use rabbitmq.Base.Map.{get-set, get-delete, get-sweep, set-IsDistinct, sweep-IsDistinct}
use rabbitmq.Consumers.Registry.{
  Consumer, Owner, by_subscribe, by_recreate, by_loss, Phase, opening, releasing, cancelling,
  prefetching, consuming, Setup, Stage, sleeping, setting_up, Loss, Removal, Manager, Event,
  subscribes, setup_returns, unsubscribes, cancel_returns, drained, broker_cancels, channel_closes,
  wakes, recreates_all, pool_becomes, disposes_all, pools_terminate, Step, ◌then_do◌, init,
  register_consumer, fresh_consumer, run_setup, find_consumer_id_by_tag, is_number, track,
  unless_owner, drop_tags, begin_removal, remove,
}
use rabbitmq.Consumers.Registry.Steps.{
  lose_consumer, channel_lost, still_ours, end_loss, try_again, wake_stage, wake, give_up,
  attempt_failed, setup_fails, setup_succeeds, end_setup, fail, enter, opened, consumed, advance,
  setup_step, subscribe, unsubscribe_consumer, unsubscribe, cancel_step, drain_step, recreate_one,
  recreate_each, dispose, step, run,
}

pub record Inv (s : Manager) : Type 0 where
  pub distinct : Map.IsDistinct s.consumers_by_tag
  pub tags :
      (tag id : ℕ)
      → Map.get s.consumers_by_tag tag ≡ some id
      → (Map.get s.active_consumers id ≢ none) × (tag < s.next_tag)
  pub known : (id : ℕ) → Map.get s.active_consumers id ≢ none → id < s.consumer_sequence

-- What a step leaves: the tags of the consumers that stay, and the absence of those that are gone.
pub record Keeps (s t : Manager) : Type 0 where
  pub handles :
      (tag id : ℕ)
      → Map.get s.consumers_by_tag tag ≡ some id
      → Map.get t.active_consumers id ≢ none
      → Map.get t.consumers_by_tag tag ≡ some id
  pub gone :
      (id : ℕ)
      → id < s.consumer_sequence
      → Map.get s.active_consumers id ≡ none
      → Map.get t.active_consumers id ≡ none
  pub grows : s.consumer_sequence ≤ t.consumer_sequence

abbrev pub Good : Manager → Manager → Type 0
Good s t = Inv t × Keeps s t

-- The same consumers are there, with the same tags.
pub record Same (s t : Manager) : Type 0 where
  pub present :
      (id : ℕ) → Map.get s.active_consumers id ≢ none → Map.get t.active_consumers id ≢ none
  pub absent :
      (id : ℕ) → Map.get s.active_consumers id ≡ none → Map.get t.active_consumers id ≡ none
  pub tags : t.consumers_by_tag ≡ s.consumers_by_tag
  pub sequence : t.consumer_sequence ≡ s.consumer_sequence
  pub next_tag : s.next_tag ≤ t.next_tag

present_before :
    (s t : Manager) (id : ℕ)
    → Same s t
    → Map.get t.active_consumers id ≢ none
    → Map.get s.active_consumers id ≢ none
present_before s t id e h n = h (e.absent id n)

pub Same-Good : (s t : Manager) → Inv s → Same s t → Good s t
Same-Good s t v e = (
  record {
    distinct = subst Map.IsDistinct (sym e.tags) v.distinct;
    tags = λ tag id h.
        let w = v.tags tag id (ground (arith, e.tags)) in
        (e.present id w.0, omega (arith, w.1, e.next_tag));
    known = λ id h. let k = v.known id (present_before s t id e h) in omega (arith, k, e.sequence);
  },
  record {
    handles = λ tag id h a. ground (arith, e.tags);
    gone = λ id k h. e.absent id h;
    grows = omega (arith, e.sequence);
  },
)

pub Same-trans : (s t u : Manager) → Same s t → Same t u → Same s u
Same-trans s t u e f = record {
  present = λ id h. f.present id (e.present id h);
  absent = λ id h. f.absent id (e.absent id h);
  tags = ground (arith, e.tags, f.tags);
  sequence = ground (arith, e.sequence, f.sequence);
  next_tag = omega (arith, e.next_tag, f.next_tag);
}

-- Nothing is done to the registry.
pub quiet :
    (s t : Manager)
    → t.active_consumers ≡ s.active_consumers
    → t.consumers_by_tag ≡ s.consumers_by_tag
    → t.consumer_sequence ≡ s.consumer_sequence
    → s.next_tag ≤ t.next_tag
    → Same s t
quiet s t a b c d = record {
  present = λ id h. ground (arith, a);
  absent = λ id h. ground (arith, a);
  tags = b;
  sequence = c;
  next_tag = d;
}

-- A consumer that is there is written back.
pub touch :
    (s t : Manager) (id : ℕ) (q p : Consumer)
    → Map.get s.active_consumers id ≡ some q
    → t.active_consumers ≡ Map.set s.active_consumers id p
    → t.consumers_by_tag ≡ s.consumers_by_tag
    → t.consumer_sequence ≡ s.consumer_sequence
    → s.next_tag ≤ t.next_tag
    → Same s t
touch s t id q p e a b c d = record {
  present = λ j h. ground (arith, a, get-set s.active_consumers id j p);
  absent = λ j h. ground (arith, a, get-set s.active_consumers id j p);
  tags = b;
  sequence = c;
  next_tag = d;
}
