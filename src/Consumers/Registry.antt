-- ===== src/Consumers/Registry.antt =====
-- The registry of src/consumers/consumer-manager.js: who consumes, under which tags, and the set-up of a
-- consumer on its channel. What an await brings back is an event. Consumers, tags, set-ups,
-- recoveries and removals are numbered, and no number is used again.
pub mod Steps
pub mod Handles
pub mod Tags
pub mod Recovery
pub mod Fences
pub mod Unsubscribed
use rabbitmq.Base.{
  ℕ, zero, suc, ◌+◌, Bool, true, false, Option, none, some, ◌==◌, ◌&&◌, ◌||◌, not, if◌then◌else◌,
  Table, ident_ℕ, List, [], ◌∷◌, ◌++◌,
}
use rabbitmq.Base.Map

pub record Consumer : Type 0 where
  pub queue : ℕ
  pub no_ack : Bool
  pub channel : Option ℕ
  pub consumer_tag : Option ℕ
  pub watched_channel : Option ℕ
  pub cancelled : Bool
  pub epoch : ℕ

-- Who awaits a set-up: `subscribe`, `recreateAll`, or the recovery with that number.
pub data Owner : Type 0 where
  by_subscribe by_recreate : Owner
  by_loss : ℕ → Owner

-- What a set-up awaits: its channel, the release of one that it opened for nobody, `prefetch`,
-- `consume`, or the cancel of a consume for nobody.
pub data Phase : Type 0 where
  opening releasing cancelling : Phase
  prefetching consuming : ℕ → Phase

pub record Setup : Type 0 where
  pub consumer : ℕ
  pub owner : Owner
  pub phase : Phase

pub data Stage : Type 0 where
  sleeping setting_up : Stage

-- A run of `handleConsumerLoss`.
pub record Loss : Type 0 where
  pub consumer : ℕ
  pub owned_pool : Option ℕ
  pub known_epoch : ℕ
  pub attempt : ℕ
  pub stage : Stage

pub data Cause : Type 0 where
  subscribe_failed unsubscribed recovery_failed : Cause

-- A run of `#dropConsumer`, and before it the cancel of `unsubscribe`.
pub record Removal : Type 0 where
  pub consumer : ℕ
  pub cause : Cause
  pub is_cancelling : Bool

pub record Manager : Type 0 where
  pub active_consumers : Table ℕ Consumer
  pub consumers_by_tag : Table ℕ ℕ
  pub consumer_sequence : ℕ
  pub channel_pool : Option ℕ  -- `getChannelPool()`, where it is not closed
  pub setups : Table ℕ Setup
  pub losses : Table ℕ Loss
  pub removals : Table ℕ Removal
  pub disposing : ℕ  -- calls of `disposeAll` that await the worker pools
  pub next_tag : ℕ
  pub next_setup : ℕ
  pub next_loss : ℕ
  pub next_removal : ℕ

pub data Event : Type 0 where
  subscribes : ℕ → Bool → Event
  setup_returns : ℕ → Option ℕ → Event  -- `none` is a rejection
  unsubscribes : ℕ → Event
  cancel_returns : ℕ → Event
  drained : ℕ → Event
  broker_cancels : ℕ → Event
  channel_closes : ℕ → ℕ → Event
  wakes : ℕ → Event
  recreates_all : Event
  pool_becomes : Option ℕ → Event
  disposes_all : Event
  pools_terminate : Event

pub data Output : Type 0 where
  subscribed : ℕ → ℕ → Output  -- the consumer and its tag
  subscribe_rejects : ℕ → Output
  unsubscribe_returns : Bool → Output
  unsubscribe_throws : Output
  consumer_cancelled : ℕ → Output
  consumer_recovered : ℕ → Output
  consumer_lost : ℕ → Output
  watches : ℕ → ℕ → Output
  releases_channel : ℕ → Output
  cancels : ℕ → ℕ → Output  -- `channel.cancel` of a tag
  consumes : ℕ → ℕ → Output  -- `channel.consume` for a consumer

abbrev pub Step : Type 0
Step = Manager × List Output

infixl 5 ◌then_do◌
abbrev pub ◌then_do◌ : Step → (Manager → Step) → Step
(s, out) then_do f = let (s', out') = f s in (s', out ++ out')

unfoldable pub init : Manager
init = record {
  active_consumers = [];
  consumers_by_tag = [];
  consumer_sequence = 0;
  channel_pool = none;
  setups = [];
  losses = [];
  removals = [];
  disposing = 0;
  next_tag = 0;
  next_setup = 0;
  next_loss = 0;
  next_removal = 0;
}

-- `registerConsumer`.
abbrev pub fresh_consumer : ℕ → Bool → Consumer
fresh_consumer queue no_ack = record {
  queue = queue;
  no_ack = no_ack;
  channel = none;
  consumer_tag = none;
  watched_channel = none;
  cancelled = false;
  epoch = 0;
}

unfoldable pub register_consumer : Manager → ℕ → Bool → Manager
register_consumer s queue no_ack = record s {
  active_consumers = Map.set s.active_consumers s.consumer_sequence (fresh_consumer queue no_ack);
  consumer_sequence = s.consumer_sequence + 1;
}

-- `runSetup`: the epoch goes up before anything is awaited.
unfoldable pub run_setup : Manager → ℕ → Consumer → Owner → Manager
run_setup s id q owner = record s {
  active_consumers = Map.set s.active_consumers id (record q { epoch = q.epoch + 1 });
  setups = Map.set s.setups s.next_setup (record { consumer = id; owner = owner; phase = opening });
  next_setup = s.next_setup + 1;
}

unfoldable pub find_consumer_id_by_tag : Manager → ℕ → Option ℕ
find_consumer_id_by_tag s tag = Map.get s.consumers_by_tag tag

-- `none` of the outer is the error on a consumer that is not registered.
unfoldable pub queue_of : Option Consumer → Option (Option ℕ)
queue_of none = none
queue_of (some q) = some (some q.queue)

unfoldable pub find_queue_name : Manager → Option ℕ → Option (Option ℕ)
unfolding queue_of
find_queue_name s none = some none
find_queue_name s (some id) = queue_of (Map.get s.active_consumers id)

unfoldable pub find_queue_name_by_tag : Manager → ℕ → Option (Option ℕ)
unfolding find_queue_name find_consumer_id_by_tag
find_queue_name_by_tag s tag = find_queue_name s (find_consumer_id_by_tag s tag)

-- `#trackConsumerTag`, and `#watchChannelLoss` up to its listener.
unfoldable pub is_number : Option ℕ → ℕ → Bool
is_number none n = false
is_number (some m) n = m == n

unfoldable pub watch : Consumer → ℕ → ℕ → List Output
unfolding is_number
watch q id channel = if is_number q.watched_channel channel then [] else watches id channel ∷ []

unfoldable pub track : Manager → ℕ → Consumer → ℕ → Step
unfolding watch
track s id q channel = (
  record s {
    active_consumers = Map.set s.active_consumers id (record q {
      channel = some channel;
      consumer_tag = some s.next_tag;
      watched_channel = some channel;
    });
    consumers_by_tag = Map.set s.consumers_by_tag s.next_tag id;
    next_tag = s.next_tag + 1;
  },
  watch q id channel,
)

-- The tags of a consumer go with it.
unfoldable pub unless_owner : ℕ → ℕ → Option ℕ
unless_owner id owner = if owner == id then none else some owner

unfoldable pub drop_tags : Table ℕ ℕ → ℕ → Table ℕ ℕ
unfolding unless_owner
drop_tags t id = Map.sweep (unless_owner id) t

unfoldable pub begin_removal : Manager → ℕ → Cause → Bool → Manager
begin_removal s id cause is_cancelling = record s {
  removals =
      Map.set s.removals s.next_removal
        (record { consumer = id; cause = cause; is_cancelling = is_cancelling });
  next_removal = s.next_removal + 1;
}

unfoldable pub report : Cause → ℕ → Output
report subscribe_failed id = subscribe_rejects id
report unsubscribed id = unsubscribe_returns true
report recovery_failed id = consumer_lost id

-- `#dropConsumer` after its drain. The awaits that follow, of the workers and the channel, are only
-- followed by the report.
unfoldable pub remove : Manager → ℕ → Removal → Step
unfolding drop_tags report
remove s d m = (
  record s {
    consumers_by_tag = drop_tags s.consumers_by_tag m.consumer;
    active_consumers = Map.delete s.active_consumers m.consumer;
    removals = Map.delete s.removals d;
  },
  releases_channel m.consumer ∷ report m.cause m.consumer ∷ [],
)
