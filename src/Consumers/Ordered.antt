-- ===== src/Consumers/Ordered.antt =====
-- `subscribeSequential` of src/consumers/consumer-manager.js: a sequential processor, whose `onSuccess` and
-- `onFailure` settle on the channel that delivered. One channel, which throws once it has closed.
pub mod Kept
use rabbitmq.Base.{
  ℕ, zero, suc, Bool, true, false, ◌||◌, ◌==◌, if◌then◌else◌, Option, none, some, get_elem?, List,
  [], ◌∷◌, ◌++◌,
}
use rabbitmq.Consumers.Sequential
use rabbitmq.Consumers.Sequential.{
  Delivery, SequentialProcessor, Failure, Settled, succeeded, failed, arrives, handler_settles,
  sweeps,
}
use rabbitmq.Consumers.Settling
use rabbitmq.Consumers.Settling.{Action, ack, nack, Output, sent, processed}

pub record Ordered : Type 0 where
  pub processor : SequentialProcessor
  pub retired : List SequentialProcessor  -- those of earlier set-ups: their handlers may run still
  pub stale_timeout : ℕ
  pub no_ack : Bool
  pub delivered : List ℕ  -- tags
  pub ack_settled : List ℕ  -- those of the messages that are marked
  pub is_closed : Bool

-- What happens to the processor; a handler that an earlier one has started comes back; a settlement by
-- the application; the set-up that runs again on the same channel (a recovery); the end of the
-- consumer; and the loss of the channel.
pub data Event : Type 0 where
  processes : Sequential.Event → Event
  comes_back : ℕ → ℕ → Bool → ℕ → Event
  sets_up drops : Event
  settles : ℕ → Action → Event
  closes : Event

abbrev pub Step : Type 0
Step = Ordered × List Output

unfoldable pub init : ℕ → Bool → Ordered
init stale_timeout no_ack = record {
  processor = Sequential.init stale_timeout;
  retired = [];
  stale_timeout = stale_timeout;
  no_ack = no_ack;
  delivered = [];
  ack_settled = [];
  is_closed = false;
}

unfoldable pub contains : List ℕ → ℕ → Bool
contains [] tag = false
contains (t ∷ ts) tag = (t == tag) || contains ts tag

unfoldable pub settle_ack : Ordered → ℕ → Action → Step
unfolding contains
settle_ack s tag action =
    if contains s.ack_settled tag
    then (s, [])
    else (if s.is_closed
        then (s, [])
        else (record s { ack_settled = tag ∷ s.ack_settled }, sent tag action ∷ []))

-- Under `noAck` there is nothing to settle.
unfoldable pub settle_unless : Bool → Ordered → ℕ → Action → Step
unfolding settle_ack
settle_unless true s tag action = (s, [])
settle_unless false s tag action = settle_ack s tag action

-- Settled, then reported; a duplicate is not reported.
unfoldable pub report_of : Bool → Settled → List Output
report_of no_ack (succeeded d true) = []
report_of no_ack (succeeded d false) = processed d.tag ∷ []
report_of no_ack (failed d failure requeue) =
    Settling.failed d.tag (if no_ack then false else requeue) ∷ []

unfoldable pub action_of : Settled → Action
action_of (succeeded d duplicate) = ack
action_of (failed d failure requeue) = nack requeue

unfoldable pub tag_of : Settled → ℕ
tag_of (succeeded d duplicate) = d.tag
tag_of (failed d failure requeue) = d.tag

unfoldable pub on_settled : Ordered → Settled → Step
unfolding settle_unless report_of action_of tag_of
on_settled s x =
    let (s', out) = settle_unless s.no_ack s (tag_of x) (action_of x) in
    (s', out ++ report_of s.no_ack x)

unfoldable pub on_each : Ordered → List Settled → Step
unfolding on_settled
on_each s [] = (s, [])
on_each s (x ∷ xs) =
    let (s', out) = on_settled s x in let (s'', out') = on_each s' xs in (s'', out ++ out')

-- `attachAckControls`: the message comes with a mark that is not set.
unfoldable pub attach : List ℕ → Sequential.Event → List ℕ
attach tags (arrives d now) = d.tag ∷ tags
attach tags (handler_settles n ok now) = tags
attach tags (sweeps now) = tags

-- `createProcessor`: the processor in place is disposed of, and a new one takes over.
unfoldable pub create_processor : Ordered → Ordered
create_processor s = record s {
  processor = Sequential.init s.stale_timeout;
  retired = Sequential.dispose s.processor ∷ s.retired;
}

-- `#dropConsumer` disposes of it too.
unfoldable pub drop_consumer : Ordered → Ordered
drop_consumer s = record s { processor = Sequential.dispose s.processor }

unfoldable pub put : List SequentialProcessor → ℕ → SequentialProcessor → List SequentialProcessor
put [] k p = []
put (q ∷ qs) zero p = p ∷ qs
put (q ∷ qs) (suc k) p = q ∷ put qs k p

-- `#watchChannelLoss` disposes the processor.
unfoldable pub close : Ordered → Ordered
close s = record s { processor = Sequential.dispose s.processor; is_closed = true }

module _ (should_requeue : Delivery → Failure → Bool) where
  unfoldable pub process : Ordered → Sequential.Event → Step
  unfolding on_each attach
  process s e =
      let (p, out) = Sequential.step should_requeue s.processor e in
      on_each (record s { processor = p; delivered = attach s.delivered e }) out

  -- The callbacks of a processor settle on the channel, also when another has taken its place.
  unfoldable pub late : Ordered → ℕ → ℕ → Bool → ℕ → Option SequentialProcessor → Step
  unfolding on_each put
  late s k n ok now none = (s, [])
  late s k n ok now (some q) =
      let (p, out) = Sequential.step should_requeue q (handler_settles n ok now) in
      on_each (record s { retired = put s.retired k p }) out

  unfoldable pub step : Ordered → Event → Step
  unfolding process settle_ack close contains late create_processor drop_consumer
  step s (processes e) = process s e
  step s (comes_back k n ok now) = late s k n ok now (get_elem? s.retired k)
  step s sets_up = (create_processor s, [])
  step s drops = (drop_consumer s, [])
  step s (settles tag action) =
      if contains s.delivered tag then settle_ack s tag action else (s, [])
  step s closes = (close s, [])

  unfoldable pub run : Ordered → List Event → Step
  unfolding step
  run s [] = (s, [])
  run s (e ∷ es) = let (s', out) = step s e in let (s'', out') = run s' es in (s'', out ++ out')
