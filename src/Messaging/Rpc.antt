-- ===== src/Messaging/Rpc.antt =====
-- The requester of src/messaging/rpc.js: requests in flight, and the channel that their replies come on.
-- A reply's decoding, the publish, the timer and the set-up of the reply consumer come back as events.
-- Correlation ids are unique, and requests are numbers.
pub mod Requests
pub mod Route
use rabbitmq.Base.{
  ℕ, zero, suc, ◌+◌, Bool, true, false, not, Option, none, some, ◌==◌, if◌then◌else◌, Table,
  ident_ℕ, List, [], ◌∷◌, ◌++◌,
}
use rabbitmq.Base.Map

-- A reply that is being decoded, with whether it carries `x-rpc-error`.
pub record Reply : Type 0 where
  pub call : ℕ
  pub is_error : Bool

pub record Rpc : Type 0 where
  pub pending_requests : Table ℕ ℕ  -- by correlation id
  pub decoding : List Reply
  pub reply_channel : Option ℕ
  pub reply_setup : Option ℕ  -- the epoch in which the set-up in flight began
  pub connection_epoch : ℕ

pub data Reason : Type 0 where
  timed_out connection_lost unroutable responder_error undecodable publish_failed : Reason

pub data Settled : Type 0 where
  resolved : ℕ → Settled
  rejected : ℕ → Reason → Settled

pub data Event : Type 0 where
  ensures : Event
  setup_succeeds : ℕ → Event
  setup_fails : Event
  requests : ℕ → ℕ → Event
  replies : ℕ → Bool → Event
  decodes : ℕ → Bool → Event
  returns : ℕ → Event
  times_out : ℕ → Event
  publish_fails : ℕ → Event
  loses_connection : Event
  loses_channel : ℕ → Event

abbrev pub Result : Type 0
Result = Rpc × List Settled

unfoldable pub init : Rpc
init = record {
  pending_requests = [];
  decoding = [];
  reply_channel = none;
  reply_setup = none;
  connection_epoch = 0;
}

-- `#settlePending` with a rejection.
unfoldable pub settle_pending : Rpc → ℕ → Option ℕ → Reason → Result
settle_pending s id none reason = (s, [])
settle_pending s id (some call) reason =
    (record s { pending_requests = Map.delete s.pending_requests id }, rejected call reason ∷ [])

unfoldable pub reject_each : Table ℕ ℕ → List Settled
reject_each [] = []
reject_each ((id, call) ∷ t) = rejected call connection_lost ∷ reject_each t

unfoldable pub reject_all_pending : Rpc → Result
unfolding reject_each
reject_all_pending s = (record s { pending_requests = [] }, reject_each s.pending_requests)

-- `handleConnectionLoss`.
unfoldable pub lose_connection : Rpc → Result
unfolding reject_all_pending
lose_connection s =
    reject_all_pending
      (record s { connection_epoch = s.connection_epoch + 1; reply_channel = none })

unfoldable pub is_channel : Option ℕ → ℕ → Bool
is_channel none c = false
is_channel (some d) c = d == c

-- `#invalidateReplyChannel`.
unfoldable pub invalidate : Rpc → ℕ → Result
unfolding is_channel reject_all_pending
invalidate s c =
    if is_channel s.reply_channel c
    then reject_all_pending (record s { reply_channel = none })
    else (s, [])

-- `#ensureReplyConsumer`: a channel in place, or the set-up in flight, is shared.
unfoldable pub ensure : Rpc → Option ℕ → Option ℕ → Rpc
ensure s none none = record s { reply_setup = some s.connection_epoch }
ensure s _ _ = s

-- The end of `#setupReplyConsumer`: a set-up of an earlier connection is not installed.
unfoldable pub install : Rpc → Option ℕ → ℕ → Rpc
install s none c = s
install s (some epoch) c =
    if epoch == s.connection_epoch
    then record s { reply_setup = none; reply_channel = some c }
    else record s { reply_setup = none }

unfoldable pub register : Rpc → ℕ → ℕ → Option ℕ → Rpc
register s id call none = record s { pending_requests = Map.set s.pending_requests id call }
register s id call (some other) = s

-- `#handleReply` up to its `await`.
unfoldable pub receive : Rpc → ℕ → Bool → Option ℕ → Rpc
receive s id is_error none = s
receive s id is_error (some call) = record s {
  pending_requests = Map.delete s.pending_requests id;
  decoding = record { call = call; is_error = is_error } ∷ s.decoding;
}

unfoldable pub take_reply : List Reply → ℕ → Option (Reply × List Reply)
take_reply [] n = none
take_reply (r ∷ rs) zero = some (r, rs)
take_reply (r ∷ rs) (suc n) = elim (take_reply rs n) [
  | none ↦ none
  | some (q, qs) ↦ some (q, r ∷ qs)
]

unfoldable pub verdict : Reply → Bool → Settled
verdict r false = rejected r.call undecodable
verdict r true = if r.is_error then rejected r.call responder_error else resolved r.call

unfoldable pub conclude : Rpc → Bool → Option (Reply × List Reply) → Result
unfolding verdict
conclude s ok none = (s, [])
conclude s ok (some (r, rest)) = (record s { decoding = rest }, verdict r ok ∷ [])

unfoldable pub step : Rpc → Event → Result
unfolding settle_pending lose_connection invalidate ensure install register receive take_reply
    conclude
step s ensures = (ensure s s.reply_channel s.reply_setup, [])
step s (setup_succeeds c) = (install s s.reply_setup c, [])
step s setup_fails = (record s { reply_setup = none }, [])
step s (requests id call) = (register s id call (Map.get s.pending_requests id), [])
step s (replies id is_error) = (receive s id is_error (Map.get s.pending_requests id), [])
step s (decodes n ok) = conclude s ok (take_reply s.decoding n)
step s (returns id) = settle_pending s id (Map.get s.pending_requests id) unroutable
step s (times_out id) = settle_pending s id (Map.get s.pending_requests id) timed_out
step s (publish_fails id) = settle_pending s id (Map.get s.pending_requests id) publish_failed
step s loses_connection = lose_connection s
step s (loses_channel c) = invalidate s c

unfoldable pub run : Rpc → List Event → Result
unfolding step
run s [] = (s, [])
run s (e ∷ es) = let (s', out) = step s e in let (s'', out') = run s' es in (s'', out ++ out')
