-- ===== src/Messaging/Responder.antt =====
-- `respond` of src/messaging/rpc.js: what becomes of one delivery. The handler and the publishes of a reply
-- are the environment's: an argument says how each of them ends.
use rabbitmq.Base.{
  ℕ, Bool, true, false, Option, none, some, ltb, ◌==◌, if◌then◌else◌, List, [], ◌∷◌,
}

pub record Delivery : Type 0 where
  pub deadline : Option ℕ  -- `x-rpc-deadline`, where it is a number
  pub reply_to : Option ℕ
  pub time : ℕ

pub data Reply : Type 0 where
  result error_envelope failure_envelope : Reply

-- How the environment's parts end: the handler, and the publish of each reply. A publish that rejects may
-- have been received all the same: only its confirm is missing.
pub record Endings : Type 0 where
  pub handler_returns : Bool
  pub is_published : Reply → Bool

-- Whether the handler was called, which replies were tried, and whether the callback of `subscribe`
-- resolves, so that the delivery is acked, or throws.
pub record Response : Type 0 where
  pub is_handled : Bool
  pub tried : List Reply
  pub resolves : Bool

unfoldable pub is_stale : Option ℕ → ℕ → Bool
is_stale none now = false
is_stale (some deadline) now = if deadline == 0 then false else ltb deadline now

-- The reply of a handler that has returned: it never throws.
unfoldable pub reply : Endings → Response
reply e =
    if e.is_published result
    then record { is_handled = true; tried = result ∷ []; resolves = true }
    else record { is_handled = true; tried = result ∷ failure_envelope ∷ []; resolves = true }

-- The reply of a handler that has thrown.
unfoldable pub reply_error : Bool → Endings → Response
reply_error reply_on_error e =
    if reply_on_error
    then record {
      is_handled = true;
      tried = error_envelope ∷ [];
      resolves = e.is_published error_envelope;
    }
    else record { is_handled = true; tried = []; resolves = false }

unfoldable pub answer : Bool → Endings → Option ℕ → Response
unfolding reply reply_error
answer reply_on_error e none = record {
  is_handled = true;
  tried = [];
  resolves = e.handler_returns;
}
answer reply_on_error e (some reply_to) =
    if e.handler_returns then reply e else reply_error reply_on_error e

unfoldable pub respond : Bool → Delivery → Endings → Response
unfolding is_stale answer
respond reply_on_error d e =
    if is_stale d.deadline d.time
    then record { is_handled = false; tried = []; resolves = true }
    else answer reply_on_error e d.reply_to
