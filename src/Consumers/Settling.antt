-- ===== src/Consumers/Settling.antt =====
-- The settlement of deliveries in src/consumers/consumer-manager.js: the acknowledgement calls, the
-- consume callback of `subscribe`, and the wait of `#drainInFlight`. The handler and the decoding are
-- one asynchronous step, whose outcome is an event. Whether the channel throws is part of an event.
pub mod Once
pub mod Drain
use rabbitmq.Base.{
  ℕ, zero, suc, ◌+◌, ◌-◌, Bool, true, false, Option, none, some, ltb, ◌==◌, if◌then◌else◌, Table,
  ident_ℕ, List, [], ◌∷◌, ◌++◌,
}
use rabbitmq.Base.Map
use rabbitmq.Consumers.Retry.{RetryPolicy, Marks, should_requeue}

-- A message with what `attachAckControls` adds. It runs while its handler does.
pub record Message : Type 0 where
  pub marks : Marks
  pub ack_settled : Bool
  pub is_running : Bool

pub record Consumer : Type 0 where
  pub no_ack : Bool
  pub retry_policy : RetryPolicy
  pub messages : Table ℕ Message  -- by delivery tag
  pub in_flight : ℕ
  pub drain_waiters : ℕ

pub data Action : Type 0 where
  ack : Action
  nack : Bool → Action  -- with its `requeue`

-- What the broker gets, and what is reported: 'messageProcessed', 'messageFailed' with its `requeued`,
-- and the promises of `#drainInFlight` that resolve.
pub data Output : Type 0 where
  sent : ℕ → Action → Output
  processed : ℕ → Output
  failed : ℕ → Bool → Output
  drained : ℕ → Output

pub data Event : Type 0 where
  arrives : ℕ → Marks → Event
  handler_succeeds : ℕ → Bool → Event  -- with whether the channel throws
  handler_fails : ℕ → Bool → Bool → Event  -- with `error.retryable === false`, and the channel
  settles : ℕ → Action → Bool → Event  -- `ackMessage` or `nackMessage`, by the application
  drains : Event

abbrev pub Result : Type 0
Result = Consumer × List Output

unfoldable pub init : Bool → RetryPolicy → Consumer
init no_ack retry_policy = record {
  no_ack = no_ack;
  retry_policy = retry_policy;
  messages = [];
  in_flight = 0;
  drain_waiters = 0;
}

-- `settleAck`, and but for the error that they pass on `ackMessage` and `nackMessage`.
unfoldable pub settle_ack : Message → ℕ → Action → Bool → Message × List Output
settle_ack m tag action throws =
    if m.ack_settled
    then (m, [])
    else if throws
    then (m, [])
    else (record m { ack_settled = true }, sent tag action ∷ [])

-- The delivery of a message: a delivery tag comes once.
unfoldable pub arrive : Consumer → ℕ → Marks → Option Message → Result
arrive s tag marks none = (
  record s {
    messages =
        Map.set s.messages tag (record { marks = marks; ack_settled = false; is_running = true });
    in_flight = s.in_flight + 1;
  },
  [],
)
arrive s tag marks (some m) = (s, [])

-- The `finally` part: the last handler resolves those that wait.
unfoldable pub leave : Consumer → Result
leave s =
    let n = s.in_flight - 1 in
    if n == 0
    then (
      record s { in_flight = n; drain_waiters = 0 },
      (if ltb 0 s.drain_waiters then drained s.drain_waiters ∷ [] else []),
    )
    else (record s { in_flight = n }, [])

unfoldable pub store : Consumer → ℕ → Message → Consumer
store s tag m = record s { messages = Map.set s.messages tag m }

-- Under `noAck` there is nothing to settle.
unfoldable pub settle_unless : Bool → Message → ℕ → Action → Bool → Message × List Output
unfolding settle_ack
settle_unless true m tag action throws = (m, [])
settle_unless false m tag action throws = settle_ack m tag action throws

-- Settled, then reported, then counted out.
unfoldable pub conclude : Consumer → ℕ → Message × List Output → Output → Result
unfolding leave store
conclude s tag (m, out) report =
    let (s', out') = leave (store s tag m) in (s', out ++ (report ∷ out'))

unfoldable pub finish : Consumer → ℕ → Message → Action → Bool → Output → Result
unfolding settle_unless conclude
finish s tag m action throws report =
    conclude s tag (settle_unless s.no_ack (record m { is_running = false }) tag action throws)
      report

unfoldable pub succeed : Consumer → ℕ → Bool → Option Message → Result
unfolding finish
succeed s tag throws none = (s, [])
succeed s tag throws (some m) =
    if m.is_running then finish s tag m ack throws (processed tag) else (s, [])

unfoldable pub fail : Consumer → ℕ → Bool → Bool → Option Message → Result
unfolding finish
fail s tag is_final throws none = (s, [])
fail s tag is_final throws (some m) =
    let requeue = should_requeue m.marks is_final s.retry_policy in
    if m.is_running
    then finish s tag m (nack requeue) throws (failed tag (if s.no_ack then false else requeue))
    else (s, [])

unfoldable pub settle : Consumer → ℕ → Action → Bool → Option Message → Result
unfolding settle_ack store
settle s tag action throws none = (s, [])
settle s tag action throws (some m) =
    let (m', out) = settle_ack m tag action throws in (store s tag m', out)

-- `#drainInFlight` up to its `await`.
unfoldable pub drain : Consumer → Result
drain s =
    if s.in_flight == 0
    then (s, drained 1 ∷ [])
    else (record s { drain_waiters = s.drain_waiters + 1 }, [])

unfoldable pub step : Consumer → Event → Result
unfolding arrive succeed fail settle drain
step s (arrives tag marks) = arrive s tag marks (Map.get s.messages tag)
step s (handler_succeeds tag throws) = succeed s tag throws (Map.get s.messages tag)
step s (handler_fails tag is_final throws) = fail s tag is_final throws (Map.get s.messages tag)
step s (settles tag action throws) = settle s tag action throws (Map.get s.messages tag)
step s drains = drain s

unfoldable pub run : Consumer → List Event → Result
unfolding step
run s [] = (s, [])
run s (e ∷ es) = let (s', out) = step s e in let (s'', out') = run s' es in (s'', out ++ out')
