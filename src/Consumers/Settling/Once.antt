-- ===== src/Consumers/Settling/Once.antt =====
-- The broker hears of a delivery once.
use rabbitmq.Base.{
  ℕ, ◌+◌, ◌≤◌, ◌≡◌, refl, Bool, true, false, Option, none, some, ◌==◌, if◌then◌else◌, ident_ℕ, List,
  [], ◌∷◌, arith,
}
use rabbitmq.Base.Map
use rabbitmq.Base.Map.{get-set}
use rabbitmq.Base.Tally.{sum_list, sum_list-append}
use rabbitmq.Consumers.Retry.{RetryPolicy, Marks, should_requeue}
use rabbitmq.Consumers.Settling.{
  Message, Consumer, Action, ack, nack, Output, sent, processed, failed, drained, Event, arrives,
  handler_succeeds, handler_fails, settles, drains, Result, init, settle_ack, arrive, leave, store,
  finish, conclude, settle_unless, succeed, fail, settle, drain, step, run,
}

module _ (tag : ℕ) where
  unfoldable pub sends : Output → ℕ
  sends (sent t action) = if t == tag then 1 else 0
  sends (processed t) = 0
  sends (failed t requeued) = 0
  sends (drained n) = 0

  abbrev pub settled : Option Message → ℕ
  settled none = 0
  settled (some m) = if m.ack_settled then 1 else 0

  unfoldable pub settled_in : Consumer → ℕ
  settled_in s = settled (Map.get s.messages tag)

  -- The message is marked as settled just when the broker has heard of it.
  abbrev Agrees : ℕ → Result → Type 0
  Agrees n r = settled_in r.0 ≡ n + sum_list sends r.1

  settle_ack-Agrees :
      (s : Consumer) (t : ℕ) (m : Message) (action : Action) (throws : Bool)
      → Map.get s.messages t ≡ some m
      → Agrees
          (settled_in s)
          (store s t (settle_ack m t action throws).0, (settle_ack m t action throws).1)
  unfolding settle_ack store settled_in sends
  settle_ack-Agrees s t m action throws e =
      ground (arith, get-set s.messages t tag (settle_ack m t action throws).0, e)

  leave_sends : (s : Consumer) → Agrees (settled_in s) (leave s)
  unfolding leave settled_in sends
  leave_sends s = ground arith

  -- A write that keeps the mark.
  store_mark :
      (s : Consumer) (t : ℕ) (m m' : Message)
      → Map.get s.messages t ≡ some m
      → m'.ack_settled ≡ m.ack_settled
      → settled_in (store s t m') ≡ settled_in s
  unfolding store settled_in
  store_mark s t m m' e h = ground (arith, get-set s.messages t tag m', e)

  conclude-Agrees :
      (s : Consumer) (t : ℕ) (x : Message × List Output) (report : Output)
      → Agrees (settled_in s) (store s t x.0, x.1)
      → sends report ≡ 0
      → Agrees (settled_in s) (conclude s t x report)
  unfolding conclude
  conclude-Agrees s t (m, out) report h z =
      let l = leave (store s t m) in
      omega (arith, h, z, leave_sends (store s t m), sum_list-append sends out (report ∷ l.1))

  settle_unless-Agrees :
      (b : Bool) (s : Consumer) (t : ℕ) (m m' : Message) (action : Action) (throws : Bool)
      → Map.get s.messages t ≡ some m
      → m'.ack_settled ≡ m.ack_settled
      → let x = settle_unless b m' t action throws in Agrees (settled_in s) (store s t x.0, x.1)
  settle_unless-Agrees true s t m m' action throws e h =
      unfold settle_unless in omega (arith, store_mark s t m m' e h)
  settle_unless-Agrees false s t m m' action throws e h =
      unfold settle_unless settle_ack store settled_in sends in
      ground (arith, get-set s.messages t tag (settle_ack m' t action throws).0, e, h)

  finish-Agrees :
      (s : Consumer) (t : ℕ) (m : Message) (action : Action) (throws : Bool) (report : Output)
      → Map.get s.messages t ≡ some m
      → sends report ≡ 0
      → Agrees (settled_in s) (finish s t m action throws report)
  unfolding finish
  finish-Agrees s t m action throws report e z =
      let m' = record m { is_running = false } in
      conclude-Agrees s t (settle_unless s.no_ack m' t action throws) report
        (settle_unless-Agrees s.no_ack s t m m' action throws e refl) z

  -- Nothing happens.
  idle-Agrees : (s : Consumer) → Agrees (settled_in s) (s, [])
  idle-Agrees s = omega arith

  choose-Agrees :
      (b : Bool) (n : ℕ) (x y : Result) → Agrees n x → Agrees n y → Agrees n (if b then x else y)
  choose-Agrees true n x y p q = p
  choose-Agrees false n x y p q = q

  arrive-Agrees :
      (s : Consumer) (t : ℕ) (marks : Marks) (o : Option Message)
      → Map.get s.messages t ≡ o
      → Agrees (settled_in s) (arrive s t marks o)
  unfolding arrive settled_in
  arrive-Agrees s t marks none e = ground (
    arith,
    e,
    get-set s.messages t tag (record { marks = marks; ack_settled = false; is_running = true }),
  )
  arrive-Agrees s t marks (some m) e = omega arith

  succeed-Agrees :
      (s : Consumer) (t : ℕ) (throws : Bool) (o : Option Message)
      → Map.get s.messages t ≡ o
      → Agrees (settled_in s) (succeed s t throws o)
  unfolding succeed
  succeed-Agrees s t throws none e = idle-Agrees s
  succeed-Agrees s t throws (some m) e =
      choose-Agrees m.is_running _ (finish s t m ack throws (processed t)) (s, [])
        (finish-Agrees s t m ack throws (processed t) e (unfold sends in refl)) (idle-Agrees s)

  fail-Agrees :
      (s : Consumer) (t : ℕ) (is_final throws : Bool) (o : Option Message)
      → Map.get s.messages t ≡ o
      → Agrees (settled_in s) (fail s t is_final throws o)
  unfolding fail
  fail-Agrees s t is_final throws none e = idle-Agrees s
  fail-Agrees s t is_final throws (some m) e =
      let requeue = should_requeue m.marks is_final s.retry_policy in
      let report = failed t (if s.no_ack then false else requeue) in
      choose-Agrees m.is_running _ (finish s t m (nack requeue) throws report) (s, [])
        (finish-Agrees s t m (nack requeue) throws report e (unfold sends in refl)) (idle-Agrees s)

  settle-Agrees :
      (s : Consumer) (t : ℕ) (action : Action) (throws : Bool) (o : Option Message)
      → Map.get s.messages t ≡ o
      → Agrees (settled_in s) (settle s t action throws o)
  unfolding settle
  settle-Agrees s t action throws none e = idle-Agrees s
  settle-Agrees s t action throws (some m) e = settle_ack-Agrees s t m action throws e

  drain-Agrees : (s : Consumer) → Agrees (settled_in s) (drain s)
  unfolding drain settled_in sends
  drain-Agrees s = ground arith

  step-Agrees : (s : Consumer) (e : Event) → Agrees (settled_in s) (step s e)
  unfolding step
  step-Agrees s (arrives t marks) = arrive-Agrees s t marks (Map.get s.messages t) refl
  step-Agrees s (handler_succeeds t throws) = succeed-Agrees s t throws (Map.get s.messages t) refl
  step-Agrees s (handler_fails t is_final throws) =
      fail-Agrees s t is_final throws (Map.get s.messages t) refl
  step-Agrees s (settles t action throws) =
      settle-Agrees s t action throws (Map.get s.messages t) refl
  step-Agrees s drains = drain-Agrees s

  run-Agrees : (es : List Event) (s : Consumer) → Agrees (settled_in s) (run s es)
  unfolding run
  run-Agrees [] s = idle-Agrees s
  run-Agrees (e ∷ es) s =
      let r = step s e in
      omega (arith, step-Agrees s e, run-Agrees es r.0, sum_list-append sends r.1 (run r.0 es).1)

  settled-le-one : (o : Option Message) → settled o ≤ 1
  settled-le-one none = omega arith
  settled-le-one (some m) = ground arith

  -- Whatever the handlers and the application do, and in whatever order, the broker gets one ack or
  -- nack for a delivery at most, and it got one just when the message is marked as settled.
  pub sends-settled :
      (no_ack : Bool) (policy : RetryPolicy) (es : List Event)
      → let r = run (init no_ack policy) es in
        (sum_list sends r.1 ≤ 1) × (sum_list sends r.1 ≡ settled (Map.get r.0.messages tag))
  unfolding init settled_in Map.get
  sends-settled no_ack policy es =
      let r = run (init no_ack policy) es in
      let h = run-Agrees es (init no_ack policy) in
      let b = settled-le-one (Map.get r.0.messages tag) in (omega (arith, h, b), omega (arith, h))
