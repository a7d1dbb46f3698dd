-- ===== src/Consumers/Ordered/Kept.antt =====
-- No delivery of a sequential subscription is lost.
use rabbitmq.Base.{
  ℕ, ◌+◌, ◌≤◌, ◌≡◌, ◌≢◌, ◌∙◌, refl, Bool, true, false, ◌==◌, if◌then◌else◌, List, [], ◌∷◌, ◌++◌,
  ident_ℕ, Option, none, some, get_elem?, arith,
}
use rabbitmq.Base.Map
use rabbitmq.Base.Tally.{sum_list, sum_list-append}
use rabbitmq.Consumers.Sequential
use rabbitmq.Consumers.Sequential.{
  Delivery, Failure, Settled, succeeded, failed, SequentialProcessor, handler_settles,
}
use rabbitmq.Consumers.Sequential.Settlement
use rabbitmq.Consumers.Sequential.Settlement.{held, settlements, hits, step-Accounts}
use rabbitmq.Consumers.Settling.{Action, Output, sent, processed, drained}
use rabbitmq.Consumers.Settling
use rabbitmq.Consumers.Ordered.{
  Ordered, Event, processes, settles, closes, Step, init, contains, settle_ack, settle_unless,
  report_of, tag_of, action_of, on_settled, on_each, attach, close, comes_back, sets_up, drops,
  create_processor, drop_consumer, put, late, process, step, run,
}

module _ (tag : ℕ) where
  abbrev pub sends : Output → ℕ
  sends (sent t action) = if t == tag then 1 else 0
  sends (processed t) = 0
  sends (Settling.failed t requeue) = 0
  sends (drained n) = 0

  abbrev marked : Ordered → ℕ
  marked s = if contains s.ack_settled tag then 1 else 0

  -- What the broker gets is marked.
  abbrev Counts : Ordered → Step → Type 0
  Counts s r = marked s + sum_list sends r.1 ≡ marked r.0

  settle_ack-Counts : (s : Ordered) (t : ℕ) (action : Action) → Counts s (settle_ack s t action)
  unfolding settle_ack contains
  settle_ack-Counts s t action = ground arith

  report-sends : (no_ack : Bool) (x : Settled) → sum_list sends (report_of no_ack x) ≡ 0
  unfolding report_of
  report-sends no_ack (succeeded d true) = refl
  report-sends no_ack (succeeded d false) = refl
  report-sends no_ack (failed d failure requeue) = refl

  settle_unless-Counts :
      (no_ack : Bool) (s : Ordered) (t : ℕ) (action : Action)
      → Counts s (settle_unless no_ack s t action)
  unfolding settle_unless
  settle_unless-Counts true s t action = omega arith
  settle_unless-Counts false s t action = settle_ack-Counts s t action

  on_settled-Counts : (s : Ordered) (x : Settled) → Counts s (on_settled s x)
  unfolding on_settled
  on_settled-Counts s x =
      let r = settle_unless s.no_ack s (tag_of x) (action_of x) in
      omega (
        arith,
        settle_unless-Counts s.no_ack s (tag_of x) (action_of x),
        sum_list-append sends r.1 (report_of s.no_ack x),
        report-sends s.no_ack x,
      )

  on_each-Counts : (xs : List Settled) (s : Ordered) → Counts s (on_each s xs)
  unfolding on_each
  on_each-Counts [] s = omega arith
  on_each-Counts (x ∷ xs) s =
      let r = on_settled s x in
      omega (
        arith,
        on_settled-Counts s x,
        on_each-Counts xs r.0,
        sum_list-append sends r.1 (on_each r.0 xs).1,
      )

  choose-Counts :
      (b : Bool) (s : Ordered) (r r' : Step)
      → Counts s r
      → Counts s r'
      → Counts s (if b then r else r')
  choose-Counts true s r r' h h' = h
  choose-Counts false s r r' h h' = h'

  -- On a channel that is open and takes acks, what is settled is marked.
  abbrev Opens : Ordered → Type 0
  Opens s = (s.no_ack ≡ false) × (s.is_closed ≡ false)

  abbrev Marks : ℕ → Step → Type 0
  Marks n r = Opens r.0 × (marked r.0 ≡ 0 → n ≡ 0)

  settle_ack-Marks :
      (s : Ordered) (t : ℕ) (action : Action)
      → Opens s
      → Marks (if t == tag then 1 else 0) (settle_ack s t action)
  unfolding settle_ack contains
  settle_ack-Marks s t action o = ground (arith, o.0, o.1)

  settle_unless-Marks :
      (no_ack : Bool) (s : Ordered) (t : ℕ) (action : Action)
      → no_ack ≡ false
      → Opens s
      → Marks (if t == tag then 1 else 0) (settle_unless no_ack s t action)
  unfolding settle_unless
  settle_unless-Marks true s t action e o = cc
  settle_unless-Marks false s t action e o = settle_ack-Marks s t action o

  on_settled-Marks :
      (s : Ordered) (x : Settled) → Opens s → Marks (settlements tag x) (on_settled s x)
  unfolding on_settled settlements hits tag_of
  on_settled-Marks s (succeeded d duplicate) o = settle_unless-Marks s.no_ack s d.tag _ o.0 o
  on_settled-Marks s (failed d failure requeue) o = settle_unless-Marks s.no_ack s d.tag _ o.0 o

  on_each-Marks :
      (xs : List Settled) (s : Ordered)
      → Opens s
      → Marks (sum_list (settlements tag) xs) (on_each s xs)
  unfolding on_each
  on_each-Marks [] s o = (o, λ h. refl)
  on_each-Marks (x ∷ xs) s o =
      let a = on_settled-Marks s x o in
      let b = on_each-Marks xs (on_settled s x).0 a.0 in
      (b.0, λ h. omega (arith, b.1 h, a.1 (omega (arith, h, on_each-Counts xs (on_settled s x).0))))

  -- How often the delivery arrives.
  abbrev pub arrivals : List Event → ℕ
  arrivals [] = 0
  arrivals (processes e ∷ es) = Settlement.arrivals tag (e ∷ []) + arrivals es
  arrivals (settles t action ∷ es) = arrivals es
  arrivals (comes_back k n ok now ∷ es) = arrivals es
  arrivals (sets_up ∷ es) = arrivals es
  arrivals (drops ∷ es) = arrivals es
  arrivals (closes ∷ es) = arrivals es

  abbrev pub StaysSetUp : List Event → Type 0
  StaysSetUp [] = Unit
  StaysSetUp (processes e ∷ es) = StaysSetUp es
  StaysSetUp (settles t action ∷ es) = StaysSetUp es
  StaysSetUp (comes_back k n ok now ∷ es) = StaysSetUp es
  StaysSetUp (sets_up ∷ es) = ⊥
  StaysSetUp (drops ∷ es) = ⊥
  StaysSetUp (closes ∷ es) = ⊥

  StaysSetUp-head : (e : Event) (es : List Event) → StaysSetUp (e ∷ es) → StaysSetUp (e ∷ [])
  StaysSetUp-head (processes e) es w = tt
  StaysSetUp-head (settles t action) es w = tt
  StaysSetUp-head (comes_back k n ok now) es w = tt
  StaysSetUp-head sets_up es w = w
  StaysSetUp-head drops es w = w
  StaysSetUp-head closes es w = w

  StaysSetUp-tail : (e : Event) (es : List Event) → StaysSetUp (e ∷ es) → StaysSetUp es
  StaysSetUp-tail (processes e) es w = w
  StaysSetUp-tail (settles t action) es w = w
  StaysSetUp-tail (comes_back k n ok now) es w = w
  StaysSetUp-tail sets_up es w = absurd w
  StaysSetUp-tail drops es w = absurd w
  StaysSetUp-tail closes es w = absurd w

  arrivals-cons :
      (e : Event) (es : List Event) → arrivals (e ∷ es) ≡ arrivals (e ∷ []) + arrivals es
  arrivals-cons (processes e) es = omega arith
  arrivals-cons (settles t action) es = omega arith
  arrivals-cons (comes_back k n ok now) es = omega arith
  arrivals-cons sets_up es = omega arith
  arrivals-cons drops es = omega arith
  arrivals-cons closes es = omega arith

  abbrev pub kept : Ordered → ℕ
  kept s = held tag s.processor

  -- The processor goes on with well-formed maps, and a delivery that is not marked is kept.
  abbrev Keeps : ℕ → Step → Type 0
  Keeps n r = Map.IsDistinct r.0.processor.pending × Opens r.0 × (marked r.0 ≡ 0 → kept r.0 ≡ n)

  abbrev IsFit : Ordered → Type 0
  IsFit s = Map.IsDistinct s.processor.pending × Opens s

  abbrev pub StaysOpen : List Event → Type 0
  StaysOpen [] = Unit
  StaysOpen (e ∷ es) = (e ≢ closes) × StaysOpen es

  settle_ack-processor :
      (s : Ordered) (t : ℕ) (action : Action) → (settle_ack s t action).0.processor ≡ s.processor
  unfolding settle_ack
  settle_ack-processor s t action = ground arith

  settle_ack-Keeps :
      (s : Ordered) (t : ℕ) (action : Action)
      → Map.IsDistinct s.processor.pending
      → Opens s
      → Keeps (kept s + 0) (settle_ack s t action)
  settle_ack-Keeps s t action v o =
      let e = settle_ack-processor s t action in
      (rw (e) v, (settle_ack-Marks s t action o).0, λ h. rw (e) (omega arith))

  choose-Keeps :
      (b : Bool) (n : ℕ) (r r' : Step) → Keeps n r → Keeps n r' → Keeps n (if b then r else r')
  choose-Keeps true n r r' h h' = h
  choose-Keeps false n r r' h h' = h'

  settle_unless-processor :
      (no_ack : Bool) (s : Ordered) (t : ℕ) (action : Action)
      → (settle_unless no_ack s t action).0.processor ≡ s.processor
  unfolding settle_unless
  settle_unless-processor true s t action = refl
  settle_unless-processor false s t action = settle_ack-processor s t action

  on_each-processor : (xs : List Settled) (s : Ordered) → (on_each s xs).0.processor ≡ s.processor
  unfolding on_each on_settled
  on_each-processor [] s = refl
  on_each-processor (x ∷ xs) s =
      on_each-processor xs (on_settled s x).0
      ∙ settle_unless-processor s.no_ack s (tag_of x) (action_of x)

  module _ (should_requeue : Delivery → Failure → Bool) where
    late-Counts :
        (s : Ordered) (k n : ℕ) (ok : Bool) (now : ℕ) (o : Option SequentialProcessor)
        → Counts s (late should_requeue s k n ok now o)
    unfolding late
    late-Counts s k n ok now none = omega arith
    late-Counts s k n ok now (some q) =
        let r = Sequential.step should_requeue q (handler_settles n ok now) in
        on_each-Counts r.1 (record s { retired = put s.retired k r.0 })

    step-Counts : (s : Ordered) (e : Event) → Counts s (step should_requeue s e)
    unfolding step process close create_processor drop_consumer
    step-Counts s (processes e) =
        let r = Sequential.step should_requeue s.processor e in
        on_each-Counts r.1 (record s { processor = r.0; delivered = attach s.delivered e })
    step-Counts s (settles t action) =
        choose-Counts (contains s.delivered t) s (settle_ack s t action) (s, [])
          (settle_ack-Counts s t action) (omega arith)
    step-Counts s (comes_back k n ok now) = late-Counts s k n ok now (get_elem? s.retired k)
    step-Counts s sets_up = omega arith
    step-Counts s drops = omega arith
    step-Counts s closes = omega arith

    run-Counts : (es : List Event) (s : Ordered) → Counts s (run should_requeue s es)
    unfolding run
    run-Counts [] s = omega arith
    run-Counts (e ∷ es) s =
        let r = step should_requeue s e in
        omega (
          arith,
          step-Counts s e,
          run-Counts es r.0,
          sum_list-append sends r.1 (run should_requeue r.0 es).1,
        )

    process-Keeps :
        (s : Ordered) (e : Sequential.Event)
        → Map.IsDistinct s.processor.pending
        → Opens s
        → Keeps (kept s + Settlement.arrivals tag (e ∷ [])) (process should_requeue s e)
    unfolding process
    process-Keeps s e v o =
        let r = Sequential.step should_requeue s.processor e in
        let s' = record s { processor = r.0; delivered = attach s.delivered e } in
        let a = step-Accounts tag should_requeue s.processor e v in
        let b = on_each-Marks r.1 s' o in
        rw (on_each-processor r.1 s') (a.1, b.0, λ h. omega (arith, a.0, b.1 h))

    -- What an earlier processor settles does not touch the one in place.
    late-Keeps :
        (s : Ordered) (k n : ℕ) (ok : Bool) (now : ℕ) (o : Option SequentialProcessor)
        → IsFit s
        → Keeps (kept s + 0) (late should_requeue s k n ok now o)
    unfolding late
    late-Keeps s k n ok now none v = (v.0, v.1, λ h. omega arith)
    late-Keeps s k n ok now (some q) v =
        let r = Sequential.step should_requeue q (handler_settles n ok now) in
        let s' = record s { retired = put s.retired k r.0 } in
        let b = on_each-Marks r.1 s' v.1 in
        rw (on_each-processor r.1 s') (v.0, b.0, λ h. omega arith)

    settles-Keeps :
        (s : Ordered) (t : ℕ) (action : Action)
        → IsFit s
        → Keeps (kept s + 0) (step should_requeue s (settles t action))
    unfolding step
    settles-Keeps s t action v =
        choose-Keeps (contains s.delivered t) (kept s + 0) (settle_ack s t action) (s, [])
          (settle_ack-Keeps s t action v.0 v.1) (v.0, v.1, λ h. omega arith)

    step-Keeps :
        (s : Ordered) (e : Event)
        → IsFit s
        → StaysSetUp (e ∷ [])
        → Keeps (kept s + arrivals (e ∷ [])) (step should_requeue s e)
    unfolding step
    step-Keeps s (processes e) v w =
        let a = process-Keeps s e v.0 v.1 in (a.0, a.1, λ h. omega (arith, a.2 h))
    step-Keeps s (comes_back k n ok now) v w = late-Keeps s k n ok now (get_elem? s.retired k) v
    step-Keeps s (settles t action) v w = settles-Keeps s t action v
    step-Keeps s sets_up v w = absurd w
    step-Keeps s drops v w = absurd w
    step-Keeps s closes v w = absurd w

    run-Keeps :
        (es : List Event) (s : Ordered)
        → IsFit s
        → StaysSetUp es
        → Keeps (kept s + arrivals es) (run should_requeue s es)
    unfolding run
    run-Keeps [] s v w = (v.0, v.1, λ h. omega arith)
    run-Keeps (e ∷ es) s v w =
        let r = step should_requeue s e in
        let a = step-Keeps s e v (StaysSetUp-head e es w) in
        let b = run-Keeps es r.0 (a.0, a.1) (StaysSetUp-tail e es w) in
        (
          b.0,
          b.1,
          λ h. omega (arith, b.2 h, a.2 (omega (arith, h, run-Counts es r.0)), arrivals-cons e es),
        )

    step-IsFit :
        (s : Ordered) (e : Event) → IsFit s → e ≢ closes → IsFit (step should_requeue s e).0
    unfolding step create_processor drop_consumer Sequential.init Sequential.dispose
    step-IsFit s (processes e) v n = let a = process-Keeps s e v.0 v.1 in (a.0, a.1)
    step-IsFit s (comes_back k n ok now) v m =
        let a = late-Keeps s k n ok now (get_elem? s.retired k) v in (a.0, a.1)
    step-IsFit s (settles t action) v n = let a = settles-Keeps s t action v in (a.0, a.1)
    step-IsFit s sets_up v n = (tt, v.1)
    step-IsFit s drops v n = (tt, v.1)
    step-IsFit s closes v n = absurd (n refl)

    run-IsFit :
        (es : List Event) (s : Ordered) → IsFit s → StaysOpen es → IsFit (run should_requeue s es).0
    unfolding run
    run-IsFit [] s v w = v
    run-IsFit (e ∷ es) s v w = run-IsFit es (step should_requeue s e).0 (step-IsFit s e v w.0) w.1

    marked-le-one : (s : Ordered) → marked s ≤ 1
    marked-le-one s = ground arith

    -- Where the consumer acks, and on a channel that has stayed open through any history of set-ups,
    -- drops, handlers and settlements by the application: a delivery gets one ack or nack at most; and
    -- while the consumer is not set up again nor dropped, and the channel does not close, each delivery
    -- that has arrived meanwhile, or that the processor held before, is parked or has its handler
    -- running as long as it has got none, so none is lost.
    pub deliveries-are_kept :
        (stale_timeout : ℕ) (before es : List Event)
        → StaysOpen before
        → StaysSetUp es
        → let s = run should_requeue (init stale_timeout false) before in
          let r = run should_requeue s.0 es in
          (sum_list sends (s.1 ++ r.1) ≤ 1)
          × (sum_list sends (s.1 ++ r.1) ≡ 0 → kept r.0 ≡ kept s.0 + arrivals es)
    deliveries-are_kept stale_timeout before es w x =
        let i = init stale_timeout false in
        let f : IsFit i = unfold init Sequential.init in (tt, (refl, refl)) in
        let z : marked i ≡ 0 = unfold init contains in refl in
        let s = run should_requeue i before in
        let r = run should_requeue s.0 es in
        let c = run-Counts before i in
        let d = run-Counts es s.0 in
        let p = sum_list-append sends s.1 r.1 in
        let k = run-Keeps es s.0 (run-IsFit before i f w) x in
        (
          omega (arith, c, d, p, z, marked-le-one r.0),
          λ h. omega (arith, k.2 (omega (arith, c, d, p, z, h))),
        )
