-- ===== src/Facade/Session/Ownership/Reachable.antt =====
-- The invariant in every state that the client reaches.
use rabbitmq.Base.{
  ℕ, zero, suc, ◌≡◌, refl, Bool, true, false, Option, none, some, ident_ℕ, List, [], ◌∷◌, arith,
  Bool-cases, inl, inr,
}
use rabbitmq.Base.Map
use rabbitmq.Base.Map.{get-set}
use rabbitmq.Facade.Session.{
  Phase, refused, initializing, discarding, asserting, recreating, closing, Restore, Pool, Stage,
  dialing, restoring, parked, Call, Session, Event, opens, loses, gives_up, reconnects, connects,
  dial_settles, restore_returns, times_out, disconnects, consumers_disposed, pool_closed,
  connection_closed, init, restore_state, settle_call, signal, is_number,
}
use rabbitmq.Facade.Session.Steps.{
  enter, install, pool_number, abandon, advance, restore_step, connect_step, take_connection, park,
  after_dial, dial_stage, dial_step, timeout_step, disconnect_step, disposed_step, disposed_event,
  pool_closed_step, pool_closed_event, connection_closed_event, step, run,
}
use rabbitmq.Facade.Session.Ownership.{Inv, init-Inv, Same, Same-Inv, signal-Same, finish-Inv}
use rabbitmq.Facade.Session.Ownership.Restores.{
  is_number→, restore_state-Inv, handle_reconnection-Inv, handle_disconnection-Inv, unplug-Inv,
  open_event-Inv, empty_pool-Inv, enter-Inv, place-Inv,
}

get-enter :
    (s : Session) (r : ℕ) (q : Restore) (f : Phase)
    → Map.get (enter s r q f).restores r ≡ some (record q { phase = f })
unfolding enter
get-enter s r q f = ground (arith, get-set s.restores r r (record q { phase = f }))

install-Inv :
    (s : Session) (r : ℕ) (q : Restore) (o : Option ℕ)
    → Map.get s.restores r ≡ some q
    → q.phase ≡ initializing
    → q.built_on ≡ o
    → Inv s
    → Inv (install s r q o).0
unfolding install
install-Inv s r q none e f b v = finish-Inv s r q false v
install-Inv s r q (some c) e f b v =
    let u = v.running r q e in
    elim (Bool-cases (is_number s.connection c)) [
      | inl t ↦
          let s' = enter s r q asserting in
          rw t (
            place-Inv s' r c (record q { phase = asserting }) (get-enter s r q asserting) b refl
              (u.owns c b (is_number→ s.connection c t))
              (enter-Inv s r q asserting e (λ p h i. refl) v))
      | inr t ↦ rw t (enter-Inv s r q discarding e (λ p h i. ground (arith, u.pooled p h i, f)) v)
    ]

abandon-Inv :
    (s : Session) (r : ℕ) (q : Restore)
    → Map.get s.restores r ≡ some q
    → Inv s
    → Inv (abandon s r q).0
unfolding abandon
abandon-Inv s r q e v = elim (Bool-cases (is_number (pool_number s.channel_pool) r)) [
  | inl t ↦ rw t (
      enter-Inv (record s { channel_pool = none }) r q closing e (λ p h i. cc) (empty_pool-Inv s v))
  | inr t ↦ rw t (finish-Inv s r q false v)
]

advance-Inv :
    (s : Session) (r : ℕ) (q : Restore) (f : Phase) (ok : Bool)
    → Map.get s.restores r ≡ some q
    → q.phase ≡ f
    → Inv s
    → Inv (advance s r q f ok).0
unfolding advance
advance-Inv s r q refused ok e g v = finish-Inv s r q false v
advance-Inv s r q initializing false e g v = finish-Inv s r q false v
advance-Inv s r q initializing true e g v = install-Inv s r q q.built_on e g refl v
advance-Inv s r q discarding ok e g v = finish-Inv s r q false v
advance-Inv s r q asserting false e g v = abandon-Inv s r q e v
advance-Inv s r q asserting true e g v = enter-Inv s r q recreating e (λ p h i. refl) v
advance-Inv s r q recreating false e g v = abandon-Inv s r q e v
advance-Inv s r q recreating true e g v = finish-Inv s r q true v
advance-Inv s r q closing ok e g v = finish-Inv s r q false v

restore_step-Inv :
    (s : Session) (r : ℕ) (ok : Bool) (o : Option Restore)
    → Map.get s.restores r ≡ o
    → Inv s
    → Inv (restore_step s r ok o).0
unfolding restore_step
restore_step-Inv s r ok none e v = v
restore_step-Inv s r ok (some q) e v = advance-Inv s r q q.phase ok e refl v

take_connection-Inv :
    (s : Session) (c : Call) (d : ℕ) (o : Option Pool) → Inv s → Inv (take_connection s c d o).0
unfolding take_connection settle_call
take_connection-Inv s c d (some p) v = Same-Inv s _ (ground arith) v
take_connection-Inv s c d none v =
    let t = restore_state s s.restore_promise in
    Same-Inv t.0 (take_connection s c d none).0 (ground arith)
      (restore_state-Inv s s.restore_promise refl v)

pub park-Same : (s : Session) (c : Call) → Same s (park s c).0
unfolding park settle_call
park-Same s c = ground arith

dial_step-Inv : (s : Session) (o : Option Call) (d : Option ℕ) → Inv s → Inv (dial_step s o d).0
unfolding dial_step
dial_step-Inv s none d v = v
dial_step-Inv s (some c) d v = dial_stage-Inv c.stage d
  where
    after : (d : Option ℕ) → Inv (after_dial s c d).0
    after none = unfold after_dial in Same-Inv s _ (park-Same s c) v
    after (some n) = unfold after_dial in take_connection-Inv s c n s.channel_pool v

    dial_stage-Inv : (f : Stage) (d : Option ℕ) → Inv (dial_stage s c f d).0
    dial_stage-Inv dialing d = unfold dial_stage in after d
    dial_stage-Inv (restoring r n) d = unfold dial_stage in v
    dial_stage-Inv parked d = unfold dial_stage in v

pub timeout-Same : (s : Session) (o : Option Call) → Same s (timeout_step s o).0
unfolding timeout_step signal
timeout-Same s none = ground arith
timeout-Same s (some c) = ground (arith, signal-Same s (some c))

pub disposed-Same : (s : Session) (o : Option Pool) → Same s (disposed_step s o).0
unfolding disposed_step
disposed-Same s none = ground arith
disposed-Same s (some p) = ground arith

disposed-Inv : (s : Session) (n : ℕ) → Inv s → Inv (disposed_event s n).0
unfolding disposed_event
disposed-Inv s zero v = v
disposed-Inv s (suc n) v =
    Same-Inv s _ (ground (arith, disposed-Same (record s { disposing = n }) s.channel_pool)) v

pool_closed-Inv : (s : Session) (n : ℕ) → Inv s → Inv (pool_closed_event s n).0
unfolding pool_closed_event pool_closed_step
pool_closed-Inv s zero v = v
pool_closed-Inv s (suc n) v =
    Same-Inv (record s { channel_pool = none }) _ (ground arith) (empty_pool-Inv s v)

connection_closed-Inv : (s : Session) (n : ℕ) → Inv s → Inv (connection_closed_event s n).0
unfolding connection_closed_event
connection_closed-Inv s zero v = v
connection_closed-Inv s (suc n) v =
    Same-Inv (record s { connection = none }) _ (ground arith) (unplug-Inv s v)

pub connect-Same : (s : Session) (a b : Bool) (o : Option Call) → Same s (connect_step s a b o)
unfolding connect_step
connect-Same s a b none = ground arith
connect-Same s a b (some c) = ground arith

pub step-Inv : (s : Session) (e : Event) → Inv s → Inv (step s e).0
unfolding step
step-Inv s opens v = open_event-Inv s s.connection s.closing_connection v
step-Inv s loses v = handle_disconnection-Inv (record s { connection = none }) refl (unplug-Inv s v)
step-Inv s gives_up v =
    let t = record s { has_failed = true } in
    Same-Inv s _ (ground (arith, signal-Same t t.connect_promise)) v
step-Inv s reconnects v = handle_reconnection-Inv s v
step-Inv s (connects a b) v = Same-Inv s _ (connect-Same s a b s.connect_promise) v
step-Inv s (dial_settles o) v = dial_step-Inv s s.connect_promise o v
step-Inv s (restore_returns r ok) v = restore_step-Inv s r ok (Map.get s.restores r) refl v
step-Inv s times_out v = Same-Inv s _ (timeout-Same s s.connect_promise) v
step-Inv s disconnects v =
    unfold disconnect_step in Same-Inv s _ (ground (arith, signal-Same s s.connect_promise)) v
step-Inv s consumers_disposed v = disposed-Inv s s.disposing v
step-Inv s pool_closed v = pool_closed-Inv s s.closing_pool v
step-Inv s connection_closed v = connection_closed-Inv s s.closing_connection v

pub run-Inv : (es : List Event) (s : Session) → Inv s → Inv (run s es).0
unfolding run
run-Inv [] s v = v
run-Inv (e ∷ es) s v = run-Inv es (step s e).0 (step-Inv s e v)

-- Whatever happens from the constructor on, in whatever order, the slot names a restore that runs; a
-- restore that runs on the connection in place is the one in the slot; and a pool of a restore that
-- still runs was built on that restore's connection, is owned by the slot, and stands past the fence.
pub reachable-Inv : (es : List Event) → Inv (run init es).0
reachable-Inv es = run-Inv es init init-Inv
