-- ===== src/Facade/Session/Waiters.antt =====
-- The callers of connect(): each is answered once, and none is left waiting by a signal.
use rabbitmq.Base.{
  ℕ, zero, suc, ◌+◌, ◌≡◌, refl, Bool, true, false, Option, none, some, if◌then◌else◌, ident_ℕ, List,
  [], ◌∷◌, ◌++◌, arith,
}
use rabbitmq.Base.Map
use rabbitmq.Base.Tally.{sum_list, sum_list-append}
use rabbitmq.Facade.Session.{
  Phase, refused, initializing, discarding, asserting, recreating, closing, Restore, Pool, Stage,
  dialing, restoring, parked, Call, Session, Event, opens, loses, gives_up, reconnects, connects,
  dial_settles, restore_returns, times_out, disconnects, consumers_disposed, pool_closed,
  connection_closed, Answer, resolved, rejected, not_restored, all_failed, was_disconnected,
  timed_out, Output, settles, closes_pool, loses_rpc, is_disconnected, Step, ◌then_do◌, init,
  restore_state, join, handle_reconnection, settle_call, signal_stage, signal, close_pool,
  handle_disconnection, is_number, release, announcement, announce, answer_stage, answer, finish,
}
use rabbitmq.Facade.Session.Steps.{
  enter, install, pool_number, abandon, advance, restore_step, connect_step, take_connection, park,
  after_dial, dial_stage, dial_step, timeout_step, disconnect_step, disposed_step, disposed_event,
  pool_closed_step, pool_closed_event, connection_closed_event, open_step, open_event, step, run,
}

-- The callers who wait, and those whom an output answers.
abbrev pub callers_of : Option Call → ℕ
callers_of none = 0
callers_of (some c) = c.callers

unfoldable pub waiting : Session → ℕ
waiting s = callers_of s.connect_promise

abbrev pub answered : Output → ℕ
answered (settles n a) = n
answered _ = 0

abbrev pub Accounts : ℕ → Step → Type 0
Accounts n r = waiting r.0 + sum_list answered r.1 ≡ n

then_do-Accounts :
    (n : ℕ) (r : Step) (f : Session → Step)
    → Accounts n r
    → Accounts (waiting r.0) (f r.0)
    → Accounts n (r then_do f)
then_do-Accounts n r f p q = omega (arith, p, q, sum_list-append answered r.1 (f r.0).1)

settle-Accounts :
    (s : Session) (c : Call) (a : Answer)
    → s.connect_promise ≡ some c
    → Accounts (waiting s) (settle_call s c a)
unfolding settle_call waiting
settle-Accounts s c a e = ground (arith, e)

signal-Accounts :
    (s : Session) (o : Option Call) (a : Answer)
    → s.connect_promise ≡ o
    → Accounts (waiting s) (signal s o a)
unfolding signal signal_stage settle_call waiting
signal-Accounts s none a e = omega arith
signal-Accounts s (some c) a e = ground (arith, e)

announcement-Accounts : (s : Session) (ok : Bool) → Accounts (waiting s) (announcement s ok)
unfolding announcement
announcement-Accounts s true =
    omega (arith, signal-Accounts s s.connect_promise (resolved s.connection) refl)
announcement-Accounts s false =
    omega (arith, signal-Accounts s s.connect_promise (rejected not_restored) refl)

announce-Accounts : (n : ℕ) (ok : Bool) (s : Session) → Accounts (waiting s) (announce n ok s)
unfolding announce
announce-Accounts zero ok s = omega arith
announce-Accounts (suc n) ok s =
    let r = announcement s ok in
    then_do-Accounts (waiting s) r (announce n ok) (announcement-Accounts s ok)
      (announce-Accounts n ok r.0)

answer-Accounts :
    (r : ℕ) (ok : Bool) (s : Session) (o : Option Call)
    → s.connect_promise ≡ o
    → Accounts (waiting s) (answer r ok s o)
unfolding answer answer_stage settle_call waiting
answer-Accounts r ok s none e = omega arith
answer-Accounts r ok s (some c) e = ground (arith, e)

finish-Accounts :
    (s : Session) (r : ℕ) (q : Restore) (ok : Bool) → Accounts (waiting s) (finish s r q ok)
unfolding finish waiting
finish-Accounts s r q ok =
    let t : Session = record s {
      restores = Map.delete s.restores r;
      restore_promise = release s.restore_promise r;
    } in
    let u = announce q.reconnections ok t in
    then_do-Accounts (waiting s) u (λ v. answer r ok v v.connect_promise)
      (announce-Accounts q.reconnections ok t) (answer-Accounts r ok u.0 u.0.connect_promise refl)

install-Accounts :
    (s : Session) (r : ℕ) (q : Restore) (o : Option ℕ) → Accounts (waiting s) (install s r q o)
unfolding install enter
install-Accounts s r q none = finish-Accounts s r q false
install-Accounts s r q (some c) = unfold waiting in ground arith

abandon-Accounts : (s : Session) (r : ℕ) (q : Restore) → Accounts (waiting s) (abandon s r q)
unfolding abandon enter
abandon-Accounts s r q = choose (is_number (pool_number s.channel_pool) r)
  where
    choose :
        (b : Bool)
        → Accounts (waiting s) (
            if b
            then (enter (record s { channel_pool = none }) r q closing, closes_pool r ∷ [])
            else finish s r q false)
    choose true = unfold waiting in omega arith
    choose false = finish-Accounts s r q false

advance-Accounts :
    (s : Session) (r : ℕ) (q : Restore) (f : Phase) (ok : Bool)
    → Accounts (waiting s) (advance s r q f ok)
unfolding advance enter
advance-Accounts s r q refused ok = finish-Accounts s r q false
advance-Accounts s r q initializing false = finish-Accounts s r q false
advance-Accounts s r q initializing true = install-Accounts s r q q.built_on
advance-Accounts s r q discarding ok = finish-Accounts s r q false
advance-Accounts s r q asserting false = abandon-Accounts s r q
advance-Accounts s r q asserting true = unfold waiting in omega arith
advance-Accounts s r q recreating false = abandon-Accounts s r q
advance-Accounts s r q recreating true = omega (arith, finish-Accounts s r q true)
advance-Accounts s r q closing ok = finish-Accounts s r q false

restore_step-Accounts :
    (s : Session) (r : ℕ) (ok : Bool) (o : Option Restore)
    → Accounts (waiting s) (restore_step s r ok o)
unfolding restore_step
restore_step-Accounts s r ok none = omega arith
restore_step-Accounts s r ok (some q) = advance-Accounts s r q q.phase ok

take-Accounts :
    (s : Session) (c : Call) (d : ℕ) (o : Option Pool)
    → s.connect_promise ≡ some c
    → Accounts (waiting s) (take_connection s c d o)
unfolding take_connection waiting
take-Accounts s c d (some p) e = unfold settle_call in ground (arith, e)
take-Accounts s c d none e = ground (arith, e)

park-Accounts :
    (s : Session) (c : Call) → s.connect_promise ≡ some c → Accounts (waiting s) (park s c)
unfolding park settle_call waiting
park-Accounts s c e = ground (arith, e)

after_dial-Accounts :
    (s : Session) (c : Call) (o : Option ℕ)
    → s.connect_promise ≡ some c
    → Accounts (waiting s) (after_dial s c o)
unfolding after_dial
after_dial-Accounts s c none e = park-Accounts s c e
after_dial-Accounts s c (some d) e = take-Accounts s c d s.channel_pool e

dial_stage-Accounts :
    (s : Session) (c : Call) (f : Stage) (o : Option ℕ)
    → s.connect_promise ≡ some c
    → Accounts (waiting s) (dial_stage s c f o)
unfolding dial_stage
dial_stage-Accounts s c dialing o e = after_dial-Accounts s c o e
dial_stage-Accounts s c (restoring r d) o e = omega arith
dial_stage-Accounts s c parked o e = omega arith

dial_step-Accounts :
    (s : Session) (k : Option Call) (o : Option ℕ)
    → s.connect_promise ≡ k
    → Accounts (waiting s) (dial_step s k o)
unfolding dial_step
dial_step-Accounts s none o e = omega arith
dial_step-Accounts s (some c) o e = dial_stage-Accounts s c c.stage o e

timeout-Accounts :
    (s : Session) (k : Option Call)
    → s.connect_promise ≡ k
    → Accounts (waiting s) (timeout_step s k)
unfolding timeout_step
timeout-Accounts s none e = omega arith
timeout-Accounts s (some c) e = ground (arith, signal-Accounts s (some c) (rejected timed_out) e)

disconnect-Accounts : (s : Session) → Accounts (waiting s) (disconnect_step s)
unfolding disconnect_step waiting
disconnect-Accounts s =
    let r = signal s s.connect_promise (rejected was_disconnected) in
    omega (
      arith,
      signal-Accounts s s.connect_promise (rejected was_disconnected) refl,
      sum_list-append answered r.1 (loses_rpc ∷ []),
    )

gives_up-Accounts : (s : Session) → Accounts (waiting s) (step s gives_up)
unfolding step waiting
gives_up-Accounts s =
    let t = record s { has_failed = true } in
    omega (arith, signal-Accounts t t.connect_promise (rejected all_failed) refl)

lost_pool : (o : Option Pool) → sum_list answered (close_pool o ++ (is_disconnected ∷ [])) ≡ 0
unfolding close_pool
lost_pool none = refl
lost_pool (some p) = refl

loses-Accounts : (s : Session) → Accounts (waiting s) (step s loses)
unfolding step handle_disconnection waiting
loses-Accounts s = omega (arith, lost_pool s.channel_pool)

-- How many callers an event brings, and a history.
unfoldable pub calls : Event → ℕ
calls (connects waits is_timed) = 1
calls _ = 0

unfoldable pub made : List Event → ℕ
unfolding calls
made [] = 0
made (e ∷ es) = calls e + made es

connect-waiting :
    (s : Session) (a b : Bool) (k : Option Call)
    → s.connect_promise ≡ k
    → waiting (connect_step s a b k) ≡ waiting s + 1
unfolding connect_step waiting
connect-waiting s a b none e = ground (arith, e)
connect-waiting s a b (some c) e = ground (arith, e)

open-waiting : (s : Session) (o : Option ℕ) (n : ℕ) → waiting (open_event s o n) ≡ waiting s
unfolding open_event open_step waiting
open-waiting s none n = refl
open-waiting s (some c) zero = refl
open-waiting s (some c) (suc n) = refl

reconnection-waiting : (s : Session) → waiting (handle_reconnection s) ≡ waiting s
unfolding handle_reconnection restore_state join waiting
reconnection-waiting s = ground arith

disposed-Accounts : (s : Session) (n : ℕ) → Accounts (waiting s) (disposed_event s n)
unfolding disposed_event disposed_step waiting
disposed-Accounts s n = ground arith

pool_closed-Accounts : (s : Session) (n : ℕ) → Accounts (waiting s) (pool_closed_event s n)
unfolding pool_closed_event pool_closed_step waiting
pool_closed-Accounts s n = ground arith

closed-Accounts : (s : Session) (n : ℕ) → Accounts (waiting s) (connection_closed_event s n)
unfolding connection_closed_event waiting
closed-Accounts s n = ground arith

step-Accounts : (s : Session) (e : Event) → Accounts (waiting s + calls e) (step s e)
unfolding step calls
step-Accounts s opens = omega (arith, open-waiting s s.connection s.closing_connection)
step-Accounts s loses = unfold step in omega (arith, loses-Accounts s)
step-Accounts s gives_up = unfold step in omega (arith, gives_up-Accounts s)
step-Accounts s reconnects = omega (arith, reconnection-waiting s)
step-Accounts s (connects a b) = omega (arith, connect-waiting s a b s.connect_promise refl)
step-Accounts s (dial_settles o) = omega (arith, dial_step-Accounts s s.connect_promise o refl)
step-Accounts s (restore_returns r ok) =
    omega (arith, restore_step-Accounts s r ok (Map.get s.restores r))
step-Accounts s times_out = omega (arith, timeout-Accounts s s.connect_promise refl)
step-Accounts s disconnects = omega (arith, disconnect-Accounts s)
step-Accounts s consumers_disposed = omega (arith, disposed-Accounts s s.disposing)
step-Accounts s pool_closed = omega (arith, pool_closed-Accounts s s.closing_pool)
step-Accounts s connection_closed = omega (arith, closed-Accounts s s.closing_connection)

run-Accounts : (es : List Event) (s : Session) → Accounts (waiting s + made es) (run s es)
unfolding run made
run-Accounts [] s = omega arith
run-Accounts (e ∷ es) s =
    let r = step s e in
    omega
      (arith, step-Accounts s e, run-Accounts es r.0, sum_list-append answered r.1 (run r.0 es).1)

-- From the constructor on, whatever happens and in whatever order, the callers of connect() that have
-- been answered and those that still wait are together as many as have called.
pub callers-are_answered_once :
    (es : List Event) → let r = run init es in waiting r.0 + sum_list answered r.1 ≡ made es
unfolding waiting
callers-are_answered_once es =
    let z : waiting init ≡ 0 = unfold init waiting in refl in omega (arith, run-Accounts es init, z)
