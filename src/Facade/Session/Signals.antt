-- ===== src/Facade/Session/Signals.antt =====
-- What ends the wait of a call of connect() that found no endpoint.
use rabbitmq.Base.{
  ℕ, zero, suc, ◌+◌, ◌≡◌, refl, Bool, true, false, Option, none, some, if◌then◌else◌, List, [], ◌∷◌,
  ◌++◌, ident_ℕ, arith,
}
use rabbitmq.Base.Map
use rabbitmq.Facade.Session.{
  Phase, refused, initializing, discarding, asserting, recreating, closing, Restore, dialing,
  parked, Call, Session, Event, gives_up, dial_settles, restore_returns, times_out, disconnects,
  Answer, rejected, resolved, not_restored, settle_call, signal_stage, signal, announce, answer,
  finish, release, Output, settles, Step, was_disconnected, all_failed, timed_out, is_number,
  loses_rpc, announcement,
}
use rabbitmq.Facade.Session.Steps.{
  restore_step, advance, abandon, pool_number, park, after_dial, dial_stage, dial_step,
  timeout_step, disconnect_step, step,
}

abbrev pub is_final : Phase → Bool
is_final refused = true
is_final discarding = true
is_final closing = true
is_final _ = false

-- The phases in which the restore has put its pool in place.
abbrev pub has_pool : Phase → Bool
has_pool asserting = true
has_pool recreating = true
has_pool _ = false

-- How many callers are answered, and what.
unfoldable pub answers : List Output → List (ℕ × Answer)
answers [] = []
answers (settles n a ∷ out) = (n, a) ∷ answers out
answers (_ ∷ out) = answers out

answers-append : (xs ys : List Output) → answers (xs ++ ys) ≡ answers xs ++ answers ys
unfolding answers
answers-append [] ys = refl
answers-append (settles n a ∷ xs) ys = ground (arith, answers-append xs ys)
answers-append (x ∷ xs) ys = answers-append xs ys

abbrev IsQuiet : Step → Type 0
IsQuiet r = (r.0.connect_promise ≡ none) × (answers r.1 ≡ [])

-- All who share the call are answered, once.
abbrev Answers : Call → Answer → Step → Type 0
Answers c a r = (r.0.connect_promise ≡ none) × (answers r.1 ≡ (c.callers, a) ∷ [])

-- What the end of a restore says to a call that is parked.
abbrev pub told : Session → Bool → Answer
told s ok = if ok then resolved s.connection else rejected not_restored

announcement-IsQuiet :
    (s : Session) (ok : Bool) → s.connect_promise ≡ none → IsQuiet (announcement s ok)
unfolding announcement signal answers
announcement-IsQuiet s true e = ground (arith, e)
announcement-IsQuiet s false e = ground (arith, e)

announce-IsQuiet :
    (n : ℕ) (ok : Bool) (s : Session) → s.connect_promise ≡ none → IsQuiet (announce n ok s)
unfolding announce answers
announce-IsQuiet zero ok s e = (e, refl)
announce-IsQuiet (suc n) ok s e =
    let r = announcement s ok in
    let a = announcement-IsQuiet s ok e in
    let b = announce-IsQuiet n ok r.0 a.0 in
    (b.0, simp (answers-append r.1 (announce n ok r.0).1, a.1, b.1) refl)

signal-Answers :
    (s : Session) (o : Option Call) (c : Call) (a : Answer)
    → o ≡ some c
    → c.stage ≡ parked
    → Answers c a (signal s o a)
unfolding signal signal_stage settle_call answers
signal-Answers s none c a e f = cc
signal-Answers s (some d) c a e f = ground (arith, e, f)

announcement-Answers :
    (s : Session) (ok : Bool) (c : Call)
    → s.connect_promise ≡ some c
    → c.stage ≡ parked
    → Answers c (told s ok) (announcement s ok)
unfolding announcement answers
announcement-Answers s true c e f = signal-Answers s s.connect_promise c (resolved s.connection) e f
announcement-Answers s false c e f =
    signal-Answers s s.connect_promise c (rejected not_restored) e f

answer-IsQuiet :
    (r : ℕ) (ok : Bool) (s : Session) (o : Option Call)
    → s.connect_promise ≡ none
    → o ≡ none
    → IsQuiet (answer r ok s o)
unfolding answer answers
answer-IsQuiet r ok s none e f = (e, refl)
answer-IsQuiet r ok s (some c) e f = cc

-- Those that are quiet after it change nothing.
then-Answers :
    (c : Call) (a : Answer) (r t : Step) → Answers c a r → IsQuiet t → Answers c a (t.0, r.1 ++ t.1)
then-Answers c a r t x y = (y.0, simp (answers-append r.1 t.1, x.1, y.1) refl)

announce-Answers :
    (n : ℕ) (ok : Bool) (s : Session) (c : Call)
    → s.connect_promise ≡ some c
    → c.stage ≡ parked
    → Answers c (told s ok) (announce (suc n) ok s)
unfolding announce
announce-Answers n ok s c e f =
    let r = announcement s ok in
    let a = announcement-Answers s ok c e f in
    then-Answers c (told s ok) r (announce n ok r.0) a (announce-IsQuiet n ok r.0 a.0)

finish-Answers :
    (s : Session) (r n : ℕ) (q : Restore) (ok : Bool) (c : Call)
    → s.connect_promise ≡ some c
    → c.stage ≡ parked
    → q.reconnections ≡ suc n
    → Answers c (told s ok) (finish s r q ok)
unfolding finish
finish-Answers s r n q ok c e f g =
    let t : Session = record s {
      restores = Map.delete s.restores r;
      restore_promise = release s.restore_promise r;
    } in
    let x = announce (suc n) ok t in
    let k = announce-Answers n ok t c e f in
    rw g (
      then-Answers c (told s ok) x (answer r ok x.0 x.0.connect_promise) k
        (answer-IsQuiet r ok x.0 x.0.connect_promise k.0 k.0))

-- The ends of a wait, and what they say. The last is that of a call that never parks.
pub data Ends (s : Session) (c : Call) : Event → Answer → Type 0 where
  shut_down : c.stage ≡ parked → Ends s c disconnects (rejected was_disconnected)
  exhausted : c.stage ≡ parked → Ends s c gives_up (rejected all_failed)
  expired : c.stage ≡ parked → c.is_timed ≡ true → Ends s c times_out (rejected timed_out)
  restored :
      (r n : ℕ) (q : Restore)
      → c.stage ≡ parked
      → Map.get s.restores r ≡ some q
      → q.reconnections ≡ suc n
      → q.phase ≡ recreating
      → Ends s c (restore_returns r true) (resolved s.connection)
  unbuilt :
      (r n : ℕ) (q : Restore)
      → c.stage ≡ parked
      → Map.get s.restores r ≡ some q
      → q.reconnections ≡ suc n
      → q.phase ≡ initializing
      → Ends s c (restore_returns r false) (rejected not_restored)
  superseded :
      (r n : ℕ) (q : Restore)
      → c.stage ≡ parked
      → Map.get s.restores r ≡ some q
      → q.reconnections ≡ suc n
      → has_pool q.phase ≡ true
      → is_number (pool_number s.channel_pool) r ≡ false
      → Ends s c (restore_returns r false) (rejected not_restored)
  broken :
      (r n : ℕ) (q : Restore) (ok : Bool)
      → c.stage ≡ parked
      → Map.get s.restores r ≡ some q
      → q.reconnections ≡ suc n
      → is_final q.phase ≡ true
      → Ends s c (restore_returns r ok) (rejected not_restored)
  refused_dial :
      c.stage ≡ dialing
      → s.has_failed ≡ true
      → Ends s c (dial_settles none) (if c.waits then rejected all_failed else resolved none)

module _ (s : Session) (c : Call) (e : s.connect_promise ≡ some c) where
  advance-recreating :
      (r n : ℕ) (q : Restore) (f : Phase)
      → c.stage ≡ parked
      → q.reconnections ≡ suc n
      → f ≡ recreating
      → Answers c (resolved s.connection) (advance s r q f true)
  unfolding advance answers
  advance-recreating r n q recreating g h k = finish-Answers s r n q true c e g h
  advance-recreating r n q refused g h k = cc
  advance-recreating r n q initializing g h k = cc
  advance-recreating r n q discarding g h k = cc
  advance-recreating r n q asserting g h k = cc
  advance-recreating r n q closing g h k = cc

  advance-initializing :
      (r n : ℕ) (q : Restore) (f : Phase)
      → c.stage ≡ parked
      → q.reconnections ≡ suc n
      → f ≡ initializing
      → Answers c (rejected not_restored) (advance s r q f false)
  unfolding advance
  advance-initializing r n q initializing g h k = finish-Answers s r n q false c e g h
  advance-initializing r n q refused g h k = cc
  advance-initializing r n q recreating g h k = cc
  advance-initializing r n q discarding g h k = cc
  advance-initializing r n q asserting g h k = cc
  advance-initializing r n q closing g h k = cc

  abandon-Answers :
      (r n : ℕ) (q : Restore)
      → c.stage ≡ parked
      → q.reconnections ≡ suc n
      → is_number (pool_number s.channel_pool) r ≡ false
      → Answers c (rejected not_restored) (abandon s r q)
  unfolding abandon
  abandon-Answers r n q g h k = rw k (finish-Answers s r n q false c e g h)

  advance-abandoned :
      (r n : ℕ) (q : Restore) (f : Phase)
      → c.stage ≡ parked
      → q.reconnections ≡ suc n
      → has_pool f ≡ true
      → is_number (pool_number s.channel_pool) r ≡ false
      → Answers c (rejected not_restored) (advance s r q f false)
  unfolding advance
  advance-abandoned r n q asserting g h k l = abandon-Answers r n q g h l
  advance-abandoned r n q recreating g h k l = abandon-Answers r n q g h l
  advance-abandoned r n q refused g h k l = cc
  advance-abandoned r n q initializing g h k l = cc
  advance-abandoned r n q discarding g h k l = cc
  advance-abandoned r n q closing g h k l = cc

  advance-final :
      (r n : ℕ) (q : Restore) (f : Phase) (ok : Bool)
      → c.stage ≡ parked
      → q.reconnections ≡ suc n
      → is_final f ≡ true
      → Answers c (rejected not_restored) (advance s r q f ok)
  unfolding advance
  advance-final r n q refused ok g h k = finish-Answers s r n q false c e g h
  advance-final r n q discarding ok g h k = finish-Answers s r n q false c e g h
  advance-final r n q closing ok g h k = finish-Answers s r n q false c e g h
  advance-final r n q initializing ok g h k = cc
  advance-final r n q asserting ok g h k = cc
  advance-final r n q recreating ok g h k = cc

  after_dial-refused :
      (k : Option Call)
      → k ≡ some c
      → c.stage ≡ dialing
      → s.has_failed ≡ true
      → Answers c (if c.waits then rejected all_failed else resolved none) (dial_step s k none)
  unfolding dial_step dial_stage after_dial park settle_call answers
  after_dial-refused none a g h = cc
  after_dial-refused (some d) a g h = ground arith

  timeout-parked :
      (k : Option Call)
      → k ≡ some c
      → c.stage ≡ parked
      → c.is_timed ≡ true
      → Answers c (rejected timed_out) (timeout_step s k)
  unfolding timeout_step signal signal_stage settle_call answers
  timeout-parked none a g h = cc
  timeout-parked (some d) a g h = ground arith

-- A call of connect() that is parked is answered, once and for all who share it, by each of:
-- disconnect(), the end of the attempts, its timer if it set one (with the error of each), and the end of a
-- restore that a reconnection awaits: with the connection if the consumers were recreated, and with
-- an error if the pool could not be built, if the restore failed when the pool in place was no longer
-- its own, or when the close of its pool is over. One whose dial brings nothing when no attempt is left is
-- answered at once: with an error if it waits for a connection, and without a connection if not.
pub signals-answer :
    (s : Session) (c : Call) (e : Event) (a : Answer)
    → s.connect_promise ≡ some c
    → Ends s c e a
    → ((step s e).0.connect_promise ≡ none) × (answers (step s e).1 ≡ (c.callers, a) ∷ [])
unfolding step restore_step
signals-answer s c _ _ h (shut_down g) =
    let x = signal s s.connect_promise (rejected was_disconnected) in
    let t : Session = record x.0 { disposing = x.0.disposing + 1 } in
    let k = signal-Answers s s.connect_promise c (rejected was_disconnected) h g in
    unfold disconnect_step answers in
    then-Answers c (rejected was_disconnected) x (t, loses_rpc ∷ []) k (k.0, unfold answers in refl)
signals-answer s c _ _ h (exhausted g) =
    let t = record s { has_failed = true } in
    unfold answers in signal-Answers t t.connect_promise c _ h g
signals-answer s c _ _ h (expired g t) = timeout-parked s c h s.connect_promise h g t
signals-answer s c _ _ h (restored r n q g l m p) =
    rw l (advance-recreating s c h r n q q.phase g m p)
signals-answer s c _ _ h (unbuilt r n q g l m p) =
    rw l (advance-initializing s c h r n q q.phase g m p)
signals-answer s c _ _ h (superseded r n q g l m p o) =
    rw l (advance-abandoned s c h r n q q.phase g m p o)
signals-answer s c _ _ h (broken r n q ok g l m p) =
    rw l (advance-final s c h r n q q.phase ok g m p)
signals-answer s c _ _ h (refused_dial g f) = after_dial-refused s c h s.connect_promise h g f
