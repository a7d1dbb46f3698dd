-- ===== src/Facade/Session.antt =====
-- The connection's life as src/index.js sees it: connect(), the restore of pool and consumers on a fresh
-- connection, disconnect(). The connection, the pool and the consumers come back as events. A restore
-- and the pool that it builds have one number.
pub mod Steps
pub mod Ownership
pub mod Stale
pub mod Current
pub mod Waiters
pub mod Endings
pub mod Calls
pub mod Signals
pub mod Overlap
use rabbitmq.Base.{
  ℕ, zero, suc, ◌+◌, Bool, true, false, ◌&&◌, Option, none, some, ◌==◌, if◌then◌else◌, Table,
  ident_ℕ, List, [], ◌∷◌, ◌++◌,
}
use rabbitmq.Base.Map

-- What `#doRestoreState` awaits. `refused`: there was no connection to build on.
pub data Phase : Type 0 where
  refused initializing discarding asserting recreating closing : Phase

pub record Restore : Type 0 where
  pub built_on : Option ℕ
  pub phase : Phase
  pub reconnections : ℕ  -- calls of `#handleReconnection` that await it

pub record Pool : Type 0 where
  pub id : ℕ
  pub connection : ℕ

-- What `#doConnect` awaits: the dial, a restore (with the connection to return), or a signal.
pub data Stage : Type 0 where
  dialing : Stage
  restoring : ℕ → ℕ → Stage
  parked : Stage

pub record Call : Type 0 where
  pub waits : Bool  -- `waitForConnection`
  pub is_timed : Bool  -- `timeout > 0`
  pub callers : ℕ
  pub stage : Stage

pub record Session : Type 0 where
  pub connection : Option ℕ  -- `getConnection()`
  pub has_failed : Bool  -- `getConnectionState() === 'failed'`
  pub channel_pool : Option Pool
  pub restore_promise : Option ℕ
  pub connect_promise : Option Call
  pub restores : Table ℕ Restore  -- those that have not settled
  pub disposing : ℕ  -- calls of `disconnect` that await `disposeAll`
  pub closing_pool : ℕ
  pub closing_connection : ℕ
  pub next_connection : ℕ
  pub next_restore : ℕ

pub data Event : Type 0 where
  opens : Event
  loses : Event
  gives_up : Event
  reconnects : Event
  connects : Bool → Bool → Event
  dial_settles : Option ℕ → Event
  restore_returns : ℕ → Bool → Event
  times_out : Event
  disconnects : Event
  consumers_disposed : Event
  pool_closed : Event
  connection_closed : Event

pub data Reason : Type 0 where
  all_failed not_restored was_disconnected timed_out : Reason

pub data Answer : Type 0 where
  resolved : Option ℕ → Answer
  rejected : Reason → Answer

pub data Output : Type 0 where
  settles : ℕ → Answer → Output  -- so many callers of `connect`
  recreates_all : ℕ → Output
  closes_pool : ℕ → Output
  resets_breaker : Output
  loses_rpc : Output
  reconnected : Output
  reconnect_error : Output
  reconnect_failed : Output
  is_disconnected : Output
  is_disconnecting : Output

abbrev pub Step : Type 0
Step = Session × List Output

infixl 5 ◌then_do◌
abbrev pub ◌then_do◌ : Step → (Session → Step) → Step
(s, out) then_do f = let (s', out') = f s in (s', out ++ out')

unfoldable pub init : Session
init = record {
  connection = none;
  has_failed = false;
  channel_pool = none;
  restore_promise = none;
  connect_promise = none;
  restores = [];
  disposing = 0;
  closing_pool = 0;
  closing_connection = 0;
  next_connection = 0;
  next_restore = 0;
}

-- `#restoreState`, with the restore that it returns. `#setupChannelPool` reads the connection at once.
unfoldable pub first_phase : Option ℕ → Phase
first_phase none = refused
first_phase (some c) = initializing

unfoldable pub restore_state : Session → Option ℕ → Session × ℕ
unfolding first_phase
restore_state s (some r) = (s, r)
restore_state s none =
    let q : Restore = record {
      built_on = s.connection;
      phase = first_phase s.connection;
      reconnections = 0;
    } in
    let s' = record s {
      restores = Map.set s.restores s.next_restore q;
      restore_promise = some s.next_restore;
      next_restore = s.next_restore + 1;
    } in
    (s', s.next_restore)

-- `#handleReconnection` up to its `await`.
unfoldable pub join : Session → ℕ → Option Restore → Session
join s r none = s
join s r (some q) = record s {
  restores = Map.set s.restores r (record q { reconnections = q.reconnections + 1 });
}

unfoldable pub handle_reconnection : Session → Session
unfolding restore_state join
handle_reconnection s =
    let (s', r) = restore_state s s.restore_promise in join s' r (Map.get s'.restores r)

-- The call of `connect` in flight settles, for all who share it.
unfoldable pub settle_call : Session → Call → Answer → Step
settle_call s c a = (record s { connect_promise = none }, settles c.callers a ∷ [])

-- A signal that a parked call listens to.
unfoldable pub signal_stage : Session → Call → Stage → Answer → Step
unfolding settle_call
signal_stage s c parked a = settle_call s c a
signal_stage s c dialing a = (s, [])
signal_stage s c (restoring r d) a = (s, [])

unfoldable pub signal : Session → Option Call → Answer → Step
unfolding signal_stage
signal s none a = (s, [])
signal s (some c) a = signal_stage s c c.stage a

unfoldable pub close_pool : Option Pool → List Output
close_pool none = []
close_pool (some p) = closes_pool p.id ∷ []

unfoldable pub handle_disconnection : Session → Step
unfolding close_pool
handle_disconnection s = (
  record s { restore_promise = none; channel_pool = none },
  (loses_rpc ∷ close_pool s.channel_pool) ++ (is_disconnected ∷ []),
)

unfoldable pub is_number : Option ℕ → ℕ → Bool
is_number none n = false
is_number (some m) n = m == n

-- The `finally` of `#restoreState`: only the owner of the slot gives it back.
unfoldable pub release : Option ℕ → ℕ → Option ℕ
unfolding is_number
release o r = if is_number o r then none else o

-- The end of `#handleReconnection`, for each that awaited the restore.
unfoldable pub announcement : Session → Bool → Step
unfolding signal
announcement s true =
    let (s', out) = signal s s.connect_promise (resolved s.connection) in (s', reconnected ∷ out)
announcement s false =
    let (s', out) = signal s s.connect_promise (rejected not_restored) in
    (s', reconnect_error ∷ out)

unfoldable pub announce : ℕ → Bool → Session → Step
unfolding announcement
announce zero ok s = (s, [])
announce (suc n) ok s = announcement s ok then_do announce n ok

-- The end of the call that awaited the restore.
unfoldable pub answer_stage : Session → Call → Stage → ℕ → Bool → Step
unfolding settle_call
answer_stage s c (restoring q d) r ok =
    if q == r
    then settle_call s c (if ok then resolved (some d) else rejected not_restored)
    else (s, [])
answer_stage s c dialing r ok = (s, [])
answer_stage s c parked r ok = (s, [])

unfoldable pub answer : ℕ → Bool → Session → Option Call → Step
unfolding answer_stage
answer r ok s none = (s, [])
answer r ok s (some c) = answer_stage s c c.stage r ok

-- A restore settles.
unfoldable pub finish : Session → ℕ → Restore → Bool → Step
unfolding release announce answer
finish s r q ok =
    let s' = record s {
      restores = Map.delete s.restores r;
      restore_promise = release s.restore_promise r;
    } in
    (announce q.reconnections ok s' then_do (λ t. answer r ok t t.connect_promise))
