-- ===== src/Facade/Session/Overlap.antt =====
-- Restores that overlap a disconnection, or a connect().
use rabbitmq.Base.{
  ℕ, suc, ◌<◌, ◌≡◌, ◌≢◌, Bool, true, false, none, some, ◌==◌, ◌||◌, ident_ℕ, List, [], ◌∷◌, arith,
}
use rabbitmq.Base.Map
use rabbitmq.Base.Map.{get-set}
use rabbitmq.Facade.Session.{
  initializing, asserting, recreating, Restore, Pool, dialing, Call, Session, opens, loses,
  disconnects, consumers_disposed, pool_closed, connects, dial_settles, restore_returns,
  connection_closed, resolved, Output, settles, reconnected, restore_state, settle_call, signal,
  signal_stage, close_pool, handle_disconnection, is_number, release, announcement, announce,
  answer, answer_stage, finish,
}
use rabbitmq.Facade.Session.Steps.{
  enter, install, pool_number, abandon, advance, restore_step, connect_step, take_connection,
  after_dial, dial_stage, dial_step, disconnect_step, disposed_step, disposed_event,
  pool_closed_step, pool_closed_event, connection_closed_event, open_step, open_event, step, run,
}

-- Whether some caller of connect() is told that it is connected.
unfoldable pub says_connected : List Output → ℕ → Bool
says_connected [] d = false
says_connected (settles n (resolved (some c)) ∷ out) d = (c == d) || says_connected out d
says_connected (o ∷ out) d = says_connected out d

unfoldable pub says_reconnected : List Output → Bool
says_reconnected [] = false
says_reconnected (reconnected ∷ out) = true
says_reconnected (o ∷ out) = says_reconnected out

-- A disconnect() that comes while a restore recreates the consumers, and that runs to its end, drops the
-- pool and the connection, and leaves the slot of `#restoreState`: the next connect() joins that
-- restore, and when it is over says that it is connected, on a new connection and without a pool.
pub connect-joins_stale :
    (s : Session) (r c : ℕ) (p : Pool) (q : Restore)
    → s.restore_promise ≡ some r
    → Map.get s.restores r ≡ some q
    → q.phase ≡ recreating
    → q.reconnections ≡ 1
    → s.connection ≡ some c
    → s.channel_pool ≡ some p
    → s.connect_promise ≡ none
    → s.disposing ≡ 0
    → s.closing_pool ≡ 0
    → s.closing_connection ≡ 0
    → let t = run s (
        disconnects
        ∷ consumers_disposed
        ∷ pool_closed
        ∷ connection_closed
        ∷ connects false false
        ∷ opens
        ∷ dial_settles (some s.next_connection)
        ∷ restore_returns r true
        ∷ []) in
      (says_connected t.1 s.next_connection ≡ true)
      × (t.0.connection ≡ some s.next_connection)
      × (t.0.channel_pool ≡ none)
unfolding run step disconnect_step disposed_event disposed_step pool_closed_event pool_closed_step
    connection_closed_event connect_step open_event open_step dial_step dial_stage after_dial
    take_connection restore_state restore_step advance finish release is_number announce
    announcement signal signal_stage answer answer_stage settle_call says_connected
connect-joins_stale s r c p q a b d e f g h i j k = ground arith

-- A pool whose channels open while disconnect() awaits the close of their connection passes the fence,
-- since that connection is in place until then. The next connect() finds the pool of the closed
-- connection, restores nothing, and says that it is connected.
pub connect-keeps_dead_pool :
    (s : Session) (r c n : ℕ) (q : Restore)
    → Map.get s.restores r ≡ some q
    → q.phase ≡ initializing
    → q.built_on ≡ some c
    → s.connection ≡ some c
    → s.closing_connection ≡ suc n
    → s.connect_promise ≡ none
    → c < s.next_connection
    → let t = run s (
        restore_returns r true
        ∷ connection_closed
        ∷ connects false false
        ∷ opens
        ∷ dial_settles (some s.next_connection)
        ∷ []) in
      (says_connected t.1 s.next_connection ≡ true)
      × (t.0.connection ≡ some s.next_connection)
      × (t.0.channel_pool ≡ some (record { id = r; connection = c }))
      × (c ≢ s.next_connection)
unfolding run step connect_step open_event open_step dial_step dial_stage after_dial take_connection
    restore_step advance install enter is_number connection_closed_event settle_call says_connected
connect-keeps_dead_pool s r c n q a b d e f g h = ground arith

-- A connection that is lost while the consumers are recreated: the restore swallows their errors, resets
-- the breaker and announces a reconnection when there is neither a connection nor a pool.
pub loses-announces_reconnected :
    (s : Session) (r : ℕ) (q : Restore)
    → Map.get s.restores r ≡ some q
    → q.phase ≡ recreating
    → q.reconnections ≡ 1
    → let t = run s (loses ∷ restore_returns r true ∷ []) in
      (says_reconnected t.1 ≡ true) × (t.0.connection ≡ none) × (t.0.channel_pool ≡ none)
unfolding run step handle_disconnection close_pool restore_step advance finish announce announcement
    signal signal_stage settle_call answer answer_stage says_reconnected
loses-announces_reconnected s r q a b c = ground arith

-- A connect() whose dial comes back while the restore asserts the exchange finds the pool in place and
-- says that it is connected, before the exchange and the consumers are there. If the restore then
-- fails, the client is left without a pool.
pub connect-outruns_restore :
    (s : Session) (r d : ℕ) (q : Restore) (p : Pool) (c : Call)
    → Map.get s.restores r ≡ some q
    → q.phase ≡ asserting
    → s.channel_pool ≡ some p
    → p.id ≡ r
    → s.connect_promise ≡ some c
    → c.stage ≡ dialing
    → (says_connected (step s (dial_settles (some d))).1 d ≡ true)
      × ((run s (dial_settles (some d) ∷ restore_returns r false ∷ [])).0.channel_pool ≡ none)
unfolding run step dial_step dial_stage after_dial take_connection settle_call restore_step advance
    abandon pool_number enter is_number says_connected
connect-outruns_restore s r d q p c a b e f g h = ground arith
