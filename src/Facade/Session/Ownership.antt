-- ===== src/Facade/Session/Ownership.antt =====
-- Which restore owns the slot, and whose pool is in place.
pub mod Restores
pub mod Reachable
use rabbitmq.Base.{
  ℕ, zero, suc, ◌+◌, ◌<◌, ◌≡◌, ◌≢◌, refl, Bool, true, false, Option, none, some, ◌==◌,
  if◌then◌else◌, ident_ℕ, ℕ_discrete, List, [], ◌∷◌, ◌++◌, arith, Option-cases, inl, inr,
}
use rabbitmq.Base.Map
use rabbitmq.Base.Map.{get-set, get-delete}
use rabbitmq.Facade.Session.{
  Phase, refused, initializing, discarding, asserting, recreating, closing, Restore, Pool, Stage,
  dialing, restoring, parked, Call, Session, Event, opens, loses, gives_up, reconnects, connects,
  dial_settles, restore_returns, times_out, disconnects, consumers_disposed, pool_closed,
  connection_closed, Answer, Step, ◌then_do◌, init, first_phase, restore_state, join,
  handle_reconnection, settle_call, signal_stage, signal, handle_disconnection, is_number, release,
  announcement, announce, answer_stage, answer, finish,
}
use rabbitmq.Facade.Session.Steps.{
  enter, install, pool_number, abandon, advance, restore_step, connect_step, take_connection, park,
  after_dial, dial_stage, dial_step, timeout_step, disconnect_step, disposed_step, pool_closed_step,
  open_step, step, run,
}

-- The phases of a restore whose pool has been installed.
abbrev pub has_installed : Phase → Bool
has_installed asserting = true
has_installed recreating = true
has_installed _ = false

-- What holds of a running restore. On the connection in place there is none but the one in the slot.
pub record IsRunning (s : Session) (r : ℕ) (q : Restore) : Type 0 where
  pub known : r < s.next_restore
  pub earlier : (c : ℕ) → q.built_on ≡ some c → c < s.next_connection
  pub owns : (c : ℕ) → q.built_on ≡ some c → s.connection ≡ some c → s.restore_promise ≡ some r
  pub pooled :
      (p : Pool)
      → s.channel_pool ≡ some p
      → p.id ≡ r
      → (s.restore_promise ≡ some r)
        × (q.built_on ≡ some p.connection)
        × (has_installed q.phase ≡ true)

pub record Inv (s : Session) : Type 0 where
  pub running : (r : ℕ) (q : Restore) → Map.get s.restores r ≡ some q → IsRunning s r q
  pub slot_runs : (r : ℕ) → s.restore_promise ≡ some r → Map.get s.restores r ≢ none
  pub pool_known : (p : Pool) → s.channel_pool ≡ some p → p.id < s.next_restore
  pub fresh : (c : ℕ) → s.connection ≡ some c → c < s.next_connection

pub init-Inv : Inv init
unfolding init Map.get
init-Inv = record {
  running = λ r q e. cc;
  slot_runs = λ r e. cc;
  pool_known = λ p e. cc;
  fresh = λ c e. cc;
}

-- The fields that the invariant reads.
pub record Same (s t : Session) : Type 0 where
  pub connection : t.connection ≡ s.connection
  pub pool : t.channel_pool ≡ s.channel_pool
  pub slot : t.restore_promise ≡ s.restore_promise
  pub restores : t.restores ≡ s.restores
  pub next_connection : t.next_connection ≡ s.next_connection
  pub next_restore : t.next_restore ≡ s.next_restore

pub Same-Inv : (s t : Session) → Same s t → Inv s → Inv t
Same-Inv s t e v = record {
  running = λ r q h.
      let u = v.running r q (ground (arith, e.restores)) in
      record {
        known = ground (arith, u.known, e.next_restore);
        earlier = λ c b. ground (arith, u.earlier c b, e.next_connection);
        owns = λ c b k. ground (arith, u.owns c b, e.connection, e.slot);
        pooled = λ p k i. ground (arith, u.pooled p, e.pool, e.slot);
      };
  slot_runs = λ r h. let w = v.slot_runs r (ground (arith, e.slot)) in ground (arith, e.restores);
  pool_known = λ p h. ground (arith, v.pool_known p, e.pool, e.next_restore);
  fresh = λ c h. ground (arith, v.fresh c, e.connection, e.next_connection);
}

pub signal-Same : (s : Session) (o : Option Call) (a : Answer) → Same s (signal s o a).0
unfolding signal signal_stage settle_call
signal-Same s none a = ground arith
signal-Same s (some c) a = ground arith

Same-trans : (s t u : Session) → Same s t → Same t u → Same s u
Same-trans s t u e f = ground (arith, e, f)

announcement-Same : (s : Session) (ok : Bool) → Same s (announcement s ok).0
unfolding announcement
announcement-Same s true = signal-Same s s.connect_promise _
announcement-Same s false = signal-Same s s.connect_promise _

pub announce-Same : (n : ℕ) (ok : Bool) (s : Session) → Same s (announce n ok s).0
unfolding announce
announce-Same zero ok s = ground arith
announce-Same (suc n) ok s =
    let t = (announcement s ok).0 in
    Same-trans s t (announce n ok t).0 (announcement-Same s ok) (announce-Same n ok t)

pub answer-Same : (r : ℕ) (ok : Bool) (s : Session) (o : Option Call) → Same s (answer r ok s o).0
unfolding answer answer_stage settle_call
answer-Same r ok s none = ground arith
answer-Same r ok s (some c) = ground arith

-- A restore goes, and with it the slot if it is its own.
abbrev settled : Session → ℕ → Session
settled s r = record s {
  restores = Map.delete s.restores r;
  restore_promise = release s.restore_promise r;
}

release-keeps : (o : Option ℕ) (r j : ℕ) → o ≡ some j → r ≢ j → release o r ≡ some j
unfolding release is_number
release-keeps none r j e n = cc
release-keeps (some m) r j e n = ground arith

release-from : (o : Option ℕ) (r j : ℕ) → release o r ≡ some j → (o ≡ some j) × (r ≢ j)
unfolding release is_number
release-from none r j e = cc
release-from (some m) r j e = ground arith

settled-Inv : (s : Session) (r : ℕ) → Inv s → Inv (settled s r)
settled-Inv s r v = record {
  running = λ j q h.
      let k : (r ≢ j) × (Map.get s.restores j ≡ some q) =
        ground (arith, get-delete s.restores r j) in
      let u = v.running j q k.1 in
      record {
        known = u.known;
        earlier = u.earlier;
        owns = λ c b e. release-keeps s.restore_promise r j (u.owns c b e) k.0;
        pooled = λ p e i.
            let w = u.pooled p e i in (release-keeps s.restore_promise r j w.0 k.0, w.1, w.2);
      };
  slot_runs = λ j h.
      let k = release-from s.restore_promise r j h in
      ground (arith, get-delete s.restores r j, v.slot_runs j k.0);
  pool_known = v.pool_known;
  fresh = v.fresh;
}

pub finish-Inv : (s : Session) (r : ℕ) (q : Restore) (ok : Bool) → Inv s → Inv (finish s r q ok).0
unfolding finish
finish-Inv s r q ok v =
    let t = settled s r in
    let u = (announce q.reconnections ok t).0 in
    let w = (answer r ok u u.connect_promise).0 in
    Same-Inv t w
      (Same-trans t u w (announce-Same q.reconnections ok t) (answer-Same r ok u u.connect_promise))
      (settled-Inv s r v)

-- A restore that runs is written back with another phase, or another count of those who wait.
pub put-Inv :
    (s : Session) (r : ℕ) (q q' : Restore)
    → Map.get s.restores r ≡ some q
    → q'.built_on ≡ q.built_on
    → ((p : Pool) → s.channel_pool ≡ some p → p.id ≡ r → has_installed q'.phase ≡ true)
    → Inv s
    → Inv (record s { restores = Map.set s.restores r q' })
put-Inv s r q q' e b i v = record {
  running = λ j k h. elim (ℕ_discrete r j) [
    | yes x ↦
        let y : k ≡ q' = ground (arith, get-set s.restores r j q') in
        let u = v.running r q e in
        record {
          known = ground (arith, u.known, x);
          earlier = λ c d. ground (arith, y, b, u.earlier c);
          owns = λ c d f. ground (arith, x, y, b, u.owns c);
          pooled = λ p d f. ground (arith, x, y, b, u.pooled p, i p);
        }
    | no x ↦
        let u = v.running j k (ground (arith, get-set s.restores r j q')) in
        record { known = u.known; earlier = u.earlier; owns = u.owns; pooled = u.pooled }
  ];
  slot_runs = λ j h. ground (arith, get-set s.restores r j q', v.slot_runs j h);
  pool_known = v.pool_known;
  fresh = v.fresh;
}
