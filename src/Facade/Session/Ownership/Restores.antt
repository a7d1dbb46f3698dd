-- ===== src/Facade/Session/Ownership/Restores.antt =====
-- The restore slot and the pool, by the methods that start and drop a restore.
use rabbitmq.Base.{
  ℕ, zero, suc, ◌<◌, ◌≡◌, refl, ap, true, Option, none, some, ident_ℕ, ℕ_discrete, arith,
}
use rabbitmq.Base.Map
use rabbitmq.Base.Map.{get-set}
use rabbitmq.Facade.Session.{
  Phase, Restore, Pool, Session, first_phase, restore_state, join, handle_reconnection,
  handle_disconnection, is_number,
}
use rabbitmq.Facade.Session.Steps.{enter, open_step, open_event}
use rabbitmq.Facade.Session.Ownership.{has_installed, Inv, put-Inv}

-- A restore starts only where the slot is empty, so none runs on the connection in place.
start-Inv : (s : Session) → s.restore_promise ≡ none → Inv s → Inv (restore_state s none).0
unfolding restore_state
start-Inv s e v =
    let q : Restore = record {
      built_on = s.connection;
      phase = first_phase s.connection;
      reconnections = 0;
    } in
    record {
      running = λ j k h. elim (ℕ_discrete s.next_restore j) [
        | yes x ↦
            let y : k ≡ q = ground (arith, get-set s.restores s.next_restore j q) in
            record {
              known = omega (arith, x);
              earlier = λ c b. v.fresh c (ground (arith, y));
              owns = λ c b d. ap some x;
              pooled = λ p d i. ground (arith, v.pool_known p d, x);
            }
        | no x ↦
            let u = v.running j k (ground (arith, get-set s.restores s.next_restore j q)) in
            record {
              known = omega (arith, u.known);
              earlier = u.earlier;
              owns = λ c b d. ground (arith, u.owns c b d);
              pooled = λ p d i. ground (arith, u.pooled p d i);
            }
      ];
      slot_runs = λ j h. ground (arith, get-set s.restores s.next_restore j q);
      pool_known = λ p h. omega (arith, v.pool_known p h);
      fresh = v.fresh;
    }

pub restore_state-Inv :
    (s : Session) (o : Option ℕ) → s.restore_promise ≡ o → Inv s → Inv (restore_state s o).0
restore_state-Inv s none e v = start-Inv s e v
restore_state-Inv s (some r) e v = unfold restore_state in v

join-Inv :
    (s : Session) (r : ℕ) (o : Option Restore) → Map.get s.restores r ≡ o → Inv s → Inv (join s r o)
unfolding join
join-Inv s r none e v = v
join-Inv s r (some q) e v =
    put-Inv s r q _ e refl (λ p h i. let u = v.running r q e in (u.pooled p h i).2) v

pub handle_reconnection-Inv : (s : Session) → Inv s → Inv (handle_reconnection s)
unfolding handle_reconnection
handle_reconnection-Inv s v =
    let t = restore_state s s.restore_promise in
    join-Inv t.0 t.1 (Map.get t.0.restores t.1) refl (restore_state-Inv s s.restore_promise refl v)

pub handle_disconnection-Inv :
    (s : Session) → s.connection ≡ none → Inv s → Inv (handle_disconnection s).0
unfolding handle_disconnection
handle_disconnection-Inv s e v = record {
  running = λ r q h.
      let u = v.running r q h in
      record { known = u.known; earlier = u.earlier; owns = λ c b k. cc; pooled = λ p k i. cc };
  slot_runs = λ r h. cc;
  pool_known = λ p h. cc;
  fresh = λ c h. cc;
}

-- A connection goes, or one that was not there yet comes.
pub unplug-Inv : (s : Session) → Inv s → Inv (record s { connection = none })
unplug-Inv s v = record {
  running = λ r q h.
      let u = v.running r q h in
      record { known = u.known; earlier = u.earlier; owns = λ c b k. cc; pooled = u.pooled };
  slot_runs = v.slot_runs;
  pool_known = v.pool_known;
  fresh = λ c h. cc;
}

open-Inv : (s : Session) → Inv s → Inv (open_step s)
unfolding open_step
open-Inv s v = record {
  running = λ r q h.
      let u = v.running r q h in
      record {
        known = u.known;
        earlier = λ c b. omega (arith, u.earlier c b);
        owns = λ c b k. ground (arith, u.earlier c b);
        pooled = u.pooled;
      };
  slot_runs = v.slot_runs;
  pool_known = v.pool_known;
  fresh = λ c h. ground arith;
}

pub open_event-Inv : (s : Session) (o : Option ℕ) (n : ℕ) → Inv s → Inv (open_event s o n)
unfolding open_event
open_event-Inv s none n v = open-Inv s v
open_event-Inv s (some c) zero v = v
open_event-Inv s (some c) (suc n) v = open-Inv s v

pub empty_pool-Inv : (s : Session) → Inv s → Inv (record s { channel_pool = none })
empty_pool-Inv s v = record {
  running = λ r q h.
      let u = v.running r q h in
      record { known = u.known; earlier = u.earlier; owns = u.owns; pooled = λ p k i. cc };
  slot_runs = v.slot_runs;
  pool_known = λ p h. cc;
  fresh = v.fresh;
}

pub enter-Inv :
    (s : Session) (r : ℕ) (q : Restore) (f : Phase)
    → Map.get s.restores r ≡ some q
    → ((p : Pool) → s.channel_pool ≡ some p → p.id ≡ r → has_installed f ≡ true)
    → Inv s
    → Inv (enter s r q f)
unfolding enter
enter-Inv s r q f e i v = put-Inv s r q (record q { phase = f }) e refl i v

pub is_number→ : (o : Option ℕ) (n : ℕ) → is_number o n ≡ true → o ≡ some n
unfolding is_number
is_number→ none n e = cc
is_number→ (some m) n e = ground arith

-- The pool of a restore that owns the slot and has reached the phase for it.
pub place-Inv :
    (s : Session) (r c : ℕ) (q : Restore)
    → Map.get s.restores r ≡ some q
    → q.built_on ≡ some c
    → has_installed q.phase ≡ true
    → s.restore_promise ≡ some r
    → Inv s
    → Inv (record s { channel_pool = some (record { id = r; connection = c }) })
place-Inv s r c q e b i o v =
    let k : r < s.next_restore = let u = v.running r q e in u.known in
    record {
      running = λ j z h.
          let u = v.running j z h in
          record {
            known = u.known;
            earlier = u.earlier;
            owns = u.owns;
            pooled = λ p d x. ground (arith, b, i, o, e, h);
          };
      slot_runs = v.slot_runs;
      pool_known = λ p h. ground (arith, k);
      fresh = v.fresh;
    }
