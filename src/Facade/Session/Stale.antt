-- ===== src/Facade/Session/Stale.antt =====
-- A restore that the slot no longer names.
use rabbitmq.Base.{
  ℕ, ◌≡◌, ◌≢◌, refl, Bool, true, false, Option, none, some, ident_ℕ, List, arith, Bool-cases, inl,
  inr,
}
use rabbitmq.Base.Map
use rabbitmq.Facade.Session.{
  Phase, refused, initializing, discarding, asserting, recreating, closing, Restore, Pool, Session,
  Event, restore_returns, init, is_number, release, finish, announce,
}
use rabbitmq.Facade.Session.Steps.{
  enter, install, pool_number, abandon, advance, restore_step, step, run,
}
use rabbitmq.Facade.Session.Ownership.{Inv, announce-Same, answer-Same}
use rabbitmq.Facade.Session.Ownership.Reachable.{reachable-Inv}
use rabbitmq.Facade.Session.Ownership.Restores.{is_number→}

-- Whatever has happened since the constructor, two restores that run on the connection in place are
-- one, and it is the one in the slot: no two recreations of the consumers overlap on a connection.
pub restores-are_one :
    (es : List Event) (r j c : ℕ) (q k : Restore)
    → Map.get (run init es).0.restores r ≡ some q
    → Map.get (run init es).0.restores j ≡ some k
    → q.built_on ≡ some c
    → k.built_on ≡ some c
    → (run init es).0.connection ≡ some c
    → (r ≡ j) × ((run init es).0.restore_promise ≡ some r)
restores-are_one es r j c q k e f b d h =
    let v = reachable-Inv es in
    let u = v.running r q e in
    let w = v.running j k f in (ground (arith, u.owns c b h, w.owns c d h), u.owns c b h)

abbrev Keeps : Session → Session → Type 0
Keeps s t = (t.channel_pool ≡ s.channel_pool) × (t.restore_promise ≡ s.restore_promise)

release-other : (o : Option ℕ) (r : ℕ) → o ≢ some r → release o r ≡ o
unfolding release is_number
release-other none r n = refl
release-other (some m) r n = ground arith

finish-Keeps :
    (s : Session) (r : ℕ) (q : Restore) (ok : Bool)
    → s.restore_promise ≢ some r
    → Keeps s (finish s r q ok).0
unfolding finish
finish-Keeps s r q ok n =
    let t = record s {
      restores = Map.delete s.restores r;
      restore_promise = release s.restore_promise r;
    } in
    let u = (announce q.reconnections ok t).0 in
    ground (
      arith,
      announce-Same q.reconnections ok t,
      answer-Same r ok u u.connect_promise,
      release-other s.restore_promise r,
    )

module _ (s : Session) (r : ℕ) (q : Restore) (v : Inv s) where
  install-Keeps :
      (o : Option ℕ)
      → Map.get s.restores r ≡ some q
      → q.built_on ≡ o
      → s.restore_promise ≢ some r
      → Keeps s (install s r q o).0
  unfolding install enter
  install-Keeps none e b n = finish-Keeps s r q false n
  install-Keeps (some c) e b n =
      let u = v.running r q e in
      elim (Bool-cases (is_number s.connection c)) [
        | inl t ↦ absurd (n (u.owns c b (is_number→ s.connection c t)))
        | inr t ↦ rw t (refl, refl)
      ]

  owner :
      (o : Option Pool)
      → s.channel_pool ≡ o
      → is_number (pool_number o) r ≡ true
      → Map.get s.restores r ≡ some q
      → s.restore_promise ≡ some r
  unfolding pool_number is_number
  owner none d t e = cc
  owner (some p) d t e = let u = v.running r q e in (u.pooled p d (ground arith)).0

  abandon-Keeps :
      Map.get s.restores r ≡ some q → s.restore_promise ≢ some r → Keeps s (abandon s r q).0
  unfolding abandon pool_number
  abandon-Keeps e n = elim (Bool-cases (is_number (pool_number s.channel_pool) r)) [
    | inl t ↦ absurd (n (owner s.channel_pool refl t e))
    | inr t ↦ rw t (finish-Keeps s r q false n)
  ]

  advance-Keeps :
      (f : Phase) (ok : Bool)
      → Map.get s.restores r ≡ some q
      → s.restore_promise ≢ some r
      → Keeps s (advance s r q f ok).0
  unfolding advance enter
  advance-Keeps refused ok e n = finish-Keeps s r q false n
  advance-Keeps initializing false e n = finish-Keeps s r q false n
  advance-Keeps initializing true e n = install-Keeps q.built_on e refl n
  advance-Keeps discarding ok e n = finish-Keeps s r q false n
  advance-Keeps asserting false e n = abandon-Keeps e n
  advance-Keeps asserting true e n = (refl, refl)
  advance-Keeps recreating false e n = abandon-Keeps e n
  advance-Keeps recreating true e n = finish-Keeps s r q true n
  advance-Keeps closing ok e n = finish-Keeps s r q false n

restore_step-Keeps :
    (s : Session) (r : ℕ) (ok : Bool)
    → Inv s
    → s.restore_promise ≢ some r
    → (o : Option Restore) → Map.get s.restores r ≡ o
    → Keeps s (restore_step s r ok o).0
unfolding restore_step
restore_step-Keeps s r ok v n none e = (refl, refl)
restore_step-Keeps s r ok v n (some q) e = advance-Keeps s r q v q.phase ok e n

-- A restore that the slot does not name (a disconnection dropped it) changes neither the slot nor the
-- pool, however late it comes back and whatever it comes back with.
pub stale_restore-Keeps :
    (es : List Event) (r : ℕ) (ok : Bool)
    → (run init es).0.restore_promise ≢ some r
    → Keeps (run init es).0 (step (run init es).0 (restore_returns r ok)).0
unfolding step
stale_restore-Keeps es r ok n =
    let s = (run init es).0 in
    restore_step-Keeps s r ok (reachable-Inv es) n (Map.get s.restores r) refl
