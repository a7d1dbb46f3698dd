-- ===== src/Messaging/Rpc/Route.antt =====
-- A reply route does not outlive its connection.
use rabbitmq.Base.{
  ◌∙◌, ℕ, ◌+◌, ◌≡◌, ◌≤◌, ◌<◌, refl, Bool, true, false, Option, none, some, ◌==◌, if◌then◌else◌,
  ident_ℕ, List, [], ◌∷◌, arith,
}
use rabbitmq.Base.Map
use rabbitmq.Messaging.Rpc.{
  Reply, Rpc, Reason, Event, ensures, setup_succeeds, setup_fails, requests, replies, decodes,
  returns, times_out, publish_fails, loses_connection, loses_channel, settle_pending,
  reject_all_pending, lose_connection, invalidate, is_channel, install, register, receive,
  take_reply, conclude, step, run, unroutable, timed_out, publish_failed,
}

-- A set-up in flight began in an epoch up to `last`.
abbrev pub BeganBy : ℕ → Option ℕ → Type 0
BeganBy last none = Unit
BeganBy last (some epoch) = epoch ≤ last

-- A set-up in flight began in an earlier epoch.
abbrev pub IsStale : ℕ → Option ℕ → Type 0
IsStale now none = Unit
IsStale now (some epoch) = epoch < now

-- What of the route an event that is not about it leaves alone.
abbrev Same : Rpc → Rpc → Type 0
Same s t =
    (t.reply_channel ≡ s.reply_channel)
    × (t.reply_setup ≡ s.reply_setup)
    × (t.connection_epoch ≡ s.connection_epoch)

-- No route, and none to come but from a set-up that begins anew.
pub record IsCut (s : Rpc) : Type 0 where
  pub no_channel : s.reply_channel ≡ none
  pub stale : IsStale s.connection_epoch s.reply_setup

settle_pending-Same :
    (s : Rpc) (id : ℕ) (o : Option ℕ) (r : Reason) → Same s (settle_pending s id o r).0
unfolding settle_pending
settle_pending-Same s id none r = (refl, refl, refl)
settle_pending-Same s id (some c) r = (refl, refl, refl)

register-Same : (s : Rpc) (id c : ℕ) (o : Option ℕ) → Same s (register s id c o)
unfolding register
register-Same s id c none = (refl, refl, refl)
register-Same s id c (some d) = (refl, refl, refl)

receive-Same : (s : Rpc) (id : ℕ) (b : Bool) (o : Option ℕ) → Same s (receive s id b o)
unfolding receive
receive-Same s id b none = (refl, refl, refl)
receive-Same s id b (some d) = (refl, refl, refl)

conclude-Same : (s : Rpc) (ok : Bool) (o : Option (Reply × List Reply)) → Same s (conclude s ok o).0
unfolding conclude
conclude-Same s ok none = (refl, refl, refl)
conclude-Same s ok (some x) = (refl, refl, refl)

Same-IsCut : (s t : Rpc) → Same s t → IsCut s → IsCut t
Same-IsCut s t h v = record { no_channel = h.0 ∙ v.no_channel; stale = rw (h.1, h.2) v.stale }

lose-IsCut : (s : Rpc) → BeganBy s.connection_epoch s.reply_setup → IsCut (lose_connection s).0
unfolding lose_connection reject_all_pending
lose-IsCut s b = record { no_channel = refl; stale = older s.reply_setup b }
  where
    older : (o : Option ℕ) → BeganBy s.connection_epoch o → IsStale (s.connection_epoch + 1) o
    older none p = tt
    older (some e) p = omega (arith, p)

install-IsCut :
    (s : Rpc) (o : Option ℕ) (c : ℕ) → s.reply_setup ≡ o → IsCut s → IsCut (install s o c)
unfolding install
install-IsCut s none c e v = v
install-IsCut s (some epoch) c e v =
    otherwise (epoch == s.connection_epoch)
      (record s { reply_setup = none; reply_channel = some c }) (record s { reply_setup = none })
      (λ q. let p : epoch < s.connection_epoch = rw e at v.stale in absurd (ground (arith, q, p)))
      (record { no_channel = v.no_channel; stale = tt })
  where
    otherwise : (b : Bool) (x y : Rpc) → (b ≡ true → IsCut x) → IsCut y → IsCut (if b then x else y)
    otherwise true x y p q = p refl
    otherwise false x y p q = q

invalidate-IsCut : (s : Rpc) (c : ℕ) → IsCut s → IsCut (invalidate s c).0
unfolding invalidate is_channel
invalidate-IsCut s c v = rw v.no_channel (record { no_channel = refl; stale = v.stale })

-- Nobody asks for a route.
abbrev pub IsUnasked : List Event → Type 0
IsUnasked [] = Unit
IsUnasked (ensures ∷ es) = ⊥
IsUnasked (e ∷ es) = IsUnasked es

run-IsCut : (es : List Event) (s : Rpc) → IsCut s → IsUnasked es → IsCut (run s es).0
unfolding run step
run-IsCut [] s v h = v
run-IsCut (ensures ∷ es) s v h = absurd h
run-IsCut (setup_succeeds c ∷ es) s v h = run-IsCut es _ (install-IsCut s s.reply_setup c refl v) h
run-IsCut (setup_fails ∷ es) s v h =
    run-IsCut es _ (record { no_channel = v.no_channel; stale = tt }) h
run-IsCut (requests id c ∷ es) s v h =
    run-IsCut es _ (Same-IsCut s _ (register-Same s id c (Map.get s.pending_requests id)) v) h
run-IsCut (replies id b ∷ es) s v h =
    run-IsCut es _ (Same-IsCut s _ (receive-Same s id b (Map.get s.pending_requests id)) v) h
run-IsCut (decodes n ok ∷ es) s v h =
    run-IsCut es _ (Same-IsCut s _ (conclude-Same s ok (take_reply s.decoding n)) v) h
run-IsCut (returns id ∷ es) s v h =
    run-IsCut es _
      (Same-IsCut s _ (settle_pending-Same s id (Map.get s.pending_requests id) unroutable) v) h
run-IsCut (times_out id ∷ es) s v h =
    run-IsCut es _
      (Same-IsCut s _ (settle_pending-Same s id (Map.get s.pending_requests id) timed_out) v) h
run-IsCut (publish_fails id ∷ es) s v h =
    run-IsCut es _
      (Same-IsCut s _ (settle_pending-Same s id (Map.get s.pending_requests id) publish_failed) v) h
run-IsCut (loses_connection ∷ es) s v h =
    run-IsCut es _ (lose-IsCut s (soon s.reply_setup v.stale)) h
  where
    soon : (o : Option ℕ) → IsStale s.connection_epoch o → BeganBy s.connection_epoch o
    soon none p = tt
    soon (some e) p = omega (arith, p)
run-IsCut (loses_channel c ∷ es) s v h = run-IsCut es _ (invalidate-IsCut s c v) h

-- Once a connection is lost no reply channel is in place until a request asks for one anew: the set-up
-- that was in flight is not installed, whenever it comes back.
pub loses_connection-IsCut :
    (s : Rpc) (es : List Event)
    → BeganBy s.connection_epoch s.reply_setup
    → IsUnasked es
    → IsCut (run s (loses_connection ∷ es)).0
unfolding run step
loses_connection-IsCut s es b h = run-IsCut es _ (lose-IsCut s b) h
