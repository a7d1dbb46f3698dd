-- ===== src/Messaging/Routable/Watched.antt =====
-- What a watched publish is told, and what it leaves behind.
pub mod Tokens
use rabbitmq.Base.{
  ℕ, ◌+◌, ◌≤◌, ◌≡◌, refl, Bool, Option, none, some, Table, ident_ℕ, List, length, length-append,
  sym, arith,
}
use mathlib.Core.Path.{subst}
use rabbitmq.Base.Map
use rabbitmq.Base.Map.{set-IsDistinct, delete-IsDistinct}
use rabbitmq.Base.Tally.{sum_values, sum_values-set, sum_values-update, sum_values-delete}
use rabbitmq.Messaging.Routable.{Event, Step, init, size, watch_count, run}
use rabbitmq.Messaging.Routable.Watched.Tokens.{IsFit, all_begun, run-Good}

-- Whatever is published, returned and confirmed on a channel, and in whatever order: its registry holds
-- as many tokens as there are publishes that have not settled, so none is left behind, and the
-- channel has one listener at most.
pub watch_count-unsettled :
    (es : List Event)
    → (watch_count (run init es).0 + length (run init es).1 ≡ all_begun es)
      × ((run init es).0.listeners ≤ 1)
unfolding watch_count
watch_count-unsettled es =
    let a = run-Good es init (unfold init in refl) in
    let z : size init.registry ≡ 0 = unfold init size in refl in
    (omega (arith, a.1, z), at_most (run init es).0.registry a.0)
  where
    at_most :
        (o : Option (Table ℕ Bool))
        → IsFit o (run init es).0.next_token (run init es).0.listeners
        → (run init es).0.listeners ≤ 1
    at_most none v = omega (arith, v)
    at_most (some t) v = omega (arith, v.2)
