-- ===== src/Messaging/Routable.antt =====
-- src/messaging/routable-publish.js on one channel: the tokens of the publishes that watch for their
-- return. The registries of two channels share nothing. Tokens are numbered, and the entry of a
-- publish is looked at while it is in the registry.
pub mod Watched
use rabbitmq.Base.{
  ℕ, ◌+◌, Bool, true, false, Option, none, some, Table, ident_ℕ, List, [], ◌∷◌, ◌++◌, length,
}
use rabbitmq.Base.Map

pub record Channel : Type 0 where
  pub registry : Option (Table ℕ Bool)  -- by token: whether the message was returned
  pub listeners : ℕ  -- of 'return'
  pub next_token : ℕ

pub data Event : Type 0 where
  publishes : Event
  returns : ℕ → Event  -- a message with that token comes back
  confirms : ℕ → Bool → Event

-- How a publish settles: refused by the broker, or confirmed, with whether it was returned.
pub data Settled : Type 0 where
  not_confirmed : ℕ → Settled
  confirmed : ℕ → Bool → Settled

abbrev pub Step : Type 0
Step = Channel × List Settled

unfoldable pub init : Channel
init = record { registry = none; listeners = 0; next_token = 0 }

-- `registryFor`: the first publish on a channel puts the one listener there.
unfoldable pub registry_for : Channel → Option (Table ℕ Bool) → Channel × Table ℕ Bool
registry_for s none = (record s { registry = some []; listeners = s.listeners + 1 }, [])
registry_for s (some registry) = (s, registry)

-- `publishWatched` up to the confirm.
unfoldable pub watch : Channel × Table ℕ Bool → Channel
watch (s, registry) = record s {
  registry = some (Map.set registry s.next_token false);
  next_token = s.next_token + 1;
}

unfoldable pub publish_watched : Channel → Channel
unfolding registry_for watch
publish_watched s = watch (registry_for s s.registry)

-- The listener.
unfoldable pub mark : Table ℕ Bool → ℕ → Option Bool → Table ℕ Bool
mark registry token none = registry
mark registry token (some returned) = Map.set registry token true

unfoldable pub on_return : Channel → ℕ → Option (Table ℕ Bool) → Channel
unfolding mark
on_return s token none = s
on_return s token (some registry) = record s {
  registry = some (mark registry token (Map.get registry token));
}

-- The confirm: the token goes, whatever the broker says.
unfoldable pub verdict : ℕ → Bool → Bool → Settled
verdict token true returned = confirmed token returned
verdict token false returned = not_confirmed token

unfoldable pub settle : Channel → Table ℕ Bool → ℕ → Bool → Option Bool → Step
unfolding verdict
settle s registry token ok none = (s, [])
settle s registry token ok (some returned) =
    (record s { registry = some (Map.delete registry token) }, verdict token ok returned ∷ [])

unfoldable pub on_confirm : Channel → ℕ → Bool → Option (Table ℕ Bool) → Step
unfolding settle
on_confirm s token ok none = (s, [])
on_confirm s token ok (some registry) = settle s registry token ok (Map.get registry token)

unfoldable pub size : Option (Table ℕ Bool) → ℕ
size none = 0
size (some registry) = length registry

-- `watchCount`.
unfoldable pub watch_count : Channel → ℕ
unfolding size
watch_count s = size s.registry

unfoldable pub step : Channel → Event → Step
unfolding publish_watched on_return on_confirm
step s publishes = (publish_watched s, [])
step s (returns token) = (on_return s token s.registry, [])
step s (confirms token ok) = on_confirm s token ok s.registry

unfoldable pub run : Channel → List Event → Step
unfolding step
run s [] = (s, [])
run s (e ∷ es) = let (s', out) = step s e in let (s'', out') = run s' es in (s'', out ++ out')
