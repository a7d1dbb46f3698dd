-- ===== src/Facade/Cache.antt =====
-- publishWithCache and the cache of src/index.js. The store is a package (@cacheable/node-cache), so it is
-- an interface: what the code calls of it, and what its documentation says of that.
pub mod Reuse
use rabbitmq.Base.{
  ℕ, ◌+◌, ◌≡◌, ◌≢◌, ◌≤◌, ◌<◌, Bool, true, false, Option, none, some, if◌then◌else◌, List, [], ◌∷◌,
}
use rabbitmq.Messaging.Publisher.{RoutingKey, ExchangeType, validate_routing_key}

-- Keys are routing keys: the exchange's name before each is the same for all. Times are in seconds.
pub record Store (V : Type 0) : Type 1 where
  pub State : Type 0
  pub get : State → ℕ → RoutingKey → Option V  -- at a time
  pub set : State → ℕ → RoutingKey → V → ℕ → State  -- with a lifetime, 0 for ever
  pub del : State → RoutingKey → State
  pub flush_all : State → State
  pub std_ttl : ℕ

-- An entry is there until its lifetime is over.
abbrev pub Lives : ℕ → ℕ → ℕ → Type 0
Lives now ttl later = (ttl ≢ 0 → later < now + ttl) × (now ≤ later)

pub record IsLawful {V : Type 0} (S : Store V) : Type 0 where
  pub get-set :
      (s : S.State) (now later ttl : ℕ) (k : RoutingKey) (v : V)
      → Lives now ttl later
      → S.get (S.set s now k v ttl) later k ≡ some v
  pub get-set_other :
      (s : S.State) (now later ttl : ℕ) (j k : RoutingKey) (v : V)
      → j ≢ k
      → S.get (S.set s now j v ttl) later k ≡ S.get s later k
  pub get-del : (s : S.State) (later : ℕ) (k : RoutingKey) → S.get (S.del s k) later k ≡ none
  pub get-del_other :
      (s : S.State) (later : ℕ) (j k : RoutingKey)
      → j ≢ k
      → S.get (S.del s j) later k ≡ S.get s later k
  pub get-flush_all :
      (s : S.State) (later : ℕ) (k : RoutingKey) → S.get (S.flush_all s) later k ≡ none

-- How a call ends.
pub data Cached (V : Type 0) : Type 0 where
  invalid_key generator_failed publish_failed : Cached V
  hit : V → Cached V
  published : V → Cached V

pub record Caller (V : Type 0) : Type 0 where
  pub exchange_type : ExchangeType
  pub routing_key : RoutingKey
  pub generated : Option V  -- what the generator gives, unless it throws
  pub is_published : Bool
  pub cache_ttl : Option ℕ
  pub asked : ℕ  -- the time of the call
  pub answered : ℕ  -- the time when the publish has settled

unfoldable pub or_std : Option ℕ → ℕ → ℕ
or_std none std_ttl = std_ttl
or_std (some ttl) std_ttl = ttl

module _ {V : Type 0} (S : Store V) where
  -- `#requireCache` and what stands on it: `none` is the error.
  unfoldable pub require_cache : Bool → S.State → Option S.State
  require_cache use_cache s = if use_cache then some s else none

  unfoldable pub get_from_cache : Bool → S.State → ℕ → RoutingKey → Option (Option V)
  get_from_cache use_cache s now k = if use_cache then some (S.get s now k) else none

  unfoldable pub invalidate_cache : Bool → S.State → RoutingKey → Option S.State
  invalidate_cache use_cache s k = if use_cache then some (S.del s k) else none

  unfoldable pub clear_cache : Bool → S.State → Option S.State
  clear_cache use_cache s = if use_cache then some (S.flush_all s) else none

  unfoldable pub look_up : Bool → S.State → ℕ → RoutingKey → Option V
  look_up use_cache s now k = if use_cache then S.get s now k else none

  -- The message is kept once it is published. Other calls may have changed the store meanwhile.
  unfoldable pub keep : Bool → S.State → Caller V → V → S.State
  unfolding or_std
  keep use_cache s c v =
      if use_cache then S.set s c.answered c.routing_key v (or_std c.cache_ttl S.std_ttl) else s

  unfoldable pub publish_message : Bool → S.State → Caller V → Option V → S.State × Cached V
  unfolding keep
  publish_message use_cache later c none = (later, generator_failed)
  publish_message use_cache later c (some v) =
      if c.is_published then (keep use_cache later c v, published v) else (later, publish_failed)

  unfoldable pub after_look_up : Bool → S.State → Caller V → Option V → S.State × Cached V
  unfolding publish_message
  after_look_up use_cache later c (some v) = (later, hit v)
  after_look_up use_cache later c none = publish_message use_cache later c c.generated

  -- The store at the call, and the store when the publish has settled.
  unfoldable pub with_valid_key : Bool → S.State → S.State × Cached V → S.State × Cached V
  with_valid_key true later r = r
  with_valid_key false later r = (later, invalid_key)

  unfoldable pub publish_with_cache : Bool → S.State → S.State → Caller V → S.State × Cached V
  unfolding with_valid_key look_up after_look_up
  publish_with_cache use_cache s later c =
      with_valid_key (validate_routing_key c.routing_key c.exchange_type) later
        (after_look_up use_cache later c (look_up use_cache s c.asked c.routing_key))

  -- What other calls do to the store meanwhile: a publishWithCache that keeps its message,
  -- invalidateCache, and a publishWithCache or a getFromCache that only looks (at the key, at a time).
  pub data Call : Type 0 where
    keeps : Caller V → V → Call
    invalidates : RoutingKey → Call
    looks : ℕ → RoutingKey → Call

  abbrev kept : Option S.State → S.State → S.State
  kept none s = s
  kept (some t) s = t

  unfoldable pub call : S.State → Call → S.State
  unfolding keep invalidate_cache get_from_cache
  call s (keeps c v) = keep true s c v
  call s (invalidates k) = kept (invalidate_cache true s k) s
  call s (looks now k) = s

  unfoldable pub calls : S.State → List Call → S.State
  unfolding call
  calls s [] = s
  calls s (c ∷ cs) = calls (call s c) cs
