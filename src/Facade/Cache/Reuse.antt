-- ===== src/Facade/Cache/Reuse.antt =====
-- A message that was published is reused for as long as it lives.
use rabbitmq.Base.{◌≡◌, ◌≢◌, List, [], ◌∷◌, Bool, true, false, Option, none, some}
use rabbitmq.Messaging.Publisher.{RoutingKey}
use rabbitmq.Facade.Cache.{
  Store, Cached, hit, published, Caller, keep, after_look_up, with_valid_key, Call, keeps,
  invalidates, looks,
}

module _ {V : Type 0} (S : Store V) where
  -- A call that published kept its message.
  abbrev Keeps : S.State → Caller V → V → S.State × Cached V → Type 0
  Keeps later c v r = r.1 ≡ published v → r.0 ≡ keep S true later c v

  found :
      (b : Bool) (later : S.State) (c : Caller V) (v : V) (o : Option V)
      → b ≡ true
      → o ≡ some v
      → (with_valid_key S b later (after_look_up S true later c o)).1 ≡ hit v
  unfolding with_valid_key after_look_up
  found true later c v none e f = cc
  found true later c v (some w) e f = cc
  found false later c v o e f = cc

  abbrev pub IsElsewhere : RoutingKey → Call S → Type 0
  IsElsewhere k (keeps c v) = c.routing_key ≢ k
  IsElsewhere k (invalidates j) = j ≢ k
  IsElsewhere k (looks now j) = Unit

  abbrev pub AreElsewhere : RoutingKey → List (Call S) → Type 0
  AreElsewhere k [] = Unit
  AreElsewhere k (c ∷ cs) = IsElsewhere k c × AreElsewhere k cs
