-- ===== src/Messaging/Topology.antt =====
-- src/messaging/topology.js: what is declared, where a dead letter goes, and the probe for the delay
-- plugin. Whether the broker takes a command is the environment's. Names are numbers.
pub mod Declared
use rabbitmq.Base.{
  ℕ, ◌+◌, Bool, true, false, ◌&&◌, Option, none, some, ◌==◌, if◌then◌else◌, Ident, Table, ident_ℕ,
  List, [], ◌∷◌, ◌++◌,
}
use rabbitmq.Base.Map
use rabbitmq.Messaging.Publisher.{spread}

-- The queue's own name, or that of its dead letter queue.
pub data Queue : Type 0 where
  named : ℕ → Queue
  dead_letters_of : ℕ → Queue

-- The arguments that a queue is declared with. `custom` is any other key.
pub data Key : Type 0 where
  x_dead_letter_exchange x_dead_letter_routing_key x_max_priority : Key
  custom : ℕ → Key

pub data Value : Type 0 where
  exchange : ℕ → Value
  queue : Queue → Value
  number : ℕ → Value

-- `{ ...a, ...b }` of the arguments, read at a key: the later object wins.
abbrev pub Arguments : Type 0
Arguments = Key → Option Value

unfoldable pub over : Arguments → Arguments → Arguments
over a b key = elim (b key) [ none ↦ a key | some v ↦ some v ]

unfoldable pub dead_letter_arguments : ℕ → ℕ → Arguments
dead_letter_arguments dlx name x_dead_letter_exchange = some (exchange dlx)
dead_letter_arguments dlx name x_dead_letter_routing_key = some (queue (dead_letters_of name))
dead_letter_arguments dlx name x_max_priority = none
dead_letter_arguments dlx name (custom k) = none

-- A priority of 0 is left out, as one that is not given.
unfoldable pub priority_arguments : Option ℕ → Arguments
priority_arguments none key = none
priority_arguments (some n) x_max_priority = if n == 0 then none else some (number n)
priority_arguments (some n) x_dead_letter_exchange = none
priority_arguments (some n) x_dead_letter_routing_key = none
priority_arguments (some n) (custom k) = none

unfoldable pub queue_arguments : ℕ → ℕ → Option ℕ → Arguments → Arguments
unfolding over dead_letter_arguments priority_arguments
queue_arguments dlx name max_priority own =
    over (over (dead_letter_arguments dlx name) (priority_arguments max_priority)) own

-- `createQueue`: three commands, one after another.
pub data Command : Type 0 where
  assert_queue : Queue → Command
  bind_queue : Queue → ℕ → Command

unfoldable pub commands : ℕ → ℕ → List Command
commands dlx name =
    assert_queue (named name)
    ∷ assert_queue (dead_letters_of name)
    ∷ bind_queue (dead_letters_of name) dlx
    ∷ []

-- What was issued, and whether all was taken.
unfoldable pub issue : (Command → Bool) → List Command → List Command × Bool
issue takes [] = ([], true)
issue takes (c ∷ cs) =
    let (issued, ok) = issue takes cs in if takes c then (c ∷ issued, ok) else (c ∷ [], false)

unfoldable pub create_queue : (Command → Bool) → ℕ → ℕ → List Command × Bool
unfolding issue commands
create_queue takes dlx name = issue takes (commands dlx name)

-- `moveToDeadLetter`: to the dead letter queue of the source, or of the routing key.
unfoldable pub dead_letter_queue : Option ℕ → ℕ → Queue
dead_letter_queue none routing_key = dead_letters_of routing_key
dead_letter_queue (some source) routing_key = dead_letters_of source

pub data Move : Type 0 where
  moved not_confirmed unbound : Move

unfoldable pub move_outcome : Bool → Bool → Move
move_outcome false returned = not_confirmed
move_outcome true returned = if returned then unbound else moved

-- The probes of `isDelayPluginEnabled` with a channel of their own, by their id.
pub record Probes : Type 0 where
  pub probe_sequence : ℕ
  pub in_flight : Table ℕ ℕ  -- the channel of each probe that has not come back
  pub dedicated : Table ℕ ℕ  -- the channels that the pool keeps for them, while they are open

pub data Tried : Type 0 where
  asserted unknown_type broken : Tried

pub data Found : Type 0 where
  enabled : Bool → Found
  throws : Found

-- The pool opens a channel for a probe; the channel of a probe closes; the exchange's answer comes.
pub data Event : Type 0 where
  probes : ℕ → Event
  closes : ℕ → Event
  returns : ℕ → Tried → Event

unfoldable pub found : Tried → Found
found asserted = enabled true
found unknown_type = enabled false
found broken = throws

-- `#probeChannel` where there is a pool.
unfoldable pub probe_channel : Probes → ℕ → Probes
probe_channel s channel = record {
  probe_sequence = s.probe_sequence + 1;
  in_flight = Map.set s.in_flight (s.probe_sequence + 1) channel;
  dedicated = Map.set s.dedicated (s.probe_sequence + 1) channel;
}

-- The 'close' or 'error' listener of a dedicated channel in the pool.
unfoldable pub lose_channel : Probes → ℕ → Probes
lose_channel s id = record s { dedicated = Map.delete s.dedicated id }

-- The `finally` gives the channel back, however the probe went.
unfoldable pub end_probe : Probes → ℕ → Tried → Option ℕ → Probes × List Found
unfolding found
end_probe s id tried none = (s, [])
end_probe s id tried (some channel) = (
  record s { in_flight = Map.delete s.in_flight id; dedicated = Map.delete s.dedicated id },
  found tried ∷ [],
)

unfoldable pub step : Probes → Event → Probes × List Found
unfolding probe_channel lose_channel end_probe
step s (probes channel) = (probe_channel s channel, [])
step s (closes id) = (lose_channel s id, [])
step s (returns id tried) = end_probe s id tried (Map.get s.in_flight id)

unfoldable pub run : Probes → List Event → Probes × List Found
unfolding step
run s [] = (s, [])
run s (e ∷ es) = let (s', out) = step s e in let (s'', out') = run s' es in (s'', out ++ out')
