-- ===== src/Tests/Channels.antt =====
-- Runs of src/connection/channel-pool.js: three slots.
use rabbitmq.Base.{◌≡◌, refl, some, List, [], ◌∷◌, length}
use rabbitmq.Connection.Channels.{
  Event, opens, open_fails, channel_closes, gets, run, initialize, get_channel, scan, at, step,
  take, opens_step, claim, put, slots_from, channel_closes_step, is_slot, try_again, fails_step,
}
use rabbitmq.Connection.Channels.Rotation.{Finds, get_channel-Finds}
use rabbitmq.Connection.Channels.Slots.{Slots}
use rabbitmq.Connection.Channels.Slots.Steps.{reachable-Slots}

-- The second slot opens first, and dies.
abbrev one_dead : List Event
one_dead = opens 1 20 ∷ opens 0 10 ∷ opens 0 30 ∷ gets ∷ channel_closes 1 20 ∷ open_fails 0 ∷ []

run-one_dead : (get_channel (run (initialize 3) one_dead)).1 ≡ some 30
unfolding run initialize slots_from step take opens_step claim put get_channel scan at
    channel_closes_step is_slot try_again fails_step
run-one_dead = refl

get_channel-Finds_example :
    let s = run (initialize 3) one_dead in
    Finds s.channels s.index (length s.channels) (get_channel s).1 (get_channel s).0.index
get_channel-Finds_example = get_channel-Finds 3 one_dead

reachable-Slots_example : Slots (run (initialize 3) one_dead)
reachable-Slots_example = reachable-Slots 3 one_dead tt
