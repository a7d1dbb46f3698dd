-- ===== src/Connection/Channels.antt =====
-- src/connection/channel-pool.js. Channels are numbers, in the order in which the broker opens them, and
-- so are the owners of dedicated channels. An open in flight, a backoff, a 'close' of a channel and the
-- end of `close()` are events, and so is a call of `getChannel`.
pub mod Rotation
pub mod Slots
use rabbitmq.Base.{
  ℕ, zero, suc, ◌+◌, ◌%◌, Bool, true, false, ◌&&◌, ◌||◌, not, Option, none, some, ltb, leb, ◌==◌,
  if◌then◌else◌, Table, ident_ℕ, List, [], ◌∷◌, ◌++◌, length,
}
use rabbitmq.Base.Map

-- An attempt to open the channel of a slot: 0 is that of `initialize`, and the loop of
-- `#replacePoolChannel` counts its own from 1.
pub record Attempt : Type 0 where
  pub slot : ℕ
  pub attempt : ℕ

pub record ChannelPool : Type 0 where
  pub size : ℕ
  pub channels : List (Option ℕ)  -- `null`, or nothing yet, is `none`
  pub index : ℕ
  pub dedicated_channels : Table ℕ ℕ
  pub closed : Bool
  pub opening : List Attempt
  pub sleeping : List Attempt
  pub out_of_rotation : List ℕ  -- slots whose opens have failed for good

pub data Event : Type 0 where
  opens : ℕ → ℕ → Event
  open_fails : ℕ → Event
  wakes : ℕ → Event
  channel_closes : ℕ → ℕ → Event
  close : Event
  closes_settle : Event
  gets : Event

abbrev pub max_replace_attempts : ℕ
max_replace_attempts = 5

unfoldable pub slots_from : ℕ → ℕ → List Attempt
slots_from i zero = []
slots_from i (suc n) = record { slot = i; attempt = 0 } ∷ slots_from (i + 1) n

-- `initialize` once its `close()` is over: every slot is being opened.
unfoldable pub initialize : ℕ → ChannelPool
unfolding slots_from
initialize size = record {
  size = size;
  channels = [];
  index = 0;
  dedicated_channels = [];
  closed = false;
  opening = slots_from 0 size;
  sleeping = [];
  out_of_rotation = [];
}

-- `channels[i]`.
unfoldable pub at : List (Option ℕ) → ℕ → Option ℕ
at [] i = none
at (c ∷ cs) zero = c
at (c ∷ cs) (suc i) = at cs i

-- `channels[i] = c`, which makes the array longer where it has to.
unfoldable pub put : List (Option ℕ) → ℕ → Option ℕ → List (Option ℕ)
put [] zero c = c ∷ []
put [] (suc i) c = none ∷ put [] i c
put (d ∷ cs) zero c = c ∷ cs
put (d ∷ cs) (suc i) c = d ∷ put cs i c

-- The loop of `getChannel`, with the turns that it has left.
unfoldable pub scan : ℕ → List (Option ℕ) → ℕ → Option ℕ × ℕ
unfolding at
scan zero cs index = (none, index)
scan (suc n) cs index =
    let next = (index + 1) % length cs in
    elim (at cs index) [ none ↦ scan n cs next | some c ↦ (some c, next) ]

-- `none` is either error: no channels yet, or none usable.
unfoldable pub get_channel : ChannelPool → ChannelPool × Option ℕ
unfolding scan
get_channel s =
    let (found, index) = scan (length s.channels) s.channels s.index in
    (record s { index = index }, found)

-- An element of a list of attempts, and the others.
unfoldable pub take : List Attempt → ℕ → Option (Attempt × List Attempt)
take [] n = none
take (a ∷ as') zero = some (a, as')
take (a ∷ as') (suc n) = elim (take as' n) [ none ↦ none | some (b, bs) ↦ some (b, a ∷ bs) ]

-- A channel opens: a closed pool claims nothing.
unfoldable pub claim : ChannelPool → ℕ → ℕ → ChannelPool
unfolding put
claim s slot c = if s.closed then s else record s { channels = put s.channels slot (some c) }

unfoldable pub opens_step : ChannelPool → ℕ → Option (Attempt × List Attempt) → ChannelPool
unfolding claim
opens_step s c none = s
opens_step s c (some (a, rest)) = claim (record s { opening = rest }) a.slot c

-- An open fails: `initialize` will close the pool, and the loop sleeps.
unfoldable pub fails_step : ChannelPool → Option (Attempt × List Attempt) → ChannelPool
fails_step s none = s
fails_step s (some (a, rest)) =
    if a.attempt == 0
    then record s { opening = rest; out_of_rotation = a.slot ∷ s.out_of_rotation }
    else record s { opening = rest; sleeping = a ∷ s.sleeping }

-- The head of the loop of `#replacePoolChannel`, for its next attempt.
unfoldable pub try_again : ChannelPool → ℕ → ℕ → ChannelPool
try_again s slot attempt =
    if leb attempt max_replace_attempts && not s.closed
    then record s { opening = record { slot = slot; attempt = attempt } ∷ s.opening }
    else record s { out_of_rotation = slot ∷ s.out_of_rotation }

unfoldable pub wakes_step : ChannelPool → Option (Attempt × List Attempt) → ChannelPool
unfolding try_again
wakes_step s none = s
wakes_step s (some (a, rest)) = try_again (record s { sleeping = rest }) a.slot (a.attempt + 1)

-- The 'close' listener of a pool channel.
unfoldable pub is_slot : Option ℕ → ℕ → Bool
is_slot none c = false
is_slot (some d) c = d == c

unfoldable pub channel_closes_step : ChannelPool → ℕ → ℕ → ChannelPool
unfolding is_slot put try_again at
channel_closes_step s slot c =
    if s.closed || not (is_slot (at s.channels slot) c)
    then s
    else try_again (record s { channels = put s.channels slot none }) slot 1

unfoldable pub step : ChannelPool → Event → ChannelPool
unfolding take opens_step fails_step wakes_step channel_closes_step get_channel
step s (opens n c) = opens_step s c (take s.opening n)
step s (open_fails n) = fails_step s (take s.opening n)
step s (wakes n) = wakes_step s (take s.sleeping n)
step s (channel_closes slot c) = channel_closes_step s slot c
step s close = record s { closed = true }
step s closes_settle =
    if s.closed then record s { channels = []; index = 0; dedicated_channels = [] } else s
step s gets = (get_channel s).0

unfoldable pub run : ChannelPool → List Event → ChannelPool
unfolding step
run s [] = s
run s (e ∷ es) = run (step s e) es

-- `getDedicatedChannel` up to its `await`: the channel of the owner, if it has one.
unfoldable pub dedicated : ChannelPool → ℕ → Option ℕ
dedicated s owner = Map.get s.dedicated_channels owner

-- The rest of it, for a channel that has opened.
unfoldable pub dedicate : ChannelPool → ℕ → ℕ → ChannelPool
dedicate s owner c = record s { dedicated_channels = Map.set s.dedicated_channels owner c }

-- A dedicated channel's 'close' and 'error' listeners, and `releaseDedicatedChannel`, which closes the
-- channel that it has taken out.
unfoldable pub forget_dedicated : ChannelPool → ℕ → ChannelPool
forget_dedicated s owner = record s { dedicated_channels = Map.delete s.dedicated_channels owner }

unfoldable pub release_dedicated : ChannelPool → ℕ → ChannelPool × Option ℕ
unfolding dedicated forget_dedicated
release_dedicated s owner = (forget_dedicated s owner, dedicated s owner)
