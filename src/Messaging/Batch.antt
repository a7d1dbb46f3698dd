-- ===== src/Messaging/Batch.antt =====
-- `publishBatch` of src/messaging/publisher.js. What becomes of an attempt is the environment's: the open
-- breaker refuses it, it finds no channel, it cannot encode, or it publishes, and then `confirms i` says
-- of the message with index i whether it is confirmed (and not returned). How often the operation is
-- tried is the retry policy's, which is not of this repository: an attempt that fails is repeated up to
-- the number of attempts, but not one that the open breaker has refused.
pub mod Confirms
use rabbitmq.Base.{
  ℕ, zero, suc, ◌+◌, Bool, true, false, not, ◌&&◌, ◌||◌, Option, none, some, ltb, ◌==◌, max,
  if◌then◌else◌, List, [], ◌∷◌, ◌++◌,
}

-- `new Set(messages.keys())`.
unfoldable pub keys_from : ℕ → ℕ → List ℕ
keys_from i zero = []
keys_from i (suc n) = i ∷ keys_from (i + 1) n

-- What is left in `unconfirmed` when every publish of an attempt has settled.
unfoldable pub settle : (ℕ → Bool) → List ℕ → List ℕ
settle confirms [] = []
settle confirms (i ∷ is) = let rest = settle confirms is in if confirms i then rest else i ∷ rest

unfoldable pub all_confirmed : (ℕ → Bool) → List ℕ → Bool
all_confirmed confirms [] = true
all_confirmed confirms (i ∷ is) = confirms i && all_confirmed confirms is

-- An attempt: what is unconfirmed after it, what it publishes, and whether it resolves.
pub record Attempted : Type 0 where
  pub unconfirmed : List ℕ
  pub published : List ℕ
  pub resolves : Bool

pub data Try : Type 0 where
  circuit_open no_channel not_encoded : Try
  sends : (ℕ → Bool) → Try

unfoldable pub refused : List ℕ → Attempted
refused unconfirmed = record { unconfirmed = unconfirmed; published = []; resolves = false }

unfoldable pub batch_operation : Try → List ℕ → Attempted
unfolding settle all_confirmed refused
batch_operation circuit_open unconfirmed = refused unconfirmed
batch_operation no_channel unconfirmed = refused unconfirmed
batch_operation not_encoded unconfirmed = refused unconfirmed
batch_operation (sends confirms) unconfirmed = record {
  unconfirmed = settle confirms unconfirmed;
  published = unconfirmed;
  resolves = all_confirmed confirms unconfirmed;
}

unfoldable pub is_open : Try → Bool
is_open circuit_open = true
is_open no_channel = false
is_open not_encoded = false
is_open (sends confirms) = false

-- Attempts from the a-th on, as long as they fail and may be repeated, n at most.
unfoldable pub try_batch : (ℕ → Try) → ℕ → ℕ → List ℕ → Attempted
unfolding batch_operation is_open refused
try_batch tries a zero unconfirmed = refused unconfirmed
try_batch tries a (suc n) unconfirmed =
    let t = batch_operation (tries a) unconfirmed in
    let rest = try_batch tries (a + 1) n t.unconfirmed in
    if t.resolves || is_open (tries a)
    then t
    else record rest { published = t.published ++ rest.published }

-- `Math.max(1, options.maxRetries ?? 3)`.
unfoldable pub attempts_of : Option ℕ → ℕ
attempts_of none = max 1 3
attempts_of (some max_retries) = max 1 max_retries

-- The batch; an empty one is an error.
unfoldable pub publish_batch : (ℕ → Try) → ℕ → Option ℕ → Option Attempted
unfolding keys_from try_batch attempts_of
publish_batch tries zero max_retries = none
publish_batch tries (suc n) max_retries =
    some (try_batch tries 0 (attempts_of max_retries) (keys_from 0 (suc n)))
