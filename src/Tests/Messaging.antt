-- ===== src/Tests/Messaging.antt =====
-- Runs of src/messaging at concrete inputs.
use rabbitmq.Base.{
  ℕ, zero, suc, ◌==◌, ◌+◌, ◌-◌, ◌≡◌, ◌≤◌, refl, true, false, Bool, none, some, List, [], ◌∷◌, arith,
  ident_ℕ, ℕ_discrete,
}
use rabbitmq.Base.Map
use rabbitmq.Base.Tally.{sum_list}
use rabbitmq.Messaging.Batch.{
  Attempted, publish_batch, attempts_of, try_batch, batch_operation, settle, all_confirmed,
  keys_from, Try, circuit_open, no_channel, sends, refused, is_open,
}
use rabbitmq.Messaging.Batch.Confirms.{times, sendings, is_confirmed, publish_batch-Serves}
use rabbitmq.Messaging.Codec.{Codec, value, encode, decode}
use rabbitmq.Messaging.Codec.RoundTrip.{encode-decode}
use rabbitmq.Messaging.Rpc.{
  Rpc, Event, ensures, setup_succeeds, requests, replies, decodes, times_out, loses_connection,
  loses_channel, resolved, rejected, connection_lost, run, init, step, ensure, install, register,
  receive, conclude, take_reply, verdict, invalidate, is_channel, lose_connection,
  reject_all_pending, reject_each, settle_pending,
}
use rabbitmq.Messaging.Rpc.Requests.{open_requests, settlements, made, requests-are_settled_once}
use rabbitmq.Messaging.Rpc.Route.{IsCut, loses_connection-IsCut}

-- There is no channel; then the second message alone is confirmed; then the first.
abbrev tries : ℕ → Try
tries zero = no_channel
tries (suc zero) = sends (λ i. i == 1)
tries (suc (suc a)) = sends (λ i. true)

abbrev published : Attempted
published = record { unconfirmed = []; published = 0 ∷ 1 ∷ 0 ∷ []; resolves = true }

publish_batch-published : publish_batch tries 2 none ≡ some published
unfolding publish_batch attempts_of try_batch batch_operation refused is_open settle all_confirmed
    keys_from
publish_batch-published = refl

-- An open circuit ends the batch.
publish_batch-stopped :
    publish_batch (λ a. circuit_open) 2 none
    ≡ some (record { unconfirmed = 0 ∷ 1 ∷ []; published = []; resolves = false })
unfolding publish_batch attempts_of try_batch batch_operation refused is_open keys_from
publish_batch-stopped = refl

publish_batch-Serves_example :
    (times 1 published.published ≡ sendings tries 1 0 (attempts_of none))
    × (0 ≤ times 1 published.published)
    × (true ≡ true → is_confirmed tries 1 0 (attempts_of none) ≡ true)
publish_batch-Serves_example =
    publish_batch-Serves tries 2 none published 1 publish_batch-published (omega arith)

abbrev codec : Codec ℕ ℕ ℕ
codec = record {
  serializer = λ v. some v;
  deserializer = λ s. some s;
  utf8_bytes = λ s. s;
  utf8_text = λ b. b;
  gzip = λ b. some (b + 1);
  gunzip = λ z. some (z - 1);
  byte_length = λ b. b;
  use_compression = true;
  compression_threshold = 2;
}

unzipped : (b z : ℕ) → codec.gzip b ≡ some z → codec.gunzip z ≡ some b
unzipped b z e = ground (arith, e)

encode-decode_example :
    (content : ℕ) × (compressed : Bool) × (encode codec (value 7) ≡ some (content, compressed))
    × (decode codec content compressed ≡ some (value 7))
encode-decode_example = encode-decode codec 7 7 (λ s. refl, unzipped) refl refl

-- A reply, a reply too late, and a loss with a request and a set-up in flight.
abbrev exchange : List Event
exchange =
    ensures
    ∷ setup_succeeds 1
    ∷ requests 100 7
    ∷ replies 100 false
    ∷ replies 100 false
    ∷ decodes 0 true
    ∷ requests 101 8
    ∷ loses_channel 1
    ∷ ensures
    ∷ requests 102 9
    ∷ loses_connection
    ∷ setup_succeeds 2
    ∷ times_out 102
    ∷ []

run-exchange :
    (run init exchange).1
    ≡ resolved 7 ∷ rejected 8 connection_lost ∷ rejected 9 connection_lost ∷ []
unfolding run init step ensure install register receive conclude take_reply verdict invalidate
    is_channel lose_connection reject_all_pending reject_each settle_pending Map.get Map.set
    Map.delete ℕ_discrete
run-exchange = refl

requests-are_settled_once_example :
    let r = run init exchange in
    open_requests 8 r.0 + sum_list (settlements 8) r.1 ≡ made 8 init exchange
requests-are_settled_once_example = requests-are_settled_once 8 exchange

abbrev setting_up : Rpc
setting_up = record {
  pending_requests = [];
  decoding = [];
  reply_channel = none;
  reply_setup = some 4;
  connection_epoch = 4;
}

loses_connection-IsCut_example : IsCut (run setting_up (loses_connection ∷ setup_succeeds 2 ∷ [])).0
loses_connection-IsCut_example =
    loses_connection-IsCut setting_up (setup_succeeds 2 ∷ []) (omega arith) tt
