-- ===== src/Messaging/Codec.antt =====
-- src/messaging/message-codec.js. The serializer and its inverse, UTF-8 and gzip are not of this
-- repository: they are parameters, and `none` is that they throw.
pub mod RoundTrip
use rabbitmq.Base.{ℕ, Bool, true, false, not, ◌||◌, Option, none, some, leb, if◌then◌else◌}

-- The types of values, texts and buffers, and what the codec is given.
pub record Codec (V S B : Type 0) : Type 0 where
  pub serializer : V → Option S
  pub deserializer : S → Option V
  pub utf8_bytes : S → B
  pub utf8_text : B → S
  pub gzip : B → Option B
  pub gunzip : B → Option B
  pub byte_length : B → ℕ
  pub use_compression : Bool
  pub compression_threshold : ℕ

pub data Message (V S B : Type 0) : Type 0 where
  buffer : B → Message V S B
  text : S → Message V S B
  value : V → Message V S B
  undefined : Message V S B

pub data Decoded (V S : Type 0) : Type 0 where
  value : V → Decoded V S
  text : S → Decoded V S

unfoldable pub from_text : {V S : Type 0} → S → Option V → Decoded V S
from_text s none = text s
from_text s (some v) = value v

-- A gzip that throws sends the content as it is.
unfoldable pub compressed_or : {B : Type 0} → B → Option B → B × Bool
compressed_or b none = (b, false)
compressed_or b (some z) = (z, true)

module _ {V S B : Type 0} where
  unfoldable pub bytes_of : Codec V S B → Option S → Option B
  bytes_of c none = none
  bytes_of c (some s) = some (c.utf8_bytes s)

  unfoldable pub to_buffer : Codec V S B → Message V S B → Option B
  unfolding bytes_of
  to_buffer c (buffer b) = some b
  to_buffer c (text s) = some (c.utf8_bytes s)
  to_buffer c (value v) = bytes_of c (c.serializer v)
  to_buffer c undefined = none

  unfoldable pub from_buffer : Codec V S B → B → Decoded V S
  unfolding from_text
  from_buffer c b = from_text (c.utf8_text b) (c.deserializer (c.utf8_text b))

  unfoldable pub compress_if_needed : Codec V S B → B → B × Bool
  unfolding compressed_or
  compress_if_needed c b =
      if not c.use_compression || leb (c.byte_length b) c.compression_threshold
      then (b, false)
      else compressed_or b (c.gzip b)

  unfoldable pub compress_found : Codec V S B → Option B → Option (B × Bool)
  unfolding compress_if_needed
  compress_found c none = none
  compress_found c (some b) = some (compress_if_needed c b)

  unfoldable pub encode : Codec V S B → Message V S B → Option (B × Bool)
  unfolding to_buffer compress_found
  encode c m = compress_found c (to_buffer c m)

  unfoldable pub decode_found : Codec V S B → Option B → Option (Decoded V S)
  unfolding from_buffer
  decode_found c none = none
  decode_found c (some b) = some (from_buffer c b)

  unfoldable pub decode : Codec V S B → B → Bool → Option (Decoded V S)
  unfolding from_buffer decode_found
  decode c content false = some (from_buffer c content)
  decode c content true = decode_found c (c.gunzip content)
