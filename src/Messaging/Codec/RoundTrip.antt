-- ===== src/Messaging/Codec/RoundTrip.antt =====
-- What is encoded is decoded.
use rabbitmq.Base.{
  ◌∙◌, ◌≡◌, refl, ap, Bool, true, false, not, ◌||◌, Option, none, some, leb, if◌then◌else◌,
}
use rabbitmq.Messaging.Codec.{
  Codec, value, bytes_of, to_buffer, from_text, from_buffer, compressed_or, compress_if_needed,
  compress_found, encode, decode, decode_found,
}

module _ {V S B : Type 0} (c : Codec V S B) where
  -- What the documentation of the parameters says: UTF-8 and gzip give back what they were given.
  abbrev pub IsLossless : Type 0
  IsLossless =
      ((s : S) → c.utf8_text (c.utf8_bytes s) ≡ s)
      × ((b z : B) → c.gzip b ≡ some z → c.gunzip z ≡ some b)

  compressed-decode :
      (b : B) (o : Option B)
      → c.gzip b ≡ o
      → ((b z : B) → c.gzip b ≡ some z → c.gunzip z ≡ some b)
      → decode c (compressed_or b o).0 (compressed_or b o).1 ≡ some (from_buffer c b)
  unfolding compressed_or decode decode_found
  compressed-decode b none e h = refl
  compressed-decode b (some z) e h = ap (decode_found c) (h b z e)

  compress-decode :
      (b : B)
      → ((b z : B) → c.gzip b ≡ some z → c.gunzip z ≡ some b)
      → let (content, compressed) = compress_if_needed c b in
        decode c content compressed ≡ some (from_buffer c b)
  unfolding compress_if_needed
  compress-decode b h =
      choose (not c.use_compression || leb (c.byte_length b) c.compression_threshold) (b, false)
        (compressed_or b (c.gzip b)) (unfold decode in refl) (compressed-decode b (c.gzip b) refl h)
    where
      choose :
          (d : Bool) (x y : B × Bool)
          → decode c x.0 x.1 ≡ some (from_buffer c b)
          → decode c y.0 y.1 ≡ some (from_buffer c b)
          → (let (content, compressed) = if d then x else y in
              decode c content compressed ≡ some (from_buffer c b))
      choose true x y p q = p
      choose false x y p q = q

  -- A value that the serializer takes and the deserializer gives back comes through, compressed or not.
  pub encode-decode :
      (v : V) (s : S)
      → IsLossless
      → c.serializer v ≡ some s
      → c.deserializer s ≡ some v
      → (content : B) × (compressed : Bool) × (encode c (value v) ≡ some (content, compressed))
        × (decode c content compressed ≡ some (value v))
  unfolding encode to_buffer
  encode-decode v s l e d =
      let b = c.utf8_bytes s in
      let (content, compressed) = compress_if_needed c b in
      (
        content,
        compressed,
        rw (e, bytes_of) (unfold compress_found in refl),
        compress-decode b l.1
            ∙ ap some (unfold from_buffer in rw (l.0 s, d) (unfold from_text in refl)),
      )
