-- ===== src/Storage/Framing.antt =====
-- What decodeRecord reads of what encodeRecord wrote.
use pubsub_broker.Base.{
  ℕ, ◌+◌, ◌%◌, ◌<◌, ◌≡◌, ap, ◌∙◌, sym, some, [], ◌∷◌, ◌++◌, if◌then◌else◌, leb, nat_comparable,
  length, arith, Bool-cases, inl, inr, drop_front, length-append,
}
use pubsub_broker.Base.Bytes.{Bytes}
use pubsub_broker.Base.Words.{u32, IsU32, IsU64}
use pubsub_broker.Base.Maps.{beq_refl}
use pubsub_broker.Base.Endian.{put_le, get_le, slice, read_full, read_full-append, get_le-put_le}
use pubsub_broker.Dlq.Queue.{Message}
use pubsub_broker.Storage.Record.{
  Coding, IsCoding, record_front, frame_record, decode_payload, decode_body, decode_record,
  record_version,
}

-- The fields of a record fit their places in the header.
pub record FitsRecord (word : ℕ) (m : Message) (payload : Bytes) : Type 0 where
  pub word_fits : IsU64 word
  pub key_fits : length m.key < 65536
  pub payload_fits : IsU32 (length payload)

module _ (c : Coding) (h : IsCoding c) where
  -- Behind a header with these numbers decodeRecord goes on with the payload.
  decode_body-front :
      (codec word now : ℕ) (m : Message) (payload hdr rest : Bytes)
      → get_le (slice 0 8 hdr) ≡ word
      → get_le (slice 16 18 hdr) ≡ length m.key
      → get_le (slice 18 22 hdr) ≡ length payload
      → get_le (slice 22 26 hdr) ≡ c.crc32 payload
      → decode_body c codec hdr ((m.key ++ payload) ++ rest)
        ≡ decode_payload c codec word payload rest
  unfolding decode_body
  decode_body-front codec word now m payload hdr rest offset key size checksum =
      let whole : read_full (length m.key + length payload) ((m.key ++ payload) ++ rest)
          ≡ some (m.key ++ payload, rest) =
        ap (λ n. read_full n ((m.key ++ payload) ++ rest)) (sym (length-append m.key payload))
        ∙ read_full-append (m.key ++ payload) rest in
      rw (
        key,
        size,
        whole,
        decode_body,
        key,
        drop_front m.key payload,
        checksum,
        beq_refl (c.crc32 payload),
        offset,
      )

  -- decodeRecord takes back the record that encodeRecord framed, in either version, up to the codec.
  pub decode_record-frame_record :
      (word now : ℕ) (m : Message) (version : ℕ) (payload rest : Bytes)
      → FitsRecord word m payload
      → decode_record c version (frame_record c word now m version payload ++ rest)
        ≡ decode_payload c (if leb record_version version then m.codec else 0) word payload rest
  unfolding decode_record frame_record record_front
  decode_record-frame_record word now m version payload rest fits =
      let offset = get_le-put_le 8 word (omega (arith, fits.word_fits)) in
      let key_small : length m.key % 65536 ≡ length m.key = omega (arith, fits.key_fits) in
      let key = get_le-put_le 2 (length m.key) (omega (arith, fits.key_fits)) in
      let short : u32 (length payload) ≡ length payload = omega (arith, fits.payload_fits) in
      let size = get_le-put_le 4 (length payload) (omega (arith, fits.payload_fits)) in
      let checksum = get_le-put_le 4 (c.crc32 payload) (omega (arith, h.checked payload)) in
      let front : Bytes =
        put_le 8 word
        ++ put_le 8 now
        ++ put_le 2 (length m.key)
        ++ put_le 4 (length payload)
        ++ put_le 4 (c.crc32 payload) in
      elim (Bool-cases (leb record_version version)) [
        | inl new ↦
            rw
              (
                new,
                key_small,
                short,
                read_full-append (front ++ m.codec ∷ []) ((m.key ++ payload) ++ rest),
                decode_record,
              )
              (decode_body-front m.codec word now m payload (front ++ m.codec ∷ []) rest offset key
                size checksum)
        | inr old ↦
            rw
              (
                old,
                key_small,
                short,
                read_full-append front ((m.key ++ payload) ++ rest),
                decode_record,
              )
              (decode_body-front 0 word now m payload front rest offset key size checksum)
      ]
