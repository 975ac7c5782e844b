-- ===== src/Storage/Compressed.antt =====
-- Records with a codec: what is written is the JSON text as it is, and what is read is unpacked first.
use pubsub_broker.Base.{
  ℕ, zero, suc, ◌+◌, ◌<◌, ◌≡◌, ◌≢◌, ap, ◌∙◌, false, none, some, List, [], ◌∷◌, ◌++◌, ltb, ◌==◌,
  nat_comparable, length, arith, append_assoc, Bool-cases, Option-cases, inl, inr,
}
use pubsub_broker.Base.Bytes.{Bytes}
use pubsub_broker.Base.Words.{u64}
use pubsub_broker.Dlq.Queue.{Message}
use pubsub_broker.Storage.Record.{
  Coding, IsCoding, bad_record, frame_record, encode_record, decode_payload, decode_record, unpack,
  record_version,
}
use pubsub_broker.Storage.Segment.{scan, read_error, read_loop}
use pubsub_broker.Storage.Framing.{FitsRecord, decode_record-frame_record}
use pubsub_broker.Storage.Holding.{Stored, AllStored, log_bytes, offset_lt_small, decode_stored}

module _ (c : Coding) (h : IsCoding c) (tail : Bytes)
    (bad : decode_record c record_version tail ≡ bad_record) where
  scan_before_bad :
      (fuel word : ℕ) (bs : List Stored)
      → length bs < fuel
      → word + length bs < 9223372036854775808
      → AllStored c word bs
      → scan c fuel record_version word (log_bytes c word bs ++ tail) ≡ some (word + length bs)
  unfolding scan log_bytes
  scan_before_bad zero word bs enough small k = absurd (omega arith)
  scan_before_bad (suc fuel) word [] enough small k =
      let e : word + 0 ≡ word = omega arith in rw (bad, scan, e)
  scan_before_bad (suc fuel) word (b ∷ bs) enough small k =
      let e : u64 (word + 1) ≡ suc word = omega arith in
      let f : word + suc (length bs) ≡ suc word + length bs = omega arith in
      let record_bytes : Bytes = frame_record c word b.stamp b.msg record_version b.text in
      rw
        (
          append_assoc record_bytes (log_bytes c (suc word) bs) tail,
          decode_stored c h word b (log_bytes c (suc word) bs ++ tail) k.0,
          scan,
          e,
          f,
        )
        (scan_before_bad fuel (suc word) bs (omega arith) (omega arith) k.1)

  read_before_bad :
      (fuel word start count : ℕ) (bs : List Stored)
      → length bs < fuel
      → word + length bs < 9223372036854775808
      → start < 9223372036854775808
      → length bs < count
      → AllStored c word bs
      → read_loop c fuel record_version start count (log_bytes c word bs ++ tail) ≡ some read_error
  unfolding read_loop log_bytes
  read_before_bad fuel word start zero bs enough small low many k = absurd (omega arith)
  read_before_bad zero word start (suc n) bs enough small low many k = absurd (omega arith)
  read_before_bad (suc fuel) word start (suc n) [] enough small low many k = rw (bad, read_loop)
  read_before_bad (suc fuel) word start (suc n) (b ∷ bs) enough small low many k =
      let record_bytes : Bytes = frame_record c word b.stamp b.msg record_version b.text in
      let split = append_assoc record_bytes (log_bytes c (suc word) bs) tail in
      let one = decode_stored c h word b (log_bytes c (suc word) bs ++ tail) k.0 in
      let test = offset_lt_small word start (omega arith) low in
      elim (Bool-cases (ltb word start)) [
        | inl before ↦
            rw (split, one, read_loop, test, before)
              (read_before_bad fuel (suc word) start (suc n) bs (omega arith) (omega arith) low
                (omega arith) k.1)
        | inr reached ↦
            let rest =
              read_before_bad fuel (suc word) start n bs (omega arith) (omega arith) low
                (omega arith) k.1 in
            rw (split, one, read_loop, test, reached, rest)
      ]

-- A payload that cannot be unpacked, or that is not JSON when it is.
payload_refused :
    (c : Coding) (codec word : ℕ) (text rest : Bytes)
    → (codec == 0) ≡ false
    → ((t : Bytes) → c.decompress codec text ≡ some t → c.unmarshal t ≡ none)
    → decode_payload c codec word text rest ≡ bad_record
unfolding decode_payload unpack
payload_refused c codec word text rest packed refused =
    elim (Option-cases (c.decompress codec text)) [
      | inl failed ↦ rw (packed, failed, decode_payload)
      | inr (t, e) ↦ rw (packed, e, decode_payload, refused t e)
    ]

-- encodeRecord writes the JSON text of a message with a codec as it is, and decodeRecord hands it to the
-- decompressor: where that refuses
-- the text, or makes of it what is not JSON, the record is an error. A read that reaches it fails as a
-- whole, with the messages before it, and recovery stops before it, so that its offset is given again.
pub compressed_unreadable :
    (c : Coding) (word now : ℕ) (m : Message) (text rest : Bytes) (base fuel : ℕ) (bs : List Stored)
    → IsCoding c
    → FitsRecord word m text
    → c.marshal m ≡ some text
    → m.codec ≢ 0
    → ((t : Bytes) → c.decompress m.codec text ≡ some t → c.unmarshal t ≡ none)
    → base + length bs ≡ word
    → word < 9223372036854775808
    → AllStored c base bs
    → length bs < fuel
    → (rec : Bytes) × (encode_record c word now m record_version ≡ some rec)
      × ((start count : ℕ)
          → start < 9223372036854775808
          → length bs < count
          → read_loop c fuel record_version start count (log_bytes c base bs ++ (rec ++ rest))
            ≡ some read_error)
      × (scan c fuel record_version base (log_bytes c base bs ++ (rec ++ rest)) ≡ some word)
unfolding encode_record
compressed_unreadable c word now m text rest base fuel bs h fits coded packed refused behind_them
      room k enough =
    let rec : Bytes = frame_record c word now m record_version text in
    let plain : (m.codec == 0) ≡ false = ground arith in
    let bad : decode_record c record_version (rec ++ rest) ≡ bad_record =
      decode_record-frame_record c h word now m record_version text rest fits
      ∙ payload_refused c m.codec word text rest plain refused in
    (
      rec,
      rw (coded, encode_record),
      λ start count low many.
          read_before_bad c h (rec ++ rest) bad fuel base start count bs enough (omega arith) low
            many k,
      scan_before_bad c h (rec ++ rest) bad fuel base bs enough (omega arith) k
          ∙ ap some behind_them,
    )
