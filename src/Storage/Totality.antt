-- ===== src/Storage/Totality.antt =====
-- Opening and reading a segment end on every file, whole or not.
use pubsub_broker.Base.{
  ℕ, zero, suc, ◌+◌, ◌≤◌, ◌<◌, ◌≡◌, refl, some, [], ◌∷◌, ◌++◌, leb, ltb, ◌==◌, ◌&&◌, length, take,
  drop, arith, Bool-cases, Option-cases, inl, inr, nat_comparable, length-drop,
}
use pubsub_broker.Base.Bytes.{Bytes, bytes_comparable}
use pubsub_broker.Base.Words.{u64}
use pubsub_broker.Base.Endian.{read_full, read_full_shorter, get_le, slice}
use pubsub_broker.Storage.Record.{
  Coding, RecordRead, at_end, bad_record, record_read, unpack, decode_payload, decode_body,
  decode_record, codec_of, record_version, rec_v1_header_size, rec_v2_header_size, seg_magic,
  seg_file_header_size,
}
use pubsub_broker.Storage.Segment.{
  Segment, offset_lt, scan, recover_next_offset, create_segment, find_position, SegmentRead,
  messages, read_error, with_message, read_loop, read,
}

-- What is left behind a record, if one was read.
abbrev LeavesAtMost : ℕ → RecordRead → Type 0
LeavesAtMost n (record_read m word rest) = length rest ≤ n
LeavesAtMost n at_end = Unit
LeavesAtMost n bad_record = Unit

weaken : (n k : ℕ) (r : RecordRead) → n ≤ k → LeavesAtMost n r → LeavesAtMost k r
weaken n k at_end h l = tt
weaken n k bad_record h l = tt
weaken n k (record_read m word rest) h l = omega arith

-- Less is left than there was.
abbrev LeavesFewer : ℕ → RecordRead → Type 0
LeavesFewer n (record_read m word rest) = length rest < n
LeavesFewer n at_end = Unit
LeavesFewer n bad_record = Unit

fewer : (n k : ℕ) (r : RecordRead) → n < k → LeavesAtMost n r → LeavesFewer k r
fewer n k at_end h l = tt
fewer n k bad_record h l = tt
fewer n k (record_read m word rest) h l = omega arith

-- A segment whose records begin here, before its log is scanned.
abbrev unscanned : ℕ → Bytes → Bytes → ℕ → ℕ → ℕ → ℕ → Segment
unscanned base log index max_bytes index_every version data_start = record {
  base_offset = base;
  next_offset = base;
  log_file = log;
  index_file = index;
  log_size = length log;
  max_bytes = max_bytes;
  index_every = index_every;
  byte_since_index = 0;
  version = version;
  data_start = data_start;
}

module _ (c : Coding) where
  payload-LeavesAtMost :
      (codec word : ℕ) (payload rest : Bytes)
      → LeavesAtMost (length rest) (decode_payload c codec word payload rest)
  unfolding decode_payload
  payload-LeavesAtMost codec word payload rest = elim (Option-cases (unpack c codec payload)) [
    | inl refused ↦ rw (refused, decode_payload) tt
    | inr (text, e) ↦ elim (Option-cases (c.unmarshal text)) [
      | inl bad ↦ rw (e, decode_payload, bad) tt
      | inr (m, f) ↦ rw (e, decode_payload, f) (omega arith)
    ]
  ]

  body-LeavesAtMost :
      (codec : ℕ) (hdr rest : Bytes) → LeavesAtMost (length rest) (decode_body c codec hdr rest)
  unfolding decode_body
  body-LeavesAtMost codec hdr rest =
      let key_len : ℕ = get_le (slice 16 18 hdr) in
      let size : ℕ = key_len + get_le (slice 18 22 hdr) in
      elim (Option-cases (read_full size rest)) [
        | inl short ↦ rw (short, decode_body) tt
        | inr ((body, rest'), e) ↦
            elim (Bool-cases (c.crc32 (drop key_len body) == get_le (slice 22 26 hdr))) [
              | inl whole ↦
                  rw (e, decode_body, whole)
                    (weaken (length rest') (length rest) _
                      (omega (arith, read_full_shorter size rest e))
                      (payload-LeavesAtMost codec (get_le (slice 0 8 hdr)) (drop key_len body)
                        rest'))
              | inr corrupt ↦ rw (e, decode_body, corrupt) tt
            ]
      ]

  -- A record takes at least one byte.
  record-LeavesFewer :
      (version : ℕ) (bs : Bytes) → LeavesFewer (length bs) (decode_record c version bs)
  unfolding decode_record
  record-LeavesFewer version bs = elim (Bool-cases (leb record_version version)) [
    | inl new ↦ elim (Option-cases (read_full rec_v2_header_size bs)) [
      | inl short ↦ rw (new, short, decode_record) tt
      | inr ((hdr, rest), e) ↦
          rw (new, e, decode_record)
            (fewer (length rest) (length bs) _
              (omega (arith, read_full_shorter rec_v2_header_size bs e))
              (body-LeavesAtMost (codec_of hdr) hdr rest))
    ]
    | inr old ↦ elim (Option-cases (read_full rec_v1_header_size bs)) [
      | inl short ↦ rw (old, short, decode_record) tt
      | inr ((hdr, rest), e) ↦
          rw (old, e, decode_record)
            (fewer (length rest) (length bs) _
              (omega (arith, read_full_shorter rec_v1_header_size bs e))
              (body-LeavesAtMost 0 hdr rest))
    ]
  ]

  scan_total :
      (fuel version next : ℕ) (bs : Bytes)
      → length bs < fuel
      → (found : ℕ) × (scan c fuel version next bs ≡ some found)
  unfolding scan
  scan_total zero version next bs h = absurd (omega arith)
  scan_total (suc fuel) version next bs h =
      go (decode_record c version bs) refl (record-LeavesFewer version bs)
        (λ next' rest k. scan_total fuel version next' rest k)
    where
      go :
          (r : RecordRead)
          → decode_record c version bs ≡ r
          → LeavesFewer (length bs) r
          → ((next' : ℕ) (rest : Bytes)
              → length rest < fuel
              → (found : ℕ) × (scan c fuel version next' rest ≡ some found))
          → (found : ℕ) × (scan c (suc fuel) version next bs ≡ some found)
      go at_end e l ih = (next, rw (e, scan))
      go bad_record e l ih = (next, rw (e, scan))
      go (record_read m word rest) e l ih =
          let (found, f) = ih (u64 (word + 1)) rest (omega arith) in (found, rw (e, scan) f)

  read_loop_total :
      (fuel version start count : ℕ) (bs : Bytes)
      → length bs < fuel
      → (r : SegmentRead) × (read_loop c fuel version start count bs ≡ some r)
  unfolding read_loop
  read_loop_total fuel version start zero bs h = (messages [], refl)
  read_loop_total zero version start (suc count) bs h = absurd (omega arith)
  read_loop_total (suc fuel) version start (suc count) bs h =
      go (decode_record c version bs) refl (record-LeavesFewer version bs)
        (λ n rest k. read_loop_total fuel version start n rest k)
    where
      go :
          (r : RecordRead)
          → decode_record c version bs ≡ r
          → LeavesFewer (length bs) r
          → ((n : ℕ) (rest : Bytes)
              → length rest < fuel
              → (r : SegmentRead) × (read_loop c fuel version start n rest ≡ some r))
          → (r : SegmentRead) × (read_loop c (suc fuel) version start (suc count) bs ≡ some r)
      go at_end e l ih = (messages [], rw (e, read_loop))
      go bad_record e l ih = (read_error, rw (e, read_loop))
      go (record_read m word rest) e l ih = elim (Bool-cases (offset_lt word start)) [
        | inl before ↦
            let (r, f) = ih (suc count) rest (omega arith) in (r, rw (e, read_loop, before, f))
        | inr reached ↦
            let (r, f) = ih count rest (omega arith) in
            (with_message m r, rw (e, read_loop, reached, f))
      ]

  read_total :
      (s : Segment) (start max_count : ℕ) → (r : SegmentRead) × (read c s start max_count ≡ some r)
  unfolding read
  read_total s start max_count =
      elim (Bool-cases (ltb 9223372036854775807 (find_position s start))) [
        | inl negative ↦ (read_error, rw negative)
        | inr seekable ↦
            let (r, e) =
              read_loop_total (suc (length s.log_file)) s.version start max_count
                (drop (find_position s start) s.log_file)
                (omega (arith, length-drop (find_position s start) s.log_file)) in
            (r, rw (seekable, e))
      ]

  recover_total : (s : Segment) → (s' : Segment) × (recover_next_offset c s ≡ some s')
  unfolding recover_next_offset
  recover_total s =
      let (next, e) =
        scan_total (suc (length s.log_file)) s.version s.base_offset (drop s.data_start s.log_file)
          (omega (arith, length-drop s.data_start s.log_file)) in
      (record s { next_offset = next }, rw (e, recover_next_offset))

  created :
      (base max_bytes index_every : ℕ) (log index : Bytes)
      → (s : Segment) × (create_segment c base log index max_bytes index_every ≡ some s)
  unfolding create_segment
  created base max_bytes index_every log index = elim (Bool-cases (length log == 0)) [
    | inl fresh ↦ (
      unscanned base (seg_magic ++ record_version ∷ []) index max_bytes index_every record_version
          seg_file_header_size,
      rw fresh,
    )
    | inr old ↦
        elim (Bool-cases (
          leb seg_file_header_size (length log)
          && (take seg_file_header_size log == seg_magic ++ record_version ∷ []))) [
            | inl headed ↦
                let (s, e) = recover_total (
                  unscanned base log index max_bytes index_every record_version
                    seg_file_header_size) in
                (s, rw (old, headed) e)
            | inr legacy ↦
                let (s, e) = recover_total (unscanned base log index max_bytes index_every 1 0) in
                (s, rw (old, legacy) e)
          ]
  ]

  -- Opening a segment ends on every content of its files, and so does every read of it.
  pub create_segment_total :
      (base max_bytes index_every : ℕ) (log index : Bytes)
      → (s : Segment) × (create_segment c base log index max_bytes index_every ≡ some s)
        × ((start max_count : ℕ) → (r : SegmentRead) × (read c s start max_count ≡ some r))
  create_segment_total base max_bytes index_every log index =
      let (s, e) = created base max_bytes index_every log index in
      (s, e, λ start max_count. read_total s start max_count)
