-- ===== src/Wal/Reading.antt =====
-- What one turn of the recovery loop reads: a whole entry, or nothing of a torn or corrupt one.
use pubsub_broker.Base.{
  ℕ, ◌+◌, ◌-◌, ◌≤◌, ◌<◌, ◌≡◌, ◌≢◌, refl, ap, ◌∙◌, false, none, some, [], ◌++◌, if◌then◌else◌, ltb,
  ◌==◌, nat_comparable, length, take, arith, length-take, take-append_add, Bool-cases, inl, inr,
}
use pubsub_broker.Base.Bytes.{Bytes}
use pubsub_broker.Base.Words.{u32, IsU32, IsU64}
use pubsub_broker.Base.Maps.{beq_refl}
use pubsub_broker.Base.Endian.{
  put_le, get_le, read_full, read_full-append, read_full_short, get_le-put_le,
}
use pubsub_broker.Wal.File.{header_size, entry_bytes, read_entry}

-- The sixteen bytes in front of an entry's data.
abbrev pub header : ℕ → ℕ → ℕ → Bytes
header offset size checksum = put_le 8 offset ++ put_le 4 size ++ put_le 4 checksum

module _ (crc32 : Bytes → ℕ) where
  -- A header followed by as many bytes as it says.
  read_framed :
      (offset checksum : ℕ) (payload rest : Bytes)
      → IsU64 offset
      → IsU32 checksum
      → IsU32 (length payload)
      → read_entry crc32 (header offset (length payload) checksum ++ (payload ++ rest))
        ≡ (if crc32 payload == checksum then some (offset, payload, rest) else none)
  unfolding read_entry
  read_framed offset checksum payload rest h k small =
      let size : get_le (put_le 4 (length payload)) ≡ length payload =
        get_le-put_le 4 (length payload) (omega arith) in
      let word : get_le (put_le 8 offset) ≡ offset = get_le-put_le 8 offset (omega arith) in
      let sum : get_le (put_le 4 checksum) ≡ checksum = get_le-put_le 4 checksum (omega arith) in
      let hdr = read_full-append (header offset (length payload) checksum) (payload ++ rest) in
      rw (hdr, read_entry, size, read_full-append payload rest, word, sum)

  -- A whole entry is read, and the loop goes on behind it.
  pub read_entry-entry_bytes :
      (offset : ℕ) (payload rest : Bytes)
      → IsU64 offset
      → IsU32 (crc32 payload)
      → IsU32 (length payload)
      → read_entry crc32 (entry_bytes crc32 offset payload ++ rest) ≡ some (offset, payload, rest)
  unfolding entry_bytes
  read_entry-entry_bytes offset payload rest h k small =
      let e : u32 (length payload) ≡ length payload = omega arith in
      rw (e, read_framed offset (crc32 payload) payload rest h k small, beq_refl (crc32 payload))

  pub length-entry_bytes :
      (offset : ℕ) (payload : Bytes)
      → length (entry_bytes crc32 offset payload) ≡ header_size + length payload
  unfolding entry_bytes
  length-entry_bytes offset payload = omega arith

  -- A write that a crash cut short is not read.
  pub read_entry_torn :
      (offset : ℕ) (payload : Bytes) (k : ℕ)
      → IsU32 (length payload)
      → k < header_size + length payload
      → read_entry crc32 (take k (entry_bytes crc32 offset payload)) ≡ none
  read_entry_torn offset payload k small short = elim (Bool-cases (ltb k header_size)) [
    | inl in_header ↦
        let n : length (take k (entry_bytes crc32 offset payload)) < header_size =
          ground (arith, length-take k (entry_bytes crc32 offset payload)) in
        unfold read_entry in
        rw (read_full_short header_size (take k (entry_bytes crc32 offset payload)) n, read_entry)
    | inr behind ↦
        let hdr : Bytes = header offset (u32 (length payload)) (crc32 payload) in
        let cut : take k (entry_bytes crc32 offset payload)
            ≡ hdr ++ take (k - header_size) payload =
          unfold entry_bytes in take_behind k hdr payload (ground arith) in
        let size : get_le (put_le 4 (u32 (length payload))) ≡ length payload =
          let e : u32 (length payload) ≡ length payload = omega arith in
          rw e (get_le-put_le 4 (length payload) (omega arith)) in
        let n : length (take (k - header_size) payload) < length payload =
          ground (arith, length-take (k - header_size) payload) in
        unfold read_entry in
        rw (
          cut,
          read_full-append hdr (take (k - header_size) payload),
          read_entry,
          size,
          read_full_short (length payload) (take (k - header_size) payload) n,
        )
  ]
    where
      take_behind :
          (k : ℕ) (hdr payload : Bytes)
          → length hdr ≤ k
          → take k (hdr ++ payload) ≡ hdr ++ take (k - length hdr) payload
      take_behind k hdr payload h =
          let e : k ≡ length hdr + (k - length hdr) = omega arith in
          ap (λ n. take n (hdr ++ payload)) e ∙ take-append_add hdr payload (k - length hdr)

  -- Nothing is read of an entry whose checksum is not that of its data, whatever follows it.
  pub read_entry_corrupt :
      (offset checksum : ℕ) (payload rest : Bytes)
      → IsU64 offset
      → IsU32 checksum
      → IsU32 (length payload)
      → crc32 payload ≢ checksum
      → read_entry crc32 (header offset (length payload) checksum ++ (payload ++ rest)) ≡ none
  read_entry_corrupt offset checksum payload rest h k small differs =
      let e : (crc32 payload == checksum) ≡ false = ground arith in
      rw (read_framed offset checksum payload rest h k small, e)

  pub read_entry_empty : read_entry crc32 [] ≡ none
  unfolding read_entry read_full
  read_entry_empty = refl
