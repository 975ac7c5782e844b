-- ===== src/Wal/Totality.antt =====
-- Open ends on every file, and what it keeps is a prefix of the file.
use pubsub_broker.Base.{
  ℕ, zero, suc, ◌+◌, ◌≤◌, ◌<◌, ◌≡◌, ap, none, some, List, [], ◌++◌, ◌==◌, nat_comparable, length,
  drop, arith, Option-cases, Bool-cases, inl, inr, take-append-drop,
}
use pubsub_broker.Base.Bytes.{Bytes}
use pubsub_broker.Base.Int.{negsuc}
use pubsub_broker.Base.Endian.{read_full, read_full_shorter, get_le, slice}
use pubsub_broker.Wal.File.{
  header_size, Entry, Wal, Recovered, read_entry, keep_entry, recover_loop, finish, open_file,
}

module _ (crc32 : Bytes → ℕ) where
  -- An entry takes at least its header from the file.
  read_entry_shorter :
      (bs : Bytes) {word : ℕ} {payload rest : Bytes}
      → read_entry crc32 bs ≡ some (word, payload, rest)
      → header_size + length rest ≤ length bs
  unfolding read_entry
  read_entry_shorter bs {word} {payload} {rest} h = elim (Option-cases (read_full header_size bs)) [
    | inl short ↦ let bad : none ≡ some (word, payload, rest) = rw (short, read_entry) at h in cc
    | inr ((hdr, body), read) ↦ elim (Option-cases (read_full (get_le (slice 8 12 hdr)) body)) [
      | inl short ↦
          let bad : none ≡ some (word, payload, rest) = rw (read, read_entry, short) at h in cc
      | inr ((d, behind), framed) ↦ elim (Bool-cases (crc32 d == get_le (slice 12 16 hdr))) [
        | inl whole ↦
            let e : some (get_le (slice 0 8 hdr), d, behind) ≡ some (word, payload, rest) =
              rw (read, read_entry, framed, whole) at h in
            let same : behind ≡ rest = cc in
            omega (
              arith,
              ap length same,
              read_full_shorter header_size bs read,
              read_full_shorter (get_le (slice 8 12 hdr)) body framed,
            )
        | inr corrupt ↦
            let bad : none ≡ some (word, payload, rest) =
              rw (read, read_entry, framed, corrupt) at h in
            cc
      ]
    ]
  ]

  -- As many turns as the file has bytes are enough for the loop of recover.
  pub recover_loop_total :
      (fuel : ℕ) (r : Recovered) (bs : Bytes)
      → length bs < fuel
      → (r' : Recovered) × (recover_loop crc32 fuel r bs ≡ some r')
  unfolding recover_loop
  recover_loop_total zero r bs h = absurd (omega arith)
  recover_loop_total (suc fuel) r bs h = elim (Option-cases (read_entry crc32 bs)) [
    | inl stop ↦ (r, rw (stop, recover_loop))
    | inr ((word, payload, rest), read) ↦
        let (r', e) =
          recover_loop_total fuel (keep_entry crc32 r word payload) rest
            (omega (arith, read_entry_shorter bs read)) in
        (r', rw (read, recover_loop) e)
  ]

  -- Open ends on every sequence of bytes, and keeps a prefix of it.
  pub open_file_total :
      (file : Bytes)
      → (w : Wal) × (es : List Entry) × (tail : Bytes) × (open_file crc32 file ≡ some (w, es))
        × (w.file ++ tail ≡ file)
  unfolding open_file
  open_file_total file =
      let start : Recovered = record { entries = []; max_offset = negsuc 0; truncate_to = 0 } in
      let (r, e) = recover_loop_total (suc (length file)) start file (omega arith) in
      (
        (finish crc32 file r).0,
        (finish crc32 file r).1,
        drop r.truncate_to file,
        rw (e, open_file),
        unfold finish in take-append-drop r.truncate_to file,
      )
