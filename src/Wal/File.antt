-- ===== src/Wal/File.antt =====
-- WAL of internal/wal/wal.go over a file that is its bytes. CRC-32 is a parameter. Offsets are the bit
-- patterns of int64. The calls of the file succeed; a crash that tears a write is a step of its own.
use pubsub_broker.Base.{
  ℕ, zero, suc, ◌+◌, ◌-◌, Bool, true, false, Option, none, some, List, [], ◌∷◌, ◌++◌, if◌then◌else◌,
  ltb, ◌==◌, nat_comparable, length, take,
}
use pubsub_broker.Base.Bytes.{Bytes}
use pubsub_broker.Base.Int.{ℤ, pos, negsuc}
use pubsub_broker.Base.Words.{u64, u32}
use pubsub_broker.Base.Endian.{put_le, get_le, slice, read_full}

abbrev pub header_size : ℕ
header_size = 16

-- Entry
pub record Entry : Type 0 where
  pub offset : ℤ
  pub payload : Bytes

pub record Wal : Type 0 where
  pub file : Bytes
  pub next_offset : ℕ

-- The int64 of a bit pattern.
abbrev pub signed64 : ℕ → ℤ
signed64 w = if ltb w 9223372036854775808 then pos w else negsuc (18446744073709551615 - w)

-- `a < b`
abbrev pub lt_int : ℤ → ℤ → Bool
lt_int (pos a) (pos b) = ltb a b
lt_int (pos a) (negsuc b) = false
lt_int (negsuc a) (pos b) = true
lt_int (negsuc a) (negsuc b) = ltb b a

-- What the recovery loop keeps.
pub record Recovered : Type 0 where
  pub entries : List Entry
  pub max_offset : ℤ
  pub truncate_to : ℕ

-- `if maxOffset >= 0 { w.nextOffset = maxOffset + 1 }`, from 0.
abbrev pub next_after : ℤ → ℕ
next_after (pos n) = u64 (n + 1)
next_after (negsuc n) = 0

module _ (crc32 : Bytes → ℕ) where
  -- The bytes that writeEntry writes.
  unfoldable pub entry_bytes : ℕ → Bytes → Bytes
  entry_bytes offset payload =
      put_le 8 offset ++ put_le 4 (u32 (length payload)) ++ put_le 4 (crc32 payload) ++ payload

  -- writeEntry
  unfoldable pub write_entry : Wal → ℕ → Bytes → Wal
  write_entry w offset payload = record w { file = w.file ++ entry_bytes offset payload }

  -- Append
  unfoldable pub append : Wal → Bytes → Wal × ℕ
  append w payload =
      let w' = write_entry w w.next_offset payload in
      (record w' { next_offset = u64 (w.next_offset + 1) }, w.next_offset)

  -- The loop of Truncate over the new entries.
  unfoldable pub rewrite : Wal → List Bytes → Wal
  rewrite w [] = w
  rewrite w (d ∷ ds) =
      rewrite (record (write_entry w w.next_offset d) { next_offset = u64 (w.next_offset + 1) }) ds

  -- Truncate
  unfoldable pub truncate : Wal → List Bytes → Wal
  truncate w new_entries = rewrite (record { file = []; next_offset = 0 }) new_entries

  -- One turn of the loop of recover at the rest of the file: the offset, the data and what follows.
  unfoldable pub read_entry : Bytes → Option (ℕ × Bytes × Bytes)
  read_entry bs = elim (read_full header_size bs) [
    | none ↦ none
    | some (hdr, rest) ↦ elim (read_full (get_le (slice 8 12 hdr)) rest) [
      | none ↦ none
      | some (payload, rest') ↦
          if crc32 payload == get_le (slice 12 16 hdr)
          then some (get_le (slice 0 8 hdr), payload, rest')
          else none
    ]
  ]

  -- `entries = append(…)` and the two updates behind it.
  unfoldable pub keep_entry : Recovered → ℕ → Bytes → Recovered
  keep_entry r word payload = record {
    entries = r.entries ++ record { offset = signed64 word; payload = payload } ∷ [];
    max_offset = (if lt_int r.max_offset (signed64 word) then signed64 word else r.max_offset);
    truncate_to = r.truncate_to + header_size + length payload;
  }

  -- The loop of recover on fuel, one turn each; `none` is no fuel left.
  unfoldable pub recover_loop : ℕ → Recovered → Bytes → Option Recovered
  recover_loop zero r bs = none
  recover_loop (suc fuel) r bs = elim (read_entry bs) [
    | none ↦ some r
    | some (word, payload, rest) ↦ recover_loop fuel (keep_entry r word payload) rest
  ]

  -- recover, behind the loop: the file is cut at the boundary, and the next offset follows the highest.
  unfoldable pub finish : Bytes → Recovered → Wal × List Entry
  finish file r =
      (record { file = take r.truncate_to file; next_offset = next_after r.max_offset }, r.entries)

  -- Open, of a file with these bytes.
  unfoldable pub open_file : Bytes → Option (Wal × List Entry)
  open_file file =
      elim (recover_loop (suc (length file))
        (record { entries = []; max_offset = negsuc 0; truncate_to = 0 }) file) [
          | none ↦ none
          | some r ↦ some (finish file r)
        ]
