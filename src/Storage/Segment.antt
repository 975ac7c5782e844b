-- ===== src/Storage/Segment.antt =====
-- Segment of internal/storage/segment.go over the bytes of its two files. The calls of the files succeed.
-- Loops that read records have the bytes of the file for fuel; `none` is no fuel left.
use pubsub_broker.Base.{
  ℕ, zero, suc, ◌+◌, ◌/◌, Bool, true, false, Option, none, some, List, [], ◌∷◌, ◌++◌, if◌then◌else◌,
  leb, ltb, ◌==◌, ◌&&◌, nat_comparable, length, take, drop,
}
use pubsub_broker.Base.Bytes.{Bytes, bytes_comparable}
use pubsub_broker.Base.Words.{u64}
use pubsub_broker.Base.Endian.{put_le, get_le, slice}
use pubsub_broker.Wal.File.{signed64, lt_int}
use pubsub_broker.Dlq.Queue.{Message}
use pubsub_broker.Storage.Record.{
  Coding, at_end, bad_record, record_read, encode_record, decode_record, record_version, seg_magic,
  seg_file_header_size,
}

pub record Segment : Type 0 where
  pub base_offset : ℕ
  pub next_offset : ℕ
  pub log_file : Bytes
  pub index_file : Bytes
  pub log_size : ℕ
  pub max_bytes : ℕ
  pub index_every : ℕ
  pub byte_since_index : ℕ
  pub version : ℕ
  pub data_start : ℕ

-- `a < b` on offsets.
abbrev pub offset_lt : ℕ → ℕ → Bool
offset_lt a b = lt_int (signed64 a) (signed64 b)

-- The loop of recoverNextOffset, from the offset behind the last record read.
unfoldable pub scan : Coding → ℕ → ℕ → ℕ → Bytes → Option ℕ
scan c zero version next bs = none
scan c (suc fuel) version next bs = elim (decode_record c version bs) [
  | at_end ↦ some next
  | bad_record ↦ some next
  | record_read m word rest ↦ scan c fuel version (u64 (word + 1)) rest
]

-- recoverNextOffset
unfoldable pub recover_next_offset : Coding → Segment → Option Segment
recover_next_offset c s =
    elim (scan c (suc (length s.log_file)) s.version s.base_offset (drop s.data_start s.log_file)) [
      | none ↦ none
      | some next ↦ some (record s { next_offset = next })
    ]

-- createSegment, of files with these bytes.
unfoldable pub create_segment : Coding → ℕ → Bytes → Bytes → ℕ → ℕ → Option Segment
create_segment c base log index max_bytes index_every =
    let s : Segment = record {
      base_offset = base;
      next_offset = base;
      log_file = log;
      index_file = index;
      log_size = length log;
      max_bytes = max_bytes;
      index_every = index_every;
      byte_since_index = 0;
      version = 1;
      data_start = 0;
    } in
    if length log == 0
    then some (record s {
      log_file = seg_magic ++ record_version ∷ [];
      log_size = seg_file_header_size;
      version = record_version;
      data_start = seg_file_header_size;
    })
    else if leb seg_file_header_size (length log)
        && (take seg_file_header_size log == seg_magic ++ record_version ∷ [])
    then recover_next_offset c
        (record s { version = record_version; data_start = seg_file_header_size })
    else recover_next_offset c s

-- The entry of the sparse index.
abbrev pub index_entry : ℕ → ℕ → Bytes
index_entry offset position = put_le 8 offset ++ put_le 8 position

-- Step 3 of Write: the index behind a record of this size that begins at this position.
unfoldable pub write_index : Segment → ℕ → ℕ → ℕ → Segment
write_index s offset position size =
    if leb s.index_every (s.byte_since_index + size)
    then record s { index_file = s.index_file ++ index_entry offset position; byte_since_index = 0 }
    else record s { byte_since_index = s.byte_since_index + size }

-- Write: `none` is a message that JSON cannot encode, which leaves the segment as it was.
unfoldable pub write : Coding → ℕ → Segment → Message → Option (Segment × ℕ)
write c now s msg =
    elim (encode_record c s.next_offset now (record msg { offset = signed64 s.next_offset })
      s.version) [
        | none ↦ none
        | some rec ↦ some (
          write_index
              (record s {
                log_file = s.log_file ++ rec;
                log_size = s.log_size + length rec;
                next_offset = u64 (s.next_offset + 1);
              })
              s.next_offset s.log_size (length rec),
          s.next_offset,
        )
      ]

-- The loop of findPosition over this many entries.
unfoldable pub index_search : ℕ → ℕ → ℕ → Bytes → ℕ
index_search zero start best bs = best
index_search (suc n) start best bs =
    let rest = index_search n start (get_le (slice 8 16 bs)) (drop 16 bs) in
    if offset_lt start (get_le (slice 0 8 bs)) then best else rest

-- findPosition
unfoldable pub find_position : Segment → ℕ → ℕ
find_position s start = index_search (length s.index_file / 16) start s.data_start s.index_file

pub data SegmentRead : Type 0 where
  messages : List Message → SegmentRead
  read_error : SegmentRead

abbrev pub with_message : Message → SegmentRead → SegmentRead
with_message m (messages ms) = messages (m ∷ ms)
with_message m read_error = read_error

abbrev pub with_message_or_none : Message → Option SegmentRead → Option SegmentRead
with_message_or_none m none = none
with_message_or_none m (some r) = some (with_message m r)

-- The loop of Read, for as many messages as the second number.
unfoldable pub read_loop : Coding → ℕ → ℕ → ℕ → ℕ → Bytes → Option SegmentRead
read_loop c fuel version start zero bs = some (messages [])
read_loop c zero version start (suc count) bs = none
read_loop c (suc fuel) version start (suc count) bs = elim (decode_record c version bs) [
  | at_end ↦ some (messages [])
  | bad_record ↦ some read_error
  | record_read m word rest ↦ elim (offset_lt word start) [
    | true ↦ read_loop c fuel version start (suc count) rest
    | false ↦ with_message_or_none m (read_loop c fuel version start count rest)
  ]
]

-- Read: a position that is negative as an int64 fails the seek.
unfoldable pub read : Coding → Segment → ℕ → ℕ → Option SegmentRead
read c s start max_count =
    let position = find_position s start in
    if ltb 9223372036854775807 position
    then some read_error
    else read_loop c (suc (length s.log_file)) s.version start max_count (drop position s.log_file)

-- IsFull
unfoldable pub is_full : Segment → Bool
is_full s = leb s.max_bytes s.log_size
