-- ===== src/Storage/Partition.antt =====
-- PartitionLog of internal/storage/partition_log.go: its segments from the oldest to the active one. Files of
-- a segment that is rolled to are new, and the clock and the file times are arguments.
use pubsub_broker.Base.{
  ℕ, zero, suc, ◌+◌, ◌-◌, ◌*◌, Bool, true, false, Option, none, some, List, [], ◌∷◌, ◌++◌,
  if◌then◌else◌, ltb, ◌&&◌, ◌||◌, length,
}
use pubsub_broker.Base.Int.{ℤ, pos, negsuc}
use pubsub_broker.Base.Words.{u64}
use pubsub_broker.Dlq.Queue.{Message}
use pubsub_broker.Wal.File.{signed64, lt_int}
use pubsub_broker.Storage.Record.{Coding}
use pubsub_broker.Storage.Segment.{
  Segment, create_segment, write, is_full, offset_lt, SegmentRead, messages, read_error, read,
}

pub record PartitionLog : Type 0 where
  pub segments : List Segment
  pub seg_max_bytes : ℕ
  pub index_every : ℕ

-- `active.Write(msg)`: the segments from the active one on, and the offset or an error.
unfoldable pub write_active : Coding → ℕ → Segment → Message → List Segment × Option ℕ
write_active c now s m = elim (write c now s m) [
  | none ↦ (s ∷ [], none)
  | some (s', offset) ↦ (s' ∷ [], some offset)
]

-- The last segment takes the message, or the one behind it when it is full.
unfoldable pub append_last :
    Coding → ℕ → ℕ → ℕ → List Segment → Message → Option (List Segment × Option ℕ)
append_last c now max_bytes index_every [] m = none
append_last c now max_bytes index_every (s ∷ []) m =
    if is_full s
    then elim (create_segment c s.next_offset [] [] max_bytes index_every) [
      | none ↦ none
      | some s' ↦ some (s ∷ (write_active c now s' m).0, (write_active c now s' m).1)
    ]
    else some (write_active c now s m)
append_last c now max_bytes index_every (s ∷ t ∷ ss) m =
    elim (append_last c now max_bytes index_every (t ∷ ss) m) [
      | none ↦ none
      | some (rest, offset) ↦ some (s ∷ rest, offset)
    ]

-- Append: `none` is a log without a segment.
unfoldable pub append : Coding → ℕ → PartitionLog → Message → Option (PartitionLog × Option ℕ)
append c now pl m = elim (append_last c now pl.seg_max_bytes pl.index_every pl.segments m) [
  | none ↦ none
  | some (segments, offset) ↦ some (record pl { segments = segments }, offset)
]

-- `msgs = append(msgs, batch...)` in front of what the later segments give.
abbrev pub with_batch : List Message → Option SegmentRead → Option SegmentRead
with_batch batch none = none
with_batch batch (some read_error) = some read_error
with_batch batch (some (messages ms)) = some (messages (batch ++ ms))

-- The loop of Read, for as many messages as are still missing.
unfoldable pub read_segments : Coding → List Segment → ℕ → ℕ → Option SegmentRead
read_segments c [] start missing = some (messages [])
read_segments c (s ∷ ss) start missing = elim (offset_lt start s.next_offset) [
  | false ↦ read_segments c ss start missing
  | true ↦ elim (read c s start missing) [
    | none ↦ none
    | some read_error ↦ some read_error
    | some (messages batch) ↦ elim (missing - length batch) [
      | zero ↦ some (messages batch)
      | suc n ↦ with_batch batch (read_segments c ss start (suc n))
    ]
  ]
]

-- Read
unfoldable pub read_log : Coding → PartitionLog → ℕ → ℕ → Option SegmentRead
read_log c pl start max_count = read_segments c pl.segments start max_count

-- The offset behind the last segment.
unfoldable pub next_of : List Segment → ℕ
next_of [] = 0
next_of (s ∷ []) = s.next_offset
next_of (s ∷ t ∷ ss) = next_of (t ∷ ss)

-- NextOffset
unfoldable pub next_offset : PartitionLog → ℕ
next_offset pl = next_of pl.segments

unfoldable pub sum_sizes : List Segment → ℕ
sum_sizes [] = 0
sum_sizes (s ∷ ss) = s.log_size + sum_sizes ss

-- totalLogSize: the sum is an int64, given here by its bit pattern.
unfoldable pub total_log_size : PartitionLog → ℕ
total_log_size pl = u64 (sum_sizes pl.segments)

-- `maxSizeMB * 1024 * 1024`, of the bit pattern of an int64: the product wraps.
unfoldable pub max_bytes_of : ℕ → ℤ
max_bytes_of max_size_mb = signed64 (u64 (u64 (max_size_mb * 1024) * 1024))

-- `maxBytes > 0 && pl.totalLogSize() > maxBytes`
unfoldable pub is_too_big : ℕ → PartitionLog → Bool
is_too_big max_size_mb pl =
    let max_bytes = max_bytes_of max_size_mb in
    lt_int (pos 0) max_bytes && lt_int max_bytes (signed64 (total_log_size pl))

-- `-time.Duration(maxAgeHours) * time.Hour`, of the bit pattern of an int64: the product wraps.
unfoldable pub age_offset : ℕ → ℤ
age_offset max_age_hours =
    signed64 (u64 (u64 (18446744073709551616 - max_age_hours) * 3600000000000))

-- `modTime.Before(now.Add(d))`, with times as nanoseconds since the start of the calendar.
unfoldable pub is_before : ℕ → ℕ → ℤ → Bool
is_before mod_time now (pos d) = ltb mod_time (now + d)
is_before mod_time now (negsuc d) = ltb (mod_time + suc d) now

-- `maxAgeHours > 0 && fi.ModTime().Before(cutoffTime)`
unfoldable pub is_too_old : ℕ → ℕ → ℕ → Bool
is_too_old now max_age_hours mod_time =
    lt_int (pos 0) (signed64 max_age_hours) && is_before mod_time now (age_offset max_age_hours)

-- The loop of Compact: what is kept and how many are deleted. The time of a file is `none` where Stat fails.
unfoldable pub compact_loop :
    (ℕ → Bool) → (Segment → Option ℕ) → Bool → List Segment → List Segment × ℕ
compact_loop old mod_time too_big [] = ([], 0)
compact_loop old mod_time too_big (s ∷ []) = (s ∷ [], 0)
compact_loop old mod_time too_big (s ∷ t ∷ ss) =
    let rest = compact_loop old mod_time too_big (t ∷ ss) in
    elim (mod_time s) [
      | none ↦ (s ∷ rest.0, rest.1)
      | some time ↦ if old time || too_big then (rest.0, rest.1 + 1) else (s ∷ rest.0, rest.1)
    ]

-- Compact, at a time and with the limits as bit patterns of int64s. A log of at most one segment is
-- kept by the loop, as the early return keeps it. The removal of the files behind the lock is left out.
unfoldable pub compact : ℕ → (Segment → Option ℕ) → ℕ → ℕ → PartitionLog → PartitionLog × ℕ
compact now mod_time max_age_hours max_size_mb pl =
    let r =
      compact_loop (is_too_old now max_age_hours) mod_time (is_too_big max_size_mb pl)
        pl.segments in
    (record pl { segments = r.0 }, r.1)
