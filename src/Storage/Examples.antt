-- ===== src/Storage/Examples.antt =====
-- A partition log at work, with a JSON that knows only messages whose text fields are empty.
use pubsub_broker.Base.{
  ℕ, zero, suc, ◌+◌, ◌-◌, ◌<◌, ◌≡◌, refl, ◌⊎◌, inl, true, Option, none, some, [], ◌∷◌, ◌++◌, length,
  take, drop, arith,
}
use pubsub_broker.Base.Bytes.{Bytes}
use pubsub_broker.Base.Int.{ℤ, pos, negsuc}
use pubsub_broker.Base.Maps.{Map}
use pubsub_broker.Dlq.Queue.{Message}
use pubsub_broker.Storage.Record.{Coding, IsCoding, encode_record}
use pubsub_broker.Storage.Segment.{
  Segment, SegmentRead, messages, read_error, scan, read_loop, create_segment, read,
}
use pubsub_broker.Storage.Holding.{messages_of, IsStored, log_bytes}
use pubsub_broker.Storage.Segments.{Holds, create_segment_new, create_segment-Holds}
use pubsub_broker.Storage.Partition.{
  PartitionLog, append, read_log, next_offset, total_log_size, compact, sum_sizes, max_bytes_of,
  is_too_big, age_offset, is_before, is_too_old, compact_loop,
}
use pubsub_broker.Storage.Appending.{stored_at, new_segment-HasSpace}
use pubsub_broker.Storage.Contract.{LogHolds, append-LogHolds, read_log-LogHolds}
use pubsub_broker.Storage.Totality.{create_segment_total}
use pubsub_broker.Storage.Compressed.{compressed_unreadable}
use pubsub_broker.Storage.Compaction.{IsOver, aged, without, compact_lem}

abbrev message : ℕ → ℕ → Message
message n codec = record {
  id = [];
  topic = [];
  timestamp = pos 0;
  payload = [];
  headers = [];
  key = [];
  partition = 0;
  offset = pos n;
  codec = codec;
}

abbrev marshal_fields :
    Bytes → Bytes → ℤ → Bytes → Map Bytes Bytes → Bytes → ℕ → ℤ → ℕ → Option Bytes
marshal_fields [] [] (pos zero) [] [] [] zero (pos n) codec = some (n ∷ codec ∷ [])
marshal_fields _ _ _ _ _ _ _ _ _ = none

abbrev unmarshal : Bytes → Option Message
unmarshal (n ∷ codec ∷ []) = some (message n codec)
unmarshal _ = none

abbrev coding : Coding
coding = record {
  crc32 = λ bs. 0;
  marshal = λ (m : Message).
      marshal_fields m.id m.topic m.timestamp m.payload m.headers m.key m.partition m.offset
        m.codec;
  unmarshal = unmarshal;
  decompress = λ codec bs. none;
}

coding-IsCoding : IsCoding coding
coding-IsCoding = record {
  checked = λ bs. omega arith;
  reads = λ (m : Message) bs e.
      reads_fields m.id m.topic m.timestamp m.payload m.headers m.key m.partition m.offset m.codec
        bs e;
}
  where
    reads_fields :
        (id topic : Bytes) (timestamp : ℤ) (payload : Bytes) (headers : Map Bytes Bytes)
        (key : Bytes) (partition : ℕ) (offset : ℤ) (codec : ℕ) (bs : Bytes)
        → marshal_fields id topic timestamp payload headers key partition offset codec ≡ some bs
        → unmarshal bs
          ≡ some (record {
            id = id;
            topic = topic;
            timestamp = timestamp;
            payload = payload;
            headers = headers;
            key = key;
            partition = partition;
            offset = offset;
            codec = codec;
          })
    reads_fields [] [] (pos zero) [] [] [] zero (pos n) codec bs e =
        let f : n ∷ codec ∷ [] ≡ bs = cc in rw (← f)
    reads_fields (_ ∷ _) _ _ _ _ _ _ _ codec bs e = cc
    reads_fields [] (_ ∷ _) _ _ _ _ _ _ codec bs e = cc
    reads_fields [] [] (negsuc _) _ _ _ _ _ codec bs e = cc
    reads_fields [] [] (pos (suc _)) _ _ _ _ _ codec bs e = cc
    reads_fields [] [] (pos zero) (_ ∷ _) _ _ _ _ codec bs e = cc
    reads_fields [] [] (pos zero) [] (_ ∷ _) _ _ _ codec bs e = cc
    reads_fields [] [] (pos zero) [] [] (_ ∷ _) _ _ codec bs e = cc
    reads_fields [] [] (pos zero) [] [] [] (suc _) _ codec bs e = cc
    reads_fields [] [] (pos zero) [] [] [] zero (negsuc _) codec bs e = cc

new_segment :
    (s : Segment) × (create_segment coding 0 [] [] 1000 40 ≡ some s)
    × (s.base_offset ≡ 0)
    × Holds coding s []
new_segment = create_segment_new coding 0 1000 40 (omega arith)

abbrev new_log : PartitionLog
new_log = record { segments = new_segment.0 ∷ []; seg_max_bytes = 1000; index_every = 40 }

new_log-LogHolds : LogHolds coding 0 new_log []
new_log-LogHolds = record {
  groups = [] ∷ [];
  holds = (new_segment.2, new_segment.3, tt);
  some_segment = λ e. cc;
  contents = refl;
}

abbrev text : Bytes
text = 0 ∷ 0 ∷ []

first-IsStored : IsStored coding 0 (stored_at 0 5 (message 9 0) text)
first-IsStored = record {
  numbered = refl;
  coded = refl;
  plain = refl;
  fits = record { word_fits = omega arith; key_fits = omega arith; payload_fits = omega arith };
}

filled :
    (next_offset new_log ≡ 0)
    × (pl' : PartitionLog) × (append coding 5 new_log (message 9 0) ≡ some (pl', some 0))
    × LogHolds coding 0 pl' ([] ++ stored_at 0 5 (message 9 0) text ∷ [])
filled =
    append-LogHolds coding 5 0 new_log [] (message 9 0) text new_log-LogHolds first-IsStored
      (omega arith)
      (
        new_segment-HasSpace coding 5 (message 9 0) text new_segment.0 0 new_segment.3
            first-IsStored,
        tt,
      )

append-LogHolds_example :
    (next_offset new_log ≡ 0)
    × (pl' : PartitionLog) × (append coding 5 new_log (message 9 0) ≡ some (pl', some 0))
    × LogHolds coding 0 pl' ([] ++ stored_at 0 5 (message 9 0) text ∷ [])
append-LogHolds_example =
    append-LogHolds coding 5 0 new_log [] (message 9 0) text new_log-LogHolds first-IsStored
      (omega arith)
      (
        new_segment-HasSpace coding 5 (message 9 0) text new_segment.0 0 new_segment.3
            first-IsStored,
        tt,
      )

abbrev filled_log : PartitionLog
filled_log = filled.1

read_log-LogHolds_example :
    read_log coding filled_log 0 10
    ≡ some (messages (take 10 (messages_of (drop (0 - 0) (stored_at 0 5 (message 9 0) text ∷ [])))))
read_log-LogHolds_example =
    read_log-LogHolds coding 0 filled_log (stored_at 0 5 (message 9 0) text ∷ []) 0 10
      coding-IsCoding filled.3 (omega arith)

create_segment-Holds_example :
    (s' : Segment) × (create_segment coding new_segment.0.base_offset new_segment.0.log_file
        new_segment.0.index_file 1000 40
      ≡ some s')
    × (s'.next_offset ≡ new_segment.0.next_offset)
    × Holds coding s' []
create_segment-Holds_example =
    create_segment-Holds coding new_segment.0 [] 1000 40 coding-IsCoding new_segment.3

create_segment_total_example :
    (s : Segment) × (create_segment coding 7 (1 ∷ 2 ∷ 3 ∷ []) (4 ∷ []) 1000 40 ≡ some s)
    × ((start max_count : ℕ) → (r : SegmentRead) × (read coding s start max_count ≡ some r))
create_segment_total_example = create_segment_total coding 7 1000 40 (1 ∷ 2 ∷ 3 ∷ []) (4 ∷ [])

compressed_unreadable_example :
    (rec : Bytes) × (encode_record coding 0 5 (message 0 1) 2 ≡ some rec)
    × ((start count : ℕ)
        → start < 9223372036854775808
        → 0 < count
        → read_loop coding 1 2 start count (log_bytes coding 0 [] ++ (rec ++ [])) ≡ some read_error)
    × (scan coding 1 2 0 (log_bytes coding 0 [] ++ (rec ++ [])) ≡ some 0)
compressed_unreadable_example =
    compressed_unreadable coding 0 5 (message 0 1) (0 ∷ 1 ∷ []) [] 0 1 [] coding-IsCoding
      (record { word_fits = omega arith; key_fits = omega arith; payload_fits = omega arith }) refl
      (λ e. omega arith) (λ t e. cc) (omega arith) (omega arith) tt (omega arith)

abbrev two_segments : PartitionLog
two_segments = record {
  segments =
      record (new_segment.0) { log_size = 1048576 } ∷ record (new_segment.0) { log_size = 1 } ∷ [];
  seg_max_bytes = 1000;
  index_every = 40;
}

-- Every file has the time 5.
abbrev written_at_5 : Segment → Option ℕ
written_at_5 s = some 5

-- A limit of 2^44 + 1 MB wraps to 1 MB, and the log has a byte more.
compact_lem_example :
    (length (compact 9 written_at_5 2 17592186044417 two_segments).0.segments
        + (compact 9 written_at_5 2 17592186044417 two_segments).1
      ≡ length two_segments.segments)
    × ((IsOver 17592186044417 two_segments
          × ((compact 9 written_at_5 2 17592186044417 two_segments).0.segments
              ≡ without (λ time. true) written_at_5 two_segments.segments))
        ⊎ (¬ IsOver 17592186044417 two_segments
            × ((compact 9 written_at_5 2 17592186044417 two_segments).0.segments
                ≡ without (aged 9 2) written_at_5 two_segments.segments)))
compact_lem_example = compact_lem 9 written_at_5 2 17592186044417 two_segments (inl (omega arith))

-- The wrapped limit deletes the older segment, which no age test does.
limit_wraps : (compact 9 written_at_5 0 17592186044417 two_segments).1 ≡ 1
unfolding compact compact_loop is_too_big max_bytes_of total_log_size sum_sizes is_too_old is_before
    age_offset
limit_wraps = refl
