-- ===== src/Offsets/Store.antt =====
-- OffsetStore of internal/partition/partition.go and the offset log of internal/wal/wal_offset.go. A
-- log is the list of its entries' data; JSON encoding is a parameter.
use pubsub_broker.Base.{ℕ, suc, Bool, true, false, Option, none, some, List, [], ◌∷◌, ◌++◌, ◌>>=◌}
use pubsub_broker.Base.Bytes.{Bytes, bytes_comparable}
use pubsub_broker.Base.Int.{ℤ, negsuc}
use pubsub_broker.Base.Maps.{Map, lookup, insert}
use pubsub_broker.Offsets.Keys.{OffsetRecord, offset_key, parse_offset_key}

pub record OffsetStore : Type 0 where
  pub offsets : Map Bytes ℤ

-- NewOffsetStore
unfoldable pub new_offset_store : OffsetStore
new_offset_store = record { offsets = [] }

-- The loop of Restore.
unfoldable pub restore_all : Map Bytes ℤ → Map Bytes ℤ → Map Bytes ℤ
restore_all m [] = m
restore_all m (b ∷ bs) = restore_all (insert b.0 b.1 m) bs

-- Restore
unfoldable pub restore : OffsetStore → Map Bytes ℤ → OffsetStore
restore s snapshot = record { offsets = restore_all s.offsets snapshot }

-- Snapshot: a copy made key by key.
unfoldable pub snapshot_of : OffsetStore → Map Bytes ℤ
snapshot_of s = restore_all [] s.offsets

module _ (itoa : ℕ → Bytes) where
  -- Commit
  unfoldable pub commit : OffsetStore → Bytes → Bytes → ℕ → ℤ → OffsetStore
  commit s group topic partition offset = record {
    offsets = insert (offset_key itoa group topic partition) offset s.offsets;
  }

  -- Load
  unfoldable pub load : OffsetStore → Bytes → Bytes → ℕ → ℤ
  load s group topic partition = elim (lookup (offset_key itoa group topic partition) s.offsets) [
    | none ↦ negsuc 0
    | some v ↦ v
  ]

-- OffsetWAL: the entries of the log under it and the commits since the last checkpoint.
pub record OffsetWal : Type 0 where
  pub entries : List Bytes
  pub commit_count : ℕ

module _ (marshal : OffsetRecord → Bytes) where
  -- Commit of the log.
  unfoldable pub log_commit : OffsetWal → OffsetRecord → OffsetWal
  log_commit ow r = record {
    entries = ow.entries ++ marshal r ∷ [];
    commit_count = suc ow.commit_count;
  }

module _ (itoa : ℕ → Bytes) (unmarshal : Bytes → Option OffsetRecord) where
  -- The loop of Replay: an entry that does not decode is skipped.
  unfoldable pub replay_entries : Map Bytes ℤ → List Bytes → Map Bytes ℤ
  replay_entries m [] = m
  replay_entries m (data_bytes ∷ es) = elim (unmarshal data_bytes) [
    | none ↦ replay_entries m es
    | some r ↦ replay_entries (insert (offset_key itoa r.group r.topic r.partition) r.offset m) es
  ]

  -- Replay
  unfoldable pub replay : OffsetWal → Map Bytes ℤ
  replay ow = replay_entries [] ow.entries

module _ (sscanf : Bytes → Option ℕ) (marshal : OffsetRecord → Bytes) where
  -- The loop of Checkpoint: `none` is a key that does not parse.
  unfoldable pub snapshot_entries : Map Bytes ℤ → Option (List Bytes)
  snapshot_entries [] = some []
  snapshot_entries (b ∷ bs) = do
    r ← parse_offset_key sscanf b.0 b.1
    rest ← snapshot_entries bs
    some (marshal r ∷ rest)

  -- Checkpoint: a failure leaves the log as it was.
  unfoldable pub checkpoint : OffsetWal → Map Bytes ℤ → OffsetWal × Bool
  checkpoint ow snapshot = elim (snapshot_entries snapshot) [
    | none ↦ (ow, false)
    | some es ↦ (record { entries = es; commit_count = 0 }, true)
  ]
