-- ===== src/Topics/TopicLog.antt =====
-- TopicWAL of internal/wal/wal_topic.go over a log that is the list of its entries' data, with
-- TopicConfig of pkg/types/types.go. JSON encoding is a parameter.
use pubsub_broker.Base.{ℕ, Option, none, some, List, [], ◌∷◌, ◌++◌, if◌then◌else◌, ◌==◌}
use pubsub_broker.Base.Bytes.{Bytes, bytes_comparable}
use pubsub_broker.Base.Int.{ℤ, pos}
use pubsub_broker.Base.Maps.{Map, insert, erase}

-- An int is a signed number; a delivery mode is a uint8.
pub record TopicConfig : Type 0 where
  pub name : Bytes
  pub partitions : ℤ
  pub replication_factor : ℤ
  pub retention_hours : ℤ
  pub retention_bytes : ℤ
  pub delivery_mode : ℕ
  pub compression_codec : ℕ
  pub min_isr : ℤ
  pub compaction_mode : Bytes

-- topicOp
pub record TopicOp : Type 0 where
  pub op : Bytes
  pub config : TopicConfig

-- "create"
abbrev pub create_op : Bytes
create_op = 99 ∷ 114 ∷ 101 ∷ 97 ∷ 116 ∷ 101 ∷ []

-- "delete"
abbrev pub delete_op : Bytes
delete_op = 100 ∷ 101 ∷ 108 ∷ 101 ∷ 116 ∷ 101 ∷ []

-- `types.TopicConfig{Name: name}`
abbrev pub named : Bytes → TopicConfig
named name = record {
  name = name;
  partitions = pos 0;
  replication_factor = pos 0;
  retention_hours = pos 0;
  retention_bytes = pos 0;
  delivery_mode = 0;
  compression_codec = 0;
  min_isr = pos 0;
  compaction_mode = [];
}

module _ (marshal : TopicOp → Bytes) where
  -- Append
  unfoldable pub append : List Bytes → TopicConfig → List Bytes
  append log cfg = log ++ marshal (record { op = create_op; config = cfg }) ∷ []

  -- Delete
  unfoldable pub append_delete : List Bytes → Bytes → List Bytes
  append_delete log name = log ++ marshal (record { op = delete_op; config = named name }) ∷ []

-- The topics so far, and the deleted names in order.
pub record Replayed : Type 0 where
  pub state : Map Bytes TopicConfig
  pub deletes : List Bytes

-- The switch on the kind of one entry.
unfoldable pub apply_op : Replayed → TopicOp → Replayed
apply_op r t =
    if t.op == create_op
    then record r { state = insert t.config.name t.config r.state }
    else if t.op == delete_op
    then record { state = erase t.config.name r.state; deletes = r.deletes ++ t.config.name ∷ [] }
    else r

module _ (unmarshal : Bytes → Option TopicOp) where
  -- The loop of Replay: an entry that does not decode is skipped.
  unfoldable pub apply_entries : Replayed → List Bytes → Replayed
  apply_entries r [] = r
  apply_entries r (e ∷ es) = elim (unmarshal e) [
    | none ↦ apply_entries r es
    | some t ↦ apply_entries (apply_op r t) es
  ]

  -- Replay, before the values of the state are listed.
  unfoldable pub replay_topics : List Bytes → Replayed
  replay_topics log = apply_entries (record { state = []; deletes = [] }) log
