-- ===== src/Topics/Manager.antt =====
-- Manager of internal/topic/manager.go. Opening the log of a partition is a parameter, `none` is its error.
-- Numbers of partitions are below 2 ^ 31. The time of creation is left out.
use pubsub_broker.Base.{
  ℕ, zero, suc, Bool, true, false, Option, none, some, List, [], ◌∷◌, ◌++◌, if◌then◌else◌, ◌&&◌,
  ◌||◌, leb, ◌==◌, nat_comparable, length, get_elem?, ◌>>=◌,
}
use pubsub_broker.Base.Bytes.{Bytes, bytes_comparable}
use pubsub_broker.Base.Int.{ℤ, pos, negsuc, positive_or}
use pubsub_broker.Base.Maps.{Map, lookup, insert, erase}
use pubsub_broker.Offsets.Partitioner.{HashPartitioner, register}
use pubsub_broker.Storage.Partition.{PartitionLog}
use pubsub_broker.Topics.TopicLog.{TopicConfig}

pub record Topic : Type 0 where
  pub config : TopicConfig
  pub partitions : List PartitionLog

pub record Manager : Type 0 where
  pub topics : Map Bytes Topic
  pub partitioner : HashPartitioner

-- The errors of Create and Delete.
pub data TopicError : Type 0 where
  invalid_name topic_exists topic_not_found storage_failed : TopicError

-- `[a-zA-Z0-9]`
abbrev pub is_alnum : ℕ → Bool
is_alnum b = (leb 97 b && leb b 122) || ((leb 65 b && leb b 90) || (leb 48 b && leb b 57))

-- `[a-zA-Z0-9._-]`
abbrev pub is_name_byte : ℕ → Bool
is_name_byte b = is_alnum b || ((b == 46) || ((b == 95) || (b == 45)))

abbrev pub all_name_bytes : Bytes → Bool
all_name_bytes [] = true
all_name_bytes (b ∷ bs) = is_name_byte b && all_name_bytes bs

-- validTopicName
unfoldable pub valid_topic_name : Bytes → Bool
valid_topic_name [] = false
valid_topic_name (b ∷ bs) = is_alnum b && (all_name_bytes bs && leb (length bs) 248)

-- PartitionLog of a topic: `none` is out of range.
unfoldable pub partition_log : Topic → ℤ → Option PartitionLog
partition_log t (negsuc n) = none
partition_log t (pos n) = get_elem? t.partitions n

-- The defaults of Create.
unfoldable pub with_defaults : TopicConfig → TopicConfig
with_defaults cfg = record cfg {
  partitions = pos (positive_or 1 cfg.partitions);
  replication_factor = pos (positive_or 1 cfg.replication_factor);
}

module _ (open_log : Bytes → ℕ → Option PartitionLog) where
  -- The loop of Create over the first partitions.
  unfoldable pub open_all : Bytes → ℕ → Option (List PartitionLog)
  open_all name zero = some []
  open_all name (suc i) = do logs ← open_all name i; log ← open_log name i; some (logs ++ log ∷ [])

  -- Create behind the check of the name.
  unfoldable pub create_new : Manager → TopicConfig → ℕ → Manager × Option TopicError
  create_new m cfg n = elim (lookup cfg.name m.topics) [
    | some t ↦ (m, some topic_exists)
    | none ↦ elim (open_all cfg.name n) [
      | none ↦ (m, some storage_failed)
      | some logs ↦ (
        record {
          topics = insert cfg.name (record { config = cfg; partitions = logs }) m.topics;
          partitioner = (register m.partitioner cfg.name (pos n)).0;
        },
        none,
      )
    ]
  ]

  -- Create
  unfoldable pub create : Manager → TopicConfig → Manager × Option TopicError
  create m cfg =
      if valid_topic_name cfg.name
      then create_new m (with_defaults cfg) (positive_or 1 cfg.partitions)
      else (m, some invalid_name)

-- Delete
unfoldable pub delete : Manager → Bytes → Manager × Option TopicError
delete m name = elim (lookup name m.topics) [
  | none ↦ (m, some topic_not_found)
  | some t ↦ (
    record { topics = erase name m.topics; partitioner = (register m.partitioner name (pos 0)).0 },
    none,
  )
]

-- Exists
unfoldable pub exists : Manager → Bytes → Bool
exists m name = elim (lookup name m.topics) [ none ↦ false | some t ↦ true ]

-- IsNameError: every error that is not a BrokerError.
unfoldable pub is_name_error : Option TopicError → Bool
is_name_error none = false
is_name_error (some topic_exists) = false
is_name_error (some topic_not_found) = false
is_name_error (some invalid_name) = true
is_name_error (some storage_failed) = true
