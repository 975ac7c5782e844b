-- ===== src/Topics/Scenarios.antt =====
-- A manager with one topic of two partitions.
use pubsub_broker.Base.{ℕ, ◌≡◌, refl, Option, some, [], ◌∷◌, length, arith}
use pubsub_broker.Base.Bytes.{Bytes, bytes_comparable}
use pubsub_broker.Base.Int.{pos}
use pubsub_broker.Base.Maps.{lookup, insert}
use pubsub_broker.Topics.TopicLog.{TopicConfig, named}
use pubsub_broker.Offsets.Partitioner.{
  HashPartitioner, new_hash_partitioner, register, ensure_counter, assign, partition,
}
use pubsub_broker.Storage.Partition.{PartitionLog}
use pubsub_broker.Topics.Manager.{
  Manager, valid_topic_name, partition_log, with_defaults, open_all, create_new, create,
}
use pubsub_broker.Topics.Synced.{IsSynced, creation, run_requests, assign-partition_log}

abbrev orders_config : TopicConfig
orders_config = record (named (111 ∷ [])) { partitions = pos 2 }

abbrev empty_log : PartitionLog
empty_log = record { segments = []; seg_max_bytes = 0; index_every = 0 }

abbrev open_empty : Bytes → ℕ → Option PartitionLog
open_empty name i = some empty_log

abbrev empty_manager : Manager
empty_manager = record { topics = []; partitioner = new_hash_partitioner }

empty_manager-IsSynced : IsSynced empty_manager
empty_manager-IsSynced = record {
  counted = λ name t e. (unfold lookup in cc);
  consistent = λ topic count e. (unfold lookup new_hash_partitioner in cc);
}

assign-partition_log_example :
    (p : HashPartitioner) × (q : ℕ) × (log : PartitionLog) × (assign
        (λ key. length key)
        (run_requests open_empty empty_manager (creation orders_config ∷ [])).partitioner
        (111 ∷ [])
        (7 ∷ [])
      ≡ some (p, partition (pos q)))
    × (partition_log
          (record { config = with_defaults orders_config; partitions = empty_log ∷ empty_log ∷ [] })
          (pos q)
        ≡ some log)
assign-partition_log_example =
    assign-partition_log open_empty (λ key. length key) empty_manager (creation orders_config ∷ [])
      (111 ∷ []) (7 ∷ [])
      (record { config = with_defaults orders_config; partitions = empty_log ∷ empty_log ∷ [] })
      empty_manager-IsSynced
      (unfold run_requests create create_new open_all valid_topic_name lookup insert
          with_defaults in
        refl)
      (λ ctr f.
        unfold run_requests create create_new open_all valid_topic_name register ensure_counter
          lookup insert new_hash_partitioner with_defaults in
        (let e : some 0 ≡ some ctr = f in let g : 0 ≡ ctr = cc in omega arith))
