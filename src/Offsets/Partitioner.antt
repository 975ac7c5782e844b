-- ===== src/Offsets/Partitioner.antt =====
-- HashPartitioner of internal/partition/partition.go. A partition count is an int32, a counter an
-- int64 that Assign bumps; the FNV-1a hash of hash/fnv is a parameter.
use pubsub_broker.Base.{
  ℕ, zero, suc, ◌+◌, ◌%◌, Option, none, some, [], ◌∷◌, if◌then◌else◌, ltb, ◌-◌,
}
use pubsub_broker.Base.Bytes.{Bytes, bytes_comparable}
use pubsub_broker.Base.Int.{ℤ, pos, negsuc, negate}
use pubsub_broker.Base.Words.{u64}
use pubsub_broker.Base.Maps.{Map, lookup, insert, erase}

pub record HashPartitioner : Type 0 where
  pub topics : Map Bytes ℕ
  pub rr_cur : Map Bytes ℕ

-- NewHashPartitioner
unfoldable pub new_hash_partitioner : HashPartitioner
new_hash_partitioner = record { topics = []; rr_cur = [] }

pub data AssignError : Type 0 where
  negative_count not_registered divide_by_zero : AssignError

pub data Assigned : Type 0 where
  partition : ℤ → Assigned
  refused : AssignError → Assigned

-- A topic with no counter gets one that starts at 0.
unfoldable pub ensure_counter : Bytes → Map Bytes ℕ → Map Bytes ℕ
ensure_counter topic m = elim (lookup topic m) [ none ↦ insert topic 0 m | some _ ↦ m ]

-- Register: `some` is the error for a negative count.
unfoldable pub register : HashPartitioner → Bytes → ℤ → HashPartitioner × Option AssignError
register p topic (negsuc n) = (p, some negative_count)
register p topic (pos zero) =
    (record p { topics = erase topic p.topics; rr_cur = erase topic p.rr_cur }, none)
register p topic (pos (suc n)) = (
  record p { topics = insert topic (suc n) p.topics; rr_cur = ensure_counter topic p.rr_cur },
  none,
)

-- `int32(idx % int64(count))`, where the counter is the bit pattern of an int64: Go's remainder has
-- the sign of the index.
unfoldable pub counter_partition : ℕ → ℕ → ℤ
counter_partition ctr count =
    if ltb ctr 9223372036854775808
    then pos (ctr % count)
    else negate ((18446744073709551616 - ctr) % count)

module _ (fnv32a : Bytes → ℕ) where
  -- hashPartition
  unfoldable pub hash_partition : Bytes → ℕ → ℕ
  hash_partition key n = fnv32a key % n

  -- Assign: a keyless message takes the counter's value before it is bumped. A topic with no counter
  -- is a nil dereference, `none`.
  unfoldable pub assign : HashPartitioner → Bytes → Bytes → Option (HashPartitioner × Assigned)
  assign p topic [] = elim (lookup topic p.topics) [
    | none ↦ some (p, refused not_registered)
    | some count ↦ elim (lookup topic p.rr_cur) [
      | none ↦ none
      | some ctr ↦ some (
        record p { rr_cur = insert topic (u64 (ctr + 1)) p.rr_cur },
        partition (counter_partition ctr count),
      )
    ]
  ]
  assign p topic (b ∷ bs) = elim (lookup topic p.topics) [
    | none ↦ some (p, refused not_registered)
    | some count ↦ some (p, partition (pos (hash_partition (b ∷ bs) count)))
  ]
