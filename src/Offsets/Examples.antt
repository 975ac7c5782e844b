-- ===== src/Offsets/Examples.antt =====
-- The partitioner, the offset store and the offset log at work.
use pubsub_broker.Base.{
  take_front, drop_front, ℕ, zero, suc, ◌≡◌, refl, ap, true, Option, some, none, [], ◌∷◌, ◌++◌,
  arith, length, take, drop,
}
use pubsub_broker.Base.Bytes.{Bytes, bytes_comparable, NoSlash, slash}
use pubsub_broker.Base.Int.{ℤ, pos, negsuc}
use pubsub_broker.Base.Maps.{lookup}
use pubsub_broker.Offsets.Partitioner.{HashPartitioner, register}
use pubsub_broker.Offsets.Routing.{IsConsistent, register-IsConsistent}
use pubsub_broker.Offsets.Keys.{
  OffsetRecord, offset_key, parse_offset_key, parse_offset_key-offset_key,
}
use pubsub_broker.Offsets.Store.{
  OffsetStore, new_offset_store, snapshot_of, commit, OffsetWal, replay, replay_entries, checkpoint,
}
use pubsub_broker.Offsets.Recovery.{
  IsStore, commit-IsStore, commit_all, log_all, replay-log_all, replay-checkpoint,
}

-- Numbers in unary, of the digit 1, and what reads them.
abbrev itoa : ℕ → Bytes
itoa zero = []
itoa (suc n) = 49 ∷ itoa n

abbrev sscanf : Bytes → Option ℕ
sscanf bs = some (length bs)

length-itoa : (p : ℕ) → length (itoa p) ≡ p
length-itoa zero = refl
length-itoa (suc p) = ap suc (length-itoa p)

sscanf-itoa : (p : ℕ) → sscanf (itoa p) ≡ some p
sscanf-itoa p = ap some (length-itoa p)

itoa-NoSlash : (p : ℕ) → NoSlash (itoa p)
itoa-NoSlash zero = tt
itoa-NoSlash (suc p) = (λ e. omega arith, itoa-NoSlash p)

-- An encoding of records with the length of the group in front.
abbrev offset_byte : ℤ → Bytes → Bytes
offset_byte (pos n) rest = 0 ∷ n ∷ rest
offset_byte (negsuc n) rest = 1 ∷ n ∷ rest

abbrev marshal : OffsetRecord → Bytes
marshal r = offset_byte r.offset (r.partition ∷ length r.group ∷ (r.group ++ r.topic))

abbrev decode_rest : ℤ → Bytes → Option OffsetRecord
decode_rest o (p ∷ n ∷ rest) =
    some (record { group = take n rest; topic = drop n rest; partition = p; offset = o })
decode_rest o _ = none

abbrev unmarshal : Bytes → Option OffsetRecord
unmarshal (zero ∷ n ∷ rest) = decode_rest (pos n) rest
unmarshal (suc z ∷ n ∷ rest) = decode_rest (negsuc n) rest
unmarshal _ = none

decode_rest_lem :
    (o : ℤ) (g t : Bytes) (p : ℕ)
    → decode_rest o (p ∷ length g ∷ (g ++ t))
      ≡ some (record { group = g; topic = t; partition = p; offset = o })
decode_rest_lem o g t p = rw (take_front g t, drop_front g t)

unmarshal_fields :
    (o : ℤ) (g t : Bytes) (p : ℕ)
    → unmarshal (offset_byte o (p ∷ length g ∷ (g ++ t)))
      ≡ some (record { group = g; topic = t; partition = p; offset = o })
unmarshal_fields (pos n) g t p = decode_rest_lem (pos n) g t p
unmarshal_fields (negsuc n) g t p = decode_rest_lem (negsuc n) g t p

unmarshal-marshal : (r : OffsetRecord) → unmarshal (marshal r) ≡ some r
unmarshal-marshal r = unmarshal_fields r.offset r.group r.topic r.partition

abbrev orders : Bytes
orders = 111 ∷ []

abbrev no_topics : HashPartitioner
no_topics = record { topics = []; rr_cur = [] }

no_topics-IsConsistent : IsConsistent no_topics
unfolding lookup
no_topics-IsConsistent topic count e = cc

abbrev partitioner : HashPartitioner
partitioner = (register no_topics orders (pos 3)).0

partitioner-IsConsistent : IsConsistent partitioner
partitioner-IsConsistent = register-IsConsistent no_topics orders (pos 3) no_topics-IsConsistent

abbrev a_record : OffsetRecord
a_record = record {
  group = 103 ∷ [];
  topic = 116 ∷ slash ∷ 117 ∷ [];
  partition = 2;
  offset = pos 9;
}

a_record-NoSlash : NoSlash a_record.group
a_record-NoSlash = (λ e. omega arith, tt)

parse_offset_key-offset_key_example :
    parse_offset_key sscanf (offset_key itoa (103 ∷ []) (116 ∷ slash ∷ 117 ∷ []) 2) (pos 9)
    ≡ some a_record
parse_offset_key-offset_key_example =
    parse_offset_key-offset_key itoa sscanf sscanf-itoa itoa-NoSlash (103 ∷ [])
      (116 ∷ slash ∷ 117 ∷ []) 2 (pos 9) a_record-NoSlash

abbrev empty_log : OffsetWal
empty_log = record { entries = []; commit_count = 0 }

replay-log_all_example :
    replay itoa unmarshal (log_all itoa marshal unmarshal empty_log (a_record ∷ []))
    ≡ (commit_all itoa new_offset_store (a_record ∷ [])).offsets
replay-log_all_example =
    replay-log_all itoa marshal unmarshal unmarshal-marshal empty_log new_offset_store
      (a_record ∷ []) (unfold replay replay_entries new_offset_store in refl)

abbrev one_offset : OffsetStore
one_offset = commit itoa new_offset_store (103 ∷ []) a_record.topic 2 (pos 9)

one_offset-IsStore : IsStore itoa one_offset
one_offset-IsStore =
    commit-IsStore itoa new_offset_store (103 ∷ []) a_record.topic 2 (pos 9) a_record-NoSlash
      (unfold new_offset_store in (tt, tt))

replay-checkpoint_example :
    (ow : OffsetWal) × (checkpoint sscanf marshal empty_log (snapshot_of one_offset) ≡ (ow, true))
    × (replay itoa unmarshal ow ≡ one_offset.offsets)
    × (ow.commit_count ≡ 0)
replay-checkpoint_example =
    replay-checkpoint itoa marshal unmarshal sscanf unmarshal-marshal sscanf-itoa itoa-NoSlash
      empty_log one_offset one_offset-IsStore
