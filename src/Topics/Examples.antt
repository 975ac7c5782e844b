-- ===== src/Topics/Examples.antt =====
-- A topic that is created, removed and created again, with an encoding of records in which lengths
-- and numbers stand before the texts.
use pubsub_broker.Base.{
  take_front, drop_front, zero, suc, ◌≡◌, refl, Option, some, none, List, [], ◌∷◌, ◌++◌, length,
  take, drop,
}
use pubsub_broker.Base.Bytes.{Bytes, bytes_comparable}
use pubsub_broker.Base.Int.{ℤ, pos, negsuc}
use pubsub_broker.Base.Maps.{lookup}
use pubsub_broker.Topics.TopicLog.{TopicConfig, TopicOp, named, replay_topics}
use pubsub_broker.Topics.Live.{
  Request, create, remove, live, removals, log_requests, replay-log_requests,
}

abbrev encode_int : ℤ → Bytes → Bytes
encode_int (pos n) rest = 0 ∷ n ∷ rest
encode_int (negsuc n) rest = 1 ∷ n ∷ rest

abbrev decode_int : Bytes → (ℤ → Bytes → Option TopicOp) → Option TopicOp
decode_int (zero ∷ n ∷ rest) k = k (pos n) rest
decode_int (suc s ∷ n ∷ rest) k = k (negsuc n) rest
decode_int _ k = none

decode_int-encode_int :
    (z : ℤ) (rest : Bytes) (k : ℤ → Bytes → Option TopicOp)
    → decode_int (encode_int z rest) k ≡ k z rest
decode_int-encode_int (pos n) rest k = refl
decode_int-encode_int (negsuc n) rest k = refl

abbrev marshal : TopicOp → Bytes
marshal t =
    length t.op
    ∷ length t.config.name
    ∷ t.config.compression_codec
    ∷ t.config.delivery_mode
    ∷ encode_int t.config.partitions (
        encode_int t.config.replication_factor (
          encode_int t.config.retention_hours (
            encode_int t.config.retention_bytes
              (encode_int t.config.min_isr (t.op ++ (t.config.name ++ t.config.compaction_mode))))))

abbrev unmarshal : Bytes → Option TopicOp
unmarshal (a ∷ b ∷ c ∷ d ∷ rest) = decode_int rest (λ p r1. decode_int r1 (λ f r2.
    decode_int r2 (λ h r3. decode_int r3 (λ y r4. decode_int r4 (λ i r5. some (record {
      op = take a r5;
      config = record {
        name = take b (drop a r5);
        partitions = p;
        replication_factor = f;
        retention_hours = h;
        retention_bytes = y;
        delivery_mode = d;
        compression_codec = c;
        min_isr = i;
        compaction_mode = drop b (drop a r5);
      };
    }))))))
unmarshal _ = none

unmarshal-marshal : (t : TopicOp) → unmarshal (marshal t) ≡ some t
unmarshal-marshal t =
    let c : TopicConfig = t.config in
    let texts : Bytes = t.op ++ (c.name ++ c.compaction_mode) in
    let r4 : Bytes = encode_int c.min_isr texts in
    let r3 : Bytes = encode_int c.retention_bytes r4 in
    let r2 : Bytes = encode_int c.retention_hours r3 in
    let r1 : Bytes = encode_int c.replication_factor r2 in
    rw (
      decode_int-encode_int c.partitions r1 _,
      decode_int-encode_int c.replication_factor r2 _,
      decode_int-encode_int c.retention_hours r3 _,
      decode_int-encode_int c.retention_bytes r4 _,
      decode_int-encode_int c.min_isr texts _,
      take_front t.op (c.name ++ c.compaction_mode),
      drop_front t.op (c.name ++ c.compaction_mode),
      take_front c.name c.compaction_mode,
      drop_front c.name c.compaction_mode,
    )

abbrev orders : Bytes
orders = 111 ∷ []

abbrev again : List Request
again = create (named orders) ∷ remove orders ∷ create (named orders) ∷ []

replay-log_requests_example :
    (lookup orders (replay_topics unmarshal (log_requests marshal unmarshal [] again)).state
      ≡ live orders (lookup orders (replay_topics unmarshal []).state) again)
    × ((replay_topics unmarshal (log_requests marshal unmarshal [] again)).deletes
        ≡ (replay_topics unmarshal []).deletes ++ removals again)
replay-log_requests_example =
    replay-log_requests marshal unmarshal unmarshal-marshal [] again orders
