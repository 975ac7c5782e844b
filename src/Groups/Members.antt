-- ===== src/Groups/Members.antt =====
-- Consumer and Group of internal/consumer/consumer.go. A channel is its buffered messages, its
-- capacity and whether it is closed, a sink is whether one is set, and the context is whether it is
-- cancelled. A send on a closed channel panics, and so does a second close: `none` is a panic.
-- sort.Strings is a parameter, and times are arguments. A partition count is not negative.
use pubsub_broker.Base.{
  ℕ, zero, suc, ◌%◌, Bool, true, false, Option, none, some, List, [], ◌∷◌, ◌++◌, if◌then◌else◌, ltb,
  nat_comparable, length, get_elem?,
}
use pubsub_broker.Base.Bytes.{Bytes, bytes_comparable}
use pubsub_broker.Base.Int.{ℤ}
use pubsub_broker.Base.Maps.{Map, lookup, lookup_or, insert, erase}
use pubsub_broker.Dlq.Queue.{Message, DeadLetterQueue}
use pubsub_broker.Offsets.Store.{OffsetStore, commit, load}

pub record Channel : Type 0 where
  pub queued : List Message
  pub capacity : ℕ
  pub closed : Bool

pub record Consumer : Type 0 where
  pub id : Bytes
  pub group : Bytes
  pub topic : Bytes
  pub client_id : Bytes
  pub assignments : List ℕ
  pub msg_ch : Channel
  pub sink : Bool
  pub push_ch : Option Channel
  pub cancelled : Bool

-- `select { case ch <- msg: return true; default: return false }`: `none` is the panic on a closed
-- channel, full or not.
unfoldable pub try_send : Channel → Message → Option (Channel × Bool)
try_send ch msg =
    if ch.closed
    then none
    else if ltb (length ch.queued) ch.capacity
    then some (record ch { queued = ch.queued ++ msg ∷ [] }, true)
    else some (ch, false)

-- SetSink
unfoldable pub set_sink : Consumer → Bool → Consumer
set_sink c false = record c { sink = false }
set_sink c true = elim c.push_ch [
  | none ↦ record c {
    sink = true;
    push_ch = some (record { queued = []; capacity = 512; closed = false });
  }
  | some _ ↦ record c { sink = true }
]

-- assign
unfoldable pub assign : Consumer → List ℕ → Consumer
assign c partitions = record c { assignments = partitions }

-- deliver: `false` is backpressure, `none` the panic of the send.
unfoldable pub deliver : Consumer → Message → Option (Consumer × Bool)
deliver c msg = elim c.push_ch [
  | some ch ↦ elim (try_send ch msg) [
    | none ↦ none
    | some r ↦ some (record c { push_ch = some r.0 }, r.1)
  ]
  | none ↦ elim (try_send c.msg_ch msg) [
    | none ↦ none
    | some r ↦ some (record c { msg_ch = r.0 }, r.1)
  ]
]

-- close: the push channel is never closed.
unfoldable pub close : Consumer → Option Consumer
close c =
    if c.msg_ch.closed
    then none
    else some (record c { cancelled = true; msg_ch = record (c.msg_ch) { closed = true } })

pub record Group : Type 0 where
  pub id : Bytes
  pub topic : Bytes
  pub consumers : Map Bytes Consumer
  pub offsets : OffsetStore
  pub part_count : ℕ
  pub dlq : Option DeadLetterQueue
  pub max_retries : ℕ
  pub rebalancing : Bool
  pub last_rebalance_at : ℕ

-- NewGroup
unfoldable pub new_group : Bytes → Bytes → ℕ → OffsetStore → Option DeadLetterQueue → ℕ → Group
new_group id topic part_count offsets dlq max_retries = record {
  id = id;
  topic = topic;
  consumers = [];
  offsets = offsets;
  part_count = part_count;
  dlq = dlq;
  max_retries = max_retries;
  rebalancing = false;
  last_rebalance_at = 0;
}

-- The round-robin loop of rebalance over the partitions below a count.
unfoldable pub assignments_upto : List Bytes → ℕ → Map Bytes (List ℕ)
assignments_upto ids zero = []
assignments_upto ids (suc p) =
    let m = assignments_upto ids p in
    elim (get_elem? ids (p % length ids)) [
      | none ↦ m
      | some cid ↦ insert cid (lookup_or [] cid m ++ p ∷ []) m
    ]

-- The loop of rebalance that hands the partitions out.
unfoldable pub hand_out : Map Bytes (List ℕ) → Map Bytes Consumer → Map Bytes Consumer
hand_out m [] = []
hand_out m (b ∷ bs) = (b.0, assign b.1 (lookup_or [] b.0 m)) ∷ hand_out m bs

-- The keys of the consumers.
unfoldable pub ids_of : Map Bytes Consumer → List Bytes
ids_of [] = []
ids_of (b ∷ bs) = b.0 ∷ ids_of bs

module _ (sort_strings : List Bytes → List Bytes) where
  -- rebalance, with the deferred writes after the body. With no consumers the code returns before the
  -- loops; here they hand out nothing then.
  unfoldable pub rebalance : ℕ → Group → Group
  rebalance now g =
      let ids = sort_strings (ids_of g.consumers) in
      record g {
        consumers = hand_out (assignments_upto ids g.part_count) g.consumers;
        rebalancing = false;
        last_rebalance_at = now;
      }

  -- Join: `none` is the error for a consumer that is in the group.
  unfoldable pub join : ℕ → Group → Bytes → Bytes → ℕ → Group × Option Consumer
  join now g consumer_id client_id buffer_size = elim (lookup consumer_id g.consumers) [
    | some _ ↦ (g, none)
    | none ↦
        let c : Consumer = record {
          id = consumer_id;
          group = g.id;
          topic = g.topic;
          client_id = client_id;
          assignments = [];
          msg_ch = record { queued = []; capacity = buffer_size; closed = false };
          sink = false;
          push_ch = none;
          cancelled = false;
        } in
        let g' = rebalance now (record g { consumers = insert consumer_id c g.consumers }) in
        (g', lookup consumer_id g'.consumers)
  ]

  -- Leave, with the consumer that it closed.
  unfoldable pub leave : ℕ → Group → Bytes → Option (Group × Option Consumer)
  leave now g consumer_id = elim (lookup consumer_id g.consumers) [
    | none ↦ some (g, none)
    | some c ↦ elim (close c) [
      | none ↦ none
      | some c' ↦
          some (rebalance now (record g { consumers = erase consumer_id g.consumers }), some c')
    ]
  ]

-- ConsumerCount
unfoldable pub consumer_count : Group → ℕ
consumer_count g = length g.consumers

module _ (itoa : ℕ → Bytes) where
  -- CommitOffset: `false` is the error for a consumer that is not in the group.
  unfoldable pub commit_offset : Group → Bytes → ℕ → ℤ → Group × Bool
  commit_offset g consumer_id part_id offset = elim (lookup consumer_id g.consumers) [
    | none ↦ (g, false)
    | some _ ↦ (record g { offsets = commit itoa g.offsets g.id g.topic part_id offset }, true)
  ]

  -- Offset
  unfoldable pub offset_of : Group → ℕ → ℤ
  offset_of g part_id = load itoa g.offsets g.id g.topic part_id
