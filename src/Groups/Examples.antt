-- ===== src/Groups/Examples.antt =====
-- A group of two consumers at work.
use pubsub_broker.Base.{
  ℕ, ◌≡◌, ◌<◌, ◌⊎◌, ◌↔◌, refl, inl, inr, Option-cases, true, false, arith, some, none, [], ◌∷◌,
}
use pubsub_broker.Base.Bytes.{Bytes, bytes_comparable}
use pubsub_broker.Base.Int.{pos}
use pubsub_broker.Base.Maps.{lookup}
use pubsub_broker.Dlq.Queue.{Message, DeadLetterQueue, push}
use pubsub_broker.Groups.Members.{Consumer, Group, close, rebalance, ids_of}
use pubsub_broker.Groups.Dispatch.{dispatch}
use pubsub_broker.Groups.Balance.{Holds, owner, rebalance-owner}
use pubsub_broker.Groups.Delivery.{target, IsOpen, Received}
use pubsub_broker.Groups.Dispatching.{exhausted, leave_during_retry_panics, dispatch_never_drops}
use pubsub_broker.Groups.Manager.{Manager, group_key}

abbrev consumer : ℕ → ℕ → Consumer
consumer name partition = record {
  id = name ∷ [];
  group = 103 ∷ [];
  topic = 116 ∷ [];
  client_id = [];
  assignments = partition ∷ [];
  msg_ch = record { queued = []; capacity = 1; closed = false };
  sink = false;
  push_ch = none;
  cancelled = false;
}

abbrev queue : DeadLetterQueue
queue = record { entries = []; max_size = 4 }

abbrev group : Group
group = record {
  id = 103 ∷ [];
  topic = 116 ∷ [];
  consumers = (97 ∷ [], consumer 97 0) ∷ (98 ∷ [], consumer 98 1) ∷ [];
  offsets = record { offsets = [] };
  part_count = 2;
  dlq = some queue;
  max_retries = 3;
  rebalancing = false;
  last_rebalance_at = 0;
}

abbrev message : Message
message = record {
  id = [];
  topic = 116 ∷ [];
  timestamp = pos 1;
  payload = [];
  headers = [];
  key = [];
  partition = 1;
  offset = pos 1;
  codec = 0;
}

abbrev manager : Manager
manager = record {
  groups = (group_key (103 ∷ []) (116 ∷ []), group) ∷ [];
  offsets = record { offsets = [] };
  dlq = queue;
  max_retries = 3;
  buffer_size = 1;
}

rebalance-owner_example :
    Holds (rebalance (λ xs. xs) 5 group) (98 ∷ []) 1
    ↔ ((1 < 2) × (owner (ids_of group.consumers) 1 ≡ some (98 ∷ [])))
rebalance-owner_example =
    rebalance-owner (λ xs. xs) 5 group (98 ∷ []) (consumer 98 1) 1 (unfold lookup in refl)

-- The second consumer with a full channel.
abbrev slow_consumer : Consumer
slow_consumer = record (consumer 98 1) {
  msg_ch = record { queued = message ∷ []; capacity = 1; closed = false };
}

abbrev busy : Group
busy = record group { consumers = (97 ∷ [], consumer 97 0) ∷ (98 ∷ [], slow_consumer) ∷ [] }

-- Leave closes the consumer during a retry's sleep.
abbrev left : Consumer
left = record slow_consumer {
  cancelled = true;
  msg_ch = record { queued = message ∷ []; capacity = 1; closed = true };
}

leave_panics : dispatch (λ n c. left) 5 busy message ≡ none
leave_panics =
    leave_during_retry_panics (λ n c. left) 5 busy message ((97 ∷ [], consumer 97 0) ∷ []) []
      (98 ∷ []) slow_consumer left 2 refl refl (refl, tt) refl refl (omega arith)
      (unfold close in refl) refl

-- The readers of the channels take everything out during a retry's sleep.
abbrev drained : ℕ → Consumer → Consumer
drained attempt c = record c { msg_ch = record (c.msg_ch) { queued = [] } }

drained-IsOpen : (n : ℕ) (c : Consumer) → IsOpen c → IsOpen (drained n c)
unfolding target
drained-IsOpen n c o = elim (Option-cases c.push_ch) [
  | inl pull ↦ let o' : c.msg_ch.closed ≡ false = rw pull at o in rw pull o'
  | inr (ch, pushes) ↦ let o' : ch.closed ≡ false = rw pushes at o in rw pushes o'
]

dispatch_never_drops_example :
    (g' : Group) × (c : Consumer) × (dispatch drained 5 busy message ≡ some g')
    × (g'.consumers ≡ (97 ∷ [], consumer 97 0) ∷ (98 ∷ [], c) ∷ [])
    × ((Received c message × (g'.dlq ≡ some queue))
        ⊎ (g'.dlq ≡ some (push 5 queue (exhausted busy message))))
dispatch_never_drops_example =
    dispatch_never_drops drained 5 busy message queue ((97 ∷ [], consumer 97 0) ∷ []) [] (98 ∷ [])
      slow_consumer drained-IsOpen (unfold target in refl) refl refl (refl, tt) tt refl

abbrev name : Bytes
name = 97 ∷ 98 ∷ []
