-- ===== src/Groups/Dispatch.antt =====
-- Dispatch and handleSlowConsumer of internal/consumer/consumer.go. A panic ends them without a result.
-- What readers and other callers do to the slow consumer during a retry's sleep is a parameter.
use pubsub_broker.Base.{
  ℕ, zero, suc, ◌+◌, Bool, true, false, Option, none, some, [], ◌∷◌, ◌++◌, if◌then◌else◌,
  nat_comparable,
}
use pubsub_broker.Base.Bytes.{Bytes}
use pubsub_broker.Base.Maps.{Map}
use pubsub_broker.Base.Filters.{contains}
use pubsub_broker.Dlq.Queue.{Message, DeadLetterQueue, push}
use pubsub_broker.Groups.Members.{Consumer, Group, deliver}

-- How the loop of Dispatch ends: over all consumers, at a slow one, or in a panic.
pub data Dispatched : Type 0 where
  finished : Map Bytes Consumer → Dispatched
  slow : Map Bytes Consumer → Bytes → Consumer → Map Bytes Consumer → Dispatched
  panicked : Dispatched

unfoldable pub behind : Bytes × Consumer → Dispatched → Dispatched
behind b (finished bs) = finished (b ∷ bs)
behind b (slow before cid c after) = slow (b ∷ before) cid c after
behind b panicked = panicked

-- The loop of Dispatch.
unfoldable pub dispatch_loop : Message → Map Bytes Consumer → Dispatched
dispatch_loop msg [] = finished []
dispatch_loop msg (b ∷ bs) =
    let rest = dispatch_loop msg bs in
    elim (contains msg.partition b.1.assignments) [
      | false ↦ behind b rest
      | true ↦ elim (deliver b.1 msg) [
        | none ↦ panicked
        | some r ↦ if r.1 then behind (b.0, r.0) rest else slow [] b.0 r.0 bs
      ]
    ]

-- The retries of handleSlowConsumer, from one attempt on, with as many left.
unfoldable pub retry :
    (ℕ → Consumer → Consumer) → ℕ → ℕ → Consumer → Message → Option (Consumer × Bool)
retry meanwhile zero attempt c msg = some (c, false)
retry meanwhile (suc left) attempt c msg = elim (deliver (meanwhile attempt c) msg) [
  | none ↦ none
  | some r ↦ elim r.1 [
    | true ↦ some (r.0, true)
    | false ↦ retry meanwhile left (attempt + 1) r.0 msg
  ]
]

-- "consumer channel full after retries"
abbrev pub slow_reason : Bytes
slow_reason =
    99 ∷ 111 ∷ 110 ∷ 115 ∷ 117 ∷ 109 ∷ 101 ∷ 114 ∷ 32 ∷ 99 ∷ 104 ∷ 97 ∷ 110 ∷ 110 ∷ 101 ∷ 108 ∷ 32
    ∷ 102 ∷ 117 ∷ 108 ∷ 108 ∷ 32 ∷ 97 ∷ 102 ∷ 116 ∷ 101 ∷ 114 ∷ 32 ∷ 114 ∷ 101 ∷ 116 ∷ 114 ∷ 105
    ∷ 101 ∷ 115 ∷ []

-- handleSlowConsumer: the consumer as it is at the end, and the queue.
unfoldable pub handle_slow_consumer :
    (ℕ → Consumer → Consumer)
    → ℕ
    → Group
    → Consumer
    → Message
    → Option (Consumer × Option DeadLetterQueue)
handle_slow_consumer meanwhile now g c msg = elim (retry meanwhile g.max_retries 1 c msg) [
  | none ↦ none
  | some r ↦ elim r.1 [
    | true ↦ some (r.0, g.dlq)
    | false ↦ elim g.dlq [
      | none ↦ some (r.0, none)
      | some q ↦ some (
        r.0,
        some (
            push now q (record {
              original = some msg;
              group = g.id;
              reason = slow_reason;
              attempts = g.max_retries;
              arrived_at = 0;
            })),
      )
    ]
  ]
]

-- Dispatch. What others do to the group, but for the slow consumer, during the retries is left out.
unfoldable pub dispatch : (ℕ → Consumer → Consumer) → ℕ → Group → Message → Option Group
dispatch meanwhile now g msg = elim (dispatch_loop msg g.consumers) [
  | panicked ↦ none
  | finished bs ↦ some (record g { consumers = bs })
  | slow before cid c after ↦ elim (handle_slow_consumer meanwhile now g c msg) [
    | none ↦ none
    | some r ↦ some (record g { consumers = before ++ (cid, r.0) ∷ after; dlq = r.1 })
  ]
]
