-- ===== src/Dlq/Queue.antt =====
-- DeadLetterQueue of internal/consumer/consumer.go. The clock is an argument of Push, and the lock
-- makes each method one step.
use pubsub_broker.Base.{
  ℕ, zero, suc, Bool, true, false, Option, none, some, List, [], ◌∷◌, ◌++◌, if◌then◌else◌, not,
  ◌&&◌, leb, ◌==◌, length, get_elem?, take, drop,
}
use pubsub_broker.Base.Bytes.{Bytes, bytes_comparable}
use pubsub_broker.Base.Int.{ℤ, positive_or}
use pubsub_broker.Base.Maps.{Map}

-- types.Message: a timestamp and an offset are int64, a partition is an int32.
pub record Message : Type 0 where
  pub id : Bytes
  pub topic : Bytes
  pub timestamp : ℤ
  pub payload : Bytes
  pub headers : Map Bytes Bytes
  pub key : Bytes
  pub partition : ℕ
  pub offset : ℤ
  pub codec : ℕ

-- DLQEntry: `Original` is a pointer.
pub record DlqEntry : Type 0 where
  pub original : Option Message
  pub group : Bytes
  pub reason : Bytes
  pub attempts : ℕ
  pub arrived_at : ℕ

pub record DeadLetterQueue : Type 0 where
  pub entries : List DlqEntry
  pub max_size : ℕ

-- NewDLQ
unfoldable pub new_dlq : ℤ → DeadLetterQueue
new_dlq max_size = record { entries = []; max_size = positive_or 10000 max_size }

-- Push
unfoldable pub push : ℕ → DeadLetterQueue → DlqEntry → DeadLetterQueue
push now q entry =
    let kept = if leb q.max_size (length q.entries) then drop 1 q.entries else q.entries in
    record q { entries = kept ++ record entry { arrived_at = now } ∷ [] }

-- Drain
unfoldable pub drain : DeadLetterQueue → DeadLetterQueue × List DlqEntry
drain q = (record q { entries = [] }, q.entries)

-- Len
unfoldable pub len : DeadLetterQueue → ℕ
len q = length q.entries

-- `group != "" && e.Group != group`
unfoldable pub other_group : Bytes → DlqEntry → Bool
other_group group e = not (group == []) && not (e.group == group)

-- `topic != "" && e.Original != nil && e.Original.Topic != topic`
unfoldable pub other_topic : Bytes → DlqEntry → Bool
other_topic topic e = elim e.original [
  | none ↦ false
  | some msg ↦ not (topic == []) && not (msg.topic == topic)
]

-- `id != "" && e.Original != nil && e.Original.ID != id`
unfoldable pub other_id : Bytes → DlqEntry → Bool
other_id id e = elim e.original [ none ↦ false | some msg ↦ not (id == []) && not (msg.id == id) ]

-- The tests of Entries, Replay and Purge on one entry.
unfoldable pub matched : Bytes → Bytes → DlqEntry → Bool
matched group topic e = not (other_group group e) && not (other_topic topic e)

-- The tests of Get and Delete on one entry.
unfoldable pub matched_id : Bytes → Bytes → Bytes → DlqEntry → Bool
matched_id group topic id e = not (other_id id e) && matched group topic e

-- The loop of Entries down from below index `i`, with `room` entries left to the limit.
unfoldable pub entries_below : (DlqEntry → Bool) → List DlqEntry → ℕ → ℕ → List DlqEntry
entries_below test es zero room = []
entries_below test es (suc i) zero = []
entries_below test es (suc i) (suc room) = elim (get_elem? es i) [
  | none ↦ []
  | some e ↦ elim (test e) [
    | true ↦ e ∷ entries_below test es i room
    | false ↦ entries_below test es i (suc room)
  ]
]

-- Entries
unfoldable pub entries_of : DeadLetterQueue → Bytes → Bytes → ℤ → List DlqEntry
entries_of q group topic limit =
    entries_below (matched group topic) q.entries (length q.entries) (positive_or 100 limit)

-- The loop of Replay, with the number of entries it may still remove: the removed and the remaining.
unfoldable pub replay_loop : (DlqEntry → Bool) → ℕ → List DlqEntry → List DlqEntry × List DlqEntry
replay_loop test room [] = ([], [])
replay_loop test zero (e ∷ es) =
    let (removed, remaining) = replay_loop test zero es in (removed, e ∷ remaining)
replay_loop test (suc room) (e ∷ es) = elim (test e) [
  | true ↦ let (removed, remaining) = replay_loop test room es in (e ∷ removed, remaining)
  | false ↦ let (removed, remaining) = replay_loop test (suc room) es in (removed, e ∷ remaining)
]

-- Replay
unfoldable pub replay : DeadLetterQueue → Bytes → Bytes → ℤ → DeadLetterQueue × List DlqEntry
replay q group topic limit =
    let (removed, remaining) = replay_loop (matched group topic) (positive_or 10 limit) q.entries in
    (record q { entries = remaining }, removed)

-- The loop of Purge: the count and the remaining entries.
unfoldable pub purge_loop : (DlqEntry → Bool) → List DlqEntry → ℕ × List DlqEntry
purge_loop test [] = (0, [])
purge_loop test (e ∷ es) =
    let (purged, remaining) = purge_loop test es in
    if test e then (suc purged, remaining) else (purged, e ∷ remaining)

-- Purge
unfoldable pub purge : DeadLetterQueue → Bytes → Bytes → DeadLetterQueue × ℕ
purge q group topic =
    let (purged, remaining) = purge_loop (matched group topic) q.entries in
    (record q { entries = remaining }, purged)

-- The loop of Get and Delete down from below index `i`: the index it stops at.
unfoldable pub find_below : (DlqEntry → Bool) → List DlqEntry → ℕ → Option ℕ
find_below test es zero = none
find_below test es (suc i) = elim (get_elem? es i) [
  | none ↦ none
  | some e ↦ elim (test e) [ true ↦ some i | false ↦ find_below test es i ]
]

-- Get
unfoldable pub get : DeadLetterQueue → Bytes → Bytes → Bytes → Option DlqEntry
get q group topic id = elim (find_below (matched_id group topic id) q.entries (length q.entries)) [
  | none ↦ none
  | some i ↦ get_elem? q.entries i
]

-- Delete
unfoldable pub delete : DeadLetterQueue → Bytes → Bytes → Bytes → DeadLetterQueue × Bool
delete q group topic id =
    elim (find_below (matched_id group topic id) q.entries (length q.entries)) [
      | none ↦ (q, false)
      | some i ↦ (record q { entries = take i q.entries ++ drop (suc i) q.entries }, true)
    ]

-- The loop of the manager's DLQReplay over the removed entries: the count, and whether a republish
-- failed.
unfoldable pub republish_loop : (Option Message → Bool) → List DlqEntry → ℕ × Bool
republish_loop republish [] = (0, true)
republish_loop republish (e ∷ es) = elim (republish e.original) [
  | true ↦ let (replayed, ok) = republish_loop republish es in (suc replayed, ok)
  | false ↦ (0, false)
]

-- DLQReplay of the manager, where `republish` answers whether it succeeded.
unfoldable pub dlq_replay :
    (Option Message → Bool) → DeadLetterQueue → Bytes → Bytes → ℤ → DeadLetterQueue × ℕ × Bool
dlq_replay republish q group topic limit =
    let (q', removed) = replay q group topic limit in
    let (replayed, ok) = republish_loop republish removed in (q', replayed, ok)
