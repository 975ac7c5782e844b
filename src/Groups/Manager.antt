-- ===== src/Groups/Manager.antt =====
-- Manager of internal/consumer/consumer.go. The groups share the manager's offset store and
-- dead-letter queue: an operation on a group borrows both and gives them back.
use pubsub_broker.Base.{
  ℕ, suc, Bool, true, false, not, ◌&&◌, ◌||◌, Option, none, some, List, [], ◌∷◌, ◌++◌,
  if◌then◌else◌, leb, ◌==◌, nat_comparable, length,
}
use pubsub_broker.Base.Bytes.{Bytes, bytes_comparable, slash}
use pubsub_broker.Base.Int.{ℤ, pos, negsuc, is_negative}
use pubsub_broker.Base.Maps.{Map, lookup, insert}
use pubsub_broker.Dlq.Queue.{Message, DeadLetterQueue}
use pubsub_broker.Offsets.Keys.{split_last}
use pubsub_broker.Offsets.Store.{OffsetStore, commit, load}
use pubsub_broker.Groups.Members.{Consumer, Group, new_group, join, leave, commit_offset, offset_of}
use pubsub_broker.Groups.Dispatch.{dispatch}

pub record Manager : Type 0 where
  pub groups : Map Bytes Group
  pub offsets : OffsetStore
  pub dlq : DeadLetterQueue
  pub max_retries : ℕ
  pub buffer_size : ℕ

-- NewManager
unfoldable pub new_manager : OffsetStore → DeadLetterQueue → ℕ → ℕ → Manager
new_manager offsets dlq max_retries buffer_size = record {
  groups = [];
  offsets = offsets;
  dlq = dlq;
  max_retries = max_retries;
  buffer_size = buffer_size;
}

abbrev between : ℕ → ℕ → ℕ → Bool
between low high b = leb low b && leb b high

-- [a-zA-Z0-9]
abbrev pub is_alphanumeric : ℕ → Bool
is_alphanumeric b = between 97 122 b || between 65 90 b || between 48 57 b

-- [a-zA-Z0-9._-]
abbrev pub is_name_byte : ℕ → Bool
is_name_byte b = is_alphanumeric b || (b == 46) || (b == 95) || (b == 45)

abbrev pub all_name_bytes : Bytes → Bool
all_name_bytes [] = true
all_name_bytes (b ∷ bs) = is_name_byte b && all_name_bytes bs

-- validGroupName
unfoldable pub valid_group_name : Bytes → Bool
valid_group_name [] = false
valid_group_name (b ∷ bs) = is_alphanumeric b && all_name_bytes bs && leb (length bs) 248

-- groupKey
unfoldable pub group_key : Bytes → Bytes → Bytes
group_key group topic = group ++ slash ∷ topic

-- groupTopic: what stands behind the last slash.
unfoldable pub group_topic : Bytes → Bytes
group_topic key = elim (split_last key) [ none ↦ key | some r ↦ r.1 ]

-- A group with what it shares as the manager has it.
unfoldable pub borrow : Manager → Group → Group
borrow m g = record g { offsets = m.offsets; dlq = some m.dlq }

-- The manager behind an operation of a group.
unfoldable pub give_back : Manager → Bytes → Group → Manager
give_back m key g = record m {
  groups = insert key g m.groups;
  offsets = g.offsets;
  dlq = elim g.dlq [ none ↦ m.dlq | some q ↦ q ];
}

module _ (sort_strings : List Bytes → List Bytes) where
  -- Subscribe: `none` is an error.
  unfoldable pub subscribe :
      ℕ → Manager → Bytes → Bytes → Bytes → Bytes → ℕ → Manager × Option Consumer
  subscribe now m group_id consumer_id client_id topic part_count =
      if valid_group_name group_id
      then (let key = group_key group_id topic in
          let g : Group = elim (lookup key m.groups) [
            | none ↦ new_group group_id topic part_count m.offsets (some m.dlq) m.max_retries
            | some g ↦ borrow m g
          ] in
          let (g', c) = join sort_strings now g consumer_id client_id m.buffer_size in
          (give_back m key g', c))
      else (m, none)

  -- Unsubscribe: `none` is a panic, here and in the dispatches.
  unfoldable pub unsubscribe : ℕ → Manager → Bytes → Bytes → Bytes → Option Manager
  unsubscribe now m group_id consumer_id topic =
      let key = group_key group_id topic in
      elim (lookup key m.groups) [
        | none ↦ some m
        | some g ↦ elim (leave sort_strings now (borrow m g) consumer_id) [
          | none ↦ none
          | some r ↦ some (give_back m key r.0)
        ]
      ]

-- The loop of Dispatch over the groups.
unfoldable pub dispatch_groups :
    (ℕ → Consumer → Consumer) → ℕ → Manager → Map Bytes Group → Message → Option Manager
dispatch_groups meanwhile now m [] msg = some m
dispatch_groups meanwhile now m (b ∷ bs) msg = elim (group_topic b.0 == msg.topic) [
  | false ↦ dispatch_groups meanwhile now m bs msg
  | true ↦ elim (dispatch meanwhile now (borrow m b.1) msg) [
    | none ↦ none
    | some g ↦ dispatch_groups meanwhile now (give_back m b.0 g) bs msg
  ]
]

-- Dispatch of the manager
unfoldable pub dispatch_all : (ℕ → Consumer → Consumer) → ℕ → Manager → Message → Option Manager
dispatch_all meanwhile now m msg = dispatch_groups meanwhile now m m.groups msg

-- DispatchToGroup
unfoldable pub dispatch_to_group :
    (ℕ → Consumer → Consumer) → ℕ → Manager → Bytes → Bytes → ℕ → Option Message → Option Manager
dispatch_to_group meanwhile now m group_id topic partition none = some m
dispatch_to_group meanwhile now m group_id topic partition (some msg) =
    let key = group_key group_id topic in
    elim (lookup key m.groups) [
      | none ↦ some m
      | some g ↦ elim (dispatch meanwhile now (borrow m g) (record msg { partition = partition })) [
        | none ↦ none
        | some g' ↦ some (give_back m key g')
      ]
    ]

-- `off < 0` reads from the start, any other from the next unread message.
abbrev pub next_unread : ℤ → ℕ
next_unread (pos n) = suc n
next_unread (negsuc n) = 0

module _ (itoa : ℕ → Bytes) where
  -- CommitOffset of the manager: `false` is an error.
  unfoldable pub manager_commit : Manager → Bytes → Bytes → Bytes → ℕ → ℤ → Manager × Bool
  manager_commit m group_id consumer_id topic part_id offset =
      let key = group_key group_id topic in
      elim (lookup key m.groups) [
        | none ↦ (m, false)
        | some g ↦
            let (g', ok) = commit_offset itoa (borrow m g) consumer_id part_id offset in
            (give_back m key g', ok)
      ]

  -- HasCommittedOffset
  unfoldable pub has_committed_offset : Manager → Bytes → Bytes → ℕ → Bool
  has_committed_offset m group_id topic part_id =
      not (is_negative (load itoa m.offsets group_id topic part_id))

  -- GroupOffset
  unfoldable pub group_offset : Manager → Bytes → Bytes → ℕ → ℤ
  group_offset m group_id topic part_id = load itoa m.offsets group_id topic part_id

  -- The offset that ReplayGroup and PollPartitionLog read from.
  unfoldable pub start_offset : Manager → Bytes → Bytes → ℕ → ℕ
  start_offset m group_id topic part_id = elim (lookup (group_key group_id topic) m.groups) [
    | some g ↦ next_unread (offset_of itoa (borrow m g) part_id)
    | none ↦ next_unread (load itoa m.offsets group_id topic part_id)
  ]

  -- SeekGroupOffset
  unfoldable pub seek_group_offset : Manager → Bytes → Bytes → ℕ → ℤ → Manager
  seek_group_offset m group_id topic part_id offset = record m {
    offsets = commit itoa m.offsets group_id topic part_id offset;
  }
