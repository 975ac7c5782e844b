-- ===== src/Groups/Naming.antt =====
-- The keys of the manager's groups, and the offset a group reads on from.
use pubsub_broker.Base.{
  ℕ, ◌≡◌, true, some, [], ◌∷◌, arith, inl, inr, nat_comparable, Bool-cases, Option-cases,
}
use pubsub_broker.Base.Bytes.{Bytes, bytes_comparable, NoSlash, split_at_slash}
use pubsub_broker.Base.Maps.{lookup}
use pubsub_broker.Offsets.Keys.{split_last_lem}
use pubsub_broker.Offsets.Store.{load}
use pubsub_broker.Groups.Members.{Group, offset_of}
use pubsub_broker.Groups.Manager.{
  Manager, all_name_bytes, valid_group_name, group_key, group_topic, borrow, start_offset,
  next_unread,
}

all_name_bytes-NoSlash : (bs : Bytes) → all_name_bytes bs ≡ true → NoSlash bs
all_name_bytes-NoSlash [] h = tt
all_name_bytes-NoSlash (b ∷ bs) h = elim (Bool-cases (all_name_bytes bs)) [
  | inl rest ↦ (λ e. ground arith, all_name_bytes-NoSlash bs rest)
  | inr bad ↦ absurd (ground arith)
]

pub valid_group_name-NoSlash : (name : Bytes) → valid_group_name name ≡ true → NoSlash name
unfolding valid_group_name
valid_group_name-NoSlash [] h = cc
valid_group_name-NoSlash (b ∷ bs) h = elim (Bool-cases (all_name_bytes bs)) [
  | inl rest ↦ (λ e. ground arith, all_name_bytes-NoSlash bs rest)
  | inr bad ↦ absurd (ground arith)
]

-- Two groups whose names Subscribe accepts have one key only when name and topic are the same.
pub group_key_injective :
    (group group' topic topic' : Bytes)
    → valid_group_name group ≡ true
    → valid_group_name group' ≡ true
    → group_key group topic ≡ group_key group' topic'
    → (group ≡ group') × (topic ≡ topic')
unfolding group_key
group_key_injective group group' topic topic' h h' e =
    split_at_slash group group' topic topic' (valid_group_name-NoSlash group h)
      (valid_group_name-NoSlash group' h') e

-- Dispatch finds the topic of a group in its key when the topic has no slash.
pub group_topic-group_key :
    (group topic : Bytes) → NoSlash topic → group_topic (group_key group topic) ≡ topic
unfolding group_topic group_key
group_topic-group_key group topic h = rw (split_last_lem group topic h, group_topic)

module _ (itoa : ℕ → Bytes) where
  -- ReplayGroup and PollPartitionLog read on from the offset after the committed one, or from 0 when
  -- there is none, alike with and without a live group, as long as the group under the key has the name
  -- and topic of the key.
  pub start_offset_lem :
      (m : Manager) (group topic : Bytes) (p : ℕ)
      → ((g : Group)
          → lookup (group_key group topic) m.groups ≡ some g
          → (g.id ≡ group) × (g.topic ≡ topic))
      → start_offset itoa m group topic p ≡ next_unread (load itoa m.offsets group topic p)
  unfolding start_offset
  start_offset_lem m group topic p named =
      elim (Option-cases (lookup (group_key group topic) m.groups)) [
        | inl missing ↦ rw (missing, start_offset)
        | inr (g, found) ↦
            let (e, f) = named g found in
            rw (found, start_offset) (unfold offset_of borrow in rw (e, f))
      ]
