-- ===== src/Offsets/Keys.antt =====
-- The keys "group/topic/partition" of internal/partition/partition.go and internal/wal/wal_offset.go.
-- The decimal text that fmt prints for a partition, and what fmt.Sscanf reads from it, are parameters.
use pubsub_broker.Base.{
  append_assoc, ℕ, ◌≡◌, refl, sym, ap, true, false, Option, none, some, [], ◌∷◌, ◌++◌,
  if◌then◌else◌, ◌==◌, nat_comparable, ◌>>=◌, ◌≢◌, some_unique, arith,
}
use pubsub_broker.Base.Bytes.{Bytes, slash, NoSlash}
use pubsub_broker.Base.Int.{ℤ}

-- offsetRecord
pub record OffsetRecord : Type 0 where
  pub group : Bytes
  pub topic : Bytes
  pub partition : ℕ
  pub offset : ℤ

-- `strings.Index(s, "/")` with the texts before and behind that byte.
unfoldable pub split_first : Bytes → Option (Bytes × Bytes)
split_first [] = none
split_first (b ∷ bs) =
    let rest = split_first bs in
    elim (b == slash) [
      | true ↦ some ([], bs)
      | false ↦ elim rest [ none ↦ none | some r ↦ some (b ∷ r.0, r.1) ]
    ]

-- `strings.LastIndex(s, "/")` with the texts before and behind that byte.
unfoldable pub split_last : Bytes → Option (Bytes × Bytes)
split_last [] = none
split_last (b ∷ bs) = elim (split_last bs) [
  | some r ↦ some (b ∷ r.0, r.1)
  | none ↦ if b == slash then some ([], bs) else none
]

other_byte : (b : ℕ) → b ≢ slash → (b == slash) ≡ false
other_byte b h = ground arith

split_first_lem : (xs ys : Bytes) → NoSlash xs → split_first (xs ++ slash ∷ ys) ≡ some (xs, ys)
unfolding split_first
split_first_lem [] ys h = refl
split_first_lem (x ∷ xs) ys h = rw (other_byte x h.0, split_first, split_first_lem xs ys h.1)

split_last-none : (xs : Bytes) → NoSlash xs → split_last xs ≡ none
unfolding split_last
split_last-none [] h = refl
split_last-none (x ∷ xs) h = rw (split_last-none xs h.1, split_last, other_byte x h.0)

pub split_last_lem : (xs ys : Bytes) → NoSlash ys → split_last (xs ++ slash ∷ ys) ≡ some (xs, ys)
unfolding split_last
split_last_lem [] ys h = rw (split_last-none ys h, split_last)
split_last_lem (x ∷ xs) ys h = rw (split_last_lem xs ys h, split_last)

module _ (itoa : ℕ → Bytes) where
  -- offsetKey
  unfoldable pub offset_key : Bytes → Bytes → ℕ → Bytes
  offset_key group topic partition = group ++ slash ∷ (topic ++ slash ∷ itoa partition)

module _ (sscanf : Bytes → Option ℕ) where
  -- parseOffsetKey: `none` is a malformed key.
  unfoldable pub parse_offset_key : Bytes → ℤ → Option OffsetRecord
  parse_offset_key key offset = do
    (group_topic, part_str) ← split_last key
    (group, topic) ← split_first group_topic
    partition ← sscanf part_str
    some (record { group = group; topic = topic; partition = partition; offset = offset })

module _ (itoa : ℕ → Bytes) (sscanf : Bytes → Option ℕ) where
  -- A key whose group has no slash is taken apart into what it was made of, also when the topic has
  -- slashes, as long as Sscanf reads what fmt prints and fmt prints no slash.
  pub parse_offset_key-offset_key :
      ((p : ℕ) → sscanf (itoa p) ≡ some p)
      → ((p : ℕ) → NoSlash (itoa p))
      → (group topic : Bytes) (partition : ℕ) (offset : ℤ) → NoSlash group
      → parse_offset_key sscanf (offset_key itoa group topic partition) offset
        ≡ some (record { group = group; topic = topic; partition = partition; offset = offset })
  unfolding parse_offset_key offset_key
  parse_offset_key-offset_key reads digits group topic partition offset h =
      let e : group ++ slash ∷ (topic ++ slash ∷ itoa partition)
          ≡ (group ++ slash ∷ topic) ++ slash ∷ itoa partition =
        sym (append_assoc group (slash ∷ topic) (slash ∷ itoa partition)) in
      rw (
        e,
        split_last_lem (group ++ slash ∷ topic) (itoa partition) (digits partition),
        split_first_lem group topic h,
        reads partition,
      )

  -- Under the same conditions two triples with slash-free groups have one key only when they are the
  -- same triple.
  pub offset_key_injective :
      ((p : ℕ) → sscanf (itoa p) ≡ some p)
      → ((p : ℕ) → NoSlash (itoa p))
      → (group group' topic topic' : Bytes) (partition partition' : ℕ) → NoSlash group
      → NoSlash group'
      → offset_key itoa group topic partition ≡ offset_key itoa group' topic' partition'
      → (group ≡ group') × (topic ≡ topic') × (partition ≡ partition')
  offset_key_injective reads digits group group' topic topic' partition partition' h h' e =
      let zero_offset : ℤ = ℤ.pos 0 in
      let r = parse_offset_key-offset_key reads digits group topic partition zero_offset h in
      let r' = parse_offset_key-offset_key reads digits group' topic' partition' zero_offset h' in
      let same = some_unique (rw e at r) r' in
      (ap (λ t. t.group) same, ap (λ t. t.topic) same, ap (λ t. t.partition) same)
