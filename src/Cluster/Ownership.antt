-- ===== src/Cluster/Ownership.antt =====
-- PartitionMap of internal/cluster/partition_map.go. Sorting the partitions that a node owns is
-- insertion sort, and the JSON text is left to the caller: the maps with string keys are built here.
use native.Mathlib.Nat.{mod-lt}
use pubsub_broker.Base.{
  ℕ, zero, suc, ◌%◌, ◌≤◌, ◌<◌, ◌≡◌, ◌≢◌, inl, inr, refl, sym, ap, ◌∙◌, false, Option, none, some,
  List, [], ◌∷◌, arith, if◌then◌else◌, ltb, ◌==◌, nat_comparable, nat_beq_iff, length, get_elem?,
  get_elem?_in_range, Bool-cases, Option-cases, ◌>>=◌, All, ◌++◌, append_assoc, append-nil,
}
use pubsub_broker.Base.Bytes.{Bytes, bytes_comparable, bytes_beq_iff}
use pubsub_broker.Base.Int.{ℤ, pos, negsuc}
use pubsub_broker.Base.Maps.{Map, lookup_or, insert, lookup_or-insert, beq_refl}
use pubsub_broker.Base.DistinctKeys.{HasDistinctKeys, Apart, Apart-snoc, Apart-nil, insert_new}

-- PartitionMap: a nil map is the empty one, since reads and ranges do not tell them apart.
pub record PartitionMap : Type 0 where
  pub owner : Map Bytes (Map ℕ Bytes)

-- The loop of Assign below a count.
unfoldable pub assignment_upto : List Bytes → ℕ → Map ℕ Bytes
assignment_upto nodes zero = []
assignment_upto nodes (suc i) =
    let m = assignment_upto nodes i in
    elim (get_elem? nodes (i % length nodes)) [ none ↦ m | some node ↦ insert i node m ]

-- Assign
unfoldable pub assign : PartitionMap → Bytes → ℤ → List Bytes → PartitionMap
assign pm topic (negsuc n) nodes = pm
assign pm topic (pos zero) nodes = pm
assign pm topic (pos (suc n)) [] = pm
assign pm topic (pos (suc n)) (x ∷ xs) = record {
  owner = insert topic (assignment_upto (x ∷ xs) (suc n)) pm.owner;
}

-- Owner: "" is no owner.
unfoldable pub owner_of : PartitionMap → Bytes → ℕ → Bytes
owner_of pm topic partition = lookup_or [] partition (lookup_or [] topic pm.owner)

unfoldable pub sort_in : ℕ → List ℕ → List ℕ
sort_in p [] = p ∷ []
sort_in p (q ∷ qs) = if ltb p q then p ∷ q ∷ qs else q ∷ sort_in p qs

-- The partitions of one topic that a node owns, sorted.
unfoldable pub owned_in : Bytes → Map ℕ Bytes → List ℕ
owned_in node [] = []
owned_in node (b ∷ m) = let rest = owned_in node m in if b.1 == node then sort_in b.0 rest else rest

-- OwnedBy: a topic of which the node owns nothing is left out.
unfoldable pub owned_by : Bytes → Map Bytes (Map ℕ Bytes) → Map Bytes (List ℕ)
owned_by node [] = []
owned_by node (b ∷ m) =
    let rest = owned_by node m in
    elim (owned_in node b.1) [ [] ↦ rest | p ∷ ps ↦ (b.0, p ∷ ps) ∷ rest ]

module _ (itoa : ℕ → Bytes) where
  -- The inner loop of MarshalJSON.
  unfoldable pub keys_to_text : Map ℕ Bytes → Map Bytes Bytes
  keys_to_text [] = []
  keys_to_text (b ∷ m) = (itoa b.0, b.1) ∷ keys_to_text m

module _ (atoi : Bytes → Option ℕ) where
  -- The inner loop of UnmarshalJSON, from the bindings made so far: `none` is an invalid partition.
  unfoldable pub keys_of_text : Map ℕ Bytes → Map Bytes Bytes → Option (Map ℕ Bytes)
  keys_of_text assignment [] = some assignment
  keys_of_text assignment (b ∷ m) = do p ← atoi b.0; keys_of_text (insert p b.1 assignment) m

  -- The outer loop of UnmarshalJSON, from the topics read so far.
  unfoldable pub read_owners :
      Map Bytes (Map ℕ Bytes) → Map Bytes (Map Bytes Bytes) → Option (Map Bytes (Map ℕ Bytes))
  read_owners owner [] = some owner
  read_owners owner (b ∷ m) = do
    assignment ← keys_of_text [] b.1
    read_owners (insert b.0 assignment owner) m

-- The outer loop of MarshalJSON.
unfoldable pub write_owners : (ℕ → Bytes) → Map Bytes (Map ℕ Bytes) → Map Bytes (Map Bytes Bytes)
write_owners itoa [] = []
write_owners itoa (b ∷ m) = (b.0, keys_to_text itoa b.1) ∷ write_owners itoa m

lookup-assignment :
    (nodes : List Bytes) (n p : ℕ)
    → 0 < length nodes
    → p < n
    → (node : Bytes) × (get_elem? nodes (p % length nodes) ≡ some node)
      × (lookup_or [] p (assignment_upto nodes n) ≡ node)
unfolding assignment_upto
lookup-assignment nodes zero p some_node below = absurd (omega arith)
lookup-assignment nodes (suc i) p some_node below =
    let (node, e) = get_elem?_in_range nodes (i % length nodes) (mod-lt i some_node) in
    let step = lookup_or-insert [] i p node (assignment_upto nodes i) in
    elim (Bool-cases (i == p)) [
      | inl same ↦
          let at_i : i ≡ p = (nat_beq_iff i p).0 same in
          (node, rw (← at_i) e, rw (e, assignment_upto) (rw same at step))
      | inr other ↦
          let lower : p < i = ground arith in
          let (own, f, g) = lookup-assignment nodes i p some_node lower in
          (own, f, rw (e, assignment_upto) (rw other at step ∙ g))
    ]

lookup_or-empty :
    (nodes : List Bytes) (n p : ℕ) → n ≤ p → lookup_or [] p (assignment_upto nodes n) ≡ []
unfolding assignment_upto
lookup_or-empty nodes zero p h = unfold lookup_or in refl
lookup_or-empty nodes (suc i) p h = elim (Option-cases (get_elem? nodes (i % length nodes))) [
  | inl none_there ↦ rw (none_there, assignment_upto) (lookup_or-empty nodes i p (omega arith))
  | inr (node, e) ↦
      let apart : (i == p) ≡ false = ground arith in
      let step = lookup_or-insert [] i p node (assignment_upto nodes i) in
      rw (e, assignment_upto) (rw apart at step ∙ lookup_or-empty nodes i p (omega arith))
]

-- After Assign of a positive number of partitions to some nodes, partition p of the topic belongs to
-- the node at p modulo the number of nodes, partitions past the end belong to none, and the owners of
-- the other topics are those before.
pub assign-owner_of :
    (pm : PartitionMap) (topic : Bytes) (n : ℕ) (node : Bytes) (nodes : List Bytes) (p : ℕ)
    → ((p < suc n)
        → get_elem? (node ∷ nodes) (p % length (node ∷ nodes))
          ≡ some (owner_of (assign pm topic (pos (suc n)) (node ∷ nodes)) topic p))
      × ((suc n ≤ p) → owner_of (assign pm topic (pos (suc n)) (node ∷ nodes)) topic p ≡ [])
      × ((other : Bytes)
          → other ≢ topic
          → owner_of (assign pm topic (pos (suc n)) (node ∷ nodes)) other p ≡ owner_of pm other p)
unfolding assign owner_of
assign-owner_of pm topic n node nodes p =
    let m : Map ℕ Bytes = assignment_upto (node ∷ nodes) (suc n) in
    let written : lookup_or [] topic (insert topic m pm.owner) ≡ m =
      lookup_or-insert [] topic topic m pm.owner ∙ rw (beq_refl topic) in
    (
      λ below.
          let (own, e, f) = lookup-assignment (node ∷ nodes) (suc n) p (omega arith) below in
          e ∙ ap some (sym (ap (λ a. lookup_or [] p a) written ∙ f)),
      λ past. ap (λ a. lookup_or [] p a) written ∙ lookup_or-empty (node ∷ nodes) (suc n) p past,
      λ other ne.
          let apart : (topic == other) ≡ false = elim (Bool-cases (topic == other)) [
            | inl same ↦ absurd (ne (sym ((bytes_beq_iff topic other).0 same)))
            | inr differs ↦ differs
          ] in
          let step = lookup_or-insert [] topic other m pm.owner in
          ap (λ a. lookup_or [] p a) (rw apart at step),
    )

-- A map of maps that hold each key once.
abbrev pub HasDistinctPartitions : Map Bytes (Map ℕ Bytes) → Type 0
HasDistinctPartitions m = HasDistinctKeys m × All (λ b. HasDistinctKeys b.1) m

module _ (itoa : ℕ → Bytes) (atoi : Bytes → Option ℕ)
    (reads : (p : ℕ) → atoi (itoa p) ≡ some p) where
  keys_of_text-keys_to_text :
      (before m : Map ℕ Bytes)
      → HasDistinctKeys m
      → Apart before m
      → keys_of_text atoi before (keys_to_text itoa m) ≡ some (before ++ m)
  unfolding keys_of_text keys_to_text
  keys_of_text-keys_to_text before [] h a = rw (append-nil before)
  keys_of_text-keys_to_text before (b ∷ m) h a =
      rw (reads b.0, insert_new b.0 b.1 before a.0)
        (keys_of_text-keys_to_text (before ++ b ∷ []) m h.1 (Apart-snoc before m b a.1 h.0)
          ∙ ap some (append_assoc before (b ∷ []) m))

  read_owners_from :
      (before m : Map Bytes (Map ℕ Bytes))
      → HasDistinctPartitions m
      → Apart before m
      → read_owners atoi before (write_owners itoa m) ≡ some (before ++ m)
  unfolding read_owners write_owners
  read_owners_from before [] h a = rw (append-nil before)
  read_owners_from before (b ∷ m) h a =
      rw (keys_of_text-keys_to_text [] b.1 h.1.0 (Apart-nil b.1), insert_new b.0 b.1 before a.0)
        (read_owners_from (before ++ b ∷ []) m (h.0.1, h.1.1) (Apart-snoc before m b a.1 h.0.0)
          ∙ ap some (append_assoc before (b ∷ []) m))

  -- UnmarshalJSON reads back the map that MarshalJSON made, as long as Atoi reads what Itoa prints and
  -- the map, and the map of each topic, hold each key once.
  pub read_owners-write_owners :
      (m : Map Bytes (Map ℕ Bytes))
      → HasDistinctPartitions m
      → read_owners atoi [] (write_owners itoa m) ≡ some m
  read_owners-write_owners m h = read_owners_from [] m h (Apart-nil m)
