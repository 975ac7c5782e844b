-- ===== src/Cluster/Registry.antt =====
-- Member of internal/cluster/member.go and Membership of membership.go. Times are numbers. Sorting by
-- node id is insertion sort; the ids are the keys, so that every sort gives this list.
use pubsub_broker.Base.{
  ℕ, ◌≡◌, refl, sym, false, Option, none, some, List, [], ◌∷◌, if◌then◌else◌, ◌==◌, length,
  Bool-cases, inl, inr, some_unique,
}
use pubsub_broker.Base.Bytes.{Bytes, bytes_comparable, bytes_beq_iff, lt_bytes}
use pubsub_broker.Base.Maps.{Map, lookup, insert, erase, lookup-insert, lookup-erase, beq_refl}

pub record Member : Type 0 where
  pub node_id : Bytes
  pub addr : Bytes
  pub http_addr : Bytes
  pub joined_at : ℕ

pub record Membership : Type 0 where
  pub self : Member
  pub members : Map Bytes Member

-- NewMembership
unfoldable pub new_membership : Member → Membership
new_membership self = record { self = self; members = insert self.node_id self [] }

-- Add
unfoldable pub add : Membership → Member → Membership
add m member = record m { members = insert member.node_id member m.members }

-- Remove: the node itself stays.
unfoldable pub remove : Membership → Bytes → Membership
remove m node_id =
    if node_id == m.self.node_id then m else record m { members = erase node_id m.members }

-- Get
unfoldable pub get : Membership → Bytes → Option Member
get m node_id = lookup node_id m.members

unfoldable pub sort_in : Member → List Member → List Member
sort_in x [] = x ∷ []
sort_in x (y ∷ ys) = if lt_bytes x.node_id y.node_id then x ∷ y ∷ ys else y ∷ sort_in x ys

unfoldable pub sorted_members : Map Bytes Member → List Member
sorted_members [] = []
sorted_members (b ∷ m) = sort_in b.1 (sorted_members m)

-- All
unfoldable pub all_members : Membership → List Member
all_members m = sorted_members m.members

-- Len
unfoldable pub members_len : Membership → ℕ
members_len m = length m.members

-- Every member stands under its own id, the node itself among them.
pub record IsRegistry (m : Membership) : Type 0 where
  pub keyed : (id : Bytes) (x : Member) → lookup id m.members ≡ some x → x.node_id ≡ id
  pub has_self : (x : Member) × (lookup m.self.node_id m.members ≡ some x)

-- A new registry holds the node itself.
pub new_membership-IsRegistry : (self : Member) → IsRegistry (new_membership self)
unfolding new_membership insert lookup
new_membership-IsRegistry self = record {
  keyed = λ id x e. keyed_alone id x e;
  has_self = (self, rw (beq_refl self.node_id));
}
  where
    keyed_alone :
        (id : Bytes) (x : Member)
        → lookup id (insert self.node_id self []) ≡ some x
        → x.node_id ≡ id
    keyed_alone id x e = elim (Bool-cases (self.node_id == id)) [
      | inl same ↦
          let f : some self ≡ some x = rw same at e in
          let g : self ≡ x = sym (some_unique f refl) in
          rw (← g) ((bytes_beq_iff self.node_id id).0 same)
      | inr other ↦ let bad : none ≡ some x = rw other at e in cc
    ]

-- Add keeps the registry, whatever is added.
pub add-IsRegistry : (m : Membership) (x : Member) → IsRegistry m → IsRegistry (add m x)
unfolding add
add-IsRegistry m x h = record { keyed = keyed_after; has_self = self_after }
  where
    keyed_after :
        (id : Bytes) (y : Member)
        → lookup id (insert x.node_id x m.members) ≡ some y
        → y.node_id ≡ id
    keyed_after id y e = elim (Bool-cases (x.node_id == id)) [
      | inl same ↦
          let f : some x ≡ some y = rw (lookup-insert x.node_id id x m.members, same) at e in
          let g : x ≡ y = cc in rw (← g) ((bytes_beq_iff x.node_id id).0 same)
      | inr other ↦ h.keyed id y (rw (lookup-insert x.node_id id x m.members, other) at e)
    ]

    self_after : (y : Member) × (lookup m.self.node_id (insert x.node_id x m.members) ≡ some y)
    self_after = elim (Bool-cases (x.node_id == m.self.node_id)) [
      | inl same ↦ (x, rw (lookup-insert x.node_id m.self.node_id x m.members, same))
      | inr other ↦ (
        h.has_self.0,
        rw (lookup-insert x.node_id m.self.node_id x m.members, other) h.has_self.1,
      )
    ]

-- Remove keeps the registry: the node itself is never removed.
pub remove-IsRegistry : (m : Membership) (id : Bytes) → IsRegistry m → IsRegistry (remove m id)
unfolding remove
remove-IsRegistry m id h = elim (Bool-cases (id == m.self.node_id)) [
  | inl same ↦ rw same h
  | inr other ↦ rw other (removed other)
]
  where
    removed :
        (id == m.self.node_id) ≡ false → IsRegistry (record m { members = erase id m.members })
    removed other = record {
      keyed = λ j y e. keyed_after j y e;
      has_self = (h.has_self.0, rw (lookup-erase id m.self.node_id m.members, other) h.has_self.1);
    }
      where
        keyed_after :
            (j : Bytes) (y : Member) → lookup j (erase id m.members) ≡ some y → y.node_id ≡ j
        keyed_after j y e = elim (Bool-cases (id == j)) [
          | inl same ↦ let bad : none ≡ some y = rw (lookup-erase id j m.members, same) at e in cc
          | inr apart ↦ h.keyed j y (rw (lookup-erase id j m.members, apart) at e)
        ]
