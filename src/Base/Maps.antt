-- ===== src/Base/Maps.antt =====
-- A Go map as an association list. A write replaces the binding where it stands, so that a map
-- built by writes has each key once and its length is the number of keys.
use pubsub_broker.Base.{
  ◌≡◌, refl, true, Option, none, some, List, [], ◌∷◌, arith, Comparable, ◌==◌, if◌then◌else◌,
}

abbrev pub Map {ℓ κ} : Type ℓ → Type κ → Type (ℓ ⊔ κ)
Map Key Value = List (Key × Value)

pub beq_refl {ℓ} : {K : Type ℓ} ⦃c : Comparable K⦄ (k : K) → (k == k) ≡ true
beq_refl ⦃c⦄ k = (c.same_iff k k).1 refl

module _ {ℓ κ} {K : Type ℓ} {V : Type κ} ⦃c : Comparable K⦄ where
  -- `m[k]`, where a missing key reads as the zero value.
  unfoldable pub lookup_or : V → K → Map K V → V
  lookup_or zero_value k [] = zero_value
  lookup_or zero_value k (b ∷ m) = if b.0 == k then b.1 else lookup_or zero_value k m

  -- `v, ok := m[k]`.
  unfoldable pub lookup : K → Map K V → Option V
  lookup k [] = none
  lookup k (b ∷ m) = if b.0 == k then some b.1 else lookup k m

  -- `delete(m, k)`.
  unfoldable pub erase : K → Map K V → Map K V
  erase k [] = []
  erase k (b ∷ m) = let rest = erase k m in if b.0 == k then rest else b ∷ rest

  -- `m[k] = v`.
  unfoldable pub insert : K → V → Map K V → Map K V
  insert k new [] = (k, new) ∷ []
  insert k new (b ∷ m) = if b.0 == k then (k, new) ∷ m else b ∷ insert k new m

  -- What a read of `j` finds after a write or a deletion of `k`.
  pub lookup_or-insert :
      (zero_value : V) (k j : K) (new : V) (m : Map K V)
      → lookup_or zero_value j (insert k new m) ≡ (if k == j then new else lookup_or zero_value j m)
  unfolding insert lookup_or
  lookup_or-insert zero_value k j new [] = refl
  lookup_or-insert zero_value k j new (b ∷ m) = ground (
    arith,
    lookup_or-insert zero_value k j new m,
    c.same_iff b.0 j,
    c.same_iff b.0 k,
    c.same_iff k j,
  )

  pub lookup-insert :
      (k j : K) (new : V) (m : Map K V)
      → lookup j (insert k new m) ≡ (if k == j then some new else lookup j m)
  unfolding insert lookup
  lookup-insert k j new [] = refl
  lookup-insert k j new (b ∷ m) =
      ground (arith, lookup-insert k j new m, c.same_iff b.0 j, c.same_iff b.0 k, c.same_iff k j)

  pub lookup-erase :
      (k j : K) (m : Map K V) → lookup j (erase k m) ≡ (if k == j then none else lookup j m)
  unfolding erase lookup
  lookup-erase k j [] = ground arith
  lookup-erase k j (b ∷ m) =
      ground (arith, lookup-erase k j m, c.same_iff b.0 j, c.same_iff b.0 k, c.same_iff k j)
