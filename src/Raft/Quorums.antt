-- ===== src/Raft/Quorums.antt =====
-- Two majorities of the members share a member.
use pubsub_broker.Base.{
  ℕ, suc, ◌+◌, ◌≤◌, ◌<◌, ◌≡◌, refl, Bool, true, List, [], ◌∷◌, arith, length, Bool-cases, String,
  if◌then◌else◌, inl, inr, ◌&&◌,
}
use mathlib.Core.List.{Memᴰ}
use pubsub_broker.Raft.State.{Node}
use pubsub_broker.Raft.Commit.{quorum}

abbrev pub count_if {ℓ} : {A : Type ℓ} → (A → Bool) → List A → ℕ
count_if p [] = 0
count_if p (x ∷ xs) = if p x then suc (count_if p xs) else count_if p xs

-- The node and its peers.
abbrev pub members : Node → List String
members n = n.self_id ∷ n.peers

overlap {ℓ} :
    {A : Type ℓ} (p q : A → Bool) (xs : List A)
    → length xs < count_if p xs + count_if q xs
    → (x : A) × Memᴰ x xs × (p x ≡ true) × (q x ≡ true)
overlap p q [] h = absurd (omega arith)
overlap p q (x ∷ xs) h = elim (Bool-cases (p x && q x)) [
  | inl both ↦ (x, Memᴰ.head refl, ground (arith, both), ground (arith, both))
  | inr one ↦ let (y, m, py, qy) = overlap p q xs (ground (arith, one)) in (y, Memᴰ.tail m, py, qy)
]

-- Two sets of members of the size of a quorum have a member in common; so no two candidates can both
-- be voted for by a quorum unless some member votes twice.
pub quorums_overlap :
    (n : Node) (p q : String → Bool)
    → quorum n ≤ count_if p (members n)
    → quorum n ≤ count_if q (members n)
    → (x : String) × Memᴰ x (members n) × (p x ≡ true) × (q x ≡ true)
unfolding quorum
quorums_overlap n p q h k = overlap p q (members n) (omega arith)
