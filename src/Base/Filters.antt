-- ===== src/Base/Filters.antt =====
-- Filtering, reversing and membership tests on lists.
use pubsub_broker.Base.{
  ◌+◌, ◌≡◌, refl, ap, Bool, true, false, List, [], ◌∷◌, ◌++◌, arith, if◌then◌else◌, not, Bool-cases,
  length, ◌==◌, Comparable, inl, inr,
}

module _ {ℓ} {A : Type ℓ} where
  abbrev pub filter : (A → Bool) → List A → List A
  filter p [] = []
  filter p (x ∷ xs) = let rest = filter p xs in if p x then x ∷ rest else rest

  abbrev pub reverse : List A → List A
  reverse [] = []
  reverse (x ∷ xs) = reverse xs ++ x ∷ []

  pub reverse_snoc : (xs : List A) (x : A) → reverse (xs ++ x ∷ []) ≡ x ∷ reverse xs
  reverse_snoc [] x = refl
  reverse_snoc (y ∷ ys) x = ap (λ zs. zs ++ y ∷ []) (reverse_snoc ys x)

  pub filter-append :
      (p : A → Bool) (xs ys : List A) → filter p (xs ++ ys) ≡ filter p xs ++ filter p ys
  filter-append p [] ys = refl
  filter-append p (x ∷ xs) ys = elim (Bool-cases (p x)) [
    | inl holds ↦ rw (holds, filter-append p xs ys)
    | inr fails ↦ rw (fails, filter-append p xs ys)
  ]

  pub length_partition :
      (p : A → Bool) (xs : List A)
      → length (filter p xs) + length (filter (λ x. not (p x)) xs) ≡ length xs
  length_partition p [] = omega arith
  length_partition p (x ∷ xs) =
      let ih = length_partition p xs in
      elim (Bool-cases (p x)) [
        | inl holds ↦ rw holds (omega arith)
        | inr fails ↦ rw fails (omega arith)
      ]

module _ {ℓ} {A : Type ℓ} ⦃c : Comparable A⦄ where
  -- Whether a loop over the list meets the value.
  abbrev pub contains : A → List A → Bool
  contains a [] = false
  contains a (x ∷ xs) = let rest = contains a xs in if x == a then true else rest
