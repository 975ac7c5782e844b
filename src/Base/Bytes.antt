-- ===== src/Base/Bytes.antt =====
-- Texts that the program takes apart, as lists of bytes.
use pubsub_broker.Base.{
  ℕ, ◌≡◌, ◌↔◌, refl, Bool, true, false, List, [], ◌∷◌, ◌++◌, arith, ◌&&◌, ◌==◌, nat_comparable,
  nat_beq_iff, Comparable, All, ◌≢◌, ltb, if◌then◌else◌,
}

abbrev pub Bytes : Type 0
Bytes = List ℕ

abbrev pub bytes_beq : Bytes → Bytes → Bool
bytes_beq [] [] = true
bytes_beq [] (y ∷ ys) = false
bytes_beq (x ∷ xs) [] = false
bytes_beq (x ∷ xs) (y ∷ ys) = x == y && bytes_beq xs ys

pub bytes_beq_iff : (xs ys : Bytes) → (bytes_beq xs ys ≡ true) ↔ (xs ≡ ys)
bytes_beq_iff [] [] = (λ _. refl, λ _. refl)
bytes_beq_iff [] (y ∷ ys) = (λ h. cc, λ h. cc)
bytes_beq_iff (x ∷ xs) [] = (λ h. cc, λ h. cc)
bytes_beq_iff (x ∷ xs) (y ∷ ys) = (
  λ h. ground (arith, nat_beq_iff x y, bytes_beq_iff xs ys),
  λ h. ground (arith, nat_beq_iff x y, bytes_beq_iff xs ys),
)

instance abbrev pub bytes_comparable : Comparable Bytes
bytes_comparable = record { same_iff = bytes_beq_iff; same = bytes_beq }

-- The byte `/`, which separates the parts of a key.
abbrev pub slash : ℕ
slash = 47

abbrev pub NoSlash : Bytes → Type 0
NoSlash = All (λ b. b ≢ slash)

-- Two texts with no slash are determined by what a slash behind them begins.
pub split_at_slash :
    (xs ys vs ws : Bytes)
    → NoSlash xs
    → NoSlash ys
    → xs ++ (slash ∷ vs) ≡ ys ++ (slash ∷ ws)
    → (xs ≡ ys) × (vs ≡ ws)
split_at_slash [] [] vs ws h k e = ground arith
split_at_slash [] (y ∷ ys) vs ws h k e = absurd (k.0 (cc))
split_at_slash (x ∷ xs) [] vs ws h k e = absurd (h.0 (cc))
split_at_slash (x ∷ xs) (y ∷ ys) vs ws h k e =
    let tails : xs ++ (slash ∷ vs) ≡ ys ++ (slash ∷ ws) = cc in
    let (same, rest) = split_at_slash xs ys vs ws h.1 k.1 tails in (cc same, rest)

-- Go's `<` on strings: by bytes, a proper prefix first.
abbrev pub lt_bytes : Bytes → Bytes → Bool
lt_bytes [] [] = false
lt_bytes [] (y ∷ ys) = true
lt_bytes (x ∷ xs) [] = false
lt_bytes (x ∷ xs) (y ∷ ys) =
    let rest = lt_bytes xs ys in if ltb x y then true else if x == y then rest else false

pub lt_bytes_irrefl : (xs : Bytes) → lt_bytes xs xs ≡ false
lt_bytes_irrefl [] = refl
lt_bytes_irrefl (x ∷ xs) = ground (arith, lt_bytes_irrefl xs)
