-- ===== src/Base/Endian.antt =====
-- Little-endian numbers of a fixed width, slices of byte strings, and io.ReadFull.
use pubsub_broker.Base.{
  ℕ, zero, suc, ◌+◌, ◌-◌, ◌*◌, ◌/◌, ◌%◌, ◌<◌, ◌≡◌, refl, Option, none, some, [], ◌∷◌, ◌++◌, arith,
  leb, if◌then◌else◌, length, take, drop, take_front, drop_front, length-append, true, false, ap,
  Bool-cases, inl, inr, length-drop,
}
use pubsub_broker.Base.Bytes.{Bytes}

-- binary.LittleEndian.PutUint of `width` bytes.
abbrev pub put_le : ℕ → ℕ → Bytes
put_le zero n = []
put_le (suc width) n = (n % 256) ∷ put_le width (n / 256)

-- binary.LittleEndian.Uint of the bytes.
abbrev pub get_le : Bytes → ℕ
get_le [] = 0
get_le (b ∷ bs) = b + 256 * get_le bs

-- The number fits in the width.
abbrev pub Fits : ℕ → ℕ → Type 0
Fits zero n = n ≡ 0
Fits (suc width) n = Fits width (n / 256)

pub get_le-put_le : (width n : ℕ) → Fits width n → get_le (put_le width n) ≡ n
get_le-put_le zero n h = omega arith
get_le-put_le (suc width) n h = omega (arith, get_le-put_le width (n / 256) h)

pub length-put_le : (width n : ℕ) → length (put_le width n) ≡ width
length-put_le zero n = refl
length-put_le (suc width) n = ap suc (length-put_le width (n / 256))

-- `bs[low:high]`
abbrev pub slice : ℕ → ℕ → Bytes → Bytes
slice low high bs = take (high - low) (drop low bs)

-- io.ReadFull of `n` bytes: what was read and what follows, `none` where the input ends before.
unfoldable pub read_full : ℕ → Bytes → Option (Bytes × Bytes)
read_full n bs = if leb n (length bs) then some (take n bs, drop n bs) else none

pub read_full-append : (xs ys : Bytes) → read_full (length xs) (xs ++ ys) ≡ some (xs, ys)
unfolding read_full
read_full-append xs ys =
    let e : leb (length xs) (length (xs ++ ys)) ≡ true = ground (arith, length-append xs ys) in
    rw (e, take_front xs ys, drop_front xs ys)

pub read_full_short : (n : ℕ) (bs : Bytes) → length bs < n → read_full n bs ≡ none
unfolding read_full
read_full_short n bs h = let e : leb n (length bs) ≡ false = ground arith in rw e

-- What ReadFull leaves is shorter by what it read.
pub read_full_shorter :
    (n : ℕ) (bs : Bytes) {xs ys : Bytes}
    → read_full n bs ≡ some (xs, ys)
    → n + length ys ≡ length bs
unfolding read_full
read_full_shorter n bs {xs} {ys} h = elim (Bool-cases (leb n (length bs))) [
  | inl fits ↦
      let e : some (take n bs, drop n bs) ≡ some (xs, ys) = rw fits at h in
      let f : drop n bs ≡ ys = cc in ground (arith, length-drop n bs, ap length f)
  | inr short ↦ let bad : none ≡ some (xs, ys) = rw short at h in cc
]
