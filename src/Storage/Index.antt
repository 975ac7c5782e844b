-- ===== src/Storage/Index.antt =====
-- The sparse index of a segment: where findPosition sends a reader.
use pubsub_broker.Base.{
  ℕ, ◌+◌, ◌-◌, ◌*◌, ◌≤◌, ◌<◌, ◌≡◌, refl, ap, ◌∙◌, sym, List, [], ◌∷◌, ◌++◌, ltb, length, take,
  arith, append_assoc, append-nil, Bool-cases, inl, inr, All, take-append_left,
}
use pubsub_broker.Base.Bytes.{Bytes}
use pubsub_broker.Base.Endian.{get_le-put_le}
use pubsub_broker.Storage.Record.{Coding}
use pubsub_broker.Storage.Segment.{index_entry, index_search}
use pubsub_broker.Storage.Holding.{Stored, log_bytes, offset_lt_small}

-- Where the record behind the first `i` ones begins.
unfoldable pub position_of : Coding → ℕ → List Stored → ℕ → ℕ
position_of c base bs i = 5 + length (log_bytes c base (take i bs))

-- The bytes of an index of the records at these places.
unfoldable pub index_bytes : Coding → ℕ → List Stored → List ℕ → Bytes
index_bytes c base bs [] = []
index_bytes c base bs (i ∷ is) =
    index_entry (base + i) (position_of c base bs i) ++ index_bytes c base bs is

pub length-index_bytes :
    (c : Coding) (base : ℕ) (bs : List Stored) (is : List ℕ)
    → length (index_bytes c base bs is) ≡ 16 * length is
unfolding index_bytes
length-index_bytes c base bs [] = refl
length-index_bytes c base bs (i ∷ is) = omega (arith, length-index_bytes c base bs is)

-- Records that are added behind change neither the places nor the index.
pub position_of-append :
    (c : Coding) (base : ℕ) (bs : List Stored) (b : Stored) (i : ℕ)
    → i ≤ length bs
    → position_of c base (bs ++ b ∷ []) i ≡ position_of c base bs i
unfolding position_of
position_of-append c base bs b i h = rw (take-append_left bs (b ∷ []) i h)

pub index_bytes-append :
    (c : Coding) (base : ℕ) (bs : List Stored) (b : Stored) (is : List ℕ)
    → All (λ i. i ≤ length bs) is
    → index_bytes c base (bs ++ b ∷ []) is ≡ index_bytes c base bs is
unfolding index_bytes
index_bytes-append c base bs b [] h = refl
index_bytes-append c base bs b (i ∷ is) h =
    rw (position_of-append c base bs b i h.0, index_bytes-append c base bs b is h.1)

pub index_bytes-snoc :
    (c : Coding) (base : ℕ) (bs : List Stored) (is : List ℕ) (i : ℕ)
    → index_bytes c base bs (is ++ i ∷ [])
      ≡ index_bytes c base bs is ++ index_entry (base + i) (position_of c base bs i)
unfolding index_bytes
index_bytes-snoc c base bs [] i = append-nil (index_entry (base + i) (position_of c base bs i))
index_bytes-snoc c base bs (j ∷ js) i =
    let entry : Bytes = index_entry (base + j) (position_of c base bs j) in
    ap (λ x. entry ++ x) (index_bytes-snoc c base bs js i)
    ∙ sym (
        append_assoc entry (index_bytes c base bs js)
          (index_entry (base + i) (position_of c base bs i)))

-- A place from which a reader that looks for `start` misses nothing.
abbrev pub Reaches : Coding → ℕ → List Stored → ℕ → ℕ → Type 0
Reaches c base bs start position =
    (i : ℕ) × (i ≤ length bs) × (i ≤ start - base) × (position ≡ position_of c base bs i)

-- The search through the index ends at the place of a record that is not behind the start.
pub index_search-Reaches :
    (c : Coding) (base : ℕ) (bs : List Stored) (is : List ℕ) (start best : ℕ)
    → All (λ i. (i ≤ length bs) × (position_of c base bs i < 9223372036854775808)) is
    → base + length bs < 9223372036854775808
    → start < 9223372036854775808
    → Reaches c base bs start best
    → Reaches c base bs start (index_search (length is) start best (index_bytes c base bs is))
unfolding index_search index_bytes
index_search-Reaches c base bs [] start best known small low h = h
index_search-Reaches c base bs (i ∷ is) start best known small low h =
    let offset = get_le-put_le 8 (base + i) (omega (arith, known.0.0)) in
    let position = get_le-put_le 8 (position_of c base bs i) (omega (arith, known.0.1)) in
    let test = offset_lt_small start (base + i) low (omega (arith, known.0.0)) in
    elim (Bool-cases (ltb start (base + i))) [
      | inl behind ↦ rw (offset, test, behind) h
      | inr before ↦
          rw (offset, test, before, position)
            (index_search-Reaches c base bs is start (position_of c base bs i) known.1 small low
              (i, known.0.0, ground arith, refl))
    ]
