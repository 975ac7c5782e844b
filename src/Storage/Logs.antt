-- ===== src/Storage/Logs.antt =====
-- What a partition log promises: its segments hold one list of messages, which Append extends and Read reads.
use pubsub_broker.Base.{
  ℕ, zero, suc, ◌+◌, ◌-◌, ◌≤◌, ◌<◌, ◌≡◌, refl, ap, ◌∙◌, sym, Option, some, List, [], ◌∷◌, ◌++◌, ltb,
  length, take, drop, arith, append-nil, Bool-cases, inl, inr, length-take,
}
use pubsub_broker.Dlq.Queue.{Message}
use pubsub_broker.Storage.Record.{Coding, IsCoding}
use pubsub_broker.Storage.Segment.{Segment, offset_lt, SegmentRead, messages, read}
use pubsub_broker.Storage.Holding.{Stored, messages_of, drop_empty, offset_lt_small}
use pubsub_broker.Storage.Segments.{Holds, read-Holds}
use pubsub_broker.Storage.Partition.{read_segments, with_batch}

-- Segments that follow one another from an offset on, each with its messages.
abbrev pub HoldsAll : Coding → ℕ → List Segment → List (List Stored) → Type 0
HoldsAll c base [] [] = Unit
HoldsAll c base [] (bs ∷ bss) = ⊥
HoldsAll c base (s ∷ ss) [] = ⊥
HoldsAll c base (s ∷ ss) (bs ∷ bss) =
    (s.base_offset ≡ base) × Holds c s bs × HoldsAll c (base + length bs) ss bss

abbrev pub concat : List (List Stored) → List Stored
concat [] = []
concat (bs ∷ bss) = bs ++ concat bss

messages_of-append :
    (bs ds : List Stored) → messages_of (bs ++ ds) ≡ messages_of bs ++ messages_of ds
messages_of-append [] ds = refl
messages_of-append (b ∷ bs) ds = ap (λ ms. b.msg ∷ ms) (messages_of-append bs ds)

drop-append_inside {ℓ} :
    {A : Type ℓ} (n : ℕ) (xs ys : List A) → n ≤ length xs → drop n (xs ++ ys) ≡ drop n xs ++ ys
drop-append_inside zero xs ys h = refl
drop-append_inside (suc n) [] ys h = absurd (omega arith)
drop-append_inside (suc n) (x ∷ xs) ys h = drop-append_inside n xs ys (omega arith)

drop-append_past {ℓ} :
    {A : Type ℓ} (n : ℕ) (xs ys : List A)
    → length xs ≤ n
    → drop n (xs ++ ys) ≡ drop (n - length xs) ys
drop-append_past n [] ys h = let e : n - 0 ≡ n = omega arith in rw e
drop-append_past zero (x ∷ xs) ys h = absurd (omega arith)
drop-append_past (suc n) (x ∷ xs) ys h =
    let e : suc n - suc (length xs) ≡ n - length xs = omega arith in
    rw e (drop-append_past n xs ys (omega arith))

take_empty {ℓ} : {A : Type ℓ} (n : ℕ) → take {A = A} n [] ≡ []
take_empty zero = refl
take_empty (suc n) = refl

take-append_split {ℓ} :
    {A : Type ℓ} (n : ℕ) (xs ys : List A) → take n (xs ++ ys) ≡ take n xs ++ take (n - length xs) ys
take-append_split n [] ys = let e : n - 0 ≡ n = omega arith in rw (e, take_empty n)
take-append_split zero (x ∷ xs) ys = let e : 0 - suc (length xs) ≡ 0 = omega arith in rw e
take-append_split (suc n) (x ∷ xs) ys =
    let e : suc n - suc (length xs) ≡ n - length xs = omega arith in
    rw e (ap (λ zs. x ∷ zs) (take-append_split n xs ys))

-- The messages of a segment from a start on, and those of the segments behind it.
batch_and_rest :
    (base start missing : ℕ) (bs ds : List Stored)
    → start - base ≤ length bs
    → take missing (messages_of (drop (start - base) (bs ++ ds)))
      ≡ take missing (messages_of (drop (start - base) bs))
        ++ take (missing - length (messages_of (drop (start - base) bs))) (messages_of ds)
batch_and_rest base start missing bs ds h =
    ap (λ x. take missing (messages_of x)) (drop-append_inside (start - base) bs ds h)
    ∙ ap (λ x. take missing x) (messages_of-append (drop (start - base) bs) ds)
    ∙ take-append_split missing (messages_of (drop (start - base) bs)) (messages_of ds)

-- What follows a batch in the loop of Read.
after_batch :
    (from later : List Message) (missing : ℕ) (rest : ℕ → Option SegmentRead)
    → ((n : ℕ) → rest (suc n) ≡ some (messages (take (suc n) later)))
    → (elim (missing - length (take missing from)) [
      | zero ↦ some (messages (take missing from))
      | suc n ↦ with_batch (take missing from) (rest (suc n))
    ])
      ≡ some (messages (take missing from ++ take (missing - length from) later))
after_batch from later missing rest h = go (missing - length (take missing from)) refl
  where
    go :
        (left : ℕ)
        → missing - length (take missing from) ≡ left
        → (elim (missing - length (take missing from)) [
          | zero ↦ some (messages (take missing from))
          | suc n ↦ with_batch (take missing from) (rest (suc n))
        ])
          ≡ some (messages (take missing from ++ take (missing - length from) later))
    go zero e =
        let none_left : missing - length from ≡ 0 = omega (arith, e, length-take missing from) in
        rw (e, none_left) (ap (λ x. some (messages x)) (sym (append-nil (take missing from))))
    go (suc n) e =
        let same : missing - length from ≡ suc n = omega (arith, e, length-take missing from) in
        rw (e, same, h n)

-- Read returns the messages of the log from the start on, as many as it was asked for at most, across
-- the bounds of the segments.
pub read_segments-HoldsAll :
    (c : Coding) (base : ℕ) (ss : List Segment) (bss : List (List Stored)) (start missing : ℕ)
    → IsCoding c
    → HoldsAll c base ss bss
    → start < 9223372036854775808
    → read_segments c ss start missing
      ≡ some (messages (take missing (messages_of (drop (start - base) (concat bss)))))
unfolding read_segments
read_segments-HoldsAll c base [] [] start missing k h low =
    rw (drop_empty (start - base), take_empty missing)
read_segments-HoldsAll c base [] (bs ∷ bss) start missing k h low = absurd h
read_segments-HoldsAll c base (s ∷ ss) [] start missing k h low = absurd h
read_segments-HoldsAll c base (s ∷ ss) (bs ∷ bss) start missing k (at_base, hold, rest) low =
    let from : List Message = messages_of (drop (start - base) bs) in
    let reads : read c s start missing ≡ some (messages (take missing from)) =
      read-Holds c s bs start missing k hold low
      ∙ ap (λ n. some (messages (take missing (messages_of (drop (start - n) bs))))) at_base in
    let test : offset_lt start s.next_offset ≡ ltb start s.next_offset =
      offset_lt_small start s.next_offset low (omega (arith, hold.counted, hold.bounded)) in
    elim (Bool-cases (ltb start s.next_offset)) [
      | inr past ↦
          let n : (start - base) - length bs ≡ start - (base + length bs) = omega arith in
          let behind =
            drop-append_past (start - base) bs (concat bss)
              (ground (arith, hold.counted, at_base)) in
          rw (test, past, read_segments, behind, n)
            (read_segments-HoldsAll c (base + length bs) ss bss start missing k rest low)
      | inl inside ↦
          let reached : start < base + length bs = ground (arith, hold.counted, at_base) in
          let split = batch_and_rest base start missing bs (concat bss) (omega arith) in
          let none_before : start - (base + length bs) ≡ 0 = omega arith in
          let later : (n : ℕ)
              → read_segments c ss start (suc n)
                ≡ some (messages (take (suc n) (messages_of (concat bss)))) =
            λ n.
              rw none_before at
                (read_segments-HoldsAll c (base + length bs) ss bss start (suc n) k rest low) in
          rw (test, inside, read_segments, reads, split)
            (after_batch from (messages_of (concat bss)) missing (λ n. read_segments c ss start n)
              later)
    ]
