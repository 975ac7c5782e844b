-- ===== src/Dedup/Recent.antt =====
-- A window remembers the last `size` marks of a client.
use native.Mathlib.Nat.{mod_self, mod-eq_of_lt}
use pubsub_broker.Base.{
  ℕ, zero, suc, ◌+◌, ◌-◌, ◌%◌, ◌<◌, ◌≡◌, ◌≢◌, ◌⊎◌, inl, inr, refl, sym, ◌∙◌, Bool, true, false,
  ◌&&◌, none, some, List, [], ◌∷◌, ◌==◌, nat_comparable, nat_beq_iff, length, get_elem?, set,
  length-set, Bool-cases, arith, ltb,
}
use pubsub_broker.Base.Bytes.{bytes_comparable}
use pubsub_broker.Base.Int.{ℤ}
use pubsub_broker.Base.Maps.{beq_refl}
use pubsub_broker.Dedup.Window.{SeqEntry, ClientWindow, scan, window_lookup, window_mark}

-- A ring of `size` slots with its head inside.
abbrev pub IsWindow : ClientWindow → Type 0
IsWindow cw = (cw.head < cw.size) × (length cw.ring ≡ cw.size)

abbrev pub is_for : ℕ → SeqEntry → Bool
is_for s e = e.valid && (e.seq_num == s)

module _ {A : Type 0} where
  get-set_same : (xs : List A) (i : ℕ) (v : A) → i < length xs → get_elem? (set xs i v) i ≡ some v
  get-set_same [] i v h = elim h [ ]
  get-set_same (x ∷ xs) zero v h = refl
  get-set_same (x ∷ xs) (suc i) v h = get-set_same xs i v (omega arith)

  get-set_other :
      (xs : List A) (i j : ℕ) (v : A) → i ≢ j → get_elem? (set xs i v) j ≡ get_elem? xs j
  get-set_other [] i j v h = refl
  get-set_other (x ∷ xs) zero zero v h = absurd (h refl)
  get-set_other (x ∷ xs) zero (suc j) v h = refl
  get-set_other (x ∷ xs) (suc i) zero v h = refl
  get-set_other (x ∷ xs) (suc i) (suc j) v h = get-set_other xs i j v (omega arith)

-- No slot but one at index `i` is for the sequence number.
abbrev pub OnlyAt : ℕ → List SeqEntry → ℕ → Type 0
OnlyAt s ring i = (j : ℕ) (e : SeqEntry) → get_elem? ring j ≡ some e → is_for s e ≡ true → j ≡ i

scan_only :
    (s : ℕ) (ring : List SeqEntry) (i : ℕ) (e : SeqEntry)
    → get_elem? ring i ≡ some e
    → is_for s e ≡ true
    → OnlyAt s ring i
    → scan s ring ≡ some e.offset
unfolding scan
scan_only s [] i e f holds only = cc
scan_only s (x ∷ xs) zero e f holds only =
    let same : x ≡ e = cc in let g : is_for s x ≡ true = rw same holds in rw (g, same)
scan_only s (x ∷ xs) (suc i) e f holds only = elim (Bool-cases (is_for s x)) [
  | inl first ↦ absurd (let bad : 0 ≡ suc i = only 0 x refl first in omega arith)
  | inr other ↦ rw (
    other,
    scan_only s xs i e f holds
        (λ j d g h. let e' : suc j ≡ suc i = only (suc j) d g h in omega arith),
  )
]

scan-none :
    (s : ℕ) (ring : List SeqEntry)
    → scan s ring ≡ none
    → (j : ℕ) (e : SeqEntry) → get_elem? ring j ≡ some e
    → is_for s e ≡ false
unfolding scan
scan-none s [] h j e f = cc
scan-none s (x ∷ xs) h zero e f = elim (Bool-cases (is_for s x)) [
  | inl first ↦ absurd (let bad : some x.offset ≡ none = rw first at h in cc)
  | inr other ↦ let same : x ≡ e = cc in rw (← same) other
]
scan-none s (x ∷ xs) h (suc j) e f = elim (Bool-cases (is_for s x)) [
  | inl first ↦ absurd (let bad : some x.offset ≡ none = rw first at h in cc)
  | inr other ↦ scan-none s xs (rw other at h) j e f
]

-- The index after `h` in a ring of `n` slots.
data NextIndex (h n : ℕ) : Type 0 where
  within : suc h < n → (h + 1) % n ≡ suc h → NextIndex h n
  wraps : suc h ≡ n → (h + 1) % n ≡ 0 → NextIndex h n

next_index : (h n : ℕ) → h < n → NextIndex h n
next_index h n below = elim (Bool-cases (ltb (suc h) n)) [
  | inl lower ↦
      let l : h + 1 < n = ground arith in within (ground arith) (mod-eq_of_lt l ∙ omega arith)
  | inr end ↦ let e : h + 1 ≡ n = ground arith in wraps (omega arith) (rw e (mod_self n))
]

pub next-IsWindow :
    (cw : ClientWindow) (s : ℕ) (o : ℤ) → IsWindow cw → IsWindow (window_mark cw s o)
unfolding window_mark
next-IsWindow cw s o h =
    let slots = length-set cw.ring cw.head (record { seq_num = s; offset = o; valid = true }) in
    elim (next_index cw.head cw.size h.0) [
      | within l e ↦ (rw e l, slots ∙ h.1)
      | wraps l e ↦ (rw e (omega (arith, h.0)), slots ∙ h.1)
    ]

-- The mark of `s` with `o` stands in the slot at `i`, and `k` more marks follow before that slot is
-- the head's again.
abbrev pub Remembers : ClientWindow → ℕ → ℤ → ℕ → ℕ → Type 0
Remembers cw s o i k =
    (get_elem? cw.ring i ≡ some (record { seq_num = s; offset = o; valid = true }))
    × OnlyAt s cw.ring i
    × ((cw.head + k ≡ i) ⊎ (cw.head + k ≡ i + cw.size))
    × (i < cw.size)

pub remembered_lookup :
    (cw : ClientWindow) (s : ℕ) (o : ℤ) (i k : ℕ)
    → Remembers cw s o i k
    → window_lookup cw s ≡ some o
unfolding window_lookup
remembered_lookup cw s o i k (at_i, only, _, _) =
    scan_only s cw.ring i (record { seq_num = s; offset = o; valid = true }) at_i (beq_refl s) only

-- A mark of another sequence number elsewhere.
pub Remembers-mark :
    (cw : ClientWindow) (s t : ℕ) (o p : ℤ) (i k : ℕ)
    → IsWindow cw
    → t ≢ s
    → suc k < cw.size
    → Remembers cw s o i (suc k)
    → Remembers (window_mark cw t p) s o i k
unfolding window_mark
Remembers-mark cw s t o p i k h differs room (at_i, only, ahead, in_ring) =
    let v : SeqEntry = record { seq_num = t; offset = p; valid = true } in
    let apart : cw.head ≢ i = λ e. elim ahead [ inl a ↦ omega arith | inr a ↦ omega arith ] in
    (
      get-set_other cw.ring cw.head i v apart ∙ at_i,
      only_there v,
      elim (next_index cw.head cw.size h.0) [
        | within l e ↦ rw e (elim ahead [ inl a ↦ inl (omega arith) | inr a ↦ inr (omega arith) ])
        | wraps l e ↦ rw e (elim ahead [ inl a ↦ absurd (omega arith) | inr a ↦ inl (omega arith) ])
      ],
      in_ring,
    )
  where
    only_there :
        (v : SeqEntry)
        → OnlyAt s (set cw.ring cw.head (record { seq_num = t; offset = p; valid = true })) i
    only_there v j e f g = elim (Bool-cases (cw.head == j)) [
      | inl same ↦
          let at_head : cw.head ≡ j = (nat_beq_iff cw.head j).0 same in
          let f' =
            get-set_same cw.ring cw.head (record { seq_num = t; offset = p; valid = true })
              (rw h.1 h.0) in
          let f'' : get_elem?
                (set cw.ring cw.head (record { seq_num = t; offset = p; valid = true })) j
              ≡ some (record { seq_num = t; offset = p; valid = true }) =
            rw (← at_head) f' in
          let e' : e ≡ record { seq_num = t; offset = p; valid = true } = cc in
          absurd (differs ((nat_beq_iff t s).0 (rw e' at g)))
      | inr other ↦
          let apart : cw.head ≢ j = λ e. ground (arith) in
          only j e
            (sym (
                get-set_other cw.ring cw.head j (record { seq_num = t; offset = p; valid = true })
                  apart)
              ∙ f)
            g
    ]

-- The mark of a sequence number that the window does not hold.
pub fresh_mark :
    (cw : ClientWindow) (s : ℕ) (o : ℤ)
    → IsWindow cw
    → window_lookup cw s ≡ none
    → Remembers (window_mark cw s o) s o cw.head (cw.size - 1)
unfolding window_mark window_lookup
fresh_mark cw s o h fresh = (
  get-set_same cw.ring cw.head (record { seq_num = s; offset = o; valid = true }) (rw h.1 h.0),
  only_head,
  elim (next_index cw.head cw.size h.0) [
    | within l e ↦ rw e (inr (omega arith))
    | wraps l e ↦ rw e (inl (omega arith))
  ],
  h.0,
)
  where
    only_head :
        OnlyAt s (set cw.ring cw.head (record { seq_num = s; offset = o; valid = true })) cw.head
    only_head j e f g = elim (Bool-cases (cw.head == j)) [
      | inl same ↦ sym ((nat_beq_iff cw.head j).0 same)
      | inr other ↦
          let apart : cw.head ≢ j = λ e. ground (arith) in
          let f' =
            sym (
              get-set_other cw.ring cw.head j (record { seq_num = s; offset = o; valid = true })
                apart)
            ∙ f in
          let g' = scan-none s cw.ring fresh j e f' in absurd (cc)
    ]
