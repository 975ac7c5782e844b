-- ===== src/Groups/Balance.antt =====
-- What rebalance makes of the assignments: each partition has exactly one owner.
use native.Mathlib.Nat.{mod-lt}
use pubsub_broker.Base.{
  ℕ, zero, suc, ◌%◌, ◌<◌, ◌≡◌, ◌≢◌, ◌↔◌, refl, sym, ap, ◌∙◌, true, false, Option, some, List, [],
  ◌∷◌, ◌++◌, arith, inl, inr, if◌then◌else◌, ◌==◌, nat_comparable, nat_beq_iff, length, get_elem?,
  get_elem?_in_range, Bool-cases, Option-cases,
}
use pubsub_broker.Base.Bytes.{Bytes, bytes_comparable, bytes_beq_iff}
use pubsub_broker.Base.Maps.{Map, lookup, lookup_or, lookup_or-insert, beq_refl}
use pubsub_broker.Base.Filters.{contains}
use pubsub_broker.Groups.Members.{
  Consumer, Group, assign, assignments_upto, hand_out, ids_of, rebalance,
}

contains_snoc :
    (xs : List ℕ) (p q : ℕ) → contains q (xs ++ p ∷ []) ≡ (if contains q xs then true else (p == q))
contains_snoc [] p q = elim (Bool-cases (p == q)) [ inl same ↦ rw same | inr other ↦ rw other ]
contains_snoc (x ∷ xs) p q = elim (Bool-cases (x == q)) [
  | inl same ↦ rw same
  | inr other ↦ rw (other, contains_snoc xs p q)
]

-- The consumer that partition `p` goes to.
unfoldable pub owner : List Bytes → ℕ → Option Bytes
owner ids p = get_elem? ids (p % length ids)

-- Whether a partition goes to a consumer.
data OwnerCase (ids : List Bytes) (p : ℕ) (cid : Bytes) : Type 0 where
  mine :
      owner ids p ≡ some cid
      → lookup_or [] cid (assignments_upto ids (suc p))
        ≡ lookup_or [] cid (assignments_upto ids p) ++ p ∷ []
      → OwnerCase ids p cid
  other :
      owner ids p ≢ some cid
      → lookup_or [] cid (assignments_upto ids (suc p)) ≡ lookup_or [] cid (assignments_upto ids p)
      → OwnerCase ids p cid

owner_case : (ids : List Bytes) (p : ℕ) (cid : Bytes) → OwnerCase ids p cid
unfolding assignments_upto owner
owner_case ids p cid = elim (Option-cases (get_elem? ids (p % length ids))) [
  | inl nobody ↦ other (λ e. cc) (rw (nobody, assignments_upto))
  | inr (o, owned) ↦
      let m = assignments_upto ids p in
      let step = lookup_or-insert [] o cid (lookup_or [] o m ++ p ∷ []) m in
      elim (Bool-cases (o == cid)) [
        | inl same ↦
            let e : o ≡ cid = (bytes_beq_iff o cid).0 same in
            mine (owned ∙ ap some e) (rw (owned, assignments_upto, e) (rw (same, e) at step))
        | inr apart ↦
            other (λ f. let e : o ≡ cid = cc in let t = (bytes_beq_iff o cid).1 e in cc)
              (rw (owned, assignments_upto) (rw apart at step))
      ]
]

-- A consumer's list holds a partition exactly when it is below the count and goes to the consumer.
assigned_iff :
    (ids : List Bytes) (n : ℕ) (cid : Bytes) (q : ℕ)
    → (contains q (lookup_or [] cid (assignments_upto ids n)) ≡ true)
      ↔ ((q < n) × (owner ids q ≡ some cid))
assigned_iff ids zero cid q = (
  λ h. absurd (let bad : false ≡ true = unfold assignments_upto lookup_or in h in cc),
  λ (h, _). absurd (omega arith),
)
assigned_iff ids (suc p) cid q =
    let ih = assigned_iff ids p cid q in
    elim (owner_case ids p cid) [
      | mine owns e ↦
          rw (e, contains_snoc (lookup_or [] cid (assignments_upto ids p)) p q)
            (elim (Bool-cases (contains q (lookup_or [] cid (assignments_upto ids p)))) [
              | inl held ↦ rw held (λ _. (omega (arith, (ih.0 held).0), (ih.0 held).1), λ _. refl)
              | inr lacks ↦ rw lacks (
                λ same.
                    let at_q : p ≡ q = (nat_beq_iff p q).0 same in (omega arith, rw at_q at owns),
                λ (lower, owned). elim (Bool-cases (p == q)) [
                  | inl same ↦ same
                  | inr apart ↦
                      let below : q < p = ground arith in let held = ih.1 (below, owned) in cc
                ],
              )
            ])
      | other loses e ↦ rw e (
        λ h. (omega (arith, (ih.0 h).0), (ih.0 h).1),
        λ (lower, owned). elim (Bool-cases (p == q)) [
          | inl same ↦ let at_q : p ≡ q = (nat_beq_iff p q).0 same in absurd (loses (rw at_q owned))
          | inr apart ↦ let below : q < p = ground arith in ih.1 (below, owned)
        ],
      )
    ]

lookup-hand_out :
    (m : Map Bytes (List ℕ)) (bs : Map Bytes Consumer) (cid : Bytes) (c : Consumer)
    → lookup cid bs ≡ some c
    → lookup cid (hand_out m bs) ≡ some (assign c (lookup_or [] cid m))
unfolding hand_out lookup
lookup-hand_out m [] cid c h = cc
lookup-hand_out m (b ∷ bs) cid c h = elim (Bool-cases (b.0 == cid)) [
  | inl same ↦
      let e : b.0 ≡ cid = (bytes_beq_iff b.0 cid).0 same in
      let f : b.1 ≡ c = let g : some b.1 ≡ some c = rw same at h in cc in rw (same, f, e)
  | inr apart ↦ rw apart (lookup-hand_out m bs cid c (rw apart at h))
]

lookup-ids_of :
    (bs : Map Bytes Consumer) (cid : Bytes)
    → contains cid (ids_of bs) ≡ true
    → (c : Consumer) × (lookup cid bs ≡ some c)
unfolding ids_of lookup
lookup-ids_of [] cid h = cc
lookup-ids_of (b ∷ bs) cid h = elim (Bool-cases (b.0 == cid)) [
  | inl same ↦ (b.1, rw same)
  | inr apart ↦ let (c, f) = lookup-ids_of bs cid (rw apart at h) in (c, rw apart f)
]

contains-get_elem? :
    (xs : List Bytes) (i : ℕ) (x : Bytes) → get_elem? xs i ≡ some x → contains x xs ≡ true
contains-get_elem? [] i x h = cc
contains-get_elem? (y ∷ ys) zero x h = let e : y ≡ x = cc in rw (e, beq_refl x)
contains-get_elem? (y ∷ ys) (suc i) x h = elim (Bool-cases (y == x)) [
  | inl same ↦ rw same
  | inr apart ↦ rw (apart, contains-get_elem? ys i x h)
]

length-ids_of : (bs : Map Bytes Consumer) → length (ids_of bs) ≡ length bs
unfolding ids_of
length-ids_of [] = refl
length-ids_of (b ∷ bs) = ap suc (length-ids_of bs)

-- The consumer holds the partition in the group.
abbrev pub Holds : Group → Bytes → ℕ → Type 0
Holds g cid p =
    (c : Consumer) × (lookup cid g.consumers ≡ some c) × (contains p c.assignments ≡ true)

module _ (sort_strings : List Bytes → List Bytes) where
  -- After a rebalance, a consumer of the group holds a partition exactly when the partition is below
  -- the count and the sorted ids give it to that consumer: no partition has two owners.
  pub rebalance-owner :
      (now : ℕ) (g : Group) (cid : Bytes) (c : Consumer) (p : ℕ)
      → lookup cid g.consumers ≡ some c
      → Holds (rebalance sort_strings now g) cid p
        ↔ ((p < g.part_count) × (owner (sort_strings (ids_of g.consumers)) p ≡ some cid))
  unfolding rebalance
  rebalance-owner now g cid c p h =
      let ids = sort_strings (ids_of g.consumers) in
      let f = lookup-hand_out (assignments_upto ids g.part_count) g.consumers cid c h in
      let both = assigned_iff ids g.part_count cid p in
      (
        λ (d, found, held).
            let e : assign c (lookup_or [] cid (assignments_upto ids g.part_count)) ≡ d = cc in
            let listed = ap (λ (x : Consumer). contains p x.assignments) e in
            both.0 (unfold assign in (listed ∙ held)),
        λ owned. (
          assign c (lookup_or [] cid (assignments_upto ids g.part_count)),
          f,
          unfold assign in both.1 owned,
        ),
      )

  -- After a rebalance of a group with a consumer, every partition below the count has an owner, as long
  -- as sorting keeps the number of strings and adds none.
  pub rebalance_covers :
      ((xs : List Bytes) → length (sort_strings xs) ≡ length xs)
      → ((xs : List Bytes) (x : Bytes) → contains x (sort_strings xs) ≡ contains x xs)
      → (now : ℕ) (g : Group) (p : ℕ) → 0 < length g.consumers
      → p < g.part_count
      → (cid : Bytes) × Holds (rebalance sort_strings now g) cid p
  rebalance_covers same_length same_members now g p some_consumer below =
      let ids = sort_strings (ids_of g.consumers) in
      let n : length ids ≡ length g.consumers =
        same_length (ids_of g.consumers) ∙ length-ids_of g.consumers in
      let (cid, e) = get_elem?_in_range ids (p % length ids) (mod-lt p (omega arith)) in
      let member =
        sym (same_members (ids_of g.consumers) cid)
        ∙ contains-get_elem? ids (p % length ids) cid e in
      let (c, found) = lookup-ids_of g.consumers cid member in
      (cid, (rebalance-owner now g cid c p found).1 (below, unfold owner in e))
