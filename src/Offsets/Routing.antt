-- ===== src/Offsets/Routing.antt =====
-- What Assign promises: registered topics have a counter, partitions lie in range, and keyless
-- messages go round the partitions.
use pubsub_broker.Base.{
  ℕ, zero, suc, ◌+◌, ◌%◌, ◌<◌, ◌≤◌, ◌≡◌, refl, Bool, true, false, Option, some, List, [], ◌∷◌,
  arith, inl, inr, if◌then◌else◌, ltb, ◌==◌, Bool-cases, Option-cases, ap, ◌∙◌, ◌>>=◌,
}
use pubsub_broker.Base.Bytes.{Bytes, bytes_comparable, bytes_beq_iff}
use pubsub_broker.Base.Int.{ℤ, pos, negsuc}
use pubsub_broker.Base.Words.{u64}
use pubsub_broker.Base.Maps.{Map, lookup, insert, lookup-insert, lookup-erase, beq_refl}
use pubsub_broker.Offsets.Partitioner.{
  HashPartitioner, Assigned, partition, register, assign, ensure_counter, counter_partition,
  hash_partition,
}

-- A registered topic has a count above 0 and a counter.
abbrev pub IsConsistent : HashPartitioner → Type 0
IsConsistent p =
    (topic : Bytes) (count : ℕ)
    → lookup topic p.topics ≡ some count
    → (ctr : ℕ) × (0 < count) × (lookup topic p.rr_cur ≡ some ctr)

ensured :
    (topic : Bytes) (m : Map Bytes ℕ)
    → (ctr : ℕ) × (lookup topic (ensure_counter topic m) ≡ some ctr)
unfolding ensure_counter
ensured topic m = elim (Option-cases (lookup topic m)) [
  | inl missing ↦
      rw (missing, ensure_counter)
        (
          0,
          lookup-insert topic topic 0 m
              ∙ ap (λ (b : Bool). if b then some (let z : ℕ = 0 in z) else lookup topic m)
                  (beq_refl topic),
        )
  | inr (ctr, found) ↦ (ctr, rw (found, ensure_counter) found)
]

ensure_other :
    (topic t : Bytes) (m : Map Bytes ℕ)
    → (topic == t) ≡ false
    → lookup t (ensure_counter topic m) ≡ lookup t m
unfolding ensure_counter
ensure_other topic t m other = elim (Option-cases (lookup topic m)) [
  | inl missing ↦ rw (missing, ensure_counter) (rw (lookup-insert topic t 0 m, other))
  | inr (ctr, found) ↦ rw (found, ensure_counter)
]

-- Register keeps the partitioner consistent, for every count.
pub register-IsConsistent :
    (p : HashPartitioner) (topic : Bytes) (count : ℤ)
    → IsConsistent p
    → IsConsistent (register p topic count).0
unfolding register
register-IsConsistent p topic (negsuc n) h t count e = h t count e
register-IsConsistent p topic (pos zero) h t count e = elim (Bool-cases (topic == t)) [
  | inl same ↦ cc (rw (lookup-erase topic t p.topics, same) at e)
  | inr other ↦
      let f : lookup t p.topics ≡ some count = rw (lookup-erase topic t p.topics, other) at e in
      rw (lookup-erase topic t p.rr_cur, other) (h t count f)
]
register-IsConsistent p topic (pos (suc n)) h t count e = elim (Bool-cases (topic == t)) [
  | inl same ↦
      let f : some (suc n) ≡ some count = rw (lookup-insert topic t (suc n) p.topics, same) at e in
      let (ctr, found) = ensured topic p.rr_cur in
      let above : 0 < count = let g : suc n ≡ count = cc in rw (← g) (omega arith) in
      (ctr, above, rw (← (bytes_beq_iff topic t).0 same) found)
  | inr other ↦
      let f : lookup t p.topics ≡ some count =
        rw (lookup-insert topic t (suc n) p.topics, other) at e in
      let (ctr, above, g) = h t count f in (ctr, above, rw (ensure_other topic t p.rr_cur other) g)
]

counter_small :
    (ctr count : ℕ) → ctr < 9223372036854775808 → counter_partition ctr count ≡ pos (ctr % count)
unfolding counter_partition
counter_small ctr count h = let t : ltb ctr 9223372036854775808 ≡ true = ground arith in rw t

lookup_written :
    (topic : Bytes) (v w : ℕ) (m : Map Bytes ℕ) → w ≡ v → lookup topic (insert topic w m) ≡ some v
lookup_written topic v w m e = rw (lookup-insert topic topic w m, beq_refl topic) (ap some e)

bumped :
    (p : HashPartitioner) (topic : Bytes) (v : ℕ)
    → IsConsistent p
    → IsConsistent (record p { rr_cur = insert topic v p.rr_cur })
bumped p topic v h t count e =
    let (ctr, above, f) = h t count e in
    elim (Bool-cases (topic == t)) [
      | inl same ↦ (v, above, rw (lookup-insert topic t v p.rr_cur, same))
      | inr other ↦ (ctr, above, rw (lookup-insert topic t v p.rr_cur, other) f)
    ]

-- The partitions from `ctr` on, modulo the count.
unfoldable pub in_turn : ℕ → ℕ → ℕ → List Assigned
in_turn zero ctr count = []
in_turn (suc k) ctr count = partition (pos (ctr % count)) ∷ in_turn k (ctr + 1) count

module _ (fnv32a : Bytes → ℕ) where
  -- Assign of a keyless message on a registered topic.
  pub assign_keyless :
      (p : HashPartitioner) (topic : Bytes) (count ctr : ℕ)
      → lookup topic p.topics ≡ some count
      → lookup topic p.rr_cur ≡ some ctr
      → assign fnv32a p topic []
        ≡ some (
          record p { rr_cur = insert topic (u64 (ctr + 1)) p.rr_cur },
          partition (counter_partition ctr count),
        )
  unfolding assign
  assign_keyless p topic count ctr e f = rw (e, f, assign)

  -- Assign keeps the partitioner consistent, returns a partition of the topic, and never dereferences
  -- a missing counter, as long as the counter is not negative.
  pub assign_in_range :
      (p : HashPartitioner) (topic key : Bytes) (count : ℕ)
      → IsConsistent p
      → lookup topic p.topics ≡ some count
      → ((ctr : ℕ) → lookup topic p.rr_cur ≡ some ctr → ctr < 9223372036854775808)
      → (p' : HashPartitioner) × (q : ℕ) × (assign fnv32a p topic key
          ≡ some (p', partition (pos q)))
        × (q < count)
        × IsConsistent p'
  assign_in_range p topic [] count h e small =
      let (ctr, above, f) = h topic count e in
      let c : counter_partition ctr count ≡ pos (ctr % count) =
        counter_small ctr count (small ctr f) in
      (
        record p { rr_cur = insert topic (u64 (ctr + 1)) p.rr_cur },
        ctr % count,
        rw (← c) (assign_keyless p topic count ctr e f),
        grind arith,
        λ t n g. bumped p topic _ h t n g,
      )
  assign_in_range p topic (b ∷ bs) count h e small =
      let (_, above, _) = h topic count e in
      (
        p,
        hash_partition fnv32a (b ∷ bs) count,
        unfold assign in rw (e, assign),
        unfold hash_partition in grind arith,
        h,
      )

  -- The keyless messages of one topic, as many as the first argument says.
  unfoldable pub keyless_run : ℕ → HashPartitioner → Bytes → Option (List Assigned)
  keyless_run zero p topic = some []
  keyless_run (suc k) p topic = do
    (p', a) ← assign fnv32a p topic []
    rest ← keyless_run k p' topic
    some (a ∷ rest)

  -- Keyless messages take the partitions of a registered topic in turn, each one the next modulo the
  -- count, as long as the counter stays within an int64.
  pub keyless_round_robin :
      (k : ℕ) (p : HashPartitioner) (topic : Bytes) (count ctr : ℕ)
      → lookup topic p.topics ≡ some count
      → lookup topic p.rr_cur ≡ some ctr
      → ctr + k ≤ 9223372036854775808
      → keyless_run k p topic ≡ some (in_turn k ctr count)
  unfolding keyless_run in_turn
  keyless_round_robin zero p topic count ctr e f small = refl
  keyless_round_robin (suc k) p topic count ctr e f small =
      let bumped_ctr : lookup topic (insert topic (u64 (ctr + 1)) p.rr_cur) ≡ some (ctr + 1) =
        lookup_written topic (ctr + 1) (u64 (ctr + 1)) p.rr_cur (omega arith) in
      let ih =
        keyless_round_robin k (record p { rr_cur = insert topic (u64 (ctr + 1)) p.rr_cur }) topic
          count (ctr + 1) e bumped_ctr (omega arith) in
      rw (assign_keyless p topic count ctr e f, ih, counter_small ctr count (omega arith))
