-- ===== src/Raft/Append.antt =====
-- appendEntriesFromLeader on every branch: it never panics, refuses with the node unchanged, and
-- otherwise leaves the merged log.
use pubsub_broker.Base.{
  ℕ, zero, suc, ◌+◌, ◌-◌, ◌≤◌, ◌<◌, ◌≡◌, ◌≢◌, ◌⊎◌, refl, true, false, some, List, ◌++◌, arith, inl,
  inr, ltb, ◌==◌, nat_comparable, length, get_elem?, take, drop, Bool-cases, get_elem?_in_range,
  nat_beq_iff, ap, [], ◌∷◌, ◌∙◌, length-append, length-take, take-append-drop,
}
use pubsub_broker.Raft.State.{LogEntry, Node}
use pubsub_broker.Raft.Log.{
  conflict_start, store_entries, accept_entries, append_entries_from_leader, AppendResult, persist,
  with_log,
}
use pubsub_broker.Raft.Merge.{merge, terms, merge_idem, merge_known, store_entries-merge}

-- The start of a run of entries of term `ct` that ends before the index `k`.
pub record IsRunStart (log : List LogEntry) (ct k ci : ℕ) : Type 0 where
  pub below : ci ≤ k
  pub positive : 0 < k → 0 < ci
  pub run :
      (j : ℕ) → ci ≤ suc j → suc j < k → (e : LogEntry) × (get_elem? log j ≡ some e) × (e.term ≡ ct)
  pub first :
      (j : ℕ) → ci ≡ suc (suc j) → (e : LogEntry) × (get_elem? log j ≡ some e) × (e.term ≢ ct)

pub conflict_start-IsRunStart :
    (log : List LogEntry) (ct k : ℕ)
    → k ≤ length log
    → (ci : ℕ) × (conflict_start log ct k ≡ some ci) × IsRunStart log ct k ci
unfolding conflict_start
conflict_start-IsRunStart log ct zero h = (
  0,
  refl,
  record {
    below = omega arith;
    positive = λ p. p;
    run = λ j a b. absurd (omega arith);
    first = λ j e. absurd (omega arith);
  },
)
conflict_start-IsRunStart log ct (suc zero) h = (
  1,
  refl,
  record {
    below = omega arith;
    positive = λ p. p;
    run = λ j a b. absurd (omega arith);
    first = λ j e. absurd (omega arith);
  },
)
conflict_start-IsRunStart log ct (suc (suc k)) h =
    step (get_elem?_in_range log k (omega arith))
      (conflict_start-IsRunStart log ct (suc k) (omega arith))
  where
    step :
        (e : LogEntry) × (get_elem? log k ≡ some e)
        → (ci : ℕ) × (conflict_start log ct (suc k) ≡ some ci) × IsRunStart log ct (suc k) ci
        → (ci : ℕ) × (conflict_start log ct (suc (suc k)) ≡ some ci)
          × IsRunStart log ct (suc (suc k)) ci
    step (e, g) (ci, eq, s) = elim (Bool-cases (e.term == ct)) [
      | inl same ↦ (
        ci,
        rw (g, same, conflict_start) eq,
        record {
          below = omega (arith, s.below);
          positive = λ _. s.positive (omega arith);
          run = λ j a b. elim (Bool-cases (j == k)) [
            | inl last ↦ (e, rw ((nat_beq_iff j k).0 last) g, (nat_beq_iff e.term ct).0 same)
            | inr before ↦ s.run j a (ground arith)
          ];
          first = s.first;
        },
      )
      | inr other ↦ (
        suc (suc k),
        rw (g, other, conflict_start),
        record {
          below = omega arith;
          positive = λ _. omega arith;
          run = λ j a b. absurd (omega arith);
          first = λ j q. (e, rw (pred_eq j q) g, ground (arith, other, nat_beq_iff e.term ct));
        },
      )
    ]
      where
        pred_eq : (j : ℕ) → suc (suc k) ≡ suc (suc j) → j ≡ k
        pred_eq j q = omega arith

-- A message whose previous entry is missing or has another term is refused.
abbrev pub HasPrevious : List LogEntry → ℕ → ℕ → Type 0
HasPrevious log prev_index prev_term =
    (prev_index ≤ length log)
    × (0 < prev_index
        → (e : LogEntry) × (get_elem? log (prev_index - 1) ≡ some e) × (e.term ≡ prev_term))

pub accept_entries_lem :
    (n : Node) (prev_index : ℕ) (es : List LogEntry)
    → prev_index ≤ length n.state.log
    → accept_entries n prev_index es
      ≡ some (record {
        node =
            persist
              (with_log n (take prev_index n.state.log ++ merge (drop prev_index n.state.log) es));
        success = true;
        conflict_index = 0;
        conflict_term = 0;
      })
unfolding accept_entries
accept_entries_lem n prev_index es h =
    let p : prev_index + 1 ≡ suc prev_index = omega arith in
    rw (p, store_entries-merge n.state.log prev_index es h)

-- With the previous entry in place the message is accepted, and the log is the merge.
pub append_accepts :
    (n : Node) (prev_index prev_term : ℕ) (es : List LogEntry)
    → HasPrevious n.state.log prev_index prev_term
    → append_entries_from_leader n prev_index prev_term es
      ≡ some (record {
        node =
            persist
              (with_log n (take prev_index n.state.log ++ merge (drop prev_index n.state.log) es));
        success = true;
        conflict_index = 0;
        conflict_term = 0;
      })
unfolding append_entries_from_leader
append_accepts n prev_index prev_term es h = elim (Bool-cases (ltb 0 prev_index)) [
  | inr zero_index ↦
      let p : ltb (length n.state.log) prev_index ≡ false = ground arith in
      rw (p, zero_index) (accept_entries_lem n prev_index es h.0)
  | inl positive ↦
      let (e, g, t) = h.1 (ground arith) in
      let p : ltb (length n.state.log) prev_index ≡ false = ground arith in
      let q : (e.term == prev_term) ≡ true = ground arith in
      rw (p, positive, g, q) (accept_entries_lem n prev_index es h.0)
]

-- A log that is too short is refused, with the index behind its end.
pub append_refuses_short :
    (n : Node) (prev_index prev_term : ℕ) (es : List LogEntry)
    → length n.state.log < prev_index
    → append_entries_from_leader n prev_index prev_term es
      ≡ some (record {
        node = n;
        success = false;
        conflict_index = length n.state.log + 1;
        conflict_term = 0;
      })
unfolding append_entries_from_leader
append_refuses_short n prev_index prev_term es h = ground arith

-- A previous entry of another term is refused, with that term and the start of its run.
pub append_refuses_conflict :
    (n : Node) (prev_index prev_term : ℕ) (es : List LogEntry) (e : LogEntry)
    → 0 < prev_index
    → prev_index ≤ length n.state.log
    → get_elem? n.state.log (prev_index - 1) ≡ some e
    → e.term ≢ prev_term
    → (ci : ℕ) × (append_entries_from_leader n prev_index prev_term es
        ≡ some (record { node = n; success = false; conflict_index = ci; conflict_term = e.term }))
      × IsRunStart n.state.log e.term prev_index ci
unfolding append_entries_from_leader
append_refuses_conflict n prev_index prev_term es e pos h g d =
    let (ci, eq, run) = conflict_start-IsRunStart n.state.log e.term prev_index h in
    let p : ltb (length n.state.log) prev_index ≡ false = ground arith in
    let q : ltb 0 prev_index ≡ true = ground arith in
    let r : (e.term == prev_term) ≡ false = ground arith in (ci, rw (p, q, g, r, eq), run)

abbrev pub merged : Node → ℕ → List LogEntry → List LogEntry
merged n prev_index es = take prev_index n.state.log ++ merge (drop prev_index n.state.log) es

-- Either the previous entry is in place and the merge was stored, or the node is as it was.
abbrev pub AppendOutcome : Node → ℕ → ℕ → List LogEntry → AppendResult → Type 0
AppendOutcome n prev_index prev_term es r =
    (HasPrevious n.state.log prev_index prev_term
      × (r.success ≡ true)
      × (r.node ≡ persist (with_log n (merged n prev_index es))))
    ⊎ ((¬ (HasPrevious n.state.log prev_index prev_term)) × (r.success ≡ false) × (r.node ≡ n))

accepted_outcome :
    (n : Node) (prev_index prev_term : ℕ) (es : List LogEntry)
    → HasPrevious n.state.log prev_index prev_term
    → (r : AppendResult) × (append_entries_from_leader n prev_index prev_term es ≡ some r)
      × AppendOutcome n prev_index prev_term es r
accepted_outcome n prev_index prev_term es h =
    (_, append_accepts n prev_index prev_term es h, inl (h, refl, refl))

conflict_outcome :
    (n : Node) (prev_index prev_term : ℕ) (es : List LogEntry) (e : LogEntry)
    → 0 < prev_index
    → prev_index ≤ length n.state.log
    → get_elem? n.state.log (prev_index - 1) ≡ some e
    → e.term ≢ prev_term
    → (r : AppendResult) × (append_entries_from_leader n prev_index prev_term es ≡ some r)
      × AppendOutcome n prev_index prev_term es r
conflict_outcome n prev_index prev_term es e pos h g d =
    let (ci, eq, run) = append_refuses_conflict n prev_index prev_term es e pos h g d in
    (_, eq, inr (λ p. absent (p.1 pos), refl, refl))
  where
    absent :
        (x : LogEntry) × (get_elem? n.state.log (prev_index - 1) ≡ some x) × (x.term ≡ prev_term)
        → ⊥
    absent (x, f, t) = let same : e ≡ x = cc f in d (rw same t)

-- Whatever the message, there is no read out of range, and the outcome is one of the two.
pub append_total :
    (n : Node) (prev_index prev_term : ℕ) (es : List LogEntry)
    → (r : AppendResult) × (append_entries_from_leader n prev_index prev_term es ≡ some r)
      × AppendOutcome n prev_index prev_term es r
append_total n prev_index prev_term es = elim (Bool-cases (ltb (length n.state.log) prev_index)) [
  | inl short ↦ (
    _,
    append_refuses_short n prev_index prev_term es (ground arith),
    inr (λ p. absurd (ground (arith, p.0)), refl, refl),
  )
  | inr fits ↦ elim (Bool-cases (ltb 0 prev_index)) [
    | inr zero_index ↦
        accepted_outcome n prev_index prev_term es (ground arith, λ p. absurd (ground arith))
    | inl positive ↦
        compare_term (ground arith) (ground arith)
          (get_elem?_in_range n.state.log (prev_index - 1) (ground arith))
  ]
]
  where
    compare_term :
        0 < prev_index
        → prev_index ≤ length n.state.log
        → (e : LogEntry) × (get_elem? n.state.log (prev_index - 1) ≡ some e)
        → (r : AppendResult) × (append_entries_from_leader n prev_index prev_term es ≡ some r)
          × AppendOutcome n prev_index prev_term es r
    compare_term pos h (e, g) = elim (Bool-cases (e.term == prev_term)) [
      | inl same ↦
          accepted_outcome n prev_index prev_term es
            (h, λ p. (e, g, (nat_beq_iff e.term prev_term).0 same))
      | inr other ↦
          conflict_outcome n prev_index prev_term es e pos h g
            (ground (arith, other, nat_beq_iff e.term prev_term))
    ]

take_merged :
    (log es : List LogEntry) (k : ℕ)
    → k ≤ length log
    → (take k (take k log ++ es) ≡ take k log) × (drop k (take k log ++ es) ≡ es)
take_merged log es zero h = (refl, refl)
take_merged [] es (suc k) h = absurd (omega arith)
take_merged (x ∷ xs) es (suc k) h =
    let (t, d) = take_merged xs es k (omega arith) in (ap (λ ys. x ∷ ys) t, d)

-- A second copy of the entries leaves the log as the first one left it, and entries whose terms the
-- log already holds, as those of an old message that arrives late, neither change nor cut it.
pub store_entries_again :
    (log : List LogEntry) (k : ℕ) (es : List LogEntry)
    → k ≤ length log
    → ((log' : List LogEntry) × (store_entries log (suc k) es ≡ some log')
        × (store_entries log' (suc k) es ≡ some log'))
      × (terms (take (length es) (drop k log)) ≡ terms es → store_entries log (suc k) es ≡ some log)
store_entries_again log k es h =
    let rest = merge (drop k log) es in
    let (t, d) = take_merged log rest k h in
    let size : k ≤ length (take k log ++ rest) = rw (length-append, length-take) (omega arith) in
    (
      (
        take k log ++ rest,
        store_entries-merge log k es h,
        store_entries-merge (take k log ++ rest) k es size ∙ rw (t, d, merge_idem (drop k log) es),
      ),
      λ known.
          store_entries-merge log k es h
          ∙ rw (merge_known (drop k log) es known, take-append-drop k log),
    )
