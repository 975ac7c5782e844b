-- ===== src/Raft/Advance.antt =====
-- advanceCommitIndexLocked: the leader commits the greatest index past the commit index whose entry
-- is of the current term and stands on a majority, and commits nothing if there is none.
use pubsub_broker.Base.{
  List, [], ◌∷◌, ℕ, zero, suc, ◌-◌, ◌≤◌, ◌<◌, ◌≡◌, ◌≢◌, ◌⊎◌, refl, ap, ◌∙◌, true, false, some,
  arith, inl, inr, leb, ◌==◌, nat_comparable, length, get_elem?, Bool-cases, get_elem?_in_range,
  nat_beq_iff,
}
use pubsub_broker.Raft.State.{LogEntry, Node, is_leader}
use pubsub_broker.Raft.Commit.{
  quorum, replicated, advance_loop, advance_commit_index, apply_committed,
}
use pubsub_broker.Raft.Applying.{HasApplied, apply_committed-HasApplied}

-- The entry at the 1-based index `suc j` can be committed by a leader.
pub record IsCommittable (n : Node) (j : ℕ) : Type 0 where
  pub entry : LogEntry
  pub found : get_elem? n.state.log j ≡ some entry
  pub current : entry.term ≡ n.state.current_term
  pub majority : quorum n ≤ replicated n (suc j)

abbrev pub NoneBetween : Node → ℕ → ℕ → Type 0
NoneBetween n low high = (j : ℕ) → low ≤ j → j < high → ¬ (IsCommittable n j)

-- The commit index moved to `suc j`, and the entries up to it were applied.
pub record HasAdvanced (n n' : Node) (j : ℕ) : Type 0 where
  pub beyond : n.commit_index ≤ j
  pub committable : IsCommittable n j
  pub commits : n'.commit_index ≡ suc j
  pub applied : HasApplied (suc j - n.last_applied) (record n { commit_index = suc j }) n'

abbrev pub Advances : Node → Node → ℕ → Type 0
Advances n n' high =
    ((n' ≡ n) × NoneBetween n n.commit_index high)
    ⊎ ((j : ℕ) × HasAdvanced n n' j × NoneBetween n (suc j) high)

none_more :
    (n : Node) (low k : ℕ) → NoneBetween n low k → ¬ (IsCommittable n k) → NoneBetween n low (suc k)
none_more n low k h d j a b = elim (Bool-cases (j == k)) [
  | inl last ↦ let e : j ≡ k = ground arith in rw e d
  | inr before ↦ h j a (ground arith)
]

widen : (n n' : Node) (k : ℕ) → ¬ (IsCommittable n k) → Advances n n' k → Advances n n' (suc k)
widen n n' k d (inl (e, h)) = inl (e, none_more n n.commit_index k h d)
widen n n' k d (inr (j, a, h)) = inr (j, a, none_more n (suc j) k h d)

within_log : (n : Node) (j : ℕ) → IsCommittable n j → suc j ≤ length n.state.log
within_log n j c = in_range n.state.log j c.found
  where
    in_range :
        (log : List LogEntry) (i : ℕ) {e : LogEntry} → get_elem? log i ≡ some e → i < length log
    in_range [] i g = cc
    in_range (x ∷ xs) zero g = omega arith
    in_range (x ∷ xs) (suc i) g = omega (arith, in_range xs i g)

commit_here :
    (n : Node) (k : ℕ)
    → IsCommittable n k
    → n.commit_index ≤ k
    → (n' : Node) × (apply_committed (record n { commit_index = suc k }) ≡ some n')
      × Advances n n' (suc k)
commit_here n k c h =
    let (n', eq, a) =
      apply_committed-HasApplied (record n { commit_index = suc k }) (within_log n k c) in
    (
      n',
      eq,
      inr (
        k,
        record { beyond = h; committable = c; commits = a.same.commit_index; applied = a },
        λ j p q. absurd (omega arith),
      ),
    )

other_term :
    {n : Node} {k : ℕ} {e : LogEntry}
    → IsCommittable n k
    → get_elem? n.state.log k ≡ some e
    → e.term ≢ n.state.current_term
    → ⊥
other_term {e = e} c g d = d (ap (λ (x : LogEntry). x.term) same ∙ c.current)
  where
    same : e ≡ c.entry
    same = cc (c.found)

advance_loop-Advances :
    (k : ℕ) (n : Node)
    → k ≤ length n.state.log
    → (n' : Node) × (advance_loop k n ≡ some n') × Advances n n' k
unfolding advance_loop
advance_loop-Advances zero n h = (n, refl, inl (refl, λ j p q. absurd (omega arith)))
advance_loop-Advances (suc k) n h = elim (Bool-cases (leb (suc k) n.commit_index)) [
  | inl reached ↦ (n, rw reached, inl (refl, λ j p q. absurd (ground arith)))
  | inr beyond ↦
      round beyond (get_elem?_in_range n.state.log k h) (advance_loop-Advances k n (omega arith))
]
  where
    round :
        leb (suc k) n.commit_index ≡ false
        → (e : LogEntry) × (get_elem? n.state.log k ≡ some e)
        → (n' : Node) × (advance_loop k n ≡ some n') × Advances n n' k
        → (n' : Node) × (advance_loop (suc k) n ≡ some n') × Advances n n' (suc k)
    round beyond (e, g) (n', eq, a) = elim (Bool-cases (e.term == n.state.current_term)) [
      | inr other ↦ (
        n',
        rw (beyond, g, other) eq,
        widen n n' k
            (λ c. other_term c g (ground (arith, other, nat_beq_iff e.term n.state.current_term)))
            a,
      )
      | inl same ↦ elim (Bool-cases (leb (quorum n) (replicated n (suc k)))) [
        | inr few ↦ (
          n',
          rw (beyond, g, same, few) eq,
          widen n n' k (λ c. absurd (ground (arith, c.majority))) a,
        )
        | inl many ↦
            let (m, run, adv) =
              commit_here n k
                (record {
                  entry = e;
                  found = g;
                  current = (nat_beq_iff e.term n.state.current_term).0 same;
                  majority = ground arith;
                })
                (ground arith) in
            (m, rw (beyond, g, same, many) run, adv)
      ]
    ]

-- A leader commits the greatest index past its commit index that can be committed, or, if there is
-- none up to the end of its log, nothing; the call never reads out of range.
pub advance_commit_index-Advances :
    (n : Node)
    → is_leader n.role ≡ true
    → (n' : Node) × (advance_commit_index n ≡ some n') × Advances n n' (length n.state.log)
unfolding advance_commit_index
advance_commit_index-Advances n leads =
    rw leads (advance_loop-Advances (length n.state.log) n (omega arith))

-- Any other node commits nothing.
pub advance_commit_index_follower :
    (n : Node) → is_leader n.role ≡ false → advance_commit_index n ≡ some n
unfolding advance_commit_index
advance_commit_index_follower n follows = rw follows

pub advance_commit_index_total : (n : Node) → (n' : Node) × (advance_commit_index n ≡ some n')
advance_commit_index_total n = elim (Bool-cases (is_leader n.role)) [
  | inl leads ↦ let (n', eq, _) = advance_commit_index-Advances n leads in (n', eq)
  | inr follows ↦ (n, advance_commit_index_follower n follows)
]
