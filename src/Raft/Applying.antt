-- ===== src/Raft/Applying.antt =====
-- The apply loop: it reads within the log, hands the committed entries to the state machine in
-- order, and leaves the rest of the node alone.
use pubsub_broker.Base.{
  ℕ, zero, suc, ◌+◌, ◌-◌, ◌≤◌, ◌≡◌, refl, sym, true, some, List, ◌++◌, map, arith, length,
  get_elem?, take, drop, get_elem?_in_range, drop_cons, Bool-cases, leb, inl, inr,
}
use mathlib.Core.List.{append_assoc, append-nil}
use pubsub_broker.Raft.State.{Command, LogEntry, Node}
use pubsub_broker.Raft.Commit.{apply_entry, apply_loop, apply_committed}

-- What applying leaves alone.
pub record SameButApplied (n n' : Node) : Type 0 where
  pub self_id : n'.self_id ≡ n.self_id
  pub peers : n'.peers ≡ n.peers
  pub store : n'.store ≡ n.store
  pub state : n'.state ≡ n.state
  pub role : n'.role ≡ n.role
  pub commit_index : n'.commit_index ≡ n.commit_index
  pub leader_id : n'.leader_id ≡ n.leader_id
  pub leader_known : n'.leader_known ≡ n.leader_known
  pub next_index : n'.next_index ≡ n.next_index
  pub match_index : n'.match_index ≡ n.match_index
  pub vote_granted : n'.vote_granted ≡ n.vote_granted
  pub has_apply : n'.has_apply ≡ n.has_apply

same_after_entry :
    (n : Node) (e : LogEntry) {n' : Node}
    → SameButApplied (apply_entry n e) n'
    → SameButApplied n n'
unfolding apply_entry
same_after_entry n e s = assumption s

abbrev pub commands : List LogEntry → List Command
commands = map (λ e. e.command)

-- What the loop does in `rounds` rounds.
pub record HasApplied (rounds : ℕ) (n n' : Node) : Type 0 where
  pub same : SameButApplied n n'
  pub last_applied : n'.last_applied ≡ n.last_applied + rounds
  pub applied :
      n.has_apply ≡ true
      → n'.applied ≡ n.applied ++ commands (take rounds (drop n.last_applied n.state.log))

pub apply_loop-HasApplied :
    (rounds : ℕ) (n : Node)
    → n.last_applied + rounds ≤ length n.state.log
    → (n' : Node) × (apply_loop rounds n ≡ some n') × HasApplied rounds n n'
unfolding apply_loop apply_entry
apply_loop-HasApplied zero n h = (
  n,
  refl,
  record {
    same = ground arith;
    last_applied = omega arith;
    applied = λ _. sym (append-nil n.applied);
  },
)
apply_loop-HasApplied (suc rounds) n h =
    round (get_elem?_in_range n.state.log n.last_applied (omega arith))
      (λ e. apply_loop-HasApplied rounds (apply_entry n e) (omega arith))
  where
    round :
        (e : LogEntry) × (get_elem? n.state.log n.last_applied ≡ some e)
        → ((e : LogEntry)
            → (n' : Node) × (apply_loop rounds (apply_entry n e) ≡ some n')
              × HasApplied rounds (apply_entry n e) n')
        → (n' : Node) × (apply_loop (suc rounds) n ≡ some n') × HasApplied (suc rounds) n n'
    round (e, g) ih =
        let (n', eq, a) = ih e in
        let p : n.last_applied + 1 - 1 ≡ n.last_applied = omega arith in
        (
          n',
          rw (p, g) eq,
          record {
            same = same_after_entry n e a.same;
            last_applied = omega (arith, a.last_applied);
            applied = λ live.
                let q : n.last_applied + 1 ≡ suc n.last_applied = omega arith in
                rw (drop_cons n.state.log n.last_applied g)
                  (rw (live, q, append_assoc) at (a.applied live));
          },
        )

none_left : (n : Node) → (n' : Node) × (apply_loop 0 n ≡ some n') × HasApplied 0 n n'
unfolding apply_loop apply_entry
none_left n = (
  n,
  refl,
  record {
    same = ground arith;
    last_applied = omega arith;
    applied = λ _. sym (append-nil n.applied);
  },
)

-- applyCommittedLocked, where the commit index lies within the log: the entries between the last
-- applied one and the commit index reach the state machine, in order and once each.
pub apply_committed-HasApplied :
    (n : Node)
    → n.commit_index ≤ length n.state.log
    → (n' : Node) × (apply_committed n ≡ some n')
      × HasApplied (n.commit_index - n.last_applied) n n'
unfolding apply_committed
apply_committed-HasApplied n h = elim (Bool-cases (leb n.commit_index n.last_applied)) [
  | inl done ↦ let p : n.commit_index - n.last_applied ≡ 0 = ground arith in rw p (none_left n)
  | inr more ↦ apply_loop-HasApplied (n.commit_index - n.last_applied) n (ground arith)
]
