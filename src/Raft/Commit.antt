-- ===== src/Raft/Commit.antt =====
-- internal/cluster/raft/replication.go: applyCommittedLocked and advanceCommitIndexLocked.
use pubsub_broker.Base.{
  ℕ, zero, suc, ◌+◌, ◌-◌, ◌/◌, Bool, false, Option, some, List, [], ◌∷◌, ◌++◌, String, ◌>>=◌,
  if◌then◌else◌, leb, ◌==◌, nat_comparable, string_comparable, length, get_elem?, ◌||◌,
}
use pubsub_broker.Base.Maps.{Map, lookup_or}
use pubsub_broker.Raft.State.{LogEntry, Node, is_leader}

abbrev pub has_index : ℕ → List ℕ → Bool
has_index i [] = false
has_index i (j ∷ js) = j == i || has_index i js

abbrev pub remove_index : ℕ → List ℕ → List ℕ
remove_index i [] = []
remove_index i (j ∷ js) = if j == i then remove_index i js else j ∷ remove_index i js

-- One round of applyCommittedLocked: the entry is applied and a waiting Propose call is told.
unfoldable pub apply_entry : Node → LogEntry → Node
apply_entry n e =
    let last = n.last_applied + 1 in
    record n {
      last_applied = last;
      applied = (if n.has_apply then n.applied ++ e.command ∷ [] else n.applied);
      notified = (if has_index last n.proposals then n.notified ++ last ∷ [] else n.notified);
      proposals = remove_index last n.proposals;
    }

-- `for lastApplied < commitIndex`: the first argument counts the rounds left.
unfoldable pub apply_loop : ℕ → Node → Option Node
apply_loop zero n = some n
apply_loop (suc rounds) n = do
  e ← get_elem? n.state.log (n.last_applied + 1 - 1)
  apply_loop rounds (apply_entry n e)

unfoldable pub apply_committed : Node → Option Node
apply_committed n = apply_loop (n.commit_index - n.last_applied) n

unfoldable pub quorum : Node → ℕ
quorum n = (length n.peers + 1) / 2 + 1

-- The peers of the list whose match index has reached `idx`.
unfoldable pub count_matching : Map String ℕ → ℕ → List String → ℕ
count_matching match_index idx [] = 0
count_matching match_index idx (p ∷ ps) =
    let rest = count_matching match_index idx ps in
    if leb idx (lookup_or 0 p match_index) then suc rest else rest

-- `replicated`, which counts the leader itself.
unfoldable pub replicated : Node → ℕ → ℕ
replicated n idx = 1 + count_matching n.match_index idx n.peers

-- `for idx := len(Log); idx > commitIndex; idx--`
unfoldable pub advance_loop : ℕ → Node → Option Node
advance_loop zero n = some n
advance_loop (suc k) n =
    let rest = advance_loop k n in
    if leb (suc k) n.commit_index then some n else (do
      e ← get_elem? n.state.log k
      if e.term == n.state.current_term
          then if leb (quorum n) (replicated n (suc k))
            then apply_committed (record n { commit_index = suc k })
            else rest
          else rest)

unfoldable pub advance_commit_index : Node → Option Node
advance_commit_index n = if is_leader n.role then advance_loop (length n.state.log) n else some n
