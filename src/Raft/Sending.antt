-- ===== src/Raft/Sending.antt =====
-- internal/cluster/raft/replication.go: sendAppendEntriesToAll.
use pubsub_broker.Base.{
  ℕ, ◌+◌, ◌-◌, none, some, List, [], ◌∷◌, ◌++◌, String, if◌then◌else◌, ltb, leb, ◌&&◌,
  string_comparable, length, get_elem?, drop,
}
use pubsub_broker.Base.Words.{pred_u64}
use pubsub_broker.Base.Maps.{lookup_or, insert}
use pubsub_broker.Raft.State.{LogEntry, Node, Message, append_entries, AppendEntriesArgs, is_leader}
use pubsub_broker.Raft.Log.{send_to}

-- The term at the 1-based index `idx`, if `idx > 0 && idx <= logLen`, and 0 otherwise.
unfoldable pub term_at : List LogEntry → ℕ → ℕ
term_at log idx =
    if ltb 0 idx && leb idx (length log)
    then elim (get_elem? log (idx - 1)) [ none ↦ 0 | some e ↦ e.term ]
    else 0

-- nextIndex[peer], brought down to the end of the log.
unfoldable pub next_for : Node → String → ℕ
next_for n peer =
    let next = lookup_or 0 peer n.next_index in
    if ltb (length n.state.log) next then length n.state.log + 1 else next

unfoldable pub append_args : Node → ℕ → AppendEntriesArgs
append_args n next = record {
  term = n.state.current_term;
  leader_id = n.self_id;
  prev_log_index = pred_u64 next;
  prev_log_term = term_at n.state.log (pred_u64 next);
  entries =
      (if leb next (length n.state.log) && leb 1 next then drop (next - 1) n.state.log else []);
  leader_commit = n.commit_index;
}

-- The body of the loop for one peer: the next index is written back if it was past the log.
unfoldable pub clamp_next : Node → String → Node
clamp_next n peer =
    if ltb (length n.state.log) (lookup_or 0 peer n.next_index)
    then record n { next_index = insert peer (next_for n peer) n.next_index }
    else n

unfoldable pub send_loop : Node → List String → Node × List (String × Message)
send_loop n [] = (n, [])
send_loop n (peer ∷ peers) =
    let (n', sent) = send_loop (clamp_next n peer) peers in
    (n', send_to n peer (append_entries n.self_id (append_args n (next_for n peer))) ++ sent)

unfoldable pub send_append_entries_to_all : Node → Node × List (String × Message)
send_append_entries_to_all n = if is_leader n.role then send_loop n n.peers else (n, [])
