-- ===== src/Raft/Replication.antt =====
-- internal/cluster/raft/replication.go: handleAppendEntries and handleAppendResponse.
use pubsub_broker.Base.{
  ℕ, zero, suc, ◌+◌, true, false, Option, some, List, [], String, ◌>>=◌, if◌then◌else◌, ltb, ◌&&◌,
  ◌==◌, nat_comparable, string_comparable, length, get_elem?,
}
use pubsub_broker.Base.Words.{u64}
use pubsub_broker.Base.Maps.{insert}
use pubsub_broker.Raft.State.{
  is_leader, LogEntry, Node, Outcome, append_response, AppendEntriesArgs, AppendEntriesReply,
}
use pubsub_broker.Raft.Log.{send_to, append_entries_from_leader, AppendResult}
use pubsub_broker.Raft.Commit.{apply_committed, advance_commit_index}
use pubsub_broker.Raft.Election.{adopt_term}

-- A message of a later term is taken over first, with its sender as the leader.
unfoldable pub follow_later : Node → AppendEntriesArgs → Node
follow_later n args =
    if ltb n.state.current_term args.term then adopt_term n args.term args.leader_id true else n

-- `success && LeaderCommit > commitIndex`: the commit index follows the leader's, up to the log's end.
unfoldable pub follow_commit : AppendResult → ℕ → Option Node
follow_commit r leader_commit =
    if r.success && ltb r.node.commit_index leader_commit
    then apply_committed (record (r.node) {
      commit_index =
          (if ltb (length r.node.state.log) leader_commit
            then length r.node.state.log
            else leader_commit);
    })
    else some (r.node)

unfoldable pub append_reply : ℕ → AppendResult → AppendEntriesReply
append_reply term r = record {
  term = term;
  success = r.success;
  match_index = (if r.success then length r.node.state.log else 0);
  conflict_index = (if r.success then 0 else r.conflict_index);
  conflict_term = (if r.success then 0 else r.conflict_term);
}

abbrev pub stale_reply : ℕ → AppendEntriesReply
stale_reply term = record {
  term = term;
  success = false;
  match_index = 0;
  conflict_index = 0;
  conflict_term = 0;
}

unfoldable pub handle_append_entries : Node → String → AppendEntriesArgs → Option Outcome
handle_append_entries n from args =
    let n' = follow_later n args in
    if ltb args.term n'.state.current_term
    then some (record {
      node = n';
      sent =
          send_to n' args.leader_id
            (append_response n'.self_id (stale_reply n'.state.current_term));
      reset = false;
    })
    else (do
      r ←
          append_entries_from_leader (adopt_term n' args.term args.leader_id true)
            args.prev_log_index args.prev_log_term args.entries
      n'' ← follow_commit r args.leader_commit
      some (record {
        node = n'';
        sent =
            send_to n'' args.leader_id
              (append_response n''.self_id (append_reply n'.state.current_term r));
        reset = true;
      }))

-- `for i := len(Log); i > 0; i--`: one past the last entry of the term, else `next`.
unfoldable pub next_after_term : List LogEntry → ℕ → ℕ → ℕ → Option ℕ
next_after_term log term next zero = some next
next_after_term log term next (suc k) =
    let rest = next_after_term log term next k in
    do e ← get_elem? log k; if e.term == term then some (suc k + 1) else rest

-- Where the leader goes on with a peer that refused.
unfoldable pub back_off : List LogEntry → AppendEntriesReply → Option ℕ
back_off log reply = do
  next ←
      (if ltb 0 reply.conflict_term
        then next_after_term log reply.conflict_term reply.conflict_index (length log)
        else some reply.conflict_index)
  some (if ltb next 1 then 1 else next)

-- The peer acknowledged: its indices move and the commit index may follow.
unfoldable pub record_match : Node → String → ℕ → Node
record_match n peer match = record n {
  match_index = insert peer match n.match_index;
  next_index = insert peer (u64 (match + 1)) n.next_index;
}

unfoldable pub handle_append_response : Node → String → AppendEntriesReply → Option Outcome
handle_append_response n from reply =
    if ltb n.state.current_term reply.term
    then some (record { node = adopt_term n reply.term "" false; sent = []; reset = true })
    else if is_leader n.role
    then if reply.success
      then (do
        n' ← advance_commit_index (record_match n from reply.match_index)
        some (record { node = n'; sent = []; reset = false }))
      else (do
        next ← back_off n.state.log reply
        some (record {
          node = record n { next_index = insert from next n.next_index };
          sent = [];
          reset = false;
        }))
    else some (record { node = n; sent = []; reset = false })
