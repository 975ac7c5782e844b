-- ===== src/Raft/Totality.antt =====
-- No handler reads the log out of range, whatever the node's state and the message.
use pubsub_broker.Base.{
  ℕ, zero, suc, ◌+◌, ◌≤◌, ◌≡◌, refl, true, some, List, arith, inl, inr, ltb, ◌&&◌, ◌==◌,
  nat_comparable, length, Bool-cases, get_elem?_in_range, if◌then◌else◌, String,
}
use pubsub_broker.Raft.State.{
  Command, LogEntry, Node, Outcome, Message, request_vote, vote_response, append_entries,
  append_response, unreadable, AppendEntriesArgs, AppendEntriesReply, is_leader,
}
use pubsub_broker.Raft.Log.{AppendResult}
use pubsub_broker.Raft.Sending.{send_append_entries_to_all}
use pubsub_broker.Raft.Election.{adopt_term}
use pubsub_broker.Raft.Replication.{
  follow_later, follow_commit, handle_append_entries, next_after_term, back_off, record_match,
  handle_append_response,
}
use pubsub_broker.Raft.Node.{dispatch_msg, receive, Proposed, propose, append_proposal}
use pubsub_broker.Raft.Append.{append_total}
use pubsub_broker.Raft.Applying.{apply_committed-HasApplied}
use pubsub_broker.Raft.Advance.{advance_commit_index_total}

-- The commit index that a follower takes over.
abbrev pub capped : Node → ℕ → ℕ
capped n leader_commit =
    if ltb (length n.state.log) leader_commit then length n.state.log else leader_commit

pub capped_le : (n : Node) (leader_commit : ℕ) → capped n leader_commit ≤ length n.state.log
capped_le n leader_commit = ground arith

pub follow_commit_total :
    (r : AppendResult) (leader_commit : ℕ) → (n' : Node) × (follow_commit r leader_commit ≡ some n')
unfolding follow_commit
follow_commit_total r leader_commit =
    elim (Bool-cases (r.success && ltb r.node.commit_index leader_commit)) [
      | inl follows ↦
          let (n', eq, _) =
            apply_committed-HasApplied
              (record (r.node) { commit_index = capped (r.node) leader_commit })
              (capped_le (r.node) leader_commit) in
          (n', rw follows eq)
      | inr stays ↦ (r.node, rw stays)
    ]

pub handle_append_entries_total :
    (n : Node) (from : String) (args : AppendEntriesArgs)
    → (o : Outcome) × (handle_append_entries n from args ≡ some o)
unfolding handle_append_entries
handle_append_entries_total n from args =
    let n' = follow_later n args in
    elim (Bool-cases (ltb args.term n'.state.current_term)) [
      | inl stale ↦ rw stale (_, refl)
      | inr current ↦
          let (r, eq, _) =
            append_total (adopt_term n' args.term args.leader_id true) args.prev_log_index
              args.prev_log_term args.entries in
          let (n'', eq') = follow_commit_total r args.leader_commit in
          rw (current, eq, eq') (_, refl)
    ]

pub next_after_term_total :
    (log : List LogEntry) (term next k : ℕ)
    → k ≤ length log
    → (m : ℕ) × (next_after_term log term next k ≡ some m)
unfolding next_after_term
next_after_term_total log term next zero h = (next, refl)
next_after_term_total log term next (suc k) h =
    let (e, g) = get_elem?_in_range log k h in
    let (m, eq) = next_after_term_total log term next k (omega arith) in
    elim (Bool-cases (e.term == term)) [
      | inl same ↦ (suc k + 1, rw (g, same))
      | inr other ↦ (m, rw (g, other) eq)
    ]

-- A refusal moves the leader to an index of at least 1.
pub back_off_total :
    (log : List LogEntry) (reply : AppendEntriesReply)
    → (next : ℕ) × (back_off log reply ≡ some next) × (1 ≤ next)
unfolding back_off
back_off_total log reply = elim (Bool-cases (ltb 0 reply.conflict_term)) [
  | inl search_log ↦
      let (m, eq) =
        next_after_term_total log reply.conflict_term reply.conflict_index (length log)
          (omega arith) in
      (if ltb m 1 then 1 else m, rw (search_log, eq), ground arith)
  | inr plain ↦
      (if ltb reply.conflict_index 1 then 1 else reply.conflict_index, rw plain, ground arith)
]

pub handle_append_response_total :
    (n : Node) (from : String) (reply : AppendEntriesReply)
    → (o : Outcome) × (handle_append_response n from reply ≡ some o)
unfolding handle_append_response
handle_append_response_total n from reply =
    elim (Bool-cases (ltb n.state.current_term reply.term)) [
      | inl later ↦ rw later (_, refl)
      | inr known ↦ elim (Bool-cases (is_leader n.role)) [
        | inr follows ↦ rw (known, follows) (_, refl)
        | inl leads ↦ elim (Bool-cases reply.success) [
          | inl yields ↦
              let (n', eq) = advance_commit_index_total (record_match n from reply.match_index) in
              rw (known, leads, eq, yields) (_, refl)
          | inr refuses ↦
              let (next, eq, _) = back_off_total n.state.log reply in
              rw (known, leads, eq, refuses) (_, refl)
        ]
      ]
    ]

dispatch_msg_total : (n : Node) (msg : Message) → (o : Outcome) × (dispatch_msg n msg ≡ some o)
unfolding dispatch_msg
dispatch_msg_total n (request_vote from args) = (_, refl)
dispatch_msg_total n (vote_response from reply) = (_, refl)
dispatch_msg_total n (append_entries from args) = handle_append_entries_total n from args
dispatch_msg_total n (append_response from reply) = handle_append_response_total n from reply
dispatch_msg_total n unreadable = (_, refl)

-- One round of the event loop ends without a panic for every node and every message.
pub receive_total : (n : Node) (msg : Message) → (o : Outcome) × (receive n msg ≡ some o)
unfolding receive
receive_total n msg = let (o, eq) = dispatch_msg_total n msg in rw eq (_, refl)

-- So does every call of Propose.
pub propose_total : (n : Node) (cmd : Command) → (p : Proposed) × (propose n cmd ≡ some p)
unfolding propose
propose_total n cmd = elim (Bool-cases (is_leader n.role)) [
  | inl leads ↦
      let (n', eq) =
        advance_commit_index_total (send_append_entries_to_all (append_proposal n cmd)).0 in
      rw (leads, eq) (_, refl)
  | inr follows ↦ rw follows (_, refl)
]
