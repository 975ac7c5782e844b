-- ===== src/Raft/Following.antt =====
-- handleAppendEntries in one statement: what it leaves and what it answers, on every branch.
use pubsub_broker.Base.{
  ◌≤◌, ◌<◌, ◌≡◌, ◌⊎◌, refl, true, false, some, arith, inl, inr, ltb, Bool-cases, String,
}
use pubsub_broker.Raft.State.{Node, Outcome, AppendEntriesArgs, append_response}
use pubsub_broker.Raft.Log.{AppendResult, send_to, persist}
use pubsub_broker.Raft.Election.{adopt_term}
use pubsub_broker.Raft.Replication.{
  follow_later, follow_commit, append_reply, stale_reply, handle_append_entries,
}
use pubsub_broker.Raft.Append.{append_total, AppendOutcome}
use pubsub_broker.Raft.Totality.{follow_commit_total}

-- The node once it has taken over the term and follows the sender.
abbrev pub adopted : Node → AppendEntriesArgs → Node
adopted n args = adopt_term (follow_later n args) args.term args.leader_id true

pub record IsStale (n : Node) (args : AppendEntriesArgs) (o : Outcome) : Type 0 where
  pub earlier : args.term < n.state.current_term
  pub node : o.node ≡ n
  pub sent :
      o.sent
      ≡ send_to n args.leader_id (append_response n.self_id (stale_reply n.state.current_term))
  pub reset : o.reset ≡ false

pub record IsFollowed (n : Node) (args : AppendEntriesArgs) (o : Outcome) : Type 0 where
  pub reached : n.state.current_term ≤ args.term
  pub result : AppendResult
  pub outcome :
      AppendOutcome (adopted n args) args.prev_log_index args.prev_log_term args.entries result
  pub committed : follow_commit result args.leader_commit ≡ some (o.node)
  pub sent :
      o.sent
      ≡ send_to
          (o.node)
          args.leader_id
          (append_response (o.node.self_id) (append_reply args.term result))
  pub reset : o.reset ≡ true

follow_later_stale :
    (n : Node) (args : AppendEntriesArgs)
    → args.term < n.state.current_term
    → follow_later n args ≡ n
unfolding follow_later
follow_later_stale n args h = ground arith

follow_later_reached :
    (n : Node) (args : AppendEntriesArgs)
    → n.state.current_term ≤ args.term
    → (follow_later n args).state.current_term ≡ args.term
unfolding follow_later adopt_term persist
follow_later_reached n args h = ground arith

-- For every message there is one outcome: a message of an earlier term changes nothing and is
-- answered with the node's term; any other is followed.
pub handle_append_entries_cases :
    (n : Node) (from : String) (args : AppendEntriesArgs)
    → (o : Outcome) × (handle_append_entries n from args ≡ some o)
      × (IsStale n args o ⊎ IsFollowed n args o)
handle_append_entries_cases n from args = elim (Bool-cases (ltb args.term n.state.current_term)) [
  | inl stale ↦ stale_case (ground arith)
  | inr current ↦ current_case (ground arith)
]
  where
    stale_case :
        args.term < n.state.current_term
        → (o : Outcome) × (handle_append_entries n from args ≡ some o)
          × (IsStale n args o ⊎ IsFollowed n args o)
    stale_case h =
        let t : ltb args.term n.state.current_term ≡ true = ground arith in
        let o : Outcome = record {
          node = n;
          sent =
              send_to n args.leader_id
                (append_response n.self_id (stale_reply n.state.current_term));
          reset = false;
        } in
        (
          o,
          unfold handle_append_entries in rw (follow_later_stale n args h, t),
          inl (record { earlier = h; node = refl; sent = refl; reset = refl }),
        )

    current_case :
        n.state.current_term ≤ args.term
        → (o : Outcome) × (handle_append_entries n from args ≡ some o)
          × (IsStale n args o ⊎ IsFollowed n args o)
    current_case h =
        let e = follow_later_reached n args h in
        let t : ltb args.term (follow_later n args).state.current_term ≡ false =
          rw e (ground arith) in
        let (r, eq, outcome) =
          append_total (adopted n args) args.prev_log_index args.prev_log_term args.entries in
        let (n', eq') = follow_commit_total r args.leader_commit in
        let o : Outcome = record {
          node = n';
          sent = send_to n' args.leader_id (append_response n'.self_id (append_reply args.term r));
          reset = true;
        } in
        (
          o,
          unfold handle_append_entries in rw (t, eq, eq', e),
          inr (record {
            reached = h;
            result = r;
            outcome = outcome;
            committed = eq';
            sent = refl;
            reset = refl;
          }),
        )
