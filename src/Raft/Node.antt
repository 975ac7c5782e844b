-- ===== src/Raft/Node.antt =====
-- internal/cluster/raft/node.go: start, proposals, dispatch and the event loop.
use pubsub_broker.Base.{
  ℕ, ◌+◌, Bool, false, Option, none, some, List, [], ◌∷◌, ◌++◌, String, ◌>>=◌, if◌then◌else◌, not,
  ◌&&◌, ◌==◌, nat_comparable, length,
}
use pubsub_broker.Base.Words.{u64}
use pubsub_broker.Raft.State.{
  follower, is_leader, Command, LogEntry, Node, Outcome, Store, zero_state, loaded, load_error,
  load, Message, request_vote, vote_response, append_entries, append_response, unreadable,
}
use pubsub_broker.Raft.Log.{persist, with_log}
use pubsub_broker.Raft.Commit.{advance_commit_index, has_index}
use pubsub_broker.Raft.Sending.{send_append_entries_to_all}
use pubsub_broker.Raft.Election.{become_leader, handle_request_vote, handle_vote_response}
use pubsub_broker.Raft.Replication.{handle_append_entries, handle_append_response}

-- NewNode
unfoldable pub new_node : String → List String → Store → Bool → Node
new_node self_id peers store has_apply = record {
  self_id = self_id;
  peers = peers;
  store = store;
  has_apply = has_apply;
  state = zero_state;
  role = follower;
  commit_index = 0;
  last_applied = 0;
  leader_id = "";
  leader_known = false;
  next_index = [];
  match_index = [];
  vote_granted = [];
  proposals = [];
  notified = [];
  rejected = [];
  applied = [];
  peer_addr_map = none;
}

-- The load of Start: an error is logged, and the node keeps its zero state.
unfoldable pub load_state : Node → Node
load_state n = elim (load n.store) [ loaded st ↦ record n { state = st } | load_error _ ↦ n ]

-- Start, up to the event loop: a node with no peers leads at once, in a new term.
unfoldable pub start : Node → Node
start n =
    let n' = load_state n in
    if length n'.peers == 0
    then become_leader (
        persist (record n' {
          state = record (n'.state) {
            current_term = u64 (n'.state.current_term + 1);
            voted_for = n'.self_id;
          };
        }))
    else n'

unfoldable pub dispatch_msg : Node → Message → Option Outcome
dispatch_msg n (request_vote from args) = some (handle_request_vote n from args)
dispatch_msg n (vote_response from reply) = some (handle_vote_response n from reply)
dispatch_msg n (append_entries from args) = handle_append_entries n from args
dispatch_msg n (append_response from reply) = handle_append_response n from reply
dispatch_msg n unreadable = some (record { node = n; sent = []; reset = false })

-- A leader that has stepped down closes the channels of all waiting proposals.
unfoldable pub fail_proposals : Bool → Node → Node
fail_proposals was_leader n =
    if was_leader && not (is_leader n.role)
    then record n { rejected = n.rejected ++ n.proposals; proposals = [] }
    else n

-- One message in the loop of `run`.
unfoldable pub receive : Node → Message → Option Outcome
receive n msg = do
  o ← dispatch_msg n msg
  some (record o { node = fail_proposals (is_leader n.role) (o.node) })

-- One tick of the heartbeat in the loop of `run`.
unfoldable pub heartbeat : Node → Node × List (String × Message)
heartbeat n = if is_leader n.role then send_append_entries_to_all n else (n, [])

-- The entry that Propose appends, with its channel registered.
unfoldable pub append_proposal : Node → Command → Node
append_proposal n cmd =
    let e : LogEntry = record {
      term = n.state.current_term;
      index = length n.state.log + 1;
      command = cmd;
    } in
    let n' = persist (with_log n (n.state.log ++ e ∷ [])) in
    record n' {
      proposals =
          (if has_index (length n.state.log + 1) n.proposals
            then n.proposals
            else n.proposals ++ (length n.state.log + 1) ∷ []);
    }

pub data Proposed : Type 0 where
  not_leader : Proposed
  waiting : ℕ → Node → List (String × Message) → Proposed

-- Propose up to the wait on the channel.
unfoldable pub propose : Node → Command → Option Proposed
propose n cmd =
    if is_leader n.role
    then (do
      let (n', sent) = send_append_entries_to_all (append_proposal n cmd)
      n'' ← advance_commit_index n'
      some (waiting (length n.state.log + 1) n'' sent))
    else some not_leader
