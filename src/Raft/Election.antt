-- ===== src/Raft/Election.antt =====
-- internal/cluster/raft/election.go.
use pubsub_broker.Base.{
  ℕ, ◌+◌, ◌-◌, Bool, true, false, none, some, List, [], ◌∷◌, ◌++◌, String, if◌then◌else◌, ltb, leb,
  ◌&&◌, ◌||◌, ◌==◌, not, nat_comparable, string_comparable, length, get_elem?,
}
use pubsub_broker.Base.Words.{u64}
use pubsub_broker.Base.Maps.{insert}
use pubsub_broker.Raft.State.{
  follower, candidate, leader, is_leader, is_candidate, Node, Outcome, Message, request_vote,
  vote_response, RequestVoteArgs, RequestVoteReply,
}
use pubsub_broker.Raft.Log.{send_to, persist, last_log_index_and_term}
use pubsub_broker.Raft.Commit.{quorum}
use pubsub_broker.Raft.Sending.{send_append_entries_to_all}

unfoldable pub reset_indices : Node → ℕ → List String → Node
reset_indices n last [] = n
reset_indices n last (p ∷ ps) =
    reset_indices
      (record n {
        next_index = insert p (last + 1) n.next_index;
        match_index = insert p 0 n.match_index;
      })
      last ps

-- becomeLeaderLocked
unfoldable pub become_leader : Node → Node
become_leader n =
    reset_indices (record n { role = leader; leader_id = n.self_id; leader_known = true })
      (length n.state.log) n.peers

-- What every handler does on a message of a later term, and nothing more: the term is taken over,
-- the vote is given up and the node follows, with the leader `id` if `known`.
unfoldable pub adopt_term : Node → ℕ → String → Bool → Node
adopt_term n term id known = persist (record n {
  state = record (n.state) { current_term = term; voted_for = "" };
  role = follower;
  leader_id = id;
  leader_known = known;
})

-- The first half of handleElectionTimeout: the node votes for itself in the next term.
unfoldable pub start_election : Node → Node
start_election n = persist (record n {
  state = record (n.state) { current_term = u64 (n.state.current_term + 1); voted_for = n.self_id };
  role = candidate;
  leader_id = "";
  leader_known = false;
  vote_granted = insert n.self_id true [];
})

unfoldable pub vote_args : Node → RequestVoteArgs
vote_args n = record {
  term = n.state.current_term;
  candidate_id = n.self_id;
  last_log_index = length n.state.log;
  last_log_term =
      (if ltb 0 (length n.state.log)
        then elim (get_elem? n.state.log (length n.state.log - 1)) [ none ↦ 0 | some e ↦ e.term ]
        else 0);
}

unfoldable pub broadcast : Node → Message → List String → List (String × Message)
broadcast n msg [] = []
broadcast n msg (p ∷ ps) = send_to n p msg ++ broadcast n msg ps

unfoldable pub handle_election_timeout : Node → Node × List (String × Message)
handle_election_timeout n =
    let n' = start_election n in
    if is_leader n.role
    then (n, [])
    else if length n.peers == 0
    then (become_leader n', [])
    else (n', broadcast n' (request_vote n'.self_id (vote_args n')) n'.peers)

-- The candidate's log ends no earlier than this one's.
unfoldable pub log_up_to_date : Node → RequestVoteArgs → Bool
log_up_to_date n args =
    let (last_index, last_term) = last_log_index_and_term n.state.log in
    ltb last_term args.last_log_term
    || (args.last_log_term == last_term && leb last_index args.last_log_index)

unfoldable pub grants_vote : Node → RequestVoteArgs → Bool
grants_vote n args =
    leb n.state.current_term args.term
    && (n.state.voted_for == "" || n.state.voted_for == args.candidate_id)
    && log_up_to_date n args

unfoldable pub catch_up : Node → ℕ → Node
catch_up n term = if ltb n.state.current_term term then adopt_term n term "" false else n

unfoldable pub record_vote : Node → RequestVoteArgs → Node
record_vote n args =
    if grants_vote n args
    then persist (record n { state = record (n.state) { voted_for = args.candidate_id } })
    else n

-- The reply, with the term after a later one was taken over.
unfoldable pub vote_reply : Node → RequestVoteArgs → RequestVoteReply
vote_reply n args =
    let n' = catch_up n args.term in
    record { term = n'.state.current_term; vote_granted = grants_vote n' args }

unfoldable pub handle_request_vote : Node → String → RequestVoteArgs → Outcome
handle_request_vote n from args =
    let reply = vote_reply n args in
    let n' = record_vote (catch_up n args.term) args in
    record {
      node = n';
      sent = send_to n' args.candidate_id (vote_response n'.self_id reply);
      reset = reply.vote_granted || ltb n'.state.current_term reply.term;
    }

-- A vote that counts: the voter is added, and a majority makes the leader.
unfoldable pub count_vote : Node → String → Outcome
count_vote n from =
    let n' = record n { vote_granted = insert from true n.vote_granted } in
    let (n'', sent) = send_append_entries_to_all (become_leader n') in
    if leb (quorum n') (length n'.vote_granted)
    then record { node = n''; sent = sent; reset = false }
    else record { node = n'; sent = []; reset = false }

unfoldable pub handle_vote_response : Node → String → RequestVoteReply → Outcome
handle_vote_response n from reply =
    if ltb n.state.current_term reply.term
    then record { node = adopt_term n reply.term "" false; sent = []; reset = true }
    else if not (is_candidate n.role) || not (reply.term == n.state.current_term)
    then record { node = n; sent = []; reset = false }
    else if reply.vote_granted
    then count_vote n from
    else record { node = n; sent = []; reset = false }
