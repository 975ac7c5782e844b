-- ===== src/Raft/Cases.antt =====
-- The other handlers by cases: for each branch, when it is taken and what it leaves.
use pubsub_broker.Base.{
  ℕ, ◌+◌, ◌≤◌, ◌<◌, ◌≡◌, refl, true, false, some, List, [], arith, inl, inr, ltb, leb, ◌==◌,
  nat_comparable, string_comparable, length, Bool-cases, String, not, ◌||◌, some_unique,
  nat_beq_iff,
}
use pubsub_broker.Base.Maps.{insert}
use pubsub_broker.Raft.State.{
  Command, Node, Outcome, Message, RequestVoteReply, AppendEntriesReply, is_leader, is_candidate,
}
use pubsub_broker.Raft.Commit.{quorum, advance_commit_index}
use pubsub_broker.Raft.Sending.{send_append_entries_to_all}
use pubsub_broker.Raft.Election.{
  adopt_term, start_election, become_leader, handle_election_timeout, count_vote,
  handle_vote_response,
}
use pubsub_broker.Raft.Replication.{record_match, back_off, handle_append_response}
use pubsub_broker.Raft.Node.{append_proposal, waiting, not_leader, propose}
use pubsub_broker.Raft.Advance.{advance_commit_index_total}
use pubsub_broker.Raft.Totality.{back_off_total}

-- handleElectionTimeout
pub data TimeoutCase (n : Node) (o : Node × List (String × Message)) : Type 0 where
  leading : is_leader n.role ≡ true → o ≡ (n, []) → TimeoutCase n o
  alone :
      is_leader n.role ≡ false
      → length n.peers ≡ 0
      → o ≡ (become_leader (start_election n), [])
      → TimeoutCase n o
  standing : is_leader n.role ≡ false → o.0 ≡ start_election n → TimeoutCase n o

pub timeout_cases : (n : Node) → TimeoutCase n (handle_election_timeout n)
timeout_cases n = elim (Bool-cases (is_leader n.role)) [
  | inl leads ↦ leading leads (unfold handle_election_timeout in rw leads)
  | inr follows ↦ elim (Bool-cases (length n.peers == 0)) [
    | inl none_ ↦
        alone follows ((nat_beq_iff _ _).0 none_)
          (unfold handle_election_timeout in rw (follows, none_))
    | inr some_ ↦ standing follows (unfold handle_election_timeout in rw (follows, some_))
  ]
]

abbrev pub with_vote : Node → String → Node
with_vote n from = record n { vote_granted = insert from true n.vote_granted }

-- handleVoteResponse
pub data VoteCase (n : Node) (from : String) (reply : RequestVoteReply) (o : Outcome) : Type 0 where
  later :
      n.state.current_term < reply.term
      → o ≡ record { node = adopt_term n reply.term "" false; sent = []; reset = true }
      → VoteCase n from reply o
  ignored :
      reply.term ≤ n.state.current_term
      → o ≡ record { node = n; sent = []; reset = false }
      → VoteCase n from reply o
  counted :
      is_candidate n.role ≡ true
      → reply.term ≡ n.state.current_term
      → reply.vote_granted ≡ true
      → length (insert from true n.vote_granted) < quorum n
      → o ≡ record { node = with_vote n from; sent = []; reset = false }
      → VoteCase n from reply o
  elected :
      is_candidate n.role ≡ true
      → reply.term ≡ n.state.current_term
      → reply.vote_granted ≡ true
      → quorum n ≤ length (insert from true n.vote_granted)
      → o ≡ (
          let (n', sent) = send_append_entries_to_all (become_leader (with_vote n from)) in
          record { node = n'; sent = sent; reset = false })
      → VoteCase n from reply o

quorum-with_vote : (n : Node) (from : String) → quorum (with_vote n from) ≡ quorum n
unfolding quorum
quorum-with_vote n from = refl

pub vote_response_cases :
    (n : Node) (from : String) (reply : RequestVoteReply)
    → VoteCase n from reply (handle_vote_response n from reply)
vote_response_cases n from reply = elim (Bool-cases (ltb n.state.current_term reply.term)) [
  | inl late ↦ later (ground arith) (unfold handle_vote_response in rw late)
  | inr known ↦
      elim (Bool-cases (not (is_candidate n.role) || not (reply.term == n.state.current_term))) [
        | inl other ↦ ignored (ground arith) (unfold handle_vote_response in rw (known, other))
        | inr mine ↦ elim (Bool-cases reply.vote_granted) [
          | inr refused ↦
              ignored (ground arith) (unfold handle_vote_response in rw (known, mine, refused))
          | inl granted ↦
              elim (Bool-cases
                (leb (quorum (with_vote n from)) (length (insert from true n.vote_granted)))) [
                  | inl many ↦
                      elected (ground (arith, mine)) (ground (arith, mine)) granted
                        (ground (arith, quorum-with_vote n from))
                        (unfold handle_vote_response count_vote in rw (known, mine, granted, many))
                  | inr few ↦
                      counted (ground (arith, mine)) (ground (arith, mine)) granted
                        (ground (arith, quorum-with_vote n from))
                        (unfold handle_vote_response count_vote in rw (known, mine, granted, few))
                ]
        ]
      ]
]

-- handleAppendResponse
pub data ResponseCase (n : Node) (from : String) (reply : AppendEntriesReply) (o : Outcome)
    : Type 0 where
  newer :
      n.state.current_term < reply.term
      → o ≡ record { node = adopt_term n reply.term "" false; sent = []; reset = true }
      → ResponseCase n from reply o
  passed_over :
      is_leader n.role ≡ false
      → reply.term ≤ n.state.current_term
      → o ≡ record { node = n; sent = []; reset = false }
      → ResponseCase n from reply o
  acknowledged :
      is_leader n.role ≡ true
      → reply.term ≤ n.state.current_term
      → reply.success ≡ true
      → (n' : Node) → advance_commit_index (record_match n from reply.match_index) ≡ some n'
      → o ≡ record { node = n'; sent = []; reset = false }
      → ResponseCase n from reply o
  turned_down :
      is_leader n.role ≡ true
      → reply.term ≤ n.state.current_term
      → reply.success ≡ false
      → (next : ℕ) → back_off n.state.log reply ≡ some next
      → o ≡ record {
        node = record n { next_index = insert from next n.next_index };
        sent = [];
        reset = false;
      }
      → ResponseCase n from reply o

pub append_response_cases :
    (n : Node) (from : String) (reply : AppendEntriesReply)
    → (o : Outcome) × (handle_append_response n from reply ≡ some o) × ResponseCase n from reply o
append_response_cases n from reply = elim (Bool-cases (ltb n.state.current_term reply.term)) [
  | inl late ↦
      let o : Outcome = record {
        node = adopt_term n reply.term "" false;
        sent = [];
        reset = true;
      } in
      (o, unfold handle_append_response in rw late, newer (ground arith) refl)
  | inr known ↦ elim (Bool-cases (is_leader n.role)) [
    | inr follows ↦
        let o : Outcome = record { node = n; sent = []; reset = false } in
        (
          o,
          unfold handle_append_response in rw (known, follows),
          passed_over follows (ground arith) refl,
        )
    | inl leads ↦ elim (Bool-cases reply.success) [
      | inl yields ↦
          let (n', eq) = advance_commit_index_total (record_match n from reply.match_index) in
          let o : Outcome = record { node = n'; sent = []; reset = false } in
          (
            o,
            unfold handle_append_response in rw (known, leads, eq, yields),
            acknowledged leads (ground arith) yields n' eq refl,
          )
      | inr refuses ↦
          let (next, eq, _) = back_off_total n.state.log reply in
          let o : Outcome = record {
            node = record n { next_index = insert from next n.next_index };
            sent = [];
            reset = false;
          } in
          (
            o,
            unfold handle_append_response in rw (known, leads, eq, refuses),
            turned_down leads (ground arith) refuses next eq refl,
          )
    ]
  ]
]

-- Propose on a leader: the entry is appended, sent, and committed if it already stands on a majority.
pub propose_cases :
    (n : Node) (cmd : Command) (i : ℕ) (n' : Node) (sent : List (String × Message))
    → propose n cmd ≡ some (waiting i n' sent)
    → (is_leader n.role ≡ true)
      × (i ≡ length n.state.log + 1)
      × (advance_commit_index (send_append_entries_to_all (append_proposal n cmd)).0 ≡ some n')
propose_cases n cmd i n' sent h = elim (Bool-cases (is_leader n.role)) [
  | inl leads ↦
      let p = send_append_entries_to_all (append_proposal n cmd) in
      let (m, eq) = advance_commit_index_total p.0 in
      let q : propose n cmd ≡ some (waiting (length n.state.log + 1) m p.1) =
        unfold propose in rw (leads, eq) in
      let same : waiting (length n.state.log + 1) m p.1 ≡ waiting i n' sent = some_unique q h in
      let at_index : i ≡ length n.state.log + 1 = cc same in
      let node : m ≡ n' = cc same in (leads, at_index, rw (← node) eq)
  | inr follows ↦
      let q : propose n cmd ≡ some not_leader = unfold propose in rw follows in
      let same : not_leader ≡ waiting i n' sent = some_unique q h in cc same
]
