-- ===== src/Raft/Leadership.antt =====
-- Terms never go back, a leader is made by a majority only, and keeps its log.
use pubsub_broker.Base.{
  ℕ, ◌≤◌, ◌≡◌, ◌⊎◌, refl, ap, ◌∙◌, Bool, true, false, some, List, [], arith, inl, inr,
  nat_comparable, string_comparable, String, some_unique, >>=-eq-some,
}
use pubsub_broker.Raft.State.{
  LogEntry, follower, is_leader, Node, Message, Outcome, PersistentState, request_vote,
  vote_response, append_entries, append_response, unreadable, AppendEntriesArgs, AppendEntriesReply,
  RequestVoteArgs, RequestVoteReply,
}
use pubsub_broker.Raft.Log.{persist, AppendResult}
use pubsub_broker.Raft.Election.{
  adopt_term, become_leader, catch_up, record_vote, handle_request_vote, handle_vote_response,
}
use pubsub_broker.Raft.Replication.{record_match}
use pubsub_broker.Raft.Node.{dispatch_msg, fail_proposals, receive}
use pubsub_broker.Raft.Append.{AppendOutcome}
use pubsub_broker.Raft.Keeps.{
  Keeps, become_leader-Keeps, follow_commit-Keeps, advance_commit_index-Keeps,
  send_append_entries_to_all-Keeps,
}
use pubsub_broker.Raft.Following.{adopted, IsStale, IsFollowed, handle_append_entries_cases}
use pubsub_broker.Raft.Cases.{
  VoteCase, later, ignored, counted, elected, vote_response_cases, with_vote, ResponseCase, newer,
  passed_over, acknowledged, turned_down, append_response_cases,
}

-- What a message may do to a node's term, log and role.
pub record Follows (n n' : Node) : Type 0 where
  pub term_grows : n.state.current_term ≤ n'.state.current_term
  pub leader_log : is_leader n'.role ≡ true → n'.state.log ≡ n.state.log
  pub leader_term : is_leader n'.role ≡ true → n'.state.current_term ≡ n.state.current_term

adopt_term-Follows :
    (n : Node) (term : ℕ) (id : String) (known : Bool)
    → n.state.current_term ≤ term
    → Follows n (adopt_term n term id known)
unfolding adopt_term persist
adopt_term-Follows n term id known h = record {
  term_grows = h;
  leader_log = λ l. cc;
  leader_term = λ l. cc;
}

Follows-refl : (n : Node) → Follows n n
Follows-refl n = record {
  term_grows = omega arith;
  leader_log = λ l. refl;
  leader_term = λ l. refl;
}

Keeps-Follows : (n m n' : Node) → Follows n m → Keeps m n' → Follows n n'
Keeps-Follows n m n' f k = record {
  term_grows = rw k.state f.term_grows;
  leader_log = λ l. rw k.state (f.leader_log (rw k.role at l));
  leader_term = λ l. rw k.state (f.leader_term (rw k.role at l));
}

request_vote-Follows :
    (n : Node) (from : String) (args : RequestVoteArgs)
    → Follows n ((handle_request_vote n from args).node)
unfolding handle_request_vote record_vote catch_up adopt_term persist
request_vote-Follows n from args = record {
  term_grows = ground arith;
  leader_log = λ l. ground arith;
  leader_term = λ l. ground arith;
}

vote_response-Follows :
    (n : Node) (from : String) (reply : RequestVoteReply) (o : Outcome)
    → VoteCase n from reply o
    → Follows n (o.node)
vote_response-Follows n from reply o (later l e) =
    rw e (adopt_term-Follows n reply.term "" false (omega arith))
vote_response-Follows n from reply o (ignored l e) = rw e (Follows-refl n)
vote_response-Follows n from reply o (counted r t g q e) =
    rw e (record { term_grows = omega arith; leader_log = λ l. refl; leader_term = λ l. refl })
vote_response-Follows n from reply o (elected r t g q e) =
    let m = with_vote n from in
    let (store, state, role) = become_leader-Keeps m in
    rw e (
      Keeps-Follows n (become_leader m) _
        (record {
          term_grows = rw state (omega arith);
          leader_log = λ l. rw state;
          leader_term = λ l. rw state;
        })
        (send_append_entries_to_all-Keeps (become_leader m)))

append_role :
    (n : Node) (prev_index prev_term : ℕ) (es : List LogEntry) (r : AppendResult)
    → AppendOutcome n prev_index prev_term es r
    → (r.node.role ≡ n.role) × (r.node.state.current_term ≡ n.state.current_term)
unfolding persist
append_role n prev_index prev_term es r (inl (h, t, e)) = rw e (refl, refl)
append_role n prev_index prev_term es r (inr (h, t, e)) = rw e (refl, refl)

adopted_role :
    (n : Node) (args : AppendEntriesArgs)
    → ((adopted n args).role ≡ follower) × ((adopted n args).state.current_term ≡ args.term)
unfolding adopt_term persist
adopted_role n args = (refl, refl)

-- A node that follows a message of the term's leader is a follower in that term.
pub followed_role :
    (n : Node) (args : AppendEntriesArgs) (o : Outcome)
    → IsFollowed n args o
    → (o.node.role ≡ follower) × (o.node.state.current_term ≡ args.term)
followed_role n args o f =
    let k = follow_commit-Keeps (f.result) args.leader_commit (o.node) f.committed in
    let (r, t) = append_role (adopted n args) _ _ _ (f.result) f.outcome in
    let (r', t') = adopted_role n args in
    (k.role ∙ r ∙ r', ap (λ (st : PersistentState). st.current_term) k.state ∙ t ∙ t')

append_entries-Follows :
    (n : Node) (args : AppendEntriesArgs) (o : Outcome)
    → IsStale n args o ⊎ IsFollowed n args o
    → Follows n (o.node)
append_entries-Follows n args o (inl s) = rw s.node (Follows-refl n)
append_entries-Follows n args o (inr f) =
    let (r, t) = followed_role n args o f in
    record {
      term_grows = rw t f.reached;
      leader_log = λ l. cc (r, l);
      leader_term = λ l. cc (r, l);
    }

append_response-Follows :
    (n : Node) (from : String) (reply : AppendEntriesReply) (o : Outcome)
    → ResponseCase n from reply o
    → Follows n (o.node)
append_response-Follows n from reply o (newer l e) =
    rw e (adopt_term-Follows n reply.term "" false (omega arith))
append_response-Follows n from reply o (passed_over l t e) = rw e (Follows-refl n)
append_response-Follows n from reply o (acknowledged l t s n' a e) = rw e (
    Keeps-Follows n (record_match n from reply.match_index) n'
      (unfold record_match in
        record { term_grows = omega arith; leader_log = λ l. refl; leader_term = λ l. refl })
      (advance_commit_index-Keeps _ n' a))
append_response-Follows n from reply o (turned_down l t s m b e) =
    rw e (record { term_grows = omega arith; leader_log = λ l. refl; leader_term = λ l. refl })

dispatch-Follows :
    (n : Node) (msg : Message) (o : Outcome) → dispatch_msg n msg ≡ some o → Follows n (o.node)
unfolding dispatch_msg
dispatch-Follows n (request_vote from args) o h =
    let same : handle_request_vote n from args ≡ o = some_unique refl h in
    rw (← same) (request_vote-Follows n from args)
dispatch-Follows n (vote_response from reply) o h =
    let same : handle_vote_response n from reply ≡ o = some_unique refl h in
    rw (← same) (vote_response-Follows n from reply _ (vote_response_cases n from reply))
dispatch-Follows n (append_entries from args) o h =
    let (o', eq, case) = handle_append_entries_cases n from args in
    let same : o' ≡ o = some_unique eq h in rw (← same) (append_entries-Follows n args o' case)
dispatch-Follows n (append_response from reply) o h =
    let (o', eq, case) = append_response_cases n from reply in
    let same : o' ≡ o = some_unique eq h in
    rw (← same) (append_response-Follows n from reply o' case)
dispatch-Follows n unreadable o h =
    let unchanged : Outcome = record { node = n; sent = []; reset = false } in
    let same : unchanged ≡ o = some_unique refl h in rw (← same) (Follows-refl n)

fail_proposals-Keeps : (b : Bool) (n : Node) → Keeps n (fail_proposals b n)
unfolding fail_proposals
fail_proposals-Keeps b n = ground arith

-- No message moves the term back, and a node that leads after a message has the log and the term
-- that it had before: no message overwrites or removes an entry of a leader.
pub receive-Follows :
    (n : Node) (msg : Message) (o : Outcome) → receive n msg ≡ some o → Follows n (o.node)
unfolding receive
receive-Follows n msg o h =
    let (m, eq, e) = >>=-eq-some (dispatch_msg n msg) _ h in
    let same : record m { node = fail_proposals (is_leader n.role) (m.node) } ≡ o =
      some_unique refl e in
    rw (← same) (
      Keeps-Follows n (m.node) _ (dispatch-Follows n msg m eq)
        (fail_proposals-Keeps (is_leader n.role) (m.node)))
