-- ===== src/Raft/Durability.antt =====
-- What a restart recovers: after every step the state file holds the node's state, so a term, a vote
-- or an entry is on disk before any message that rests on it is sent.
use pubsub_broker.Base.{
  ℕ, ◌+◌, ◌≡◌, ◌≢◌, ◌⊎◌, refl, Bool, true, false, none, some, List, [], ◌∷◌, ◌++◌, arith, inl, inr,
  ltb, leb, ◌&&◌, ◌==◌, nat_comparable, length, Bool-cases, String, some_unique, if_elim,
  >>=-eq-some,
}
use pubsub_broker.Base.{string_comparable}
use pubsub_broker.Raft.State.{
  Command, LogEntry, Io, Node, Message, Outcome, Store, PersistentState, loaded, save, load,
  request_vote, vote_response, append_entries, append_response, unreadable, is_leader,
  AppendEntriesArgs, AppendEntriesReply, RequestVoteArgs, RequestVoteReply,
}
use pubsub_broker.Raft.Log.{persist, with_log, AppendResult, truncate_log_from}
use pubsub_broker.Raft.Election.{
  adopt_term, start_election, become_leader, catch_up, record_vote, grants_vote,
  handle_request_vote, handle_vote_response,
}
use pubsub_broker.Raft.Replication.{
  follow_later, handle_append_entries, record_match, handle_append_response,
}
use pubsub_broker.Raft.Node.{
  dispatch_msg, fail_proposals, receive, heartbeat, append_proposal, waiting, propose, start,
  load_state,
}
use pubsub_broker.Raft.Append.{AppendOutcome}
use pubsub_broker.Raft.Keeps.{
  Keeps, send_append_entries_to_all-Keeps, become_leader-Keeps, advance_commit_index-Keeps,
  follow_commit-Keeps,
}
use pubsub_broker.Raft.Following.{adopted, IsStale, IsFollowed, handle_append_entries_cases}
use pubsub_broker.Raft.Cases.{
  TimeoutCase, leading, alone, standing, timeout_cases, VoteCase, later, ignored, counted, elected,
  vote_response_cases, with_vote, ResponseCase, newer, passed_over, acknowledged, turned_down,
  append_response_cases, propose_cases,
}
use pubsub_broker.Raft.Steps.{
  Step, timeout, deliver, beat, call_propose, call_truncate, Reach, here, next,
}

-- Every call of the operating system succeeds.
pub record IsHealthy (io : Io) : Type 0 where
  pub create_temp : io.create_temp ≡ true
  pub marshal : io.marshal ≡ true
  pub write : io.write ≡ true
  pub sync : io.sync ≡ true
  pub close : io.close ≡ true
  pub rename : io.rename ≡ true
  pub read : io.read ≡ true
  pub unmarshal : io.unmarshal ≡ true

pub record IsDurable (n : Node) : Type 0 where
  pub healthy : IsHealthy n.store.io
  pub recovers : load n.store ≡ loaded n.state

-- Save is atomic: it fails and leaves the file as it was, or succeeds and the file holds the new
-- state, which Load returns if it can read and decode the file.
pub save_atomic :
    (s : Store) (st : PersistentState)
    → (((save s st).1 ≢ none) × ((save s st).0 ≡ s))
      ⊎ (((save s st).1 ≡ none)
          × ((save s st).0 ≡ record s { file = some st })
          × (s.io.read ≡ true → s.io.unmarshal ≡ true → load (save s st).0 ≡ loaded st))
unfolding save load
save_atomic s st = ground arith

pub persist-IsDurable : (n : Node) → IsHealthy n.store.io → IsDurable (persist n)
unfolding persist save load
persist-IsDurable n h = ground arith

pub Keeps-IsDurable : {n n' : Node} → Keeps n n' → IsDurable n → IsDurable n'
Keeps-IsDurable k d = record {
  healthy = rw k.store d.healthy;
  recovers = rw (k.store, k.state) d.recovers;
}

adopt_term-IsDurable :
    (n : Node) (term : ℕ) (id : String) (known : Bool)
    → IsDurable n
    → IsDurable (adopt_term n term id known)
unfolding adopt_term
adopt_term-IsDurable n term id known d = persist-IsDurable _ d.healthy

become_leader-IsDurable : (n : Node) → IsDurable n → IsDurable (become_leader n)
become_leader-IsDurable n d =
    let (store, state, _) = become_leader-Keeps n in
    record { healthy = rw store d.healthy; recovers = rw (store, state) d.recovers }

start_election-IsDurable : (n : Node) → IsDurable n → IsDurable (start_election n)
unfolding start_election
start_election-IsDurable n d = persist-IsDurable _ d.healthy

timeout-IsDurable :
    (n : Node) (o : Node × List (String × Message)) → IsDurable n → TimeoutCase n o → IsDurable o.0
timeout-IsDurable n o d (leading l e) = rw e d
timeout-IsDurable n o d (alone l p e) =
    rw e (become_leader-IsDurable (start_election n) (start_election-IsDurable n d))
timeout-IsDurable n o d (standing l e) = rw e (start_election-IsDurable n d)

catch_up-IsDurable : (n : Node) (term : ℕ) → IsDurable n → IsDurable (catch_up n term)
unfolding catch_up
catch_up-IsDurable n term d = elim (Bool-cases (ltb n.state.current_term term)) [
  | inl late ↦ rw late (adopt_term-IsDurable n term "" false d)
  | inr known ↦ rw known d
]

record_vote-IsDurable :
    (n : Node) (args : RequestVoteArgs) → IsDurable n → IsDurable (record_vote n args)
unfolding record_vote
record_vote-IsDurable n args d = elim (Bool-cases (grants_vote n args)) [
  | inl granted ↦ rw granted (persist-IsDurable _ d.healthy)
  | inr refused ↦ rw refused d
]

request_vote-IsDurable :
    (n : Node) (from : String) (args : RequestVoteArgs)
    → IsDurable n
    → IsDurable ((handle_request_vote n from args).node)
unfolding handle_request_vote
request_vote-IsDurable n from args d =
    record_vote-IsDurable (catch_up n args.term) args (catch_up-IsDurable n args.term d)

vote_response-IsDurable :
    (n : Node) (from : String) (reply : RequestVoteReply) (o : Outcome)
    → IsDurable n
    → VoteCase n from reply o
    → IsDurable (o.node)
vote_response-IsDurable n from reply o d (later l e) =
    rw e (adopt_term-IsDurable n reply.term "" false d)
vote_response-IsDurable n from reply o d (ignored l e) = rw e d
vote_response-IsDurable n from reply o d (counted r t g q e) =
    rw e (record { healthy = d.healthy; recovers = d.recovers })
vote_response-IsDurable n from reply o d (elected r t g q e) = rw e (
    Keeps-IsDurable (send_append_entries_to_all-Keeps (become_leader (with_vote n from))) (
      become_leader-IsDurable (with_vote n from)
        (record { healthy = d.healthy; recovers = d.recovers })))

follow_later-IsDurable :
    (n : Node) (args : AppendEntriesArgs) → IsDurable n → IsDurable (follow_later n args)
unfolding follow_later
follow_later-IsDurable n args d =
    if_elim IsDurable (ltb n.state.current_term args.term)
      (λ _. adopt_term-IsDurable n args.term args.leader_id true d) (λ _. d)

append-IsDurable :
    (n : Node) (prev_index prev_term : ℕ) (es : List LogEntry) (r : AppendResult)
    → AppendOutcome n prev_index prev_term es r
    → IsDurable n
    → IsDurable (r.node)
append-IsDurable n prev_index prev_term es r (inl (h, t, e)) d =
    rw e (persist-IsDurable _ d.healthy)
append-IsDurable n prev_index prev_term es r (inr (h, t, e)) d = rw e d

append_entries-IsDurable :
    (n : Node) (from : String) (args : AppendEntriesArgs) (o : Outcome)
    → IsDurable n
    → handle_append_entries n from args ≡ some o
    → IsDurable (o.node)
append_entries-IsDurable n from args o d h =
    let (o', eq, cases) = handle_append_entries_cases n from args in
    let same : o' ≡ o = some_unique eq h in rw (← same) (go o' cases)
  where
    go : (o' : Outcome) → IsStale n args o' ⊎ IsFollowed n args o' → IsDurable (o'.node)
    go o' (inl s) = rw s.node d
    go o' (inr f) =
        Keeps-IsDurable (follow_commit-Keeps (f.result) args.leader_commit (o'.node) f.committed) (
          append-IsDurable (adopted n args) args.prev_log_index args.prev_log_term args.entries
            (f.result) f.outcome
            (adopt_term-IsDurable (follow_later n args) args.term args.leader_id true
              (follow_later-IsDurable n args d)))

append_response-IsDurable :
    (n : Node) (from : String) (reply : AppendEntriesReply) (o : Outcome)
    → IsDurable n
    → handle_append_response n from reply ≡ some o
    → IsDurable (o.node)
append_response-IsDurable n from reply o d h =
    let (o', eq, case) = append_response_cases n from reply in
    let same : o' ≡ o = some_unique eq h in rw (← same) (go o' case)
  where
    go : (o' : Outcome) → ResponseCase n from reply o' → IsDurable (o'.node)
    go o' (newer l e) = rw e (adopt_term-IsDurable n reply.term "" false d)
    go o' (passed_over l t e) = rw e d
    go o' (acknowledged l t s n' a e) = rw e (
        Keeps-IsDurable (advance_commit_index-Keeps (record_match n from reply.match_index) n' a)
          (unfold record_match in record { healthy = d.healthy; recovers = d.recovers }))
    go o' (turned_down l t s m b e) = rw e (record { healthy = d.healthy; recovers = d.recovers })

dispatch-IsDurable :
    (n : Node) (msg : Message) (o : Outcome)
    → IsDurable n
    → dispatch_msg n msg ≡ some o
    → IsDurable (o.node)
unfolding dispatch_msg
dispatch-IsDurable n (request_vote from args) o d h =
    let same : handle_request_vote n from args ≡ o = some_unique refl h in
    rw (← same) (request_vote-IsDurable n from args d)
dispatch-IsDurable n (vote_response from reply) o d h =
    let same : handle_vote_response n from reply ≡ o = some_unique refl h in
    rw (← same) (vote_response-IsDurable n from reply _ d (vote_response_cases n from reply))
dispatch-IsDurable n (append_entries from args) o d h = append_entries-IsDurable n from args o d h
dispatch-IsDurable n (append_response from reply) o d h =
    append_response-IsDurable n from reply o d h
dispatch-IsDurable n unreadable o d h =
    let unchanged : Outcome = record { node = n; sent = []; reset = false } in
    let same : unchanged ≡ o = some_unique refl h in rw (← same) d

fail_proposals-Keeps : (b : Bool) (n : Node) → Keeps n (fail_proposals b n)
unfolding fail_proposals
fail_proposals-Keeps b n = ground arith

receive-IsDurable :
    (n : Node) (msg : Message) (o : Outcome)
    → IsDurable n
    → receive n msg ≡ some o
    → IsDurable (o.node)
unfolding receive
receive-IsDurable n msg o d h =
    let (m, eq, e) = >>=-eq-some (dispatch_msg n msg) _ h in
    let same : record m { node = fail_proposals (is_leader n.role) (m.node) } ≡ o =
      some_unique refl e in
    rw (← same) (
      Keeps-IsDurable (fail_proposals-Keeps (is_leader n.role) (m.node))
        (dispatch-IsDurable n msg m d eq))

append_proposal-IsDurable :
    (n : Node) (cmd : Command) → IsDurable n → IsDurable (append_proposal n cmd)
unfolding append_proposal
append_proposal-IsDurable n cmd d =
    let e : LogEntry = record {
      term = n.state.current_term;
      index = length n.state.log + 1;
      command = cmd;
    } in
    let k : IsDurable (persist (with_log n (n.state.log ++ e ∷ []))) =
      persist-IsDurable _ d.healthy in
    record { healthy = k.healthy; recovers = k.recovers }

propose-IsDurable :
    (n : Node) (cmd : Command) (i : ℕ) (n' : Node) (sent : List (String × Message))
    → IsDurable n
    → propose n cmd ≡ some (waiting i n' sent)
    → IsDurable n'
propose-IsDurable n cmd i n' sent d h =
    let (_, _, advanced) = propose_cases n cmd i n' sent h in
    Keeps-IsDurable (advance_commit_index-Keeps _ n' advanced) (
      Keeps-IsDurable (send_append_entries_to_all-Keeps (append_proposal n cmd))
        (append_proposal-IsDurable n cmd d))

heartbeat-IsDurable : (n : Node) → IsDurable n → IsDurable (heartbeat n).0
unfolding heartbeat
heartbeat-IsDurable n d = elim (Bool-cases (is_leader n.role)) [
  | inl leads ↦ rw leads (Keeps-IsDurable (send_append_entries_to_all-Keeps n) d)
  | inr follows ↦ rw follows d
]

truncate-IsDurable : (n : Node) (index : ℕ) → IsDurable n → IsDurable (truncate_log_from n index)
unfolding truncate_log_from
truncate-IsDurable n index d =
    if_elim IsDurable (ltb 0 index && leb index (length n.state.log))
      (λ _. persist-IsDurable _ d.healthy) (λ _. d)

Step-IsDurable : {n n' : Node} → Step n n' → IsDurable n → IsDurable n'
Step-IsDurable (timeout n) d = timeout-IsDurable n _ d (timeout_cases n)
Step-IsDurable (deliver n msg o e) d = receive-IsDurable n msg o d e
Step-IsDurable (beat n) d = heartbeat-IsDurable n d
Step-IsDurable (call_propose n cmd i n' sent e) d = propose-IsDurable n cmd i n' sent d e
Step-IsDurable (call_truncate n index) d = truncate-IsDurable n index d

load_state-IsDurable : (n : Node) → IsHealthy n.store.io → IsDurable (load_state n)
unfolding load_state load
load_state-IsDurable n h = ground arith

-- Start recovers what the file holds, and leaves a durable node.
pub start-IsDurable : (n : Node) → IsHealthy n.store.io → IsDurable (start n)
unfolding start
start-IsDurable n h =
    let d = load_state-IsDurable n h in
    elim (Bool-cases (length (load_state n).peers == 0)) [
      | inl alone_ ↦ rw alone_ (become_leader-IsDurable _ (persist-IsDurable _ d.healthy))
      | inr member ↦ rw member d
    ]

-- On a healthy disk, whatever the messages, the timers and the proposals, the state file always
-- holds the state of the node: a restart at any point loses no term, no vote and no entry.
pub Reach-IsDurable : {n n' : Node} → IsDurable n → Reach n n' → IsDurable n'
Reach-IsDurable d here = d
Reach-IsDurable d (next r s) = Step-IsDurable s (Reach-IsDurable d r)
