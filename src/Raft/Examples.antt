-- ===== src/Raft/Examples.antt =====
-- The theorems about the Raft node at concrete inputs, and test runs.
use pubsub_broker.Base.{
  ℕ, ◌+◌, ◌≤◌, ◌<◌, ◌≡◌, ◌⊎◌, ◌↔◌, refl, true, false, Option, none, some, List, [], ◌∷◌, arith, inl,
  inr, String, take, string_comparable, str_iff,
}
use pubsub_broker.Base.Maps.{insert, lookup_or}
use pubsub_broker.Raft.State.{
  Role, follower, candidate, leader, is_leader, LogEntry, Io, Node, Outcome, Message,
  append_response, vote_response, AppendEntriesArgs, AppendEntriesReply, RequestVoteArgs,
  RequestVoteReply, save, load,
}
use pubsub_broker.Raft.Log.{
  AppendResult, append_entries_from_leader, store_entries, send_to, last_log_index_and_term,
  persist, accept_entries,
}
use pubsub_broker.Raft.Commit.{apply_committed, advance_commit_index, quorum}
use pubsub_broker.Raft.Sending.{
  append_args, term_at, send_append_entries_to_all, send_loop, clamp_next,
}
use pubsub_broker.Raft.Election.{
  adopt_term, count_vote, handle_vote_response, reset_indices, vote_reply, handle_request_vote,
  become_leader, handle_election_timeout,
}
use pubsub_broker.Raft.Replication.{handle_append_entries, follow_later, follow_commit}
use pubsub_broker.Raft.Node.{receive, start, dispatch_msg, fail_proposals}
use pubsub_broker.Raft.Append.{AppendOutcome, append_total}
use pubsub_broker.Raft.Applying.{HasApplied, apply_committed-HasApplied}
use pubsub_broker.Raft.Advance.{Advances, advance_commit_index-Advances}
use pubsub_broker.Raft.Totality.{receive_total}
use pubsub_broker.Raft.Leadership.{Follows, receive-Follows}
use pubsub_broker.Raft.Elections.{CompletesQuorum, elected_by_quorum}
use pubsub_broker.Raft.Votes.{IsUpToDate, vote_reply_granted, vote_once, votes_again}
use pubsub_broker.Raft.Convergence.{follower_catches_up, match_index_overstates}
use pubsub_broker.Raft.Durability.{IsHealthy, IsDurable, start-IsDurable, Reach-IsDurable}
use pubsub_broker.Raft.Steps.{timeout, here, next}

abbrev healthy : Io
healthy = record {
  create_temp = true;
  marshal = true;
  write = true;
  sync = true;
  close = true;
  rename = true;
  read = true;
  unmarshal = true;
}

abbrev entry : ℕ → ℕ → LogEntry
entry term index = record { term = term; index = index; command = index ∷ [] }

abbrev short_log : List LogEntry
short_log = entry 1 1 ∷ entry 1 2 ∷ []

abbrev long_log : List LogEntry
long_log = entry 1 1 ∷ entry 2 2 ∷ entry 3 3 ∷ []

abbrev node_with : Role → ℕ → String → List LogEntry → Node
node_with role term vote log = record {
  self_id = "a";
  peers = "b" ∷ "c" ∷ [];
  store = record {
    file = some (record { current_term = term; voted_for = vote; log = log });
    io = healthy;
  };
  has_apply = true;
  state = record { current_term = term; voted_for = vote; log = log };
  role = role;
  commit_index = 0;
  last_applied = 0;
  leader_id = "";
  leader_known = false;
  next_index = ("b", 3) ∷ ("c", 3) ∷ [];
  match_index = ("b", 2) ∷ ("c", 1) ∷ [];
  vote_granted = ("a", true) ∷ [];
  proposals = [];
  notified = [];
  rejected = [];
  applied = [];
  peer_addr_map = none;
}

abbrev one_follower : Node
one_follower = node_with follower 3 "b" short_log

abbrev one_leader : Node
one_leader = node_with leader 3 "a" long_log

abbrev one_candidate : Node
one_candidate = node_with candidate 3 "a" short_log

append_total_example :
    (r : AppendResult) × (append_entries_from_leader one_follower 1 1 (entry 2 2 ∷ entry 3 3 ∷ [])
      ≡ some r)
    × AppendOutcome one_follower 1 1 (entry 2 2 ∷ entry 3 3 ∷ []) r
append_total_example = append_total one_follower 1 1 (entry 2 2 ∷ entry 3 3 ∷ [])

abbrev ready : Node
ready = record one_follower { commit_index = 2 }

apply_committed-HasApplied_example :
    (n' : Node) × (apply_committed ready ≡ some n') × HasApplied 2 ready n'
apply_committed-HasApplied_example = apply_committed-HasApplied ready (omega arith)

advance_commit_index-Advances_example :
    (n' : Node) × (advance_commit_index one_leader ≡ some n') × Advances one_leader n' 3
advance_commit_index-Advances_example = advance_commit_index-Advances one_leader refl

abbrev accept_three : AppendEntriesReply
accept_three = record {
  term = 3;
  success = true;
  match_index = 3;
  conflict_index = 0;
  conflict_term = 0;
}

receive_total_example :
    (o : Outcome) × (receive one_leader (append_response "b" accept_three) ≡ some o)
receive_total_example = receive_total one_leader (append_response "b" accept_three)

abbrev after_three : Outcome
after_three = (receive_total one_leader (append_response "b" accept_three)).0

receive-Follows_example : Follows one_leader (after_three.node)
receive-Follows_example =
    receive-Follows one_leader (append_response "b" accept_three) after_three
      ((receive_total one_leader (append_response "b" accept_three)).1)

abbrev vote_of : ℕ → RequestVoteReply
vote_of term = record { term = term; vote_granted = true }

abbrev ask : String → RequestVoteArgs
ask name = record { term = 4; candidate_id = name; last_log_index = 2; last_log_term = 1 }

vote_reply_granted_example : ((vote_reply one_follower (ask "b")).vote_granted ≡ true) ↔ (
    (3 ≤ 4)
    × ((3 < 4) ⊎ ((◌≡◌ {A = String} "b" "") ⊎ (◌≡◌ {A = String} "b" "b")))
    × IsUpToDate short_log (ask "b"))
vote_reply_granted_example = vote_reply_granted one_follower (ask "b")

ask_granted : (vote_reply one_follower (ask "b")).vote_granted ≡ true
unfolding last_log_index_and_term
ask_granted =
    (vote_reply_granted one_follower (ask "b")).1
      (omega arith, inl (omega arith), inr (refl, omega arith))

vote_once_example :
    (vote_reply ((handle_request_vote one_follower "b" (ask "b")).node) (ask "c")).vote_granted
    ≡ false
vote_once_example =
    vote_once one_follower "b" (ask "b") (ask "c") ask_granted (ground (arith, str_iff "b" ""))
      (ground (arith, str_iff "c" "b")) (omega arith)

abbrev beat_args : ℕ → AppendEntriesArgs
beat_args prev = record {
  term = 3;
  leader_id = "b";
  prev_log_index = prev;
  prev_log_term = 1;
  entries = [];
  leader_commit = 0;
}

abbrev outcome_of : Option Outcome → Outcome
outcome_of none = record { node = one_follower; sent = []; reset = false }
outcome_of (some o) = o

abbrev beat_outcome : Outcome
beat_outcome = outcome_of (handle_append_entries one_follower "b" (beat_args 1))

beat_runs : handle_append_entries one_follower "b" (beat_args 1) ≡ some beat_outcome
unfolding handle_append_entries follow_later adopt_term append_entries_from_leader accept_entries
    store_entries follow_commit persist
beat_runs = refl

abbrev ask_in_term : RequestVoteArgs
ask_in_term = record { term = 3; candidate_id = "c"; last_log_index = 2; last_log_term = 9 }

votes_again_example : (vote_reply (beat_outcome.node) ask_in_term).vote_granted ≡ true
unfolding handle_append_entries follow_later adopt_term append_entries_from_leader accept_entries
    store_entries follow_commit persist save last_log_index_and_term
votes_again_example =
    votes_again one_follower "b" (beat_args 1) beat_outcome ask_in_term beat_runs refl refl
      (inl (omega arith))

match_index_overstates_example :
    (reply : AppendEntriesReply) × (beat_outcome.sent
      ≡ send_to (beat_outcome.node) "b" (append_response (beat_outcome.node.self_id) reply))
    × (reply.success ≡ true)
    × (reply.match_index ≡ 2)
    × (1 + 0 < reply.match_index)
match_index_overstates_example =
    match_index_overstates one_follower "b" (beat_args 1) beat_outcome beat_runs (omega arith)
      (omega arith, λ p. (entry 1 1, refl, refl)) refl (omega arith)

abbrev vote_message : Message
vote_message = vote_response "b" (vote_of 3)

abbrev elected_outcome : Outcome
elected_outcome = outcome_of (receive one_candidate vote_message)

elected_runs : receive one_candidate vote_message ≡ some elected_outcome
unfolding receive dispatch_msg
elected_runs = refl

elected_leads : is_leader (elected_outcome.node.role) ≡ true
unfolding receive dispatch_msg handle_vote_response count_vote quorum become_leader reset_indices
    send_append_entries_to_all send_loop clamp_next fail_proposals insert lookup_or
elected_leads = refl

elected_by_quorum_example : CompletesQuorum one_candidate vote_message
elected_by_quorum_example =
    elected_by_quorum one_candidate vote_message elected_outcome elected_runs refl elected_leads

abbrev catch_up_args : AppendEntriesArgs
catch_up_args = append_args one_leader 2

abbrev caught_up : Outcome
caught_up = outcome_of (handle_append_entries one_follower "a" catch_up_args)

caught_up_runs : handle_append_entries one_follower "a" catch_up_args ≡ some caught_up
unfolding append_args term_at handle_append_entries follow_later adopt_term
    append_entries_from_leader accept_entries store_entries follow_commit persist
caught_up_runs = refl

follower_catches_up_example : take 3 (caught_up.node.state.log) ≡ long_log
unfolding append_args term_at
follower_catches_up_example =
    follower_catches_up one_leader one_follower 2 "a" caught_up (omega arith) (omega arith)
      (omega arith) (omega arith) refl (omega arith, λ p. (entry 1 1, refl, refl))
      (λ e. absurd (omega arith), tt) caught_up_runs

healthy-IsHealthy : IsHealthy healthy
healthy-IsHealthy = ground arith

start-IsDurable_example : IsDurable (start one_follower)
start-IsDurable_example = start-IsDurable one_follower healthy-IsHealthy

one_follower-IsDurable : IsDurable one_follower
unfolding load
one_follower-IsDurable = record { healthy = healthy-IsHealthy; recovers = refl }

abbrev stood : Node
stood = (handle_election_timeout one_follower).0

reach-IsDurable_example : IsDurable stood
reach-IsDurable_example = Reach-IsDurable one_follower-IsDurable (next here (timeout one_follower))
