-- ===== src/Raft/Elections.antt =====
-- How a node becomes the leader.
use pubsub_broker.Base.{
  ℕ, ◌+◌, ◌≤◌, ◌≡◌, ◌⊎◌, refl, Bool, true, false, some, List, [], ◌∷◌, arith, inl, inr,
  string_comparable, length, String, some_unique, >>=-eq-some,
}
use mathlib.Core.List.{Memᴰ}
use pubsub_broker.Base.Maps.{insert, lookup_or, lookup_or-insert, beq_refl}
use pubsub_broker.Raft.State.{
  Node, Message, Outcome, is_leader, is_candidate, request_vote, vote_response, append_entries,
  append_response, unreadable, RequestVoteReply, RequestVoteArgs, leader,
}
use pubsub_broker.Raft.Log.{persist}
use pubsub_broker.Raft.Commit.{quorum}
use pubsub_broker.Raft.Election.{
  become_leader, reset_indices, adopt_term, catch_up, record_vote, handle_request_vote,
  handle_vote_response,
}
use pubsub_broker.Raft.Node.{dispatch_msg, fail_proposals, receive}
use pubsub_broker.Raft.Keeps.{reset_indices-Keeps}
use pubsub_broker.Raft.Following.{IsStale, IsFollowed, handle_append_entries_cases}
use pubsub_broker.Raft.Leadership.{followed_role}
use pubsub_broker.Raft.Cases.{
  VoteCase, later, ignored, counted, elected, vote_response_cases, ResponseCase, newer, passed_over,
  acknowledged, turned_down, append_response_cases,
}

-- The message is the vote that completes a quorum for the candidate, in its term.
abbrev pub CompletesQuorum : Node → Message → Type 0
CompletesQuorum n msg =
    (from : String) × (reply : RequestVoteReply) × (msg ≡ vote_response from reply)
    × (is_candidate n.role ≡ true)
    × (reply.term ≡ n.state.current_term)
    × (reply.vote_granted ≡ true)
    × (quorum n ≤ length (insert from true n.vote_granted))

stays_follower :
    (n : Node) (term : ℕ) (id : String) (known : Bool)
    → is_leader (adopt_term n term id known).role ≡ false
unfolding adopt_term persist
stays_follower n term id known = refl

request_vote_role :
    (n : Node) (from : String) (args : RequestVoteArgs)
    → is_leader ((handle_request_vote n from args).node).role ≡ true
    → is_leader n.role ≡ true
unfolding handle_request_vote record_vote catch_up adopt_term persist
request_vote_role n from args h = ground arith

elected_dispatch :
    (n : Node) (msg : Message) (o : Outcome)
    → dispatch_msg n msg ≡ some o
    → is_leader n.role ≡ false
    → is_leader (o.node.role) ≡ true
    → CompletesQuorum n msg
unfolding dispatch_msg
elected_dispatch n (request_vote from args) o h l l' =
    let same : handle_request_vote n from args ≡ o = some_unique refl h in
    let leads : is_leader n.role ≡ true = request_vote_role n from args (rw same l') in cc
elected_dispatch n (vote_response from reply) o h l l' =
    let same : handle_vote_response n from reply ≡ o = some_unique refl h in
    go o l' (rw same at (vote_response_cases n from reply))
  where
    go :
        (o' : Outcome)
        → is_leader (o'.node.role) ≡ true
        → VoteCase n from reply o'
        → CompletesQuorum n (vote_response from reply)
    go o' k (later t e) = let d = stays_follower n reply.term "" false in cc (rw e at k, d)
    go o' k (ignored t e) = cc (rw e at k)
    go o' k (counted r t g q e) = cc (rw e at k)
    go o' k (elected r t g q e) = (from, reply, refl, r, t, g, q)
elected_dispatch n (append_entries from args) o h l l' =
    let (o', eq, case) = handle_append_entries_cases n from args in
    let same : o' ≡ o = some_unique eq h in go o' (rw same l') case
  where
    go :
        (o' : Outcome)
        → is_leader (o'.node.role) ≡ true
        → IsStale n args o' ⊎ IsFollowed n args o'
        → CompletesQuorum n (append_entries from args)
    go o' k (inl s) = cc (rw s.node at k)
    go o' k (inr f) = cc (k, (followed_role n args o' f).0)
elected_dispatch n (append_response from reply) o h l l' =
    let (o', eq, case) = append_response_cases n from reply in
    let same : o' ≡ o = some_unique eq h in go o' (rw same l') case
  where
    go :
        (o' : Outcome)
        → is_leader (o'.node.role) ≡ true
        → ResponseCase n from reply o'
        → CompletesQuorum n (append_response from reply)
    go o' k (newer t e) = let d = stays_follower n reply.term "" false in cc (rw e at k, d)
    go o' k (passed_over t m e) = cc (rw e at k)
    go o' k (acknowledged t m s n' a e) = cc l
    go o' k (turned_down t m s next b e) = cc l
elected_dispatch n unreadable o h l l' =
    let unchanged : Outcome = record { node = n; sent = []; reset = false } in
    let same : unchanged ≡ o = some_unique refl h in cc (rw (← same) at l')

fail_proposals_role : (b : Bool) (n : Node) → (fail_proposals b n).role ≡ n.role
unfolding fail_proposals
fail_proposals_role b n = ground arith

-- A message makes a leader of a node that was none only if the node is a candidate and the message is
-- a vote of its own term with which the votes reach a quorum of the members.
pub elected_by_quorum :
    (n : Node) (msg : Message) (o : Outcome)
    → receive n msg ≡ some o
    → is_leader n.role ≡ false
    → is_leader (o.node.role) ≡ true
    → CompletesQuorum n msg
unfolding receive
elected_by_quorum n msg o h l l' =
    let (m, eq, e) = >>=-eq-some (dispatch_msg n msg) _ h in
    let same : record m { node = fail_proposals (is_leader n.role) (m.node) } ≡ o =
      some_unique refl e in
    elected_dispatch n msg m eq l
      (rw (fail_proposals_role (is_leader n.role) (m.node)) at (rw (← same) at l'))

abbrev fresh_peer : Node → ℕ → String → Node
fresh_peer n last q = record n {
  next_index = insert q (last + 1) n.next_index;
  match_index = insert q 0 n.match_index;
}

reset_indices_other :
    (n : Node) (last : ℕ) (ps : List String) (p : String)
    → lookup_or 0 p n.next_index ≡ last + 1
    → lookup_or 0 p n.match_index ≡ 0
    → (lookup_or 0 p (reset_indices n last ps).next_index ≡ last + 1)
      × (lookup_or 0 p (reset_indices n last ps).match_index ≡ 0)
unfolding reset_indices
reset_indices_other n last [] p h k = (h, k)
reset_indices_other n last (q ∷ ps) p h k =
    reset_indices_other (fresh_peer n last q) last ps p
      (ground (arith, lookup_or-insert 0 q p (last + 1) n.next_index, h))
      (ground (arith, lookup_or-insert 0 q p 0 n.match_index, k))

reset_indices_members :
    (n : Node) (last : ℕ) (ps : List String) (p : String)
    → Memᴰ p ps
    → (lookup_or 0 p (reset_indices n last ps).next_index ≡ last + 1)
      × (lookup_or 0 p (reset_indices n last ps).match_index ≡ 0)
unfolding reset_indices
reset_indices_members n last [] p m = elim m [ ]
reset_indices_members n last (q ∷ ps) p (Memᴰ.head e) =
    reset_indices_other (fresh_peer n last q) last ps p
      (rw e (ground (arith, lookup_or-insert 0 q q (last + 1) n.next_index, beq_refl q)))
      (rw e (ground (arith, lookup_or-insert 0 q q 0 n.match_index, beq_refl q)))
reset_indices_members n last (q ∷ ps) p (Memᴰ.tail m) =
    reset_indices_members (fresh_peer n last q) last ps p m

-- A new leader sends to every peer from the end of its log on, and counts none of its entries as
-- stored by any of them; its log, its term and its vote are those of the candidate.
pub become_leader_fresh :
    (n : Node) (p : String)
    → Memᴰ p n.peers
    → (lookup_or 0 p (become_leader n).next_index ≡ length n.state.log + 1)
      × (lookup_or 0 p (become_leader n).match_index ≡ 0)
      × ((become_leader n).state ≡ n.state)
unfolding become_leader
become_leader_fresh n p m =
    let n' = record n { role = leader; leader_id = n.self_id; leader_known = true } in
    let (next, match) = reset_indices_members n' (length n.state.log) n.peers p m in
    (next, match, (reset_indices-Keeps n' (length n.state.log) n.peers).state)
