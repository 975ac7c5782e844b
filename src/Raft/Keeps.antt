-- ===== src/Raft/Keeps.antt =====
-- What the parts of the handlers leave alone: the state, the store, the role and the members.
use pubsub_broker.Base.{
  ℕ, ◌+◌, ◌≡◌, refl, ◌∙◌, true, some, List, [], ◌∷◌, arith, inl, inr, ltb, ◌&&◌, length, Bool-cases,
  String, some_unique,
}
use pubsub_broker.Base.{string_comparable}
use pubsub_broker.Base.Maps.{insert}
use pubsub_broker.Raft.State.{Node, leader, is_leader}
use pubsub_broker.Raft.Log.{AppendResult}
use pubsub_broker.Raft.Commit.{advance_commit_index}
use pubsub_broker.Raft.Sending.{clamp_next, send_loop, send_append_entries_to_all}
use pubsub_broker.Raft.Election.{reset_indices, become_leader}
use pubsub_broker.Raft.Replication.{follow_commit}
use pubsub_broker.Raft.Applying.{SameButApplied, apply_committed-HasApplied}
use pubsub_broker.Raft.Advance.{
  Advances, advance_commit_index-Advances, advance_commit_index_follower,
}
use pubsub_broker.Raft.Totality.{capped, capped_le}

pub record Keeps (n n' : Node) : Type 0 where
  pub store : n'.store ≡ n.store
  pub state : n'.state ≡ n.state
  pub role : n'.role ≡ n.role
  pub self_id : n'.self_id ≡ n.self_id
  pub peers : n'.peers ≡ n.peers

pub Keeps-refl : (n : Node) → Keeps n n
Keeps-refl n = ground arith

pub Keeps-trans : {a b c : Node} → Keeps a b → Keeps b c → Keeps a c
Keeps-trans h k = record {
  store = k.store ∙ h.store;
  state = k.state ∙ h.state;
  role = k.role ∙ h.role;
  self_id = k.self_id ∙ h.self_id;
  peers = k.peers ∙ h.peers;
}

pub clamp_next-Keeps : (n : Node) (peer : String) → Keeps n (clamp_next n peer)
unfolding clamp_next
clamp_next-Keeps n peer = ground arith

pub send_loop-Keeps : (n : Node) (peers : List String) → Keeps n (send_loop n peers).0
unfolding send_loop
send_loop-Keeps n [] = Keeps-refl n
send_loop-Keeps n (p ∷ ps) =
    Keeps-trans (clamp_next-Keeps n p) (send_loop-Keeps (clamp_next n p) ps)

pub send_append_entries_to_all-Keeps : (n : Node) → Keeps n (send_append_entries_to_all n).0
unfolding send_append_entries_to_all
send_append_entries_to_all-Keeps n = elim (Bool-cases (is_leader n.role)) [
  | inl leads ↦ rw leads (send_loop-Keeps n n.peers)
  | inr follows ↦ rw follows (Keeps-refl n)
]

pub reset_indices-Keeps :
    (n : Node) (last : ℕ) (peers : List String) → Keeps n (reset_indices n last peers)
unfolding reset_indices
reset_indices-Keeps n last [] = Keeps-refl n
reset_indices-Keeps n last (p ∷ ps) =
    let n' = record n {
      next_index = insert p (last + 1) n.next_index;
      match_index = insert p 0 n.match_index;
    } in
    let k : Keeps n' (reset_indices n' last ps) = reset_indices-Keeps n' last ps in
    record { store = k.store; state = k.state; role = k.role; self_id = k.self_id; peers = k.peers }

-- A new leader keeps its state, and is the leader that it knows.
pub become_leader-Keeps :
    (n : Node)
    → ((become_leader n).store ≡ n.store)
      × ((become_leader n).state ≡ n.state)
      × ((become_leader n).role ≡ leader)
unfolding become_leader
become_leader-Keeps n =
    let k =
      reset_indices-Keeps (record n { role = leader; leader_id = n.self_id; leader_known = true })
        (length n.state.log) n.peers in
    (k.store, k.state, k.role)

pub same-Keeps : {n n' : Node} → SameButApplied n n' → Keeps n n'
same-Keeps s = record {
  store = s.store;
  state = s.state;
  role = s.role;
  self_id = s.self_id;
  peers = s.peers;
}

pub Advances-Keeps : (n : Node) {n' : Node} {high : ℕ} → Advances n n' high → Keeps n n'
Advances-Keeps n (inl (e, h)) = rw e (Keeps-refl n)
Advances-Keeps n (inr (j, a, h)) =
    let s = a.applied.same in
    record { store = s.store; state = s.state; role = s.role; self_id = s.self_id; peers = s.peers }

pub advance_commit_index-Keeps : (n n' : Node) → advance_commit_index n ≡ some n' → Keeps n n'
advance_commit_index-Keeps n n' h = elim (Bool-cases (is_leader n.role)) [
  | inl leads ↦
      let (m, eq, a) = advance_commit_index-Advances n leads in
      let same : m ≡ n' = some_unique eq h in rw (← same) (Advances-Keeps n a)
  | inr follows ↦
      let same : n ≡ n' = some_unique (advance_commit_index_follower n follows) h in
      rw (← same) (Keeps-refl n)
]

pub follow_commit-Keeps :
    (r : AppendResult) (leader_commit : ℕ) (n' : Node)
    → follow_commit r leader_commit ≡ some n'
    → Keeps (r.node) n'
unfolding follow_commit
follow_commit-Keeps r leader_commit n' h =
    elim (Bool-cases (r.success && ltb r.node.commit_index leader_commit)) [
      | inl follows ↦
          let (m, eq, a) =
            apply_committed-HasApplied
              (record (r.node) { commit_index = capped (r.node) leader_commit })
              (capped_le (r.node) leader_commit) in
          let same : m ≡ n' = some_unique eq (rw follows at h) in
          let s = a.same in
          rw (← same) (record {
            store = s.store;
            state = s.state;
            role = s.role;
            self_id = s.self_id;
            peers = s.peers;
          })
      | inr stays ↦
          let same : r.node ≡ n' = some_unique refl (rw stays at h) in
          rw (← same) (Keeps-refl (r.node))
    ]
