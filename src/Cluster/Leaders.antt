-- ===== src/Cluster/Leaders.antt =====
-- What holds of an election in every reachable state: a leader knows itself as the leader, a known
-- leader is the node or stands above it, and a candidate has a set for its grants.
use mathlib.Core.Path.{subst}
use pubsub_broker.Base.{
  ℕ, ◌≡◌, ◌⊎◌, inl, inr, refl, ap, ◌∙◌, true, false, Option, some, List, [], ◌∷◌, arith,
  if◌then◌else◌, ◌&&◌, ltb, leb, ◌==◌, nat_comparable, Bool-cases, Option-cases, if_elim,
}
use pubsub_broker.Base.Bytes.{Bytes, lt_bytes}
use pubsub_broker.Cluster.Registry.{
  Member, Membership, get, add, remove, all_members, IsRegistry, add-IsRegistry, remove-IsRegistry,
}
use pubsub_broker.Cluster.Bully.{
  Role, follower, candidate, leader, is_leader, is_candidate, MsgType, heartbeat, vote_request,
  vote_grant, vote_deny, other_msg, ClusterMsg, Election, new_election, become_leader, set_leader,
  force_become_leader, lower_ids, handle_election_timeout, Handled, on_heartbeat, on_vote_request,
  count_grant, record_grant, on_vote_grant, dispatch_kind, handle_msg, all_granted, add_id,
  ids_or_nil,
}

pub record IsBully (e : Election) : Type 0 where
  pub elected : e.role ≡ leader → e.known_leader ≡ some e.self
  pub above :
      (m : Member)
      → e.known_leader ≡ some m
      → (m ≡ e.self) ⊎ (lt_bytes e.self.node_id m.node_id ≡ true)
  pub soliciting : e.role ≡ candidate → (had : List Bytes) × (e.grants_had ≡ some had)
  pub registered : IsRegistry e.members

become_leader-IsBully : (e : Election) → IsRegistry e.members → IsBully (become_leader e).0
unfolding become_leader
become_leader-IsBully e h = record {
  elected = λ _. refl;
  above = λ m f. inl (cc);
  soliciting = λ h. cc;
  registered = h;
}

set_leader-IsBully :
    (e : Election) (id : Bytes) (term : ℕ)
    → IsBully e
    → lt_bytes e.self.node_id id ≡ true
    → IsBully (set_leader e id term)
unfolding set_leader
set_leader-IsBully e id term h higher = elim (Option-cases (get e.members id)) [
  | inl missing ↦
      rw (missing, set_leader)
        (record {
          elected = λ r. cc;
          above = h.above;
          soliciting = λ r. cc;
          registered = h.registered;
        })
  | inr (m, found) ↦
      let own : m.node_id ≡ id = h.registered.keyed id m (unfold get in found) in
      rw (found, set_leader)
        (record {
          elected = λ r. cc;
          above = λ x f. let same : m ≡ x = cc in inr (rw (← same, own) higher);
          soliciting = λ r. cc;
          registered = h.registered;
        })
]

-- A term changes nothing of it.
with_term-IsBully : (e : Election) (term : ℕ) → IsBully e → IsBully (record e { term = term })
with_term-IsBully e term h = record {
  elected = h.elected;
  above = h.above;
  soliciting = h.soliciting;
  registered = h.registered;
}

timeout-IsBully : (e : Election) → IsBully e → IsBully (handle_election_timeout e).0
unfolding handle_election_timeout
timeout-IsBully e h = go (lower_ids e.self.node_id (all_members e.members)) refl
  where
    go :
        (needed : List Bytes)
        → lower_ids e.self.node_id (all_members e.members) ≡ needed
        → IsBully (handle_election_timeout e).0
    go [] f = rw (f, handle_election_timeout) (become_leader-IsBully _ h.registered)
    go (id ∷ ids) f =
        rw (f, handle_election_timeout)
          (record {
            elected = λ r. cc;
            above = h.above;
            soliciting = λ r. ([], refl);
            registered = h.registered;
          })

force-IsBully : (e : Election) → IsBully e → IsBully (force_become_leader e)
unfolding force_become_leader
force-IsBully e h = elim (Bool-cases (is_leader e.role)) [
  | inl leads ↦ rw leads h
  | inr other ↦ rw other (become_leader-IsBully _ h.registered)
]

on_heartbeat-IsBully :
    (e : Election) (msg : ClusterMsg) → IsBully e → IsBully (on_heartbeat e msg).state
unfolding on_heartbeat
on_heartbeat-IsBully e msg h = elim (Bool-cases (lt_bytes e.self.node_id msg.sender)) [
  | inl higher ↦ rw higher (set_leader-IsBully e msg.sender msg.term h higher)
  | inr lower ↦ rw lower h
]

on_vote_request-IsBully :
    (e : Election) (msg : ClusterMsg) → IsBully e → IsBully (on_vote_request e msg).state
unfolding on_vote_request
on_vote_request-IsBully e msg h =
    elim (Bool-cases (lt_bytes e.self.node_id msg.sender && leb e.term msg.term)) [
      | inl granted ↦ rw granted (record {
        elected = λ r. cc;
        above = h.above;
        soliciting = λ r. cc;
        registered = h.registered;
      })
      | inr denied ↦ rw denied h
    ]

count_grant-IsBully :
    (e : Election) (had : List Bytes) → IsBully e → IsBully (count_grant e had).state
unfolding count_grant
count_grant-IsBully e had h = elim (Bool-cases (all_granted had (ids_or_nil e.grants_needed))) [
  | inl complete ↦ rw complete (become_leader-IsBully _ h.registered)
  | inr waits ↦ rw waits (record {
    elected = h.elected;
    above = h.above;
    soliciting = λ r. (had, refl);
    registered = h.registered;
  })
]

-- A handler's result, which it always has, is a state of the kind.
abbrev pub HandlesTo : Option Handled → Type 0
HandlesTo o = (h : Handled) × (o ≡ some h) × IsBully h.state

on_vote_grant-IsBully :
    (e : Election) (msg : ClusterMsg) → IsBully e → HandlesTo (on_vote_grant e msg)
unfolding on_vote_grant
on_vote_grant-IsBully e msg h = elim (Bool-cases (is_candidate e.role && (msg.term == e.term))) [
  | inl counts ↦
      let (had, g) = h.soliciting (candidate_role e.role (candidate_test e msg counts)) in
      (
        count_grant e (add_id msg.sender had),
        rw counts (ap (λ o. record_grant o e msg) g ∙ unfold record_grant in refl),
        count_grant-IsBully e (add_id msg.sender had) h,
      )
  | inr ignored ↦ (record { state = e; reset = false; effects = [] }, rw ignored, h)
]
  where
    candidate_role : (r : Role) → is_candidate r ≡ true → r ≡ candidate
    candidate_role follower t = cc
    candidate_role leader t = cc
    candidate_role candidate t = refl

    candidate_test :
        (e : Election) (msg : ClusterMsg)
        → (is_candidate e.role && (msg.term == e.term)) ≡ true
        → is_candidate e.role ≡ true
    candidate_test e msg t = ground arith

dispatch_kind-IsBully :
    (k : MsgType) (e : Election) (msg : ClusterMsg) → IsBully e → HandlesTo (dispatch_kind k e msg)
unfolding dispatch_kind
dispatch_kind-IsBully heartbeat e msg h = (on_heartbeat e msg, refl, on_heartbeat-IsBully e msg h)
dispatch_kind-IsBully vote_request e msg h =
    (on_vote_request e msg, refl, on_vote_request-IsBully e msg h)
dispatch_kind-IsBully vote_grant e msg h = on_vote_grant-IsBully e msg h
dispatch_kind-IsBully vote_deny e msg h =
    (record { state = e; reset = false; effects = [] }, refl, h)
dispatch_kind-IsBully other_msg e msg h =
    (record { state = e; reset = false; effects = [] }, refl, h)

-- handleMsg never writes to a nil map in a state of the kind, and leaves such a state.
pub handle_msg-IsBully :
    (e : Election) (msg : ClusterMsg) → IsBully e → HandlesTo (handle_msg e msg)
unfolding handle_msg
handle_msg-IsBully e msg h =
    dispatch_kind-IsBully msg.kind (if ltb e.term msg.term then record e { term = msg.term } else e)
      msg (if_elim IsBully (ltb e.term msg.term) (λ _. with_term-IsBully e msg.term h) (λ _. h))

-- What can happen to an election: its timer, a message, a forced lead, and changes of the members.
pub data Step : Election → Election → Type 0 where
  timeout : (e : Election) → Step e (handle_election_timeout e).0
  message :
      (e : Election) (msg : ClusterMsg) (h : Handled) → handle_msg e msg ≡ some h → Step e h.state
  force : (e : Election) → Step e (force_become_leader e)
  joins : (e : Election) (m : Member) → Step e (record e { members = add e.members m })
  leaves : (e : Election) (id : Bytes) → Step e (record e { members = remove e.members id })

pub data Reach (e : Election) : Election → Type 0 where
  here : Reach e e
  next : {f g : Election} → Reach e f → Step f g → Reach e g

with_members-IsBully :
    (e : Election) (ms : Membership)
    → IsRegistry ms
    → IsBully e
    → IsBully (record e { members = ms })
with_members-IsBully e ms r h = record {
  elected = h.elected;
  above = h.above;
  soliciting = h.soliciting;
  registered = r;
}

Step-IsBully : {e f : Election} → Step e f → IsBully e → IsBully f
Step-IsBully (timeout e) h = timeout-IsBully e h
Step-IsBully (message e msg r f) h =
    let (r', f', h') = handle_msg-IsBully e msg h in
    let same : r' ≡ r = cc in subst (λ (x : Handled). IsBully x.state) same h'
Step-IsBully (force e) h = force-IsBully e h
Step-IsBully (joins e m) h =
    with_members-IsBully e (add e.members m) (add-IsRegistry e.members m h.registered) h
Step-IsBully (leaves e id) h =
    with_members-IsBully e (remove e.members id) (remove-IsRegistry e.members id h.registered) h

-- In every state that a new election reaches by timeouts, messages, a forced lead and changes of the
-- members, a leader knows itself as the leader, a known leader is the node itself or has a higher id,
-- and a candidate has a set for its grants.
pub Reach-IsBully :
    (self : Member) (members : Membership) {e : Election}
    → IsRegistry members
    → Reach (new_election self members) e
    → IsBully e
Reach-IsBully self members r here =
    unfold new_election in
    (record { elected = λ f. cc; above = λ m f. cc; soliciting = λ f. cc; registered = r })
Reach-IsBully self members r (next steps s) = Step-IsBully s (Reach-IsBully self members r steps)
