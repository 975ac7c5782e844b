-- ===== src/Cluster/Bully.antt =====
-- Election of internal/cluster/election.go: the Bully algorithm. A term is a uint64. Metrics are left
-- out; the callback of a new leader is counted. `none` is a write to a nil map.
use pubsub_broker.Base.{
  ℕ, ◌+◌, Bool, true, false, Option, none, some, List, [], ◌∷◌, if◌then◌else◌, ◌&&◌, ltb, leb, ◌==◌,
  nat_comparable,
}
use pubsub_broker.Base.Bytes.{Bytes, bytes_comparable, lt_bytes}
use pubsub_broker.Base.Words.{u64}
use pubsub_broker.Base.Filters.{contains}
use pubsub_broker.Cluster.Registry.{Member, Membership, get, all_members}

pub data Role : Type 0 where
  follower candidate leader : Role

abbrev pub is_leader : Role → Bool
is_leader leader = true
is_leader _ = false

abbrev pub is_candidate : Role → Bool
is_candidate candidate = true
is_candidate _ = false

-- MsgType, of the messages that the election reads; the others go elsewhere.
pub data MsgType : Type 0 where
  heartbeat vote_request vote_grant vote_deny other_msg : MsgType

-- ClusterMsg
pub record ClusterMsg : Type 0 where
  pub kind : MsgType
  pub sender : Bytes
  pub term : ℕ

-- msgEffect
pub record MsgEffect : Type 0 where
  pub addr : Bytes
  pub msg : ClusterMsg

-- Election: a set of ids is a list, and a nil set is `none`.
pub record Election : Type 0 where
  pub self : Member
  pub role : Role
  pub term : ℕ
  pub known_leader : Option Member
  pub grants_needed : Option (List Bytes)
  pub grants_had : Option (List Bytes)
  pub members : Membership
  pub callbacks : ℕ

-- NewElection
unfoldable pub new_election : Member → Membership → Election
new_election self members = record {
  self = self;
  role = follower;
  term = 0;
  known_leader = none;
  grants_needed = none;
  grants_had = none;
  members = members;
  callbacks = 0;
}

-- A message to every member but the node itself.
unfoldable pub broadcast : Bytes → ClusterMsg → List Member → List MsgEffect
broadcast self_id msg [] = []
broadcast self_id msg (m ∷ ms) =
    let rest = broadcast self_id msg ms in
    if m.node_id == self_id then rest else record { addr = m.addr; msg = msg } ∷ rest

-- The heartbeats of a term.
unfoldable pub heartbeats : Election → List MsgEffect
heartbeats e =
    broadcast e.self.node_id (record { kind = heartbeat; sender = e.self.node_id; term = e.term })
      (all_members e.members)

-- becomeLeaderLocked
unfoldable pub become_leader : Election → Election × List MsgEffect
become_leader e = (
  record e {
    role = leader;
    known_leader = some e.self;
    grants_needed = none;
    grants_had = none;
    callbacks = e.callbacks + 1;
  },
  heartbeats e,
)

-- setLeaderLocked
unfoldable pub set_leader : Election → Bytes → ℕ → Election
set_leader e node_id term =
    let e' = record e { term = term; role = follower; grants_needed = none; grants_had = none } in
    elim (get e.members node_id) [ none ↦ e' | some m ↦ record e' { known_leader = some m } ]

-- ForceBecomeLeader
unfoldable pub force_become_leader : Election → Election
force_become_leader e =
    if is_leader e.role then e else (become_leader (record e { term = u64 (e.term + 1) })).0

-- The ids below the node's own.
unfoldable pub lower_ids : Bytes → List Member → List Bytes
lower_ids self_id [] = []
lower_ids self_id (m ∷ ms) =
    let rest = lower_ids self_id ms in if lt_bytes m.node_id self_id then m.node_id ∷ rest else rest

-- handleElectionTimeout
unfoldable pub handle_election_timeout : Election → Election × List MsgEffect
handle_election_timeout e =
    let needed = lower_ids e.self.node_id (all_members e.members) in
    let e' = record e {
      term = u64 (e.term + 1);
      role = candidate;
      grants_needed = some needed;
      grants_had = some [];
    } in
    elim needed [
      | [] ↦ become_leader e'
      | _ ∷ _ ↦ (
        e',
        broadcast e.self.node_id
            (record { kind = vote_request; sender = e.self.node_id; term = e'.term })
            (all_members e.members),
      )
    ]

-- peerAddr with the test for "": the effects of a reply.
unfoldable pub reply_to : Election → Bytes → ClusterMsg → List MsgEffect
reply_to e node_id msg = elim (get e.members node_id) [
  | none ↦ []
  | some m ↦ if m.addr == [] then [] else record { addr = m.addr; msg = msg } ∷ []
]

-- What handleMsg returns: the new state, whether the timer is reset, and what is sent.
pub record Handled : Type 0 where
  pub state : Election
  pub reset : Bool
  pub effects : List MsgEffect

-- The loop over the needed grants.
unfoldable pub all_granted : List Bytes → List Bytes → Bool
all_granted had [] = true
all_granted had (id ∷ ids) =
    let rest = all_granted had ids in if contains id had then rest else false

-- A set as a list: an id is added once.
unfoldable pub add_id : Bytes → List Bytes → List Bytes
add_id id had = if contains id had then had else id ∷ had

abbrev pub ids_or_nil : Option (List Bytes) → List Bytes
ids_or_nil none = []
ids_or_nil (some ids) = ids

unfoldable pub on_heartbeat : Election → ClusterMsg → Handled
on_heartbeat e msg =
    if lt_bytes e.self.node_id msg.sender
    then record { state = set_leader e msg.sender msg.term; reset = true; effects = [] }
    else record { state = e; reset = false; effects = [] }

unfoldable pub on_vote_request : Election → ClusterMsg → Handled
on_vote_request e msg =
    if lt_bytes e.self.node_id msg.sender && leb e.term msg.term
    then record {
      state = record e {
        term = msg.term;
        role = follower;
        grants_needed = none;
        grants_had = none;
      };
      reset = true;
      effects =
          reply_to e msg.sender
            (record { kind = vote_grant; sender = e.self.node_id; term = msg.term });
    }
    else record {
      state = e;
      reset = false;
      effects =
          reply_to e msg.sender
            (record { kind = vote_deny; sender = e.self.node_id; term = e.term });
    }

-- A counted grant, with the new set of grants.
unfoldable pub count_grant : Election → List Bytes → Handled
count_grant e had =
    let e' = record e { grants_had = some had } in
    if all_granted had (ids_or_nil e.grants_needed)
    then record { state = (become_leader e').0; reset = false; effects = (become_leader e').1 }
    else record { state = e'; reset = false; effects = [] }

-- `e.grantsHad[msg.From] = …` and the loop behind it.
unfoldable pub record_grant : Option (List Bytes) → Election → ClusterMsg → Option Handled
record_grant none e msg = none
record_grant (some had) e msg = some (count_grant e (add_id msg.sender had))

unfoldable pub on_vote_grant : Election → ClusterMsg → Option Handled
on_vote_grant e msg =
    if is_candidate e.role && (msg.term == e.term)
    then record_grant e.grants_had e msg
    else some (record { state = e; reset = false; effects = [] })

-- The switch of handleMsg.
unfoldable pub dispatch_kind : MsgType → Election → ClusterMsg → Option Handled
dispatch_kind heartbeat e msg = some (on_heartbeat e msg)
dispatch_kind vote_request e msg = some (on_vote_request e msg)
dispatch_kind vote_grant e msg = on_vote_grant e msg
dispatch_kind vote_deny e msg = some (record { state = e; reset = false; effects = [] })
dispatch_kind other_msg e msg = some (record { state = e; reset = false; effects = [] })

-- handleMsg
unfoldable pub handle_msg : Election → ClusterMsg → Option Handled
handle_msg e msg =
    dispatch_kind msg.kind (if ltb e.term msg.term then record e { term = msg.term } else e) msg

-- maybeSendHeartbeats
unfoldable pub maybe_send_heartbeats : Election → List MsgEffect
maybe_send_heartbeats e = if is_leader e.role then heartbeats e else []
