-- ===== src/Cluster/Terms.antt =====
-- What messages and the timer do to the term and the lead of a node.
use pubsub_broker.Base.{
  ℕ, ◌+◌, ◌≤◌, ◌<◌, ◌≡◌, ◌≢◌, ◌⊎◌, inl, inr, refl, ap, ◌∙◌, true, false, Option, none, some, List,
  [], ◌∷◌, arith, ◌&&◌, ltb, leb, ◌==◌, nat_comparable, Bool-cases, Option-cases, some_unique, max,
}
use pubsub_broker.Base.Bytes.{Bytes, lt_bytes}
use pubsub_broker.Base.Words.{u64}
use pubsub_broker.Cluster.Registry.{get, all_members}
use pubsub_broker.Cluster.Bully.{
  follower, candidate, is_candidate, MsgType, heartbeat, vote_request, vote_grant, vote_deny,
  other_msg, ClusterMsg, Election, become_leader, set_leader, lower_ids, handle_election_timeout,
  Handled, on_heartbeat, on_vote_request, count_grant, record_grant, on_vote_grant, dispatch_kind,
  handle_msg, all_granted, add_id, ids_or_nil,
}

set_leader_term :
    (e : Election) (id : Bytes) (term : ℕ)
    → ((set_leader e id term).term ≡ term) × ((set_leader e id term).role ≡ follower)
unfolding set_leader
set_leader_term e id term = elim (Option-cases (get e.members id)) [
  | inl missing ↦ rw (missing, set_leader) (refl, refl)
  | inr (m, found) ↦ rw (found, set_leader) (refl, refl)
]

count_grant_term : (e : Election) (had : List Bytes) → (count_grant e had).state.term ≡ e.term
unfolding count_grant become_leader
count_grant_term e had = elim (Bool-cases (all_granted had (ids_or_nil e.grants_needed))) [
  | inl complete ↦ rw complete
  | inr waits ↦ rw waits
]

on_vote_grant_term :
    (e : Election) (msg : ClusterMsg) (h : Handled)
    → on_vote_grant e msg ≡ some h
    → h.state.term ≡ e.term
unfolding on_vote_grant
on_vote_grant_term e msg h f = elim (Bool-cases (is_candidate e.role && (msg.term == e.term))) [
  | inl counts ↦ recorded e.grants_had (rw counts at f)
  | inr ignored ↦
      let g : some (record { state = e; reset = false; effects = [] }) ≡ some h = rw ignored at f in
      ap (λ (x : Handled). x.state.term) (some_unique g refl)
]
  where
    recorded : (o : Option (List Bytes)) → record_grant o e msg ≡ some h → h.state.term ≡ e.term
    recorded none f = unfold record_grant in cc
    recorded (some had) f =
        let same : h ≡ count_grant e (add_id msg.sender had) =
          unfold record_grant in some_unique f refl in
        ap (λ (x : Handled). x.state.term) same ∙ count_grant_term e (add_id msg.sender had)

-- A heartbeat of an earlier term from a higher id.
abbrev pub IsStale : Election → ClusterMsg → Type 0
IsStale e msg =
    (msg.kind ≡ heartbeat) × (lt_bytes e.self.node_id msg.sender ≡ true) × (msg.term < e.term)

-- The term that a message leaves: its own if it is stale, and else the higher of the two.
pub data TermAfter (e : Election) (msg : ClusterMsg) (term : ℕ) : Type 0 where
  advanced : ¬ IsStale e msg → term ≡ max e.term msg.term → TermAfter e msg term
  taken_back : IsStale e msg → term ≡ msg.term → TermAfter e msg term

-- The term behind the switch, for a term that the message's is not above: it changes just on a heartbeat
-- from a higher id.
switch_term :
    (k : MsgType) (e : Election) (msg : ClusterMsg) (h : Handled)
    → msg.term ≤ e.term
    → dispatch_kind k e msg ≡ some h
    → ((h.state.term ≡ e.term) × ¬ ((k ≡ heartbeat) × (lt_bytes e.self.node_id msg.sender ≡ true)))
      ⊎ ((k ≡ heartbeat) × (lt_bytes e.self.node_id msg.sender ≡ true) × (h.state.term ≡ msg.term))
unfolding dispatch_kind on_heartbeat on_vote_request
switch_term heartbeat e msg h low f =
    let same : h ≡ on_heartbeat e msg = unfold on_heartbeat in some_unique f refl in
    let term = ap (λ (x : Handled). x.state.term) same in
    elim (Bool-cases (lt_bytes e.self.node_id msg.sender)) [
      | inl higher ↦
          let t : h.state.term ≡ (set_leader e msg.sender msg.term).term = rw higher at term in
          inr (refl, higher, t ∙ (set_leader_term e msg.sender msg.term).0)
      | inr lower ↦ let t : h.state.term ≡ e.term = rw lower at term in inl (t, λ (_, higher). cc)
    ]
switch_term vote_request e msg h low f =
    let same : h ≡ on_vote_request e msg = unfold on_vote_request in some_unique f refl in
    let term = ap (λ (x : Handled). x.state.term) same in
    elim (Bool-cases (lt_bytes e.self.node_id msg.sender && leb e.term msg.term)) [
      | inl granted ↦
          let t : h.state.term ≡ msg.term = rw granted at term in
          inl (t ∙ ground arith, λ (k, _). cc)
      | inr denied ↦ let t : h.state.term ≡ e.term = rw denied at term in inl (t, λ (k, _). cc)
    ]
switch_term vote_grant e msg h low f = inl (on_vote_grant_term e msg h f, λ (k, _). cc)
switch_term vote_deny e msg h low f =
    inl (ap (λ (x : Handled). x.state.term) (some_unique f refl), λ (k, _). cc)
switch_term other_msg e msg h low f =
    inl (ap (λ (x : Handled). x.state.term) (some_unique f refl), λ (k, _). cc)

-- A message that the node handles takes its term back to the message's when it is a heartbeat of an
-- earlier term from a higher id, and to the higher of the two terms when it is any other message.
pub handle_msg-TermAfter :
    (e : Election) (msg : ClusterMsg) (h : Handled)
    → handle_msg e msg ≡ some h
    → TermAfter e msg h.state.term
unfolding handle_msg
handle_msg-TermAfter e msg h f = elim (Bool-cases (ltb e.term msg.term)) [
  | inl later_term ↦
      let e' : Election = record e { term = msg.term } in
      let g : dispatch_kind msg.kind e' msg ≡ some h = rw later_term at f in
      elim (switch_term msg.kind e' msg h (omega arith) g) [
        | inl (same, _) ↦ advanced (λ (_, _, early). ground arith) (ground arith)
        | inr (_, _, same) ↦ advanced (λ (_, _, early). ground arith) (ground arith)
      ]
  | inr old ↦
      let g : dispatch_kind msg.kind e msg ≡ some h = rw old at f in
      elim (switch_term msg.kind e msg h (ground arith) g) [
        | inl (same, no_beat) ↦
            advanced (λ (beat, higher, _). no_beat (beat, higher)) (ground arith)
        | inr (beat, higher, same) ↦ elim (Bool-cases (ltb msg.term e.term)) [
          | inl behind ↦ taken_back (beat, higher, ground arith) same
          | inr level ↦ advanced (λ (_, _, early). ground arith) (ground arith)
        ]
      ]
]

-- A heartbeat of an earlier term from a node with a higher id is followed, and the term goes back.
pub stale_heartbeat_followed :
    (e : Election) (sender : Bytes) (term : ℕ)
    → lt_bytes e.self.node_id sender ≡ true
    → term < e.term
    → (h : Handled) × (handle_msg e (record { kind = heartbeat; sender = sender; term = term })
        ≡ some h)
      × (h.state.term < e.term)
      × (h.state.role ≡ follower)
      × (h.reset ≡ true)
unfolding handle_msg dispatch_kind on_heartbeat
stale_heartbeat_followed e sender term higher early =
    let old : ltb e.term term ≡ false = ground arith in
    let after = set_leader_term e sender term in
    (
      record { state = set_leader e sender term; reset = true; effects = [] },
      rw (old, higher),
      rw after.0 early,
      after.1,
      refl,
    )

-- The timer of a node that has a member with a lower id makes the node a candidate of the next term,
-- also when it leads.
pub timeout_deposes :
    (e : Election)
    → lower_ids e.self.node_id (all_members e.members) ≢ []
    → ((handle_election_timeout e).0.role ≡ candidate)
      × ((handle_election_timeout e).0.term ≡ u64 (e.term + 1))
      × ((handle_election_timeout e).0.grants_had ≡ some [])
timeout_deposes e some_lower = go (lower_ids e.self.node_id (all_members e.members)) refl some_lower
  where
    go :
        (needed : List Bytes)
        → lower_ids e.self.node_id (all_members e.members) ≡ needed
        → needed ≢ []
        → ((handle_election_timeout e).0.role ≡ candidate)
          × ((handle_election_timeout e).0.term ≡ u64 (e.term + 1))
          × ((handle_election_timeout e).0.grants_had ≡ some [])
    go [] f ne = absurd (ne refl)
    go (n ∷ ns) f ne =
        unfold handle_election_timeout in rw (f, handle_election_timeout) (refl, refl, refl)
