-- ===== src/Cluster/Grants.antt =====
-- How elections are won and lost: who must grant, what a stale heartbeat does, and what a leader's own
-- timer does.
use pubsub_broker.Base.{
  ◌+◌, ◌≡◌, ◌≢◌, ◌⊎◌, inl, inr, refl, ap, ◌∙◌, true, false, Option, none, some, List, [], ◌∷◌,
  arith, if◌then◌else◌, ◌&&◌, ltb, ◌==◌, nat_comparable, Bool-cases,
}
use pubsub_broker.Base.Bytes.{Bytes, bytes_comparable, bytes_beq_iff}
use pubsub_broker.Base.Words.{u64}
use pubsub_broker.Base.Maps.{beq_refl}
use pubsub_broker.Base.Filters.{contains}
use pubsub_broker.Cluster.Registry.{all_members}
use pubsub_broker.Cluster.Bully.{
  candidate, leader, is_candidate, vote_grant, ClusterMsg, Election, become_leader, lower_ids,
  handle_election_timeout, count_grant, record_grant, on_vote_grant, dispatch_kind, handle_msg,
  all_granted, add_id, ids_or_nil,
}

contains-add_id :
    (s id : Bytes) (had : List Bytes)
    → contains id (add_id s had) ≡ (if s == id then true else contains id had)
unfolding add_id
contains-add_id s id had = elim (Bool-cases (contains s had)) [
  | inl old ↦ elim (Bool-cases (s == id)) [
    | inl same ↦ let e : s ≡ id = (bytes_beq_iff s id).0 same in rw (old, same) (rw e at old)
    | inr other ↦ rw (old, other)
  ]
  | inr new ↦ rw new
]

all_granted_lem :
    (had ids : List Bytes)
    → ((id : Bytes) → contains id ids ≡ true → contains id had ≡ true)
    → all_granted had ids ≡ true
unfolding all_granted
all_granted_lem had [] h = refl
all_granted_lem had (x ∷ xs) h =
    let first : contains x had ≡ true = h x (rw (beq_refl x)) in
    rw (first, all_granted_lem had xs (λ id e. h id (later_ids id e)))
  where
    later_ids : (id : Bytes) → contains id xs ≡ true → contains id (x ∷ xs) ≡ true
    later_ids id e = elim (Bool-cases (x == id)) [ inl same ↦ rw same | inr other ↦ rw other e ]

-- All the ids added.
unfoldable pub add_all : List Bytes → List Bytes → List Bytes
add_all [] had = had
add_all (s ∷ ss) had = add_all ss (add_id s had)

contains-add_all :
    (ss had : List Bytes) (id : Bytes)
    → (contains id ss ≡ true) ⊎ (contains id had ≡ true)
    → contains id (add_all ss had) ≡ true
unfolding add_all
contains-add_all [] had id (inl bad) = cc
contains-add_all [] had id (inr old) = old
contains-add_all (s ∷ ss) had id h = elim (Bool-cases (s == id)) [
  | inl same ↦ contains-add_all ss (add_id s had) id (inr (rw (contains-add_id s id had, same)))
  | inr other ↦ elim h [
    | inl new ↦ contains-add_all ss (add_id s had) id (inl (rw other at new))
    | inr old ↦
        contains-add_all ss (add_id s had) id (inr (rw (contains-add_id s id had, other) old))
  ]
]

abbrev pub grant : Election → Bytes → ClusterMsg
grant e id = record { kind = vote_grant; sender = id; term = e.term }

-- A vote granted for the term of the node, at a candidate and at any other node.
handle_grant :
    (e : Election) (id : Bytes) (had : List Bytes)
    → is_candidate e.role ≡ true
    → e.grants_had ≡ some had
    → handle_msg e (grant e id) ≡ some (count_grant e (add_id id had))
unfolding handle_msg dispatch_kind on_vote_grant
handle_grant e id had stands g =
    let same : ltb e.term e.term ≡ false = ground arith in
    let own : (e.term == e.term) ≡ true = ground arith in
    let test : (is_candidate e.role && (e.term == e.term)) ≡ true = ground arith in
    rw (same, test) (ap (λ o. record_grant o e (grant e id)) g ∙ unfold record_grant in refl)

ignore_grant :
    (e : Election) (id : Bytes)
    → is_candidate e.role ≡ false
    → handle_msg e (grant e id) ≡ some (record { state = e; reset = false; effects = [] })
unfolding handle_msg dispatch_kind on_vote_grant
ignore_grant e id stands =
    let same : ltb e.term e.term ≡ false = ground arith in
    let test : (is_candidate e.role && (e.term == e.term)) ≡ false = ground arith in rw (same, test)

-- Grants for the term of the node, one behind the other.
unfoldable pub receive_grants : Election → List Bytes → Option Election
receive_grants e [] = some e
receive_grants e (id ∷ ids) = elim (handle_msg e (grant e id)) [
  | none ↦ none
  | some h ↦ receive_grants h.state ids
]

ignore_grants :
    (e : Election) (ids : List Bytes) → is_candidate e.role ≡ false → receive_grants e ids ≡ some e
unfolding receive_grants
ignore_grants e [] h = refl
ignore_grants e (id ∷ ids) h = rw (ignore_grant e id h, receive_grants) (ignore_grants e ids h)

-- A won election: the term is the one before, and the callback of a new leader ran once.
abbrev pub IsElected : Election → Election → Type 0
IsElected e e' =
    (e'.role ≡ leader)
    × (e'.known_leader ≡ some e.self)
    × (e'.term ≡ e.term)
    × (e'.callbacks ≡ e.callbacks + 1)

elects :
    (e : Election) (ids had : List Bytes)
    → is_candidate e.role ≡ true
    → e.grants_had ≡ some had
    → all_granted had (ids_or_nil e.grants_needed) ≡ false
    → all_granted (add_all ids had) (ids_or_nil e.grants_needed) ≡ true
    → (e' : Election) × (receive_grants e ids ≡ some e') × IsElected e e'
unfolding receive_grants add_all
elects e [] had stands g lacks full = cc
elects e (id ∷ ids) had stands g lacks full =
    elim (Bool-cases (all_granted (add_id id had) (ids_or_nil e.grants_needed))) [
      | inl complete ↦
          let won : Election = (become_leader (record e { grants_had = some (add_id id had) })).0 in
          let counted : (count_grant e (add_id id had)).state ≡ won =
            unfold count_grant in rw complete in
          let rest : receive_grants won ids ≡ some won =
            unfold become_leader in ignore_grants won ids refl in
          (
            won,
            rw (handle_grant e id had stands g, receive_grants, counted) rest,
            unfold become_leader in (refl, refl, refl, refl),
          )
      | inr waits ↦
          let e' : Election = record e { grants_had = some (add_id id had) } in
          let counted : (count_grant e (add_id id had)).state ≡ e' =
            unfold count_grant in rw waits in
          let (won, f, elected) = elects e' ids (add_id id had) stands refl waits full in
          (won, rw (handle_grant e id had stands g, receive_grants, counted) f, elected)
    ]

-- A node whose election timer fires, and that then gets the grant of every member with a lower id for
-- its new term, in any order, becomes the leader of that term.
pub timeout_then_elected :
    (e : Election) (ids : List Bytes)
    → lower_ids e.self.node_id (all_members e.members) ≢ []
    → ((id : Bytes)
        → contains id (lower_ids e.self.node_id (all_members e.members)) ≡ true
        → contains id ids ≡ true)
    → (e' : Election) × (receive_grants (handle_election_timeout e).0 ids ≡ some e')
      × (e'.role ≡ leader)
      × (e'.known_leader ≡ some e.self)
      × (e'.term ≡ u64 (e.term + 1))
timeout_then_elected e ids some_lower granted =
    go (lower_ids e.self.node_id (all_members e.members)) refl some_lower granted
  where
    go :
        (needed : List Bytes)
        → lower_ids e.self.node_id (all_members e.members) ≡ needed
        → needed ≢ []
        → ((id : Bytes) → contains id needed ≡ true → contains id ids ≡ true)
        → (e' : Election) × (receive_grants (handle_election_timeout e).0 ids ≡ some e')
          × (e'.role ≡ leader)
          × (e'.known_leader ≡ some e.self)
          × (e'.term ≡ u64 (e.term + 1))
    go [] f ne all_of = absurd (ne refl)
    go (n ∷ ns) f ne all_of =
        let soliciting : List Bytes → Election = λ (xs : List Bytes). record e {
          term = u64 (e.term + 1);
          role = candidate;
          grants_needed = some xs;
          grants_had = some [];
        } in
        let started : Election = soliciting (n ∷ ns) in
        let begins : (handle_election_timeout e).0 ≡ started =
          unfold handle_election_timeout in rw (f, handle_election_timeout) (ap soliciting f) in
        let full =
          all_granted_lem (add_all ids []) (n ∷ ns)
            (λ id h. contains-add_all ids [] id (inl (all_of id h))) in
        let (e', g, elected) = elects started ids [] refl refl (unfold all_granted in refl) full in
        (e', rw begins g, elected.0, elected.1, elected.2)
