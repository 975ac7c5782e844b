-- ===== src/Cluster/Examples.antt =====
-- Three brokers at work.
use pubsub_broker.Base.{
  ℕ, suc, ◌+◌, ◌%◌, ◌≤◌, ◌<◌, ◌≡◌, ◌≢◌, ◌↔◌, refl, Option, some, List, [], ◌∷◌, arith, true, ap,
  replicate, length-replicate, length, get_elem?,
}
use pubsub_broker.Base.Bytes.{Bytes, bytes_comparable}
use pubsub_broker.Base.Words.{u64}
use pubsub_broker.Base.Int.{pos}
use pubsub_broker.Base.Maps.{Map, insert}
use pubsub_broker.Base.Filters.{contains}
use pubsub_broker.Cluster.Registry.{
  Member, Membership, new_membership, new_membership-IsRegistry, add, add-IsRegistry, all_members,
  sorted_members, sort_in, IsRegistry,
}
use pubsub_broker.Cluster.Bully.{
  leader, heartbeat, force_become_leader, Election, ClusterMsg, new_election, lower_ids,
  handle_election_timeout, Handled, handle_msg, dispatch_kind, on_heartbeat, set_leader,
}
use pubsub_broker.Cluster.Leaders.{IsBully, here, next, timeout, force, Reach-IsBully}
use pubsub_broker.Cluster.Grants.{receive_grants, timeout_then_elected}
use pubsub_broker.Cluster.Terms.{TermAfter, handle_msg-TermAfter}
use pubsub_broker.Cluster.InSync.{IsrTracker, IsInSync, isr, isr_iff}
use pubsub_broker.Cluster.Ownership.{assign, owner_of, assign-owner_of}

abbrev member : Bytes → Member
member id = record { node_id = id; addr = id; http_addr = id; joined_at = 0 }

abbrev three : Membership
three = add (add (new_membership (member (2 ∷ []))) (member (1 ∷ []))) (member (3 ∷ []))

three-IsRegistry : IsRegistry three
three-IsRegistry =
    add-IsRegistry (add (new_membership (member (2 ∷ []))) (member (1 ∷ []))) (member (3 ∷ [])) (
      add-IsRegistry (new_membership (member (2 ∷ []))) (member (1 ∷ []))
        (new_membership-IsRegistry (member (2 ∷ []))))

-- The broker of the three whose id is in the middle.
abbrev middle : Election
middle = new_election (member (2 ∷ [])) three

three_lower : lower_ids (2 ∷ []) (all_members three) ≡ (1 ∷ []) ∷ []
unfolding lower_ids all_members sorted_members sort_in add new_membership insert
three_lower = refl

Reach-IsBully_example : IsBully (handle_election_timeout (force_become_leader middle)).0
Reach-IsBully_example =
    Reach-IsBully (member (2 ∷ [])) three three-IsRegistry
      (next (next here (force middle)) (timeout (force_become_leader middle)))

timeout_then_elected_example :
    (e' : Election) × (receive_grants (handle_election_timeout middle).0 ((3 ∷ []) ∷ (1 ∷ []) ∷ [])
      ≡ some e')
    × (e'.role ≡ leader)
    × (e'.known_leader ≡ some (member (2 ∷ [])))
    × (e'.term ≡ u64 (0 + 1))
unfolding new_election
timeout_then_elected_example =
    timeout_then_elected middle ((3 ∷ []) ∷ (1 ∷ []) ∷ []) (rw three_lower (λ e. cc))
      (rw three_lower (λ id h. granted id h))
  where
    granted :
        (id : Bytes)
        → contains id ((1 ∷ []) ∷ []) ≡ true
        → contains id ((3 ∷ []) ∷ (1 ∷ []) ∷ []) ≡ true
    granted id h = ground arith

-- A heartbeat of term 4 from a higher id at a node of term 7.
abbrev beat : ClusterMsg
beat = record { kind = heartbeat; sender = 3 ∷ []; term = 4 }

abbrev ahead : Election
ahead = record middle { term = 7 }

abbrev followed : Handled
followed = record { state = set_leader ahead (3 ∷ []) 4; reset = true; effects = [] }

handle_msg-TermAfter_example : TermAfter ahead beat followed.state.term
handle_msg-TermAfter_example =
    handle_msg-TermAfter ahead beat followed
      (unfold handle_msg dispatch_kind on_heartbeat new_election in refl)

abbrev tracker : IsrTracker
tracker = record {
  replicas =
      (1 ∷ [], record { node_id = 1 ∷ []; last_offset = 7; last_contact = 5 })
      ∷ (3 ∷ [], record { node_id = 3 ∷ []; last_offset = 2; last_contact = 5 })
      ∷ [];
  max_lag_messages = 3;
  max_lag = 10;
}

isr_iff_example :
    (contains (1 ∷ []) (isr 9 tracker (2 ∷ []) 8) ≡ true) ↔ IsInSync 9 tracker (2 ∷ []) 8 (1 ∷ [])
isr_iff_example = isr_iff 9 tracker (2 ∷ []) 8 (1 ∷ []) (((λ e. cc), tt), (tt, tt))

abbrev brokers : List Bytes
brokers = (1 ∷ []) ∷ (2 ∷ []) ∷ (3 ∷ []) ∷ []

assign-owner_of_example :
    ((4 < suc 7)
      → get_elem? brokers (4 % length brokers)
        ≡ some
            (owner_of (assign (record { owner = [] }) (9 ∷ []) (pos (suc 7)) brokers) (9 ∷ []) 4))
    × ((suc 7 ≤ 4)
        → owner_of (assign (record { owner = [] }) (9 ∷ []) (pos (suc 7)) brokers) (9 ∷ []) 4 ≡ [])
    × ((other : Bytes)
        → other ≢ 9 ∷ []
        → owner_of (assign (record { owner = [] }) (9 ∷ []) (pos (suc 7)) brokers) other 4
          ≡ owner_of (record { owner = [] }) other 4)
assign-owner_of_example =
    assign-owner_of (record { owner = [] }) (9 ∷ []) 7 (1 ∷ []) ((2 ∷ []) ∷ (3 ∷ []) ∷ []) 4

-- Numbers in unary notation.
abbrev unary : ℕ → Bytes
unary n = replicate n 49

abbrev of_unary : Bytes → Option ℕ
of_unary bs = some (length bs)

of_unary-unary : (p : ℕ) → of_unary (unary p) ≡ some p
of_unary-unary p = ap some (length-replicate p 49)

abbrev owners : Map Bytes (Map ℕ Bytes)
owners = (9 ∷ [], (0, 1 ∷ []) ∷ (1, 2 ∷ []) ∷ []) ∷ []
