-- ===== src/Raft/Votes.antt =====
-- Votes: when one is granted, that a vote binds the node to its candidate against other candidates
-- of the term, and that a message of the term's leader releases it.
use pubsub_broker.Base.{
  ℕ, ◌≤◌, ◌<◌, ◌≡◌, ◌≢◌, ◌⊎◌, ◌↔◌, refl, sym, ap, ◌∙◌, true, false, some, List, arith, inl, inr,
  ltb, nat_comparable, string_comparable, str_iff, Bool-cases, String, some_unique,
}
use pubsub_broker.Raft.State.{
  Node, Outcome, RequestVoteArgs, AppendEntriesArgs, PersistentState, LogEntry,
}
use pubsub_broker.Raft.Log.{persist, last_log_index_and_term, AppendResult}
use pubsub_broker.Raft.Election.{
  adopt_term, catch_up, log_up_to_date, grants_vote, record_vote, vote_reply, handle_request_vote,
}
use pubsub_broker.Raft.Replication.{handle_append_entries}
use pubsub_broker.Raft.Append.{AppendOutcome}
use pubsub_broker.Raft.Keeps.{follow_commit-Keeps}
use pubsub_broker.Raft.Following.{adopted, IsStale, IsFollowed, handle_append_entries_cases}

-- The candidate's log ends in a later term, or in the same term at no smaller an index.
abbrev pub IsUpToDate : List LogEntry → RequestVoteArgs → Type 0
IsUpToDate log args =
    ((last_log_index_and_term log).1 < args.last_log_term)
    ⊎ ((args.last_log_term ≡ (last_log_index_and_term log).1)
        × ((last_log_index_and_term log).0 ≤ args.last_log_index))

log_up_to_date_iff :
    (n : Node) (args : RequestVoteArgs)
    → (log_up_to_date n args ≡ true) ↔ IsUpToDate n.state.log args
unfolding log_up_to_date
log_up_to_date_iff n args = ground arith

catch_up_log : (n : Node) (term : ℕ) → (catch_up n term).state.log ≡ n.state.log
unfolding catch_up adopt_term persist
catch_up_log n term = ground arith

grants_vote_iff :
    (n : Node) (args : RequestVoteArgs)
    → (grants_vote n args ≡ true) ↔ (
        (n.state.current_term ≤ args.term)
        × ((n.state.voted_for ≡ "") ⊎ (n.state.voted_for ≡ args.candidate_id))
        × IsUpToDate n.state.log args)
unfolding grants_vote
grants_vote_iff n args = (
  λ h. ground (
    arith,
    log_up_to_date_iff n args,
    str_iff n.state.voted_for "",
    str_iff n.state.voted_for args.candidate_id,
  ),
  λ h. ground (
    arith,
    log_up_to_date_iff n args,
    str_iff n.state.voted_for "",
    str_iff n.state.voted_for args.candidate_id,
  ),
)

catch_up_later :
    (n : Node) (term : ℕ)
    → n.state.current_term < term
    → ((catch_up n term).state.current_term ≡ term) × ((catch_up n term).state.voted_for ≡ "")
unfolding catch_up adopt_term persist
catch_up_later n term h = ground arith

catch_up_known : (n : Node) (term : ℕ) → term ≤ n.state.current_term → catch_up n term ≡ n
unfolding catch_up
catch_up_known n term h = ground arith

-- The conditions of a granted vote, no more and no less: the term is not an earlier one, the vote of
-- the term is free or already the candidate's, and the candidate's log is up to date.
pub vote_reply_granted :
    (n : Node) (args : RequestVoteArgs)
    → ((vote_reply n args).vote_granted ≡ true) ↔ (
        (n.state.current_term ≤ args.term)
        × ((n.state.current_term < args.term)
            ⊎ ((n.state.voted_for ≡ "") ⊎ (n.state.voted_for ≡ args.candidate_id)))
        × IsUpToDate n.state.log args)
unfolding vote_reply
vote_reply_granted n args = elim (Bool-cases (ltb n.state.current_term args.term)) [
  | inl late ↦
      let less : n.state.current_term < args.term = ground arith in
      let (t, v) = catch_up_later n args.term less in
      let g = grants_vote_iff (catch_up n args.term) args in
      let l = catch_up_log n args.term in
      (
        λ h. (ground arith, inl less, rw l at ((g.0 h).2)),
        λ h. g.1 (rw t (ground arith), inl v, rw l h.2),
      )
  | inr known ↦
      let m = catch_up_known n args.term (ground arith) in
      let g = grants_vote_iff n args in
      (
        λ h. let (t, v, u) = g.0 (rw m at h) in (t, inr v, u),
        λ h. rw m (g.1 (h.0, elim h.1 [ inl less ↦ absurd (ground arith) | inr v ↦ v ], h.2)),
      )
]

record_vote_granted :
    (n : Node) (args : RequestVoteArgs)
    → grants_vote n args ≡ true
    → ((record_vote n args).state.voted_for ≡ args.candidate_id)
      × ((record_vote n args).state.current_term ≡ n.state.current_term)
unfolding record_vote persist
record_vote_granted n args h = ground arith

catch_up-reaches :
    (n : Node) (term : ℕ)
    → n.state.current_term ≤ term
    → (catch_up n term).state.current_term ≡ term
unfolding catch_up adopt_term persist
catch_up-reaches n term h = ground arith

-- A granted vote is recorded with its term.
pub granted_recorded :
    (n : Node) (from : String) (args : RequestVoteArgs)
    → (vote_reply n args).vote_granted ≡ true
    → ((handle_request_vote n from args).node.state.voted_for ≡ args.candidate_id)
      × ((handle_request_vote n from args).node.state.current_term ≡ args.term)
unfolding handle_request_vote vote_reply
granted_recorded n from args h =
    let (reached, _, _) = (vote_reply_granted n args).0 (unfold vote_reply in h) in
    let (v, t) = record_vote_granted (catch_up n args.term) args h in
    (v, t ∙ catch_up-reaches n args.term reached)

-- A node that has granted its vote to a candidate whose id is not empty refuses, on the next request,
-- every other candidate of the same or an earlier term. (A vote for the empty id leaves the vote free.)
pub vote_once :
    (n : Node) (from : String) (first second : RequestVoteArgs)
    → (vote_reply n first).vote_granted ≡ true
    → first.candidate_id ≢ ""
    → second.candidate_id ≢ first.candidate_id
    → second.term ≤ first.term
    → (vote_reply ((handle_request_vote n from first).node) second).vote_granted ≡ false
vote_once n from first second granted named other term =
    let n' = (handle_request_vote n from first).node in
    elim (Bool-cases ((vote_reply n' second).vote_granted)) [
      | inr refused ↦ refused
      | inl again ↦
          let (v, t) = granted_recorded n from first granted in
          absurd (clash n' v t ((vote_reply_granted n' second).0 again))
    ]
  where
    clash :
        (n' : Node)
        → n'.state.voted_for ≡ first.candidate_id
        → n'.state.current_term ≡ first.term
        → (n'.state.current_term ≤ second.term)
          × ((n'.state.current_term < second.term)
              ⊎ ((n'.state.voted_for ≡ "") ⊎ (n'.state.voted_for ≡ second.candidate_id)))
          × IsUpToDate n'.state.log second
        → ⊥
    clash n' v t (reached, inl less, u) = absurd (omega arith)
    clash n' v t (reached, inr (inl free), u) = named (sym v ∙ free)
    clash n' v t (reached, inr (inr same), u) = other (sym same ∙ v)

adopted_vote : (n : Node) (args : AppendEntriesArgs) → (adopted n args).state.voted_for ≡ ""
unfolding adopt_term persist
adopted_vote n args = refl

adopted_term :
    (n : Node) (args : AppendEntriesArgs) → (adopted n args).state.current_term ≡ args.term
unfolding adopt_term persist
adopted_term n args = refl

append_vote :
    (n : Node) (prev_index prev_term : ℕ) (es : List LogEntry) (r : AppendResult)
    → AppendOutcome n prev_index prev_term es r
    → (r.node.state.voted_for ≡ n.state.voted_for)
      × (r.node.state.current_term ≡ n.state.current_term)
unfolding persist
append_vote n prev_index prev_term es r (inl (h, t, e)) = rw e (refl, refl)
append_vote n prev_index prev_term es r (inr (h, t, e)) = rw e (refl, refl)

-- A message of the current term from its leader leaves the vote free, whatever the node had voted.
pub append_entries_frees_vote :
    (n : Node) (from : String) (args : AppendEntriesArgs) (o : Outcome)
    → handle_append_entries n from args ≡ some o
    → n.state.current_term ≤ args.term
    → (o.node.state.voted_for ≡ "") × (o.node.state.current_term ≡ args.term)
append_entries_frees_vote n from args o h reached =
    let (o', eq, case) = handle_append_entries_cases n from args in
    let same : o' ≡ o = some_unique eq h in rw (← same) (go o' case)
  where
    go :
        (o' : Outcome)
        → IsStale n args o' ⊎ IsFollowed n args o'
        → (o'.node.state.voted_for ≡ "") × (o'.node.state.current_term ≡ args.term)
    go o' (inl s) = absurd (omega (arith, s.earlier))
    go o' (inr f) =
        let k = follow_commit-Keeps (f.result) args.leader_commit (o'.node) f.committed in
        let (v, t) = append_vote (adopted n args) _ _ _ (f.result) f.outcome in
        (
          ap (λ (st : PersistentState). st.voted_for) k.state ∙ v ∙ adopted_vote n args,
          ap (λ (st : PersistentState). st.current_term) k.state ∙ t ∙ adopted_term n args,
        )

-- So a node can vote twice in one term: after any message of the term from its leader it grants its
-- vote to every candidate of that term whose log is up to date, also if it had voted for another.
pub votes_again :
    (n : Node) (from : String) (args : AppendEntriesArgs) (o : Outcome) (second : RequestVoteArgs)
    → handle_append_entries n from args ≡ some o
    → args.term ≡ n.state.current_term
    → second.term ≡ n.state.current_term
    → IsUpToDate (o.node.state.log) second
    → (vote_reply (o.node) second).vote_granted ≡ true
votes_again n from args o second h same_term in_term up =
    let (free, t) = append_entries_frees_vote n from args o h (omega arith) in
    (vote_reply_granted (o.node) second).1 (omega arith, inr (inl free), up)
