-- ===== src/Raft/Convergence.antt =====
-- Replication between a leader and a follower: what the leader sends, what the follower holds
-- afterwards, and what it reports.
use pubsub_broker.Base.{
  ℕ, ◌+◌, ◌-◌, ◌≤◌, ◌<◌, ◌≡◌, ◌⊎◌, refl, sym, ap, ◌∙◌, true, some, List, [], ◌++◌, arith, inl, inr,
  leb, length, take, drop, Bool-cases, String, some_unique, length-append, take-append_add,
  take-append-drop, take_all,
}
use mathlib.Core.List.{append-nil}
use pubsub_broker.Base.Words.{IsU64}
use pubsub_broker.Raft.State.{
  LogEntry, Node, Outcome, PersistentState, AppendEntriesArgs, AppendEntriesReply, append_response,
}
use pubsub_broker.Raft.Log.{persist, AppendResult, send_to}
use pubsub_broker.Raft.Election.{adopt_term}
use pubsub_broker.Raft.Sending.{append_args}
use pubsub_broker.Raft.Replication.{follow_later, handle_append_entries, append_reply}
use pubsub_broker.Raft.Merge.{merge, IsMatching, take-merge}
use pubsub_broker.Raft.Append.{HasPrevious, AppendOutcome, merged}
use pubsub_broker.Raft.Keeps.{follow_commit-Keeps}
use pubsub_broker.Raft.Following.{adopted, IsStale, IsFollowed, handle_append_entries_cases}

-- For a next index within the log or just behind it, the message carries the rest of the log: the
-- entries before it and those in it are the whole log.
pub append_args_complete :
    (n : Node) (next : ℕ)
    → 1 ≤ next
    → next ≤ length n.state.log + 1
    → IsU64 (length n.state.log + 1)
    → ((append_args n next).prev_log_index ≡ next - 1)
      × (take (next - 1) n.state.log ++ (append_args n next).entries ≡ n.state.log)
unfolding append_args
append_args_complete n next h k w = elim (Bool-cases (leb next (length n.state.log))) [
  | inl inside ↦
      let above : leb 1 next ≡ true = ground arith in
      (omega arith, rw (inside, above) (take-append-drop (next - 1) n.state.log))
  | inr outside ↦
      (omega arith, rw outside (append-nil _ ∙ take_all n.state.log (next - 1) (ground arith)))
]

adopted_log : (n : Node) (args : AppendEntriesArgs) → (adopted n args).state.log ≡ n.state.log
unfolding adopt_term follow_later persist
adopted_log n args = ground arith

stored_log :
    (n : Node) (prev_index prev_term : ℕ) (es : List LogEntry) (r : AppendResult)
    → AppendOutcome n prev_index prev_term es r
    → (HasPrevious n.state.log prev_index prev_term × (r.node.state.log ≡ merged n prev_index es))
      ⊎ ((¬ (HasPrevious n.state.log prev_index prev_term)) × (r.node.state.log ≡ n.state.log))
unfolding persist
stored_log n prev_index prev_term es r (inl (h, t, e)) = inl (h, rw e)
stored_log n prev_index prev_term es r (inr (h, t, e)) = inr (h, rw e)

-- The log after a message that is not stale: the merge if the previous entry is in place, and the
-- log as it was if not.
pub handle_append_entries_log :
    (n : Node) (from : String) (args : AppendEntriesArgs) (o : Outcome)
    → handle_append_entries n from args ≡ some o
    → n.state.current_term ≤ args.term
    → (HasPrevious n.state.log args.prev_log_index args.prev_log_term
        × (o.node.state.log ≡ merged n args.prev_log_index args.entries))
      ⊎ ((¬ (HasPrevious n.state.log args.prev_log_index args.prev_log_term))
          × (o.node.state.log ≡ n.state.log))
handle_append_entries_log n from args o h reached =
    let (o', eq, case) = handle_append_entries_cases n from args in
    let same : o' ≡ o = some_unique eq h in rw (← same) (go o' case)
  where
    go :
        (o' : Outcome)
        → IsStale n args o' ⊎ IsFollowed n args o'
        → (HasPrevious n.state.log args.prev_log_index args.prev_log_term
            × (o'.node.state.log ≡ merged n args.prev_log_index args.entries))
          ⊎ ((¬ (HasPrevious n.state.log args.prev_log_index args.prev_log_term))
              × (o'.node.state.log ≡ n.state.log))
    go o' (inl s) = absurd (omega (arith, s.earlier))
    go o' (inr f) =
        let k = follow_commit-Keeps (f.result) args.leader_commit (o'.node) f.committed in
        let same_log : o'.node.state.log ≡ f.result.node.state.log =
          ap (λ (st : PersistentState). st.log) k.state in
        rw (same_log, ← adopted_log n args) (stored_log (adopted n args) _ _ _ (f.result) f.outcome)

merged_whole :
    (old log es : List LogEntry) (p : ℕ)
    → take p old ≡ take p log
    → take p log ++ es ≡ log
    → IsMatching (drop p old) es
    → take (length log) (take p old ++ merge (drop p old) es) ≡ log
merged_whole old log es p agree whole match =
    let size : length log ≡ length (take p old) + length es =
      ap length (sym whole)
      ∙ length-append (take p log) es
      ∙ ap (λ (xs : List LogEntry). length xs + length es) (sym agree) in
    rw size (
      take-append_add (take p old) (merge (drop p old) es) (length es)
      ∙ ap (λ (xs : List LogEntry). take p old ++ xs) (take-merge (drop p old) es match)
      ∙ ap (λ (xs : List LogEntry). xs ++ es) agree
      ∙ whole)

append_args_term : (n : Node) (next : ℕ) → (append_args n next).term ≡ n.state.current_term
unfolding append_args
append_args_term n next = refl

-- A follower whose log agrees with the leader's before the next index, and satisfies log matching
-- with the entries behind it, holds the leader's whole log after one message of the leader.
pub follower_catches_up :
    (leader_node n : Node) (next : ℕ) (from : String) (o : Outcome)
    → 1 ≤ next
    → next ≤ length leader_node.state.log + 1
    → IsU64 (length leader_node.state.log + 1)
    → n.state.current_term ≤ leader_node.state.current_term
    → take (next - 1) n.state.log ≡ take (next - 1) leader_node.state.log
    → HasPrevious n.state.log (next - 1) ((append_args leader_node next).prev_log_term)
    → IsMatching (drop (next - 1) n.state.log) ((append_args leader_node next).entries)
    → handle_append_entries n from (append_args leader_node next) ≡ some o
    → take (length leader_node.state.log) (o.node.state.log) ≡ leader_node.state.log
follower_catches_up leader_node n next from o h k w t agree has match run =
    let args = append_args leader_node next in
    let (prev, whole) = append_args_complete leader_node next h k w in
    let reached : n.state.current_term ≤ args.term = rw (append_args_term leader_node next) t in
    finish (rw prev at (handle_append_entries_log n from args o run reached)) whole
  where
    finish :
        ((HasPrevious n.state.log (next - 1) ((append_args leader_node next).prev_log_term)
            × (o.node.state.log ≡ merged n (next - 1) ((append_args leader_node next).entries)))
          ⊎ ((¬ (HasPrevious n.state.log (next - 1) ((append_args leader_node next).prev_log_term)))
              × (o.node.state.log ≡ n.state.log)))
        → take (next - 1) leader_node.state.log ++ (append_args leader_node next).entries
          ≡ leader_node.state.log
        → take (length leader_node.state.log) (o.node.state.log) ≡ leader_node.state.log
    finish (inl (_, e)) whole =
        rw e (merged_whole n.state.log leader_node.state.log _ (next - 1) agree whole match)
    finish (inr (absent, _)) whole = absurd (absent has)

merge_empty : (xs : List LogEntry) → merge xs [] ≡ xs
unfolding merge
merge_empty xs = refl

reported :
    (n : Node) (prev_index prev_term : ℕ) (es : List LogEntry) (r : AppendResult) (term : ℕ)
    → AppendOutcome n prev_index prev_term es r
    → HasPrevious n.state.log prev_index prev_term
    → es ≡ []
    → ((append_reply term r).success ≡ true)
      × ((append_reply term r).match_index ≡ length n.state.log)
unfolding append_reply persist
reported n prev_index prev_term es r term (inr (absent, _, _)) has empty = absurd (absent has)
reported n prev_index prev_term es r term (inl (_, t, e)) has empty =
    let whole : merged n prev_index es ≡ n.state.log =
      rw (empty, merge_empty) (take-append-drop prev_index n.state.log) in
    (t, rw (t, e, whole))

-- The match index that a follower reports is the length of its whole log, also where the message only
-- vouches for a part of it: with entries of its own behind the previous one, a follower that accepts
-- a heartbeat, which brings none, reports an index past what the leader has compared.
pub match_index_overstates :
    (n : Node) (from : String) (args : AppendEntriesArgs) (o : Outcome)
    → handle_append_entries n from args ≡ some o
    → n.state.current_term ≤ args.term
    → HasPrevious n.state.log args.prev_log_index args.prev_log_term
    → args.entries ≡ []
    → args.prev_log_index < length n.state.log
    → (reply : AppendEntriesReply) × (o.sent
        ≡ send_to (o.node) args.leader_id (append_response (o.node.self_id) reply))
      × (reply.success ≡ true)
      × (reply.match_index ≡ length n.state.log)
      × (args.prev_log_index + length args.entries < reply.match_index)
match_index_overstates n from args o h reached has empty short =
    let (o', eq, case) = handle_append_entries_cases n from args in
    let same : o' ≡ o = some_unique eq h in rw (← same) (go o' case)
  where
    go :
        (o' : Outcome)
        → IsStale n args o' ⊎ IsFollowed n args o'
        → (reply : AppendEntriesReply) × (o'.sent
            ≡ send_to (o'.node) args.leader_id (append_response (o'.node.self_id) reply))
          × (reply.success ≡ true)
          × (reply.match_index ≡ length n.state.log)
          × (args.prev_log_index + length args.entries < reply.match_index)
    go o' (inl s) = absurd (omega (arith, s.earlier))
    go o' (inr f) =
        let (s, m) =
          reported (adopted n args) args.prev_log_index args.prev_log_term args.entries (f.result)
            args.term f.outcome (rw (adopted_log n args) has) empty in
        let size : (append_reply args.term (f.result)).match_index ≡ length n.state.log =
          m ∙ ap length (adopted_log n args) in
        (append_reply args.term (f.result), f.sent, s, size, rw (size, empty) (omega arith))
