-- ===== src/Dlq/Removal.antt =====
-- What Replay, Purge and Delete take out of the dead-letter queue, and what they leave.
use pubsub_broker.Base.{
  ℕ, zero, suc, ◌+◌, ◌≤◌, ◌<◌, ◌≡◌, refl, ap, ◌∙◌, Bool, true, false, not, Option, none, some, List,
  [], ◌∷◌, ◌++◌, arith, inl, inr, length, get_elem?, take, drop, Bool-cases, get_elem?_in_range,
  leb, All,
}
use pubsub_broker.Base.Bytes.{Bytes}
use pubsub_broker.Base.Int.{ℤ, positive_or}
use pubsub_broker.Base.Filters.{filter, length_partition}
use pubsub_broker.Dlq.Queue.{
  DlqEntry, DeadLetterQueue, matched, matched_id, replay_loop, replay, purge_loop, purge,
  find_below, get, delete, Message, republish_loop, dlq_replay,
}

module _ (test : DlqEntry → Bool) where
  removed_lem :
      (room : ℕ) (es : List DlqEntry) → (replay_loop test room es).0 ≡ take room (filter test es)
  unfolding replay_loop
  removed_lem zero [] = refl
  removed_lem (suc room) [] = refl
  removed_lem zero (e ∷ es) = removed_lem zero es ∙ refl
  removed_lem (suc room) (e ∷ es) = elim (Bool-cases (test e)) [
    | inl holds ↦ rw (holds, replay_loop) (ap (λ xs. e ∷ xs) (removed_lem room es))
    | inr fails ↦ rw (fails, replay_loop) (removed_lem (suc room) es)
  ]

  remaining_matching :
      (room : ℕ) (es : List DlqEntry)
      → filter test (replay_loop test room es).1 ≡ drop room (filter test es)
  unfolding replay_loop
  remaining_matching zero [] = refl
  remaining_matching (suc room) [] = refl
  remaining_matching zero (e ∷ es) = elim (Bool-cases (test e)) [
    | inl holds ↦ rw holds (ap (λ xs. e ∷ xs) (remaining_matching zero es))
    | inr fails ↦ rw fails (remaining_matching zero es)
  ]
  remaining_matching (suc room) (e ∷ es) = elim (Bool-cases (test e)) [
    | inl holds ↦ rw (holds, replay_loop) (remaining_matching room es)
    | inr fails ↦ rw (fails, replay_loop, fails) (remaining_matching (suc room) es)
  ]

  remaining_others :
      (room : ℕ) (es : List DlqEntry)
      → filter (λ e. not (test e)) (replay_loop test room es).1 ≡ filter (λ e. not (test e)) es
  unfolding replay_loop
  remaining_others zero [] = refl
  remaining_others (suc room) [] = refl
  remaining_others zero (e ∷ es) = rw (remaining_others zero es)
  remaining_others (suc room) (e ∷ es) = elim (Bool-cases (test e)) [
    | inl holds ↦ rw (holds, replay_loop) (remaining_others room es)
    | inr fails ↦
        rw (fails, replay_loop, fails) (ap (λ xs. e ∷ xs) (remaining_others (suc room) es))
  ]

  purge_loop_lem :
      (es : List DlqEntry)
      → purge_loop test es ≡ (length (filter test es), filter (λ e. not (test e)) es)
  unfolding purge_loop
  purge_loop_lem [] = refl
  purge_loop_lem (e ∷ es) = elim (Bool-cases (test e)) [
    | inl holds ↦ rw (purge_loop_lem es, holds)
    | inr fails ↦ rw (purge_loop_lem es, fails)
  ]

-- Replay removes the oldest matching entries, at most the limit, which is 10 when it is not positive.
-- The matching entries beyond the limit and all the others stay, in their order.
pub replay_lem :
    (q : DeadLetterQueue) (group topic : Bytes) (limit : ℤ)
    → ((replay q group topic limit).1
        ≡ take (positive_or 10 limit) (filter (matched group topic) q.entries))
      × (filter (matched group topic) (replay q group topic limit).0.entries
          ≡ drop (positive_or 10 limit) (filter (matched group topic) q.entries))
      × (filter (λ e. not (matched group topic e)) (replay q group topic limit).0.entries
          ≡ filter (λ e. not (matched group topic e)) q.entries)
unfolding replay
replay_lem q group topic limit =
    let test : DlqEntry → Bool = matched group topic in
    (
      removed_lem test (positive_or 10 limit) q.entries,
      remaining_matching test (positive_or 10 limit) q.entries,
      remaining_others test (positive_or 10 limit) q.entries,
    )

-- Purge leaves the entries that do not match, in their order, and returns how many it removed.
pub purge_lem :
    (q : DeadLetterQueue) (group topic : Bytes)
    → ((purge q group topic).0.entries ≡ filter (λ e. not (matched group topic e)) q.entries)
      × ((purge q group topic).1 + length (purge q group topic).0.entries ≡ length q.entries)
unfolding purge
purge_lem q group topic =
    let e = purge_loop_lem (matched group topic) q.entries in
    (ap (λ r. r.1) e, rw e (length_partition (matched group topic) q.entries))

-- Nothing from index `k` up to below `n` passes the test.
abbrev pub NoneFrom : (DlqEntry → Bool) → List DlqEntry → ℕ → ℕ → Type 0
NoneFrom test es k n =
    (j : ℕ) (e : DlqEntry) → k ≤ j → j < n → get_elem? es j ≡ some e → test e ≡ false

-- How a search down from index `n` ends.
data Search (test : DlqEntry → Bool) (es : List DlqEntry) (n : ℕ) : Type 0 where
  missing : find_below test es n ≡ none → NoneFrom test es 0 n → Search test es n
  found :
      (i : ℕ) (e : DlqEntry)
      → find_below test es n ≡ some i
      → i < n
      → get_elem? es i ≡ some e
      → test e ≡ true
      → NoneFrom test es (suc i) n
      → Search test es n

search : (test : DlqEntry → Bool) (es : List DlqEntry) (n : ℕ) → n ≤ length es → Search test es n
unfolding find_below
search test es zero h = missing refl (λ j e low high f. absurd (omega arith))
search test es (suc n) h =
    let (e, f) = get_elem?_in_range es n (omega arith) in
    elim (Bool-cases (test e)) [
      | inl holds ↦
          found n e (rw (f, find_below, holds)) (omega arith) f holds
            (λ j d low high g. absurd (omega arith))
      | inr fails ↦ elim (search test es n (omega arith)) [
        | missing none_found rest ↦
            missing (rw (f, find_below, fails) none_found)
              (λ j d low high g. below test es n e f fails rest j d low high g)
        | found i d at_i below_n g holds rest ↦
            found i d (rw (f, find_below, fails) at_i) (omega arith) g holds
              (λ j d low high g. below test es n e f fails rest j d low high g)
      ]
    ]
  where
    below :
        (test : DlqEntry → Bool) (es : List DlqEntry) (n : ℕ) {k : ℕ} (e : DlqEntry)
        → get_elem? es n ≡ some e
        → test e ≡ false
        → NoneFrom test es k n
        → NoneFrom test es k (suc n)
    below test es n e f fails rest j d low high g = elim (Bool-cases (leb (suc j) n)) [
      | inl under ↦ rest j d low (ground arith) g
      | inr at_n ↦
          let same : j ≡ n = ground arith in let g' : get_elem? es n ≡ some d = rw (← same) g in cc
    ]

-- How Get and Delete end together.
pub data Deletion (q : DeadLetterQueue) (group topic id : Bytes) : Type 0 where
  unchanged :
      NoneFrom (matched_id group topic id) q.entries 0 (length q.entries)
      → get q group topic id ≡ none
      → delete q group topic id ≡ (q, false)
      → Deletion q group topic id
  removed_at :
      (i : ℕ) (e : DlqEntry)
      → get_elem? q.entries i ≡ some e
      → matched_id group topic id e ≡ true
      → NoneFrom (matched_id group topic id) q.entries (suc i) (length q.entries)
      → get q group topic id ≡ some e
      → delete q group topic id
        ≡ (record q { entries = take i q.entries ++ drop (suc i) q.entries }, true)
      → Deletion q group topic id

-- Delete removes the newest entry that matches, which is the one Get returns, and keeps all others in
-- their order. When nothing matches, Get finds nothing and Delete changes nothing and answers false.
pub get-delete : (q : DeadLetterQueue) (group topic id : Bytes) → Deletion q group topic id
unfolding get delete
get-delete q group topic id =
    elim (search (matched_id group topic id) q.entries (length q.entries) (omega arith)) [
      | missing none_found rest ↦ unchanged rest (rw (none_found, get)) (rw (none_found, delete))
      | found i e at_i below_n g holds rest ↦
          removed_at i e g holds rest (rw (at_i, get, g)) (rw (at_i, delete))
    ]

republish_loop_all : (es : List DlqEntry) → republish_loop (λ m. true) es ≡ (length es, true)
unfolding republish_loop
republish_loop_all [] = refl
republish_loop_all (e ∷ es) = rw (republish_loop_all es)

republish_loop_stops :
    (republish : Option Message → Bool) (before after : List DlqEntry) (e : DlqEntry)
    → All (λ d. republish d.original ≡ true) before
    → republish e.original ≡ false
    → republish_loop republish (before ++ e ∷ after) ≡ (length before, false)
unfolding republish_loop
republish_loop_stops republish [] after e h refuses = rw (refuses, republish_loop)
republish_loop_stops republish (d ∷ ds) after e h refuses =
    rw (h.0, republish_loop, republish_loop_stops republish ds after e h.1 refuses)

-- A republish that fails ends DLQReplay with the count of those before it. Every entry that Replay
-- took out is gone from the queue all the same: the failed one and those behind it are lost.
pub dlq_replay_failure :
    (republish : Option Message → Bool) (q : DeadLetterQueue) (group topic : Bytes) (limit : ℤ)
    (before after : List DlqEntry) (e : DlqEntry)
    → take (positive_or 10 limit) (filter (matched group topic) q.entries) ≡ before ++ e ∷ after
    → All (λ d. republish d.original ≡ true) before
    → republish e.original ≡ false
    → (q' : DeadLetterQueue) × (dlq_replay republish q group topic limit
        ≡ (q', length before, false))
      × (filter (matched group topic) q'.entries
          ≡ drop (positive_or 10 limit) (filter (matched group topic) q.entries))
unfolding dlq_replay
dlq_replay_failure republish q group topic limit before after e split h refuses =
    let (removed, kept, _) = replay_lem q group topic limit in
    (
      (replay q group topic limit).0,
      rw (removed, split, republish_loop_stops republish before after e h refuses),
      kept,
    )
