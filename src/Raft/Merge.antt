-- ===== src/Raft/Merge.antt =====
-- What appendEntriesFromLeader makes of a log, against a definition on lists with no indices.
use pubsub_broker.Base.{
  ℕ, suc, ◌+◌, ◌-◌, ◌≤◌, ◌<◌, ◌≡◌, refl, sym, ap, ◌∙◌, true, false, some, List, [], ◌∷◌, ◌++◌, map,
  arith, inl, inr, if◌then◌else◌, ltb, ◌==◌, nat_comparable, length, get_elem?, take, drop,
  Bool-cases, get_elem?_in_range, take_all, drop_all, drop_cons, take_snoc, take-append-drop,
  nat_beq_iff,
}
use mathlib.Core.List.{append_assoc}
use pubsub_broker.Raft.State.{LogEntry}
use pubsub_broker.Raft.Log.{store_entries}

-- A suffix of the follower's log meets the leader's entries: equal terms keep the follower's entry,
-- the first difference drops all that follows.
unfoldable pub merge : List LogEntry → List LogEntry → List LogEntry
merge xs [] = xs
merge [] (e ∷ es) = e ∷ es
merge (x ∷ xs) (e ∷ es) = let rest = merge xs es in if x.term == e.term then x ∷ rest else e ∷ es

merge_nil : (es : List LogEntry) → merge [] es ≡ es
unfolding merge
merge_nil [] = refl
merge_nil (e ∷ es) = refl

merge_cons_same :
    (x e : LogEntry) (xs es : List LogEntry)
    → (x.term == e.term) ≡ true
    → merge (x ∷ xs) (e ∷ es) ≡ x ∷ merge xs es
unfolding merge
merge_cons_same x e xs es h = rw h

merge_cons_other :
    (x e : LogEntry) (xs es : List LogEntry)
    → (x.term == e.term) ≡ false
    → merge (x ∷ xs) (e ∷ es) ≡ e ∷ es
unfolding merge
merge_cons_other x e xs es h = rw h

store_past :
    (log : List LogEntry) (k : ℕ) (e : LogEntry) (es : List LogEntry)
    → length log ≡ k
    → store_entries log (suc k) (e ∷ es) ≡ some (log ++ e ∷ es)
unfolding store_entries
store_past log k e es h = ground arith

store_same :
    (log : List LogEntry) (k : ℕ) (x e : LogEntry) (es : List LogEntry)
    → k < length log
    → get_elem? log k ≡ some x
    → (x.term == e.term) ≡ true
    → store_entries log (suc k) (e ∷ es) ≡ store_entries log (suc (suc k)) es
unfolding store_entries
store_same log k x e es h g t =
    let p : suc k - 1 ≡ k = omega arith in
    let q : suc k + 1 ≡ suc (suc k) = omega arith in
    let r : ltb (length log) (suc k) ≡ false = ground arith in rw (r, p, g, t, q)

store_other :
    (log : List LogEntry) (k : ℕ) (x e : LogEntry) (es : List LogEntry)
    → k < length log
    → get_elem? log k ≡ some x
    → (x.term == e.term) ≡ false
    → store_entries log (suc k) (e ∷ es) ≡ some (take k log ++ e ∷ es)
unfolding store_entries
store_other log k x e es h g t =
    let p : suc k - 1 ≡ k = omega arith in
    let r : ltb (length log) (suc k) ≡ false = ground arith in rw (r, p, g, t)

-- The loop over the new entries never reads out of range, and computes the merge.
pub store_entries-merge :
    (log : List LogEntry) (k : ℕ) (es : List LogEntry)
    → k ≤ length log
    → store_entries log (suc k) es ≡ some (take k log ++ merge (drop k log) es)
store_entries-merge log k [] h =
    unfold store_entries merge in ap some (sym (take-append-drop k log))
store_entries-merge log k (e ∷ es) h = elim (Bool-cases (ltb k (length log))) [
  | inl inside ↦
      within (store_entries-merge log (suc k) es) (get_elem?_in_range log k (ground arith))
        (ground arith)
  | inr past ↦
      rw (take_all log k (ground arith), drop_all log k (ground arith), merge_nil)
        (store_past log k e es (ground arith))
]
  where
    within :
        (suc k ≤ length log
          → store_entries log (suc (suc k)) es
            ≡ some (take (suc k) log ++ merge (drop (suc k) log) es))
        → (x : LogEntry) × (get_elem? log k ≡ some x)
        → k < length log
        → store_entries log (suc k) (e ∷ es) ≡ some (take k log ++ merge (drop k log) (e ∷ es))
    within ih (x, g) lt = elim (Bool-cases (x.term == e.term)) [
      | inl same ↦
          store_same log k x e es lt g same
          ∙ ih lt
          ∙ rw (drop_cons log k g, merge_cons_same x e _ es same, take_snoc log k g, append_assoc)
      | inr other ↦
          store_other log k x e es lt g other
          ∙ rw (drop_cons log k g, merge_cons_other x e _ es other)
    ]

abbrev pub terms : List LogEntry → List ℕ
terms = map (λ e. e.term)

-- The merge holds as many entries as the message, and their terms.
pub merge-terms : (xs es : List LogEntry) → terms (take (length es) (merge xs es)) ≡ terms es
merge-terms xs [] = refl
merge-terms [] (e ∷ es) =
    rw merge_nil (ap terms (take_all (e ∷ es) (length (e ∷ es)) (omega arith)))
merge-terms (x ∷ xs) (e ∷ es) = elim (Bool-cases (x.term == e.term)) [
  | inl same ↦
      rw (merge_cons_same x e xs es same)
        (ground (arith, same, nat_beq_iff x.term e.term, merge-terms xs es))
  | inr other ↦
      rw (merge_cons_other x e xs es other)
        (ap terms (take_all (e ∷ es) (length (e ∷ es)) (omega arith)))
]

pub length-le-merge : (xs es : List LogEntry) → length es ≤ length (merge xs es)
length-le-merge xs [] = omega arith
length-le-merge [] (e ∷ es) = rw merge_nil (omega arith)
length-le-merge (x ∷ xs) (e ∷ es) = elim (Bool-cases (x.term == e.term)) [
  | inl same ↦ rw (merge_cons_same x e xs es same) (omega (arith, length-le-merge xs es))
  | inr other ↦ rw (merge_cons_other x e xs es other) (omega arith)
]

-- Log matching between a suffix and the entries of a message: up to the first difference of terms,
-- entries at the same place with the same term are the same entry.
abbrev pub IsMatching : List LogEntry → List LogEntry → Type 0
IsMatching [] es = Unit {0}
IsMatching (x ∷ xs) [] = Unit {0}
IsMatching (x ∷ xs) (e ∷ es) = (x.term ≡ e.term → x ≡ e) × IsMatching xs es

-- Under log matching the merge begins with the entries of the message themselves.
pub take-merge : (xs es : List LogEntry) → IsMatching xs es → take (length es) (merge xs es) ≡ es
take-merge xs [] m = refl
take-merge [] (e ∷ es) m = rw (merge_nil, take_all (e ∷ es) (length (e ∷ es)) (omega arith))
take-merge (x ∷ xs) (e ∷ es) m = elim (Bool-cases (x.term == e.term)) [
  | inl same ↦
      rw (merge_cons_same x e xs es same)
        (cc (m.0 ((nat_beq_iff x.term e.term).0 same), take-merge xs es m.1))
  | inr other ↦
      rw (merge_cons_other x e xs es other, take_all (e ∷ es) (length (e ∷ es)) (omega arith))
]

merge_self : (ys : List LogEntry) → merge ys ys ≡ ys
merge_self [] = merge_nil []
merge_self (y ∷ ys) =
    merge_cons_same y y ys ys ((nat_beq_iff y.term y.term).1 refl)
    ∙ ap (λ zs. y ∷ zs) (merge_self ys)

-- A second copy of the same message changes nothing.
pub merge_idem : (xs es : List LogEntry) → merge (merge xs es) es ≡ merge xs es
merge_idem xs [] = unfold merge in refl
merge_idem [] (e ∷ es) = rw merge_nil (merge_self (e ∷ es))
merge_idem (x ∷ xs) (e ∷ es) = elim (Bool-cases (x.term == e.term)) [
  | inl same ↦
      rw (
        merge_cons_same x e xs es same,
        merge_cons_same x e (merge xs es) es same,
        merge_idem xs es,
      )
  | inr other ↦ rw (merge_cons_other x e xs es other) (merge_self (e ∷ es))
]

-- A message that brings nothing new, such as an old one that arrives late, truncates nothing.
pub merge_known :
    (xs es : List LogEntry) → terms (take (length es) xs) ≡ terms es → merge xs es ≡ xs
merge_known xs [] h = unfold merge in refl
merge_known [] (e ∷ es) h = cc
merge_known (x ∷ xs) (e ∷ es) h =
    let same : x.term ≡ e.term = cc h in
    let rest : terms (take (length es) xs) ≡ terms es = cc h in
    merge_cons_same x e xs es ((nat_beq_iff x.term e.term).1 same)
    ∙ ap (λ zs. x ∷ zs) (merge_known xs es rest)
