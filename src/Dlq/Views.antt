-- ===== src/Dlq/Views.antt =====
-- What Entries and Get show of the dead-letter queue: the newest matching entries first.
use pubsub_broker.Base.{
  ℕ, zero, suc, ◌≤◌, ◌≡◌, refl, ap, ◌∙◌, Bool, some, List, ◌∷◌, arith, inl, inr, length, get_elem?,
  take, take_snoc, take_all, get_elem?_in_range, Bool-cases,
}
use pubsub_broker.Base.Bytes.{Bytes}
use pubsub_broker.Base.Int.{ℤ, positive_or}
use pubsub_broker.Base.Filters.{filter, reverse, reverse_snoc}
use pubsub_broker.Dlq.Queue.{DlqEntry, DeadLetterQueue, matched, entries_below, entries_of}

reverse-take :
    (es : List DlqEntry) (i : ℕ) {e : DlqEntry}
    → get_elem? es i ≡ some e
    → reverse (take (suc i) es) ≡ e ∷ reverse (take i es)
reverse-take es i {e} h = ap reverse (take_snoc es i h) ∙ reverse_snoc (take i es) e

entries_below_lem :
    (test : DlqEntry → Bool) (es : List DlqEntry) (i room : ℕ)
    → i ≤ length es
    → entries_below test es i room ≡ take room (filter test (reverse (take i es)))
unfolding entries_below
entries_below_lem test es zero zero h = refl
entries_below_lem test es zero (suc room) h = refl
entries_below_lem test es (suc i) zero h = refl
entries_below_lem test es (suc i) (suc room) h =
    let (e, found) = get_elem?_in_range es i (omega arith) in
    let ih = entries_below_lem test es i room (omega arith) in
    let ih' = entries_below_lem test es i (suc room) (omega arith) in
    elim (Bool-cases (test e)) [
      | inl holds ↦ rw (reverse-take es i found, found, holds, entries_below, ih)
      | inr fails ↦ rw (reverse-take es i found, found, fails, entries_below, ih')
    ]

-- Entries returns the matching entries, newest first, cut at the limit, which is 100 when it is not
-- positive.
pub entries_of_lem :
    (q : DeadLetterQueue) (group topic : Bytes) (limit : ℤ)
    → entries_of q group topic limit
      ≡ take (positive_or 100 limit) (filter (matched group topic) (reverse q.entries))
unfolding entries_of
entries_of_lem q group topic limit =
    let h : length q.entries ≤ length q.entries = omega arith in
    entries_below_lem (matched group topic) q.entries (length q.entries) (positive_or 100 limit) h
    ∙ rw (take_all q.entries (length q.entries) h)
