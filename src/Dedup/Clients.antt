-- ===== src/Dedup/Clients.antt =====
-- The windows of all clients: marks of one client do not touch another's, and the last `size` marks
-- of each are remembered.
use mathlib.Core.Path.{subst}
use pubsub_broker.Base.{
  ℕ, zero, suc, ◌-◌, ◌≤◌, ◌<◌, ◌≡◌, ◌≢◌, inl, inr, refl, sym, ◌∙◌, true, false, none, some, List,
  [], ◌∷◌, if◌then◌else◌, ◌==◌, replicate, Bool-cases, arith, All, Option-cases,
}
use pubsub_broker.Base.Bytes.{Bytes, bytes_comparable, bytes_beq_iff}
use pubsub_broker.Base.Int.{ℤ}
use pubsub_broker.Base.Maps.{lookup, insert, lookup-insert, beq_refl}
use pubsub_broker.Dedup.Window.{
  ClientWindow, scan, window_lookup, window_mark, DedupWindow, lookup_offset, mark, client_window,
  new_client_window, empty_slot, is_duplicate,
}
use pubsub_broker.Dedup.Recent.{
  IsWindow, Remembers, remembered_lookup, Remembers-mark, fresh_mark, next-IsWindow,
}

-- The window of every client is one of `size` slots.
abbrev pub IsDedup : DedupWindow → Type 0
IsDedup d =
    (client : Bytes) → IsWindow (client_window d client) × ((client_window d client).size ≡ d.size)

client_window-mark :
    (d : DedupWindow) (client other : Bytes) (s : ℕ) (o : ℤ)
    → client_window (mark d client s o) other ≡ (
        if client == other then window_mark (client_window d client) s o else client_window d other)
unfolding mark client_window
client_window-mark d client other s o =
    let e = lookup-insert client other (window_mark (client_window d client) s o) d.per_client in
    elim (Bool-cases (client == other)) [
      | inl same ↦
          let f : lookup other
                (insert client (window_mark (client_window d client) s o) d.per_client)
              ≡ some (window_mark (client_window d client) s o) =
            rw same at e in
          rw (same, f, client_window)
      | inr apart ↦
          let f : lookup other
                (insert client (window_mark (client_window d client) s o) d.per_client)
              ≡ lookup other d.per_client =
            rw apart at e in
          rw (apart, f, client_window)
    ]

scan-replicate : (s n : ℕ) → scan s (replicate n empty_slot) ≡ none
unfolding scan
scan-replicate s zero = refl
scan-replicate s (suc n) = scan-replicate s n

lookup_offset_lem :
    (d : DedupWindow) (client : Bytes) (s : ℕ)
    → lookup_offset d client s ≡ window_lookup (client_window d client) s
unfolding lookup_offset client_window window_lookup
lookup_offset_lem d client s = elim (Option-cases (lookup client d.per_client)) [
  | inl missing ↦
      rw (missing, lookup_offset, client_window)
        (unfold new_client_window in sym (scan-replicate s d.size))
  | inr (cw, found) ↦ rw (found, lookup_offset, client_window)
]

pub mark-IsDedup :
    (d : DedupWindow) (client : Bytes) (s : ℕ) (o : ℤ) → IsDedup d → IsDedup (mark d client s o)
mark-IsDedup d client s o h other =
    let size : (mark d client s o).size ≡ d.size = unfold mark in refl in
    elim (Bool-cases (client == other)) [
      | inl same ↦
          rw (client_window-mark d client other s o, same, size)
            (
              next-IsWindow (client_window d client) s o (h client).0,
              unfold window_mark in (h client).1,
            )
      | inr apart ↦ rw (client_window-mark d client other s o, apart, size) (h other)
    ]

-- A call of Mark.
pub record Marking : Type 0 where
  pub client : Bytes
  pub seq : ℕ
  pub offset : ℤ

unfoldable pub mark_all : DedupWindow → List Marking → DedupWindow
mark_all d [] = d
mark_all d (m ∷ ms) = mark_all (mark d m.client m.seq m.offset) ms

-- The number of the calls that are one client's.
abbrev pub marks_of : Bytes → List Marking → ℕ
marks_of client [] = 0
marks_of client (m ∷ ms) =
    let rest = marks_of client ms in if m.client == client then suc rest else rest

-- No call marks the sequence number for the client again.
abbrev pub NotAgain : Bytes → ℕ → List Marking → Type 0
NotAgain client s = All (λ m. m.client ≡ client → m.seq ≢ s)

still_remembered :
    (d : DedupWindow) (client : Bytes) (s : ℕ) (o : ℤ) (i k : ℕ) (ms : List Marking)
    → IsDedup d
    → Remembers (client_window d client) s o i k
    → k < d.size
    → marks_of client ms ≤ k
    → NotAgain client s ms
    → lookup_offset (mark_all d ms) client s ≡ some o
unfolding mark_all
still_remembered d client s o i k [] h r small few again =
    lookup_offset_lem d client s ∙ remembered_lookup (client_window d client) s o i k r
still_remembered d client s o i k (m ∷ ms) h r small few again =
    let d' : DedupWindow = mark d m.client m.seq m.offset in
    let h' = mark-IsDedup d m.client m.seq m.offset h in
    let size : d'.size ≡ d.size = unfold mark in refl in
    elim (Bool-cases (m.client == client)) [
      | inl same ↦
          let owner : m.client ≡ client = (bytes_beq_iff m.client client).0 same in
          let few' : suc (marks_of client ms) ≤ k = rw same at few in
          let positive : k ≡ suc (k - 1) = omega arith in
          let r' : Remembers (window_mark (client_window d client) m.seq m.offset) s o i (k - 1) =
            Remembers-mark (client_window d client) s m.seq o m.offset i (k - 1) (h client).0
              (again.0 owner) (rw (← positive, (h client).1) small) (rw positive at r) in
          let r'' : Remembers (client_window d' client) s o i (k - 1) =
            rw (client_window-mark d m.client client m.seq m.offset, same, owner) r' in
          still_remembered d' client s o i (k - 1) ms h' r'' (rw size (omega arith)) (omega arith)
            again.1
      | inr apart ↦
          let few' : marks_of client ms ≤ k = rw apart at few in
          let r' : Remembers (client_window d' client) s o i k =
            rw (client_window-mark d m.client client m.seq m.offset, apart) r in
          still_remembered d' client s o i k ms h' r' (rw size small) few' again.1
    ]

not_duplicate :
    (d : DedupWindow) (client : Bytes) (s : ℕ)
    → is_duplicate d client s ≡ false
    → lookup_offset d client s ≡ none
unfolding is_duplicate lookup_offset
not_duplicate d client s e = elim (Option-cases (lookup client d.per_client)) [
  | inl missing ↦ rw (missing, lookup_offset)
  | inr (cw, found) ↦ elim (Option-cases (window_lookup cw s)) [
    | inl empty ↦ rw (found, lookup_offset, empty)
    | inr (off, hit) ↦ absurd (let bad : true ≡ false = rw (found, is_duplicate, hit) at e in cc)
  ]
]

duplicate :
    (d : DedupWindow) (client : Bytes) (s : ℕ) {o : ℤ}
    → lookup_offset d client s ≡ some o
    → is_duplicate d client s ≡ true
unfolding is_duplicate lookup_offset
duplicate d client s {o} e = elim (Option-cases (lookup client d.per_client)) [
  | inl missing ↦ absurd (let bad : none ≡ some o = rw (missing, lookup_offset) at e in cc)
  | inr (cw, found) ↦
      let hit : window_lookup cw s ≡ some o = rw (found, lookup_offset) at e in
      rw (found, is_duplicate, hit)
]

-- A sequence number that was marked when the window did not hold it is a duplicate, with the offset
-- it was marked with, until the client has made `size` more marks, as long as it does not mark the
-- same number again. The marks of other clients do not matter.
pub mark_remembered :
    (d : DedupWindow) (client : Bytes) (s : ℕ) (o : ℤ) (ms : List Marking)
    → IsDedup d
    → is_duplicate d client s ≡ false
    → marks_of client ms < d.size
    → NotAgain client s ms
    → (lookup_offset (mark_all (mark d client s o) ms) client s ≡ some o)
      × (is_duplicate (mark_all (mark d client s o) ms) client s ≡ true)
mark_remembered d client s o ms h fresh few again =
    let cw : ClientWindow = client_window d client in
    let none_found : window_lookup cw s ≡ none =
      sym (lookup_offset_lem d client s) ∙ not_duplicate d client s fresh in
    let r =
      subst (λ n. Remembers (window_mark cw s o) s o cw.head (n - 1)) (h client).1
        (fresh_mark cw s o (h client).0 none_found) in
    let size : (mark d client s o).size ≡ d.size = unfold mark in refl in
    let r' : Remembers (client_window (mark d client s o) client) s o cw.head (d.size - 1) =
      rw (client_window-mark d client client s o, beq_refl client) r in
    let found =
      still_remembered (mark d client s o) client s o cw.head (d.size - 1) ms
        (mark-IsDedup d client s o h) r' (rw size (omega arith)) (omega arith) again in
    (found, duplicate (mark_all (mark d client s o) ms) client s found)
