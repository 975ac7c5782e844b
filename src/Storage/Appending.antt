-- ===== src/Storage/Appending.antt =====
-- Append of a partition log, with the roll to a new segment.
use mathlib.Core.Path.{subst}
use pubsub_broker.Base.{
  ℕ, ◌+◌, ◌<◌, ◌≡◌, ◌≢◌, refl, ap, ◌∙◌, sym, some, List, [], ◌∷◌, ◌++◌, length, arith, append_assoc,
  append-nil, Bool-cases, inl, inr, length-append, All,
}
use pubsub_broker.Base.Bytes.{Bytes}
use pubsub_broker.Wal.File.{signed64}
use pubsub_broker.Dlq.Queue.{Message}
use pubsub_broker.Storage.Record.{Coding}
use pubsub_broker.Storage.Segment.{Segment, is_full}
use pubsub_broker.Storage.Holding.{Stored, IsStored, log_bytes}
use pubsub_broker.Storage.Segments.{Holds, create_segment_new}
use pubsub_broker.Storage.Writing.{as_stored, write-Holds}
use pubsub_broker.Storage.Partition.{write_active, append_last}
use pubsub_broker.Storage.Logs.{HoldsAll, concat}

-- A message as it is stored under an offset.
abbrev pub stored_at : ℕ → ℕ → Message → Bytes → Stored
stored_at n now m text = record { stamp = now; msg = record m { offset = signed64 n }; text = text }

-- The record of the message fits in the file of the segment.
abbrev pub HasSpace : Message → Bytes → Segment → Type 0
HasSpace m text s = length s.log_file + (27 + length m.key + length text) < 9223372036854775808

module _ (c : Coding) (now : ℕ) (m : Message) (text : Bytes) where
  write_active-Holds :
      (s : Segment) (bs : List Stored) (n : ℕ)
      → Holds c s bs
      → s.base_offset + length bs ≡ n
      → IsStored c n (stored_at n now m text)
      → n < 9223372036854775807
      → HasSpace m text s
      → (s' : Segment) × (write_active c now s m ≡ (s' ∷ [], some n))
        × (s'.base_offset ≡ s.base_offset)
        × Holds c s' (bs ++ stored_at n now m text ∷ [])
  unfolding write_active
  write_active-Holds s bs n h at_n k room space =
      let next : s.next_offset ≡ n = h.counted ∙ at_n in
      let k' : IsStored c s.next_offset (as_stored now s m text) =
        subst (λ i. IsStored c i (stored_at i now m text)) (sym next) k in
      let (s', e, base, h') = write-Holds c now s bs m text h k' (omega arith) space in
      (
        s',
        rw (e, write_active) (ap (λ i. (s' ∷ [], some i)) at_n),
        base,
        subst (λ i. Holds c s' (bs ++ stored_at i now m text ∷ [])) next h',
      )

  -- The segment rolled to has room for any record.
  pub new_segment-HasSpace :
      (s : Segment) (n : ℕ)
      → Holds c s []
      → IsStored c n (stored_at n now m text)
      → HasSpace m text s
  unfolding log_bytes
  new_segment-HasSpace s n h k =
      omega (arith, ap length h.files.log, k.fits.key_fits, k.fits.payload_fits)

  -- What Append makes of the last segment.
  append_to_last :
      (max_bytes index_every : ℕ) (s : Segment) (bs : List Stored) (n : ℕ)
      → Holds c s bs
      → s.base_offset + length bs ≡ n
      → IsStored c n (stored_at n now m text)
      → n < 9223372036854775807
      → HasSpace m text s
      → (ss : List Segment) × (bss : List (List Stored)) × (append_last c now max_bytes index_every
            (s ∷ [])
            m
          ≡ some (ss, some n))
        × HoldsAll c s.base_offset ss bss
        × (concat bss ≡ bs ++ stored_at n now m text ∷ [])
  unfolding append_last
  append_to_last max_bytes index_every s bs n h at_n k room space = elim (Bool-cases (is_full s)) [
    | inr has_room ↦
        let (s', e, base, h') = write_active-Holds s bs n h at_n k room space in
        (
          s' ∷ [],
          (bs ++ stored_at n now m text ∷ []) ∷ [],
          rw (has_room, e),
          (base, h', tt),
          append-nil (bs ++ stored_at n now m text ∷ []),
        )
    | inl full ↦
        let (t, made, base, empty) =
          create_segment_new c s.next_offset max_bytes index_every (omega (arith, h.counted)) in
        let at_next : t.base_offset + 0 ≡ n = omega (arith, h.counted, base) in
        let (t', e, base', h') =
          write_active-Holds t [] n empty at_next k room (new_segment-HasSpace t n empty k) in
        let follows : t'.base_offset ≡ s.base_offset + length bs = base' ∙ base ∙ h.counted in
        (
          s ∷ t' ∷ [],
          bs ∷ (stored_at n now m text ∷ []) ∷ [],
          rw (full, made, e),
          (refl, h, (follows, h', tt)),
          refl,
        )
  ]

  -- Append of a message that can be stored returns the offset behind the last, and the log then holds the
  -- message behind the others, whether the last segment was full or not.
  pub append_last-HoldsAll :
      (max_bytes index_every base : ℕ) (ss : List Segment) (bss : List (List Stored)) (n : ℕ)
      → HoldsAll c base ss bss
      → ss ≢ []
      → base + length (concat bss) ≡ n
      → IsStored c n (stored_at n now m text)
      → n < 9223372036854775807
      → All (HasSpace m text) ss
      → (ss' : List Segment) × (bss' : List (List Stored)) × (append_last c now max_bytes
            index_every ss m
          ≡ some (ss', some n))
        × HoldsAll c base ss' bss'
        × (concat bss' ≡ concat bss ++ stored_at n now m text ∷ [])
  unfolding append_last
  append_last-HoldsAll max_bytes index_every base [] bss n h some_segment at_n k room space =
      absurd (some_segment refl)
  append_last-HoldsAll max_bytes index_every base (s ∷ ss) [] n h some_segment at_n k room space =
      absurd h
  append_last-HoldsAll max_bytes index_every base (s ∷ []) (bs ∷ []) n (at_base, hold, _)
        some_segment at_n k room (space, _) =
      let at_end : s.base_offset + length bs ≡ n = omega (arith, length-append bs []) in
      let (ss', bss', e, held, same) =
        append_to_last max_bytes index_every s bs n hold at_end k room space in
      (ss', bss', e, subst (λ b. HoldsAll c b ss' bss') at_base held, rw (append-nil bs) same)
  append_last-HoldsAll max_bytes index_every base (s ∷ []) (bs ∷ ds ∷ dss) n (_, _, bad)
        some_segment at_n k room space =
      absurd bad
  append_last-HoldsAll max_bytes index_every base (s ∷ t ∷ ss) (bs ∷ bss) n (at_base, hold, rest)
        some_segment at_n k room space =
      let at_end : (base + length bs) + length (concat bss) ≡ n =
        omega (arith, length-append bs (concat bss)) in
      let (ss', bss', e, held, same) =
        append_last-HoldsAll max_bytes index_every (base + length bs) (t ∷ ss) bss n rest (λ f. cc)
          at_end k room space.1 in
      (
        s ∷ ss',
        bs ∷ bss',
        rw (e, append_last),
        (at_base, hold, held),
        ap (λ x. bs ++ x) same ∙ sym (append_assoc bs (concat bss) (stored_at n now m text ∷ [])),
      )
