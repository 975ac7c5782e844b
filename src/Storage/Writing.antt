-- ===== src/Storage/Writing.antt =====
-- Write of a segment.
use mathlib.Core.Path.{subst}
use pubsub_broker.Base.{
  ℕ, ◌+◌, ◌≤◌, ◌<◌, ◌≡◌, ap, ◌∙◌, sym, some, List, [], ◌∷◌, ◌++◌, leb, length, take, arith,
  append-nil, Bool-cases, inl, inr, All, length-append, take_front, All-append,
}
use pubsub_broker.Base.Bytes.{Bytes}
use pubsub_broker.Base.Words.{u64}
use pubsub_broker.Wal.File.{signed64}
use pubsub_broker.Dlq.Queue.{Message}
use pubsub_broker.Storage.Record.{Coding, frame_record, encode_record, record_version}
use pubsub_broker.Storage.Segment.{Segment, index_entry, write_index, write}
use pubsub_broker.Storage.Holding.{
  Stored, IsStored, log_bytes, log_bytes-append, AllStored-snoc, length-frame_record,
}
use pubsub_broker.Storage.Index.{
  position_of, index_bytes, index_bytes-append, position_of-append, index_bytes-snoc,
}
use pubsub_broker.Storage.Segments.{file_header, Holds}

-- The message that Write stores, with the clock and its JSON text.
abbrev pub as_stored : ℕ → Segment → Message → Bytes → Stored
as_stored now s m text = record {
  stamp = now;
  msg = record m { offset = signed64 s.next_offset };
  text = text;
}

abbrev record_bytes : Coding → ℕ → Segment → Message → Bytes → Bytes
record_bytes c now s m text =
    frame_record c s.next_offset now (record m { offset = signed64 s.next_offset }) record_version
      text

-- The segment behind the first step of Write.
abbrev with_record : Coding → ℕ → Segment → Message → Bytes → Segment
with_record c now s m text = record s {
  log_file = s.log_file ++ record_bytes c now s m text;
  log_size = s.log_size + length (record_bytes c now s m text);
  next_offset = u64 (s.next_offset + 1);
}

-- A place of the index that stays one when records are added.
abbrev IsPlace : Coding → Segment → List Stored → ℕ → Type 0
IsPlace c s bs i = (i ≤ length bs) × (position_of c s.base_offset bs i < 9223372036854775808)

module _ (c : Coding) (now : ℕ) (s : Segment) (bs : List Stored) (m : Message) (text : Bytes)
    (h : Holds c s bs) where
  places_after :
      (is : List ℕ)
      → All (IsPlace c s bs) is
      → All (IsPlace c s (bs ++ as_stored now s m text ∷ [])) is
  places_after [] k = tt
  places_after (i ∷ is) k =
      let e = position_of-append c s.base_offset bs (as_stored now s m text) i k.0.0 in
      (
        (omega (arith, k.0.0, length-append bs (as_stored now s m text ∷ [])), rw e k.0.1),
        places_after is k.1,
      )

  at_end_position :
      position_of c s.base_offset (bs ++ as_stored now s m text ∷ []) (length bs) ≡ s.log_size
  at_end_position =
      let whole : take (length bs) bs ≡ bs =
        ap (λ x. take (length bs) x) (sym (append-nil bs)) ∙ take_front bs [] in
      position_of-append c s.base_offset bs (as_stored now s m text) (length bs) (omega arith)
      ∙ (unfold position_of in rw whole (omega (arith, h.sized, ap length h.files.log)))

  log_after :
      s.log_file ++ record_bytes c now s m text
      ≡ file_header ++ log_bytes c s.base_offset (bs ++ as_stored now s m text ∷ [])
  log_after =
      ap (λ x. x ++ record_bytes c now s m text) h.files.log
      ∙ ap (λ x. file_header ++ x)
          (ap
              (λ n.
                log_bytes c s.base_offset bs
                ++ frame_record c n now (record m { offset = signed64 s.next_offset })
                    record_version text)
              h.counted
            ∙ sym (log_bytes-append c s.base_offset bs (as_stored now s m text)))

  -- A segment with the record and some index of places.
  holds_after :
      (k : IsStored c s.next_offset (as_stored now s m text)) (index : Bytes) (is : List ℕ)
      (unindexed : ℕ)
      → index ≡ index_bytes c s.base_offset (bs ++ as_stored now s m text ∷ []) is
      → All (IsPlace c s (bs ++ as_stored now s m text ∷ [])) is
      → s.next_offset < 9223372036854775807
      → length (s.log_file ++ record_bytes c now s m text) < 9223372036854775808
      → Holds c
          (record (with_record c now s m text) { index_file = index; byte_since_index = unindexed })
          (bs ++ as_stored now s m text ∷ [])
  holds_after k index is unindexed e known room space = record {
    places = is;
    files = record { log = log_after; index = e; known = known };
    sized = omega (arith, h.sized, length-append s.log_file (record_bytes c now s m text));
    versioned = h.versioned;
    started = h.started;
    counted = omega (arith, h.counted, room, length-append bs (as_stored now s m text ∷ []));
    stored =
        AllStored-snoc c s.base_offset bs (as_stored now s m text) h.stored
          (subst (λ n. IsStored c n (as_stored now s m text)) h.counted k);
    short = space;
    bounded = omega (arith, h.counted, room, length-append bs (as_stored now s m text ∷ []));
  }

  -- What Write returns, with the index as it leaves it.
  written : Segment
  written =
      write_index (with_record c now s m text) s.next_offset s.log_size
        (length (record_bytes c now s m text))

  written-Holds :
      IsStored c s.next_offset (as_stored now s m text)
      → s.next_offset < 9223372036854775807
      → length (s.log_file ++ record_bytes c now s m text) < 9223372036854775808
      → Holds c written (bs ++ as_stored now s m text ∷ [])
  unfolding written write_index
  written-Holds k room space =
      let size : ℕ = length (record_bytes c now s m text) in
      let kept : s.index_file
          ≡ index_bytes c s.base_offset (bs ++ as_stored now s m text ∷ []) h.places =
        h.files.index
        ∙ sym (
            index_bytes-append c s.base_offset bs (as_stored now s m text) h.places
              (indexed h.places h.files.known)) in
      let known = places_after h.places h.files.known in
      elim (Bool-cases (leb s.index_every (s.byte_since_index + size))) [
        | inr later ↦
            rw later (
              holds_after k s.index_file h.places (s.byte_since_index + size) kept known room space)
        | inl due ↦
            let added : s.index_file ++ index_entry s.next_offset s.log_size
                ≡ index_bytes c s.base_offset (bs ++ as_stored now s m text ∷ [])
                    (h.places ++ length bs ∷ []) =
              ap (λ x. x ++ index_entry s.next_offset s.log_size) kept
              ∙ ap
                  (λ n.
                    index_bytes c s.base_offset (bs ++ as_stored now s m text ∷ []) h.places
                    ++ index_entry n s.log_size)
                  h.counted
              ∙ ap
                  (λ p.
                    index_bytes c s.base_offset (bs ++ as_stored now s m text ∷ []) h.places
                    ++ index_entry (s.base_offset + length bs) p)
                  (sym at_end_position)
              ∙ sym (
                  index_bytes-snoc c s.base_offset (bs ++ as_stored now s m text ∷ []) h.places
                    (length bs)) in
            rw due (
              holds_after k (s.index_file ++ index_entry s.next_offset s.log_size)
                (h.places ++ length bs ∷ []) 0 added
                (All-append (IsPlace c s (bs ++ as_stored now s m text ∷ [])) h.places
                  (length bs ∷ []) known
                  (
                    (
                      omega (arith, length-append bs (as_stored now s m text ∷ [])),
                      rw at_end_position (omega (arith, h.sized, h.short)),
                    ),
                    tt,
                  ))
                room space)
      ]
    where
      indexed : (is : List ℕ) → All (IsPlace c s bs) is → All (λ i. i ≤ length bs) is
      indexed [] k = tt
      indexed (i ∷ is) k = (k.0.0, indexed is k.1)

  -- Write of a message that JSON can encode, without a codec and with a key and a text that fit the record,
  -- returns the offset behind the last, and the segment then holds the message under it.
  pub write-Holds :
      IsStored c s.next_offset (as_stored now s m text)
      → s.next_offset < 9223372036854775807
      → length s.log_file + (27 + length m.key + length text) < 9223372036854775808
      → (s' : Segment) × (write c now s m ≡ some (s', s.base_offset + length bs))
        × (s'.base_offset ≡ s.base_offset)
        × Holds c s' (bs ++ as_stored now s m text ∷ [])
  unfolding write write_index written
  write-Holds k room space =
      let coded : encode_record c s.next_offset now (record m { offset = signed64 s.next_offset })
            s.version
          ≡ some (record_bytes c now s m text) =
        ap (λ v. encode_record c s.next_offset now (record m { offset = signed64 s.next_offset }) v)
          h.versioned
        ∙ unfold encode_record in rw (k.coded, encode_record) in
      (
        written,
        rw (coded, write) (ap (λ n. some (written, n)) h.counted),
        same_base,
        written-Holds k room (
            omega (
              arith,
              space,
              length-append s.log_file (record_bytes c now s m text),
              length-frame_record c s.next_offset now (record m { offset = signed64 s.next_offset })
                  text,
            )),
      )
    where
      same_base : written.base_offset ≡ s.base_offset
      same_base =
          elim (Bool-cases
            (leb s.index_every (s.byte_since_index + length (record_bytes c now s m text)))) [
              | inl due ↦ rw due
              | inr later ↦ rw later
            ]
