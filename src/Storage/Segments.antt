-- ===== src/Storage/Segments.antt =====
-- What a segment promises: it holds a list of messages, Write adds one, Read finds those from an offset on,
-- and opening the files again brings the same list.
use mathlib.Core.Path.{subst}
use pubsub_broker.Base.{
  ℕ, zero, suc, ◌+◌, ◌-◌, ◌/◌, ◌≤◌, ◌<◌, ◌≡◌, refl, ap, ◌∙◌, sym, true, false, some, List, [], ◌∷◌,
  ◌++◌, leb, ltb, ◌==◌, length, take, drop, arith, All, length-append, drop_front, nat_comparable,
  length-drop,
}
use pubsub_broker.Base.Bytes.{Bytes, bytes_comparable}
use pubsub_broker.Storage.Record.{Coding, IsCoding, record_version, seg_magic, seg_file_header_size}
use pubsub_broker.Storage.Segment.{
  Segment, recover_next_offset, create_segment, find_position, messages, read,
}
use pubsub_broker.Storage.Holding.{
  Stored, messages_of, AllStored, log_bytes, log_bytes-split, AllStored-drop, length-log_bytes,
  drop_empty, scan_lem, read_loop_lem,
}
use pubsub_broker.Storage.Index.{
  position_of, index_bytes, length-index_bytes, Reaches, index_search-Reaches,
}

abbrev pub file_header : Bytes
file_header = seg_magic ++ record_version ∷ []

-- The files of a segment with these messages, and an index of the records at these places.
pub record HasFiles (c : Coding) (s : Segment) (bs : List Stored) (is : List ℕ) : Type 0 where
  pub log : s.log_file ≡ file_header ++ log_bytes c s.base_offset bs
  pub index : s.index_file ≡ index_bytes c s.base_offset bs is
  pub known :
      All (λ i. (i ≤ length bs) × (position_of c s.base_offset bs i < 9223372036854775808)) is

-- A segment that holds a list of messages.
pub record Holds (c : Coding) (s : Segment) (bs : List Stored) : Type 0 where
  pub places : List ℕ
  pub files : HasFiles c s bs places
  pub sized : s.log_size ≡ length s.log_file
  pub versioned : s.version ≡ record_version
  pub started : s.data_start ≡ seg_file_header_size
  pub counted : s.next_offset ≡ s.base_offset + length bs
  pub stored : AllStored c s.base_offset bs
  pub short : length s.log_file < 9223372036854775808
  pub bounded : s.base_offset + length bs < 9223372036854775808

drop-drop {ℓ} : {A : Type ℓ} (i k : ℕ) (xs : List A) → drop k (drop i xs) ≡ drop (i + k) xs
drop-drop zero k xs = let e : 0 + k ≡ k = omega arith in rw e
drop-drop (suc i) k [] = drop_empty k ∙ sym (drop_empty (suc i + k))
drop-drop (suc i) k (x ∷ xs) =
    let e : suc i + k ≡ suc (i + k) = omega arith in rw e (drop-drop i k xs)

module _ (c : Coding) where
  -- findPosition sends a reader to a record that is not behind the start.
  find_position-Reaches :
      (s : Segment) (bs : List Stored) (start : ℕ)
      → Holds c s bs
      → start < 9223372036854775808
      → Reaches c s.base_offset bs start (find_position s start)
  unfolding find_position
  find_position-Reaches s bs start h low =
      let n : length s.index_file / 16 ≡ length h.places =
        omega (arith, ap length h.files.index, length-index_bytes c s.base_offset bs h.places) in
      let first : s.data_start ≡ position_of c s.base_offset bs 0 =
        h.started ∙ unfold position_of log_bytes in refl in
      rw (n, h.files.index)
        (index_search-Reaches c s.base_offset bs h.places start s.data_start h.files.known h.bounded
          low (0, omega arith, omega arith, first))

  -- The bytes from the place of a record on.
  drop-position_of :
      (s : Segment) (bs : List Stored) (i : ℕ)
      → Holds c s bs
      → drop (position_of c s.base_offset bs i) s.log_file
        ≡ log_bytes c (s.base_offset + i) (drop i bs)
  unfolding position_of
  drop-position_of s bs i h =
      let front : Bytes = file_header ++ log_bytes c s.base_offset (take i bs) in
      let e : s.log_file ≡ front ++ log_bytes c (s.base_offset + i) (drop i bs) =
        h.files.log ∙ ap (λ x. file_header ++ x) (log_bytes-split c s.base_offset i bs) in
      let n : 5 + length (log_bytes c s.base_offset (take i bs)) ≡ length front = omega arith in
      ap (λ x. drop x s.log_file) n
      ∙ ap (λ x. drop (length front) x) e
      ∙ drop_front front (log_bytes c (s.base_offset + i) (drop i bs))

  position_of_within :
      (s : Segment) (bs : List Stored) (i : ℕ)
      → Holds c s bs
      → position_of c s.base_offset bs i ≤ length s.log_file
  unfolding position_of
  position_of_within s bs i h = omega (
    arith,
    ap length h.files.log,
    ap length (log_bytes-split c s.base_offset i bs),
    length-append (log_bytes c s.base_offset (take i bs))
        (log_bytes c (s.base_offset + i) (drop i bs)),
  )

  -- Read of a segment returns the messages from the start on, as many as it was asked for at most,
  -- whatever the sparse index holds.
  pub read-Holds :
      (s : Segment) (bs : List Stored) (start max_count : ℕ)
      → IsCoding c
      → Holds c s bs
      → start < 9223372036854775808
      → read c s start max_count
        ≡ some (messages (take max_count (messages_of (drop (start - s.base_offset) bs))))
  unfolding read
  read-Holds s bs start max_count k h low =
      let (i, inside, before, e) = find_position-Reaches s bs start h low in
      let seekable : ltb 9223372036854775807 (position_of c s.base_offset bs i) ≡ false =
        ground (arith, position_of_within s bs i h, h.short) in
      let enough : length (drop i bs) < suc (length s.log_file) =
        omega
          (arith, length-drop i bs, ap length h.files.log, length-log_bytes c s.base_offset bs) in
      let small : (s.base_offset + i) + length (drop i bs) < 9223372036854775808 =
        omega (arith, length-drop i bs, h.bounded) in
      let n : i + (start - (s.base_offset + i)) ≡ start - s.base_offset = omega arith in
      let behind : drop (start - (s.base_offset + i)) (drop i bs)
          ≡ drop (start - s.base_offset) bs =
        drop-drop i (start - (s.base_offset + i)) bs ∙ ap (λ x. drop x bs) n in
      rw (e, seekable, drop-position_of s bs i h, h.versioned)
        (read_loop_lem c k (suc (length s.log_file)) (s.base_offset + i) start max_count (drop i bs)
            enough small low (AllStored-drop c s.base_offset i bs h.stored)
          ∙ ap (λ x. some (messages (take max_count (messages_of x)))) behind)

  -- A new segment holds nothing.
  pub create_segment_new :
      (base max_bytes index_every : ℕ)
      → base < 9223372036854775808
      → (s : Segment) × (create_segment c base [] [] max_bytes index_every ≡ some s)
        × (s.base_offset ≡ base)
        × Holds c s []
  unfolding create_segment
  create_segment_new base max_bytes index_every small = (
    record {
      base_offset = base;
      next_offset = base;
      log_file = file_header;
      index_file = [];
      log_size = seg_file_header_size;
      max_bytes = max_bytes;
      index_every = index_every;
      byte_since_index = 0;
      version = record_version;
      data_start = seg_file_header_size;
    },
    refl,
    refl,
    record {
      places = [];
      files = record {
        log = unfold log_bytes in refl;
        index = unfold index_bytes in refl;
        known = tt;
      };
      sized = refl;
      versioned = refl;
      started = refl;
      counted = omega arith;
      stored = tt;
      short = omega arith;
      bounded = omega arith;
    },
  )

  -- Opening the files of a segment again finds the same messages and the same next offset.
  pub create_segment-Holds :
      (s : Segment) (bs : List Stored) (max_bytes index_every : ℕ)
      → IsCoding c
      → Holds c s bs
      → (s' : Segment) × (create_segment c s.base_offset s.log_file s.index_file max_bytes
            index_every
          ≡ some s')
        × (s'.next_offset ≡ s.next_offset)
        × Holds c s' bs
  unfolding create_segment recover_next_offset
  create_segment-Holds s bs max_bytes index_every k h =
      let body : Bytes = log_bytes c s.base_offset bs in
      let scanned =
        scan_lem c k (suc (length (file_header ++ body))) s.base_offset bs
          (omega (arith, length-log_bytes c s.base_offset bs)) h.bounded h.stored in
      let opened : Bytes → Segment = λ (log : Bytes). record {
        base_offset = s.base_offset;
        next_offset = s.base_offset + length bs;
        log_file = log;
        index_file = s.index_file;
        log_size = length log;
        max_bytes = max_bytes;
        index_every = index_every;
        byte_since_index = 0;
        version = record_version;
        data_start = seg_file_header_size;
      } in
      let filled : (length (file_header ++ body) == 0) ≡ false = ground arith in
      let long : leb seg_file_header_size (length (file_header ++ body)) ≡ true = ground arith in
      let found : create_segment c s.base_offset (file_header ++ body) s.index_file max_bytes
            index_every
          ≡ some (opened (file_header ++ body)) =
        rw (filled, long, scanned, recover_next_offset) in
      (
        opened s.log_file,
        subst
            (λ log.
              create_segment c s.base_offset log s.index_file max_bytes index_every
              ≡ some (opened log))
            (sym h.files.log) found,
        sym h.counted,
        record {
          places = h.places;
          files = record { log = h.files.log; index = h.files.index; known = h.files.known };
          sized = refl;
          versioned = refl;
          started = refl;
          counted = refl;
          stored = h.stored;
          short = h.short;
          bounded = h.bounded;
        },
      )
