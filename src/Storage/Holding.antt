-- ===== src/Storage/Holding.antt =====
-- The bytes of a segment that holds a list of messages, and what the loops over its records do on them.
use pubsub_broker.Base.{
  ℕ, zero, suc, ◌+◌, ◌-◌, ◌≤◌, ◌<◌, ◌≡◌, refl, ap, ◌∙◌, sym, true, some, List, [], ◌∷◌, ◌++◌, ltb,
  nat_comparable, length, take, drop, arith, append_assoc, append-nil, Bool-cases, inl, inr,
  length-append,
}
use pubsub_broker.Base.Bytes.{Bytes}
use pubsub_broker.Base.Words.{u64}
use pubsub_broker.Base.Endian.{read_full}
use pubsub_broker.Wal.File.{signed64}
use pubsub_broker.Dlq.Queue.{Message}
use pubsub_broker.Storage.Record.{
  Coding, IsCoding, at_end, record_read, record_front, frame_record, decode_payload, decode_record,
  unpack, record_version,
}
use pubsub_broker.Storage.Segment.{offset_lt, scan, messages, read_loop}
use pubsub_broker.Storage.Framing.{FitsRecord, decode_record-frame_record}

-- A message as it was written: the clock, the message with its offset, and its JSON text.
pub record Stored : Type 0 where
  pub stamp : ℕ
  pub msg : Message
  pub text : Bytes

abbrev pub messages_of : List Stored → List Message
messages_of [] = []
messages_of (b ∷ bs) = b.msg ∷ messages_of bs

pub record IsStored (c : Coding) (word : ℕ) (b : Stored) : Type 0 where
  pub numbered : b.msg.offset ≡ signed64 word
  pub coded : c.marshal b.msg ≡ some b.text
  pub plain : b.msg.codec ≡ 0
  pub fits : FitsRecord word b.msg b.text

abbrev pub AllStored : Coding → ℕ → List Stored → Type 0
AllStored c word [] = Unit
AllStored c word (b ∷ bs) = IsStored c word b × AllStored c (suc word) bs

-- The bytes of the records, numbered from an offset.
unfoldable pub log_bytes : Coding → ℕ → List Stored → Bytes
log_bytes c word [] = []
log_bytes c word (b ∷ bs) =
    frame_record c word b.stamp b.msg record_version b.text ++ log_bytes c (suc word) bs

pub offset_lt_small :
    (a b : ℕ) → a < 9223372036854775808 → b < 9223372036854775808 → offset_lt a b ≡ ltb a b
offset_lt_small a b h k =
    let e : ltb a 9223372036854775808 ≡ true = ground arith in
    let f : ltb b 9223372036854775808 ≡ true = ground arith in rw (e, f)

pub log_bytes-split :
    (c : Coding) (word i : ℕ) (bs : List Stored)
    → log_bytes c word bs ≡ log_bytes c word (take i bs) ++ log_bytes c (word + i) (drop i bs)
unfolding log_bytes
log_bytes-split c word zero bs = let e : word + 0 ≡ word = omega arith in rw e
log_bytes-split c word (suc i) [] = refl
log_bytes-split c word (suc i) (b ∷ bs) =
    let e : word + suc i ≡ suc word + i = omega arith in
    let record_bytes : Bytes = frame_record c word b.stamp b.msg record_version b.text in
    rw e (
      ap (λ x. record_bytes ++ x) (log_bytes-split c (suc word) i bs)
      ∙ sym (
          append_assoc record_bytes (log_bytes c (suc word) (take i bs))
            (log_bytes c (suc word + i) (drop i bs))))

pub log_bytes-append :
    (c : Coding) (word : ℕ) (bs : List Stored) (b : Stored)
    → log_bytes c word (bs ++ b ∷ [])
      ≡ log_bytes c word bs ++ frame_record c (word + length bs) b.stamp b.msg record_version b.text
unfolding log_bytes
log_bytes-append c word [] b =
    let e : word + 0 ≡ word = omega arith in
    rw e (append-nil (frame_record c word b.stamp b.msg record_version b.text))
log_bytes-append c word (d ∷ ds) b =
    let e : word + suc (length ds) ≡ suc word + length ds = omega arith in
    let record_bytes : Bytes = frame_record c word d.stamp d.msg record_version d.text in
    rw e (
      ap (λ x. record_bytes ++ x) (log_bytes-append c (suc word) ds b)
      ∙ sym (
          append_assoc record_bytes (log_bytes c (suc word) ds)
            (frame_record c (suc word + length ds) b.stamp b.msg record_version b.text)))

pub AllStored-snoc :
    (c : Coding) (word : ℕ) (bs : List Stored) (b : Stored)
    → AllStored c word bs
    → IsStored c (word + length bs) b
    → AllStored c word (bs ++ b ∷ [])
AllStored-snoc c word [] b h k = let e : word + 0 ≡ word = omega arith in (rw e at k, tt)
AllStored-snoc c word (d ∷ ds) b h k =
    let e : word + suc (length ds) ≡ suc word + length ds = omega arith in
    (h.0, AllStored-snoc c (suc word) ds b h.1 (rw e at k))

pub AllStored-drop :
    (c : Coding) (word i : ℕ) (bs : List Stored)
    → AllStored c word bs
    → AllStored c (word + i) (drop i bs)
AllStored-drop c word zero bs h = let e : word + 0 ≡ word = omega arith in rw e h
AllStored-drop c word (suc i) [] h = tt
AllStored-drop c word (suc i) (b ∷ bs) h =
    let e : word + suc i ≡ suc word + i = omega arith in rw e (AllStored-drop c (suc word) i bs h.1)

pub length-frame_record :
    (c : Coding) (word now : ℕ) (m : Message) (text : Bytes)
    → length (frame_record c word now m record_version text) ≡ 27 + (length m.key + length text)
unfolding frame_record record_front
length-frame_record c word now m text = omega (arith, length-append m.key text)

pub length-log_bytes :
    (c : Coding) (word : ℕ) (bs : List Stored) → length bs ≤ length (log_bytes c word bs)
unfolding log_bytes frame_record record_front
length-log_bytes c word [] = omega arith
length-log_bytes c word (b ∷ bs) =
    let rest : Bytes = log_bytes c (suc word) bs in
    omega (arith, length-log_bytes c (suc word) bs, length-append (b.msg.key ++ b.text) rest)

pub drop_empty {ℓ} : {A : Type ℓ} (n : ℕ) → drop {A = A} n [] ≡ []
drop_empty zero = refl
drop_empty (suc n) = refl

decode_record_empty : (c : Coding) → decode_record c record_version [] ≡ at_end
unfolding decode_record read_full
decode_record_empty c = refl

module _ (c : Coding) (h : IsCoding c) where
  -- One record is read, and the reader stands at the next.
  pub decode_stored :
      (word : ℕ) (b : Stored) (rest : Bytes)
      → IsStored c word b
      → decode_record c record_version
          (frame_record c word b.stamp b.msg record_version b.text ++ rest)
        ≡ record_read b.msg word rest
  decode_stored word b rest k =
      decode_record-frame_record c h word b.stamp b.msg record_version b.text rest k.fits
      ∙ taken
      ∙ ap (λ m. record_read m word rest) (ap (λ o. record (b.msg) { offset = o }) (sym k.numbered))
    where
      taken :
          decode_payload c b.msg.codec word b.text rest
          ≡ record_read (record (b.msg) { offset = signed64 word }) word rest
      taken =
          let read = h.reads b.msg b.text k.coded in
          ap (λ n. decode_payload c n word b.text rest) k.plain
          ∙ unfold decode_payload unpack in rw (read, decode_payload)

  pub scan_lem :
      (fuel word : ℕ) (bs : List Stored)
      → length bs < fuel
      → word + length bs < 9223372036854775808
      → AllStored c word bs
      → scan c fuel record_version word (log_bytes c word bs) ≡ some (word + length bs)
  unfolding scan log_bytes
  scan_lem zero word bs enough small k = absurd (omega arith)
  scan_lem (suc fuel) word [] enough small k =
      let e : word + 0 ≡ word = omega arith in rw (decode_record_empty c, scan, e)
  scan_lem (suc fuel) word (b ∷ bs) enough small k =
      let e : u64 (word + 1) ≡ suc word = omega arith in
      let f : word + suc (length bs) ≡ suc word + length bs = omega arith in
      rw (decode_stored word b (log_bytes c (suc word) bs) k.0, scan, e, f)
        (scan_lem fuel (suc word) bs (omega arith) (omega arith) k.1)

  -- The loop of Read skips the records before the start and takes as many as it was asked for.
  pub read_loop_lem :
      (fuel word start count : ℕ) (bs : List Stored)
      → length bs < fuel
      → word + length bs < 9223372036854775808
      → start < 9223372036854775808
      → AllStored c word bs
      → read_loop c fuel record_version start count (log_bytes c word bs)
        ≡ some (messages (take count (messages_of (drop (start - word) bs))))
  unfolding read_loop log_bytes
  read_loop_lem fuel word start zero bs enough small low k = refl
  read_loop_lem zero word start (suc n) bs enough small low k = absurd (omega arith)
  read_loop_lem (suc fuel) word start (suc n) [] enough small low k =
      rw (decode_record_empty c, read_loop, drop_empty (start - word))
  read_loop_lem (suc fuel) word start (suc n) (b ∷ bs) enough small low k =
      let one = decode_stored word b (log_bytes c (suc word) bs) k.0 in
      let test = offset_lt_small word start (omega arith) low in
      elim (Bool-cases (ltb word start)) [
        | inl before ↦
            let e : start - word ≡ suc (start - suc word) = ground arith in
            rw (one, read_loop, test, before, e)
              (read_loop_lem fuel (suc word) start (suc n) bs (omega arith) (omega arith) low k.1)
        | inr reached ↦
            let e : start - word ≡ 0 = ground arith in
            let f : start - suc word ≡ 0 = ground arith in
            let rest =
              rw f at
                (read_loop_lem fuel (suc word) start n bs (omega arith) (omega arith) low k.1) in
            rw (one, read_loop, test, reached, e, rest)
      ]
