-- ===== src/Frames/RoundTrip.antt =====
-- What Decode reads of what Encode wrote.
use pubsub_broker.Base.{
  ℕ, zero, suc, ◌≤◌, ◌<◌, ◌≡◌, refl, true, false, Option, none, some, List, [], ◌∷◌, ◌++◌, ltb,
  nat_comparable, length, arith, append_assoc, All, length-append, ◌%◌,
}
use pubsub_broker.Base.Bytes.{Bytes}
use pubsub_broker.Base.Words.{u32, IsU32, IsU64}
use pubsub_broker.Base.Endian.{put_le, get_le, read_full-append, get_le-put_le}
use pubsub_broker.Frames.Codec.{
  magic, version, max_body_size, Frame, written, unwritten, body_too_large, write_frame,
  encode_bytes, decoded, failed, read_body, decode_header, decode,
}

-- The eighteen bytes in front of a body.
abbrev pub header : ℕ → ℕ → ℕ → Bytes
header cmd request_id size =
    put_le 4 magic ++ (version ∷ cmd ∷ (put_le 8 request_id ++ put_le 4 size))

read_body-append :
    (cmd request_id : ℕ) (body rest : Bytes)
    → read_body cmd request_id (length body) (body ++ rest)
      ≡ decoded (record { command = cmd; request_id = request_id; body = body }) rest
unfolding read_body
read_body-append cmd request_id [] rest = refl
read_body-append cmd request_id (b ∷ bs) rest = rw (read_full-append (b ∷ bs) rest, read_body)

-- Decode behind a header that says a size of at most the bound.
pub decode-header :
    (cmd request_id size : ℕ) (rest : Bytes)
    → IsU64 request_id
    → size ≤ max_body_size
    → decode (header cmd request_id size ++ rest) ≡ read_body cmd request_id size rest
unfolding decode decode_header
decode-header cmd request_id size rest h small =
    let word : get_le (put_le 4 size) ≡ size = get_le-put_le 4 size (omega arith) in
    let id : get_le (put_le 8 request_id) ≡ request_id = get_le-put_le 8 request_id (omega arith) in
    let allowed : ltb max_body_size size ≡ false = ground arith in
    let fits : ltb 2147483647 size ≡ false = ground arith in
    rw (read_full-append (header cmd request_id size) rest, decode, word, allowed, fits, id)

-- Decode takes back exactly the bytes of a frame with a body of at most 16 MiB, whatever follows.
pub decode-write_frame :
    (f : Frame) (rest : Bytes)
    → IsU64 f.request_id
    → length f.body ≤ max_body_size
    → decode (write_frame f ++ rest) ≡ decoded f rest
unfolding write_frame
decode-write_frame f rest h small =
    let size : u32 (length f.body) ≡ length f.body = omega arith in
    rw (size, decode-header f.command f.request_id (length f.body) (f.body ++ rest) h small)
      (read_body-append f.command f.request_id f.body rest)

-- Below 4 GiB Encode writes a body exactly when it has at most 16 MiB, and what it writes is decoded to
-- the command, the id and the body, up to the byte behind it.
pub decode-encode_bytes :
    (cmd request_id : ℕ) (body rest : Bytes)
    → IsU64 request_id
    → IsU32 (length body)
    → ((length body ≤ max_body_size)
        → (bs : Bytes) × (encode_bytes cmd request_id body ≡ written bs)
          × (decode (bs ++ rest)
              ≡ decoded (record { command = cmd; request_id = request_id; body = body }) rest))
      × ((max_body_size < length body)
          → encode_bytes cmd request_id body ≡ unwritten body_too_large)
unfolding encode_bytes
decode-encode_bytes cmd request_id body rest h below =
    let size : u32 (length body) ≡ length body = omega arith in
    let f : Frame = record { command = cmd; request_id = request_id; body = body } in
    (
      λ small.
          let allowed : ltb max_body_size (length body) ≡ false = ground arith in
          (write_frame f, rw (size, allowed), decode-write_frame f rest h small),
      λ large.
          let refused : ltb max_body_size (length body) ≡ true = ground arith in rw (size, refused),
    )

-- A body of 4 GiB or more whose length is at most 16 MiB past a multiple of 4 GiB passes the guard, and
-- Decode takes only the first bytes of it for the body: the others are read as the next frames.
pub encode_wraps :
    (cmd request_id : ℕ) (front back rest : Bytes)
    → IsU64 request_id
    → length front ≤ max_body_size
    → 0 < length back
    → length back % 4294967296 ≡ 0
    → (bs : Bytes) × (encode_bytes cmd request_id (front ++ back) ≡ written bs)
      × (decode (bs ++ rest)
          ≡ decoded
              (record { command = cmd; request_id = request_id; body = front })
              (back ++ rest))
unfolding encode_bytes write_frame
encode_wraps cmd request_id front back rest h small some_bytes wraps =
    let size : u32 (length (front ++ back)) ≡ length front =
      omega (arith, length-append front back) in
    let allowed : ltb max_body_size (length front) ≡ false = ground arith in
    (
      write_frame (record { command = cmd; request_id = request_id; body = front ++ back }),
      rw (size, allowed),
      rw
          (
            size,
            append_assoc front back rest,
            decode-header cmd request_id (length front) (front ++ (back ++ rest)) h small,
          )
          (read_body-append cmd request_id front (back ++ rest)),
    )

-- As many frames as the number says, decoded one behind the other.
unfoldable pub decode_frames : ℕ → Bytes → Option (List Frame × Bytes)
decode_frames zero bs = some ([], bs)
decode_frames (suc n) bs = elim (decode bs) [
  | failed e ↦ none
  | decoded f rest ↦ elim (decode_frames n rest) [
    | none ↦ none
    | some (fs, rest') ↦ some (f ∷ fs, rest')
  ]
]

-- The bytes of frames written one behind the other.
unfoldable pub write_frames : List Frame → Bytes
write_frames [] = []
write_frames (f ∷ fs) = write_frame f ++ write_frames fs

-- A stream of frames is decoded frame by frame, up to the byte behind the last.
pub decode_frames-write_frames :
    (fs : List Frame) (rest : Bytes)
    → All (λ f. IsU64 f.request_id × (length f.body ≤ max_body_size)) fs
    → decode_frames (length fs) (write_frames fs ++ rest) ≡ some (fs, rest)
unfolding decode_frames write_frames
decode_frames-write_frames [] rest h = refl
decode_frames-write_frames (f ∷ fs) rest (fits, h) = rw (
  append_assoc (write_frame f) (write_frames fs) rest,
  decode-write_frame f (write_frames fs ++ rest) fits.0 fits.1,
  decode_frames,
  decode_frames-write_frames fs rest h,
)
