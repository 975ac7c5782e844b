-- ===== src/Frames/Examples.antt =====
-- Two frames at work.
use pubsub_broker.Base.{◌≤◌, ◌<◌, ◌≡◌, some, List, [], ◌∷◌, ◌++◌, arith, length}
use pubsub_broker.Base.Bytes.{Bytes}
use pubsub_broker.Frames.Codec.{
  max_body_size, Frame, written, unwritten, body_too_large, encode_bytes, decoded, decode,
  command_byte, publish, ping,
}
use pubsub_broker.Frames.RoundTrip.{
  decode-encode_bytes, decode_frames, write_frames, decode_frames-write_frames,
}
use pubsub_broker.Frames.Errors.{Refusals, decode-Refusals}

abbrev body : Bytes
body = 123 ∷ 125 ∷ []

abbrev publication : Frame
publication = record { command = command_byte publish; request_id = 7; body = body }

decode-encode_bytes_example :
    ((length body ≤ max_body_size)
      → (bs : Bytes) × (encode_bytes 1 7 body ≡ written bs)
        × (decode (bs ++ 5 ∷ []) ≡ decoded publication (5 ∷ [])))
    × ((max_body_size < length body) → encode_bytes 1 7 body ≡ unwritten body_too_large)
decode-encode_bytes_example = decode-encode_bytes 1 7 body (5 ∷ []) (omega arith) (omega arith)

abbrev stream : List Frame
stream = publication ∷ record { command = command_byte ping; request_id = 8; body = [] } ∷ []

decode_frames-write_frames_example :
    decode_frames 2 (write_frames stream ++ 5 ∷ []) ≡ some (stream, 5 ∷ [])
decode_frames-write_frames_example =
    decode_frames-write_frames stream (5 ∷ [])
      ((omega arith, omega arith), ((omega arith, omega arith), tt))

decode-Refusals_example : Refusals 1 7
decode-Refusals_example = decode-Refusals 1 7 (omega arith)
