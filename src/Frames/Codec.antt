-- ===== src/Frames/Codec.antt =====
-- Encoder and Decoder of internal/protocol/protocol.go. A writer is what was written, a reader the bytes
-- to come; JSON encoding of a body is its result. Writes to the connection succeed.
use pubsub_broker.Base.{
  ℕ, zero, suc, Option, none, some, List, [], ◌∷◌, ◌++◌, if◌then◌else◌, ltb, ◌==◌, not,
  nat_comparable, length, get_elem?, String,
}
use pubsub_broker.Base.Bytes.{Bytes}
use pubsub_broker.Base.Words.{u32}
use pubsub_broker.Base.Endian.{put_le, get_le, slice, read_full}

-- 0x50534201
abbrev pub magic : ℕ
magic = 1347633665

abbrev pub version : ℕ
version = 1

abbrev pub header_size : ℕ
header_size = 18

-- 16 MiB
abbrev pub max_body_size : ℕ
max_body_size = 16777216

-- Command
pub data Command : Type 0 where
  publish subscribe unsubscribe fetch ack nack commit_offset create_topic delete_topic : Command
  list_topics auth ping pong response error batch_publish push seek reset_group : Command

-- The byte of each command.
abbrev pub command_byte : Command → ℕ
command_byte publish = 1
command_byte subscribe = 2
command_byte unsubscribe = 3
command_byte fetch = 4
command_byte ack = 5
command_byte nack = 6
command_byte commit_offset = 7
command_byte create_topic = 8
command_byte delete_topic = 9
command_byte list_topics = 10
command_byte auth = 11
command_byte ping = 12
command_byte pong = 13
command_byte response = 14
command_byte error = 15
command_byte batch_publish = 16
command_byte push = 32
command_byte seek = 48
command_byte reset_group = 49

-- The name of each command in String.
abbrev pub command_text : Command → String
command_text publish = "PUBLISH"
command_text subscribe = "SUBSCRIBE"
command_text unsubscribe = "UNSUBSCRIBE"
command_text fetch = "FETCH"
command_text ack = "ACK"
command_text nack = "NACK"
command_text commit_offset = "COMMIT_OFFSET"
command_text create_topic = "CREATE_TOPIC"
command_text delete_topic = "DELETE_TOPIC"
command_text list_topics = "LIST_TOPICS"
command_text auth = "AUTH"
command_text ping = "PING"
command_text pong = "PONG"
command_text response = "RESPONSE"
command_text error = "ERROR"
command_text batch_publish = "BATCH_PUBLISH"
command_text push = "PUSH"
command_text seek = "SEEK"
command_text reset_group = "RESET_GROUP"

-- The commands in the order of the switch of String.
abbrev pub commands : List Command
commands =
    publish ∷ subscribe ∷ unsubscribe ∷ fetch ∷ ack ∷ nack ∷ commit_offset ∷ create_topic
    ∷ delete_topic ∷ list_topics ∷ auth ∷ ping ∷ pong ∷ response ∷ error ∷ batch_publish ∷ push
    ∷ seek ∷ reset_group ∷ []

-- The switch of String over the commands from one on; the text of an unknown byte is a parameter.
unfoldable pub name_from : (ℕ → String) → List Command → ℕ → String
name_from unknown [] b = unknown b
name_from unknown (c ∷ cs) b =
    let rest = name_from unknown cs b in if b == command_byte c then command_text c else rest

-- String
unfoldable pub command_name : (ℕ → String) → ℕ → String
command_name unknown b = name_from unknown commands b

-- Frame
pub record Frame : Type 0 where
  pub command : ℕ
  pub request_id : ℕ
  pub body : Bytes

pub data EncodeError : Type 0 where
  bad_body body_too_large : EncodeError

pub data Encoded : Type 0 where
  written : Bytes → Encoded
  unwritten : EncodeError → Encoded

-- writeFrame
unfoldable pub write_frame : Frame → Bytes
write_frame f =
    put_le 4 magic
    ++ (version ∷ f.command ∷ (put_le 8 f.request_id ++ (put_le 4 (u32 (length f.body)) ++ f.body)))

-- The guard of Encode: the length is cut to 32 bits before it is compared.
unfoldable pub encode_bytes : ℕ → ℕ → Bytes → Encoded
encode_bytes cmd request_id body =
    if ltb max_body_size (u32 (length body))
    then unwritten body_too_large
    else written (write_frame (record { command = cmd; request_id = request_id; body = body }))

-- Encode of a body: none is a nil body, and `some none` one that JSON cannot encode.
unfoldable pub encode : ℕ → ℕ → Option (Option Bytes) → Encoded
encode cmd request_id none = encode_bytes cmd request_id []
encode cmd request_id (some none) = unwritten bad_body
encode cmd request_id (some (some body)) = encode_bytes cmd request_id body

pub data DecodeError : Type 0 where
  short_header bad_magic bad_version too_large overflow short_body out_of_range : DecodeError

pub data Decoded : Type 0 where
  decoded : Frame → Bytes → Decoded
  failed : DecodeError → Decoded

-- The body of a frame with a header that was accepted.
unfoldable pub read_body : ℕ → ℕ → ℕ → Bytes → Decoded
read_body cmd request_id zero rest =
    decoded (record { command = cmd; request_id = request_id; body = [] }) rest
read_body cmd request_id (suc n) rest = elim (read_full (suc n) rest) [
  | none ↦ failed short_body
  | some (body, rest') ↦
      decoded (record { command = cmd; request_id = request_id; body = body }) rest'
]

-- The checks of Decode on the header.
unfoldable pub decode_header : Bytes → Bytes → Decoded
decode_header hdr rest =
    if not (get_le (slice 0 4 hdr) == magic) then failed bad_magic else (elim (get_elem? hdr 4) [
      | none ↦ failed out_of_range
      | some ver ↦ if not (ver == version) then failed bad_version else (elim (get_elem? hdr 5) [
        | none ↦ failed out_of_range
        | some cmd ↦
            if ltb max_body_size (get_le (slice 14 18 hdr))
            then failed too_large
            else if ltb 2147483647 (get_le (slice 14 18 hdr))
            then failed overflow
            else read_body cmd (get_le (slice 6 14 hdr)) (get_le (slice 14 18 hdr)) rest
      ])
    ])

-- Decode
unfoldable pub decode : Bytes → Decoded
decode bs = elim (read_full header_size bs) [
  | none ↦ failed short_header
  | some (hdr, rest) ↦ decode_header hdr rest
]

-- Unmarshal: whether the body was left alone or handed to JSON.
unfoldable pub unmarshal_body {ℓ} : {A : Type ℓ} → (Bytes → Option A) → A → Frame → Option A
unmarshal_body json v f = elim f.body [ [] ↦ some v | b ∷ bs ↦ json (b ∷ bs) ]
