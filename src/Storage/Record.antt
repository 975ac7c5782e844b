-- ===== src/Storage/Record.antt =====
-- Records of internal/storage/record.go. JSON, CRC-32 and the decompressors are one parameter. A reader is
-- the bytes to come, and the clock is an argument. Offsets are the bit patterns of int64.
use pubsub_broker.Base.{
  ℕ, ◌+◌, ◌%◌, ◌≡◌, Option, none, some, [], ◌∷◌, ◌++◌, if◌then◌else◌, leb, ◌==◌, nat_comparable,
  length, drop, get_elem?,
}
use pubsub_broker.Base.Bytes.{Bytes}
use pubsub_broker.Base.Words.{u32, IsU32}
use pubsub_broker.Base.Endian.{put_le, get_le, slice, read_full}
use pubsub_broker.Wal.File.{signed64}
use pubsub_broker.Dlq.Queue.{Message}

-- What the records use of other code.
pub record Coding : Type 0 where
  pub crc32 : Bytes → ℕ
  pub marshal : Message → Option Bytes
  pub unmarshal : Bytes → Option Message
  pub decompress : ℕ → Bytes → Option Bytes

-- What is known of it: a checksum is a 32-bit word, and JSON reads back what it wrote.
pub record IsCoding (c : Coding) : Type 0 where
  pub checked : (bs : Bytes) → IsU32 (c.crc32 bs)
  pub reads : (m : Message) (bs : Bytes) → c.marshal m ≡ some bs → c.unmarshal bs ≡ some m

abbrev pub rec_v1_header_size : ℕ
rec_v1_header_size = 26

abbrev pub rec_v2_header_size : ℕ
rec_v2_header_size = 27

abbrev pub record_version : ℕ
record_version = 2

-- "PSG2"
abbrev pub seg_magic : Bytes
seg_magic = 80 ∷ 83 ∷ 71 ∷ 50 ∷ []

abbrev pub seg_file_header_size : ℕ
seg_file_header_size = 5

-- The part of the header that both versions share.
unfoldable pub record_front : Coding → ℕ → ℕ → Message → Bytes → Bytes
record_front c word now m payload =
    put_le 8 word
    ++ put_le 8 now
    ++ put_le 2 (length m.key % 65536)
    ++ put_le 4 (u32 (length payload))
    ++ put_le 4 (c.crc32 payload)

-- The bytes of a record with its JSON text.
unfoldable pub frame_record : Coding → ℕ → ℕ → Message → ℕ → Bytes → Bytes
frame_record c word now m version payload =
    if leb record_version version
    then record_front c word now m payload ++ (m.codec ∷ (m.key ++ payload))
    else record_front c word now m payload ++ (m.key ++ payload)

-- encodeRecord
unfoldable pub encode_record : Coding → ℕ → ℕ → Message → ℕ → Option Bytes
encode_record c word now m version = elim (c.marshal m) [
  | none ↦ none
  | some payload ↦ some (frame_record c word now m version payload)
]

-- What decodeRecord returns: io.EOF or io.ErrUnexpectedEOF, another error, or the message and its offset.
pub data RecordRead : Type 0 where
  at_end bad_record : RecordRead
  record_read : Message → ℕ → Bytes → RecordRead

-- `compress.Decompress` where the codec is not 0.
unfoldable pub unpack : Coding → ℕ → Bytes → Option Bytes
unpack c codec payload = if codec == 0 then some payload else c.decompress codec payload

-- The message of a payload that passed the checksum.
unfoldable pub decode_payload : Coding → ℕ → ℕ → Bytes → Bytes → RecordRead
decode_payload c codec word payload rest = elim (unpack c codec payload) [
  | none ↦ bad_record
  | some text ↦ elim (c.unmarshal text) [
    | none ↦ bad_record
    | some m ↦ record_read (record m { offset = signed64 word }) word rest
  ]
]

-- The key and the payload behind a header.
unfoldable pub decode_body : Coding → ℕ → Bytes → Bytes → RecordRead
decode_body c codec hdr rest =
    let key_len = get_le (slice 16 18 hdr) in
    elim (read_full (key_len + get_le (slice 18 22 hdr)) rest) [
      | none ↦ at_end
      | some (body, rest') ↦
          if c.crc32 (drop key_len body) == get_le (slice 22 26 hdr)
          then decode_payload c codec (get_le (slice 0 8 hdr)) (drop key_len body) rest'
          else bad_record
    ]

-- `hdr[26]`, which the header has.
abbrev pub codec_of : Bytes → ℕ
codec_of hdr = elim (get_elem? hdr 26) [ none ↦ 0 | some b ↦ b ]

-- decodeRecord
unfoldable pub decode_record : Coding → ℕ → Bytes → RecordRead
decode_record c version bs =
    if leb record_version version
    then elim (read_full rec_v2_header_size bs) [
      | none ↦ at_end
      | some (hdr, rest) ↦ decode_body c (codec_of hdr) hdr rest
    ]
    else elim (read_full rec_v1_header_size bs) [
      | none ↦ at_end
      | some (hdr, rest) ↦ decode_body c 0 hdr rest
    ]
