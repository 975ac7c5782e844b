-- ===== src/Frames/Errors.antt =====
-- What Decode refuses.
use pubsub_broker.Base.{
  ℕ, zero, suc, ◌≤◌, ◌<◌, ◌≡◌, ◌≢◌, ◌∙◌, true, false, ◌∷◌, ◌++◌, ltb, ◌==◌, nat_comparable, length,
  arith,
}
use pubsub_broker.Base.Bytes.{Bytes}
use pubsub_broker.Base.Words.{IsU32, IsU64}
use pubsub_broker.Base.Endian.{put_le, get_le, read_full-append, get_le-put_le, read_full_short}
use pubsub_broker.Frames.Codec.{
  magic, version, header_size, max_body_size, failed, read_body, decode_header, decode,
  short_header, bad_magic, bad_version, too_large, short_body,
}
use pubsub_broker.Frames.RoundTrip.{decode-header}

-- The eighteen bytes of any header.
abbrev pub any_header : ℕ → ℕ → ℕ → ℕ → ℕ → Bytes
any_header m ver cmd request_id size =
    put_le 4 m ++ (ver ∷ cmd ∷ (put_le 8 request_id ++ put_le 4 size))

read_body_short :
    (cmd request_id size : ℕ) (rest : Bytes)
    → length rest < size
    → read_body cmd request_id size rest ≡ failed short_body
unfolding read_body
read_body_short cmd request_id zero rest h = elim h [ ]
read_body_short cmd request_id (suc n) rest h = rw (read_full_short (suc n) rest h, read_body)

-- The refusals of Decode, in the order of its checks.
pub record Refusals (cmd request_id : ℕ) : Type 0 where
  pub of_short : (bs : Bytes) → length bs < header_size → decode bs ≡ failed short_header
  pub of_magic :
      (m ver size : ℕ) (rest : Bytes)
      → IsU32 m
      → m ≢ magic
      → decode (any_header m ver cmd request_id size ++ rest) ≡ failed bad_magic
  pub of_version :
      (ver size : ℕ) (rest : Bytes)
      → ver ≢ version
      → decode (any_header magic ver cmd request_id size ++ rest) ≡ failed bad_version
  pub of_size :
      (size : ℕ) (rest : Bytes)
      → IsU32 size
      → max_body_size < size
      → decode (any_header magic version cmd request_id size ++ rest) ≡ failed too_large
  pub of_body :
      (size : ℕ) (rest : Bytes)
      → size ≤ max_body_size
      → length rest < size
      → decode (any_header magic version cmd request_id size ++ rest) ≡ failed short_body

-- Decode refuses an input without a whole header, another magic number, another version, a size over
-- 16 MiB, and a body that ends early, each with its own error.
pub decode-Refusals : (cmd request_id : ℕ) → IsU64 request_id → Refusals cmd request_id
unfolding decode decode_header
decode-Refusals cmd request_id h = record {
  of_short = λ bs short. rw (read_full_short header_size bs short, decode);
  of_magic = λ m ver size rest fits other.
      let word : get_le (put_le 4 m) ≡ m = get_le-put_le 4 m (omega arith) in
      let differs : (m == magic) ≡ false = ground arith in
      rw (read_full-append (any_header m ver cmd request_id size) rest, decode, word, differs);
  of_version = λ ver size rest other.
      let differs : (ver == version) ≡ false = ground arith in
      rw (read_full-append (any_header magic ver cmd request_id size) rest, decode, differs);
  of_size = λ size rest fits large.
      let word : get_le (put_le 4 size) ≡ size = get_le-put_le 4 size (omega arith) in
      let over : ltb max_body_size size ≡ true = ground arith in
      rw (read_full-append (any_header magic version cmd request_id size) rest, decode, word, over);
  of_body = λ size rest small short.
      decode-header cmd request_id size rest h small
      ∙ read_body_short cmd request_id size rest short;
}
