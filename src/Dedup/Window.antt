-- ===== src/Dedup/Window.antt =====
-- The windows of internal/producer/dedup.go. A sequence number is a uint64 and an offset an int64;
-- the lock makes each method one step.
use pubsub_broker.Base.{
  ℕ, ◌+◌, ◌%◌, Bool, true, false, ◌&&◌, Option, none, some, List, [], ◌∷◌, if◌then◌else◌, ◌==◌,
  nat_comparable, set, replicate,
}
use pubsub_broker.Base.Bytes.{Bytes, bytes_comparable}
use pubsub_broker.Base.Int.{ℤ, pos, positive_or}
use pubsub_broker.Base.Maps.{Map, lookup, insert}

pub record SeqEntry : Type 0 where
  pub seq_num : ℕ
  pub offset : ℤ
  pub valid : Bool

pub record ClientWindow : Type 0 where
  pub ring : List SeqEntry
  pub head : ℕ
  pub size : ℕ

-- The zero value of a slot.
abbrev pub empty_slot : SeqEntry
empty_slot = record { seq_num = 0; offset = pos 0; valid = false }

-- newClientWindow
unfoldable pub new_client_window : ℕ → ClientWindow
new_client_window size = record { ring = replicate size empty_slot; head = 0; size = size }

-- The loop of lookup over the slots from one on.
unfoldable pub scan : ℕ → List SeqEntry → Option ℤ
scan seq_num [] = none
scan seq_num (e ∷ es) =
    let rest = scan seq_num es in if e.valid && (e.seq_num == seq_num) then some e.offset else rest

-- lookup: `none` is the pair (0, false).
unfoldable pub window_lookup : ClientWindow → ℕ → Option ℤ
window_lookup cw seq_num = scan seq_num cw.ring

-- mark
unfoldable pub window_mark : ClientWindow → ℕ → ℤ → ClientWindow
window_mark cw seq_num offset = record cw {
  ring = set cw.ring cw.head (record { seq_num = seq_num; offset = offset; valid = true });
  head = (cw.head + 1) % cw.size;
}

pub record DedupWindow : Type 0 where
  pub per_client : Map Bytes ClientWindow
  pub size : ℕ

-- NewDedupWindow
unfoldable pub new_dedup_window : ℤ → DedupWindow
new_dedup_window size = record { per_client = []; size = positive_or 10000 size }

-- LookupOffset
unfoldable pub lookup_offset : DedupWindow → Bytes → ℕ → Option ℤ
lookup_offset d client_id seq_num = elim (lookup client_id d.per_client) [
  | none ↦ none
  | some cw ↦ window_lookup cw seq_num
]

-- IsDuplicate
unfoldable pub is_duplicate : DedupWindow → Bytes → ℕ → Bool
is_duplicate d client_id seq_num = elim (lookup client_id d.per_client) [
  | none ↦ false
  | some cw ↦ elim (window_lookup cw seq_num) [ none ↦ false | some _ ↦ true ]
]

-- The window of a client, a new one when it has none.
unfoldable pub client_window : DedupWindow → Bytes → ClientWindow
client_window d client_id = elim (lookup client_id d.per_client) [
  | none ↦ new_client_window d.size
  | some cw ↦ cw
]

-- Mark
unfoldable pub mark : DedupWindow → Bytes → ℕ → ℤ → DedupWindow
mark d client_id seq_num offset = record d {
  per_client =
      insert client_id (window_mark (client_window d client_id) seq_num offset) d.per_client;
}
