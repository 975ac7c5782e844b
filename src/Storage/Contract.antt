-- ===== src/Storage/Contract.antt =====
-- The contract of a partition log: a list of messages from an offset on, Append behind it, Read from anywhere.
use pubsub_broker.Base.{
  ℕ, ◌+◌, ◌-◌, ◌<◌, ◌≡◌, ◌≢◌, refl, ap, ◌∙◌, some, List, [], ◌∷◌, ◌++◌, length, take, drop, arith,
  All, length-append,
}
use pubsub_broker.Base.Bytes.{Bytes}
use pubsub_broker.Dlq.Queue.{Message}
use pubsub_broker.Storage.Record.{Coding, IsCoding}
use pubsub_broker.Storage.Segment.{Segment, messages}
use pubsub_broker.Storage.Holding.{Stored, messages_of, IsStored}
use pubsub_broker.Storage.Partition.{PartitionLog, append, read_log, next_of, next_offset}
use pubsub_broker.Storage.Logs.{HoldsAll, concat, read_segments-HoldsAll}
use pubsub_broker.Storage.Appending.{stored_at, HasSpace, append_last-HoldsAll}

-- The log holds these messages, numbered from an offset.
pub record LogHolds (c : Coding) (base : ℕ) (pl : PartitionLog) (bs : List Stored) : Type 0 where
  pub groups : List (List Stored)
  pub holds : HoldsAll c base pl.segments groups
  pub some_segment : pl.segments ≢ []
  pub contents : concat groups ≡ bs

next_of-HoldsAll :
    (c : Coding) (base : ℕ) (ss : List Segment) (bss : List (List Stored))
    → HoldsAll c base ss bss
    → ss ≢ []
    → next_of ss ≡ base + length (concat bss)
unfolding next_of
next_of-HoldsAll c base [] bss h ne = absurd (ne refl)
next_of-HoldsAll c base (s ∷ ss) [] h ne = absurd h
next_of-HoldsAll c base (s ∷ []) (bs ∷ []) (at_base, hold, _) ne =
    omega (arith, hold.counted, length-append bs [])
next_of-HoldsAll c base (s ∷ []) (bs ∷ ds ∷ dss) (_, _, bad) ne = absurd bad
next_of-HoldsAll c base (s ∷ t ∷ ss) (bs ∷ bss) (at_base, hold, rest) ne = omega (
  arith,
  next_of-HoldsAll c (base + length bs) (t ∷ ss) bss rest (λ e. cc),
  length-append bs (concat bss),
)

-- NextOffset is the offset behind the last message, Append returns it and stores the message under it, in
-- the last segment or a new one, as long as JSON can encode the message, it has no codec, its key, its text
-- and the files stay within the widths of the format, and offsets stay within int64.
pub append-LogHolds :
    (c : Coding) (now base : ℕ) (pl : PartitionLog) (bs : List Stored) (m : Message) (text : Bytes)
    → LogHolds c base pl bs
    → IsStored c (base + length bs) (stored_at (base + length bs) now m text)
    → base + length bs < 9223372036854775807
    → All (HasSpace m text) pl.segments
    → (next_offset pl ≡ base + length bs)
      × (pl' : PartitionLog) × (append c now pl m ≡ some (pl', some (base + length bs)))
      × LogHolds c base pl' (bs ++ stored_at (base + length bs) now m text ∷ [])
unfolding append next_offset
append-LogHolds c now base pl bs m text h k room space =
    let n : ℕ = base + length bs in
    let at_end : base + length (concat h.groups) ≡ n = ap (λ x. base + length x) h.contents in
    let (ss', bss', e, held, same) =
      append_last-HoldsAll c now m text pl.seg_max_bytes pl.index_every base pl.segments h.groups n
        h.holds h.some_segment at_end k room space in
    (
      next_of-HoldsAll c base pl.segments h.groups h.holds h.some_segment ∙ at_end,
      record pl { segments = ss' },
      rw (e, append),
      record {
        groups = bss';
        holds = held;
        some_segment =
            kept ss' bss' held (same ∙ ap (λ x. x ++ stored_at n now m text ∷ []) h.contents);
        contents = same ∙ ap (λ x. x ++ stored_at n now m text ∷ []) h.contents;
      },
    )
  where
    kept :
        (ss : List Segment) (bss : List (List Stored))
        → HoldsAll c base ss bss
        → concat bss ≡ bs ++ stored_at (base + length bs) now m text ∷ []
        → ss ≢ []
    kept [] [] held e f =
        let n : length (concat []) ≡ length (bs ++ stored_at (base + length bs) now m text ∷ []) =
          ap length e in
        absurd (omega (arith, length-append bs (stored_at (base + length bs) now m text ∷ [])))
    kept [] (ds ∷ dss) held e f = absurd held
    kept (s ∷ ss) bss held e f = cc

-- Read returns the messages of the log from the start on, in order and as many as it was asked for at most,
-- whatever the segments and their indices are.
pub read_log-LogHolds :
    (c : Coding) (base : ℕ) (pl : PartitionLog) (bs : List Stored) (start max_count : ℕ)
    → IsCoding c
    → LogHolds c base pl bs
    → start < 9223372036854775808
    → read_log c pl start max_count
      ≡ some (messages (take max_count (messages_of (drop (start - base) bs))))
unfolding read_log
read_log-LogHolds c base pl bs start max_count k h low =
    read_segments-HoldsAll c base pl.segments h.groups start max_count k h.holds low
    ∙ ap (λ x. some (messages (take max_count (messages_of (drop (start - base) x))))) h.contents
