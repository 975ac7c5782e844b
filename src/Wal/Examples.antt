-- ===== src/Wal/Examples.antt =====
-- A log of two entries at work, with the sum of the bytes as a checksum.
use pubsub_broker.Base.{ℕ, ◌+◌, ◌%◌, ◌≡◌, refl, some, List, [], ◌∷◌, ◌++◌, arith}
use pubsub_broker.Base.Bytes.{Bytes}
use pubsub_broker.Wal.File.{Wal, Entry, open_file}
use pubsub_broker.Wal.Reading.{header}
use pubsub_broker.Wal.Recovery.{Holds, log_bytes, numbered, open_file_corrupt}
use pubsub_broker.Wal.Refinement.{
  LogStep, add, replace, restart, crash, spec_run, spec_step, log_run, log_run-Holds,
}
use pubsub_broker.Wal.Totality.{open_file_total}

abbrev checksum : Bytes → ℕ
checksum [] = 0
checksum (b ∷ bs) = (b + checksum bs) % 4294967296

abbrev empty_log : Wal
empty_log = record { file = []; next_offset = 0 }

empty_log-Holds : Holds checksum empty_log []
empty_log-Holds = record {
  bytes = unfold log_bytes in refl;
  counted = refl;
  sized = tt;
  bounded = omega arith;
}

abbrev steps : List LogStep
steps = add (5 ∷ []) ∷ crash (6 ∷ 7 ∷ []) 17 ∷ add (8 ∷ []) ∷ restart ∷ replace ((9 ∷ []) ∷ []) ∷ []

log_run-Holds_example :
    (w : Wal) × (log_run checksum empty_log steps ≡ some w)
    × Holds checksum w (spec_run [] steps)
    × (open_file checksum w.file ≡ some (w, numbered 0 (spec_run [] steps)))
log_run-Holds_example =
    log_run-Holds checksum empty_log [] steps empty_log-Holds
      (unfold spec_run spec_step in omega arith)

open_file_corrupt_example :
    open_file checksum ([] ++ (header 0 1 3 ++ (5 ∷ [] ++ 1 ∷ 2 ∷ [])))
    ≡ some (empty_log, numbered 0 [])
open_file_corrupt_example =
    open_file_corrupt checksum empty_log [] 0 3 (5 ∷ []) (1 ∷ 2 ∷ []) empty_log-Holds (omega arith)
      (omega arith) (omega arith) (omega arith)

open_file_total_example :
    (w : Wal) × (es : List Entry) × (tail : Bytes) × (open_file checksum (1 ∷ 2 ∷ 3 ∷ [])
      ≡ some (w, es))
    × (w.file ++ tail ≡ 1 ∷ 2 ∷ 3 ∷ [])
open_file_total_example = open_file_total checksum (1 ∷ 2 ∷ 3 ∷ [])
