-- ===== src/Wal/Refinement.antt =====
-- The log refines a list of data: appends, checkpoints, restarts and crashes in any order.
use pubsub_broker.Base.{
  ℕ, suc, ◌+◌, ◌<◌, ◌≡◌, refl, Option, none, some, List, [], ◌∷◌, ◌++◌, length, take, arith,
  length-append, append_assoc, append-nil, All,
}
use pubsub_broker.Base.Bytes.{Bytes}
use pubsub_broker.Base.Words.{IsU32}
use pubsub_broker.Wal.File.{header_size, Wal, entry_bytes, append, rewrite, truncate, open_file}
use pubsub_broker.Wal.Recovery.{
  Holds, log_bytes, numbered, append-Holds, open_file_torn, open_file_whole,
}

-- What can happen to a log.
pub data LogStep : Type 0 where
  add : Bytes → LogStep
  replace : List Bytes → LogStep
  restart : LogStep
  crash : Bytes → ℕ → LogStep

-- What each does to the list of data: a crash in the write of an entry leaves nothing of it.
unfoldable pub spec_step : List Bytes → LogStep → List Bytes
spec_step ds (add d) = ds ++ d ∷ []
spec_step ds (replace es) = es
spec_step ds restart = ds
spec_step ds (crash d k) = ds

unfoldable pub spec_run : List Bytes → List LogStep → List Bytes
spec_run ds [] = ds
spec_run ds (s ∷ ss) = spec_run (spec_step ds s) ss

module _ (crc32 : Bytes → ℕ) where
  abbrev pub IsFrame : Bytes → Type 0
  IsFrame d = IsU32 (length d) × IsU32 (crc32 d)

  -- What the code does: a crash writes only the first bytes of an entry, and the log is opened again.
  unfoldable pub log_step : Wal → LogStep → Option Wal
  log_step w (add d) = some (append crc32 w d).0
  log_step w (replace es) = some (truncate crc32 w es)
  log_step w restart = elim (open_file crc32 w.file) [ none ↦ none | some r ↦ some r.0 ]
  log_step w (crash d k) =
      elim (open_file crc32 (w.file ++ take k (entry_bytes crc32 w.next_offset d))) [
        | none ↦ none
        | some r ↦ some r.0
      ]

  unfoldable pub log_run : Wal → List LogStep → Option Wal
  log_run w [] = some w
  log_run w (s ∷ ss) = elim (log_step w s) [ none ↦ none | some w' ↦ log_run w' ss ]

  -- The data of a step fit their frames, the crash is inside the entry, and the offsets do not end.
  abbrev pub IsLegal : List Bytes → LogStep → Type 0
  IsLegal ds (add d) = IsFrame d × (suc (length ds) < 9223372036854775807)
  IsLegal ds (replace es) = All IsFrame es × (length es < 9223372036854775807)
  IsLegal ds restart = Unit {0}
  IsLegal ds (crash d k) = IsU32 (length d) × (k < header_size + length d)

  abbrev pub AllLegal : List Bytes → List LogStep → Type 0
  AllLegal ds [] = Unit {0}
  AllLegal ds (s ∷ ss) = IsLegal ds s × AllLegal (spec_step ds s) ss

  rewrite-Holds :
      (w : Wal) (ds es : List Bytes)
      → Holds crc32 w ds
      → All IsFrame es
      → length ds + length es < 9223372036854775807
      → Holds crc32 (rewrite crc32 w es) (ds ++ es)
  unfolding rewrite append
  rewrite-Holds w ds [] h fits room = rw (append-nil ds) h
  rewrite-Holds w ds (e ∷ es) h fits room =
      let n : length (ds ++ e ∷ []) ≡ suc (length ds) = omega (arith, length-append ds (e ∷ [])) in
      let grown = (append-Holds crc32 w ds e h fits.0.0 fits.0.1 (omega arith)).0 in
      rw (← append_assoc ds (e ∷ []) es)
        (rewrite-Holds (append crc32 w e).0 (ds ++ e ∷ []) es grown fits.1 (rw n (omega arith)))

  -- Truncate leaves a log of the new data.
  pub truncate-Holds :
      (w : Wal) (es : List Bytes)
      → All IsFrame es
      → length es < 9223372036854775807
      → Holds crc32 (truncate crc32 w es) es
  unfolding truncate
  truncate-Holds w es fits room =
      rewrite-Holds (record { file = []; next_offset = 0 }) [] es
        (record {
          bytes = unfold log_bytes in refl;
          counted = refl;
          sized = tt;
          bounded = omega arith;
        })
        fits (omega arith)

  -- Each step of the code ends and does to the log what it does to the list.
  log_step-Holds :
      (w : Wal) (ds : List Bytes) (s : LogStep)
      → Holds crc32 w ds
      → IsLegal ds s
      → (w' : Wal) × (log_step w s ≡ some w') × Holds crc32 w' (spec_step ds s)
  unfolding log_step spec_step
  log_step-Holds w ds (add d) h legal =
      ((append crc32 w d).0, refl, (append-Holds crc32 w ds d h legal.0.0 legal.0.1 legal.1).0)
  log_step-Holds w ds (replace es) h legal =
      (truncate crc32 w es, refl, truncate-Holds w es legal.0 legal.1)
  log_step-Holds w ds restart h legal = (w, rw (open_file_whole crc32 w ds h, log_step), h)
  log_step-Holds w ds (crash d k) h legal =
      (w, rw (open_file_torn crc32 w ds d k h legal.0 legal.1, log_step), h)

  -- After any sequence of appends, checkpoints, restarts and torn writes the code has ended each, and
  -- the next Open returns exactly the data of the list that the specification gives, numbered from 0.
  pub log_run-Holds :
      (w : Wal) (ds : List Bytes) (ss : List LogStep)
      → Holds crc32 w ds
      → AllLegal ds ss
      → (w' : Wal) × (log_run w ss ≡ some w')
        × Holds crc32 w' (spec_run ds ss)
        × (open_file crc32 w'.file ≡ some (w', numbered 0 (spec_run ds ss)))
  unfolding log_run spec_run
  log_run-Holds w ds [] h legal = (w, refl, h, open_file_whole crc32 w ds h)
  log_run-Holds w ds (s ∷ ss) h (now, next_ones) =
      let (w', e, h') = log_step-Holds w ds s h now in
      let (w'', e', h'', opened) = log_run-Holds w' (spec_step ds s) ss h' next_ones in
      (w'', rw (e, log_run) e', h'', opened)
