-- ===== src/Wal/Recovery.antt =====
-- The log as a sequence of data: what Append, Truncate and a crash leave, and what Open gives back.
use pubsub_broker.Base.{
  ℕ, zero, suc, ◌+◌, ◌≤◌, ◌<◌, ◌≡◌, refl, sym, ap, ◌∙◌, true, none, some, List, [], ◌∷◌, ◌++◌, ltb,
  length, take, take_front, arith, length-append, append_assoc, append-nil, All, All-append, ◌≢◌,
}
use pubsub_broker.Base.Bytes.{Bytes}
use pubsub_broker.Base.Int.{ℤ, pos, negsuc}
use pubsub_broker.Base.Words.{IsU32, IsU64}
use pubsub_broker.Wal.File.{
  header_size, Entry, Wal, Recovered, signed64, entry_bytes, write_entry, append, read_entry,
  keep_entry, next_after, recover_loop, finish, open_file,
}
use pubsub_broker.Wal.Reading.{
  read_entry-entry_bytes, read_entry_torn, read_entry_corrupt, read_entry_empty, length-entry_bytes,
  header,
}

-- The entries that the data make from an offset on.
unfoldable pub numbered : ℕ → List Bytes → List Entry
numbered n [] = []
numbered n (d ∷ ds) = record { offset = pos n; payload = d } ∷ numbered (suc n) ds

module _ (crc32 : Bytes → ℕ) where
  -- The bytes of those entries.
  unfoldable pub log_bytes : ℕ → List Bytes → Bytes
  log_bytes n [] = []
  log_bytes n (d ∷ ds) = entry_bytes crc32 n d ++ log_bytes (suc n) ds

  -- The log holds the data, in order, and every entry fits its frame.
  pub record Holds (w : Wal) (ds : List Bytes) : Type 0 where
    pub bytes : w.file ≡ log_bytes 0 ds
    pub counted : w.next_offset ≡ length ds
    pub sized : All (λ d. IsU32 (length d) × IsU32 (crc32 d)) ds
    pub bounded : length ds < 9223372036854775807

  log_bytes-snoc :
      (n : ℕ) (ds : List Bytes) (d : Bytes)
      → log_bytes n (ds ++ d ∷ []) ≡ log_bytes n ds ++ entry_bytes crc32 (n + length ds) d
  unfolding log_bytes
  log_bytes-snoc n [] d =
      let e : n + 0 ≡ n = omega arith in rw e (append-nil (entry_bytes crc32 n d))
  log_bytes-snoc n (x ∷ xs) d =
      let e : suc n + length xs ≡ n + suc (length xs) = omega arith in
      rw (log_bytes-snoc (suc n) xs d, e)
        (sym (
          append_assoc (entry_bytes crc32 n x) (log_bytes (suc n) xs)
            (entry_bytes crc32 (n + suc (length xs)) d)))

  -- Append adds one datum at the end and returns its index.
  pub append-Holds :
      (w : Wal) (ds : List Bytes) (d : Bytes)
      → Holds w ds
      → IsU32 (length d)
      → IsU32 (crc32 d)
      → suc (length ds) < 9223372036854775807
      → Holds (append crc32 w d).0 (ds ++ d ∷ []) × ((append crc32 w d).1 ≡ length ds)
  unfolding append write_entry
  append-Holds w ds d h small sum room =
      let zero_add : 0 + length ds ≡ length ds = omega arith in
      let n : length (ds ++ d ∷ []) ≡ suc (length ds) = omega (arith, length-append ds (d ∷ [])) in
      (
        record {
          bytes =
              rw (h.bytes, h.counted)
                (sym (let grown = log_bytes-snoc 0 ds d in rw zero_add at grown));
          counted = rw (h.counted, n) (omega arith);
          sized =
              All-append (λ x. IsU32 (length x) × IsU32 (crc32 x)) ds (d ∷ []) h.sized
                ((small, sum), tt);
          bounded = rw n room;
        },
        h.counted,
      )

  -- The highest offset before one.
  abbrev before : ℕ → ℤ
  before zero = negsuc 0
  before (suc n) = pos n

  -- The state of the loop behind the entries.
  behind : Recovered → ℕ → List Bytes → Recovered
  behind r n ds = record {
    entries = r.entries ++ numbered n ds;
    max_offset = before (n + length ds);
    truncate_to = r.truncate_to + length (log_bytes n ds);
  }

  keep_entry_lem :
      (r : Recovered) (n : ℕ) (d : Bytes)
      → r.max_offset ≡ before n
      → n < 9223372036854775808
      → keep_entry crc32 r n d ≡ record {
        entries = r.entries ++ record { offset = pos n; payload = d } ∷ [];
        max_offset = pos n;
        truncate_to = r.truncate_to + header_size + length d;
      }
  unfolding keep_entry
  keep_entry_lem r zero d h small = rw h
  keep_entry_lem r (suc n) d h small =
      let word : signed64 (suc n) ≡ pos (suc n) = ground arith in
      let above : ltb n (suc n) ≡ true = ground arith in rw (h, word, above)

  behind_nil : (r : Recovered) (n : ℕ) → r.max_offset ≡ before n → behind r n [] ≡ r
  unfolding behind log_bytes numbered
  behind_nil r n h =
      let e : n + 0 ≡ n = omega arith in
      let t : r.truncate_to + 0 ≡ r.truncate_to = omega arith in
      rw (append-nil r.entries, e, t, ← h)

  -- The state behind one entry.
  abbrev kept : Recovered → ℕ → Bytes → Recovered
  kept r n d = record {
    entries = r.entries ++ record { offset = pos n; payload = d } ∷ [];
    max_offset = pos n;
    truncate_to = r.truncate_to + header_size + length d;
  }

  behind_cons :
      (r : Recovered) (n : ℕ) (d : Bytes) (ds : List Bytes)
      → behind (kept r n d) (suc n) ds ≡ behind r n (d ∷ ds)
  unfolding behind log_bytes numbered
  behind_cons r n d ds =
      let e : suc n + length ds ≡ n + suc (length ds) = omega arith in
      let t : r.truncate_to + header_size + length d + length (log_bytes (suc n) ds)
          ≡ r.truncate_to + length (entry_bytes crc32 n d ++ log_bytes (suc n) ds) =
        omega (
          arith,
          length-append (entry_bytes crc32 n d) (log_bytes (suc n) ds),
          length-entry_bytes crc32 n d,
        ) in
      rw (
        append_assoc r.entries (record { offset = pos n; payload = d } ∷ []) (numbered (suc n) ds),
        e,
        t,
      )

  recover_loop_log :
      (fuel : ℕ) (r : Recovered) (n : ℕ) (ds : List Bytes) (tail : Bytes)
      → length ds < fuel
      → n + length ds < 9223372036854775808
      → r.max_offset ≡ before n
      → All (λ d. IsU32 (length d) × IsU32 (crc32 d)) ds
      → read_entry crc32 tail ≡ none
      → recover_loop crc32 fuel r (log_bytes n ds ++ tail) ≡ some (behind r n ds)
  unfolding recover_loop behind log_bytes numbered
  recover_loop_log zero r n ds tail more small h sized stop = elim more [ ]
  recover_loop_log (suc fuel) r n [] tail more small h sized stop =
      rw (stop, recover_loop, behind_nil r n h)
  recover_loop_log (suc fuel) r n (d ∷ ds) tail more small h (fits, sized) stop =
      let read =
        read_entry-entry_bytes crc32 n d (log_bytes (suc n) ds ++ tail) (omega arith) fits.1
          fits.0 in
      let ih =
        recover_loop_log fuel (kept r n d) (suc n) ds tail (omega arith) (omega arith) refl sized
          stop in
      rw
        (
          append_assoc (entry_bytes crc32 n d) (log_bytes (suc n) ds) tail,
          read,
          recover_loop,
          keep_entry_lem r n d h (omega arith),
        )
        (ih ∙ ap some (behind_cons r n d ds))

  length-log_bytes : (n : ℕ) (ds : List Bytes) → length ds ≤ length (log_bytes n ds)
  unfolding log_bytes
  length-log_bytes n [] = omega arith
  length-log_bytes n (d ∷ ds) = omega (
    arith,
    length-append (entry_bytes crc32 n d) (log_bytes (suc n) ds),
    length-entry_bytes crc32 n d,
    length-log_bytes (suc n) ds,
  )

  next_after-before : (n : ℕ) → n < 9223372036854775808 → next_after (before n) ≡ n
  next_after-before zero h = refl
  next_after-before (suc n) h = omega arith

  finish_lem :
      (w : Wal) (ds : List Bytes) (tail : Bytes)
      → Holds w ds
      → finish crc32
          (log_bytes 0 ds ++ tail)
          (behind (record { entries = []; max_offset = negsuc 0; truncate_to = 0 }) 0 ds)
        ≡ (w, numbered 0 ds)
  unfolding finish behind
  finish_lem w ds tail h =
      let z : 0 + length ds ≡ length ds = omega arith in
      let t : 0 + length (log_bytes 0 ds) ≡ length (log_bytes 0 ds) = omega arith in
      let next = next_after-before (length ds) (omega (arith, h.bounded)) in
      rw (z, t, take_front (log_bytes 0 ds) tail, next, ← h.bytes, ← h.counted)

  -- What Open makes of a file that holds data with an unreadable tail behind them.
  open_file_tail :
      (w : Wal) (ds : List Bytes) (tail : Bytes)
      → Holds w ds
      → read_entry crc32 tail ≡ none
      → open_file crc32 (w.file ++ tail) ≡ some (w, numbered 0 ds)
  unfolding open_file
  open_file_tail w ds tail h stop =
      let start : Recovered = record { entries = []; max_offset = negsuc 0; truncate_to = 0 } in
      let n : length ds < suc (length (log_bytes 0 ds ++ tail)) =
        omega (arith, length-log_bytes 0 ds, length-append (log_bytes 0 ds) tail) in
      let looped =
        recover_loop_log (suc (length (log_bytes 0 ds ++ tail))) start 0 ds tail n
          (omega (arith, h.bounded)) refl h.sized stop in
      let opened : open_file crc32 (log_bytes 0 ds ++ tail) ≡ some (w, numbered 0 ds) =
        rw (looped, open_file) (ap some (finish_lem w ds tail h)) in
      ap (λ b. open_file crc32 (b ++ tail)) h.bytes ∙ opened

  -- Open after a crash that tore the write of one more entry, at any byte of it: the torn entry is cut
  -- off, and the log and the entries are those before the write.
  pub open_file_torn :
      (w : Wal) (ds : List Bytes) (d : Bytes) (k : ℕ)
      → Holds w ds
      → IsU32 (length d)
      → k < header_size + length d
      → open_file crc32 (w.file ++ take k (entry_bytes crc32 w.next_offset d))
        ≡ some (w, numbered 0 ds)
  open_file_torn w ds d k h small short =
      open_file_tail w ds (take k (entry_bytes crc32 w.next_offset d)) h
        (read_entry_torn crc32 w.next_offset d k small short)

  -- Open of a log that nothing tore gives the log and its entries.
  pub open_file_whole :
      (w : Wal) (ds : List Bytes) → Holds w ds → open_file crc32 w.file ≡ some (w, numbered 0 ds)
  open_file_whole w ds h =
      let opened = open_file_tail w ds [] h (read_entry_empty crc32) in
      rw (append-nil w.file) at opened

  -- Open cuts the log at an entry whose checksum is not that of its data, whatever stands behind it.
  pub open_file_corrupt :
      (w : Wal) (ds : List Bytes) (offset checksum : ℕ) (d rest : Bytes)
      → Holds w ds
      → IsU64 offset
      → IsU32 checksum
      → IsU32 (length d)
      → crc32 d ≢ checksum
      → open_file crc32 (w.file ++ (header offset (length d) checksum ++ (d ++ rest)))
        ≡ some (w, numbered 0 ds)
  open_file_corrupt w ds offset checksum d rest h word sum small differs =
      open_file_tail w ds (header offset (length d) checksum ++ (d ++ rest)) h
        (read_entry_corrupt crc32 offset checksum d rest word sum small differs)
