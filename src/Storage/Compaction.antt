-- ===== src/Storage/Compaction.antt =====
-- What Compact of internal/storage/partition_log.go keeps of a partition log.
use pubsub_broker.Base.{
  ℕ, suc, ◌+◌, ◌*◌, ◌-◌, ◌≤◌, ◌<◌, ◌≡◌, ◌⊎◌, refl, Bool, true, false, Option, none, some, List, [],
  ◌∷◌, if◌then◌else◌, zero, ltb, ◌&&◌, ◌||◌, length, arith, Bool-cases, Option-cases, inl, inr, sym,
  ◌∙◌,
}
use pubsub_broker.Base.Int.{pos, negsuc}
use pubsub_broker.Base.Words.{u64}
use pubsub_broker.Wal.File.{signed64, lt_int}
use pubsub_broker.Storage.Segment.{Segment}
use pubsub_broker.Storage.Partition.{
  PartitionLog, total_log_size, max_bytes_of, is_too_big, age_offset, is_before, is_too_old,
  compact_loop, compact,
}

-- The active segment, and the older ones whose file has no time or a time that does not pass the test.
unfoldable pub without : (ℕ → Bool) → (Segment → Option ℕ) → List Segment → List Segment
without gone mod_time [] = []
without gone mod_time (s ∷ []) = s ∷ []
without gone mod_time (s ∷ t ∷ ss) =
    let rest = without gone mod_time (t ∷ ss) in
    elim (mod_time s) [ none ↦ s ∷ rest | some time ↦ if gone time then rest else s ∷ rest ]

-- The limit in bytes, as far as it fits into 64 bits.
abbrev pub limit : ℕ → ℕ
limit max_size_mb = u64 (max_size_mb * 1048576)

-- There is a limit, the highest bit counting as a sign, and the log is larger.
abbrev pub IsOver : ℕ → PartitionLog → Type 0
IsOver max_size_mb pl =
    (0 < limit max_size_mb)
    × (limit max_size_mb < total_log_size pl)
    × (total_log_size pl < 9223372036854775808)

-- There is a maximal age, and the file is older.
abbrev pub aged : ℕ → ℕ → ℕ → Bool
aged now max_age_hours mod_time =
    ltb 0 max_age_hours
    && ltb max_age_hours 9223372036854775808
    && ltb (mod_time + max_age_hours * 3600000000000) now

compact_loop-without :
    (old gone : ℕ → Bool) (mod_time : Segment → Option ℕ) (too_big : Bool) (ss : List Segment)
    → ((time : ℕ) → (old time || too_big) ≡ gone time)
    → (compact_loop old mod_time too_big ss).0 ≡ without gone mod_time ss
unfolding compact_loop without
compact_loop-without old gone mod_time too_big [] same = refl
compact_loop-without old gone mod_time too_big (s ∷ []) same = refl
compact_loop-without old gone mod_time too_big (s ∷ t ∷ ss) same =
    let rest = compact_loop-without old gone mod_time too_big (t ∷ ss) same in
    elim (Option-cases (mod_time s)) [
      | inl no_time ↦ rw (no_time, compact_loop, without, rest)
      | inr (time, e) ↦ elim (Bool-cases (gone time)) [
        | inl deleted ↦ rw (e, compact_loop, without, same time, deleted, rest)
        | inr stays ↦ rw (e, compact_loop, without, same time, stays, rest)
      ]
    ]

compact_loop-length :
    (old : ℕ → Bool) (mod_time : Segment → Option ℕ) (too_big : Bool) (ss : List Segment)
    → length (compact_loop old mod_time too_big ss).0 + (compact_loop old mod_time too_big ss).1
      ≡ length ss
unfolding compact_loop
compact_loop-length old mod_time too_big [] = refl
compact_loop-length old mod_time too_big (s ∷ []) = refl
compact_loop-length old mod_time too_big (s ∷ t ∷ ss) =
    let ih = compact_loop-length old mod_time too_big (t ∷ ss) in
    elim (Option-cases (mod_time s)) [
      | inl no_time ↦ rw (no_time, compact_loop) (omega (arith, ih))
      | inr (time, e) ↦ elim (Bool-cases (old time || too_big)) [
        | inl gone ↦ rw (e, compact_loop, gone) (omega (arith, ih))
        | inr stays ↦ rw (e, compact_loop, stays) (omega (arith, ih))
      ]
    ]

-- The test on bit patterns is the one on numbers.
signed_test :
    (w total : ℕ)
    → (lt_int (pos 0) (signed64 w) && lt_int (signed64 w) (signed64 total))
      ≡ (ltb 0 w && ltb w total && ltb total 9223372036854775808)
signed_test w total = ground arith

-- The age in nanoseconds, where it fits an int64.
age_offset_lem : (h : ℕ) → h < 2562047 → age_offset (suc h) ≡ negsuc (suc h * 3600000000000 - 1)
unfolding age_offset
age_offset_lem h small = ground arith

is_too_old_lem :
    (now h time : ℕ)
    → (h ≤ 2562047) ⊎ (9223372036854775808 ≤ h)
    → is_too_old now h time ≡ aged now h time
unfolding is_too_old is_before
is_too_old_lem now zero time range = refl
is_too_old_lem now (suc h) time (inl small) = rw (age_offset_lem h (omega arith)) (ground arith)
is_too_old_lem now (suc h) time (inr negative) = ground arith

is_too_big_lem :
    (max_size_mb : ℕ) (pl : PartitionLog)
    → is_too_big max_size_mb pl ≡ (
        ltb 0 (limit max_size_mb)
        && ltb (limit max_size_mb) (total_log_size pl)
        && ltb (total_log_size pl) 9223372036854775808)
unfolding is_too_big max_bytes_of
is_too_big_lem max_size_mb pl =
    let w : u64 (u64 (max_size_mb * 1024) * 1024) ≡ limit max_size_mb = omega arith in
    rw w (signed_test (limit max_size_mb) (total_log_size pl))

-- Compact deletes as many segments as it says. The limit in bytes is `max_size_mb * 1024 * 1024` modulo
-- 2^64, as the int64 product wraps, and there is none where that is 0 or has the sign bit. Over the limit,
-- if the size of the log fits an int64, Compact deletes every older segment whose file has a time,
-- however little too much there is. Otherwise it deletes just the older segments whose file has a time
-- more than `max_age_hours` hours ago, and none of them if these are 0 or negative. The hours are at
-- most 2562047, so that their duration fits an int64.
pub compact_lem :
    (now : ℕ) (mod_time : Segment → Option ℕ) (max_age_hours max_size_mb : ℕ) (pl : PartitionLog)
    → (max_age_hours ≤ 2562047) ⊎ (9223372036854775808 ≤ max_age_hours)
    → (length (compact now mod_time max_age_hours max_size_mb pl).0.segments
          + (compact now mod_time max_age_hours max_size_mb pl).1
        ≡ length pl.segments)
      × ((IsOver max_size_mb pl
            × ((compact now mod_time max_age_hours max_size_mb pl).0.segments
                ≡ without (λ time. true) mod_time pl.segments))
          ⊎ (¬ IsOver max_size_mb pl
              × ((compact now mod_time max_age_hours max_size_mb pl).0.segments
                  ≡ without (aged now max_age_hours) mod_time pl.segments)))
unfolding compact
compact_lem now mod_time max_age_hours max_size_mb pl range = (
  compact_loop-length (is_too_old now max_age_hours) mod_time (is_too_big max_size_mb pl)
      pl.segments,
  elim (Bool-cases (is_too_big max_size_mb pl)) [
    | inl big ↦ inl (
      is_over (sym (is_too_big_lem max_size_mb pl) ∙ big),
      compact_loop-without (is_too_old now max_age_hours) (λ time. true) mod_time
          (is_too_big max_size_mb pl) pl.segments (λ time. rw big (or_true time)),
    )
    | inr small ↦ inr (
      is_not_over (sym (is_too_big_lem max_size_mb pl) ∙ small),
      compact_loop-without (is_too_old now max_age_hours) (aged now max_age_hours) mod_time
          (is_too_big max_size_mb pl) pl.segments
          (λ time. rw small (or_false time ∙ is_too_old_lem now max_age_hours time range)),
    )
  ],
)
  where
    or_true : (time : ℕ) → (is_too_old now max_age_hours time || true) ≡ true
    or_true time = ground arith

    or_false :
        (time : ℕ)
        → (is_too_old now max_age_hours time || false) ≡ is_too_old now max_age_hours time
    or_false time = ground arith

    is_over :
        (ltb 0 (limit max_size_mb)
            && ltb (limit max_size_mb) (total_log_size pl)
            && ltb (total_log_size pl) 9223372036854775808)
          ≡ true
        → IsOver max_size_mb pl
    is_over h = (ground arith, ground arith, ground arith)

    is_not_over :
        (ltb 0 (limit max_size_mb)
            && ltb (limit max_size_mb) (total_log_size pl)
            && ltb (total_log_size pl) 9223372036854775808)
          ≡ false
        → ¬ IsOver max_size_mb pl
    is_not_over h (a, b, c) = ground arith
