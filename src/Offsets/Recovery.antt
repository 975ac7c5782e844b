-- ===== src/Offsets/Recovery.antt =====
-- The offset log and the offset store agree: Replay gives back what was committed, before and after
-- a checkpoint.
use pubsub_broker.Base.{
  append_assoc, append-nil, ℕ, ◌≡◌, ◌≢◌, refl, sym, ap, ◌∙◌, true, Option, some, List, [], ◌∷◌,
  ◌++◌, ◌==◌, All, Bool-cases, inl, inr, Option-cases, ◌⊎◌,
}
use pubsub_broker.Base.Bytes.{Bytes, bytes_comparable, bytes_beq_iff, NoSlash}
use pubsub_broker.Base.Int.{ℤ}
use pubsub_broker.Base.Maps.{Map, insert, lookup, lookup-insert, beq_refl}
use pubsub_broker.Base.DistinctKeys.{
  HasDistinctKeys, insert-HasDistinctKeys, insert_new, Apart, Apart-snoc, Apart-nil,
}
use pubsub_broker.Offsets.Keys.{
  OffsetRecord, offset_key, parse_offset_key, parse_offset_key-offset_key, offset_key_injective,
}
use pubsub_broker.Offsets.Store.{
  OffsetStore, new_offset_store, restore_all, restore, snapshot_of, commit, load, OffsetWal,
  log_commit, replay_entries, replay, snapshot_entries, checkpoint,
}

restore-Apart : (m bs : Map Bytes ℤ) → Apart m bs → HasDistinctKeys bs → restore_all m bs ≡ m ++ bs
unfolding restore_all
restore-Apart m [] h d = sym (append-nil m)
restore-Apart m (b ∷ bs) h d =
    rw (insert_new b.0 b.1 m h.0)
      (restore-Apart (m ++ b ∷ []) bs (Apart-snoc m bs b h.1 d.0) d.1 ∙ append_assoc m (b ∷ []) bs)

-- What a snapshot of a store with distinct keys restores into a new store is that store.
pub restore-snapshot_of :
    (s : OffsetStore) → HasDistinctKeys s.offsets → restore new_offset_store (snapshot_of s) ≡ s
unfolding restore snapshot_of new_offset_store
restore-snapshot_of s d =
    let e : restore_all [] s.offsets ≡ s.offsets =
      restore-Apart [] s.offsets (Apart-nil s.offsets) d in
    rw (e, e)

module _ (itoa : ℕ → Bytes) where
  -- The key of a record whose group has no slash.
  abbrev pub IsKey : Bytes → Type 0
  IsKey k = (r : OffsetRecord) × NoSlash r.group × (k ≡ offset_key itoa r.group r.topic r.partition)

  -- What commits make of a store: distinct keys, each that of a slash-free group.
  abbrev pub IsStore : OffsetStore → Type 0
  IsStore s = HasDistinctKeys s.offsets × All (λ b. IsKey b.0) s.offsets

  All-insert :
      (k : Bytes) (v : ℤ) (m : Map Bytes ℤ)
      → IsKey k
      → All (λ b. IsKey b.0) m
      → All (λ b. IsKey b.0) (insert k v m)
  unfolding insert
  All-insert k v [] h a = (h, a)
  All-insert k v (b ∷ m) h a = elim (Bool-cases (b.0 == k)) [
    | inl same ↦ rw same (h, a.1)
    | inr apart ↦ rw apart (a.0, All-insert k v m h a.1)
  ]

  pub commit-IsStore :
      (s : OffsetStore) (group topic : Bytes) (partition : ℕ) (offset : ℤ)
      → NoSlash group
      → IsStore s
      → IsStore (commit itoa s group topic partition offset)
  unfolding commit
  commit-IsStore s group topic partition offset h (d, a) =
      let r : OffsetRecord = record {
        group = group;
        topic = topic;
        partition = partition;
        offset = offset;
      } in
      (
        insert-HasDistinctKeys (offset_key itoa group topic partition) offset s.offsets d,
        All-insert (offset_key itoa group topic partition) offset s.offsets (r, h, refl) a,
      )

  -- Every record committed in turn, to the store and to the log.
  unfoldable pub commit_all : OffsetStore → List OffsetRecord → OffsetStore
  commit_all s [] = s
  commit_all s (r ∷ rs) = commit_all (commit itoa s r.group r.topic r.partition r.offset) rs

  module _ (marshal : OffsetRecord → Bytes) (unmarshal : Bytes → Option OffsetRecord) where
    unfoldable pub log_all : OffsetWal → List OffsetRecord → OffsetWal
    log_all ow [] = ow
    log_all ow (r ∷ rs) = log_all (log_commit marshal ow r) rs

    replay_snoc :
        ((r : OffsetRecord) → unmarshal (marshal r) ≡ some r)
        → (m : Map Bytes ℤ) (es : List Bytes) (r : OffsetRecord)
        → replay_entries itoa unmarshal m (es ++ marshal r ∷ [])
          ≡ insert
              (offset_key itoa r.group r.topic r.partition)
              r.offset
              (replay_entries itoa unmarshal m es)
    unfolding replay_entries
    replay_snoc decodes m [] r = rw (decodes r, replay_entries)
    replay_snoc decodes m (e ∷ es) r = elim (Option-cases (unmarshal e)) [
      | inl bad ↦ rw (bad, replay_entries) (replay_snoc decodes m es r)
      | inr (d, good) ↦
          rw (good, replay_entries)
            (replay_snoc decodes (insert (offset_key itoa d.group d.topic d.partition) d.offset m)
              es r)
    ]

    -- When the log replays to what a store holds, it still does after any commits made to both, as
    -- long as JSON decodes what it encoded.
    pub replay-log_all :
        ((r : OffsetRecord) → unmarshal (marshal r) ≡ some r)
        → (ow : OffsetWal) (s : OffsetStore) (rs : List OffsetRecord)
        → replay itoa unmarshal ow ≡ s.offsets
        → replay itoa unmarshal (log_all ow rs) ≡ (commit_all s rs).offsets
    unfolding log_all commit_all
    replay-log_all decodes ow s [] h = h
    replay-log_all decodes ow s (r ∷ rs) h =
        replay-log_all decodes (log_commit marshal ow r)
          (commit itoa s r.group r.topic r.partition r.offset) rs
          (unfold replay log_commit commit in
            replay_snoc decodes [] ow.entries r
            ∙ ap (λ m. insert (offset_key itoa r.group r.topic r.partition) r.offset m) h)

    module _ (sscanf : Bytes → Option ℕ) where
      replay-snapshot :
          ((r : OffsetRecord) → unmarshal (marshal r) ≡ some r)
          → ((p : ℕ) → sscanf (itoa p) ≡ some p)
          → ((p : ℕ) → NoSlash (itoa p))
          → (m bs : Map Bytes ℤ) → All (λ b. IsKey b.0) bs
          → (es : List Bytes) × (snapshot_entries sscanf marshal bs ≡ some es)
            × (replay_entries itoa unmarshal m es ≡ restore_all m bs)
      unfolding snapshot_entries restore_all replay_entries
      replay-snapshot decodes reads digits m [] a = ([], refl, refl)
      replay-snapshot decodes reads digits m (b ∷ bs) ((r, no_slash, is_key), a) =
          let r' : OffsetRecord = record {
            group = r.group;
            topic = r.topic;
            partition = r.partition;
            offset = b.1;
          } in
          let (es, e, f) = replay-snapshot decodes reads digits (insert b.0 b.1 m) bs a in
          let parsed : parse_offset_key sscanf b.0 b.1 ≡ some r' = rw is_key (
            parse_offset_key-offset_key itoa sscanf reads digits r.group r.topic r.partition b.1
              no_slash) in
          (marshal r' ∷ es, rw (parsed, e), rw (decodes r', replay_entries, ← is_key) f)

      -- Checkpoint of a store's snapshot succeeds, resets the count of commits, and leaves a log that
      -- replays to exactly what the store holds. The store is one that commits to slash-free groups made,
      -- JSON decodes what it encoded, and Sscanf reads what fmt prints, which has no slash.
      pub replay-checkpoint :
          ((r : OffsetRecord) → unmarshal (marshal r) ≡ some r)
          → ((p : ℕ) → sscanf (itoa p) ≡ some p)
          → ((p : ℕ) → NoSlash (itoa p))
          → (ow : OffsetWal) (s : OffsetStore) → IsStore s
          → (ow' : OffsetWal) × (checkpoint sscanf marshal ow (snapshot_of s) ≡ (ow', true))
            × (replay itoa unmarshal ow' ≡ s.offsets)
            × (ow'.commit_count ≡ 0)
      unfolding checkpoint replay snapshot_of
      replay-checkpoint decodes reads digits ow s (d, a) =
          let copied : restore_all [] s.offsets ≡ s.offsets =
            restore-Apart [] s.offsets (Apart-nil s.offsets) d in
          let (es, e, f) = replay-snapshot decodes reads digits [] s.offsets a in
          (record { entries = es; commit_count = 0 }, rw (copied, e, checkpoint), f ∙ copied, refl)

  -- After Commit, Load finds the new offset for the triple and what it found before for every other
  -- triple, the groups having no slash, as long as Sscanf reads what fmt prints and that has no slash.
  pub load-commit :
      (sscanf : Bytes → Option ℕ)
      → ((p : ℕ) → sscanf (itoa p) ≡ some p)
      → ((p : ℕ) → NoSlash (itoa p))
      → (s : OffsetStore) (r r' : OffsetRecord) → NoSlash r.group
      → NoSlash r'.group
      → (load itoa (commit itoa s r.group r.topic r.partition r.offset) r.group r.topic r.partition
          ≡ r.offset)
        × ((r.group ≢ r'.group) ⊎ ((r.topic ≢ r'.topic) ⊎ (r.partition ≢ r'.partition))
            → load itoa
                (commit itoa s r.group r.topic r.partition r.offset)
                r'.group
                r'.topic
                r'.partition
              ≡ load itoa s r'.group r'.topic r'.partition)
  unfolding load commit
  load-commit sscanf reads digits s r r' h h' =
      let key : Bytes = offset_key itoa r.group r.topic r.partition in
      let key' : Bytes = offset_key itoa r'.group r'.topic r'.partition in
      let found : lookup key (insert key r.offset s.offsets) ≡ some r.offset =
        rw (lookup-insert key key r.offset s.offsets, beq_refl key) in
      (
        rw (found, load),
        λ apart. elim (Bool-cases (key == key')) [
          | inl same ↦
              let (g, t, p) =
                offset_key_injective itoa sscanf reads digits r.group r'.group r.topic r'.topic
                  r.partition r'.partition h h' ((bytes_beq_iff key key').0 same) in
              elim apart [
                | inl ne ↦ absurd (ne g)
                | inr (inl ne) ↦ absurd (ne t)
                | inr (inr ne) ↦ absurd (ne p)
              ]
          | inr other ↦
              let kept : lookup key' (insert key r.offset s.offsets) ≡ lookup key' s.offsets =
                rw (lookup-insert key key' r.offset s.offsets, other) in
              rw (kept, load)
        ],
      )
