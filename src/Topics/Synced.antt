-- ===== src/Topics/Synced.antt =====
-- The manager and the partitioner agree on the topics, so that a message is always assigned to a partition
-- whose log is open.
use pubsub_broker.Base.{
  ℕ, zero, suc, ◌<◌, ◌≡◌, refl, ap, ◌∙◌, sym, Option, none, some, List, [], ◌∷◌, ◌++◌, ◌==◌, length,
  get_elem?_in_range, length-append, arith, Bool-cases, Option-cases, inl, inr, some_unique,
}
use pubsub_broker.Base.Bytes.{Bytes, bytes_comparable}
use pubsub_broker.Base.Int.{ℤ, pos, negsuc, positive_or}
use pubsub_broker.Base.Maps.{lookup, insert, erase, lookup-insert, lookup-erase}
use pubsub_broker.Offsets.Partitioner.{HashPartitioner, register, assign, partition}
use pubsub_broker.Offsets.Routing.{IsConsistent, register-IsConsistent, assign_in_range}
use pubsub_broker.Storage.Partition.{PartitionLog}
use pubsub_broker.Topics.TopicLog.{TopicConfig}
use pubsub_broker.Topics.Manager.{
  Topic, Manager, valid_topic_name, partition_log, with_defaults, open_all, create_new, create,
  delete,
}

pub record IsSynced (m : Manager) : Type 0 where
  pub counted :
      (name : Bytes) (t : Topic)
      → lookup name m.topics ≡ some t
      → lookup name m.partitioner.topics ≡ some (length t.partitions)
  pub consistent : IsConsistent m.partitioner

added-IsSynced :
    (m : Manager) (name : Bytes) (t : Topic) (k : ℕ)
    → length t.partitions ≡ suc k
    → IsSynced m
    → IsSynced (record {
      topics = insert name t m.topics;
      partitioner = (register m.partitioner name (pos (suc k))).0;
    })
added-IsSynced m name t k e h = record {
  counted = λ other d f. counted_after other d f;
  consistent = register-IsConsistent m.partitioner name (pos (suc k)) h.consistent;
}
  where
    counted_after :
        (other : Bytes) (d : Topic)
        → lookup other (insert name t m.topics) ≡ some d
        → lookup other (register m.partitioner name (pos (suc k))).0.topics
          ≡ some (length d.partitions)
    counted_after other d f = elim (Bool-cases (name == other)) [
      | inl same ↦
          let g : some t ≡ some d = rw (lookup-insert name other t m.topics, same) at f in
          let n : suc k ≡ length d.partitions =
            sym e ∙ ap (λ (x : Topic). length x.partitions) (some_unique refl g) in
          unfold register in
          rw (lookup-insert name other (suc k) m.partitioner.topics, same) (ap some n)
      | inr apart ↦
          let g : lookup other m.topics ≡ some d =
            rw (lookup-insert name other t m.topics, apart) at f in
          unfold register in
          rw (lookup-insert name other (suc k) m.partitioner.topics, apart) (h.counted other d g)
    ]

module _ (open_log : Bytes → ℕ → Option PartitionLog) where
  length-open_all :
      (name : Bytes) (n : ℕ) (logs : List PartitionLog)
      → open_all open_log name n ≡ some logs
      → length logs ≡ n
  unfolding open_all
  length-open_all name zero logs e = let f : [] ≡ logs = cc in ap length (sym f)
  length-open_all name (suc i) logs e = elim (Option-cases (open_all open_log name i)) [
    | inl failed ↦ let bad : none ≡ some logs = rw (failed, open_all) at e in cc
    | inr (front, opened) ↦ elim (Option-cases (open_log name i)) [
      | inl failed ↦ let bad : none ≡ some logs = rw (opened, open_all, failed) at e in cc
      | inr (log, f) ↦
          let g : some (front ++ log ∷ []) ≡ some logs = rw (opened, open_all, f) at e in
          let same : logs ≡ front ++ log ∷ [] = some_unique g refl in
          omega (
            arith,
            ap length same,
            length-open_all name i front opened,
            length-append front (log ∷ []),
          )
    ]
  ]

  create_new-IsSynced :
      (m : Manager) (cfg : TopicConfig) (k : ℕ)
      → IsSynced m
      → IsSynced (create_new open_log m cfg (suc k)).0
  unfolding create_new
  create_new-IsSynced m cfg k h = elim (Option-cases (lookup cfg.name m.topics)) [
    | inr (t, found) ↦ rw (found, create_new) h
    | inl new ↦ elim (Option-cases (open_all open_log cfg.name (suc k))) [
      | inl failed ↦ rw (new, create_new, failed) h
      | inr (logs, opened) ↦
          rw (new, create_new, opened)
            (added-IsSynced m cfg.name (record { config = cfg; partitions = logs }) k
              (length-open_all cfg.name (suc k) logs opened) h)
    ]
  ]

  pub create-IsSynced :
      (m : Manager) (cfg : TopicConfig) → IsSynced m → IsSynced (create open_log m cfg).0
  unfolding create
  create-IsSynced m cfg h = elim (Bool-cases (valid_topic_name cfg.name)) [
    | inr bad ↦ rw bad h
    | inl good ↦ rw good (go cfg.partitions)
  ]
    where
      go : (n : ℤ) → IsSynced (create_new open_log m (with_defaults cfg) (positive_or 1 n)).0
      go (negsuc n) = create_new-IsSynced m (with_defaults cfg) 0 h
      go (pos zero) = create_new-IsSynced m (with_defaults cfg) 0 h
      go (pos (suc n)) = create_new-IsSynced m (with_defaults cfg) n h

pub delete-IsSynced : (m : Manager) (name : Bytes) → IsSynced m → IsSynced (delete m name).0
unfolding delete
delete-IsSynced m name h = elim (Option-cases (lookup name m.topics)) [
  | inl missing ↦ rw (missing, delete) h
  | inr (t, found) ↦
      rw (found, delete)
        (record {
          counted = λ other d f. counted_after other d f;
          consistent = register-IsConsistent m.partitioner name (pos 0) h.consistent;
        })
]
  where
    counted_after :
        (other : Bytes) (d : Topic)
        → lookup other (erase name m.topics) ≡ some d
        → lookup other (register m.partitioner name (pos 0)).0.topics ≡ some (length d.partitions)
    counted_after other d f = elim (Bool-cases (name == other)) [
      | inl same ↦ let bad : none ≡ some d = rw (lookup-erase name other m.topics, same) at f in cc
      | inr apart ↦
          let g : lookup other m.topics ≡ some d =
            rw (lookup-erase name other m.topics, apart) at f in
          unfold register in
          rw (lookup-erase name other m.partitioner.topics, apart) (h.counted other d g)
    ]

-- What the manager is asked for.
pub data Request : Type 0 where
  creation : TopicConfig → Request
  removal : Bytes → Request

unfoldable pub run_requests : (Bytes → ℕ → Option PartitionLog) → Manager → List Request → Manager
run_requests open_log m [] = m
run_requests open_log m (creation cfg ∷ rs) = run_requests open_log (create open_log m cfg).0 rs
run_requests open_log m (removal name ∷ rs) = run_requests open_log (delete m name).0 rs

pub run_requests-IsSynced :
    (open_log : Bytes → ℕ → Option PartitionLog) (m : Manager) (rs : List Request)
    → IsSynced m
    → IsSynced (run_requests open_log m rs)
unfolding run_requests
run_requests-IsSynced open_log m [] h = h
run_requests-IsSynced open_log m (creation cfg ∷ rs) h =
    run_requests-IsSynced open_log (create open_log m cfg).0 rs (create-IsSynced open_log m cfg h)
run_requests-IsSynced open_log m (removal name ∷ rs) h =
    run_requests-IsSynced open_log (delete m name).0 rs (delete-IsSynced m name h)

-- After any creations and removals of topics, failed ones included, the partitioner assigns a message of a
-- topic that the manager has to a partition of it whose log is open, whatever its key, as long as the
-- counter of the topic is not negative.
pub assign-partition_log :
    (open_log : Bytes → ℕ → Option PartitionLog) (fnv32a : Bytes → ℕ) (m : Manager)
    (rs : List Request) (name key : Bytes) (t : Topic)
    → IsSynced m
    → lookup name (run_requests open_log m rs).topics ≡ some t
    → ((ctr : ℕ)
        → lookup name (run_requests open_log m rs).partitioner.rr_cur ≡ some ctr
        → ctr < 9223372036854775808)
    → (p : HashPartitioner) × (q : ℕ) × (log : PartitionLog) × (assign fnv32a
          (run_requests open_log m rs).partitioner
          name
          key
        ≡ some (p, partition (pos q)))
      × (partition_log t (pos q) ≡ some log)
unfolding partition_log
assign-partition_log open_log fnv32a m rs name key t h found small =
    let synced = run_requests-IsSynced open_log m rs h in
    let (p, q, e, inside, _) =
      assign_in_range fnv32a (run_requests open_log m rs).partitioner name key (length t.partitions)
        synced.consistent (synced.counted name t found) small in
    let (log, f) = get_elem?_in_range t.partitions q inside in (p, q, log, e, f)
