-- ===== src/Dlq/Examples.antt =====
-- The theorems on the dead-letter queue at work on a small queue.
use pubsub_broker.Base.{ℕ, ◌≡◌, refl, false, some, [], ◌∷◌, arith, drop}
use pubsub_broker.Base.Int.{pos}
use pubsub_broker.Base.Filters.{filter}
use pubsub_broker.Dlq.Queue.{
  Message, DlqEntry, DeadLetterQueue, matched, other_group, other_topic, dlq_replay,
}
use pubsub_broker.Dlq.Bounds.{IsBounded, push_all, stamped, keep_last, push_all-keep_last}
use pubsub_broker.Dlq.Removal.{dlq_replay_failure}

abbrev message : ℕ → Message
message n = record {
  id = n ∷ [];
  topic = 116 ∷ [];
  timestamp = pos n;
  payload = [];
  headers = [];
  key = [];
  partition = 0;
  offset = pos n;
  codec = 0;
}

abbrev entry : ℕ → DlqEntry
entry n = record {
  original = some (message n);
  group = 103 ∷ [];
  reason = [];
  attempts = 3;
  arrived_at = 5;
}

abbrev two_entries : DeadLetterQueue
two_entries = record { entries = entry 1 ∷ entry 2 ∷ []; max_size = 2 }

push_all-keep_last_example :
    ((push_all two_entries ((9, entry 3) ∷ (11, entry 4) ∷ (11, entry 5) ∷ [])).entries
      ≡ keep_last 2
          (entry 1 ∷ entry 2 ∷ stamped ((9, entry 3) ∷ (11, entry 4) ∷ (11, entry 5) ∷ [])))
    × IsBounded (push_all two_entries ((9, entry 3) ∷ (11, entry 4) ∷ (11, entry 5) ∷ []))
push_all-keep_last_example =
    push_all-keep_last two_entries ((9, entry 3) ∷ (11, entry 4) ∷ (11, entry 5) ∷ [])
      (omega arith, omega arith)

dlq_replay_failure_example :
    (q' : DeadLetterQueue) × (dlq_replay (λ m. false) two_entries [] [] (pos 5) ≡ (q', 0, false))
    × (filter (matched [] []) q'.entries ≡ drop 5 (filter (matched [] []) two_entries.entries))
dlq_replay_failure_example =
    dlq_replay_failure (λ m. false) two_entries [] [] (pos 5) [] (entry 2 ∷ []) (entry 1)
      (unfold matched other_group other_topic in refl) tt refl
