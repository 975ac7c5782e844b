-- ===== src/Topics/Live.antt =====
-- Which topics Replay finds: those whose last operation created them.
use pubsub_broker.Base.{
  append_assoc, append-nil, ◌≡◌, refl, sym, ap, ◌∙◌, Option, none, some, List, [], ◌∷◌, ◌++◌,
  if◌then◌else◌, ◌==◌, inl, inr, Option-cases,
}
use pubsub_broker.Base.Bytes.{Bytes, bytes_comparable}
use pubsub_broker.Base.Maps.{lookup, lookup-insert, lookup-erase}
use pubsub_broker.Topics.TopicLog.{
  TopicConfig, TopicOp, create_op, delete_op, named, append, append_delete, Replayed, apply_op,
  apply_entries, replay_topics,
}

-- What a caller asks of the log.
pub data Request : Type 0 where
  create : TopicConfig → Request
  remove : Bytes → Request

-- The topic of a name after a request, from what it was before.
unfoldable pub live_after : Bytes → Option TopicConfig → Request → Option TopicConfig
live_after name before (create cfg) = if cfg.name == name then some cfg else before
live_after name before (remove removed) = if removed == name then none else before

-- The topic of a name after all requests.
unfoldable pub live : Bytes → Option TopicConfig → List Request → Option TopicConfig
live name before [] = before
live name before (r ∷ rs) = live name (live_after name before r) rs

-- The names that were removed, once for each removal.
unfoldable pub removals : List Request → List Bytes
removals [] = []
removals (create cfg ∷ rs) = removals rs
removals (remove name ∷ rs) = name ∷ removals rs

removals_cons :
    (r : Request) (rs : List Request) → removals (r ∷ []) ++ removals rs ≡ removals (r ∷ rs)
unfolding removals
removals_cons (create cfg) rs = refl
removals_cons (remove name) rs = refl

module _ (marshal : TopicOp → Bytes) (unmarshal : Bytes → Option TopicOp) where
  unfoldable pub log_request : List Bytes → Request → List Bytes
  log_request log (create cfg) = append marshal log cfg
  log_request log (remove name) = append_delete marshal log name

  unfoldable pub log_requests : List Bytes → List Request → List Bytes
  log_requests log [] = log
  log_requests log (r ∷ rs) = log_requests (log_request log r) rs

  apply_snoc :
      (r : Replayed) (es : List Bytes) (t : TopicOp) (e : Bytes)
      → unmarshal e ≡ some t
      → apply_entries unmarshal r (es ++ e ∷ []) ≡ apply_op (apply_entries unmarshal r es) t
  unfolding apply_entries
  apply_snoc r [] t e h = rw (h, apply_entries)
  apply_snoc r (d ∷ ds) t e h = elim (Option-cases (unmarshal d)) [
    | inl bad ↦ rw (bad, apply_entries) (apply_snoc r ds t e h)
    | inr (u, good) ↦ rw (good, apply_entries) (apply_snoc (apply_op r u) ds t e h)
  ]

  replay-log_request :
      ((t : TopicOp) → unmarshal (marshal t) ≡ some t)
      → (log : List Bytes) (r : Request) (name : Bytes)
      → (lookup name (replay_topics unmarshal (log_request log r)).state
          ≡ live_after name (lookup name (replay_topics unmarshal log).state) r)
        × ((replay_topics unmarshal (log_request log r)).deletes
            ≡ (replay_topics unmarshal log).deletes ++ removals (r ∷ []))
  unfolding log_request replay_topics append append_delete live_after removals
  replay-log_request decodes log (create cfg) name =
      let start : Replayed = record { state = []; deletes = [] } in
      let t : TopicOp = record { op = create_op; config = cfg } in
      let e = apply_snoc start log t (marshal t) (decodes t) in
      rw e (
        unfold apply_op in
        (
          lookup-insert cfg.name name cfg (apply_entries unmarshal start log).state,
          sym (append-nil (apply_entries unmarshal start log).deletes),
        ))
  replay-log_request decodes log (remove removed) name =
      let start : Replayed = record { state = []; deletes = [] } in
      let t : TopicOp = record { op = delete_op; config = named removed } in
      let e = apply_snoc start log t (marshal t) (decodes t) in
      rw e (
        unfold apply_op in
        (lookup-erase removed name (apply_entries unmarshal start log).state, refl))

  -- After any requests Replay finds under a name the topic that the last of them for that name made,
  -- and none if that one removed it. The deletes it returns are the names of all removals since the
  -- start, also of topics that were created again.
  pub replay-log_requests :
      ((t : TopicOp) → unmarshal (marshal t) ≡ some t)
      → (log : List Bytes) (rs : List Request) (name : Bytes)
      → (lookup name (replay_topics unmarshal (log_requests log rs)).state
          ≡ live name (lookup name (replay_topics unmarshal log).state) rs)
        × ((replay_topics unmarshal (log_requests log rs)).deletes
            ≡ (replay_topics unmarshal log).deletes ++ removals rs)
  unfolding log_requests live
  replay-log_requests decodes log [] name =
      (refl, unfold removals in sym (append-nil (replay_topics unmarshal log).deletes))
  replay-log_requests decodes log (r ∷ rs) name =
      let (now, gone) = replay-log_request decodes log r name in
      let (found, deleted) = replay-log_requests decodes (log_request log r) rs name in
      (
        found ∙ rw now refl,
        deleted
            ∙ rw gone (
                append_assoc (replay_topics unmarshal log).deletes (removals (r ∷ [])) (removals rs)
                ∙ ap (λ xs. (replay_topics unmarshal log).deletes ++ xs) (removals_cons r rs)),
      )
