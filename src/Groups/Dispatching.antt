-- ===== src/Groups/Dispatching.antt =====
-- Dispatch and handleSlowConsumer of internal/consumer/consumer.go: what becomes of a dispatched message.
use pubsub_broker.Base.{
  ℕ, zero, suc, ◌+◌, ◌≡◌, ◌⊎◌, refl, ◌∙◌, true, false, none, some, [], ◌∷◌, ◌++◌, inl, inr,
  nat_comparable, length, Option, All, ◌≤◌,
}
use pubsub_broker.Base.Bytes.{Bytes}
use pubsub_broker.Base.Maps.{Map}
use pubsub_broker.Base.Filters.{contains}
use pubsub_broker.Dlq.Queue.{Message, DlqEntry, DeadLetterQueue, push}
use pubsub_broker.Groups.Delivery.{
  IsOpen, Received, deliver-IsOpen, deliver_full, deliver_closed, close_lem,
}
use pubsub_broker.Groups.Members.{Consumer, Group, deliver, close}
use pubsub_broker.Groups.Dispatch.{
  finished, slow, behind, dispatch_loop, retry, handle_slow_consumer, dispatch, slow_reason,
}

-- No consumer of the list has the partition.
abbrev pub NoneHolds : ℕ → Map Bytes Consumer → Type 0
NoneHolds p = All (λ b. contains p b.1.assignments ≡ false)

pub dispatch_loop_none :
    (msg : Message) (bs : Map Bytes Consumer)
    → NoneHolds msg.partition bs
    → dispatch_loop msg bs ≡ finished bs
unfolding dispatch_loop behind
dispatch_loop_none msg [] h = refl
dispatch_loop_none msg (b ∷ bs) h = rw (h.0, dispatch_loop, dispatch_loop_none msg bs h.1)

module _ (msg : Message) (cid : Bytes) (c : Consumer) (after : Map Bytes Consumer)
    (c' : Consumer) where
  loop_delivered :
      (before : Map Bytes Consumer)
      → NoneHolds msg.partition before
      → NoneHolds msg.partition after
      → contains msg.partition c.assignments ≡ true
      → deliver c msg ≡ some (c', true)
      → dispatch_loop msg (before ++ (cid, c) ∷ after) ≡ finished (before ++ (cid, c') ∷ after)
  unfolding dispatch_loop behind
  loop_delivered [] h k owns ok = rw (owns, dispatch_loop, ok, dispatch_loop_none msg after k)
  loop_delivered (b ∷ bs) h k owns ok = rw (h.0, dispatch_loop, loop_delivered bs h.1 k owns ok)

  loop_slow :
      (before : Map Bytes Consumer)
      → NoneHolds msg.partition before
      → contains msg.partition c.assignments ≡ true
      → deliver c msg ≡ some (c', false)
      → dispatch_loop msg (before ++ (cid, c) ∷ after) ≡ slow before cid c' after
  unfolding dispatch_loop behind
  loop_slow [] h owns full = rw (owns, dispatch_loop, full)
  loop_slow (b ∷ bs) h owns full = rw (h.0, dispatch_loop, loop_slow bs h.1 owns full)

-- The entry of a message that no retry delivered.
abbrev pub exhausted : Group → Message → DlqEntry
exhausted g msg = record {
  original = some msg;
  group = g.id;
  reason = slow_reason;
  attempts = g.max_retries;
  arrived_at = 0;
}

module _ (meanwhile : ℕ → Consumer → Consumer)
    (keeps : (n : ℕ) (c : Consumer) → IsOpen c → IsOpen (meanwhile n c)) (msg : Message) where
  -- Retries with a consumer that stays open do not panic.
  retry-IsOpen :
      (left attempt : ℕ) (c : Consumer)
      → IsOpen c
      → (c' : Consumer) × (((retry meanwhile left attempt c msg ≡ some (c', true))
            × Received c' msg)
          ⊎ (retry meanwhile left attempt c msg ≡ some (c', false)))
  unfolding retry
  retry-IsOpen zero attempt c o = (c, inr refl)
  retry-IsOpen (suc left) attempt c o =
      elim (deliver-IsOpen (meanwhile attempt c) msg (keeps attempt c o)) [
        | inl (c', sent, last) ↦ (c', inl (rw (sent, retry), last))
        | inr (c', full, still) ↦
            let (end, outcome) = retry-IsOpen left (attempt + 1) c' still in
            elim outcome [
              | inl (later, last) ↦ (end, inl (rw (full, retry) later, last))
              | inr never ↦ (end, inr (rw (full, retry) never))
            ]
      ]

  slow_outcome :
      (now : ℕ) (g : Group) (c : Consumer) (q : DeadLetterQueue)
      → g.dlq ≡ some q
      → IsOpen c
      → (c' : Consumer) × (dlq' : Option DeadLetterQueue) × (handle_slow_consumer meanwhile now g c
            msg
          ≡ some (c', dlq'))
        × ((Received c' msg × (dlq' ≡ some q)) ⊎ (dlq' ≡ some (push now q (exhausted g msg))))
  unfolding handle_slow_consumer
  slow_outcome now g c q has o =
      let (c', outcome) = retry-IsOpen g.max_retries 1 c o in
      elim outcome [
        | inl (later, last) ↦ (c', g.dlq, rw (later, handle_slow_consumer), inl (last, has))
        | inr never ↦ (
          c',
          some (push now q (exhausted g msg)),
          rw (never, handle_slow_consumer, has),
          inr refl,
        )
      ]

-- In a group with a dead-letter queue, dispatch of a message whose partition one consumer has, with the
-- channel that deliver sends to not closed then and not closed by others during the retries, ends without a
-- panic and never drops the message: afterwards it is the last one in that channel and the queue is
-- unchanged, or the queue got it with the number of retries. The other consumers stay as they were.
pub dispatch_never_drops :
    (meanwhile : ℕ → Consumer → Consumer) (now : ℕ) (g : Group) (msg : Message)
    (q : DeadLetterQueue) (before after : Map Bytes Consumer) (cid : Bytes) (c : Consumer)
    → ((n : ℕ) (c : Consumer) → IsOpen c → IsOpen (meanwhile n c))
    → IsOpen c
    → g.dlq ≡ some q
    → g.consumers ≡ before ++ (cid, c) ∷ after
    → NoneHolds msg.partition before
    → NoneHolds msg.partition after
    → contains msg.partition c.assignments ≡ true
    → (g' : Group) × (c' : Consumer) × (dispatch meanwhile now g msg ≡ some g')
      × (g'.consumers ≡ before ++ (cid, c') ∷ after)
      × ((Received c' msg × (g'.dlq ≡ some q)) ⊎ (g'.dlq ≡ some (push now q (exhausted g msg))))
unfolding dispatch
dispatch_never_drops meanwhile now g msg q before after cid c keeps o has split h k owns =
    elim (deliver-IsOpen c msg o) [
      | inl (c', sent, last) ↦
          let e : dispatch_loop msg g.consumers ≡ finished (before ++ (cid, c') ∷ after) =
            rw split (loop_delivered msg cid c after c' before h k owns sent) in
          (
            record g { consumers = before ++ (cid, c') ∷ after },
            c',
            rw (e, dispatch),
            refl,
            inl (last, has),
          )
      | inr (c', full, still) ↦
          let e : dispatch_loop msg g.consumers ≡ slow before cid c' after =
            rw split (loop_slow msg cid c after c' before h owns full) in
          let (end, dlq', handled, result) =
            slow_outcome meanwhile keeps msg now g c' q has still in
          (
            record g { consumers = before ++ (cid, end) ∷ after; dlq = dlq' },
            end,
            rw (e, dispatch, handled),
            refl,
            result,
          )
    ]

-- If Leave closes a pull consumer while Dispatch sleeps before the first retry, the retry panics.
pub leave_during_retry_panics :
    (meanwhile : ℕ → Consumer → Consumer) (now : ℕ) (g : Group) (msg : Message)
    (before after : Map Bytes Consumer) (cid : Bytes) (c c' : Consumer) (more : ℕ)
    → g.max_retries ≡ suc more
    → g.consumers ≡ before ++ (cid, c) ∷ after
    → NoneHolds msg.partition before
    → contains msg.partition c.assignments ≡ true
    → c.push_ch ≡ none
    → c.msg_ch.capacity ≤ length c.msg_ch.queued
    → close c ≡ some c'
    → meanwhile 1 c ≡ c'
    → dispatch meanwhile now g msg ≡ none
unfolding dispatch handle_slow_consumer retry
leave_during_retry_panics meanwhile now g msg before after cid c c' more retries split h owns pull
      full left slept =
    let (o, closed, same) = close_lem c c' left in
    let e : dispatch_loop msg g.consumers ≡ slow before cid c after =
      rw split (loop_slow msg cid c after c before h owns (deliver_full c msg pull o full)) in
    let f : deliver (meanwhile 1 c) msg ≡ none =
      rw slept (deliver_closed c' msg (same ∙ pull) closed) in
    rw (e, dispatch, retries, handle_slow_consumer, retry, f)
