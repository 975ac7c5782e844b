-- ===== src/Groups/Delivery.antt =====
-- deliver and close of internal/consumer/consumer.go: what a delivery does to the channel that it sends to.
use pubsub_broker.Base.{
  ◌≡◌, ◌⊎◌, refl, sym, ◌∙◌, ap, if◌then◌else◌, true, false, none, some, List, [], ◌∷◌, ◌++◌, inl,
  inr, nat_comparable, length, Bool, Bool-cases, Option, Option-cases, ltb, ◌≤◌, arith, some_unique,
}
use pubsub_broker.Dlq.Queue.{Message}
use pubsub_broker.Groups.Members.{Channel, Consumer, try_send, deliver, close}

-- The channel that deliver sends to: the push channel if there is one.
unfoldable pub target : Consumer → Channel
target c = elim c.push_ch [ none ↦ c.msg_ch | some ch ↦ ch ]

-- That channel is not closed.
abbrev pub IsOpen : Consumer → Type 0
IsOpen c = (target c).closed ≡ false

-- The message is the last one in that channel.
abbrev pub Received : Consumer → Message → Type 0
Received c msg = (q : List Message) × ((target c).queued ≡ q ++ msg ∷ [])

if_true {ℓ} : {A : Type ℓ} (b : Bool) (x y : A) → b ≡ true → (if b then x else y) ≡ x
if_true true x y e = refl
if_true false x y e = absurd cc

if_false {ℓ} : {A : Type ℓ} (b : Bool) (x y : A) → b ≡ false → (if b then x else y) ≡ y
if_false false x y e = refl
if_false true x y e = absurd cc

-- A send on a channel that is not closed puts the message last or finds no room.
try_send_lem :
    (ch : Channel) (msg : Message)
    → ch.closed ≡ false
    → (try_send ch msg ≡ some (record ch { queued = ch.queued ++ msg ∷ [] }, true))
      ⊎ (try_send ch msg ≡ some (ch, false))
unfolding try_send
try_send_lem ch msg o =
    let free = ltb (length ch.queued) ch.capacity in
    elim (Bool-cases free) [
      | inl room ↦ inl (if_false ch.closed none _ o ∙ if_true free _ (some (ch, false)) room)
      | inr full ↦ inr (
          if_false ch.closed none _ o
          ∙ if_false free (some (record ch { queued = ch.queued ++ msg ∷ [] }, true)) _ full)
    ]

-- Without a push channel deliver sends to the other one.
deliver_pull :
    (c : Consumer) (msg : Message) (r : Channel × Bool) (x : Option (Consumer × Bool))
    → c.push_ch ≡ none
    → try_send c.msg_ch msg ≡ some r
    → some (record c { msg_ch = r.0 }, r.1) ≡ x
    → deliver c msg ≡ x
unfolding deliver
deliver_pull c msg r x pull sent e = rw (pull, deliver, sent) e

deliver_push :
    (c : Consumer) (msg : Message) (ch : Channel) (r : Channel × Bool)
    → c.push_ch ≡ some ch
    → try_send ch msg ≡ some r
    → deliver c msg ≡ some (record c { push_ch = some r.0 }, r.1)
unfolding deliver
deliver_push c msg ch r pushes sent = rw (pushes, deliver, sent)

-- A delivery to a consumer that is open is received, or is refused and leaves the consumer open.
pub deliver-IsOpen :
    (c : Consumer) (msg : Message)
    → IsOpen c
    → ((c' : Consumer) × (deliver c msg ≡ some (c', true)) × Received c' msg)
      ⊎ ((c' : Consumer) × (deliver c msg ≡ some (c', false)) × IsOpen c')
unfolding target
deliver-IsOpen c msg o = elim (Option-cases c.push_ch) [
  | inl pull ↦
      let o' : c.msg_ch.closed ≡ false = rw pull at o in
      let t : (ch : Channel) → target (record c { msg_ch = ch }) ≡ ch = λ ch. rw pull in
      elim (try_send_lem c.msg_ch msg o') [
        | inl sent ↦
            let ch = record (c.msg_ch) { queued = c.msg_ch.queued ++ msg ∷ [] } in
            inl (
              record c { msg_ch = ch },
              deliver_pull c msg (ch, true) (some (record c { msg_ch = ch }, true)) pull sent refl,
              (c.msg_ch.queued, ap (λ (x : Channel). x.queued) (t ch)),
            )
        | inr full ↦
            inr (c, deliver_pull c msg (c.msg_ch, false) (some (c, false)) pull full refl, o)
      ]
  | inr (p, pushes) ↦
      let o' : p.closed ≡ false = rw pushes at o in
      elim (try_send_lem p msg o') [
        | inl sent ↦
            let ch = record p { queued = p.queued ++ msg ∷ [] } in
            inl (
              record c { push_ch = some ch },
              deliver_push c msg p (ch, true) pushes sent,
              (p.queued, refl),
            )
        | inr full ↦
            inr (record c { push_ch = some p }, deliver_push c msg p (p, false) pushes full, o')
      ]
]

-- Without a push channel, delivery to a full channel is refused, and to a closed one panics.
pub deliver_full :
    (c : Consumer) (msg : Message)
    → c.push_ch ≡ none
    → c.msg_ch.closed ≡ false
    → c.msg_ch.capacity ≤ length c.msg_ch.queued
    → deliver c msg ≡ some (c, false)
unfolding try_send
deliver_full c msg pull o full =
    let f : ltb (length c.msg_ch.queued) c.msg_ch.capacity ≡ false = ground arith in
    deliver_pull c msg (c.msg_ch, false) (some (c, false)) pull
      (if_false c.msg_ch.closed none _ o
        ∙ if_false (ltb (length c.msg_ch.queued) c.msg_ch.capacity) _ (some (c.msg_ch, false)) f)
      refl

pub deliver_closed :
    (c : Consumer) (msg : Message)
    → c.push_ch ≡ none
    → c.msg_ch.closed ≡ true
    → deliver c msg ≡ none
unfolding deliver try_send
deliver_closed c msg pull closed = rw (pull, deliver, closed)

pub close_lem :
    (c c' : Consumer)
    → close c ≡ some c'
    → (c.msg_ch.closed ≡ false) × (c'.msg_ch.closed ≡ true) × (c'.push_ch ≡ c.push_ch)
unfolding close
close_lem c c' left = elim (Bool-cases c.msg_ch.closed) [
  | inl closed ↦
      let e : none ≡ some c' = sym (if_true c.msg_ch.closed none _ closed) ∙ left in absurd cc
  | inr o ↦
      let e : record c { cancelled = true; msg_ch = record (c.msg_ch) { closed = true } } ≡ c' =
        some_unique (if_false c.msg_ch.closed none _ o) left in
      (o, sym (ap (λ (x : Consumer). x.msg_ch.closed) e), sym (ap (λ (x : Consumer). x.push_ch) e))
]
