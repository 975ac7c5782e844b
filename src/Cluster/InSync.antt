-- ===== src/Cluster/InSync.antt =====
-- ISRTracker of internal/cluster/isr.go and WaitForQuorum of quorum.go. Times are numbers of
-- nanoseconds, offsets are not negative, and the bounds on the lag and the age are not negative.
use pubsub_broker.Base.{
  ℕ, ◌+◌, ◌*◌, ◌≤◌, ◌<◌, ◌≡◌, ◌≢◌, ◌↔◌, ◌⊎◌, inl, inr, refl, sym, ◌∙◌, Bool, true, false, Option,
  none, some, List, [], ◌∷◌, ◌++◌, arith, if◌then◌else◌, ◌&&◌, leb, ◌==◌, length, Bool-cases,
  some_unique, All,
}
use pubsub_broker.Base.Bytes.{Bytes, bytes_comparable, bytes_beq_iff}
use pubsub_broker.Base.Maps.{Map, lookup, insert, erase}
use pubsub_broker.Base.DistinctKeys.{HasDistinctKeys, Lacks}
use pubsub_broker.Base.Filters.{contains}

-- ISRState
pub record IsrState : Type 0 where
  pub node_id : Bytes
  pub last_offset : ℕ
  pub last_contact : ℕ

pub record IsrTracker : Type 0 where
  pub replicas : Map Bytes IsrState
  pub max_lag_messages : ℕ
  pub max_lag : ℕ

-- NewISRTracker: the bound on the age comes in milliseconds.
unfoldable pub new_isr_tracker : ℕ → ℕ → IsrTracker
new_isr_tracker max_lag_messages max_lag_ms = record {
  replicas = [];
  max_lag_messages = max_lag_messages;
  max_lag = max_lag_ms * 1000000;
}

-- Update
unfoldable pub update : ℕ → IsrTracker → Bytes → ℕ → IsrTracker
update now t node_id offset = record t {
  replicas =
      insert node_id (record { node_id = node_id; last_offset = offset; last_contact = now })
        t.replicas;
}

-- `a - b <= bound`, where a difference below 0 is below the bound.
abbrev pub within : ℕ → ℕ → ℕ → Bool
within bound a b = leb a (b + bound)

-- The test of ISR on one replica.
unfoldable pub in_sync : ℕ → IsrTracker → ℕ → IsrState → Bool
in_sync now t leader_offset s =
    within t.max_lag_messages leader_offset s.last_offset && within t.max_lag now s.last_contact

-- The loop of ISR.
unfoldable pub followers_in_sync : ℕ → IsrTracker → Bytes → ℕ → Map Bytes IsrState → List Bytes
followers_in_sync now t leader_id leader_offset [] = []
followers_in_sync now t leader_id leader_offset (b ∷ m) =
    let rest = followers_in_sync now t leader_id leader_offset m in
    if b.0 == leader_id then rest else if in_sync now t leader_offset b.1 then b.0 ∷ rest else rest

-- ISR
unfoldable pub isr : ℕ → IsrTracker → Bytes → ℕ → List Bytes
isr now t leader_id leader_offset =
    leader_id ∷ followers_in_sync now t leader_id leader_offset t.replicas

-- Remove
unfoldable pub remove : IsrTracker → Bytes → IsrTracker
remove t node_id = record t { replicas = erase node_id t.replicas }

-- What a wait sees: the clock and the tracker at a tick of the poll, or the end of the context.
pub data WaitEvent : Type 0 where
  tick : ℕ → IsrTracker → WaitEvent
  cancelled : WaitEvent

-- The loop of WaitForQuorum over the events: `some true` is a quorum and `some false` the context's
-- end; `none` waits on.
unfoldable pub wait_loop : Bytes → ℕ → ℕ → List WaitEvent → Option Bool
wait_loop leader_id leader_offset quorum [] = none
wait_loop leader_id leader_offset quorum (cancelled ∷ es) = some false
wait_loop leader_id leader_offset quorum (tick now t ∷ es) =
    let rest = wait_loop leader_id leader_offset quorum es in
    if leb quorum (length (isr now t leader_id leader_offset)) then some true else rest

-- WaitForQuorum: the first look is made before any event.
unfoldable pub wait_for_quorum : ℕ → IsrTracker → Bytes → ℕ → ℕ → List WaitEvent → Option Bool
wait_for_quorum now t leader_id leader_offset quorum es =
    wait_loop leader_id leader_offset quorum (tick now t ∷ es)

-- What it takes to be in sync.
abbrev pub IsInSync : ℕ → IsrTracker → Bytes → ℕ → Bytes → Type 0
IsInSync now t leader_id leader_offset id =
    (id ≡ leader_id)
    ⊎ ((s : IsrState) × (lookup id t.replicas ≡ some s)
        × (leader_offset ≤ s.last_offset + t.max_lag_messages)
        × (now ≤ s.last_contact + t.max_lag))

in_sync_iff :
    (now : ℕ) (t : IsrTracker) (leader_offset : ℕ) (s : IsrState)
    → (in_sync now t leader_offset s ≡ true)
      ↔ ((leader_offset ≤ s.last_offset + t.max_lag_messages) × (now ≤ s.last_contact + t.max_lag))
unfolding in_sync
in_sync_iff now t leader_offset s = (λ h. ground arith, λ h. ground arith)

module _ (now : ℕ) (t : IsrTracker) (leader_id : Bytes) (leader_offset : ℕ) where
  -- The binding of a follower in sync.
  abbrev Counts : Map Bytes IsrState → Bytes → Type 0
  Counts m id =
      (id ≢ leader_id)
      × (s : IsrState) × (lookup id m ≡ some s)
      × (in_sync now t leader_offset s ≡ true)

  skip_other :
      (b : Bytes × IsrState) (m : Map Bytes IsrState) (id : Bytes)
      → (b.0 == id) ≡ false
      → contains id (followers_in_sync now t leader_id leader_offset (b ∷ m))
        ≡ contains id (followers_in_sync now t leader_id leader_offset m)
  unfolding followers_in_sync
  skip_other b m id other = elim (Bool-cases (b.0 == leader_id)) [
    | inl leads ↦ rw leads
    | inr follows ↦ elim (Bool-cases (in_sync now t leader_offset b.1)) [
      | inl near ↦ rw (follows, near, other)
      | inr far ↦ rw (follows, far)
    ]
  ]

  absent :
      (m : Map Bytes IsrState) (id : Bytes)
      → Lacks id m
      → contains id (followers_in_sync now t leader_id leader_offset m) ≡ false
  unfolding followers_in_sync
  absent [] id l = refl
  absent (b ∷ m) id (apart, l) =
      let other : (b.0 == id) ≡ false = elim (Bool-cases (b.0 == id)) [
        | inl same ↦ absurd (apart ((bytes_beq_iff b.0 id).0 same))
        | inr differs ↦ differs
      ] in
      skip_other b m id other ∙ absent m id l

  counted :
      (m : Map Bytes IsrState) (id : Bytes)
      → HasDistinctKeys m
      → (contains id (followers_in_sync now t leader_id leader_offset m) ≡ true) ↔ Counts m id
  unfolding followers_in_sync lookup
  counted [] id h = (λ e. cc, λ (_, s, e, _). cc)
  counted (b ∷ m) id (lacks, h) = elim (Bool-cases (b.0 == id)) [
    | inr other ↦
        let ih = counted m id h in
        (
          λ e.
              let (ne, s, f, near) = ih.0 (sym (skip_other b m id other) ∙ e) in
              (ne, s, rw other f, near),
          λ (ne, s, f, near). skip_other b m id other ∙ ih.1 (ne, s, rw other at f, near),
        )
    | inl same ↦
        let own : b.0 ≡ id = (bytes_beq_iff b.0 id).0 same in
        let gone = rw own at (absent m b.0 lacks) in first b m id own same gone
  ]
    where
      first :
          (b : Bytes × IsrState) (m : Map Bytes IsrState) (id : Bytes)
          → b.0 ≡ id
          → (b.0 == id) ≡ true
          → contains id (followers_in_sync now t leader_id leader_offset m) ≡ false
          → (contains id (followers_in_sync now t leader_id leader_offset (b ∷ m)) ≡ true)
            ↔ Counts (b ∷ m) id
      first b m id own same gone = elim (Bool-cases (b.0 == leader_id)) [
        | inl leads ↦
            let is_leader : id ≡ leader_id = sym own ∙ (bytes_beq_iff b.0 leader_id).0 leads in
            (
              λ e.
                  let bad : contains id (followers_in_sync now t leader_id leader_offset m) ≡ true =
                    rw leads at e in
                  cc,
              λ (ne, _, _, _). absurd (ne is_leader),
            )
        | inr follows ↦
            let apart : id ≢ leader_id =
              λ e. let bad = (bytes_beq_iff b.0 leader_id).1 (own ∙ e) in cc in
            elim (Bool-cases (in_sync now t leader_offset b.1)) [
              | inl near ↦ (λ _. (apart, b.1, rw same, near), λ _. rw (follows, near, same))
              | inr far ↦ (
                λ e.
                    let bad : contains id (followers_in_sync now t leader_id leader_offset m)
                        ≡ true =
                      rw (follows, far) at e in
                    cc,
                λ (_, s, f, near).
                    let g : some b.1 ≡ some s = rw same at f in
                    let e : b.1 ≡ s = some_unique refl g in
                    let bad : in_sync now t leader_offset b.1 ≡ true = rw e near in cc,
              )
            ]
      ]

-- ISR lists the leader, and exactly those other replicas whose last offset and last contact are within
-- the bounds, whatever order the map is walked in.
pub isr_iff :
    (now : ℕ) (t : IsrTracker) (leader_id : Bytes) (leader_offset : ℕ) (id : Bytes)
    → HasDistinctKeys t.replicas
    → (contains id (isr now t leader_id leader_offset) ≡ true)
      ↔ IsInSync now t leader_id leader_offset id
unfolding isr
isr_iff now t leader_id leader_offset id h = elim (Bool-cases (leader_id == id)) [
  | inl leads ↦ (λ _. inl (sym ((bytes_beq_iff leader_id id).0 leads)), λ _. rw leads)
  | inr follows ↦
      let both = counted now t leader_id leader_offset t.replicas id h in
      (
        λ e.
            let (ne, s, f, near) = both.0 (rw follows at e) in
            let (lag, age) = (in_sync_iff now t leader_offset s).0 near in inr (s, f, lag, age),
        λ o. elim o [
          | inl e ↦ absurd (let bad = (bytes_beq_iff leader_id id).1 (sym e) in cc)
          | inr (s, f, lag, age) ↦
              let apart : id ≢ leader_id =
                λ e. let bad = (bytes_beq_iff leader_id id).1 (sym e) in cc in
              rw follows (both.1 (apart, s, f, (in_sync_iff now t leader_offset s).1 (lag, age)))
        ],
      )
]

-- A look that sees no quorum.
abbrev pub Misses : Bytes → ℕ → ℕ → WaitEvent → Type 0
Misses leader_id leader_offset quorum (tick now t) =
    length (isr now t leader_id leader_offset) < quorum
Misses leader_id leader_offset quorum cancelled = ⊥

miss :
    (leader_id : Bytes) (leader_offset quorum : ℕ) (before es : List WaitEvent)
    → All (Misses leader_id leader_offset quorum) before
    → wait_loop leader_id leader_offset quorum (before ++ es)
      ≡ wait_loop leader_id leader_offset quorum es
unfolding wait_loop
miss leader_id leader_offset quorum [] es h = refl
miss leader_id leader_offset quorum (tick now t ∷ before) es (few, h) =
    let no : leb quorum (length (isr now t leader_id leader_offset)) ≡ false = ground arith in
    rw (no, miss leader_id leader_offset quorum before es h)
miss leader_id leader_offset quorum (cancelled ∷ before) es (bad, h) = absurd bad

-- WaitForQuorum ends at the first look that sees a quorum, with success, or at the end of the context
-- before any such look, with its error; until one of the two it waits.
pub wait_for_quorum_lem :
    (now : ℕ) (t : IsrTracker) (leader_id : Bytes) (leader_offset quorum : ℕ)
    (before after : List WaitEvent)
    → All (Misses leader_id leader_offset quorum) (tick now t ∷ before)
    → ((now' : ℕ) (t' : IsrTracker)
        → quorum ≤ length (isr now' t' leader_id leader_offset)
        → wait_for_quorum now t leader_id leader_offset quorum (before ++ tick now' t' ∷ after)
          ≡ some true)
      × (wait_for_quorum now t leader_id leader_offset quorum (before ++ cancelled ∷ after)
          ≡ some false)
      × (wait_for_quorum now t leader_id leader_offset quorum (before ++ []) ≡ none)
unfolding wait_for_quorum
wait_for_quorum_lem now t leader_id leader_offset quorum before after h = (
  λ now' t' enough.
      let seen : leb quorum (length (isr now' t' leader_id leader_offset)) ≡ true = ground arith in
      miss leader_id leader_offset quorum (tick now t ∷ before) (tick now' t' ∷ after) h
      ∙ unfold wait_loop in rw seen,
  miss leader_id leader_offset quorum (tick now t ∷ before) (cancelled ∷ after) h
      ∙ unfold wait_loop in refl,
  miss leader_id leader_offset quorum (tick now t ∷ before) [] h ∙ unfold wait_loop in refl,
)
