-- ===== src/Base/DistinctKeys.antt =====
-- Maps that hold each key once: what insert keeps, and a copy made key by key.
use pubsub_broker.Base.{
  ◌≡◌, ◌≢◌, refl, sym, false, [], ◌∷◌, ◌++◌, Comparable, ◌==◌, All, Bool-cases, inl, inr,
}
use pubsub_broker.Base.Maps.{Map, insert}

differ {ℓ} : {K : Type ℓ} ⦃c : Comparable K⦄ (j k : K) → j ≢ k → (j == k) ≡ false
differ ⦃c⦄ j k h = elim (Bool-cases (j == k)) [
  | inl same ↦ absurd (h ((c.same_iff j k).0 same))
  | inr apart ↦ apart
]

module _ {ℓ κ} {K : Type ℓ} {V : Type κ} ⦃c : Comparable K⦄ where
  -- No binding of the map has the key.
  abbrev pub Lacks : K → Map K V → Type ℓ
  Lacks k = All (λ b. b.0 ≢ k)

  abbrev pub HasDistinctKeys : Map K V → Type ℓ
  HasDistinctKeys [] = Unit {ℓ}
  HasDistinctKeys (b ∷ m) = Lacks b.0 m × HasDistinctKeys m

  Lacks-insert : (k j : K) (v : V) (m : Map K V) → j ≢ k → Lacks k m → Lacks k (insert j v m)
  unfolding insert
  Lacks-insert k j v [] h l = (h, l)
  Lacks-insert k j v (b ∷ m) h l = elim (Bool-cases (b.0 == j)) [
    | inl same ↦ rw same (h, l.1)
    | inr apart ↦ rw apart (l.0, Lacks-insert k j v m h l.1)
  ]

  pub insert-HasDistinctKeys :
      (k : K) (v : V) (m : Map K V) → HasDistinctKeys m → HasDistinctKeys (insert k v m)
  unfolding insert
  insert-HasDistinctKeys k v [] h = (h, h)
  insert-HasDistinctKeys k v (b ∷ m) h = elim (Bool-cases (b.0 == k)) [
    | inl same ↦ rw (same, ← (c.same_iff b.0 k).0 same) h
    | inr apart ↦
        rw apart (
          Lacks-insert b.0 k v m (λ e. elim (ne e apart) [ ]) h.0,
          insert-HasDistinctKeys k v m h.1,
        )
  ]
    where
      ne : k ≡ b.0 → (b.0 == k) ≡ false → ⊥
      ne e apart = let t = (c.same_iff b.0 k).1 (sym e) in cc

  pub insert_new : (k : K) (v : V) (m : Map K V) → Lacks k m → insert k v m ≡ m ++ (k, v) ∷ []
  unfolding insert
  insert_new k v [] h = refl
  insert_new k v (b ∷ m) h = rw (differ b.0 k h.0, insert_new k v m h.1)

  -- The keys of `bs` are in no binding of `m`.
  abbrev pub Apart : Map K V → Map K V → Type ℓ
  Apart m bs = All (λ b. Lacks b.0 m) bs

  pub Apart-snoc : (m bs : Map K V) (b : K × V) → Apart m bs → Lacks b.0 bs → Apart (m ++ b ∷ []) bs
  Apart-snoc m [] b h l = h
  Apart-snoc m (d ∷ ds) b h l = (lacks_snoc m d b h.0 l.0, Apart-snoc m ds b h.1 l.1)
    where
      lacks_snoc : (m : Map K V) (d b : K × V) → Lacks d.0 m → d.0 ≢ b.0 → Lacks d.0 (m ++ b ∷ [])
      lacks_snoc [] d b h ne = (λ e. ne (sym e), h)
      lacks_snoc (x ∷ xs) d b h ne = (h.0, lacks_snoc xs d b h.1 ne)

  pub Apart-nil : (bs : Map K V) → Apart [] bs
  Apart-nil [] = tt
  Apart-nil (b ∷ bs) = (tt, Apart-nil bs)
