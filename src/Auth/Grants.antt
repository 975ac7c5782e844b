-- ===== src/Auth/Grants.antt =====
-- What a key can do, traced back to the configuration.
use pubsub_broker.Base.{
  ◌≡◌, ◌≢◌, ◌⊎◌, inl, inr, refl, ap, true, false, none, some, List, [], ◌∷◌, ◌++◌, arith, String,
  string_comparable, str_iff, str_refl, if◌then◌else◌, ◌==◌, Bool-cases, some_unique,
}
use pubsub_broker.Base.Maps.{Map, lookup, lookup_or, insert, lookup-insert, lookup-erase}
use pubsub_broker.Base.Filters.{contains}
use pubsub_broker.Auth.Roles.{Identity, role_permissions, is_listed, passes_topics, can}
use pubsub_broker.Auth.Keys.{
  ApiKeyEntry, Authenticator, identity_of, load_keys, new_authenticator, authenticate, add_key,
  remove_key, revoke_key,
}

-- An entry of the list whose key has this hash and that gives this identity.
abbrev pub ComesFrom : (String → String) → List ApiKeyEntry → String → Identity → Type 0
ComesFrom hash_key entries hash id =
    (before : List ApiKeyEntry) × (k : ApiKeyEntry) × (after : List ApiKeyEntry) × (entries
      ≡ before ++ k ∷ after)
    × (hash_key k.key ≡ hash)
    × (identity_of k ≡ id)

-- The topic is not named, or no topics are listed, or it is listed.
abbrev pub IsAllowedTopic : Identity → String → Type 0
IsAllowedTopic id topic = (topic ≡ "") ⊎ ((id.topics ≡ []) ⊎ (contains topic id.topics ≡ true))

passes_topics-IsAllowedTopic :
    (id : Identity) (topic : String)
    → passes_topics id.topics topic ≡ true
    → IsAllowedTopic id topic
unfolding passes_topics
passes_topics-IsAllowedTopic id topic h = elim (Bool-cases (topic == "")) [
  | inl unnamed ↦ inl ((str_iff topic "").0 unnamed)
  | inr named ↦ inr (listed id.topics refl (rw named at h))
]
  where
    listed :
        (ts : List String)
        → id.topics ≡ ts
        → (if is_listed ts then contains topic ts else true) ≡ true
        → (id.topics ≡ []) ⊎ (contains topic id.topics ≡ true)
    listed [] e f = inl e
    listed (t ∷ ts) e f = inr (rw e f)

module _ (hash_key : String → String) where
  load_keys-ComesFrom :
      (keys : Map String Identity) (entries : List ApiKeyEntry) (hash : String) (id : Identity)
      → lookup hash (load_keys hash_key keys entries) ≡ some id
      → ComesFrom hash_key entries hash id ⊎ (lookup hash keys ≡ some id)
  unfolding load_keys
  load_keys-ComesFrom keys [] hash id h = inr h
  load_keys-ComesFrom keys (k ∷ ks) hash id h =
      elim (load_keys-ComesFrom (insert (hash_key k.key) (identity_of k) keys) ks hash id h) [
        | inl (before, d, after, e, f, g) ↦ inl (k ∷ before, d, after, ap (λ x. k ∷ x) e, f, g)
        | inr found ↦ elim (Bool-cases (hash_key k.key == hash)) [
          | inl same ↦
              let own : some (identity_of k) ≡ some id =
                rw (lookup-insert (hash_key k.key) hash (identity_of k) keys, same) at found in
              inl ([], k, ks, refl, (str_iff (hash_key k.key) hash).0 same, some_unique refl own)
          | inr other ↦
              inr (rw (lookup-insert (hash_key k.key) hash (identity_of k) keys, other) at found)
        ]
      ]

  -- With authentication on, a permission that the identity of a key has comes from an entry of the
  -- configuration whose key has the same hash: the identity is that of the entry, its role has the
  -- permission, and the topic is not named, or the entry lists no topics, or it lists this one.
  pub authenticate-can :
      (entries : List ApiKeyEntry) (key perm topic : String) (id : Identity)
      → authenticate hash_key (new_authenticator hash_key true entries) key ≡ some id
      → can id perm topic ≡ true
      → ComesFrom hash_key entries (hash_key key) id
        × (contains perm (lookup_or [] id.role role_permissions) ≡ true)
        × IsAllowedTopic id topic
  unfolding authenticate new_authenticator can
  authenticate-can entries key perm topic id known allowed =
      elim (Bool-cases (passes_topics id.topics topic)) [
        | inr refused ↦ let bad : false ≡ true = rw refused at allowed in cc
        | inl passes ↦ (
          elim (load_keys-ComesFrom [] entries (hash_key key) id known) [
            | inl from ↦ from
            | inr empty ↦ (unfold lookup in cc)
          ],
          rw passes at allowed,
          passes_topics-IsAllowedTopic id topic passes,
        )
      ]

  -- With authentication on, a key that is revoked is unknown, a key that is added is known with the client,
  -- the role and the topics given, and keys of another hash are what they were.
  pub authenticate_after :
      (a : Authenticator) (key other client_id role : String) (topics : List String)
      → a.enabled ≡ true
      → hash_key key ≢ hash_key other
      → (authenticate hash_key (revoke_key hash_key a key) key ≡ none)
        × (authenticate hash_key (revoke_key hash_key a key) other ≡ authenticate hash_key a other)
        × (authenticate hash_key (add_key hash_key a key client_id role topics) key
            ≡ some (record { client_id = client_id; role = role; topics = topics }))
        × (authenticate hash_key (add_key hash_key a key client_id role topics) other
            ≡ authenticate hash_key a other)
  unfolding authenticate revoke_key remove_key add_key
  authenticate_after a key other client_id role topics on apart =
      let differs : (hash_key key == hash_key other) ≡ false =
        ground (arith, str_iff (hash_key key) (hash_key other)) in
      let id : Identity = record { client_id = client_id; role = role; topics = topics } in
      (
        rw (on, lookup-erase (hash_key key) (hash_key key) a.keys, str_refl (hash_key key)),
        rw (on, lookup-erase (hash_key key) (hash_key other) a.keys, differs),
        rw (on, lookup-insert (hash_key key) (hash_key key) id a.keys, str_refl (hash_key key)),
        rw (on, lookup-insert (hash_key key) (hash_key other) id a.keys, differs),
      )
