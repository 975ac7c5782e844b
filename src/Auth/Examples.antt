-- ===== src/Auth/Examples.antt =====
-- A producer's key, with the key itself for its hash.
use pubsub_broker.Base.{◌≡◌, refl, true, [], ◌∷◌, String, string_comparable}
use pubsub_broker.Base.Maps.{lookup, lookup_or, insert}
use pubsub_broker.Base.Filters.{contains}
use pubsub_broker.Auth.Roles.{Identity, role_permissions, passes_topics, can, role_from_legacy}
use pubsub_broker.Auth.Keys.{ApiKeyEntry, identity_of, load_keys, new_authenticator, authenticate}
use pubsub_broker.Auth.Grants.{ComesFrom, IsAllowedTopic, authenticate-can}

abbrev own_hash : String → String
own_hash key = key

abbrev entry : ApiKeyEntry
entry = record {
  key = "k";
  client_id = "c";
  role = "";
  topics = "orders" ∷ [];
  permissions = "publish" ∷ [];
}

abbrev producer : Identity
producer = record { client_id = "c"; role = "producer"; topics = "orders" ∷ [] }

authenticate-can_example :
    ComesFrom own_hash (entry ∷ []) "k" producer
    × (contains "publish" (lookup_or [] "producer" role_permissions) ≡ true)
    × IsAllowedTopic producer "orders"
authenticate-can_example =
    authenticate-can own_hash (entry ∷ []) "k" "publish" "orders" producer
      (unfold authenticate new_authenticator load_keys lookup insert identity_of role_from_legacy in
        refl)
      (unfold can passes_topics lookup_or in refl)
