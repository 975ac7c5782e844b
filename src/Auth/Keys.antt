-- ===== src/Auth/Keys.antt =====
-- Authenticator of internal/auth/auth.go. SHA-256 in hexadecimal is a parameter.
use pubsub_broker.Base.{
  Bool, Option, some, List, [], ◌∷◌, String, string_comparable, if◌then◌else◌, ◌==◌,
}
use pubsub_broker.Base.Maps.{Map, lookup, insert, erase}
use pubsub_broker.Auth.Roles.{Identity, role_from_legacy}

-- APIKeyEntry
pub record ApiKeyEntry : Type 0 where
  pub key : String
  pub client_id : String
  pub role : String
  pub topics : List String
  pub permissions : List String

pub record Authenticator : Type 0 where
  pub keys : Map String Identity
  pub enabled : Bool

-- The identity of an entry of the configuration.
unfoldable pub identity_of : ApiKeyEntry → Identity
identity_of k = record {
  client_id = k.client_id;
  role = (if k.role == "" then role_from_legacy k.permissions else k.role);
  topics = k.topics;
}

module _ (hash_key : String → String) where
  -- The loop of NewAuthenticator over the entries.
  unfoldable pub load_keys : Map String Identity → List ApiKeyEntry → Map String Identity
  load_keys keys [] = keys
  load_keys keys (k ∷ ks) = load_keys (insert (hash_key k.key) (identity_of k) keys) ks

  -- NewAuthenticator
  unfoldable pub new_authenticator : Bool → List ApiKeyEntry → Authenticator
  new_authenticator enabled entries = record { keys = load_keys [] entries; enabled = enabled }

  -- Authenticate: `none` is the error of an unknown key.
  unfoldable pub authenticate : Authenticator → String → Option Identity
  authenticate a key =
      if a.enabled
      then lookup (hash_key key) a.keys
      else some (record { client_id = "anonymous"; role = "admin"; topics = [] })

  -- AddKey
  unfoldable pub add_key : Authenticator → String → String → String → List String → Authenticator
  add_key a key client_id role topics = record a {
    keys =
        insert (hash_key key) (record { client_id = client_id; role = role; topics = topics })
          a.keys;
  }

  -- RemoveKey
  unfoldable pub remove_key : Authenticator → String → Authenticator
  remove_key a key = record a { keys = erase (hash_key key) a.keys }

  -- RevokeKey
  unfoldable pub revoke_key : Authenticator → String → Authenticator
  revoke_key a key = remove_key a key
