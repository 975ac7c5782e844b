-- ===== src/Auth/Roles.antt =====
-- Identity and the roles of internal/auth/rbac.go. Roles and permissions are strings, as in the source.
use pubsub_broker.Base.{
  Bool, true, false, List, [], ◌∷◌, String, string_comparable, if◌then◌else◌, ◌==◌, ◌&&◌, not,
}
use pubsub_broker.Base.Maps.{Map, lookup_or}
use pubsub_broker.Base.Filters.{contains}

-- Identity
pub record Identity : Type 0 where
  pub client_id : String
  pub role : String
  pub topics : List String

-- RolePermissions
abbrev pub role_permissions : Map String (List String)
role_permissions =
    (
      "admin",
      "publish" ∷ "subscribe" ∷ "fetch" ∷ "commit" ∷ "create_topic" ∷ "delete_topic" ∷ "list_topics"
          ∷ "seek" ∷ "admin" ∷ [],
    )
    ∷ ("producer", "publish" ∷ "list_topics" ∷ [])
    ∷ ("consumer", "subscribe" ∷ "fetch" ∷ "commit" ∷ "seek" ∷ "list_topics" ∷ [])
    ∷ ("viewer", "list_topics" ∷ [])
    ∷ []

-- `len(id.Topics) > 0`
abbrev pub is_listed : List String → Bool
is_listed [] = false
is_listed (t ∷ ts) = true

-- The gate of the topics: whether Can goes on behind it.
unfoldable pub passes_topics : List String → String → Bool
passes_topics topics topic =
    if not (topic == "") && is_listed topics then contains topic topics else true

-- Can
unfoldable pub can : Identity → String → String → Bool
can id perm topic =
    if passes_topics id.topics topic
    then contains perm (lookup_or [] id.role role_permissions)
    else false

-- roleFromLegacy
unfoldable pub role_from_legacy : List String → String
role_from_legacy [] = "viewer"
role_from_legacy (p ∷ ps) =
    let rest = role_from_legacy ps in
    if p == "admin"
    then "admin"
    else if p == "publish"
    then "producer"
    else if p == "subscribe"
    then "consumer"
    else rest
