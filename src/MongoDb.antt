-- ===== src/MongoDb.antt =====
-- db/mongo.py and db/indexes.py: the connection's answer to a ping, and the indexes that a start makes
-- sure of. `Database` stands for the server, of which only the indexes matter here.
pub mod Ensure
use factn_assistant_service.Base.{
  ◌||◌, any_of, ◌&&◌, some, none, [], ◌≡◌, ◌∷◌, ◌++◌, ℕ, true, str_eq, false, String, Option, List,
  Bool,
}

abbrev pub col_tenants : String
col_tenants = "tenants"

abbrev pub col_projects : String
col_projects = "projects"

abbrev pub col_api_keys : String
col_api_keys = "api_keys"

abbrev pub col_sessions : String
col_sessions = "sessions"

-- `db["auth_tokens"]`
abbrev pub col_auth_tokens : String
col_auth_tokens = "auth_tokens"

pub data Direction : Type 0 where
  ascending descending : Direction

-- One call of `create_index`, with the collection it is called on. A partial index has the field and the
-- value that its filter asks for; `expire_after` is `expireAfterSeconds`.
pub record Index : Type 0 where
  pub collection : String
  pub keys : List (String × Direction)
  pub unique : Bool
  pub partial_filter : Option (String × Bool)
  pub expire_after : Option ℕ
  pub name : String

abbrev pub plain_index : String → List (String × Direction) → String → Index
plain_index collection keys name = record {
  collection = collection;
  keys = keys;
  unique = false;
  partial_filter = none;
  expire_after = none;
  name = name;
}

unfoldable pub tenant_indexes : List Index
tenant_indexes =
    (record (plain_index col_tenants (("email", ascending) ∷ []) "tenants_email_unique") {
      unique = true;
    })
    ∷ (record (plain_index col_tenants (("is_suspended", ascending) ∷ []) "tenants_suspended") {
      partial_filter = some ("is_suspended", true);
    })
    ∷ []

unfoldable pub project_indexes : List Index
project_indexes =
    plain_index col_projects (("tenant_id", ascending) ∷ []) "projects_by_tenant"
    ∷ plain_index col_projects (("tenant_id", ascending) ∷ ("_id", ascending) ∷ [])
        "projects_tenant_id_compound"
    ∷ []

unfoldable pub api_key_indexes : List Index
api_key_indexes =
    (record (plain_index col_api_keys (("key_hash", ascending) ∷ []) "api_keys_hash_unique") {
      unique = true;
    })
    ∷ plain_index col_api_keys (("project_id", ascending) ∷ []) "api_keys_by_project"
    ∷ plain_index col_api_keys (("tenant_id", ascending) ∷ []) "api_keys_by_tenant"
    ∷ (record (plain_index col_api_keys (("key_prefix", ascending) ∷ []) "api_keys_active_prefix") {
      partial_filter = some ("revoked", false);
    })
    ∷ []

unfoldable pub session_indexes : List Index
session_indexes =
    plain_index col_sessions (("project_id", ascending) ∷ ("started_at", descending) ∷ [])
      "sessions_by_project_date"
    ∷ plain_index col_sessions (("tenant_id", ascending) ∷ []) "sessions_by_tenant"
    ∷ plain_index col_sessions (("status", ascending) ∷ []) "sessions_by_status"
    ∷ plain_index col_sessions (("tenant_id", ascending) ∷ ("started_at", descending) ∷ [])
        "sessions_tenant_date"
    ∷ []

unfoldable pub auth_token_indexes : List Index
auth_token_indexes =
    (record (plain_index col_auth_tokens (("expires_at", ascending) ∷ []) "auth_tokens_ttl") {
      expire_after = some 0;
    })
    ∷ (record (plain_index col_auth_tokens (("token_hash", ascending) ∷ [])
        "auth_tokens_hash_unique") { unique = true })
    ∷ []

-- In the order of the calls
unfoldable pub all_indexes : List Index
all_indexes =
    tenant_indexes
    ++ (project_indexes ++ (api_key_indexes ++ (session_indexes ++ auth_token_indexes)))

abbrev same_direction : Direction → Direction → Bool
same_direction ascending ascending = true
same_direction descending descending = true
same_direction _ _ = false

abbrev same_keys : List (String × Direction) → List (String × Direction) → Bool
same_keys [] [] = true
same_keys ((f, d) ∷ ks) ((g, e) ∷ ls) = str_eq f g && same_direction d e && same_keys ks ls
same_keys _ _ = false

-- Two indexes of one collection that share their name or their keys
abbrev pub clashes : Index → Index → Bool
clashes ix jx =
    str_eq ix.collection jx.collection && (str_eq ix.name jx.name || same_keys ix.keys jx.keys)

-- A database server, seen through its indexes besides those on `_id`. A call that raises is `none`.
-- Where documents share the key of a unique index, that index has duplicates and cannot be built.
pub record Database : Type 1 where
  pub State : Type 0
  pub indexes : State → List Index
  pub has_duplicates : Index → State → Bool
  pub create_index : Index → State → Option State
  -- an index that is there already
  pub create_index-again :
      (ix : Index) (before after : List Index) (s : State)
      → indexes s ≡ before ++ ix ∷ after
      → create_index ix s ≡ some s
  -- one that is new, in name and in keys
  pub create_index-new :
      (ix : Index) (s : State)
      → any_of (clashes ix) (indexes s) ≡ false
      → has_duplicates ix s ≡ false
      → (s' : State) × (create_index ix s ≡ some s')
        × (indexes s' ≡ indexes s ++ ix ∷ [])
        × ((jx : Index) → has_duplicates jx s' ≡ has_duplicates jx s)
  pub create_index-duplicates :
      (ix : Index) (s : State)
      → any_of (clashes ix) (indexes s) ≡ false
      → has_duplicates ix s ≡ true
      → create_index ix s ≡ none

-- The exception's text, where the ping command raises, is only logged.
unfoldable pub ping : Option String → Bool
ping none = true
ping (some exc) = false

module _ (database : Database) where
  -- One call after the other: true where none has raised, with what the server then holds
  unfoldable pub create_indexes : List Index → database.State → Bool × database.State
  create_indexes [] s = (true, s)
  create_indexes (ix ∷ ixs) s = elim (database.create_index ix s) [
    | none ↦ (false, s)
    | some s' ↦ create_indexes ixs s'
  ]

  unfoldable pub ensure_indexes : database.State → Bool × database.State
  ensure_indexes s = create_indexes all_indexes s
