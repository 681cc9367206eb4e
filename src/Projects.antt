-- ===== src/Projects.antt =====
-- What a handshake reads: the configuration of a project through its cache
-- (repositories/project_repo.py), a tenant (repositories/tenant_repo.py) and the tokens that a tenant
-- has used today (repositories/session_repo.py). Times are whole microseconds, Redis counts seconds.
pub mod Store
pub mod Fresh
pub mod Cache
pub mod Coherence
pub mod Reads
pub mod History
pub mod Race
use factn_assistant_service.RedisClient.{set_project_config, get_project_config, Codec}
use factn_assistant_service.Base.{
  ◌||◌, none, leb, ◌&&◌, some, if◌then◌else◌, [], ◌+◌, str_eq, ◌∷◌, ◌*◌, Bool, ◌/◌, Option, ℕ,
  String, List,
}
use factn_assistant_service.Schemas.{
  to_project_config, ProjectConfig, TenantDoc, SessionDoc, ProjectDoc,
}
use factn_assistant_service.Services.{Redis, Collection}

abbrev pub cache_ttl : ℕ
cache_ttl = 60

abbrev pub microseconds : ℕ
microseconds = 1_000_000

-- `{"_id": project_id}`, with the tenant `if tenant_id:`
unfoldable pub is_project_of : String → Option String → ProjectDoc → Bool
is_project_of project_id none d = str_eq d.id project_id
is_project_of project_id (some tenant_id) d =
    str_eq d.id project_id && (str_eq tenant_id "" || str_eq d.tenant_id tenant_id)

unfoldable pub is_tenant : String → TenantDoc → Bool
is_tenant tenant_id d = str_eq d.id tenant_id

-- midnight UTC of the day of `now`
unfoldable pub start_of_day : ℕ → ℕ
start_of_day now = now / (86_400 * microseconds) * (86_400 * microseconds)

unfoldable pub is_today_of : String → ℕ → SessionDoc → Bool
is_today_of tenant_id now d = str_eq d.tenant_id tenant_id && leb (start_of_day now) d.started_at

unfoldable pub sum_tokens : List SessionDoc → ℕ
sum_tokens [] = 0
sum_tokens (d ∷ ds) = d.input_tokens + d.output_tokens + sum_tokens ds

unfoldable pub get_project :
    (projects : Collection ProjectDoc) → String → Option String → projects.State → Option ProjectDoc
get_project projects project_id tenant_id s =
    projects.find_one (is_project_of project_id tenant_id) s

unfoldable pub get_tenant :
    (tenants : Collection TenantDoc) → String → tenants.State → Option TenantDoc
get_tenant tenants tenant_id s = tenants.find_one (is_tenant tenant_id) s

-- The `$match` and `$sum` of the aggregation.
unfoldable pub get_daily_token_usage :
    (sessions : Collection SessionDoc) → String → ℕ → sessions.State → ℕ
get_daily_token_usage sessions tenant_id now s =
    sum_tokens (sessions.find (is_today_of tenant_id now) s)

module _ {V : Type 0} (redis : Redis V) (codec : Codec V ProjectConfig)
    (projects : Collection ProjectDoc) where
  unfoldable pub cache_config :
      ProjectDoc → String → ℕ → redis.Store → Option ProjectConfig × redis.Store
  cache_config d project_id now r =
      let config = to_project_config d in
      if d.is_active
      then (
        some config,
        set_project_config redis codec project_id config cache_ttl (now / microseconds) r,
      )
      else (none, r)

  -- `get_config_by_id`, and `get_config_for_key` with the ids of the key
  unfoldable pub get_config :
      String → String → ℕ → projects.State → redis.Store → Option ProjectConfig × redis.Store
  get_config project_id tenant_id now s r =
      let (cached, r') = get_project_config redis codec project_id (now / microseconds) r in
      elim cached [
        | some config ↦ (some config, r')
        | none ↦ elim (get_project projects project_id (some tenant_id) s) [
          | none ↦ (none, r')
          | some d ↦ cache_config d project_id now r'
        ]
      ]
