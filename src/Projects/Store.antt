-- ===== src/Projects/Store.antt =====
-- The writing operations of repositories/project_repo.py and its listing. A write goes to the
-- collection first, and then invalidates the cached configuration.
use factn_assistant_service.RedisClient.{invalidate_project_config}
use factn_assistant_service.Base.{
  ◌&&◌, if◌then◌else◌, ◌==◌, true, str_eq, false, [], List, Bool, some, ℕ, none, String, Option,
}
use factn_assistant_service.ToolExecutor.Defs.{ToolDefinition}
use factn_assistant_service.Schemas.{VadMode, VoiceConfig, ProjectDoc}
use factn_assistant_service.Services.{Collection, Redis}

-- `{"_id": project_id, "tenant_id": tenant_id}`
unfoldable pub is_owned : String → String → ProjectDoc → Bool
is_owned project_id tenant_id d = str_eq d.id project_id && str_eq d.tenant_id tenant_id

unfoldable pub is_project_of_tenant : String → ProjectDoc → Bool
is_project_of_tenant tenant_id d = str_eq d.tenant_id tenant_id

-- What `create` is called with, besides the tenant.
pub record NewProject : Type 0 where
  pub name : String
  pub description : String
  pub system_prompt : String
  pub gemini_model : String
  pub voice_config : VoiceConfig
  pub vad_config : VadMode
  pub webhook_url : Option String
  pub webhook_secret : Option String
  pub allowed_origins : List String
  pub session_ttl_seconds : ℕ
  pub max_concurrent_sessions : ℕ
  pub rate_limit_rpm : ℕ

-- The document that `create` builds, with the id that `uuid` makes.
unfoldable pub new_project_doc : String → String → NewProject → ℕ → ProjectDoc
new_project_doc new_id tenant_id b now = record {
  id = new_id;
  tenant_id = tenant_id;
  name = b.name;
  description = b.description;
  system_prompt = b.system_prompt;
  gemini_model = b.gemini_model;
  voice_config = b.voice_config;
  vad_config = b.vad_config;
  tools = [];
  webhook_url = b.webhook_url;
  webhook_secret = b.webhook_secret;
  allowed_origins = b.allowed_origins;
  session_ttl_seconds = b.session_ttl_seconds;
  max_concurrent_sessions = b.max_concurrent_sessions;
  rate_limit_rpm = b.rate_limit_rpm;
  created_at = now;
  updated_at = now;
  last_accessed = none;
  is_active = true;
}

-- The fields that an update sets: `none` for those that it does not name. A webhook field that it
-- names may be set to None.
pub record Changes : Type 0 where
  pub name : Option String
  pub description : Option String
  pub system_prompt : Option String
  pub gemini_model : Option String
  pub voice_config : Option VoiceConfig
  pub vad_config : Option VadMode
  pub tools : Option (List ToolDefinition)
  pub webhook_url : Option (Option String)
  pub webhook_secret : Option (Option String)
  pub allowed_origins : Option (List String)
  pub session_ttl_seconds : Option ℕ
  pub max_concurrent_sessions : Option ℕ
  pub rate_limit_rpm : Option ℕ
  pub is_active : Option Bool

abbrev pub no_changes : Changes
no_changes = record {
  name = none;
  description = none;
  system_prompt = none;
  gemini_model = none;
  voice_config = none;
  vad_config = none;
  tools = none;
  webhook_url = none;
  webhook_secret = none;
  allowed_origins = none;
  session_ttl_seconds = none;
  max_concurrent_sessions = none;
  rate_limit_rpm = none;
  is_active = none;
}

abbrev pub or_else {ℓ} : {A : Type ℓ} → Option A → A → A
or_else none old = old
or_else (some new) old = new

-- `{"$set": fields}`, with `updated_at` among the fields
unfoldable pub apply_changes : Changes → ℕ → ProjectDoc → ProjectDoc
apply_changes c now d = record d {
  name = or_else c.name d.name;
  description = or_else c.description d.description;
  system_prompt = or_else c.system_prompt d.system_prompt;
  gemini_model = or_else c.gemini_model d.gemini_model;
  voice_config = or_else c.voice_config d.voice_config;
  vad_config = or_else c.vad_config d.vad_config;
  tools = or_else c.tools d.tools;
  webhook_url = or_else c.webhook_url d.webhook_url;
  webhook_secret = or_else c.webhook_secret d.webhook_secret;
  allowed_origins = or_else c.allowed_origins d.allowed_origins;
  session_ttl_seconds = or_else c.session_ttl_seconds d.session_ttl_seconds;
  max_concurrent_sessions = or_else c.max_concurrent_sessions d.max_concurrent_sessions;
  rate_limit_rpm = or_else c.rate_limit_rpm d.rate_limit_rpm;
  is_active = or_else c.is_active d.is_active;
  updated_at = now;
}

unfoldable pub mark_accessed : ℕ → ProjectDoc → ProjectDoc
mark_accessed now d = record d { last_accessed = some now }

module _ {V : Type 0} (redis : Redis V) (projects : Collection ProjectDoc) where
  -- The collection of projects and the server that caches their configurations.
  pub record Stores : Type 0 where
    pub docs : projects.State
    pub cache : redis.Store

  unfoldable pub create : String → String → NewProject → ℕ → Stores → ProjectDoc × Stores
  create new_id tenant_id b now w =
      let d = new_project_doc new_id tenant_id b now in
      (d, record w { docs = projects.insert_one d w.docs })

  -- `if result.modified_count:` before the invalidation
  unfoldable pub update : String → String → Changes → ℕ → Stores → Bool × Stores
  update project_id tenant_id changes now w =
      let (modified, s) =
        projects.update_one (is_owned project_id tenant_id) (apply_changes changes now) w.docs in
      (
        modified == 1,
        record {
          docs = s;
          cache =
              if modified == 0 then w.cache else invalidate_project_config redis project_id w.cache;
        },
      )

  unfoldable pub set_tools : String → String → List ToolDefinition → ℕ → Stores → Bool × Stores
  set_tools project_id tenant_id tools now w =
      update project_id tenant_id (record no_changes { tools = some tools }) now w

  unfoldable pub soft_delete : String → String → ℕ → Stores → Bool × Stores
  soft_delete project_id tenant_id now w =
      let (result, w') =
        update project_id tenant_id (record no_changes { is_active = some false }) now w in
      (
        result,
        record w' {
          cache = if result then invalidate_project_config redis project_id w'.cache else w'.cache;
        },
      )

  -- The cached configuration has no field that this sets, and stays.
  unfoldable pub touch_last_accessed : String → String → ℕ → Stores → Stores
  touch_last_accessed project_id tenant_id now w = record w {
    docs = (projects.update_one (is_owned project_id tenant_id) (mark_accessed now) w.docs).1;
  }

  unfoldable pub list_for_tenant : String → ℕ → ℕ → Stores → List ProjectDoc
  list_for_tenant tenant_id limit skip w =
      projects.find_page (is_project_of_tenant tenant_id) (λ d. d.created_at) skip limit w.docs
