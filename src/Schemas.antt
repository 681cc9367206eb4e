-- ===== src/Schemas.antt =====
-- core/schemas.py and core/documents.py: the runtime shape of a project and the stored documents.
-- Identifiers are texts; times are whole microseconds since the epoch.
use factn_assistant_service.Base.{
  ℕ, String, Bool, true, false, Option, none, some, List, ltb, if◌then◌else◌,
}
use factn_assistant_service.ToolExecutor.Defs.{ToolDefinition}
use factn_assistant_service.SessionEvents.{Status}

pub record VoiceConfig : Type 0 where
  pub enabled : Bool
  pub voice_name : String
  pub language_code : String

pub data VadMode : Type 0 where
  auto manual : VadMode

pub record ProjectConfig : Type 0 where
  pub project_id : String
  pub tenant_id : String
  pub name : String
  pub system_prompt : String
  pub gemini_model : String
  pub voice_config : VoiceConfig
  pub vad_config : VadMode
  pub tools : List ToolDefinition
  pub session_ttl_seconds : ℕ
  pub max_concurrent_sessions : ℕ
  pub rate_limit_rpm : ℕ
  pub allowed_origins : List String
  pub webhook_url : Option String
  pub webhook_secret : Option String

pub record TenantDoc : Type 0 where
  pub id : String
  pub name : String
  pub email : String
  pub password_hash : String
  pub plan : String
  pub created_at : ℕ
  pub updated_at : ℕ
  pub is_active : Bool
  pub is_suspended : Bool

pub record ProjectDoc : Type 0 where
  pub id : String
  pub tenant_id : String
  pub name : String
  pub description : String
  pub system_prompt : String
  pub gemini_model : String
  pub voice_config : VoiceConfig
  pub vad_config : VadMode
  pub tools : List ToolDefinition
  pub webhook_url : Option String
  pub webhook_secret : Option String
  pub allowed_origins : List String
  pub session_ttl_seconds : ℕ
  pub max_concurrent_sessions : ℕ
  pub rate_limit_rpm : ℕ
  pub created_at : ℕ
  pub updated_at : ℕ
  pub last_accessed : Option ℕ
  pub is_active : Bool

unfoldable pub to_project_config : ProjectDoc → ProjectConfig
to_project_config d = record {
  project_id = d.id;
  tenant_id = d.tenant_id;
  name = d.name;
  system_prompt = d.system_prompt;
  gemini_model = d.gemini_model;
  voice_config = d.voice_config;
  vad_config = d.vad_config;
  tools = d.tools;
  session_ttl_seconds = d.session_ttl_seconds;
  max_concurrent_sessions = d.max_concurrent_sessions;
  rate_limit_rpm = d.rate_limit_rpm;
  allowed_origins = d.allowed_origins;
  webhook_url = d.webhook_url;
  webhook_secret = d.webhook_secret;
}

pub data KeyType : Type 0 where
  publishable secret : KeyType

pub record ApiKeyDoc : Type 0 where
  pub id : String
  pub project_id : String
  pub tenant_id : String
  pub label : String
  pub key_prefix : String
  pub key_hash : String
  pub key_type : KeyType
  pub rate_limit_rpm : ℕ
  pub revoked : Bool
  pub revoked_at : Option ℕ
  pub created_at : ℕ
  pub last_used_at : Option ℕ
  pub expires_at : Option ℕ

abbrev expired : ℕ → Option ℕ → Bool
expired now none = false
expired now (some t) = ltb t now

-- `APIKeyDoc.is_valid` at the time `now`
unfoldable pub is_valid : ℕ → ApiKeyDoc → Bool
is_valid now k = if k.revoked then false else if expired now k.expires_at then false else true

pub record SessionDoc : Type 0 where
  pub id : String
  pub project_id : String
  pub tenant_id : String
  pub api_key_id : String
  pub status : Status
  pub started_at : ℕ
  pub ended_at : ℕ
  pub duration : ℕ
  pub turns : ℕ
  pub tool_calls : ℕ
  pub input_tokens : ℕ
  pub output_tokens : ℕ
  pub error_message : Option String

pub record AuthTokenDoc : Type 0 where
  pub id : String
  pub tenant_id : String
  pub token_hash : String
  pub token_family : String
  pub created_at : ℕ
  pub expires_at : ℕ
