-- ===== src/ProjectApi/Responses.antt =====
-- What the responses of api/projects.py show of a project.
use factn_assistant_service.Base.{ℕ, Option, List, Bool, map, String}
use factn_assistant_service.Schemas.{ProjectDoc, VoiceConfig, VadMode}
use factn_assistant_service.ProjectApi.Toolbox.{ToolResponse, tool_to_response}

-- The entry of a list
pub record ProjectSummary : Type 0 where
  pub project_id : String
  pub name : String
  pub description : String
  pub is_active : Bool
  pub updated_at : ℕ
  pub last_accessed : Option ℕ

unfoldable pub summary_of_project : ProjectDoc → ProjectSummary
summary_of_project d = record {
  project_id = d.id;
  name = d.name;
  description = d.description;
  is_active = d.is_active;
  updated_at = d.updated_at;
  last_accessed = d.last_accessed;
}

-- The whole project, without its webhook secret and those of its tools
pub record ProjectResponse : Type 0 where
  pub project_id : String
  pub tenant_id : String
  pub name : String
  pub description : String
  pub system_prompt : String
  pub gemini_model : String
  pub voice_config : VoiceConfig
  pub vad_config : VadMode
  pub tools : List ToolResponse
  pub webhook_url : Option String
  pub allowed_origins : List String
  pub session_ttl_seconds : ℕ
  pub max_concurrent_sessions : ℕ
  pub rate_limit_rpm : ℕ
  pub is_active : Bool
  pub created_at : ℕ
  pub updated_at : ℕ

unfoldable pub response_of_project : ProjectDoc → ProjectResponse
response_of_project d = record {
  project_id = d.id;
  tenant_id = d.tenant_id;
  name = d.name;
  description = d.description;
  system_prompt = d.system_prompt;
  gemini_model = d.gemini_model;
  voice_config = d.voice_config;
  vad_config = d.vad_config;
  tools = map tool_to_response d.tools;
  webhook_url = d.webhook_url;
  allowed_origins = d.allowed_origins;
  session_ttl_seconds = d.session_ttl_seconds;
  max_concurrent_sessions = d.max_concurrent_sessions;
  rate_limit_rpm = d.rate_limit_rpm;
  is_active = d.is_active;
  created_at = d.created_at;
  updated_at = d.updated_at;
}
