-- ===== src/Tests.antt =====
-- Test data that the runs below share: a project with a webhook, its sessions and its server.
pub mod Plans
pub mod Webhooks
pub mod Tokens
pub mod Sessions
pub mod Clients
pub mod Handshakes
pub mod Schemas
pub mod Projects
pub mod Tools
pub mod Accounts
pub mod Signups
pub mod Quotas
pub mod Starts
pub mod Seeds
pub mod Issued
use factn_assistant_service.Base.{
  ◌*◌, ◌/◌, ◌+◌, zero, suc, String, false, ◌∷◌, some, true, [], ℕ, refl,
}
use factn_assistant_service.SessionEvents.{status_code, exception}
use factn_assistant_service.ToolExecutor.Defs.{value, Reply}
use factn_assistant_service.SessionState.{assistant_text, SessionState}
use factn_assistant_service.Schemas.{auto, ProjectConfig}
use factn_assistant_service.GeminiRunner.Defs.{FunctionCall}
use factn_assistant_service.SessionEvents as Events

abbrev pub project : ProjectConfig
project = record {
  project_id = "p1";
  tenant_id = "t1";
  name = "Shop";
  system_prompt = "Be brief.";
  gemini_model = "gemini-live";
  voice_config = record { enabled = true; voice_name = "Aoede"; language_code = "en-US" };
  vad_config = auto;
  tools = [];
  session_ttl_seconds = 300;
  max_concurrent_sessions = 2;
  rate_limit_rpm = 60;
  allowed_origins = [];
  webhook_url = some "https://shop.example/hook";
  webhook_secret = some "whsec";
}

abbrev pub chat_session : SessionState
chat_session = record {
  session_id = "s1";
  project_id = "p1";
  inbox = [];
  outbox = assistant_text "hello" ∷ [];
  speaker = false;
  last_active = 20;
  started_at = 1_000;
  turns = 3;
  tool_calls = 1;
  input_tokens = 40;
  output_tokens = 60;
  api_key_id = "k1";
}

-- One that is refused and then accepted.
abbrev pub hook : ℕ → Events.Answer
hook zero = exception
hook (suc zero) = status_code 503
hook (suc (suc n)) = status_code 200

abbrev pub sign : Events.Payload → String → String
sign body secret = secret

abbrev pub echo_tool : FunctionCall → Reply
echo_tool fc = value fc.args

-- To the nearest hundredth of a second
abbrev pub round2 : ℕ → ℕ
round2 d = (d + 5_000) / 10_000 * 10_000
