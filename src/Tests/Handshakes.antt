-- ===== src/Tests/Handshakes.antt =====
-- A handshake with an API key, and what it does to the sessions of the node.
use factn_assistant_service.Projects.{
  sum_tokens, get_daily_token_usage, is_tenant, get_config, get_tenant,
}
use factn_assistant_service.PlanLimits.{get_all_limits, daily_token_quota}
use factn_assistant_service.Handshake.{
  over_quota, origin_allowed, check_tenant, find_tenant, admit, by_key, resolve_project, connect,
  World,
}
use factn_assistant_service.Schemas.{
  publishable, is_valid, SessionDoc, ProjectDoc, ProjectConfig, TenantDoc, ApiKeyDoc,
}
use factn_assistant_service.Services.Server.{text_at, change, incr_at, count_at, server_redis}
use factn_assistant_service.RedisClient.{
  decode_or_evict, get_project_config, check_and_increment_rate_limit, TokenPayload, Codec,
}
use factn_assistant_service.Handshake.Admission.{resolve_project_admits, Passes, credential_tenant}
use factn_assistant_service.ApiKeys.{take_chars, has_prefix, check_candidates, get_by_raw_key}
use factn_assistant_service.Handshake.Connect.{connect_resumes_any}
use factn_assistant_service.Base.{
  ◌≡◌, eq_iff, str_eq, refl, none, ◌⊎◌, ◌≢◌, ◌∷◌, true, some, [], Bool, ℕ, String, Option, false,
  ok, inl, inr,
}
use mathlib.Core.Bool.{false≢true}
use factn_assistant_service.Tests.{project}
use factn_assistant_service.SessionState.{SessionState, new_session}
use factn_assistant_service.SessionEvents.{non_empty}
use factn_assistant_service.Services.Instances.{list_collection}
use factn_assistant_service.SessionManager.{Slot, Manager}
use factn_assistant_service.Services.{Redis, Collection}
use factn_assistant_service.Base.Dict.{lookup}

abbrev pub Text : Type 0
Text = TokenPayload ⊎ ProjectConfig

abbrev payload_of : Text → Option TokenPayload
payload_of (inl p) = some p
payload_of (inr c) = none

abbrev config_of : Text → Option ProjectConfig
config_of (inl p) = none
config_of (inr c) = some c

abbrev pub redis : Redis Text
redis = server_redis Text

abbrev pub tokens : Codec Text TokenPayload
tokens = record { dumps = λ p. inl p; loads = payload_of; loads-dumps = λ p. refl }

abbrev pub configs : Codec Text ProjectConfig
configs = record { dumps = λ c. inr c; loads = config_of; loads-dumps = λ c. refl }

abbrev pub projects : Collection ProjectDoc
projects = list_collection ProjectDoc

abbrev pub tenants : Collection TenantDoc
tenants = list_collection TenantDoc

abbrev pub records : Collection SessionDoc
records = list_collection SessionDoc

abbrev pub keys : Collection ApiKeyDoc
keys = list_collection ApiKeyDoc

abbrev pub decimal : ℕ → String
decimal n = "0"

abbrev pub verify : String → String → Bool
verify hash raw = str_eq hash raw

abbrev pub tenant : TenantDoc
tenant = record {
  id = "t1";
  name = "Shop";
  email = "shop@example.com";
  password_hash = "x";
  plan = "free";
  created_at = 0;
  updated_at = 0;
  is_active = true;
  is_suspended = false;
}

abbrev key : ApiKeyDoc
key = record {
  id = "k1";
  project_id = "p1";
  tenant_id = "t1";
  label = "web";
  key_prefix = "pk_live_0123";
  key_hash = "pk_live_0123456789";
  key_type = publishable;
  rate_limit_rpm = 60;
  revoked = false;
  revoked_at = none;
  created_at = 0;
  last_used_at = none;
  expires_at = none;
}

-- The project's configuration is in the cache.
abbrev pub world : World redis tokens configs projects tenants records keys decimal verify
world = record {
  store = record { texts = λ k. some (inr project, 1_000); counters = λ _. (0, none) };
  project_docs = [];
  tenant_docs = tenant ∷ [];
  session_docs = [];
  key_docs = key ∷ [];
}

let_in :
    (resolve_project redis tokens configs projects tenants records keys decimal verify
      (some "pk_live_0123456789")
      none
      none
      5_000_000
      world).0
    ≡ ok (project, "k1", "free")
unfolding resolve_project non_empty by_key get_by_raw_key check_candidates has_prefix take_chars
    is_valid admit check_and_increment_rate_limit count_at incr_at change get_config
    get_project_config decode_or_evict text_at find_tenant get_tenant is_tenant check_tenant
    origin_allowed over_quota daily_token_quota get_all_limits get_daily_token_usage sum_tokens
let_in = refl

resolve_project_admits_example :
    (t : TenantDoc) × (tid : String) × (credential_tenant redis tokens configs projects tenants
        records keys decimal verify
        (some "pk_live_0123456789")
        none
        5_000_000
        world
      ≡ some tid)
    × (get_tenant tenants tid (tenant ∷ []) ≡ some t)
    × Passes redis tokens configs projects tenants records keys decimal verify none 5_000_000 []
        project "free" t
resolve_project_admits_example =
    resolve_project_admits redis tokens configs projects tenants records keys decimal verify
      (some "pk_live_0123456789") none none 5_000_000 world project "k1" "free" let_in

abbrev idle_node : Manager
idle_node = record { sessions = []; tasks = []; callbacks = []; next_task = 0 }

-- A session of another project.
abbrev foreign : Slot
foreign = record { state = new_session "s7" "p7" "k7" 5 4_000_000; worker_task = 0 }

abbrev busy_node : Manager
busy_node = record {
  sessions = ("s7", foreign) ∷ [];
  tasks = (0, "s7") ∷ [];
  callbacks = [];
  next_task = 1;
}

apart : foreign.state.project_id ≢ "p1"
unfolding new_session
apart e = absurd (false≢true ((eq_iff "p7" "p1").1 e))

connect_resumes_any_example :
    (s : SessionState) × ((connect redis tokens configs projects tenants records keys decimal verify
        (some "pk_live_0123456789")
        none
        (some "s7")
        none
        "s9"
        10
        5_000_000
        world
        busy_node).0
      ≡ ok s)
    × (s.inbox ≡ foreign.state.inbox)
    × (s.project_id ≢ "p1")
unfolding lookup
connect_resumes_any_example =
    connect_resumes_any redis tokens configs projects tenants records keys decimal verify
      (some "pk_live_0123456789") none none "s7" "s9" "k1" "free" project foreign 10 5_000_000 world
      busy_node let_in refl refl apart
