-- ===== src/Tests/Accounts.antt =====
-- A token that is rotated, and a tenant that logs out.
use factn_assistant_service.Projects.{get_tenant, is_tenant}
use factn_assistant_service.Tests.Projects.{projects, tenant}
use factn_assistant_service.Services.Server.{left_at, text_at, server_redis, Server}
use factn_assistant_service.RedisClient.{
  clamp_ttl, create_ephemeral_token, redeem_ephemeral_token, loads_raw, get_ephemeral_token_ttl,
  peek_ephemeral_token, Codec, TokenPayload,
}
use factn_assistant_service.AccountApi.{Libraries, Accounts, logout, refresh}
use factn_assistant_service.AccessTokens.{
  Jwt, Claims, access_claims, get_current_tenant, request_token, decode_access_token, is_access,
  active_tenant, subject,
}
use factn_assistant_service.Base.{
  if◌then◌else◌, err, str_eq, arith, Bool, ◌≡◌, String, refl, none, [], ◌⊎◌, ◌∷◌, some, inr, inl,
  false, Option,
}
use factn_assistant_service.AuthTokens.{Fresh}
use factn_assistant_service.TokenApi.{mint, replace_token, rotate_for_key, RotateTokenResponse}
use factn_assistant_service.Tests.{project}
use factn_assistant_service.Services.Instances.{list_collection}
use factn_assistant_service.Services.{Redis, Collection}
use factn_assistant_service.Schemas.{ProjectConfig, TenantDoc, ApiKeyDoc, AuthTokenDoc, secret}
use factn_assistant_service.TokenApi.Rotate.{rotate_for_key-tokens, after_rotation}
use factn_assistant_service.AccountApi.Logout.{logout-refresh}
use factn_assistant_service.SessionEvents.{non_empty}

abbrev pub Text : Type 0
Text = TokenPayload ⊎ ProjectConfig

abbrev payload_of : Text → Option TokenPayload
payload_of (inl p) = some p
payload_of (inr c) = none

abbrev config_of : Text → Option ProjectConfig
config_of (inl p) = none
config_of (inr c) = some c

abbrev pub redis : Redis Text
redis = server_redis Text

abbrev pub tokens : Codec Text TokenPayload
tokens = record { dumps = λ p. inl p; loads = payload_of; loads-dumps = λ p. refl }

abbrev pub configs : Codec Text ProjectConfig
configs = record { dumps = λ c. inr c; loads = config_of; loads-dumps = λ c. refl }

abbrev pub keys : Collection ApiKeyDoc
keys = list_collection ApiKeyDoc

abbrev pub verify : String → String → Bool
verify hash raw = str_eq hash raw

abbrev pub key : ApiKeyDoc
key = record {
  id = "k1";
  project_id = "p1";
  tenant_id = "t1";
  label = "server";
  key_prefix = "sk_live_1";
  key_hash = "sk_live_123";
  key_type = secret;
  rate_limit_rpm = 60;
  revoked = false;
  revoked_at = none;
  created_at = 0;
  last_used_at = none;
  expires_at = none;
}

abbrev old_payload : TokenPayload
old_payload = record {
  project_id = "p1";
  tenant_id = "t1";
  api_key_id = "k1";
  rate_limit_rpm = 60;
  issued_at = 1;
  expires_at = 61;
  metadata = ("user", "7") ∷ [];
}

abbrev pub store : Server Text
store = record { texts = λ _. some (inl old_payload, 61); counters = λ _. (0, none) }

abbrev answer : RotateTokenResponse
answer = record {
  ephemeral_token = "new";
  expires_at = 63;
  ttl_seconds = 60;
  project_id = "p1";
  previous_remaining_ttl = 59;
}

rotate_for_key-tokens_example :
    (answer.project_id ≡ "p1")
    × (p : TokenPayload) × (peek_ephemeral_token redis tokens "old" 2 store ≡ some p)
    × (p.project_id ≡ "p1")
    × (peek_ephemeral_token redis tokens "new" 30
          (rotate_for_key redis tokens configs projects keys verify key project "old" 60 "new"
            2_000_000 3_000_000
            (λ r. r)
            store).1
        ≡ after_rotation redis tokens configs projects keys verify key project "old" 60 p.metadata
            "new" 3_000_000 30 "new"
            (peek_ephemeral_token redis tokens "new" 30 store))
unfolding rotate_for_key get_ephemeral_token_ttl left_at peek_ephemeral_token loads_raw text_at
    replace_token redeem_ephemeral_token mint create_ephemeral_token clamp_ttl
rotate_for_key-tokens_example =
    rotate_for_key-tokens redis tokens configs projects keys verify key project "old" 60 "new"
      2_000_000 3_000_000 30 "new" (λ r. r) store answer (omega arith) refl

abbrev pub tenants : Collection TenantDoc
tenants = list_collection TenantDoc

abbrev pub refresh_tokens : Collection AuthTokenDoc
refresh_tokens = list_collection AuthTokenDoc

abbrev access : Claims
access = access_claims "t1" "ada@shop.example" "free" 0

-- One that knows a single token.
abbrev jwt : Jwt
jwt = record {
  encode = λ c. "jwt";
  decode = λ second token. if str_eq token "jwt" then some access else none;
}

abbrev pub libraries : Libraries
libraries = record {
  jwt = jwt;
  hash_password = λ p. p;
  verify_password = str_eq;
  needs_rehash = λ h. false;
  hash_token = λ t. t;
  verify_token = str_eq;
  lower = λ s. s;
  decimal = λ n. "1";
}

abbrev stored : AuthTokenDoc
stored = record {
  id = "r1";
  tenant_id = "t1";
  token_hash = "refresh";
  token_family = "f1";
  created_at = 0;
  expires_at = 604_800;
}

abbrev accounts : Accounts libraries redis tenants refresh_tokens
accounts = record { tenant_docs = tenant ∷ []; token_docs = stored ∷ []; store = store }

abbrev pub fresh : Fresh
fresh = record { raw_token = "next"; doc_id = "r2"; family = "f2" }

logout-refresh_example :
    let w' = (logout libraries redis tenants refresh_tokens (some "jwt") none 5 accounts).1 in
    refresh libraries redis tenants refresh_tokens (some "refresh") fresh 9 w' ≡ (err 401, w')
unfolding logout get_current_tenant request_token non_empty decode_access_token is_access
    access_claims active_tenant get_tenant is_tenant subject
logout-refresh_example =
    logout-refresh libraries redis tenants refresh_tokens (some "jwt") none 5 9 "refresh" fresh
      tenant accounts refl ((λ e. refl), tt)
