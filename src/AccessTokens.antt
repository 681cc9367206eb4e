-- ===== src/AccessTokens.antt =====
-- core/auth.py and api/dependencies.py: the access tokens, and the tenant that a request is made by.
-- `Jwt` stands for the library that signs and checks tokens with the server's secret. Times are whole
-- microseconds; a token counts seconds.
use factn_assistant_service.Base.{
  str_eq, ok, ◌+◌, if◌then◌else◌, false, err, ◌/◌, some, none, Result, Bool, ℕ, String, Option,
}
use factn_assistant_service.SessionEvents.{non_empty}
use factn_assistant_service.Schemas.{TenantDoc}
use factn_assistant_service.Services.{Collection}
use factn_assistant_service.Projects.{get_tenant, microseconds}

-- The claims of a payload, `none` for those that it does not have.
pub record Claims : Type 0 where
  pub sub : Option String
  pub email : Option String
  pub plan : Option String
  pub token_type : Option String
  pub iat : ℕ
  pub exp : ℕ

-- `jwt.encode` and `jwt.decode` with the server's secret, at a second. `none` is JWTError.
pub record Jwt : Type 0 where
  pub encode : Claims → String
  pub decode : ℕ → String → Option Claims

-- fifteen minutes
abbrev pub access_token_seconds : ℕ
access_token_seconds = 900

unfoldable pub access_claims : String → String → String → ℕ → Claims
access_claims tenant_id email plan now = record {
  sub = some tenant_id;
  email = some email;
  plan = some plan;
  token_type = some "access";
  iat = now / microseconds;
  exp = now / microseconds + access_token_seconds;
}

unfoldable pub create_access_token : Jwt → TenantDoc → ℕ → String
create_access_token jwt tenant now =
    jwt.encode (access_claims tenant.id tenant.email tenant.plan now)

-- `payload.get("type") != "access"`
unfoldable pub is_access : Option String → Bool
is_access none = false
is_access (some t) = str_eq t "access"

unfoldable pub decode_access_token : Jwt → String → ℕ → Option Claims
decode_access_token jwt token now = elim (jwt.decode (now / microseconds) token) [
  | none ↦ none
  | some payload ↦ if is_access payload.token_type then some payload else none
]

-- `payload.get("sub", "")`
unfoldable pub subject : Claims → String
subject payload = elim payload.sub [ none ↦ "" | some tenant_id ↦ tenant_id ]

-- The header's token where it has one, and else the cookie: an empty token counts as none.
unfoldable pub request_token : Option String → Option String → Option String
request_token header cookie = elim (non_empty header) [
  | some token ↦ some token
  | none ↦ non_empty cookie
]

-- `tenant is None or not tenant.is_active`
unfoldable pub active_tenant : Option TenantDoc → Result ℕ TenantDoc
active_tenant none = err 401
active_tenant (some tenant) = if tenant.is_active then ok tenant else err 401

module _ (jwt : Jwt) (tenants : Collection TenantDoc) where
  unfoldable pub get_current_tenant :
      Option String → Option String → ℕ → tenants.State → Result ℕ TenantDoc
  get_current_tenant header cookie now s = elim (request_token header cookie) [
    | none ↦ err 401
    | some raw_token ↦ elim (decode_access_token jwt raw_token now) [
      | none ↦ err 401
      | some payload ↦ active_tenant (get_tenant tenants (subject payload) s)
    ]
  ]
