-- ===== src/AccountApi.antt =====
-- The routes of api/auth.py: register, login, refresh, logout and me. A refusal is the HTTP status.
-- Times are whole microseconds; refresh tokens and Redis count whole seconds.
pub mod Logout
pub mod Registered
use factn_assistant_service.Base.{
  ◌/◌, some, ok, str_append, none, err, if◌then◌else◌, Result, Bool, ℕ, String, Option,
}
use factn_assistant_service.Texts.{strip}
use factn_assistant_service.AccessTokens.{
  Jwt, create_access_token, get_current_tenant, active_tenant,
}
use factn_assistant_service.AuthTokens.{Fresh, verify_and_rotate, revoke_for_tenant, create}
use factn_assistant_service.Tenants.{create_tenant, get_by_email, update_password_hash}
use factn_assistant_service.RedisClient.{check_and_increment_rate_limit}
use factn_assistant_service.PlanLimits.{Limits, get_all_limits}
use factn_assistant_service.Projects.{get_tenant, microseconds}
use factn_assistant_service.Schemas.{TenantDoc, AuthTokenDoc}
use factn_assistant_service.Services.{Collection, Redis}
use factn_assistant_service.SessionEvents.{non_empty}

-- The libraries that the routes call: two argon2 hashers, for passwords and for refresh tokens, the
-- tokens' library, Python's `str.lower` and the decimal text of a number.
pub record Libraries : Type 0 where
  pub jwt : Jwt
  pub hash_password : String → String
  pub verify_password : String → String → Bool
  pub needs_rehash : String → Bool
  pub hash_token : String → String
  pub verify_token : String → String → Bool
  pub lower : String → String
  pub decimal : ℕ → String

-- An `AuthResponse`, and the refresh token: the response sets both tokens as cookies.
pub record SignedIn : Type 0 where
  pub access_token : String
  pub refresh_token : String
  pub tenant_id : String
  pub email : String
  pub name : String
  pub plan : String

-- The profile that `me` shows
pub record TenantProfile : Type 0 where
  pub tenant_id : String
  pub email : String
  pub name : String
  pub plan : String
  pub is_suspended : Bool
  pub created_at : ℕ
  pub plan_limits : Limits

unfoldable pub signed_in : Libraries → TenantDoc → String → ℕ → SignedIn
signed_in lib tenant refresh_token now = record {
  access_token = create_access_token lib.jwt tenant now;
  refresh_token = refresh_token;
  tenant_id = tenant.id;
  email = tenant.email;
  name = tenant.name;
  plan = tenant.plan;
}

unfoldable pub me : TenantDoc → TenantProfile
me tenant = record {
  tenant_id = tenant.id;
  email = tenant.email;
  name = tenant.name;
  plan = tenant.plan;
  is_suspended = tenant.is_suspended;
  created_at = tenant.created_at;
  plan_limits = get_all_limits tenant.plan;
}

module _ (lib : Libraries) {V : Type 0} (redis : Redis V) (tenants : Collection TenantDoc)
    (tokens : Collection AuthTokenDoc) where
  pub record Accounts : Type 0 where
    pub tenant_docs : tenants.State
    pub token_docs : tokens.State
    pub store : redis.Store

  -- A new refresh token of the tenant, in a new family, and the answer with both tokens
  unfoldable pub sign_in : TenantDoc → Fresh → ℕ → Accounts → Result ℕ SignedIn × Accounts
  sign_in tenant fresh now w =
      let (issued, s) =
        create tokens lib.hash_token tenant.id none fresh (now / microseconds) w.token_docs in
      (ok (signed_in lib tenant issued.1 now), record w { token_docs = s })

  unfoldable pub register :
      String → String → String → String → Fresh → ℕ → Accounts → Result ℕ SignedIn × Accounts
  register name email password new_id fresh now w =
      let (created, s) =
        create_tenant tenants lib.lower (strip name) (lib.lower email) new_id now w.tenant_docs in
      elim created [
        | none ↦ (err 409, record w { tenant_docs = s })
        | some tenant ↦ sign_in tenant fresh now (record w {
          tenant_docs =
              (update_password_hash tenants tenant.id (lib.hash_password password) now s).1;
        })
      ]

  -- `_check_login_rate_limit`, with the address of the client or "unknown"
  unfoldable pub check_login_rate_limit : String → ℕ → redis.Store → Bool × redis.Store
  check_login_rate_limit client_ip now r =
      let (verdict, r') =
        check_and_increment_rate_limit redis lib.decimal (str_append "login:" client_ip) 10 60
          (now / microseconds) r in
      (verdict.0, r')

  -- The tenant that the credentials are of
  unfoldable pub check_credentials : String → String → Accounts → Result ℕ TenantDoc
  check_credentials email password w =
      elim (active_tenant (get_by_email tenants lib.lower email w.tenant_docs)) [
        | err code ↦ err code
        | ok tenant ↦
            if lib.verify_password password tenant.password_hash then ok tenant else err 401
      ]

  -- A hash with old parameters is replaced on login.
  unfoldable pub upgrade_hash : TenantDoc → String → ℕ → tenants.State → tenants.State
  upgrade_hash tenant password now s =
      if lib.needs_rehash tenant.password_hash
      then (update_password_hash tenants tenant.id (lib.hash_password password) now s).1
      else s

  unfoldable pub login :
      String → String → String → Fresh → ℕ → Accounts → Result ℕ SignedIn × Accounts
  login client_ip email password fresh now w =
      let (allowed, r) = check_login_rate_limit client_ip now w.store in
      let w' = record w { store = r } in
      if allowed
      then (elim (check_credentials email password w') [
        | err code ↦ (err code, w')
        | ok tenant ↦
            sign_in tenant fresh now
              (record w' { tenant_docs = upgrade_hash tenant password now w'.tenant_docs })
      ])
      else (err 429, w')

  -- `refresh` with the cookie of the request
  unfoldable pub refresh : Option String → Fresh → ℕ → Accounts → Result ℕ SignedIn × Accounts
  refresh cookie fresh now w = elim (non_empty cookie) [
    | none ↦ (err 401, w)
    | some raw_refresh ↦
        let (rotated, s) =
          verify_and_rotate tokens lib.hash_token lib.verify_token raw_refresh none fresh
            (now / microseconds) w.token_docs in
        let w' = record w { token_docs = s } in
        elim rotated [
          | none ↦ (err 401, w')
          | some (new_doc, new_refresh_token) ↦
              elim (active_tenant (get_tenant tenants new_doc.tenant_id w'.tenant_docs)) [
                | err code ↦ (err code, w')
                | ok tenant ↦ (ok (signed_in lib tenant new_refresh_token now), w')
              ]
        ]
  ]

  -- `logout` by the tenant that the request's token is of
  unfoldable pub logout :
      Option String → Option String → ℕ → Accounts → Result ℕ TenantDoc × Accounts
  logout header cookie now w =
      elim (get_current_tenant lib.jwt tenants header cookie now w.tenant_docs) [
        | err code ↦ (err code, w)
        | ok tenant ↦ (
          ok tenant,
          record w { token_docs = (revoke_for_tenant tokens tenant.id w.token_docs).1 },
        )
      ]
