-- ===== src/Tests/Signups.antt =====
-- A tenant that registers and logs in, two that ask for one email, and a key that is issued.
use factn_assistant_service.ApiKeys.{shares_unique, get_by_raw_key, generate_raw_key, take_chars}
use factn_assistant_service.Base.{
  ok, List, if◌then◌else◌, str_eq, ◌≡◌, String, refl, none, [], ◌∷◌, some, false,
}
use factn_assistant_service.Schemas.{publishable, TenantDoc, ApiKeyDoc}
use factn_assistant_service.Tests.Accounts.{
  redis, keys, verify, key, store, tenants, refresh_tokens, libraries, fresh,
}
use factn_assistant_service.PlanLimits.Caps.{IsWithin}
use factn_assistant_service.PlanLimits.{
  get_all_limits, max_rate_limit_rpm, effective_rate_limit_rpm,
}
use factn_assistant_service.KeyApi.{parse_key_type, create_key, CreateKeyRequest}
use factn_assistant_service.Projects.{is_project_of, get_project, is_tenant}
use factn_assistant_service.Tests.Projects.{shop, projects, tenant}
use factn_assistant_service.Texts.{strip_right, strip_left, is_space, cons_stripped, strip}
use factn_assistant_service.KeyApi.Issued.{create_key-get_by_raw_key}
use factn_assistant_service.Services.Server.{change, incr_at, count_at}
use factn_assistant_service.RedisClient.{check_and_increment_rate_limit}
use factn_assistant_service.AccountApi.{
  check_login_rate_limit, signed_in, sign_in, login, register, SignedIn, Libraries, Accounts,
}
use factn_assistant_service.AccessTokens.{
  create_access_token, Jwt, access_claims, get_current_tenant,
}
use factn_assistant_service.Tenants.{new_tenant, has_email, create_tenant}
use factn_assistant_service.AccountApi.Registered.{register-login}
use factn_assistant_service.AuthTokens.{create}
use factn_assistant_service.ApiKeys as ApiKeys

-- One that knows the token of the tenant that has registered.
abbrev new_jwt : Jwt
new_jwt = record {
  encode = λ c. "jwt";
  decode = λ second token.
      if str_eq token "jwt" then some (access_claims "t2" "eve@shop.example" "free" 9) else none;
}

abbrev new_libraries : Libraries
new_libraries = record libraries { jwt = new_jwt }

abbrev new_accounts : Accounts new_libraries redis tenants refresh_tokens
new_accounts = record { tenant_docs = tenant ∷ []; token_docs = []; store = store }

abbrev eve_signed_in : SignedIn
eve_signed_in = record {
  access_token = "jwt";
  refresh_token = "next";
  tenant_id = "t2";
  email = "eve@shop.example";
  name = "Eve";
  plan = "free";
}

register-login_example :
    let w' =
      (register new_libraries redis tenants refresh_tokens "Eve" "eve@shop.example" "secret12" "t2"
        fresh 5 new_accounts).1 in
    let after =
      login new_libraries redis tenants refresh_tokens "10.0.0.1" "eve@shop.example" "secret12"
        fresh 9 w' in
    (b : SignedIn) × (after.0 ≡ ok b)
    × (b.tenant_id ≡ "t2")
    × (b.refresh_token ≡ "next")
    × (t : TenantDoc) × (t.id ≡ "t2")
    × (t.email ≡ strip "eve@shop.example")
    × (get_current_tenant new_jwt tenants (some b.access_token) none 12 after.1.tenant_docs ≡ ok t)
unfolding register create_tenant has_email new_tenant sign_in create signed_in create_access_token
    strip is_tenant strip_right strip_left is_space cons_stripped check_login_rate_limit
    check_and_increment_rate_limit count_at incr_at change
register-login_example =
    register-login new_libraries redis tenants refresh_tokens "Eve" "eve@shop.example" "secret12"
      "t2" fresh 5 new_accounts eve_signed_in "10.0.0.1" fresh none 9 12 refl refl refl refl refl
      refl refl

lower : String → String
lower s = s

abbrev created : List TenantDoc
created = (create_tenant tenants lower "Eve" "eve@shop.example" "t2" 5 []).1

abbrev pub web_key : CreateKeyRequest
web_key = record { label = "web"; key_type = "publishable"; rate_limit_rpm = 500 }

abbrev pub issued : ApiKeyDoc
issued = record {
  id = "k9";
  project_id = "p1";
  tenant_id = "t1";
  label = "web";
  key_prefix = "pk_live_0123";
  key_hash = "pk_live_0123456789";
  key_type = publishable;
  rate_limit_rpm = 30;
  revoked = false;
  revoked_at = none;
  created_at = 7;
  last_used_at = none;
  expires_at = none;
}

create_key-get_by_raw_key_example :
    ((get_by_raw_key keys verify "pk_live_0123456789" 90
        (create_key projects keys
          (λ h. h)
          tenant
          "p1"
          web_key
          "0123456789"
          "k9"
          7
          (shop ∷ [])
          (key ∷ [])).1).0
      ≡ some issued)
    × (issued.project_id ≡ "p1")
    × (issued.tenant_id ≡ "t1")
    × (parse_key_type "publishable" ≡ some issued.key_type)
    × IsWithin issued.rate_limit_rpm (max_rate_limit_rpm "free")
unfolding create_key shares_unique get_project is_project_of parse_key_type ApiKeys.create
    generate_raw_key take_chars effective_rate_limit_rpm max_rate_limit_rpm get_all_limits
create_key-get_by_raw_key_example =
    create_key-get_by_raw_key keys verify projects (λ h. h) tenant "p1" web_key "0123456789" "k9" 7
      90 (shop ∷ []) (key ∷ []) issued "pk_live_0123456789" refl refl (refl, tt)
