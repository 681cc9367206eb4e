-- ===== src/Tests/Issued.antt =====
-- A key that is issued and then brought to the handshake.
use factn_assistant_service.ApiKeys.{shares_unique, take_chars, generate_raw_key}
use factn_assistant_service.Projects.{
  sum_tokens, get_daily_token_usage, is_tenant, get_tenant, get_config, is_project_of, get_project,
}
use factn_assistant_service.Base.{refl, ok, ◌≡◌, none, some, [], ◌∷◌}
use factn_assistant_service.PlanLimits.{
  daily_token_quota, get_all_limits, max_rate_limit_rpm, effective_rate_limit_rpm,
}
use factn_assistant_service.Handshake.{over_quota, origin_allowed, resolve_project, World}
use factn_assistant_service.Services.Server.{text_at, change, incr_at, count_at}
use factn_assistant_service.RedisClient.{
  decode_or_evict, get_project_config, check_and_increment_rate_limit,
}
use factn_assistant_service.KeyApi.{parse_key_type, create_key}
use factn_assistant_service.Tests.Handshakes.{
  redis, tokens, configs, projects, tenants, records, keys, decimal, verify, tenant, world,
}
use factn_assistant_service.Tests.Projects.{shop}
use factn_assistant_service.Tests.Signups.{web_key, issued}
use factn_assistant_service.Tests.{project}
use factn_assistant_service.Handshake.LetsIn.{create_key-resolve_project, IsWelcome}
use factn_assistant_service.ApiKeys as Keys

abbrev open_world : World redis tokens configs projects tenants records keys decimal verify
open_world = record world { project_docs = shop ∷ []; key_docs = [] }

issued-IsWelcome :
    IsWelcome redis tokens configs projects tenants records keys decimal verify issued none
      5_000_000 open_world project tenant
unfolding check_and_increment_rate_limit count_at incr_at change get_config get_project_config
    decode_or_evict text_at get_tenant is_tenant origin_allowed over_quota daily_token_quota
    get_all_limits get_daily_token_usage sum_tokens
issued-IsWelcome = record {
  within_rate = refl;
  has_config = refl;
  has_tenant = refl;
  origin_fits = refl;
  in_good_standing = refl;
  within_quota = refl;
}

create_key-resolve_project_example :
    (resolve_project redis tokens configs projects tenants records keys decimal verify
      (some "pk_live_0123456789")
      none
      none
      5_000_000
      (record open_world {
        key_docs =
            (create_key projects keys
              (λ h. h)
              tenant
              "p1"
              web_key
              "0123456789"
              "k9"
              7
              (shop ∷ [])
              []).1;
      })).0
    ≡ ok (project, "k9", "free")
unfolding create_key shares_unique get_project is_project_of parse_key_type Keys.create
    generate_raw_key take_chars effective_rate_limit_rpm max_rate_limit_rpm get_all_limits
create_key-resolve_project_example =
    create_key-resolve_project redis tokens configs projects tenants records keys decimal verify
      (λ h. h) tenant "p1" web_key "0123456789" "k9" 7 5_000_000 open_world issued
      "pk_live_0123456789" none project tenant refl refl tt issued-IsWelcome
