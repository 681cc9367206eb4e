-- ===== src/Tests/Quotas.antt =====
-- A session that uses up the quota of a free tenant, and the handshake after it.
use factn_assistant_service.Base.{
  err, refl, arith, some, leb, ◌&&◌, str_eq, if◌then◌else◌, ◌+◌, [], ◌≡◌, true, ℕ, none, String,
  List,
}
use factn_assistant_service.Handshake.{resolve_project, World}
use factn_assistant_service.Schemas.{is_valid, SessionDoc}
use factn_assistant_service.GeminiRunner.Loop.{session_record, finish, Outcome}
use factn_assistant_service.SessionRecords.{add_session, usage_summary, persist}
use factn_assistant_service.ApiKeys.{take_chars, has_prefix, check_candidates, get_by_raw_key}
use factn_assistant_service.SessionEvents.{non_empty}
use factn_assistant_service.Handshake.Admission.{credential_tenant}
use factn_assistant_service.Projects.{
  sum_tokens, start_of_day, get_daily_token_usage, is_tenant, get_tenant,
}
use factn_assistant_service.PlanLimits.{get_all_limits, daily_token_quota}
use factn_assistant_service.SessionState.{SessionState}
use factn_assistant_service.Tests.Handshakes.{
  redis, tokens, configs, projects, tenants, records, keys, decimal, verify, tenant, world,
}
use factn_assistant_service.Tests.{round2, chat_session, hook, sign, project}
use factn_assistant_service.Handshake.Quota.{finish-resolve_project}
use factn_assistant_service.SessionRecords.Accounting.{finish_counts}
use factn_assistant_service.SessionEvents as Events

abbrev long_session : SessionState
long_session = record chat_session { input_tokens = 6_000; output_tokens = 5_000 }

abbrev closed : Outcome
closed = record { status = Events.closed; error_message = none }

abbrev after : List SessionDoc
after =
    persist records true (finish round2 sign true project closed 2_000 22_000 hook long_session).0
      []

abbrev spent_world : World redis tokens configs projects tenants records keys decimal verify
spent_world = record world { session_docs = after }

finish-resolve_project_example :
    (code : ℕ) × ((resolve_project redis tokens configs projects tenants records keys decimal verify
        (some "pk_live_0123456789")
        none
        none
        5_000_000
        spent_world).0
      ≡ err code)
unfolding get_tenant is_tenant daily_token_quota get_all_limits start_of_day get_daily_token_usage
    sum_tokens credential_tenant non_empty get_by_raw_key check_candidates has_prefix take_chars
    is_valid
finish-resolve_project_example =
    finish-resolve_project redis tokens configs projects tenants records keys decimal verify round2
      sign project closed 2_000 22_000 hook long_session (some "pk_live_0123456789") none none
      5_000_000 world tenant 10_000 refl refl (omega arith) (omega arith) refl

finish_counts_example :
    ((tenant_id : String) (now : ℕ)
      → get_daily_token_usage records tenant_id now after
        ≡ get_daily_token_usage records tenant_id now []
          + (if str_eq "t1" tenant_id && leb (start_of_day now) 1_000 then 6_000 + 5_000 else 0))
    × ((project_id : String) (since : ℕ)
        → usage_summary records project_id since after ≡ (
            if str_eq "p1" project_id && leb since 1_000
            then add_session
                (session_record round2 project closed 22_000 long_session)
                (usage_summary records project_id since [])
            else usage_summary records project_id since []))
finish_counts_example =
    finish_counts records round2 sign project closed 2_000 22_000 hook long_session []
