-- ===== src/PlanLimits.antt =====
-- core/plan_limits.py: the limits of each plan and the helpers that enforce them.
-- A limit is a natural number; `none` is Python's None, which means unlimited.
pub mod Caps
pub mod Tiers
use factn_assistant_service.Base.{
  ℕ, String, Bool, true, Option, none, some, min, ltb, str_eq, if◌then◌else◌,
}

-- One entry of `PLAN_LIMITS`; the two fields that no plan leaves unlimited are plain numbers.
pub record Limits : Type 0 where
  pub concurrent_sessions : Option ℕ
  pub session_ttl_seconds : ℕ
  pub projects : Option ℕ
  pub tools_per_project : Option ℕ
  pub daily_token_quota : Option ℕ
  pub webhook_timeout_ms : ℕ
  pub rate_limit_rpm : Option ℕ

abbrev pub free_limits : Limits
free_limits = record {
  concurrent_sessions = some 2;
  session_ttl_seconds = 60;
  projects = some 1;
  tools_per_project = some 3;
  daily_token_quota = some 10_000;
  webhook_timeout_ms = 3_000;
  rate_limit_rpm = some 30;
}

abbrev pub starter_limits : Limits
starter_limits = record {
  concurrent_sessions = some 20;
  session_ttl_seconds = 300;
  projects = some 5;
  tools_per_project = some 10;
  daily_token_quota = some 500_000;
  webhook_timeout_ms = 5_000;
  rate_limit_rpm = some 120;
}

abbrev pub pro_limits : Limits
pro_limits = record {
  concurrent_sessions = some 100;
  session_ttl_seconds = 1_800;
  projects = some 25;
  tools_per_project = some 30;
  daily_token_quota = some 5_000_000;
  webhook_timeout_ms = 15_000;
  rate_limit_rpm = some 600;
}

abbrev pub enterprise_limits : Limits
enterprise_limits = record {
  concurrent_sessions = none;
  session_ttl_seconds = 86_400;
  projects = none;
  tools_per_project = none;
  daily_token_quota = none;
  webhook_timeout_ms = 30_000;
  rate_limit_rpm = none;
}

-- `PLAN_LIMITS.get(plan, PLAN_LIMITS[_FALLBACK_PLAN])`. Every entry has every field, so the
-- second fallback, that of `_get` for a field which is absent, is never taken.
unfoldable pub get_all_limits : String → Limits
get_all_limits plan =
    if str_eq plan "free"
    then free_limits
    else if str_eq plan "starter"
    then starter_limits
    else if str_eq plan "pro"
    then pro_limits
    else if str_eq plan "enterprise"
    then enterprise_limits
    else free_limits

unfoldable pub max_concurrent_sessions : String → Option ℕ
max_concurrent_sessions plan = (get_all_limits plan).concurrent_sessions

unfoldable pub max_session_ttl_seconds : String → ℕ
max_session_ttl_seconds plan = (get_all_limits plan).session_ttl_seconds

unfoldable pub max_projects : String → Option ℕ
max_projects plan = (get_all_limits plan).projects

unfoldable pub max_tools_per_project : String → Option ℕ
max_tools_per_project plan = (get_all_limits plan).tools_per_project

unfoldable pub daily_token_quota : String → Option ℕ
daily_token_quota plan = (get_all_limits plan).daily_token_quota

unfoldable pub max_webhook_timeout_ms : String → ℕ
max_webhook_timeout_ms plan = (get_all_limits plan).webhook_timeout_ms

unfoldable pub max_rate_limit_rpm : String → Option ℕ
max_rate_limit_rpm plan = (get_all_limits plan).rate_limit_rpm

-- `if limit is None: return True`, then `current_count < limit`
abbrev below_limit : Option ℕ → ℕ → Bool
below_limit none current_count = true
below_limit (some limit) current_count = ltb current_count limit

unfoldable pub is_within_concurrent_sessions : String → ℕ → Bool
is_within_concurrent_sessions plan current_count =
    below_limit (max_concurrent_sessions plan) current_count

unfoldable pub is_within_project_limit : String → ℕ → Bool
is_within_project_limit plan current_count = below_limit (max_projects plan) current_count

unfoldable pub is_within_tool_limit : String → ℕ → Bool
is_within_tool_limit plan current_count = below_limit (max_tools_per_project plan) current_count

unfoldable pub effective_session_ttl : String → ℕ → ℕ
effective_session_ttl plan requested_ttl = min requested_ttl (max_session_ttl_seconds plan)

unfoldable pub effective_webhook_timeout_ms : String → ℕ → ℕ
effective_webhook_timeout_ms plan requested_ms = min requested_ms (max_webhook_timeout_ms plan)

abbrev capped : Option ℕ → ℕ → ℕ
capped none requested = requested
capped (some limit) requested = min requested limit

unfoldable pub effective_rate_limit_rpm : String → ℕ → ℕ
effective_rate_limit_rpm plan requested_rpm = capped (max_rate_limit_rpm plan) requested_rpm
