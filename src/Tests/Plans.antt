-- ===== src/Tests/Plans.antt =====
-- The plan limits at plan names that exist and at one that does not.
use factn_assistant_service.PlanLimits.{
  max_session_ttl_seconds, get_all_limits, max_projects, effective_session_ttl,
}
use factn_assistant_service.Base.{◌≡◌, some, refl}

unknown_plan_is_free : max_projects "gold" ≡ some 1
unfolding max_projects get_all_limits
unknown_plan_is_free = refl

ttl_is_capped : effective_session_ttl "starter" 600 ≡ 300
unfolding effective_session_ttl max_session_ttl_seconds get_all_limits
ttl_is_capped = refl
