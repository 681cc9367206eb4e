-- ===== src/PlanLimits/Tiers.antt =====
-- How the plans compare with one another.
use factn_assistant_service.Base.{ℕ, String, ◌≤◌, Option, none, some, arith}
use factn_assistant_service.PlanLimits.{Limits, get_all_limits}

-- `none` is above every number.
abbrev ◌≤limit◌ : Option ℕ → Option ℕ → Type 0
a ≤limit none = Unit
none ≤limit some b = ⊥
some a ≤limit some b = a ≤ b

infix 50 ◌≤limit◌
-- Every limit of the first plan is at most that of the second.
abbrev pub AtMost : Limits → Limits → Type 0
AtMost a b =
    (a.concurrent_sessions ≤limit b.concurrent_sessions)
    × (a.session_ttl_seconds ≤ b.session_ttl_seconds)
    × (a.projects ≤limit b.projects)
    × (a.tools_per_project ≤limit b.tools_per_project)
    × (a.daily_token_quota ≤limit b.daily_token_quota)
    × (a.webhook_timeout_ms ≤ b.webhook_timeout_ms)
    × (a.rate_limit_rpm ≤limit b.rate_limit_rpm)

-- The limits grow along the tiers free, starter, pro, enterprise, and for every plan name, known
-- or not, no limit is below that of the free plan.
pub tiers_ordered :
    (plan : String)
    → AtMost (get_all_limits "free") (get_all_limits plan)
      × AtMost (get_all_limits "free") (get_all_limits "starter")
      × AtMost (get_all_limits "starter") (get_all_limits "pro")
      × AtMost (get_all_limits "pro") (get_all_limits "enterprise")
unfolding get_all_limits
tiers_ordered plan = (ground arith, omega arith, omega arith, omega arith)
