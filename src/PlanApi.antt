-- ===== src/PlanApi.antt =====
-- The routes of api/plans.py: views of the table of plans.
use factn_assistant_service.Base.{[], ◌∷◌, String, List}
use factn_assistant_service.PlanLimits.{
  Limits, get_all_limits, free_limits, starter_limits, pro_limits, enterprise_limits,
}
use factn_assistant_service.Schemas.{TenantDoc}

-- A plan's name and its limits
pub record PlanResponse : Type 0 where
  pub name : String
  pub limits : Limits

-- In the order of the table
unfoldable pub list_plans : List PlanResponse
list_plans =
    record { name = "free"; limits = free_limits }
    ∷ record { name = "starter"; limits = starter_limits }
    ∷ record { name = "pro"; limits = pro_limits }
    ∷ record { name = "enterprise"; limits = enterprise_limits }
    ∷ []

unfoldable pub get_current_plan : TenantDoc → PlanResponse
get_current_plan tenant = record { name = tenant.plan; limits = get_all_limits tenant.plan }
