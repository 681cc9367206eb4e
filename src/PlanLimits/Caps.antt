-- ===== src/PlanLimits/Caps.antt =====
-- What the enforcement helpers promise for every plan name, known or not.
use factn_assistant_service.Base.{
  ap, inr, ◌⊎◌, inl, ℕ, String, ◌+◌, ◌≤◌, ◌≡◌, refl, ◌↔◌, true, Option, none, some, arith, min,
}
use native.Mathlib.Decide.{dec_lt}
use factn_assistant_service.PlanLimits.{
  effective_session_ttl, effective_webhook_timeout_ms, effective_rate_limit_rpm,
  max_session_ttl_seconds, max_webhook_timeout_ms, max_rate_limit_rpm, max_concurrent_sessions,
  max_projects, max_tools_per_project, is_within_concurrent_sessions, is_within_project_limit,
  is_within_tool_limit, below_limit, capped,
}

-- A value is within a limit that may be absent.
abbrev pub IsWithin : ℕ → Option ℕ → Type 0
IsWithin n none = Unit
IsWithin n (some limit) = n ≤ limit

-- A value that is neither above the request nor above the limit, and is one of the two.
abbrev pub IsCapOf : ℕ → ℕ → Option ℕ → Type 0
IsCapOf r requested limit =
    (r ≤ requested) × IsWithin r limit × ((r ≡ requested) ⊎ (some r ≡ limit))

min-IsCapOf : (requested limit : ℕ) → IsCapOf (min requested limit) requested (some limit)
min-IsCapOf requested limit = elim (dec_lt limit requested) [
  | yes above ↦
      let is_limit : min requested limit ≡ limit = omega arith in
      (omega arith, omega arith, inr (ap some is_limit))
  | no below ↦ (omega arith, omega arith, inl (omega arith))
]

capped-IsCapOf :
    (limit : Option ℕ) (requested : ℕ) → IsCapOf (capped limit requested) requested limit
capped-IsCapOf none requested = (omega arith, tt, inl refl)
capped-IsCapOf (some limit) requested = min-IsCapOf requested limit

-- For every plan name and every request, the effective session TTL, webhook timeout and rate limit
-- each exceed neither the request nor the plan's limit, and are one of the two.
pub effective_values_caps :
    (plan : String) (requested : ℕ)
    → IsCapOf (effective_session_ttl plan requested) requested (some (max_session_ttl_seconds plan))
      × IsCapOf
          (effective_webhook_timeout_ms plan requested)
          requested
          (some (max_webhook_timeout_ms plan))
      × IsCapOf (effective_rate_limit_rpm plan requested) requested (max_rate_limit_rpm plan)
unfolding effective_session_ttl effective_webhook_timeout_ms effective_rate_limit_rpm
effective_values_caps plan requested = (
  min-IsCapOf requested (max_session_ttl_seconds plan),
  min-IsCapOf requested (max_webhook_timeout_ms plan),
  capped-IsCapOf (max_rate_limit_rpm plan) requested,
)

below_limit_iff : (limit : Option ℕ) (n : ℕ) → (below_limit limit n ≡ true) ↔ IsWithin (n + 1) limit
below_limit_iff none n = (λ _. tt, λ _. refl)
below_limit_iff (some limit) n = ground arith

-- For every plan name and count, each of the three admission tests passes exactly when one more
-- item keeps the count within the plan's limit, an absent limit admitting every count.
pub admission_tests_iff :
    (plan : String) (n : ℕ)
    → ((is_within_concurrent_sessions plan n ≡ true)
        ↔ IsWithin (n + 1) (max_concurrent_sessions plan))
      × ((is_within_project_limit plan n ≡ true) ↔ IsWithin (n + 1) (max_projects plan))
      × ((is_within_tool_limit plan n ≡ true) ↔ IsWithin (n + 1) (max_tools_per_project plan))
unfolding is_within_concurrent_sessions is_within_project_limit is_within_tool_limit
admission_tests_iff plan n = (
  below_limit_iff (max_concurrent_sessions plan) n,
  below_limit_iff (max_projects plan) n,
  below_limit_iff (max_tools_per_project plan) n,
)
