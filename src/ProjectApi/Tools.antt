-- ===== src/ProjectApi/Tools.antt =====
-- The tools of a project as the tool routes of api/projects.py keep them.
use factn_assistant_service.Base.{
  ok_inj, eq_iff, ap, sym, ok_ne_err, length-append, count_if-append, inr, inl, none, Bool-cases,
  ◌∷◌, arith, ◌≤◌, ◌++◌, true, some, ok, length, false, ◌≡◌, count_if, any_of, [], Option, All, ℕ,
  String, List,
}
use factn_assistant_service.Services.Lists.{count_if-any, All-append}
use factn_assistant_service.ToolSchema.{valid, validate_tool_parameters}
use factn_assistant_service.ToolExecutor.Defs.{ExecutionMode, ToolDefinition}
use factn_assistant_service.ProjectApi.Requests.{
  CreateToolRequest, has_fields_for, validate_create, matches_name,
}
use factn_assistant_service.ProjectApi.Toolbox.{is_named, new_tool, add_to}
use factn_assistant_service.ProjectApi.Accepted.{validate_create-ok}
use factn_assistant_service.PlanLimits.{
  max_webhook_timeout_ms, max_tools_per_project, is_within_tool_limit,
}
use factn_assistant_service.PlanLimits.Caps.{IsWithin, admission_tests_iff, effective_values_caps}

-- A tool that the executor can run: a good name, parameters that the schema check accepts, what its
-- mode needs, and a timeout within the plan's.
abbrev pub IsTool : String → ToolDefinition → Type 0
IsTool plan t =
    (matches_name t.name ≡ true)
    × (validate_tool_parameters t.parameters ≡ valid)
    × (has_fields_for t.execution_mode t.static_response t.webhook_url ≡ true)
    × (t.timeout_ms ≤ max_webhook_timeout_ms plan)

abbrev pub HasDistinctNames : List ToolDefinition → Type 0
HasDistinctNames tools = (name : String) → count_if (is_named name) tools ≤ 1

-- Good tools with distinct names, no more than the plan allows
abbrev pub IsToolbox : String → List ToolDefinition → Type 0
IsToolbox plan tools =
    All (IsTool plan) tools
    × HasDistinctNames tools
    × IsWithin (length tools) (max_tools_per_project plan)

pub empty-IsToolbox : (plan : String) → IsToolbox plan []
unfolding max_tools_per_project
empty-IsToolbox plan = (tt, (λ name. omega arith), within (max_tools_per_project plan))
  where
    within : (limit : Option ℕ) → IsWithin 0 limit
    within none = tt
    within (some limit) = omega arith

new_tool-IsTool :
    (plan : String) (b : CreateToolRequest) (mode : ExecutionMode)
    → validate_create b ≡ ok mode
    → IsTool plan (new_tool plan b mode)
unfolding new_tool
new_tool-IsTool plan b mode accepted =
    let (parameters_ok, name_ok, timeout_ok, fields_ok) = validate_create-ok b mode accepted in
    (name_ok, parameters_ok, fields_ok, (effective_values_caps plan b.timeout_ms).1.1)

-- The length of a list that does not grow stays within a limit.
pub IsWithin-le : (n m : ℕ) (limit : Option ℕ) → n ≤ m → IsWithin m limit → IsWithin n limit
IsWithin-le n m none h w = tt
IsWithin-le n m (some limit) h w = omega arith

IsAdded :
    String → CreateToolRequest → ExecutionMode → List ToolDefinition → List ToolDefinition → Type 0
IsAdded plan b mode tools tools' =
    (any_of (is_named b.name) tools ≡ false)
    × (is_within_tool_limit plan (length tools) ≡ true)
    × (tools' ≡ tools ++ new_tool plan b mode ∷ [])

add_to-ok :
    (plan : String) (b : CreateToolRequest) (mode : ExecutionMode) (tools : List ToolDefinition)
    (r : ToolDefinition × List ToolDefinition)
    → add_to plan b mode tools ≡ ok r
    → IsAdded plan b mode tools r.1
unfolding add_to IsAdded
add_to-ok plan b mode tools r done =
    let new = new_tool plan b mode in
    elim (Bool-cases (any_of (is_named b.name) tools)) [
      | inl taken ↦ absurd (ok_ne_err r 409 (sym (rw (taken, add_to) at done)))
      | inr free ↦ elim (Bool-cases (is_within_tool_limit plan (length tools))) [
        | inl fits ↦ (
          free,
          fits,
          sym (ap (λ x. x.1) (ok_inj (new, tools ++ new ∷ []) r (rw (free, fits, add_to) at done))),
        )
        | inr full ↦ absurd (ok_ne_err r 403 (sym (rw (free, full, add_to) at done)))
      ]
    ]

added-HasDistinctNames :
    (plan : String) (b : CreateToolRequest) (mode : ExecutionMode) (tools : List ToolDefinition)
    → any_of (is_named b.name) tools ≡ false
    → HasDistinctNames tools
    → HasDistinctNames (tools ++ new_tool plan b mode ∷ [])
unfolding is_named new_tool
added-HasDistinctNames plan b mode tools free distinct name = ground (
  arith,
  count_if-append (is_named name) tools (new_tool plan b mode ∷ []),
  eq_iff b.name name,
  distinct name,
  count_if-any (is_named b.name) tools free,
)

pub add_to-IsToolbox :
    (plan : String) (b : CreateToolRequest) (mode : ExecutionMode) (tools : List ToolDefinition)
    (r : ToolDefinition × List ToolDefinition)
    → validate_create b ≡ ok mode
    → IsToolbox plan tools
    → add_to plan b mode tools ≡ ok r
    → IsToolbox plan r.1
unfolding IsAdded
add_to-IsToolbox plan b mode tools r accepted (good, distinct, within) done =
    let (free, fits, added) = add_to-ok plan b mode tools r done in
    let new = new_tool plan b mode in
    rw added (
      All-append (IsTool plan) tools new good (new_tool-IsTool plan b mode accepted),
      added-HasDistinctNames plan b mode tools free distinct,
      rw (length-append tools (new ∷ [])) ((admission_tests_iff plan (length tools)).2.0 fits),
    )
