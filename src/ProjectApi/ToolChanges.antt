-- ===== src/ProjectApi/ToolChanges.antt =====
-- Changing and deleting a tool, as `update_tool` and `delete_tool` of api/projects.py do, keep the tools
-- of a project in order.
use factn_assistant_service.ProjectApi.Tools.{IsTool, IsToolbox, IsWithin-le}
use factn_assistant_service.Base.{
  Bool, count_if-le, length-keep_if, ◌==◌, All-keep_if, not, keep_if, Option-cases, ok_inj, eq_iff,
  ap, sym, ok_ne_err, inr, inl, none, Bool-cases, arith, ◌≤◌, true, some, ok, length, ◌≡◌,
  find_first, Option, ℕ, String, List,
}
use factn_assistant_service.Services.Lists.{
  length-update_first, count_if-updated, count_if-kept, All-update_first, All-find_first,
  find_first-holds, update_first,
}
use factn_assistant_service.Projects.Store.{or_else}
use factn_assistant_service.Json.{Json}
use factn_assistant_service.ToolSchema.{valid, validate_tool_parameters}
use factn_assistant_service.ToolExecutor.Defs.{ToolDefinition}
use factn_assistant_service.ProjectApi.Requests.{
  UpdateToolRequest, has_fields_for, validate_update, validate_given_parameters,
}
use factn_assistant_service.ProjectApi.Toolbox.{
  is_named, change_tool, update_in, delete_from, new_timeout,
}
use factn_assistant_service.ProjectApi.Accepted.{validate_update-ok}
use factn_assistant_service.PlanLimits.{max_webhook_timeout_ms, max_tools_per_project}
use factn_assistant_service.PlanLimits.Caps.{effective_values_caps}

given_parameters :
    (given : Option Json) (old : Json)
    → validate_given_parameters given ≡ valid
    → validate_tool_parameters old ≡ valid
    → validate_tool_parameters (or_else given old) ≡ valid
unfolding validate_given_parameters
given_parameters none old h old_ok = old_ok
given_parameters (some new) old h old_ok = h

new_timeout-within :
    (plan : String) (given : Option ℕ) (old : ℕ)
    → old ≤ max_webhook_timeout_ms plan
    → new_timeout plan given old ≤ max_webhook_timeout_ms plan
unfolding new_timeout
new_timeout-within plan none old h = h
new_timeout-within plan (some t) old h = (effective_values_caps plan t).1.1

IsUpdated : String → String → UpdateToolRequest → List ToolDefinition → List ToolDefinition → Type 0
IsUpdated plan tool_name b tools tools' =
    (t : ToolDefinition) × (find_first (is_named tool_name) tools ≡ some t)
    × (has_fields_for (change_tool plan b t).execution_mode (change_tool plan b t).static_response
          (change_tool plan b t).webhook_url
        ≡ true)
    × (tools' ≡ update_first (is_named tool_name) (λ _. change_tool plan b t) tools)

update_in-ok :
    (plan tool_name : String) (b : UpdateToolRequest) (tools : List ToolDefinition)
    (r : ToolDefinition × List ToolDefinition)
    → update_in plan tool_name b tools ≡ ok r
    → IsUpdated plan tool_name b tools r.1
unfolding update_in IsUpdated
update_in-ok plan tool_name b tools r done =
    elim (Option-cases (find_first (is_named tool_name) tools)) [
      | inl missing ↦ absurd (ok_ne_err r 404 (sym (rw (missing, update_in) at done)))
      | inr (t, found) ↦
          let t' = change_tool plan b t in
          let tools' = update_first (is_named tool_name) (λ _. t') tools in
          elim (Bool-cases (has_fields_for t'.execution_mode t'.static_response t'.webhook_url)) [
            | inl fits ↦ (
              t,
              found,
              fits,
              sym (ap (λ x. x.1) (ok_inj (t', tools') r (rw (found, fits, update_in) at done))),
            )
            | inr misses ↦ absurd (ok_ne_err r 422 (sym (rw (found, misses, update_in) at done)))
          ]
    ]

same_name :
    (plan tool_name name : String) (b : UpdateToolRequest) (t x : ToolDefinition)
    → is_named tool_name t ≡ true
    → is_named tool_name x ≡ true
    → is_named name (change_tool plan b t) ≡ is_named name x
unfolding is_named change_tool
same_name plan tool_name name b t x ht hx =
    rw ((eq_iff t.name tool_name).0 ht, (eq_iff x.name tool_name).0 hx)

change_tool-IsTool :
    (plan : String) (b : UpdateToolRequest) (t : ToolDefinition)
    → validate_update b ≡ ok tt
    → IsTool plan t
    → has_fields_for
        (change_tool plan b t).execution_mode
        (change_tool plan b t).static_response
        (change_tool plan b t).webhook_url
      ≡ true
    → IsTool plan (change_tool plan b t)
unfolding change_tool
change_tool-IsTool plan b t accepted (name_ok, parameters_ok, fields_ok, timeout_ok) fits =
    let (given_ok, time_ok) = validate_update-ok b accepted in
    (
      name_ok,
      given_parameters b.parameters t.parameters given_ok parameters_ok,
      fits,
      new_timeout-within plan b.timeout_ms t.timeout_ms timeout_ok,
    )

pub update_in-IsToolbox :
    (plan tool_name : String) (b : UpdateToolRequest) (tools : List ToolDefinition)
    (r : ToolDefinition × List ToolDefinition)
    → validate_update b ≡ ok tt
    → IsToolbox plan tools
    → update_in plan tool_name b tools ≡ ok r
    → IsToolbox plan r.1
unfolding IsUpdated
update_in-IsToolbox plan tool_name b tools r accepted (good, distinct, within) done =
    let (t, found, fits, updated) = update_in-ok plan tool_name b tools r done in
    let p = is_named tool_name in
    let t' = change_tool plan b t in
    let named = find_first-holds p tools t found in
    let t_good = All-find_first (IsTool plan) p tools t found good in
    let t'_good = change_tool-IsTool plan b t accepted t_good fits in
    rw updated (
      All-update_first (IsTool plan) p (λ _. t') tools (λ x q px. t'_good) good,
      (λ name.
          rw
            (count_if-updated (is_named name) p (λ _. t') tools
              (λ x q. same_name plan tool_name name b t x named q))
            (distinct name)),
      rw (length-update_first p (λ _. t') tools) within,
    )

delete_from-ok :
    (tool_name : String) (tools tools' : List ToolDefinition)
    → delete_from tool_name tools ≡ ok tools'
    → tools' ≡ keep_if (λ t. not (is_named tool_name t)) tools
unfolding delete_from
delete_from-ok tool_name tools tools' done =
    let kept = keep_if (λ t. not (is_named tool_name t)) tools in
    elim (Bool-cases (length kept == length tools)) [
      | inl none_there ↦ absurd (ok_ne_err tools' 404 (sym (rw (none_there, delete_from) at done)))
      | inr fewer ↦ sym (ok_inj kept tools' (rw (fewer, delete_from) at done))
    ]

pub delete_from-IsToolbox :
    (plan tool_name : String) (tools tools' : List ToolDefinition)
    → IsToolbox plan tools
    → delete_from tool_name tools ≡ ok tools'
    → IsToolbox plan tools'
delete_from-IsToolbox plan tool_name tools tools' (good, distinct, within) done =
    let p : ToolDefinition → Bool = λ t. not (is_named tool_name t) in
    rw (delete_from-ok tool_name tools tools' done) (
      All-keep_if (IsTool plan) p tools good,
      (λ name. omega (arith, count_if-kept (is_named name) p tools, distinct name)),
      IsWithin-le (length (keep_if p tools)) (length tools) (max_tools_per_project plan)
          (omega (arith, length-keep_if p tools, count_if-le p tools)) within,
    )
