-- ===== src/ProjectApi/Toolbox.antt =====
-- What the tool routes of api/projects.py do to the tools of a project: `add_tool`, `update_tool` and
-- `delete_tool` after the project is read and before its tools are written, and `_tool_to_response`.
use factn_assistant_service.Base.{
  [], ◌∷◌, ◌==◌, ◌++◌, ok, length, not, err, any_of, keep_if, if◌then◌else◌, find_first, str_eq,
  none, Result, ℕ, some, List, Bool, String, Option,
}
use factn_assistant_service.Services.Lists.{update_first}
use factn_assistant_service.Projects.Store.{or_else}
use factn_assistant_service.Json.{Json}
use factn_assistant_service.ToolExecutor.Defs.{ToolDefinition, ExecutionMode}
use factn_assistant_service.ProjectApi.Requests.{
  CreateToolRequest, UpdateToolRequest, has_fields_for, parse_mode,
}
use factn_assistant_service.PlanLimits.{effective_webhook_timeout_ms, is_within_tool_limit}

unfoldable pub is_named : String → ToolDefinition → Bool
is_named name t = str_eq t.name name

-- What a response shows of a tool: no secret
pub record ToolResponse : Type 0 where
  pub name : String
  pub description : String
  pub parameters : Json
  pub execution_mode : ExecutionMode
  pub static_response : Option Json
  pub webhook_url : Option String
  pub timeout_ms : ℕ

unfoldable pub tool_to_response : ToolDefinition → ToolResponse
tool_to_response t = record {
  name = t.name;
  description = t.description;
  parameters = t.parameters;
  execution_mode = t.execution_mode;
  static_response = t.static_response;
  webhook_url = t.webhook_url;
  timeout_ms = t.timeout_ms;
}

unfoldable pub new_tool : String → CreateToolRequest → ExecutionMode → ToolDefinition
new_tool plan b mode = record {
  name = b.name;
  description = b.description;
  parameters = b.parameters;
  execution_mode = mode;
  static_response = b.static_response;
  webhook_url = b.webhook_url;
  webhook_secret = b.webhook_secret;
  timeout_ms = effective_webhook_timeout_ms plan b.timeout_ms;
}

-- The new tool and the tools to store, or the status of the refusal
unfoldable pub add_to :
    String
    → CreateToolRequest
    → ExecutionMode
    → List ToolDefinition
    → Result ℕ (ToolDefinition × List ToolDefinition)
add_to plan b mode tools =
    if any_of (is_named b.name) tools
    then err 409
    else if is_within_tool_limit plan (length tools)
    then ok (new_tool plan b mode, tools ++ new_tool plan b mode ∷ [])
    else err 403

-- A field that is not given keeps its value.
abbrev pub keep_or {ℓ} : {A : Type ℓ} → Option A → Option A → Option A
keep_or none old = old
keep_or (some new) old = some new

-- the mode that a body sets; a validated body has no text that is no mode
unfoldable pub new_mode : Option String → ExecutionMode → ExecutionMode
new_mode none old = old
new_mode (some text) old = elim (parse_mode text) [ none ↦ old | some mode ↦ mode ]

unfoldable pub new_timeout : String → Option ℕ → ℕ → ℕ
new_timeout plan none old = old
new_timeout plan (some t) old = effective_webhook_timeout_ms plan t

unfoldable pub change_tool : String → UpdateToolRequest → ToolDefinition → ToolDefinition
change_tool plan b t = record t {
  description = or_else b.description t.description;
  parameters = or_else b.parameters t.parameters;
  execution_mode = new_mode b.execution_mode t.execution_mode;
  static_response = keep_or b.static_response t.static_response;
  webhook_url = keep_or b.webhook_url t.webhook_url;
  webhook_secret = keep_or b.webhook_secret t.webhook_secret;
  timeout_ms = new_timeout plan b.timeout_ms t.timeout_ms;
}

-- `new_tools[tool_index] = updated_tool`, where the index is that of the first tool with the name
unfoldable pub update_in :
    String
    → String
    → UpdateToolRequest
    → List ToolDefinition
    → Result ℕ (ToolDefinition × List ToolDefinition)
update_in plan tool_name b tools = elim (find_first (is_named tool_name) tools) [
  | none ↦ err 404
  | some t ↦
      let t' = change_tool plan b t in
      if has_fields_for t'.execution_mode t'.static_response t'.webhook_url
      then ok (t', update_first (is_named tool_name) (λ _. t') tools)
      else err 422
]

unfoldable pub delete_from : String → List ToolDefinition → Result ℕ (List ToolDefinition)
delete_from tool_name tools =
    let new_tools = keep_if (λ t. not (is_named tool_name t)) tools in
    if length new_tools == length tools then err 404 else ok new_tools
