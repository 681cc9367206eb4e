-- ===== src/ProjectApi/ToolRoutes.antt =====
-- The tool routes of api/projects.py. A route waits for the database between reading the project and
-- writing its tools: `meanwhile` is what other requests do to the stores in that time.
use factn_assistant_service.Base.{map, ok, err, List, ℕ, Result, String}
use factn_assistant_service.Schemas.{TenantDoc, ProjectDoc}
use factn_assistant_service.Services.{Collection, Redis}
use factn_assistant_service.ProjectApi.Requests.{
  CreateToolRequest, UpdateToolRequest, validate_create, validate_update,
}
use factn_assistant_service.ProjectApi.Toolbox.{
  ToolResponse, tool_to_response, add_to, update_in, delete_from,
}
use factn_assistant_service.ProjectApi.{get_or_404, Store}
use factn_assistant_service.Projects.Store.{set_tools}

module _ {V : Type 0} (redis : Redis V) (projects : Collection ProjectDoc) where
  unfoldable pub add_tool :
      TenantDoc
      → String
      → CreateToolRequest
      → ℕ
      → (Store redis projects → Store redis projects)
      → Store redis projects
      → Result ℕ ToolResponse × Store redis projects
  add_tool tenant project_id body now meanwhile w = elim (validate_create body) [
    | err code ↦ (err code, w)
    | ok mode ↦ elim (get_or_404 projects project_id tenant w.docs) [
      | err code ↦ (err code, w)
      | ok d ↦ elim (add_to tenant.plan body mode d.tools) [
        | err code ↦ (err code, w)
        | ok (tool, tools) ↦ (
          ok (tool_to_response tool),
          (set_tools redis projects project_id tenant.id tools now (meanwhile w)).1,
        )
      ]
    ]
  ]

  unfoldable pub list_tools :
      TenantDoc → String → Store redis projects → Result ℕ (List ToolResponse)
  list_tools tenant project_id w = elim (get_or_404 projects project_id tenant w.docs) [
    | err code ↦ err code
    | ok d ↦ ok (map tool_to_response d.tools)
  ]

  unfoldable pub update_tool :
      TenantDoc
      → String
      → String
      → UpdateToolRequest
      → ℕ
      → (Store redis projects → Store redis projects)
      → Store redis projects
      → Result ℕ ToolResponse × Store redis projects
  update_tool tenant project_id tool_name body now meanwhile w = elim (validate_update body) [
    | err code ↦ (err code, w)
    | ok u ↦ elim (get_or_404 projects project_id tenant w.docs) [
      | err code ↦ (err code, w)
      | ok d ↦ elim (update_in tenant.plan tool_name body d.tools) [
        | err code ↦ (err code, w)
        | ok (tool, tools) ↦ (
          ok (tool_to_response tool),
          (set_tools redis projects project_id tenant.id tools now (meanwhile w)).1,
        )
      ]
    ]
  ]

  unfoldable pub delete_tool :
      TenantDoc
      → String
      → String
      → ℕ
      → (Store redis projects → Store redis projects)
      → Store redis projects
      → Result ℕ (Unit {0}) × Store redis projects
  delete_tool tenant project_id tool_name now meanwhile w =
      elim (get_or_404 projects project_id tenant w.docs) [
        | err code ↦ (err code, w)
        | ok d ↦ elim (delete_from tool_name d.tools) [
          | err code ↦ (err code, w)
          | ok tools ↦
              (ok tt, (set_tools redis projects project_id tenant.id tools now (meanwhile w)).1)
        ]
      ]
