-- ===== src/ProjectApi/Served.antt =====
-- The projects and their tools after any requests to the routes of api/projects.py.
use factn_assistant_service.ProjectApi.Fields.{put_system_prompt, patch_project, post_project}
use factn_assistant_service.Base.{inr, some, inl, ◌≡◌, Result-cases, ◌≢◌, ℕ, List, String}
use factn_assistant_service.ProjectApi.Traffic.{
  Traffic, quiet, serve, creates_project, gets_project, updates_project, deletes_project,
  puts_prompt, puts_voice, puts_webhook, adds_tool, updates_tool, deletes_tool,
}
use mathlib.Core.Path.{subst}
use factn_assistant_service.ProjectApi.{
  delete_project, get_project_route, get_or_404, Store, update_voice_config, update_webhook_config,
}
use factn_assistant_service.ToolExecutor.Defs.{ToolDefinition}
use factn_assistant_service.Schemas.{TenantDoc, ProjectDoc}
use factn_assistant_service.Services.{Collection, Redis}
use factn_assistant_service.ProjectApi.Tools.{IsToolbox, add_to-IsToolbox}
use factn_assistant_service.ProjectApi.ToolChanges.{update_in-IsToolbox, delete_from-IsToolbox}
use factn_assistant_service.ProjectApi.Toolbox.{add_to, update_in, delete_from}
use factn_assistant_service.ProjectApi.Requests.{
  CreateToolRequest, UpdateToolRequest, validate_create, validate_update,
}
use factn_assistant_service.ProjectApi.ToolRoutes.{add_tool, update_tool, delete_tool}
use factn_assistant_service.Projects.Store.{set_tools, no_changes}
use factn_assistant_service.ProjectApi.Stocked.{IsStocked, update-IsStocked, get_or_404-stocked}
use factn_assistant_service.ProjectApi.Routed.{
  post_project-IsStocked, patch_project-IsStocked, put_system_prompt-IsStocked,
  delete_project-IsStocked, get_project_route-IsStocked, change_project-IsStocked,
}

module _ {V : Type 0} (redis : Redis V) (projects : Collection ProjectDoc)
    (plan_of : String → String) where
  -- A tenant with an id, on the plan that `plan_of` tells
  abbrev pub IsCaller : TenantDoc → Type 0
  IsCaller t = (t.id ≢ "") × (t.plan ≡ plan_of t.id)

  -- Every request comes from such a tenant.
  abbrev pub IsFromCallers : Traffic → Type 0
  IsFromCallers quiet = Unit
  IsFromCallers (creates_project t b new_id now rest) = IsCaller t × IsFromCallers rest
  IsFromCallers (gets_project t k now rest) = IsCaller t × IsFromCallers rest
  IsFromCallers (updates_project t k b now rest) = IsCaller t × IsFromCallers rest
  IsFromCallers (deletes_project t k now rest) = IsCaller t × IsFromCallers rest
  IsFromCallers (puts_prompt t k prompt now rest) = IsCaller t × IsFromCallers rest
  IsFromCallers (puts_voice t k voice vad now rest) = IsCaller t × IsFromCallers rest
  IsFromCallers (puts_webhook t k url secret origins now rest) = IsCaller t × IsFromCallers rest
  IsFromCallers (adds_tool t k b now meanwhile rest) =
      IsCaller t × IsFromCallers meanwhile × IsFromCallers rest
  IsFromCallers (updates_tool t k name b now meanwhile rest) =
      IsCaller t × IsFromCallers meanwhile × IsFromCallers rest
  IsFromCallers (deletes_tool t k name now meanwhile rest) =
      IsCaller t × IsFromCallers meanwhile × IsFromCallers rest

  -- Requests that run in the middle of another keep the tools in order.
  abbrev IsKind : (Store redis projects → Store redis projects) → Type 0
  IsKind meanwhile =
      (w : Store redis projects)
      → IsStocked redis projects plan_of w
      → IsStocked redis projects plan_of (meanwhile w)

  writes_tools :
      (t : TenantDoc) (k : String) (tools : List ToolDefinition) (now : ℕ)
      (meanwhile : Store redis projects → Store redis projects) (w : Store redis projects)
      → IsCaller t
      → IsKind meanwhile
      → IsStocked redis projects plan_of w
      → IsToolbox t.plan tools
      → IsStocked redis projects plan_of (set_tools redis projects k t.id tools now (meanwhile w)).1
  unfolding set_tools
  writes_tools t k tools now meanwhile w (named, pays) kind h good =
      update-IsStocked redis projects plan_of k t.id (record no_changes { tools = some tools }) now
        (meanwhile w) (subst (λ plan. IsToolbox plan tools) pays good, tt, tt) (kind w h)

  add_tool-IsStocked :
      (t : TenantDoc) (k : String) (b : CreateToolRequest) (now : ℕ)
      (meanwhile : Store redis projects → Store redis projects) (w : Store redis projects)
      → IsCaller t
      → IsKind meanwhile
      → IsStocked redis projects plan_of w
      → IsStocked redis projects plan_of (add_tool redis projects t k b now meanwhile w).1
  unfolding add_tool
  add_tool-IsStocked t k b now meanwhile w caller kind h = elim (Result-cases (validate_create b)) [
    | inl (code, refused) ↦ rw (refused, add_tool) h
    | inr (mode, accepted) ↦ elim (Result-cases (get_or_404 projects k t w.docs)) [
      | inl (code, missing) ↦ rw (accepted, missing, add_tool) h
      | inr (d, there) ↦ elim (Result-cases (add_to t.plan b mode d.tools)) [
        | inl (code, full) ↦ rw (accepted, there, full, add_tool) h
        | inr (r, added) ↦
            let stock =
              get_or_404-stocked redis projects plan_of k t w d caller.0 caller.1 h there in
            rw (accepted, there, added, add_tool)
              (writes_tools t k r.1 now meanwhile w caller kind h
                (add_to-IsToolbox t.plan b mode d.tools r accepted stock.0 added))
      ]
    ]
  ]

  update_tool-IsStocked :
      (t : TenantDoc) (k name : String) (b : UpdateToolRequest) (now : ℕ)
      (meanwhile : Store redis projects → Store redis projects) (w : Store redis projects)
      → IsCaller t
      → IsKind meanwhile
      → IsStocked redis projects plan_of w
      → IsStocked redis projects plan_of (update_tool redis projects t k name b now meanwhile w).1
  unfolding update_tool
  update_tool-IsStocked t k name b now meanwhile w caller kind h =
      elim (Result-cases (validate_update b)) [
        | inl (code, refused) ↦ rw (refused, update_tool) h
        | inr (u, accepted) ↦ elim (Result-cases (get_or_404 projects k t w.docs)) [
          | inl (code, missing) ↦ rw (accepted, missing, update_tool) h
          | inr (d, there) ↦ elim (Result-cases (update_in t.plan name b d.tools)) [
            | inl (code, absent) ↦ rw (accepted, there, absent, update_tool) h
            | inr (r, updated) ↦
                let stock =
                  get_or_404-stocked redis projects plan_of k t w d caller.0 caller.1 h there in
                rw (accepted, there, updated, update_tool)
                  (writes_tools t k r.1 now meanwhile w caller kind h
                    (update_in-IsToolbox t.plan name b d.tools r accepted stock.0 updated))
          ]
        ]
      ]

  delete_tool-IsStocked :
      (t : TenantDoc) (k name : String) (now : ℕ)
      (meanwhile : Store redis projects → Store redis projects) (w : Store redis projects)
      → IsCaller t
      → IsKind meanwhile
      → IsStocked redis projects plan_of w
      → IsStocked redis projects plan_of (delete_tool redis projects t k name now meanwhile w).1
  unfolding delete_tool
  delete_tool-IsStocked t k name now meanwhile w caller kind h =
      elim (Result-cases (get_or_404 projects k t w.docs)) [
        | inl (code, missing) ↦ rw (missing, delete_tool) h
        | inr (d, there) ↦ elim (Result-cases (delete_from name d.tools)) [
          | inl (code, absent) ↦ rw (there, absent, delete_tool) h
          | inr (tools, deleted) ↦
              let stock =
                get_or_404-stocked redis projects plan_of k t w d caller.0 caller.1 h there in
              rw (there, deleted, delete_tool)
                (writes_tools t k tools now meanwhile w caller kind h
                  (delete_from-IsToolbox t.plan name d.tools tools stock.0 deleted))
        ]
      ]

  -- Let `plan_of` tell the plan of each tenant, let every request come from a tenant on that plan whose
  -- id is not empty, and let every project be in order at the start: its session time and rate limit
  -- are within its tenant's plan, each of its tools has a good name, parameters that the schema check
  -- accepts, the fields that its mode needs and a timeout within the plan's, no two tools have one
  -- name, and there are no more than the plan allows. Then every project is in order after any
  -- requests that create, read, change or delete projects and their tools, also where other requests
  -- run between the reading and the writing of a tool route.
  pub serve-IsStocked :
      (traffic : Traffic) (w : Store redis projects)
      → IsFromCallers traffic
      → IsStocked redis projects plan_of w
      → IsStocked redis projects plan_of (serve redis projects traffic w)
  unfolding serve update_voice_config update_webhook_config
  serve-IsStocked quiet w from h = h
  serve-IsStocked (creates_project t b new_id now rest) w (caller, from) h =
      serve-IsStocked rest (post_project redis projects t b new_id now w).1 from
        (post_project-IsStocked redis projects plan_of t b new_id now w caller.1 h)
  serve-IsStocked (gets_project t k now rest) w (caller, from) h =
      serve-IsStocked rest (get_project_route redis projects t k now w).1 from
        (get_project_route-IsStocked redis projects plan_of t k now w h)
  serve-IsStocked (updates_project t k b now rest) w (caller, from) h =
      serve-IsStocked rest (patch_project redis projects t k b now w).1 from
        (patch_project-IsStocked redis projects plan_of t k b now w caller.1 h)
  serve-IsStocked (deletes_project t k now rest) w (caller, from) h =
      serve-IsStocked rest (delete_project redis projects t k now w).1 from
        (delete_project-IsStocked redis projects plan_of t k now w h)
  serve-IsStocked (puts_prompt t k prompt now rest) w (caller, from) h =
      serve-IsStocked rest (put_system_prompt redis projects t k prompt now w).1 from
        (put_system_prompt-IsStocked redis projects plan_of t k prompt now w h)
  serve-IsStocked (puts_voice t k voice vad now rest) w (caller, from) h =
      serve-IsStocked rest (update_voice_config redis projects t k voice vad now w).1 from (
        change_project-IsStocked redis projects plan_of t k
          (record no_changes { voice_config = some voice; vad_config = some vad }) now w
          (tt, tt, tt) h)
  serve-IsStocked (puts_webhook t k url secret origins now rest) w (caller, from) h =
      serve-IsStocked rest (update_webhook_config redis projects t k url secret origins now w).1
        from
        (change_project-IsStocked redis projects plan_of t k
          (record no_changes {
            webhook_url = some url;
            webhook_secret = some secret;
            allowed_origins = some origins;
          })
          now w (tt, tt, tt) h)
  serve-IsStocked (adds_tool t k b now meanwhile rest) w (caller, between, from) h =
      serve-IsStocked rest (add_tool redis projects t k b now (serve redis projects meanwhile) w).1
        from
        (add_tool-IsStocked t k b now (serve redis projects meanwhile) w caller
          (λ v good. serve-IsStocked meanwhile v between good) h)
  serve-IsStocked (updates_tool t k name b now meanwhile rest) w (caller, between, from) h =
      serve-IsStocked rest
        (update_tool redis projects t k name b now (serve redis projects meanwhile) w).1 from
        (update_tool-IsStocked t k name b now (serve redis projects meanwhile) w caller
          (λ v good. serve-IsStocked meanwhile v between good) h)
  serve-IsStocked (deletes_tool t k name now meanwhile rest) w (caller, between, from) h =
      serve-IsStocked rest
        (delete_tool redis projects t k name now (serve redis projects meanwhile) w).1 from
        (delete_tool-IsStocked t k name now (serve redis projects meanwhile) w caller
          (λ v good. serve-IsStocked meanwhile v between good) h)
