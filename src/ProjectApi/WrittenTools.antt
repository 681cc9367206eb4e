-- ===== src/ProjectApi/WrittenTools.antt =====
-- What the tool routes and any requests to api/projects.py write.
use factn_assistant_service.Base.{inr, inl, Result-cases, ℕ, some, String}
use factn_assistant_service.Schemas.{TenantDoc, ProjectDoc}
use factn_assistant_service.Services.{Collection, Redis}
use factn_assistant_service.ProjectApi.Requests.{
  CreateToolRequest, UpdateToolRequest, validate_create, validate_update,
}
use factn_assistant_service.ProjectApi.Toolbox.{add_to, update_in, delete_from}
use factn_assistant_service.ProjectApi.ToolRoutes.{add_tool, update_tool, delete_tool}
use factn_assistant_service.ProjectApi.{
  get_or_404, update_voice_config, update_webhook_config, Store,
}
use factn_assistant_service.Projects.Store.{set_tools, no_changes}
use factn_assistant_service.ProjectApi.Traffic.{
  Traffic, quiet, serve, creates_project, gets_project, updates_project, deletes_project,
  puts_prompt, puts_voice, puts_webhook, adds_tool, updates_tool, deletes_tool,
}
use factn_assistant_service.ProjectApi.Written.{
  Written, updates, AreAllowed, post_project-Written, patch_project-Written,
  put_system_prompt-Written, delete_project-Written, get_project_route-Written,
  change_project-Written,
}

module _ {V : Type 0} (redis : Redis V) (projects : Collection ProjectDoc)
    (allowed : String → Type 0) (w : Store redis projects) where
  -- What other requests do is writes too.
  abbrev Writes : (Store redis projects → Store redis projects) → Type 0
  Writes meanwhile =
      (v : Store redis projects)
      → Written redis projects allowed w v
      → Written redis projects allowed w (meanwhile v)

  add_tool-Written :
      (t : TenantDoc) (k : String) (b : CreateToolRequest) (now : ℕ)
      (meanwhile : Store redis projects → Store redis projects) (v : Store redis projects)
      → allowed t.id
      → Writes meanwhile
      → Written redis projects allowed w v
      → Written redis projects allowed w (add_tool redis projects t k b now meanwhile v).1
  unfolding add_tool set_tools
  add_tool-Written t k b now meanwhile v may others h = elim (Result-cases (validate_create b)) [
    | inl (code, refused) ↦ rw (refused, add_tool) h
    | inr (mode, accepted) ↦ elim (Result-cases (get_or_404 projects k t v.docs)) [
      | inl (code, missing) ↦ rw (accepted, missing, add_tool) h
      | inr (d, there) ↦ elim (Result-cases (add_to t.plan b mode d.tools)) [
        | inl (code, full) ↦ rw (accepted, there, full, add_tool) h
        | inr (r, added) ↦
            rw (accepted, there, added, add_tool)
              (updates k t.id (record no_changes { tools = some r.1 }) now (meanwhile v) may
                (others v h))
      ]
    ]
  ]

  update_tool-Written :
      (t : TenantDoc) (k name : String) (b : UpdateToolRequest) (now : ℕ)
      (meanwhile : Store redis projects → Store redis projects) (v : Store redis projects)
      → allowed t.id
      → Writes meanwhile
      → Written redis projects allowed w v
      → Written redis projects allowed w (update_tool redis projects t k name b now meanwhile v).1
  unfolding update_tool set_tools
  update_tool-Written t k name b now meanwhile v may others h =
      elim (Result-cases (validate_update b)) [
        | inl (code, refused) ↦ rw (refused, update_tool) h
        | inr (u, accepted) ↦ elim (Result-cases (get_or_404 projects k t v.docs)) [
          | inl (code, missing) ↦ rw (accepted, missing, update_tool) h
          | inr (d, there) ↦ elim (Result-cases (update_in t.plan name b d.tools)) [
            | inl (code, absent) ↦ rw (accepted, there, absent, update_tool) h
            | inr (r, updated) ↦
                rw (accepted, there, updated, update_tool)
                  (updates k t.id (record no_changes { tools = some r.1 }) now (meanwhile v) may
                    (others v h))
          ]
        ]
      ]

  delete_tool-Written :
      (t : TenantDoc) (k name : String) (now : ℕ)
      (meanwhile : Store redis projects → Store redis projects) (v : Store redis projects)
      → allowed t.id
      → Writes meanwhile
      → Written redis projects allowed w v
      → Written redis projects allowed w (delete_tool redis projects t k name now meanwhile v).1
  unfolding delete_tool set_tools
  delete_tool-Written t k name now meanwhile v may others h =
      elim (Result-cases (get_or_404 projects k t v.docs)) [
        | inl (code, missing) ↦ rw (missing, delete_tool) h
        | inr (d, there) ↦ elim (Result-cases (delete_from name d.tools)) [
          | inl (code, absent) ↦ rw (there, absent, delete_tool) h
          | inr (tools, deleted) ↦
              rw (there, deleted, delete_tool)
                (updates k t.id (record no_changes { tools = some tools }) now (meanwhile v) may
                  (others v h))
        ]
      ]

  pub serve-Written :
      (traffic : Traffic) (v : Store redis projects)
      → AreAllowed redis projects allowed traffic
      → Written redis projects allowed w v
      → Written redis projects allowed w (serve redis projects traffic v)
  unfolding serve update_voice_config update_webhook_config
  serve-Written quiet v may h = h
  serve-Written (creates_project t b new_id now rest) v (own, may) h =
      serve-Written rest _ may
        (post_project-Written redis projects allowed w t b new_id now v own h)
  serve-Written (gets_project t k now rest) v (own, may) h =
      serve-Written rest _ may (get_project_route-Written redis projects allowed w t k now v own h)
  serve-Written (updates_project t k b now rest) v (own, may) h =
      serve-Written rest _ may (patch_project-Written redis projects allowed w t k b now v own h)
  serve-Written (deletes_project t k now rest) v (own, may) h =
      serve-Written rest _ may (delete_project-Written redis projects allowed w t k now v own h)
  serve-Written (puts_prompt t k prompt now rest) v (own, may) h =
      serve-Written rest _ may
        (put_system_prompt-Written redis projects allowed w t k prompt now v own h)
  serve-Written (puts_voice t k voice vad now rest) v (own, may) h = serve-Written rest _ may (
      change_project-Written redis projects allowed w t k
        (record no_changes { voice_config = some voice; vad_config = some vad }) now v own h)
  serve-Written (puts_webhook t k url secret origins now rest) v (own, may) h =
      serve-Written rest _ may (
        change_project-Written redis projects allowed w t k
          (record no_changes {
            webhook_url = some url;
            webhook_secret = some secret;
            allowed_origins = some origins;
          })
          now v own h)
  serve-Written (adds_tool t k b now meanwhile rest) v (own, between, may) h =
      serve-Written rest _ may (
        add_tool-Written t k b now (serve redis projects meanwhile) v own
          (λ x good. serve-Written meanwhile x between good) h)
  serve-Written (updates_tool t k name b now meanwhile rest) v (own, between, may) h =
      serve-Written rest _ may (
        update_tool-Written t k name b now (serve redis projects meanwhile) v own
          (λ x good. serve-Written meanwhile x between good) h)
  serve-Written (deletes_tool t k name now meanwhile rest) v (own, between, may) h =
      serve-Written rest _ may (
        delete_tool-Written t k name now (serve redis projects meanwhile) v own
          (λ x good. serve-Written meanwhile x between good) h)
