-- ===== src/ProjectApi/Written.antt =====
-- The writes that requests to api/projects.py come down to, each under the id of the tenant that
-- made the request.
use factn_assistant_service.Base.{
  length, some, inr, inl, Result-cases, Option-cases, Bool-cases, ℕ, String,
}
use factn_assistant_service.PlanLimits.{is_within_project_limit}
use factn_assistant_service.Projects.{get_project}
use factn_assistant_service.Schemas.{TenantDoc, ProjectDoc}
use factn_assistant_service.Services.{Collection, Redis}
use factn_assistant_service.ProjectApi.Requests.{has_length_to}
use factn_assistant_service.ProjectApi.Fields.{
  post_project, patch_project, put_system_prompt, accepts_new, accepts_update,
}
use factn_assistant_service.ProjectApi.{
  UpdateProject, create_project, update_project, get_project_route, delete_project,
  update_system_prompt, change_project, update_and_get, get_or_404, no_updates, collect_updates,
  cap_new_project, Store,
}
use factn_assistant_service.Projects.Store.{
  NewProject, Changes, create, update, soft_delete, touch_last_accessed, list_for_tenant,
  no_changes,
}
use factn_assistant_service.ProjectApi.Traffic.{
  Traffic, quiet, creates_project, gets_project, updates_project, deletes_project, puts_prompt,
  puts_voice, puts_webhook, adds_tool, updates_tool, deletes_tool,
}

module _ {V : Type 0} (redis : Redis V) (projects : Collection ProjectDoc)
    (allowed : String → Type 0) where
  -- Writes one after the other, each under an allowed tenant id
  pub data Written (w : Store redis projects) : Store redis projects → Type 0 where
    nothing : Written w w
    creates :
        (new_id tid : String) (b : NewProject) (now : ℕ) (v : Store redis projects)
        → allowed tid
        → Written w v
        → Written w (create redis projects new_id tid b now v).1
    updates :
        (k tid : String) (c : Changes) (now : ℕ) (v : Store redis projects)
        → allowed tid
        → Written w v
        → Written w (update redis projects k tid c now v).1
    deletes :
        (k tid : String) (now : ℕ) (v : Store redis projects)
        → allowed tid
        → Written w v
        → Written w (soft_delete redis projects k tid now v).1
    accesses :
        (k tid : String) (now : ℕ) (v : Store redis projects)
        → allowed tid
        → Written w v
        → Written w (touch_last_accessed redis projects k tid now v)

  -- Every request comes from an allowed tenant.
  abbrev pub AreAllowed : Traffic → Type 0
  AreAllowed quiet = Unit
  AreAllowed (creates_project t b new_id now rest) = allowed t.id × AreAllowed rest
  AreAllowed (gets_project t k now rest) = allowed t.id × AreAllowed rest
  AreAllowed (updates_project t k b now rest) = allowed t.id × AreAllowed rest
  AreAllowed (deletes_project t k now rest) = allowed t.id × AreAllowed rest
  AreAllowed (puts_prompt t k prompt now rest) = allowed t.id × AreAllowed rest
  AreAllowed (puts_voice t k voice vad now rest) = allowed t.id × AreAllowed rest
  AreAllowed (puts_webhook t k url secret origins now rest) = allowed t.id × AreAllowed rest
  AreAllowed (adds_tool t k b now meanwhile rest) =
      allowed t.id × AreAllowed meanwhile × AreAllowed rest
  AreAllowed (updates_tool t k name b now meanwhile rest) =
      allowed t.id × AreAllowed meanwhile × AreAllowed rest
  AreAllowed (deletes_tool t k name now meanwhile rest) =
      allowed t.id × AreAllowed meanwhile × AreAllowed rest

  module _ (w : Store redis projects) where
    update_and_get-Written :
        (t : TenantDoc) (k : String) (c : Changes) (now : ℕ) (v : Store redis projects)
        → allowed t.id
        → Written w v
        → Written w (update_and_get redis projects t k c now v).1
    unfolding update_and_get
    update_and_get-Written t k c now v may h =
        let v' = (update redis projects k t.id c now v).1 in
        elim (Option-cases (get_project projects k (some t.id) v'.docs)) [
          | inl gone ↦ rw (gone, update_and_get) (updates k t.id c now v may h)
          | inr (d, there) ↦ rw (there, update_and_get) (updates k t.id c now v may h)
        ]

    pub change_project-Written :
        (t : TenantDoc) (k : String) (c : Changes) (now : ℕ) (v : Store redis projects)
        → allowed t.id
        → Written w v
        → Written w (change_project redis projects t k c now v).1
    unfolding change_project
    change_project-Written t k c now v may h =
        elim (Result-cases (get_or_404 projects k t v.docs)) [
          | inl (code, missing) ↦ rw (missing, change_project) h
          | inr (d, there) ↦ rw (there, change_project) (update_and_get-Written t k c now v may h)
        ]

    pub post_project-Written :
        (t : TenantDoc) (b : NewProject) (new_id : String) (now : ℕ) (v : Store redis projects)
        → allowed t.id
        → Written w v
        → Written w (post_project redis projects t b new_id now v).1
    unfolding post_project create_project
    post_project-Written t b new_id now v may h = elim (Bool-cases (accepts_new b)) [
      | inr refused ↦ rw (refused, post_project) h
      | inl accepted ↦
          elim (Bool-cases (
            is_within_project_limit t.plan
              (length (list_for_tenant redis projects t.id 1_000 0 v)))) [
                | inr full ↦ rw (accepted, post_project) (rw (full, create_project) h)
                | inl fits ↦
                    rw (accepted, post_project)
                      (rw (fits, create_project)
                        (creates new_id t.id (cap_new_project t.plan b) now v may h))
              ]
    ]

    pub patch_project-Written :
        (t : TenantDoc) (k : String) (b : UpdateProject) (now : ℕ) (v : Store redis projects)
        → allowed t.id
        → Written w v
        → Written w (patch_project redis projects t k b now v).1
    unfolding patch_project update_project
    patch_project-Written t k b now v may h = elim (Bool-cases (accepts_update b)) [
      | inr refused ↦ rw (refused, patch_project) h
      | inl accepted ↦ elim (Result-cases (get_or_404 projects k t v.docs)) [
        | inl (code, missing) ↦ rw (accepted, patch_project) (rw (missing, update_project) h)
        | inr (d, there) ↦ elim (Bool-cases (no_updates b)) [
          | inl empty ↦ rw (accepted, patch_project) (rw (there, empty, update_project) h)
          | inr some_field ↦
              rw (accepted, patch_project)
                (rw (there, some_field, update_project)
                  (update_and_get-Written t k (collect_updates t.plan b) now v may h))
        ]
      ]
    ]

    pub put_system_prompt-Written :
        (t : TenantDoc) (k prompt : String) (now : ℕ) (v : Store redis projects)
        → allowed t.id
        → Written w v
        → Written w (put_system_prompt redis projects t k prompt now v).1
    unfolding put_system_prompt update_system_prompt
    put_system_prompt-Written t k prompt now v may h =
        elim (Bool-cases (has_length_to 32_000 prompt)) [
          | inr refused ↦ rw (refused, put_system_prompt) h
          | inl accepted ↦
              rw (accepted, put_system_prompt)
                (change_project-Written t k (record no_changes { system_prompt = some prompt }) now
                  v may h)
        ]

    pub delete_project-Written :
        (t : TenantDoc) (k : String) (now : ℕ) (v : Store redis projects)
        → allowed t.id
        → Written w v
        → Written w (delete_project redis projects t k now v).1
    unfolding delete_project
    delete_project-Written t k now v may h = elim (Result-cases (get_or_404 projects k t v.docs)) [
      | inl (code, missing) ↦ rw (missing, delete_project) h
      | inr (d, there) ↦ rw (there, delete_project) (deletes k t.id now v may h)
    ]

    pub get_project_route-Written :
        (t : TenantDoc) (k : String) (now : ℕ) (v : Store redis projects)
        → allowed t.id
        → Written w v
        → Written w (get_project_route redis projects t k now v).1
    unfolding get_project_route
    get_project_route-Written t k now v may h =
        elim (Result-cases (get_or_404 projects k t v.docs)) [
          | inl (code, missing) ↦ rw (missing, get_project_route) h
          | inr (d, there) ↦ rw (there, get_project_route) (accesses k t.id now v may h)
        ]
