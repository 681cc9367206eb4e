-- ===== src/ProjectApi/Routed.antt =====
-- The routes on projects of api/projects.py keep every project on the plan of its tenant.
use factn_assistant_service.Projects.Store.{
  no_changes, list_for_tenant, update, Changes, NewProject,
}
use factn_assistant_service.ProjectApi.{
  update_system_prompt, no_updates, cap_new_project, UpdateProject, create_project,
  get_project_route, update_project, delete_project, change_project, update_and_get, get_or_404,
  Store, collect_updates,
}
use factn_assistant_service.Base.{
  length, inr, inl, Bool-cases, ◌≡◌, Result-cases, Option-cases, ℕ, none, ◌≤◌, some, String, Option,
}
use factn_assistant_service.PlanLimits.{
  is_within_project_limit, effective_rate_limit_rpm, max_rate_limit_rpm, effective_session_ttl,
  max_session_ttl_seconds,
}
use factn_assistant_service.Projects.{get_project}
use factn_assistant_service.Schemas.{TenantDoc, ProjectDoc}
use factn_assistant_service.Services.{Collection, Redis}
use factn_assistant_service.ProjectApi.Stocked.{
  IfGiven, FitsPlan, IsStocked, update-IsStocked, soft_delete-IsStocked, touch-IsStocked,
  create-IsStocked,
}
use factn_assistant_service.PlanLimits.Caps.{IsWithin, effective_values_caps}
use factn_assistant_service.ProjectApi.Fields.{
  post_project, patch_project, put_system_prompt, accepts_new, accepts_update,
}
use factn_assistant_service.ProjectApi.Requests.{has_length_to}
use mathlib.Core.Path.{subst}
use mathlib.Core.Option

-- A field that is given and is capped.
map-IfGiven :
    {A : Type 0} (P : A → Type 0) (cap : A → A) (given : Option A)
    → ((a : A) → P (cap a))
    → IfGiven P (Option.map cap given)
map-IfGiven P cap none h = tt
map-IfGiven P cap (some a) h = h a

collect_updates-FitsPlan :
    (plan : String) (b : UpdateProject) → FitsPlan plan (collect_updates plan b)
unfolding collect_updates
collect_updates-FitsPlan plan b = (
  tt,
  map-IfGiven (λ ttl. ttl ≤ max_session_ttl_seconds plan) (effective_session_ttl plan)
      b.session_ttl_seconds (λ n. (effective_values_caps plan n).0.1),
  map-IfGiven (λ rpm. IsWithin rpm (max_rate_limit_rpm plan)) (effective_rate_limit_rpm plan)
      b.rate_limit_rpm (λ n. (effective_values_caps plan n).2.1),
)

module _ {V : Type 0} (redis : Redis V) (projects : Collection ProjectDoc)
    (plan_of : String → String) where
  pub update_and_get-IsStocked :
      (t : TenantDoc) (k : String) (c : Changes) (now : ℕ) (w : Store redis projects)
      → FitsPlan (plan_of t.id) c
      → IsStocked redis projects plan_of w
      → IsStocked redis projects plan_of (update_and_get redis projects t k c now w).1
  unfolding update_and_get
  update_and_get-IsStocked t k c now w fits_plan h =
      let w' = (update redis projects k t.id c now w).1 in
      let stocked : IsStocked redis projects plan_of w' =
        update-IsStocked redis projects plan_of k t.id c now w fits_plan h in
      elim (Option-cases (get_project projects k (some t.id) w'.docs)) [
        | inl gone ↦ rw (gone, update_and_get) stocked
        | inr (d, there) ↦ rw (there, update_and_get) stocked
      ]

  pub change_project-IsStocked :
      (t : TenantDoc) (k : String) (c : Changes) (now : ℕ) (w : Store redis projects)
      → FitsPlan (plan_of t.id) c
      → IsStocked redis projects plan_of w
      → IsStocked redis projects plan_of (change_project redis projects t k c now w).1
  unfolding change_project
  change_project-IsStocked t k c now w fits_plan h =
      elim (Result-cases (get_or_404 projects k t w.docs)) [
        | inl (code, missing) ↦ rw (missing, change_project) h
        | inr (d, there) ↦
            rw (there, change_project) (update_and_get-IsStocked t k c now w fits_plan h)
      ]

  pub update_project-IsStocked :
      (t : TenantDoc) (k : String) (b : UpdateProject) (now : ℕ) (w : Store redis projects)
      → t.plan ≡ plan_of t.id
      → IsStocked redis projects plan_of w
      → IsStocked redis projects plan_of (update_project redis projects t k b now w).1
  unfolding update_project
  update_project-IsStocked t k b now w pays h =
      elim (Result-cases (get_or_404 projects k t w.docs)) [
        | inl (code, missing) ↦ rw (missing, update_project) h
        | inr (d, there) ↦ elim (Bool-cases (no_updates b)) [
          | inl empty ↦ rw (there, empty, update_project) h
          | inr some_field ↦
              rw (there, some_field, update_project)
                (update_and_get-IsStocked t k (collect_updates t.plan b) now w
                  (subst (λ plan. FitsPlan plan (collect_updates t.plan b)) pays
                    (collect_updates-FitsPlan t.plan b))
                  h)
        ]
      ]

  pub delete_project-IsStocked :
      (t : TenantDoc) (k : String) (now : ℕ) (w : Store redis projects)
      → IsStocked redis projects plan_of w
      → IsStocked redis projects plan_of (delete_project redis projects t k now w).1
  unfolding delete_project
  delete_project-IsStocked t k now w h = elim (Result-cases (get_or_404 projects k t w.docs)) [
    | inl (code, missing) ↦ rw (missing, delete_project) h
    | inr (d, there) ↦
        rw (there, delete_project) (soft_delete-IsStocked redis projects plan_of k t.id now w h)
  ]

  pub get_project_route-IsStocked :
      (t : TenantDoc) (k : String) (now : ℕ) (w : Store redis projects)
      → IsStocked redis projects plan_of w
      → IsStocked redis projects plan_of (get_project_route redis projects t k now w).1
  unfolding get_project_route
  get_project_route-IsStocked t k now w h = elim (Result-cases (get_or_404 projects k t w.docs)) [
    | inl (code, missing) ↦ rw (missing, get_project_route) h
    | inr (d, there) ↦
        rw (there, get_project_route) (touch-IsStocked redis projects plan_of k t.id now w h)
  ]

  pub create_project-IsStocked :
      (t : TenantDoc) (b : NewProject) (new_id : String) (now : ℕ) (w : Store redis projects)
      → t.plan ≡ plan_of t.id
      → IsStocked redis projects plan_of w
      → IsStocked redis projects plan_of (create_project redis projects t b new_id now w).1
  unfolding create_project cap_new_project
  create_project-IsStocked t b new_id now w pays h =
      let existing = list_for_tenant redis projects t.id 1_000 0 w in
      elim (Bool-cases (is_within_project_limit t.plan (length existing))) [
        | inl fits ↦
            rw (fits, create_project)
              (create-IsStocked redis projects plan_of new_id t.id (cap_new_project t.plan b) now w
                (subst
                  (λ plan.
                    effective_session_ttl t.plan b.session_ttl_seconds
                    ≤ max_session_ttl_seconds plan)
                  pays (effective_values_caps t.plan b.session_ttl_seconds).0.1)
                (subst
                  (λ plan.
                    IsWithin (effective_rate_limit_rpm t.plan b.rate_limit_rpm)
                      (max_rate_limit_rpm plan))
                  pays (effective_values_caps t.plan b.rate_limit_rpm).2.1)
                h)
        | inr full ↦ rw (full, create_project) h
      ]

  pub post_project-IsStocked :
      (t : TenantDoc) (b : NewProject) (new_id : String) (now : ℕ) (w : Store redis projects)
      → t.plan ≡ plan_of t.id
      → IsStocked redis projects plan_of w
      → IsStocked redis projects plan_of (post_project redis projects t b new_id now w).1
  unfolding post_project
  post_project-IsStocked t b new_id now w pays h = elim (Bool-cases (accepts_new b)) [
    | inl accepted ↦ rw (accepted, post_project) (create_project-IsStocked t b new_id now w pays h)
    | inr refused ↦ rw (refused, post_project) h
  ]

  pub patch_project-IsStocked :
      (t : TenantDoc) (k : String) (b : UpdateProject) (now : ℕ) (w : Store redis projects)
      → t.plan ≡ plan_of t.id
      → IsStocked redis projects plan_of w
      → IsStocked redis projects plan_of (patch_project redis projects t k b now w).1
  unfolding patch_project
  patch_project-IsStocked t k b now w pays h = elim (Bool-cases (accepts_update b)) [
    | inl accepted ↦ rw (accepted, patch_project) (update_project-IsStocked t k b now w pays h)
    | inr refused ↦ rw (refused, patch_project) h
  ]

  pub put_system_prompt-IsStocked :
      (t : TenantDoc) (k prompt : String) (now : ℕ) (w : Store redis projects)
      → IsStocked redis projects plan_of w
      → IsStocked redis projects plan_of (put_system_prompt redis projects t k prompt now w).1
  unfolding put_system_prompt update_system_prompt
  put_system_prompt-IsStocked t k prompt now w h = elim (Bool-cases (has_length_to 32_000 prompt)) [
    | inl accepted ↦
        rw (accepted, put_system_prompt)
          (change_project-IsStocked t k (record no_changes { system_prompt = some prompt }) now w
            (tt, tt, tt) h)
    | inr refused ↦ rw (refused, put_system_prompt) h
  ]
