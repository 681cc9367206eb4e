-- ===== src/ProjectApi.antt =====
-- The routes of api/projects.py on projects: create, list, get, patch, delete and the three PUT
-- routes. A refusal is the HTTP status. A route is given the tenant that is logged in, and returns the
-- document that its response shows; the response leaves out the webhook secrets of the project and of
-- its tools.
pub mod Requests
pub mod Toolbox
pub mod Accepted
pub mod ToolRoutes
pub mod Traffic
pub mod Written
pub mod WrittenTools
pub mod Isolated
pub mod TestTurn
pub mod Fields
pub mod Responses
pub mod Stocked
pub mod Routed
pub mod Served
pub mod Tools
pub mod ToolChanges
pub mod Deleted
use mathlib.Core.Option
use factn_assistant_service.Projects.Store.{
  create, touch_last_accessed, soft_delete, update, list_for_tenant, no_changes, Stores, NewProject,
  Changes,
}
use factn_assistant_service.Base.{
  length, ok, min, if◌then◌else◌, none, err, ℕ, true, Result, List, ◌||◌, some, not, false, String,
  Option, Bool, refl,
}
use factn_assistant_service.PlanLimits.{
  is_within_project_limit, effective_rate_limit_rpm, effective_session_ttl,
}
use factn_assistant_service.Projects.{get_project}
use factn_assistant_service.Schemas.{VadMode, TenantDoc, VoiceConfig, ProjectDoc}
use factn_assistant_service.Services.{Redis, Collection}

-- `_get_project_or_404` of the tenant's project
unfoldable pub get_or_404 :
    (projects : Collection ProjectDoc) → String → TenantDoc → projects.State → Result ℕ ProjectDoc
get_or_404 projects project_id tenant s =
    elim (get_project projects project_id (some tenant.id) s) [ none ↦ err 404 | some d ↦ ok d ]

-- The caps of the plan on what a create request asks for.
unfoldable pub cap_new_project : String → NewProject → NewProject
cap_new_project plan b = record b {
  session_ttl_seconds = effective_session_ttl plan b.session_ttl_seconds;
  rate_limit_rpm = effective_rate_limit_rpm plan b.rate_limit_rpm;
}

-- The fields of a PATCH request; a webhook field cannot be set to None by it.
pub record UpdateProject : Type 0 where
  pub name : Option String
  pub description : Option String
  pub system_prompt : Option String
  pub gemini_model : Option String
  pub voice_config : Option VoiceConfig
  pub vad_config : Option VadMode
  pub session_ttl_seconds : Option ℕ
  pub max_concurrent_sessions : Option ℕ
  pub rate_limit_rpm : Option ℕ
  pub webhook_url : Option String
  pub webhook_secret : Option String
  pub allowed_origins : Option (List String)

abbrev pub given {ℓ} : {A : Type ℓ} → Option A → Bool
given none = false
given (some a) = true

-- `updates`, with the plan's caps on the two fields that have one
unfoldable pub collect_updates : String → UpdateProject → Changes
collect_updates plan b = record no_changes {
  name = b.name;
  description = b.description;
  system_prompt = b.system_prompt;
  gemini_model = b.gemini_model;
  voice_config = b.voice_config;
  vad_config = b.vad_config;
  webhook_url = Option.map (λ u. some u) b.webhook_url;
  webhook_secret = Option.map (λ s. some s) b.webhook_secret;
  allowed_origins = b.allowed_origins;
  session_ttl_seconds = Option.map (effective_session_ttl plan) b.session_ttl_seconds;
  max_concurrent_sessions = b.max_concurrent_sessions;
  rate_limit_rpm = Option.map (effective_rate_limit_rpm plan) b.rate_limit_rpm;
}

-- `not updates`
unfoldable pub no_updates : UpdateProject → Bool
no_updates b = not (
    given b.name
    || given b.description
    || given b.system_prompt
    || given b.gemini_model
    || given b.voice_config
    || given b.vad_config
    || given b.session_ttl_seconds
    || given b.max_concurrent_sessions
    || given b.rate_limit_rpm
    || given b.webhook_url
    || given b.webhook_secret
    || given b.allowed_origins)

module _ {V : Type 0} (redis : Redis V) (projects : Collection ProjectDoc) where
  abbrev pub Store : Type 0
  Store = Stores redis projects

  unfoldable pub create_project :
      TenantDoc → NewProject → String → ℕ → Store → Result ℕ ProjectDoc × Store
  create_project tenant body new_id now w =
      let existing = list_for_tenant redis projects tenant.id 1_000 0 w in
      if is_within_project_limit tenant.plan (length existing)
      then (let (d, w') =
            create redis projects new_id tenant.id (cap_new_project tenant.plan body) now w in
          (ok d, w'))
      else (err 403, w)

  unfoldable pub list_projects : TenantDoc → ℕ → ℕ → Store → List ProjectDoc
  list_projects tenant limit skip w =
      list_for_tenant redis projects tenant.id (min limit 100) skip w

  unfoldable pub get_project_route : TenantDoc → String → ℕ → Store → Result ℕ ProjectDoc × Store
  get_project_route tenant project_id now w = elim (get_or_404 projects project_id tenant w.docs) [
    | err code ↦ (err code, w)
    | ok d ↦ (ok d, touch_last_accessed redis projects project_id tenant.id now w)
  ]

  -- An update of the tenant's project, and the document after it; where the project is gone by then,
  -- the response fails.
  unfoldable pub update_and_get :
      TenantDoc → String → Changes → ℕ → Store → Result ℕ ProjectDoc × Store
  update_and_get tenant project_id changes now w =
      let (done, w') = update redis projects project_id tenant.id changes now w in
      elim (get_project projects project_id (some tenant.id) w'.docs) [
        | none ↦ (err 500, w')
        | some d ↦ (ok d, w')
      ]

  -- What the PATCH and the PUT routes share.
  unfoldable pub change_project :
      TenantDoc → String → Changes → ℕ → Store → Result ℕ ProjectDoc × Store
  change_project tenant project_id changes now w =
      elim (get_or_404 projects project_id tenant w.docs) [
        | err code ↦ (err code, w)
        | ok d ↦ update_and_get tenant project_id changes now w
      ]

  unfoldable pub update_project :
      TenantDoc → String → UpdateProject → ℕ → Store → Result ℕ ProjectDoc × Store
  update_project tenant project_id body now w =
      elim (get_or_404 projects project_id tenant w.docs) [
        | err code ↦ (err code, w)
        | ok d ↦
            if no_updates body
            then (err 422, w)
            else update_and_get tenant project_id (collect_updates tenant.plan body) now w
      ]

  unfoldable pub delete_project : TenantDoc → String → ℕ → Store → Result ℕ (Unit {0}) × Store
  delete_project tenant project_id now w = elim (get_or_404 projects project_id tenant w.docs) [
    | err code ↦ (err code, w)
    | ok d ↦ (ok tt, (soft_delete redis projects project_id tenant.id now w).1)
  ]

  unfoldable pub update_system_prompt :
      TenantDoc → String → String → ℕ → Store → Result ℕ ProjectDoc × Store
  update_system_prompt tenant project_id prompt now w =
      change_project tenant project_id (record no_changes { system_prompt = some prompt }) now w

  unfoldable pub update_voice_config :
      TenantDoc → String → VoiceConfig → VadMode → ℕ → Store → Result ℕ ProjectDoc × Store
  update_voice_config tenant project_id voice vad now w =
      change_project tenant project_id
        (record no_changes { voice_config = some voice; vad_config = some vad }) now w

  unfoldable pub update_webhook_config :
      TenantDoc
      → String
      → Option String
      → Option String
      → List String
      → ℕ
      → Store
      → Result ℕ ProjectDoc × Store
  update_webhook_config tenant project_id url secret origins now w =
      change_project tenant project_id
        (record no_changes {
          webhook_url = some url;
          webhook_secret = some secret;
          allowed_origins = some origins;
        })
        now w
