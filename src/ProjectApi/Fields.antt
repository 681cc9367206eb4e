-- ===== src/ProjectApi/Fields.antt =====
-- The bounds that the request models of api/projects.py put on the fields of a project, and the
-- routes behind them: a body that fails is answered with 422 before the route runs.
use Prim.Native.String
use factn_assistant_service.Base.{
  none, ◌||◌, some, err, ◌&&◌, str_eq, leb, if◌then◌else◌, Result, Option, ℕ, String, Bool,
}
use factn_assistant_service.Texts.{strip}
use factn_assistant_service.ProjectApi.Requests.{has_length_to, if_given}
use factn_assistant_service.ProjectApi.{
  UpdateProject, create_project, update_project, update_system_prompt, Store,
}
use factn_assistant_service.Projects.Store.{NewProject}
use factn_assistant_service.Schemas.{VadMode, auto, manual, ProjectDoc, TenantDoc}
use factn_assistant_service.Services.{Collection, Redis}

unfoldable pub is_between : ℕ → ℕ → ℕ → Bool
is_between least most n = leb least n && leb n most

unfoldable pub is_supported_model : String → Bool
is_supported_model m =
    str_eq m "gemini-2.5-flash-native-audio-preview-12-2025" || str_eq m "gemini-2.0-flash-live-001"

-- An empty language code, once stripped, is the default.
unfoldable pub language_or_default : String → String
language_or_default code = if str_eq (strip code) "" then "en-US" else strip code

unfoldable pub parse_vad_mode : String → Option VadMode
parse_vad_mode mode =
    if str_eq mode "manual" then some manual else if str_eq mode "auto" then some auto else none

-- What `CreateProjectRequest` accepts
unfoldable pub accepts_new : NewProject → Bool
accepts_new b =
    has_length_to 100 b.name
    && leb (String.count b.description) 500
    && has_length_to 32_000 b.system_prompt
    && is_supported_model b.gemini_model
    && is_between 30 7_200 b.session_ttl_seconds
    && is_between 1 500 b.max_concurrent_sessions
    && is_between 1 1_000 b.rate_limit_rpm

-- What `UpdateProjectRequest` accepts
unfoldable pub accepts_update : UpdateProject → Bool
accepts_update b =
    if_given (has_length_to 100) b.name
    && if_given (λ text. leb (String.count text) 500) b.description
    && if_given (has_length_to 32_000) b.system_prompt
    && if_given is_supported_model b.gemini_model
    && if_given (is_between 30 7_200) b.session_ttl_seconds
    && if_given (is_between 1 500) b.max_concurrent_sessions
    && if_given (is_between 1 1_000) b.rate_limit_rpm

module _ {V : Type 0} (redis : Redis V) (projects : Collection ProjectDoc) where
  unfoldable pub post_project :
      TenantDoc
      → NewProject
      → String
      → ℕ
      → Store redis projects
      → Result ℕ ProjectDoc × Store redis projects
  post_project tenant body new_id now w =
      if accepts_new body
      then create_project redis projects tenant body new_id now w
      else (err 422, w)

  unfoldable pub patch_project :
      TenantDoc
      → String
      → UpdateProject
      → ℕ
      → Store redis projects
      → Result ℕ ProjectDoc × Store redis projects
  patch_project tenant project_id body now w =
      if accepts_update body
      then update_project redis projects tenant project_id body now w
      else (err 422, w)

  unfoldable pub put_system_prompt :
      TenantDoc
      → String
      → String
      → ℕ
      → Store redis projects
      → Result ℕ ProjectDoc × Store redis projects
  put_system_prompt tenant project_id prompt now w =
      if has_length_to 32_000 prompt
      then update_system_prompt redis projects tenant project_id prompt now w
      else (err 422, w)
