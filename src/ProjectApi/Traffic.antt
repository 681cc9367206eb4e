-- ===== src/ProjectApi/Traffic.antt =====
-- Requests to the routes of api/projects.py that write, in the order in which the server answers
-- them, each by a tenant that is logged in.
use factn_assistant_service.Base.{List, Option, ℕ, String}
use factn_assistant_service.Schemas.{VadMode, VoiceConfig, ProjectDoc, TenantDoc}
use factn_assistant_service.Services.{Collection, Redis}
use factn_assistant_service.ProjectApi.Requests.{CreateToolRequest, UpdateToolRequest}
use factn_assistant_service.ProjectApi.ToolRoutes.{add_tool, update_tool, delete_tool}
use factn_assistant_service.ProjectApi.Fields.{post_project, patch_project, put_system_prompt}
use factn_assistant_service.ProjectApi.{
  UpdateProject, get_project_route, delete_project, update_voice_config, update_webhook_config,
  Store,
}
use factn_assistant_service.Projects.Store.{NewProject}

-- Of two lists of requests that one is given, the first is answered in the middle of it.
pub data Traffic : Type 0 where
  quiet : Traffic
  creates_project : TenantDoc → NewProject → String → ℕ → Traffic → Traffic
  gets_project : TenantDoc → String → ℕ → Traffic → Traffic
  updates_project : TenantDoc → String → UpdateProject → ℕ → Traffic → Traffic
  deletes_project : TenantDoc → String → ℕ → Traffic → Traffic
  puts_prompt : TenantDoc → String → String → ℕ → Traffic → Traffic
  puts_voice : TenantDoc → String → VoiceConfig → VadMode → ℕ → Traffic → Traffic
  puts_webhook :
      TenantDoc → String → Option String → Option String → List String → ℕ → Traffic → Traffic
  adds_tool : TenantDoc → String → CreateToolRequest → ℕ → Traffic → Traffic → Traffic
  updates_tool : TenantDoc → String → String → UpdateToolRequest → ℕ → Traffic → Traffic → Traffic
  deletes_tool : TenantDoc → String → String → ℕ → Traffic → Traffic → Traffic

module _ {V : Type 0} (redis : Redis V) (projects : Collection ProjectDoc) where
  unfoldable pub serve : Traffic → Store redis projects → Store redis projects
  serve quiet w = w
  serve (creates_project t b new_id now rest) w =
      serve rest (post_project redis projects t b new_id now w).1
  serve (gets_project t k now rest) w = serve rest (get_project_route redis projects t k now w).1
  serve (updates_project t k b now rest) w = serve rest (patch_project redis projects t k b now w).1
  serve (deletes_project t k now rest) w = serve rest (delete_project redis projects t k now w).1
  serve (puts_prompt t k prompt now rest) w =
      serve rest (put_system_prompt redis projects t k prompt now w).1
  serve (puts_voice t k voice vad now rest) w =
      serve rest (update_voice_config redis projects t k voice vad now w).1
  serve (puts_webhook t k url secret origins now rest) w =
      serve rest (update_webhook_config redis projects t k url secret origins now w).1
  serve (adds_tool t k b now meanwhile rest) w =
      serve rest (add_tool redis projects t k b now (serve meanwhile) w).1
  serve (updates_tool t k name b now meanwhile rest) w =
      serve rest (update_tool redis projects t k name b now (serve meanwhile) w).1
  serve (deletes_tool t k name now meanwhile rest) w =
      serve rest (delete_tool redis projects t k name now (serve meanwhile) w).1
