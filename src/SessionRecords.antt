-- ===== src/SessionRecords.antt =====
-- repositories/session_repo.py besides what the handshake reads, and the analytics routes of
-- api/projects.py. Times and durations are whole microseconds. A limit or a number of days below 0 is
-- raised to 1 as 0 is; a status to list by is one that a session can have.
pub mod Accounting
use factn_assistant_service.Base.{
  ◌*◌, ◌-◌, ok, none, leb, ◌&&◌, some, min, false, err, [], ◌∷◌, ◌+◌, true, str_eq, max,
  if◌then◌else◌, Result, Option, ℕ, suc, String, List, Bool,
}
use factn_assistant_service.ProjectApi.{get_or_404}
use factn_assistant_service.Projects.{microseconds}
use factn_assistant_service.SessionEvents.{Status, active, closed, timeout, error}
use factn_assistant_service.Schemas.{TenantDoc, ProjectDoc, SessionDoc}
use factn_assistant_service.Services.{Collection}

unfoldable pub is_session_of : String → String → SessionDoc → Bool
is_session_of session_id project_id d = str_eq d.id session_id && str_eq d.project_id project_id

unfoldable pub same_status : Status → Status → Bool
same_status active active = true
same_status closed closed = true
same_status timeout timeout = true
same_status error error = true
same_status _ _ = false

-- `{"project_id": project_id}`, with the status `if status is not None`
unfoldable pub is_listed : String → Option Status → SessionDoc → Bool
is_listed project_id none d = str_eq d.project_id project_id
is_listed project_id (some status) d = str_eq d.project_id project_id && same_status d.status status

unfoldable pub is_since : String → ℕ → SessionDoc → Bool
is_since project_id since d = str_eq d.project_id project_id && leb since d.started_at

-- What `usage_summary` adds up
pub record Summary : Type 0 where
  pub total_sessions : ℕ
  pub total_turns : ℕ
  pub total_tool_calls : ℕ
  pub total_duration : ℕ
  pub total_input_tokens : ℕ
  pub total_output_tokens : ℕ
  pub error_count : ℕ

abbrev pub no_usage : Summary
no_usage = record {
  total_sessions = 0;
  total_turns = 0;
  total_tool_calls = 0;
  total_duration = 0;
  total_input_tokens = 0;
  total_output_tokens = 0;
  error_count = 0;
}

-- `{"$cond": [{"$eq": ["$status", "error"]}, 1, 0]}`
unfoldable pub count_error : Status → ℕ
count_error status = if same_status status error then 1 else 0

unfoldable pub add_session : SessionDoc → Summary → Summary
add_session d t = record {
  total_sessions = suc t.total_sessions;
  total_turns = d.turns + t.total_turns;
  total_tool_calls = d.tool_calls + t.total_tool_calls;
  total_duration = d.duration + t.total_duration;
  total_input_tokens = d.input_tokens + t.total_input_tokens;
  total_output_tokens = d.output_tokens + t.total_output_tokens;
  error_count = count_error d.status + t.error_count;
}

unfoldable pub sum_sessions : List SessionDoc → Summary
sum_sessions [] = no_usage
sum_sessions (d ∷ ds) = add_session d (sum_sessions ds)

-- `max(1, min(n, most))`
unfoldable pub clamp_to : ℕ → ℕ → ℕ
clamp_to most n = max 1 (min n most)

module _ (sessions : Collection SessionDoc) where
  -- `insert_one` may fail, which is only logged; the document is answered in both cases.
  unfoldable pub close_session : Bool → SessionDoc → sessions.State → SessionDoc × sessions.State
  close_session written doc s = (doc, if written then sessions.insert_one doc s else s)

  -- The end of the runner with the document it closes the session with, where it has a repository
  unfoldable pub persist : Bool → Option SessionDoc → sessions.State → sessions.State
  persist written none s = s
  persist written (some doc) s = (close_session written doc s).1

  unfoldable pub list_for_project :
      String → ℕ → ℕ → Option Status → sessions.State → List SessionDoc
  list_for_project project_id limit skip status s =
      sessions.find_page (is_listed project_id status) (λ d. d.started_at) skip limit s

  unfoldable pub get_by_id : String → String → sessions.State → Option SessionDoc
  get_by_id session_id project_id s = sessions.find_one (is_session_of session_id project_id) s

  unfoldable pub usage_summary : String → ℕ → sessions.State → Summary
  usage_summary project_id since s = sum_sessions (sessions.find (is_since project_id since) s)

  module _ (projects : Collection ProjectDoc) where
    unfoldable pub list_sessions :
        TenantDoc
        → String
        → ℕ
        → ℕ
        → Option Status
        → projects.State
        → sessions.State
        → Result ℕ (List SessionDoc)
    list_sessions tenant project_id limit skip status docs s =
        elim (get_or_404 projects project_id tenant docs) [
          | err code ↦ err code
          | ok d ↦ ok (list_for_project project_id (clamp_to 200 limit) skip status s)
        ]

    unfoldable pub get_session :
        TenantDoc → String → String → projects.State → sessions.State → Result ℕ SessionDoc
    get_session tenant project_id session_id docs s =
        elim (get_or_404 projects project_id tenant docs) [
          | err code ↦ err code
          | ok d ↦ elim (get_by_id session_id project_id s) [ none ↦ err 404 | some x ↦ ok x ]
        ]

    -- The sums that the response shows; its averages and percentages are rounded quotients of them.
    unfoldable pub get_usage :
        TenantDoc → String → ℕ → ℕ → projects.State → sessions.State → Result ℕ Summary
    get_usage tenant project_id days now docs s =
        elim (get_or_404 projects project_id tenant docs) [
          | err code ↦ err code
          | ok d ↦
              ok (usage_summary project_id (now - clamp_to 365 days * (86_400 * microseconds)) s)
        ]
