-- ===== src/SessionManager/Cap.antt =====
-- The cap on concurrent sessions: `get_or_create` admits, resumes or refuses.
use factn_assistant_service.Base.{
  suc, eq_iff, str_eq, inr, arith, some, inl, if◌then◌else◌, none, Option-cases, ◌≡◌, ◌≤◌, ℕ,
  String, refl,
}
use factn_assistant_service.Base.Dict.{
  count_if-put_new, count_if-put_old, count_if-pop, lookup, pop,
}
use factn_assistant_service.SessionState.{new_session, touch, SessionState}
use factn_assistant_service.SessionManager.{
  Slot, of_project, resume, register, Manager, sessions_for, get_or_create, create_session,
}
use factn_assistant_service.Schemas.{ProjectConfig}

-- A project has at most as many registered sessions as `cap` gives it.
abbrev pub IsWithinCaps : (String → ℕ) → Manager → Type 0
IsWithinCaps cap m = (p : String) → sessions_for p m ≤ cap p

sessions_for-resume :
    (p sid : String) (slot : Slot) (t : ℕ) (m : Manager)
    → lookup sid m.sessions ≡ some slot
    → sessions_for p (resume sid slot t m) ≡ sessions_for p m
unfolding sessions_for resume of_project touch
sessions_for-resume p sid slot t m found =
    count_if-put_old (of_project p) sid (record slot { state = touch t slot.state }) slot m.sessions
      found (λ j. refl)

pub sessions_for-register :
    (p sid : String) (s : SessionState) (m : Manager)
    → lookup sid m.sessions ≡ none
    → sessions_for p (register sid s m)
      ≡ (if str_eq s.project_id p then suc (sessions_for p m) else sessions_for p m)
unfolding sessions_for register of_project
sessions_for-register p sid s m fresh =
    count_if-put_new (of_project p) sid (record { state = s; worker_task = m.next_task }) m.sessions
      fresh

pub sessions_for-pop :
    (p sid : String) (m : Manager)
    → sessions_for p (record m { sessions = pop sid m.sessions }) ≤ sessions_for p m
unfolding sessions_for
sessions_for-pop p sid m = count_if-pop (of_project p) sid m.sessions

-- A new session counts for its project and for no other.
pub sessions_for-new :
    (p sid : String) (project : ProjectConfig) (key : String) (t now : ℕ) (m : Manager)
    → lookup sid m.sessions ≡ none
    → sessions_for p (register sid (new_session sid project.project_id key t now) m)
      ≡ (if str_eq project.project_id p then suc (sessions_for p m) else sessions_for p m)
unfolding new_session
sessions_for-new p sid project key t now m fresh =
    sessions_for-register p sid (new_session sid project.project_id key t now) m fresh

create_session-IsWithinCaps :
    (cap : String → ℕ) (sid : String) (project : ProjectConfig) (key : String) (t now : ℕ)
    (m : Manager)
    → cap project.project_id ≡ project.max_concurrent_sessions
    → lookup sid m.sessions ≡ none
    → IsWithinCaps cap m
    → IsWithinCaps cap (create_session sid project key t now m).1
unfolding create_session
create_session-IsWithinCaps cap sid project key t now m is_cap fresh h p =
    ground
      (arith, h p, sessions_for-new p sid project key t now m fresh, eq_iff project.project_id p)

-- Where every project's cap is the one its configuration names, `get_or_create` keeps every project
-- within its cap, whether it resumes a session, creates one or refuses.
pub get_or_create-IsWithinCaps :
    (cap : String → ℕ) (sid : String) (project : ProjectConfig) (key : String) (t now : ℕ)
    (m : Manager)
    → cap project.project_id ≡ project.max_concurrent_sessions
    → IsWithinCaps cap m
    → IsWithinCaps cap (get_or_create sid project key t now m).1
unfolding get_or_create
get_or_create-IsWithinCaps cap sid project key t now m is_cap h =
    elim (Option-cases (lookup sid m.sessions)) [
      | inl fresh ↦
          rw (fresh, get_or_create)
            (create_session-IsWithinCaps cap sid project key t now m is_cap fresh h)
      | inr (slot, found) ↦
          rw (found, get_or_create) (λ p. rw (sessions_for-resume p sid slot t m found) (h p))
    ]
