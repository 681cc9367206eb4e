-- ===== src/SessionManager.antt =====
-- core/session_manager.py: the sessions of one server node. Every section under `_lock` is one
-- operation here; the awaits between them are where operations of other tasks come in.
-- A runner task is a number with the session id that its done callback removes.
pub mod Cap
pub mod Reach
pub mod Stale
pub mod Stop
use factn_assistant_service.Base.{
  ◌++◌, none, err, ok, leb, some, [], ◌==◌, Result, ◌+◌, str_eq, keep_if, if◌then◌else◌, ◌∷◌, map,
  length, count_if, Option, Bool, ℕ, String, List, refl,
}
use factn_assistant_service.SessionState.{
  new_session, is_idle, stop, touch, put_inbox, SessionState,
}
use factn_assistant_service.Schemas.{ProjectConfig}
use factn_assistant_service.Base.Dict.{Dict, lookup, put, pop}

pub record Slot : Type 0 where
  pub state : SessionState
  pub worker_task : ℕ

-- `tasks` holds the runners that still run, `callbacks` the ids for which a done callback is due.
pub record Manager : Type 0 where
  pub sessions : Dict Slot
  pub tasks : List (ℕ × String)
  pub callbacks : List String
  pub next_task : ℕ

abbrev pub idle_limit : ℕ
idle_limit = 300_000

unfoldable pub of_project : String → String × Slot → Bool
of_project project_id (sid, slot) = str_eq slot.state.project_id project_id

-- `active_sessions_for_project`
unfoldable pub sessions_for : String → Manager → ℕ
sessions_for project_id m = count_if (of_project project_id) m.sessions

unfoldable pub active_session_count : Manager → ℕ
active_session_count m = length m.sessions

unfoldable pub active_session_ids : Manager → List String
active_session_ids m = map (λ e. e.0) m.sessions

pub data MaxSessionsExceeded : Type 0 where
  max_sessions_exceeded : String → ℕ → MaxSessionsExceeded

-- `state.touch()` on a session that is there
unfoldable pub resume : String → Slot → ℕ → Manager → Manager
resume session_id slot monotonic m = record m {
  sessions = put session_id (record slot { state = touch monotonic slot.state }) m.sessions;
}

-- a new state, its registration and its runner task
unfoldable pub register : String → SessionState → Manager → Manager
register session_id state m = record {
  sessions = put session_id (record { state = state; worker_task = m.next_task }) m.sessions;
  tasks = (m.next_task, session_id) ∷ m.tasks;
  callbacks = m.callbacks;
  next_task = m.next_task + 1;
}

unfoldable pub create_session :
    String
    → ProjectConfig
    → String
    → ℕ
    → ℕ
    → Manager
    → Result MaxSessionsExceeded SessionState × Manager
create_session session_id project api_key_id monotonic now m =
    let state = new_session session_id project.project_id api_key_id monotonic now in
    if leb project.max_concurrent_sessions (sessions_for project.project_id m)
    then (err (max_sessions_exceeded project.project_id project.max_concurrent_sessions), m)
    else (ok state, register session_id state m)

unfoldable pub get_or_create :
    String
    → ProjectConfig
    → String
    → ℕ
    → ℕ
    → Manager
    → Result MaxSessionsExceeded SessionState × Manager
get_or_create session_id project api_key_id monotonic now m = elim (lookup session_id m.sessions) [
  | some slot ↦ (ok (touch monotonic slot.state), resume session_id slot monotonic m)
  | none ↦ create_session session_id project api_key_id monotonic now m
]

unfoldable pub on_runner_done : String → Manager → Manager
on_runner_done session_id m = record m { sessions = pop session_id m.sessions }

-- `put_nowait(STOP)` with `QueueFull` passed over
unfoldable pub signal_stop : SessionState → SessionState
signal_stop s = elim (put_inbox stop s) [ none ↦ s | some s' ↦ s' ]

-- The section of `_terminate` under the lock, with the state that it then signals. The wait for
-- the worker, and its cancellation, come out as the worker's task ending later.
unfoldable pub terminate : String → Manager → Option SessionState × Manager
terminate session_id m = elim (lookup session_id m.sessions) [
  | none ↦ (none, m)
  | some slot ↦ (some (signal_stop slot.state), record m { sessions = pop session_id m.sessions })
]

-- One sweep's list of ids in `_cleanup_loop`.
unfoldable pub stale_ids : ℕ → Manager → List String
stale_ids monotonic m =
    map (λ e. e.0) (keep_if (λ e. is_idle monotonic idle_limit e.1.state) m.sessions)

-- `for sid in sids: await self._terminate(sid)`, where no other task comes in between.
unfoldable pub terminate_all : List String → Manager → Manager
terminate_all [] m = m
terminate_all (sid ∷ sids) m = terminate_all sids (terminate sid m).1

-- `stop`, once the cleanup task is cancelled, where no other task comes in while it awaits the runners.
unfoldable pub stop_all : Manager → Manager
stop_all m = terminate_all (active_session_ids m) m

-- One sweep of `_cleanup_loop`, where no other task comes in between its sections.
unfoldable pub sweep : ℕ → Manager → Manager
sweep monotonic m = terminate_all (stale_ids monotonic m) m

unfoldable pub drop_task : ℕ → List (ℕ × String) → List (ℕ × String)
drop_task n [] = []
drop_task n ((k, sid) ∷ rest) = if k == n then rest else (k, sid) ∷ drop_task n rest

-- A runner task ends, and the event loop owes it its done callback.
unfoldable pub task_ends : ℕ → String → Manager → Manager
task_ends n sid m = record m { tasks = drop_task n m.tasks; callbacks = m.callbacks ++ sid ∷ [] }

-- The first callback that is due runs.
unfoldable pub run_callback : Manager → Manager
run_callback m = elim m.callbacks [
  | [] ↦ m
  | sid ∷ rest ↦ on_runner_done sid (record m { callbacks = rest })
]
