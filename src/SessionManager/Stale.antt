-- ===== src/SessionManager/Stale.antt =====
-- The done callback of a runner removes its session id, whoever holds it by then.
use factn_assistant_service.SessionManager.{
  on_runner_done, task_ends, run_callback, sessions_for, Manager, create_session, terminate,
  register, get_or_create, drop_task,
}
use factn_assistant_service.SessionManager.Cap.{sessions_for-pop}
use factn_assistant_service.Base.Dict.{lookup-pop, pop-put, lookup-put, lookup, pop}
use factn_assistant_service.SessionState.{new_session, SessionState}
use factn_assistant_service.Base.{
  ok, [], ◌<◌, eq_refl, arith, ◌∷◌, some, none, ◌≡◌, ◌+◌, List, ℕ, String,
}
use factn_assistant_service.Schemas.{ProjectConfig}

-- With room for a session, an id that is not registered is: the state is new, and a runner starts.
pub get_or_create_new :
    (sid : String) (project : ProjectConfig) (key : String) (t now : ℕ) (m : Manager)
    → lookup sid m.sessions ≡ none
    → sessions_for project.project_id m < project.max_concurrent_sessions
    → get_or_create sid project key t now m ≡ (
      ok (new_session sid project.project_id key t now),
      register sid (new_session sid project.project_id key t now) m,
    )
unfolding get_or_create create_session
get_or_create_new sid project key t now m fresh room =
    rw (fresh, get_or_create, create_session) (ground arith)

lookup-register :
    (sid : String) (s : SessionState) (m : Manager)
    → lookup sid (register sid s m).sessions
      ≡ some (record { state = s; worker_task = m.next_task })
unfolding register
lookup-register sid s m =
    rw (lookup-put sid sid (record { state = s; worker_task = m.next_task }) m.sessions)
      (rw eq_refl)

-- The sessions after an id was registered and terminated are those of before without the id.
terminate-register :
    (sid : String) (s : SessionState) (m : Manager)
    → (terminate sid (register sid s m)).1 ≡ record {
      sessions = pop sid m.sessions;
      tasks = (m.next_task, sid) ∷ m.tasks;
      callbacks = m.callbacks;
      next_task = m.next_task + 1;
    }
unfolding terminate register
terminate-register sid s m =
    rw (lookup-register sid s m, terminate)
      (rw (pop-put sid (record { state = s; worker_task = m.next_task }) m.sessions))

drop_task-second :
    (n : ℕ) (sid : String) (rest : List (ℕ × String))
    → drop_task n ((n + 1, sid) ∷ (n, sid) ∷ rest) ≡ (n + 1, sid) ∷ rest
unfolding drop_task
drop_task-second n sid rest = ground arith

-- With no other callback due, a runner that ends removes its id at once.
late_callback :
    (n : ℕ) (sid : String) (m : Manager)
    → m.callbacks ≡ []
    → run_callback (task_ends n sid m) ≡ record {
      sessions = pop sid m.sessions;
      tasks = drop_task n m.tasks;
      callbacks = [];
      next_task = m.next_task;
    }
unfolding run_callback task_ends on_runner_done
late_callback n sid m settled = rw (settled, run_callback, task_ends)

-- A session that is terminated and opened again under its id before its first runner has ended: the
-- done callback of that first runner removes the new session, and the new session's runner goes on
-- with no entry in the registry, where the cap counts.
pub stale_callback :
    (sid : String) (project : ProjectConfig) (key : String) (t now : ℕ) (m : Manager)
    → lookup sid m.sessions ≡ none
    → sessions_for project.project_id m < project.max_concurrent_sessions
    → m.callbacks ≡ []
    → let opened = (get_or_create sid project key t now m).1 in
      let again = (get_or_create sid project key t now (terminate sid opened).1).1 in
      let later = run_callback (task_ends m.next_task sid again) in
      (lookup sid again.sessions
        ≡ some (record {
          state = new_session sid project.project_id key t now;
          worker_task = m.next_task + 1;
        }))
      × (lookup sid later.sessions ≡ none)
      × (later.tasks ≡ (m.next_task + 1, sid) ∷ m.tasks)
unfolding sessions_for
stale_callback sid project key t now m fresh room settled =
    let s = new_session sid project.project_id key t now in
    let freed : Manager = record {
      sessions = pop sid m.sessions;
      tasks = (m.next_task, sid) ∷ m.tasks;
      callbacks = m.callbacks;
      next_task = m.next_task + 1;
    } in
    let fresh' : lookup sid freed.sessions ≡ none =
      rw (lookup-pop sid sid m.sessions) (rw eq_refl) in
    let room' : sessions_for project.project_id freed < project.max_concurrent_sessions =
      omega (arith, sessions_for-pop project.project_id sid m) in
    let late = late_callback m.next_task sid (register sid s freed) (unfold register in settled) in
    rw
      (
        get_or_create_new sid project key t now m fresh room,
        terminate-register sid s m,
        get_or_create_new sid project key t now freed fresh' room',
      )
      (
        lookup-register sid s freed,
        rw (late, lookup-pop sid sid (register sid s freed).sessions) (rw eq_refl),
        rw late (unfold register in drop_task-second m.next_task sid m.tasks),
      )
