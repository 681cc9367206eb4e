-- ===== src/SessionManager/Reach.antt =====
-- The tasks of a node interleaved in any order: handshakes, runners that end, their done callbacks,
-- terminations by the cleanup loop or by `stop`.
use factn_assistant_service.Base.{
  inr, ◌∷◌, inl, ◌≡◌, arith, Option-cases, List, ℕ, [], String, refl,
}
use factn_assistant_service.SessionManager.Cap.{
  sessions_for-pop, get_or_create-IsWithinCaps, IsWithinCaps,
}
use factn_assistant_service.SessionManager.{
  of_project, get_or_create, on_runner_done, terminate, task_ends, sessions_for, run_callback,
  Manager,
}
use factn_assistant_service.Base.Dict.{count_if-pop, lookup}
use factn_assistant_service.Schemas.{ProjectConfig}

-- One section of one task. The configurations of a project agree on its cap.
pub data Step (cap : String → ℕ) : Manager → Manager → Type 0 where
  opens :
      (sid : String) (project : ProjectConfig) (key : String) (t now : ℕ) (m : Manager)
      → cap project.project_id ≡ project.max_concurrent_sessions
      → Step cap m (get_or_create sid project key t now m).1
  ends : (n : ℕ) (sid : String) (m : Manager) → Step cap m (task_ends n sid m)
  calls_back : (m : Manager) → Step cap m (run_callback m)
  terminates : (sid : String) (m : Manager) → Step cap m (terminate sid m).1

pub data Reach (cap : String → ℕ) (m : Manager) : Manager → Type 0 where
  here : Reach cap m m
  next : {k l : Manager} → Reach cap m k → Step cap k l → Reach cap m l

abbrev pub empty_manager : Manager
empty_manager = record { sessions = []; tasks = []; callbacks = []; next_task = 0 }

terminate-IsWithinCaps :
    (cap : String → ℕ) (sid : String) (m : Manager)
    → IsWithinCaps cap m
    → IsWithinCaps cap (terminate sid m).1
unfolding terminate
terminate-IsWithinCaps cap sid m h = elim (Option-cases (lookup sid m.sessions)) [
  | inl gone ↦ rw (gone, terminate) h
  | inr (slot, found) ↦ rw (found, terminate) (λ p. omega (arith, h p, sessions_for-pop p sid m))
]

run_callback-IsWithinCaps :
    (cap : String → ℕ) (due : List String) (m : Manager)
    → m.callbacks ≡ due
    → IsWithinCaps cap m
    → IsWithinCaps cap (run_callback m)
unfolding run_callback on_runner_done sessions_for
run_callback-IsWithinCaps cap [] m e h = rw (e, run_callback) h
run_callback-IsWithinCaps cap (sid ∷ rest) m e h =
    rw (e, run_callback) (λ p. omega (arith, h p, count_if-pop (of_project p) sid m.sessions))

Step-IsWithinCaps :
    {cap : String → ℕ} {m n : Manager} → Step cap m n → IsWithinCaps cap m → IsWithinCaps cap n
unfolding task_ends sessions_for
Step-IsWithinCaps {cap} (opens sid project key t now m is_cap) h =
    get_or_create-IsWithinCaps cap sid project key t now m is_cap h
Step-IsWithinCaps (ends n sid m) h = h
Step-IsWithinCaps {cap} (calls_back m) h = run_callback-IsWithinCaps cap m.callbacks m refl h
Step-IsWithinCaps {cap} (terminates sid m) h = terminate-IsWithinCaps cap sid m h

Reach-from :
    {cap : String → ℕ} {m n : Manager} → Reach cap m n → IsWithinCaps cap m → IsWithinCaps cap n
Reach-from here h = h
Reach-from (next r s) h = Step-IsWithinCaps s (Reach-from r h)

-- However the tasks of a node interleave from its start, no project ever has more registered
-- sessions than its cap, where the configurations of a project agree on that cap.
pub Reach-IsWithinCaps :
    {cap : String → ℕ} {m : Manager} → Reach cap empty_manager m → IsWithinCaps cap m
unfolding sessions_for
Reach-IsWithinCaps r = Reach-from r (λ p. omega arith)
