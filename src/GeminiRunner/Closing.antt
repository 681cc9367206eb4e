-- ===== src/GeminiRunner/Closing.antt =====
-- How a session ends: the outcome of its loop, its record, its closing webhook and its last frames.
use factn_assistant_service.Base.{
  inr, [], inl, false, ◌∷◌, true, Option-cases, none, arith, ◌≡◌, some, List, String, Option, ℕ,
  refl,
}
use factn_assistant_service.GeminiRunner.Loop.{
  report, cancel, idle_timeout, fatal, receive_ends, running, received, open_session, no_task, pop,
  done, with_session, step, on_set_speaker, RecvTask, Event, send_turn, run, on_text, on_received,
  on_receive_ends, on_pop, on_frame, on_activity_end, handle, await_recv, leave, Outcome, Exchange,
  on_activity_start, after_consume, Runner,
}
use factn_assistant_service.SessionState.{
  activity_end, activity_start, stop, text, audio_chunk, touch, set_speaker, InputFrame,
  SessionState,
}
use factn_assistant_service.GeminiRunner.Defs.{
  was_cancelled, consume, Response, Ending, alive, Consumed, FunctionCall,
}
use factn_assistant_service.Schemas.{ProjectConfig}
use factn_assistant_service.ToolExecutor.Defs.{Reply}
use factn_assistant_service.SessionEvents.{Status}

-- An outcome has an error message exactly when its status is `error`, and is never `active`.
abbrev pub IsOutcome : Status → Option String → Type 0
IsOutcome Status.error m = (exc : String) × (m ≡ some exc)
IsOutcome Status.closed m = m ≡ none
IsOutcome Status.timeout m = m ≡ none
IsOutcome Status.active m = ⊥

abbrev pub IsConsistent : Option Outcome → Type 0
IsConsistent none = Unit
IsConsistent (some o) = IsOutcome o.status o.error_message

after_consume-IsConsistent :
    (c : Consumed) (r : Runner) → IsConsistent r.outcome → IsConsistent (after_consume c r).outcome
unfolding after_consume leave
after_consume-IsConsistent (alive true) r h = h
after_consume-IsConsistent (alive false) r h = refl
after_consume-IsConsistent was_cancelled r h = refl

on_activity_start-outcome :
    (x : Exchange) (r : Runner) → (on_activity_start x r).outcome ≡ r.outcome
unfolding on_activity_start
on_activity_start-outcome x r = ground arith

report-outcome :
    (what : String) (failure : Option String) (r : Runner)
    → (report what failure r).outcome ≡ r.outcome
unfolding report with_session
report-outcome what none r = refl
report-outcome what (some exc) r = refl

module _ (execute : FunctionCall → Reply) where
  await_recv-IsConsistent :
      (t : RecvTask) (x : Exchange) (r : Runner)
      → IsConsistent r.outcome
      → IsConsistent (await_recv execute t x r).outcome
  unfolding await_recv
  await_recv-IsConsistent no_task x r h = h
  await_recv-IsConsistent (done c) x r h =
      after_consume-IsConsistent c (record r { recv = no_task }) h
  await_recv-IsConsistent running x r h =
      after_consume-IsConsistent (consume execute x.responses x.ending r.session).1
        (record {
          session = (consume execute x.responses x.ending r.session).0;
          recv = no_task;
          outcome = r.outcome;
        })
        h

  on_activity_end-IsConsistent :
      (x : Exchange) (r : Runner)
      → IsConsistent r.outcome
      → IsConsistent (on_activity_end execute x r).outcome
  unfolding on_activity_end
  on_activity_end-IsConsistent x r h =
      await_recv-IsConsistent r.recv x (report "activity_end failed: " x.send_failure r)
        (rw (report-outcome "activity_end failed: " x.send_failure r) h)

  send_turn-IsConsistent :
      (x : Exchange) (r : Runner)
      → IsConsistent r.outcome
      → IsConsistent (send_turn execute x r).outcome
  unfolding send_turn with_session
  send_turn-IsConsistent x r h = elim (Option-cases x.send_failure) [
    | inl sent ↦
        rw (sent, send_turn)
          (after_consume-IsConsistent (consume execute x.responses x.ending r.session).1
            (record r { session = (consume execute x.responses x.ending r.session).0 }) h)
    | inr (exc, broke) ↦ rw (broke, send_turn) h
  ]

  on_text-IsConsistent :
      (t : RecvTask) (x : Exchange) (r : Runner)
      → IsConsistent r.outcome
      → IsConsistent (on_text execute t x r).outcome
  unfolding on_text
  on_text-IsConsistent running x r h = h
  on_text-IsConsistent no_task x r h = send_turn-IsConsistent x r h
  on_text-IsConsistent (done c) x r h = send_turn-IsConsistent x r h

  on_frame-IsConsistent :
      (f : InputFrame) (x : Exchange) (r : Runner)
      → IsConsistent r.outcome
      → IsConsistent (on_frame execute f x r).outcome
  unfolding on_frame leave on_set_speaker with_session
  on_frame-IsConsistent stop x r h = refl
  on_frame-IsConsistent (set_speaker enabled) x r h = h
  on_frame-IsConsistent activity_start x r h = rw (on_activity_start-outcome x r) h
  on_frame-IsConsistent (audio_chunk bytes) x r h = h
  on_frame-IsConsistent activity_end x r h = on_activity_end-IsConsistent x r h
  on_frame-IsConsistent (text t) x r h = on_text-IsConsistent r.recv x r h

  on_pop-IsConsistent :
      (queue : List InputFrame) (now : ℕ) (x : Exchange) (r : Runner)
      → IsConsistent r.outcome
      → IsConsistent (on_pop execute queue now x r).outcome
  unfolding on_pop with_session
  on_pop-IsConsistent [] now x r h = h
  on_pop-IsConsistent (frame ∷ rest) now x r h =
      on_frame-IsConsistent frame x
        (record r { session = touch now (record (r.session) { inbox = rest }) }) h

  on_received-outcome :
      (t : RecvTask) (response : Response) (r : Runner)
      → (on_received execute t response r).outcome ≡ r.outcome
  unfolding on_received
  on_received-outcome no_task response r = refl
  on_received-outcome (done c) response r = refl
  on_received-outcome running response r = refl

  on_receive_ends-outcome :
      (t : RecvTask) (e : Ending) (r : Runner) → (on_receive_ends execute t e r).outcome ≡ r.outcome
  unfolding on_receive_ends
  on_receive_ends-outcome no_task e r = refl
  on_receive_ends-outcome (done c) e r = refl
  on_receive_ends-outcome running e r = refl

  handle-IsConsistent :
      (e : Event) (r : Runner) → IsConsistent r.outcome → IsConsistent (handle execute e r).outcome
  unfolding handle leave with_session
  handle-IsConsistent (pop now x) r h = on_pop-IsConsistent r.session.inbox now x r h
  handle-IsConsistent (received response) r h = rw (on_received-outcome r.recv response r) h
  handle-IsConsistent (receive_ends ending) r h = rw (on_receive_ends-outcome r.recv ending r) h
  handle-IsConsistent idle_timeout r h = refl
  handle-IsConsistent cancel r h = refl
  handle-IsConsistent (fatal exc) r h = (exc, refl)

  run-IsConsistent :
      (es : List Event) (r : Runner)
      → IsConsistent r.outcome
      → IsConsistent (run execute es r).outcome
  unfolding run step
  run-IsConsistent [] r h = h
  run-IsConsistent (e ∷ es) r h = elim (Option-cases r.outcome) [
    | inl going ↦
        rw (going, run, step) (run-IsConsistent es (handle execute e r) (handle-IsConsistent e r h))
    | inr (o, left) ↦ rw (left, run, step) (run-IsConsistent es r h)
  ]

  -- Whatever happens in whatever order after the session opens: if the loop has been left, then with
  -- status `closed`, `timeout` or `error`, and with an error message exactly when that is `error`.
  pub run_outcome :
      (es : List Event) (project : ProjectConfig) (s : SessionState)
      → IsConsistent (run execute es (open_session project s)).outcome
  run_outcome es project s =
      run-IsConsistent es (open_session project s) (unfold open_session in tt)
