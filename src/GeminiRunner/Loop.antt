-- ===== src/GeminiRunner/Loop.antt =====
-- `session_runner` of core/gemini_runner.py: the loop over the inbox with its concurrent receiver
-- task, and the `finally` block.
use factn_assistant_service.Base.{
  ℕ, ◌-◌, String, Bool, true, false, Option, none, some, List, [], ◌∷◌, str_append, if◌then◌else◌,
}
use factn_assistant_service.SessionEvents.{
  Status, closed, timeout, error, Totals, totals_of, Answer, deliver_session_closed,
}
use factn_assistant_service.Schemas.{ProjectConfig, SessionDoc}
use factn_assistant_service.SessionState.{
  SessionState, InputFrame, text, audio_chunk, activity_start, activity_end, set_speaker, stop,
  session_ready, speaker_mode_updated, session_ended, outbox_stop, send_outbox, set_speaker_mode,
  touch,
}
use factn_assistant_service.GeminiRunner.Defs.{
  FunctionCall, Response, Ending, Consumed, alive, was_cancelled, consume_one, consume_end, consume,
}
use factn_assistant_service.ToolExecutor.Defs.{Reply}
use factn_assistant_service.SessionEvents as Events
use factn_assistant_service.SessionState as State

-- `_recv_task`: None, a task that still runs, or a task that is done and not yet awaited.
pub data RecvTask : Type 0 where
  no_task running : RecvTask
  done : Consumed → RecvTask

-- How the loop was left: the values of `status` and `error_message`.
pub record Outcome : Type 0 where
  pub status : Status
  pub error_message : Option String

pub record Runner : Type 0 where
  pub session : SessionState
  pub recv : RecvTask
  pub outcome : Option Outcome

-- What Gemini does while the runner handles one frame: the failure of the send, if it fails, and
-- the responses that the runner waits for.
pub record Exchange : Type 0 where
  pub send_failure : Option String
  pub responses : List Response
  pub ending : Ending

-- What can happen next. `pop` takes the next frame off the inbox at a time of the monotonic
-- clock; `received` and `receive_ends` are steps of the receiver task. `idle_timeout` is a wait of
-- `session_ttl_seconds` in which no frame came. `cancel` is a CancelledError that the loop sees: one
-- that comes in while it awaits a receiver task that it has cancelled is swallowed there, changes
-- nothing, and is no event.
pub data Event : Type 0 where
  pop : ℕ → Exchange → Event
  received : Response → Event
  receive_ends : Ending → Event
  idle_timeout cancel : Event
  fatal : String → Event

unfoldable pub leave : Status → Option String → Runner → Runner
leave status error_message r = record r {
  outcome = some (record { status = status; error_message = error_message });
}

unfoldable pub with_session : SessionState → Runner → Runner
with_session s r = record r { session = s }

-- `send_outbox(("session_ready", …))` when the Gemini session is open
unfoldable pub open_session : ProjectConfig → SessionState → Runner
open_session project s = record {
  session = send_outbox (session_ready s.session_id s.speaker project.project_id project.name) s;
  recv = no_task;
  outcome = none;
}

-- What an awaited consumer does to the loop: on, break, or CancelledError.
unfoldable pub after_consume : Consumed → Runner → Runner
after_consume (alive true) r = r
after_consume (alive false) r = leave closed none r
after_consume was_cancelled r = leave closed none r

-- `_recv_task.cancel()` for a task that is not done
unfoldable pub cancel_recv : RecvTask → RecvTask
cancel_recv no_task = no_task
cancel_recv running = no_task
cancel_recv (done c) = done c

unfoldable pub on_activity_start : Exchange → Runner → Runner
on_activity_start x r = elim x.send_failure [
  | none ↦ record r { recv = running }
  | some exc ↦ record r {
    recv = cancel_recv r.recv;
    session = send_outbox (State.error (str_append "activity_start failed: " exc)) r.session;
  }
]

unfoldable pub on_set_speaker : Bool → Runner → Runner
on_set_speaker enabled r =
    with_session (send_outbox (speaker_mode_updated enabled) (set_speaker_mode enabled r.session)) r

-- the error frame for a send that failed
unfoldable pub report : String → Option String → Runner → Runner
report what none r = r
report what (some exc) r =
    with_session (send_outbox (State.error (str_append what exc)) r.session) r

-- `executor.execute`, of which the runner sees the reply
module _ (execute : FunctionCall → Reply) where
  -- the await of `_recv_task` after `activity_end`
  unfoldable pub await_recv : RecvTask → Exchange → Runner → Runner
  await_recv no_task x r = r
  await_recv (done c) x r = after_consume c (record r { recv = no_task })
  await_recv running x r =
      let (s', c) = consume execute x.responses x.ending r.session in
      after_consume c (record { session = s'; recv = no_task; outcome = r.outcome })

  unfoldable pub on_activity_end : Exchange → Runner → Runner
  on_activity_end x r = await_recv r.recv x (report "activity_end failed: " x.send_failure r)

  unfoldable pub send_turn : Exchange → Runner → Runner
  send_turn x r = elim x.send_failure [
    | some exc ↦
        with_session
          (send_outbox (State.error (str_append "Failed to send to Gemini: " exc)) r.session) r
    | none ↦
        let (s', c) = consume execute x.responses x.ending r.session in
        after_consume c (with_session s' r)
  ]

  -- Text is dropped while a receiver task is running.
  unfoldable pub on_text : RecvTask → Exchange → Runner → Runner
  on_text running x r = r
  on_text no_task x r = send_turn x r
  on_text (done c) x r = send_turn x r

  unfoldable pub on_frame : InputFrame → Exchange → Runner → Runner
  on_frame stop x r = leave closed none r
  on_frame (set_speaker enabled) x r = on_set_speaker enabled r
  on_frame activity_start x r = on_activity_start x r
  on_frame (audio_chunk bytes) x r = r
  on_frame activity_end x r = on_activity_end x r
  on_frame (text t) x r = on_text r.recv x r

  unfoldable pub on_pop : List InputFrame → ℕ → Exchange → Runner → Runner
  on_pop [] now x r = r
  on_pop (frame ∷ rest) now x r =
      on_frame frame x (with_session (touch now (record (r.session) { inbox = rest })) r)

  unfoldable pub on_received : RecvTask → Response → Runner → Runner
  on_received no_task response r = r
  on_received (done c) response r = r
  on_received running response r =
      let (s', over) = consume_one execute response r.session in
      record {
        session = s';
        recv = (if over then done (alive true) else running);
        outcome = r.outcome;
      }

  unfoldable pub on_receive_ends : RecvTask → Ending → Runner → Runner
  on_receive_ends no_task ending r = r
  on_receive_ends (done c) ending r = r
  on_receive_ends running ending r =
      let (s', c) = consume_end ending r.session in
      record { session = s'; recv = done c; outcome = r.outcome }

  unfoldable pub handle : Event → Runner → Runner
  handle (pop now x) r = on_pop r.session.inbox now x r
  handle (received response) r = on_received r.recv response r
  handle (receive_ends ending) r = on_receive_ends r.recv ending r
  handle idle_timeout r = leave timeout none r
  handle cancel r = leave closed none r
  handle (fatal exc) r =
      leave error (some exc)
        (with_session (send_outbox (State.error (str_append "Session error: " exc)) r.session) r)

  -- Once the loop is left no event is handled.
  unfoldable pub step : Event → Runner → Runner
  step e r = elim r.outcome [ some _ ↦ r | none ↦ handle e r ]

  unfoldable pub run : List Event → Runner → Runner
  run [] r = r
  run (e ∷ es) r = run es (step e r)

-- The arguments of `session_repo.close_session`, and the document that it makes of them at the time that
-- it reads itself. `round2` is Python's `round` of the seconds to two decimals.
unfoldable pub session_record : (ℕ → ℕ) → ProjectConfig → Outcome → ℕ → SessionState → SessionDoc
session_record round2 project o recorded_at s = record {
  id = s.session_id;
  project_id = project.project_id;
  tenant_id = project.tenant_id;
  api_key_id = s.api_key_id;
  status = o.status;
  started_at = s.started_at;
  ended_at = recorded_at;
  duration = round2 (recorded_at - s.started_at);
  turns = s.turns;
  tool_calls = s.tool_calls;
  input_tokens = s.input_tokens;
  output_tokens = s.output_tokens;
  error_message = o.error_message;
}

-- The `finally` block: the session record where there is a repository, the delivery of the closing
-- webhook if one is spawned, and the session with its last two frames. The block reads the clock at
-- `ended_at`, and `close_session` reads it again at `recorded_at`.
module _ (round2 : ℕ → ℕ) (sign : Events.Payload → String → String) where
  unfoldable pub finish :
      Bool
      → ProjectConfig
      → Outcome
      → ℕ
      → ℕ
      → (ℕ → Answer)
      → SessionState
      → Option SessionDoc × Option (List Events.Action × Bool) × SessionState
  finish has_repo project o ended_at recorded_at server s = (
    (if has_repo then some (session_record round2 project o recorded_at s) else none),
    deliver_session_closed sign project.webhook_url project.webhook_secret s.session_id
        project.project_id project.tenant_id o.status s.started_at
        (totals_of ended_at (round2 (ended_at - s.started_at)) s.turns s.tool_calls s.input_tokens
          s.output_tokens)
        o.error_message server,
    send_outbox outbox_stop (send_outbox session_ended s),
  )
