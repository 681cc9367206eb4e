-- ===== src/Tests/Sessions.antt =====
-- The manager and the runner on short histories.
use factn_assistant_service.Base.{
  leb, keep_if, ◌-◌, ◌+◌, ◌≤◌, ◌≡◌, true, false, ◌∷◌, [], Bool, ℕ, some, none, arith, List, String,
  refl,
}
use factn_assistant_service.SessionManager.Stop.{sweep-sessions}
use factn_assistant_service.GeminiRunner.Closing.{run_outcome, IsConsistent}
use factn_assistant_service.SessionState.{is_idle, new_session, text}
use factn_assistant_service.Base.Dict.{put, lookup}
use factn_assistant_service.SessionManager.{
  register, sweep, create_session, stale_ids, task_ends, terminate, run_callback, get_or_create,
  sessions_for, Manager,
}
use factn_assistant_service.Tests.{round2, chat_session, hook, sign, echo_tool, project}
use factn_assistant_service.SessionManager.Reach.{
  opens, calls_back, here, next, Reach-IsWithinCaps, empty_manager,
}
use factn_assistant_service.GeminiRunner.Finish.{finish_agrees}
use factn_assistant_service.SessionManager.Stale.{stale_callback}
use factn_assistant_service.SessionEvents.Delivery.{closed_post, DeliversOnce}
use factn_assistant_service.GeminiRunner.Progress.{run-IsBounded}
use factn_assistant_service.GeminiRunner.Loop.{
  open_session, idle_timeout, received, pop, running, finish, run, Runner, Outcome, Exchange,
}
use factn_assistant_service.GeminiRunner.Defs.{exhausted, Response}
use factn_assistant_service.SessionState.Bounds.{IsBounded}
use factn_assistant_service.SessionManager.Cap.{IsWithinCaps}
use factn_assistant_service.Schemas.{SessionDoc}
use factn_assistant_service.SessionEvents as Events

abbrev cap : String → ℕ
cap p = 2

abbrev opened : Manager
opened = (get_or_create "s1" project "k1" 20 1_000 empty_manager).1

Reach-IsWithinCaps_example :
    IsWithinCaps cap (get_or_create "s2" project "k1" 30 2_000 (run_callback opened)).1
Reach-IsWithinCaps_example = Reach-IsWithinCaps (
    next
      (next (next here (opens "s1" project "k1" 20 1_000 empty_manager refl)) (calls_back opened))
      (opens "s2" project "k1" 30 2_000 (run_callback opened) refl))

stale_callback_example :
    let first = (get_or_create "s1" project "k1" 20 1_000 empty_manager).1 in
    let again = (get_or_create "s1" project "k1" 20 1_000 (terminate "s1" first).1).1 in
    let later = run_callback (task_ends 0 "s1" again) in
    (lookup "s1" again.sessions
      ≡ some (record { state = new_session "s1" "p1" "k1" 20 1_000; worker_task = 1 }))
    × (lookup "s1" later.sessions ≡ none)
    × (later.tasks ≡ (1, "s1") ∷ [])
unfolding sessions_for lookup
stale_callback_example =
    stale_callback "s1" project "k1" 20 1_000 empty_manager refl (omega arith) refl

abbrev quiet : Exchange
quiet = record { send_failure = none; responses = []; ending = exhausted }

abbrev reply : Response
reply = record {
  usage_metadata = some (record { total = 90; prompt = 40; candidates = 50 });
  server_content = some (record {
    audio = some (1 ∷ 2 ∷ []) ∷ [];
    output_transcription = some "hi";
    input_transcription = none;
    interrupted = false;
    turn_complete_flag = true;
  });
  tool_call_part = none;
}

abbrev talking : Runner
talking = record {
  session = record chat_session { inbox = text "late" ∷ [] };
  recv = running;
  outcome = none;
}

chat_session-IsBounded : IsBounded talking.session
chat_session-IsBounded = record { inbox_fits = omega arith; outbox_fits = omega arith }

run-IsBounded_example :
    let after =
      (run echo_tool (received reply ∷ pop 40 quiet ∷ idle_timeout ∷ []) talking).session in
    IsBounded after × (3 ≤ after.turns) × (1 ≤ after.tool_calls)
run-IsBounded_example =
    run-IsBounded echo_tool (received reply ∷ pop 40 quiet ∷ idle_timeout ∷ []) talking
      chat_session-IsBounded

run_outcome_example :
    IsConsistent
      (run echo_tool
        (received reply ∷ idle_timeout ∷ [])
        (open_session project chat_session)).outcome
run_outcome_example =
    run_outcome echo_tool (received reply ∷ idle_timeout ∷ []) project chat_session

abbrev timed_out : Outcome
timed_out = record { status = Events.timeout; error_message = none }

finish_agrees_example :
    (d : SessionDoc) × (w : List Events.Action × Bool) × ((finish round2 sign true project timed_out
        5_000 25_000 hook chat_session).0
      ≡ some d)
    × ((finish round2 sign true project timed_out 5_000 25_000 hook chat_session).1 ≡ some w)
    × DeliversOnce
        (closed_post sign "https://shop.example/hook"
          (some "whsec")
          d.id
          d.project_id
          d.tenant_id
          d.status
          d.started_at
          (record {
            ended_at = 5_000;
            duration = round2 (5_000 - d.started_at);
            turns = d.turns;
            tool_calls = d.tool_calls;
            input_tokens = d.input_tokens;
            output_tokens = d.output_tokens;
            total_tokens = d.input_tokens + d.output_tokens;
          })
          d.error_message)
        hook
        w
    × (d.ended_at ≡ 25_000)
    × (d.duration ≡ round2 (25_000 - d.started_at))
finish_agrees_example =
    finish_agrees round2 sign project timed_out 5_000 25_000 hook chat_session
      "https://shop.example/hook" refl refl

sweep-sessions_example :
    (sweep 400_000 opened).sessions
    ≡ keep_if (λ e. leb 400_000 (e.1.state.last_active + 300_000)) opened.sessions
unfolding get_or_create create_session lookup sessions_for register put new_session
sweep-sessions_example = sweep-sessions 400_000 opened (tt, tt)

opened_is_stale : stale_ids 400_000 opened ≡ "s1" ∷ []
unfolding stale_ids get_or_create create_session lookup sessions_for register put is_idle
    new_session
opened_is_stale = refl
