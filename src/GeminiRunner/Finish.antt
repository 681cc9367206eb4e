-- ===== src/GeminiRunner/Finish.antt =====
-- The `finally` block of `session_runner`, and text during a voice turn.
use factn_assistant_service.GeminiRunner.Loop.{
  pop, running, Exchange, on_text, on_frame, Outcome, with_session, on_pop, session_record, handle,
  step, finish, Runner,
}
use mathlib.Core.List.{append_assoc}
use factn_assistant_service.Base.{
  ◌∙◌, length-append, ◌<◌, ◌-◌, arith, none, true, [], ◌∷◌, false, ◌++◌, str_eq, List, ◌≤◌, ◌+◌,
  some, ◌≡◌, length, Bool, String, ℕ, refl,
}
use factn_assistant_service.SessionEvents.Delivery.{
  deliver_session_closed_once, closed_post, DeliversOnce,
}
use factn_assistant_service.SessionState.{
  send_outbox, touch, text, outbox_stop, session_ended, InputFrame, outbox_max_size, SessionState,
}
use factn_assistant_service.SessionState.Bounds.{outbox-send_outbox, send_outbox_full}
use factn_assistant_service.Schemas.{SessionDoc, ProjectConfig}
use factn_assistant_service.ToolExecutor.Defs.{Reply}
use factn_assistant_service.GeminiRunner.Defs.{FunctionCall}
use factn_assistant_service.SessionEvents.{Answer, totals_of}
use factn_assistant_service.SessionEvents as Events

-- With a webhook URL and a repository, whatever the outcome, the session record and the closing
-- webhook agree: the deliveries, under the delivery contract, post the ids, status, start, counts and
-- message that the record holds, and the total of its tokens. The end and the rounded duration that
-- they post are those of the runner's clock, where the record has those of its own later reading.
pub finish_agrees :
    (round2 : ℕ → ℕ) (sign : Events.Payload → String → String) (project : ProjectConfig)
    (o : Outcome) (ended_at recorded_at : ℕ) (server : ℕ → Answer) (s : SessionState) (url : String)
    → project.webhook_url ≡ some url
    → str_eq url "" ≡ false
    → (d : SessionDoc) × (w : List Events.Action × Bool) × ((finish round2 sign true project o
          ended_at recorded_at server s).0
        ≡ some d)
      × ((finish round2 sign true project o ended_at recorded_at server s).1 ≡ some w)
      × DeliversOnce
          (closed_post sign url project.webhook_secret d.id d.project_id d.tenant_id d.status
            d.started_at
            (record {
              ended_at = ended_at;
              duration = round2 (ended_at - d.started_at);
              turns = d.turns;
              tool_calls = d.tool_calls;
              input_tokens = d.input_tokens;
              output_tokens = d.output_tokens;
              total_tokens = d.input_tokens + d.output_tokens;
            })
            d.error_message)
          server
          w
      × (d.ended_at ≡ recorded_at)
      × (d.duration ≡ round2 (recorded_at - d.started_at))
unfolding finish session_record totals_of
finish_agrees round2 sign project o ended_at recorded_at server s url has_url not_empty =
    let totals =
      totals_of ended_at (round2 (ended_at - s.started_at)) s.turns s.tool_calls s.input_tokens
        s.output_tokens in
    let sent =
      deliver_session_closed_once sign url s.session_id project.project_id project.tenant_id
        project.webhook_secret o.error_message o.status s.started_at totals server not_empty in
    (
      session_record round2 project o recorded_at s,
      sent.0,
      refl,
      rw has_url sent.1,
      sent.2,
      refl,
      refl,
    )

-- With room for two frames, the outbox ends in `session_ended` and then the sentinel.
pub finish_last_frames :
    (round2 : ℕ → ℕ) (sign : Events.Payload → String → String) (has_repo : Bool)
    (project : ProjectConfig) (o : Outcome) (ended_at recorded_at : ℕ) (server : ℕ → Answer)
    (s : SessionState)
    → length s.outbox + 2 ≤ outbox_max_size
    → (finish round2 sign has_repo project o ended_at recorded_at server s).2.outbox
      ≡ s.outbox ++ session_ended ∷ outbox_stop ∷ []
unfolding finish
finish_last_frames round2 sign has_repo project o ended_at recorded_at server s room =
    let first = outbox-send_outbox session_ended s (omega arith) in
    let fits : length (send_outbox session_ended s).outbox < outbox_max_size =
      rw first (omega (arith, length-append s.outbox (session_ended ∷ []))) in
    outbox-send_outbox outbox_stop (send_outbox session_ended s) fits
    ∙ rw first (append_assoc s.outbox (session_ended ∷ []) (outbox_stop ∷ []))

-- With a full outbox the last two frames are both lost: the session stays as it is.
pub finish_full_outbox :
    (round2 : ℕ → ℕ) (sign : Events.Payload → String → String) (has_repo : Bool)
    (project : ProjectConfig) (o : Outcome) (ended_at recorded_at : ℕ) (server : ℕ → Answer)
    (s : SessionState)
    → outbox_max_size ≤ length s.outbox
    → (finish round2 sign has_repo project o ended_at recorded_at server s).2 ≡ s
unfolding finish
finish_full_outbox round2 sign has_repo project o ended_at recorded_at server s full =
    rw (send_outbox_full session_ended s full) (send_outbox_full outbox_stop s full)

-- A text that is popped while a receiver task runs is dropped: only the inbox and the time of the
-- last activity change.
pub text_dropped :
    (execute : FunctionCall → Reply) (t : String) (rest : List InputFrame) (now : ℕ) (x : Exchange)
    (r : Runner)
    → r.recv ≡ running
    → r.outcome ≡ none
    → r.session.inbox ≡ text t ∷ rest
    → step execute (pop now x) r
      ≡ record r { session = touch now (record (r.session) { inbox = rest }) }
unfolding step handle on_pop with_session on_frame on_text
text_dropped execute t rest now x r voice going queued = ground arith
