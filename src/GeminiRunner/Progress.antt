-- ===== src/GeminiRunner/Progress.antt =====
-- What every run of the loop keeps, whatever happens and in whatever order.
use factn_assistant_service.Base.{
  none, some, Option, String, inr, inl, Option-cases, refl, length, false, true, ap, [], ◌∷◌, ◌≡◌,
  length-append, Bool, List, ◌≤◌, arith, ℕ,
}
use factn_assistant_service.GeminiRunner.Loop.{
  report, cancel, idle_timeout, fatal, receive_ends, running, received, no_task, pop, done,
  RecvTask, Event, step, send_turn, run, on_text, on_received, on_receive_ends, on_pop, on_frame,
  on_activity_end, handle, await_recv, Exchange, on_activity_start, with_session, leave,
  on_set_speaker, after_consume, Runner,
}
use factn_assistant_service.SessionState.{
  activity_end, activity_start, stop, text, audio_chunk, set_speaker, speaker_mode_updated,
  set_speaker_mode, OutputFrame, put_nowait, InputFrame, touch, send_outbox, SessionState,
}
use factn_assistant_service.GeminiRunner.Counters.{
  consume_one-Advances, consume_end-Advances, consume-Advances, Advances,
}
use factn_assistant_service.GeminiRunner.Defs.{
  consume, Ending, Response, was_cancelled, FunctionCall, alive, Consumed,
}
use factn_assistant_service.ToolExecutor.Defs.{Reply}
use factn_assistant_service.SessionState.Bounds.{IsBounded}

-- What a step of the loop keeps of the session.
pub record Keeps (s s' : SessionState) : Type 0 where
  pub turns_grow : s.turns ≤ s'.turns
  pub tool_calls_grow : s.tool_calls ≤ s'.tool_calls
  pub bounded : IsBounded s → IsBounded s'

Keeps-refl : (s : SessionState) → Keeps s s
Keeps-refl s = record { turns_grow = omega arith; tool_calls_grow = omega arith; bounded = λ h. h }

Keeps-trans : {s t u : SessionState} → Keeps s t → Keeps t u → Keeps s u
Keeps-trans p q = record {
  turns_grow = omega arith;
  tool_calls_grow = omega arith;
  bounded = λ h. q.bounded (p.bounded h);
}

Advances→Keeps : {s s' : SessionState} → Advances s s' → Keeps s s'
Advances→Keeps p = record {
  turns_grow = p.turns_grow;
  tool_calls_grow = p.tool_calls_grow;
  bounded = λ h. record {
    inbox_fits = rw p.inbox_same h.inbox_fits;
    outbox_fits = p.outbox_fits h.outbox_fits;
  };
}

send_outbox-Keeps : (f : OutputFrame) (s : SessionState) → Keeps s (send_outbox f s)
unfolding send_outbox put_nowait
send_outbox-Keeps f s = ground (arith, length-append s.outbox (f ∷ []))

pop-Keeps :
    (now : ℕ) (frame : InputFrame) (rest : List InputFrame) (s : SessionState)
    → s.inbox ≡ frame ∷ rest
    → Keeps s (touch now (record s { inbox = rest }))
unfolding touch
pop-Keeps now frame rest s e = record {
  turns_grow = omega arith;
  tool_calls_grow = omega arith;
  bounded = λ h. record {
    inbox_fits = omega (arith, ap (length {A = InputFrame}) e);
    outbox_fits = h.outbox_fits;
  };
}

on_set_speaker-Keeps :
    (enabled : Bool) (r : Runner) → Keeps r.session (on_set_speaker enabled r).session
unfolding on_set_speaker with_session set_speaker_mode send_outbox put_nowait
on_set_speaker-Keeps enabled r =
    ground (arith, length-append r.session.outbox (speaker_mode_updated enabled ∷ []))

after_consume-session : (c : Consumed) (r : Runner) → (after_consume c r).session ≡ r.session
unfolding after_consume leave
after_consume-session (alive true) r = refl
after_consume-session (alive false) r = refl
after_consume-session was_cancelled r = refl

on_activity_start-Keeps :
    (x : Exchange) (r : Runner) → Keeps r.session (on_activity_start x r).session
unfolding on_activity_start
on_activity_start-Keeps x r = elim (Option-cases x.send_failure) [
  | inl sent ↦ rw (sent, on_activity_start) (Keeps-refl r.session)
  | inr (exc, broke) ↦ rw (broke, on_activity_start) (send_outbox-Keeps _ r.session)
]

report-Keeps :
    (what : String) (failure : Option String) (r : Runner)
    → Keeps r.session (report what failure r).session
unfolding report with_session
report-Keeps what none r = Keeps-refl r.session
report-Keeps what (some exc) r = send_outbox-Keeps _ r.session

module _ (execute : FunctionCall → Reply) where
  consume-Keeps :
      (rs : List Response) (e : Ending) (s : SessionState) → Keeps s (consume execute rs e s).0
  consume-Keeps rs e s = Advances→Keeps (consume-Advances execute rs e s)

  await_recv-Keeps :
      (t : RecvTask) (x : Exchange) (r : Runner)
      → Keeps r.session (await_recv execute t x r).session
  unfolding await_recv
  await_recv-Keeps no_task x r = Keeps-refl r.session
  await_recv-Keeps (done c) x r =
      rw (after_consume-session c (record r { recv = no_task })) (Keeps-refl r.session)
  await_recv-Keeps running x r =
      rw (after_consume-session _ _) (consume-Keeps x.responses x.ending r.session)

  on_activity_end-Keeps :
      (x : Exchange) (r : Runner) → Keeps r.session (on_activity_end execute x r).session
  unfolding on_activity_end
  on_activity_end-Keeps x r =
      Keeps-trans (report-Keeps "activity_end failed: " x.send_failure r)
        (await_recv-Keeps r.recv x (report "activity_end failed: " x.send_failure r))

  send_turn-Keeps : (x : Exchange) (r : Runner) → Keeps r.session (send_turn execute x r).session
  unfolding send_turn with_session
  send_turn-Keeps x r = elim (Option-cases x.send_failure) [
    | inl sent ↦
        rw (sent, send_turn)
          (rw (after_consume-session _ _) (consume-Keeps x.responses x.ending r.session))
    | inr (exc, broke) ↦ rw (broke, send_turn) (send_outbox-Keeps _ r.session)
  ]

  on_text-Keeps :
      (t : RecvTask) (x : Exchange) (r : Runner) → Keeps r.session (on_text execute t x r).session
  unfolding on_text
  on_text-Keeps running x r = Keeps-refl r.session
  on_text-Keeps no_task x r = send_turn-Keeps x r
  on_text-Keeps (done c) x r = send_turn-Keeps x r

  on_frame-Keeps :
      (f : InputFrame) (x : Exchange) (r : Runner)
      → Keeps r.session (on_frame execute f x r).session
  unfolding on_frame leave
  on_frame-Keeps stop x r = Keeps-refl r.session
  on_frame-Keeps (set_speaker enabled) x r = on_set_speaker-Keeps enabled r
  on_frame-Keeps activity_start x r = on_activity_start-Keeps x r
  on_frame-Keeps (audio_chunk bytes) x r = Keeps-refl r.session
  on_frame-Keeps activity_end x r = on_activity_end-Keeps x r
  on_frame-Keeps (text t) x r = on_text-Keeps r.recv x r

  on_pop-Keeps :
      (queue : List InputFrame) (now : ℕ) (x : Exchange) (r : Runner)
      → r.session.inbox ≡ queue
      → Keeps r.session (on_pop execute queue now x r).session
  unfolding on_pop with_session
  on_pop-Keeps [] now x r e = Keeps-refl r.session
  on_pop-Keeps (frame ∷ rest) now x r e = Keeps-trans (pop-Keeps now frame rest r.session e) (
      on_frame-Keeps frame x
        (record r { session = touch now (record (r.session) { inbox = rest }) }))

  on_received-Keeps :
      (t : RecvTask) (response : Response) (r : Runner)
      → Keeps r.session (on_received execute t response r).session
  unfolding on_received
  on_received-Keeps no_task response r = Keeps-refl r.session
  on_received-Keeps (done c) response r = Keeps-refl r.session
  on_received-Keeps running response r =
      Advances→Keeps (consume_one-Advances execute response r.session)

  on_receive_ends-Keeps :
      (t : RecvTask) (e : Ending) (r : Runner)
      → Keeps r.session (on_receive_ends execute t e r).session
  unfolding on_receive_ends
  on_receive_ends-Keeps no_task e r = Keeps-refl r.session
  on_receive_ends-Keeps (done c) e r = Keeps-refl r.session
  on_receive_ends-Keeps running e r = Advances→Keeps (consume_end-Advances e r.session)

  handle-Keeps : (e : Event) (r : Runner) → Keeps r.session (handle execute e r).session
  unfolding handle leave with_session
  handle-Keeps (pop now x) r = on_pop-Keeps r.session.inbox now x r refl
  handle-Keeps (received response) r = on_received-Keeps r.recv response r
  handle-Keeps (receive_ends ending) r = on_receive_ends-Keeps r.recv ending r
  handle-Keeps idle_timeout r = Keeps-refl r.session
  handle-Keeps cancel r = Keeps-refl r.session
  handle-Keeps (fatal exc) r = send_outbox-Keeps _ r.session

  step-Keeps : (e : Event) (r : Runner) → Keeps r.session (step execute e r).session
  unfolding step
  step-Keeps e r = elim (Option-cases r.outcome) [
    | inl going ↦ rw (going, step) (handle-Keeps e r)
    | inr (o, left) ↦ rw (left, step) (Keeps-refl r.session)
  ]

  run-Keeps : (es : List Event) (r : Runner) → Keeps r.session (run execute es r).session
  unfolding run
  run-Keeps [] r = Keeps-refl r.session
  run-Keeps (e ∷ es) r = Keeps-trans (step-Keeps e r) (run-Keeps es (step execute e r))

  -- Whatever happens in whatever order, a run of the loop from a session whose queues are within
  -- their sizes leaves them within their sizes, and does not lower the counts of turns and tool calls.
  pub run-IsBounded :
      (es : List Event) (r : Runner)
      → IsBounded r.session
      → IsBounded (run execute es r).session
        × (r.session.turns ≤ (run execute es r).session.turns)
        × (r.session.tool_calls ≤ (run execute es r).session.tool_calls)
  run-IsBounded es r h =
      let kept = run-Keeps es r in (kept.bounded h, kept.turns_grow, kept.tool_calls_grow)
