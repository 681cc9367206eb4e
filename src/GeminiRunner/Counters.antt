-- ===== src/GeminiRunner/Counters.antt =====
-- What a run of the session never does: lose a count, overfill a queue, or send audio while the
-- speaker is off.
use factn_assistant_service.GeminiRunner.Defs.{
  cancelled, exhausted, failed, ToolCall, handle_tool_call, Response, consume_tool_call,
  consume_one, consume, call_functions, Usage, ServerContent, Ending, use_metadata, send_text,
  send_audio, count_turn, consume_server_content, consume_end, consume_content, capture_usage,
  FunctionCall,
}
use factn_assistant_service.Base.{
  none, some, if◌then◌else◌, Option, ◌+◌, String, List, ℕ, ◌≤◌, ◌≡◌, refl, ◌∙◌, Bool, true, false,
  [], ◌∷◌, arith, length, count_if, length-append, count_if-append, Bool-cases, Option-cases, inl,
  inr, str_eq, ◌||◌,
}
use factn_assistant_service.SessionState.{
  tool_call, assistant_text, user_transcript, turn_complete, error, SessionState, OutputFrame,
  audio_pcm, put_nowait, send_outbox, outbox_max_size,
}
use factn_assistant_service.ToolExecutor.Defs.{Reply}

unfoldable pub is_audio : OutputFrame → Bool
is_audio (audio_pcm _) = true
is_audio _ = false

-- the audio frames that wait in the outbox
unfoldable pub audio_frames : SessionState → ℕ
audio_frames s = count_if is_audio s.outbox

-- What consuming responses may change: it counts up, and with the speaker off it queues no audio.
pub record Advances (s s' : SessionState) : Type 0 where
  pub turns_grow : s.turns ≤ s'.turns
  pub tool_calls_grow : s.tool_calls ≤ s'.tool_calls
  pub outbox_fits : length s.outbox ≤ outbox_max_size → length s'.outbox ≤ outbox_max_size
  pub inbox_same : s'.inbox ≡ s.inbox
  pub speaker_same : s'.speaker ≡ s.speaker
  pub started_same : s'.started_at ≡ s.started_at
  pub silent : s.speaker ≡ false → audio_frames s' ≡ audio_frames s

pub Advances-refl : (s : SessionState) → Advances s s
Advances-refl s = record {
  turns_grow = omega arith;
  tool_calls_grow = omega arith;
  outbox_fits = λ h. h;
  inbox_same = refl;
  speaker_same = refl;
  started_same = refl;
  silent = λ _. refl;
}

pub Advances-trans : {s t u : SessionState} → Advances s t → Advances t u → Advances s u
Advances-trans p q = record {
  turns_grow = omega arith;
  tool_calls_grow = omega arith;
  outbox_fits = λ h. q.outbox_fits (p.outbox_fits h);
  inbox_same = q.inbox_same ∙ p.inbox_same;
  speaker_same = q.speaker_same ∙ p.speaker_same;
  started_same = q.started_same ∙ p.started_same;
  silent = λ off. q.silent (p.speaker_same ∙ off) ∙ p.silent off;
}

send_outbox-Advances :
    (f : OutputFrame) (s : SessionState)
    → (s.speaker ≡ false → is_audio f ≡ false)
    → Advances s (send_outbox f s)
unfolding send_outbox put_nowait audio_frames
send_outbox-Advances f s quiet =
    ground
      (arith, length-append s.outbox (f ∷ []), count_if-append is_audio s.outbox (f ∷ []), quiet)

send_part :
    (bytes : List ℕ) (s : SessionState)
    → Advances s (if s.speaker then send_outbox (audio_pcm bytes) s else s)
send_part bytes s = elim (Bool-cases s.speaker) [
  | inl on ↦ simp on (send_outbox-Advances (audio_pcm bytes) s (λ off. cc))
  | inr off ↦ simp off (Advances-refl s)
]

turns_up : (s : SessionState) → Advances s (record s { turns = s.turns + 1 })
unfolding audio_frames
turns_up s = ground arith

tool_calls_up : (s : SessionState) → Advances s (record s { tool_calls = s.tool_calls + 1 })
unfolding audio_frames
tool_calls_up s = ground arith

capture_usage-Advances : (u : Usage) (s : SessionState) → Advances s (capture_usage u s)
unfolding capture_usage audio_frames
capture_usage-Advances u s = ground arith

send_audio-Advances :
    (parts : List (Option (List ℕ))) (s : SessionState) → Advances s (send_audio parts s)
unfolding send_audio
send_audio-Advances [] s = Advances-refl s
send_audio-Advances (none ∷ parts) s = send_audio-Advances parts s
send_audio-Advances (some [] ∷ parts) s = send_audio-Advances parts s
send_audio-Advances (some (b ∷ bytes) ∷ parts) s =
    Advances-trans (send_part (b ∷ bytes) s)
      (send_audio-Advances parts (if s.speaker then send_outbox (audio_pcm (b ∷ bytes)) s else s))

send_text-Advances :
    (frame : String → OutputFrame) (t : Option String) (s : SessionState)
    → ((x : String) → is_audio (frame x) ≡ false)
    → Advances s (send_text frame t s)
unfolding send_text
send_text-Advances frame none s h = Advances-refl s
send_text-Advances frame (some t) s h = elim (Bool-cases (str_eq t "")) [
  | inl is_empty ↦ rw (is_empty, send_text) (Advances-refl s)
  | inr some_text ↦ rw (some_text, send_text) (send_outbox-Advances (frame t) s (λ _. h t))
]

count_turn-Advances : (s : SessionState) → Advances s (count_turn s)
unfolding count_turn
count_turn-Advances s = Advances-trans (turns_up s) (
    send_outbox-Advances turn_complete (record s { turns = s.turns + 1 })
      (λ _. unfold is_audio in refl))

use_metadata-Advances : (u : Option Usage) (s : SessionState) → Advances s (use_metadata u s)
unfolding use_metadata
use_metadata-Advances none s = Advances-refl s
use_metadata-Advances (some u) s = capture_usage-Advances u s

consume_content-Advances :
    (sc : ServerContent) (s : SessionState) → Advances s (consume_content sc s).0
unfolding consume_content
consume_content-Advances sc s = elim (Bool-cases (sc.interrupted || sc.turn_complete_flag)) [
  | inl over ↦ rw (over, consume_content) (Advances-trans texts (count_turn-Advances _))
  | inr going ↦ rw (going, consume_content) texts
]
  where
    quiet_in : (x : String) → is_audio (user_transcript x) ≡ false
    quiet_in x = unfold is_audio in refl

    quiet_out : (x : String) → is_audio (assistant_text x) ≡ false
    quiet_out x = unfold is_audio in refl

    texts : Advances s (
        send_text user_transcript sc.input_transcription
          (send_text assistant_text sc.output_transcription (send_audio sc.audio s)))
    texts = Advances-trans (send_audio-Advances sc.audio s) (
        Advances-trans (send_text-Advances assistant_text sc.output_transcription _ quiet_out)
          (send_text-Advances user_transcript sc.input_transcription _ quiet_in))

consume_server_content-Advances :
    (sc : Option ServerContent) (s : SessionState) → Advances s (consume_server_content sc s).0
unfolding consume_server_content
consume_server_content-Advances none s = Advances-refl s
consume_server_content-Advances (some sc) s = consume_content-Advances sc s

error-Advances : (e : String) (s : SessionState) → Advances s (send_outbox (error e) s)
error-Advances e s = send_outbox-Advances (error e) s (λ _. unfold is_audio in refl)

pub consume_end-Advances : (e : Ending) (s : SessionState) → Advances s (consume_end e s).0
unfolding consume_end
consume_end-Advances exhausted s = Advances-refl s
consume_end-Advances (failed exc) s = error-Advances _ s
consume_end-Advances cancelled s = Advances-refl s

module _ (execute : FunctionCall → Reply) where
  call_functions-Advances :
      (fcs : List FunctionCall) (s : SessionState) → Advances s (call_functions execute fcs s)
  unfolding call_functions
  call_functions-Advances [] s = Advances-refl s
  call_functions-Advances (fc ∷ fcs) s = Advances-trans (tool_calls_up s) (
      Advances-trans
        (send_outbox-Advances (tool_call fc.name fc.args (execute fc) fc.call_id)
          (record s { tool_calls = s.tool_calls + 1 }) (λ _. unfold is_audio in refl))
        (call_functions-Advances fcs (
          send_outbox (tool_call fc.name fc.args (execute fc) fc.call_id)
            (record s { tool_calls = s.tool_calls + 1 }))))

  consume_tool_call-Advances :
      (t : Option ToolCall) (s : SessionState) → Advances s (consume_tool_call execute t s)
  unfolding consume_tool_call handle_tool_call
  consume_tool_call-Advances none s = Advances-refl s
  consume_tool_call-Advances (some t) s = elim (Option-cases t.send_failure) [
    | inl sent ↦
        rw (sent, consume_tool_call, handle_tool_call) (call_functions-Advances t.function_calls s)
    | inr (exc, broke) ↦
        rw (broke, consume_tool_call, handle_tool_call)
          (Advances-trans (call_functions-Advances t.function_calls s) (error-Advances _ _))
  ]

  pub consume_one-Advances :
      (r : Response) (s : SessionState) → Advances s (consume_one execute r s).0
  unfolding consume_one
  consume_one-Advances r s =
      let s₁ = use_metadata r.usage_metadata s in
      let content =
        Advances-trans (use_metadata-Advances r.usage_metadata s)
          (consume_server_content-Advances r.server_content s₁) in
      elim (Bool-cases (consume_server_content r.server_content s₁).1) [
        | inl over ↦ rw (over, consume_one) content
        | inr going ↦
            rw (going, consume_one)
              (Advances-trans content (consume_tool_call-Advances r.tool_call_part _))
      ]

  pub consume-Advances :
      (rs : List Response) (e : Ending) (s : SessionState) → Advances s (consume execute rs e s).0
  unfolding consume
  consume-Advances [] e s = consume_end-Advances e s
  consume-Advances (r ∷ rs) e s = elim (Bool-cases (consume_one execute r s).1) [
    | inl over ↦ rw (over, consume) (consume_one-Advances r s)
    | inr going ↦
        rw (going, consume)
          (Advances-trans (consume_one-Advances r s)
            (consume-Advances rs e (consume_one execute r s).0))
  ]

  -- With the speaker off and an outbox within its size: whatever Gemini sends and however it stops,
  -- consuming it queues no audio frame, keeps the outbox within its size and the inbox and the speaker
  -- as they are, and does not lower the counts of turns and tool calls.
  pub consume_muted :
      (rs : List Response) (e : Ending) (s : SessionState)
      → s.speaker ≡ false
      → length s.outbox ≤ outbox_max_size
      → let s' = (consume execute rs e s).0 in
        (audio_frames s' ≡ audio_frames s)
        × (length s'.outbox ≤ outbox_max_size)
        × (s'.inbox ≡ s.inbox)
        × (s'.speaker ≡ false)
        × (s.turns ≤ s'.turns)
        × (s.tool_calls ≤ s'.tool_calls)
  consume_muted rs e s off fits =
      let p = consume-Advances rs e s in
      (
        p.silent off,
        p.outbox_fits fits,
        p.inbox_same,
        p.speaker_same ∙ off,
        p.turns_grow,
        p.tool_calls_grow,
      )
