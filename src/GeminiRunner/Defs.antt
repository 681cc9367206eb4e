-- ===== src/GeminiRunner/Defs.antt =====
-- The response consumer of core/gemini_runner.py: `_handle_tool_call`, `_capture_usage` and
-- `_consume_gemini_responses`.
use factn_assistant_service.Base.{
  ℕ, ◌+◌, String, Bool, true, false, ◌&&◌, ◌||◌, not, Option, none, some, List, [], ◌∷◌, ◌==◌,
  str_eq, str_append, if◌then◌else◌,
}
use factn_assistant_service.Json.{Json}
use factn_assistant_service.ToolExecutor.Defs.{Reply}
use factn_assistant_service.SessionState.{
  SessionState, OutputFrame, audio_pcm, assistant_text, user_transcript, tool_call, turn_complete,
  error, send_outbox,
}

-- `fc`: its name, its arguments as a dict and its id.
pub record FunctionCall : Type 0 where
  pub name : String
  pub args : Json
  pub call_id : String

-- `usage_metadata`; a count that is absent or None is 0
pub record Usage : Type 0 where
  pub total : ℕ
  pub prompt : ℕ
  pub candidates : ℕ

-- `server_content`: the audio of its parts, the texts of its transcriptions and its two flags.
pub record ServerContent : Type 0 where
  pub audio : List (Option (List ℕ))
  pub output_transcription : Option String
  pub input_transcription : Option String
  pub interrupted : Bool
  pub turn_complete_flag : Bool

-- A tool call holds its function calls and, if sending the responses back fails, the failure's text.
pub record ToolCall : Type 0 where
  pub function_calls : List FunctionCall
  pub send_failure : Option String

pub record Response : Type 0 where
  pub usage_metadata : Option Usage
  pub server_content : Option ServerContent
  pub tool_call_part : Option ToolCall

-- How the generator `gsession.receive()` stops where no response has ended the turn.
pub data Ending : Type 0 where
  exhausted : Ending
  failed : String → Ending
  cancelled : Ending

-- What the consumer task comes to: its Boolean result, or CancelledError.
pub data Consumed : Type 0 where
  alive : Bool → Consumed
  was_cancelled : Consumed

unfoldable pub capture_usage : Usage → SessionState → SessionState
capture_usage u s =
    if not (u.total == 0) && (u.prompt == 0 && u.candidates == 0)
    then record s { output_tokens = u.total }
    else record s { input_tokens = u.prompt; output_tokens = u.candidates }

-- the parts of a model turn: audio goes out only in speaker mode
unfoldable pub send_audio : List (Option (List ℕ)) → SessionState → SessionState
send_audio [] s = s
send_audio (none ∷ parts) s = send_audio parts s
send_audio (some [] ∷ parts) s = send_audio parts s
send_audio (some (b ∷ bytes) ∷ parts) s =
    send_audio parts (if s.speaker then send_outbox (audio_pcm (b ∷ bytes)) s else s)

-- `if transcription and transcription.text:`
unfoldable pub send_text : (String → OutputFrame) → Option String → SessionState → SessionState
send_text frame none s = s
send_text frame (some t) s = if str_eq t "" then s else send_outbox (frame t) s

unfoldable pub count_turn : SessionState → SessionState
count_turn s = send_outbox turn_complete (record s { turns = s.turns + 1 })

-- The part on `server_content`; true where the turn is over.
unfoldable pub consume_content : ServerContent → SessionState → SessionState × Bool
consume_content sc s =
    let s' =
      send_text user_transcript sc.input_transcription
        (send_text assistant_text sc.output_transcription (send_audio sc.audio s)) in
    if sc.interrupted || sc.turn_complete_flag then (count_turn s', true) else (s', false)

unfoldable pub use_metadata : Option Usage → SessionState → SessionState
use_metadata none s = s
use_metadata (some u) s = capture_usage u s

unfoldable pub consume_server_content : Option ServerContent → SessionState → SessionState × Bool
consume_server_content none s = (s, false)
consume_server_content (some sc) s = consume_content sc s

unfoldable pub consume_end : Ending → SessionState → SessionState × Consumed
consume_end exhausted s = (s, alive false)
consume_end (failed exc) s =
    (send_outbox (error (str_append "Gemini receive error: " exc)) s, alive false)
consume_end cancelled s = (s, was_cancelled)

-- `executor.execute`, of which the caller sees the reply
module _ (execute : FunctionCall → Reply) where
  unfoldable pub call_functions : List FunctionCall → SessionState → SessionState
  call_functions [] s = s
  call_functions (fc ∷ fcs) s = call_functions fcs (
      send_outbox (tool_call fc.name fc.args (execute fc) fc.call_id)
        (record s { tool_calls = s.tool_calls + 1 }))

  unfoldable pub handle_tool_call : ToolCall → SessionState → SessionState
  handle_tool_call t s =
      let s' = call_functions t.function_calls s in
      elim t.send_failure [
        | none ↦ s'
        | some exc ↦ send_outbox (error (str_append "Tool response failed: " exc)) s'
      ]

  unfoldable pub consume_tool_call : Option ToolCall → SessionState → SessionState
  consume_tool_call none s = s
  consume_tool_call (some t) s = handle_tool_call t s

  -- One pass of `async for response in gsession.receive()`; true where it returns True.
  unfoldable pub consume_one : Response → SessionState → SessionState × Bool
  consume_one r s =
      let (s', over) = consume_server_content r.server_content (use_metadata r.usage_metadata s) in
      if over then (s', true) else (consume_tool_call r.tool_call_part s', false)

  -- `_consume_gemini_responses`
  unfoldable pub consume : List Response → Ending → SessionState → SessionState × Consumed
  consume [] ending s = consume_end ending s
  consume (r ∷ rs) ending s =
      let (s', over) = consume_one r s in
      elim over [ true ↦ (s', alive true) | false ↦ consume rs ending s' ]
