-- ===== src/ProjectApi/TestTurn.antt =====
-- `test_project` and `_run_test_turn` of api/projects.py. What Gemini does in the turn is an argument:
-- the responses that it streams and how the stream ends. The latency is left out.
use factn_assistant_service.Base.{
  ◌&&◌, ◌||◌, ◌==◌, str_eq, ◌++◌, true, str_append, ok, none, if◌then◌else◌, false, err, ◌∷◌, ℕ,
  some, Bool, [], String, Result, Option, List,
}
use factn_assistant_service.Json.{Json}
use factn_assistant_service.Texts.{strip}
use factn_assistant_service.ProjectApi.{get_or_404}
use factn_assistant_service.GeminiRunner.Defs.{Usage, FunctionCall, ToolCall}
use factn_assistant_service.Schemas.{TenantDoc, ProjectDoc}
use factn_assistant_service.Services.{Collection}

-- `server_content`: the transcription's text, the texts of the model turn's parts and the two flags
pub record TestContent : Type 0 where
  pub output_transcription : Option String
  pub part_texts : List (Option String)
  pub turn_complete_flag : Bool
  pub interrupted : Bool

pub record TestEvent : Type 0 where
  pub usage_metadata : Option Usage
  pub server_content : Option TestContent
  pub tool_call_part : Option ToolCall

-- How the stream stops where no response ends the turn: it is exhausted, the call raises, or the
-- caller's timeout runs out.
pub data StreamEnd : Type 0 where
  stream_exhausted stream_raised stream_timed_out : StreamEnd

-- What the turn has gathered; a logged call is its name and arguments.
pub record Turn : Type 0 where
  pub assistant_parts : List String
  pub tool_calls : List (String × Json)
  pub input_tokens : ℕ
  pub output_tokens : ℕ

abbrev pub no_turn : Turn
no_turn = record { assistant_parts = []; tool_calls = []; input_tokens = 0; output_tokens = 0 }

-- Where both counts are 0 the total counts as output.
unfoldable pub note_usage : Option Usage → Turn → Turn
note_usage none t = t
note_usage (some u) t = record t {
  input_tokens = u.prompt;
  output_tokens = if u.prompt == 0 && u.candidates == 0 then u.total else u.candidates;
}

-- `if part.text:`
unfoldable pub add_text : Option String → List String → List String
add_text none parts = parts
add_text (some text) parts = if str_eq text "" then parts else parts ++ text ∷ []

unfoldable pub add_texts : List (Option String) → List String → List String
add_texts [] parts = parts
add_texts (text ∷ texts) parts = add_texts texts (add_text text parts)

-- The texts of a content, and whether it ends the turn
unfoldable pub note_content : Option TestContent → Turn → Turn × Bool
note_content none t = (t, false)
note_content (some sc) t =
    let parts = add_texts sc.part_texts (add_text sc.output_transcription t.assistant_parts) in
    (record t { assistant_parts = parts }, sc.turn_complete_flag || sc.interrupted)

-- Every call is logged; nothing is executed.
unfoldable pub note_calls : List FunctionCall → Turn → Turn
note_calls [] t = t
note_calls (fc ∷ fcs) t =
    note_calls fcs (record t { tool_calls = t.tool_calls ++ (fc.name, fc.args) ∷ [] })

-- The turn after the calls are answered, or `none` where sending the answers raises
unfoldable pub note_tool_call : Option ToolCall → Turn → Option Turn
note_tool_call none t = some t
note_tool_call (some calls) t = elim calls.send_failure [
  | none ↦ some (note_calls calls.function_calls t)
  | some failure ↦ none
]

-- 504 where the timeout runs out and 502 for every exception
unfoldable pub end_turn : StreamEnd → Turn → Result ℕ Turn
end_turn stream_exhausted t = ok t
end_turn stream_raised t = err 502
end_turn stream_timed_out t = err 504

-- The loop over the stream: a response that ends the turn leaves it before its tool calls are read.
unfoldable pub run_test_turn : List TestEvent → StreamEnd → Turn → Result ℕ Turn
run_test_turn [] ending t = end_turn ending t
run_test_turn (r ∷ rest) ending t =
    let (t', over) = note_content r.server_content (note_usage r.usage_metadata t) in
    elim over [
      | true ↦ ok t'
      | false ↦ elim (note_tool_call r.tool_call_part t') [
        | none ↦ err 502
        | some t'' ↦ run_test_turn rest ending t''
      ]
    ]

-- `" ".join(parts)`
unfoldable pub join_words : List String → String
join_words [] = ""
join_words (p ∷ []) = p
join_words (p ∷ q ∷ ps) = str_append p (str_append " " (join_words (q ∷ ps)))

-- The answer's text is joined and stripped.
pub record TestResponse : Type 0 where
  pub assistant_text : String
  pub tool_calls : List (String × Json)
  pub input_tokens : ℕ
  pub output_tokens : ℕ

unfoldable pub to_response : Result ℕ Turn → Result ℕ TestResponse
to_response (err code) = err code
to_response (ok t) = ok (record {
  assistant_text = strip (join_words t.assistant_parts);
  tool_calls = t.tool_calls;
  input_tokens = t.input_tokens;
  output_tokens = t.output_tokens;
})

unfoldable pub test_project :
    (projects : Collection ProjectDoc)
    → TenantDoc
    → String
    → List TestEvent
    → StreamEnd
    → projects.State
    → Result ℕ TestResponse
test_project projects tenant project_id stream ending docs =
    elim (get_or_404 projects project_id tenant docs) [
      | err code ↦ err code
      | ok d ↦ if d.is_active then to_response (run_test_turn stream ending no_turn) else err 422
    ]
