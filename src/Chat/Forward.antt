-- ===== src/Chat/Forward.antt =====
-- `_forward_loop` of api/chat.py: what the session queues goes to the client.
use factn_assistant_service.SessionState.{
  outbox_stop, session_ended, turn_complete, error, speaker_mode_updated, tool_call,
  user_transcript, assistant_text, session_ready, audio_pcm, OutputFrame,
}
use factn_assistant_service.Base.{
  if◌then◌else◌, [], none, ◌+◌, ◌∷◌, some, Bool, ℕ, String, Option, List,
}
use factn_assistant_service.Json.{Json}
use factn_assistant_service.ToolExecutor.Defs.{Reply}

-- What a JSON message holds besides its `type`.
pub data Body : Type 0 where
  no_body : Body
  text_body : String → Body
  flag : Bool → Body
  -- session id, speaker mode, project id, project name
  session : String → Bool → String → String → Body
  -- tool, arguments, result, call id
  call : String → Json → Reply → String → Body

pub data WsMessage : Type 0 where
  send_bytes : List ℕ → WsMessage
  -- `send_text(json.dumps({"type": …, …}))`
  send_json : String → Body → WsMessage

-- The `match` on the kind of a frame; `none` for the sentinel, which is no pair.
unfoldable pub to_message : OutputFrame → Option WsMessage
to_message (audio_pcm bytes) = some (send_bytes bytes)
to_message (session_ready sid speaker pid name) =
    some (send_json "session_ready" (session sid speaker pid name))
to_message (assistant_text t) = some (send_json "assistant_text" (text_body t))
to_message (user_transcript t) = some (send_json "user_transcript" (text_body t))
to_message (tool_call name args result id) = some (send_json "tool_call" (call name args result id))
to_message turn_complete = some (send_json "turn_complete" no_body)
to_message (speaker_mode_updated enabled) = some (send_json "speaker_mode_updated" (flag enabled))
to_message (error message) = some (send_json "error" (text_body message))
to_message session_ended = some (send_json "session_ended" no_body)
to_message outbox_stop = none

-- Where the loop is after the frames of the queue: it met the sentinel, a send failed, or it waits
-- for another frame.
pub data Exit : Type 0 where
  stopped broke waiting : Exit

pub record Forwarded : Type 0 where
  pub messages : List WsMessage
  pub exit : Exit
  pub left : List OutputFrame

-- `works n` says whether the send number `n` works.
unfoldable pub forward_loop : (ℕ → Bool) → ℕ → List OutputFrame → Forwarded
forward_loop works n [] = record { messages = []; exit = waiting; left = [] }
forward_loop works n (f ∷ fs) =
    let rest = forward_loop works (n + 1) fs in
    elim (to_message f) [
      | none ↦ record { messages = []; exit = stopped; left = fs }
      | some w ↦
          if works n
          then record { messages = w ∷ rest.messages; exit = rest.exit; left = rest.left }
          else record { messages = []; exit = broke; left = fs }
    ]
