-- ===== src/Chat/Receive.antt =====
-- `_receive_loop` of api/chat.py: what a client sends goes to the session's inbox.
use factn_assistant_service.SessionState.{
  text, audio_chunk, activity_end, set_speaker, activity_start, InputFrame, SessionState, put_inbox,
  touch,
}
use factn_assistant_service.Base.{
  none, [], ◌∷◌, ◌++◌, str_eq, some, if◌then◌else◌, Option, ℕ, true, false, String, List, Bool,
}
use factn_assistant_service.Json.{Fields, Json, obj, str, bool, null, truthy, get_default}

-- The messages that the loop itself sends back.
pub data Answer : Type 0 where
  pong invalid_json busy : Answer
  unknown_type : Json → Answer

-- What `ws.receive()` does: a message with non-empty bytes, a text (empty where the message has
-- none), or a disconnect.
pub data Message : Type 0 where
  binary : List ℕ → Message
  text_message : String → Message
  disconnect : Message

-- One message, the time of the monotonic clock, and whether the socket still takes an answer.
pub record Incoming : Type 0 where
  pub message : Message
  pub now : ℕ
  pub can_send : Bool

-- The loop's state. It is over after a disconnect and after an exception.
pub record Receiver : Type 0 where
  pub session : SessionState
  pub voice_active : Bool
  pub sent : List Answer
  pub over : Bool

unfoldable pub stop_loop : Receiver → Receiver
stop_loop r = record r { over = true }

-- `await ws.send_text(…)`, which raises on a closed socket
unfoldable pub answer : Answer → Bool → Receiver → Receiver
answer a can_send r = if can_send then record r { sent = r.sent ++ a ∷ [] } else stop_loop r

-- `_send_busy`, which does not raise
unfoldable pub send_busy : Bool → Receiver → Receiver
send_busy can_send r = if can_send then record r { sent = r.sent ++ busy ∷ [] } else r

-- `put_nowait` with the busy message where the inbox is full
unfoldable pub enqueue : InputFrame → Bool → Receiver → Receiver
enqueue frame can_send r = elim (put_inbox frame r.session) [
  | none ↦ send_busy can_send r
  | some s ↦ record r { session = s }
]

unfoldable pub touch_session : ℕ → Receiver → Receiver
touch_session now r = record r { session = touch now r.session }

-- Audio outside a voice turn is ignored, and audio that does not fit is dropped.
unfoldable pub on_binary : List ℕ → ℕ → Receiver → Receiver
on_binary bytes now r =
    if r.voice_active
    then (let r' = touch_session now r in
        elim (put_inbox (audio_chunk bytes) r'.session) [
          | none ↦ r'
          | some s ↦ record r' { session = s }
        ])
    else r

unfoldable pub on_voice_start : ℕ → Bool → Receiver → Receiver
on_voice_start now can_send r =
    enqueue activity_start can_send (touch_session now (record r { voice_active = true }))

unfoldable pub on_voice_end : ℕ → Bool → Receiver → Receiver
on_voice_end now can_send r =
    if r.voice_active
    then enqueue activity_end can_send (touch_session now (record r { voice_active = false }))
    else r

unfoldable pub on_interrupt : Receiver → Receiver
on_interrupt r = record r { voice_active = false }

unfoldable pub on_set_speaker : Json → Bool → Receiver → Receiver
on_set_speaker enabled can_send r = enqueue (set_speaker (truthy enabled)) can_send r

-- `decode` stands for `json.loads`, where `none` is JSONDecodeError, and `strip` for `str.strip`.
module _ (decode : String → Option Json) (strip : String → String) where
  unfoldable pub submit_text : String → ℕ → Bool → Receiver → Receiver
  submit_text t now can_send r =
      if str_eq t "" then r else enqueue (text t) can_send (touch_session now r)

  -- `(payload.get("text") or "").strip()`: a value that is true and no text has no `strip`.
  unfoldable pub on_text_input : Json → ℕ → Bool → Receiver → Receiver
  on_text_input (str t) now can_send r = submit_text (strip t) now can_send r
  on_text_input v now can_send r =
      if truthy v then stop_loop r else submit_text (strip "") now can_send r

  unfoldable pub dispatch : String → Json → Fields → ℕ → Bool → Receiver → Receiver
  dispatch msg_type type_value payload now can_send r =
      if str_eq msg_type "text_input"
      then on_text_input (get_default "text" null payload) now can_send r
      else if str_eq msg_type "voice_start"
      then on_voice_start now can_send r
      else if str_eq msg_type "voice_end"
      then on_voice_end now can_send r
      else if str_eq msg_type "set_speaker"
      then on_set_speaker (get_default "enabled" (bool false) payload) can_send r
      else if str_eq msg_type "interrupt"
      then on_interrupt r
      else if str_eq msg_type "ping"
      then answer pong can_send r
      else answer (unknown_type type_value) can_send r

  -- `match msg_type`: a type that is no text fits no case.
  unfoldable pub on_payload : Json → Fields → ℕ → Bool → Receiver → Receiver
  on_payload (str msg_type) payload now can_send r =
      dispatch msg_type (str msg_type) payload now can_send r
  on_payload v payload now can_send r = answer (unknown_type v) can_send r

  -- `payload.get` exists on a dict only; on any other value it raises.
  unfoldable pub on_json : Json → ℕ → Bool → Receiver → Receiver
  on_json (obj payload) now can_send r =
      on_payload (get_default "type" null payload) payload now can_send r
  on_json v now can_send r = stop_loop r

  unfoldable pub on_decoded : Option Json → ℕ → Bool → Receiver → Receiver
  on_decoded none now can_send r = answer invalid_json can_send r
  on_decoded (some v) now can_send r = on_json v now can_send r

  unfoldable pub on_message : Message → ℕ → Bool → Receiver → Receiver
  on_message disconnect now can_send r = stop_loop r
  on_message (binary []) now can_send r = r
  on_message (binary (b ∷ bytes)) now can_send r = on_binary (b ∷ bytes) now r
  on_message (text_message raw) now can_send r =
      if str_eq raw "" then r else on_decoded (decode raw) now can_send r

  unfoldable pub receive_one : Incoming → Receiver → Receiver
  receive_one i r = if r.over then r else on_message i.message i.now i.can_send r

  unfoldable pub receive_loop : List Incoming → Receiver → Receiver
  receive_loop [] r = r
  receive_loop (i ∷ is) r = receive_loop is (receive_one i r)
