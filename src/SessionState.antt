-- ===== src/SessionState.antt =====
-- core/session_state.py: the state of one chat session, its two bounded queues and its counters.
-- Times of the monotonic clock are whole milliseconds.
pub mod Bounds
use factn_assistant_service.Base.{
  ℕ, ◌-◌, String, Bool, false, Option, none, some, List, [], ◌∷◌, ◌++◌, length, ltb, if◌then◌else◌,
}
use factn_assistant_service.Json.{Json}
use factn_assistant_service.ToolExecutor.Defs.{Reply}

abbrev pub inbox_max_size : ℕ
inbox_max_size = 512

abbrev pub outbox_max_size : ℕ
outbox_max_size = 256

-- `InputFrame`, a constructor for each `FrameKind` with its payload; audio is a list of bytes.
pub data InputFrame : Type 0 where
  text : String → InputFrame
  audio_chunk : List ℕ → InputFrame
  activity_start activity_end : InputFrame
  set_speaker : Bool → InputFrame
  stop : InputFrame

-- What the runner puts on the outbox: the pairs `(kind, payload)`, and `_OUTBOX_STOP`.
pub data OutputFrame : Type 0 where
  audio_pcm : List ℕ → OutputFrame
  -- session id, speaker mode, project id, project name
  session_ready : String → Bool → String → String → OutputFrame
  assistant_text user_transcript : String → OutputFrame
  -- tool, arguments, result, call id
  tool_call : String → Json → Reply → String → OutputFrame
  turn_complete : OutputFrame
  speaker_mode_updated : Bool → OutputFrame
  error : String → OutputFrame
  session_ended : OutputFrame
  outbox_stop : OutputFrame

pub record SessionState : Type 0 where
  pub session_id : String
  pub project_id : String
  pub inbox : List InputFrame
  pub outbox : List OutputFrame
  pub speaker : Bool
  pub last_active : ℕ
  pub started_at : ℕ
  pub turns : ℕ
  pub tool_calls : ℕ
  pub input_tokens : ℕ
  pub output_tokens : ℕ
  pub api_key_id : String

-- `SessionState(session_id=…, project_id=…, api_key_id=…)`, created at the given times
unfoldable pub new_session : String → String → String → ℕ → ℕ → SessionState
new_session session_id project_id api_key_id monotonic now = record {
  session_id = session_id;
  project_id = project_id;
  inbox = [];
  outbox = [];
  speaker = false;
  last_active = monotonic;
  started_at = now;
  turns = 0;
  tool_calls = 0;
  input_tokens = 0;
  output_tokens = 0;
  api_key_id = api_key_id;
}

unfoldable pub set_speaker_mode : Bool → SessionState → SessionState
set_speaker_mode enabled s = record s { speaker = enabled }

unfoldable pub touch : ℕ → SessionState → SessionState
touch monotonic s = record s { last_active = monotonic }

unfoldable pub is_idle : ℕ → ℕ → SessionState → Bool
is_idle monotonic ttl s = ltb ttl (monotonic - s.last_active)

-- `Queue.put_nowait` on a queue of at most `maxsize`; `none` is `QueueFull`
unfoldable pub put_nowait {ℓ} : {A : Type ℓ} → ℕ → A → List A → Option (List A)
put_nowait maxsize x queue = if ltb (length queue) maxsize then some (queue ++ x ∷ []) else none

-- `state.inbox.put_nowait(frame)`
unfoldable pub put_inbox : InputFrame → SessionState → Option SessionState
put_inbox frame s = elim (put_nowait inbox_max_size frame s.inbox) [
  | none ↦ none
  | some queue ↦ some (record s { inbox = queue })
]

-- A frame that does not fit is dropped.
unfoldable pub send_outbox : OutputFrame → SessionState → SessionState
send_outbox frame s = elim (put_nowait outbox_max_size frame s.outbox) [
  | none ↦ s
  | some queue ↦ record s { outbox = queue }
]
