-- ===== src/SessionEvents.antt =====
-- core/session_events.py: the lifecycle webhooks of a session, delivered with one retry.
-- Times are whole microseconds; the rounding of the duration and the JSON text are not modelled,
-- so a body is its payload, and `sign` stands for the HMAC of that text.
pub mod Delivery
use factn_assistant_service.Base.{
  ℕ, zero, suc, ◌+◌, String, Bool, true, false, Option, none, some, List, [], ◌∷◌, ltb, str_eq,
  if◌then◌else◌,
}

-- The `status` of a session or of an event.
pub data Status : Type 0 where
  active closed error timeout : Status

pub data EventName : Type 0 where
  session_started session_closed session_error : EventName

-- The part of the payload that is there when `ended_at` is given.
pub record Totals : Type 0 where
  pub ended_at : ℕ
  pub duration : ℕ
  pub turns : ℕ
  pub tool_calls : ℕ
  pub input_tokens : ℕ
  pub output_tokens : ℕ
  pub total_tokens : ℕ

pub record Payload : Type 0 where
  pub event : EventName
  pub session_id : String
  pub project_id : String
  pub tenant_id : String
  pub status : Status
  pub started_at : ℕ
  pub totals : Option Totals
  pub error_message : Option String

-- A text that is neither None nor empty: what `if text:` asks.
unfoldable pub non_empty : Option String → Option String
non_empty none = none
non_empty (some s) = if str_eq s "" then none else some s

-- `totals` stands for the arguments from `ended_at` to `output_tokens`.
unfoldable pub totals_of : ℕ → ℕ → ℕ → ℕ → ℕ → ℕ → Totals
totals_of ended_at duration turns tool_calls input_tokens output_tokens = record {
  ended_at = ended_at;
  duration = duration;
  turns = turns;
  tool_calls = tool_calls;
  input_tokens = input_tokens;
  output_tokens = output_tokens;
  total_tokens = input_tokens + output_tokens;
}

unfoldable pub build_payload :
    EventName → String → String → String → Status → ℕ → Option Totals → Option String → Payload
build_payload event session_id project_id tenant_id status started_at totals error_message =
    record {
      event = event;
      session_id = session_id;
      project_id = project_id;
      tenant_id = tenant_id;
      status = status;
      started_at = started_at;
      totals = totals;
      error_message = non_empty error_message;
    }

-- One POST: the URL, the body and the headers that depend on the event.
pub record Post : Type 0 where
  pub url : String
  pub body : Payload
  pub event_header : EventName
  pub session_header : String
  pub signature_header : Option String

pub data Action : Type 0 where
  post : Post → Action
  -- `asyncio.sleep(_RETRY_DELAY_S)`
  retry_sleep : Action

-- What `client.post` did: the status of a response, or an exception.
pub data Answer : Type 0 where
  status_code : ℕ → Answer
  exception : Answer

abbrev pub max_attempts : ℕ
max_attempts = 2

-- `resp.status_code < 400`
unfoldable pub accepted : Answer → Bool
accepted (status_code s) = ltb s 400
accepted exception = false

-- The loop over the attempts, `left` of them to go; true where an attempt was accepted.
unfoldable pub attempts : Post → (ℕ → Answer) → ℕ → ℕ → List Action × Bool
attempts p server zero attempt = ([], false)
attempts p server (suc left) attempt =
    let rest = attempts p server left (attempt + 1) in
    if accepted (server attempt)
    then (post p ∷ [], true)
    else (post p ∷ (if ltb attempt max_attempts then retry_sleep ∷ rest.0 else rest.0), rest.1)

-- `"session.error" if status == "error" else "session.closed"`
unfoldable pub closing_event : Status → EventName
closing_event error = session_error
closing_event active = session_closed
closing_event closed = session_closed
closing_event timeout = session_closed

module _ (sign : Payload → String → String) where
  -- `_sign` is called where `if webhook_secret:` holds.
  unfoldable pub signature : Option String → Payload → Option String
  signature webhook_secret payload = elim (non_empty webhook_secret) [
    | none ↦ none
    | some secret ↦ some (sign payload secret)
  ]

  unfoldable pub deliver :
      String → Option String → Payload → String → EventName → (ℕ → Answer) → List Action × Bool
  deliver webhook_url webhook_secret payload session_id event server =
      attempts
        (record {
          url = webhook_url;
          body = payload;
          event_header = event;
          session_header = session_id;
          signature_header = signature webhook_secret payload;
        })
        server max_attempts 1

  -- The delivery that `deliver_session_started` spawns: `none` without a webhook URL.
  unfoldable pub deliver_session_started :
      Option String
      → Option String
      → String
      → String
      → String
      → ℕ
      → (ℕ → Answer)
      → Option (List Action × Bool)
  deliver_session_started webhook_url webhook_secret session_id project_id tenant_id started_at
        server =
      elim (non_empty webhook_url) [
        | none ↦ none
        | some url ↦ some (
            deliver url webhook_secret
              (build_payload session_started session_id project_id tenant_id active started_at none
                none)
              session_id session_started server)
      ]

  unfoldable pub deliver_session_closed :
      Option String
      → Option String
      → String
      → String
      → String
      → Status
      → ℕ
      → Totals
      → Option String
      → (ℕ → Answer)
      → Option (List Action × Bool)
  deliver_session_closed webhook_url webhook_secret session_id project_id tenant_id status
        started_at totals error_message server =
      elim (non_empty webhook_url) [
        | none ↦ none
        | some url ↦ some (
            deliver url webhook_secret
              (build_payload (closing_event status) session_id project_id tenant_id status
                started_at (some totals) error_message)
              session_id (closing_event status) server)
      ]
