-- ===== src/ToolExecutor/Defs.antt =====
-- `ToolExecutor` of core/tool_executor.py, and `ToolDefinition` of core/schemas.py.
use factn_assistant_service.Base.{
  ℕ, zero, suc, ◌+◌, ◌-◌, ◌*◌, ◌^◌, String, Bool, true, ◌||◌, Option, none, some, List, [], ◌∷◌,
  min, max, ltb, ◌==◌, str_eq, if◌then◌else◌,
}
use factn_assistant_service.Json.{Json, null, bool, num, str, arr, obj, field, end, get_default}

pub data ExecutionMode : Type 0 where
  static webhook : ExecutionMode

pub record ToolDefinition : Type 0 where
  pub name : String
  pub description : String
  pub parameters : Json
  pub execution_mode : ExecutionMode
  pub static_response : Option Json
  pub webhook_url : Option String
  pub webhook_secret : Option String
  pub timeout_ms : ℕ

-- The value of a Retry-After header: `float(header)` in ticks if it is a number.
pub data RetryAfter : Type 0 where
  absent unparseable negative : RetryAfter
  ticks : ℕ → RetryAfter

-- What `client.post` did: a response with its status, Retry-After header and decoded body (`none`
-- where `resp.json()` raises), or the exception that it raised.
pub data PostResult : Type 0 where
  response : ℕ → RetryAfter → Option Json → PostResult
  timeout_exception : PostResult
  connect_error unexpected : String → PostResult

-- The values that `last_error` takes.
pub data LastError : Type 0 where
  no_attempts : LastError
  http_on_attempt : ℕ → ℕ → LastError
  timeout_on_attempt : ℕ → LastError
  connection_on_attempt : ℕ → String → LastError

-- The texts of the replies `{"error": ...}`.
pub data ErrorText : Type 0 where
  unknown_tool : String → ErrorText
  no_webhook_url : ErrorText
  not_json permanent : ℕ → ErrorText
  -- `str(exc)` of an exception that nothing else handles
  raised : String → ErrorText
  -- `data.get` on a body that is no JSON object
  no_attribute_get : Json → ErrorText
  exhausted : LastError → ErrorText

-- The dict that `execute` returns.
pub data Reply : Type 0 where
  value : Json → Reply
  error : ErrorText → Reply

-- What a call does besides: it posts, under a timeout, and it sleeps.
pub data Action : Type 0 where
  post sleep : ℕ → Action

abbrev pub max_attempts : ℕ
max_attempts = 3

abbrev pub second : ℕ
second = 6000

-- `_RETRYABLE_STATUS`
unfoldable pub retryable_status : ℕ → Bool
retryable_status s = s == 429 || s == 500 || s == 502 || s == 503 || s == 504

unfoldable pub parse_retry_after : RetryAfter → ℕ → ℕ
parse_retry_after absent fallback = fallback
parse_retry_after unparseable fallback = fallback
parse_retry_after negative fallback = 0
parse_retry_after (ticks t) fallback = t

-- `total_budget_s`: a millisecond is six ticks
unfoldable pub total_budget : ToolDefinition → ℕ
total_budget tool = 6 * tool.timeout_ms

-- `max(1.0, total_budget_s / _MAX_ATTEMPTS)`
unfoldable pub per_attempt : ToolDefinition → ℕ
per_attempt tool = max second (2 * tool.timeout_ms)

-- `_BASE_DELAY_S * _BACKOFF_FACTOR ** (attempt - 1)`
unfoldable pub backoff_delay : ℕ → ℕ
backoff_delay attempt = second * 2 ^ (attempt - 1)

-- `data.get("result", data)`
unfoldable pub unwrap_result : Json → Reply
unwrap_result (obj fields) = value (get_default "result" (obj fields) fields)
unwrap_result null = error (no_attribute_get null)
unwrap_result (bool b) = error (no_attribute_get (bool b))
unwrap_result (num n) = error (no_attribute_get (num n))
unwrap_result (str s) = error (no_attribute_get (str s))
unwrap_result (arr xs) = error (no_attribute_get (arr xs))

-- One pass of the loop body: a return, or a new `last_error` and the sleep before the next attempt.
pub data Pass : Type 0 where
  return : Reply → Pass
  retry : LastError → ℕ → Pass

unfoldable pub success : ℕ → Option Json → Pass
success status none = return (error (not_json status))
success status (some body) = return (unwrap_result body)

unfoldable pub attempt_once : ToolDefinition → ℕ → PostResult → Pass
attempt_once tool attempt (response status retry_after body) =
    if ltb status 400
    then success status body
    else if retryable_status status
    then retry (http_on_attempt status attempt)
        (min (parse_retry_after retry_after (per_attempt tool)) (3 * tool.timeout_ms))
    else return (error (permanent status))
attempt_once tool attempt timeout_exception =
    retry (timeout_on_attempt attempt) (backoff_delay attempt)
attempt_once tool attempt (connect_error exc) =
    retry (connection_on_attempt attempt exc) (backoff_delay attempt)
attempt_once tool attempt (unexpected exc) = return (error (raised exc))

-- What the call returned, and what it did in order.
pub record Run : Type 0 where
  pub reply : Reply
  pub actions : List Action

-- `if attempt < _MAX_ATTEMPTS: await asyncio.sleep(delay)`
unfoldable pub sleep_before_next : ℕ → ℕ → List Action → List Action
sleep_before_next attempt delay rest = if ltb attempt max_attempts then sleep delay ∷ rest else rest

-- The loop over the attempts, `left` of them to go; `server` answers each attempt.
unfoldable pub attempts : ToolDefinition → (ℕ → PostResult) → ℕ → ℕ → LastError → Run
attempts tool server zero attempt last_error = record {
  reply = error (exhausted last_error);
  actions = [];
}
attempts tool server (suc left) attempt last_error =
    elim (attempt_once tool attempt (server attempt)) [
      | return r ↦ record { reply = r; actions = post (per_attempt tool) ∷ [] }
      | retry e delay ↦
          let rest = attempts tool server left (attempt + 1) e in
          record {
            reply = rest.reply;
            actions = post (per_attempt tool) ∷ sleep_before_next attempt delay rest.actions;
          }
    ]

-- `not tool.webhook_url`
unfoldable pub no_url : Option String → Bool
no_url none = true
no_url (some url) = str_eq url ""

unfoldable pub execute_webhook : ToolDefinition → (ℕ → PostResult) → Run
execute_webhook tool server =
    if no_url tool.webhook_url
    then record { reply = error no_webhook_url; actions = [] }
    else attempts tool server max_attempts 1 no_attempts

-- `{"status": "ok"}`
abbrev status_ok : Json
status_ok = obj (field "status" (str "ok") end)

unfoldable pub execute_static : ToolDefinition → Json
execute_static tool = elim tool.static_response [ none ↦ status_ok | some r ↦ r ]

-- `self._tools`, a dict by name: of two definitions with one name the later stays
unfoldable pub tool_named : String → List ToolDefinition → Option ToolDefinition
tool_named name [] = none
tool_named name (t ∷ ts) = elim (tool_named name ts) [
  | some u ↦ some u
  | none ↦ if str_eq t.name name then some t else none
]

unfoldable pub run_tool : ToolDefinition → (ℕ → PostResult) → ExecutionMode → Run
run_tool tool server static = record { reply = value (execute_static tool); actions = [] }
run_tool tool server webhook = execute_webhook tool server

unfoldable pub execute : List ToolDefinition → String → (ℕ → PostResult) → Run
execute tools name server = elim (tool_named name tools) [
  | none ↦ record { reply = error (unknown_tool name); actions = [] }
  | some tool ↦ run_tool tool server tool.execution_mode
]
