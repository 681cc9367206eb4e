-- ===== src/ProjectApi/Requests.antt =====
-- The bodies of the tool requests of api/projects.py (`CreateToolRequest`, `UpdateToolRequest`) and
-- what their validators accept. The parameters of a body are any JSON value; its mode is any text.
use factn_assistant_service.Base.{
  not, none, ◌==◌, str_eq, some, ok, ◌||◌, ◌&&◌, true, leb, if◌then◌else◌, false, err, ℕ, String,
  Result, Option, Bool,
}
use factn_assistant_service.Json.{Json}
use Prim.Native.Char.{Char, code}
use factn_assistant_service.ToolSchema.{
  Verdict, valid, invalid, type_error, validate_tool_parameters,
}
use factn_assistant_service.ToolExecutor.Defs.{ExecutionMode, static, webhook}
use Prim.Native.String

unfoldable pub is_lower : Char → Bool
is_lower c = leb 97 (code c) && leb (code c) 122

unfoldable pub is_name_char : Char → Bool
is_name_char c = is_lower c || (leb 48 (code c) && leb (code c) 57) || code c == 95

unfoldable pub all_name_chars : String → Bool
all_name_chars String.[] = true
all_name_chars (String.◌∷◌ c s) = is_name_char c && all_name_chars s

-- `^[a-z][a-z0-9_]*$`
unfoldable pub matches_name : String → Bool
matches_name String.[] = false
matches_name (String.◌∷◌ c s) = is_lower c && all_name_chars s

-- `min_length=1` and `max_length`, in characters
unfoldable pub has_length_to : ℕ → String → Bool
has_length_to n s = leb 1 (String.count s) && leb (String.count s) n

unfoldable pub is_timeout : ℕ → Bool
is_timeout t = leb 100 t && leb t 30_000

unfoldable pub parse_mode : String → Option ExecutionMode
parse_mode mode =
    if str_eq mode "static"
    then some static
    else if str_eq mode "webhook"
    then some webhook
    else none

pub record CreateToolRequest : Type 0 where
  pub name : String
  pub description : String
  pub parameters : Json
  pub execution_mode : String
  pub static_response : Option Json
  pub webhook_url : Option String
  pub webhook_secret : Option String
  pub timeout_ms : ℕ

pub record UpdateToolRequest : Type 0 where
  pub description : Option String
  pub parameters : Option Json
  pub execution_mode : Option String
  pub static_response : Option Json
  pub webhook_url : Option String
  pub webhook_secret : Option String
  pub timeout_ms : Option ℕ

-- `not url`
unfoldable pub is_blank : Option String → Bool
is_blank none = true
is_blank (some url) = str_eq url ""

-- What a tool must have for its mode: a static response, or a webhook URL that is not empty.
unfoldable pub has_fields_for : ExecutionMode → Option Json → Option String → Bool
has_fields_for static none url = false
has_fields_for static (some reply) url = true
has_fields_for webhook reply url = not (is_blank url)

-- A field that may be left out, and is checked where it is given
abbrev pub if_given {ℓ} : {A : Type ℓ} → (A → Bool) → Option A → Bool
if_given p none = true
if_given p (some a) = p a

abbrev pub is_some {ℓ} : {A : Type ℓ} → Option A → Bool
is_some none = false
is_some (some a) = true

-- A TypeError of the parameters' validator answers 500; any other failure of a field answers 422.
unfoldable pub field_status : Verdict → Bool → Result ℕ (Unit {0})
field_status type_error others = err 500
field_status invalid others = err 422
field_status valid others = if others then ok tt else err 422

-- The model validator runs on the fields once each of them has passed.
unfoldable pub check_mode_fields : Option ExecutionMode → CreateToolRequest → Result ℕ ExecutionMode
check_mode_fields none b = err 422
check_mode_fields (some mode) b =
    if has_fields_for mode b.static_response b.webhook_url then ok mode else err 422

-- The status of a refused body, or the mode of an accepted one
unfoldable pub validate_create : CreateToolRequest → Result ℕ ExecutionMode
validate_create b =
    elim (field_status (validate_tool_parameters b.parameters) (
      has_length_to 64 b.name
      && matches_name b.name
      && has_length_to 1_000 b.description
      && is_some (parse_mode b.execution_mode)
      && is_timeout b.timeout_ms)) [
        | err code ↦ err code
        | ok u ↦ check_mode_fields (parse_mode b.execution_mode) b
      ]

unfoldable pub validate_given_parameters : Option Json → Verdict
validate_given_parameters none = valid
validate_given_parameters (some parameters) = validate_tool_parameters parameters

unfoldable pub validate_update : UpdateToolRequest → Result ℕ (Unit {0})
validate_update b = field_status (validate_given_parameters b.parameters) (
    if_given (has_length_to 1_000) b.description
    && if_given (λ mode. is_some (parse_mode mode)) b.execution_mode
    && if_given is_timeout b.timeout_ms)
