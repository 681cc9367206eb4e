-- ===== src/ToolSchema.antt =====
-- `validate_tool_parameters` of api/projects.py. `type_error` is the TypeError that Python raises where
-- a value that cannot be hashed is looked up in a set.
pub mod Shape
pub mod Checks
pub mod Conforms
pub mod Crash
use factn_assistant_service.Json.{
  num, null, nil, truthy, has_key, get_default, get, end, cons, bool, str, obj, field, arr, Items,
  Json, Fields,
}
use factn_assistant_service.Base.{
  none, ◌||◌, false, true, str_eq, some, if◌then◌else◌, String, Option, Bool, refl,
}

pub data Verdict : Type 0 where
  valid invalid type_error : Verdict

-- The next check runs where this one has passed.
infixr 5 ◌then_check◌
abbrev pub ◌then_check◌ : Verdict → Verdict → Verdict
valid then_check v = v
invalid then_check v = invalid
type_error then_check v = type_error

abbrev pub require : Bool → Verdict
require true = valid
require false = invalid

-- `v == text`
unfoldable pub is_text : String → Option Json → Bool
is_text t (some (str s)) = str_eq s t
is_text t _ = false

-- `_VALID_PARAM_TYPES`
unfoldable pub is_param_type : String → Bool
is_param_type t =
    str_eq t "string"
    || str_eq t "number"
    || str_eq t "integer"
    || str_eq t "boolean"
    || str_eq t "array"
    || str_eq t "object"

-- `prop_type not in _VALID_PARAM_TYPES`
unfoldable pub check_in_types : Json → Verdict
check_in_types (str t) = require (is_param_type t)
check_in_types (arr items) = type_error
check_in_types (obj fields) = type_error
check_in_types null = invalid
check_in_types (bool b) = invalid
check_in_types (num n) = invalid

-- `if not prop_type` comes first.
unfoldable pub check_type : Json → Verdict
check_type prop_type = if truthy prop_type then check_in_types prop_type else invalid

unfoldable pub check_enum : Option Json → Verdict
check_enum none = valid
check_enum (some (arr (cons v items))) = valid
check_enum (some _) = invalid

unfoldable pub check_property : Json → Verdict
check_property (obj schema) =
    check_type (get_default "type" null schema) then_check check_enum (get "enum" schema)
check_property _ = invalid

unfoldable pub check_properties : Fields → Verdict
check_properties end = valid
check_properties (field name schema rest) = check_property schema then_check check_properties rest

unfoldable pub check_required_entry : Fields → Json → Verdict
check_required_entry properties (str r) = require (has_key r properties)
check_required_entry properties _ = invalid

unfoldable pub check_required : Fields → Items → Verdict
check_required properties nil = valid
check_required properties (cons r rest) =
    check_required_entry properties r then_check check_required properties rest

unfoldable pub check_required_list : Fields → Json → Verdict
check_required_list properties (arr items) = check_required properties items
check_required_list properties _ = invalid

unfoldable pub check_parts : Json → Json → Verdict
check_parts (obj properties) required =
    check_properties properties then_check check_required_list properties required
check_parts _ required = invalid

unfoldable pub validate_tool_parameters : Json → Verdict
validate_tool_parameters (obj parameters) =
    require (is_text "object" (get "type" parameters))
    then_check check_parts (get_default "properties" (obj end) parameters)
        (get_default "required" (arr nil) parameters)
validate_tool_parameters _ = invalid
