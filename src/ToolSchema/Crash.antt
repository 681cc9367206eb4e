-- ===== src/ToolSchema/Crash.antt =====
-- Parameters that neither pass nor are refused.
use factn_assistant_service.ToolSchema.{
  type_error, is_text, check_in_types, check_type, check_property, check_properties, check_parts,
  validate_tool_parameters,
}
use factn_assistant_service.Json.{
  str, field, obj, cons, arr, Items, Json, Fields, truthy, get, get_default,
}
use factn_assistant_service.Base.{some, ◌≡◌, String}

-- With an object type at the top, where the first property is an object whose type is a list that is
-- not empty, such as the union types of JSON Schema: validation raises a TypeError in place of its
-- ValueError, whatever the rest of the parameters is.
pub type_list_crashes :
    (name : String) (schema : Fields) (t : Json) (types : Items) (rest more : Fields)
    → get "type" schema ≡ some (arr (cons t types))
    → validate_tool_parameters (
        obj (
          field "type"
            (str "object")
            (field "properties" (obj (field name (obj schema) rest)) more)))
      ≡ type_error
unfolding validate_tool_parameters check_parts check_properties check_property check_type
    check_in_types get_default get truthy is_text
type_list_crashes name schema t types rest more is_list = rw (is_list, get_default)
