-- ===== src/Tests/Schemas.antt =====
-- The validation of a tool's parameters on one schema.
use factn_assistant_service.Json.{nil, cons, arr, end, str, field, obj, Json}
use factn_assistant_service.Base.{◌↔◌, ◌≡◌}
use factn_assistant_service.ToolSchema.Conforms.{validate_iff}
use factn_assistant_service.ToolSchema.Shape.{IsParameters}
use factn_assistant_service.ToolSchema.{valid, validate_tool_parameters}

abbrev pub city_schema : Json
city_schema = obj (
    field "type" (str "object") (
      field "properties" (obj (field "city" (obj (field "type" (str "string") end)) end))
        (field "required" (arr (cons (str "city") nil)) end)))

validate_iff_example : (validate_tool_parameters city_schema ≡ valid) ↔ IsParameters city_schema
validate_iff_example = validate_iff city_schema
