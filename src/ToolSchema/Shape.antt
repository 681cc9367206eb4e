-- ===== src/ToolSchema/Shape.antt =====
-- Which tool parameters are meant to pass `validate_tool_parameters` of api/projects.py, as a
-- description of the JSON value.
use factn_assistant_service.Base.{some, ◌⊎◌, true, none, ◌≡◌, String, Option}
use factn_assistant_service.Json.{
  get_default, cons, arr, str, has_key, get, obj, nil, field, end, Items, Json, Fields,
}

abbrev pub IsParamType : String → Type 0
IsParamType t =
    (t ≡ "string")
    ⊎ (t ≡ "number")
    ⊎ (t ≡ "integer")
    ⊎ (t ≡ "boolean")
    ⊎ (t ≡ "array")
    ⊎ (t ≡ "object")

-- There is no `enum`, or it is a list that is not empty.
abbrev pub IsEnum : Option Json → Type 0
IsEnum e = (e ≡ none) ⊎ ((v : Json) × (items : Items) × (e ≡ some (arr (cons v items))))

-- An object with a supported type and a fitting enum.
abbrev pub IsProperty : Json → Type 0
IsProperty v =
    (schema : Fields) × (t : String) × (v ≡ obj schema)
    × (get "type" schema ≡ some (str t))
    × IsParamType t
    × IsEnum (get "enum" schema)

pub data AllProperties : Fields → Type 0 where
  no_more : AllProperties end
  and_more :
      {name : String} {v : Json} {rest : Fields}
      → IsProperty v
      → AllProperties rest
      → AllProperties (field name v rest)

-- Each entry is a text that names a property.
pub data AllRequired (properties : Fields) : Items → Type 0 where
  all_named : AllRequired properties nil
  named :
      {r : String} {rest : Items}
      → has_key r properties ≡ true
      → AllRequired properties rest
      → AllRequired properties (cons (str r) rest)

pub record IsParameters (j : Json) : Type 0 where
  pub parameters : Fields
  pub properties : Fields
  pub required : Items
  pub is_object : j ≡ obj parameters
  pub typed : get "type" parameters ≡ some (str "object")
  pub has_properties : get_default "properties" (obj end) parameters ≡ obj properties
  pub has_required : get_default "required" (arr nil) parameters ≡ arr required
  pub good_properties : AllProperties properties
  pub good_required : AllRequired properties required
