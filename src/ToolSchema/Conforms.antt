-- ===== src/ToolSchema/Conforms.antt =====
-- The parameters of a tool that pass `validate_tool_parameters` of api/projects.py.
use factn_assistant_service.ToolSchema.Shape.{AllProperties, AllRequired, IsParameters}
use factn_assistant_service.ToolSchema.Checks.{
  then_check-valid, require-valid, is_text-true, invalid_ne_valid, check_properties_iff,
  check_required_iff,
}
use factn_assistant_service.Base.{◌↔◌, ◌≡◌, refl}
use factn_assistant_service.ToolSchema.{
  check_required_list, validate_tool_parameters, check_required, check_properties, check_parts,
  invalid, valid, require, is_text,
}
use factn_assistant_service.Json.{
  null, num, get_default, bool, arr, str, get, obj, nil, end, Items, Json, Fields,
}

check_parts-valid :
    (properties required : Json)
    → check_parts properties required ≡ valid
    → (ps : Fields) × (items : Items) × (properties ≡ obj ps)
      × (required ≡ arr items)
      × AllProperties ps
      × AllRequired ps items
unfolding check_parts check_required_list
check_parts-valid (obj ps) (arr items) h =
    let (good, named_all) = then_check-valid (check_properties ps) (check_required ps items) h in
    (
      ps,
      items,
      refl,
      refl,
      (check_properties_iff ps).0 good,
      (check_required_iff ps items).0 named_all,
    )
check_parts-valid (obj ps) null h =
    absurd (invalid_ne_valid (then_check-valid (check_properties ps) invalid h).1)
check_parts-valid (obj ps) (bool b) h =
    absurd (invalid_ne_valid (then_check-valid (check_properties ps) invalid h).1)
check_parts-valid (obj ps) (num n) h =
    absurd (invalid_ne_valid (then_check-valid (check_properties ps) invalid h).1)
check_parts-valid (obj ps) (str s) h =
    absurd (invalid_ne_valid (then_check-valid (check_properties ps) invalid h).1)
check_parts-valid (obj ps) (obj fs) h =
    absurd (invalid_ne_valid (then_check-valid (check_properties ps) invalid h).1)
check_parts-valid null r h = absurd (invalid_ne_valid h)
check_parts-valid (bool b) r h = absurd (invalid_ne_valid h)
check_parts-valid (num n) r h = absurd (invalid_ne_valid h)
check_parts-valid (str s) r h = absurd (invalid_ne_valid h)
check_parts-valid (arr xs) r h = absurd (invalid_ne_valid h)

IsParameters-valid : (j : Json) → IsParameters j → validate_tool_parameters j ≡ valid
unfolding validate_tool_parameters check_parts check_required_list is_text
IsParameters-valid j p = rw p.is_object (
    rw (p.typed, p.has_properties, p.has_required)
      (rw ((check_properties_iff p.properties).1 p.good_properties)
        ((check_required_iff p.properties p.required).1 p.good_required)))

valid-IsParameters : (j : Json) → validate_tool_parameters j ≡ valid → IsParameters j
unfolding validate_tool_parameters
valid-IsParameters (obj parameters) h =
    let (typed, parts) =
      then_check-valid (require (is_text "object" (get "type" parameters)))
        (check_parts (get_default "properties" (obj end) parameters)
          (get_default "required" (arr nil) parameters))
        h in
    let (ps, items, has_ps, has_items, good, named_all) =
      check_parts-valid (get_default "properties" (obj end) parameters)
        (get_default "required" (arr nil) parameters) parts in
    record {
      parameters = parameters;
      properties = ps;
      required = items;
      is_object = refl;
      typed = is_text-true "object" (get "type" parameters) (require-valid _ typed);
      has_properties = has_ps;
      has_required = has_items;
      good_properties = good;
      good_required = named_all;
    }
valid-IsParameters null h = absurd (invalid_ne_valid h)
valid-IsParameters (bool b) h = absurd (invalid_ne_valid h)
valid-IsParameters (num n) h = absurd (invalid_ne_valid h)
valid-IsParameters (str s) h = absurd (invalid_ne_valid h)
valid-IsParameters (arr items) h = absurd (invalid_ne_valid h)

-- The parameters of a tool pass the validation exactly when they are an object of type `object` whose
-- properties are objects, each with a supported type and, where it has one, an enum that is a list
-- which is not empty, and whose required entries are texts that name properties.
pub validate_iff : (j : Json) → (validate_tool_parameters j ≡ valid) ↔ IsParameters j
validate_iff j = (valid-IsParameters j, IsParameters-valid j)
