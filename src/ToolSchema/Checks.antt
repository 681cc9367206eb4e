-- ===== src/ToolSchema/Checks.antt =====
-- What each check of `validate_tool_parameters` accepts.
use factn_assistant_service.ToolSchema.Shape.{
  IsParamType, IsEnum, IsProperty, AllProperties, no_more, and_more, AllRequired, all_named, named,
}
use factn_assistant_service.Base.{
  ◌∙◌, Bool-cases, Option-cases, str_eq, inr, eq_iff, inl, arith, ap, ◌↔◌, some, false, true, none,
  ◌≡◌, Bool, String, Option, refl,
}
use factn_assistant_service.ToolSchema.{
  check_required_entry, check_required, check_properties, check_type, check_property, type_error,
  invalid, ◌then_check◌, valid, require, is_text, check_in_types, check_enum, Verdict,
  is_param_type,
}
use factn_assistant_service.Json.{
  truthy, null, num, get_default, cons, bool, arr, str, has_key, get, obj, nil, field, end, Items,
  Json, Fields,
}

pub is_param_type_iff : (t : String) → (is_param_type t ≡ true) ↔ IsParamType t
unfolding is_param_type
is_param_type_iff t = ground (
  arith,
  eq_iff t "string",
  eq_iff t "number",
  eq_iff t "integer",
  eq_iff t "boolean",
  eq_iff t "array",
  eq_iff t "object",
)

pub then_check-valid : (v w : Verdict) → (v then_check w) ≡ valid → (v ≡ valid) × (w ≡ valid)
then_check-valid valid w h = (refl, h)
then_check-valid invalid w h = cc
then_check-valid type_error w h = cc

pub require-valid : (b : Bool) → require b ≡ valid → b ≡ true
require-valid true h = refl
require-valid false h = cc

pub is_text-true : (t : String) (v : Option Json) → is_text t v ≡ true → v ≡ some (str t)
unfolding is_text
is_text-true t (some (str s)) h = ap (λ (x : String). some (str x)) ((eq_iff s t).0 h)
is_text-true t none h = cc
is_text-true t (some null) h = cc
is_text-true t (some (bool b)) h = cc
is_text-true t (some (num n)) h = cc
is_text-true t (some (arr items)) h = cc
is_text-true t (some (obj fields)) h = cc

pub check_in_types-valid :
    (v : Json) → check_in_types v ≡ valid → (t : String) × (v ≡ str t) × IsParamType t
unfolding check_in_types
check_in_types-valid (str t) h =
    (t, refl, (is_param_type_iff t).0 (require-valid (is_param_type t) h))
check_in_types-valid null h = cc
check_in_types-valid (bool b) h = cc
check_in_types-valid (num n) h = cc
check_in_types-valid (arr items) h = cc
check_in_types-valid (obj fields) h = cc

pub check_enum_iff : (e : Option Json) → (check_enum e ≡ valid) ↔ IsEnum e
unfolding check_enum
check_enum_iff none = (λ _. inl refl, λ _. refl)
check_enum_iff (some (arr (cons v items))) = (λ _. inr (v, items, refl), λ _. refl)
check_enum_iff (some (arr nil)) = ground arith
check_enum_iff (some null) = ground arith
check_enum_iff (some (bool b)) = ground arith
check_enum_iff (some (num n)) = ground arith
check_enum_iff (some (str s)) = ground arith
check_enum_iff (some (obj fields)) = ground arith

pub invalid_ne_valid : ◌≡◌ {A = Verdict} invalid valid → ⊥
invalid_ne_valid e = cc

-- A type that is there and passes is a supported text.
pub check_type-valid :
    (schema : Fields)
    → check_type (get_default "type" null schema) ≡ valid
    → (t : String) × (get "type" schema ≡ some (str t)) × IsParamType t
unfolding check_type get_default truthy
check_type-valid schema h = elim (Option-cases (get "type" schema)) [
  | inl absent ↦ absurd (invalid_ne_valid (rw (absent, get_default) at h))
  | inr (v, is_v) ↦ elim (Bool-cases (truthy v)) [
    | inr is_false ↦ absurd (invalid_ne_valid (rw is_false at (rw (is_v, get_default) at h)))
    | inl is_true ↦
        let (t, is_t, good) =
          check_in_types-valid v (rw is_true at (rw (is_v, get_default) at h)) in
        (t, is_v ∙ ap (λ (x : Json). some x) is_t, good)
  ]
]

pub IsParamType-ne_empty : (t : String) → IsParamType t → str_eq t "" ≡ false
IsParamType-ne_empty t (inl e) = rw e
IsParamType-ne_empty t (inr (inl e)) = rw e
IsParamType-ne_empty t (inr (inr (inl e))) = rw e
IsParamType-ne_empty t (inr (inr (inr (inl e)))) = rw e
IsParamType-ne_empty t (inr (inr (inr (inr (inl e))))) = rw e
IsParamType-ne_empty t (inr (inr (inr (inr (inr e))))) = rw e

pub valid-check_type :
    (schema : Fields) (t : String)
    → get "type" schema ≡ some (str t)
    → IsParamType t
    → check_type (get_default "type" null schema) ≡ valid
unfolding check_type get_default truthy check_in_types
valid-check_type schema t is_t good =
    rw (is_t, get_default) (rw (IsParamType-ne_empty t good) (rw ((is_param_type_iff t).1 good)))

pub check_property_iff : (v : Json) → (check_property v ≡ valid) ↔ IsProperty v
unfolding check_property
check_property_iff (obj schema) = (
  λ h.
      let (typed, enum) =
        then_check-valid (check_type (get_default "type" null schema))
          (check_enum (get "enum" schema)) h in
      let (t, is_t, good) = check_type-valid schema typed in
      (schema, t, refl, is_t, good, (check_enum_iff (get "enum" schema)).0 enum),
  λ (schema', t, is_obj, is_t, good, enum).
      let same : schema ≡ schema' = cc in
      rw same
        (rw (valid-check_type schema' t is_t good) ((check_enum_iff (get "enum" schema')).1 enum)),
)
check_property_iff null =
    (λ h. absurd (invalid_ne_valid h), λ p. let e : ◌≡◌ {A = Json} (null) (obj p.0) = p.2 in cc)
check_property_iff (bool b) =
    (λ h. absurd (invalid_ne_valid h), λ p. let e : ◌≡◌ {A = Json} (bool b) (obj p.0) = p.2 in cc)
check_property_iff (num n) =
    (λ h. absurd (invalid_ne_valid h), λ p. let e : ◌≡◌ {A = Json} (num n) (obj p.0) = p.2 in cc)
check_property_iff (str s) =
    (λ h. absurd (invalid_ne_valid h), λ p. let e : ◌≡◌ {A = Json} (str s) (obj p.0) = p.2 in cc)
check_property_iff (arr items) = (
  λ h. absurd (invalid_ne_valid h),
  λ p. let e : ◌≡◌ {A = Json} (arr items) (obj p.0) = p.2 in cc,
)

pub check_properties_iff : (ps : Fields) → (check_properties ps ≡ valid) ↔ AllProperties ps
unfolding check_properties
check_properties_iff end = (λ _. no_more, λ _. refl)
check_properties_iff (field name v rest) = (
  λ h.
      let (here, later) = then_check-valid (check_property v) (check_properties rest) h in
      and_more ((check_property_iff v).0 here) ((check_properties_iff rest).0 later),
  λ all. rest_valid name v rest (check_properties_iff rest).1 all,
)
  where
    rest_valid :
        (name : String) (v : Json) (rest : Fields)
        → (AllProperties rest → check_properties rest ≡ valid)
        → AllProperties (field name v rest)
        → (check_property v then_check check_properties rest) ≡ valid
    rest_valid name v rest ih (and_more here later) = rw ((check_property_iff v).1 here) (ih later)

pub check_required_iff :
    (ps : Fields) (items : Items) → (check_required ps items ≡ valid) ↔ AllRequired ps items
unfolding check_required check_required_entry
check_required_iff ps nil = (λ _. all_named, λ _. refl)
check_required_iff ps (cons (str r) rest) = (
  λ h.
      let (here, later) = then_check-valid (require (has_key r ps)) (check_required ps rest) h in
      named (require-valid (has_key r ps) here) ((check_required_iff ps rest).0 later),
  λ all. rest_valid r rest (check_required_iff ps rest).1 all,
)
  where
    rest_valid :
        (r : String) (rest : Items)
        → (AllRequired ps rest → check_required ps rest ≡ valid)
        → AllRequired ps (cons (str r) rest)
        → (require (has_key r ps) then_check check_required ps rest) ≡ valid
    rest_valid r rest ih (named here later) = rw here (ih later)
check_required_iff ps (cons null rest) = (λ h. absurd (invalid_ne_valid h), λ all. elim all [ ])
check_required_iff ps (cons (bool b) rest) = (λ h. absurd (invalid_ne_valid h), λ all. elim all [ ])
check_required_iff ps (cons (num n) rest) = (λ h. absurd (invalid_ne_valid h), λ all. elim all [ ])
check_required_iff ps (cons (arr xs) rest) = (λ h. absurd (invalid_ne_valid h), λ all. elim all [ ])
check_required_iff ps (cons (obj fs) rest) = (λ h. absurd (invalid_ne_valid h), λ all. elim all [ ])
