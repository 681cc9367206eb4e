-- ===== src/ProjectApi/Accepted.antt =====
-- What the validators of the tool requests have checked on a body that they accept.
use factn_assistant_service.Base.{
  ok_inj, arith, none, refl, inr, Bool-cases, some, inl, false, sym, Result-cases, ◌&&◌, ok_ne_err,
  true, ok, ◌≡◌, Option, Bool,
}
use factn_assistant_service.ToolSchema.{
  Verdict, valid, invalid, type_error, validate_tool_parameters,
}
use factn_assistant_service.ToolExecutor.Defs.{ExecutionMode}
use factn_assistant_service.ProjectApi.Requests.{
  CreateToolRequest, UpdateToolRequest, has_fields_for, parse_mode, validate_create,
  validate_update, field_status, check_mode_fields, matches_name, is_timeout,
  validate_given_parameters, if_given, has_length_to, is_some,
}

pub field_status-ok :
    (v : Verdict) (others : Bool) → field_status v others ≡ ok tt → (v ≡ valid) × (others ≡ true)
unfolding field_status
field_status-ok type_error others h = absurd (ok_ne_err tt 500 (sym h))
field_status-ok invalid others h = absurd (ok_ne_err tt 422 (sym h))
field_status-ok valid true h = (refl, refl)
field_status-ok valid false h = absurd (ok_ne_err tt 422 (sym h))

check_mode_fields-ok :
    (m : Option ExecutionMode) (b : CreateToolRequest) (mode : ExecutionMode)
    → check_mode_fields m b ≡ ok mode
    → has_fields_for mode b.static_response b.webhook_url ≡ true
unfolding check_mode_fields
check_mode_fields-ok none b mode h = absurd (ok_ne_err mode 422 (sym h))
check_mode_fields-ok (some m) b mode h =
    elim (Bool-cases (has_fields_for m b.static_response b.webhook_url)) [
      | inl fits ↦ rw (sym (ok_inj m mode (rw fits at h))) fits
      | inr misses ↦ absurd (ok_ne_err mode 422 (sym (rw misses at h)))
    ]

pub validate_create-ok :
    (b : CreateToolRequest) (mode : ExecutionMode)
    → validate_create b ≡ ok mode
    → (validate_tool_parameters b.parameters ≡ valid)
      × (matches_name b.name ≡ true)
      × (is_timeout b.timeout_ms ≡ true)
      × (has_fields_for mode b.static_response b.webhook_url ≡ true)
unfolding validate_create
validate_create-ok b mode h =
    let others =
      has_length_to 64 b.name
      && matches_name b.name
      && has_length_to 1_000 b.description
      && is_some (parse_mode b.execution_mode)
      && is_timeout b.timeout_ms in
    elim (Result-cases (field_status (validate_tool_parameters b.parameters) others)) [
      | inl (code, e) ↦ absurd (ok_ne_err mode code (sym (rw (e, validate_create) at h)))
      | inr (u, e) ↦
          let (parameters_ok, others_ok) =
            field_status-ok (validate_tool_parameters b.parameters) others e in
          (
            parameters_ok,
            ground (arith, others_ok),
            ground (arith, others_ok),
            check_mode_fields-ok (parse_mode b.execution_mode) b mode
                (rw (e, validate_create) at h),
          )
    ]

pub validate_update-ok :
    (b : UpdateToolRequest)
    → validate_update b ≡ ok tt
    → (validate_given_parameters b.parameters ≡ valid) × (if_given is_timeout b.timeout_ms ≡ true)
unfolding validate_update
validate_update-ok b h =
    let others =
      if_given (has_length_to 1_000) b.description
      && if_given (λ mode. is_some (parse_mode mode)) b.execution_mode
      && if_given is_timeout b.timeout_ms in
    let (parameters_ok, others_ok) =
      field_status-ok (validate_given_parameters b.parameters) others h in
    (parameters_ok, ground (arith, others_ok))
