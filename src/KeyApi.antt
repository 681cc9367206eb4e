-- ===== src/KeyApi.antt =====
-- The routes of api/keys.py on the API keys of a project. A refusal is the HTTP status. A rate limit
-- in a request is a natural number here; the route takes any integer.
pub mod Issued
use factn_assistant_service.Base.{
  map, ok, err, str_eq, none, some, if◌then◌else◌, List, Bool, ℕ, Result, Option, String,
}
use factn_assistant_service.ApiKeys.{create, list_for_project, revoke}
use factn_assistant_service.PlanLimits.{effective_rate_limit_rpm}
use factn_assistant_service.Projects.{get_project}
use factn_assistant_service.Schemas.{TenantDoc, ProjectDoc, ApiKeyDoc, KeyType, publishable, secret}
use factn_assistant_service.Services.{Collection}

pub record CreateKeyRequest : Type 0 where
  pub label : String
  pub key_type : String
  pub rate_limit_rpm : ℕ

-- What a list shows of a key: neither the key nor its hash
pub record KeySummary : Type 0 where
  pub key_id : String
  pub key_prefix : String
  pub key_type : KeyType
  pub label : String
  pub rate_limit_rpm : ℕ
  pub revoked : Bool
  pub created_at : ℕ
  pub last_used_at : Option ℕ

unfoldable pub summary_of : ApiKeyDoc → KeySummary
summary_of k = record {
  key_id = k.id;
  key_prefix = k.key_prefix;
  key_type = k.key_type;
  label = k.label;
  rate_limit_rpm = k.rate_limit_rpm;
  revoked = k.revoked;
  created_at = k.created_at;
  last_used_at = k.last_used_at;
}

unfoldable pub parse_key_type : String → Option KeyType
parse_key_type t =
    if str_eq t "publishable"
    then some publishable
    else if str_eq t "secret"
    then some secret
    else none

module _ (projects : Collection ProjectDoc) (keys : Collection ApiKeyDoc) where
  -- The created document and the raw key, which only this response shows. An insertion that raises is
  -- answered with 500.
  unfoldable pub create_key :
      (String → String)
      → TenantDoc
      → String
      → CreateKeyRequest
      → String
      → String
      → ℕ
      → projects.State
      → keys.State
      → Result ℕ (ApiKeyDoc × String) × keys.State
  create_key hash tenant project_id body raw_body new_id now docs s =
      elim (get_project projects project_id (some tenant.id) docs) [
        | none ↦ (err 404, s)
        | some project ↦ elim (parse_key_type body.key_type) [
          | none ↦ (err 422, s)
          | some key_type ↦
              let (issued, s') =
                create keys hash project_id tenant.id body.label key_type
                  (effective_rate_limit_rpm tenant.plan body.rate_limit_rpm) raw_body new_id now
                  s in
              elim issued [ none ↦ (err 500, s') | some made ↦ (ok made, s') ]
        ]
      ]

  unfoldable pub list_keys :
      TenantDoc → String → projects.State → keys.State → Result ℕ (List KeySummary)
  list_keys tenant project_id docs s =
      elim (get_project projects project_id (some tenant.id) docs) [
        | none ↦ err 404
        | some project ↦ ok (map summary_of (list_for_project keys project_id s))
      ]

  -- The key is one of the tenant's, in this project or another.
  unfoldable pub revoke_key :
      TenantDoc
      → String
      → String
      → ℕ
      → projects.State
      → keys.State
      → Result ℕ (Unit {0}) × keys.State
  revoke_key tenant project_id key_id now docs s =
      elim (get_project projects project_id (some tenant.id) docs) [
        | none ↦ (err 404, s)
        | some project ↦
            let (revoked, s') = revoke keys key_id tenant.id now s in
            ((if revoked then ok tt else err 404), s')
      ]
