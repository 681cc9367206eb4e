-- ===== src/ApiKeys.antt =====
-- repositories/api_key_repo.py: the collection of API keys. `verify hash raw` stands for the argon2
-- hasher: true where the raw key matches the hash, false where it raises one of its three errors.
pub mod Lookup
pub mod Revoke
use factn_assistant_service.Base.{
  ◌||◌, [], ◌∷◌, not, ◌==◌, ◌&&◌, zero, none, if◌then◌else◌, true, suc, str_eq, str_append, some,
  false, Option, List, Bool, ℕ, String, refl,
}
use factn_assistant_service.Services.{Collection}
use factn_assistant_service.Schemas.{ApiKeyDoc, KeyType, publishable, secret, is_valid}

-- `text[:n]`
unfoldable pub take_chars : ℕ → String → String
take_chars zero s = String.[]
take_chars (suc n) String.[] = String.[]
take_chars (suc n) (String.◌∷◌ c s) = String.◌∷◌ c (take_chars n s)

-- `{type_prefix}_live_{random_body}`
unfoldable pub generate_raw_key : KeyType → String → String
generate_raw_key publishable body = str_append "pk_live_" body
generate_raw_key secret body = str_append "sk_live_" body

unfoldable pub has_prefix : String → ApiKeyDoc → Bool
has_prefix prefix d = str_eq d.key_prefix prefix && not d.revoked

-- `{"_id": key_id, "tenant_id": tenant_id}`
unfoldable pub is_key_of : String → String → ApiKeyDoc → Bool
is_key_of key_id tenant_id d = str_eq d.id key_id && str_eq d.tenant_id tenant_id

unfoldable pub mark_revoked : ℕ → ApiKeyDoc → ApiKeyDoc
mark_revoked now d = record d { revoked = true; revoked_at = some now }

unfoldable pub mark_used : ℕ → ApiKeyDoc → ApiKeyDoc
mark_used now d = record d { last_used_at = some now }

-- The stored key shares the id or the hash, which are unique, with the first one.
unfoldable pub shares_unique : ApiKeyDoc → ApiKeyDoc → Bool
shares_unique d x = str_eq x.id d.id || str_eq x.key_hash d.key_hash

module _ (keys : Collection ApiKeyDoc) where
  open keys use {State}

  -- `raw_body` and `new_id` are what `secrets` and `uuid` make; `hash` is the hasher. `none` where the
  -- server refuses the document, whose id or hash is taken: insert_one raises.
  unfoldable pub create :
      (String → String)
      → String
      → String
      → String
      → KeyType
      → ℕ
      → String
      → String
      → ℕ
      → State
      → Option (ApiKeyDoc × String) × State
  create hash project_id tenant_id label key_type rate_limit_rpm raw_body new_id now s =
      let raw_key = generate_raw_key key_type raw_body in
      let doc : ApiKeyDoc = record {
        id = new_id;
        project_id = project_id;
        tenant_id = tenant_id;
        label = label;
        key_prefix = take_chars 12 raw_key;
        key_hash = hash raw_key;
        key_type = key_type;
        rate_limit_rpm = rate_limit_rpm;
        revoked = false;
        revoked_at = none;
        created_at = now;
        last_used_at = none;
        expires_at = none;
      } in
      elim (keys.insert_unique (shares_unique doc) doc s) [
        | none ↦ (none, s)
        | some s' ↦ (some (doc, raw_key), s')
      ]

  -- A failed write of the timestamp is logged only, and not modelled.
  unfoldable pub touch_last_used : String → ℕ → State → State
  touch_last_used key_id now s = (keys.update_one (λ d. str_eq d.id key_id) (mark_used now) s).1

  module _ (verify : String → String → Bool) where
    -- The loop over the candidates: the first whose hash matches decides.
    unfoldable pub check_candidates : String → ℕ → List ApiKeyDoc → Option ApiKeyDoc
    check_candidates raw_key now [] = none
    check_candidates raw_key now (d ∷ ds) =
        let later = check_candidates raw_key now ds in
        if verify d.key_hash raw_key then (if is_valid now d then some d else none) else later

    unfoldable pub get_by_raw_key : String → ℕ → State → Option ApiKeyDoc × State
    get_by_raw_key raw_key now s =
        if str_eq raw_key ""
        then (none, s)
        else (elim (check_candidates raw_key now
            (keys.find (has_prefix (take_chars 12 raw_key)) s)) [
              | none ↦ (none, s)
              | some d ↦ (some d, touch_last_used d.id now s)
            ])

  unfoldable pub list_for_project : String → State → List ApiKeyDoc
  list_for_project project_id s = keys.find (λ d. str_eq d.project_id project_id) s

  unfoldable pub get_by_id : String → String → State → Option ApiKeyDoc
  get_by_id key_id tenant_id s = keys.find_one (is_key_of key_id tenant_id) s

  -- `result.modified_count == 1`
  unfoldable pub revoke : String → String → ℕ → State → Bool × State
  revoke key_id tenant_id now s =
      let (modified, s') = keys.update_one (is_key_of key_id tenant_id) (mark_revoked now) s in
      (modified == 1, s')
