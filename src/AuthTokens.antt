-- ===== src/AuthTokens.antt =====
-- repositories/auth_token_repo.py: the refresh tokens, rotated on every use. `hash` and `verify`
-- stand for the argon2 hasher. Times are whole seconds.
pub mod Rotation
pub mod Reuse
pub mod Purge
pub mod Race
use factn_assistant_service.Base.{
  ◌||◌, ◌&&◌, none, str_eq, ltb, if◌then◌else◌, find_first, ◌+◌, some, Bool, ℕ, String, Option,
  refl,
}
use factn_assistant_service.Services.{Collection}
use factn_assistant_service.Schemas.{AuthTokenDoc}

-- seven days
abbrev pub refresh_ttl : ℕ
refresh_ttl = 604_800

-- What `secrets` and `uuid` make for a new token: its text, its document id and a family.
pub record Fresh : Type 0 where
  pub raw_token : String
  pub doc_id : String
  pub family : String

-- `token_family or str(uuid.uuid4())`
unfoldable pub family_or_new : Option String → String → String
family_or_new none new = new
family_or_new (some f) new = if str_eq f "" then new else f

-- `if tenant_id: query["tenant_id"] = tenant_id`, with `expires_at > now`
unfoldable pub is_live_for : Option String → ℕ → AuthTokenDoc → Bool
is_live_for none now d = ltb now d.expires_at
is_live_for (some tenant_id) now d =
    ltb now d.expires_at && (str_eq tenant_id "" || str_eq d.tenant_id tenant_id)

unfoldable pub is_of_tenant : String → AuthTokenDoc → Bool
is_of_tenant tenant_id d = str_eq d.tenant_id tenant_id

unfoldable pub is_of_family : String → String → AuthTokenDoc → Bool
is_of_family tenant_id family d = str_eq d.tenant_id tenant_id && str_eq d.token_family family

unfoldable pub has_id : String → AuthTokenDoc → Bool
has_id doc_id d = str_eq d.id doc_id

module _ (tokens : Collection AuthTokenDoc) where
  open tokens use {State}

  unfoldable pub create :
      (String → String)
      → String
      → Option String
      → Fresh
      → ℕ
      → State
      → (AuthTokenDoc × String) × State
  create hash tenant_id token_family fresh now s =
      let doc : AuthTokenDoc = record {
        id = fresh.doc_id;
        tenant_id = tenant_id;
        token_hash = hash fresh.raw_token;
        token_family = family_or_new token_family fresh.family;
        created_at = now;
        expires_at = now + refresh_ttl;
      } in
      ((doc, fresh.raw_token), tokens.insert_one doc s)

  -- The loop over the cursor stops at the first document whose hash matches. The call of
  -- `_check_and_kill_reused_family` where none matches logs and does nothing else.
  unfoldable pub verify_and_rotate :
      (String → String)
      → (String → String → Bool)
      → String
      → Option String
      → Fresh
      → ℕ
      → State
      → Option (AuthTokenDoc × String) × State
  verify_and_rotate hash verify raw_token tenant_id fresh now s =
      elim (find_first (λ d. verify d.token_hash raw_token)
        (tokens.find (is_live_for tenant_id now) s)) [
          | none ↦ (none, s)
          | some d ↦
              let (issued, s') =
                create hash d.tenant_id (some d.token_family) fresh now
                  (tokens.delete_one (has_id d.id) s) in
              (some issued, s')
        ]

  unfoldable pub revoke_for_tenant : String → State → ℕ × State
  revoke_for_tenant tenant_id s = tokens.delete_many (is_of_tenant tenant_id) s

  unfoldable pub revoke_by_family : String → String → State → State
  revoke_by_family tenant_id family s = (tokens.delete_many (is_of_family tenant_id family) s).1
