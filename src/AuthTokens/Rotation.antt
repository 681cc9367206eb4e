-- ===== src/AuthTokens/Rotation.antt =====
-- What a rotation does: one document goes, one of the same tenant and family comes, and the old
-- token is spent.
use factn_assistant_service.Base.{
  ◌∙◌, [], ◌∷◌, ◌++◌, inr, inl, ◌+◌, Option-cases, ◌⊎◌, some, none, keep_if, ◌≡◌, find_first, ℕ,
  Option, Bool, String, refl,
}
use factn_assistant_service.AuthTokens.{
  has_id, refresh_ttl, is_live_for, family_or_new, create, verify_and_rotate, Fresh,
}
use factn_assistant_service.Services.{Collection}
use factn_assistant_service.Services.Lists.{remove_first}
use factn_assistant_service.Schemas.{AuthTokenDoc}

module _ (tokens : Collection AuthTokenDoc) (hash : String → String)
    (verify : String → String → Bool) where
  open tokens use {State}

  -- A rotation from the document `d`: the new document has its tenant and family, the hash of the new
  -- text and a week to live; the collection has lost the first document with the id of `d` and has
  -- gained the new one.
  pub record Rotates (fresh : Fresh) (now : ℕ) (s : State) (d new : AuthTokenDoc) (raw : String)
      (s' : State) : Type 0 where
    pub text : raw ≡ fresh.raw_token
    pub tenant : new.tenant_id ≡ d.tenant_id
    pub family : new.token_family ≡ family_or_new (some d.token_family) fresh.family
    pub hashed : new.token_hash ≡ hash fresh.raw_token
    pub lifetime : new.expires_at ≡ now + refresh_ttl
    pub docs : tokens.docs s' ≡ remove_first (has_id d.id) (tokens.docs s) ++ new ∷ []

  abbrev pub live_match : String → Option String → ℕ → State → Option AuthTokenDoc
  live_match raw tenant now s =
      find_first (λ d. verify d.token_hash raw) (keep_if (is_live_for tenant now) (tokens.docs s))

  -- A refresh token that matches no live document of the tenant asked for is refused and changes
  -- nothing; one that matches is rotated from the first document that it matches.
  pub verify_and_rotate_lem :
      (raw : String) (tenant : Option String) (fresh : Fresh) (now : ℕ) (s : State)
      → ((live_match raw tenant now s ≡ none)
          × (verify_and_rotate tokens hash verify raw tenant fresh now s ≡ (none, s)))
        ⊎ ((d : AuthTokenDoc) × (new : AuthTokenDoc) × (text : String) × (s' : State) × (live_match
                raw tenant now s
              ≡ some d)
            × (verify_and_rotate tokens hash verify raw tenant fresh now s ≡ (some (new, text), s'))
            × Rotates fresh now s d new text s')
  unfolding verify_and_rotate create
  verify_and_rotate_lem raw tenant fresh now s = elim (Option-cases (live_match raw tenant now s)) [
    | inl nothing ↦
        inl (nothing, rw (tokens.find_lem (is_live_for tenant now) s, nothing, verify_and_rotate))
    | inr (d, hit) ↦
        let new : AuthTokenDoc = record {
          id = fresh.doc_id;
          tenant_id = d.tenant_id;
          token_hash = hash fresh.raw_token;
          token_family = family_or_new (some d.token_family) fresh.family;
          created_at = now;
          expires_at = now + refresh_ttl;
        } in
        inr (
          d,
          new,
          fresh.raw_token,
          tokens.insert_one new (tokens.delete_one (has_id d.id) s),
          hit,
          rw (tokens.find_lem (is_live_for tenant now) s, hit, verify_and_rotate),
          record {
            text = refl;
            tenant = refl;
            family = refl;
            hashed = refl;
            lifetime = refl;
            docs =
                tokens.docs-insert_one new (tokens.delete_one (has_id d.id) s)
                ∙ rw (tokens.docs-delete_one (has_id d.id) s);
          },
        )
  ]
