-- ===== src/AuthTokens/Reuse.antt =====
-- What happens when a refresh token that a rotation has spent is presented again.
use factn_assistant_service.Base.{
  str_eq, ap, ◌∙◌, [], ◌∷◌, ◌++◌, inr, inl, ◌+◌, ◌<◌, Bool-cases, All, some, none, keep_if, ◌≡◌,
  find_first, ℕ, Option, Bool, String, refl, true, false, arith, List,
}
use factn_assistant_service.AuthTokens.{
  has_id, refresh_ttl, is_live_for, family_or_new, create, verify_and_rotate, Fresh,
}
use factn_assistant_service.AuthTokens.Rotation.{live_match}
use factn_assistant_service.Services.{Collection}
use factn_assistant_service.Services.Lists.{remove_first, All-append}
use factn_assistant_service.Schemas.{AuthTokenDoc}

find_first-none :
    {A : Type 0} (p q : A → Bool) (xs : List A)
    → All (λ x. p x ≡ false) xs
    → find_first p (keep_if q xs) ≡ none
find_first-none p q [] h = refl
find_first-none p q (x ∷ xs) h = ground (arith, h.0, find_first-none p q xs h.1)

find_first-last :
    {A : Type 0} (p q : A → Bool) (xs : List A) (a : A)
    → All (λ x. p x ≡ false) xs
    → p a ≡ true
    → q a ≡ true
    → find_first p (keep_if q (xs ++ a ∷ [])) ≡ some a
find_first-last p q [] a h yes_p yes_q = ground (arith, yes_p, yes_q)
find_first-last p q (x ∷ xs) a h yes_p yes_q =
    ground (arith, h.0, find_first-last p q xs a h.1 yes_p yes_q)

All-remove_first :
    {A : Type 0} (P : A → Type 0) (p : A → Bool) (xs : List A)
    → All P xs
    → All P (remove_first p xs)
All-remove_first P p [] h = tt
All-remove_first P p (x ∷ xs) h = elim (Bool-cases (p x)) [
  | inl here ↦ rw here h.1
  | inr later ↦ rw later (h.0, All-remove_first P p xs h.1)
]

module _ (tokens : Collection AuthTokenDoc) (hash : String → String)
    (verify : String → String → Bool) where
  open tokens use {State}

  -- The document that a rotation from `d` stores
  abbrev next_doc : AuthTokenDoc → Fresh → ℕ → AuthTokenDoc
  next_doc d fresh now = record {
    id = fresh.doc_id;
    tenant_id = d.tenant_id;
    token_hash = hash fresh.raw_token;
    token_family = family_or_new (some d.token_family) fresh.family;
    created_at = now;
    expires_at = now + refresh_ttl;
  }

  abbrev rotated : AuthTokenDoc → Fresh → ℕ → State → State
  rotated d fresh now s =
      tokens.insert_one (next_doc d fresh now) (tokens.delete_one (has_id d.id) s)

  docs-rotated :
      (d : AuthTokenDoc) (fresh : Fresh) (now : ℕ) (s : State)
      → tokens.docs (rotated d fresh now s)
        ≡ remove_first (has_id d.id) (tokens.docs s) ++ next_doc d fresh now ∷ []
  docs-rotated d fresh now s =
      tokens.docs-insert_one (next_doc d fresh now) (tokens.delete_one (has_id d.id) s)
      ∙ rw (tokens.docs-delete_one (has_id d.id) s)

  rotate_hit :
      (raw : String) (tenant : Option String) (fresh : Fresh) (now : ℕ) (s : State)
      (d : AuthTokenDoc)
      → live_match tokens hash verify raw tenant now s ≡ some d
      → verify_and_rotate tokens hash verify raw tenant fresh now s
        ≡ (some (next_doc d fresh now, fresh.raw_token), rotated d fresh now s)
  unfolding verify_and_rotate create
  rotate_hit raw tenant fresh now s d hit =
      rw (tokens.find_lem (is_live_for tenant now) s, hit, verify_and_rotate)

  rotate_miss :
      (raw : String) (tenant : Option String) (fresh : Fresh) (now : ℕ) (s : State)
      → live_match tokens hash verify raw tenant now s ≡ none
      → verify_and_rotate tokens hash verify raw tenant fresh now s ≡ (none, s)
  unfolding verify_and_rotate
  rotate_miss raw tenant fresh now s miss =
      rw (tokens.find_lem (is_live_for tenant now) s, miss, verify_and_rotate)

  -- Where a live refresh token of a named family has been rotated, no other stored document matches
  -- it, and the new text matches its own document, which the old text does not, and no document stored
  -- before, and where nothing else happens to the tokens: presenting the spent token again, at any time and whatever tenant is given, is refused and
  -- changes nothing. The token that the rotation gave can afterwards still be rotated, for seven days,
  -- to one of the same tenant and family: the reuse does not invalidate the family.
  pub reuse_keeps_family :
      (raw : String) (tenant tenant_again : Option String) (fresh fresh_again fresh_next : Fresh)
      (now again later : ℕ) (s : State) (d : AuthTokenDoc)
      → live_match tokens hash verify raw tenant now s ≡ some d
      → All (λ x. verify x.token_hash raw ≡ false) (remove_first (has_id d.id) (tokens.docs s))
      → All (λ x. verify x.token_hash fresh.raw_token ≡ false) (tokens.docs s)
      → verify (hash fresh.raw_token) raw ≡ false
      → verify (hash fresh.raw_token) fresh.raw_token ≡ true
      → later < now + refresh_ttl
      → str_eq d.token_family "" ≡ false
      → let after = (verify_and_rotate tokens hash verify raw tenant fresh now s).1 in
        let reuse = verify_and_rotate tokens hash verify raw tenant_again fresh_again again after in
        (reuse ≡ (none, after))
        × ((next : AuthTokenDoc) × ((verify_and_rotate tokens hash verify fresh.raw_token none
                fresh_next later reuse.1).0
              ≡ some (next, fresh_next.raw_token))
            × (next.tenant_id ≡ d.tenant_id)
            × (next.token_family ≡ d.token_family))
  unfolding is_live_for family_or_new
  reuse_keeps_family raw tenant tenant_again fresh fresh_again fresh_next now again later s d hit
        alone unused other own lives named =
      let new = next_doc d fresh now in
      let docs = docs-rotated d fresh now s in
      let miss : live_match tokens hash verify raw tenant_again again (rotated d fresh now s)
          ≡ none =
        rw docs (
          find_first-none (λ x. verify x.token_hash raw) (is_live_for tenant_again again)
            (remove_first (has_id d.id) (tokens.docs s) ++ new ∷ [])
            (All-append (λ x. verify x.token_hash raw ≡ false)
              (remove_first (has_id d.id) (tokens.docs s)) new alone other)) in
      let found : live_match tokens hash verify fresh.raw_token none later (rotated d fresh now s)
          ≡ some new =
        rw docs (
          find_first-last (λ x. verify x.token_hash fresh.raw_token) (is_live_for none later)
            (remove_first (has_id d.id) (tokens.docs s)) new
            (All-remove_first (λ x. verify x.token_hash fresh.raw_token ≡ false) (has_id d.id)
              (tokens.docs s) unused)
            own (ground (arith, lives))) in
      let refused = rotate_miss raw tenant_again fresh_again again (rotated d fresh now s) miss in
      let again_ok =
        rotate_hit fresh.raw_token none fresh_next later (rotated d fresh now s) new found in
      let same_family : (next_doc new fresh_next later).token_family ≡ d.token_family =
        ground (arith, named) in
      rw (rotate_hit raw tenant fresh now s d hit) (
        refused,
        rw refused (next_doc new fresh_next later, ap (λ r. r.0) again_ok, refl, same_family),
      )
