-- ===== src/AuthTokens/Race.antt =====
-- Other requests between the lookup and the writes of `verify_and_rotate`, which are separate calls of the
-- database in repositories/auth_token_repo.py.
use mathlib.Core.Option.{some-ne-none}
use mathlib.Core.List.{cons≢nil, append_assoc}
use factn_assistant_service.Base.{
  eq_refl, ap, ◌∙◌, inr, inl, not, [], Bool-cases, ◌∷◌, ◌+◌, str_eq, refl, keep_if, ◌++◌, some,
  false, ℕ, true, none, Option, ◌≡◌, find_first, String, List, Bool,
}
use factn_assistant_service.AuthTokens.{
  family_or_new, Fresh, verify_and_rotate, is_live_for, create, revoke_for_tenant, has_id,
  is_of_tenant, refresh_ttl,
}
use factn_assistant_service.Schemas.{AuthTokenDoc}
use factn_assistant_service.Services.{Collection}
use factn_assistant_service.Services.Lists.{remove_first}

remove_first-missing :
    {A : Type 0} (p : A → Bool) (xs : List A) (a : A)
    → find_first p xs ≡ none
    → p a ≡ false
    → remove_first p (xs ++ a ∷ []) ≡ xs ++ a ∷ []
remove_first-missing p [] a missing other = rw other refl
remove_first-missing {A} p (x ∷ xs) a missing other = elim (Bool-cases (p x)) [
  | inl here ↦ absurd (some-ne-none x (rw here at missing))
  | inr later ↦
      rw later
        (ap (λ (ys : List A). x ∷ ys) (remove_first-missing p xs a (rw later at missing) other))
]

keep_if-none :
    {A : Type 0} (q : A → Bool) (xs : List A) → keep_if q (keep_if (λ x. not (q x)) xs) ≡ []
keep_if-none q [] = refl
keep_if-none q (x ∷ xs) = elim (Bool-cases (q x)) [
  | inl gone ↦ rw gone (keep_if-none q xs)
  | inr kept ↦ rw kept (rw kept (keep_if-none q xs))
]

keep_if-remove_first :
    {A : Type 0} (q p : A → Bool) (xs : List A)
    → keep_if q (remove_first p (keep_if (λ x. not (q x)) xs)) ≡ []
keep_if-remove_first q p [] = refl
keep_if-remove_first q p (x ∷ xs) = elim (Bool-cases (q x)) [
  | inl gone ↦ rw gone (keep_if-remove_first q p xs)
  | inr kept ↦ elim (Bool-cases (p x)) [
    | inl removed ↦ rw kept (rw removed (keep_if-none q xs))
    | inr stays ↦ rw kept (rw stays (rw kept (keep_if-remove_first q p xs)))
  ]
]

keep_if-last :
    {A : Type 0} (q : A → Bool) (xs : List A) (a : A)
    → keep_if q xs ≡ []
    → q a ≡ true
    → keep_if q (xs ++ a ∷ []) ≡ a ∷ []
keep_if-last q [] a nothing hit = rw hit refl
keep_if-last q (x ∷ xs) a nothing hit = elim (Bool-cases (q x)) [
  | inl here ↦ absurd (cons≢nil (rw here at nothing))
  | inr later ↦ rw later (keep_if-last q xs a (rw later at nothing) hit)
]

module _ (tokens : Collection AuthTokenDoc) (hash : String → String)
    (verify : String → String → Bool) where
  open tokens use {State}

  -- Up to the match
  unfoldable pub find_match : String → Option String → ℕ → State → Option AuthTokenDoc
  find_match raw tenant now s =
      find_first (λ d. verify d.token_hash raw) (tokens.find (is_live_for tenant now) s)

  -- From the match on: the deletion, whose count is not looked at, and the new token
  unfoldable pub issue_next : AuthTokenDoc → Fresh → ℕ → State → (AuthTokenDoc × String) × State
  issue_next d fresh now s =
      create tokens hash d.tenant_id (some d.token_family) fresh now
        (tokens.delete_one (has_id d.id) s)

  -- `verify_and_rotate` with what other requests do in between
  unfoldable pub rotate_around :
      (State → State)
      → String
      → Option String
      → Fresh
      → ℕ
      → State
      → Option (AuthTokenDoc × String) × State
  rotate_around between raw tenant fresh now s = elim (find_match raw tenant now s) [
    | none ↦ (none, between s)
    | some d ↦ let (issued, s') = issue_next d fresh now (between s) in (some issued, s')
  ]

  -- With nothing in between it is the whole operation.
  rotate_around-same :
      (raw : String) (tenant : Option String) (fresh : Fresh) (now : ℕ) (s : State)
      → verify_and_rotate tokens hash verify raw tenant fresh now s
        ≡ rotate_around (λ x. x) raw tenant fresh now s
  unfolding verify_and_rotate rotate_around find_match issue_next create
  rotate_around-same raw tenant fresh now s = refl

  -- The document of the new token
  new_from : AuthTokenDoc → Fresh → ℕ → AuthTokenDoc
  new_from d fresh now = record {
    id = fresh.doc_id;
    tenant_id = d.tenant_id;
    token_hash = hash fresh.raw_token;
    token_family = family_or_new (some d.token_family) fresh.family;
    created_at = now;
    expires_at = now + refresh_ttl;
  }

  rotate_matched :
      (raw : String) (tenant : Option String) (fresh : Fresh) (now : ℕ) (s : State)
      (d : AuthTokenDoc)
      → find_match raw tenant now s ≡ some d
      → verify_and_rotate tokens hash verify raw tenant fresh now s
        ≡ (some (new_from d fresh now, fresh.raw_token), (issue_next d fresh now s).1)
  unfolding rotate_around issue_next create new_from
  rotate_matched raw tenant fresh now s d found =
      rotate_around-same raw tenant fresh now s ∙ rw (found, rotate_around) refl

  docs-issue_next :
      (d : AuthTokenDoc) (fresh : Fresh) (now : ℕ) (s : State)
      → tokens.docs (issue_next d fresh now s).1
        ≡ remove_first (has_id d.id) (tokens.docs s) ++ new_from d fresh now ∷ []
  unfolding issue_next create new_from
  docs-issue_next d fresh now s =
      let new = new_from d fresh now in
      tokens.docs-insert_one new (tokens.delete_one (has_id d.id) s)
      ∙ ap (λ ds. ds ++ new ∷ []) (tokens.docs-delete_one (has_id d.id) s)

  -- Two requests present the same refresh token, and the second is answered in between the lookup of the first
  -- and its deletion: where no two documents have one id and the second's new document has another one, each
  -- gets a new token. Of the two new documents, which the collection has in place of the one that was
  -- presented, each is of its tenant and has a week to live.
  pub rotate_around-rotate :
      (raw : String) (tenant : Option String) (first second : Fresh) (now : ℕ) (s : State)
      (d : AuthTokenDoc)
      → find_match raw tenant now s ≡ some d
      → find_first (has_id d.id) (remove_first (has_id d.id) (tokens.docs s)) ≡ none
      → str_eq second.doc_id d.id ≡ false
      → let between : State → State =
          λ x. (verify_and_rotate tokens hash verify raw tenant second now x).1 in
        let outer = rotate_around between raw tenant first now s in
        (one : AuthTokenDoc) × (two : AuthTokenDoc) × (outer.0 ≡ some (one, first.raw_token))
        × ((verify_and_rotate tokens hash verify raw tenant second now s).0
            ≡ some (two, second.raw_token))
        × (tokens.docs outer.1 ≡ remove_first (has_id d.id) (tokens.docs s) ++ two ∷ one ∷ [])
        × (one.tenant_id ≡ d.tenant_id)
        × (two.tenant_id ≡ d.tenant_id)
        × (one.expires_at ≡ now + refresh_ttl)
        × (two.expires_at ≡ now + refresh_ttl)
  unfolding rotate_around issue_next create new_from has_id
  rotate_around-rotate raw tenant first second now s d found own other =
      let one = new_from d first now in
      let two = new_from d second now in
      let t = (issue_next d second now s).1 in
      let rest = remove_first (has_id d.id) (tokens.docs s) in
      let inner = rotate_matched raw tenant second now s d found in
      let docs_t : tokens.docs t ≡ rest ++ two ∷ [] = docs-issue_next d second now s in
      (
        one,
        two,
        rw (found, rotate_around) refl,
        ap (λ r. r.0) inner,
        rw (found, rotate_around)
            (ap (λ r. tokens.docs (issue_next d first now r.1).1) inner
              ∙ docs-issue_next d first now t
              ∙ ap (λ ds. remove_first (has_id d.id) ds ++ one ∷ []) docs_t
              ∙ ap (λ ds. ds ++ one ∷ []) (remove_first-missing (has_id d.id) rest two own other)
              ∙ append_assoc rest (two ∷ []) (one ∷ [])),
        refl,
        refl,
        refl,
        refl,
      )

  -- A logout in between the lookup of a rotation and its deletion does not reach the new token: it is
  -- answered, and its document is the one that the tenant then has.
  pub rotate_around-revoke_for_tenant :
      (raw : String) (tenant : Option String) (fresh : Fresh) (now : ℕ) (s : State)
      (d : AuthTokenDoc)
      → find_match raw tenant now s ≡ some d
      → let between : State → State = λ x. (revoke_for_tenant tokens d.tenant_id x).1 in
        let outer = rotate_around between raw tenant fresh now s in
        (new : AuthTokenDoc) × (outer.0 ≡ some (new, fresh.raw_token))
        × (keep_if (is_of_tenant d.tenant_id) (tokens.docs outer.1) ≡ new ∷ [])
        × (new.expires_at ≡ now + refresh_ttl)
  unfolding rotate_around issue_next create revoke_for_tenant is_of_tenant new_from
  rotate_around-revoke_for_tenant raw tenant fresh now s d found =
      let q = is_of_tenant d.tenant_id in
      let new = new_from d fresh now in
      let t = (tokens.delete_many q s).1 in
      (
        new,
        rw (found, rotate_around) refl,
        rw (found, rotate_around)
            (ap (keep_if q) (
                docs-issue_next d fresh now t
                ∙ ap (λ ds. remove_first (has_id d.id) ds ++ new ∷ [])
                    (tokens.docs-delete_many q s))
              ∙ keep_if-last q
                  (remove_first (has_id d.id) (keep_if (λ x. not (q x)) (tokens.docs s))) new
                  (keep_if-remove_first q (has_id d.id) (tokens.docs s)) (eq_refl d.tenant_id)),
        refl,
      )
