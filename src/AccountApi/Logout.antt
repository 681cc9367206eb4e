-- ===== src/AccountApi/Logout.antt =====
-- After the logout of api/auth.py no refresh token of the tenant works.
use factn_assistant_service.Base.{
  ap, ok_inj, ok_ne_err, Result-cases, err, some, ok, ◌/◌, Option, refl, [], ◌∙◌, sym, inl, inr,
  Bool-cases, ◌∷◌, keep_if, find_first, str_eq, true, not, ◌≡◌, none, ℕ, List, All, String, Bool,
}
use mathlib.Core.Path.{subst}
use mathlib.Core.Option.{some-ne-none}
use mathlib.Core.Bool.{false≢true}
use factn_assistant_service.AccountApi.{Libraries, Accounts, logout, refresh}
use factn_assistant_service.AccessTokens.{get_current_tenant}
use factn_assistant_service.AuthTokens.{Fresh, revoke_for_tenant, is_of_tenant, is_live_for}
use factn_assistant_service.AuthTokens.Rotation.{verify_and_rotate_lem, live_match}
use factn_assistant_service.Projects.{microseconds}
use factn_assistant_service.Schemas.{TenantDoc, AuthTokenDoc}
use factn_assistant_service.Services.{Collection, Redis}
use factn_assistant_service.SessionEvents.{non_empty}

-- Nothing is found among what two filters leave, where the second drops whatever is looked for.
find_first-dropped :
    {A : Type 0} (p q r : A → Bool) (xs : List A)
    → All (λ x. p x ≡ true → r x ≡ true) xs
    → find_first p (keep_if q (keep_if (λ x. not (r x)) xs)) ≡ none
find_first-dropped p q r [] h = refl
find_first-dropped p q r (x ∷ xs) h = elim (Bool-cases (r x)) [
  | inl dropped ↦ rw dropped (find_first-dropped p q r xs h.1)
  | inr kept ↦ elim (Bool-cases (q x)) [
    | inr not_live ↦ rw kept (rw not_live (find_first-dropped p q r xs h.1))
    | inl live ↦ elim (Bool-cases (p x)) [
      | inl found ↦ absurd (false≢true (sym kept ∙ h.0 found))
      | inr passed ↦ rw kept (rw live (rw passed (find_first-dropped p q r xs h.1)))
    ]
  ]
]

module _ (lib : Libraries) {V : Type 0} (redis : Redis V) (tenants : Collection TenantDoc)
    (tokens : Collection AuthTokenDoc) where
  -- Every stored token that the text matches is the tenant's.
  abbrev pub IsTokenOf : String → String → tokens.State → Type 0
  IsTokenOf raw tenant_id s =
      All (λ d. lib.verify_token d.token_hash raw ≡ true → str_eq d.tenant_id tenant_id ≡ true)
        (tokens.docs s)

  revoked-no_match :
      (raw tenant_id : String) (now : ℕ) (s : tokens.State)
      → IsTokenOf raw tenant_id s
      → live_match tokens lib.hash_token lib.verify_token raw none now
          (revoke_for_tenant tokens tenant_id s).1
        ≡ none
  unfolding revoke_for_tenant is_of_tenant
  revoked-no_match raw tenant_id now s own =
      rw (tokens.docs-delete_many (is_of_tenant tenant_id) s) (
        find_first-dropped (λ d. lib.verify_token d.token_hash raw) (is_live_for none now)
          (is_of_tenant tenant_id) (tokens.docs s) own)

  refused :
      (raw : String) (fresh : Fresh) (now : ℕ) (w : Accounts lib redis tenants tokens)
      → live_match tokens lib.hash_token lib.verify_token raw none (now / microseconds) w.token_docs
        ≡ none
      → refresh lib redis tenants tokens (some raw) fresh now w ≡ (err 401, w)
  unfolding refresh non_empty
  refused raw fresh now w unmatched = elim (Bool-cases (str_eq raw "")) [
    | inl empty ↦ rw (empty, refresh, non_empty)
    | inr given ↦
        elim (verify_and_rotate_lem tokens lib.hash_token lib.verify_token raw none fresh
          (now / microseconds) w.token_docs) [
            | inl (nothing, same) ↦
                rw (given, refresh, non_empty) (rw (same, refresh) (rw (ap (λ x. x.1) same)))
            | inr (d, new, text, s', hit, rotated, what) ↦
                absurd (some-ne-none d (sym hit ∙ unmatched))
          ]
  ]

  -- After a logout that succeeds, a refresh token whose stored documents were all the tenant's is
  -- refused with 401, whenever it is presented, and the refusal changes nothing.
  pub logout-refresh :
      (header cookie : Option String) (now later : ℕ) (raw : String) (fresh : Fresh)
      (tenant : TenantDoc) (w : Accounts lib redis tenants tokens)
      → (logout lib redis tenants tokens header cookie now w).0 ≡ ok tenant
      → IsTokenOf raw tenant.id w.token_docs
      → let w' = (logout lib redis tenants tokens header cookie now w).1 in
        refresh lib redis tenants tokens (some raw) fresh later w' ≡ (err 401, w')
  unfolding logout
  logout-refresh header cookie now later raw fresh tenant w done own =
      elim (Result-cases (get_current_tenant lib.jwt tenants header cookie now w.tenant_docs)) [
        | inl (code, unknown) ↦ absurd (ok_ne_err tenant code (sym (rw (unknown, logout) at done)))
        | inr (t, known) ↦
            let own' =
              subst (λ x. IsTokenOf raw x.id w.token_docs)
                (sym (ok_inj t tenant (rw (known, logout) at done))) own in
            rw (known, logout)
              (refused raw fresh later
                (record w { token_docs = (revoke_for_tenant tokens t.id w.token_docs).1 })
                (revoked-no_match raw t.id (later / microseconds) w.token_docs own'))
      ]
