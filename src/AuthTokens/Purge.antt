-- ===== src/AuthTokens/Purge.antt =====
-- The index auth_tokens_ttl of db/indexes.py deletes expired documents behind the back of
-- repositories/auth_token_repo.py.
use factn_assistant_service.Base.{
  refl, none, [], sym, some, inr, inl, arith, ap, Bool-cases, ◌∷◌, ◌∙◌, ◌<◌, Option-cases, ◌≤◌,
  true, keep_if, find_first, ◌≡◌, ℕ, String, List, Option, Bool,
}
use factn_assistant_service.Schemas.{AuthTokenDoc}
use factn_assistant_service.Services.{Collection}
use factn_assistant_service.AuthTokens.{Fresh, verify_and_rotate, is_live_for, create}

-- A second filter that keeps whatever the first accepts makes no difference before it.
keep_if-absorbed :
    {A : Type 0} (p q : A → Bool) (xs : List A)
    → ((x : A) → p x ≡ true → q x ≡ true)
    → keep_if p (keep_if q xs) ≡ keep_if p xs
keep_if-absorbed p q [] weaker = refl
keep_if-absorbed {A} p q (x ∷ xs) weaker = elim (Bool-cases (p x)) [
  | inl live ↦
      rw (weaker x live) (rw live (ap (λ (ys : List A). x ∷ ys) (keep_if-absorbed p q xs weaker)))
  | inr dead ↦ elim (Bool-cases (q x)) [
    | inl kept ↦ rw kept (rw dead (keep_if-absorbed p q xs weaker))
    | inr purged ↦ rw purged (rw dead (keep_if-absorbed p q xs weaker))
  ]
]

live_for-unexpired :
    (tenant : Option String) (now : ℕ) (d : AuthTokenDoc)
    → is_live_for tenant now d ≡ true
    → now < d.expires_at
unfolding is_live_for
live_for-unexpired none now d live = ground (arith, live)
live_for-unexpired (some t) now d live = ground (arith, live)

module _ (tokens : Collection AuthTokenDoc) (hash : String → String)
    (verify : String → String → Bool) where
  open tokens use {State}

  -- The second state has lost some of the documents of the first, of which each had expired.
  abbrev pub IsPurged : ℕ → State → State → Type 0
  IsPurged now s t =
      (kept : AuthTokenDoc → Bool) × (tokens.docs t ≡ keep_if kept (tokens.docs s))
      × ((d : AuthTokenDoc) → now < d.expires_at → kept d ≡ true)

  rotate_found :
      (raw : String) (tenant : Option String) (fresh : Fresh) (now : ℕ) (s t : State)
      → tokens.find (is_live_for tenant now) t ≡ tokens.find (is_live_for tenant now) s
      → (verify_and_rotate tokens hash verify raw tenant fresh now t).0
        ≡ (verify_and_rotate tokens hash verify raw tenant fresh now s).0
  unfolding verify_and_rotate create
  rotate_found raw tenant fresh now s t same =
      let found =
        find_first (λ d. verify d.token_hash raw) (tokens.find (is_live_for tenant now) s) in
      elim (Option-cases found) [
        | inl nothing ↦ rw (same, verify_and_rotate) (rw (nothing, verify_and_rotate) refl)
        | inr (d, hit) ↦ rw (same, verify_and_rotate) (rw (hit, verify_and_rotate) refl)
      ]

  -- Whichever expired documents have been deleted, a rotation at that time or later answers as if they
  -- were all still there: the same refusal, or the same new document and token.
  pub purge-verify_and_rotate :
      (raw : String) (tenant : Option String) (fresh : Fresh) (purged_at now : ℕ) (s t : State)
      → IsPurged purged_at s t
      → purged_at ≤ now
      → (verify_and_rotate tokens hash verify raw tenant fresh now t).0
        ≡ (verify_and_rotate tokens hash verify raw tenant fresh now s).0
  purge-verify_and_rotate raw tenant fresh purged_at now s t (kept, left, keeps) later =
      let p = is_live_for tenant now in
      rotate_found raw tenant fresh now s t (
        tokens.find_lem p t
        ∙ ap (keep_if p) left
        ∙ keep_if-absorbed p kept (tokens.docs s)
            (λ d live. keeps d (omega (arith, later, live_for-unexpired tenant now d live)))
        ∙ sym (tokens.find_lem p s))
