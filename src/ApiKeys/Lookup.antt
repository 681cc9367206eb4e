-- ===== src/ApiKeys/Lookup.antt =====
-- Who gets through with an API key, and what revoking does.
use factn_assistant_service.Base.{
  ap, ◌∙◌, Option-cases, [], inr, inl, Bool-cases, ◌∷◌, eq_iff, some, keep_if, arith, none, false,
  All, ℕ, true, Option, List, ◌≡◌, String, Bool,
}
use mathlib.Core.Path.{subst}
use factn_assistant_service.ApiKeys.{take_chars, get_by_raw_key, check_candidates, has_prefix}
use factn_assistant_service.Services.{Collection}
use factn_assistant_service.Schemas.{ApiKeyDoc, is_valid}

-- The document lets the raw key in at the time `now`.
pub record Admits (verify : String → String → Bool) (raw_key : String) (now : ℕ) (d : ApiKeyDoc)
    : Type 0 where
  pub matches : verify d.key_hash raw_key ≡ true
  pub prefixed : d.key_prefix ≡ take_chars 12 raw_key
  pub live : d.revoked ≡ false
  pub valid : is_valid now d ≡ true

has_prefix-holds :
    (prefix : String) (d : ApiKeyDoc)
    → has_prefix prefix d ≡ true
    → (d.key_prefix ≡ prefix) × (d.revoked ≡ false)
unfolding has_prefix
has_prefix-holds prefix d h = ground (arith, eq_iff d.key_prefix prefix)

All-has_prefix : (p : ApiKeyDoc → Bool) (ds : List ApiKeyDoc) → All (λ d. p d ≡ true) (keep_if p ds)
All-has_prefix p [] = tt
All-has_prefix p (d ∷ ds) = elim (Bool-cases (p d)) [
  | inl kept ↦ rw kept (kept, All-has_prefix p ds)
  | inr dropped ↦ rw dropped (All-has_prefix p ds)
]

none-ne-some : (d : ApiKeyDoc) → ◌≡◌ {A = Option ApiKeyDoc} none (some d) → ⊥
none-ne-some d e = cc

module _ (keys : Collection ApiKeyDoc) (verify : String → String → Bool) where
  open keys use {State}

  pub check_candidates-found :
      (P : ApiKeyDoc → Type 0) (raw_key : String) (now : ℕ) (ds : List ApiKeyDoc) (d : ApiKeyDoc)
      → All P ds
      → check_candidates keys verify raw_key now ds ≡ some d
      → P d × (verify d.key_hash raw_key ≡ true) × (is_valid now d ≡ true)
  unfolding check_candidates
  check_candidates-found P raw_key now [] d all e = absurd (none-ne-some d e)
  check_candidates-found P raw_key now (x ∷ ds) d all e =
      elim (Bool-cases (verify x.key_hash raw_key)) [
        | inl hit ↦ elim (Bool-cases (is_valid now x)) [
          | inl good ↦
              let same : x ≡ d = ground (arith, e) in
              (subst P same all.0, rw (← same) hit, rw (← same) good)
          | inr bad ↦ absurd (none-ne-some d (rw (hit, bad) at e))
        ]
        | inr miss ↦ check_candidates-found P raw_key now ds d all.1 (rw miss at e)
      ]

  pub get_by_raw_key-candidates :
      (raw_key : String) (now : ℕ) (s : State) (d : ApiKeyDoc)
      → (get_by_raw_key keys verify raw_key now s).0 ≡ some d
      → check_candidates keys verify raw_key now
          (keep_if (has_prefix (take_chars 12 raw_key)) (keys.docs s))
        ≡ some d
  unfolding get_by_raw_key
  get_by_raw_key-candidates raw_key now s d e =
      let hits =
        check_candidates keys verify raw_key now
          (keys.find (has_prefix (take_chars 12 raw_key)) s) in
      rw (← keys.find_lem (has_prefix (take_chars 12 raw_key)) s) (elim (Option-cases hits) [
        | inl nothing ↦ absurd (none-ne-some d (ground (arith, e, nothing)))
        | inr (x, hit) ↦ let same : x ≡ d = ground (arith, e, hit) in hit ∙ ap some same
      ])

  -- A raw key gets a document only if its hash matches, its prefix is that of the key, and it is
  -- neither revoked nor expired at that time.
  pub get_by_raw_key-Admits :
      (raw_key : String) (now : ℕ) (s : State) (d : ApiKeyDoc)
      → (get_by_raw_key keys verify raw_key now s).0 ≡ some d
      → Admits verify raw_key now d
  get_by_raw_key-Admits raw_key now s d e =
      let prefix = take_chars 12 raw_key in
      let found =
        check_candidates-found (λ x. has_prefix prefix x ≡ true) raw_key now
          (keep_if (has_prefix prefix) (keys.docs s)) d
          (All-has_prefix (has_prefix prefix) (keys.docs s))
          (get_by_raw_key-candidates raw_key now s d e) in
      let held = has_prefix-holds prefix d found.0 in
      record { matches = found.1; prefixed = held.0; live = held.1; valid = found.2 }
