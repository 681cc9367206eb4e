-- ===== src/ApiKeys/Revoke.antt =====
-- A revoked key lets nobody in, and revoking it again reports success.
use factn_assistant_service.Base.{
  ap, All-keep_if, ◌∙◌, [], sym, inr, keep_if, inl, arith, true, Bool-cases, ◌≢◌, ◌∷◌, ◌≤◌, some,
  All, false, count_if, ◌≡◌, ℕ, String, List, Bool, refl,
}
use factn_assistant_service.ApiKeys.{
  take_chars, has_prefix, get_by_raw_key, is_key_of, revoke, mark_revoked,
}
use factn_assistant_service.ApiKeys.Lookup.{
  get_by_raw_key-Admits, check_candidates-found, get_by_raw_key-candidates,
}
use factn_assistant_service.Services.{Collection}
use factn_assistant_service.Services.Lists.{update_first}
use factn_assistant_service.Schemas.{ApiKeyDoc}

-- While the document is not revoked it is not the key in question.
abbrev IsOther : (ApiKeyDoc → Bool) → ApiKeyDoc → Type 0
IsOther p d = d.revoked ≡ false → p d ≡ false

none_left : (p : ApiKeyDoc → Bool) (ds : List ApiKeyDoc) → count_if p ds ≡ 0 → All (IsOther p) ds
none_left p [] h = tt
none_left p (d ∷ ds) h = elim (Bool-cases (p d)) [
  | inl hit ↦ absurd (ground (arith, h, hit))
  | inr miss ↦ (λ _. miss, none_left p ds (ground (arith, h, miss)))
]

All-update_first :
    (p : ApiKeyDoc → Bool) (now : ℕ) (ds : List ApiKeyDoc)
    → count_if p ds ≤ 1
    → All (IsOther p) (update_first p (mark_revoked now) ds)
unfolding mark_revoked
All-update_first p now [] h = tt
All-update_first p now (d ∷ ds) h = elim (Bool-cases (p d)) [
  | inl hit ↦ rw hit ((λ e. cc), none_left p ds (ground (arith, h, hit)))
  | inr miss ↦ rw miss ((λ _. miss), All-update_first p now ds (ground (arith, h, miss)))
]

module _ (keys : Collection ApiKeyDoc) where
  open keys use {State}

  -- Where at most one document has the id and tenant, then after it is revoked no raw key, at any
  -- time and with any hasher, gets that document.
  pub revoke-get_by_raw_key :
      (verify : String → String → Bool) (key_id tenant_id raw_key : String) (now later : ℕ)
      (s : State) (d : ApiKeyDoc)
      → count_if (is_key_of key_id tenant_id) (keys.docs s) ≤ 1
      → (get_by_raw_key keys verify raw_key later (revoke keys key_id tenant_id now s).1).0 ≡ some d
      → is_key_of key_id tenant_id d ≡ false
  unfolding revoke
  revoke-get_by_raw_key verify key_id tenant_id raw_key now later s d unique e =
      let s' = (revoke keys key_id tenant_id now s).1 in
      let others : All (IsOther (is_key_of key_id tenant_id)) (keys.docs s') =
        rw (keys.docs-update_one (is_key_of key_id tenant_id) (mark_revoked now) s)
          (All-update_first (is_key_of key_id tenant_id) now (keys.docs s) unique) in
      let admitted = get_by_raw_key-Admits keys verify raw_key later s' d e in
      let found =
        check_candidates-found keys verify (IsOther (is_key_of key_id tenant_id)) raw_key later
          (keep_if (has_prefix (take_chars 12 raw_key)) (keys.docs s')) d
          (All-keep_if (IsOther (is_key_of key_id tenant_id)) (has_prefix (take_chars 12 raw_key))
            (keys.docs s') others)
          (get_by_raw_key-candidates keys verify raw_key later s' d e) in
      found.0 admitted.live

  -- Revoking succeeds for every key that exists and does not already carry this very time of
  -- revocation, so also for a key that was revoked before.
  pub revoke_again :
      (key_id tenant_id : String) (now : ℕ) (s : State) (d : ApiKeyDoc)
      → keys.find_one (is_key_of key_id tenant_id) s ≡ some d
      → d.revoked_at ≢ some now
      → (revoke keys key_id tenant_id now s).0 ≡ true
  unfolding revoke
  revoke_again key_id tenant_id now s d found earlier = ground (
    arith,
    keys.modified-update_one (is_key_of key_id tenant_id) (mark_revoked now) s d
        (sym (keys.find_one_lem (is_key_of key_id tenant_id) s) ∙ found)
        (λ e.
          earlier (sym (ap (λ (x : ApiKeyDoc). x.revoked_at) e) ∙ (unfold mark_revoked in refl))),
  )
