-- ===== src/KeyApi/Issued.antt =====
-- A key that the route of api/keys.py has issued gets through, with the project, the type and the rate
-- limit that it was issued for.
use factn_assistant_service.Base.{
  Result, err, ap, Option, ◌⊎◌, none, eq_iff, ◌∙◌, str_append, eq_refl, ok_inj, arith, inr, sym,
  Bool-cases, ok_ne_err, [], ◌∷◌, inl, ◌++◌, Option-cases, some, keep_if, true, refl, All, ok,
  false, List, ◌≡◌, ℕ, str_eq, Bool, String,
}
use mathlib.Core.Bool.{false≢true}
use mathlib.Core.Path.{subst}
use text.Mathlib.TextLemmas.{append-eq-nil_iff}
use factn_assistant_service.KeyApi.{CreateKeyRequest, create_key, parse_key_type}
use factn_assistant_service.ApiKeys.{
  shares_unique, create, generate_raw_key, take_chars, has_prefix, check_candidates, get_by_raw_key,
}
use factn_assistant_service.PlanLimits.{effective_rate_limit_rpm, max_rate_limit_rpm}
use factn_assistant_service.PlanLimits.Caps.{IsWithin, effective_values_caps}
use factn_assistant_service.Projects.{get_project}
use factn_assistant_service.Schemas.{
  TenantDoc, ProjectDoc, ApiKeyDoc, KeyType, publishable, secret, is_valid,
}
use factn_assistant_service.Services.{Collection}

prefixed_not_empty : (p body : String) → str_eq p "" ≡ false → str_eq (str_append p body) "" ≡ false
prefixed_not_empty p body given = elim (Bool-cases (str_eq (str_append p body) "")) [
  | inl same ↦ absurd (
      false≢true (
        sym given
        ∙ (eq_iff p "").1 (append-eq-nil_iff.0 ((eq_iff (str_append p body) "").0 same)).0))
  | inr differs ↦ differs
]

generated_not_empty : (t : KeyType) (body : String) → str_eq (generate_raw_key t body) "" ≡ false
unfolding generate_raw_key
generated_not_empty publishable body = prefixed_not_empty "pk_live_" body refl
generated_not_empty secret body = prefixed_not_empty "sk_live_" body refl

module _ (keys : Collection ApiKeyDoc) (verify : String → String → Bool) where
  open keys use {State}

  check_candidates-last :
      (raw : String) (now : ℕ) (p : ApiKeyDoc → Bool) (ds : List ApiKeyDoc) (d : ApiKeyDoc)
      → All (λ x. verify x.key_hash raw ≡ false) ds
      → p d ≡ true
      → verify d.key_hash raw ≡ true
      → is_valid now d ≡ true
      → check_candidates keys verify raw now (keep_if p (ds ++ d ∷ [])) ≡ some d
  unfolding check_candidates
  check_candidates-last raw now p [] d others kept hit good = rw kept (rw hit (rw good))
  check_candidates-last raw now p (x ∷ ds) d others kept hit good =
      let rest = check_candidates-last raw now p ds d others.1 kept hit good in
      elim (Bool-cases (p x)) [
        | inl kept_x ↦ rw kept_x (rw others.0 rest)
        | inr dropped ↦ rw dropped rest
      ]

  get_by_raw_key-new :
      (raw : String) (now : ℕ) (s : State) (d : ApiKeyDoc)
      → str_eq raw "" ≡ false
      → All (λ x. verify x.key_hash raw ≡ false) (keys.docs s)
      → has_prefix (take_chars 12 raw) d ≡ true
      → verify d.key_hash raw ≡ true
      → is_valid now d ≡ true
      → (get_by_raw_key keys verify raw now (keys.insert_one d s)).0 ≡ some d
  unfolding get_by_raw_key
  get_by_raw_key-new raw now s d given others prefixed hit good =
      let p = has_prefix (take_chars 12 raw) in
      let found : check_candidates keys verify raw now (keys.find p (keys.insert_one d s))
          ≡ some d =
        rw (keys.find_lem p (keys.insert_one d s)) (
          rw (keys.docs-insert_one d s)
            (check_candidates-last raw now p (keys.docs s) d others prefixed hit good)) in
      rw (given, get_by_raw_key) (rw (found, get_by_raw_key))

  -- The document that `create` makes
  abbrev new_key :
      (String → String) → String → String → String → KeyType → ℕ → String → String → ℕ → ApiKeyDoc
  new_key hash project_id tenant_id label key_type rpm raw_body new_id now = record {
    id = new_id;
    project_id = project_id;
    tenant_id = tenant_id;
    label = label;
    key_prefix = take_chars 12 (generate_raw_key key_type raw_body);
    key_hash = hash (generate_raw_key key_type raw_body);
    key_type = key_type;
    rate_limit_rpm = rpm;
    revoked = false;
    revoked_at = none;
    created_at = now;
    last_used_at = none;
    expires_at = none;
  }

  -- A creation is refused, or stores its document.
  create_cases :
      (hash : String → String) (project_id tenant_id label : String) (key_type : KeyType) (rpm : ℕ)
      (raw_body new_id : String) (now : ℕ) (s : State)
      → let doc = new_key hash project_id tenant_id label key_type rpm raw_body new_id now in
        let made = create keys hash project_id tenant_id label key_type rpm raw_body new_id now s in
        (made ≡ (none, s))
        ⊎ (made ≡ (some (doc, generate_raw_key key_type raw_body), keys.insert_one doc s))
  unfolding create
  create_cases hash project_id tenant_id label key_type rpm raw_body new_id now s =
      let doc = new_key hash project_id tenant_id label key_type rpm raw_body new_id now in
      elim (Option-cases (keys.find_one (shares_unique doc) s)) [
        | inl free ↦ inr (rw (keys.insert_unique-free (shares_unique doc) doc s free, create))
        | inr (x, taken) ↦
            inl (rw (keys.insert_unique-taken (shares_unique doc) doc s x taken, create))
      ]

  create-get_by_raw_key :
      (hash : String → String) (project_id tenant_id label : String) (key_type : KeyType) (rpm : ℕ)
      (raw_body new_id : String) (now later : ℕ) (s : State)
      → let doc = new_key hash project_id tenant_id label key_type rpm raw_body new_id now in
        let raw = generate_raw_key key_type raw_body in
        verify (hash raw) raw ≡ true
        → All (λ x. verify x.key_hash raw ≡ false) (keys.docs s)
        → (get_by_raw_key keys verify raw later (keys.insert_one doc s)).0 ≡ some doc
  unfolding has_prefix is_valid
  create-get_by_raw_key hash project_id tenant_id label key_type rpm raw_body new_id now later s
        sound others =
      let doc = new_key hash project_id tenant_id label key_type rpm raw_body new_id now in
      let raw = generate_raw_key key_type raw_body in
      get_by_raw_key-new raw later s doc (generated_not_empty key_type raw_body) others
        (ground (arith, eq_refl (take_chars 12 raw))) sound refl

  module _ (projects : Collection ProjectDoc) where
    create_key-created :
        (hash : String → String) (tenant : TenantDoc) (project_id : String)
        (body : CreateKeyRequest) (raw_body new_id : String) (now : ℕ) (docs : projects.State)
        (s s' : State) (project : ProjectDoc) (key_type : KeyType)
        (issued : Option (ApiKeyDoc × String))
        → get_project projects project_id (some tenant.id) docs ≡ some project
        → parse_key_type body.key_type ≡ some key_type
        → create keys hash project_id tenant.id body.label key_type
            (effective_rate_limit_rpm tenant.plan body.rate_limit_rpm)
            raw_body
            new_id
            now
            s
          ≡ (issued, s')
        → create_key projects keys hash tenant project_id body raw_body new_id now docs s
          ≡ elim issued [ none ↦ (err 500, s') | some made ↦ (ok made, s') ]
    unfolding create_key
    create_key-created hash tenant project_id body raw_body new_id now docs s s' project key_type
          issued there known made =
        rw (there, create_key)
          (rw known (
            ap
              (λ (r : Option (ApiKeyDoc × String) × State).
                elim r.0 as (λ x. Result ℕ (ApiKeyDoc × String) × State) [
                  | none ↦ (err 500, r.1)
                  | some m ↦ (ok m, r.1)
                ])
              made))

    -- A key that the route issues, where the hasher verifies the hash that it made and no key stored
    -- before verifies the new one: presented at any later time, before anything else happens to the
    -- keys, it gets the document that was stored, which is of the project, the tenant and the type of
    -- the request, and whose rate limit is within the tenant's plan.
    pub create_key-get_by_raw_key :
        (hash : String → String) (tenant : TenantDoc) (project_id : String)
        (body : CreateKeyRequest) (raw_body new_id : String) (now later : ℕ) (docs : projects.State)
        (s : State) (d : ApiKeyDoc) (raw : String)
        → (create_key projects keys hash tenant project_id body raw_body new_id now docs s).0
          ≡ ok (d, raw)
        → verify (hash raw) raw ≡ true
        → All (λ x. verify x.key_hash raw ≡ false) (keys.docs s)
        → ((get_by_raw_key keys verify raw later
              (create_key projects keys hash tenant project_id body raw_body new_id now docs s).1).0
            ≡ some d)
          × (d.project_id ≡ project_id)
          × (d.tenant_id ≡ tenant.id)
          × (parse_key_type body.key_type ≡ some d.key_type)
          × IsWithin d.rate_limit_rpm (max_rate_limit_rpm tenant.plan)
    unfolding create_key
    create_key-get_by_raw_key hash tenant project_id body raw_body new_id now later docs s d raw
          issued sound others =
        elim (Option-cases (get_project projects project_id (some tenant.id) docs)) [
          | inl gone ↦ absurd (ok_ne_err (d, raw) 404 (sym (rw (gone, create_key) at issued)))
          | inr (project, there) ↦ elim (Option-cases (parse_key_type body.key_type)) [
            | inl unknown ↦
                absurd (ok_ne_err (d, raw) 422 (sym (rw (there, unknown, create_key) at issued)))
            | inr (key_type, known) ↦
                let rpm = effective_rate_limit_rpm tenant.plan body.rate_limit_rpm in
                let doc =
                  new_key hash project_id tenant.id body.label key_type rpm raw_body new_id now in
                let text = generate_raw_key key_type raw_body in
                elim (create_cases hash project_id tenant.id body.label key_type rpm raw_body new_id
                  now s) [
                    | inl refused ↦ absurd (
                        ok_ne_err (d, raw) 500
                          (sym issued
                            ∙ ap (λ r. r.0)
                                (create_key-created hash tenant project_id body raw_body new_id now
                                  docs s s project key_type none there known refused)))
                    | inr made ↦
                        let same : (doc, text) ≡ (d, raw) =
                          ok_inj (doc, text) (d, raw)
                            (ap (λ r. r.0)
                                (sym (
                                  create_key-created hash tenant project_id body raw_body new_id now
                                    docs s (keys.insert_one doc s) project key_type
                                    (some (doc, text)) there known made))
                              ∙ issued) in
                        subst
                          (λ r.
                            verify (hash r.1) r.1 ≡ true
                            → All (λ x. verify x.key_hash r.1 ≡ false) (keys.docs s)
                            → ((get_by_raw_key keys verify r.1 later
                                  (create_key projects keys hash tenant project_id body raw_body
                                    new_id now docs s).1).0
                                ≡ some r.0)
                              × (r.0.project_id ≡ project_id)
                              × (r.0.tenant_id ≡ tenant.id)
                              × (parse_key_type body.key_type ≡ some r.0.key_type)
                              × IsWithin r.0.rate_limit_rpm (max_rate_limit_rpm tenant.plan))
                          same
                          (λ good apart. (
                            rw
                                (create_key-created hash tenant project_id body raw_body new_id now
                                  docs s (keys.insert_one doc s) project key_type (some (doc, text))
                                  there known made)
                                (create-get_by_raw_key hash project_id tenant.id body.label key_type
                                  rpm raw_body new_id now later s good apart),
                            refl,
                            refl,
                            known,
                            (effective_values_caps tenant.plan body.rate_limit_rpm).2.1,
                          ))
                          sound others
                  ]
          ]
        ]
