-- ===== src/Handshake/LetsIn.antt =====
-- Who comes to the handshake of api/chat.py with a good key gets in, and a key that api/keys.py has issued
-- is one.
use factn_assistant_service.Base.{
  sym, ◌∙◌, inl, inr, ap, none, Bool-cases, str_eq, All, refl, false, true, ◌/◌, some, ok, ◌≡◌,
  Option, Bool, String, ℕ,
}
use factn_assistant_service.SessionEvents.{non_empty}
use factn_assistant_service.Projects.{get_daily_token_usage, get_tenant, get_config, microseconds}
use factn_assistant_service.PlanLimits.{daily_token_quota}
use factn_assistant_service.RedisClient.{check_and_increment_rate_limit, TokenPayload, Codec}
use factn_assistant_service.Schemas.{ApiKeyDoc, SessionDoc, TenantDoc, ProjectDoc, ProjectConfig}
use factn_assistant_service.Services.{Collection, Redis}
use mathlib.Core.Option.{some-ne-none}
use factn_assistant_service.Handshake.{
  World, resolve_project, by_key, admit, find_tenant, check_tenant, over_quota, origin_allowed,
}
use factn_assistant_service.KeyApi.{CreateKeyRequest, create_key}
use factn_assistant_service.KeyApi.Issued.{create_key-get_by_raw_key}
use factn_assistant_service.ApiKeys.{get_by_raw_key}

module _ {V : Type 0} (redis : Redis V) (tokens : Codec V TokenPayload)
    (configs : Codec V ProjectConfig) (projects : Collection ProjectDoc)
    (tenants : Collection TenantDoc) (sessions : Collection SessionDoc)
    (keys : Collection ApiKeyDoc) (decimal : ℕ → String) (verify : String → String → Bool) where
  abbrev Services : Type 0
  Services = World redis tokens configs projects tenants sessions keys decimal verify

  -- What the checks after the key's own find
  pub record IsWelcome (d : ApiKeyDoc) (origin : Option String) (now : ℕ) (w : Services)
      (config : ProjectConfig) (t : TenantDoc) : Type 0 where
    pub within_rate :
        (check_and_increment_rate_limit redis decimal d.key_prefix d.rate_limit_rpm 60
          (now / microseconds)
          w.store).0.0
        ≡ true
    pub has_config :
        (get_config redis configs projects d.project_id d.tenant_id now w.project_docs
          (check_and_increment_rate_limit redis decimal d.key_prefix d.rate_limit_rpm 60
            (now / microseconds)
            w.store).1).0
        ≡ some config
    pub has_tenant : get_tenant tenants d.tenant_id w.tenant_docs ≡ some t
    pub origin_fits : origin_allowed origin config.allowed_origins ≡ true
    pub in_good_standing : t.is_suspended ≡ false
    pub within_quota :
        over_quota
          (daily_token_quota t.plan)
          (get_daily_token_usage sessions t.id now w.session_docs)
        ≡ false

  -- The keys have no part in it.
  kept_keys :
      (d : ApiKeyDoc) (origin : Option String) (now : ℕ) (w : Services) (s : keys.State)
      (config : ProjectConfig) (t : TenantDoc)
      → IsWelcome d origin now w config t
      → IsWelcome d origin now (record w { key_docs = s }) config t
  kept_keys d origin now w s config t h = record {
    within_rate = h.within_rate;
    has_config = h.has_config;
    has_tenant = h.has_tenant;
    origin_fits = h.origin_fits;
    in_good_standing = h.in_good_standing;
    within_quota = h.within_quota;
  }

  check_tenant-IsWelcome :
      (d : ApiKeyDoc) (origin : Option String) (now : ℕ) (w : Services) (config : ProjectConfig)
      (t : TenantDoc)
      → IsWelcome d origin now w config t
      → check_tenant redis tokens configs projects tenants sessions keys decimal verify config d.id
          t origin now w
        ≡ ok (config, d.id, t.plan)
  unfolding check_tenant
  check_tenant-IsWelcome d origin now w config t h =
      rw (h.origin_fits, check_tenant)
        (rw (h.in_good_standing, check_tenant) (rw h.within_quota refl))

  admit-IsWelcome :
      (d : ApiKeyDoc) (origin : Option String) (now : ℕ) (w : Services) (config : ProjectConfig)
      (t : TenantDoc)
      → IsWelcome d origin now w config t
      → (admit redis tokens configs projects tenants sessions keys decimal verify d.key_prefix
          d.rate_limit_rpm d.project_id d.tenant_id d.id origin now w).0
        ≡ ok (config, d.id, t.plan)
  unfolding admit find_tenant
  admit-IsWelcome d origin now w config t h =
      rw (h.within_rate, admit)
        (rw (h.has_config, admit)
          (rw (h.has_tenant, find_tenant) (check_tenant-IsWelcome d origin now w config t h)))

  by_key-IsWelcome :
      (raw : String) (d : ApiKeyDoc) (origin : Option String) (now : ℕ) (w : Services)
      (config : ProjectConfig) (t : TenantDoc)
      → (get_by_raw_key keys verify raw now w.key_docs).0 ≡ some d
      → IsWelcome d origin now w config t
      → (by_key redis tokens configs projects tenants sessions keys decimal verify raw origin now
          w).0
        ≡ ok (config, d.id, t.plan)
  unfolding by_key
  by_key-IsWelcome raw d origin now w config t found h =
      let w' : Services = record w {
        key_docs = (get_by_raw_key keys verify raw now w.key_docs).1;
      } in
      rw (found, by_key)
        (admit-IsWelcome d origin now w' config t (kept_keys d origin now w _ config t h))

  -- A key is never empty where it gets a document.
  found_not_empty :
      (raw : String) (now : ℕ) (s : keys.State) (d : ApiKeyDoc)
      → (get_by_raw_key keys verify raw now s).0 ≡ some d
      → str_eq raw "" ≡ false
  unfolding get_by_raw_key
  found_not_empty raw now s d found = elim (Bool-cases (str_eq raw "")) [
    | inr given ↦ given
    | inl empty ↦ absurd (some-ne-none d (sym (rw (empty, get_by_raw_key) at found)))
  ]

  resolve_project-by_key :
      (raw : String) (origin : Option String) (now : ℕ) (w : Services)
      → str_eq raw "" ≡ false
      → resolve_project redis tokens configs projects tenants sessions keys decimal verify
          (some raw)
          none
          origin
          now
          w
        ≡ by_key redis tokens configs projects tenants sessions keys decimal verify raw origin now w
  unfolding resolve_project non_empty
  resolve_project-by_key raw origin now w given = rw (given, non_empty, resolve_project) refl

  -- A key that the route has issued, where the hasher verifies the hash that it made and no key stored
  -- before verifies the new one, gets whoever brings it in, before anything else happens to the keys: where
  -- the rate limit lets the request through, the project of the key has a configuration, the request's
  -- origin is one that it allows, and the tenant of the key exists, is not suspended and has not used up
  -- its quota, the handshake resolves to that configuration, the id of the key and the tenant's plan.
  pub create_key-resolve_project :
      (hash : String → String) (tenant : TenantDoc) (project_id : String) (body : CreateKeyRequest)
      (raw_body new_id : String) (now later : ℕ) (w : Services) (d : ApiKeyDoc) (raw : String)
      (origin : Option String) (config : ProjectConfig) (t : TenantDoc)
      → let route =
          create_key projects keys hash tenant project_id body raw_body new_id now w.project_docs
            w.key_docs in
        route.0 ≡ ok (d, raw)
        → verify (hash raw) raw ≡ true
        → All (λ x. verify x.key_hash raw ≡ false) (keys.docs w.key_docs)
        → IsWelcome d origin later w config t
        → (resolve_project redis tokens configs projects tenants sessions keys decimal verify
            (some raw)
            none
            origin
            later
            (record w { key_docs = route.1 })).0
          ≡ ok (config, d.id, t.plan)
  create_key-resolve_project hash tenant project_id body raw_body new_id now later w d raw origin
        config t issued sound others welcome =
      let s =
        (create_key projects keys hash tenant project_id body raw_body new_id now w.project_docs
          w.key_docs).1 in
      let w' : Services = record w { key_docs = s } in
      let found =
        (create_key-get_by_raw_key keys verify projects hash tenant project_id body raw_body new_id
          now later w.project_docs w.key_docs d raw issued sound others).0 in
      ap (λ r. r.0)
        (resolve_project-by_key raw origin later w' (found_not_empty raw later s d found))
      ∙ by_key-IsWelcome raw d origin later w' config t found
          (kept_keys d origin later w s config t welcome)
