-- ===== src/Handshake/Admission.antt =====
-- Who the handshake lets in, and what a refusal leaves.
use factn_assistant_service.Base.{
  ◌∙◌, sym, str_append, none, ◌/◌, Bool-cases, false, inl, inr, true, some, ◌≡◌, ok, err,
  Option-cases, Result, Option, Bool, String, ℕ, refl,
}
use factn_assistant_service.RedisClient.{
  redeem_ephemeral_token, peek_ephemeral_token, check_and_increment_rate_limit, TokenPayload, Codec,
}
use factn_assistant_service.Projects.{get_config, microseconds, get_daily_token_usage, get_tenant}
use factn_assistant_service.ApiKeys.{get_by_raw_key}
use factn_assistant_service.SessionEvents.{non_empty}
use factn_assistant_service.Handshake.{
  resolve_project, by_token, by_key, admit, over_quota, origin_allowed, find_tenant, check_tenant,
  World,
}
use factn_assistant_service.RedisClient.SingleUse.{redeem_reads}
use factn_assistant_service.PlanLimits.{daily_token_quota}
use factn_assistant_service.Schemas.{ApiKeyDoc, SessionDoc, TenantDoc, ProjectDoc, ProjectConfig}
use factn_assistant_service.Services.{Collection, Redis}

module _ {V : Type 0} (redis : Redis V) (tokens : Codec V TokenPayload)
    (configs : Codec V ProjectConfig) (projects : Collection ProjectDoc)
    (tenants : Collection TenantDoc) (sessions : Collection SessionDoc)
    (keys : Collection ApiKeyDoc) (decimal : ℕ → String) (verify : String → String → Bool) where
  abbrev pub Resolved : Type 0
  Resolved = Result ℕ (ProjectConfig × String × String)

  abbrev pub Services : Type 0
  Services = World redis tokens configs projects tenants sessions keys decimal verify

  -- The tenant passes the checks on what the services hold, and the plan is the tenant's.
  pub record Passes (origin : Option String) (now : ℕ) (docs : sessions.State)
      (config : ProjectConfig) (plan : String) (t : TenantDoc) : Type 0 where
    pub origin_fits : origin_allowed origin config.allowed_origins ≡ true
    pub in_good_standing : t.is_suspended ≡ false
    pub within_quota :
        over_quota (daily_token_quota t.plan) (get_daily_token_usage sessions t.id now docs) ≡ false
    pub plan_of_tenant : plan ≡ t.plan

  -- The tenant of the credential that the handshake goes by.
  unfoldable pub credential_tenant : Option String → Option String → ℕ → Services → Option String
  credential_tenant api_key token now w = elim (non_empty token) [
    | some t ↦ elim (peek_ephemeral_token redis tokens t (now / microseconds) w.store) [
      | none ↦ none
      | some p ↦ some p.tenant_id
    ]
    | none ↦ elim (non_empty api_key) [
      | none ↦ none
      | some k ↦ elim (get_by_raw_key keys verify k now w.key_docs).0 [
        | none ↦ none
        | some d ↦ some d.tenant_id
      ]
    ]
  ]

  -- What a result says of the tenant with the given id, where it lets somebody in.
  abbrev pub Vouched :
      Option String → Option String → ℕ → tenants.State → sessions.State → Resolved → Type 0
  Vouched cred origin now ts docs (err code) = Unit
  Vouched cred origin now ts docs (ok (config, kid, plan)) =
      (t : TenantDoc) × (tid : String) × (cred ≡ some tid)
      × (get_tenant tenants tid ts ≡ some t)
      × Passes origin now docs config plan t

  check_tenant-Vouched :
      (config : ProjectConfig) (kid tid : String) (t : TenantDoc) (origin cred : Option String)
      (now : ℕ) (w : Services)
      → cred ≡ some tid
      → get_tenant tenants tid w.tenant_docs ≡ some t
      → Vouched cred origin now w.tenant_docs w.session_docs (
          check_tenant redis tokens configs projects tenants sessions keys decimal verify config kid
            t origin now w)
  unfolding check_tenant
  check_tenant-Vouched config kid tid t origin cred now w is_cred found =
      elim (Bool-cases (origin_allowed origin config.allowed_origins)) [
        | inr denied ↦ rw (denied, check_tenant) tt
        | inl allowed ↦ elim (Bool-cases t.is_suspended) [
          | inl suspended ↦ simp (allowed, suspended) tt
          | inr standing ↦
              elim (Bool-cases (
                over_quota (daily_token_quota t.plan)
                  (get_daily_token_usage sessions t.id now w.session_docs))) [
                    | inl over ↦ simp (allowed, standing, over) tt
                    | inr within ↦
                        simp (allowed, standing, within)
                          (
                            t,
                            tid,
                            is_cred,
                            found,
                            record {
                              origin_fits = allowed;
                              in_good_standing = standing;
                              within_quota = within;
                              plan_of_tenant = refl;
                            },
                          )
                  ]
        ]
      ]

  find_tenant-Vouched :
      (config : ProjectConfig) (tid kid : String) (origin cred : Option String) (now : ℕ)
      (w : Services)
      → cred ≡ some tid
      → Vouched cred origin now w.tenant_docs w.session_docs (
          find_tenant redis tokens configs projects tenants sessions keys decimal verify config tid
            kid origin now w)
  unfolding find_tenant
  find_tenant-Vouched config tid kid origin cred now w is_cred =
      elim (Option-cases (get_tenant tenants tid w.tenant_docs)) [
        | inl gone ↦ rw (gone, find_tenant) tt
        | inr (t, found) ↦
            rw (found, find_tenant)
              (check_tenant-Vouched config kid tid t origin cred now w is_cred found)
      ]

  admit-Vouched :
      (prefix : String) (limit : ℕ) (pid tid kid : String) (origin cred : Option String) (now : ℕ)
      (w : Services)
      → cred ≡ some tid
      → Vouched cred origin now w.tenant_docs w.session_docs
          (admit redis tokens configs projects tenants sessions keys decimal verify prefix limit pid
            tid kid origin now w).0
  unfolding admit
  admit-Vouched prefix limit pid tid kid origin cred now w is_cred =
      let counted =
        check_and_increment_rate_limit redis decimal prefix limit 60 (now / microseconds) w.store in
      elim (Bool-cases counted.0.0) [
        | inr limited ↦ simp limited tt
        | inl allowed ↦
            elim (Option-cases
              (get_config redis configs projects pid tid now w.project_docs counted.1).0) [
                | inl missing ↦ simp (allowed, missing) tt
                | inr (config, found) ↦
                    simp (allowed, found)
                      (find_tenant-Vouched config tid kid origin cred now w is_cred)
              ]
      ]

  by_token-Vouched :
      (t : String) (origin cred : Option String) (now : ℕ) (w : Services)
      → ((p : TokenPayload)
          → peek_ephemeral_token redis tokens t (now / microseconds) w.store ≡ some p
          → cred ≡ some p.tenant_id)
      → Vouched cred origin now w.tenant_docs w.session_docs
          (by_token redis tokens configs projects tenants sessions keys decimal verify t origin now
            w).0
  unfolding by_token
  by_token-Vouched t origin cred now w is_cred =
      let redeemed = redeem_ephemeral_token redis tokens t (now / microseconds) w.store in
      let w' : Services = record w { store = redeemed.1 } in
      elim (Option-cases redeemed.0) [
        | inl gone ↦ rw (gone, by_token) tt
        | inr (p, won) ↦
            rw (won, by_token)
              (admit-Vouched (str_append "tok:" p.project_id) p.rate_limit_rpm p.project_id
                p.tenant_id p.api_key_id origin cred now w'
                (is_cred p (sym (redeem_reads redis tokens t (now / microseconds) w.store) ∙ won)))
      ]

  by_key-Vouched :
      (k : String) (origin cred : Option String) (now : ℕ) (w : Services)
      → ((d : ApiKeyDoc)
          → (get_by_raw_key keys verify k now w.key_docs).0 ≡ some d
          → cred ≡ some d.tenant_id)
      → Vouched cred origin now w.tenant_docs w.session_docs
          (by_key redis tokens configs projects tenants sessions keys decimal verify k origin now
            w).0
  unfolding by_key
  by_key-Vouched k origin cred now w is_cred =
      let found = get_by_raw_key keys verify k now w.key_docs in
      let w' : Services = record w { key_docs = found.1 } in
      elim (Option-cases found.0) [
        | inl unknown ↦ rw (unknown, by_key) tt
        | inr (d, hit) ↦
            rw (hit, by_key)
              (admit-Vouched d.key_prefix d.rate_limit_rpm d.project_id d.tenant_id d.id origin cred
                now w' (is_cred d hit))
      ]

  resolve_project-Vouched :
      (api_key token origin : Option String) (now : ℕ) (w : Services)
      → Vouched
          (credential_tenant api_key token now w)
          origin
          now
          w.tenant_docs
          w.session_docs
          (resolve_project redis tokens configs projects tenants sessions keys decimal verify
            api_key token origin now w).0
  unfolding resolve_project credential_tenant
  resolve_project-Vouched api_key token origin now w = elim (Option-cases (non_empty token)) [
    | inr (t, by) ↦
        rw (by, resolve_project, credential_tenant)
          (by_token-Vouched t origin _ now w (λ p e. rw e))
    | inl no_token ↦ elim (Option-cases (non_empty api_key)) [
      | inl nothing ↦ rw (no_token, resolve_project) (rw (nothing, resolve_project) tt)
      | inr (k, by) ↦
          rw (no_token, resolve_project, credential_tenant)
            (rw (by, resolve_project, credential_tenant)
              (by_key-Vouched k origin _ now w (λ d e. rw e)))
    ]
  ]

  -- Where the handshake resolves to a project and a plan, the credential that it went by, the token
  -- if one was given and else the API key, is of a tenant that exists and is not suspended, whose plan
  -- that is, who is not over its daily quota, and the request's origin is one that the project allows.
  pub resolve_project_admits :
      (api_key token origin : Option String) (now : ℕ) (w : Services) (config : ProjectConfig)
      (kid plan : String)
      → (resolve_project redis tokens configs projects tenants sessions keys decimal verify api_key
          token origin now w).0
        ≡ ok (config, kid, plan)
      → (t : TenantDoc) × (tid : String) × (credential_tenant api_key token now w ≡ some tid)
        × (get_tenant tenants tid w.tenant_docs ≡ some t)
        × Passes origin now w.session_docs config plan t
  resolve_project_admits api_key token origin now w config kid plan resolved =
      rw resolved at (resolve_project-Vouched api_key token origin now w)
