-- ===== src/SeedScript/Again.antt =====
-- A second run of scripts/seed.py.
use factn_assistant_service.Services.{Collection, Redis}
use factn_assistant_service.Base.{
  false, ◌||◌, str_eq, Option, ◌++◌, ◌∙◌, ap, sym, inl, inr, Option-cases, some, none, refl,
  find_first, ℕ, [], String, ◌∷◌, count_if, ◌≡◌, ◌<◌,
}
use factn_assistant_service.ApiKeys.{take_chars, generate_raw_key, shares_unique}
use mathlib.Core.Path.{subst}
use mathlib.Core.Option.{some-injective, some-ne-none}
use factn_assistant_service.Projects.{is_tenant}
use factn_assistant_service.Schemas.{publishable, ApiKeyDoc, ProjectDoc, TenantDoc}
use factn_assistant_service.Projects.Store.{is_project_of_tenant}
use factn_assistant_service.SeedScript.{
  seeded_of, Seedbed, Seeded, Drawn, seed, seed_tenant, seed_for,
}
use factn_assistant_service.SeedScript.Steps.{
  seed_tenant-again, seed_project-kept, seed_project-leaves,
}
use factn_assistant_service.ApiKeys as Keys

module _ {V : Type 0} (redis : Redis V) (tenants : Collection TenantDoc)
    (projects : Collection ProjectDoc) (keys : Collection ApiKeyDoc) (lower : String → String)
    (hash_password hash_key : String → String) where
  abbrev Bed : Type 0
  Bed = Seedbed redis tenants projects keys lower hash_password hash_key

  -- A run with its tenant
  seed-seed_for :
      (drawn : Drawn) (now : ℕ) (w : Bed) (t : TenantDoc) (ts : tenants.State)
      → seed_tenant redis tenants projects keys lower hash_password hash_key drawn.tenant_id now
          w.tenant_docs
        ≡ (some t, ts)
      → seed redis tenants projects keys lower hash_password hash_key drawn now w
        ≡ seed_for redis tenants projects keys lower hash_password hash_key t drawn now ts w
  unfolding seed
  seed-seed_for drawn now w t ts found = rw (found, seed) (rw found refl)

  -- The id and the hash of the key that a run is to make are none of a stored key.
  abbrev pub DrawsFreshKey : Drawn → keys.State → Type 0
  DrawsFreshKey drawn s =
      find_first
        (λ x.
          str_eq x.id drawn.key_id
          || str_eq x.key_hash (hash_key (generate_raw_key publishable drawn.raw_body)))
        (keys.docs s)
      ≡ none

  -- A creation with the key's values of a run goes through where they are fresh.
  create_free :
      (t : TenantDoc) (p : ProjectDoc) (drawn : Drawn) (now : ℕ) (s : keys.State)
      → DrawsFreshKey drawn s
      → (k : ApiKeyDoc) × (raw : String) × (Keys.create keys hash_key p.id t.id "Dev test key"
            publishable 60 drawn.raw_body drawn.key_id now s
          ≡ (some (k, raw), keys.insert_one k s))
        × (k.tenant_id ≡ t.id)
        × (k.project_id ≡ p.id)
  unfolding Keys.create shares_unique
  create_free t p drawn now s free =
      let raw = generate_raw_key publishable drawn.raw_body in
      let k : ApiKeyDoc = record {
        id = drawn.key_id;
        project_id = p.id;
        tenant_id = t.id;
        label = "Dev test key";
        key_prefix = take_chars 12 raw;
        key_hash = hash_key raw;
        key_type = publishable;
        rate_limit_rpm = 60;
        revoked = false;
        revoked_at = none;
        created_at = now;
        last_used_at = none;
        expires_at = none;
      } in
      let unused = keys.find_one_lem (shares_unique k) s ∙ free in
      (k, raw, rw (keys.insert_unique-free (shares_unique k) k s unused, Keys.create), refl, refl)

  seeded_of-tenant :
      (t : TenantDoc) (p : ProjectDoc) (made : Option (ApiKeyDoc × String)) (r : Seeded)
      → seeded_of t p made ≡ some r
      → r.tenant ≡ t
  unfolding seeded_of
  seeded_of-tenant t p none r h = cc
  seeded_of-tenant t p (some (key, raw)) r h = sym (
      ap (λ x. x.tenant)
        (some-injective (record { tenant = t; project = p; key = key; raw_key = raw }) r h))

  seed_tenant-some :
      (drawn : Drawn) (now : ℕ) (w : Bed) (r : Seeded)
      → (seed redis tenants projects keys lower hash_password hash_key drawn now w).0 ≡ some r
      → (t : TenantDoc) × (seed_tenant redis tenants projects keys lower hash_password hash_key
            drawn.tenant_id now w.tenant_docs
          ≡ (
            some t,
            (seed_tenant redis tenants projects keys lower hash_password hash_key drawn.tenant_id
                now w.tenant_docs).1,
          ))
  unfolding seed
  seed_tenant-some drawn now w r done =
      let run =
        seed_tenant redis tenants projects keys lower hash_password hash_key drawn.tenant_id now
          w.tenant_docs in
      elim (Option-cases run.0) [
        | inl raised ↦ absurd (some-ne-none r (sym (rw (raised, seed) at done)))
        | inr (t, found) ↦ (t, ap (λ o. (o, run.1)) found)
      ]

  -- What a run does to what it finds, where it finds its tenant and a project of it
  abbrev pub OnlyAddsKey : Drawn → ℕ → String → Bed → Type 0
  OnlyAddsKey drawn now tenant_id w =
      (r : Seeded) × (u : Bed) × (seed redis tenants projects keys lower hash_password hash_key
          drawn now w
        ≡ (some r, u))
      × (r.tenant.id ≡ tenant_id)
      × (u.tenant_docs ≡ w.tenant_docs)
      × (u.project_docs ≡ w.project_docs)
      × (keys.docs u.key_docs ≡ keys.docs w.key_docs ++ r.key ∷ [])
      × (r.key.tenant_id ≡ tenant_id)
      × (r.key.project_id ≡ r.project.id)

  seed-OnlyAddsKey :
      (drawn : Drawn) (now : ℕ) (w : Bed) (t : TenantDoc) (tenant_id : String)
      → seed_tenant redis tenants projects keys lower hash_password hash_key drawn.tenant_id now
          w.tenant_docs
        ≡ (some t, w.tenant_docs)
      → t.id ≡ tenant_id
      → 0 < count_if (is_project_of_tenant tenant_id) (projects.docs w.project_docs.docs)
      → DrawsFreshKey drawn w.key_docs
      → OnlyAddsKey drawn now tenant_id w
  unfolding seed_for seeded_of
  seed-OnlyAddsKey drawn now w t tenant_id found same_id there free =
      let (p, kept) =
        seed_project-kept redis tenants projects keys lower hash_password hash_key t.id
          drawn.project_id now w.project_docs
          (subst (λ k. 0 < count_if (is_project_of_tenant k) (projects.docs w.project_docs.docs))
            (sym same_id) there) in
      let (key, raw, made, of_tenant, of_project) = create_free t p drawn now w.key_docs free in
      let u : Bed = record {
        tenant_docs = w.tenant_docs;
        project_docs = w.project_docs;
        key_docs = keys.insert_one key w.key_docs;
      } in
      let r : Seeded = record { tenant = t; project = p; key = key; raw_key = raw } in
      let ran : seed_for redis tenants projects keys lower hash_password hash_key t drawn now
            w.tenant_docs w
          ≡ (some r, u) =
        rw (kept, seed_for) (rw made refl) in
      (
        r,
        u,
        seed-seed_for drawn now w t w.tenant_docs found ∙ ran,
        same_id,
        refl,
        refl,
        keys.docs-insert_one key w.key_docs,
        of_tenant ∙ same_id,
        of_project,
      )

  -- Where a run goes through, with an id for its tenant that none had, and the next run comes right
  -- after it and draws a key whose id and hash no stored key has: the next run goes through too, changes
  -- no tenant and no project, and adds one key, to the tenant of the first run and to the project that it
  -- prints.
  pub seed_again :
      (drawn next : Drawn) (now later : ℕ) (w : Bed) (first : Seeded)
      → find_first (is_tenant drawn.tenant_id) (tenants.docs w.tenant_docs) ≡ none
      → (seed redis tenants projects keys lower hash_password hash_key drawn now w).0 ≡ some first
      → let w' = (seed redis tenants projects keys lower hash_password hash_key drawn now w).1 in
        DrawsFreshKey next w'.key_docs → OnlyAddsKey next later first.tenant.id w'
  unfolding seed_for
  seed_again drawn next now later w first fresh done =
      let (t, found) = seed_tenant-some drawn now w first done in
      let ts =
        (seed_tenant redis tenants projects keys lower hash_password hash_key drawn.tenant_id now
          w.tenant_docs).1 in
      let ran = seed-seed_for drawn now w t ts found in
      let before =
        (seed_for redis tenants projects keys lower hash_password hash_key t drawn now ts w).1 in
      let is_first : first.tenant ≡ t =
        seeded_of-tenant t _ _ first (ap (λ r. r.0) (sym ran) ∙ done) in
      let (t', same_id, again) =
        seed_tenant-again redis tenants projects keys lower hash_password hash_key drawn.tenant_id
          next.tenant_id now later w.tenant_docs ts t fresh found in
      subst (λ (x : Bed). DrawsFreshKey next x.key_docs → OnlyAddsKey next later first.tenant.id x)
        (ap (λ r. r.1) (sym ran))
        (subst
          (λ (k : TenantDoc).
            DrawsFreshKey next before.key_docs → OnlyAddsKey next later k.id before)
          (sym is_first)
          (seed-OnlyAddsKey next later before t' t.id again same_id (
            seed_project-leaves redis tenants projects keys lower hash_password hash_key t.id
              drawn.project_id now w.project_docs)))
