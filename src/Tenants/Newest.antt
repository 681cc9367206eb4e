-- ===== src/Tenants/Newest.antt =====
-- The tenant that repositories/tenant_repo.py has stored last, as its lookups find it.
use factn_assistant_service.Base.{
  sym, refl, find_first, eq_refl, [], ◌∷◌, none, eq_iff, ap, ◌∙◌, ◌++◌, some, ◌≡◌, ℕ, String, List,
}
use factn_assistant_service.Texts.{strip}
use factn_assistant_service.Schemas.{TenantDoc}
use factn_assistant_service.Projects.{is_tenant, get_tenant}
use factn_assistant_service.Services.{Collection}
use factn_assistant_service.Tenants.{
  create_tenant, new_tenant, has_email, set_password_hash, update_password_hash, update_tenant,
  get_by_email,
}
use factn_assistant_service.Services.Lists.{
  update_first, find_first-last, update_first-last, find_first-holds,
}

pub get_tenant-id :
    (tenants : Collection TenantDoc) (tenant_id : String) (ts : tenants.State) (t : TenantDoc)
    → get_tenant tenants tenant_id ts ≡ some t
    → t.id ≡ tenant_id
unfolding get_tenant is_tenant
get_tenant-id tenants tenant_id ts t found = (eq_iff t.id tenant_id).0 (
    find_first-holds (is_tenant tenant_id) (tenants.docs ts) t
      (sym (tenants.find_one_lem (is_tenant tenant_id) ts) ∙ found))

module _ (tenants : Collection TenantDoc) where
  open tenants use {State}

  -- The last of the documents, where no other has its id
  abbrev pub IsNewest : List TenantDoc → TenantDoc → State → Type 0
  IsNewest ds d s = (tenants.docs s ≡ ds ++ d ∷ []) × (find_first (is_tenant d.id) ds ≡ none)

  pub create_tenant-new :
      (lower : String → String) (name email new_id : String) (now : ℕ) (s : State)
      → let doc = new_tenant new_id name (strip (lower email)) now in
        tenants.find_one (has_email (strip (lower email))) s ≡ none
        → create_tenant tenants lower name email new_id now s ≡ (some doc, tenants.insert_one doc s)
  unfolding create_tenant new_tenant
  create_tenant-new lower name email new_id now s free =
      let email' = strip (lower email) in
      rw
        (
          tenants.insert_unique-free (has_email email') (new_tenant new_id name email' now) s free,
          create_tenant,
        )
        refl

  pub create_tenant-taken :
      (lower : String → String) (name email new_id : String) (now : ℕ) (s : State)
      (taken : TenantDoc)
      → tenants.find_one (has_email (strip (lower email))) s ≡ some taken
      → create_tenant tenants lower name email new_id now s ≡ (none, s)
  unfolding create_tenant new_tenant
  create_tenant-taken lower name email new_id now s taken hit =
      let email' = strip (lower email) in
      rw
        (
          tenants.insert_unique-taken (has_email email') (new_tenant new_id name email' now) s taken
              hit,
          create_tenant,
        )
        refl

  pub update_password_hash-IsNewest :
      (ds : List TenantDoc) (d : TenantDoc) (s : State) (hash : String) (now : ℕ)
      → IsNewest ds d s
      → IsNewest ds (set_password_hash hash now d) (update_password_hash tenants d.id hash now s).1
  unfolding update_password_hash update_tenant set_password_hash is_tenant
  update_password_hash-IsNewest ds d s hash now newest = (
    tenants.docs-update_one (is_tenant d.id) (set_password_hash hash now) s
        ∙ ap (update_first (is_tenant d.id) (set_password_hash hash now)) newest.0
        ∙ update_first-last (is_tenant d.id) (set_password_hash hash now) ds d newest.1
            (eq_refl d.id),
    newest.1,
  )

  pub get_tenant-IsNewest :
      (ds : List TenantDoc) (d : TenantDoc) (s : State)
      → IsNewest ds d s
      → get_tenant tenants d.id s ≡ some d
  unfolding get_tenant is_tenant
  get_tenant-IsNewest ds d s newest =
      tenants.find_one_lem (is_tenant d.id) s
      ∙ ap (find_first (is_tenant d.id)) newest.0
      ∙ find_first-last (is_tenant d.id) ds d newest.1 (eq_refl d.id)

  pub get_by_email-IsNewest :
      (lower : String → String) (email : String) (ds : List TenantDoc) (d : TenantDoc) (s : State)
      → tenants.docs s ≡ ds ++ d ∷ []
      → find_first (has_email (strip (lower email))) ds ≡ none
      → d.email ≡ strip (lower email)
      → get_by_email tenants lower email s ≡ some d
  unfolding get_by_email has_email
  get_by_email-IsNewest lower email ds d s newest missing same =
      tenants.find_one_lem (has_email (strip (lower email))) s
      ∙ ap (find_first (has_email (strip (lower email)))) newest
      ∙ find_first-last (has_email (strip (lower email))) ds d missing
          ((eq_iff d.email (strip (lower email))).1 same)
