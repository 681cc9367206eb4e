-- ===== src/Tenants.antt =====
-- repositories/tenant_repo.py: every operation on tenants but `get_by_id`. `lower` stands
-- for Python's `str.lower`. Times are whole microseconds.
pub mod Newest
use factn_assistant_service.Base.{
  List, none, true, some, false, ◌==◌, ℕ, str_eq, Option, String, Bool,
}
use factn_assistant_service.Services.Paging.{page}
use factn_assistant_service.Texts.{strip}
use factn_assistant_service.Schemas.{TenantDoc}
use factn_assistant_service.Services.{Collection}
use factn_assistant_service.Projects.{is_tenant}

unfoldable pub has_email : String → TenantDoc → Bool
has_email email d = str_eq d.email email

unfoldable pub new_tenant : String → String → String → ℕ → TenantDoc
new_tenant new_id name email now = record {
  id = new_id;
  name = name;
  email = email;
  password_hash = "";
  plan = "free";
  created_at = now;
  updated_at = now;
  is_active = true;
  is_suspended = false;
}

unfoldable pub set_password_hash : String → ℕ → TenantDoc → TenantDoc
set_password_hash hash now d = record d { password_hash = hash; updated_at = now }

unfoldable pub set_plan : String → ℕ → TenantDoc → TenantDoc
set_plan plan now d = record d { plan = plan; updated_at = now }

unfoldable pub set_is_active : Bool → ℕ → TenantDoc → TenantDoc
set_is_active active now d = record d { is_active = active; updated_at = now }

unfoldable pub set_is_suspended : Bool → ℕ → TenantDoc → TenantDoc
set_is_suspended suspended now d = record d { is_suspended = suspended; updated_at = now }

module _ (tenants : Collection TenantDoc) where
  open tenants use {State}

  -- `none` where the unique index on the email (tenants_email_unique of db/indexes.py) refuses the
  -- document. The drawn id is taken to be one that no tenant has.
  unfoldable pub create_tenant :
      (String → String) → String → String → String → ℕ → State → Option TenantDoc × State
  create_tenant lower name email new_id now s =
      let doc = new_tenant new_id name (strip (lower email)) now in
      elim (tenants.insert_unique (has_email doc.email) doc s) [
        | none ↦ (none, s)
        | some s' ↦ (some doc, s')
      ]

  unfoldable pub get_by_email : (String → String) → String → State → Option TenantDoc
  get_by_email lower email s = tenants.find_one (has_email (strip (lower email))) s

  -- `update_one({"_id": tenant_id}, ...)`, with `modified_count == 1`
  unfoldable pub update_tenant : String → (TenantDoc → TenantDoc) → State → Bool × State
  update_tenant tenant_id change s =
      let (modified, s') = tenants.update_one (is_tenant tenant_id) change s in (modified == 1, s')

  unfoldable pub update_password_hash : String → String → ℕ → State → Bool × State
  update_password_hash tenant_id hash now s = update_tenant tenant_id (set_password_hash hash now) s

  unfoldable pub update_plan : String → String → ℕ → State → Bool × State
  update_plan tenant_id plan now s = update_tenant tenant_id (set_plan plan now) s

  unfoldable pub set_active : String → Bool → ℕ → State → Bool × State
  set_active tenant_id active now s = update_tenant tenant_id (set_is_active active now) s

  unfoldable pub suspend : String → ℕ → State → Bool × State
  suspend tenant_id now s = update_tenant tenant_id (set_is_suspended true now) s

  unfoldable pub unsuspend : String → ℕ → State → Bool × State
  unsuspend tenant_id now s = update_tenant tenant_id (set_is_suspended false now) s

  -- A page of all tenants, in the collection's own order, where a limit of 0 is no limit
  unfoldable pub list_all : ℕ → ℕ → State → List TenantDoc
  list_all limit skip s = page skip limit (tenants.find (λ d. true) s)

  -- `deleted_count == 1` where there is a document to delete
  unfoldable pub delete : String → State → Bool × State
  delete tenant_id s = elim (tenants.find_one (is_tenant tenant_id) s) [
    | none ↦ (false, s)
    | some d ↦ (true, tenants.delete_one (is_tenant tenant_id) s)
  ]
