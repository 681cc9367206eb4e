-- ===== src/SeedScript.antt =====
-- scripts/seed.py: the script that makes a tenant, a project and an API key for trying the service out. The
-- ids and the key's body are those that the repositories draw; the connections, the indexes (MongoDb) and
-- the printed lines are
-- not modelled.
pub mod Steps
pub mod Again
use factn_assistant_service.Base.{some, ◌∷◌, Option, ℕ, [], none, true, String}
use factn_assistant_service.Schemas.{ApiKeyDoc, manual, ProjectDoc, TenantDoc, publishable}
use factn_assistant_service.Services.{Collection, Redis}
use factn_assistant_service.Projects.Store.{NewProject, Stores, list_for_tenant}
use factn_assistant_service.Tenants.{get_by_email, create_tenant, update_password_hash}
use factn_assistant_service.Projects.Store as Store
use factn_assistant_service.ApiKeys as Keys

abbrev pub seed_email : String
seed_email = "admin@example.com"

abbrev pub seed_password : String
seed_password = "changeme123"

abbrev pub seed_name : String
seed_name = "Demo Tenant"

-- The project with the defaults of a `ProjectDoc`
abbrev pub demo_project : NewProject
demo_project = record {
  name = "Demo Assistant";
  description = "";
  system_prompt = "You are a helpful, friendly assistant. Keep answers concise and conversational.";
  gemini_model = "gemini-2.5-flash-native-audio-preview-12-2025";
  voice_config = record { enabled = true; voice_name = "Kore"; language_code = "en-US" };
  vad_config = manual;
  webhook_url = none;
  webhook_secret = none;
  allowed_origins = [];
  session_ttl_seconds = 300;
  max_concurrent_sessions = 10;
  rate_limit_rpm = 60;
}

-- What one run draws
pub record Drawn : Type 0 where
  pub tenant_id : String
  pub project_id : String
  pub key_id : String
  pub raw_body : String

-- What it prints
pub record Seeded : Type 0 where
  pub tenant : TenantDoc
  pub project : ProjectDoc
  pub key : ApiKeyDoc
  pub raw_key : String

unfoldable pub seeded_of : TenantDoc → ProjectDoc → Option (ApiKeyDoc × String) → Option Seeded
seeded_of tenant project none = none
seeded_of tenant project (some (key, raw_key)) =
    some (record { tenant = tenant; project = project; key = key; raw_key = raw_key })

module _ {V : Type 0} (redis : Redis V) (tenants : Collection TenantDoc)
    (projects : Collection ProjectDoc) (keys : Collection ApiKeyDoc) (lower : String → String)
    (hash_password hash_key : String → String) where
  pub record Seedbed : Type 0 where
    pub tenant_docs : tenants.State
    pub project_docs : Stores redis projects
    pub key_docs : keys.State

  -- `none` where the unique index raises
  unfoldable pub seed_tenant : String → ℕ → tenants.State → Option TenantDoc × tenants.State
  seed_tenant new_id now s = elim (get_by_email tenants lower seed_email s) [
    | some tenant ↦ (some tenant, s)
    | none ↦
        let (created, s') = create_tenant tenants lower seed_name seed_email new_id now s in
        elim created [
          | none ↦ (none, s')
          | some tenant ↦ (
            some tenant,
            (update_password_hash tenants tenant.id (hash_password seed_password) now s').1,
          )
        ]
  ]

  unfoldable pub seed_project :
      String → String → ℕ → Stores redis projects → ProjectDoc × Stores redis projects
  seed_project tenant_id new_id now w = elim (list_for_tenant redis projects tenant_id 1 0 w) [
    | [] ↦ Store.create redis projects new_id tenant_id demo_project now w
    | project ∷ _ ↦ (project, w)
  ]

  -- From the project on. `none` where the insertion of the key raises, after a project may have been made.
  unfoldable pub seed_for :
      TenantDoc → Drawn → ℕ → tenants.State → Seedbed → Option Seeded × Seedbed
  seed_for tenant drawn now ts w =
      let (project, ps) = seed_project tenant.id drawn.project_id now w.project_docs in
      let (made, ks) =
        Keys.create keys hash_key project.id tenant.id "Dev test key" publishable 60 drawn.raw_body
          drawn.key_id now w.key_docs in
      (seeded_of tenant project made, record { tenant_docs = ts; project_docs = ps; key_docs = ks })

  unfoldable pub seed : Drawn → ℕ → Seedbed → Option Seeded × Seedbed
  seed drawn now w =
      let (found, ts) = seed_tenant drawn.tenant_id now w.tenant_docs in
      elim found [
        | none ↦ (none, record w { tenant_docs = ts })
        | some tenant ↦ seed_for tenant drawn now ts w
      ]
