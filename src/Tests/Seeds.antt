-- ===== src/Tests/Seeds.antt =====
-- The seed script, run twice on empty collections.
use factn_assistant_service.ApiKeys.{take_chars, generate_raw_key, shares_unique}
use factn_assistant_service.Projects.Store.{list_for_tenant, new_project_doc}
use factn_assistant_service.Schemas.{publishable}
use factn_assistant_service.SeedScript.{
  seed_project, seeded_of, demo_project, seed_tenant, seed_for, Drawn, Seedbed, Seeded, seed,
}
use factn_assistant_service.Base.{false, none, refl, [], String}
use factn_assistant_service.Tenants.{has_email, get_by_email, create_tenant, new_tenant}
use factn_assistant_service.Texts.{strip}
use factn_assistant_service.SeedScript.Again.{seed_again, OnlyAddsKey}
use factn_assistant_service.Tests.Projects.{redis, projects, world}
use factn_assistant_service.Tests.Accounts.{tenants, keys}
use factn_assistant_service.Projects.Store as Store
use factn_assistant_service.ApiKeys as Keys

abbrev same : String → String
same s = s

abbrev bed : Seedbed redis tenants projects keys same same same
bed = record { tenant_docs = []; project_docs = record world { docs = [] }; key_docs = [] }

abbrev drawn : Drawn
drawn = record { tenant_id = "t1"; project_id = "p1"; key_id = "k1"; raw_body = "0123456789" }

abbrev next : Drawn
next = record { tenant_id = "t2"; project_id = "p2"; key_id = "k2"; raw_body = "9876543210" }

abbrev after : Seedbed redis tenants projects keys same same same
after = (seed redis tenants projects keys same same same drawn 5 bed).1

abbrev printed : Seeded
printed = record {
  tenant = new_tenant "t1" "Demo Tenant" (strip "admin@example.com") 5;
  project = new_project_doc "p1" "t1" demo_project 5;
  key = record {
    id = "k1";
    project_id = "p1";
    tenant_id = "t1";
    label = "Dev test key";
    key_prefix = "pk_live_0123";
    key_hash = "pk_live_0123456789";
    key_type = publishable;
    rate_limit_rpm = 60;
    revoked = false;
    revoked_at = none;
    created_at = 5;
    last_used_at = none;
    expires_at = none;
  };
  raw_key = "pk_live_0123456789";
}

seed_again_example : OnlyAddsKey redis tenants projects keys same same same next 9 "t1" after
unfolding seed seed_for seeded_of seed_tenant seed_project create_tenant get_by_email has_email
    new_tenant list_for_tenant Store.create Keys.create shares_unique generate_raw_key take_chars
    new_project_doc
seed_again_example =
    seed_again redis tenants projects keys same same same drawn next 5 9 bed printed refl refl refl
