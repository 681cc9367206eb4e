-- ===== src/Tests/Projects.antt =====
-- Projects in a small collection, their cache, and the tenant that owns them.
use factn_assistant_service.Projects.Store.{
  apply_changes, is_project_of_tenant, is_owned, Stores, update, no_changes, Changes, NewProject,
}
use factn_assistant_service.Base.{
  ◌≤◌, err, refl, none, false, count_if, arith, [], ◌≡◌, ◌∷◌, true, some, String,
}
use factn_assistant_service.Services.Server.{text_at, server_redis}
use factn_assistant_service.Services.Instances.{list_collection}
use factn_assistant_service.Services.{Redis, Collection}
use factn_assistant_service.RedisClient.{Codec, get_project_config, decode_or_evict}
use factn_assistant_service.Schemas.{ProjectDoc, ProjectConfig, TenantDoc, to_project_config, auto}
use factn_assistant_service.Projects.{get_config, cache_config, get_project, is_project_of}
use factn_assistant_service.Projects.History.{get_config-refines, start, then_at, updates}
use factn_assistant_service.Projects.Race.{stale_after_update}
use factn_assistant_service.Projects.Cache.{cached}
use factn_assistant_service.PlanLimits.{max_projects, get_all_limits}
use factn_assistant_service.Projects.Fresh.{is_id}
use factn_assistant_service.ProjectApi.Deleted.{create_after_deletes, delete_all}
use factn_assistant_service.ProjectApi.{create_project}

abbrev pub redis : Redis ProjectConfig
redis = server_redis ProjectConfig

abbrev codec : Codec ProjectConfig ProjectConfig
codec = record { dumps = λ c. c; loads = λ c. some c; loads-dumps = λ c. refl }

abbrev pub projects : Collection ProjectDoc
projects = list_collection ProjectDoc

abbrev pub shop : ProjectDoc
shop = record {
  id = "p1";
  tenant_id = "t1";
  name = "Shop";
  description = "";
  system_prompt = "Be brief.";
  gemini_model = "gemini-live";
  voice_config = record { enabled = true; voice_name = "Aoede"; language_code = "en-US" };
  vad_config = auto;
  tools = [];
  webhook_url = none;
  webhook_secret = none;
  allowed_origins = [];
  session_ttl_seconds = 60;
  max_concurrent_sessions = 2;
  rate_limit_rpm = 30;
  created_at = 5;
  updated_at = 5;
  last_accessed = none;
  is_active = true;
}

abbrev pub world : Stores redis projects
world = record { docs = shop ∷ []; cache = record { texts = λ _. none; counters = λ _. (0, none) } }

abbrev rename : Changes
rename = record no_changes { name = some "Store" }

abbrev renamed : Stores redis projects
renamed = (update redis projects "p1" "t1" rename 2_000_000 world).1

shop_unique : (j : String) → count_if (is_id j) (shop ∷ []) ≤ 1
unfolding is_id
shop_unique j = ground arith

get_config-refines_example :
    (get_config redis codec projects "p1" "t1" 3_000_000 renamed.docs renamed.cache).0
    ≡ some (to_project_config (record shop { name = "Store"; updated_at = 2_000_000 }))
unfolding update cached get_project_config decode_or_evict text_at get_project is_owned
    is_project_of apply_changes
get_config-refines_example =
    get_config-refines redis codec projects 1_000_000 2_000_000 3_000_000 world renamed "p1" "t1"
      (record shop { name = "Store"; updated_at = 2_000_000 }) (λ j s. refl) shop_unique
      (then_at start (omega arith) (updates "p1" "t1" rename world)) (omega arith) refl

stale_after_update_example :
    (get_config redis codec projects "p1" "t1" 30_000_000 renamed.docs
      (cache_config redis codec projects shop "p1" 2_000_000 renamed.cache).1).0
    ≡ some (to_project_config shop)
unfolding get_project is_project_of
stale_after_update_example =
    stale_after_update redis codec projects "p1" "t1" rename 2_000_000 30_000_000 world shop refl
      refl (omega arith) (omega arith)

abbrev pub tenant : TenantDoc
tenant = record {
  id = "t1";
  name = "Ada";
  email = "ada@shop.example";
  password_hash = "pw";
  plan = "free";
  created_at = 0;
  updated_at = 0;
  is_active = true;
  is_suspended = false;
}

abbrev second : NewProject
second = record {
  name = "Second";
  description = "";
  system_prompt = "Hi.";
  gemini_model = "gemini-live";
  voice_config = record { enabled = true; voice_name = "Kore"; language_code = "en-US" };
  vad_config = auto;
  webhook_url = none;
  webhook_secret = none;
  allowed_origins = [];
  session_ttl_seconds = 60;
  max_concurrent_sessions = 2;
  rate_limit_rpm = 30;
}

create_after_deletes_example :
    (create_project redis projects tenant second "p2" 4_000_000
      (delete_all redis projects tenant (("p1", 3_000_000) ∷ []) world)).0
    ≡ err 403
unfolding max_projects get_all_limits is_project_of_tenant
create_after_deletes_example =
    create_after_deletes redis projects tenant second "p2" 4_000_000 1 (("p1", 3_000_000) ∷ [])
      world refl (omega arith)
