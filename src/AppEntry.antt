-- ===== src/AppEntry.antt =====
-- main.py: the settings, the start and the end of the application around what it serves, and the two
-- routes that tell how it is. Constructing the clients of MongoDB, Redis and Gemini opens nothing yet; they
-- are known by the settings that they are made with.
pub mod Lifespan
use factn_assistant_service.SessionManager.{
  active_session_ids, active_session_count, stop_all, Manager,
}
use factn_assistant_service.SessionManager.Reach.{empty_manager}
use factn_assistant_service.Base.{
  ◌||◌, some, [], ◌∷◌, ◌++◌, ◌&&◌, none, ℕ, str_eq, if◌then◌else◌, Option, true, map, false, String,
  List, Bool,
}
use factn_assistant_service.MongoDb.{ensure_indexes, Database}
use factn_assistant_service.PlanApi.{list_plans}

-- `os.environ.get(name, default)`
unfoldable pub env_or : (String → Option String) → String → String → String
env_or environ name default = elim (environ name) [ none ↦ default | some v ↦ v ]

pub record Settings : Type 0 where
  pub mongo_uri : String
  pub mongo_db : String
  pub redis_url : String
  pub gemini_key : String
  pub jwt_secret : String

unfoldable pub read_settings : (String → Option String) → Settings
read_settings environ = record {
  mongo_uri = env_or environ "MONGO_URI" "";
  mongo_db = env_or environ "MONGO_DB_NAME" "livechat_dev";
  redis_url = env_or environ "REDIS_URL" "redis://localhost:6379";
  gemini_key = env_or environ "GEMINI_API_KEY" "";
  jwt_secret = env_or environ "JWT_SECRET" "";
}

pub data Warning : Type 0 where
  no_mongo_uri no_gemini_key weak_jwt_secret : Warning

unfoldable pub warn_if : Bool → Warning → List Warning
warn_if b w = if b then w ∷ [] else []

unfoldable pub warnings : Settings → List Warning
warnings c =
    warn_if (str_eq c.mongo_uri "") no_mongo_uri
    ++ (warn_if (str_eq c.gemini_key "") no_gemini_key
        ++ warn_if (str_eq c.jwt_secret "" || str_eq c.jwt_secret "change-me-in-production")
            weak_jwt_secret)

-- `app.state`, with which of its two clients have been closed. Making a client opens no connection, so
-- that nothing here says that a server answers. The repositories are the two clients.
pub record App : Type 0 where
  pub settings : Settings
  pub manager : Manager
  pub cleanup_running : Bool
  pub redis_closed : Bool
  pub mongo_closed : Bool

-- The clients, the repositories and the manager, before its start
unfoldable pub new_app : Settings → App
new_app settings = record {
  settings = settings;
  manager = empty_manager;
  cleanup_running = false;
  redis_closed = false;
  mongo_closed = false;
}

unfoldable pub start_manager : App → App
start_manager app = record app { cleanup_running = true }

-- `SessionManager.stop`, which cancels the cleanup task first, where no other task comes in between
unfoldable pub stop_manager : App → App
stop_manager app = record app { manager = stop_all app.manager; cleanup_running = false }

unfoldable pub close_redis : App → App
close_redis app = record app { redis_closed = true }

unfoldable pub close_mongo : App → App
close_mongo app = record app { mongo_closed = true }

-- After the `yield` of `lifespan`
unfoldable pub shutdown : App → App
shutdown app = close_mongo (close_redis (stop_manager app))

module _ (database : Database) where
  -- Up to the `yield` of `lifespan`: `none` where ensuring the indexes raises, and nothing after it is run
  unfoldable pub startup : (String → Option String) → database.State → Option App × database.State
  startup environ s =
      let (done, s') = ensure_indexes database s in
      if done then (some (start_manager (new_app (read_settings environ))), s') else (none, s')

pub record Root : Type 0 where
  pub service : String
  pub version : String
  pub status : String
  pub plans : List String

abbrev pub app_title : String
app_title = "LiveChat API Platform"

abbrev pub app_version : String
app_version = "0.9.0"

unfoldable pub root : Root
root = record {
  service = app_title;
  version = app_version;
  status = "ok";
  plans = map (λ p. p.name) list_plans;
}

pub record Health : Type 0 where
  pub status : String
  pub mongodb : String
  pub redis : String
  pub active_sessions : ℕ
  pub session_ids : List String
  pub version : String

-- `"ok" if ok else "unreachable"`
unfoldable pub reached : Bool → String
reached ok = if ok then "ok" else "unreachable"

-- The two pings and, after them, what the session manager holds
unfoldable pub health : Bool → Bool → Manager → Health
health mongo_ok redis_ok m = record {
  status = if mongo_ok && redis_ok then "ok" else "degraded";
  mongodb = reached mongo_ok;
  redis = reached redis_ok;
  active_sessions = active_session_count m;
  session_ids = active_session_ids m;
  version = app_version;
}
