-- ===== src/Lib.antt =====
-- A model of the core of FactN Assistant Service, a chat service that connects websocket clients to
-- Gemini Live sessions: its session runtime, the keys and tokens that let clients in, and the REST
-- routes by which a customer runs its account, projects and tools.
--
-- The parts of the program and the files that model them (paths from the repository's root):
--
-- - core/plan_limits.py: PlanLimits. The table of plans and its helpers, by the same names.
-- - core/schemas.py, core/documents.py: Schemas. The records of projects, keys, tokens and sessions.
-- - core/tool_executor.py: ToolExecutor/Defs. `execute_webhook` is `_execute_webhook`; what
--   `client.post` does at each attempt is an argument, and what the call does in time (posts under a
--   timeout, sleeps) is a list of actions. A tick is a sixth of a millisecond, so that a third and a
--   half of the budget are exact.
-- - core/session_events.py: SessionEvents. The lifecycle webhooks with their one retry.
-- - core/session_state.py: SessionState. The two bounded queues and the counters of one session.
-- - core/gemini_runner.py: GeminiRunner/Defs (`_consume_gemini_responses`, `_handle_tool_call`,
--   `_capture_usage`), GeminiRunner/Config (`build_gemini_config`) and GeminiRunner/Loop
--   (`session_runner`). Gemini is the environment: its
--   responses, failed sends and ends of streams come in as events in any order, and the receiver task
--   of a voice turn takes its steps between those of the loop.
-- - core/session_manager.py: SessionManager. Each section under `_lock` is one operation; a relation of
--   steps in SessionManager/Reach interleaves the tasks of a node.
-- - api/chat.py: Handshake (`_origin_allowed`, `_resolve_project`, `ws_chat` up to its loops), which
--   reads keys and tokens, the project through its cache, the tenant and its usage, and ends in the
--   session manager; Chat/Receive (`_receive_loop`) and Chat/Forward (`_forward_loop`), which
--   move a client's messages to the inbox of its session and the frames of the outbox to the client.
-- - db/redis_client.py: RedisClient, over the interface `Redis` of Services.
-- - repositories/api_key_repo.py, repositories/auth_token_repo.py: ApiKeys and AuthTokens, over the
--   interface `Collection` of Services. AuthTokens/Race puts other requests between the calls of a
--   rotation.
-- - repositories/project_repo.py: Projects (the configuration that a handshake reads through the
--   cache) and Projects/Store (the writes, which invalidate it). Projects/History runs whole operations
--   one after the other, and Projects/Race interleaves two of them.
-- - repositories/tenant_repo.py: `get_by_id` is `get_tenant` of Projects, the rest is in Tenants.
--   repositories/session_repo.py: SessionRecords, and `get_daily_token_usage` in Projects.
--   SessionRecords/Accounting and Handshake/Quota follow a session's tokens from the end of its runner
--   to the next handshake.
-- - api/projects.py: ToolSchema (`validate_tool_parameters`), ProjectApi (the routes on projects),
--   ProjectApi/Requests, Toolbox and ToolRoutes (the routes on tools: the bodies and their
--   validators, what happens to the list of tools, and the routes around it), and SessionRecords (the
--   analytics), ProjectApi/Fields (the bounds of a project's fields), Responses and TestTurn
--   (`_run_test_turn`, with what Gemini streams as an argument). `get_project_route` is `get_project`.
--   ProjectApi/Traffic answers a list of requests, some
--   of them in the middle of others.
-- - api/tokens.py: TokenApi. api/keys.py: KeyApi. api/plans.py: PlanApi. api/auth.py: AccountApi.
--   core/auth.py and api/dependencies.py: AccessTokens.
-- - db/mongo.py and db/indexes.py: MongoDb, over the interface `Database` of what the server does with
--   indexes. main.py: AppEntry (`lifespan`, cut at its `yield` into `startup` and `shutdown`, and the two
--   routes). scripts/seed.py: SeedScript.
--
-- Base holds the shared lists, maps and results, and Json the values of Python's json module. Services
-- states the documented behaviour of Redis and MongoDB that the code relies on, and Services/Server and
-- Services/Instances build a small server and a collection that have it, on which Tests runs the model.
--
-- Loops over attempts recurse on the number of attempts left, which the source fixes; loops over
-- messages, frames and events recurse on the list of what comes in. Nothing runs on fuel that could be
-- short. The queues hold 512 and 256 frames, and an ephemeral token lives 1 to 300 seconds, as in the
-- source.
--
-- Outside the model: third-party code (argon2, HMAC, JWT, the JSON text, Gemini, Redis, MongoDB), which
-- is a parameter wherever the code depends on it, as are Unicode's lower case letters; log lines; the
-- bounds that pydantic puts on the fields of voice and account requests; pydantic's renaming of `_id` in
-- to_mongo and from_mongo; and the registration of routers and middleware in main.py. The unique indexes
-- of db/indexes.py refuse a second tenant with one email, and a second key with one id or hash; a clash of
-- the random ids of other documents is not modelled. RedisClient counts time in whole seconds, so that
-- nothing is said of what happens within the second in which a key expires. `_terminate` awaits the runner
-- that it cancels: other tasks may come in there, which SessionManager/Reach allows and `stop_all` and
-- `sweep`, as single functions, leave out. The cancellation of the session's own task while it waits for
-- a receiver task that it has cancelled, which the source swallows, is no event of the runner's loop.
pub mod Base
pub mod Json
pub mod PlanLimits
pub mod ToolExecutor
pub mod SessionEvents
pub mod Schemas
pub mod SessionState
pub mod Services
pub mod RedisClient
pub mod ApiKeys
pub mod AuthTokens
pub mod GeminiRunner
pub mod SessionManager
pub mod Projects
pub mod Handshake
pub mod Chat
pub mod ToolSchema
pub mod ProjectApi
pub mod Texts
pub mod TokenApi
pub mod Tenants
pub mod AccessTokens
pub mod AccountApi
pub mod PlanApi
pub mod KeyApi
pub mod MongoDb
pub mod AppEntry
pub mod SeedScript
pub mod SessionRecords
pub mod Tests
