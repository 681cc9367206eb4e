-- ===== src/Handshake.antt =====
-- The handshake of api/chat.py: `_origin_allowed`, `_resolve_project`, and `ws_chat` up to the two
-- loops. One time stands for the times of its parts. A refusal is the close code.
pub mod Admission
pub mod Connect
pub mod Quota
pub mod LetsIn
use factn_assistant_service.Projects.{get_config, microseconds, get_daily_token_usage, get_tenant}
use factn_assistant_service.Base.{
  str_append, ◌/◌, ok, if◌then◌else◌, err, Result, [], str_eq, leb, any_of, ◌∷◌, some, true, none,
  false, List, Bool, ℕ, String, Option, refl,
}
use factn_assistant_service.SessionManager.{get_or_create, Manager}
use factn_assistant_service.PlanLimits.{daily_token_quota}
use factn_assistant_service.SessionState.{SessionState}
use factn_assistant_service.RedisClient.{
  redeem_ephemeral_token, check_and_increment_rate_limit, TokenPayload, Codec,
}
use factn_assistant_service.ApiKeys.{get_by_raw_key}
use factn_assistant_service.Schemas.{ApiKeyDoc, SessionDoc, TenantDoc, ProjectDoc, ProjectConfig}
use factn_assistant_service.Services.{Collection, Redis}
use factn_assistant_service.SessionEvents.{non_empty}

unfoldable pub origin_allowed : Option String → List String → Bool
origin_allowed origin [] = true
origin_allowed none (a ∷ others) = true
origin_allowed (some o) (a ∷ others) = any_of (λ x. str_eq x o) (a ∷ others)

-- `session_id or str(uuid.uuid4())`
unfoldable pub session_id_or_new : Option String → String → String
session_id_or_new given new = elim (non_empty given) [ none ↦ new | some sid ↦ sid ]

-- The check of the daily quota, with the tokens used today.
unfoldable pub over_quota : Option ℕ → ℕ → Bool
over_quota none used = false
over_quota (some quota) used = leb quota used

module _ {V : Type 0} (redis : Redis V) (tokens : Codec V TokenPayload)
    (configs : Codec V ProjectConfig) (projects : Collection ProjectDoc)
    (tenants : Collection TenantDoc) (sessions : Collection SessionDoc)
    (keys : Collection ApiKeyDoc) (decimal : ℕ → String) (verify : String → String → Bool) where
  -- What the services hold.
  pub record World : Type 0 where
    pub store : redis.Store
    pub project_docs : projects.State
    pub tenant_docs : tenants.State
    pub session_docs : sessions.State
    pub key_docs : keys.State

  -- The checks 2 to 4, which both kinds of credential share.
  unfoldable pub check_tenant :
      ProjectConfig
      → String
      → TenantDoc
      → Option String
      → ℕ
      → World
      → Result ℕ (ProjectConfig × String × String)
  check_tenant config api_key_id tenant origin now w =
      if origin_allowed origin config.allowed_origins
      then (if tenant.is_suspended
          then err 4007
          else if over_quota (daily_token_quota tenant.plan)
              (get_daily_token_usage sessions tenant.id now w.session_docs)
          then err 4008
          else ok (config, api_key_id, tenant.plan))
      else err 4006

  unfoldable pub find_tenant :
      ProjectConfig
      → String
      → String
      → Option String
      → ℕ
      → World
      → Result ℕ (ProjectConfig × String × String)
  find_tenant config tenant_id api_key_id origin now w =
      elim (get_tenant tenants tenant_id w.tenant_docs) [
        | none ↦ err 4001
        | some tenant ↦ check_tenant config api_key_id tenant origin now w
      ]

  -- From the rate limit on, the two paths do the same.
  unfoldable pub admit :
      String
      → ℕ
      → String
      → String
      → String
      → Option String
      → ℕ
      → World
      → Result ℕ (ProjectConfig × String × String) × World
  admit key_prefix limit project_id tenant_id api_key_id origin now w =
      let ((allowed, count), r) =
        check_and_increment_rate_limit redis decimal key_prefix limit 60 (now / microseconds)
          w.store in
      let (config, r') =
        get_config redis configs projects project_id tenant_id now w.project_docs r in
      if allowed
      then (elim config [
        | none ↦ (err 4002, record w { store = r' })
        | some c ↦ (find_tenant c tenant_id api_key_id origin now w, record w { store = r' })
      ])
      else (err 4003, record w { store = r })

  -- path A
  unfoldable pub by_token :
      String → Option String → ℕ → World → Result ℕ (ProjectConfig × String × String) × World
  by_token token origin now w =
      let (payload, r) = redeem_ephemeral_token redis tokens token (now / microseconds) w.store in
      let w' = record w { store = r } in
      elim payload [
        | none ↦ (err 4005, w')
        | some p ↦
            admit (str_append "tok:" p.project_id) p.rate_limit_rpm p.project_id p.tenant_id
              p.api_key_id origin now w'
      ]

  -- path B
  unfoldable pub by_key :
      String → Option String → ℕ → World → Result ℕ (ProjectConfig × String × String) × World
  by_key api_key origin now w =
      let (found, s) = get_by_raw_key keys verify api_key now w.key_docs in
      let w' = record w { key_docs = s } in
      elim found [
        | none ↦ (err 4001, w')
        | some k ↦ admit k.key_prefix k.rate_limit_rpm k.project_id k.tenant_id k.id origin now w'
      ]

  -- A token that is given is used, whether or not a key is given too.
  unfoldable pub resolve_project :
      Option String
      → Option String
      → Option String
      → ℕ
      → World
      → Result ℕ (ProjectConfig × String × String) × World
  resolve_project api_key token origin now w = elim (non_empty token) [
    | some t ↦ by_token t origin now w
    | none ↦ elim (non_empty api_key) [ none ↦ (err 4001, w) | some k ↦ by_key k origin now w ]
  ]

  -- The session that the two loops then serve, or the close code.
  unfoldable pub connect :
      Option String
      → Option String
      → Option String
      → Option String
      → String
      → ℕ
      → ℕ
      → World
      → Manager
      → Result ℕ SessionState × World × Manager
  connect api_key token session_id origin new_id monotonic now w m =
      let (resolved, w') = resolve_project api_key token origin now w in
      elim resolved [
        | err code ↦ (err code, w', m)
        | ok (config, api_key_id, plan) ↦
            let (created, m') =
              get_or_create (session_id_or_new session_id new_id) config api_key_id monotonic now
                m in
            elim created [ err refused ↦ (err 4004, w', m') | ok s ↦ (ok s, w', m') ]
      ]
