-- ===== src/Handshake/Connect.antt =====
-- What connecting does to the sessions of the node.
use factn_assistant_service.Base.{
  ok_ne_err, Result-cases, ◌≢◌, some, str_eq, Option, Bool, Option-cases, arith, ℕ, refl, ◌≡◌,
  String, false, ok, err, inl, inr,
}
use factn_assistant_service.SessionState.{SessionState, touch}
use factn_assistant_service.Handshake.{resolve_project, connect, World, session_id_or_new}
use factn_assistant_service.SessionManager.{
  Slot, get_or_create, MaxSessionsExceeded, Manager, create_session,
}
use factn_assistant_service.SessionEvents.{non_empty}
use factn_assistant_service.Base.Dict.{lookup}
use factn_assistant_service.Schemas.{ApiKeyDoc, SessionDoc, TenantDoc, ProjectDoc, ProjectConfig}
use factn_assistant_service.Services.{Collection, Redis}
use factn_assistant_service.RedisClient.{Codec, TokenPayload}

create_session_refused :
    (sid : String) (project : ProjectConfig) (key : String) (t now : ℕ) (m : Manager)
    (e : MaxSessionsExceeded)
    → (create_session sid project key t now m).0 ≡ err e
    → (create_session sid project key t now m).1 ≡ m
unfolding create_session
create_session_refused sid project key t now m e refused = ground (arith, refused)

get_or_create_refused :
    (sid : String) (project : ProjectConfig) (key : String) (t now : ℕ) (m : Manager)
    (e : MaxSessionsExceeded)
    → (get_or_create sid project key t now m).0 ≡ err e
    → (get_or_create sid project key t now m).1 ≡ m
unfolding get_or_create
get_or_create_refused sid project key t now m e refused =
    elim (Option-cases (lookup sid m.sessions)) [
      | inl fresh ↦
          rw (fresh, get_or_create)
            (create_session_refused sid project key t now m e
              (rw (fresh, get_or_create) at refused))
      | inr (slot, found) ↦
          absurd (ok_ne_err (touch t slot.state) e (rw (found, get_or_create) at refused))
    ]

session_id_or_new-given :
    (sid new : String) → str_eq sid "" ≡ false → session_id_or_new (some sid) new ≡ sid
unfolding session_id_or_new non_empty
session_id_or_new-given sid new given = rw (given, session_id_or_new)

module _ {V : Type 0} (redis : Redis V) (tokens : Codec V TokenPayload)
    (configs : Codec V ProjectConfig) (projects : Collection ProjectDoc)
    (tenants : Collection TenantDoc) (sessions : Collection SessionDoc)
    (keys : Collection ApiKeyDoc) (decimal : ℕ → String) (verify : String → String → Bool) where
  -- Where a connection is closed with a code, by a check of the handshake or by the cap on sessions,
  -- the registry of sessions and the tasks of the node are as before.
  pub connect_refused :
      (api_key token session_id origin : Option String) (new_id : String) (t now code : ℕ)
      (w : World redis tokens configs projects tenants sessions keys decimal verify) (m : Manager)
      → (connect redis tokens configs projects tenants sessions keys decimal verify api_key token
          session_id origin new_id t now w m).0
        ≡ err code
      → (connect redis tokens configs projects tenants sessions keys decimal verify api_key token
          session_id origin new_id t now w m).2
        ≡ m
  unfolding connect
  connect_refused api_key token session_id origin new_id t now code w m refused =
      let resolved =
        resolve_project redis tokens configs projects tenants sessions keys decimal verify api_key
          token origin now w in
      let sid = session_id_or_new session_id new_id in
      elim (Result-cases resolved.0) [
        | inl (c, denied) ↦ rw (denied, connect)
        | inr ((config, kid, plan), let_in) ↦
            elim (Result-cases (get_or_create sid config kid t now m).0) [
              | inl (e, full) ↦
                  rw (let_in, connect)
                    (rw (full, connect) (get_or_create_refused sid config kid t now m e full))
              | inr (s, created) ↦
                  absurd (ok_ne_err s code (rw created at (rw (let_in, connect) at refused)))
            ]
      ]

  -- A credential that resolves to any project resumes a session that is registered under the id that
  -- is asked for, also where that session belongs to another project.
  pub connect_resumes_any :
      (api_key token origin : Option String) (sid new_id kid plan : String) (config : ProjectConfig)
      (slot : Slot) (t now : ℕ)
      (w : World redis tokens configs projects tenants sessions keys decimal verify) (m : Manager)
      → (resolve_project redis tokens configs projects tenants sessions keys decimal verify api_key
          token origin now w).0
        ≡ ok (config, kid, plan)
      → str_eq sid "" ≡ false
      → lookup sid m.sessions ≡ some slot
      → slot.state.project_id ≢ config.project_id
      → (s : SessionState) × ((connect redis tokens configs projects tenants sessions keys decimal
            verify api_key token
            (some sid)
            origin
            new_id
            t
            now
            w
            m).0
          ≡ ok s)
        × (s.inbox ≡ slot.state.inbox)
        × (s.project_id ≢ config.project_id)
  unfolding connect get_or_create touch
  connect_resumes_any api_key token origin sid new_id kid plan config slot t now w m let_in given
        found foreign =
      (
        touch t slot.state,
        rw (let_in, connect)
            (rw (session_id_or_new-given sid new_id given) (rw (found, get_or_create))),
        refl,
        foreign,
      )
