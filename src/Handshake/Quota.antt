-- ===== src/Handshake/Quota.antt =====
-- The daily quota of api/chat.py against the records that core/gemini_runner.py leaves.
use factn_assistant_service.Base.{
  inr, inl, Result-cases, err, refl, leb, false, eq_refl, ap, ok, ◌≢◌, ◌+◌, ◌∙◌, Option, sym, Bool,
  arith, true, String, ◌≡◌, some, ◌≤◌, ℕ,
}
use factn_assistant_service.Tenants.Newest.{get_tenant-id}
use mathlib.Core.Bool.{false≢true}
use mathlib.Core.Path.{subst}
use factn_assistant_service.SessionRecords.Accounting.{finish_counts}
use factn_assistant_service.Handshake.Admission.{resolve_project_admits, credential_tenant}
use factn_assistant_service.SessionRecords.{persist}
use factn_assistant_service.Projects.{start_of_day, get_daily_token_usage, get_tenant}
use factn_assistant_service.PlanLimits.{daily_token_quota}
use factn_assistant_service.Handshake.{World, resolve_project, over_quota}
use factn_assistant_service.SessionEvents.{Answer}
use factn_assistant_service.Schemas.{ApiKeyDoc, SessionDoc, ProjectDoc, TenantDoc, ProjectConfig}
use factn_assistant_service.Services.{Collection, Redis}
use factn_assistant_service.RedisClient.{TokenPayload, Codec}
use factn_assistant_service.SessionState.{SessionState}
use mathlib.Core.Option.{some-injective}
use factn_assistant_service.GeminiRunner.Loop.{Outcome, finish}
use factn_assistant_service.SessionEvents as Events

over_quota_reached : (quota used : ℕ) → quota ≤ used → over_quota (some quota) used ≡ true
unfolding over_quota
over_quota_reached quota used reached = ground (arith, reached)

module _ {V : Type 0} (redis : Redis V) (tokens : Codec V TokenPayload)
    (configs : Codec V ProjectConfig) (projects : Collection ProjectDoc)
    (tenants : Collection TenantDoc) (sessions : Collection SessionDoc)
    (keys : Collection ApiKeyDoc) (decimal : ℕ → String) (verify : String → String → Bool) where
  -- Nobody gets in for a tenant that has used up its quota.
  spent_refused :
      (api_key token origin : Option String) (now : ℕ)
      (w : World redis tokens configs projects tenants sessions keys decimal verify) (t : TenantDoc)
      (tenant_id : String) (quota : ℕ)
      → get_tenant tenants tenant_id w.tenant_docs ≡ some t
      → daily_token_quota t.plan ≡ some quota
      → quota ≤ get_daily_token_usage sessions tenant_id now w.session_docs
      → credential_tenant redis tokens configs projects tenants sessions keys decimal verify api_key
          token now w
        ≡ some tenant_id
      → (config : ProjectConfig) (kid plan : String)
      → (resolve_project redis tokens configs projects tenants sessions keys decimal verify api_key
          token origin now w).0
        ≢ ok (config, kid, plan)
  spent_refused api_key token origin now w t tenant_id quota found limited spent cred config kid
        plan resolved =
      let (t', tid, is_cred, found', passes) =
        resolve_project_admits redis tokens configs projects tenants sessions keys decimal verify
          api_key token origin now w config kid plan resolved in
      let same_id : tid ≡ tenant_id = some-injective tid tenant_id (sym is_cred ∙ cred) in
      let same : t' ≡ t =
        some-injective t' t
          (sym found' ∙ ap (λ x. get_tenant tenants x w.tenant_docs) same_id ∙ found) in
      let id_is : t.id ≡ tenant_id = get_tenant-id tenants tenant_id w.tenant_docs t found in
      let within : over_quota (daily_token_quota t.plan)
            (get_daily_token_usage sessions t.id now w.session_docs)
          ≡ false =
        subst
          (λ x.
            over_quota (daily_token_quota x.plan)
              (get_daily_token_usage sessions x.id now w.session_docs)
            ≡ false)
          same passes.within_quota in
      false≢true (
        sym within
        ∙ ap (λ q. over_quota q (get_daily_token_usage sessions t.id now w.session_docs)) limited
        ∙ ap (λ u. over_quota (some quota) u)
            (ap (λ x. get_daily_token_usage sessions x now w.session_docs) id_is)
        ∙ over_quota_reached quota (get_daily_token_usage sessions tenant_id now w.session_docs)
            spent)

  -- Where a runner with a repository ends a session of a tenant, begun no earlier than the day of the
  -- handshake, the record is written, and the session's tokens on top of what was recorded before reach
  -- the quota of the tenant's plan, the handshake refuses whoever comes with a credential of the tenant.
  pub finish-resolve_project :
      (round2 : ℕ → ℕ) (sign : Events.Payload → String → String) (project : ProjectConfig)
      (o : Outcome) (ended_at recorded_at : ℕ) (server : ℕ → Answer) (s : SessionState)
      (api_key token origin : Option String) (now : ℕ)
      (w : World redis tokens configs projects tenants sessions keys decimal verify) (t : TenantDoc)
      (quota : ℕ)
      → get_tenant tenants project.tenant_id w.tenant_docs ≡ some t
      → daily_token_quota t.plan ≡ some quota
      → start_of_day now ≤ s.started_at
      → quota
        ≤ get_daily_token_usage sessions project.tenant_id now w.session_docs
          + (s.input_tokens + s.output_tokens)
      → let docs' =
          persist sessions true
            (finish round2 sign true project o ended_at recorded_at server s).0
            w.session_docs in
        let w' : World redis tokens configs projects tenants sessions keys decimal verify =
          record w { session_docs = docs' } in
        credential_tenant redis tokens configs projects tenants sessions keys decimal verify api_key
            token now w'
          ≡ some project.tenant_id
        → (code : ℕ) × ((resolve_project redis tokens configs projects tenants sessions keys decimal
              verify api_key token origin now w').0
            ≡ err code)
  finish-resolve_project round2 sign project o ended_at recorded_at server s api_key token origin
        now w t quota found limited today reached cred =
      let docs' =
        persist sessions true (finish round2 sign true project o ended_at recorded_at server s).0
          w.session_docs in
      let w' : World redis tokens configs projects tenants sessions keys decimal verify = record w {
        session_docs = docs';
      } in
      let day_begun : leb (start_of_day now) s.started_at ≡ true = ground (arith, today) in
      let counted : get_daily_token_usage sessions project.tenant_id now docs'
          ≡ get_daily_token_usage sessions project.tenant_id now w.session_docs
            + (s.input_tokens + s.output_tokens) =
        (finish_counts sessions round2 sign project o ended_at recorded_at server s
            w.session_docs).0
          project.tenant_id now
        ∙ rw (eq_refl project.tenant_id) (rw day_begun refl) in
      elim (Result-cases
        (resolve_project redis tokens configs projects tenants sessions keys decimal verify api_key
          token origin now w').0) [
            | inl refused ↦ refused
            | inr ((config, kid, plan), resolved) ↦ absurd (
                spent_refused api_key token origin now w' t project.tenant_id quota found limited
                  (omega (arith, reached, counted)) cred config kid plan resolved)
          ]
