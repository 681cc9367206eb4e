-- ===== src/SessionRecords/Accounting.antt =====
-- The record that core/gemini_runner.py leaves of a session in repositories/session_repo.py, as the sums
-- of the analytics and the daily quota of the handshake see it.
use factn_assistant_service.Projects.{start_of_day, is_today_of, get_daily_token_usage, sum_tokens}
use factn_assistant_service.Base.{
  leb, ◌&&◌, str_eq, inr, sym, inl, ◌∙◌, Bool-cases, suc, refl, ap, [], ◌∷◌, some, false, arith,
  ◌+◌, ◌++◌, true, ◌≡◌, keep_if, if◌then◌else◌, ℕ, String, List, Bool,
}
use factn_assistant_service.SessionEvents.{Answer}
use factn_assistant_service.GeminiRunner.Loop.{Outcome, session_record, finish}
use factn_assistant_service.SessionRecords.{
  count_error, is_since, usage_summary, close_session, persist, Summary, sum_sessions, add_session,
}
use factn_assistant_service.Schemas.{ProjectConfig, SessionDoc}
use factn_assistant_service.Services.{Collection}
use factn_assistant_service.SessionState.{SessionState}
use factn_assistant_service.SessionEvents as Events

-- The tokens of a document, where the test accepts it
abbrev pub tokens_if : Bool → SessionDoc → ℕ
tokens_if p d = if p then d.input_tokens + d.output_tokens else 0

sum_tokens-last :
    (p : SessionDoc → Bool) (ds : List SessionDoc) (d : SessionDoc)
    → sum_tokens (keep_if p (ds ++ d ∷ [])) ≡ sum_tokens (keep_if p ds) + tokens_if (p d) d
unfolding sum_tokens
sum_tokens-last p [] d = ground arith
sum_tokens-last p (x ∷ ds) d = ground (arith, sum_tokens-last p ds d)

add_session_comm :
    (d x : SessionDoc) (t : Summary)
    → add_session x (add_session d t) ≡ add_session d (add_session x t)
unfolding add_session
add_session_comm d x t = λ i. record {
  total_sessions = suc (suc t.total_sessions);
  total_turns = swap x.turns d.turns t.total_turns i;
  total_tool_calls = swap x.tool_calls d.tool_calls t.total_tool_calls i;
  total_duration = swap x.duration d.duration t.total_duration i;
  total_input_tokens = swap x.input_tokens d.input_tokens t.total_input_tokens i;
  total_output_tokens = swap x.output_tokens d.output_tokens t.total_output_tokens i;
  error_count = swap (count_error x.status) (count_error d.status) t.error_count i;
}
  where
    swap : (a b c : ℕ) → a + (b + c) ≡ b + (a + c)
    swap a b c = omega arith

-- The sums with a document, where the test accepts it
abbrev pub add_if : Bool → SessionDoc → Summary → Summary
add_if p d t = if p then add_session d t else t

add_if_comm :
    (b : Bool) (d x : SessionDoc) (t : Summary)
    → add_session x (add_if b d t) ≡ add_if b d (add_session x t)
add_if_comm true d x t = add_session_comm d x t
add_if_comm false d x t = refl

sum_sessions-last :
    (p : SessionDoc → Bool) (ds : List SessionDoc) (d : SessionDoc)
    → sum_sessions (keep_if p (ds ++ d ∷ [])) ≡ add_if (p d) d (sum_sessions (keep_if p ds))
unfolding sum_sessions
sum_sessions-last p [] d = elim (Bool-cases (p d)) [
  | inl kept ↦ rw kept refl
  | inr dropped ↦ rw dropped refl
]
sum_sessions-last p (x ∷ ds) d = elim (Bool-cases (p x)) [
  | inl kept ↦ rw kept (
      ap (add_session x) (sum_sessions-last p ds d)
      ∙ add_if_comm (p d) d x (sum_sessions (keep_if p ds)))
  | inr dropped ↦ rw dropped (sum_sessions-last p ds d)
]

module _ (sessions : Collection SessionDoc) where
  pub persist-tokens :
      (tenant_id : String) (now : ℕ) (d : SessionDoc) (s : sessions.State)
      → get_daily_token_usage sessions tenant_id now (persist sessions true (some d) s)
        ≡ get_daily_token_usage sessions tenant_id now s + tokens_if (is_today_of tenant_id now d) d
  unfolding persist close_session get_daily_token_usage
  persist-tokens tenant_id now d s =
      let p = is_today_of tenant_id now in
      ap sum_tokens (
        sessions.find_lem p (sessions.insert_one d s)
        ∙ ap (keep_if p) (sessions.docs-insert_one d s))
      ∙ sum_tokens-last p (sessions.docs s) d
      ∙ ap (λ ds. sum_tokens ds + tokens_if (p d) d) (sym (sessions.find_lem p s))

  persist-summary :
      (project_id : String) (since : ℕ) (d : SessionDoc) (s : sessions.State)
      → usage_summary sessions project_id since (persist sessions true (some d) s)
        ≡ add_if (is_since project_id since d) d (usage_summary sessions project_id since s)
  unfolding persist close_session usage_summary
  persist-summary project_id since d s =
      let p = is_since project_id since in
      ap sum_sessions (
        sessions.find_lem p (sessions.insert_one d s)
        ∙ ap (keep_if p) (sessions.docs-insert_one d s))
      ∙ sum_sessions-last p (sessions.docs s) d
      ∙ ap (λ ds. add_if (p d) d (sum_sessions ds)) (sym (sessions.find_lem p s))

  module _ (round2 : ℕ → ℕ) (sign : Events.Payload → String → String) where
    -- What a runner with a repository has written when it ends, where the insertion does not fail: the
    -- tokens that any tenant has used on a day grow by the session's own where it is of that tenant and
    -- began on that day or later, and the sums over any project grow by the session where it is of that
    -- project and began no earlier than they do. Nothing else changes in either.
    pub finish_counts :
        (project : ProjectConfig) (o : Outcome) (ended_at recorded_at : ℕ) (server : ℕ → Answer)
        (s : SessionState) (docs : sessions.State)
        → let docs' =
            persist sessions true
              (finish round2 sign true project o ended_at recorded_at server s).0
              docs in
          ((tenant_id : String) (now : ℕ)
            → get_daily_token_usage sessions tenant_id now docs'
              ≡ get_daily_token_usage sessions tenant_id now docs
                + (if str_eq project.tenant_id tenant_id && leb (start_of_day now) s.started_at
                    then s.input_tokens + s.output_tokens
                    else 0))
          × ((project_id : String) (since : ℕ)
              → usage_summary sessions project_id since docs' ≡ (
                  if str_eq project.project_id project_id && leb since s.started_at
                  then add_session
                      (session_record round2 project o recorded_at s)
                      (usage_summary sessions project_id since docs)
                  else usage_summary sessions project_id since docs))
    unfolding finish session_record is_today_of is_since
    finish_counts project o ended_at recorded_at server s docs =
        let d = session_record round2 project o recorded_at s in
        (
          (λ tenant_id now. persist-tokens tenant_id now d docs),
          (λ project_id since. persist-summary project_id since d docs),
        )
