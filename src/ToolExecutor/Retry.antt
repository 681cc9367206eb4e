-- ===== src/ToolExecutor/Retry.antt =====
-- When `_execute_webhook` tries again, when it stops, and what it returns.
use native.Mathlib.Nat.{add-zero}
use native.Mathlib.Decide.{dec_lt}
use mathlib.Core.Path.{subst}
use factn_assistant_service.Base.{
  ℕ, zero, suc, ◌+◌, ◌*◌, min, ap, ◌≤◌, ◌<◌, ◌≡◌, refl, ◌∙◌, sym, ◌⊎◌, Bool, true, false, Option,
  none, some, List, arith, ltb, count_if, if◌then◌else◌,
}
use factn_assistant_service.ToolExecutor.Defs.{
  ToolDefinition, PostResult, response, timeout_exception, connect_error, unexpected, LastError,
  http_on_attempt, timeout_on_attempt, connection_on_attempt, no_attempts, Reply, error, not_json,
  permanent, raised, exhausted, Action, post, sleep, return, retry, unwrap_result, success,
  retryable_status, parse_retry_after, per_attempt, attempt_once, attempts, sleep_before_next,
  no_url, execute_webhook,
}

-- The outcomes that are worth another attempt: a timeout, a failed connection, or one of the statuses
-- 429, 500, 502, 503 and 504. Other statuses of 500 and above are not among them, nor are other network
-- failures, such as a connection that breaks while the answer is read (`unexpected`).
abbrev pub IsTransient : PostResult → Type 0
IsTransient (response s _ _) = (s ≡ 429) ⊎ (s ≡ 500) ⊎ (s ≡ 502) ⊎ (s ≡ 503) ⊎ (s ≡ 504)
IsTransient timeout_exception = Unit
IsTransient (connect_error _) = Unit
IsTransient (unexpected _) = ⊥

-- What the caller receives for an outcome that is not transient.
unfoldable pub final_reply : PostResult → Option Reply
final_reply (response s _ none) =
    some (if ltb s 400 then error (not_json s) else error (permanent s))
final_reply (response s _ (some body)) =
    some (if ltb s 400 then unwrap_result body else error (permanent s))
final_reply (unexpected exc) = some (error (raised exc))
final_reply timeout_exception = none
final_reply (connect_error exc) = none

abbrev pub last_error_of : ℕ → PostResult → LastError
last_error_of a (response s _ _) = http_on_attempt s a
last_error_of a timeout_exception = timeout_on_attempt a
last_error_of a (connect_error exc) = connection_on_attempt a exc
last_error_of a (unexpected exc) = no_attempts

abbrev is_post : Action → Bool
is_post (post _) = true
is_post (sleep _) = false

unfoldable pub posts : List Action → ℕ
posts actions = count_if is_post actions

final_reply-attempt_once :
    (tool : ToolDefinition) (a : ℕ) (o : PostResult)
    → ¬ IsTransient o
    → (r : Reply) × (final_reply o ≡ some r) × (attempt_once tool a o ≡ return r)
unfolding attempt_once success retryable_status final_reply
final_reply-attempt_once tool a (response s r none) h = (_, refl, ground arith)
final_reply-attempt_once tool a (response s r (some b)) h = (_, refl, ground arith)
final_reply-attempt_once tool a timeout_exception h = absurd (h tt)
final_reply-attempt_once tool a (connect_error e) h = absurd (h tt)
final_reply-attempt_once tool a (unexpected e) h = (_, refl, refl)

last_error_of-attempt_once :
    (tool : ToolDefinition) (a : ℕ) (o : PostResult)
    → IsTransient o
    → (d : ℕ) × (attempt_once tool a o ≡ retry (last_error_of a o) d)
unfolding attempt_once success retryable_status
last_error_of-attempt_once tool a (response s r b) h =
    (min (parse_retry_after r (per_attempt tool)) (3 * tool.timeout_ms), ground arith)
last_error_of-attempt_once tool a timeout_exception h = (_, refl)
last_error_of-attempt_once tool a (connect_error e) h = (_, refl)
last_error_of-attempt_once tool a (unexpected e) h = absurd h

posts-sleep_before_next :
    (a d : ℕ) (rest : List Action) → posts (sleep_before_next a d rest) ≡ posts rest
unfolding posts sleep_before_next
posts-sleep_before_next a d rest = ground arith

module _ (tool : ToolDefinition) (server : ℕ → PostResult) where
  attempts_transient :
      (left a : ℕ) (e : LastError)
      → IsTransient (server a)
      → let next = attempts tool server left (a + 1) (last_error_of a (server a)) in
        let run = attempts tool server (suc left) a e in
        (run.reply ≡ next.reply) × (posts run.actions ≡ suc (posts next.actions))
  unfolding attempts
  attempts_transient left a e h =
      let (d, p) = last_error_of-attempt_once tool a (server a) h in
      rw (p, attempts) (refl, unfold posts in ap suc (posts-sleep_before_next a d _))

  attempts_final :
      (left a : ℕ) (e : LastError)
      → ¬ IsTransient (server a)
      → let run = attempts tool server (suc left) a e in
        (final_reply (server a) ≡ some run.reply) × (posts run.actions ≡ 1)
  unfolding attempts posts
  attempts_final left a e h =
      let (r, q, p) = final_reply-attempt_once tool a (server a) h in rw (p, attempts) (q, refl)

  -- The attempts from `a` to before `n` are transient and that of `n` is not: it decides.
  attempts_stop :
      (left a n : ℕ) (e : LastError)
      → a ≤ n
      → n < a + left
      → ((j : ℕ) → a ≤ j → j < n → IsTransient (server j))
      → ¬ IsTransient (server n)
      → let run = attempts tool server left a e in
        (final_reply (server n) ≡ some run.reply) × (posts run.actions + a ≡ suc n)
  attempts_stop zero a n e le lt before stop = absurd (omega arith)
  attempts_stop (suc left) a n e le lt before stop = elim (dec_lt a n) [
    | yes more ↦
        let h = before a (omega arith) more in
        let step = attempts_transient left a e h in
        let ih =
          attempts_stop left (a + 1) n (last_error_of a (server a)) (omega arith) (omega arith)
            (λ j p q. before j (omega arith) q) stop in
        (ih.0 ∙ ap some (sym step.0), omega (arith, step.1, ih.1))
    | no last ↦
        let here : a ≡ n = omega arith in
        let final =
          attempts_final left a e (subst (λ m. ¬ IsTransient (server m)) (sym here) stop) in
        (rw (← here) final.0, omega (arith, final.1))
  ]

  -- Every attempt from `a` on is transient: the last one gives the error.
  attempts_exhausted :
      (left a : ℕ) (e : LastError)
      → ((j : ℕ) → a ≤ j → j ≤ a + left → IsTransient (server j))
      → let run = attempts tool server (suc left) a e in
        (run.reply ≡ error (exhausted (last_error_of (a + left) (server (a + left)))))
        × (posts run.actions ≡ suc left)
  attempts_exhausted zero a e all =
      let step = attempts_transient 0 a e (all a (omega arith) (omega arith)) in
      rw add-zero (step.0 ∙ (unfold attempts in refl), step.1 ∙ (unfold attempts posts in refl))
  attempts_exhausted (suc left) a e all =
      let step = attempts_transient (suc left) a e (all a (omega arith) (omega arith)) in
      let ih =
        attempts_exhausted left (a + 1) (last_error_of a (server a))
          (λ j p q. all j (omega arith) (omega arith)) in
      let last : a + 1 + left ≡ a + suc left = omega arith in
      (step.0 ∙ rw last at ih.0, omega (arith, step.1, ih.1))

  module _ (has_url : no_url tool.webhook_url ≡ false) where
    -- With a webhook URL: where attempt `n`, of the three, is the first that is neither a timeout nor a
    -- failed connection nor one of the statuses 429, 500, 502, 503 and 504, the call posts exactly `n`
    -- times and returns the reply of that attempt. A status 501 or a connection that breaks while the
    -- answer is read therefore ends the call at once.
    pub execute_webhook_stops :
        (n : ℕ)
        → 1 ≤ n
        → n ≤ 3
        → ((j : ℕ) → 1 ≤ j → j < n → IsTransient (server j))
        → ¬ IsTransient (server n)
        → let run = execute_webhook tool server in
          (final_reply (server n) ≡ some run.reply) × (posts run.actions ≡ n)
    unfolding execute_webhook
    execute_webhook_stops n lo hi before stop =
        let found = attempts_stop 3 1 n no_attempts lo (omega arith) before stop in
        rw (has_url, execute_webhook) (found.0, omega (arith, found.1))

    -- With a webhook URL: where all three attempts are transient, the call posts three times and
    -- returns an error that names what went wrong with the third.
    pub execute_webhook_exhausted :
        ((j : ℕ) → 1 ≤ j → j ≤ 3 → IsTransient (server j))
        → let run = execute_webhook tool server in
          (run.reply ≡ error (exhausted (last_error_of 3 (server 3)))) × (posts run.actions ≡ 3)
    unfolding execute_webhook
    execute_webhook_exhausted all =
        rw (has_url, execute_webhook) (attempts_exhausted 2 1 no_attempts all)
