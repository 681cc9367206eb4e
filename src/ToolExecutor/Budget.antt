-- ===== src/ToolExecutor/Budget.antt =====
-- The time that a webhook call allows itself, against `timeout_ms`, which is to bound all attempts
-- together. The client applies the timeout of a post to each of its network operations (connect,
-- write, each read), so the post itself may last longer than that.
use factn_assistant_service.Base.{
  ℕ, zero, suc, ◌+◌, ◌*◌, ◌≤◌, ◌<◌, max, ◌≡◌, refl, false, ◌⊎◌, ◌-◌, Option, none, some, inl, inr,
  ltb, Bool-cases, if◌then◌else◌, List, [], ◌∷◌, arith,
}
use factn_assistant_service.Json.{Json}
use factn_assistant_service.ToolExecutor.Defs.{
  ToolDefinition, PostResult, Reply, response, timeout_exception, connect_error, unexpected,
  LastError, Action, post, sleep, per_attempt, total_budget, backoff_delay, success,
  retryable_status, second, attempt_once, sleep_before_next, attempts, no_url, execute_webhook,
  no_attempts, Pass, return, retry,
}

-- The sum of the timeouts that the posts are given and of the sleeps.
unfoldable pub span : List Action → ℕ
span [] = 0
span (post t ∷ rest) = t + span rest
span (sleep d ∷ rest) = d + span rest

-- The longest sleep before another attempt.
abbrev longest_sleep : ToolDefinition → ℕ
longest_sleep tool = max (2 * second) (3 * tool.timeout_ms)

-- The pass of an attempt asks for no longer sleep than `d`.
abbrev SleepsAtMost : ℕ → Pass → Type 0
SleepsAtMost d (return _) = Unit
SleepsAtMost d (retry _ delay) = delay ≤ d

backoff_delay-le : (tool : ToolDefinition) (a : ℕ) → a < 3 → backoff_delay a ≤ longest_sleep tool
unfolding backoff_delay
backoff_delay-le tool zero h = omega arith
backoff_delay-le tool (suc zero) h = omega arith
backoff_delay-le tool (suc (suc zero)) h = omega arith
backoff_delay-le tool (suc (suc (suc a))) h = absurd (omega arith)

success_sleeps : (d s : ℕ) (b : Option Json) → SleepsAtMost d (success s b)
unfolding success
success_sleeps d s none = tt
success_sleeps d s (some b) = tt

attempt_once_sleeps :
    (tool : ToolDefinition) (a : ℕ) (o : PostResult)
    → a < 3
    → SleepsAtMost (longest_sleep tool) (attempt_once tool a o)
unfolding attempt_once
attempt_once_sleeps tool a (response s r b) h = elim (Bool-cases (ltb s 400)) [
  | inl fine ↦ rw fine (success_sleeps (longest_sleep tool) s b)
  | inr failed ↦ elim (Bool-cases (retryable_status s)) [
    | inl again ↦ rw (failed, again) (omega arith)
    | inr final ↦ rw (failed, final) tt
  ]
]
attempt_once_sleeps tool a timeout_exception h = backoff_delay-le tool a h
attempt_once_sleeps tool a (connect_error e) h = backoff_delay-le tool a h
attempt_once_sleeps tool a (unexpected e) h = tt

span-sleep_before_next :
    (a d m : ℕ) (rest : List Action)
    → (a < 3 → d ≤ m)
    → span (sleep_before_next a d rest) ≤ (if ltb a 3 then m else 0) + span rest
unfolding span sleep_before_next
span-sleep_before_next a d m rest h = ground (arith, h)

Pass-cases :
    (p : Pass) → ((r : Reply) × (p ≡ return r)) ⊎ ((e : LastError) × (d : ℕ) × (p ≡ retry e d))
Pass-cases (return r) = inl (r, refl)
Pass-cases (retry e d) = inr (e, d, refl)

-- One attempt more, after which the sleep is taken only while fewer than three are made.
total :
    (left a p m : ℕ) {rest slept : ℕ}
    → suc left + a ≡ 4
    → rest ≤ left * p + (left - 1) * m
    → slept ≤ (if ltb a 3 then m else 0) + rest
    → p + slept ≤ suc left * p + (suc left - 1) * m
total zero a p m sum r s = ground arith
total (suc left) a p m sum r s =
    let pred_suc : suc left - 1 ≡ left = omega arith in
    let pred_suc_suc : suc (suc left) - 1 ≡ suc left = omega arith in
    let r' = rw pred_suc at r in rw pred_suc_suc (grind arith)

module _ (tool : ToolDefinition) (server : ℕ → PostResult) where
  span-attempts :
      (left a : ℕ) (e : LastError)
      → left + a ≡ 4
      → 1 ≤ a
      → span (attempts tool server left a e).actions
        ≤ left * per_attempt tool + (left - 1) * longest_sleep tool
  unfolding attempts span
  span-attempts zero a e sum pos = omega arith
  span-attempts (suc left) a e sum pos = elim (Pass-cases (attempt_once tool a (server a))) [
    | inl (r, p) ↦ rw (p, attempts) (ground arith)
    | inr (e', d, p) ↦
        let ih = span-attempts left (a + 1) e' (omega arith) (omega arith) in
        let slept =
          span-sleep_before_next a d (longest_sleep tool)
            (attempts tool server left (a + 1) e').actions
            (λ lt. rw p at (attempt_once_sleeps tool a (server a) lt)) in
        rw (p, attempts) (total left a (per_attempt tool) (longest_sleep tool) sum ih slept)
  ]

module _ (tool : ToolDefinition) (server : ℕ → PostResult)
    (has_url : no_url tool.webhook_url ≡ false) where
  -- With a webhook URL, whatever the server answers: the timeouts that the posts are given and the
  -- sleeps add up to at most three attempts' timeouts and two sleeps, each of at most two seconds or
  -- half the budget, whichever is more.
  pub execute_webhook_bound :
      span (execute_webhook tool server).actions
      ≤ 3 * per_attempt tool + 2 * max (2 * second) (3 * tool.timeout_ms)
  unfolding execute_webhook
  execute_webhook_bound =
      rw (has_url, execute_webhook)
        (span-attempts tool server 3 1 no_attempts (omega arith) (omega arith))

  -- With a webhook URL and a server whose every attempt times out: the timeouts that the posts are
  -- given, each of which is used up, and the sleeps add up to more than the budget, whatever the
  -- budget is.
  pub execute_webhook_overruns :
      ((attempt : ℕ) → server attempt ≡ timeout_exception)
      → total_budget tool < span (execute_webhook tool server).actions
  unfolding execute_webhook attempts attempt_once sleep_before_next span total_budget per_attempt
      backoff_delay
  execute_webhook_overruns times_out =
      ground (arith, has_url, times_out 1, times_out 2, times_out 3)
