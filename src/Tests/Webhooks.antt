-- ===== src/Tests/Webhooks.antt =====
-- Tool webhooks and session webhooks on servers that fail in the ways the code tells apart.
use factn_assistant_service.Base.{
  inr, inl, zero, max, arith, ◌+◌, none, suc, ◌*◌, some, false, ◌≤◌, ◌≡◌, ◌<◌, ℕ, refl,
}
use factn_assistant_service.ToolExecutor.Retry.{
  IsTransient, execute_webhook_stops, posts, final_reply,
}
use factn_assistant_service.ToolExecutor.Defs.{
  value, second, unwrap_result, absent, success, response, webhook, retryable_status, per_attempt,
  timeout_exception, attempt_once, attempts, PostResult, total_budget, no_url, execute_webhook,
  ToolDefinition,
}
use factn_assistant_service.ToolExecutor.Budget.{
  execute_webhook_bound, execute_webhook_overruns, span,
}
use factn_assistant_service.Json.{get, get_default, num, field, end, obj, Json}

abbrev tool : ToolDefinition
tool = record {
  name = "stock";
  description = "Looks up stock.";
  parameters = obj end;
  execution_mode = webhook;
  static_response = none;
  webhook_url = some "https://shop.example/stock";
  webhook_secret = none;
  timeout_ms = 9_000;
}

abbrev in_stock : Json
in_stock = obj (field "result" (num 7) end)

-- Unavailable once, then well.
abbrev recovering : ℕ → PostResult
recovering zero = timeout_exception
recovering (suc zero) = response 503 absent none
recovering (suc (suc n)) = response 200 absent (some in_stock)

abbrev silent : ℕ → PostResult
silent n = timeout_exception

abbrev has_url : no_url tool.webhook_url ≡ false
unfolding no_url
has_url = refl

unavailable_first : (j : ℕ) → 1 ≤ j → j < 2 → IsTransient (recovering j)
unavailable_first zero lo hi = absurd (omega arith)
unavailable_first (suc zero) lo hi = inr (inr (inr (inl refl)))
unavailable_first (suc (suc j)) lo hi = absurd (omega arith)

well_second : ¬ IsTransient (recovering 2)
well_second (inl e) = absurd (omega arith)
well_second (inr (inl e)) = absurd (omega arith)
well_second (inr (inr (inl e))) = absurd (omega arith)
well_second (inr (inr (inr (inl e)))) = absurd (omega arith)
well_second (inr (inr (inr (inr e)))) = absurd (omega arith)

execute_webhook_stops_example :
    let run = execute_webhook tool recovering in
    (final_reply (recovering 2) ≡ some run.reply) × (posts run.actions ≡ 2)
execute_webhook_stops_example =
    execute_webhook_stops tool recovering has_url 2 (omega arith) (omega arith) unavailable_first
      well_second

execute_webhook_bound_example :
    span (execute_webhook tool recovering).actions
    ≤ 3 * per_attempt tool + 2 * max (2 * second) (3 * tool.timeout_ms)
execute_webhook_bound_example = execute_webhook_bound tool recovering has_url

execute_webhook_overruns_example : total_budget tool < span (execute_webhook tool silent).actions
execute_webhook_overruns_example = execute_webhook_overruns tool silent has_url (λ _. refl)

reply_of_result : (execute_webhook tool recovering).reply ≡ value (num 7)
unfolding execute_webhook no_url attempts attempt_once retryable_status success unwrap_result
    get_default get
reply_of_result = refl
