-- ===== src/ToolExecutor.antt =====
-- core/tool_executor.py: a tool call is answered from the stored response or by the customer's
-- webhook, with retries. Times are counted in ticks of 1/6000 second, in which every duration
-- that the code computes from `timeout_ms` is whole.
pub mod Defs
pub mod Retry
pub mod Budget
