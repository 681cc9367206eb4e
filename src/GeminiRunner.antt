-- ===== src/GeminiRunner.antt =====
-- core/gemini_runner.py: the task that drives one Gemini session. The Gemini service is the
-- environment: what it sends, and how each call of it ends, comes in as responses and events.
pub mod Defs
pub mod Loop
pub mod Config
pub mod Declared
pub mod Counters
pub mod Progress
pub mod Closing
pub mod Finish
