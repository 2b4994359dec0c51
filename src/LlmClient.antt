-- ===== src/LlmClient.antt =====
-- packages/llm-client/llm_client: the calls of language models, their budget and their telemetry.
pub mod Matrix
pub mod CostMeter
pub mod Router
pub mod RateLimiter
