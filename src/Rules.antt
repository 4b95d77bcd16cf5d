-- ===== src/Rules.antt =====
-- The ad rules (src/rules/rules.service.ts): rules that watch the metrics of an ad account and alert,
-- pause or scale within guardrails, and the log of what they did.
pub mod Types
pub mod Metrics
pub mod Platform
pub mod Engine
pub mod Crud
pub mod History
