-- ===== src/Usage.antt =====
-- Credit accounting (src/usage/usage.service.ts): the records and enums it keeps, the planner that
-- decides which grants pay for a run, the ledger's operations, and the day series of the charts.
pub mod Types
pub mod Planner
pub mod Pricing
pub mod Ledger
pub mod Balance
pub mod Days
