-- ===== src/Tests.antt =====
-- Runs of the model on small inputs, and the theorems at those inputs.
mod Data
mod Usage
mod Billing
mod Webhook
mod Rules
mod Tasks
mod Spaces
mod Specs
mod Sessions
mod People
