-- ===== src/Billing.antt =====
-- Billing (src/billing): the plans and packs, the subscriptions with their renewals, and the webhook
-- that turns Stripe's events into grants.
pub mod Plans
pub mod Subscriptions
pub mod Renewal
pub mod Webhook
