-- ===== src/Tests/Data.antt =====
-- The ledger and the subscription that the tests run on.
use gomer.Base.{ℕ, false, Option, none, some, [], ◌∷◌}
use gomer.Usage.Types.{CreditBucket, CreditGrantReason, CreditGrant, CreditAllocation, Ledger}
use gomer.Usage.Pricing.{GatewayConfig, blank}
use gomer.Usage.Ledger.{RecordUsageInput, GrantCreditsInput}
use gomer.Usage.Days.{DateRange}
use gomer.Billing.Subscriptions.{Subscription, active, Db}

abbrev pub grant : ℕ → ℕ → CreditBucket → ℕ → Option ℕ → CreditGrant
grant id w bucket credits expires_at = record {
  id = id;
  workspace_id = w;
  user_id = none;
  reason = CreditGrantReason.manual;
  bucket = bucket;
  credits = credits;
  expires_at = expires_at;
  amount_cents = none;
  currency = none;
  stripe_session_id = none;
  stripe_invoice_id = none;
  created_at = id;
}

abbrev pub allocation : ℕ → ℕ → ℕ → CreditAllocation
allocation id grant_id credits = record {
  id = id;
  credit_event_id = 0;
  grant_id = grant_id;
  bucket = CreditBucket.plan;
  credits = credits;
}

-- Workspace 7 has a reward, a plan allowance that was drawn on twice, and an expired one; workspace
-- 8 has a top-up.
abbrev pub ledger : Ledger
ledger = record {
  grants =
      grant 1 7 CreditBucket.reward 50 none
      ∷ grant 2 7 CreditBucket.plan 100 (some 2_000)
      ∷ grant 3 7 CreditBucket.plan 30 (some 500)
      ∷ grant 4 8 CreditBucket.topup 40 none
      ∷ [];
  allocations = allocation 5 2 10 ∷ allocation 6 2 20 ∷ [];
  events = [];
  next_id = 10;
  now = 1_000;
}

abbrev pub run : RecordUsageInput
run = record {
  workspace_id = 7;
  user_id = some 3;
  task_id = none;
  model = "claude-opus-4-8";
  input_tokens = 20_000;
  output_tokens = 4_500;
  cache_write_tokens = some 1_000;
  cache_read_tokens = some 9_000;
  source_name = "thread";
  type = none;
  provider_cost_usd = none;
  resolved_model = none;
}

abbrev pub config : GatewayConfig
config = blank

abbrev pub top_up : GrantCreditsInput
top_up = record {
  workspace_id = 8;
  user_id = some 3;
  reason = CreditGrantReason.topup;
  credits = 10_000;
  bucket = none;
  expires_at = none;
  amount_cents = some 2_500;
  currency = some "usd";
  stripe_session_id = some "cs_1";
  stripe_invoice_id = none;
}

abbrev pub window : DateRange
window = record { from = 0; to = 200_000_000 }

abbrev pub subscription : Subscription
subscription = record {
  id = 9;
  workspace_id = 7;
  plan_id = "starter";
  status = active;
  stripe_subscription_id = "sub_1";
  stripe_customer_id = "cus_1";
  current_period_start = 0;
  current_period_end = 2_000;
  seats = 0;
  cancel_at_period_end = false;
}

abbrev pub db : Db
db = record { ledger = ledger; subscriptions = subscription ∷ []; active_seats = λ w. 6 }
