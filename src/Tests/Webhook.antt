-- ===== src/Tests/Webhook.antt =====
-- Tests and witnesses for Stripe's events.
use gomer.Base.{◌+◌, ◌≡◌, refl, false, none, some, [], ◌∷◌, arith}
use gomer.Base.Int.{pos}
use gomer.Usage.Ledger.Invariant.{IsSound}
use gomer.Usage.Ledger.{has_grant_for_stripe_session}
use gomer.Usage.Balance.{get_balance}
use gomer.Billing.Subscriptions.{
  StripeSubscriptionShape, find_by_stripe_id, Db, past_due, sync_from_stripe, synced,
}
use gomer.Billing.Subscriptions.Mirror.{Mirrors}
use gomer.Billing.Subscriptions.Laws.{sync_from_stripe-Mirrors}
use gomer.Billing.Webhook.{
  StripeCheckoutSession, StripeInvoiceShape, StripeEvent, text, absent, received, unavailable,
  failed, on_checkout_completed, on_invoice_paid, on_subscription_changed, renew, handle_event,
  purchase_of,
}
use gomer.Billing.Webhook.Once.{on_checkout_completed-again}
use gomer.Billing.Webhook.Invoices.{on_invoice_paid-again}
use gomer.Billing.Webhook.Paths.{
  on_checkout_completed-balance, on_subscription_changed-resubscribed,
}
use gomer.Tests.Data.{subscription, db}

abbrev session : StripeCheckoutSession
session = record {
  id = some "cs_9";
  mode = some "payment";
  payment_status = some "paid";
  amount_total = some 2_500;
  currency = some "usd";
  metadata_workspace_id = some 8;
  metadata_user_id = none;
  credits = some (pos 10_000);
}

abbrev invoice : StripeInvoiceShape
invoice = record {
  id = some "in_1";
  subscription = absent;
  parent_subscription = text "sub_1";
  billing_reason = some "subscription_cycle";
  period_ends = some 5 ∷ [];
}

-- Workspace 7 subscribes again under another id.
abbrev anew : StripeSubscriptionShape
anew = record {
  id = "sub_2";
  customer = "cus_1";
  status = "active";
  period = record { current_period_start = some 10; current_period_end = some 20 };
  items = [];
  cancel_at_period_end = false;
  metadata_workspace_id = some 7;
  metadata_plan_id = some "starter";
}

abbrev checkout : StripeEvent
checkout = record {
  type = some "checkout.session.completed";
  session = some session;
  invoice = none;
  subscription = none;
}

ledger-IsSound_here : IsSound db.ledger
ledger-IsSound_here = record {
  distinct = λ i. ground arith;
  fresh = omega arith;
  known = omega arith;
  within = omega arith;
}

checkout_runs : (get_balance (handle_event checkout db).1.ledger 8).balance ≡ 10_040
unfolding handle_event get_balance
checkout_runs = refl

on_checkout_completed-again_example :
    let after = (on_checkout_completed (some session) db).1 in
    on_checkout_completed (some session) after ≡ (received, after)
on_checkout_completed-again_example = on_checkout_completed-again (some session) db

on_invoice_paid-again_example :
    let after = (on_invoice_paid (some invoice) db).1 in
    (on_invoice_paid (some invoice) after).1 ≡ after
on_invoice_paid-again_example = on_invoice_paid-again (some invoice) db

session_buys : purchase_of session ≡ some ("cs_9", 8, 10_000)
unfolding purchase_of
session_buys = refl

session_new : has_grant_for_stripe_session "cs_9" db.ledger ≡ false
unfolding has_grant_for_stripe_session
session_new = refl

on_checkout_completed-balance_example :
    let (reply, after) = on_checkout_completed (some session) db in
    (reply ≡ received)
    × ((get_balance after.ledger 8).balance ≡ (get_balance db.ledger 8).balance + 10_000)
on_checkout_completed-balance_example =
    on_checkout_completed-balance session "cs_9" 8 10_000 db ledger-IsSound_here refl session_buys
      refl session_new

anew_unknown : find_by_stripe_id "sub_2" db ≡ none
unfolding find_by_stripe_id
anew_unknown = refl

on_subscription_changed-resubscribed_example :
    (on_subscription_changed (some anew) db ≡ (failed, db))
    × (renew "in_2" invoice "sub_2" db ≡ (unavailable, db))
on_subscription_changed-resubscribed_example =
    on_subscription_changed-resubscribed 7 "starter" "in_2" anew invoice db refl refl refl
      anew_unknown refl

-- The subscription of workspace 7 is late with a payment.
abbrev late : StripeSubscriptionShape
late = record anew { id = "sub_1"; status = "past_due" }

abbrev db_late : Db
db_late = record db {
  subscriptions =
      record subscription {
        status = past_due;
        current_period_start = 10_000;
        current_period_end = 20_000;
      }
      ∷ [];
}

sync_runs : sync_from_stripe 7 "starter" late db ≡ synced db_late
unfolding sync_from_stripe
sync_runs = refl

sync_from_stripe-Mirrors_example : Mirrors 7 "starter" late db db_late
sync_from_stripe-Mirrors_example = sync_from_stripe-Mirrors 7 "starter" late db db_late sync_runs
