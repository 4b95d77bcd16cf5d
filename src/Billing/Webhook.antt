-- ===== src/Billing/Webhook.antt =====
-- `BillingService.handleWebhook` (src/billing/billing.service.ts) after its signature is verified: what
-- each of Stripe's events does to the tables.
pub mod Once
pub mod Invoices
pub mod Paths
use mathlib.Core.Option
use gomer.Base.{
  ℕ, ◌*◌, Bool, true, false, not, ◌&&◌, ◌||◌, any, Option, none, some, List, [], ◌∷◌, if◌then◌else◌,
  or_else, ◌==◌,
}
use gomer.Base.Int.{ℤ, pos, negsuc}
use gomer.Base.Text.{String, str_eq, truthy}
use gomer.Usage.Types.{CreditGrantReason, Ledger}
use gomer.Usage.Ledger.{GrantCreditsInput, grant_credits, has_grant_for_stripe_session}
use gomer.Billing.Subscriptions.{
  Subscription, Db, StripeSubscriptionShape, canceled, find_by_stripe_id, mark_status,
  sync_from_stripe, SyncResult, synced, no_period, unique_violation,
}
use gomer.Billing.Renewal.{apply_renewal}

-- `{ received: true }`, a 503 that asks Stripe to retry, or an exception that becomes a 500.
pub data Reply : Type 0 where
  received unavailable failed : Reply

-- An empty id is none. `credits` is `Number(metadata.credits ?? 0)`, none if that is not finite.
pub record StripeCheckoutSession : Type 0 where
  pub id : Option String
  pub mode : Option String
  pub payment_status : Option String
  pub amount_total : Option ℕ
  pub currency : Option String
  pub metadata_workspace_id : Option ℕ
  pub metadata_user_id : Option ℕ
  pub credits : Option ℤ

-- A reference that Stripe sends as an id or as an expanded object.
pub data StripeRef : Type 0 where
  text : String → StripeRef
  expanded : Option String → StripeRef
  absent : StripeRef

-- `period_ends` holds `lines.data`, of which only the ends of the periods are read.
pub record StripeInvoiceShape : Type 0 where
  pub id : Option String
  pub subscription : StripeRef
  pub parent_subscription : StripeRef
  pub billing_reason : Option String
  pub period_ends : List (Option ℕ)

abbrev pub ref_id : StripeRef → Option String
ref_id (text s) = truthy (some s)
ref_id (expanded id) = truthy id
ref_id absent = none

unfoldable pub subscription_id_from_invoice : StripeInvoiceShape → Option String
subscription_id_from_invoice invoice = elim (ref_id invoice.subscription) [
  | some id ↦ some id
  | none ↦ ref_id invoice.parent_subscription
]

abbrev pub renewal_reasons : List String
renewal_reasons = "subscription_create" ∷ "subscription_cycle" ∷ []

abbrev pub text_is : Option String → String → Bool
text_is none s = false
text_is (some t) s = str_eq t s

-- `text && text !== s`
abbrev pub is_other : Option String → String → Bool
is_other t s = elim (truthy t) [ none ↦ false | some u ↦ not (str_eq u s) ]

-- What a session buys: the session's id, the workspace and a positive number of credits.
unfoldable pub purchase_of : StripeCheckoutSession → Option (String × ℕ × ℕ)
purchase_of s = elim (truthy s.id) [
  | none ↦ none
  | some id ↦ elim s.metadata_workspace_id [
    | none ↦ none
    | some w ↦ elim s.credits [
      | none ↦ none
      | some (negsuc n) ↦ none
      | some (pos n) ↦ if n == 0 then none else some (id, w, n)
    ]
  ]
]

abbrev pub topup_input : StripeCheckoutSession → String → ℕ → ℕ → GrantCreditsInput
topup_input s id w credits = record {
  workspace_id = w;
  user_id = s.metadata_user_id;
  reason = CreditGrantReason.topup;
  credits = credits;
  bucket = none;
  expires_at = none;
  amount_cents = s.amount_total;
  currency = s.currency;
  stripe_session_id = some id;
  stripe_invoice_id = none;
}

-- The insert with its `catch`: a unique violation is acknowledged.
unfoldable pub grant_topup : GrantCreditsInput → Db → Db
unfolding grant_credits
grant_topup input db = elim (grant_credits input db.ledger) [
  | none ↦ db
  | some (g, l) ↦ record db { ledger = l }
]

unfoldable pub on_checkout_completed : Option StripeCheckoutSession → Db → Reply × Db
unfolding grant_topup has_grant_for_stripe_session purchase_of
on_checkout_completed none db = (received, db)
on_checkout_completed (some s) db =
    if text_is s.mode "subscription" then (received, db) else elim (purchase_of s) [
      | none ↦ (received, db)
      | some (id, w, credits) ↦
          if is_other s.payment_status "paid" || has_grant_for_stripe_session id db.ledger
          then (received, db)
          else (received, grant_topup (topup_input s id w credits) db)
    ]

abbrev pub first_end : List (Option ℕ) → Option ℕ
first_end [] = none
first_end (none ∷ _) = none
first_end (some t ∷ _) = if t == 0 then none else some t

-- `periodEnd ? new Date(periodEnd * 1000) : subscription.currentPeriodEnd`
abbrev pub period_end_of : StripeInvoiceShape → Subscription → ℕ
period_end_of invoice s =
    or_else (Option.map (λ t. t * 1000) (first_end invoice.period_ends)) s.current_period_end

abbrev pub is_renewal : Option String → Bool
is_renewal reason = elim (truthy reason) [ none ↦ true | some r ↦ any (str_eq r) renewal_reasons ]

-- A paid invoice of a subscription with that Stripe id.
unfoldable pub renew : String → StripeInvoiceShape → String → Db → Reply × Db
unfolding find_by_stripe_id apply_renewal
renew invoice_id invoice stripe_id db = elim (find_by_stripe_id stripe_id db) [
  | none ↦ (unavailable, db)
  | some s ↦ (received, (apply_renewal s invoice_id (period_end_of invoice s) db).1)
]

unfoldable pub on_invoice_paid : Option StripeInvoiceShape → Db → Reply × Db
unfolding subscription_id_from_invoice renew
on_invoice_paid none db = (received, db)
on_invoice_paid (some invoice) db = elim (truthy invoice.id) [
  | none ↦ (received, db)
  | some id ↦
      if not (is_renewal invoice.billing_reason)
      then (received, db)
      else elim (subscription_id_from_invoice invoice) [
        | none ↦ (received, db)
        | some stripe_id ↦ renew id invoice stripe_id db
      ]
]

abbrev pub after_sync : Db → SyncResult → Reply × Db
after_sync db (synced db') = (received, db')
after_sync db no_period = (failed, db)
after_sync db unique_violation = (failed, db)

unfoldable pub on_subscription_changed : Option StripeSubscriptionShape → Db → Reply × Db
unfolding sync_from_stripe
on_subscription_changed none db = (received, db)
on_subscription_changed (some stripe) db = elim (truthy (some stripe.id)) [
  | none ↦ (received, db)
  | some id ↦ elim stripe.metadata_workspace_id [
    | none ↦ (received, db)
    | some w ↦ elim (truthy stripe.metadata_plan_id) [
      | none ↦ (received, db)
      | some plan_id ↦ after_sync db (sync_from_stripe w plan_id stripe db)
    ]
  ]
]

unfoldable pub on_subscription_deleted : Option StripeSubscriptionShape → Db → Reply × Db
unfolding mark_status
on_subscription_deleted none db = (received, db)
on_subscription_deleted (some stripe) db = elim (truthy (some stripe.id)) [
  | none ↦ (received, db)
  | some id ↦ (received, mark_status id canceled db)
]

-- An event, its object read in each of the shapes.
pub record StripeEvent : Type 0 where
  pub type : Option String
  pub session : Option StripeCheckoutSession
  pub invoice : Option StripeInvoiceShape
  pub subscription : Option StripeSubscriptionShape

unfoldable pub handle_event : StripeEvent → Db → Reply × Db
unfolding on_checkout_completed on_invoice_paid on_subscription_changed on_subscription_deleted
handle_event event db =
    if text_is event.type "checkout.session.completed"
    then on_checkout_completed event.session db
    else if text_is event.type "invoice.paid"
    then on_invoice_paid event.invoice db
    else if text_is event.type "customer.subscription.created"
        || text_is event.type "customer.subscription.updated"
    then on_subscription_changed event.subscription db
    else if text_is event.type "customer.subscription.deleted"
    then on_subscription_deleted event.subscription db
    else (received, db)
