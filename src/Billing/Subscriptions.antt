-- ===== src/Billing/Subscriptions.antt =====
-- `SubscriptionsService` (src/billing/subscriptions.service.ts): the local mirror of Stripe's
-- subscriptions, and the grants that a paid period buys. A time is a number of milliseconds.
pub mod Rows
pub mod Mirror
pub mod Laws
use mathlib.Core.Option
use gomer.Base.{
  ℕ, suc, ◌*◌, Bool, true, false, ◌&&◌, ◌||◌, Option, none, some, List, [], ◌∷◌, ◌++◌, find, keep,
  is_some, any, ◌==◌, if◌then◌else◌, or_else,
}
use gomer.Base.Text.{String, str_eq}
use gomer.Usage.Types.{Ledger}

-- src/common/enums/subscription-status.enum.ts
pub data SubscriptionStatus : Type 0 where
  trialing active past_due canceled incomplete : SubscriptionStatus

-- `ENTITLED_STATUSES.includes`
abbrev pub entitles : SubscriptionStatus → Bool
entitles trialing = true
entitles active = true
entitles past_due = true
entitles _ = false

pub record Subscription : Type 0 where
  pub id : ℕ
  pub workspace_id : ℕ
  pub plan_id : String
  pub status : SubscriptionStatus
  pub stripe_subscription_id : String
  pub stripe_customer_id : String
  pub current_period_start : ℕ
  pub current_period_end : ℕ
  pub seats : ℕ
  pub cancel_at_period_end : Bool

-- The tables that billing works on; `active_seats` is what the users service counts.
pub record Db : Type 0 where
  pub ledger : Ledger
  pub subscriptions : List Subscription
  pub active_seats : ℕ → ℕ

pub record StripePeriodFields : Type 0 where
  pub current_period_start : Option ℕ
  pub current_period_end : Option ℕ

pub record StripeSubscriptionShape : Type 0 where
  pub id : String
  pub customer : String
  pub status : String
  pub period : StripePeriodFields
  pub items : List StripePeriodFields
  pub cancel_at_period_end : Bool
  pub metadata_workspace_id : Option ℕ
  pub metadata_plan_id : Option String

abbrev pub has_period : StripePeriodFields → Bool
has_period fields = is_some fields.current_period_start && is_some fields.current_period_end

-- `subscriptionPeriod`, in milliseconds.
unfoldable pub subscription_period : StripeSubscriptionShape → Option (ℕ × ℕ)
subscription_period stripe =
    Option.map
      (λ source.
        (or_else source.current_period_start 0 * 1000, or_else source.current_period_end 0 * 1000))
      (find has_period (stripe.period ∷ stripe.items))

unfoldable pub to_status : String → SubscriptionStatus
to_status raw =
    if str_eq raw "trialing"
    then trialing
    else if str_eq raw "active"
    then active
    else if str_eq raw "past_due"
    then past_due
    else if str_eq raw "canceled"
    then canceled
    else if str_eq raw "incomplete"
    then incomplete
    else canceled

unfoldable pub find_for_workspace : ℕ → Db → Option Subscription
find_for_workspace w db = find (λ s. s.workspace_id == w) db.subscriptions

unfoldable pub find_by_stripe_id : String → Db → Option Subscription
find_by_stripe_id id db = find (λ s. str_eq s.stripe_subscription_id id) db.subscriptions

unfoldable pub is_entitled : ℕ → Db → Bool
unfolding find_for_workspace
is_entitled w db = elim (find_for_workspace w db) [ none ↦ false | some s ↦ entitles s.status ]

abbrev pub same_stripe_id : String → Subscription → Bool
same_stripe_id id s = str_eq s.stripe_subscription_id id

-- `update` of the rows that a test picks.
abbrev pub update_where {ℓ} : {A : Type ℓ} → (A → Bool) → (A → A) → List A → List A
update_where p f [] = []
update_where p f (x ∷ xs) = (if p x then f x else x) ∷ update_where p f xs

unfoldable pub mark_status : String → SubscriptionStatus → Db → Db
mark_status id status db = record db {
  subscriptions =
      update_where (same_stripe_id id) (λ s. record s { status = status }) db.subscriptions;
}

-- What a call that may throw comes to.
pub data SyncResult : Type 0 where
  synced : Db → SyncResult
  -- the error of `syncFromStripe`
  no_period : SyncResult
  -- the unique index on `workspaceId`
  unique_violation : SyncResult

abbrev pub synced_row : ℕ → String → StripeSubscriptionShape → ℕ × ℕ → Subscription → Subscription
synced_row w plan_id stripe period s = record s {
  workspace_id = w;
  plan_id = plan_id;
  status = to_status stripe.status;
  stripe_subscription_id = stripe.id;
  stripe_customer_id = stripe.customer;
  current_period_start = period.0;
  current_period_end = period.1;
  cancel_at_period_end = stripe.cancel_at_period_end;
}

-- `syncFromStripe`; a row that is not there yet is inserted with the table's defaults.
unfoldable pub sync_from_stripe : ℕ → String → StripeSubscriptionShape → Db → SyncResult
unfolding subscription_period find_by_stripe_id to_status
sync_from_stripe w plan_id stripe db =
    let period = subscription_period stripe in
    let others = keep (λ s. if same_stripe_id stripe.id s then false else true) db.subscriptions in
    if any (λ s. s.workspace_id == w) others
    then (if is_some period || is_some (find_by_stripe_id stripe.id db)
        then unique_violation
        else no_period)
    else elim (find_by_stripe_id stripe.id db) [
      | some existing ↦ synced (record db {
        subscriptions =
            update_where (same_stripe_id stripe.id)
              (λ s.
                synced_row w plan_id stripe
                  (or_else period (s.current_period_start, s.current_period_end)) s)
              db.subscriptions;
      })
      | none ↦ elim period [
        | none ↦ no_period
        | some p ↦
            let fresh : Subscription = record {
              id = db.ledger.next_id;
              workspace_id = w;
              plan_id = plan_id;
              status = to_status stripe.status;
              stripe_subscription_id = stripe.id;
              stripe_customer_id = stripe.customer;
              current_period_start = p.0;
              current_period_end = p.1;
              seats = 0;
              cancel_at_period_end = stripe.cancel_at_period_end;
            } in
            synced (record db {
              subscriptions = db.subscriptions ++ fresh ∷ [];
              ledger = record (db.ledger) { next_id = suc db.ledger.next_id };
            })
      ]
    ]
