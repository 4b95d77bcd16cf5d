-- ===== src/Billing/Subscriptions/Mirror.antt =====
-- What the row of a subscription of Stripe's holds after `syncFromStripe` (src/billing/subscriptions.service.ts).
use mathlib.Core.Option
use mathlib.Core.Path.{subst}
use gomer.Base.{
  ℕ, ◌*◌, ◌≡◌, ◌≢◌, ◌⊎◌, refl, sym, Option, not, Bool, Bool-cases, inl, inr, some, none, List, [],
  ◌∷◌, keep, find, or_else,
}
use gomer.Base.Text.{String, str_eq, eq_iff, ne_of_text}
use gomer.Billing.Subscriptions.{
  SubscriptionStatus, trialing, active, past_due, canceled, incomplete, StripePeriodFields,
  has_period, find_for_workspace, Subscription, Db, StripeSubscriptionShape, find_by_stripe_id,
  same_stripe_id, synced_row, to_status, subscription_period,
}

-- What a status of Stripe's is here; one that the service has no name for counts as canceled.
pub data Says : String → SubscriptionStatus → Type 0 where
  says_trialing : Says "trialing" trialing
  says_active : Says "active" active
  says_past_due : Says "past_due" past_due
  says_canceled : Says "canceled" canceled
  says_incomplete : Says "incomplete" incomplete
  says_other :
      (raw : String)
      → raw ≢ "trialing"
      → raw ≢ "active"
      → raw ≢ "past_due"
      → raw ≢ "incomplete"
      → Says raw canceled

-- The first period in a list that has both of its ends, in milliseconds.
pub data Dated : List StripePeriodFields → Option (ℕ × ℕ) → Type 0 where
  undated : Dated [] none
  dated :
      (f : StripePeriodFields) (fs : List StripePeriodFields) (a b : ℕ)
      → f.current_period_start ≡ some a
      → f.current_period_end ≡ some b
      → Dated (f ∷ fs) (some (a * 1000, b * 1000))
  passed :
      (f : StripePeriodFields) (fs : List StripePeriodFields) (o : Option (ℕ × ℕ))
      → (f.current_period_start ≡ none) ⊎ (f.current_period_end ≡ none)
      → Dated fs o
      → Dated (f ∷ fs) o

-- The period of a row: Stripe's, or else that of the row that was there.
abbrev pub HasPeriod : Option (ℕ × ℕ) → Option Subscription → Subscription → Type 0
HasPeriod (some (a, b)) old s = (s.current_period_start ≡ a) × (s.current_period_end ≡ b)
HasPeriod none none s = ⊥
HasPeriod none (some old) s =
    (s.current_period_start ≡ old.current_period_start)
    × (s.current_period_end ≡ old.current_period_end)

abbrev pub is_other : String → Subscription → Bool
is_other id s = not (same_stripe_id id s)

-- The row with Stripe's id says what Stripe says and is the workspace's, and nothing else has changed.
abbrev pub Mirrors : ℕ → String → StripeSubscriptionShape → Db → Db → Type 0
Mirrors w plan_id stripe db db' =
    (s : Subscription) × (o : Option (ℕ × ℕ)) × (find_by_stripe_id stripe.id db' ≡ some s)
    × (find_for_workspace w db' ≡ some s)
    × Says stripe.status s.status
    × Dated (stripe.period ∷ stripe.items) o
    × HasPeriod o (find_by_stripe_id stripe.id db) s
    × (s.plan_id ≡ plan_id)
    × (s.stripe_customer_id ≡ stripe.customer)
    × (s.cancel_at_period_end ≡ stripe.cancel_at_period_end)
    × (keep (is_other stripe.id) db'.subscriptions ≡ keep (is_other stripe.id) db.subscriptions)
    × (db'.ledger.grants ≡ db.ledger.grants)

pub to_status-Says : (raw : String) → Says raw (to_status raw)
unfolding to_status
to_status-Says raw = elim (Bool-cases (str_eq raw "trialing")) [
  | inl is ↦
      rw (is, to_status)
        (subst (λ t. Says t trialing) (sym ((eq_iff raw "trialing").0 is)) says_trialing)
  | inr no1 ↦ elim (Bool-cases (str_eq raw "active")) [
    | inl is ↦
        rw (no1, is, to_status)
          (subst (λ t. Says t active) (sym ((eq_iff raw "active").0 is)) says_active)
    | inr no2 ↦ elim (Bool-cases (str_eq raw "past_due")) [
      | inl is ↦
          rw (no1, no2, is, to_status)
            (subst (λ t. Says t past_due) (sym ((eq_iff raw "past_due").0 is)) says_past_due)
      | inr no3 ↦ elim (Bool-cases (str_eq raw "canceled")) [
        | inl is ↦
            rw (no1, no2, no3, is, to_status)
              (subst (λ t. Says t canceled) (sym ((eq_iff raw "canceled").0 is)) says_canceled)
        | inr no4 ↦ elim (Bool-cases (str_eq raw "incomplete")) [
          | inl is ↦
              rw (no1, no2, no3, no4, is, to_status)
                (subst (λ t. Says t incomplete) (sym ((eq_iff raw "incomplete").0 is))
                  says_incomplete)
          | inr no5 ↦
              rw (no1, no2, no3, no4, no5, to_status)
                (says_other raw (ne_of_text raw "trialing" no1) (ne_of_text raw "active" no2)
                  (ne_of_text raw "past_due" no3) (ne_of_text raw "incomplete" no5))
        ]
      ]
    ]
  ]
]

abbrev period_in : List StripePeriodFields → Option (ℕ × ℕ)
period_in fs =
    Option.map
      (λ source.
        (or_else source.current_period_start 0 * 1000, or_else source.current_period_end 0 * 1000))
      (find has_period fs)

abbrev fields_of : Option ℕ → Option ℕ → StripePeriodFields
fields_of a b = record { current_period_start = a; current_period_end = b }

Dated-cons :
    (a b : Option ℕ) (fs : List StripePeriodFields)
    → Dated fs (period_in fs)
    → Dated (fields_of a b ∷ fs) (period_in (fields_of a b ∷ fs))
Dated-cons none b fs d = passed (fields_of none b) fs (period_in fs) (inl refl) d
Dated-cons (some a) none fs d = passed (fields_of (some a) none) fs (period_in fs) (inr refl) d
Dated-cons (some a) (some b) fs d = dated (fields_of (some a) (some b)) fs a b refl refl

period_in-Dated : (fs : List StripePeriodFields) → Dated fs (period_in fs)
period_in-Dated [] = undated
period_in-Dated (f ∷ fs) =
    Dated-cons f.current_period_start f.current_period_end fs (period_in-Dated fs)

pub subscription_period-Dated :
    (stripe : StripeSubscriptionShape)
    → Dated (stripe.period ∷ stripe.items) (subscription_period stripe)
unfolding subscription_period
subscription_period-Dated stripe = period_in-Dated (stripe.period ∷ stripe.items)

pub HasPeriod-row :
    (w : ℕ) (plan_id : String) (stripe : StripeSubscriptionShape) (o : Option (ℕ × ℕ))
    (s : Subscription)
    → HasPeriod o
        (some s)
        (synced_row w plan_id stripe (or_else o (s.current_period_start, s.current_period_end)) s)
HasPeriod-row w plan_id stripe none s = (refl, refl)
HasPeriod-row w plan_id stripe (some (a, b)) s = (refl, refl)
