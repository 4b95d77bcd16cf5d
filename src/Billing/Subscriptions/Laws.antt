-- ===== src/Billing/Subscriptions/Laws.antt =====
-- The mirror of Stripe's subscriptions (`syncFromStripe` of src/billing/subscriptions.service.ts).
use gomer.Base.{
  ℕ, ◌≡◌, refl, ==_refl, Bool, Bool-cases, Option-cases, true, false, inl, inr, some, none, any,
  keep, ◌==◌, or_else, if◌then◌else◌,
}
use text.Mathlib.TextPositions.{eq_refl}
use gomer.Base.Text.{String}
use gomer.Billing.Subscriptions.{
  find_for_workspace, Subscription, Db, StripeSubscriptionShape, synced, no_period,
  unique_violation, sync_from_stripe, find_by_stripe_id, same_stripe_id, synced_row,
  subscription_period,
}
use gomer.Billing.Subscriptions.Rows.{
  find-update_where, find-append, find-update_else, find-append_else, keep-update_where,
  keep-append,
}
use gomer.Billing.Subscriptions.Mirror.{
  Mirrors, to_status-Says, subscription_period-Dated, HasPeriod-row,
}

synced-eq : (x y : Db) → synced x ≡ synced y → x ≡ y
synced-eq x y e = cc

module _ (w : ℕ) (plan_id : String) (stripe : StripeSubscriptionShape) (db : Db) where
  abbrev others_hold : Bool
  others_hold =
      any (λ s. s.workspace_id == w)
        (keep (λ s. if same_stripe_id stripe.id s then false else true) db.subscriptions)

  refused-never :
      (b : Bool) (db' : Db) → (if b then unique_violation else no_period) ≡ synced db' → ⊥
  refused-never true db' e = cc
  refused-never false db' e = cc

  existing-Mirrors :
      (s : Subscription) (db' : Db)
      → others_hold ≡ false
      → find_by_stripe_id stripe.id db ≡ some s
      → sync_from_stripe w plan_id stripe db ≡ synced db'
      → Mirrors w plan_id stripe db db'
  unfolding sync_from_stripe find_by_stripe_id find_for_workspace
  existing-Mirrors s db' free there e =
      let row = λ (x : Subscription).
        synced_row w plan_id stripe
          (or_else (subscription_period stripe) (x.current_period_start, x.current_period_end)) x in
      let found =
        find-update_where (same_stripe_id stripe.id) row db.subscriptions s (λ x. eq_refl stripe.id)
          there in
      let same = synced-eq _ db' (rw (free, there, sync_from_stripe) at e) in
      rw (← same) (
        row s,
        subscription_period stripe,
        found,
        find-update_else (same_stripe_id stripe.id) (λ x. x.workspace_id == w) row db.subscriptions
            s (λ x. ==_refl w) free there,
        to_status-Says stripe.status,
        subscription_period-Dated stripe,
        rw there (HasPeriod-row w plan_id stripe (subscription_period stripe) s),
        refl,
        refl,
        refl,
        keep-update_where (same_stripe_id stripe.id) row db.subscriptions (λ x. eq_refl stripe.id),
        refl,
      )

  fresh-Mirrors :
      (db' : Db)
      → others_hold ≡ false
      → find_by_stripe_id stripe.id db ≡ none
      → sync_from_stripe w plan_id stripe db ≡ synced db'
      → Mirrors w plan_id stripe db db'
  unfolding sync_from_stripe find_by_stripe_id find_for_workspace
  fresh-Mirrors db' free missing e = elim (Option-cases (subscription_period stripe)) [
    | inl no_dates ↦ cc (rw (free, missing, no_dates, sync_from_stripe) at e)
    | inr (dates, there) ↦
        let same = synced-eq _ db' (rw (free, missing, there, sync_from_stripe) at e) in
        rw (← same) (
          _,
          subscription_period stripe,
          find-append (same_stripe_id stripe.id) db.subscriptions _ missing (eq_refl stripe.id),
          find-append_else (same_stripe_id stripe.id) (λ x. x.workspace_id == w) db.subscriptions _
              missing free (==_refl w),
          to_status-Says stripe.status,
          subscription_period-Dated stripe,
          rw there (refl, refl),
          refl,
          refl,
          refl,
          keep-append (same_stripe_id stripe.id) db.subscriptions _ (eq_refl stripe.id),
          refl,
        )
  ]

-- When the sync of a subscription of Stripe's succeeds, the row with its id is there, and it is the
-- one that its workspace's entitlement is read from. It has Stripe's status by the same name, or
-- canceled for a status that the service has no name for, such as unpaid or paused; the first period
-- with both ends on the subscription or its items, or where there is none the period it had before;
-- and the plan, the customer and whether it ends with the period. The rows with other ids and the
-- grants stay as they were.
pub sync_from_stripe-Mirrors :
    (w : ℕ) (plan_id : String) (stripe : StripeSubscriptionShape) (db db' : Db)
    → sync_from_stripe w plan_id stripe db ≡ synced db'
    → Mirrors w plan_id stripe db db'
unfolding sync_from_stripe
sync_from_stripe-Mirrors w plan_id stripe db db' e =
    elim (Bool-cases (others_hold w plan_id stripe db)) [
      | inl held ↦
          elim (refused-never w plan_id stripe db _ db' (rw (held, sync_from_stripe) at e)) [ ]
      | inr free ↦ elim (Option-cases (find_by_stripe_id stripe.id db)) [
        | inl missing ↦ fresh-Mirrors w plan_id stripe db db' free missing e
        | inr (s, there) ↦ existing-Mirrors w plan_id stripe db s db' free there e
      ]
    ]
