-- ===== src/Billing/Webhook/Invoices.antt =====
-- Repeated deliveries of a paid invoice to `onInvoicePaid` (src/billing/billing.service.ts).
use gomer.Base.{
  ℕ, ◌≡◌, refl, Bool-cases, Option-cases, true, false, inl, inr, some, none, Option, ◌⊎◌,
}
use gomer.Base.Text.{truthy, String}
use gomer.Billing.Subscriptions.{Db, Subscription, find_by_stripe_id}
use gomer.Billing.Renewal.{apply_renewal, commit_renewal, has_invoice, grant_period}
use gomer.Billing.Renewal.Once.{apply_renewal-once}
use gomer.Billing.Plans.{SubscriptionPlan, find_plan}
use gomer.Billing.Webhook.{
  StripeInvoiceShape, received, unavailable, on_invoice_paid, is_renewal, renew,
  subscription_id_from_invoice, period_end_of,
}

commit_renewal-idle :
    (s : Subscription) (plan : SubscriptionPlan) (invoice : String) (period_end : ℕ) (db : Db)
    → (commit_renewal s plan invoice period_end db).0.applied ≡ false
    → (commit_renewal s plan invoice period_end db).1 ≡ db
unfolding commit_renewal
commit_renewal-idle s plan invoice period_end db h =
    let w = s.workspace_id in
    elim (Option-cases (grant_period w plan invoice period_end (db.active_seats w) db.ledger)) [
      | inl fails ↦ rw (fails, commit_renewal) refl
      | inr (l, done) ↦ cc (rw (done, commit_renewal) at h)
    ]

apply_renewal-idle :
    (s : Subscription) (invoice : String) (period_end : ℕ) (db : Db)
    → (apply_renewal s invoice period_end db).0.applied ≡ false
    → (apply_renewal s invoice period_end db).1 ≡ db
unfolding apply_renewal
apply_renewal-idle s invoice period_end db h = elim (Option-cases (find_plan s.plan_id)) [
  | inl unknown ↦ rw (unknown, apply_renewal) refl
  | inr (plan, found) ↦ elim (Bool-cases (has_invoice invoice db.ledger)) [
    | inl old ↦ rw (found, apply_renewal) (rw old refl)
    | inr new ↦
        rw (found, apply_renewal)
          (rw new (
            commit_renewal-idle s plan invoice period_end db
              (rw new at (rw (found, apply_renewal) at h))))
  ]
]

module _ (id : String) (invoice : StripeInvoiceShape) (stripe_id : String) where
  pub renew-unknown :
      (db : Db)
      → find_by_stripe_id stripe_id db ≡ none
      → renew id invoice stripe_id db ≡ (unavailable, db)
  unfolding renew
  renew-unknown db e = rw (e, renew) refl

  renew-known :
      (db : Db) (s : Subscription)
      → find_by_stripe_id stripe_id db ≡ some s
      → renew id invoice stripe_id db
        ≡ (received, (apply_renewal s id (period_end_of invoice s) db).1)
  unfolding renew
  renew-known db s e = rw (e, renew) refl

  renew-applied :
      (db : Db) (s : Subscription)
      → (apply_renewal s id (period_end_of invoice s) db).0.applied ≡ true
      → let after = (apply_renewal s id (period_end_of invoice s) db).1 in
        (renew id invoice stripe_id after).1 ≡ after
  renew-applied db s done =
      let after = (apply_renewal s id (period_end_of invoice s) db).1 in
      elim (Option-cases (find_by_stripe_id stripe_id after)) [
        | inl gone ↦ rw (renew-unknown after gone) refl
        | inr (s', there) ↦
            let plan : SubscriptionPlan = record {
              id = "";
              label = "";
              price_cents = 0;
              monthly_credits = 0;
              bonus_credits = none;
            } in
            let once =
              (apply_renewal-once s s' plan id (period_end_of invoice s) (period_end_of invoice s')
                db done).0 in
            rw (renew-known after s' there, once) refl
      ]

  renew-again :
      (db : Db)
      → let after = (renew id invoice stripe_id db).1 in
        (renew id invoice stripe_id after).1 ≡ after
  renew-again db = elim (Option-cases (find_by_stripe_id stripe_id db)) [
    | inl unknown ↦ let e = renew-unknown db unknown in rw e (rw e refl)
    | inr (s, known) ↦
        let e = renew-known db s known in
        elim (Bool-cases (apply_renewal s id (period_end_of invoice s) db).0.applied) [
          | inl done ↦ rw e (renew-applied db s done)
          | inr idle ↦
              let same = apply_renewal-idle s id (period_end_of invoice s) db idle in
              rw e (rw same (rw e same))
        ]
  ]

on_invoice_paid-renew :
    (invoice : StripeInvoiceShape)
    → ((db : Db) → on_invoice_paid (some invoice) db ≡ (received, db))
      ⊎ ((id : String) × (stripe_id : String) × ((db : Db)
            → on_invoice_paid (some invoice) db ≡ renew id invoice stripe_id db))
unfolding on_invoice_paid
on_invoice_paid-renew invoice = elim (Option-cases (truthy invoice.id)) [
  | inl blank ↦ inl (λ db. rw (blank, on_invoice_paid) refl)
  | inr (id, named) ↦ elim (Bool-cases (is_renewal invoice.billing_reason)) [
    | inr other ↦ inl (λ db. rw (named, other, on_invoice_paid) refl)
    | inl reason ↦ elim (Option-cases (subscription_id_from_invoice invoice)) [
      | inl one_off ↦ inl (λ db. rw (named, reason, one_off, on_invoice_paid) refl)
      | inr (stripe_id, ref) ↦
          inr (id, stripe_id, λ db. rw (named, reason, ref, on_invoice_paid) refl)
    ]
  ]
]

no_invoice :
    (db : Db) → let after = (on_invoice_paid none db).1 in (on_invoice_paid none after).1 ≡ after
unfolding on_invoice_paid
no_invoice db = refl

-- A second delivery of a paid invoice changes nothing, whatever the first did.
pub on_invoice_paid-again :
    (invoice : Option StripeInvoiceShape) (db : Db)
    → let after = (on_invoice_paid invoice db).1 in (on_invoice_paid invoice after).1 ≡ after
on_invoice_paid-again none db = no_invoice db
on_invoice_paid-again (some invoice) db = elim (on_invoice_paid-renew invoice) [
  | inl ignored ↦ let e = ignored db in rw e (rw e refl)
  | inr (id, stripe_id, renews) ↦
      let after = (renew id invoice stripe_id db).1 in
      rw (renews db) (rw (renews after) (renew-again id invoice stripe_id db))
]
