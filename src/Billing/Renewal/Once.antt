-- ===== src/Billing/Renewal/Once.antt =====
-- Several deliveries of one invoice to `applyRenewal` (src/billing/subscriptions.service.ts), also when
-- two of them race past its check.
use gomer.Base.{
  ℕ, ◌≡◌, refl, Bool, Bool-cases, Option-cases, true, false, inl, inr, some, none, List, [], ◌∷◌,
  ◌++◌, arith, any, find, is_some,
}
use text.Mathlib.TextPositions.{eq_refl}
use gomer.Base.Text.{String, eq_iff}
use gomer.Usage.Types.{CreditGrant, Ledger, same_text}
use gomer.Usage.Ledger.{save_grant, clashes}
use gomer.Usage.Ledger.Invariant.{save_grant-eq}
use gomer.Billing.Plans.{SubscriptionPlan, find_plan}
use gomer.Billing.Subscriptions.{Subscription, Db}
use gomer.Billing.Renewal.Laws.{grant_period-parts}
use gomer.Billing.Renewal.{
  not_applied, plan_grant, save_if, grant_period, commit_renewal, has_invoice, apply_renewal,
}

has_invoice-clash :
    (invoice : String) (g : CreditGrant) (gs : List CreditGrant)
    → g.stripe_invoice_id ≡ some invoice
    → is_some (find (λ h. same_text h.stripe_invoice_id (some invoice)) gs) ≡ true
    → any (clashes g) gs ≡ true
has_invoice-clash invoice g [] own h = cc
has_invoice-clash invoice g (x ∷ gs) own h = elim (Option-cases x.stripe_invoice_id) [
  | inl free ↦ ground (arith, has_invoice-clash invoice g gs own)
  | inr (j, held) ↦
      ground (arith, has_invoice-clash invoice g gs own, eq_iff invoice j, eq_iff j invoice)
]

save_grant-clash :
    (g : CreditGrant) (l l' : Ledger)
    → any (clashes g) l.grants ≡ true
    → save_grant g l ≡ some l'
    → ⊥
unfolding save_grant
save_grant-clash g l l' h e = ground arith

has_invoice-append :
    (invoice : String) (gs : List CreditGrant) (hs : List CreditGrant)
    → is_some (find (λ h. same_text h.stripe_invoice_id (some invoice)) gs) ≡ true
    → is_some (find (λ h. same_text h.stripe_invoice_id (some invoice)) (gs ++ hs)) ≡ true
has_invoice-append invoice [] hs h = cc
has_invoice-append invoice (g ∷ gs) hs h = ground (arith, has_invoice-append invoice gs hs)

has_invoice-last :
    (invoice : String) (gs : List CreditGrant) (g : CreditGrant)
    → g.stripe_invoice_id ≡ some invoice
    → is_some (find (λ h. same_text h.stripe_invoice_id (some invoice)) (gs ++ g ∷ [])) ≡ true
has_invoice-last invoice [] g own = ground (arith, eq_refl invoice)
has_invoice-last invoice (x ∷ gs) g own = ground (arith, has_invoice-last invoice gs g own)

save_if-has_invoice :
    (b : Bool) (invoice : String) (g : CreditGrant) (l l' : Ledger)
    → has_invoice invoice l ≡ true
    → save_if b g l ≡ some l'
    → has_invoice invoice l' ≡ true
save_if-has_invoice true invoice g l l' h e =
    rw (save_grant-eq g l l' e) (has_invoice-append invoice l.grants (g ∷ []) h)
save_if-has_invoice false invoice g l l' h e = let same : l ≡ l' = cc in rw (← same) h

grant_period-again :
    (w : ℕ) (plan : SubscriptionPlan) (invoice : String) (period_end seats : ℕ) (l : Ledger)
    → has_invoice invoice l ≡ true
    → grant_period w plan invoice period_end seats l ≡ none
grant_period-again w plan invoice period_end seats l h =
    elim (Option-cases (grant_period w plan invoice period_end seats l)) [
      | inl fails ↦ fails
      | inr (l', done) ↦
          let (l1, first, (l2, second, third)) =
            grant_period-parts w plan invoice period_end seats l l' done in
          let kept = save_if-has_invoice _ invoice _ l l1 h first in
          let g = plan_grant l1 w plan invoice period_end in
          absurd (save_grant-clash g l1 l2 (has_invoice-clash invoice g l1.grants refl kept) second)
    ]

grant_period-has_invoice :
    (w : ℕ) (plan : SubscriptionPlan) (invoice : String) (period_end seats : ℕ) (l l' : Ledger)
    → grant_period w plan invoice period_end seats l ≡ some l'
    → has_invoice invoice l' ≡ true
grant_period-has_invoice w plan invoice period_end seats l l' e =
    let (l1, first, (l2, second, third)) =
      grant_period-parts w plan invoice period_end seats l l' e in
    let g = plan_grant l1 w plan invoice period_end in
    let held : has_invoice invoice l2 ≡ true =
      rw (save_grant-eq g l1 l2 second) (has_invoice-last invoice l1.grants g refl) in
    save_if-has_invoice _ invoice _ l2 l' held third

commit_renewal-again :
    (s : Subscription) (plan : SubscriptionPlan) (invoice : String) (period_end : ℕ) (db : Db)
    → has_invoice invoice db.ledger ≡ true
    → commit_renewal s plan invoice period_end db ≡ (not_applied, db)
unfolding commit_renewal
commit_renewal-again s plan invoice period_end db h =
    let seats = db.active_seats s.workspace_id in
    rw (grant_period-again s.workspace_id plan invoice period_end seats db.ledger h, commit_renewal)

commit_renewal-has_invoice :
    (s : Subscription) (plan : SubscriptionPlan) (invoice : String) (period_end : ℕ) (db : Db)
    → (commit_renewal s plan invoice period_end db).0.applied ≡ true
    → has_invoice invoice (commit_renewal s plan invoice period_end db).1.ledger ≡ true
unfolding commit_renewal
commit_renewal-has_invoice s plan invoice period_end db h =
    let w = s.workspace_id in
    let seats = db.active_seats w in
    elim (Option-cases (grant_period w plan invoice period_end seats db.ledger)) [
      | inl fails ↦ cc (rw (fails, commit_renewal) at h)
      | inr (l, done) ↦
          rw (done, commit_renewal)
            (grant_period-has_invoice w plan invoice period_end seats db.ledger l done)
    ]

apply_renewal-has_invoice :
    (s : Subscription) (invoice : String) (period_end : ℕ) (db : Db)
    → (apply_renewal s invoice period_end db).0.applied ≡ true
    → has_invoice invoice (apply_renewal s invoice period_end db).1.ledger ≡ true
unfolding apply_renewal
apply_renewal-has_invoice s invoice period_end db h = elim (Option-cases (find_plan s.plan_id)) [
  | inl unknown ↦ cc (rw (unknown, apply_renewal) at h)
  | inr (plan, found) ↦ elim (Bool-cases (has_invoice invoice db.ledger)) [
    | inl old ↦ rw (found, apply_renewal) (rw old old)
    | inr new ↦
        rw (found, apply_renewal)
          (rw new (
            commit_renewal-has_invoice s plan invoice period_end db
              (rw new at (rw (found, apply_renewal) at h))))
  ]
]

apply_renewal-again :
    (s : Subscription) (invoice : String) (period_end : ℕ) (db : Db)
    → has_invoice invoice db.ledger ≡ true
    → apply_renewal s invoice period_end db ≡ (not_applied, db)
unfolding apply_renewal
apply_renewal-again s invoice period_end db h = elim (Option-cases (find_plan s.plan_id)) [
  | inl unknown ↦ rw (unknown, apply_renewal)
  | inr (plan, found) ↦ rw (found, apply_renewal) (rw h)
]

-- Once a delivery of an invoice has been applied, every later one changes nothing and reports that it
-- was not applied: whether it is stopped by the check, or had passed the check before the first was
-- saved and runs its transaction after it, and whatever subscription, plan and period end it carries.
pub apply_renewal-once :
    (s s' : Subscription) (plan' : SubscriptionPlan) (invoice : String) (period_end period_end' : ℕ)
    (db : Db)
    → (apply_renewal s invoice period_end db).0.applied ≡ true
    → let db' = (apply_renewal s invoice period_end db).1 in
      (apply_renewal s' invoice period_end' db' ≡ (not_applied, db'))
      × (commit_renewal s' plan' invoice period_end' db' ≡ (not_applied, db'))
apply_renewal-once s s' plan' invoice period_end period_end' db h =
    let held = apply_renewal-has_invoice s invoice period_end db h in
    let db' = (apply_renewal s invoice period_end db).1 in
    (
      apply_renewal-again s' invoice period_end' db' held,
      commit_renewal-again s' plan' invoice period_end' db' held,
    )
