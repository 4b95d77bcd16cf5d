-- ===== src/Billing/Webhook/Paths.antt =====
-- A paid checkout, and the events of a workspace that subscribes again (src/billing/billing.service.ts).
use gomer.Base.{
  ℕ, ◌+◌, ◌++◌, suc, ◌∙◌, ◌≡◌, refl, Bool, Option-cases, true, false, inl, inr, some, none, List,
  [], ◌∷◌, arith, find, is_some, any, keep, ◌==◌, ==_refl, if◌then◌else◌,
}
use gomer.Base.Text.{truthy, String, eq_iff}
use gomer.Usage.Types.{CreditGrant, Ledger, same_text}
use gomer.Usage.Ledger.{
  GrantCreditsInput, grant_credits, has_grant_for_stripe_session, grant_of, clashes, save_grant,
}
use gomer.Usage.Ledger.Invariant.{IsSound}
use gomer.Usage.Balance.{get_balance}
use gomer.Usage.Balance.Moves.{grant_credits-moves}
use gomer.Billing.Subscriptions.{
  Subscription, Db, StripeSubscriptionShape, find_by_stripe_id, same_stripe_id, sync_from_stripe,
  unique_violation, no_period,
}
use gomer.Billing.Webhook.{
  StripeCheckoutSession, StripeInvoiceShape, received, unavailable, failed, on_checkout_completed,
  grant_topup, topup_input, purchase_of, text_is, is_other, renew, on_subscription_changed,
  after_sync,
}
use gomer.Billing.Webhook.Once.{on_checkout_completed-granted}
use gomer.Billing.Webhook.Invoices.{renew-unknown}

-- A session that no grant carries clashes with none.
clashes-free :
    (g : CreditGrant) (id : String) (gs : List CreditGrant)
    → g.stripe_session_id ≡ some id
    → g.stripe_invoice_id ≡ none
    → is_some (find (λ h. same_text h.stripe_session_id (some id)) gs) ≡ false
    → any (clashes g) gs ≡ false
clashes-free g id [] own no_invoice h = refl
clashes-free g id (x ∷ gs) own no_invoice h = elim (Option-cases x.stripe_session_id) [
  | inl free ↦ ground (arith, clashes-free g id gs own no_invoice)
  | inr (j, held) ↦ ground (arith, clashes-free g id gs own no_invoice, eq_iff id j, eq_iff j id)
]

grant_credits-succeeds :
    (input : GrantCreditsInput) (id : String) (l : Ledger)
    → input.stripe_session_id ≡ some id
    → input.stripe_invoice_id ≡ none
    → has_grant_for_stripe_session id l ≡ false
    → (g : CreditGrant) × (l' : Ledger) × (grant_credits input l ≡ some (g, l'))
unfolding grant_credits save_grant has_grant_for_stripe_session
grant_credits-succeeds input id l own no_invoice h =
    let free = clashes-free (grant_of input l) id l.grants own no_invoice h in
    (
      grant_of input l,
      record l { grants = l.grants ++ grant_of input l ∷ []; next_id = suc l.next_id },
      rw free refl,
    )

grant_topup-balance :
    (input : GrantCreditsInput) (id : String) (db : Db)
    → IsSound db.ledger
    → input.stripe_session_id ≡ some id
    → input.stripe_invoice_id ≡ none
    → input.expires_at ≡ none
    → has_grant_for_stripe_session id db.ledger ≡ false
    → (get_balance (grant_topup input db).ledger input.workspace_id).balance
      ≡ (get_balance db.ledger input.workspace_id).balance + input.credits
unfolding grant_topup
grant_topup-balance input id db s own no_invoice forever h =
    let (g, l', done) = grant_credits-succeeds input id db.ledger own no_invoice h in
    let moved =
      (grant_credits-moves input db.ledger input.workspace_id g l' s done (rw forever refl)).0 in
    rw (done, grant_topup) (rw (==_refl input.workspace_id) at moved)

-- In a sound ledger, the first delivery of a paid session that is no subscription, names a
-- workspace and has a positive number of credits is acknowledged, and raises the balance of the
-- workspace by exactly these credits.
pub on_checkout_completed-balance :
    (s : StripeCheckoutSession) (id : String) (w n : ℕ) (db : Db)
    → IsSound db.ledger
    → text_is s.mode "subscription" ≡ false
    → purchase_of s ≡ some (id, w, n)
    → is_other s.payment_status "paid" ≡ false
    → has_grant_for_stripe_session id db.ledger ≡ false
    → let (reply, after) = on_checkout_completed (some s) db in
      (reply ≡ received)
      × ((get_balance after.ledger w).balance ≡ (get_balance db.ledger w).balance + n)
on_checkout_completed-balance s id w n db sound mode bought paid new =
    rw (on_checkout_completed-granted s id w n db mode bought (rw (paid, new) refl))
      (refl, grant_topup-balance (topup_input s id w n) id db sound refl refl refl new)

keep-others :
    (id : String) (w : ℕ) (subs : List Subscription)
    → find (same_stripe_id id) subs ≡ none
    → any (λ s. s.workspace_id == w) (keep (λ s. if same_stripe_id id s then false else true) subs)
      ≡ any (λ s. s.workspace_id == w) subs
keep-others id w [] h = refl
keep-others id w (x ∷ subs) h = ground (arith, keep-others id w subs)

sync-stopped :
    (b : Bool) (db : Db) → after_sync db (if b then unique_violation else no_period) ≡ (failed, db)
sync-stopped true db = refl
sync-stopped false db = refl

sync-refused :
    (w : ℕ) (plan_id : String) (stripe : StripeSubscriptionShape) (db : Db)
    → find_by_stripe_id stripe.id db ≡ none
    → any (λ s. s.workspace_id == w) db.subscriptions ≡ true
    → after_sync db (sync_from_stripe w plan_id stripe db) ≡ (failed, db)
unfolding sync_from_stripe find_by_stripe_id
sync-refused w plan_id stripe db new old =
    let held : any (λ s. s.workspace_id == w)
          (keep (λ s. if same_stripe_id stripe.id s then false else true) db.subscriptions)
        ≡ true =
      keep-others stripe.id w db.subscriptions new ∙ old in
    rw (held, sync_from_stripe) (sync-stopped _ db)

-- A workspace that has a row for another subscription, whatever its status, cannot be subscribed
-- anew: the event of a subscription without a row, whose metadata name the workspace and a plan,
-- fails, and each invoice paid for it is turned away, both leaving the tables as they were.
pub on_subscription_changed-resubscribed :
    (w : ℕ) (plan_id invoice_id : String) (stripe : StripeSubscriptionShape)
    (invoice : StripeInvoiceShape) (db : Db)
    → truthy (some stripe.id) ≡ some stripe.id
    → stripe.metadata_workspace_id ≡ some w
    → truthy stripe.metadata_plan_id ≡ some plan_id
    → find_by_stripe_id stripe.id db ≡ none
    → any (λ s. s.workspace_id == w) db.subscriptions ≡ true
    → (on_subscription_changed (some stripe) db ≡ (failed, db))
      × (renew invoice_id invoice stripe.id db ≡ (unavailable, db))
unfolding on_subscription_changed
on_subscription_changed-resubscribed w plan_id invoice_id stripe invoice db named owner planned new
      old =
    (
      rw (named, owner, planned, on_subscription_changed)
          (sync-refused w plan_id stripe db new old),
      renew-unknown invoice_id invoice stripe.id db new,
    )
