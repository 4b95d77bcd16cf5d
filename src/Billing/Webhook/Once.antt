-- ===== src/Billing/Webhook/Once.antt =====
-- Repeated deliveries of a checkout to `onCheckoutCompleted` (src/billing/billing.service.ts).
use gomer.Base.{
  ℕ, ◌≡◌, refl, Bool-cases, Option-cases, true, false, inl, inr, some, none, Option, List, [], ◌∷◌,
  ◌++◌, arith, ◌||◌, ◌⊎◌, find, is_some,
}
use text.Mathlib.TextPositions.{eq_refl}
use gomer.Base.Text.{String}
use gomer.Usage.Types.{CreditGrant, Ledger, same_text}
use gomer.Usage.Ledger.{GrantCreditsInput, grant_credits, has_grant_for_stripe_session, grant_of}
use gomer.Usage.Ledger.Invariant.{save_grant-eq, grant_credits-saved}
use gomer.Billing.Subscriptions.{Db}
use gomer.Billing.Webhook.{
  StripeCheckoutSession, received, on_checkout_completed, grant_topup, topup_input, purchase_of,
  text_is, is_other,
}

has_grant-last :
    (id : String) (gs : List CreditGrant) (g : CreditGrant)
    → g.stripe_session_id ≡ some id
    → is_some (find (λ h. same_text h.stripe_session_id (some id)) (gs ++ g ∷ [])) ≡ true
has_grant-last id [] g own = ground (arith, eq_refl id)
has_grant-last id (x ∷ gs) g own = ground (arith, has_grant-last id gs g own)

grant_credits-has_grant :
    (input : GrantCreditsInput) (id : String) (l : Ledger) (g : CreditGrant) (l' : Ledger)
    → input.stripe_session_id ≡ some id
    → grant_credits input l ≡ some (g, l')
    → has_grant_for_stripe_session id l' ≡ true
unfolding has_grant_for_stripe_session
grant_credits-has_grant input id l g l' own e =
    rw (save_grant-eq (grant_of input l) l l' (grant_credits-saved input l g l' e).0)
      (has_grant-last id l.grants (grant_of input l) own)

on_checkout_completed-ignored :
    (s : StripeCheckoutSession) (db : Db)
    → (text_is s.mode "subscription" ≡ true) ⊎ (purchase_of s ≡ none)
    → on_checkout_completed (some s) db ≡ (received, db)
unfolding on_checkout_completed
on_checkout_completed-ignored s db (inl e) = rw (e, on_checkout_completed) refl
on_checkout_completed-ignored s db (inr e) = elim (Bool-cases (text_is s.mode "subscription")) [
  | inl m ↦ rw (m, on_checkout_completed) refl
  | inr m ↦ rw (m, e, on_checkout_completed) refl
]

module _ (s : StripeCheckoutSession) (id : String) (w n : ℕ) where
  on_checkout_completed-held :
      (db : Db)
      → purchase_of s ≡ some (id, w, n)
      → has_grant_for_stripe_session id db.ledger ≡ true
      → on_checkout_completed (some s) db ≡ (received, db)
  unfolding on_checkout_completed
  on_checkout_completed-held db bought held = elim (Bool-cases (text_is s.mode "subscription")) [
    | inl e ↦ rw (e, on_checkout_completed) refl
    | inr e ↦ elim (Bool-cases (is_other s.payment_status "paid")) [
      | inl o ↦ rw (e, bought, o, on_checkout_completed) refl
      | inr o ↦ rw (e, bought, o, held, on_checkout_completed) refl
    ]
  ]

  pub on_checkout_completed-granted :
      (db : Db)
      → text_is s.mode "subscription" ≡ false
      → purchase_of s ≡ some (id, w, n)
      → (is_other s.payment_status "paid" || has_grant_for_stripe_session id db.ledger) ≡ false
      → on_checkout_completed (some s) db ≡ (received, grant_topup (topup_input s id w n) db)
  unfolding on_checkout_completed
  on_checkout_completed-granted db mode bought free =
      rw (mode, bought, free, on_checkout_completed) refl

  on_checkout_completed-refused :
      (db : Db)
      → purchase_of s ≡ some (id, w, n)
      → (is_other s.payment_status "paid" || has_grant_for_stripe_session id db.ledger) ≡ true
      → on_checkout_completed (some s) db ≡ (received, db)
  unfolding on_checkout_completed
  on_checkout_completed-refused db bought held = elim (Bool-cases (text_is s.mode "subscription")) [
    | inl m ↦ rw (m, on_checkout_completed) refl
    | inr m ↦ rw (m, bought, held, on_checkout_completed) refl
  ]

  grant_topup-again :
      (db : Db)
      → purchase_of s ≡ some (id, w, n)
      → on_checkout_completed (some s) db ≡ (received, grant_topup (topup_input s id w n) db)
      → let after = grant_topup (topup_input s id w n) db in
        on_checkout_completed (some s) after ≡ (received, after)
  unfolding grant_topup
  grant_topup-again db bought e =
      elim (Option-cases (grant_credits (topup_input s id w n) db.ledger)) [
        | inl clash ↦
            let same : grant_topup (topup_input s id w n) db ≡ db = rw (clash, grant_topup) refl in
            rw same (rw same at e)
        | inr ((g, l), done) ↦
            rw (done, grant_topup)
              (on_checkout_completed-held (record db { ledger = l }) bought
                (grant_credits-has_grant (topup_input s id w n) id db.ledger g l refl done))
      ]

first_none :
    (db : Db)
    → let after = (on_checkout_completed none db).1 in
      on_checkout_completed none after ≡ (received, after)
unfolding on_checkout_completed
first_none db = refl

-- A second delivery of a checkout session changes nothing and is acknowledged, whatever the first did.
pub on_checkout_completed-again :
    (session : Option StripeCheckoutSession) (db : Db)
    → let after = (on_checkout_completed session db).1 in
      on_checkout_completed session after ≡ (received, after)
on_checkout_completed-again none db = first_none db
on_checkout_completed-again (some s) db = elim (Bool-cases (text_is s.mode "subscription")) [
  | inl m ↦ let e = on_checkout_completed-ignored s db (inl m) in rw e e
  | inr m ↦ elim (Option-cases (purchase_of s)) [
    | inl b ↦ let e = on_checkout_completed-ignored s db (inr b) in rw e e
    | inr ((id, w, n), b) ↦
        elim (Bool-cases
          (is_other s.payment_status "paid" || has_grant_for_stripe_session id db.ledger)) [
            | inl held ↦ let e = on_checkout_completed-refused s id w n db b held in rw e e
            | inr free ↦
                let e = on_checkout_completed-granted s id w n db m b free in
                rw e (grant_topup-again s id w n db b e)
          ]
  ]
]
