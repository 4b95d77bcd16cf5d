-- ===== src/Billing/Plans/Laws.antt =====
-- The prices of the plans and packs of src/billing/plans.ts.
use gomer.Base.{◌+◌, ◌*◌, ◌≡◌, refl, Bool, true, some, List, [], ◌∷◌, find, all, arith, or_else}
use gomer.Base.Text.{String, str_eq}
use gomer.Billing.Plans.{
  SubscriptionPlan, CreditPack, subscription_plans, credit_packs, find_plan, find_pack, plan_priced,
  pack_priced, loads,
}

find-all {ℓ} :
    {A : Type ℓ} (p q : A → Bool) (xs : List A) (a : A)
    → all q xs ≡ true
    → find p xs ≡ some a
    → q a ≡ true
find-all p q [] a h e = cc
find-all p q (x ∷ xs) a h e = ground (arith, find-all p q xs a)

tables_load : loads subscription_plans credit_packs ≡ true
unfolding loads
tables_load = refl

-- Every plan that a plan id can name grants 400 credits a month for each dollar of its price, and its
-- declared bonus on top; every pack that a pack id can name grants 400 credits a dollar.
pub find-priced :
    (plan_id : String) (plan : SubscriptionPlan) (pack_id : String) (pack : CreditPack)
    → find_plan plan_id ≡ some plan
    → find_pack pack_id ≡ some pack
    → (plan.monthly_credits ≡ 4 * plan.price_cents + or_else plan.bonus_credits 0)
      × (pack.credits ≡ 4 * pack.amount_cents)
unfolding find_plan find_pack plan_priced pack_priced
find-priced plan_id plan pack_id pack e e' =
    let priced : plan_priced plan ≡ true =
      find-all (λ p. str_eq p.id plan_id) plan_priced subscription_plans plan refl e in
    let pack_is : pack_priced pack ≡ true =
      find-all (λ p. str_eq p.id pack_id) pack_priced credit_packs pack refl e' in
    (ground (arith, priced), ground (arith, pack_is))
