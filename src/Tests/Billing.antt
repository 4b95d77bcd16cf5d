-- ===== src/Tests/Billing.antt =====
-- Tests and witnesses for billing.
use gomer.Base.{◌+◌, ◌≡◌, refl, true, none, some, arith, sum_of, keep}
use gomer.Usage.Types.{CreditBucket}
use gomer.Billing.Subscriptions.{Db}
use gomer.Usage.Ledger.Invariant.{IsSound}
use gomer.Usage.Balance.{get_balance}
use gomer.Billing.Plans.{SubscriptionPlan, CreditPack, find_plan, find_pack}
use gomer.Billing.Renewal.{
  unspent_plan_credits, is_live_plan, not_applied, commit_renewal, apply_renewal,
}
use gomer.Billing.Renewal.Rollover.{
  left_of, recounted, unspent_plan_credits-join, unspent_plan_credits-expired,
}
use gomer.Billing.Renewal.Laws.{apply_renewal-grants}
use gomer.Billing.Renewal.Once.{apply_renewal-once}
use gomer.Tests.Data.{ledger, subscription, db}

abbrev starter : SubscriptionPlan
starter = record {
  id = "starter";
  label = "Starter";
  price_cents = 5_000;
  monthly_credits = 20_000;
  bonus_credits = none;
}

abbrev growth : CreditPack
growth = record { id = "growth"; label = "Growth — $50"; amount_cents = 5_000; credits = 20_000 }

starter_found : find_plan "starter" ≡ some starter
unfolding find_plan
starter_found = refl

growth_found : find_pack "growth" ≡ some growth
unfolding find_pack
growth_found = refl

ledger-IsSound : IsSound ledger
ledger-IsSound = record {
  distinct = λ i. ground arith;
  fresh = omega arith;
  known = omega arith;
  within = omega arith;
}

-- 100 credits, of which 30 were spent in two runs: 70 are left, and 170 are carried forward.
rollover_runs : unspent_plan_credits ledger 7 ≡ 170
unfolding unspent_plan_credits
rollover_runs = refl

unspent_plan_credits-join_example :
    let plans = keep (is_live_plan ledger.now 7) ledger.grants in
    unspent_plan_credits ledger 7
    ≡ sum_of (left_of ledger.allocations) plans + sum_of (recounted ledger.allocations) plans
unspent_plan_credits-join_example = unspent_plan_credits-join ledger 7 ledger-IsSound

-- The allowance has run out when the invoice arrives.
abbrev late : Db
late = record db { ledger = record ledger { now = 2_000 } }

reward_no_plan : CreditBucket.reward ≡ CreditBucket.plan → ⊥
reward_no_plan is = cc

unspent_plan_credits-expired_example :
    (apply_renewal subscription "in_1" 5_000 late).0.rolled_over ≡ 0
unspent_plan_credits-expired_example = unspent_plan_credits-expired subscription "in_1" 5_000 late (
  λ right is. absurd (reward_no_plan is),
  (
    λ right is. (2_000, refl, omega arith),
    (λ right is. (500, refl, omega arith), (λ right is. absurd (omega arith), tt)),
  ),
)

renewal_runs :
    (apply_renewal subscription "in_1" 5_000 db).0
    ≡ record { plan_credits = 20_000; rolled_over = 170; seat_bonus = 20_000; applied = true }
unfolding apply_renewal
renewal_runs = refl

apply_renewal-grants_example :
    let (r, db') = apply_renewal subscription "in_1" 5_000 db in
    IsSound db'.ledger
    × ((get_balance db'.ledger 7).balance
        ≡ (get_balance db.ledger 7).balance + r.rolled_over + r.plan_credits + r.seat_bonus)
apply_renewal-grants_example =
    apply_renewal-grants subscription "in_1" 5_000 db ledger-IsSound (omega arith)

renewal_applied : (apply_renewal subscription "in_1" 5_000 db).0.applied ≡ true
unfolding apply_renewal
renewal_applied = refl

apply_renewal-once_example :
    let db' = (apply_renewal subscription "in_1" 5_000 db).1 in
    (apply_renewal subscription "in_1" 6_000 db' ≡ (not_applied, db'))
    × (commit_renewal subscription starter "in_1" 6_000 db' ≡ (not_applied, db'))
apply_renewal-once_example =
    apply_renewal-once subscription subscription starter "in_1" 5_000 6_000 db renewal_applied
