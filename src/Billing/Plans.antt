-- ===== src/Billing/Plans.antt =====
-- The plans and credit packs of src/billing/plans.ts, and the check that runs when it is loaded.
pub mod Laws
use gomer.Base.{
  ℕ, ◌+◌, ◌*◌, ◌/◌, Bool, true, ◌&&◌, Option, none, some, List, [], ◌∷◌, find, all, ◌==◌, or_else,
}
use gomer.Base.Text.{String, str_eq}
use gomer.Usage.Pricing.{credits_per_dollar}

pub record SubscriptionPlan : Type 0 where
  pub id : String
  pub label : String
  pub price_cents : ℕ
  pub monthly_credits : ℕ
  pub bonus_credits : Option ℕ

pub record CreditPack : Type 0 where
  pub id : String
  pub label : String
  pub amount_cents : ℕ
  pub credits : ℕ

abbrev pub subscription_plans : List SubscriptionPlan
subscription_plans =
    record {
      id = "starter";
      label = "Starter";
      price_cents = 5_000;
      monthly_credits = 20_000;
      bonus_credits = none;
    }
    ∷ record {
      id = "small";
      label = "Small";
      price_cents = 7_500;
      monthly_credits = 30_000;
      bonus_credits = none;
    }
    ∷ record {
      id = "team";
      label = "Team";
      price_cents = 10_000;
      monthly_credits = 40_000;
      bonus_credits = none;
    }
    ∷ record {
      id = "business";
      label = "Business";
      price_cents = 20_000;
      monthly_credits = 80_000;
      bonus_credits = none;
    }
    ∷ record {
      id = "scale";
      label = "Scale";
      price_cents = 30_000;
      monthly_credits = 125_000;
      bonus_credits = some 5_000;
    }
    ∷ []

abbrev pub credit_packs : List CreditPack
credit_packs =
    record { id = "starter"; label = "Starter — $25"; amount_cents = 2_500; credits = 10_000 }
    ∷ record { id = "growth"; label = "Growth — $50"; amount_cents = 5_000; credits = 20_000 }
    ∷ record { id = "scale"; label = "Scale — $100"; amount_cents = 10_000; credits = 40_000 }
    ∷ record { id = "pro"; label = "Pro — $250"; amount_cents = 25_000; credits = 100_000 }
    ∷ []

unfoldable pub find_plan : String → Option SubscriptionPlan
find_plan plan_id = find (λ plan. str_eq plan.id plan_id) subscription_plans

unfoldable pub find_pack : String → Option CreditPack
find_pack pack_id = find (λ pack. str_eq pack.id pack_id) credit_packs

-- The tests of the two loops that run at load; a list that fails one throws.
pub plan_priced : SubscriptionPlan → Bool
plan_priced plan =
    plan.monthly_credits * 100
    == plan.price_cents * credits_per_dollar + 100 * or_else plan.bonus_credits 0

pub pack_priced : CreditPack → Bool
pack_priced pack = pack.credits * 100 == pack.amount_cents * credits_per_dollar

pub loads : List SubscriptionPlan → List CreditPack → Bool
unfolding plan_priced pack_priced
loads plans packs = all plan_priced plans && all pack_priced packs
