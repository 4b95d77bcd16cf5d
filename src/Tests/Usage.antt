-- ===== src/Tests/Usage.antt =====
-- Tests and witnesses for credit accounting.
use Prim.Native.Nat.{min, max}
use gomer.Base.{
  ◌+◌, ◌-◌, ◌*◌, ◌≡◌, refl, true, none, some, List, [], ◌∷◌, ◌++◌, arith, sum_of, find, is_some,
  if◌then◌else◌, map, All,
}
use gomer.Usage.Types.{CreditBucket, CreditGrant, Ledger}
use gomer.Usage.Planner.{SpendableGrant, plan_allocations, plan_from, spend_index}
use gomer.Base.Sort.{sort_by}
use gomer.Usage.Planner.Laws.{drawn_before, held_before, plan_allocations-drawn_before}
use gomer.Usage.Planner.Order.{grants_at, allocations_at, plan_allocations-allocations_at}
use gomer.Usage.Pricing.{ModelDefinition, credits_for, definition_for, gateway}
use gomer.Usage.Ledger.{
  record_event, grant_credits, grant_onboarding_credits, is_onboarding_grant_of, grant_of,
}
use gomer.Usage.Ledger.Invariant.{IsSound, record_event-IsSound}
use gomer.Usage.Balance.{get_balance}
use gomer.Usage.Balance.Laws.{spent_of, balance_partition}
use gomer.Usage.Balance.Moves.{record_event-moves, record_event-paid, grant_credits-moves}
use gomer.Usage.Balance.Trial.{grant_onboarding_credits-once}
use gomer.Usage.Days.{analytics_series, scoped_events, day_of}
use gomer.Usage.Days.Groups.{used_on}
use gomer.Usage.Days.Points.{days_from}
use gomer.Usage.Days.Laws.{analytics_series-total}
use gomer.Tests.Data.{ledger, run, config, top_up, window}

abbrev grants : List SpendableGrant
grants =
    record { id = 1; bucket = CreditBucket.topup; remaining = 40 }
    ∷ record { id = 2; bucket = CreditBucket.plan; remaining = 10 }
    ∷ record { id = 3; bucket = CreditBucket.rollover; remaining = 5 }
    ∷ record { id = 4; bucket = CreditBucket.plan; remaining = 20 }
    ∷ []

plan_runs : map (λ a. a.grant_id) (plan_allocations grants 30) ≡ 3 ∷ 2 ∷ 4 ∷ []
unfolding plan_allocations sort_by spend_index
plan_runs = refl

ledger-IsSound : IsSound ledger
ledger-IsSound = record {
  distinct = λ i. ground arith;
  fresh = omega arith;
  known = omega arith;
  within = omega arith;
}

plan_allocations-drawn_before_example :
    drawn_before 3 (plan_allocations grants 30) ≡ min 30 (held_before 3 grants)
plan_allocations-drawn_before_example = plan_allocations-drawn_before 3 grants 30

plan_allocations-allocations_at_example :
    allocations_at 2 (plan_allocations grants 30)
    ≡ plan_from (30 - held_before 2 grants) (grants_at 2 grants)
plan_allocations-allocations_at_example = plan_allocations-allocations_at 2 grants 30

record_event-IsSound_example : IsSound (record_event config run ledger).1
record_event-IsSound_example = record_event-IsSound config run ledger ledger-IsSound

record_event-moves_example :
    let cost = credits_for config run.model run.input_tokens run.output_tokens in
    let old = get_balance ledger 7 in
    let new = get_balance (record_event config run ledger).1 7 in
    (new.balance ≡ old.balance - cost) × (new.used ≡ old.used + cost)
record_event-moves_example = record_event-moves config run ledger 7 ledger-IsSound

record_event-paid_example :
    sum_of (λ a. a.credits) (record_event config run ledger).1.allocations
    ≡ sum_of (λ a. a.credits) ledger.allocations
      + min
          (credits_for config run.model run.input_tokens run.output_tokens)
          (get_balance ledger 7).balance
record_event-paid_example = record_event-paid config run ledger

balance_partition_example :
    let b = get_balance ledger 7 in
    b.granted ≡ b.balance + b.expired + sum_of (spent_of ledger 7) ledger.grants
balance_partition_example = balance_partition ledger 7 ledger-IsSound

abbrev topped_up : CreditGrant
topped_up = grant_of top_up ledger

abbrev after_top_up : Ledger
after_top_up = record ledger { grants = ledger.grants ++ topped_up ∷ []; next_id = 11 }

top_up_saved : grant_credits top_up ledger ≡ some (topped_up, after_top_up)
unfolding grant_credits
top_up_saved = refl

grant_credits-moves_example :
    ((get_balance after_top_up 8).balance ≡ (get_balance ledger 8).balance + 10_000)
    × ((get_balance after_top_up 8).granted ≡ (get_balance ledger 8).granted + 10_000)
grant_credits-moves_example =
    grant_credits-moves top_up ledger 8 topped_up after_top_up ledger-IsSound top_up_saved refl

grant_onboarding_credits-once_example :
    (g : CreditGrant) × (l' : Ledger) × (grant_onboarding_credits 7 5 ledger
      ≡ some (if is_some (find (is_onboarding_grant_of 7) ledger.grants) then none else some g, l'))
    × (g.credits ≡ max 40_000 (10_000 * max 1 5))
    × (g.bucket ≡ CreditBucket.reward)
    × (g.expires_at ≡ none)
    × (grant_onboarding_credits 7 9 l' ≡ some (none, l'))
grant_onboarding_credits-once_example = grant_onboarding_credits-once 7 5 9 ledger

retired : definition_for config "retired" ≡ none
unfolding definition_for
retired = refl

abbrev opus : ModelDefinition
opus = record {
  id = "claude-opus-4-8";
  name = "Claude Opus 4.8";
  provider = gateway;
  input_price_per_million = 5_000_000;
  output_price_per_million = 25_000_000;
  cost_input_price_per_million = none;
  cost_output_price_per_million = none;
  supports_tools = true;
  supports_remote_mcp = true;
}

analytics_series-total_example :
    let s = analytics_series (record_event config run ledger).1 7 window in
    let events = scoped_events (record_event config run ledger).1 7 window in
    let total = sum_of (λ e. e.credits_used) events in
    (map (λ p. p.day) s.daily
      ≡ days_from (day_of window.to + 1 - day_of window.from) (day_of window.from))
    × All (λ p. p.credits ≡ used_on p.day events) s.daily
    × (sum_of (λ p. p.credits) s.daily ≡ total)
    × (s.total_credits ≡ total)
    × (s.days ≡ day_of window.to + 1 - day_of window.from)
analytics_series-total_example = analytics_series-total (record_event config run ledger).1 7 window

charge : credits_for config "claude-opus-4-8" 20_000 4_500 ≡ 85
unfolding credits_for
charge = refl

balance_runs : (get_balance ledger 7).balance ≡ 120
unfolding get_balance
balance_runs = refl

-- 7 credits cover the tokens exactly, but the sum of the doubles is just above 7.
charge_up : credits_for config "retired" 105 679 ≡ 8
unfolding credits_for
charge_up = refl
