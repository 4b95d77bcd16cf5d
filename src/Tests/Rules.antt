-- ===== src/Tests/Rules.antt =====
-- Tests and witnesses for the rules.
use gomer.Base.{◌+◌, ◌-◌, ◌*◌, ◌≤◌, ◌≡◌, refl, false, none, some, [], ◌∷◌, All, length, max}
use gomer.Base.Int.{pos, negsuc, pos_part, abs_ℤ}
use gomer.Rules.Types.{
  AdRule, cpa, gt, campaign, scale, alert, action_eq, InsightRow, fin, returned,
}
use gomer.Rules.Metrics.{scaled_budget, clamp_pct, pick_purchase_value}
use gomer.Rules.Metrics.Laws.{scaled_budget-within}
use gomer.Rules.Platform.{Platform, RulesDb}
use gomer.Rules.Engine.{evaluate_rule, run_due_rules, used_today, acts}
use gomer.Rules.Engine.Reports.{Answers, evaluate_rule-calls, run_due_rules-reports}
use gomer.Rules.Crud.{CreateRuleInput, create, rule_of}
use gomer.Rules.Crud.Laws.{IsValid}
use gomer.Rules.History.{Reachable, started, stepped, created, waited, ran, empty, mutations_in}
use gomer.Rules.History.Cap.{Reachable-daily_cap, Reachable-IsValid}

-- A campaign that has spent 80 without a purchase.
abbrev row : InsightRow
row = record {
  spend = some (fin (pos 800_000));
  ctr = none;
  cpc = none;
  campaign_id = some "c1";
  campaign_name = some "Summer";
  adset_id = none;
  adset_name = none;
  cost_per_action_type = none;
  purchase_roas = none;
}

-- A platform that knows that campaign and accepts every change; tasks fire every minute.
abbrev platform : Platform
platform = record {
  access_token = λ w u. returned (some "token");
  insights = λ token ad_account scope since until. returned (some (row ∷ row ∷ []));
  list_budgets =
      λ token scope ad_account. returned (record { id = some "c1"; amount = some 5_000 } ∷ []);
  update = λ calls call. returned tt;
  verify = λ w u ad_account since until. returned (none, []);
  next_after = λ cron timezone t. some (t + 60_000);
}

-- Scale down by 60 per cent, within a limit of 25, when a purchase costs more than 30.
abbrev input : CreateRuleInput
input = record {
  name = "cut";
  ad_account_id = "act_1";
  scope = campaign;
  metric = cpa;
  comparator = gt;
  threshold = pos 300_000;
  window_days = none;
  action = scale;
  scale_pct = some (negsuc 59);
  cron_expression = "* * * * *";
  timezone = none;
  slack_channel_id = some "C1";
  auto_execute = none;
  max_scale_pct = none;
  max_actions_per_run = some 1;
  daily_action_cap = none;
}

abbrev with_cut : RulesDb
with_cut = (create platform 7 (some 3) input empty).1

abbrev due : RulesDb
due = record with_cut { now = with_cut.now + 60_000 }

abbrev after_run : RulesDb
after_run = (run_due_rules platform due).1

abbrev cut : AdRule
cut = rule_of input 7 (some 3) 60_000 empty

reached : Reachable platform after_run
reached =
    stepped due after_run
      (stepped with_cut due (stepped empty with_cut started (created 7 (some 3) input empty))
        (waited 60_000 with_cut))
      (ran due)

-- One of the two breaches is acted on.
run_acts : (length after_run.calls ≡ 1) × (length after_run.actions ≡ 1)
unfolding run_due_rules create
run_acts = (refl, refl)

-- 5,000 less a quarter.
scaling_runs : scaled_budget 5_000 (clamp_pct (negsuc 59) (pos 25)) ≡ 3_750
unfolding scaled_budget clamp_pct
scaling_runs = refl

Reachable-daily_cap_example :
    All
      (λ r.
        action_eq r.action alert ≡ false
        → mutations_in r.id r.action 60_000 after_run.actions ≤ r.daily_action_cap)
      after_run.rules
Reachable-daily_cap_example = Reachable-daily_cap platform after_run 60_000 reached

Reachable-IsValid_example : All IsValid after_run.rules
Reachable-IsValid_example = Reachable-IsValid platform after_run reached

evaluate_rule-calls_example :
    let after = (evaluate_rule platform cut due).1 in
    (length after.calls ≤ length due.calls + 1)
    × (length after.calls ≤ length due.calls + (25 - used_today cut due.now due.actions))
    × (acts cut ≡ false → after.calls ≡ due.calls)
evaluate_rule-calls_example = evaluate_rule-calls platform cut due

abbrev with_one : RulesDb
with_one = record { rules = cut ∷ []; actions = []; calls = []; next_id = 1; now = 60_000 }

run_due_rules-reports_example : Answers (run_due_rules platform with_one).0 (cut ∷ [])
run_due_rules-reports_example = run_due_rules-reports platform with_one ((λ t. refl), tt)

scaled_budget-within_example :
    let next = scaled_budget 5_000 (clamp_pct (negsuc 59) (pos 25)) in
    (1 ≤ next)
    × (100 * next ≤ max (5_000 * (100 + pos_part (abs_ℤ (pos 25))) + 50) 100)
    × (5_000 * (100 - pos_part (abs_ℤ (pos 25))) ≤ 100 * next + 50)
scaled_budget-within_example = scaled_budget-within 5_000 (negsuc 59) (pos 25)

no_purchase : pick_purchase_value row.cost_per_action_type ≡ none
unfolding pick_purchase_value
no_purchase = refl
