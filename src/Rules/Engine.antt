-- ===== src/Rules/Engine.antt =====
-- The evaluation of rules (src/rules/rules.service.ts): `evaluateRule`, `executeMutations`,
-- `applyAction`, `evaluateVerifiedRoas` and `runDueRules`. The Meta API, the ROAS verifier, the store of
-- access tokens and the cron parser are a `Platform`; the texts of messages are data. The clock of the
-- database stands still during one call of an operation.
pub mod Growth
pub mod Caps
pub mod Reports
use Prim.Native.Nat.{min, max}
use gomer.Base.{
  ℕ, suc, ◌+◌, ◌-◌, ◌*◌, ◌/◌, Bool, true, false, not, ◌&&◌, ◌||◌, Option, none, some, List, [], ◌∷◌,
  ◌++◌, map, keep, sum_of, length, take, leb, ltb, ◌==◌, if◌then◌else◌, or_else,
}
use gomer.Base.Int.{ℤ, pos}
use gomer.Base.Text.{String, str_eq}
use gomer.Rules.Types.{
  RuleMetric, RuleScope, RuleActionType, alert, pause, scale, is_verified_roas, is_account,
  is_adset, action_eq, JsNumber, nan, infinite, fin, AdRule, AdRuleAction, InsightRow, Breach,
  Outcome, returned, thrown,
}
use gomer.Rules.Metrics.{extract_metric, breaches, clamp_pct, scaled_budget}
use gomer.Rules.Platform.{
  MetaChange, MetaCall, Budget, Platform, RulesDb, ReportMessage, RuleRunReport, report, day,
  window, metric_value_of, record_action, paused, daily_budget, no_connection, could_not_run,
  roas_unknown, roas_breached, alerted, cap_reached, acted,
}

-- The breaching rows, in their order.
unfoldable pub find_breaches : AdRule → List InsightRow → List Breach
unfolding extract_metric breaches
find_breaches r [] = []
find_breaches r (row ∷ rows) =
    let rest = find_breaches r rows in
    elim (extract_metric row r.metric) [
      | none ↦ rest
      | some value ↦
          if not (breaches value r)
          then rest
          else record {
            entity_id = if is_adset r.scope then row.adset_id else row.campaign_id;
            entity_name = if is_adset r.scope then row.adset_name else row.campaign_name;
            value = value;
          }
            ∷ rest
    ]

-- `if (!text)`: an absent or an empty text.
abbrev pub is_blank : Option String → Bool
is_blank none = true
is_blank (some s) = str_eq s ""

-- `budgets.get`, where of several rows with one id the last counts.
unfoldable pub get_budget : String → List Budget → Option ℕ
get_budget id [] = none
get_budget id (b ∷ bs) = elim (get_budget id bs) [
  | some later ↦ some later
  | none ↦ if not (is_blank b.id) && str_eq (or_else b.id "") id then b.amount else none
]

abbrev pub send : Platform → MetaCall → RulesDb → Outcome Unit × RulesDb
send p call db = (p.update db.calls call, record db { calls = db.calls ++ call ∷ [] })

-- The scaling of `applyAction`; a missing budget throws before anything is sent.
unfoldable pub scale_entity :
    Platform → AdRule → String → List Budget → RulesDb → Outcome Unit × RulesDb
unfolding clamp_pct scaled_budget get_budget
scale_entity p r entity budgets db = elim (get_budget entity budgets) [
  | none ↦ (thrown "no daily budget at this level to scale", db)
  | some current ↦
      let pct = clamp_pct (or_else r.scale_pct (pos 0)) r.max_scale_pct in
      send p
        (record {
          scope = r.scope;
          entity_id = entity;
          change = daily_budget (scaled_budget current pct);
        })
        db
]

unfoldable pub apply_action :
    Platform → AdRule → String → List Budget → RulesDb → Outcome Unit × RulesDb
unfolding scale_entity
apply_action p r entity budgets db =
    if action_eq r.action pause
    then send p (record { scope = r.scope; entity_id = entity; change = paused }) db
    else scale_entity p r entity budgets db

-- The variables of the loop of `executeMutations`: `done` and `failed` by their lengths.
pub record Progress : Type 0 where
  pub db : RulesDb
  pub done : ℕ
  pub failed : ℕ

abbrev pub settle : AdRule → Breach → Outcome Unit × RulesDb → Progress → Progress
settle r b (returned u, db) s = record s {
  db = record_action r b r.action true none db;
  done = suc s.done;
}
settle r b (thrown e, db) s = record s {
  db = record_action r b r.action false (some e) db;
  failed = suc s.failed;
}

unfoldable pub mutate : Platform → AdRule → List Budget → List Breach → Progress → Progress
unfolding apply_action
mutate p r budgets [] s = s
mutate p r budgets (b ∷ bs) s =
    if is_blank b.entity_id
    then mutate p r budgets bs s
    else mutate p r budgets bs
        (settle r b (apply_action p r (or_else b.entity_id "") budgets s.db) s)

-- A row that the daily cap counts: a successful action of the rule.
abbrev pub counted : AdRule → AdRuleAction → Bool
counted r a = a.rule_id == r.id && (a.success && action_eq a.action r.action)

-- `usedToday`: the rows counted since 24 hours before now.
unfoldable pub used_today : AdRule → ℕ → List AdRuleAction → ℕ
used_today r now = sum_of (λ a. if counted r a && ltb now (a.created_at + day) then 1 else 0)

unfoldable pub action_cap : AdRule → RulesDb → ℕ
unfolding used_today
action_cap r db =
    min r.max_actions_per_run (max (r.daily_action_cap - used_today r db.now db.actions) 0)

abbrev pub action_message : ℕ → ℕ → ℕ → Option ReportMessage
action_message done failed skipped =
    if done == 0 && failed == 0 then none else some (acted done failed skipped)

-- `rule.action === 'scale' ? await this.loadBudgets(rule, token) : new Map()`
abbrev pub budgets_for : Platform → AdRule → String → Outcome (List Budget)
budgets_for p r token =
    if action_eq r.action scale then p.list_budgets token r.scope r.ad_account_id else returned []

unfoldable pub execute_mutations :
    Platform → AdRule → String → List Breach → RulesDb → Outcome RuleRunReport × RulesDb
unfolding mutate action_cap
execute_mutations p r token found db =
    let cap = action_cap r db in
    if cap == 0
    then (returned (report r (some (cap_reached (length found)))), db)
    else elim (budgets_for p r token) [
      | thrown e ↦ (thrown e, db)
      | returned budgets ↦
          let s = mutate p r budgets (take cap found) (record { db = db; done = 0; failed = 0 }) in
          let skipped = length found - min (length found) cap in
          (returned (report r (action_message s.done s.failed skipped)), s.db)
    ]

-- The alerts of a rule that does not act.
unfoldable pub record_alerts : AdRule → List Breach → RulesDb → RulesDb
record_alerts r [] db = db
record_alerts r (b ∷ bs) db = record_alerts r bs (record_action r b alert true none db)

unfoldable pub evaluate_verified_roas :
    Platform → AdRule → RulesDb → Outcome RuleRunReport × RulesDb
unfolding breaches
evaluate_verified_roas p r db =
    let (since, until) = window db.now r.window_days in
    elim (p.verify r.workspace_id r.created_by_user_id r.ad_account_id since until) [
      | thrown e ↦ (thrown e, db)
      | returned (none, []) ↦ (returned (report r (some (roas_unknown "no data"))), db)
      | returned (none, caveat ∷ _) ↦ (returned (report r (some (roas_unknown caveat))), db)
      | returned (some value, _) ↦
          if not (breaches value r) then (returned (report r none), db) else (
            returned (report r (some (roas_breached value))),
            record_action r
                (record {
                  entity_id = some r.ad_account_id;
                  entity_name = some r.ad_account_id;
                  value = value;
                })
                alert true none db,
          )
    ]

-- `actOnly`
abbrev pub acts : AdRule → Bool
acts r = not (action_eq r.action alert) && (r.auto_execute && not (is_account r.scope))

-- What is done about the breaches.
unfoldable pub respond :
    Platform → AdRule → String → List Breach → RulesDb → Outcome RuleRunReport × RulesDb
unfolding execute_mutations record_alerts
respond p r token [] db = (returned (report r none), db)
respond p r token (b ∷ bs) db =
    let found = b ∷ bs in
    let shown = take r.max_actions_per_run found in
    if not (acts r)
    then (returned (report r (some (alerted (length found) shown))), record_alerts r shown db)
    else execute_mutations p r token found db

unfoldable pub evaluate_rule : Platform → AdRule → RulesDb → Outcome RuleRunReport × RulesDb
unfolding evaluate_verified_roas respond find_breaches
evaluate_rule p r db = elim (p.access_token r.workspace_id r.created_by_user_id) [
  | thrown e ↦ (thrown e, db)
  | returned none ↦ (returned (report r (some no_connection)), db)
  | returned (some token) ↦
      let (since, until) = window db.now r.window_days in
      if is_verified_roas r.metric
      then evaluate_verified_roas p r db
      else elim (p.insights token r.ad_account_id r.scope since until) [
        | thrown e ↦ (thrown e, db)
        | returned rows ↦ respond p r token (find_breaches r (or_else rows [])) db
      ]
]

-- `nextRunFrom`
abbrev pub next_run_from : Platform → String → Option String → ℕ → Outcome ℕ
next_run_from p cron timezone now = elim (p.next_after cron timezone now) [
  | none ↦ thrown "Invalid cron expression"
  | some t ↦ returned t
]

abbrev pub save_rule : AdRule → List AdRule → List AdRule
save_rule r rules = map (λ s. if s.id == r.id then r else s) rules

abbrev pub is_due : ℕ → AdRule → Bool
is_due now r = r.is_active && elim r.next_run [ none ↦ false | some t ↦ leb t now ]

-- The report of a rule, also of one that threw.
abbrev pub report_of : AdRule → Outcome RuleRunReport → RuleRunReport
report_of r (returned rep) = rep
report_of r (thrown e) = report r (some (could_not_run e))

abbrev pub add_report : RuleRunReport → Outcome (List RuleRunReport) → Outcome (List RuleRunReport)
add_report rep (returned reps) = returned (rep ∷ reps)
add_report rep (thrown e) = thrown e

-- The loop of `runDueRules`: an expression that does not parse throws out of the `finally` block.
unfoldable pub run_rules : Platform → List AdRule → RulesDb → Outcome (List RuleRunReport) × RulesDb
unfolding evaluate_rule
run_rules p [] db = (returned [], db)
run_rules p (r ∷ rs) db =
    let (out, after) = evaluate_rule p r db in
    elim (next_run_from p r.cron_expression r.timezone after.now) [
      | thrown e ↦ (thrown e, after)
      | returned t ↦
          let ran = record r { last_run = some after.now; next_run = some t } in
          let (reps, last) = run_rules p rs (record after { rules = save_rule ran after.rules }) in
          (add_report (report_of r out) reps, last)
    ]

unfoldable pub run_due_rules : Platform → RulesDb → Outcome (List RuleRunReport) × RulesDb
unfolding run_rules
run_due_rules p db = run_rules p (keep (is_due db.now) db.rules) db
