-- ===== src/Rules/Engine/Reports.antt =====
-- The reports of `evaluateRule` and `runDueRules` (src/rules/rules.service.ts), and the changes that an
-- evaluation sends to Meta.
use gomer.Base.{
  ℕ, ◌+◌, ◌-◌, ◌∷◌, [], ◌≤◌, ◌≡◌, refl, List, true, false, Bool-cases, inl, inr, Option-cases,
  arith, some, none, length, take, or_else, All, ◌==◌, map, keep, is_some,
}
use gomer.Base.Text.{String}
use gomer.Rules.Types.{
  AdRule, alert, is_verified_roas, Breach, Outcome, Outcome-cases, returned, thrown,
}
use gomer.Rules.Platform.{RulesDb, Platform, record_action, window, RuleRunReport}
use gomer.Rules.Engine.{
  execute_mutations, action_cap, budgets_for, evaluate_verified_roas, find_breaches, respond, acts,
  evaluate_rule, used_today, record_alerts, run_rules, run_due_rules, is_due, save_rule, add_report,
  report_of,
}
use gomer.Rules.Metrics.{breaches}
use gomer.Rules.Engine.Caps.{evaluate_rule-Within}

-- An evaluation that returns a report returns one of its own rule.
abbrev IsOwnReport : AdRule → Outcome RuleRunReport → Type 0
IsOwnReport r (returned rep) = rep.rule_id ≡ r.id
IsOwnReport r (thrown e) = Unit

-- The result of a rule's evaluation that keeps to itself.
abbrev Proper : AdRule → RulesDb → Outcome RuleRunReport × RulesDb → Type 0
Proper r db (out, after) = IsOwnReport r out × (acts r ≡ false → after.calls ≡ db.calls)

record_alerts-calls :
    (r : AdRule) (bs : List Breach) (db : RulesDb) → (record_alerts r bs db).calls ≡ db.calls
unfolding record_alerts
record_alerts-calls r [] db = refl
record_alerts-calls r (b ∷ bs) db = record_alerts-calls r bs (record_action r b alert true none db)

evaluate_verified_roas-Proper :
    (p : Platform) (r : AdRule) (db : RulesDb) → Proper r db (evaluate_verified_roas p r db)
unfolding evaluate_verified_roas
evaluate_verified_roas-Proper p r db =
    let ends = window db.now r.window_days in
    elim (Outcome-cases
      (p.verify r.workspace_id r.created_by_user_id r.ad_account_id ends.0 ends.1)) [
        | inr (e, failed) ↦ rw (failed, evaluate_verified_roas) (tt, λ q. refl)
        | inl ((none, []), done) ↦ rw (done, evaluate_verified_roas) (refl, λ q. refl)
        | inl ((none, c ∷ cs), done) ↦ rw (done, evaluate_verified_roas) (refl, λ q. refl)
        | inl ((some v, cs), done) ↦ elim (Bool-cases (breaches v r)) [
          | inl e ↦ rw (done, e, evaluate_verified_roas) (refl, λ q. refl)
          | inr e ↦ rw (done, e, evaluate_verified_roas) (refl, λ q. refl)
        ]
      ]

execute_mutations-IsOwnReport :
    (p : Platform) (r : AdRule) (token : String) (found : List Breach) (db : RulesDb)
    → IsOwnReport r (execute_mutations p r token found db).0
unfolding execute_mutations
execute_mutations-IsOwnReport p r token found db = elim (Bool-cases (action_cap r db == 0)) [
  | inl e ↦ rw (e, execute_mutations) refl
  | inr e ↦ elim (Outcome-cases (budgets_for p r token)) [
    | inr (x, failed) ↦ rw (e, failed, execute_mutations) tt
    | inl (budgets, loaded) ↦ rw (e, loaded, execute_mutations) refl
  ]
]

respond-Proper :
    (p : Platform) (r : AdRule) (token : String) (found : List Breach) (db : RulesDb)
    → Proper r db (respond p r token found db)
unfolding respond
respond-Proper p r token [] db = (refl, λ q. refl)
respond-Proper p r token (b ∷ bs) db = elim (Bool-cases (acts r)) [
  | inl e ↦ rw (e, respond) (execute_mutations-IsOwnReport p r token (b ∷ bs) db, λ q. cc)
  | inr e ↦
      rw (e, respond) (refl, λ q. record_alerts-calls r (take r.max_actions_per_run (b ∷ bs)) db)
]

evaluate_rule-Proper :
    (p : Platform) (r : AdRule) (db : RulesDb) → Proper r db (evaluate_rule p r db)
unfolding evaluate_rule
evaluate_rule-Proper p r db =
    let ends = window db.now r.window_days in
    elim (Outcome-cases (p.access_token r.workspace_id r.created_by_user_id)) [
      | inr (e, failed) ↦ rw (failed, evaluate_rule) (tt, λ q. refl)
      | inl (none, done) ↦ rw (done, evaluate_rule) (refl, λ q. refl)
      | inl (some token, done) ↦ elim (Bool-cases (is_verified_roas r.metric)) [
        | inl e ↦ rw (done, e, evaluate_rule) (evaluate_verified_roas-Proper p r db)
        | inr e ↦ elim (Outcome-cases (p.insights token r.ad_account_id r.scope ends.0 ends.1)) [
          | inr (x, failed) ↦ rw (done, e, failed, evaluate_rule) (tt, λ q. refl)
          | inl (rows, read) ↦
              rw (done, e, read, evaluate_rule)
                (respond-Proper p r token (find_breaches r (or_else rows [])) db)
        ]
      ]
    ]

-- Evaluating a rule sends Meta no more changes than its limit for one run, nor than its daily cap
-- leaves, whatever fails on the way; and none at all if the rule only alerts, is not to act by itself
-- or watches a whole account.
pub evaluate_rule-calls :
    (p : Platform) (r : AdRule) (db : RulesDb)
    → let after = (evaluate_rule p r db).1 in
      (length after.calls ≤ length db.calls + r.max_actions_per_run)
      × (length after.calls
          ≤ length db.calls + (r.daily_action_cap - used_today r db.now db.actions))
      × (acts r ≡ false → after.calls ≡ db.calls)
unfolding action_cap
evaluate_rule-calls p r db =
    let few = (evaluate_rule-Within p r db).1 in
    (omega (arith, few), omega (arith, few), (evaluate_rule-Proper p r db).1)

-- The cron expressions of the rules parse, at any time.
abbrev pub Parses : Platform → AdRule → Type 0
Parses p r = (t : ℕ) → is_some (p.next_after r.cron_expression r.timezone t) ≡ true

abbrev pub Answers : Outcome (List RuleRunReport) → List AdRule → Type 0
Answers out rs =
    (reps : List RuleRunReport) × (out ≡ returned reps)
    × (map (λ rep. rep.rule_id) reps ≡ map (λ r. r.id) rs)

missing_next :
    (p : Platform) (r : AdRule) (t : ℕ)
    → Parses p r
    → p.next_after r.cron_expression r.timezone t ≡ none
    → ⊥
missing_next p r t h e =
    let some_there : is_some (p.next_after r.cron_expression r.timezone t) ≡ true = h t in cc

report_of-id :
    (r : AdRule) (out : Outcome RuleRunReport)
    → IsOwnReport r out
    → (report_of r out).rule_id ≡ r.id
report_of-id r (returned rep) own = own
report_of-id r (thrown e) own = refl

add_report-Answers :
    (r : AdRule) (rep : RuleRunReport) (out : Outcome (List RuleRunReport)) (rs : List AdRule)
    → rep.rule_id ≡ r.id
    → Answers out rs
    → Answers (add_report rep out) (r ∷ rs)
add_report-Answers r rep out rs own (reps, e, ids) = (rep ∷ reps, rw e refl, cc)

run_rules-Answers :
    (p : Platform) (rs : List AdRule) (db : RulesDb)
    → All (Parses p) rs
    → Answers (run_rules p rs db).0 rs
unfolding run_rules
run_rules-Answers p [] db h = ([], refl, refl)
run_rules-Answers p (r ∷ rs) db h =
    let ran = evaluate_rule p r db in
    elim (Option-cases (p.next_after r.cron_expression r.timezone ran.1.now)) [
      | inl missing ↦ elim (missing_next p r ran.1.now h.0 missing) [ ]
      | inr (t, there) ↦
          let next = record r { last_run = some ran.1.now; next_run = some t } in
          rw (there, run_rules)
            (add_report-Answers r (report_of r ran.0) _ rs
              (report_of-id r ran.0 (evaluate_rule-Proper p r db).0)
              (run_rules-Answers p rs (record ran.1 { rules = save_rule next ran.1.rules }) h.1))
    ]

-- The scheduler's run answers with one report for each rule that is due, in their order, also for
-- rules whose evaluation throws, if the cron expressions of the due rules parse.
pub run_due_rules-reports :
    (p : Platform) (db : RulesDb)
    → All (Parses p) (keep (is_due db.now) db.rules)
    → Answers (run_due_rules p db).0 (keep (is_due db.now) db.rules)
unfolding run_due_rules
run_due_rules-reports p db h = run_rules-Answers p (keep (is_due db.now) db.rules) db h
