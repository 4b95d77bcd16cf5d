-- ===== src/Rules/Engine/Caps.antt =====
-- The rows and calls that an evaluation (`evaluateRule` of src/rules/rules.service.ts) adds.
use gomer.Base.{
  ℕ, suc, ◌+◌, ◌∷◌, [], ◌≤◌, ◌≡◌, refl, List, true, false, Bool-cases, inl, inr, Option-cases,
  arith, some, none, length, length-append, take, length-take-le, or_else, ◌==◌,
}
use gomer.Base.Text.{String}
use gomer.Rules.Types.{
  AdRule, alert, pause, action_eq, is_verified_roas, Breach, Outcome, Outcome-cases, returned,
  thrown,
}
use gomer.Rules.Platform.{RulesDb, Platform, Budget, record_action, window, MetaCall}
use gomer.Rules.Engine.{
  Progress, settle, apply_action, mutate, is_blank, record_alerts, execute_mutations, action_cap,
  budgets_for, evaluate_verified_roas, find_breaches, respond, acts, evaluate_rule, send,
  get_budget, scale_entity,
}
use gomer.Rules.Metrics.{breaches}
use gomer.Rules.Engine.Growth.{
  Grows, Grows-from, Grows-refl, Grows-trans, Grows-mono, record_action-Grows,
  record_action-Grows-alert,
}

-- An action on one entity sends one call at the most and touches no table.
record Sends (db db' : RulesDb) : Type 0 where
  pub same_actions : db'.actions ≡ db.actions
  pub same_rules : db'.rules ≡ db.rules
  pub same_now : db'.now ≡ db.now
  pub same_ids : db'.next_id ≡ db.next_id
  pub few : length db'.calls ≤ length db.calls + 1

send-Sends : (p : Platform) (call : MetaCall) (db : RulesDb) → Sends db (send p call db).1
send-Sends p call db = record {
  same_actions = refl;
  same_rules = refl;
  same_now = refl;
  same_ids = refl;
  few = omega (arith, length-append db.calls (call ∷ []));
}

Sends-refl : (db : RulesDb) → Sends db db
Sends-refl db = record {
  same_actions = refl;
  same_rules = refl;
  same_now = refl;
  same_ids = refl;
  few = omega arith;
}

scale_entity-Sends :
    (p : Platform) (r : AdRule) (entity : String) (budgets : List Budget) (db : RulesDb)
    → Sends db (scale_entity p r entity budgets db).1
unfolding scale_entity
scale_entity-Sends p r entity budgets db = elim (Option-cases (get_budget entity budgets)) [
  | inl missing ↦ rw (missing, scale_entity) (Sends-refl db)
  | inr (current, there) ↦ rw (there, scale_entity) (send-Sends p _ db)
]

apply_action-Sends :
    (p : Platform) (r : AdRule) (entity : String) (budgets : List Budget) (db : RulesDb)
    → Sends db (apply_action p r entity budgets db).1
unfolding apply_action
apply_action-Sends p r entity budgets db = elim (Bool-cases (action_eq r.action pause)) [
  | inl e ↦ rw e (send-Sends p _ db)
  | inr e ↦ rw e (scale_entity-Sends p r entity budgets db)
]

-- What a run of the loop over `k` breaches may do.
abbrev Within : AdRule → ℕ → RulesDb → RulesDb → Type 0
Within r k db db' = Grows r k db db' × (length db'.calls ≤ length db.calls + k)

settle-Within :
    (r : AdRule) (b : Breach) (out : Outcome Unit) (db : RulesDb) (s : Progress)
    → Sends s.db db
    → Within r 1 s.db (settle r b (out, db) s).db
settle-Within r b (returned u) db s k = (
  Grows-from r 1 s.db db _ k.same_actions k.same_rules k.same_now k.same_ids
      (record_action-Grows r b r.action true none db),
  k.few,
)
settle-Within r b (thrown e) db s k = (
  Grows-from r 1 s.db db _ k.same_actions k.same_rules k.same_now k.same_ids
      (record_action-Grows r b r.action false (some e) db),
  k.few,
)

Within-trans :
    (r : AdRule) (j k : ℕ) (a b c : RulesDb)
    → Within r j a b
    → Within r k b c
    → Within r (j + k) a c
Within-trans r j k a b c g h = (Grows-trans r j k a b c g.0 h.0, omega (arith, g.1, h.1))

Within-mono : (r : AdRule) (j k : ℕ) (a b : RulesDb) → j ≤ k → Within r j a b → Within r k a b
Within-mono r j k a b le g = (Grows-mono r j k a b le g.0, omega (arith, g.1))

mutate-Within :
    (p : Platform) (r : AdRule) (budgets : List Budget) (bs : List Breach) (s : Progress)
    → Within r (length bs) s.db (mutate p r budgets bs s).db
unfolding mutate
mutate-Within p r budgets [] s = (Grows-refl r s.db, omega arith)
mutate-Within p r budgets (b ∷ bs) s = elim (Bool-cases (is_blank b.entity_id)) [
  | inl e ↦ rw e (
      Within-mono r (length bs) (suc (length bs)) s.db _ (omega arith)
        (mutate-Within p r budgets bs s))
  | inr e ↦
      let out = apply_action p r (or_else b.entity_id "") budgets s.db in
      rw e (
        Within-mono r (1 + length bs) (suc (length bs)) s.db _ (omega arith) (
          Within-trans r 1 (length bs) s.db (settle r b out s).db _
            (settle-Within r b out.0 out.1 s
              (apply_action-Sends p r (or_else b.entity_id "") budgets s.db))
            (mutate-Within p r budgets bs (settle r b out s))))
]

Within-refl : (r : AdRule) (k : ℕ) (db : RulesDb) → Within r k db db
Within-refl r k db = (Grows-mono r 0 k db db (omega arith) (Grows-refl r db), omega arith)

execute_mutations-Within :
    (p : Platform) (r : AdRule) (token : String) (found : List Breach) (db : RulesDb)
    → Within r (action_cap r db) db (execute_mutations p r token found db).1
unfolding execute_mutations
execute_mutations-Within p r token found db = elim (Bool-cases (action_cap r db == 0)) [
  | inl e ↦ rw (e, execute_mutations) (Within-refl r (action_cap r db) db)
  | inr e ↦ elim (Outcome-cases (budgets_for p r token)) [
    | inr (x, failed) ↦ rw (e, failed, execute_mutations) (Within-refl r (action_cap r db) db)
    | inl (budgets, loaded) ↦
        let s : Progress = record { db = db; done = 0; failed = 0 } in
        rw (e, loaded, execute_mutations)
          (Within-mono r (length (take (action_cap r db) found)) (action_cap r db) db _
            (length-take-le (action_cap r db) found)
            (mutate-Within p r budgets (take (action_cap r db) found) s))
  ]
]

record_alerts-Within :
    (r : AdRule) (bs : List Breach) (db : RulesDb) → Within r 0 db (record_alerts r bs db)
unfolding record_alerts
record_alerts-Within r [] db = Within-refl r 0 db
record_alerts-Within r (b ∷ bs) db =
    let next = record_action r b alert true none db in
    Within-trans r 0 0 db next _ (record_action-Grows-alert r b db, omega arith)
      (record_alerts-Within r bs next)

evaluate_verified_roas-Within :
    (p : Platform) (r : AdRule) (db : RulesDb) → Within r 0 db (evaluate_verified_roas p r db).1
unfolding evaluate_verified_roas
evaluate_verified_roas-Within p r db =
    let ends = window db.now r.window_days in
    elim (Outcome-cases
      (p.verify r.workspace_id r.created_by_user_id r.ad_account_id ends.0 ends.1)) [
        | inr (e, failed) ↦ rw (failed, evaluate_verified_roas) (Within-refl r 0 db)
        | inl ((none, []), done) ↦ rw (done, evaluate_verified_roas) (Within-refl r 0 db)
        | inl ((none, c ∷ cs), done) ↦ rw (done, evaluate_verified_roas) (Within-refl r 0 db)
        | inl ((some v, cs), done) ↦ elim (Bool-cases (breaches v r)) [
          | inl e ↦
              rw (done, e, evaluate_verified_roas) (record_action-Grows-alert r _ db, omega arith)
          | inr e ↦ rw (done, e, evaluate_verified_roas) (Within-refl r 0 db)
        ]
      ]

respond-Within :
    (p : Platform) (r : AdRule) (token : String) (found : List Breach) (db : RulesDb)
    → Within r (action_cap r db) db (respond p r token found db).1
unfolding respond
respond-Within p r token [] db = Within-refl r (action_cap r db) db
respond-Within p r token (b ∷ bs) db = elim (Bool-cases (acts r)) [
  | inl e ↦ rw (e, respond) (execute_mutations-Within p r token (b ∷ bs) db)
  | inr e ↦
      rw (e, respond)
        (Within-mono r 0 (action_cap r db) db _ (omega arith)
          (record_alerts-Within r (take r.max_actions_per_run (b ∷ bs)) db))
]

pub evaluate_rule-Within :
    (p : Platform) (r : AdRule) (db : RulesDb)
    → Within r (action_cap r db) db (evaluate_rule p r db).1
unfolding evaluate_rule
evaluate_rule-Within p r db =
    let ends = window db.now r.window_days in
    let k = action_cap r db in
    elim (Outcome-cases (p.access_token r.workspace_id r.created_by_user_id)) [
      | inr (e, failed) ↦ rw (failed, evaluate_rule) (Within-refl r k db)
      | inl (none, done) ↦ rw (done, evaluate_rule) (Within-refl r k db)
      | inl (some token, done) ↦ elim (Bool-cases (is_verified_roas r.metric)) [
        | inl e ↦
            rw (done, e, evaluate_rule)
              (Within-mono r 0 k db _ (omega arith) (evaluate_verified_roas-Within p r db))
        | inr e ↦ elim (Outcome-cases (p.insights token r.ad_account_id r.scope ends.0 ends.1)) [
          | inr (x, failed) ↦ rw (done, e, failed, evaluate_rule) (Within-refl r k db)
          | inl (rows, read) ↦
              rw (done, e, read, evaluate_rule)
                (respond-Within p r token (find_breaches r (or_else rows [])) db)
        ]
      ]
    ]
