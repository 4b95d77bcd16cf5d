-- ===== src/Rules/Crud.antt =====
-- Creating, switching and removing rules (src/rules/rules.service.ts), as the chat tools do.
pub mod Laws
use gomer.Base.{
  ℕ, suc, ◌∷◌, [], ◌++◌, ◌&&◌, ◌||◌, not, Bool, true, false, Option, none, some, List, find, keep,
  ◌==◌, if◌then◌else◌, or_else,
}
use gomer.Base.Int.{ℤ, pos, negsuc}
use gomer.Base.Text.{String}
use gomer.Rules.Types.{
  RuleMetric, RuleComparator, RuleScope, RuleActionType, alert, scale, is_verified_roas, is_account,
  action_eq, AdRule, Outcome, returned, thrown,
}
use gomer.Rules.Platform.{Platform, RulesDb}
use gomer.Rules.Engine.{next_run_from, save_rule}

pub record CreateRuleInput : Type 0 where
  pub name : String
  pub ad_account_id : String
  pub scope : RuleScope
  pub metric : RuleMetric
  pub comparator : RuleComparator
  pub threshold : ℤ
  pub window_days : Option ℕ
  pub action : RuleActionType
  pub scale_pct : Option ℤ
  pub cron_expression : String
  pub timezone : Option String
  pub slack_channel_id : Option String
  pub auto_execute : Option Bool
  pub max_scale_pct : Option ℤ
  pub max_actions_per_run : Option ℕ
  pub daily_action_cap : Option ℕ

-- `!input.scalePct || input.scalePct === 0`
abbrev pub no_pct : Option ℤ → Bool
no_pct none = true
no_pct (some (pos n)) = n == 0
no_pct (some (negsuc n)) = false

-- The guards of `validate`, in order, before the cron expression is parsed.
abbrev pub refusal : CreateRuleInput → Option String
refusal input =
    if is_verified_roas input.metric && not (is_account input.scope)
    then some "verified_roas rules must use account scope"
    else if is_account input.scope && not (action_eq input.action alert)
    then some "account-scope rules can only alert (nothing to pause/scale)"
    else if action_eq input.action scale && is_account input.scope
    then some "scaling requires campaign or adset scope"
    else if action_eq input.action scale && no_pct input.scale_pct
    then some "a scale rule needs a non-zero scalePct"
    else none

abbrev pub unless_refused : Option String → Outcome ℕ → Outcome ℕ
unless_refused (some e) out = thrown e
unless_refused none out = out

unfoldable pub validate : Platform → CreateRuleInput → ℕ → Outcome ℕ
validate p input now =
    unless_refused (refusal input) (next_run_from p input.cron_expression input.timezone now)

abbrev pub rule_of : CreateRuleInput → ℕ → Option ℕ → ℕ → RulesDb → AdRule
rule_of input w user next db = record {
  id = db.next_id;
  workspace_id = w;
  name = input.name;
  ad_account_id = input.ad_account_id;
  scope = input.scope;
  metric = input.metric;
  comparator = input.comparator;
  threshold = input.threshold;
  window_days = or_else input.window_days 3;
  action = input.action;
  scale_pct = if action_eq input.action scale then input.scale_pct else none;
  auto_execute = or_else input.auto_execute true;
  max_scale_pct = or_else input.max_scale_pct (pos 25);
  max_actions_per_run = or_else input.max_actions_per_run 10;
  daily_action_cap = or_else input.daily_action_cap 25;
  cron_expression = input.cron_expression;
  timezone = input.timezone;
  slack_channel_id = input.slack_channel_id;
  is_active = true;
  created_by_user_id = user;
  last_run = none;
  next_run = some next;
  created_at = db.now;
}

unfoldable pub create :
    Platform → ℕ → Option ℕ → CreateRuleInput → RulesDb → Outcome AdRule × RulesDb
unfolding validate
create p w user input db = elim (validate p input db.now) [
  | thrown e ↦ (thrown e, db)
  | returned next ↦
      let r = rule_of input w user next db in
      (returned r, record db { rules = db.rules ++ r ∷ []; next_id = suc db.next_id })
]

abbrev pub owned_or_throw : Option AdRule → Outcome AdRule
owned_or_throw none = thrown "Rule not found"
owned_or_throw (some r) = returned r

abbrev pub find_owned : ℕ → ℕ → RulesDb → Outcome AdRule
find_owned w id db = owned_or_throw (find (λ r. r.id == id && r.workspace_id == w) db.rules)

abbrev pub saved : AdRule → RulesDb → Outcome AdRule × RulesDb
saved r db = (returned r, record db { rules = save_rule r db.rules })

unfoldable pub set_active : Platform → ℕ → ℕ → Bool → RulesDb → Outcome AdRule × RulesDb
set_active p w id active db = elim (find_owned w id db) [
  | thrown e ↦ (thrown e, db)
  | returned r ↦
      if active
      then elim (next_run_from p r.cron_expression r.timezone db.now) [
        | thrown e ↦ (thrown e, db)
        | returned t ↦ saved (record r { is_active = true; next_run = some t }) db
      ]
      else saved (record r { is_active = false }) db
]

-- `remove`; the rows of the rule's actions go with it, `onDelete: 'CASCADE'`.
unfoldable pub remove : ℕ → ℕ → RulesDb → Outcome Unit × RulesDb
remove w id db = elim (find_owned w id db) [
  | thrown e ↦ (thrown e, db)
  | returned r ↦ (
    returned tt,
    record db {
      rules = keep (λ s. not (s.id == r.id)) db.rules;
      actions = keep (λ a. not (a.rule_id == r.id)) db.actions;
    },
  )
]
