-- ===== src/Rules/Platform.antt =====
-- The tables of the rules, what the engine of src/rules/rules.service.ts calls, and what it reports.
use gomer.Base.{ℕ, suc, ◌-◌, ◌*◌, ◌/◌, Bool, Option, none, some, List, [], ◌∷◌, ◌++◌}
use gomer.Base.Int.{ℤ}
use gomer.Base.Text.{String}
use gomer.Rules.Types.{
  RuleScope, RuleActionType, JsNumber, fin, AdRule, AdRuleAction, InsightRow, Breach, Outcome,
}

pub data MetaChange : Type 0 where
  paused : MetaChange
  daily_budget : ℕ → MetaChange

-- `updateAdSet` or `updateCampaign`, by the scope.
pub record MetaCall : Type 0 where
  pub scope : RuleScope
  pub entity_id : String
  pub change : MetaChange

pub record Budget : Type 0 where
  pub id : Option String
  pub amount : Option ℕ

-- What the code calls: `update` answers a call, given the calls before it; `next_after` is the first
-- time after an instant at which a cron expression fires, none for one that does not parse.
pub record Platform : Type 0 where
  pub access_token : ℕ → Option ℕ → Outcome (Option String)
  pub insights : String → String → RuleScope → ℕ → ℕ → Outcome (Option (List InsightRow))
  pub list_budgets : String → RuleScope → String → Outcome (List Budget)
  pub update : List MetaCall → MetaCall → Outcome Unit
  pub verify : ℕ → Option ℕ → String → ℕ → ℕ → Outcome (Option JsNumber × List String)
  pub next_after : String → Option String → ℕ → Option ℕ

-- The tables of the rules, the calls that changed something at Meta, the generator of ids, the clock.
pub record RulesDb : Type 0 where
  pub rules : List AdRule
  pub actions : List AdRuleAction
  pub calls : List MetaCall
  pub next_id : ℕ
  pub now : ℕ

pub data ReportMessage : Type 0 where
  no_connection : ReportMessage
  could_not_run : String → ReportMessage
  roas_unknown : String → ReportMessage
  roas_breached : JsNumber → ReportMessage
  alerted : ℕ → List Breach → ReportMessage
  cap_reached : ℕ → ReportMessage
  acted : ℕ → ℕ → ℕ → ReportMessage

pub record RuleRunReport : Type 0 where
  pub rule_id : ℕ
  pub rule_name : String
  pub workspace_id : ℕ
  pub slack_channel_id : Option String
  pub message : Option ReportMessage

abbrev pub report : AdRule → Option ReportMessage → RuleRunReport
report r message = record {
  rule_id = r.id;
  rule_name = r.name;
  workspace_id = r.workspace_id;
  slack_channel_id = r.slack_channel_id;
  message = message;
}

abbrev pub day : ℕ
day = 86_400_000

-- `window`: the days of the two ends, as numbers of days since the epoch.
abbrev pub window : ℕ → ℕ → ℕ × ℕ
window now days = ((now - days * day) / day, now / day)

-- `Number.isFinite(breach.value) ? breach.value.toFixed(4) : null`
abbrev pub metric_value_of : JsNumber → Option ℤ
metric_value_of (fin n) = some n
metric_value_of _ = none

abbrev pub record_action :
    AdRule → Breach → RuleActionType → Bool → Option String → RulesDb → RulesDb
record_action r b action success error db =
    let row : AdRuleAction = record {
      id = db.next_id;
      rule_id = r.id;
      workspace_id = r.workspace_id;
      entity_type = r.scope;
      entity_id = b.entity_id;
      entity_name = b.entity_name;
      metric_value = metric_value_of b.value;
      action = action;
      success = success;
      error = error;
      created_at = db.now;
    } in
    record db { actions = db.actions ++ row ∷ []; next_id = suc db.next_id }
