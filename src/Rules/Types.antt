-- ===== src/Rules/Types.antt =====
-- The rows of the rules (src/database/entities/ad-rule.entity.ts, ad-rule-action.entity.ts), the rows
-- that Meta reports, and the outcome of a call that may throw.
use gomer.Base.{ℕ, Bool, true, false, Option, List, ◌≡◌, refl, ◌⊎◌, inl, inr}
use gomer.Base.Int.{ℤ}
use gomer.Base.Text.{String}

pub data RuleMetric : Type 0 where
  spend cpa roas verified_roas ctr cpc : RuleMetric

pub data RuleComparator : Type 0 where
  gt lt gte lte : RuleComparator

pub data RuleScope : Type 0 where
  account campaign adset : RuleScope

pub data RuleActionType : Type 0 where
  alert pause scale : RuleActionType

abbrev pub is_verified_roas : RuleMetric → Bool
is_verified_roas RuleMetric.verified_roas = true
is_verified_roas _ = false

abbrev pub is_account : RuleScope → Bool
is_account RuleScope.account = true
is_account _ = false

abbrev pub is_adset : RuleScope → Bool
is_adset RuleScope.adset = true
is_adset _ = false

abbrev pub action_eq : RuleActionType → RuleActionType → Bool
action_eq RuleActionType.alert RuleActionType.alert = true
action_eq RuleActionType.pause RuleActionType.pause = true
action_eq RuleActionType.scale RuleActionType.scale = true
action_eq _ _ = false

-- A JavaScript number, as far as a metric takes one: a finite value is counted in ten-thousandths,
-- the precision of the `threshold` and `metricValue` columns.
pub data JsNumber : Type 0 where
  nan : JsNumber
  infinite : JsNumber
  fin : ℤ → JsNumber

pub record AdRule : Type 0 where
  pub id : ℕ
  pub workspace_id : ℕ
  pub name : String
  pub ad_account_id : String
  pub scope : RuleScope
  pub metric : RuleMetric
  pub comparator : RuleComparator
  pub threshold : ℤ
  pub window_days : ℕ
  pub action : RuleActionType
  pub scale_pct : Option ℤ
  pub auto_execute : Bool
  pub max_scale_pct : ℤ
  pub max_actions_per_run : ℕ
  pub daily_action_cap : ℕ
  pub cron_expression : String
  pub timezone : Option String
  pub slack_channel_id : Option String
  pub is_active : Bool
  pub created_by_user_id : Option ℕ
  pub last_run : Option ℕ
  pub next_run : Option ℕ
  pub created_at : ℕ

-- The text of `detail` is left out.
pub record AdRuleAction : Type 0 where
  pub id : ℕ
  pub rule_id : ℕ
  pub workspace_id : ℕ
  pub entity_type : RuleScope
  pub entity_id : Option String
  pub entity_name : Option String
  pub metric_value : Option ℤ
  pub action : RuleActionType
  pub success : Bool
  pub error : Option String
  pub created_at : ℕ

-- The numeric texts of a row are held as what `Number(…)` makes of them.
pub record MetaTypedValue : Type 0 where
  pub action_type : String
  pub value : JsNumber

pub record InsightRow : Type 0 where
  pub spend : Option JsNumber
  pub ctr : Option JsNumber
  pub cpc : Option JsNumber
  pub campaign_id : Option String
  pub campaign_name : Option String
  pub adset_id : Option String
  pub adset_name : Option String
  pub cost_per_action_type : Option (List MetaTypedValue)
  pub purchase_roas : Option (List MetaTypedValue)

pub record Breach : Type 0 where
  pub entity_id : Option String
  pub entity_name : Option String
  pub value : JsNumber

-- The outcome of a call: its value, or the message of the error that it throws.
pub data Outcome (A : Type 0) : Type 0 where
  returned : A → Outcome A
  thrown : String → Outcome A

pub Outcome-cases :
    {A : Type 0} (o : Outcome A) → ((a : A) × (o ≡ returned a)) ⊎ ((e : String) × (o ≡ thrown e))
Outcome-cases (returned a) = inl (a, refl)
Outcome-cases (thrown e) = inr (e, refl)
