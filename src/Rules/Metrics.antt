-- ===== src/Rules/Metrics.antt =====
-- Reading a metric off a row of insights and comparing it with a threshold: `extractMetric`,
-- `breaches` and `clampPct` of src/rules/rules.service.ts, and src/integrations/meta-metrics.ts.
pub mod Laws
use gomer.Base.{
  ℕ, ◌+◌, ◌-◌, ◌*◌, ◌/◌, max, Bool, true, false, ◌||◌, Option, none, some, List, [], ◌∷◌, find, any,
  if◌then◌else◌, or_else, ◌==◌,
}
use gomer.Base.Int.{ℤ, pos, pos_part, neg_part, ltb_ℤ, leb_ℤ, abs_ℤ, neg_ℤ, min_ℤ, max_ℤ}
use Prim.Native.Char.{code}
use gomer.Base.Text.{String, str_eq}
use mathlib.Core.Option
use gomer.Rules.Types.{
  RuleMetric, RuleComparator, AdRule, JsNumber, nan, infinite, fin, MetaTypedValue, InsightRow,
}

abbrev pub purchase_action_types : List String
purchase_action_types =
    "purchase" ∷ "omni_purchase" ∷ "offsite_conversion.fb_pixel_purchase" ∷ "onsite_web_purchase"
    ∷ []

-- `starts_with prefix s` and `includes s word`, of `String.prototype`.
abbrev pub starts_with : String → String → Bool
starts_with String.[] s = true
starts_with (String.◌∷◌ c w) String.[] = false
starts_with (String.◌∷◌ c w) (String.◌∷◌ d s) = if code c == code d then starts_with w s else false

abbrev pub includes : String → String → Bool
includes String.[] w = starts_with w String.[]
includes (String.◌∷◌ c s) w = starts_with w (String.◌∷◌ c s) || includes s w

abbrev pub is_purchase : MetaTypedValue → Bool
is_purchase entry = any (str_eq entry.action_type) purchase_action_types

abbrev pub names_purchase : MetaTypedValue → Bool
names_purchase entry = includes entry.action_type "purchase"

-- `a ?? b`
abbrev pub or_option : {A : Type 0} → Option A → Option A → Option A
or_option none b = b
or_option (some a) b = some a

unfoldable pub pick_purchase_value : Option (List MetaTypedValue) → Option JsNumber
pick_purchase_value none = none
pick_purchase_value (some entries) =
    Option.map (λ hit. hit.value)
      (or_option (find is_purchase entries) (find names_purchase entries))

-- `Number.isFinite(n) ? n : null`
abbrev pub finite_or_none : JsNumber → Option JsNumber
finite_or_none (fin n) = some (fin n)
finite_or_none _ = none

abbrev pub is_positive : JsNumber → Bool
is_positive nan = false
is_positive infinite = true
is_positive (fin n) = ltb_ℤ (pos 0) n

unfoldable pub extract_metric : InsightRow → RuleMetric → Option JsNumber
unfolding pick_purchase_value
extract_metric row RuleMetric.spend = finite_or_none (or_else row.spend nan)
extract_metric row RuleMetric.ctr = row.ctr
extract_metric row RuleMetric.cpc = row.cpc
extract_metric row RuleMetric.roas =
    some (or_else (pick_purchase_value row.purchase_roas) (fin (pos 0)))
extract_metric row RuleMetric.cpa =
    or_option (pick_purchase_value row.cost_per_action_type)
      (if is_positive (or_else row.spend nan) then some infinite else none)
extract_metric row RuleMetric.verified_roas = none

abbrev pub compares : RuleComparator → ℤ → ℤ → Bool
compares RuleComparator.gt v t = ltb_ℤ t v
compares RuleComparator.gte v t = leb_ℤ t v
compares RuleComparator.lt v t = ltb_ℤ v t
compares RuleComparator.lte v t = leb_ℤ v t

-- `gt` and `gte`, which hold of infinity against any threshold; `lt` and `lte` do not.
abbrev pub is_upward : RuleComparator → Bool
is_upward RuleComparator.gt = true
is_upward RuleComparator.gte = true
is_upward RuleComparator.lt = false
is_upward RuleComparator.lte = false

-- Every comparison with NaN is false.
unfoldable pub breaches : JsNumber → AdRule → Bool
breaches nan r = false
breaches infinite r = is_upward r.comparator
breaches (fin v) r = compares r.comparator v r.threshold

unfoldable pub clamp_pct : ℤ → ℤ → ℤ
clamp_pct pct m = let bound = abs_ℤ m in max_ℤ (min_ℤ pct bound) (neg_ℤ bound)

-- `Math.max(Math.round(current * (1 + pct / 100)), 1)`. Below -100 per cent the product is negative
-- and the maximum is 1, as it is for the product 0.
unfoldable pub scaled_budget : ℕ → ℤ → ℕ
scaled_budget current pct =
    max ((2 * (current * (100 + pos_part pct - neg_part pct)) + 100) / 200) 1
