-- ===== src/Rules/Metrics/Laws.antt =====
-- The cost per purchase of a row without purchases, and the range of a scaled budget
-- (src/rules/rules.service.ts).
use gomer.Base.{
  ℕ, ◌+◌, ◌-◌, ◌*◌, ◌/◌, ◌≤◌, ◌≡◌, refl, none, some, arith, or_else, max, Bool-cases, inl, inr,
  if◌then◌else◌,
}
use native.Mathlib.Nat.{mul-le-mul_left}
use gomer.Base.Int.{ℤ, pos, negsuc, pos_part, neg_part, abs_ℤ}
use gomer.Rules.Types.{cpa, AdRule, nan, infinite, InsightRow}
use gomer.Rules.Metrics.{
  extract_metric, breaches, is_upward, is_positive, pick_purchase_value, clamp_pct, scaled_budget,
}

-- A row that spent and whose costs per action name no purchase breaches every rule that wants its
-- cost per purchase above a threshold, and none that wants it below; if it spent nothing it has no
-- such metric.
pub extract_metric-no_purchase :
    (row : InsightRow) (r : AdRule)
    → pick_purchase_value row.cost_per_action_type ≡ none
    → if is_positive (or_else row.spend nan)
      then (extract_metric row cpa ≡ some infinite) × (breaches infinite r ≡ is_upward r.comparator)
      else extract_metric row cpa ≡ none
unfolding extract_metric breaches
extract_metric-no_purchase row r e = elim (Bool-cases (is_positive (or_else row.spend nan))) [
  | inl spent ↦ rw (spent, e) (refl, refl)
  | inr idle ↦ rw (idle, e) refl
]

clamp_pct-range :
    (pct m : ℤ)
    → (pos_part (clamp_pct pct m) ≤ pos_part (abs_ℤ m))
      × (neg_part (clamp_pct pct m) ≤ pos_part (abs_ℤ m))
unfolding clamp_pct
clamp_pct-range (pos a) (pos b) = (ground arith, ground arith)
clamp_pct-range (pos a) (negsuc b) = (ground arith, ground arith)
clamp_pct-range (negsuc a) (pos b) = (ground arith, ground arith)
clamp_pct-range (negsuc a) (negsuc b) = (ground arith, ground arith)

round_range :
    (x : ℕ)
    → let n = max ((2 * x + 100) / 200) 1 in
      (1 ≤ n) × (100 * n ≤ max (x + 50) 100) × (x ≤ 100 * n + 50)
round_range x = (omega arith, omega arith, omega arith)

-- A scaled budget is at least one minor unit, and within the rule's limit in per cent of what it
-- was, in either direction, up to half a minor unit from rounding; the limit counts by its size.
pub scaled_budget-within :
    (current : ℕ) (pct m : ℤ)
    → let next = scaled_budget current (clamp_pct pct m) in
      let limit = pos_part (abs_ℤ m) in
      (1 ≤ next)
      × (100 * next ≤ max (current * (100 + limit) + 50) 100)
      × (current * (100 - limit) ≤ 100 * next + 50)
unfolding scaled_budget
scaled_budget-within current pct m =
    let c = clamp_pct pct m in
    let limit = pos_part (abs_ℤ m) in
    let k = 100 + pos_part c - neg_part c in
    let range = clamp_pct-range pct m in
    let round = round_range (current * k) in
    let above : current * k ≤ current * (100 + limit) =
      mul-le-mul_left current (omega (arith, range.0)) in
    let below : current * (100 - limit) ≤ current * k =
      mul-le-mul_left current (omega (arith, range.1)) in
    (round.0, omega (arith, round.1, above), omega (arith, round.2, below))
