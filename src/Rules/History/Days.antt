-- ===== src/Rules/History/Days.antt =====
-- Counting the actions of 24 hours (`usedToday` of src/rules/rules.service.ts).
use gomer.Base.{
  ℕ, ◌+◌, ◌∷◌, [], ◌++◌, ◌≤◌, ◌≡◌, ◌≢◌, refl, List, Bool, false, arith, All, sum_of-append,
  if◌then◌else◌, keep, Bool-cases, inl, inr, ltb, ◌&&◌, ◌<◌,
}
use gomer.Rules.Types.{AdRule, AdRuleAction, RuleActionType, action_eq, alert}
use gomer.Rules.Platform.{RulesDb}
use gomer.Rules.Engine.{used_today, action_cap}
use gomer.Rules.Engine.Growth.{Grows, count_of}
use gomer.Rules.History.{mutations_in, taken, in_day}

pub mutations_in-append :
    (i : ℕ) (action : RuleActionType) (t : ℕ) (xs ys : List AdRuleAction)
    → mutations_in i action t (xs ++ ys) ≡ mutations_in i action t xs + mutations_in i action t ys
mutations_in-append i action t =
    sum_of-append (λ a. if taken i action a && in_day t a then 1 else 0)

-- Rows that are dated later do not count.
mutations_in-later :
    (r : AdRule) (i : ℕ) (action : RuleActionType) (t now : ℕ) (xs : List AdRuleAction)
    → t < now
    → All (λ a. (a.rule_id ≡ r.id) × (a.created_at ≡ now)) xs
    → mutations_in i action t xs ≡ 0
mutations_in-later r i action t now [] lt own = refl
mutations_in-later r i action t now (x ∷ xs) lt own =
    ground (arith, own.0.1, mutations_in-later r i action t now xs lt own.1)

-- Nor do those of another rule.
pub mutations_in-other :
    (r : AdRule) (i : ℕ) (action : RuleActionType) (t now : ℕ) (xs : List AdRuleAction)
    → r.id ≢ i
    → All (λ a. (a.rule_id ≡ r.id) × (a.created_at ≡ now)) xs
    → mutations_in i action t xs ≡ 0
mutations_in-other r i action t now [] ne own = refl
mutations_in-other r i action t now (x ∷ xs) ne own =
    ground (arith, own.0.0, mutations_in-other r i action t now xs ne own.1)

mutations_in-count_of :
    (r : AdRule) (t : ℕ) (xs : List AdRuleAction) → mutations_in r.id r.action t xs ≤ count_of r xs
mutations_in-count_of r t [] = omega arith
mutations_in-count_of r t (x ∷ xs) = ground (arith, mutations_in-count_of r t xs)

mutations_in-used_today :
    (r : AdRule) (now t : ℕ) (xs : List AdRuleAction)
    → now ≤ t
    → mutations_in r.id r.action t xs ≤ used_today r now xs
unfolding used_today
mutations_in-used_today r now t [] le = omega arith
mutations_in-used_today r now t (x ∷ xs) le = ground (arith, mutations_in-used_today r now t xs le)

pub mutations_in-keep :
    (f : AdRuleAction → Bool) (i : ℕ) (action : RuleActionType) (t : ℕ) (xs : List AdRuleAction)
    → mutations_in i action t (keep f xs) ≤ mutations_in i action t xs
mutations_in-keep f i action t [] = omega arith
mutations_in-keep f i action t (x ∷ xs) = ground (arith, mutations_in-keep f i action t xs)

-- An evaluation keeps the rule within its daily cap, in the 24 hours up to any time.
pub Grows-capped :
    (r : AdRule) (db db' : RulesDb)
    → Grows r (action_cap r db) db db'
    → action_eq r.action alert ≡ false
    → (t : ℕ) → mutations_in r.id r.action t db.actions ≤ r.daily_action_cap
    → mutations_in r.id r.action t db'.actions ≤ r.daily_action_cap
unfolding action_cap
Grows-capped r db db' g acts t le =
    let few = g.few acts in
    let split = mutations_in-append r.id r.action t db.actions g.rows in
    rw g.added (elim (Bool-cases (ltb t db.now)) [
      | inl before ↦
          omega
            (arith, split, mutations_in-later r r.id r.action t db.now g.rows (ground arith) g.own)
      | inr after ↦ omega (
        arith,
        split,
        few,
        mutations_in-count_of r t g.rows,
        mutations_in-used_today r db.now t db.actions (ground arith),
      )
    ])
