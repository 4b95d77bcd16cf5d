-- ===== src/Rules/Engine/Growth.antt =====
-- The changes that an evaluation (`evaluateRule` of src/rules/rules.service.ts) may make to the log of
-- actions, as a relation between two states of the tables.
use gomer.Base.{
  ℕ, ◌+◌, ◌∷◌, [], ◌++◌, ◌≤◌, ◌≡◌, refl, List, Bool, true, false, arith, none, Option, All, sum_of,
  sum_of-append, All-append, if◌then◌else◌,
}
use gomer.Base.Text.{String}
use gomer.Rules.Types.{AdRule, AdRuleAction, RuleActionType, alert, action_eq, Breach}
use gomer.Rules.Platform.{RulesDb, record_action}
use gomer.Rules.Engine.{counted}

abbrev pub count_of : AdRule → List AdRuleAction → ℕ
count_of r = sum_of (λ a. if counted r a then 1 else 0)

pub record Grows (r : AdRule) (k : ℕ) (db db' : RulesDb) : Type 0 where
  pub rows : List AdRuleAction
  pub added : db'.actions ≡ db.actions ++ rows
  pub own : All (λ a. (a.rule_id ≡ r.id) × (a.created_at ≡ db.now)) rows
  pub few : action_eq r.action alert ≡ false → count_of r rows ≤ k
  pub same_rules : db'.rules ≡ db.rules
  pub same_now : db'.now ≡ db.now
  pub grown : db.next_id ≤ db'.next_id

append_nil : {A : Type 0} (xs : List A) → xs ≡ xs ++ []
append_nil [] = refl
append_nil (x ∷ xs) = let rest = append_nil xs in cc

append_assoc : {A : Type 0} (xs ys zs : List A) → (xs ++ ys) ++ zs ≡ xs ++ (ys ++ zs)
append_assoc [] ys zs = refl
append_assoc (x ∷ xs) ys zs = let rest = append_assoc xs ys zs in cc

pub Grows-refl : (r : AdRule) (db : RulesDb) → Grows r 0 db db
Grows-refl r db = record {
  rows = [];
  added = append_nil db.actions;
  own = tt;
  few = λ acts. omega arith;
  same_rules = refl;
  same_now = refl;
  grown = omega arith;
}

redate :
    (r : AdRule) (t t' : ℕ) (rows : List AdRuleAction)
    → t' ≡ t
    → All (λ a. (a.rule_id ≡ r.id) × (a.created_at ≡ t')) rows
    → All (λ a. (a.rule_id ≡ r.id) × (a.created_at ≡ t)) rows
redate r t t' rows e h = rw (← e) h

pub Grows-trans :
    (r : AdRule) (j k : ℕ) (a b c : RulesDb) → Grows r j a b → Grows r k b c → Grows r (j + k) a c
Grows-trans r j k a b c g h = record {
  rows = g.rows ++ h.rows;
  added =
      let assoc = append_assoc a.actions g.rows h.rows in let x = g.added in let y = h.added in cc;
  own = All-append _ g.rows h.rows g.own (redate r a.now b.now h.rows g.same_now h.own);
  few = λ acts. omega (
    arith,
    sum_of-append (λ x. if counted r x then 1 else 0) g.rows h.rows,
    g.few acts,
    h.few acts,
  );
  same_rules = let x = g.same_rules in let y = h.same_rules in cc;
  same_now = let x = g.same_now in let y = h.same_now in cc;
  grown = omega (arith, g.grown, h.grown);
}

pub Grows-mono : (r : AdRule) (j k : ℕ) (a b : RulesDb) → j ≤ k → Grows r j a b → Grows r k a b
Grows-mono r j k a b le g = record {
  rows = g.rows;
  added = g.added;
  own = g.own;
  few = λ acts. omega (arith, g.few acts);
  same_rules = g.same_rules;
  same_now = g.same_now;
  grown = g.grown;
}

-- Only the tables and the clock of the first database matter.
pub Grows-from :
    (r : AdRule) (k : ℕ) (a b c : RulesDb)
    → b.actions ≡ a.actions
    → b.rules ≡ a.rules
    → b.now ≡ a.now
    → b.next_id ≡ a.next_id
    → Grows r k b c
    → Grows r k a c
Grows-from r k a b c x y z u g = record {
  rows = g.rows;
  added = let added = g.added in cc;
  own = redate r a.now b.now g.rows z g.own;
  few = g.few;
  same_rules = let same = g.same_rules in cc;
  same_now = let same = g.same_now in cc;
  grown = omega (arith, g.grown);
}

-- One row counts once at the most, and an alert of a rule that acts does not count.
pub record_action-Grows :
    (r : AdRule) (b : Breach) (action : RuleActionType) (success : Bool) (e : Option String)
    (db : RulesDb)
    → Grows r 1 db (record_action r b action success e db)
record_action-Grows r b action success e db = record {
  rows = _;
  added = refl;
  own = ((refl, refl), tt);
  few = λ acts. ground arith;
  same_rules = refl;
  same_now = refl;
  grown = omega arith;
}

pub record_action-Grows-alert :
    (r : AdRule) (b : Breach) (db : RulesDb) → Grows r 0 db (record_action r b alert true none db)
record_action-Grows-alert r b db = record {
  rows = _;
  added = refl;
  own = ((refl, refl), tt);
  few = λ acts. ground arith;
  same_rules = refl;
  same_now = refl;
  grown = omega arith;
}
