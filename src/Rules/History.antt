-- ===== src/Rules/History.antt =====
-- The life of the rules' tables as a step relation: the operations of the chat tools, the runs of the
-- scheduler and the passing of time, in any order (src/rules/rules.service.ts).
pub mod Days
pub mod Kept
pub mod Chat
pub mod Cap
use gomer.Base.{ℕ, ◌+◌, Bool, Option, none, List, [], if◌then◌else◌, ◌==◌, leb, ltb, ◌&&◌, sum_of}
use gomer.Rules.Types.{AdRule, AdRuleAction, RuleActionType, action_eq}
use gomer.Rules.Platform.{Platform, RulesDb, day}
use gomer.Rules.Engine.{run_due_rules}
use gomer.Rules.Crud.{CreateRuleInput, create, set_active, remove}

pub data Step (p : Platform) : RulesDb → RulesDb → Type 0 where
  waited : (t : ℕ) (db : RulesDb) → Step p db (record db { now = db.now + t })
  ran : (db : RulesDb) → Step p db (run_due_rules p db).1
  created :
      (w : ℕ) (user : Option ℕ) (input : CreateRuleInput) (db : RulesDb)
      → Step p db (create p w user input db).1
  switched : (w id : ℕ) (active : Bool) (db : RulesDb) → Step p db (set_active p w id active db).1
  removed : (w id : ℕ) (db : RulesDb) → Step p db (remove w id db).1

-- The tables before any rule was created.
abbrev pub empty : RulesDb
empty = record { rules = []; actions = []; calls = []; next_id = 0; now = 0 }

pub data Reachable (p : Platform) : RulesDb → Type 0 where
  started : Reachable p empty
  stepped : (db db' : RulesDb) → Reachable p db → Step p db db' → Reachable p db'

-- A successful action of one kind of the rule with that id.
abbrev pub taken : ℕ → RuleActionType → AdRuleAction → Bool
taken i action a = a.rule_id == i && (a.success && action_eq a.action action)

-- Within the 24 hours that end at a time.
abbrev pub in_day : ℕ → AdRuleAction → Bool
in_day t a = leb a.created_at t && ltb t (a.created_at + day)

-- How often the rule has acted in the 24 hours that end at a time.
abbrev pub mutations_in : ℕ → RuleActionType → ℕ → List AdRuleAction → ℕ
mutations_in i action t = sum_of (λ a. if taken i action a && in_day t a then 1 else 0)
