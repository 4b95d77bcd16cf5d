-- ===== src/Rules/History/Cap.antt =====
-- The daily cap and the validity of rules along the steps of src/rules/rules.service.ts.
use gomer.Base.{ℕ, ◌≤◌, ◌≡◌, false, arith, All, All-keep, All-imp, keep}
use gomer.Rules.Types.{AdRule, action_eq, alert}
use gomer.Rules.Platform.{Platform, RulesDb}
use gomer.Rules.Engine.{run_due_rules, is_due}
use gomer.Rules.Crud.Laws.{IsValid}
use gomer.Rules.History.{
  Step, waited, ran, created, switched, removed, Reachable, started, stepped, mutations_in,
}
use gomer.Rules.History.Kept.{Guards, Known, Kept, run_rules-Kept}
use gomer.Rules.History.Chat.{set_active-Kept, remove-Kept, create-Kept}

-- The scheduler's run is one over the rules that are due.
run_due_rules-Kept :
    (p : Platform) (g : Guards) (db : RulesDb) → Kept g db → Kept g (run_due_rules p db).1
unfolding run_due_rules
run_due_rules-Kept p g db kept =
    run_rules-Kept p g (keep (is_due db.now) db.rules) db (All-keep _ _ db.rules kept.known) kept

Step-Kept :
    (p : Platform) (g : Guards) (db db' : RulesDb)
    → Kept g db
    → Step p db db'
    → (h : Guards) × Kept h db'
Step-Kept p g _ _ kept (waited t db) =
    (g, record { known = kept.known; owned = kept.owned; capped = kept.capped })
Step-Kept p g _ _ kept (ran db) = (g, run_due_rules-Kept p g db kept)
Step-Kept p g _ _ kept (created w user input db) = create-Kept p g w user input db kept
Step-Kept p g _ _ kept (switched w id active db) = (g, set_active-Kept p g w id active db kept)
Step-Kept p g _ _ kept (removed w id db) = (g, remove-Kept g w id db kept)

Reachable-Kept : (p : Platform) (db : RulesDb) → Reachable p db → (g : Guards) × Kept g db
Reachable-Kept p db started =
    (λ i. (alert, 0), record { known = tt; owned = tt; capped = λ i t acts. omega arith })
Reachable-Kept p db (stepped before after r s) =
    let kept = Reachable-Kept p before r in Step-Kept p kept.0 before after kept.1 s

within_cap :
    (g : Guards) (db : RulesDb) (t : ℕ) (r : AdRule)
    → Kept g db
    → Known g r
    → action_eq r.action alert ≡ false
    → mutations_in r.id r.action t db.actions ≤ r.daily_action_cap
within_cap g db t r kept known acts =
    rw (← known.0, ← known.1) (kept.capped r.id t (rw known.0 acts))

-- Whatever happens, in any order, from empty tables, no rule that pauses or scales is recorded to
-- have done so more often than its daily cap within 24 hours, up to any time.
pub Reachable-daily_cap :
    (p : Platform) (db : RulesDb) (t : ℕ)
    → Reachable p db
    → All
        (λ r.
          action_eq r.action alert ≡ false
          → mutations_in r.id r.action t db.actions ≤ r.daily_action_cap)
        db.rules
Reachable-daily_cap p db t reached =
    let kept = Reachable-Kept p db reached in
    All-imp _ _ db.rules (λ r h. within_cap kept.0 db t r kept.1 h.0) kept.1.known

-- Whatever happens, in any order, from empty tables, every rule stays valid: a rule on the verified
-- ROAS watches an account, a rule on an account only alerts, a rule that scales has a percentage
-- other than zero, and an active rule has a time to run at.
pub Reachable-IsValid : (p : Platform) (db : RulesDb) → Reachable p db → All IsValid db.rules
Reachable-IsValid p db reached =
    let kept = Reachable-Kept p db reached in All-imp _ _ db.rules (λ r h. h.0.2) kept.1.known
