-- ===== src/Rules/History/Kept.antt =====
-- An invariant of the rules and their log, and the evaluation of rules (src/rules/rules.service.ts).
use gomer.Base.{
  ℕ, suc, ◌∷◌, [], ◌≤◌, ◌≡◌, refl, List, Bool, true, false, arith, All, All-imp, All-append,
  Bool-cases, Option-cases, inl, inr, Option, some, is_some, ◌==◌,
}
use gomer.Rules.Types.{AdRule, AdRuleAction, RuleActionType, action_eq, alert}
use gomer.Rules.Platform.{Platform, RulesDb}
use gomer.Rules.Engine.{run_rules, evaluate_rule, save_rule, action_cap}
use gomer.Rules.Engine.Growth.{Grows}
use gomer.Rules.Engine.Caps.{evaluate_rule-Within}
use gomer.Rules.Crud.Laws.{IsValid, IsValid-rescheduled}
use gomer.Rules.History.{mutations_in}
use gomer.Rules.History.Days.{mutations_in-append, mutations_in-other, Grows-capped}

-- The action and the cap that each id stands for: they never change.
abbrev pub Guards : Type 0
Guards = ℕ → RuleActionType × ℕ

abbrev pub Known : Guards → AdRule → Type 0
Known g r = ((g r.id).0 ≡ r.action) × ((g r.id).1 ≡ r.daily_action_cap) × IsValid r

pub record Kept (g : Guards) (db : RulesDb) : Type 0 where
  pub known : All (λ r. Known g r × (suc r.id ≤ db.next_id)) db.rules
  pub owned : All (λ a. suc a.rule_id ≤ db.next_id) db.actions
  pub capped :
      (i t : ℕ) → action_eq (g i).0 alert ≡ false → mutations_in i (g i).0 t db.actions ≤ (g i).1

pub Known-later :
    (g : Guards) (m n : ℕ) (rs : List AdRule)
    → m ≤ n
    → All (λ r. Known g r × (suc r.id ≤ m)) rs
    → All (λ r. Known g r × (suc r.id ≤ n)) rs
Known-later g m n rs le = All-imp _ _ rs (λ r h. (h.0, omega (arith, h.1)))

pub owned-later :
    (m n : ℕ) (xs : List AdRuleAction)
    → m ≤ n
    → All (λ a. suc a.rule_id ≤ m) xs
    → All (λ a. suc a.rule_id ≤ n) xs
owned-later m n xs le = All-imp _ _ xs (λ a h. omega (arith, h))

Grows-own :
    (g : Guards) (r : AdRule) (db db' : RulesDb)
    → Grows r (action_cap r db) db db'
    → Known g r
    → Kept g db
    → (t : ℕ) → action_eq (g r.id).0 alert ≡ false
    → mutations_in r.id (g r.id).0 t db'.actions ≤ (g r.id).1
Grows-own g r db db' grows known kept t acts =
    rw (known.0, known.1)
      (Grows-capped r db db' grows (rw (← known.0) acts) t
        (rw (← known.0, ← known.1) (kept.capped r.id t acts)))

Grows-at :
    (g : Guards) (r : AdRule) (db db' : RulesDb)
    → Grows r (action_cap r db) db db'
    → Known g r
    → Kept g db
    → (i t : ℕ) → action_eq (g i).0 alert ≡ false
    → mutations_in i (g i).0 t db'.actions ≤ (g i).1
Grows-at g r db db' grows known kept i t acts = elim (Bool-cases (r.id == i)) [
  | inl same ↦
      let e : r.id ≡ i = ground arith in
      rw (← e) (Grows-own g r db db' grows known kept t (rw e acts))
  | inr other ↦ rw grows.added (
      omega (
        arith,
        kept.capped i t acts,
        mutations_in-append i (g i).0 t db.actions grows.rows,
        mutations_in-other r i (g i).0 t db.now grows.rows (ground arith) grows.own,
      ))
]

evaluate_rule-Kept :
    (p : Platform) (g : Guards) (r : AdRule) (db : RulesDb)
    → Known g r × (suc r.id ≤ db.next_id)
    → Kept g db
    → Kept g (evaluate_rule p r db).1
evaluate_rule-Kept p g r db k kept =
    let grows = (evaluate_rule-Within p r db).0 in
    record {
      known = rw grows.same_rules (Known-later g db.next_id _ db.rules grows.grown kept.known);
      owned = rw grows.added (
          All-append _ db.actions grows.rows
            (owned-later db.next_id _ db.actions grows.grown kept.owned)
            (All-imp _ _ grows.rows (λ a h. omega (arith, h.0, k.1, grows.grown)) grows.own));
      capped = Grows-at g r db _ grows k.0 kept;
    }

save_rule-All :
    (g : Guards) (n : ℕ) (r : AdRule) (rs : List AdRule)
    → Known g r × (suc r.id ≤ n)
    → All (λ s. Known g s × (suc s.id ≤ n)) rs
    → All (λ s. Known g s × (suc s.id ≤ n)) (save_rule r rs)
save_rule-All g n r [] k h = tt
save_rule-All g n r (s ∷ rs) k h = elim (Bool-cases (s.id == r.id)) [
  | inl e ↦ rw e (k, save_rule-All g n r rs k h.1)
  | inr e ↦ rw e (h.0, save_rule-All g n r rs k h.1)
]

pub save_rule-Kept :
    (g : Guards) (r : AdRule) (db : RulesDb)
    → Known g r × (suc r.id ≤ db.next_id)
    → Kept g db
    → Kept g (record db { rules = save_rule r db.rules })
save_rule-Kept g r db k kept = record {
  known = save_rule-All g db.next_id r db.rules k kept.known;
  owned = kept.owned;
  capped = kept.capped;
}

pub Known-rescheduled :
    (g : Guards) (r : AdRule) (active : Bool) (last next : Option ℕ)
    → (active ≡ true → is_some next ≡ true)
    → Known g r
    → Known g (record r { is_active = active; last_run = last; next_run = next })
Known-rescheduled g r active last next h k =
    (k.0, k.1, IsValid-rescheduled r active last next h k.2)

pub run_rules-Kept :
    (p : Platform) (g : Guards) (rs : List AdRule) (db : RulesDb)
    → All (λ r. Known g r × (suc r.id ≤ db.next_id)) rs
    → Kept g db
    → Kept g (run_rules p rs db).1
unfolding run_rules
run_rules-Kept p g [] db h kept = kept
run_rules-Kept p g (r ∷ rs) db h kept =
    let after = (evaluate_rule p r db).1 in
    let next = evaluate_rule-Kept p g r db h.0 kept in
    let grows = (evaluate_rule-Within p r db).0 in
    let later = Known-later g db.next_id after.next_id (r ∷ rs) grows.grown h in
    elim (Option-cases (p.next_after r.cron_expression r.timezone after.now)) [
      | inl none_there ↦ rw (none_there, run_rules) next
      | inr (t, there) ↦
          let ran' = record r { last_run = some after.now; next_run = some t } in
          rw (there, run_rules)
            (run_rules-Kept p g rs (record after { rules = save_rule ran' after.rules }) later.1
              (save_rule-Kept g ran' after
                (
                  Known-rescheduled g r r.is_active (some after.now) (some t) (λ a. refl) later.0.0,
                  later.0.1,
                )
                next))
    ]
