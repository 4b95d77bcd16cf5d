-- ===== src/Rules/History/Chat.antt =====
-- The operations of the chat tools (`create`, `setActive`, `remove` of src/rules/rules.service.ts) and
-- the invariant of Kept.antt.
use gomer.Base.{
  ℕ, suc, ◌∷◌, [], ◌≤◌, ◌≡◌, refl, List, Bool, true, false, arith, All, All-keep, All-append, find,
  if◌then◌else◌, Bool-cases, inl, inr, Option, some, none, not, ◌==◌, ==_refl,
}
use gomer.Rules.Types.{
  AdRule, AdRuleAction, RuleActionType, action_eq, alert, Outcome-cases, returned,
}
use gomer.Rules.Platform.{Platform, RulesDb}
use gomer.Rules.Engine.{next_run_from}
use gomer.Rules.Crud.{
  CreateRuleInput, create, validate, rule_of, set_active, remove, find_owned, owned_or_throw,
}
use gomer.Rules.Crud.Laws.{rule_of-IsValid}
use gomer.Rules.History.{mutations_in}
use gomer.Rules.History.Days.{mutations_in-keep}
use gomer.Rules.History.Kept.{Known-rescheduled, Guards, Known, Kept, owned-later, save_rule-Kept}

All-find :
    (P : AdRule → Type 0) (f : AdRule → Bool) (rs : List AdRule) (r : AdRule)
    → All P rs
    → find f rs ≡ some r
    → P r
All-find P f [] r h e = cc
All-find P f (s ∷ rs) r h e = elim (Bool-cases (f s)) [
  | inl held ↦ let same : s ≡ r = ground arith in rw (← same) h.0
  | inr failed ↦ All-find P f rs r h.1 (ground arith)
]

owned_or_throw-eq : (o : Option AdRule) (r : AdRule) → owned_or_throw o ≡ returned r → o ≡ some r
owned_or_throw-eq none r e = cc
owned_or_throw-eq (some s) r e = cc

find_owned-Known :
    (g : Guards) (w id : ℕ) (db : RulesDb) (r : AdRule)
    → Kept g db
    → find_owned w id db ≡ returned r
    → Known g r × (suc r.id ≤ db.next_id)
find_owned-Known g w id db r kept e =
    All-find (λ s. Known g s × (suc s.id ≤ db.next_id)) _ db.rules r kept.known
      (owned_or_throw-eq _ r e)

pub set_active-Kept :
    (p : Platform) (g : Guards) (w id : ℕ) (active : Bool) (db : RulesDb)
    → Kept g db
    → Kept g (set_active p w id active db).1
unfolding set_active
set_active-Kept p g w id active db kept = elim (Outcome-cases (find_owned w id db)) [
  | inr (x, missing) ↦ rw (missing, set_active) kept
  | inl (r, there) ↦
      let k = find_owned-Known g w id db r kept there in
      elim (Bool-cases active) [
        | inr off ↦
            rw (there, off, set_active)
              (save_rule-Kept g (record r { is_active = false }) db
                (Known-rescheduled g r false r.last_run r.next_run (λ a. cc) k.0, k.1) kept)
        | inl on ↦ elim (Outcome-cases (next_run_from p r.cron_expression r.timezone db.now)) [
          | inr (x, failed) ↦ rw (there, on, failed, set_active) kept
          | inl (t, parsed) ↦
              rw (there, on, parsed, set_active)
                (save_rule-Kept g (record r { is_active = true; next_run = some t }) db
                  (Known-rescheduled g r true r.last_run (some t) (λ a. refl) k.0, k.1) kept)
        ]
      ]
]

pub remove-Kept : (g : Guards) (w id : ℕ) (db : RulesDb) → Kept g db → Kept g (remove w id db).1
unfolding remove
remove-Kept g w id db kept = elim (Outcome-cases (find_owned w id db)) [
  | inr (x, missing) ↦ rw (missing, remove) kept
  | inl (r, there) ↦
      rw (there, remove)
        (record {
          known = All-keep _ _ db.rules kept.known;
          owned = All-keep _ _ db.actions kept.owned;
          capped = λ i t acts. omega (
            arith,
            kept.capped i t acts,
            mutations_in-keep (λ a. not (a.rule_id == r.id)) i (g i).0 t db.actions,
          );
        })
]

mutations_in-fresh :
    (n : ℕ) (action : RuleActionType) (t : ℕ) (xs : List AdRuleAction)
    → All (λ a. suc a.rule_id ≤ n) xs
    → mutations_in n action t xs ≡ 0
mutations_in-fresh n action t [] h = refl
mutations_in-fresh n action t (x ∷ xs) h = ground (arith, mutations_in-fresh n action t xs h.1)

-- The guards with those of a new rule.
abbrev with_rule : AdRule → Guards → Guards
with_rule r g i = if i == r.id then (r.action, r.daily_action_cap) else g i

with_rule-Known :
    (g : Guards) (r : AdRule) (rs : List AdRule)
    → All (λ s. Known g s × (suc s.id ≤ r.id)) rs
    → All (λ s. Known (with_rule r g) s × (suc s.id ≤ suc r.id)) rs
with_rule-Known g r [] h = tt
with_rule-Known g r (s ∷ rs) h =
    let other : (s.id == r.id) ≡ false = ground arith in
    ((rw other h.0.0, omega arith), with_rule-Known g r rs h.1)

choose_capped :
    (b : Bool) (new old : RuleActionType × ℕ) (m : RuleActionType → ℕ)
    → (b ≡ true → (a : RuleActionType) → m a ≡ 0)
    → (action_eq old.0 alert ≡ false → m old.0 ≤ old.1)
    → let chosen = if b then new else old in
      action_eq chosen.0 alert ≡ false → m chosen.0 ≤ chosen.1
choose_capped true new old m z h acts = omega (arith, z refl new.0)
choose_capped false new old m z h acts = h acts

with_rule-capped :
    (g : Guards) (r : AdRule) (db : RulesDb)
    → r.id ≡ db.next_id
    → Kept g db
    → (i t : ℕ) → action_eq (with_rule r g i).0 alert ≡ false
    → mutations_in i (with_rule r g i).0 t db.actions ≤ (with_rule r g i).1
with_rule-capped g r db new kept i t =
    choose_capped (i == r.id) (r.action, r.daily_action_cap) (g i)
      (λ a. mutations_in i a t db.actions)
      (λ e a.
        let here : i ≡ db.next_id = ground arith in
        rw here (mutations_in-fresh db.next_id a t db.actions kept.owned))
      (kept.capped i t)

pub create-Kept :
    (p : Platform) (g : Guards) (w : ℕ) (user : Option ℕ) (input : CreateRuleInput) (db : RulesDb)
    → Kept g db
    → (h : Guards) × Kept h (create p w user input db).1
unfolding create
create-Kept p g w user input db kept = elim (Outcome-cases (validate p input db.now)) [
  | inr (x, refused) ↦ rw (refused, create) (g, kept)
  | inl (next, valid) ↦
      let r = rule_of input w user next db in
      rw (valid, create)
        (
          with_rule r g,
          record {
            known = All-append _ db.rules (r ∷ []) (with_rule-Known g r db.rules kept.known) (
              (
                rw (==_refl db.next_id) (refl, refl, rule_of-IsValid p input w user next db valid),
                omega arith,
              ),
              tt,
            );
            owned = owned-later db.next_id (suc db.next_id) db.actions (omega arith) kept.owned;
            capped = with_rule-capped g r db refl kept;
          },
        )
]
