-- ===== src/Rules/Crud/Laws.antt =====
-- The rules that `validate` (src/rules/rules.service.ts) lets through.
use gomer.Base.{ℕ, ◌≡◌, refl, Bool, true, false, Option, none, some, arith, is_some}
use gomer.Base.Text.{String}
use gomer.Rules.Types.{
  AdRule, alert, scale, is_verified_roas, is_account, action_eq, Outcome, returned,
}
use gomer.Rules.Platform.{Platform, RulesDb}
use gomer.Rules.Crud.{CreateRuleInput, refusal, validate, no_pct, rule_of, unless_refused}

-- A rule on the verified ROAS watches an account, a rule on an account only alerts, a rule that scales
-- says by how much, and an active rule has a time to run at.
pub record IsValid (r : AdRule) : Type 0 where
  pub roas_of_account : is_verified_roas r.metric ≡ true → is_account r.scope ≡ true
  pub account_alerts : is_account r.scope ≡ true → action_eq r.action alert ≡ true
  pub scales_by : action_eq r.action scale ≡ true → no_pct r.scale_pct ≡ false
  pub scheduled : r.is_active ≡ true → is_some r.next_run ≡ true

-- Switching a rule and setting its next run keep it valid, if an active rule gets a next run.
pub IsValid-rescheduled :
    (r : AdRule) (active : Bool) (last next : Option ℕ)
    → (active ≡ true → is_some next ≡ true)
    → IsValid r
    → IsValid (record r { is_active = active; last_run = last; next_run = next })
IsValid-rescheduled r active last next h v = record {
  roas_of_account = v.roas_of_account;
  account_alerts = v.account_alerts;
  scales_by = v.scales_by;
  scheduled = h;
}

unless_refused-none :
    (o : Option String) (out : Outcome ℕ) (n : ℕ) → unless_refused o out ≡ returned n → o ≡ none
unless_refused-none none out n e = refl
unless_refused-none (some x) out n e = cc

validate-refusal :
    (p : Platform) (input : CreateRuleInput) (now next : ℕ)
    → validate p input now ≡ returned next
    → refusal input ≡ none
unfolding validate
validate-refusal p input now next e = unless_refused-none (refusal input) _ next e

pub rule_of-IsValid :
    (p : Platform) (input : CreateRuleInput) (w : ℕ) (user : Option ℕ) (next : ℕ) (db : RulesDb)
    → validate p input db.now ≡ returned next
    → IsValid (rule_of input w user next db)
rule_of-IsValid p input w user next db e =
    let free = validate-refusal p input db.now next e in
    record {
      roas_of_account = λ h. ground arith;
      account_alerts = λ h. ground arith;
      scales_by = λ h. rw h (ground arith);
      scheduled = λ h. refl;
    }
