-- ===== src/Billing/Renewal/Laws.antt =====
-- The effect of `applyRenewal` (src/billing/subscriptions.service.ts) on the ledger and its balances.
use gomer.Base.{
  ℕ, ◌+◌, ◌-◌, ◌*◌, ◌≤◌, ◌<◌, ◌≡◌, refl, Option, Bool, Bool-cases, Option-cases, true, false, inl,
  inr, some, none, arith, ltb, ==_refl,
}
use mathlib.Core.Path.{subst}
use gomer.Base.Text.{String}
use gomer.Usage.Types.{CreditGrant, Ledger, is_live}
use gomer.Usage.Ledger.{save_grant}
use gomer.Usage.Ledger.Invariant.{IsSound, save_grant-eq, save_grant-IsSound}
use gomer.Usage.Balance.{get_balance}
use gomer.Usage.Balance.Moves.{with_grant-moves}
use gomer.Billing.Plans.{SubscriptionPlan, find_plan}
use gomer.Billing.Subscriptions.{Subscription, Db}
use gomer.Billing.Renewal.{
  seat_bonus_for, unspent_plan_credits, rollover_grant, plan_grant, bonus_grant, ◌>>=◌, save_if,
  grant_period, commit_renewal, has_invoice, apply_renewal,
}

-- The seat bonus is 10,000 credits for each seat after the fourth, and 400,000 at the most.
pub seat_bonus_for-capped :
    (seats : ℕ)
    → (seats ≤ 44 → seat_bonus_for seats ≡ 10_000 * (seats - 4))
      × (44 ≤ seats → seat_bonus_for seats ≡ 400_000)
unfolding seat_bonus_for
seat_bonus_for-capped seats = (λ h. omega arith, λ h. omega arith)

>>=-eq-some :
    {A B : Type 0} (m : Option A) (f : A → Option B) {b : B}
    → (m >>= f) ≡ some b
    → (a : A) × (m ≡ some a) × (f a ≡ some b)
>>=-eq-some none f h = cc
>>=-eq-some (some a) f h = (a, refl, h)

-- The three saves of the transaction.
module _ (w : ℕ) (plan : SubscriptionPlan) (invoice : String) (period_end seats : ℕ)
    (l l' : Ledger) where
  abbrev rolled : ℕ
  rolled = unspent_plan_credits l w

  pub grant_period-parts :
      grant_period w plan invoice period_end seats l ≡ some l'
      → (l1 : Ledger) × (save_if (ltb 0 rolled) (rollover_grant l w rolled period_end) l ≡ some l1)
        × ((l2 : Ledger) × (save_grant (plan_grant l1 w plan invoice period_end) l1 ≡ some l2)
            × (save_if (ltb 0 (seat_bonus_for seats)) (bonus_grant l2 w (seat_bonus_for seats)) l2
                ≡ some l'))
  unfolding grant_period
  grant_period-parts e =
      let (l1, first, rest) = >>=-eq-some _ _ e in
      let (l2, second, third) = >>=-eq-some _ _ rest in (l1, first, (l2, second, third))

save_if-IsSound :
    (b : Bool) (g : CreditGrant) (l l' : Ledger)
    → g.id ≡ l.next_id
    → IsSound l
    → save_if b g l ≡ some l'
    → IsSound l'
save_if-IsSound true g l l' own s e = save_grant-IsSound g l l' own s e
save_if-IsSound false g l l' own s e = let same : l ≡ l' = cc in subst IsSound same s

-- Saving a grant with credits, or leaving out one with none, raises the balance by the credits.
save_if-balance :
    (b : Bool) (g : CreditGrant) (l l' : Ledger)
    → g.id ≡ l.next_id
    → IsSound l
    → is_live l.now g.expires_at ≡ true
    → (b ≡ false → g.credits ≡ 0)
    → save_if b g l ≡ some l'
    → ((get_balance l' g.workspace_id).balance ≡ (get_balance l g.workspace_id).balance + g.credits)
      × (l'.now ≡ l.now)
save_if-balance true g l l' own s live zero e = rw (save_grant-eq g l l' e) (
  ground (arith, (with_grant-moves g l g.workspace_id own s live).0, ==_refl g.workspace_id),
  refl,
)
save_if-balance false g l l' own s live zero e =
    let same : l ≡ l' = cc in rw (← same) (omega (arith, zero refl), refl)

grant_period-balance :
    (w : ℕ) (plan : SubscriptionPlan) (invoice : String) (period_end seats : ℕ) (l l' : Ledger)
    → IsSound l
    → l.now < period_end
    → grant_period w plan invoice period_end seats l ≡ some l'
    → IsSound l'
      × ((get_balance l' w).balance
          ≡ (get_balance l w).balance
            + unspent_plan_credits l w
            + plan.monthly_credits
            + seat_bonus_for seats)
grant_period-balance w plan invoice period_end seats l l' s later e =
    let (l1, first, (l2, second, third)) =
      grant_period-parts w plan invoice period_end seats l l' e in
    let rolled = unspent_plan_credits l w in
    let bonus = seat_bonus_for seats in
    let g1 = rollover_grant l w rolled period_end in
    let g2 = plan_grant l1 w plan invoice period_end in
    let g3 = bonus_grant l2 w bonus in
    let s1 = save_if-IsSound (ltb 0 rolled) g1 l l1 refl s first in
    let s2 = save_grant-IsSound g2 l1 l2 refl s1 second in
    let m1 =
      save_if-balance (ltb 0 rolled) g1 l l1 refl s (ground arith) (λ h. ground arith) first in
    let m2 = save_if-balance true g2 l1 l2 refl s1 (ground (arith, m1.1)) (λ h. cc) second in
    let m3 = save_if-balance (ltb 0 bonus) g3 l2 l' refl s2 refl (λ h. ground arith) third in
    (save_if-IsSound (ltb 0 bonus) g3 l2 l' refl s2 third, omega (arith, m1.0, m2.0, m3.0))

commit_renewal-grants :
    (s : Subscription) (plan : SubscriptionPlan) (invoice : String) (period_end : ℕ) (db : Db)
    → IsSound db.ledger
    → db.ledger.now < period_end
    → let w = s.workspace_id in
      let (r, db') = commit_renewal s plan invoice period_end db in
      IsSound db'.ledger
      × ((get_balance db'.ledger w).balance
          ≡ (get_balance db.ledger w).balance + r.rolled_over + r.plan_credits + r.seat_bonus)
unfolding commit_renewal
commit_renewal-grants s plan invoice period_end db sound later =
    let w = s.workspace_id in
    let seats = db.active_seats w in
    elim (Option-cases (grant_period w plan invoice period_end seats db.ledger)) [
      | inl fails ↦ rw (fails, commit_renewal) (sound, omega arith)
      | inr (l, done) ↦
          rw (done, commit_renewal)
            (grant_period-balance w plan invoice period_end seats db.ledger l sound later done)
    ]

-- In a sound ledger, and for a period that ends in the future: however a delivery of a paid invoice
-- ends, the ledger stays sound, and the balance of the workspace grows by exactly what the result
-- reports, the amount carried forward, the plan's allowance and the seat bonus.
pub apply_renewal-grants :
    (s : Subscription) (invoice : String) (period_end : ℕ) (db : Db)
    → IsSound db.ledger
    → db.ledger.now < period_end
    → let w = s.workspace_id in
      let (r, db') = apply_renewal s invoice period_end db in
      IsSound db'.ledger
      × ((get_balance db'.ledger w).balance
          ≡ (get_balance db.ledger w).balance + r.rolled_over + r.plan_credits + r.seat_bonus)
unfolding apply_renewal
apply_renewal-grants s invoice period_end db sound later =
    elim (Option-cases (find_plan s.plan_id)) [
      | inl unknown ↦ rw (unknown, apply_renewal) (sound, omega arith)
      | inr (plan, found) ↦
          rw (found, apply_renewal)
            (elim (Bool-cases (has_invoice invoice db.ledger)) [
              | inl old ↦ rw old (sound, omega arith)
              | inr new ↦ rw new (commit_renewal-grants s plan invoice period_end db sound later)
            ])
    ]
