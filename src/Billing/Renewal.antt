-- ===== src/Billing/Renewal.antt =====
-- `applyRenewal` with `unspentPlanCredits` and `seatBonusFor`
-- (src/billing/subscriptions.service.ts): the grants of one paid period.
pub mod Rollover
pub mod Laws
pub mod Once
use Prim.Native.Nat.{min, max}
use gomer.Base.{
  ℕ, suc, ◌+◌, ◌-◌, ◌*◌, Bool, true, false, ◌&&◌, Option, none, some, List, [], ◌∷◌, ◌++◌, map,
  find, keep, sum_of, is_some, ltb, ◌==◌, if◌then◌else◌,
}
use gomer.Base.Text.{String}
use gomer.Usage.Types.{
  CreditBucket, CreditGrantReason, CreditGrant, CreditAllocation, Ledger, bucket_eq, is_live,
  same_text,
}
use gomer.Usage.Pricing.{credits_per_dollar}
use gomer.Usage.Ledger.{joined, save_grant}
use gomer.Billing.Plans.{SubscriptionPlan, find_plan}
use gomer.Billing.Subscriptions.{Subscription, Db, update_where}

abbrev pub free_seats : ℕ
free_seats = 4

abbrev pub seat_bonus_credits : ℕ
seat_bonus_credits = 25 * credits_per_dollar

abbrev pub seat_bonus_cap : ℕ
seat_bonus_cap = 1_000 * credits_per_dollar

unfoldable pub seat_bonus_for : ℕ → ℕ
seat_bonus_for seats =
    let billable = max 0 (seats - free_seats) in min (billable * seat_bonus_credits) seat_bonus_cap

-- A row of the left join of the grants with their allocations.
pub record JoinRow : Type 0 where
  pub credits : ℕ
  pub allocated : ℕ

-- A grant stands once for each allocation on it, and once if there is none.
abbrev pub join_rows : CreditGrant → List CreditAllocation → List JoinRow
join_rows g [] = record { credits = g.credits; allocated = 0 } ∷ []
join_rows g (a ∷ rows) = map (λ b. record { credits = g.credits; allocated = b.credits }) (a ∷ rows)

abbrev pub left_join : List CreditAllocation → List CreditGrant → List JoinRow
left_join allocations [] = []
left_join allocations (g ∷ gs) = join_rows g (joined allocations g.id) ++ left_join allocations gs

-- The rows of the PLAN bucket that have not expired.
abbrev pub is_live_plan : ℕ → ℕ → CreditGrant → Bool
is_live_plan now w g =
    g.workspace_id == w && (bucket_eq g.bucket CreditBucket.plan && is_live now g.expires_at)

-- `unspentPlanCredits`: both sums are taken over the joined rows, with no grouping.
unfoldable pub unspent_plan_credits : Ledger → ℕ → ℕ
unspent_plan_credits l w =
    let rows = left_join l.allocations (keep (is_live_plan l.now w) l.grants) in
    max 0 (sum_of (λ r. r.credits) rows - sum_of (λ r. r.allocated) rows)

pub record RenewalResult : Type 0 where
  pub plan_credits : ℕ
  pub rolled_over : ℕ
  pub seat_bonus : ℕ
  pub applied : Bool

abbrev pub not_applied : RenewalResult
not_applied = record { plan_credits = 0; rolled_over = 0; seat_bonus = 0; applied = false }

-- The columns in which the grants of a renewal differ.
abbrev pub renewal_grant :
    Ledger → ℕ → CreditGrantReason → CreditBucket → ℕ → Option ℕ → CreditGrant
renewal_grant l w reason bucket credits expires_at = record {
  id = l.next_id;
  workspace_id = w;
  user_id = none;
  reason = reason;
  bucket = bucket;
  credits = credits;
  expires_at = expires_at;
  amount_cents = none;
  currency = none;
  stripe_session_id = none;
  stripe_invoice_id = none;
  created_at = l.now;
}

abbrev pub rollover_grant : Ledger → ℕ → ℕ → ℕ → CreditGrant
rollover_grant l w credits period_end =
    renewal_grant l w CreditGrantReason.rollover CreditBucket.rollover credits (some period_end)

abbrev pub plan_grant : Ledger → ℕ → SubscriptionPlan → String → ℕ → CreditGrant
plan_grant l w plan invoice period_end =
    let g =
      renewal_grant l w CreditGrantReason.subscription CreditBucket.plan plan.monthly_credits
        (some period_end) in
    record g {
      amount_cents = some plan.price_cents;
      currency = some "usd";
      stripe_invoice_id = some invoice;
    }

abbrev pub bonus_grant : Ledger → ℕ → ℕ → CreditGrant
bonus_grant l w credits =
    renewal_grant l w CreditGrantReason.seat_bonus CreditBucket.reward credits none

infixl 5 ◌>>=◌
abbrev pub ◌>>=◌ : {A B : Type 0} → Option A → (A → Option B) → Option B
none >>= f = none
some a >>= f = f a

-- `if (credits > 0) await grants.save(…)`
abbrev pub save_if : Bool → CreditGrant → Ledger → Option Ledger
save_if yes_save g l = if yes_save then save_grant g l else some l

-- The grants of the transaction, in order; `none` is a unique violation, which rolls it back.
unfoldable pub grant_period : ℕ → SubscriptionPlan → String → ℕ → ℕ → Ledger → Option Ledger
grant_period w plan invoice period_end seats l = do
  let rolled = unspent_plan_credits l w
  l1 ← save_if (ltb 0 rolled) (rollover_grant l w rolled period_end) l
  l2 ← save_grant (plan_grant l1 w plan invoice period_end) l1
  save_if (ltb 0 (seat_bonus_for seats)) (bonus_grant l2 w (seat_bonus_for seats)) l2

-- The transaction with its `catch`: a delivery that lost the race changes nothing.
unfoldable pub commit_renewal :
    Subscription → SubscriptionPlan → String → ℕ → Db → RenewalResult × Db
unfolding grant_period unspent_plan_credits seat_bonus_for save_grant
commit_renewal s plan invoice period_end db =
    let seats = db.active_seats s.workspace_id in
    elim (grant_period s.workspace_id plan invoice period_end seats db.ledger) [
      | none ↦ (not_applied, db)
      | some l ↦ (
        record {
          plan_credits = plan.monthly_credits;
          rolled_over = unspent_plan_credits db.ledger s.workspace_id;
          seat_bonus = seat_bonus_for seats;
          applied = true;
        },
        record db {
          ledger = l;
          subscriptions =
              update_where (λ r. r.id == s.id)
                (λ r. record r { seats = seats; current_period_end = period_end }) db.subscriptions;
        },
      )
    ]

abbrev pub has_invoice : String → Ledger → Bool
has_invoice invoice l = is_some (find (λ g. same_text g.stripe_invoice_id (some invoice)) l.grants)

unfoldable pub apply_renewal : Subscription → String → ℕ → Db → RenewalResult × Db
unfolding commit_renewal find_plan
apply_renewal s invoice period_end db = elim (find_plan s.plan_id) [
  | none ↦ (not_applied, db)
  | some plan ↦
      if has_invoice invoice db.ledger
      then (not_applied, db)
      else commit_renewal s plan invoice period_end db
]
