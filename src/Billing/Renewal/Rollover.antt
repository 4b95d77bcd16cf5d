-- ===== src/Billing/Renewal/Rollover.antt =====
-- `unspentPlanCredits` (src/billing/subscriptions.service.ts): the amount that a renewal carries forward.
use Prim.Native.Nat.{max}
use gomer.Base.{
  ℕ, suc, ◌+◌, ◌-◌, ◌*◌, ◌≤◌, ◌≡◌, refl, List, [], ◌∷◌, map, arith, keep, sum_of, length, All,
  All-keep, Bool, false, sum_of-append, Bool-cases, Option-cases, inl, inr, some, ◌==◌, ==_iff,
  ◌&&◌,
}
use gomer.Usage.Types.{CreditBucket, CreditGrant, CreditAllocation, Ledger, is_live, bucket_eq}
use gomer.Usage.Ledger.{joined, spent}
use gomer.Usage.Ledger.Invariant.{IsSound}
use gomer.Base.Text.{String}
use gomer.Billing.Plans.{find_plan}
use gomer.Billing.Subscriptions.{Subscription, Db}
use gomer.Billing.Renewal.{
  JoinRow, join_rows, left_join, is_live_plan, unspent_plan_credits, apply_renewal, commit_renewal,
  grant_period, has_invoice,
}

abbrev row_credits : JoinRow → ℕ
row_credits r = r.credits

abbrev row_allocated : JoinRow → ℕ
row_allocated r = r.allocated

map-credits :
    (g : CreditGrant) (rows : List CreditAllocation)
    → sum_of row_credits (map (λ b. record { credits = g.credits; allocated = b.credits }) rows)
      ≡ g.credits * length rows
map-credits g [] = omega arith
map-credits g (a ∷ rows) = omega (arith, map-credits g rows)

map-allocated :
    (g : CreditGrant) (rows : List CreditAllocation)
    → sum_of row_allocated (map (λ b. record { credits = g.credits; allocated = b.credits }) rows)
      ≡ sum_of (λ a. a.credits) rows
map-allocated g [] = refl
map-allocated g (a ∷ rows) = omega (arith, map-allocated g rows)

join_rows-credits :
    (g : CreditGrant) (rows : List CreditAllocation)
    → sum_of row_credits (join_rows g rows) ≡ g.credits * max 1 (length rows)
join_rows-credits g [] = omega arith
join_rows-credits g (a ∷ rows) =
    let most : max 1 (suc (length rows)) ≡ 1 + length rows = omega arith in
    rw most (omega (arith, map-credits g rows))

join_rows-allocated :
    (g : CreditGrant) (rows : List CreditAllocation)
    → sum_of row_allocated (join_rows g rows) ≡ sum_of (λ a. a.credits) rows
join_rows-allocated g [] = refl
join_rows-allocated g (a ∷ rows) = map-allocated g (a ∷ rows)

left_join-sums :
    (allocations : List CreditAllocation) (gs : List CreditGrant)
    → (sum_of row_credits (left_join allocations gs)
        ≡ sum_of (λ g. g.credits * max 1 (length (joined allocations g.id))) gs)
      × (sum_of row_allocated (left_join allocations gs) ≡ sum_of (λ g. spent allocations g.id) gs)
left_join-sums allocations [] = (refl, refl)
left_join-sums allocations (g ∷ gs) =
    let mine = join_rows g (joined allocations g.id) in
    let ih = left_join-sums allocations gs in
    (
      omega (
        arith,
        sum_of-append row_credits mine (left_join allocations gs),
        join_rows-credits g (joined allocations g.id),
        ih.0,
      ),
      omega (
        arith,
        sum_of-append row_allocated mine (left_join allocations gs),
        join_rows-allocated g (joined allocations g.id),
        ih.1,
      ),
    )

keep-none {ℓ} :
    {A : Type ℓ} (p : A → Bool) (xs : List A) → All (λ x. p x ≡ false) xs → keep p xs ≡ []
keep-none p [] h = refl
keep-none p (x ∷ xs) h = ground (arith, keep-none p xs)

-- What is left of the live plan grants, and what the join counts more than once.
module _ (allocations : List CreditAllocation) where
  abbrev pub left_of : CreditGrant → ℕ
  left_of g = g.credits - spent allocations g.id

  abbrev pub recounted : CreditGrant → ℕ
  recounted g = g.credits * (length (joined allocations g.id) - 1)

  joined-parts :
      (gs : List CreditGrant)
      → All (λ g. spent allocations g.id ≤ g.credits) gs
      → sum_of (λ g. g.credits * max 1 (length (joined allocations g.id))) gs
        ≡ sum_of left_of gs + sum_of (λ g. spent allocations g.id) gs + sum_of recounted gs
  joined-parts [] h = refl
  joined-parts (g ∷ gs) h =
      let n = length (joined allocations g.id) in
      let split : max 1 n ≡ 1 + (n - 1) = omega arith in
      let own : g.credits * max 1 n ≡ g.credits + g.credits * (n - 1) = rw split (omega arith) in
      omega (arith, own, h.0, joined-parts gs h.1)

-- In a sound ledger, the amount carried forward is what is left of the live plan grants, plus the
-- whole of each such grant once more for every allocation on it after the first.
pub unspent_plan_credits-join :
    (l : Ledger) (w : ℕ)
    → IsSound l
    → let plans = keep (is_live_plan l.now w) l.grants in
      unspent_plan_credits l w
      ≡ sum_of (left_of l.allocations) plans + sum_of (recounted l.allocations) plans
unfolding unspent_plan_credits
unspent_plan_credits-join l w s =
    let plans = keep (is_live_plan l.now w) l.grants in
    let within =
      All-keep (λ g. spent l.allocations g.id ≤ g.credits) (is_live_plan l.now w) l.grants
        s.within in
    omega (arith, left_join-sums l.allocations plans, joined-parts l.allocations plans within)

-- Every plan grant of a workspace has expired by a time.
abbrev pub HasExpired : ℕ → ℕ → CreditGrant → Type 0
HasExpired now w g =
    g.workspace_id ≡ w
    → g.bucket ≡ CreditBucket.plan
    → (t : ℕ) × (g.expires_at ≡ some t) × (t ≤ now)

plan_dead :
    (now w : ℕ) (g : CreditGrant) (b : CreditBucket)
    → HasExpired now w g
    → g.workspace_id ≡ w
    → g.bucket ≡ b
    → (bucket_eq b CreditBucket.plan && is_live now g.expires_at) ≡ false
plan_dead now w g CreditBucket.plan h right is =
    let (t, ends, past) = h right is in rw ends (ground arith)
plan_dead now w g CreditBucket.topup h right is = refl
plan_dead now w g CreditBucket.rollover h right is = refl
plan_dead now w g CreditBucket.reward h right is = refl

expired-dead : (now w : ℕ) (g : CreditGrant) → HasExpired now w g → is_live_plan now w g ≡ false
expired-dead now w g h = elim (Bool-cases (g.workspace_id == w)) [
  | inr other ↦ rw other refl
  | inl same ↦ rw same (plan_dead now w g g.bucket h ((==_iff g.workspace_id w).0 same) refl)
]

all_dead :
    (now w : ℕ) (gs : List CreditGrant)
    → All (HasExpired now w) gs
    → All (λ g. is_live_plan now w g ≡ false) gs
all_dead now w [] h = tt
all_dead now w (g ∷ gs) h = (expired-dead now w g h.0, all_dead now w gs h.1)

unspent_plan_credits-dead :
    (l : Ledger) (w : ℕ) → All (HasExpired l.now w) l.grants → unspent_plan_credits l w ≡ 0
unfolding unspent_plan_credits
unspent_plan_credits-dead l w h =
    rw (keep-none (is_live_plan l.now w) l.grants (all_dead l.now w l.grants h)) refl

-- When every plan grant of the workspace has expired by the time the invoice is applied, to the
-- instant, the renewal carries nothing forward, however much of the allowance was left.
pub unspent_plan_credits-expired :
    (s : Subscription) (invoice : String) (period_end : ℕ) (db : Db)
    → All (HasExpired db.ledger.now s.workspace_id) db.ledger.grants
    → (apply_renewal s invoice period_end db).0.rolled_over ≡ 0
unfolding apply_renewal commit_renewal
unspent_plan_credits-expired s invoice period_end db h =
    let nothing = unspent_plan_credits-dead db.ledger s.workspace_id h in
    elim (Option-cases (find_plan s.plan_id)) [
      | inl unknown ↦ rw (unknown, apply_renewal) refl
      | inr (plan, known) ↦ elim (Bool-cases (has_invoice invoice db.ledger)) [
        | inl seen ↦ rw (known, seen, apply_renewal) refl
        | inr fresh ↦
            let period =
              grant_period s.workspace_id plan invoice period_end (db.active_seats s.workspace_id)
                db.ledger in
            elim (Option-cases period) [
              | inl lost ↦ rw (known, fresh, lost, apply_renewal, commit_renewal) refl
              | inr (l, saved) ↦ rw (known, fresh, saved, apply_renewal, commit_renewal) nothing
            ]
      ]
    ]
