-- ===== src/Usage/Planner.antt =====
-- `planAllocations` of src/usage/usage.service.ts: which grants pay for a run.
pub mod Laws
pub mod Order
use Prim.Native.Nat.{min, max}
use gomer.Base.{
  ℕ, suc, ◌-◌, Bool, Option, none, some, List, [], ◌∷◌, map, ◌==◌, if◌then◌else◌, or_else,
}
use mathlib.Core.Option
use gomer.Base.Sort.{sort_by}
use gomer.Usage.Types.{CreditBucket, bucket_eq}

pub record SpendableGrant : Type 0 where
  pub id : ℕ
  pub bucket : CreditBucket
  pub remaining : ℕ

pub record PlannedAllocation : Type 0 where
  pub grant_id : ℕ
  pub bucket : CreditBucket
  pub credits : ℕ

-- `SPEND_ORDER`
abbrev pub spend_order : List CreditBucket
spend_order =
    CreditBucket.rollover ∷ CreditBucket.plan ∷ CreditBucket.topup ∷ CreditBucket.reward ∷ []

abbrev pub index_of : CreditBucket → List CreditBucket → Option ℕ
index_of b [] = none
index_of b (c ∷ cs) = if bucket_eq b c then some 0 else Option.map suc (index_of b cs)

-- `SPEND_ORDER.indexOf(bucket)` plus one, so that a bucket outside the list is 0 and not -1: only
-- the order of two such values is used.
unfoldable pub spend_index : CreditBucket → ℕ
spend_index b = or_else (Option.map suc (index_of b spend_order)) 0

-- The loop of `planAllocations` over the ordered grants.
pub plan_from : ℕ → List SpendableGrant → List PlannedAllocation
plan_from outstanding [] = []
plan_from outstanding (grant ∷ grants) =
    let take = min outstanding grant.remaining in
    let skipped = plan_from outstanding grants in
    let taken =
      record { grant_id = grant.id; bucket = grant.bucket; credits = take }
      ∷ plan_from (outstanding - take) grants in
    if outstanding == 0 then [] else if take == 0 then skipped else taken

unfoldable pub plan_allocations : List SpendableGrant → ℕ → List PlannedAllocation
unfolding plan_from
plan_allocations grants credits =
    plan_from (max 0 credits) (sort_by (λ g. spend_index g.bucket) grants)
