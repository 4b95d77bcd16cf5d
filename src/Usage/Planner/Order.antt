-- ===== src/Usage/Planner/Order.antt =====
-- The order of `planAllocations` (src/usage/usage.service.ts) within one bucket.
use Prim.Native.Nat.{min, max}
use gomer.Base.{
  ℕ, ◌+◌, ◌-◌, ◌≤◌, ◌<◌, ◌≡◌, refl, List, [], ◌∷◌, Bool-cases, inl, inr, arith, ltb, ◌==◌,
  if◌then◌else◌, keep, All,
}
use gomer.Base.Sort.{sort_by, sort_by-sum_of, sort_by-keep, sort_by-IsSorted, IsSorted}
use gomer.Usage.Planner.{
  SpendableGrant, PlannedAllocation, spend_index, plan_from, plan_allocations,
}
use gomer.Usage.Planner.Laws.{held_before, held_before-none}

abbrev pub grants_at : ℕ → List SpendableGrant → List SpendableGrant
grants_at r = keep (λ g. spend_index g.bucket == r)

abbrev pub allocations_at : ℕ → List PlannedAllocation → List PlannedAllocation
allocations_at r = keep (λ a. spend_index a.bucket == r)

plan_from-zero : (gs : List SpendableGrant) → plan_from 0 gs ≡ []
unfolding plan_from
plan_from-zero [] = refl
plan_from-zero (g ∷ gs) = refl

module _ (r : ℕ) where
  grants_at-later :
      (gs : List SpendableGrant) → All (λ g. r < spend_index g.bucket) gs → grants_at r gs ≡ []
  grants_at-later [] h = refl
  grants_at-later (g ∷ gs) h = ground (arith, grants_at-later gs)

  allocations_at-later :
      (c : ℕ) (gs : List SpendableGrant)
      → All (λ g. r < spend_index g.bucket) gs
      → allocations_at r (plan_from c gs) ≡ []
  unfolding plan_from
  allocations_at-later c [] h = refl
  allocations_at-later c (g ∷ gs) h =
      ground (arith, allocations_at-later c gs, allocations_at-later (c - min c g.remaining) gs)

  All-above :
      (s t : ℕ) (gs : List SpendableGrant)
      → t ≤ s
      → All (λ g. s ≤ spend_index g.bucket) gs
      → All (λ g. t ≤ spend_index g.bucket) gs
  All-above s t [] le h = tt
  All-above s t (g ∷ gs) le h = (omega arith, All-above s t gs le h.1)

  later_lt :
      (gs : List SpendableGrant)
      → All (λ g. r + 1 ≤ spend_index g.bucket) gs
      → All (λ g. r < spend_index g.bucket) gs
  later_lt [] h = tt
  later_lt (g ∷ gs) h = (omega arith, later_lt gs h.1)

  plan_from-allocations_at :
      (c : ℕ) (gs : List SpendableGrant)
      → IsSorted (λ (g : SpendableGrant). spend_index g.bucket) gs
      → allocations_at r (plan_from c gs) ≡ plan_from (c - held_before r gs) (grants_at r gs)
  unfolding plan_from
  plan_from-allocations_at c [] s = refl
  plan_from-allocations_at c (g ∷ gs) s = elim (Bool-cases (ltb (spend_index g.bucket) r)) [
    | inl e ↦ ground (
      arith,
      plan_from-allocations_at c gs s.1,
      plan_from-allocations_at (c - min c g.remaining) gs s.1,
      plan_from-zero (grants_at r gs),
    )
    | inr e ↦ elim (Bool-cases (spend_index g.bucket == r)) [
      | inl e' ↦
          let later = All-above (spend_index g.bucket) r gs (ground arith) s.0 in
          ground (
            arith,
            held_before-none r gs later,
            plan_from-allocations_at c gs s.1,
            plan_from-allocations_at (c - min c g.remaining) gs s.1,
          )
      | inr e' ↦
          let later = All-above (spend_index g.bucket) (r + 1) gs (ground arith) s.0 in
          ground (
            arith,
            grants_at-later gs (later_lt gs later),
            allocations_at-later c gs (later_lt gs later),
            allocations_at-later (c - min c g.remaining) gs (later_lt gs later),
          )
    ]
  ]

  -- The allocations of one bucket are those of a plan over that bucket's grants, in the order in
  -- which they were given, for the charge less what the buckets before it hold.
  pub plan_allocations-allocations_at :
      (gs : List SpendableGrant) (c : ℕ)
      → allocations_at r (plan_allocations gs c) ≡ plan_from (c - held_before r gs) (grants_at r gs)
  unfolding plan_allocations
  plan_allocations-allocations_at gs c =
      let key : SpendableGrant → ℕ = λ g. spend_index g.bucket in
      ground (
        arith,
        plan_from-allocations_at (max 0 c) (sort_by key gs) (sort_by-IsSorted key gs),
        sort_by-keep key r gs,
        sort_by-sum_of key (λ g. if ltb (spend_index g.bucket) r then g.remaining else 0) gs,
      )
