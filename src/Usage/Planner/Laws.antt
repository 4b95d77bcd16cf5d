-- ===== src/Usage/Planner/Laws.antt =====
-- The amounts that `planAllocations` (src/usage/usage.service.ts) draws.
use Prim.Native.Nat.{min, max}
use gomer.Base.{
  ℕ, ◌-◌, ◌≤◌, ◌≡◌, refl, List, [], ◌∷◌, Bool-cases, inl, inr, arith, ltb, ◌==◌, if◌then◌else◌,
  sum_of, All,
}
use gomer.Base.Sort.{sort_by, sort_by-sum_of, sort_by-IsSorted, IsSorted}
use gomer.Usage.Planner.{
  SpendableGrant, PlannedAllocation, spend_index, plan_from, plan_allocations,
}

abbrev pub held : List SpendableGrant → ℕ
held = sum_of (λ g. g.remaining)

abbrev pub drawn : List PlannedAllocation → ℕ
drawn = sum_of (λ a. a.credits)

-- What the grants of one id hold, and what is drawn from them.
abbrev pub held_by : ℕ → List SpendableGrant → ℕ
held_by i = sum_of (λ g. if g.id == i then g.remaining else 0)

abbrev pub drawn_from : ℕ → List PlannedAllocation → ℕ
drawn_from i = sum_of (λ a. if a.grant_id == i then a.credits else 0)

-- The same for the buckets that come before the place `r` in the spending order.
abbrev pub held_before : ℕ → List SpendableGrant → ℕ
held_before r = sum_of (λ g. if ltb (spend_index g.bucket) r then g.remaining else 0)

abbrev pub drawn_before : ℕ → List PlannedAllocation → ℕ
drawn_before r = sum_of (λ a. if ltb (spend_index a.bucket) r then a.credits else 0)

plan_from-drawn : (c : ℕ) (gs : List SpendableGrant) → drawn (plan_from c gs) ≡ min c (held gs)
unfolding plan_from
plan_from-drawn c [] = omega arith
plan_from-drawn c (g ∷ gs) =
    ground (arith, plan_from-drawn c gs, plan_from-drawn (c - min c g.remaining) gs)

-- A run draws exactly the smaller of its charge and what the grants hold together.
pub plan_allocations-drawn :
    (gs : List SpendableGrant) (c : ℕ) → drawn (plan_allocations gs c) ≡ min c (held gs)
unfolding plan_allocations
plan_allocations-drawn gs c = ground (
  arith,
  plan_from-drawn (max 0 c) (sort_by (λ g. spend_index g.bucket) gs),
  sort_by-sum_of (λ (g : SpendableGrant). spend_index g.bucket) (λ g. g.remaining) gs,
)

plan_from-drawn_from :
    (i c : ℕ) (gs : List SpendableGrant) → drawn_from i (plan_from c gs) ≤ held_by i gs
unfolding plan_from
plan_from-drawn_from i c [] = omega arith
plan_from-drawn_from i c (g ∷ gs) =
    ground (arith, plan_from-drawn_from i c gs, plan_from-drawn_from i (c - min c g.remaining) gs)

-- No grant is drawn on for more than it holds.
pub drawn_from-le-held_by :
    (i : ℕ) (gs : List SpendableGrant) (c : ℕ) → drawn_from i (plan_allocations gs c) ≤ held_by i gs
unfolding plan_allocations
drawn_from-le-held_by i gs c = ground (
  arith,
  plan_from-drawn_from i (max 0 c) (sort_by (λ g. spend_index g.bucket) gs),
  sort_by-sum_of (λ (g : SpendableGrant). spend_index g.bucket)
      (λ g. if g.id == i then g.remaining else 0) gs,
)

pub held_before-none :
    (r : ℕ) (gs : List SpendableGrant)
    → All (λ g. r ≤ spend_index g.bucket) gs
    → held_before r gs ≡ 0
held_before-none r [] h = refl
held_before-none r (g ∷ gs) h = ground (arith, held_before-none r gs)

drawn_before-none :
    (r c : ℕ) (gs : List SpendableGrant)
    → All (λ g. r ≤ spend_index g.bucket) gs
    → drawn_before r (plan_from c gs) ≡ 0
unfolding plan_from
drawn_before-none r c [] h = refl
drawn_before-none r c (g ∷ gs) h =
    ground (arith, drawn_before-none r c gs, drawn_before-none r (c - min c g.remaining) gs)

All-later :
    (r s : ℕ) (gs : List SpendableGrant)
    → r ≤ s
    → All (λ g. s ≤ spend_index g.bucket) gs
    → All (λ g. r ≤ spend_index g.bucket) gs
All-later r s [] le h = tt
All-later r s (g ∷ gs) le h = (omega arith, All-later r s gs le h.1)

plan_from-drawn_before :
    (r c : ℕ) (gs : List SpendableGrant)
    → IsSorted (λ (g : SpendableGrant). spend_index g.bucket) gs
    → drawn_before r (plan_from c gs) ≡ min c (held_before r gs)
unfolding plan_from
plan_from-drawn_before r c [] s = omega arith
plan_from-drawn_before r c (g ∷ gs) s = elim (Bool-cases (ltb (spend_index g.bucket) r)) [
  | inl e ↦ ground (
    arith,
    plan_from-drawn_before r c gs s.1,
    plan_from-drawn_before r (c - min c g.remaining) gs s.1,
  )
  | inr e ↦
      let later = All-later r (spend_index g.bucket) gs (ground arith) s.0 in
      ground (
        arith,
        held_before-none r gs later,
        drawn_before-none r c gs later,
        drawn_before-none r (c - min c g.remaining) gs later,
      )
]

-- For every place in the spending order, what is drawn from the buckets before it is the smaller of
-- the charge and what they hold: a bucket is reached only once all that come before it are empty.
pub plan_allocations-drawn_before :
    (r : ℕ) (gs : List SpendableGrant) (c : ℕ)
    → drawn_before r (plan_allocations gs c) ≡ min c (held_before r gs)
unfolding plan_allocations
plan_allocations-drawn_before r gs c =
    let key : SpendableGrant → ℕ = λ g. spend_index g.bucket in
    ground (
      arith,
      plan_from-drawn_before r (max 0 c) (sort_by key gs) (sort_by-IsSorted key gs),
      sort_by-sum_of key (λ g. if ltb (spend_index g.bucket) r then g.remaining else 0) gs,
    )

-- How many grants have the id `i`.
abbrev pub count_id : ℕ → List SpendableGrant → ℕ
count_id i = sum_of (λ g. if g.id == i then 1 else 0)

abbrev IsFrom : List SpendableGrant → PlannedAllocation → Type 0
IsFrom gs a = (1 ≤ count_id a.grant_id gs) × (1 ≤ a.credits)

All-IsFrom-cons :
    (g : SpendableGrant) (gs : List SpendableGrant) (rows : List PlannedAllocation)
    → All (IsFrom gs) rows
    → All (IsFrom (g ∷ gs)) rows
All-IsFrom-cons g gs [] h = tt
All-IsFrom-cons g gs (a ∷ rows) h = ((ground arith, h.0.1), All-IsFrom-cons g gs rows h.1)

plan_from-IsFrom : (c : ℕ) (gs : List SpendableGrant) → All (IsFrom gs) (plan_from c gs)
unfolding plan_from
plan_from-IsFrom c [] = tt
plan_from-IsFrom c (g ∷ gs) = elim (Bool-cases (c == 0)) [
  | inl e ↦ rw e tt
  | inr e ↦ elim (Bool-cases (min c g.remaining == 0)) [
    | inl e' ↦ rw (e, e') (All-IsFrom-cons g gs _ (plan_from-IsFrom c gs))
    | inr e' ↦
        rw (e, e')
          (
            (ground arith, ground arith),
            All-IsFrom-cons g gs _ (plan_from-IsFrom (c - min c g.remaining) gs),
          )
  ]
]

All-IsFrom-same :
    (gs hs : List SpendableGrant)
    → ((i : ℕ) → count_id i gs ≡ count_id i hs)
    → (rows : List PlannedAllocation) → All (IsFrom gs) rows
    → All (IsFrom hs) rows
All-IsFrom-same gs hs same [] h = tt
All-IsFrom-same gs hs same (a ∷ rows) h =
    ((rw (← same a.grant_id) h.0.0, h.0.1), All-IsFrom-same gs hs same rows h.1)

-- Every allocation is of at least one credit and names one of the grants.
pub plan_allocations-IsFrom :
    (gs : List SpendableGrant) (c : ℕ)
    → All (λ a. (1 ≤ count_id a.grant_id gs) × (1 ≤ a.credits)) (plan_allocations gs c)
unfolding plan_allocations
plan_allocations-IsFrom gs c =
    let key : SpendableGrant → ℕ = λ g. spend_index g.bucket in
    All-IsFrom-same (sort_by key gs) gs
      (λ i. sort_by-sum_of key (λ g. if g.id == i then 1 else 0) gs) _
      (plan_from-IsFrom (max 0 c) (sort_by key gs))
