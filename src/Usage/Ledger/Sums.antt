-- ===== src/Usage/Ledger/Sums.antt =====
-- Sums over the ledger's tables: what a grant has left, and how one metered run changes it.
use gomer.Base.{
  ℕ, suc, ◌+◌, ◌-◌, ◌*◌, ◌≤◌, ◌≡◌, ◌≢◌, refl, ap, ◌∙◌, Bool-cases, inl, inr, ◌&&◌, List, [], ◌∷◌,
  ◌++◌, arith, ltb, ◌==◌, if◌then◌else◌, keep, sum_of, sum_of-map, sum_of-add, sum_of-plus,
  sum_of-zero, sum_of-same, All, All-imp,
}
use gomer.Base.Sort.{sort_by, sort_by-sum_of}
use gomer.Base.Unique.{count_at, IsDistinct, sum_at_self}
use gomer.Usage.Types.{CreditGrant, CreditAllocation, Ledger, is_live}
use gomer.Usage.Planner.{SpendableGrant, PlannedAllocation, plan_allocations}
use gomer.Usage.Planner.Laws.{
  plan_allocations-drawn, held, drawn, drawn_from, drawn_from-le-held_by, count_id,
  plan_allocations-IsFrom,
}
use gomer.Usage.Ledger.{
  spent, to_spendable, is_spendable, live_grants_for_spending, save_allocations,
}

-- What a workspace can still spend of one grant.
abbrev pub available : List CreditAllocation → ℕ → ℕ → CreditGrant → ℕ
available rows now w g =
    if g.workspace_id == w && is_live now g.expires_at then g.credits - spent rows g.id else 0

pub spent-append :
    (i : ℕ) (xs ys : List CreditAllocation) → spent (xs ++ ys) i ≡ spent xs i + spent ys i
spent-append i [] ys = omega arith
spent-append i (x ∷ xs) ys = ground (arith, spent-append i xs ys)

pub spent-save_allocations :
    (i next e : ℕ) (ps : List PlannedAllocation)
    → spent (save_allocations next e ps) i ≡ drawn_from i ps
spent-save_allocations i next e [] = refl
spent-save_allocations i next e (p ∷ ps) = ground (arith, spent-save_allocations i (suc next) e ps)

-- Sums over the spendable rows are sums over the grants.
keep-sum_of :
    (rows : List CreditAllocation) (now w : ℕ) (f : ℕ → ℕ → ℕ)
    → ((i : ℕ) → f i 0 ≡ 0)
    → (gs : List CreditGrant)
    → sum_of (λ g. f g.id (g.credits - spent rows g.id)) (keep (is_spendable rows now w) gs)
      ≡ sum_of (λ g. f g.id (available rows now w g)) gs
keep-sum_of rows now w f z [] = refl
keep-sum_of rows now w f z (g ∷ gs) =
    let ih = keep-sum_of rows now w f z gs in
    elim (Bool-cases (g.workspace_id == w && is_live now g.expires_at)) [
      | inl e ↦ elim (Bool-cases (ltb (spent rows g.id) g.credits)) [
        | inl e' ↦ rw (e, e') (ap (λ (t : ℕ). f g.id (g.credits - spent rows g.id) + t) ih)
        | inr e' ↦
            let dry : g.credits - spent rows g.id ≡ 0 = ground arith in
            rw (e, e') (rw dry (omega (arith, ih, z g.id)))
      ]
      | inr e ↦ rw e (omega (arith, ih, z g.id))
    ]

count-keep :
    (rows : List CreditAllocation) (now w i : ℕ) (gs : List CreditGrant)
    → count_at (λ g. g.id) i (keep (is_spendable rows now w) gs) ≤ count_at (λ g. g.id) i gs
count-keep rows now w i [] = omega arith
count-keep rows now w i (g ∷ gs) = ground (arith, count-keep rows now w i gs)

sum_of-at :
    (i c : ℕ) (gs : List CreditGrant)
    → sum_of (λ g. if i == g.id then c else 0) gs ≡ count_at (λ g. g.id) i gs * c
sum_of-at i c [] = omega arith
sum_of-at i c (g ∷ gs) = ground (arith, sum_of-at i c gs)

-- When each row names exactly one grant, the draws from all grants add up to all the rows.
sum_of-drawn_from :
    (gs : List CreditGrant) (ps : List PlannedAllocation)
    → All (λ p. count_at (λ (g : CreditGrant). g.id) p.grant_id gs ≡ 1) ps
    → sum_of (λ g. drawn_from g.id ps) gs ≡ drawn ps
sum_of-drawn_from gs [] h = sum_of-zero gs
sum_of-drawn_from gs (p ∷ ps) h = omega (
  arith,
  sum_of-plus (λ (g : CreditGrant). if p.grant_id == g.id then p.credits else 0)
      (λ g. drawn_from g.id ps) gs,
  sum_of-at p.grant_id p.credits gs,
  ap (λ (t : ℕ). t * p.credits) h.0,
  sum_of-drawn_from gs ps h.1,
)

-- What is left of a grant after the rows `ps` have been saved.
available-save :
    (rows : List CreditAllocation) (now w next e : ℕ) (ps : List PlannedAllocation)
    (g : CreditGrant)
    → (g.workspace_id ≡ w → drawn_from g.id ps ≤ available rows now w g)
    → available (rows ++ save_allocations next e ps) now w g
      ≡ available rows now w g - drawn_from g.id ps
available-save rows now w next e ps g h = ground (
  arith,
  spent-append g.id rows (save_allocations next e ps),
  spent-save_allocations g.id next e ps,
)

module _ (l : Ledger) (w : ℕ) where
  -- What the workspace can spend altogether.
  abbrev pub available_total : ℕ
  available_total = sum_of (available l.allocations l.now w) l.grants

  live-sum_of :
      (f : ℕ → ℕ → ℕ)
      → ((i : ℕ) → f i 0 ≡ 0)
      → sum_of (λ g. f g.id g.remaining) (live_grants_for_spending l w)
        ≡ sum_of (λ g. f g.id (available l.allocations l.now w g)) l.grants
  unfolding live_grants_for_spending
  live-sum_of f z =
      let rows = keep (is_spendable l.allocations l.now w) l.grants in
      sum_of-map (λ g. f g.id g.remaining) (to_spendable l.allocations)
        (sort_by (λ g. g.created_at) rows)
      ∙ sort_by-sum_of (λ (g : CreditGrant). g.created_at)
          (λ g. f g.id (g.credits - spent l.allocations g.id)) rows
      ∙ keep-sum_of l.allocations l.now w f z l.grants

  -- The planner is offered exactly what the workspace can spend.
  pub held-live : held (live_grants_for_spending l w) ≡ available_total
  held-live = live-sum_of (λ i r. r) (λ i. refl)

  count_id-live :
      (i : ℕ) → count_id i (live_grants_for_spending l w) ≤ count_at (λ g. g.id) i l.grants
  unfolding live_grants_for_spending
  count_id-live i =
      let rows = keep (is_spendable l.allocations l.now w) l.grants in
      omega (
        arith,
        sum_of-map (λ (g : SpendableGrant). if g.id == i then 1 else 0) (to_spendable l.allocations)
            (sort_by (λ g. g.created_at) rows),
        sort_by-sum_of (λ (g : CreditGrant). g.created_at) (λ g. if g.id == i then 1 else 0) rows,
        count-keep l.allocations l.now w i l.grants,
      )

  module _ (distinct : IsDistinct (λ (g : CreditGrant). g.id) l.grants) (c : ℕ) where
    abbrev pub planned : List PlannedAllocation
    planned = plan_allocations (live_grants_for_spending l w) c

    -- A run draws from a grant at most what its workspace can spend of it.
    pub drawn_from-le-available :
        All (λ g. drawn_from g.id planned ≤ available l.allocations l.now w g) l.grants
    drawn_from-le-available =
        All-imp _ _ l.grants
          (λ g own. omega (
            arith,
            own,
            drawn_from-le-held_by g.id (live_grants_for_spending l w) c,
            live-sum_of (λ i r. if i == g.id then r else 0) (λ i. ground arith),
          ))
          (sum_at_self (λ (g : CreditGrant). g.id) (available l.allocations l.now w) l.grants
            distinct)

    pub planned-known :
        All (λ p. count_at (λ (g : CreditGrant). g.id) p.grant_id l.grants ≡ 1) planned
    planned-known =
        All-imp _ _ planned
          (λ p h. omega (arith, h.0, count_id-live p.grant_id, distinct p.grant_id))
          (plan_allocations-IsFrom (live_grants_for_spending l w) c)

    -- After a run's rows are saved, what a workspace can spend of each grant is what it could before
    -- less what is drawn from that grant.
    pub available-planned :
        (v next e : ℕ)
        → All
            (λ g.
              available (l.allocations ++ save_allocations next e planned) l.now v g
              ≡ available l.allocations l.now v g - drawn_from g.id planned)
            l.grants
    available-planned v next e =
        All-imp _ _ l.grants
          (λ g h. available-save l.allocations l.now v next e planned g (λ same. ground arith))
          drawn_from-le-available

    -- The workspace can spend the charge less, down to nothing.
    pub available_total-planned :
        (next e : ℕ)
        → sum_of (available (l.allocations ++ save_allocations next e planned) l.now w) l.grants
          ≡ available_total - c
    available_total-planned next e = omega (
      arith,
      sum_of-add (available (l.allocations ++ save_allocations next e planned) l.now w)
          (λ g. drawn_from g.id planned) (available l.allocations l.now w) l.grants
          (All-imp _ _ l.grants
            (λ g h.
              omega (arith, h, available-save l.allocations l.now w next e planned g (λ same. h)))
            drawn_from-le-available),
      sum_of-drawn_from l.grants planned planned-known,
      plan_allocations-drawn (live_grants_for_spending l w) c,
      held-live,
    )

    -- Another workspace can spend what it could before.
    pub available_total-others :
        (v next e : ℕ)
        → v ≢ w
        → sum_of (available (l.allocations ++ save_allocations next e planned) l.now v) l.grants
          ≡ sum_of (available l.allocations l.now v) l.grants
    available_total-others v next e other = sum_of-same _ _ l.grants (
        All-imp _ _ l.grants
          (λ g h. ground (
            arith,
            h,
            available-save l.allocations l.now v next e planned g (λ same. ground arith),
          ))
          drawn_from-le-available)
