-- ===== src/Usage/Ledger/Invariant.antt =====
-- An invariant of the credit ledger, and `recordEvent` and `grantCredits` (src/usage/usage.service.ts).

use gomer.Base.{
  ℕ, suc, ◌≤◌, ◌≡◌, refl, Option-cases, inl, inr, some, List, [], ◌∷◌, ◌++◌, arith, ◌==◌,
  sum_of-append, All, All-append, All-imp, All-both, if◌then◌else◌,
}
use gomer.Base.Unique.{count_at, IsDistinct, count_at-below}
use gomer.Usage.Types.{CreditGrant, CreditAllocation, CreditEvent, Ledger}
use gomer.Usage.Planner.{PlannedAllocation}
use gomer.Usage.Pricing.{GatewayConfig}
use gomer.Usage.Ledger.{
  spent, save_allocations, next_after, allocate, record_event, RecordUsageInput, save_grant,
  grant_credits, GrantCreditsInput, grant_of, event_of,
}
use gomer.Usage.Ledger.Sums.{
  spent-append, spent-save_allocations, planned, planned-known, drawn_from-le-available,
}

abbrev pub grant_id_of : CreditGrant → ℕ
grant_id_of g = g.id

-- Ids are fresh and distinct, allocations name ids that have been given out, and no grant has been
-- drawn on for more than it held.
pub record IsSound (l : Ledger) : Type 0 where
  pub distinct : IsDistinct grant_id_of l.grants
  pub fresh : All (λ g. suc g.id ≤ l.next_id) l.grants
  pub known : All (λ a. suc a.grant_id ≤ l.next_id) l.allocations
  pub within : All (λ g. spent l.allocations g.id ≤ g.credits) l.grants

id-below :
    (b i : ℕ) (gs : List CreditGrant)
    → All (λ g. suc g.id ≤ b) gs
    → 1 ≤ count_at grant_id_of i gs
    → suc i ≤ b
id-below b i [] h k = absurd (omega arith)
id-below b i (g ∷ gs) h k = ground (arith, id-below b i gs h.1)

next_after-le : (n : ℕ) (ps : List PlannedAllocation) → n ≤ next_after n ps
next_after-le n [] = omega arith
next_after-le n (p ∷ ps) = omega (arith, next_after-le (suc n) ps)

save_allocations-known :
    (b n e : ℕ) (ps : List PlannedAllocation)
    → All (λ p. suc p.grant_id ≤ b) ps
    → All (λ a. suc a.grant_id ≤ b) (save_allocations n e ps)
save_allocations-known b n e [] h = tt
save_allocations-known b n e (p ∷ ps) h = (h.0, save_allocations-known b (suc n) e ps h.1)

allocate-IsSound : (event : CreditEvent) (l : Ledger) → IsSound l → IsSound (allocate event l)
unfolding allocate
allocate-IsSound event l s =
    let w = event.workspace_id in
    let ps = planned l w s.distinct event.credits_used in
    let later = next_after-le l.next_id ps in
    record {
      distinct = s.distinct;
      fresh = All-imp _ _ l.grants (λ g h. omega (arith, h, later)) s.fresh;
      known =
          All-append _ l.allocations (save_allocations l.next_id event.id ps)
            (All-imp _ _ l.allocations (λ a h. omega (arith, h, later)) s.known)
            (save_allocations-known (next_after l.next_id ps) l.next_id event.id ps (
              All-imp _ _ ps
                (λ p h. omega (arith, later, h, id-below l.next_id p.grant_id l.grants s.fresh))
                (planned-known l w s.distinct event.credits_used)));
      within =
          All-imp _ _ l.grants
            (λ g h. ground (
              arith,
              h.0,
              h.1,
              spent-append g.id l.allocations (save_allocations l.next_id event.id ps),
              spent-save_allocations g.id l.next_id event.id ps,
            ))
            (All-both _ _ l.grants s.within
              (drawn_from-le-available l w s.distinct event.credits_used));
    }

-- The ledger with one more event.
abbrev pub with_event : CreditEvent → Ledger → Ledger
with_event event l = record l { events = l.events ++ event ∷ []; next_id = suc l.next_id }

pub with_event-IsSound :
    (event : CreditEvent) (l : Ledger) → IsSound l → IsSound (with_event event l)
with_event-IsSound event l s = record {
  distinct = s.distinct;
  fresh = All-imp _ _ l.grants (λ g h. omega (arith, h)) s.fresh;
  known = All-imp _ _ l.allocations (λ a h. omega (arith, h)) s.known;
  within = s.within;
}

-- Metering a run keeps a sound ledger sound: above all, no grant is drawn on for more than it held.
pub record_event-IsSound :
    (config : GatewayConfig) (input : RecordUsageInput) (l : Ledger)
    → IsSound l
    → IsSound (record_event config input l).1
unfolding record_event
record_event-IsSound config input l s =
    let saved = event_of config input l in
    allocate-IsSound saved (with_event saved l) (with_event-IsSound saved l s)

pub spent-unknown :
    (b : ℕ) (rows : List CreditAllocation) → All (λ a. suc a.grant_id ≤ b) rows → spent rows b ≡ 0
spent-unknown b [] h = refl
spent-unknown b (a ∷ rows) h = ground (arith, spent-unknown b rows h.1)

module _ (grant : CreditGrant) (l : Ledger) (own : grant.id ≡ l.next_id) (s : IsSound l) where
  add_grant-IsDistinct : IsDistinct grant_id_of (l.grants ++ grant ∷ [])
  add_grant-IsDistinct i = ground (
    arith,
    sum_of-append (λ (g : CreditGrant). if g.id == i then 1 else 0) l.grants (grant ∷ []),
    s.distinct i,
    count_at-below grant_id_of l.next_id l.grants s.fresh,
  )

  -- A new grant with the next id keeps the ledger sound.
  pub add_grant-IsSound :
      IsSound (record l { grants = l.grants ++ grant ∷ []; next_id = suc l.next_id })
  add_grant-IsSound = record {
    distinct = add_grant-IsDistinct;
    fresh =
        All-append _ l.grants (grant ∷ []) (All-imp _ _ l.grants (λ g h. omega (arith, h)) s.fresh)
          (omega (arith, own), tt);
    known = All-imp _ _ l.allocations (λ a h. omega (arith, h)) s.known;
    within =
        All-append _ l.grants (grant ∷ []) s.within
          (rw own (rw (spent-unknown l.next_id l.allocations s.known) (omega arith)), tt);
  }

-- A grant is saved exactly when it clashes with no other, and then it is the last row.
pub save_grant-eq :
    (g : CreditGrant) (l l' : Ledger)
    → save_grant g l ≡ some l'
    → l' ≡ record l { grants = l.grants ++ g ∷ []; next_id = suc l.next_id }
unfolding save_grant
save_grant-eq g l l' e = ground arith

pub save_grant-IsSound :
    (g : CreditGrant) (l l' : Ledger)
    → g.id ≡ l.next_id
    → IsSound l
    → save_grant g l ≡ some l'
    → IsSound l'
save_grant-IsSound g l l' own s e = rw (save_grant-eq g l l' e) (add_grant-IsSound g l own s)

pub grant_credits-saved :
    (input : GrantCreditsInput) (l : Ledger) (g : CreditGrant) (l' : Ledger)
    → grant_credits input l ≡ some (g, l')
    → (save_grant (grant_of input l) l ≡ some l') × (g ≡ grant_of input l)
unfolding grant_credits
grant_credits-saved input l g l' e = elim (Option-cases (save_grant (grant_of input l) l)) [
  | inl fails ↦ cc (rw fails at e)
  | inr (m, saved) ↦ (ground arith, ground arith)
]

-- A grant that is saved keeps the ledger sound.
pub grant_credits-IsSound :
    (input : GrantCreditsInput) (l : Ledger) (g : CreditGrant) (l' : Ledger)
    → IsSound l
    → grant_credits input l ≡ some (g, l')
    → IsSound l'
grant_credits-IsSound input l g l' s e =
    save_grant-IsSound (grant_of input l) l l' refl s (grant_credits-saved input l g l' e).0
