-- ===== src/Usage/Balance/Moves.antt =====
-- `recordEvent` and `grantCredits` (src/usage/usage.service.ts), seen through `getBalance`.
use Prim.Native.Nat.{min}
use gomer.Base.{
  ℕ, suc, ◌+◌, ◌-◌, ◌≡◌, refl, Bool-cases, inl, inr, List, [], ◌∷◌, ◌++◌, arith, ◌==◌,
  if◌then◌else◌, sum_of, sum_of-append, keep, some, true, ==_iff,
}
use gomer.Usage.Types.{CreditGrant, CreditAllocation, CreditEvent, Ledger, is_live}
use gomer.Usage.Planner.{PlannedAllocation, plan_allocations}
use gomer.Usage.Planner.Laws.{drawn, plan_allocations-drawn}
use gomer.Usage.Pricing.{GatewayConfig, credits_for}
use gomer.Usage.Ledger.{
  spent, allocate, record_event, RecordUsageInput, save_allocations, live_grants_for_spending,
  grant_credits, GrantCreditsInput, event_of, grant_of,
}
use gomer.Usage.Ledger.Sums.{available, available_total-planned, available_total-others, held-live}
use gomer.Usage.Ledger.Invariant.{
  IsSound, with_event, with_event-IsSound, spent-unknown, grant_credits-saved, save_grant-eq,
}
use gomer.Usage.Balance.{get_balance, summarize_for_workspace}
use gomer.Usage.Balance.Laws.{balance-available, granted-sum}

allocate-available :
    (event : CreditEvent) (l : Ledger) (w : ℕ)
    → IsSound l
    → let l' = allocate event l in
      let old = sum_of (available l.allocations l.now w) l.grants in
      sum_of (available l'.allocations l'.now w) l'.grants
      ≡ (if event.workspace_id == w then old - event.credits_used else old)
unfolding allocate
allocate-available event l w s = elim (Bool-cases (event.workspace_id == w)) [
  | inl e ↦ rw e (
      let same = (==_iff _ _).0 e in
      rw (← same) (
        available_total-planned l event.workspace_id s.distinct event.credits_used l.next_id
          event.id))
  | inr e ↦ rw e (
      available_total-others l event.workspace_id s.distinct event.credits_used w l.next_id event.id
        (ground arith))
]

used-append :
    (w : ℕ) (es : List CreditEvent) (e : CreditEvent)
    → sum_of (λ e. e.credits_used) (keep (λ e. e.workspace_id == w) (es ++ e ∷ []))
      ≡ sum_of (λ e. e.credits_used) (keep (λ e. e.workspace_id == w) es)
        + (if e.workspace_id == w then e.credits_used else 0)
used-append w [] e = ground arith
used-append w (x ∷ es) e = ground (arith, used-append w es e)

module _ (config : GatewayConfig) (input : RecordUsageInput) (l : Ledger) (w : ℕ) where
  abbrev charge : ℕ
  charge = credits_for config input.model input.input_tokens input.output_tokens

  record_event-balance :
      IsSound l
      → (get_balance (record_event config input l).1 w).balance ≡ (
          if input.workspace_id == w
          then (get_balance l w).balance - charge
          else (get_balance l w).balance)
  unfolding record_event
  record_event-balance s =
      let saved = event_of config input l in
      let sound = with_event-IsSound saved l s in
      rw (balance-available l w, balance-available (allocate saved (with_event saved l)) w)
        (allocate-available saved (with_event saved l) w sound)

  record_event-used : (get_balance (record_event config input l).1 w).used ≡ (
      if input.workspace_id == w then (get_balance l w).used + charge else (get_balance l w).used)
  unfolding get_balance record_event allocate summarize_for_workspace
  record_event-used = ground (arith, used-append w l.events (event_of config input l))

-- In a sound ledger, metering a run takes its whole charge from the balance of its workspace, down
-- to nothing, and adds it to what the workspace has used, also where the balance falls short; the
-- other workspaces' balances and use stay as they were.
pub record_event-moves :
    (config : GatewayConfig) (input : RecordUsageInput) (l : Ledger) (w : ℕ)
    → IsSound l
    → let charge = credits_for config input.model input.input_tokens input.output_tokens in
      let old = get_balance l w in
      let new = get_balance (record_event config input l).1 w in
      (new.balance ≡ (if input.workspace_id == w then old.balance - charge else old.balance))
      × (new.used ≡ (if input.workspace_id == w then old.used + charge else old.used))
record_event-moves config input l w s =
    (record_event-balance config input l w s, record_event-used config input l w)

save_allocations-credits :
    (n e : ℕ) (ps : List PlannedAllocation)
    → sum_of (λ a. a.credits) (save_allocations n e ps) ≡ drawn ps
save_allocations-credits n e [] = refl
save_allocations-credits n e (p ∷ ps) = omega (arith, save_allocations-credits (suc n) e ps)

-- What a run leaves unpaid is visible: the allocations saved with it add up to the smaller of its
-- charge and the balance of its workspace.
pub record_event-paid :
    (config : GatewayConfig) (input : RecordUsageInput) (l : Ledger)
    → sum_of (λ a. a.credits) (record_event config input l).1.allocations
      ≡ sum_of (λ a. a.credits) l.allocations
        + min
            (credits_for config input.model input.input_tokens input.output_tokens)
            (get_balance l input.workspace_id).balance
unfolding record_event allocate
record_event-paid config input l =
    let saved = event_of config input l in
    let m = with_event saved l in
    let w = input.workspace_id in
    let ps = plan_allocations (live_grants_for_spending m w) saved.credits_used in
    omega (
      arith,
      sum_of-append (λ (a : CreditAllocation). a.credits) l.allocations
          (save_allocations m.next_id saved.id ps),
      save_allocations-credits m.next_id saved.id ps,
      plan_allocations-drawn (live_grants_for_spending m w) saved.credits_used,
      held-live m w,
      balance-available l w,
    )

pub with_grant-moves :
    (g : CreditGrant) (l : Ledger) (w : ℕ)
    → g.id ≡ l.next_id
    → IsSound l
    → is_live l.now g.expires_at ≡ true
    → let l' : Ledger = record l { grants = l.grants ++ g ∷ []; next_id = suc l.next_id } in
      let gain = if g.workspace_id == w then g.credits else 0 in
      ((get_balance l' w).balance ≡ (get_balance l w).balance + gain)
      × ((get_balance l' w).granted ≡ (get_balance l w).granted + gain)
with_grant-moves g l w own s live =
    let l' : Ledger = record l { grants = l.grants ++ g ∷ []; next_id = suc l.next_id } in
    let untouched : spent l.allocations g.id ≡ 0 =
      rw own (spent-unknown l.next_id l.allocations s.known) in
    (
      rw (balance-available l' w, balance-available l w)
          (ground
            (arith, sum_of-append (available l.allocations l.now w) l.grants (g ∷ []), untouched)),
      rw (granted-sum l' w, granted-sum l w)
          (omega (
            arith,
            sum_of-append (λ (h : CreditGrant). if h.workspace_id == w then h.credits else 0)
                l.grants (g ∷ []),
          )),
    )

-- In a sound ledger, a grant that is saved and has not expired raises the balance of its workspace
-- by its credits, and `granted` with it; the other workspaces' figures stay as they were.
pub grant_credits-moves :
    (input : GrantCreditsInput) (l : Ledger) (w : ℕ) (g : CreditGrant) (l' : Ledger)
    → IsSound l
    → grant_credits input l ≡ some (g, l')
    → is_live l.now input.expires_at ≡ true
    → let gain = if input.workspace_id == w then input.credits else 0 in
      ((get_balance l' w).balance ≡ (get_balance l w).balance + gain)
      × ((get_balance l' w).granted ≡ (get_balance l w).granted + gain)
grant_credits-moves input l w g l' s e live =
    rw (save_grant-eq (grant_of input l) l l' (grant_credits-saved input l g l' e).0)
      (with_grant-moves (grant_of input l) l w refl s live)
