-- ===== src/Usage/Ledger.antt =====
-- The ledger operations of `UsageService` (src/usage/usage.service.ts): metering a run, granting
-- credits and reading the balance, over the tables of Types.antt.
pub mod Sums
pub mod Invariant
use Prim.Native.Nat.{min, max}
use gomer.Base.{
  ℕ, suc, ◌+◌, ◌-◌, ◌*◌, ◌/◌, Bool, true, false, not, ◌&&◌, ◌||◌, any, Option, none, some, List, [],
  ◌∷◌, ◌++◌, map, find, keep, sum_of, is_some, ltb, leb, ◌==◌, if◌then◌else◌, or_else,
}
use mathlib.Core.Option
use gomer.Base.Text.{String}
use gomer.Base.Sort.{sort_by}
use gomer.Usage.Types.{
  CreditBucket, CreditGrantReason, CreditEventType, CreditGrant, CreditAllocation, CreditEvent,
  Ledger, is_onboarding, is_live, same_text,
}
use gomer.Usage.Planner.{SpendableGrant, PlannedAllocation, plan_allocations, spend_order}
use gomer.Usage.Pricing.{
  GatewayConfig, credits_for, credits_per_dollar, definition_for, list_cost_usd,
}

-- The allocations that a left join on `allocation."grantId" = credit_grant.id` finds for a grant.
abbrev pub joined : List CreditAllocation → ℕ → List CreditAllocation
joined allocations id = keep (λ a. a.grant_id == id) allocations

-- `COALESCE(SUM(allocation.credits), 0)`, grouped by the grant's id.
abbrev pub spent : List CreditAllocation → ℕ → ℕ
spent allocations id = sum_of (λ a. a.credits) (joined allocations id)

-- The columns of `liveGrantsForSpending`, read as a spendable grant.
abbrev pub to_spendable : List CreditAllocation → CreditGrant → SpendableGrant
to_spendable allocations g = record {
  id = g.id;
  bucket = g.bucket;
  remaining = g.credits - spent allocations g.id;
}

abbrev pub is_spendable : List CreditAllocation → ℕ → ℕ → CreditGrant → Bool
is_spendable allocations now workspace_id g =
    (g.workspace_id == workspace_id && is_live now g.expires_at)
    && ltb (spent allocations g.id) g.credits

unfoldable pub live_grants_for_spending : Ledger → ℕ → List SpendableGrant
live_grants_for_spending l workspace_id =
    map (to_spendable l.allocations)
      (sort_by (λ g. g.created_at) (keep (is_spendable l.allocations l.now workspace_id) l.grants))

-- `save` of the planned rows: each gets an id of its own.
abbrev pub save_allocations : ℕ → ℕ → List PlannedAllocation → List CreditAllocation
save_allocations next event_id [] = []
save_allocations next event_id (p ∷ ps) =
    record {
      id = next;
      credit_event_id = event_id;
      grant_id = p.grant_id;
      bucket = p.bucket;
      credits = p.credits;
    }
    ∷ save_allocations (suc next) event_id ps

abbrev pub next_after : ℕ → List PlannedAllocation → ℕ
next_after next [] = next
next_after next (p ∷ ps) = next_after (suc next) ps

unfoldable pub allocate : CreditEvent → Ledger → Ledger
unfolding live_grants_for_spending
allocate event l =
    let planned =
      plan_allocations (live_grants_for_spending l event.workspace_id) event.credits_used in
    record l {
      allocations = l.allocations ++ save_allocations l.next_id event.id planned;
      next_id = next_after l.next_id planned;
    }

pub record RecordUsageInput : Type 0 where
  pub workspace_id : ℕ
  pub user_id : Option ℕ
  pub task_id : Option ℕ
  pub model : String
  pub input_tokens : ℕ
  pub output_tokens : ℕ
  pub cache_write_tokens : Option ℕ
  pub cache_read_tokens : Option ℕ
  pub source_name : String
  pub type : Option CreditEventType
  pub provider_cost_usd : Option ℕ
  pub resolved_model : Option String

-- A reported cost, in units of 1 / 10_000_000_000_000 dollar, wins over the list price.
pub cost_usd_for : GatewayConfig → RecordUsageInput → ℕ
cost_usd_for config input =
    or_else input.provider_cost_usd (elim (definition_for config input.model) [
      | none ↦ 0
      | some definition ↦
          list_cost_usd definition input.input_tokens input.output_tokens
            (or_else input.cache_write_tokens 0) (or_else input.cache_read_tokens 0)
    ])

-- `toFixed(6)`: to the nearest millionth of a dollar.
abbrev pub to_fixed_6 : ℕ → ℕ
to_fixed_6 cost = (cost + 5_000_000) / 10_000_000

abbrev pub event_of : GatewayConfig → RecordUsageInput → Ledger → CreditEvent
event_of config input l = record {
  id = l.next_id;
  workspace_id = input.workspace_id;
  user_id = input.user_id;
  task_id = input.task_id;
  type = or_else input.type CreditEventType.thread;
  source_name = input.source_name;
  input_tokens = input.input_tokens;
  output_tokens = input.output_tokens;
  cache_write_tokens = or_else input.cache_write_tokens 0;
  cache_read_tokens = or_else input.cache_read_tokens 0;
  tokens_used = input.input_tokens + input.output_tokens;
  credits_used = credits_for config input.model input.input_tokens input.output_tokens;
  model = input.model;
  resolved_model = input.resolved_model;
  provider_cost_usd = to_fixed_6 (cost_usd_for config input);
  created_at = l.now;
}

-- `recordEvent`: the event is saved, then its charge is drawn from the grants.
unfoldable pub record_event : GatewayConfig → RecordUsageInput → Ledger → CreditEvent × Ledger
unfolding allocate
record_event config input l =
    let saved = event_of config input l in
    (saved, allocate saved (record l { events = l.events ++ saved ∷ []; next_id = suc l.next_id }))

pub record GrantCreditsInput : Type 0 where
  pub workspace_id : ℕ
  pub user_id : Option ℕ
  pub reason : CreditGrantReason
  pub credits : ℕ
  pub bucket : Option CreditBucket
  pub expires_at : Option ℕ
  pub amount_cents : Option ℕ
  pub currency : Option String
  pub stripe_session_id : Option String
  pub stripe_invoice_id : Option String

abbrev pub bucket_for_reason : CreditGrantReason → CreditBucket
bucket_for_reason CreditGrantReason.topup = CreditBucket.topup
bucket_for_reason CreditGrantReason.subscription = CreditBucket.plan
bucket_for_reason CreditGrantReason.rollover = CreditBucket.rollover
bucket_for_reason _ = CreditBucket.reward

abbrev pub grant_of : GrantCreditsInput → Ledger → CreditGrant
grant_of input l = record {
  id = l.next_id;
  workspace_id = input.workspace_id;
  user_id = input.user_id;
  reason = input.reason;
  bucket = or_else input.bucket (bucket_for_reason input.reason);
  credits = input.credits;
  expires_at = input.expires_at;
  amount_cents = input.amount_cents;
  currency = input.currency;
  stripe_session_id = input.stripe_session_id;
  stripe_invoice_id = input.stripe_invoice_id;
  created_at = l.now;
}

-- The unique indexes on `stripeSessionId` and `stripeInvoiceId`.
abbrev pub clashes : CreditGrant → CreditGrant → Bool
clashes g h =
    same_text g.stripe_session_id h.stripe_session_id
    || same_text g.stripe_invoice_id h.stripe_invoice_id

-- `save` of a new grant; `none` is a unique violation.
unfoldable pub save_grant : CreditGrant → Ledger → Option Ledger
save_grant grant l =
    if any (clashes grant) l.grants
    then none
    else some (record l { grants = l.grants ++ grant ∷ []; next_id = suc l.next_id })

unfoldable pub grant_credits : GrantCreditsInput → Ledger → Option (CreditGrant × Ledger)
unfolding save_grant
grant_credits input l =
    let grant = grant_of input l in Option.map (λ l'. (grant, l')) (save_grant grant l)

abbrev pub trial_credits_per_seat : ℕ
trial_credits_per_seat = 25 * credits_per_dollar

abbrev pub trial_credits_floor : ℕ
trial_credits_floor = 100 * credits_per_dollar

abbrev pub is_onboarding_grant_of : ℕ → CreditGrant → Bool
is_onboarding_grant_of workspace_id g = g.workspace_id == workspace_id && is_onboarding g.reason

abbrev pub trial_credits : ℕ → ℕ
trial_credits active_seats = max trial_credits_floor (max 1 active_seats * trial_credits_per_seat)

abbrev pub onboarding_input : ℕ → ℕ → GrantCreditsInput
onboarding_input workspace_id credits = record {
  workspace_id = workspace_id;
  user_id = none;
  reason = CreditGrantReason.onboarding;
  credits = credits;
  bucket = none;
  expires_at = none;
  amount_cents = none;
  currency = none;
  stripe_session_id = none;
  stripe_invoice_id = none;
}

-- `grantOnboardingCredits`; `active_seats` is what the users service counts. The grant is `none` for
-- a workspace that has had its trial, the whole result `none` for a unique violation.
unfoldable pub grant_onboarding_credits : ℕ → ℕ → Ledger → Option (Option CreditGrant × Ledger)
unfolding grant_credits
grant_onboarding_credits workspace_id active_seats l =
    if is_some (find (is_onboarding_grant_of workspace_id) l.grants)
    then some (none, l)
    else Option.map (λ (grant, l'). (some grant, l'))
        (grant_credits (onboarding_input workspace_id (trial_credits active_seats)) l)

-- `hasGrantForStripeSession`
unfoldable pub has_grant_for_stripe_session : String → Ledger → Bool
has_grant_for_stripe_session session l =
    is_some (find (λ g. same_text g.stripe_session_id (some session)) l.grants)
