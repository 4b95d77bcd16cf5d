-- ===== src/Usage/Balance.antt =====
-- `getBalance` and `summarizeForWorkspace` of src/usage/usage.service.ts.
pub mod Laws
pub mod Moves
pub mod Trial
use Prim.Native.Nat.{min, max}
use gomer.Base.{
  ℕ, ◌+◌, ◌-◌, Bool, true, not, Option, none, some, List, [], ◌∷◌, map, keep, sum_of, length, ◌==◌,
  if◌then◌else◌, or_else,
}
use gomer.Usage.Types.{
  CreditBucket, CreditGrant, CreditAllocation, CreditEvent, Ledger, bucket_eq, is_live,
}
use gomer.Usage.Planner.{spend_order}
use gomer.Usage.Ledger.{spent}

pub record BucketBalance : Type 0 where
  pub bucket : CreditBucket
  pub credits : ℕ
  pub expires_at : Option ℕ

pub record CreditBalance : Type 0 where
  pub granted : ℕ
  pub used : ℕ
  pub balance : ℕ
  pub expired : ℕ
  pub buckets : List BucketBalance

-- One row of the query, which groups by the grant's id.
pub record GrantRow : Type 0 where
  pub bucket : CreditBucket
  pub dead : Bool
  pub expires_at : Option ℕ
  pub granted : ℕ
  pub spent : ℕ

abbrev pub row_of : List CreditAllocation → ℕ → CreditGrant → GrantRow
row_of allocations now g = record {
  bucket = g.bucket;
  dead = not (is_live now g.expires_at);
  expires_at = g.expires_at;
  granted = g.credits;
  spent = spent allocations g.id;
}

abbrev pub remaining_by_grant : Ledger → ℕ → List GrantRow
remaining_by_grant l w = map (row_of l.allocations l.now) (keep (λ g. g.workspace_id == w) l.grants)

-- `live`, the map from buckets to their balances.
abbrev pub BucketMap : Type 0
BucketMap = List BucketBalance

abbrev pub get_bucket : CreditBucket → BucketMap → Option BucketBalance
get_bucket b [] = none
get_bucket b (v ∷ m) = if bucket_eq v.bucket b then some v else get_bucket b m

abbrev pub set_bucket : BucketBalance → BucketMap → BucketMap
set_bucket v [] = v ∷ []
set_bucket v (u ∷ m) = if bucket_eq u.bucket v.bucket then v ∷ m else u ∷ set_bucket v m

-- `soonest`: the earlier of the two dates, or the one there is.
abbrev pub soonest : Option ℕ → Option ℕ → Option ℕ
soonest none row = row
soonest (some e) none = some e
soonest (some e) (some t) = some (min e t)

abbrev pub expiry_in : Option BucketBalance → Option ℕ
expiry_in none = none
expiry_in (some v) = v.expires_at

abbrev pub credits_in : Option BucketBalance → ℕ
credits_in none = 0
credits_in (some v) = v.credits

-- The variables of the loop.
pub record Tally : Type 0 where
  pub granted : ℕ
  pub expired : ℕ
  pub live : BucketMap

-- The new balance of a live row's bucket.
abbrev pub entry_of : GrantRow → BucketMap → BucketBalance
entry_of row live =
    let existing = get_bucket row.bucket live in
    record {
      bucket = row.bucket;
      credits = credits_in existing + max 0 (row.granted - row.spent);
      expires_at = soonest (expiry_in existing) row.expires_at;
    }

-- One round of the loop.
tally_row : GrantRow → Tally → Tally
tally_row row t =
    let remaining = max 0 (row.granted - row.spent) in
    if row.dead
    then record t { granted = t.granted + row.granted; expired = t.expired + remaining }
    else record t {
      granted = t.granted + row.granted;
      live = set_bucket (entry_of row t.live) t.live;
    }

tally_rows : List GrantRow → Tally → Tally
tally_rows [] t = t
tally_rows (row ∷ rows) t = tally_rows rows (tally_row row t)

abbrev pub bucket_balance : BucketMap → CreditBucket → BucketBalance
bucket_balance live b =
    or_else (get_bucket b live) (record { bucket = b; credits = 0; expires_at = none })

pub record UsageSummary : Type 0 where
  pub total_credits_used : ℕ
  pub total_tokens_used : ℕ
  pub event_count : ℕ

unfoldable pub summarize_for_workspace : Ledger → ℕ → UsageSummary
summarize_for_workspace l w =
    let rows = keep (λ e. e.workspace_id == w) l.events in
    record {
      total_credits_used = sum_of (λ e. e.credits_used) rows;
      total_tokens_used = sum_of (λ e. e.tokens_used) rows;
      event_count = length rows;
    }

unfoldable pub get_balance : Ledger → ℕ → CreditBalance
unfolding tally_rows tally_row
get_balance l w =
    let t = tally_rows (remaining_by_grant l w) (record { granted = 0; expired = 0; live = [] }) in
    let buckets = map (bucket_balance t.live) spend_order in
    record {
      granted = t.granted;
      used = (summarize_for_workspace l w).total_credits_used;
      balance = sum_of (λ b. b.credits) buckets;
      expired = t.expired;
      buckets = buckets;
    }
