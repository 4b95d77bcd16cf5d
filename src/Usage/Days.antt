-- ===== src/Usage/Days.antt =====
-- The usage chart of src/usage/usage.service.ts: `scopedEvents`, `dailyUsageSplit`, `creditsByType`,
-- `zeroFilledDays` and the totals of `analyticsForWorkspace`. A day is the number of whole days since
-- the epoch in UTC; the texts that the source makes of it correspond to it one to one.
pub mod Groups
pub mod Points
pub mod Laws
use Prim.Native.Nat.{min, max}
use gomer.Base.{
  ℕ, zero, suc, ◌+◌, ◌-◌, ◌*◌, ◌/◌, Bool, true, false, ◌&&◌, Option, none, some, List, [], ◌∷◌,
  find, keep, sum_of, length, ltb, leb, ◌==◌, if◌then◌else◌, or_else,
}
use gomer.Base.Sort.{sort_by}
use gomer.Usage.Types.{CreditEvent, CreditEventType, thread, scheduled_task, Ledger}

pub record DateRange : Type 0 where
  pub from : ℕ
  pub to : ℕ

abbrev pub day_of : ℕ → ℕ
day_of t = t / 86_400_000

unfoldable pub scoped_events : Ledger → ℕ → DateRange → List CreditEvent
scoped_events l w range =
    keep (λ e. e.workspace_id == w && (leb range.from e.created_at && leb e.created_at range.to))
      l.events

abbrev pub type_eq : CreditEventType → CreditEventType → Bool
type_eq thread thread = true
type_eq scheduled_task scheduled_task = true
type_eq _ _ = false

-- A row of the query that is grouped by day and type.
pub record SplitRow : Type 0 where
  pub day : ℕ
  pub type : CreditEventType
  pub credits : ℕ

pub add_to_group : CreditEvent → List SplitRow → List SplitRow
add_to_group e [] =
    record { day = day_of e.created_at; type = e.type; credits = e.credits_used } ∷ []
add_to_group e (r ∷ rows) =
    if r.day == day_of e.created_at && type_eq r.type e.type
    then record r { credits = r.credits + e.credits_used } ∷ rows
    else r ∷ add_to_group e rows

pub group_rows : List CreditEvent → List SplitRow
unfolding add_to_group
group_rows [] = []
group_rows (e ∷ es) = add_to_group e (group_rows es)

pub record DailyCreditPoint : Type 0 where
  pub day : ℕ
  pub thread : ℕ
  pub scheduled_task : ℕ
  pub credits : ℕ

abbrev pub no_credits : ℕ → DailyCreditPoint
no_credits d = record { day = d; thread = 0; scheduled_task = 0; credits = 0 }

abbrev pub add_credits : SplitRow → DailyCreditPoint → DailyCreditPoint
add_credits row p = elim row.type [
  | scheduled_task ↦ record p {
    scheduled_task = p.scheduled_task + row.credits;
    credits = p.credits + row.credits;
  }
  | thread ↦ record p { thread = p.thread + row.credits; credits = p.credits + row.credits }
]

-- One round of the loop of `dailyUsageSplit`, on the map from days to points in insertion order.
pub add_row : SplitRow → List DailyCreditPoint → List DailyCreditPoint
add_row row [] = add_credits row (no_credits row.day) ∷ []
add_row row (p ∷ points) =
    if p.day == row.day then add_credits row p ∷ points else p ∷ add_row row points

pub add_rows : List SplitRow → List DailyCreditPoint → List DailyCreditPoint
unfolding add_row
add_rows [] points = points
add_rows (row ∷ rows) points = add_rows rows (add_row row points)

unfoldable pub daily_usage_split : Ledger → ℕ → DateRange → List DailyCreditPoint
unfolding scoped_events group_rows add_rows
daily_usage_split l w range =
    add_rows (sort_by (λ r. r.day) (group_rows (scoped_events l w range))) []

-- `byDay.get`: of several rows of a day the map holds the last.
pub by_day : ℕ → List DailyCreditPoint → Option DailyCreditPoint
by_day d [] = none
by_day d (p ∷ points) = elim (by_day d points) [
  | some later ↦ some later
  | none ↦ if p.day == d then some p else none
]

-- The loop of `zeroFilledDays`, over the days that the cursor has left.
pub fill_days : ℕ → ℕ → List DailyCreditPoint → List DailyCreditPoint
unfolding by_day
fill_days zero cursor points = []
fill_days (suc left) cursor points =
    or_else (by_day cursor points) (no_credits cursor) ∷ fill_days left (cursor + 1) points

unfoldable pub zero_filled_days : List DailyCreditPoint → DateRange → List DailyCreditPoint
unfolding fill_days
zero_filled_days rows range =
    let cursor = day_of range.from in
    let last = day_of range.to in fill_days (last + 1 - cursor) cursor rows

pub record Series : Type 0 where
  pub daily : List DailyCreditPoint
  pub days : ℕ
  pub total_credits : ℕ
  pub burn_per_day : ℕ

-- `Math.round` of a quotient, on numbers that are not negative.
abbrev pub round_div : ℕ → ℕ → ℕ
round_div a b = (2 * a + b) / (2 * b)

-- The series, the total and the burn of `analyticsForWorkspace`.
unfoldable pub analytics_series : Ledger → ℕ → DateRange → Series
unfolding daily_usage_split zero_filled_days
analytics_series l w range =
    let daily = daily_usage_split l w range in
    let total_credits = sum_of (λ p. p.credits) daily in
    let series = zero_filled_days daily range in
    record {
      daily = series;
      days = length series;
      total_credits = total_credits;
      burn_per_day = if ltb 0 (length series) then round_div total_credits (length series) else 0;
    }
