-- ===== src/Usage/Days/Laws.antt =====
-- The sums and the length of the usage chart (`analyticsForWorkspace` of src/usage/usage.service.ts).
use gomer.Base.{
  ℕ, ◌+◌, ◌-◌, ◌≤◌, ◌≡◌, ◌∙◌, Bool-cases, inl, inr, map, ◌&&◌, List, [], ◌∷◌, arith, leb, ◌==◌,
  if◌then◌else◌, sum_of, keep, All, All-imp,
}
use gomer.Base.Sort.{sort_by, sort_by-sum_of, sort_by-All}
use gomer.Base.Unique.{sum_at, IsDistinct}
use gomer.Usage.Types.{CreditEvent, Ledger}
use gomer.Usage.Days.{
  DateRange, day_of, type_eq, scoped_events, SplitRow, add_to_group, group_rows, DailyCreditPoint,
  add_row, add_rows, daily_usage_split, zero_filled_days, analytics_series,
}
use gomer.Usage.Days.Groups.{
  point_day, point_credits, row_day, row_credits, group_rows-sum, add_rows-sum, add_rows-IsDistinct,
  group_rows-used_on, add_rows-sum_at, used_on,
}
use gomer.Usage.Days.Points.{
  days_from, credits_on, credits_on-sum_at, sum_days_whole, fill_days-sum, fill_days-length,
  fill_days-days, fill_days-All,
}

-- Every day that the chart is made from lies in a window.
module _ (a b : ℕ) where
  add_to_group-All :
      (e : CreditEvent) (rows : List SplitRow)
      → (a ≤ day_of e.created_at) × (day_of e.created_at ≤ b)
      → All (λ r. (a ≤ r.day) × (r.day ≤ b)) rows
      → All (λ r. (a ≤ r.day) × (r.day ≤ b)) (add_to_group e rows)
  unfolding add_to_group
  add_to_group-All e [] h k = (h, tt)
  add_to_group-All e (r ∷ rows) h k =
      elim (Bool-cases (r.day == day_of e.created_at && type_eq r.type e.type)) [
        | inl same ↦ rw same k
        | inr other ↦ rw other (k.0, add_to_group-All e rows h k.1)
      ]

  group_rows-All :
      (es : List CreditEvent)
      → All (λ e. (a ≤ day_of e.created_at) × (day_of e.created_at ≤ b)) es
      → All (λ r. (a ≤ r.day) × (r.day ≤ b)) (group_rows es)
  unfolding group_rows
  group_rows-All [] h = tt
  group_rows-All (e ∷ es) h = add_to_group-All e (group_rows es) h.0 (group_rows-All es h.1)

  add_row-All :
      (row : SplitRow) (ps : List DailyCreditPoint)
      → (a ≤ row.day) × (row.day ≤ b)
      → All (λ p. (a ≤ p.day) × (p.day ≤ b)) ps
      → All (λ p. (a ≤ p.day) × (p.day ≤ b)) (add_row row ps)
  unfolding add_row
  add_row-All row [] h k = ground arith
  add_row-All row (p ∷ ps) h k = elim (Bool-cases (p.day == row.day)) [
    | inl same ↦ rw same (ground arith, k.1)
    | inr other ↦ rw other (k.0, add_row-All row ps h k.1)
  ]

  add_rows-All :
      (rows : List SplitRow) (ps : List DailyCreditPoint)
      → All (λ r. (a ≤ r.day) × (r.day ≤ b)) rows
      → All (λ p. (a ≤ p.day) × (p.day ≤ b)) ps
      → All (λ p. (a ≤ p.day) × (p.day ≤ b)) (add_rows rows ps)
  unfolding add_rows
  add_rows-All [] ps h k = k
  add_rows-All (row ∷ rows) ps h k =
      add_rows-All rows (add_row row ps) h.1 (add_row-All row ps h.0 k)

scoped_events-All :
    (l : Ledger) (w : ℕ) (range : DateRange) (es : List CreditEvent)
    → All
        (λ e. (day_of range.from ≤ day_of e.created_at) × (day_of e.created_at ≤ day_of range.to))
        (keep
          (λ e. e.workspace_id == w && (leb range.from e.created_at && leb e.created_at range.to))
          es)
scoped_events-All l w range [] = tt
scoped_events-All l w range (e ∷ es) =
    elim (Bool-cases
      (e.workspace_id == w && (leb range.from e.created_at && leb e.created_at range.to))) [
        | inl inside ↦ rw inside ((ground arith, ground arith), scoped_events-All l w range es)
        | inr outside ↦ rw outside (scoped_events-All l w range es)
      ]

module _ (l : Ledger) (w : ℕ) (range : DateRange) where
  daily_usage_split-sum :
      sum_of point_credits (daily_usage_split l w range)
      ≡ sum_of (λ e. e.credits_used) (scoped_events l w range)
  unfolding daily_usage_split
  daily_usage_split-sum =
      let rows = group_rows (scoped_events l w range) in
      omega (
        arith,
        add_rows-sum (sort_by (λ r. r.day) rows) [],
        sort_by-sum_of (λ (r : SplitRow). r.day) (λ r. r.credits) rows,
        group_rows-sum (scoped_events l w range),
      )

  daily_usage_split-All :
      All
        (λ p. (day_of range.from ≤ p.day) × (p.day ≤ day_of range.to))
        (daily_usage_split l w range)
  unfolding daily_usage_split scoped_events
  daily_usage_split-All =
      let a = day_of range.from in
      let b = day_of range.to in
      add_rows-All a b _ []
        (sort_by-All (λ (r : SplitRow). r.day) (λ r. (a ≤ r.day) × (r.day ≤ b)) _
          (group_rows-All a b _ (scoped_events-All l w range l.events)))
        tt

  daily_usage_split-IsDistinct : IsDistinct point_day (daily_usage_split l w range)
  unfolding daily_usage_split
  daily_usage_split-IsDistinct =
      add_rows-IsDistinct (sort_by (λ r. r.day) (group_rows (scoped_events l w range))) []
        (λ i. omega arith)

  daily_usage_split-sum_at :
      (d : ℕ)
      → sum_at point_day point_credits d (daily_usage_split l w range)
        ≡ used_on d (scoped_events l w range)
  unfolding daily_usage_split
  daily_usage_split-sum_at d =
      let rows = group_rows (scoped_events l w range) in
      omega (
        arith,
        add_rows-sum_at d (sort_by row_day rows) [],
        sort_by-sum_of row_day (λ r. if row_day r == d then row_credits r else 0) rows,
        group_rows-used_on d (scoped_events l w range),
      )

  daily_usage_split-credits_on :
      (d : ℕ) → credits_on d (daily_usage_split l w range) ≡ used_on d (scoped_events l w range)
  daily_usage_split-credits_on d =
      credits_on-sum_at d (daily_usage_split l w range) (daily_usage_split-IsDistinct d)
      ∙ daily_usage_split-sum_at d

  -- The chart has a point for each day from the first to the last of the window, in order, and none
  -- for a window that ends before it begins; each point has the credits that the window's events of
  -- its day used; the points add up to the credits of all these events, and so does the total beside
  -- the chart.
  pub analytics_series-total :
      let s = analytics_series l w range in
      let spent = sum_of (λ e. e.credits_used) (scoped_events l w range) in
      (map (λ p. p.day) s.daily
        ≡ days_from (day_of range.to + 1 - day_of range.from) (day_of range.from))
      × All (λ p. p.credits ≡ used_on p.day (scoped_events l w range)) s.daily
      × (sum_of (λ p. p.credits) s.daily ≡ spent)
      × (s.total_credits ≡ spent)
      × (s.days ≡ day_of range.to + 1 - day_of range.from)
  unfolding analytics_series zero_filled_days
  analytics_series-total =
      let n = day_of range.to + 1 - day_of range.from in
      let points = daily_usage_split l w range in
      (
        fill_days-days n (day_of range.from) points,
        fill_days-All (λ d. used_on d (scoped_events l w range)) n (day_of range.from) points
            daily_usage_split-credits_on,
        omega (
          arith,
          fill_days-sum n (day_of range.from) points daily_usage_split-IsDistinct,
          sum_days_whole n (day_of range.from) points
              (All-imp _ _ points (λ p h. (h.0, omega (arith, h.1))) daily_usage_split-All),
          daily_usage_split-sum,
        ),
        daily_usage_split-sum,
        fill_days-length n (day_of range.from) points,
      )
