-- ===== src/Usage/Days/Groups.antt =====
-- The query of `dailyUsageSplit` and its loop (src/usage/usage.service.ts): what is used on each day.
use gomer.Base.{ℕ, ◌+◌, ◌≡◌, refl, ◌&&◌, List, [], ◌∷◌, arith, ◌==◌, if◌then◌else◌, sum_of, keep}
use gomer.Base.Unique.{count_at, sum_at, IsDistinct}
use gomer.Usage.Types.{CreditEvent}
use gomer.Usage.Days.{
  day_of, SplitRow, add_to_group, group_rows, DailyCreditPoint, add_row, add_rows,
}

abbrev pub point_day : DailyCreditPoint → ℕ
point_day p = p.day

abbrev pub point_credits : DailyCreditPoint → ℕ
point_credits p = p.credits

abbrev pub row_day : SplitRow → ℕ
row_day r = r.day

abbrev pub row_credits : SplitRow → ℕ
row_credits r = r.credits

add_to_group-sum :
    (e : CreditEvent) (rows : List SplitRow)
    → sum_of (λ r. r.credits) (add_to_group e rows) ≡ sum_of (λ r. r.credits) rows + e.credits_used
unfolding add_to_group
add_to_group-sum e [] = omega arith
add_to_group-sum e (r ∷ rows) = ground (arith, add_to_group-sum e rows)

pub group_rows-sum :
    (es : List CreditEvent)
    → sum_of (λ r. r.credits) (group_rows es) ≡ sum_of (λ e. e.credits_used) es
unfolding group_rows
group_rows-sum [] = refl
group_rows-sum (e ∷ es) = omega (arith, add_to_group-sum e (group_rows es), group_rows-sum es)

add_row-sum :
    (row : SplitRow) (ps : List DailyCreditPoint)
    → sum_of point_credits (add_row row ps) ≡ sum_of point_credits ps + row.credits
unfolding add_row
add_row-sum row [] = ground arith
add_row-sum row (p ∷ ps) = ground (arith, add_row-sum row ps)

pub add_rows-sum :
    (rows : List SplitRow) (ps : List DailyCreditPoint)
    → sum_of point_credits (add_rows rows ps)
      ≡ sum_of point_credits ps + sum_of (λ r. r.credits) rows
unfolding add_rows
add_rows-sum [] ps = omega arith
add_rows-sum (row ∷ rows) ps = omega (arith, add_row-sum row ps, add_rows-sum rows (add_row row ps))

add_row-count :
    (i : ℕ) (row : SplitRow) (ps : List DailyCreditPoint)
    → count_at point_day i (add_row row ps)
      ≡ (if row.day == i && count_at point_day i ps == 0 then 1 else count_at point_day i ps)
unfolding add_row
add_row-count i row [] = ground arith
add_row-count i row (p ∷ ps) = ground (arith, add_row-count i row ps)

pub add_rows-IsDistinct :
    (rows : List SplitRow) (ps : List DailyCreditPoint)
    → IsDistinct point_day ps
    → IsDistinct point_day (add_rows rows ps)
unfolding add_rows
add_rows-IsDistinct [] ps d = d
add_rows-IsDistinct (row ∷ rows) ps d =
    add_rows-IsDistinct rows (add_row row ps) (λ i. ground (arith, d i, add_row-count i row ps))

-- What is used on a day, through the grouping, the sorting and the map.
add_to_group-sum_at :
    (d : ℕ) (e : CreditEvent) (rows : List SplitRow)
    → sum_at row_day row_credits d (add_to_group e rows)
      ≡ sum_at row_day row_credits d rows + (if day_of e.created_at == d then e.credits_used else 0)
unfolding add_to_group
add_to_group-sum_at d e [] = ground arith
add_to_group-sum_at d e (r ∷ rows) = ground (arith, add_to_group-sum_at d e rows)

abbrev pub used_on : ℕ → List CreditEvent → ℕ
used_on d es = sum_of (λ e. e.credits_used) (keep (λ e. day_of e.created_at == d) es)

pub group_rows-used_on :
    (d : ℕ) (es : List CreditEvent) → sum_at row_day row_credits d (group_rows es) ≡ used_on d es
unfolding group_rows
group_rows-used_on d [] = refl
group_rows-used_on d (e ∷ es) =
    ground (arith, add_to_group-sum_at d e (group_rows es), group_rows-used_on d es)

add_row-sum_at :
    (d : ℕ) (row : SplitRow) (ps : List DailyCreditPoint)
    → sum_at point_day point_credits d (add_row row ps)
      ≡ sum_at point_day point_credits d ps + (if row.day == d then row.credits else 0)
unfolding add_row
add_row-sum_at d row [] = ground arith
add_row-sum_at d row (p ∷ ps) = ground (arith, add_row-sum_at d row ps)

pub add_rows-sum_at :
    (d : ℕ) (rows : List SplitRow) (ps : List DailyCreditPoint)
    → sum_at point_day point_credits d (add_rows rows ps)
      ≡ sum_at point_day point_credits d ps + sum_at row_day row_credits d rows
unfolding add_rows
add_rows-sum_at d [] ps = omega arith
add_rows-sum_at d (row ∷ rows) ps =
    ground (arith, add_row-sum_at d row ps, add_rows-sum_at d rows (add_row row ps))
