-- ===== src/Usage/Days/Points.antt =====
-- The points of `zeroFilledDays` (src/usage/usage.service.ts).
use gomer.Base.{
  ℕ, zero, suc, ◌+◌, ◌≤◌, ◌<◌, ◌≡◌, refl, sym, ap, ◌∙◌, Bool-cases, Option-cases, inl, inr, map,
  ==_iff, ◌&&◌, none, List, [], ◌∷◌, arith, ltb, leb, ◌==◌, if◌then◌else◌, or_else, length, sum_of,
  All,
}
use gomer.Base.Unique.{count_at, sum_at, sum_at-none, IsDistinct}
use gomer.Usage.Days.{DailyCreditPoint, no_credits, by_day, fill_days}
use gomer.Usage.Days.Groups.{point_day, point_credits}

-- The sum of a function over the `n` days from `c`.
unfoldable pub sum_days : ℕ → ℕ → (ℕ → ℕ) → ℕ
sum_days zero c f = 0
sum_days (suc n) c f = f c + sum_days n (c + 1) f

abbrev pub credits_on : ℕ → List DailyCreditPoint → ℕ
credits_on d ps = point_credits (or_else (by_day d ps) (no_credits d))

by_day-none :
    (d : ℕ) (ps : List DailyCreditPoint) → count_at point_day d ps ≡ 0 → by_day d ps ≡ none
unfolding by_day
by_day-none d [] h = refl
by_day-none d (p ∷ ps) h = ground (arith, by_day-none d ps)

pub credits_on-sum_at :
    (d : ℕ) (ps : List DailyCreditPoint)
    → count_at point_day d ps ≤ 1
    → credits_on d ps ≡ sum_at point_day point_credits d ps
unfolding by_day
credits_on-sum_at d [] h = refl
credits_on-sum_at d (p ∷ ps) h = elim (Bool-cases (p.day == d)) [
  | inl e ↦
      let alone : count_at point_day d ps ≡ 0 = ground arith in
      ground (arith, by_day-none d ps alone, sum_at-none point_day point_credits d ps alone)
  | inr e ↦ ground (arith, credits_on-sum_at d ps (ground arith))
]

sum_days-one :
    (n c k v : ℕ)
    → sum_days n c (λ d. if k == d then v else 0) ≡ (if leb c k && ltb k (c + n) then v else 0)
unfolding sum_days
sum_days-one zero c k v = ground arith
sum_days-one (suc n) c k v = ground (arith, sum_days-one n (c + 1) k v)

sum_days-plus :
    (n c : ℕ) (f g : ℕ → ℕ) → sum_days n c (λ d. f d + g d) ≡ sum_days n c f + sum_days n c g
unfolding sum_days
sum_days-plus zero c f g = refl
sum_days-plus (suc n) c f g = omega (arith, sum_days-plus n (c + 1) f g)

sum_days-zero : (n c : ℕ) → sum_days n c (λ d. 0) ≡ 0
unfolding sum_days
sum_days-zero zero c = refl
sum_days-zero (suc n) c = omega (arith, sum_days-zero n (c + 1))

pub sum_days_whole :
    (n c : ℕ) (ps : List DailyCreditPoint)
    → All (λ p. (c ≤ p.day) × (p.day < c + n)) ps
    → sum_days n c (λ d. sum_at point_day point_credits d ps) ≡ sum_of point_credits ps
sum_days_whole n c [] h = sum_days-zero n c
sum_days_whole n c (p ∷ ps) h = ground (
  arith,
  sum_days-plus n c (λ d. if p.day == d then p.credits else 0)
      (λ d. sum_at point_day point_credits d ps),
  sum_days-one n c p.day p.credits,
  sum_days_whole n c ps h.1,
)

pub fill_days-sum :
    (n c : ℕ) (ps : List DailyCreditPoint)
    → IsDistinct point_day ps
    → sum_of point_credits (fill_days n c ps)
      ≡ sum_days n c (λ d. sum_at point_day point_credits d ps)
unfolding fill_days sum_days
fill_days-sum zero c ps h = refl
fill_days-sum (suc n) c ps h =
    omega (arith, credits_on-sum_at c ps (h c), fill_days-sum n (c + 1) ps h)

pub fill_days-length : (n c : ℕ) (ps : List DailyCreditPoint) → length (fill_days n c ps) ≡ n
unfolding fill_days
fill_days-length zero c ps = refl
fill_days-length (suc n) c ps = ap suc (fill_days-length n (c + 1) ps)

-- The days from one on.
abbrev pub days_from : ℕ → ℕ → List ℕ
days_from zero c = []
days_from (suc n) c = c ∷ days_from n (c + 1)

by_day-day :
    (d : ℕ) (ps : List DailyCreditPoint) → point_day (or_else (by_day d ps) (no_credits d)) ≡ d
unfolding by_day
by_day-day d [] = refl
by_day-day d (p ∷ ps) = elim (Option-cases (by_day d ps)) [
  | inr (later, there) ↦ rw there (rw there at (by_day-day d ps))
  | inl missing ↦ rw missing (elim (Bool-cases (p.day == d)) [
    | inl same ↦ rw same ((==_iff p.day d).0 same)
    | inr other ↦ rw other refl
  ])
]

pub fill_days-days :
    (n c : ℕ) (ps : List DailyCreditPoint) → map point_day (fill_days n c ps) ≡ days_from n c
unfolding fill_days
fill_days-days zero c ps = refl
fill_days-days (suc n) c ps = cc (by_day-day c ps, fill_days-days n (c + 1) ps)

pub fill_days-All :
    (f : ℕ → ℕ) (n c : ℕ) (ps : List DailyCreditPoint)
    → ((d : ℕ) → credits_on d ps ≡ f d)
    → All (λ p. p.credits ≡ f p.day) (fill_days n c ps)
unfolding fill_days
fill_days-All f zero c ps h = tt
fill_days-All f (suc n) c ps h =
    (h c ∙ ap f (sym (by_day-day c ps)), fill_days-All f n (c + 1) ps h)
