-- ===== src/Base/Unique.antt =====
-- Lists whose members have an id each: counts and sums over the members of one id.
use gomer.Base.{ℕ, suc, ◌≤◌, ◌≡◌, ◌≢◌, refl, List, [], ◌∷◌, arith, ◌==◌, if◌then◌else◌, All, sum_of}

module _ {ℓ} {A : Type ℓ} (id : A → ℕ) where
  abbrev pub count_at : ℕ → List A → ℕ
  count_at i = sum_of (λ x. if id x == i then 1 else 0)

  abbrev pub sum_at : (A → ℕ) → ℕ → List A → ℕ
  sum_at f i = sum_of (λ x. if id x == i then f x else 0)

  -- No id occurs twice.
  abbrev pub IsDistinct : List A → Type 0
  IsDistinct xs = (i : ℕ) → count_at i xs ≤ 1

  pub IsDistinct-tail : (x : A) (xs : List A) → IsDistinct (x ∷ xs) → IsDistinct xs
  IsDistinct-tail x xs d i = omega (arith, d i)

  pub count_at-below : (b : ℕ) (xs : List A) → All (λ x. suc (id x) ≤ b) xs → count_at b xs ≡ 0
  count_at-below b [] h = refl
  count_at-below b (x ∷ xs) h = ground (arith, count_at-below b xs)

  pub sum_at-none : (f : A → ℕ) (i : ℕ) (xs : List A) → count_at i xs ≡ 0 → sum_at f i xs ≡ 0
  sum_at-none f i [] h = refl
  sum_at-none f i (x ∷ xs) h = ground (arith, sum_at-none f i xs)

  ne_of_count : (i : ℕ) (xs : List A) → count_at i xs ≡ 0 → All (λ x. id x ≢ i) xs
  ne_of_count i [] h = tt
  ne_of_count i (x ∷ xs) h = (ground arith, ne_of_count i xs (ground arith))

  sum_at-cons :
      (f : A → ℕ) (x : A) (xs ys : List A)
      → All (λ y. id y ≢ id x) ys
      → All (λ y. sum_at f (id y) xs ≡ f y) ys
      → All (λ y. sum_at f (id y) (x ∷ xs) ≡ f y) ys
  sum_at-cons f x xs [] h k = tt
  sum_at-cons f x xs (y ∷ ys) h k = (ground arith, sum_at-cons f x xs ys h.1 k.1)

  -- In a list with distinct ids, what is summed over the id of a member is that member's own value.
  pub sum_at_self :
      (f : A → ℕ) (xs : List A) → IsDistinct xs → All (λ x. sum_at f (id x) xs ≡ f x) xs
  sum_at_self f [] d = tt
  sum_at_self f (x ∷ xs) d =
      let alone : count_at (id x) xs ≡ 0 = ground (arith, d (id x)) in
      (
        ground (arith, sum_at-none f (id x) xs alone),
        sum_at-cons f x xs xs (ne_of_count (id x) xs alone)
            (sum_at_self f xs (IsDistinct-tail x xs d)),
      )
