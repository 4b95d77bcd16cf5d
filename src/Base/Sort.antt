-- ===== src/Base/Sort.antt =====
-- `Array.prototype.sort` and `ORDER BY` on a numeric key: a stable sort, and what it preserves.
use gomer.Base.{
  ℕ, ◌+◌, ◌≤◌, ◌≡◌, refl, inl, inr, List, [], ◌∷◌, arith, leb, ◌==◌, if◌then◌else◌, All, sum_of,
  keep, Bool-cases,
}

module _ {ℓ} {A : Type ℓ} (key : A → ℕ) where
  -- An element is put before those of the same key, so equal keys keep their order.
  unfoldable pub insert_by : A → List A → List A
  insert_by x [] = x ∷ []
  insert_by x (y ∷ ys) = if leb (key x) (key y) then x ∷ y ∷ ys else y ∷ insert_by x ys

  unfoldable pub sort_by : List A → List A
  unfolding insert_by
  sort_by [] = []
  sort_by (x ∷ xs) = insert_by x (sort_by xs)

  abbrev pub IsSorted : List A → Type 0
  IsSorted [] = Unit
  IsSorted (x ∷ xs) = All (λ y. key x ≤ key y) xs × IsSorted xs

  All-weaken : (a b : ℕ) (xs : List A) → a ≤ b → All (λ y. b ≤ key y) xs → All (λ y. a ≤ key y) xs
  All-weaken a b [] h k = tt
  All-weaken a b (x ∷ xs) h k = (omega arith, All-weaken a b xs h k.1)

  pub insert_by-All {κ} :
      (P : A → Type κ) (x : A) (xs : List A) → P x → All P xs → All P (insert_by x xs)
  unfolding insert_by
  insert_by-All P x [] p h = (p, tt)
  insert_by-All P x (y ∷ ys) p h = elim (Bool-cases (leb (key x) (key y))) [
    | inl e ↦ rw e (p, h)
    | inr e ↦ rw e (h.0, insert_by-All P x ys p h.1)
  ]

  pub sort_by-All {κ} : (P : A → Type κ) (xs : List A) → All P xs → All P (sort_by xs)
  unfolding sort_by
  sort_by-All P [] h = tt
  sort_by-All P (x ∷ xs) h = insert_by-All P x (sort_by xs) h.0 (sort_by-All P xs h.1)

  insert_by-IsSorted : (x : A) (xs : List A) → IsSorted xs → IsSorted (insert_by x xs)
  unfolding insert_by
  insert_by-IsSorted x [] s = (tt, tt)
  insert_by-IsSorted x (y ∷ ys) s = elim (Bool-cases (leb (key x) (key y))) [
    | inl e ↦ rw e ((ground arith, All-weaken (key x) (key y) ys (ground arith) s.0), s)
    | inr e ↦
        rw e
          (insert_by-All (λ z. key y ≤ key z) x ys (ground arith) s.0, insert_by-IsSorted x ys s.1)
  ]

  pub sort_by-IsSorted : (xs : List A) → IsSorted (sort_by xs)
  unfolding sort_by
  sort_by-IsSorted [] = tt
  sort_by-IsSorted (x ∷ xs) = insert_by-IsSorted x (sort_by xs) (sort_by-IsSorted xs)

  insert_by-sum_of :
      (f : A → ℕ) (x : A) (xs : List A) → sum_of f (insert_by x xs) ≡ f x + sum_of f xs
  unfolding insert_by
  insert_by-sum_of f x [] = refl
  insert_by-sum_of f x (y ∷ ys) = ground (arith, insert_by-sum_of f x ys)

  pub sort_by-sum_of : (f : A → ℕ) (xs : List A) → sum_of f (sort_by xs) ≡ sum_of f xs
  unfolding sort_by
  sort_by-sum_of f [] = refl
  sort_by-sum_of f (x ∷ xs) = omega (arith, insert_by-sum_of f x (sort_by xs), sort_by-sum_of f xs)

  insert_by-keep :
      (k : ℕ) (x : A) (xs : List A)
      → keep (λ a. key a == k) (insert_by x xs) ≡ keep (λ a. key a == k) (x ∷ xs)
  unfolding insert_by
  insert_by-keep k x [] = refl
  insert_by-keep k x (y ∷ ys) = ground (arith, insert_by-keep k x ys)

  -- Elements of one key come out in the order in which they went in.
  pub sort_by-keep :
      (k : ℕ) (xs : List A) → keep (λ a. key a == k) (sort_by xs) ≡ keep (λ a. key a == k) xs
  unfolding sort_by
  sort_by-keep k [] = refl
  sort_by-keep k (x ∷ xs) = ground (arith, insert_by-keep k x (sort_by xs), sort_by-keep k xs)
