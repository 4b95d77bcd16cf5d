-- ===== src/Billing/Subscriptions/Rows.antt =====
-- Finding rows of the subscriptions' table after an update and after an insert.
use gomer.Base.{
  ◌≡◌, refl, ap, not, ◌||◌, arith, Bool, Bool-cases, true, false, inl, inr, some, none, List, [],
  ◌∷◌, ◌++◌, any, keep, find, if◌then◌else◌,
}
use gomer.Billing.Subscriptions.{Subscription, update_where}

pub find-update_where :
    (p : Subscription → Bool) (f : Subscription → Subscription) (xs : List Subscription)
    (a : Subscription)
    → ((x : Subscription) → p (f x) ≡ true)
    → find p xs ≡ some a
    → find p (update_where p f xs) ≡ some (f a)
find-update_where p f [] a h e = cc
find-update_where p f (x ∷ xs) a h e = elim (Bool-cases (p x)) [
  | inl here ↦
      let first : some x ≡ some a = rw here at e in
      let same : x ≡ a = cc in rw here (rw (h x) (rw same refl))
  | inr later ↦ rw later (rw later (find-update_where p f xs a h (rw later at e)))
]

pub find-append :
    (p : Subscription → Bool) (xs : List Subscription) (a : Subscription)
    → find p xs ≡ none
    → p a ≡ true
    → find p (xs ++ a ∷ []) ≡ some a
find-append p [] a e h = rw h refl
find-append p (x ∷ xs) a e h = elim (Bool-cases (p x)) [
  | inl here ↦ cc (rw here at e)
  | inr later ↦ rw later (find-append p xs a (rw later at e) h)
]

neither : (a b : Bool) → (a || b) ≡ false → (a ≡ false) × (b ≡ false)
neither true b e = cc
neither false b e = (refl, e)

-- The tables after an update of the rows with an id, and after an insert of one.
module _ (p q : Subscription → Bool) where
  abbrev NoneElse : List Subscription → Type 0
  NoneElse xs = any q (keep (λ s. if p s then false else true) xs) ≡ false

  NoneElse-tail :
      (x : Subscription) (xs : List Subscription)
      → p x ≡ false
      → NoneElse (x ∷ xs)
      → (q x ≡ false) × NoneElse xs
  NoneElse-tail x xs other e =
      let both : (q x || any q (keep (λ s. if p s then false else true) xs)) ≡ false =
        rw other at e in
      neither _ _ both

  pub find-update_else :
      (f : Subscription → Subscription) (xs : List Subscription) (a : Subscription)
      → ((x : Subscription) → q (f x) ≡ true)
      → NoneElse xs
      → find p xs ≡ some a
      → find q (update_where p f xs) ≡ some (f a)
  find-update_else f [] a h free e = cc
  find-update_else f (x ∷ xs) a h free e = elim (Bool-cases (p x)) [
    | inl here ↦
        let first : some x ≡ some a = rw here at e in
        let same : x ≡ a = cc in rw here (rw (h x) (rw same refl))
    | inr later ↦
        let (apart, rest) = NoneElse-tail x xs later free in
        rw later (rw apart (find-update_else f xs a h rest (rw later at e)))
  ]

  pub find-append_else :
      (xs : List Subscription) (a : Subscription)
      → find p xs ≡ none
      → NoneElse xs
      → q a ≡ true
      → find q (xs ++ a ∷ []) ≡ some a
  find-append_else [] a e free h = rw h refl
  find-append_else (x ∷ xs) a e free h = elim (Bool-cases (p x)) [
    | inl here ↦ cc (rw here at e)
    | inr later ↦
        let (apart, rest) = NoneElse-tail x xs later free in
        rw apart (find-append_else xs a (rw later at e) rest h)
  ]

pub keep-update_where :
    (p : Subscription → Bool) (f : Subscription → Subscription) (xs : List Subscription)
    → ((x : Subscription) → p (f x) ≡ true)
    → keep (λ s. not (p s)) (update_where p f xs) ≡ keep (λ s. not (p s)) xs
keep-update_where p f [] h = refl
keep-update_where p f (x ∷ xs) h = elim (Bool-cases (p x)) [
  | inl here ↦ rw here (rw (h x) (keep-update_where p f xs h))
  | inr later ↦
      rw later (rw later (ap (λ (ys : List Subscription). x ∷ ys) (keep-update_where p f xs h)))
]

pub keep-append :
    (p : Subscription → Bool) (xs : List Subscription) (a : Subscription)
    → p a ≡ true
    → keep (λ s. not (p s)) (xs ++ a ∷ []) ≡ keep (λ s. not (p s)) xs
keep-append p [] a h = rw h refl
keep-append p (x ∷ xs) a h = ground (arith, keep-append p xs a h)
