-- ===== src/Spaces/Spec/Parts.antt =====
-- The tests of Spaces/Checks, and the description of what they test.
use gomer.Base.{
  ◌≡◌, ◌≢◌, ◌↔◌, ◌⊎◌, inl, inr, refl, ap, Bool, true, false, not, ◌||◌, Option, none, some, is_some,
  List, [], ◌∷◌, ◌++◌, Bool-cases,
}
use gomer.Base.Text.{String, str_eq, eq_iff, trim}
use gomer.Spaces.Json.{Value, bool, str, arr, obj, Items, nil, cons, Props, items}
use gomer.Spaces.Checks.{
  Place, Fault, Faults, require, has, filled, same, among, is_filled, is_str, is_bool, equals,
  members, is_among, is_nonempty, text_of, bool_of, array_of, object_of, listed,
}
use gomer.Spaces.Spec.WellFormed.{Among}

pub iff_trans {ℓ κ μ} : {A : Type ℓ} {B : Type κ} {C : Type μ} → A ↔ B → B ↔ C → A ↔ C
iff_trans f g = (λ a. g.0 (f.0 a), λ c. f.1 (g.1 c))

pub require_iff : (b : Bool) (p : Place) (f : Fault) → (require b p f ≡ []) ↔ (b ≡ true)
require_iff true p f = (λ e. refl, λ e. refl)
require_iff false p f = (λ e. cc, λ e. cc)

-- Errors of two checks, one after the other.
pub append_iff {ℓ κ} :
    {P : Type ℓ} {Q : Type κ} (xs ys : Faults)
    → (xs ≡ []) ↔ P
    → (ys ≡ []) ↔ Q
    → (xs ++ ys ≡ []) ↔ (P × Q)
append_iff [] ys f g = (λ e. (f.0 refl, g.0 e), λ h. g.1 h.1)
append_iff (x ∷ xs) ys f g = (λ e. cc, λ h. let e = f.1 h.0 in cc)

pub implies_iff : (a b : Bool) → ((not a || b) ≡ true) ↔ (a ≡ true → b ≡ true)
implies_iff true b = (λ e h. e, λ f. f refl)
implies_iff false b = (λ e h. cc, λ f. refl)

pub either_iff : (a b : Bool) → ((a || b) ≡ true) ↔ ((a ≡ true) ⊎ (b ≡ true))
either_iff true b = (λ e. inl refl, λ h. refl)
either_iff false b = (λ e. inr e, λ h. elim h [ inl e ↦ cc | inr e ↦ e ])

-- A check that pushes an error unless a test holds.
pub check_iff {ℓ} :
    {P : Type ℓ} (b : Bool) (p : Place) (f : Fault) → (b ≡ true) ↔ P → (require b p f ≡ []) ↔ P
check_iff b p f h = iff_trans (require_iff b p f) h

pub when_iff {ℓ κ} :
    {P : Type ℓ} {Q : Type κ} (a b : Bool)
    → (a ≡ true) ↔ P
    → (b ≡ true) ↔ Q
    → ((not a || b) ≡ true) ↔ (P → Q)
when_iff a b f g =
    (λ e p. g.0 ((implies_iff a b).0 e (f.1 p)), λ h. (implies_iff a b).1 (λ e. g.1 (h (f.0 e))))

pub split-nil : (xs ys : Faults) → xs ++ ys ≡ [] → (xs ≡ []) × (ys ≡ [])
split-nil xs ys = (append_iff xs ys (λ x. x, λ x. x) (λ x. x, λ x. x)).0

pub has_iff : (s : String) (ts : List String) → (has s ts ≡ true) ↔ Among s ts
unfolding has
has_iff s [] = (λ e. cc, λ h. elim h [ ])
has_iff s (t ∷ ts) =
    let head = eq_iff s t in
    let tail = has_iff s ts in
    let split = either_iff (str_eq s t) (has s ts) in
    (
      λ e. elim (split.0 e) [ inl h ↦ inl (head.0 h) | inr h ↦ inr (tail.0 h) ],
      λ h. split.1 (elim h [ inl k ↦ inl (head.1 k) | inr k ↦ inr (tail.1 k) ]),
    )

filled_iff : (o : Option String) → (filled o ≡ true) ↔ ((s : String) × (o ≡ some s) × (trim s ≢ ""))
unfolding filled
filled_iff none = (λ e. cc, λ h. cc (h.1))
filled_iff (some s) = (
  λ e. (s, refl, λ h. cc (e, (eq_iff (trim s) "").1 h)),
  λ h.
      let text : h.0 ≡ s = cc (h.1) in
      elim (Bool-cases (str_eq (trim s) "")) [
        | inl blank ↦ absurd (h.2 (rw text ((eq_iff (trim s) "").0 blank)))
        | inr rest ↦ rw rest
      ],
)

same_iff : (t : String) (o : Option String) → (same t o ≡ true) ↔ (o ≡ some t)
unfolding same
same_iff t none = (λ e. cc, λ h. cc)
same_iff t (some s) =
    (λ e. ap some ((eq_iff s t).0 e), λ h. (eq_iff s t).1 (let e : s ≡ t = cc in e))

among_iff :
    (ts : List String) (o : Option String)
    → (among ts o ≡ true) ↔ ((s : String) × (o ≡ some s) × Among s ts)
unfolding among
among_iff ts none = (λ e. cc, λ h. cc (h.1))
among_iff ts (some s) = (
  λ e. (s, refl, (has_iff s ts).0 e),
  λ h. let text : h.0 ≡ s = cc (h.1) in (has_iff s ts).1 (rw (← text) h.2),
)

is_some_iff {ℓ} : {A : Type ℓ} (o : Option A) → (is_some o ≡ true) ↔ ((a : A) × (o ≡ some a))
is_some_iff none = (λ e. cc, λ h. cc (h.1))
is_some_iff (some a) = (λ e. (a, refl), λ h. refl)

module _ {N : Type 0} where
  pub text_of_iff : (o : Option (Value N)) (s : String) → (text_of o ≡ some s) ↔ (o ≡ some (str s))
  unfolding text_of
  text_of_iff (some (str t)) s = (λ e. let f : t ≡ s = cc in rw f, λ e. cc (ap text_of e))
  text_of_iff _ s = (λ e. cc, λ e. ap text_of e)

  bool_of_iff : (o : Option (Value N)) (b : Bool) → (bool_of o ≡ some b) ↔ (o ≡ some (bool b))
  unfolding bool_of
  bool_of_iff (some (bool t)) s = (λ e. let f : t ≡ s = cc in rw f, λ e. cc (ap bool_of e))
  bool_of_iff _ s = (λ e. cc, λ e. ap bool_of e)

  array_of_iff :
      (o : Option (Value N)) (vs : Items N) → (array_of o ≡ some vs) ↔ (o ≡ some (arr vs))
  unfolding array_of
  array_of_iff (some (arr t)) s = (λ e. let f : t ≡ s = cc in rw f, λ e. cc (ap array_of e))
  array_of_iff _ s = (λ e. cc, λ e. ap array_of e)

  pub object_of_iff :
      (o : Option (Value N)) (ps : Props N) → (object_of o ≡ some ps) ↔ (o ≡ some (obj ps))
  unfolding object_of
  object_of_iff (some (obj t)) s = (λ e. let f : t ≡ s = cc in rw f, λ e. cc (ap object_of e))
  object_of_iff _ s = (λ e. cc, λ e. ap object_of e)

  pub equals_iff : (t : String) (o : Option (Value N)) → (equals t o ≡ true) ↔ (o ≡ some (str t))
  unfolding equals
  equals_iff t o = iff_trans (same_iff t (text_of o)) (text_of_iff o t)

  pub is_str_iff : (o : Option (Value N)) → (is_str o ≡ true) ↔ ((s : String) × (o ≡ some (str s)))
  unfolding is_str
  is_str_iff o =
      let is = is_some_iff (text_of o) in
      (
        λ e. let (s, t) = is.0 e in (s, (text_of_iff o s).0 t),
        λ h. is.1 (h.0, (text_of_iff o h.0).1 h.1),
      )

  pub is_bool_iff : (o : Option (Value N)) → (is_bool o ≡ true) ↔ ((b : Bool) × (o ≡ some (bool b)))
  unfolding is_bool
  is_bool_iff o =
      let is = is_some_iff (bool_of o) in
      (
        λ e. let (s, t) = is.0 e in (s, (bool_of_iff o s).0 t),
        λ h. is.1 (h.0, (bool_of_iff o h.0).1 h.1),
      )

  pub is_filled_iff :
      (o : Option (Value N))
      → (is_filled o ≡ true) ↔ ((s : String) × (o ≡ some (str s)) × (trim s ≢ ""))
  unfolding is_filled
  is_filled_iff o =
      let is = filled_iff (text_of o) in
      (
        λ e. let (s, t, k) = is.0 e in (s, (text_of_iff o s).0 t, k),
        λ h. is.1 (h.0, (text_of_iff o h.0).1 h.1, h.2),
      )

  pub is_among_iff :
      (ts : List String) (o : Option (Value N))
      → (is_among ts o ≡ true) ↔ ((s : String) × (o ≡ some (str s)) × Among s ts)
  unfolding is_among
  is_among_iff ts o =
      let is = among_iff ts (text_of o) in
      (
        λ e. let (s, t, k) = is.0 e in (s, (text_of_iff o s).0 t, k),
        λ h. is.1 (h.0, (text_of_iff o h.0).1 h.1, h.2),
      )

  -- A key that may be missing.
  pub optional_iff {ℓ} :
      {P : Type ℓ} (o : Option (Value N)) (b : Bool)
      → (b ≡ true) ↔ P
      → ((not (is_some o) || b) ≡ true) ↔ ((o ≡ none) ⊎ P)
  optional_iff none b f = (λ e. inl refl, λ h. refl)
  optional_iff (some v) b f = (λ e. inr (f.0 e), λ h. f.1 (elim h [ inl e ↦ cc | inr p ↦ p ]))

  listed_iff {ℓ} :
      (P : List (Value N) → Type ℓ) (o : Option (Items N))
      → ((is_nonempty (listed o) ≡ true) × P (listed o))
        ↔ ((v : Value N) × (vs : Items N) × (o ≡ some (cons v vs)) × P (v ∷ items vs))
  listed_iff P none = (λ h. cc (h.0), λ h. cc (h.2))
  listed_iff P (some nil) = (λ h. cc (h.0), λ h. cc (h.2))
  listed_iff P (some (cons v vs)) = (
    λ h. (v, vs, refl, h.1),
    λ h.
        let head : h.0 ≡ v = cc (h.2) in
        let tail : h.1 ≡ vs = cc (h.2) in (refl, rw (← head, ← tail) h.3),
  )

  -- An array that is not empty.
  pub members_iff {ℓ} :
      (P : List (Value N) → Type ℓ) (o : Option (Value N))
      → ((is_nonempty (members o) ≡ true) × P (members o))
        ↔ ((v : Value N) × (vs : Items N) × (o ≡ some (arr (cons v vs))) × P (v ∷ items vs))
  unfolding members
  members_iff P o =
      let is = listed_iff P (array_of o) in
      (
        λ h. let (v, vs, e, p) = is.0 h in (v, vs, (array_of_iff o (cons v vs)).0 e, p),
        λ h. is.1 (h.0, h.1, (array_of_iff o (cons h.0 h.1)).1 h.2, h.3),
      )

  pub some-members_iff :
      (o : Option (Value N))
      → (is_nonempty (members o) ≡ true)
        ↔ ((v : Value N) × (vs : Items N) × (o ≡ some (arr (cons v vs))) × Unit {0})
  some-members_iff o =
      let is = members_iff (λ vs. Unit {0}) o in (λ e. is.0 (e, tt), λ h. (is.1 h).0)
