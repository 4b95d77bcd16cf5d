-- ===== src/People/Invites/Addresses.antt =====
-- `normalizeEmails` of src/invites/invites.service.ts against a plain description of it.
use mathlib.Core.Path.{subst}
use gomer.Base.{
  ◌≡◌, ◌≢◌, inl, inr, refl, sym, ap, ◌∙◌, Bool, true, false, ◌||◌, ◌&&◌, not, arith, Bool-cases,
  List, [], ◌∷◌, map, keep, All, All-imp,
}
use gomer.Base.Text.{String, str_eq, eq_iff, trim}
use gomer.Spaces.Checks.{has}
use gomer.Spaces.Spec.WellFormed.{Distinct}
use gomer.People.Invites.{normalize_from, normalize_emails}

first_false : (a b : Bool) → (a || b) ≡ false → a ≡ false
first_false true b e = cc
first_false false b e = refl

last_false : (a b : Bool) → (a || b) ≡ false → b ≡ false
last_false true b e = cc
last_false false b e = e

pub normalize_from-Distinct :
    (lower : String → String) (emails seen : List String)
    → let out = normalize_from lower seen emails in All (λ m. has m seen ≡ false) out × Distinct out
unfolding normalize_from has
normalize_from-Distinct lower [] seen = (tt, tt)
normalize_from-Distinct lower (raw ∷ emails) seen =
    let email = lower (trim raw) in
    elim (Bool-cases (str_eq email "" || has email seen)) [
      | inl skipped ↦ rw skipped (normalize_from-Distinct lower emails seen)
      | inr fresh ↦
          let (apart, distinct) = normalize_from-Distinct lower emails (email ∷ seen) in
          let out = normalize_from lower (email ∷ seen) emails in
          rw fresh (
            (
              last_false _ _ fresh,
              All-imp (λ m. (str_eq m email || has m seen) ≡ false) (λ m. has m seen ≡ false) out
                  (λ m h. last_false (str_eq m email) (has m seen) h) apart,
            ),
            (
              All-imp (λ m. (str_eq m email || has m seen) ≡ false) (λ m. m ≢ email) out
                  (λ m h same.
                    cc (first_false (str_eq m email) (has m seen) h, (eq_iff m email).1 same))
                  apart,
              distinct,
            ),
          )
    ]

and_false : (a : Bool) → (a && false) ≡ false
and_false true = refl
and_false false = refl

and_true : (a : Bool) → (a && true) ≡ a
and_true true = refl
and_true false = refl

skipped-seen : (a b : Bool) → (a || b) ≡ true → (not a && not b) ≡ false
skipped-seen true b e = refl
skipped-seen false true e = refl
skipped-seen false false e = cc

fresh-unseen : (a b : Bool) → (a || b) ≡ false → (not a && not b) ≡ true
fresh-unseen true b e = cc
fresh-unseen false true e = cc
fresh-unseen false false e = refl

-- The first of each text that occurs, in order.
abbrev pub firsts : List String → List String
firsts [] = []
firsts (s ∷ ss) = s ∷ keep (λ t. not (str_eq t s)) (firsts ss)

abbrev pub not_empty : String → Bool
not_empty s = not (str_eq s "")

keep-keep :
    (p q r : String → Bool) (ss : List String)
    → ((s : String) → (p s && q s) ≡ r s)
    → keep p (keep q ss) ≡ keep r ss
keep-keep p q r [] h = refl
keep-keep p q r (s ∷ ss) h = ground (arith, h s, keep-keep p q r ss h)

-- What is kept where nothing of a list is seen again.
abbrev unseen : List String → String → Bool
unseen seen s = not_empty s && not (has s seen)

unseen-skip :
    (e : String) (seen : List String) (s : String)
    → unseen seen e ≡ false
    → (unseen seen s && not (str_eq s e)) ≡ unseen seen s
unseen-skip e seen s h = elim (Bool-cases (str_eq s e)) [
  | inl same ↦
      rw same (and_false _ ∙ sym (subst (λ t. unseen seen t ≡ false) (sym ((eq_iff s e).0 same)) h))
  | inr other ↦ rw other (and_true _)
]

unseen-cons :
    (e : String) (seen : List String) (s : String)
    → (unseen seen s && not (str_eq s e)) ≡ unseen (e ∷ seen) s
unfolding has
unseen-cons e seen s = elim (Bool-cases (str_eq s e)) [
  | inl same ↦ rw same (and_false _ ∙ sym (and_false _))
  | inr other ↦ rw other (and_true _)
]

normalize_from-firsts :
    (lower : String → String) (emails seen : List String)
    → normalize_from lower seen emails
      ≡ keep (unseen seen) (firsts (map (λ raw. lower (trim raw)) emails))
unfolding normalize_from
normalize_from-firsts lower [] seen = refl
normalize_from-firsts lower (raw ∷ emails) seen =
    let email = lower (trim raw) in
    let rest = firsts (map (λ r. lower (trim r)) emails) in
    elim (Bool-cases (str_eq email "" || has email seen)) [
      | inl skipped ↦
          let no : unseen seen email ≡ false = skipped-seen _ _ skipped in
          rw (skipped, no)
            (normalize_from-firsts lower emails seen
              ∙ sym (
                  keep-keep (unseen seen) (λ t. not (str_eq t email)) (unseen seen) rest
                    (λ s. unseen-skip email seen s no)))
      | inr fresh ↦
          let yes_there : unseen seen email ≡ true = fresh-unseen _ _ fresh in
          rw (fresh, yes_there)
            (ap (λ (ss : List String). email ∷ ss)
              (normalize_from-firsts lower emails (email ∷ seen)
                ∙ sym (
                    keep-keep (unseen seen) (λ t. not (str_eq t email)) (unseen (email ∷ seen)) rest
                      (unseen-cons email seen))))
    ]

unseen-nil : (s : String) → unseen [] s ≡ not_empty s
unfolding has
unseen-nil s = and_true _

keep-same :
    (p q : String → Bool) (ss : List String) → ((s : String) → p s ≡ q s) → keep p ss ≡ keep q ss
keep-same p q [] h = refl
keep-same p q (s ∷ ss) h = ground (arith, h s, keep-same p q ss h)

pub normalize_emails-firsts :
    (lower : String → String) (emails : List String)
    → normalize_emails lower emails ≡ keep not_empty (firsts (map (λ raw. lower (trim raw)) emails))
unfolding normalize_emails
normalize_emails-firsts lower emails =
    normalize_from-firsts lower emails []
    ∙ keep-same (unseen []) not_empty (firsts (map (λ raw. lower (trim raw)) emails)) unseen-nil
