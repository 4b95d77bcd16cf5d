-- ===== src/Spaces/Slug/Unique.antt =====
-- The loop of `uniqueSlug` ends, with a slug that is not taken.
use Prim.Native.String.append
use Prim.Native.Char.{code, Char}
use Prim.Native.String.{◌++◌ as concat}
use gomer.Base.{
  ℕ, zero, suc, ◌+◌, ◌-◌, ◌*◌, ◌/◌, ◌%◌, ◌≤◌, ◌<◌, ◌≡◌, ◌≢◌, inl, inr, refl, sym, ap, ◌∙◌, Bool,
  true, false, Bool-cases, ◌||◌, some, List, [], ◌∷◌, length, ltb, ◌==◌, if◌then◌else◌, arith,
}
use gomer.Base.Text.{String, str_eq, eq_iff, cons_inj}
use gomer.Spaces.Checks.{has}
use gomer.Spaces.Slug.{digit, decimal_in, decimal, candidate, unique_from}

-- The number that a decimal stands for, after some digits.
number_in : ℕ → String → ℕ
number_in acc String.[] = acc
number_in acc (String.◌∷◌ c s) = number_in (acc * 10 + (code c - 48)) s

number_in-concat :
    (acc : ℕ) (s t : String) → number_in acc (concat s t) ≡ number_in (number_in acc s) t
unfolding number_in
number_in-concat acc String.[] t = rw (append.nil t) refl
number_in-concat acc (String.◌∷◌ c s) t =
    rw (append.cons c s t) (number_in-concat (acc * 10 + (code c - 48)) s t)

number_in-digit : (acc d : ℕ) → d < 10 → number_in acc (digit d) ≡ acc * 10 + d
unfolding number_in
number_in-digit acc zero small = omega arith
number_in-digit acc (suc zero) small = omega arith
number_in-digit acc (suc (suc zero)) small = omega arith
number_in-digit acc (suc (suc (suc zero))) small = omega arith
number_in-digit acc (suc (suc (suc (suc zero)))) small = omega arith
number_in-digit acc (suc (suc (suc (suc (suc zero))))) small = omega arith
number_in-digit acc (suc (suc (suc (suc (suc (suc zero)))))) small = omega arith
number_in-digit acc (suc (suc (suc (suc (suc (suc (suc zero))))))) small = omega arith
number_in-digit acc (suc (suc (suc (suc (suc (suc (suc (suc zero)))))))) small = omega arith
number_in-digit acc (suc (suc (suc (suc (suc (suc (suc (suc (suc zero))))))))) small = omega arith
number_in-digit acc (suc (suc (suc (suc (suc (suc (suc (suc (suc (suc d)))))))))) small =
    absurd (omega arith)

number_in-decimal_in : (f n : ℕ) → n ≤ f → number_in 0 (decimal_in f n) ≡ n
unfolding decimal_in
number_in-decimal_in zero n h =
    let none_left : n ≡ 0 = omega arith in rw none_left (number_in-digit 0 0 (omega arith))
number_in-decimal_in (suc f) n h = elim (Bool-cases (ltb n 10)) [
  | inl small ↦ rw small (number_in-digit 0 n (ground arith) ∙ omega arith)
  | inr large ↦
      let rest = number_in-decimal_in f (n / 10) (ground arith) in
      rw large (
        number_in-concat 0 (decimal_in f (n / 10)) (digit (n % 10))
        ∙ (ap (λ (k : ℕ). number_in k (digit (n % 10))) rest
            ∙ (number_in-digit (n / 10) (n % 10) (omega arith) ∙ omega arith)))
]

decimal_inj : (m n : ℕ) → decimal m ≡ decimal n → m ≡ n
unfolding decimal
decimal_inj m n e =
    sym (number_in-decimal_in m m (omega arith))
    ∙ (ap (number_in 0) e ∙ number_in-decimal_in n n (omega arith))

concat_inj : (a s t : String) → concat a s ≡ concat a t → s ≡ t
concat_inj String.[] s t e = sym (append.nil s) ∙ (e ∙ append.nil t)
concat_inj (String.◌∷◌ c a) s t e =
    concat_inj a s t (cons_inj c _ _ (sym (append.cons c a s) ∙ (e ∙ append.cons c a t)))

concat-ne : (a s : String) (c : Char) → concat a (String.◌∷◌ c s) ≢ a
concat-ne String.[] s c e = cc (e, append.nil (String.◌∷◌ c s))
concat-ne (String.◌∷◌ d a) s c e =
    concat-ne a s c (cons_inj d _ _ (sym (append.cons d a (String.◌∷◌ c s)) ∙ e))

concat-dash : (s : String) → concat "-" s ≡ String.◌∷◌ "-" s
concat-dash s = append.cons "-" "" s ∙ ap (String.◌∷◌ "-") (append.nil s)

-- Different suffixes give different candidates.
candidate-ne : (base : String) (m n : ℕ) → 1 ≤ m → m < n → candidate base n ≢ candidate base m
unfolding candidate
candidate-ne base m n first later e = elim (Bool-cases (m == 1)) [
  | inl plain ↦
      let suffixed : (n == 1) ≡ false = ground arith in
      let same : concat base (concat "-" (decimal n)) ≡ base = rw (suffixed, plain) at e in
      concat-ne base (decimal n) "-" (ap (concat base) (sym (concat-dash (decimal n))) ∙ same)
  | inr numbered ↦
      let suffixed : (n == 1) ≡ false = ground arith in
      let same : concat base (concat "-" (decimal n)) ≡ concat base (concat "-" (decimal m)) =
        rw (suffixed, numbered) at e in
      let equal : n ≡ m = decimal_inj n m (concat_inj "-" _ _ (concat_inj base _ _ same)) in
      omega arith
]

remove : String → List String → List String
remove s [] = []
remove s (t ∷ ts) = let rest = t ∷ remove s ts in if str_eq s t then ts else rest

length-remove :
    (s : String) (ts : List String) → has s ts ≡ true → length ts ≡ suc (length (remove s ts))
unfolding has remove
length-remove s [] h = cc
length-remove s (t ∷ ts) h = elim (Bool-cases (str_eq s t)) [
  | inl same ↦ rw same refl
  | inr other ↦ rw other (ap suc (length-remove s ts (rw other at h)))
]

has-remove : (r s : String) (ts : List String) → r ≢ s → has r (remove s ts) ≡ has r ts
unfolding has remove
has-remove r s [] apart = refl
has-remove r s (t ∷ ts) apart = elim (Bool-cases (str_eq s t)) [
  | inl same ↦ elim (Bool-cases (str_eq r t)) [
    | inl it ↦ absurd (apart ((eq_iff r t).0 it ∙ sym ((eq_iff s t).0 same)))
    | inr not_it ↦ rw (same, not_it) refl
  ]
  | inr other ↦ rw other (ap (λ (b : Bool). str_eq r t || b) (has-remove r s ts apart))
]

-- The loop only asks about the candidates from its suffix on.
unique_from-same :
    (fuel : ℕ) (base : String) (n : ℕ) (used used' : List String)
    → ((m : ℕ) → n ≤ m → has (candidate base m) used ≡ has (candidate base m) used')
    → unique_from fuel base n used ≡ unique_from fuel base n used'
unfolding unique_from
unique_from-same zero base n used used' h = refl
unique_from-same (suc fuel) base n used used' h =
    let rest = unique_from-same fuel base (suc n) used used' (λ m le. h m (omega arith)) in
    let now = h n (omega arith) in rw (now, rest) refl

-- With more rounds than there are slugs the loop finds one, which is none of them.
unique_from-found :
    (fuel : ℕ) (base : String) (n : ℕ) (used : List String)
    → 1 ≤ n
    → length used < fuel
    → (s : String) × (unique_from fuel base n used ≡ some s)
unfolding unique_from
unique_from-found zero base n used first h = absurd (omega arith)
unique_from-found (suc fuel) base n used first h = elim (Bool-cases (has (candidate base n) used)) [
  | inr free ↦ (candidate base n, rw free refl)
  | inl taken ↦
      let shorter = length-remove (candidate base n) used taken in
      let (s, found) =
        unique_from-found fuel base (suc n) (remove (candidate base n) used) (omega arith)
          (omega arith) in
      let same = unique_from-same fuel base (suc n) (remove (candidate base n) used) used (λ m le.
        has-remove (candidate base m) (candidate base n) used
          (candidate-ne base n m first (omega arith))) in
      (s, rw taken (sym same ∙ found))
]

unique_from-free :
    (fuel : ℕ) (base : String) (n : ℕ) (used : List String) (s : String)
    → unique_from fuel base n used ≡ some s
    → has s used ≡ false
unfolding unique_from
unique_from-free zero base n used s e = cc
unique_from-free (suc fuel) base n used s e = elim (Bool-cases (has (candidate base n) used)) [
  | inl taken ↦ unique_from-free fuel base (suc n) used s (rw taken at e)
  | inr free ↦ let is : candidate base n ≡ s = cc (rw free at e) in rw (← is) free
]

-- The search for a slug ends: with one round more than there are Spaces it returns a slug, and one
-- that no Space has.
pub unique_from_total :
    (base : String) (used : List String)
    → (s : String) × (unique_from (suc (length used)) base 1 used ≡ some s) × (has s used ≡ false)
unique_from_total base used =
    let (s, found) =
      unique_from-found (suc (length used)) base 1 used (omega arith) (omega arith) in
    (s, found, unique_from-free (suc (length used)) base 1 used s found)
