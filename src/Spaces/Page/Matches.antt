-- ===== src/Spaces/Page/Matches.antt =====
-- The search for a text in a page (`split` and `indexOf` in src/spaces/page/page-input.ts).
use gomer.Base.{
  ℕ, ◌≡◌, refl, Bool-cases, Option-cases, inl, inr, none, some, Option, [], ◌∷◌, ◌++◌, arith, ◌==◌,
  ap, ◌∙◌, sym, ◌-◌, false, ◌≤◌, suc, length, ==_refl,
}
use gomer.Spaces.Page.{Units, strip, cut, matches_from, after_unit, is_empty}

pub strip-eq : (f s rest : Units) → strip f s ≡ some rest → s ≡ f ++ rest
unfolding strip
strip-eq [] s rest e = cc
strip-eq (c ∷ f) [] rest e = cc
strip-eq (c ∷ f) (d ∷ s) rest e = elim (Bool-cases (c == d)) [
  | inr other ↦ cc (rw (other, strip) at e)
  | inl same ↦
      let units : c ≡ d = ground arith in let tail = strip-eq f s rest (rw (same, strip) at e) in cc
]

after_unit-some :
    (c : ℕ) (o : Option (Units × Units)) (before after : Units)
    → after_unit c o ≡ some (before, after)
    → (b : Units) × (before ≡ c ∷ b) × (o ≡ some (b, after))
after_unit-some c none before after e = cc
after_unit-some c (some (b, a)) before after e = (b, cc, cc)

-- The match that is cut out stands in the text, with what is before and after it.
pub cut-eq :
    (f s before after : Units) → cut f s ≡ some (before, after) → s ≡ before ++ (f ++ after)
unfolding cut
cut-eq f [] before after e = elim (Option-cases (strip f [])) [
  | inl missing ↦ cc (rw (missing, cut) at e)
  | inr (rest, here) ↦
      let split = strip-eq f [] rest here in
      let ends = rw (here, cut) at e in
      let first : before ≡ [] = cc in let last : rest ≡ after = cc in rw (first, ← last) split
]
cut-eq f (c ∷ s) before after e = elim (Option-cases (strip f (c ∷ s))) [
  | inl missing ↦
      let (b, starts, tail) = after_unit-some c (cut f s) before after (rw (missing, cut) at e) in
      let rest = cut-eq f s b after tail in rw (starts) (ap (λ (u : Units). c ∷ u) rest)
  | inr (rest, here) ↦
      let split = strip-eq f (c ∷ s) rest here in
      let ends = rw (here, cut) at e in
      let first : before ≡ [] = cc in let last : rest ≡ after = cc in rw (first, ← last) split
]

after_unit-none : (c : ℕ) (o : Option (Units × Units)) → after_unit c o ≡ none → o ≡ none
after_unit-none c none e = refl
after_unit-none c (some (b, a)) e = cc

-- A text that matches somewhere is found.
pub cut-found : (f s : Units) → cut f s ≡ none → matches_from f 0 s ≡ 0
unfolding cut matches_from
cut-found f [] e = refl
cut-found f (c ∷ s) e = elim (Option-cases (strip f (c ∷ s))) [
  | inl missing ↦
      rw (missing, matches_from)
        (cut-found f s (after_unit-none c (cut f s) (rw (missing, cut) at e)))
  | inr (rest, here) ↦ cc (rw (here, cut) at e)
]

-- A text stands somewhere in another.
abbrev pub Occurs : Units → Units → Type 0
Occurs f s = (b : Units) × (a : Units) × (s ≡ b ++ (f ++ a))

strip-append : (f a : Units) → strip f (f ++ a) ≡ some a
unfolding strip
strip-append [] a = refl
strip-append (c ∷ f) a = rw (==_refl c, strip) (strip-append f a)

unit_inj : (c d : ℕ) (s t : Units) → c ∷ s ≡ d ∷ t → (c ≡ d) × (s ≡ t)
unit_inj c d s t e = (cc, cc)

strip-occurs : (f s a : Units) → s ≡ f ++ a → strip f s ≡ some a
strip-occurs f s a e = rw e (strip-append f a)

-- Where nothing is counted the text does not stand.
pub matches_from-zero : (f s : Units) → is_empty f ≡ false → matches_from f 0 s ≡ 0 → Occurs f s → ⊥
unfolding matches_from
matches_from-zero [] s full e o = cc
matches_from-zero (c ∷ f) [] full e ([], a, there) = cc
matches_from-zero (c ∷ f) [] full e (x ∷ b, a, there) = cc
matches_from-zero (c ∷ f) (d ∷ s) full e ([], a, there) =
    let here = strip-occurs (c ∷ f) (d ∷ s) a there in cc (rw (here, matches_from) at e)
matches_from-zero (c ∷ f) (d ∷ s) full e (x ∷ b, a, there) =
    elim (Option-cases (strip (c ∷ f) (d ∷ s))) [
      | inr (rest, here) ↦ cc (rw (here, matches_from) at e)
      | inl missing ↦
          matches_from-zero (c ∷ f) s refl (rw (missing, matches_from) at e)
            (b, a, (unit_inj d x s (b ++ (c ∷ f ++ a)) there).1)
    ]

-- The units of a match are passed over.
matches_from-append : (f p s : Units) → matches_from f (length p) (p ++ s) ≡ matches_from f 0 s
unfolding matches_from
matches_from-append f [] s = refl
matches_from-append f (c ∷ p) s = matches_from-append f p s

no_start : (c : ℕ) (f : Units) → cut (c ∷ f) [] ≡ none
unfolding cut
no_start c f = refl

-- The match that is cut out is the first that is counted; the others are after it.
pub cut-matches :
    (f s before after : Units)
    → is_empty f ≡ false
    → cut f s ≡ some (before, after)
    → matches_from f 0 s ≡ suc (matches_from f 0 after)
unfolding cut matches_from
cut-matches [] s before after full e = cc
cut-matches (c ∷ f) [] before after full e = cc (sym (no_start c f) ∙ e)
cut-matches (c ∷ f) (d ∷ s) before after full e = elim (Option-cases (strip (c ∷ f) (d ∷ s))) [
  | inl missing ↦
      let (b, starts, tail) =
        after_unit-some d (cut (c ∷ f) s) before after (rw (missing, cut) at e) in
      rw (missing, matches_from) (cut-matches (c ∷ f) s b after refl tail)
  | inr (rest, here) ↦
      let whole = strip-eq (c ∷ f) (d ∷ s) rest here in
      let ends = rw (here, cut) at e in
      let last : rest ≡ after = cc in
      let tail : s ≡ f ++ after =
        (unit_inj d c s (f ++ rest) whole).1 ∙ ap (λ (u : Units). f ++ u) last in
      let skipped : matches_from (c ∷ f) (length f) s ≡ matches_from (c ∷ f) 0 after =
        ap (matches_from (c ∷ f) (length f)) tail ∙ matches_from-append (c ∷ f) f after in
      let less : length (c ∷ f) - 1 ≡ length f = omega arith in
      rw (here, matches_from) (ap (λ (k : ℕ). suc (matches_from (c ∷ f) k s)) less ∙ ap suc skipped)
]

-- No match begins before the one that is cut out.
pub cut-first :
    (f s before after b a : Units)
    → cut f s ≡ some (before, after)
    → s ≡ b ++ (f ++ a)
    → length before ≤ length b
unfolding cut
cut-first f [] before after b a e there = elim (Option-cases (strip f [])) [
  | inl missing ↦ cc (rw (missing, cut) at e)
  | inr (rest, here) ↦
      let ends = rw (here, cut) at e in let first : before ≡ [] = cc in rw first (omega arith)
]
cut-first f (d ∷ s) before after [] a e there =
    let here = strip-occurs f (d ∷ s) a there in
    let ends = rw (here, cut) at e in let first : before ≡ [] = cc in rw first (omega arith)
cut-first f (d ∷ s) before after (x ∷ b) a e there = elim (Option-cases (strip f (d ∷ s))) [
  | inr (rest, here) ↦
      let ends = rw (here, cut) at e in let first : before ≡ [] = cc in rw first (omega arith)
  | inl missing ↦
      let (c, starts, tail) = after_unit-some d (cut f s) before after (rw (missing, cut) at e) in
      let shorter = cut-first f s c after b a tail (unit_inj d x s (b ++ (f ++ a)) there).1 in
      rw starts (omega (arith, shorter))
]
