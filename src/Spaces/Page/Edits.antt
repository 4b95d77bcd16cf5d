-- ===== src/Spaces/Page/Edits.antt =====
-- `applyPageEdits` (src/spaces/page/page-input.ts) against an independent description of it.
use gomer.Base.{
  ℕ, suc, ◌+◌, ◌≤◌, ◌≡◌, refl, Bool-cases, Option-cases, inl, inr, true, false, none, some, Option,
  List, [], ◌∷◌, ◌++◌, arith, ◌==◌, ==_iff, ◌⊎◌, length, length-append, all,
}
use gomer.Base.Text.{is_white}
use gomer.Spaces.Page.{
  Units, PageEdit, EditError, empty_find, no_match, many_matches, Progress, PageError, page,
  not_changed, cut, matches_from, is_empty, replaced, add_error, apply_edit, apply_edits,
  apply_page_edits, page_error, checked, settled, has_tag, max_page_chars,
}
use gomer.Spaces.Page.Matches.{cut-eq, cut-found, cut-first, cut-matches, matches_from-zero, Occurs}

-- The first place where a text stands in a page, and it stands nowhere behind it.
pub record IsOnly (find html before after : Units) : Type 0 where
  pub stands : html ≡ before ++ (find ++ after)
  pub first : (b a : Units) → html ≡ b ++ (find ++ a) → length before ≤ length b
  pub last : Occurs find after → ⊥

-- A text becomes another by edits in order, each of which is well-formed and looks for a text that is
-- not empty, and which stands nowhere behind the first place where it stands; there it is replaced.
pub data Applied : Units → List (Option PageEdit) → Units → Type 0 where
  done : (html : Units) → Applied html [] html
  edited :
      (html before after result : Units) (edit : PageEdit) (edits : List (Option PageEdit))
      → is_empty edit.find ≡ false
      → IsOnly edit.find html before after
      → Applied (before ++ (edit.replace ++ after)) edits result
      → Applied html (some edit ∷ edits) result

-- What one edit does when it adds no error.
abbrev Replaces : Option PageEdit → Progress → Progress → Type 0
Replaces none s s' = ⊥
Replaces (some edit) s s' =
    (before : Units) × (after : Units) × IsOnly edit.find s.result before after
    × (is_empty edit.find ≡ false)
    × (s'.result ≡ before ++ (edit.replace ++ after))
    × (s'.errors ≡ s.errors)

cut-IsOnly :
    (f s before after : Units)
    → is_empty f ≡ false
    → matches_from f 0 s ≡ 1
    → cut f s ≡ some (before, after)
    → IsOnly f s before after
cut-IsOnly f s before after full one found =
    let more = cut-matches f s before after full found in
    record {
      stands = cut-eq f s before after found;
      first = λ b a there. cut-first f s before after b a found there;
      last = matches_from-zero f after full (omega (arith, more, one));
    }

-- An edit adds one error and changes nothing, or adds none and replaces its only match.
abbrev Outcomes : Option PageEdit → Progress → Progress → Type 0
Outcomes edit s s' = ((e : EditError) × (s' ≡ add_error e s)) ⊎ Replaces edit s s'

apply_edit-Outcomes :
    (i : ℕ) (edit : Option PageEdit) (s : Progress) → Outcomes edit s (apply_edit i edit s)
unfolding apply_edit
apply_edit-Outcomes i none s = inl (_, refl)
apply_edit-Outcomes i (some edit) s = elim (Bool-cases (is_empty edit.find)) [
  | inl blank ↦ inl (empty_find i, rw (blank, apply_edit) refl)
  | inr full ↦ elim (Bool-cases (matches_from edit.find 0 s.result == 0)) [
    | inl missing ↦ inl (no_match i, rw (full, missing, apply_edit) refl)
    | inr there ↦ elim (Bool-cases (matches_from edit.find 0 s.result == 1)) [
      | inr many ↦ inl (
        many_matches i (matches_from edit.find 0 s.result),
        rw (full, there, many, apply_edit) refl,
      )
      | inl one ↦ elim (Option-cases (cut edit.find s.result)) [
        | inl lost ↦ let zero_there = cut-found edit.find s.result lost in cc (rw zero_there at one)
        | inr ((before, after), found) ↦
            let e : apply_edit i (some edit) s
                ≡ record s { result = before ++ (edit.replace ++ after) } =
              rw (full, there, one, apply_edit) (rw (found, replaced) refl) in
            inr (
              before,
              after,
              cut-IsOnly edit.find s.result before after full
                  ((==_iff (matches_from edit.find 0 s.result) 1).0 one) found,
              full,
              rw e refl,
              rw e refl,
            )
      ]
    ]
  ]
]

last_there : (es : List EditError) (e : EditError) → es ++ e ∷ [] ≡ [] → ⊥
last_there [] e h = cc
last_there (x ∷ es) e h = cc

Replaces-Applied :
    (edit : Option PageEdit) (edits : List (Option PageEdit)) (s s' : Progress) (result : Units)
    → Replaces edit s s'
    → Applied s'.result edits result
    → Applied s.result (edit ∷ edits) result
Replaces-Applied none edits s s' result h later = elim h [ ]
Replaces-Applied (some edit) edits s s' result (before, after, only, full, becomes, same) later =
    edited s.result before after result edit edits full only (rw (← becomes) later)

Replaces-errors :
    (edit : Option PageEdit) (s s' : Progress) → Replaces edit s s' → s'.errors ≡ [] → s.errors ≡ []
Replaces-errors none s s' h e = elim h [ ]
Replaces-errors (some edit) s s' (before, after, only, full, becomes, same) e = cc

apply_edits-Applied :
    (i : ℕ) (edits : List (Option PageEdit)) (s : Progress)
    → (apply_edits i edits s).errors ≡ []
    → (s.errors ≡ []) × Applied s.result edits (apply_edits i edits s).result
unfolding apply_edits
apply_edits-Applied i [] s e = (e, done s.result)
apply_edits-Applied i (edit ∷ edits) s e =
    let s' = apply_edit i edit s in
    let (clean, later) = apply_edits-Applied (suc i) edits s' e in
    elim (apply_edit-Outcomes i edit s) [
      | inl (x, fails) ↦
          let errors : s.errors ++ x ∷ [] ≡ [] = rw fails at clean in
          elim (last_there s.errors x errors) [ ]
      | inr replaces ↦ (
        Replaces-errors edit s s' replaces clean,
        Replaces-Applied edit edits s s' (apply_edits (suc i) edits s').result replaces later,
      )
    ]

checked-page :
    (html result : Units) (o : Option PageError)
    → checked html o ≡ page result
    → (o ≡ none) × (html ≡ result)
checked-page html result none e = (refl, cc)
checked-page html result (some x) e = cc

List-cases :
    (es : List EditError)
    → (es ≡ []) ⊎ ((x : EditError) × (rest : List EditError) × (es ≡ x ∷ rest))
List-cases [] = inl refl
List-cases (x ∷ es) = inr (x, es, refl)

settled-page :
    (s : Progress) (result : Units)
    → settled s ≡ page result
    → (s.errors ≡ []) × (page_error s.result ≡ none) × (s.result ≡ result)
settled-page s result e = elim (List-cases s.errors) [
  | inl clean ↦
      let (valid, same) = checked-page s.result result (page_error s.result) (rw clean at e) in
      (clean, valid, same)
  | inr (x, es, errors) ↦ cc (rw errors at e)
]

page_error-none :
    (html : Units)
    → page_error html ≡ none
    → (all is_white html ≡ false) × (length html ≤ max_page_chars) × (has_tag html ≡ true)
unfolding page_error
page_error-none html e = (ground arith, ground arith, ground arith)

-- When edits are accepted, the new page is the old one changed by each of them in order. Each was
-- well-formed, and at its turn its text is replaced at the first place where it stood, and it stood
-- nowhere behind that place; it may have stood a second time overlapping the first. And the result is
-- a page: not blank, of 300,000 units at the most, and with a tag in it.
pub apply_page_edits-Applied :
    (html result : Units) (edits : List (Option PageEdit))
    → apply_page_edits html edits ≡ page result
    → Applied html edits result
      × (all is_white result ≡ false)
      × (length result ≤ max_page_chars)
      × (has_tag result ≡ true)
unfolding apply_page_edits
apply_page_edits-Applied html result [] e = cc
apply_page_edits-Applied html result (edit ∷ edits) e =
    let s = apply_edits 0 (edit ∷ edits) (record { result = html; errors = [] }) in
    let (clean, valid, same) = settled-page s result e in
    let applied =
      (apply_edits-Applied 0 (edit ∷ edits) (record { result = html; errors = [] }) clean).1 in
    let (white, short, tag) = page_error-none s.result valid in
    rw (← same) (applied, white, short, tag)

same_errors :
    (edit : Option PageEdit) (s s' : Progress)
    → Replaces edit s s'
    → length s'.errors ≤ length s.errors + 1
same_errors none s s' h = elim h [ ]
same_errors (some edit) s s' (before, after, only, full, becomes, same) = rw same (omega arith)

apply_edit-errors :
    (i : ℕ) (edit : Option PageEdit) (s : Progress)
    → length (apply_edit i edit s).errors ≤ length s.errors + 1
apply_edit-errors i edit s = elim (apply_edit-Outcomes i edit s) [
  | inl (x, fails) ↦ rw fails (omega (arith, length-append s.errors (x ∷ [])))
  | inr replaces ↦ same_errors edit s (apply_edit i edit s) replaces
]

apply_edits-errors :
    (i : ℕ) (edits : List (Option PageEdit)) (s : Progress)
    → length (apply_edits i edits s).errors ≤ length s.errors + length edits
unfolding apply_edits
apply_edits-errors i [] s = omega arith
apply_edits-errors i (edit ∷ edits) s =
    omega
      (arith, apply_edit-errors i edit s, apply_edits-errors (suc i) edits (apply_edit i edit s))

never :
    (html : Units) (o : Option PageError) (errors : List EditError)
    → checked html o ≡ not_changed errors
    → ⊥
never html none errors e = cc
never html (some x) errors e = cc

settled-not_changed :
    (s : Progress) (errors : List EditError)
    → settled s ≡ not_changed errors
    → (s.errors ≡ errors) × (1 ≤ length errors)
settled-not_changed s errors e = elim (List-cases s.errors) [
  | inl clean ↦ elim (never s.result (page_error s.result) errors (rw clean at e)) [ ]
  | inr (x, es, errors_there) ↦
      let same : x ∷ es ≡ errors = cc (rw errors_there at e) in (cc, rw (← same) (omega arith))
]

-- Edits that are refused for what they are report at least one error and no more than one for each
-- edit.
pub apply_page_edits-errors :
    (html : Units) (edits : List (Option PageEdit)) (errors : List EditError)
    → apply_page_edits html edits ≡ not_changed errors
    → (1 ≤ length errors) × (length errors ≤ length edits)
unfolding apply_page_edits
apply_page_edits-errors html [] errors e = cc
apply_page_edits-errors html (edit ∷ edits) errors e =
    let start : Progress = record { result = html; errors = [] } in
    let (same, some_there) = settled-not_changed (apply_edits 0 (edit ∷ edits) start) errors e in
    (some_there, rw (← same) (omega (arith, apply_edits-errors 0 (edit ∷ edits) start)))
