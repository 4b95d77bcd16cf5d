-- ===== src/Spaces/Page.antt =====
-- `applyPageEdits` and `validatePageHtml` (src/spaces/page/page-input.ts). A text is the list of its
-- UTF-16 code units, as in the source.
pub mod Matches
pub mod Edits
use gomer.Base.{
  ℕ, zero, suc, ◌-◌, Bool, true, false, not, ◌&&◌, ◌||◌, Option, none, some, List, [], ◌∷◌, ◌++◌,
  length, any, all, is_some, ltb, leb, ◌==◌, if◌then◌else◌,
}
use gomer.Base.Text.{is_white}

abbrev pub Units : Type 0
Units = List ℕ

pub record PageEdit : Type 0 where
  pub find : Units
  pub replace : Units

-- The rest of the text after a prefix, if it begins with it.
unfoldable pub strip : Units → Units → Option Units
strip [] s = some s
strip (c ∷ cs) [] = none
strip (c ∷ cs) (d ∷ s) = if c == d then strip cs s else none

-- `s.split(find).length - 1`: the matches from left to right that do not overlap; the number says how
-- many units still belong to the last one.
unfoldable pub matches_from : Units → ℕ → Units → ℕ
unfolding strip
matches_from find (suc k) [] = 0
matches_from find (suc k) (c ∷ s) = matches_from find k s
matches_from find zero [] = 0
matches_from find zero (c ∷ s) =
    if is_some (strip find (c ∷ s))
    then suc (matches_from find (length find - 1) s)
    else matches_from find zero s

-- A match at the beginning of the text, or else a later one.
abbrev pub here_or : Option Units → Option (Units × Units) → Option (Units × Units)
here_or none later = later
here_or (some rest) later = some ([], rest)

abbrev pub after_unit : ℕ → Option (Units × Units) → Option (Units × Units)
after_unit c none = none
after_unit c (some (before, after)) = some (c ∷ before, after)

-- The text before the first match, which ends at `s.indexOf(find)`, and the text after it.
unfoldable pub cut : Units → Units → Option (Units × Units)
unfolding strip
cut find [] = here_or (strip find []) none
cut find (c ∷ s) = here_or (strip find (c ∷ s)) (after_unit c (cut find s))

-- What is wrong with an edit, with its index: its shape, an empty `find`, a `find` that does not
-- appear, or one that appears more than once.
pub data EditError : Type 0 where
  bad_shape : ℕ → EditError
  empty_find : ℕ → EditError
  no_match : ℕ → EditError
  many_matches : ℕ → ℕ → EditError

-- The variables of the loop.
pub record Progress : Type 0 where
  pub result : Units
  pub errors : List EditError

abbrev pub add_error : EditError → Progress → Progress
add_error e s = record s { errors = s.errors ++ e ∷ [] }

abbrev pub is_empty : Units → Bool
is_empty [] = true
is_empty (c ∷ s) = false

-- `result.slice(0, at) + edit.replace + result.slice(at + edit.find.length)`
abbrev pub replaced : PageEdit → Progress → Progress
replaced edit s = elim (cut edit.find s.result) [
  | none ↦ s
  | some (before, after) ↦ record s { result = before ++ (edit.replace ++ after) }
]

-- One edit; none is a value that is not an object with two texts.
unfoldable pub apply_edit : ℕ → Option PageEdit → Progress → Progress
unfolding matches_from cut
apply_edit i none s = add_error (bad_shape i) s
apply_edit i (some edit) s =
    let matches = matches_from edit.find 0 s.result in
    if is_empty edit.find
    then add_error (empty_find i) s
    else if matches == 0
    then add_error (no_match i) s
    else if matches == 1
    then replaced edit s
    else add_error (many_matches i matches) s

unfoldable pub apply_edits : ℕ → List (Option PageEdit) → Progress → Progress
unfolding apply_edit
apply_edits i [] s = s
apply_edits i (edit ∷ edits) s = apply_edits (suc i) edits (apply_edit i edit s)

abbrev pub max_page_chars : ℕ
max_page_chars = 300_000

-- `[a-z!]`, in either case
abbrev pub opens_tag : ℕ → Bool
opens_tag c = (leb 97 c && leb c 122) || (leb 65 c && leb c 90) || c == 33

-- `/<[a-z!]/i.test(html)`
unfoldable pub has_tag : Units → Bool
has_tag [] = false
has_tag (c ∷ []) = false
has_tag (c ∷ d ∷ s) = (c == 60 && opens_tag d) || has_tag (d ∷ s)

pub data PageError : Type 0 where
  blank_page : PageError
  too_long : PageError
  plain_text : PageError

-- The error of `validatePageHtml`, if it throws one.
unfoldable pub page_error : Units → Option PageError
unfolding has_tag
page_error html =
    if all is_white html
    then some blank_page
    else if ltb max_page_chars (length html)
    then some too_long
    else if not (has_tag html)
    then some plain_text
    else none

pub data EditResult : Type 0 where
  page : Units → EditResult
  bad_edits : EditResult
  not_changed : List EditError → EditResult
  bad_page : PageError → EditResult

abbrev pub checked : Units → Option PageError → EditResult
checked html none = page html
checked html (some e) = bad_page e

-- The end of `applyPageEdits`.
abbrev pub settled : Progress → EditResult
settled s = elim s.errors [
  | [] ↦ checked s.result (page_error s.result)
  | e ∷ es ↦ not_changed (e ∷ es)
]

unfoldable pub apply_page_edits : Units → List (Option PageEdit) → EditResult
unfolding apply_edits page_error
apply_page_edits html [] = bad_edits
apply_page_edits html (edit ∷ edits) =
    settled (apply_edits 0 (edit ∷ edits) (record { result = html; errors = [] }))
