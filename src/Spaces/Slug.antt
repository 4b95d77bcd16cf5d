-- ===== src/Spaces/Slug.antt =====
-- `uniqueSlug` of src/spaces/spaces.service.ts: the address of a new Space.
pub mod Unique
use Prim.Native.Char.{Char, code}
use Prim.Native.String.{◌++◌ as concat}
use gomer.Base.{
  ℕ, zero, suc, ◌+◌, ◌-◌, ◌/◌, ◌%◌, Bool, true, false, ◌&&◌, ◌||◌, Option, none, some, List, [],
  ◌∷◌, ltb, leb, ◌==◌, if◌then◌else◌,
}
use gomer.Base.Text.{String, str_eq, trim}
use gomer.Spaces.Checks.{has}

-- `[a-z0-9]`
abbrev pub is_slug_char : ℕ → Bool
is_slug_char c = (leb 97 c && leb c 122) || (leb 48 c && leb c 57)

-- `.replace(/[^a-z0-9]+/g, '-')`; the flag says that a dash stands for what is being skipped.
unfoldable pub dash_runs : Bool → String → String
dash_runs skipping String.[] = ""
dash_runs skipping (String.◌∷◌ c s) =
    let kept = dash_runs false s in
    let skipped = dash_runs true s in
    if is_slug_char (code c)
    then String.◌∷◌ c kept
    else if skipping
    then skipped
    else concat "-" skipped

-- `.replace(/^-+|-+$/g, '')`
unfoldable pub drop_dashes : String → String
drop_dashes String.[] = ""
drop_dashes (String.◌∷◌ c s) = if code c == 45 then drop_dashes s else String.◌∷◌ c s

unfoldable pub drop_last_dashes : String → String
drop_last_dashes String.[] = ""
drop_last_dashes (String.◌∷◌ c s) =
    let rest = drop_last_dashes s in
    if code c == 45 && str_eq rest "" then "" else String.◌∷◌ c rest

unfoldable pub first_chars : ℕ → String → String
first_chars zero s = ""
first_chars (suc n) String.[] = ""
first_chars (suc n) (String.◌∷◌ c s) = String.◌∷◌ c (first_chars n s)

abbrev or_app : String → String
or_app s = if str_eq s "" then "app" else s

-- The base of the slug, with the lower case of a text as a parameter.
unfoldable pub slug_base : (String → String) → String → String
unfolding dash_runs drop_dashes drop_last_dashes first_chars
slug_base lower name =
    or_app (first_chars 48 (drop_last_dashes (drop_dashes (dash_runs false (lower (trim name))))))

abbrev pub digit : ℕ → String
digit d =
    if d == 0
    then "0"
    else if d == 1
    then "1"
    else if d == 2
    then "2"
    else if d == 3
    then "3"
    else if d == 4
    then "4"
    else if d == 5
    then "5"
    else if d == 6
    then "6"
    else if d == 7
    then "7"
    else if d == 8
    then "8"
    else "9"

-- A number in decimal; as many rounds as the number are enough.
unfoldable pub decimal_in : ℕ → ℕ → String
decimal_in zero n = digit n
decimal_in (suc f) n =
    let rest = concat (decimal_in f (n / 10)) (digit (n % 10)) in if ltb n 10 then digit n else rest

unfoldable pub decimal : ℕ → String
unfolding decimal_in
decimal n = decimal_in n n

-- The candidate for a suffix; the first has none.
unfoldable pub candidate : String → ℕ → String
unfolding decimal
candidate base suffix = if suffix == 1 then base else concat base (concat "-" (decimal suffix))

-- The loop, with the slugs that exist; none is a run out of fuel.
unfoldable pub unique_from : ℕ → String → ℕ → List String → Option String
unfolding candidate has
unique_from zero base suffix used = none
unique_from (suc fuel) base suffix used =
    let next = unique_from fuel base (suc suffix) used in
    if has (candidate base suffix) used then next else some (candidate base suffix)
