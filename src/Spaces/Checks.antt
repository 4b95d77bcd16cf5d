-- ===== src/Spaces/Checks.antt =====
-- The tests that the validators of src/spaces/spec/validate-spec.ts make on one value, and the errors
-- that they push. An error is where it is and what is wrong.
use gomer.Base.{
  ℕ, Bool, true, false, not, ◌&&◌, ◌||◌, Option, none, some, List, [], ◌∷◌, ◌++◌, all, is_some, leb,
  ◌==◌, if◌then◌else◌,
}
use gomer.Base.Text.{String, str_eq, codes, trim}
use gomer.Spaces.Json.{Value, bool, str, arr, obj, Items, Props, items}

pub data Place : Type 0 where
  whole : Place
  entity_at : ℕ → Place
  field_at : ℕ → ℕ → Place
  view_at : ℕ → Place
  widget_at : ℕ → ℕ → Place

pub data Fault : Type 0 where
  not_object : Fault
  no_name : Fault
  bad_description : Fault
  no_entities : Fault
  no_views : Fault
  no_auth : Fault
  bad_mode : Fault
  bad_signup : Fault
  not_identifier : Fault
  duplicated : String → Fault
  no_label : Fault
  no_fields : Fault
  bad_type : Fault
  no_options : Fault
  no_ref_entity : Fault
  bad_required : Fault
  no_title : Fault
  no_such_entity : Fault
  no_widgets : Fault
  bad_kind : Fault
  no_sum_field : Fault

abbrev pub Faults : Type 0
Faults = List (Place × Fault)

-- `if (!ok) errors.push(fault)`
abbrev pub require : Bool → Place → Fault → Faults
require true p f = []
require false p f = (p, f) ∷ []

-- `[A-Za-z]` and `[A-Za-z0-9_]`
abbrev pub is_letter : ℕ → Bool
is_letter c = (leb 65 c && leb c 90) || (leb 97 c && leb c 122)

abbrev pub is_word : ℕ → Bool
is_word c = is_letter c || (leb 48 c && leb c 57) || c == 95

abbrev pub starts_word : List ℕ → Bool
starts_word [] = false
starts_word (c ∷ cs) = is_letter c && all is_word cs

-- NAME_RE.test(name)
unfoldable pub is_identifier : String → Bool
is_identifier s = starts_word (codes s)

-- `set.has(name)`
unfoldable pub has : String → List String → Bool
has s [] = false
has s (t ∷ ts) = str_eq s t || has s ts

abbrev pub field_types : List String
field_types =
    "string" ∷ "text" ∷ "number" ∷ "date" ∷ "datetime" ∷ "boolean" ∷ "select" ∷ "reference" ∷ []

abbrev pub widget_kinds : List String
widget_kinds = "count" ∷ "sum" ∷ "list" ∷ []

-- A text that is not blank.
unfoldable pub filled : Option String → Bool
filled none = false
filled (some s) = not (str_eq (trim s) "")

-- `value === text`
unfoldable pub same : String → Option String → Bool
same t none = false
same t (some s) = str_eq s t

unfoldable pub among : List String → Option String → Bool
unfolding has
among names none = false
among names (some s) = has s names

-- The check of a name.
unfoldable pub name_faults : Place → List String → Option String → Faults
unfolding is_identifier has
name_faults p names none = (p, not_identifier) ∷ []
name_faults p names (some s) =
    if not (is_identifier s)
    then (p, not_identifier) ∷ []
    else if has s names
    then (p, duplicated s) ∷ []
    else []

-- The names that there are after it.
unfoldable pub add_name : List String → Option String → List String
unfolding is_identifier has
add_name names none = names
add_name names (some s) =
    if not (is_identifier s) then names else if has s names then names else names ++ s ∷ []

module _ {N : Type 0} where
  -- The text, boolean, array or object that a value is, if it is one.
  unfoldable pub text_of : Option (Value N) → Option String
  text_of (some (str s)) = some s
  text_of _ = none

  unfoldable pub bool_of : Option (Value N) → Option Bool
  bool_of (some (bool b)) = some b
  bool_of _ = none

  unfoldable pub array_of : Option (Value N) → Option (Items N)
  array_of (some (arr vs)) = some vs
  array_of _ = none

  unfoldable pub object_of : Option (Value N) → Option (Props N)
  object_of (some (obj ps)) = some ps
  object_of _ = none

  abbrev pub listed : Option (Items N) → List (Value N)
  listed none = []
  listed (some vs) = items vs

  -- The members of an array; none if it is not one.
  unfoldable pub members : Option (Value N) → List (Value N)
  unfolding array_of
  members o = listed (array_of o)

  abbrev pub is_nonempty : List (Value N) → Bool
  is_nonempty [] = false
  is_nonempty (v ∷ vs) = true

  unfoldable pub is_filled : Option (Value N) → Bool
  unfolding text_of filled
  is_filled o = filled (text_of o)

  unfoldable pub is_str : Option (Value N) → Bool
  unfolding text_of
  is_str o = is_some (text_of o)

  unfoldable pub is_bool : Option (Value N) → Bool
  unfolding bool_of
  is_bool o = is_some (bool_of o)

  unfoldable pub equals : String → Option (Value N) → Bool
  unfolding text_of same
  equals t o = same t (text_of o)

  unfoldable pub is_among : List String → Option (Value N) → Bool
  unfolding text_of among
  is_among names o = among names (text_of o)
