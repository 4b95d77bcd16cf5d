-- ===== src/Spaces/Accepted.antt =====
-- What `validateAppSpec` (src/spaces/spec/validate-spec.ts) returns, `input as AppSpec`: a spec that was
-- accepted is read off the value that holds it. An option of a select that is no text is left out,
-- since a text never equals it.
use gomer.Base.{Bool, false, Option, none, some, List, [], ◌∷◌, if◌then◌else◌}
use gomer.Base.Text.{String, str_eq}
use gomer.Base.Answers.{Answer, given, refused, bad_request}
use gomer.Spaces.Json.{Value, str, obj, Props, own}
use gomer.Spaces.Checks.{Faults, text_of, bool_of, members}
use gomer.Spaces.Spec.{validate_app_spec}
use gomer.Spaces.Records.{
  FieldType, string, text, number_type, date, datetime, boolean, select, reference, FieldSpec,
  EntitySpec,
}
use gomer.Spaces.Seeds.{AppSpec}

-- The field type of a name; a spec that was accepted has no other names.
unfoldable pub field_type_of : Option String → FieldType
field_type_of none = string
field_type_of (some s) =
    if str_eq s "text"
    then text
    else if str_eq s "number"
    then number_type
    else if str_eq s "date"
    then date
    else if str_eq s "datetime"
    then datetime
    else if str_eq s "boolean"
    then boolean
    else if str_eq s "select"
    then select
    else if str_eq s "reference"
    then reference
    else string

abbrev pub text_or : Option String → String
text_or none = ""
text_or (some s) = s

abbrev pub is_true : Option Bool → Bool
is_true none = false
is_true (some b) = b

module _ {N : Type 0} where
  unfoldable pub texts : List (Value N) → List String
  texts [] = []
  texts (str s ∷ vs) = s ∷ texts vs
  texts (_ ∷ vs) = texts vs

  unfoldable pub field_of : Props N → FieldSpec
  unfolding own text_of bool_of members texts field_type_of
  field_of ps = record {
    name = text_or (text_of (own "name" ps));
    label = text_or (text_of (own "label" ps));
    type = field_type_of (text_of (own "type" ps));
    required = is_true (bool_of (own "required" ps));
    options = some (texts (members (own "options" ps)));
    ref_entity = text_of (own "refEntity" ps);
  }

  unfoldable pub fields_in : List (Value N) → List FieldSpec
  unfolding field_of
  fields_in [] = []
  fields_in (obj ps ∷ vs) = field_of ps ∷ fields_in vs
  fields_in (_ ∷ vs) = fields_in vs

  unfoldable pub entity_of : Props N → EntitySpec
  unfolding own text_of members fields_in
  entity_of ps = record {
    name = text_or (text_of (own "name" ps));
    label = text_or (text_of (own "label" ps));
    fields = fields_in (members (own "fields" ps));
  }

  unfoldable pub entities_in : List (Value N) → List EntitySpec
  unfolding entity_of
  entities_in [] = []
  entities_in (obj ps ∷ vs) = entity_of ps ∷ entities_in vs
  entities_in (_ ∷ vs) = entities_in vs

  abbrev pub auth_signup : Option (Value N) → Bool
  auth_signup (some (obj ps)) = is_true (bool_of (own "allowSignup" ps))
  auth_signup _ = false

  -- `input as AppSpec`
  unfoldable pub spec_of : Value N → AppSpec
  unfolding own text_of bool_of members entities_in
  spec_of (obj ps) = record {
    name = text_or (text_of (own "name" ps));
    description = text_of (own "description" ps);
    entities = entities_in (members (own "entities" ps));
    allow_signup = auth_signup (own "auth" ps);
  }
  spec_of _ = record { name = ""; description = none; entities = []; allow_signup = false }

  abbrev pub unless_faults : Faults → Value N → Answer AppSpec
  unless_faults [] v = given (spec_of v)
  unless_faults (f ∷ fs) v = refused bad_request

  -- `validateAppSpec`, which returns its input or throws.
  unfoldable pub accepted_spec : Value N → Answer AppSpec
  unfolding validate_app_spec spec_of
  accepted_spec v = unless_faults (validate_app_spec v) v
