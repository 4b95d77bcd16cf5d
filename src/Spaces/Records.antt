-- ===== src/Spaces/Records.antt =====
-- The entities of a spec (src/spaces/spec/app-spec.ts), and `validateRecordData` with
-- `coerceFieldValue` (src/spaces/spec/validate-spec.ts).
pub mod Entries
pub mod Fields
pub mod Conforms
use gomer.Base.{Bool, true, false, Option, none, some, List, [], ◌∷◌, ◌++◌, if◌then◌else◌}
use gomer.Base.Text.{String, str_eq}
use gomer.Spaces.Json.{Value, null, bool, num, str, arr, obj, native, Props, Numbers}
use gomer.Spaces.Checks.{has}
use gomer.Spaces.Convert.{read, to_text, Numeric, number, nan, throws, to_number, to_bool}

pub data FieldType : Type 0 where
  string text number_type date datetime boolean select reference : FieldType

-- A missing `required` is false.
pub record FieldSpec : Type 0 where
  pub name : String
  pub label : String
  pub type : FieldType
  pub required : Bool
  pub options : Option (List String)
  pub ref_entity : Option String

pub record EntitySpec : Type 0 where
  pub name : String
  pub label : String
  pub fields : List FieldSpec

pub data RecordError : Type 0 where
  missing : String → RecordError
  not_number : String → RecordError
  not_option : String → RecordError

-- `options?.includes(value)`
abbrev pub includes : Option (List String) → String → Bool
includes none s = false
includes (some os) s = has s os

-- `clean[key] = value`
unfoldable pub put :
    {N : Type 0} → String → Value N → List (String × Value N) → List (String × Value N)
put k v [] = (k, v) ∷ []
put k v ((j, w) ∷ c) = if str_eq j k then (j, v) ∷ c else (j, w) ∷ put k v c

module _ (numbers : Numbers) where
  open numbers use {Num}

  pub data Coerced : Type 0 where
    value : Value Num → Coerced
    wrong : RecordError → Coerced
    fails : Coerced

  abbrev pub number_field : String → Numeric numbers → Coerced
  number_field name (number n) = value (num n)
  number_field name nan = wrong (not_number name)
  number_field name throws = fails

  abbrev pub text_value : Option String → Coerced
  text_value none = fails
  text_value (some s) = value (str s)

  abbrev pub select_field : FieldSpec → Option String → Coerced
  select_field f none = fails
  select_field f (some s) =
      if includes f.options s then value (str s) else wrong (not_option f.name)

  abbrev pub coerce_as : FieldType → FieldSpec → Value Num → Coerced
  coerce_as number_type f raw = number_field f.name (to_number numbers raw)
  coerce_as boolean f raw = value (bool (to_bool numbers raw))
  coerce_as select f raw = select_field f (to_text numbers raw)
  coerce_as _ f raw = text_value (to_text numbers raw)

  unfoldable pub coerce_field_value : FieldSpec → Value Num → Coerced
  unfolding to_number to_text to_bool has
  coerce_field_value f raw = coerce_as f.type f raw

  -- The variables of the loop; the loop may throw.
  pub record Draft : Type 0 where
    pub clean : List (String × Value Num)
    pub errors : List RecordError

  abbrev pub add_coerced : String → Coerced → Draft → Option Draft
  add_coerced name (value v) d = some (record d { clean = put name v d.clean })
  add_coerced name (wrong e) d = some (record d { errors = d.errors ++ e ∷ [] })
  add_coerced name fails d = none

  abbrev pub missed : Bool → String → Draft → Draft
  missed true name d = record d { errors = d.errors ++ missing name ∷ [] }
  missed false name d = d

  -- `if (field.required) errors.push(…)`
  abbrev pub add_missing : FieldSpec → Draft → Draft
  add_missing f d = missed f.required f.name d

  -- One field, with what the data hold for it.
  unfoldable pub check_field : FieldSpec → Option (Value Num) → Draft → Option Draft
  unfolding coerce_field_value put
  check_field f none d = some (add_missing f d)
  check_field f (some null) d = some (add_missing f d)
  check_field f (some (str s)) d =
      if str_eq s ""
      then some (add_missing f d)
      else add_coerced f.name (coerce_field_value f (str s)) d
  check_field f (some raw) d = add_coerced f.name (coerce_field_value f raw) d

  abbrev pub and_then : Option Draft → (Draft → Option Draft) → Option Draft
  and_then none k = none
  and_then (some d) k = k d

  unfoldable pub check_fields : List FieldSpec → Props Num → Draft → Option Draft
  unfolding check_field read
  check_fields [] ps d = some d
  check_fields (f ∷ fs) ps d = and_then (check_field f (read f.name ps) d) (check_fields fs ps)

  pub data RecordResult : Type 0 where
    cleaned : List (String × Value Num) → RecordResult
    invalid : List RecordError → RecordResult
    not_an_object : RecordResult
    type_error : RecordResult

  abbrev pub settled : List RecordError → List (String × Value Num) → RecordResult
  settled [] clean = cleaned clean
  settled (e ∷ es) clean = invalid (e ∷ es)

  abbrev pub record_result : Option Draft → RecordResult
  record_result none = type_error
  record_result (some d) = settled d.errors d.clean

  unfoldable pub validate_record_data : EntitySpec → Value Num → RecordResult
  unfolding check_fields
  validate_record_data entity (obj ps) =
      record_result (check_fields entity.fields ps (record { clean = []; errors = [] }))
  validate_record_data entity _ = not_an_object
