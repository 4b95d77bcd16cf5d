-- ===== src/Tests/Specs.antt =====
-- Tests and witnesses for app specs, records and seed rows.
use gomer.Base.{
  ℕ, suc, ◌+◌, ◌-◌, ◌*◌, ◌≤◌, ◌≡◌, ◌↔◌, refl, Bool, true, false, ◌&&◌, Option, none, some, List, [],
  ◌∷◌, ◌++◌, All, length, leb, ◌==◌, if◌then◌else◌,
}
use gomer.Base.Text.{String, codes, ne_of_text}
use gomer.Spaces.Json.{
  Value, null, bool, num, str, arr, obj, Items, nil, cons, Props, end, prop, Numbers,
}
use gomer.Base.Answers.{given}
use gomer.Spaces.Checks.{has, field_at, view_at, duplicated, no_such_entity}
use gomer.Spaces.Spec.{validate_app_spec}
use gomer.Spaces.Spec.WellFormed.{IsAppSpec}
use gomer.Spaces.Spec.Iff.{validate_app_spec_iff}
use gomer.Spaces.Records.{
  FieldType, string, number_type, select, reference, FieldSpec, EntitySpec, missing, not_option,
  validate_record_data, cleaned, invalid,
}
use gomer.Spaces.Records.Entries.{Conforms}
use gomer.Spaces.Records.Conforms.{validate_record_data-Conforms}
use gomer.Spaces.Seeds.{AppSpec, SeedRecord, prepare_seed_records, prepared, max_seed_records}
use gomer.Spaces.Seeds.Names.{tags}
use gomer.Spaces.Seeds.Prepared.{HaveDistinct, IsPrepared, prepare_seed_records-IsPrepared}
use gomer.Spaces.Rows.{Space}
use gomer.Spaces.Slug.{slug_base, unique_from}
use gomer.Spaces.Slug.Unique.{unique_from_total}
use gomer.Spaces.Apps.{Tables, Seeded, slugs, seed_rows, create_from_spec}
use gomer.Spaces.Accepted.{spec_of}
use gomer.Spaces.Apps.Specs.{create_from_spec-Created}

abbrev text_field : String → Value ℕ
text_field name =
    obj (prop "name" (str name) (prop "label" (str "Title") (prop "type" (str "string") end)))

abbrev entity_value : String → Items ℕ → Value ℕ
entity_value name fields =
    obj (prop "name" (str name) (prop "label" (str "Task") (prop "fields" (arr fields) end)))

abbrev table_of : String → Value ℕ
table_of entity =
    obj (prop "type" (str "table") (prop "title" (str "All") (prop "entity" (str entity) end)))

abbrev spec_value : Items ℕ → Items ℕ → Value ℕ
spec_value entities views = obj (
    prop "name" (str "Plan") (
      prop "entities" (arr entities) (
        prop "views" (arr views) (
          prop "auth" (obj (prop "mode" (str "magic-link") (prop "allowSignup" (bool false) end)))
            end))))

abbrev plan_value : Value ℕ
plan_value =
    spec_value (cons (entity_value "Task" (cons (text_field "title") nil)) nil)
      (cons (table_of "Task") nil)

plan_accepted : validate_app_spec plan_value ≡ []
unfolding validate_app_spec
plan_accepted = refl

plan_rejected :
    validate_app_spec (
      spec_value
        (cons (entity_value "Task" (cons (text_field "title") (cons (text_field "title") nil))) nil)
        (cons (table_of "Phase") nil))
    ≡ (field_at 0 1, duplicated "title") ∷ (view_at 0, no_such_entity) ∷ []
unfolding validate_app_spec
plan_rejected = refl

validate_app_spec_iff_example :
    (validate_app_spec plan_value ≡ [])
    ↔ ((ps : Props ℕ) × (names : List String) × (plan_value ≡ obj ps) × IsAppSpec ps names)
validate_app_spec_iff_example = validate_app_spec_iff plan_value

abbrev digits_of : ℕ → List ℕ → Option ℕ
digits_of acc [] = some acc
digits_of acc (c ∷ cs) = if leb 48 c && leb c 57 then digits_of (acc * 10 + (c - 48)) cs else none

-- Whole numbers, written with one digit.
abbrev whole_numbers : Numbers
whole_numbers = record {
  Num = ℕ;
  number_of = λ s. digits_of 0 (codes s);
  show_number = λ n. if n == 2 then "2" else "1";
  is_zero = λ n. n == 0;
  zero_number = 0;
  one_number = 1;
}

abbrev field : String → FieldType → Bool → FieldSpec
field name type required = record {
  name = name;
  label = name;
  type = type;
  required = required;
  options = some ("To do" ∷ "Done" ∷ []);
  ref_entity = some "Phase";
}

abbrev phase : EntitySpec
phase = record { name = "Phase"; label = "Phase"; fields = field "title" string true ∷ [] }

abbrev task : EntitySpec
task = record {
  name = "Task";
  label = "Task";
  fields =
      field "title" string true
      ∷ field "status" select false
      ∷ field "phase" reference false
      ∷ field "hours" number_type false
      ∷ [];
}

abbrev task_row : Value ℕ
task_row = obj (
    prop "hours" (str "2") (
      prop "title" (str "Open the ad account")
        (prop "phase" (str "setup") (prop "unknown" null end))))

abbrev task_record : List (String × Value ℕ)
task_record = ("title", str "Open the ad account") ∷ ("phase", str "setup") ∷ ("hours", num 2) ∷ []

task_cleaned : validate_record_data whole_numbers task task_row ≡ cleaned task_record
unfolding validate_record_data
task_cleaned = refl

task_invalid :
    validate_record_data whole_numbers task (obj (prop "status" (str "Later") end))
    ≡ invalid (missing "title" ∷ not_option "status" ∷ [])
unfolding validate_record_data
task_invalid = refl

-- An empty list is no missing value, and becomes the empty text.
empty_list_passes :
    validate_record_data whole_numbers phase (obj (prop "title" (arr nil) end))
    ≡ cleaned (("title", str "") ∷ [])
unfolding validate_record_data
empty_list_passes = refl

-- A required field with the name of a function that objects inherit is never missing.
inherited_passes :
    validate_record_data whole_numbers
      (record { name = "A"; label = "A"; fields = field "valueOf" string true ∷ [] })
      (obj end)
    ≡ cleaned (("valueOf", str "function valueOf() { [native code] }") ∷ [])
unfolding validate_record_data
inherited_passes = refl

validate_record_data-Conforms_example : Conforms task.fields task_record
validate_record_data-Conforms_example =
    validate_record_data-Conforms whole_numbers task task_row task_record task_cleaned

abbrev plan : AppSpec
plan = record {
  name = "Plan";
  description = none;
  entities = phase ∷ task ∷ [];
  allow_signup = false;
}

abbrev ids : ℕ → String
ids n = if n == 0 then "id0" else "id1"

abbrev setup_lower : String → String
setup_lower s = s

abbrev plan_rows : Value ℕ
plan_rows = obj (
    prop "Phase" (arr (cons (obj (prop "title" (str " setup") end)) nil)) (
      prop "Task"
        (arr (cons (obj (prop "title" (str "Open") (prop "phase" (str "setup") end))) nil)) end))

abbrev phase_seed : SeedRecord ℕ
phase_seed = record { id = "id0"; entity_name = "Phase"; fields = ("title", str " setup") ∷ [] }

abbrev task_seed : SeedRecord ℕ
task_seed = record {
  id = "id1";
  entity_name = "Task";
  fields = ("title", str "Open") ∷ ("phase", str "id0") ∷ [];
}

rows_prepared :
    prepare_seed_records whole_numbers ids setup_lower plan (some plan_rows) []
    ≡ prepared (phase_seed ∷ task_seed ∷ [])
unfolding prepare_seed_records
rows_prepared = refl

plan_distinct : HaveDistinct plan.entities
plan_distinct = (
  (tt, tt),
  (
    (
      (
        ne_of_text "status" "title" refl,
        (ne_of_text "phase" "title" refl, (ne_of_text "hours" "title" refl, tt)),
      ),
      (
        (ne_of_text "phase" "status" refl, (ne_of_text "hours" "status" refl, tt)),
        ((ne_of_text "hours" "phase" refl, tt), (tt, tt)),
      ),
    ),
    tt,
  ),
)

prepare_seed_records-IsPrepared_example :
    (length (phase_seed ∷ task_seed ∷ []) ≤ max_seed_records)
    × All
        (IsPrepared whole_numbers ids setup_lower plan.entities
          (tags (phase_seed ∷ task_seed ∷ [])))
        (phase_seed ∷ task_seed ∷ [])
prepare_seed_records-IsPrepared_example =
    prepare_seed_records-IsPrepared whole_numbers ids setup_lower plan (some plan_rows) []
      (phase_seed ∷ task_seed ∷ []) plan_distinct rows_prepared

abbrev titles : Value ℕ
titles = obj (prop "Task" (arr (cons (obj (prop "title" (str "Open") end)) nil)) end)

abbrev open_seed : SeedRecord ℕ
open_seed = record { id = "id0"; entity_name = "Task"; fields = ("title", str "Open") ∷ [] }

titles_prepared :
    prepare_seed_records whole_numbers ids setup_lower (spec_of plan_value) (some titles) []
    ≡ prepared (open_seed ∷ [])
unfolding prepare_seed_records spec_of
titles_prepared = refl

-- There is a Space of the same name at the plain slug.
abbrev old_space : Space
old_space = record {
  id = "S0";
  workspace_id = "W2";
  slug = "lan";
  name = "Plan";
  description = none;
  is_published = true;
  is_page = false;
  spec = plan;
}

abbrev taken : Tables whole_numbers setup_lower
taken = record { spaces = old_space ∷ []; records = [] }

create_from_spec-Created_example :
    (r : Seeded whole_numbers setup_lower) × (create_from_spec whole_numbers setup_lower ids 9 "S1"
        "W1" plan_value
        (some titles)
        taken
      ≡ given r)
    × (has r.space.slug (slugs whole_numbers setup_lower taken) ≡ false)
    × (r.added ≡ length (open_seed ∷ []))
    × (r.added ≤ max_seed_records)
    × All
        (IsPrepared whole_numbers ids setup_lower
          (spec_of plan_value).entities
          (tags (open_seed ∷ [])))
        (open_seed ∷ [])
    × (r.tables.spaces ≡ taken.spaces ++ r.space ∷ [])
    × (r.tables.records
        ≡ taken.records ++ seed_rows whole_numbers setup_lower 9 "S1" (open_seed ∷ []))
create_from_spec-Created_example =
    create_from_spec-Created whole_numbers setup_lower ids 9 "S1" "W1" plan_value (some titles)
      taken (open_seed ∷ []) plan_accepted titles_prepared

slug_second : unique_from 2 "plan" 1 ("plan" ∷ []) ≡ some "plan-2"
unfolding unique_from
slug_second = refl

slug_of_name : slug_base setup_lower " a & bc -- " ≡ "a-bc"
unfolding slug_base
slug_of_name = refl

abbrev two_slugs : List String
two_slugs = "plan" ∷ "plan-2" ∷ []

unique_from_total_example :
    (s : String) × (unique_from (suc (length two_slugs)) "plan" 1 two_slugs ≡ some s)
    × (has s two_slugs ≡ false)
unique_from_total_example = unique_from_total "plan" two_slugs
