-- ===== src/Spaces/Seeds.antt =====
-- `prepareSeedRecords` and `resolveReferences` (src/spaces/spec/seed-records.ts). Taken as parameters:
-- `randomUUID`, the ids of the rows of one call in their order, and the lower case of a text.
pub mod Names
pub mod Links
pub mod Drafts
pub mod Prepared
use gomer.Base.{
  ℕ, suc, ◌+◌, Bool, true, false, not, ◌&&◌, ◌||◌, Option, none, some, List, [], ◌∷◌, ◌++◌, map,
  keep, find, length, sum_of, ltb, if◌then◌else◌,
}
use gomer.Base.Text.{String, str_eq, truthy, trim}
use gomer.Spaces.Json.{Value, null, bool, num, str, arr, obj, native, Props, Numbers, items, props}
use gomer.Spaces.Checks.{has, text_of, array_of, listed}
use gomer.Spaces.Records.{
  FieldType, string, text, reference, FieldSpec, EntitySpec, RecordError, RecordResult, cleaned,
  invalid, not_an_object, type_error, put, validate_record_data,
}

-- What seeds and records read of a spec.
pub record AppSpec : Type 0 where
  pub name : String
  pub description : Option String
  pub entities : List EntitySpec
  pub allow_signup : Bool

abbrev pub max_seed_records : ℕ
max_seed_records = 200

pub record SeedRecord (N : Type 0) : Type 0 where
  pub id : String
  pub entity_name : String
  pub fields : List (String × Value N)

-- Where a row stands in the input: its entity and its index.
abbrev pub RowPlace : Type 0
RowPlace = String × ℕ

pub data SeedError : Type 0 where
  no_entity : String → SeedError
  not_list : String → SeedError
  row_not_object : RowPlace → SeedError
  unknown_fields : RowPlace → List String → SeedError
  no_values : RowPlace → SeedError
  bad_value : RowPlace → RecordError → SeedError
  row_throws : RowPlace → SeedError
  no_target : RowPlace → String → String → SeedError

pub data SeedResult (N : Type 0) : Type 0 where
  prepared : List (SeedRecord N) → SeedResult N
  not_map : SeedResult N
  too_many : ℕ → SeedResult N
  invalid_rows : List SeedError → SeedResult N

abbrev pub entity_named : List EntitySpec → String → Option EntitySpec
entity_named es n = find (λ e. str_eq e.name n) es

abbrev is_label : FieldType → Bool
is_label string = true
is_label text = true
is_label _ = false

-- `labelFieldOf`
unfoldable pub label_field_of : List FieldSpec → Option FieldSpec
label_field_of fs = find (λ f. is_label f.type) fs

abbrev pub is_reference : FieldType → Bool
is_reference reference = true
is_reference _ = false

-- `field.refEntity ?? ''`
abbrev pub target_of : Option String → String
target_of none = ""
target_of (some e) = e

-- `entity?.fields ?? []`
abbrev pub fields_of : Option EntitySpec → List FieldSpec
fields_of none = []
fields_of (some e) = e.fields

-- The variables of the loop over the rows.
pub record SeedDraft (N : Type 0) : Type 0 where
  pub seeds : List (SeedRecord N × RowPlace)
  pub errors : List SeedError

module _ {N : Type 0} where
  unfoldable pub value_at : String → List (String × Value N) → Option (Value N)
  value_at k [] = none
  value_at k ((j, v) ∷ c) = if str_eq j k then some v else value_at k c

  -- The key's text, if it holds one; what objects inherit is no text.
  unfoldable pub text_at : String → List (String × Value N) → Option String
  unfolding value_at text_of
  text_at k c = text_of (value_at k c)

  abbrev pub row_count : Value N → ℕ
  row_count v = length (listed (array_of (some v)))

  abbrev pub add_error : SeedError → SeedDraft N → SeedDraft N
  add_error e d = record d { errors = d.errors ++ e ∷ [] }

module _ (numbers : Numbers) (uuid : ℕ → String) (lower : String → String) where
  open numbers use {Num}

  -- What a row adds once it is validated.
  abbrev pub add_cleaned : RowPlace → RecordResult numbers → SeedDraft Num → SeedDraft Num
  add_cleaned at (cleaned []) d = add_error (no_values at) d
  add_cleaned at (cleaned (entry ∷ entries)) d = record d {
    seeds =
        d.seeds
        ++ (record { id = uuid (length d.seeds); entity_name = at.0; fields = entry ∷ entries }, at)
          ∷ [];
  }
  add_cleaned at (invalid es) d = record d { errors = d.errors ++ map (bad_value at) es }
  add_cleaned at not_an_object d = add_error (row_throws at) d
  add_cleaned at type_error d = add_error (row_throws at) d

  abbrev pub unknown_keys : EntitySpec → Props Num → List String
  unknown_keys entity ps =
      keep (λ k. not (has k (map (λ (f : FieldSpec). f.name) entity.fields)))
        (map (λ entry. entry.0) (props ps))

  abbrev pub with_known : List String → RowPlace → SeedDraft Num → SeedDraft Num → SeedDraft Num
  with_known [] at added d = added
  with_known (k ∷ ks) at added d = add_error (unknown_fields at (k ∷ ks)) d

  -- One row.
  unfoldable pub add_row : EntitySpec → RowPlace → Value Num → SeedDraft Num → SeedDraft Num
  unfolding has validate_record_data
  add_row entity at (obj ps) d =
      with_known (unknown_keys entity ps) at
        (add_cleaned at (validate_record_data numbers entity (obj ps)) d) d
  add_row entity at _ d = add_error (row_not_object at) d

  unfoldable pub add_rows :
      EntitySpec → String → ℕ → List (Value Num) → SeedDraft Num → SeedDraft Num
  unfolding add_row
  add_rows entity name i [] d = d
  add_rows entity name i (v ∷ vs) d = add_rows entity name (suc i) vs (add_row entity (name, i) v d)

  abbrev pub add_for : String → Option EntitySpec → Value Num → SeedDraft Num → SeedDraft Num
  add_for name none v d = add_error (no_entity name) d
  add_for name (some entity) (arr vs) d = add_rows entity name 0 (items vs) d
  add_for name (some entity) _ d = add_error (not_list name) d

  -- The loop over the entities of the input.
  unfoldable pub add_entities :
      List EntitySpec → List (String × Value Num) → SeedDraft Num → SeedDraft Num
  unfolding add_rows
  add_entities es [] d = d
  add_entities es ((name, v) ∷ rest) d =
      add_entities es rest (add_for name (entity_named es name) v d)

  -- The map from an entity and a row's name, in lower case, to the row's id.
  abbrev pub NameMap : Type 0
  NameMap = List ((String × String) × String)

  unfoldable pub id_named : String → String → NameMap → Option String
  id_named entity key [] = none
  id_named entity key (((e, k), id) ∷ m) =
      if str_eq e entity && str_eq k key then some id else id_named entity key m

  abbrev pub row_key : String → String
  row_key label = lower (trim label)

  abbrev pub add_key : Option String → String → String → String → NameMap → NameMap
  add_key none entity key id m = m ++ ((entity, key), id) ∷ []
  add_key (some old) entity key id m = m

  -- The label of a row, if its entity has a label field and it is not blank.
  abbrev pub label_in : Option FieldSpec → SeedRecord Num → Option String
  label_in none row = none
  label_in (some f) row = text_at f.name row.fields

  abbrev pub label_of : Option EntitySpec → SeedRecord Num → Option String
  label_of none row = none
  label_of (some e) row = label_in (label_field_of e.fields) row

  abbrev pub add_label : Option String → SeedRecord Num → NameMap → NameMap
  add_label none row m = m
  add_label (some label) row m =
      if str_eq (trim label) ""
      then m
      else add_key (id_named row.entity_name (row_key label) m) row.entity_name (row_key label)
          row.id m

  unfoldable pub names_of : List EntitySpec → List (SeedRecord Num) → NameMap → NameMap
  unfolding text_at label_field_of id_named
  names_of es [] m = m
  names_of es (row ∷ rows) m =
      names_of es rows (add_label (label_of (entity_named es row.entity_name) row) row m)

  -- One row while its references are resolved, and the errors of all rows.
  pub record Linking : Type 0 where
    pub fields : List (String × Value Num)
    pub errors : List SeedError

  abbrev pub put_id : Option String → RowPlace → FieldSpec → String → Linking → Linking
  put_id none at f name s = record s { errors = s.errors ++ no_target at f.name name ∷ [] }
  put_id (some id) at f name s = record s { fields = put f.name (str id) s.fields }

  abbrev pub link_text : NameMap → RowPlace → FieldSpec → Option String → Linking → Linking
  link_text m at f none s = s
  link_text m at f (some name) s =
      put_id (truthy (id_named (target_of f.ref_entity) (row_key name) m)) at f name s

  -- One field of a row.
  unfoldable pub link_field : NameMap → RowPlace → FieldSpec → Linking → Linking
  unfolding text_at id_named put
  link_field m at f s =
      if is_reference f.type then link_text m at f (text_at f.name s.fields) s else s

  unfoldable pub link_fields : NameMap → RowPlace → List FieldSpec → Linking → Linking
  unfolding link_field
  link_fields m at [] s = s
  link_fields m at (f ∷ fs) s = link_fields m at fs (link_field m at f s)

  -- The rows with their references resolved, and the errors.
  unfoldable pub resolve_rows :
      List EntitySpec
      → NameMap
      → List (SeedRecord Num × RowPlace)
      → List SeedError
      → List (SeedRecord Num) × List SeedError
  unfolding link_fields
  resolve_rows es m [] errors = ([], errors)
  resolve_rows es m ((seed, at) ∷ seeds) errors =
      let linked =
        link_fields m at (fields_of (entity_named es seed.entity_name))
          (record { fields = seed.fields; errors = errors }) in
      let rest = resolve_rows es m seeds linked.errors in
      (record seed { fields = linked.fields } ∷ rest.0, rest.1)

  unfoldable pub resolve_references :
      List EntitySpec
      → List (SeedRecord Num)
      → SeedDraft Num
      → List (SeedRecord Num) × List SeedError
  unfolding names_of resolve_rows
  resolve_references es existing d =
      resolve_rows es (names_of es (map (λ s. s.0) d.seeds ++ existing) []) d.seeds d.errors

  abbrev pub seed_result : List (SeedRecord Num) × List SeedError → SeedResult Num
  seed_result (seeds, []) = prepared seeds
  seed_result (seeds, e ∷ es) = invalid_rows (e ∷ es)

  abbrev pub draft_of : AppSpec → Props Num → SeedDraft Num
  draft_of spec ps = add_entities spec.entities (props ps) (record { seeds = []; errors = [] })

  unfoldable pub prepare_seed_records :
      AppSpec → Option (Value Num) → List (SeedRecord Num) → SeedResult Num
  unfolding add_entities resolve_references array_of
  prepare_seed_records spec none existing = prepared []
  prepare_seed_records spec (some null) existing = prepared []
  prepare_seed_records spec (some (obj ps)) existing =
      let total = sum_of (λ entry. row_count entry.1) (props ps) in
      if ltb max_seed_records total
      then too_many total
      else seed_result (resolve_references spec.entities existing (draft_of spec ps))
  prepare_seed_records spec (some _) existing = not_map
