-- ===== src/Spaces/Apps.antt =====
-- The apps and their records in `SpacesService` (src/spaces/spaces.service.ts).
pub mod Specs
use gomer.Base.{
  ℕ, suc, ◌+◌, ◌-◌, ◌≡◌, Bool, true, false, not, ◌&&◌, ◌||◌, Option, none, some, is_some, List, [],
  ◌∷◌, ◌++◌, find, map, keep, any, length, ltb, leb, ◌==◌, if◌then◌else◌,
}
use gomer.Base.Text.{String, str_eq, truthy}
use gomer.Base.Answers.{
  Answer, given, refused, Refusal, not_found, bad_request, ◌>>=◌, ◌>>◌, or_refuse, guard,
}
use gomer.Spaces.Json.{Value, null, bool, num, str, arr, obj, native, Props, Numbers, own, items}
use gomer.Spaces.Checks.{Faults, has, text_of, bool_of, array_of, members}
use gomer.Spaces.Spec.{validate_app_spec}
use gomer.Spaces.Records.{
  FieldType, string, text, number_type, date, datetime, boolean, select, reference, FieldSpec,
  EntitySpec, RecordResult, cleaned, invalid, not_an_object, type_error, validate_record_data,
}
use gomer.Spaces.Seeds.{
  AppSpec, SeedRecord, SeedResult, prepared, not_map, too_many, invalid_rows, entity_named,
  prepare_seed_records,
}
use gomer.Spaces.Rows.{Space, SpaceRecord}
use gomer.Spaces.Slug.{slug_base, unique_from}
use gomer.Spaces.Accepted.{
  field_type_of, text_or, is_true, texts, field_of, fields_in, entity_of, entities_in, auth_signup,
  spec_of, unless_faults, accepted_spec,
}

module _ (numbers : Numbers) (lower : String → String) where
  open numbers use {Num}

  abbrev pub Rows : Type 0
  Rows = List (SpaceRecord (List (String × Value Num)))

  pub record Tables : Type 0 where
    pub spaces : List Space
    pub records : Rows

  -- What a seeding writes, newest first in the list that the app shows: each row a millisecond older.
  unfoldable pub seed_rows : ℕ → String → List (SeedRecord Num) → Rows
  seed_rows now space_id [] = []
  seed_rows now space_id (s ∷ seeds) =
      record {
        id = s.id;
        space_id = space_id;
        entity_name = s.entity_name;
        fields = s.fields;
        created_by = none;
        created_at = now;
      }
      ∷ seed_rows (now - 1) space_id seeds

  abbrev pub prepared_rows : SeedResult Num → Answer (List (SeedRecord Num))
  prepared_rows (prepared rows) = given rows
  prepared_rows _ = refused bad_request

  pub record Seeded : Type 0 where
    pub space : Space
    pub added : ℕ
    pub tables : Tables

  abbrev pub slugs : Tables → List String
  slugs t = map (λ (s : Space). s.slug) t.spaces

  -- `uniqueSlug`
  unfoldable pub unique_slug : String → Tables → Option String
  unfolding slug_base unique_from
  unique_slug name t = unique_from (suc (length (slugs t))) (slug_base lower name) 1 (slugs t)

  -- The Space and its rows, in one transaction.
  abbrev pub insert_space :
      ℕ → String → String → AppSpec → String → List (SeedRecord Num) → Tables → Seeded
  insert_space now new_id workspace_id spec slug seeds t =
      let space : Space = record {
        id = new_id;
        workspace_id = workspace_id;
        slug = slug;
        name = spec.name;
        description = spec.description;
        is_published = true;
        is_page = false;
        spec = spec;
      } in
      record {
        space = space;
        added = length seeds;
        tables = record {
          spaces = t.spaces ++ space ∷ [];
          records = t.records ++ seed_rows now new_id seeds;
        };
      }

  -- `createFromSpec`, with the ids that are generated.
  unfoldable pub create_from_spec :
      (ℕ → String) → ℕ → String → String → Value Num → Option (Value Num) → Tables → Answer Seeded
  unfolding accepted_spec prepare_seed_records unique_slug seed_rows
  create_from_spec uuid now new_id workspace_id spec_input records_input t = do
    spec ← accepted_spec spec_input
    seeds ← prepared_rows (prepare_seed_records numbers uuid lower spec records_input [])
    slug ← or_refuse (unique_slug spec.name t) bad_request
    given (insert_space now new_id workspace_id spec slug seeds t)

  -- `findAppForWorkspace`
  unfoldable pub find_app_for_workspace : String → String → Tables → Answer Space
  find_app_for_workspace workspace_id slug t = do
    space ←
        or_refuse (find (λ s. str_eq s.slug slug && str_eq s.workspace_id workspace_id) t.spaces)
          not_found
    guard (not space.is_page) bad_request
    given space

  -- The entities that the references of a spec name.
  abbrev pub reference_target : FieldSpec → List String
  reference_target f = elim f.type [
    | reference ↦ elim (truthy f.ref_entity) [ none ↦ [] | some e ↦ e ∷ [] ]
    | _ ↦ []
  ]

  unfoldable pub targets_in : List FieldSpec → List String
  targets_in [] = []
  targets_in (f ∷ fs) = reference_target f ++ targets_in fs

  unfoldable pub targets : List EntitySpec → List String
  unfolding targets_in
  targets [] = []
  targets (e ∷ es) = targets_in e.fields ++ targets es

  abbrev pub as_seed : SpaceRecord (List (String × Value Num)) → SeedRecord Num
  as_seed r = record { id = r.id; entity_name = r.entity_name; fields = r.fields }

  -- The rows that a reference of the spec may name.
  unfoldable pub existing_rows : Space → Tables → List (SeedRecord Num)
  unfolding targets has
  existing_rows space t = map as_seed (
      keep (λ r. str_eq r.space_id space.id && has r.entity_name (targets space.spec.entities))
        t.records)

  abbrev pub add_seeds : ℕ → Space → List (SeedRecord Num) → Tables → Answer Seeded
  add_seeds now space [] t = refused bad_request
  add_seeds now space (s ∷ seeds) t = given (record {
    space = space;
    added = suc (length seeds);
    tables = record t { records = t.records ++ seed_rows now space.id (s ∷ seeds) };
  })

  -- `addRecords`
  unfoldable pub add_records :
      (ℕ → String) → ℕ → String → String → Option (Value Num) → Tables → Answer Seeded
  unfolding find_app_for_workspace existing_rows prepare_seed_records seed_rows
  add_records uuid now workspace_id slug records_input t = do
    space ← find_app_for_workspace workspace_id slug t
    seeds ←
        prepared_rows
          (prepare_seed_records numbers uuid lower space.spec records_input (existing_rows space t))
    add_seeds now space seeds t

  abbrev pub save_space : Space → Space → Space
  save_space new s = if str_eq s.id new.id then new else s

  -- `updateSpec`
  unfoldable pub update_spec : String → String → Value Num → Tables → Answer (Space × Tables)
  unfolding find_app_for_workspace accepted_spec
  update_spec workspace_id slug spec_input t = do
    space ← find_app_for_workspace workspace_id slug t
    spec ← accepted_spec spec_input
    let changed = record space { spec = spec; name = spec.name; description = spec.description }
    given (changed, record t { spaces = map (save_space changed) t.spaces })

  -- `deleteForWorkspace`; the records of the Space go with it.
  unfoldable pub delete_for_workspace : String → String → Tables → Answer Tables
  delete_for_workspace workspace_id id t =
      let goes = λ (s : Space). str_eq s.id id && str_eq s.workspace_id workspace_id in
      if any goes t.spaces
      then given (record {
        spaces = keep (λ s. not (goes s)) t.spaces;
        records = keep (λ r. not (str_eq r.space_id id)) t.records;
      })
      else refused not_found

  abbrev pub entity_or_fail : Space → String → Answer EntitySpec
  entity_or_fail space name = or_refuse (entity_named space.spec.entities name) not_found

  abbrev pub clean_data : RecordResult numbers → Answer (List (String × Value Num))
  clean_data (cleaned c) = given c
  clean_data _ = refused bad_request

  -- `createRecord`
  unfoldable pub create_record :
      ℕ → String → Space → String → Value Num → Option String → Tables → Answer Tables
  unfolding validate_record_data
  create_record now new_id space entity_name input user_id t = do
    entity ← entity_or_fail space entity_name
    clean ← clean_data (validate_record_data numbers entity input)
    given (record t {
      records =
          t.records
          ++ record {
            id = new_id;
            space_id = space.id;
            entity_name = entity.name;
            fields = clean;
            created_by = user_id;
            created_at = now;
          }
            ∷ [];
    })

  abbrev pub is_record : Space → String → String → SpaceRecord (List (String × Value Num)) → Bool
  is_record space name id r =
      str_eq r.id id && (str_eq r.space_id space.id && str_eq r.entity_name name)

  abbrev pub rewrite_record :
      List (String × Value Num)
      → String
      → SpaceRecord (List (String × Value Num))
      → SpaceRecord (List (String × Value Num))
  rewrite_record clean id r = if str_eq r.id id then record r { fields = clean } else r

  -- `updateRecord`
  unfoldable pub update_record : Space → String → String → Value Num → Tables → Answer Tables
  unfolding validate_record_data
  update_record space entity_name id input t = do
    entity ← entity_or_fail space entity_name
    guard (any (is_record space entity.name id) t.records) not_found
    clean ← clean_data (validate_record_data numbers entity input)
    given (record t { records = map (rewrite_record clean id) t.records })

  -- `deleteRecord`
  unfoldable pub delete_record : Space → String → String → Tables → Answer Tables
  delete_record space entity_name id t = do
    entity ← entity_or_fail space entity_name
    guard (any (is_record space entity.name id) t.records) not_found
    given (record t { records = keep (λ r. not (is_record space entity.name id r)) t.records })
