-- ===== src/Spaces/Seeds/Drafts.antt =====
-- The rows that `prepareSeedRecords` collects before their references are resolved.
use gomer.Base.{
  ℕ, suc, ◌+◌, ◌≤◌, ◌≡◌, refl, Option, none, some, List, [], ◌∷◌, All, All-append, arith, length,
  length-append, sum_of,
}
use gomer.Base.Text.{String}
use gomer.Spaces.Json.{Value, null, arr, obj, Numbers, items}
use gomer.Spaces.Checks.{array_of}
use gomer.Spaces.Records.{
  EntitySpec, RecordResult, cleaned, invalid, not_an_object, type_error, validate_record_data,
}
use gomer.Spaces.Records.Entries.{Conforms}
use gomer.Spaces.Records.Conforms.{validate_record_data-Conforms}
use gomer.Spaces.Seeds.{
  SeedRecord, SeedDraft, RowPlace, entity_named, add_cleaned, with_known, unknown_keys, add_row,
  add_rows, add_for, add_entities, row_count,
}

module _ (numbers : Numbers) (uuid : ℕ → String) (lower : String → String)
    (es : List EntitySpec) where
  open numbers use {Num}

  -- A row of one of the entities, which conforms to it.
  abbrev pub IsKnown : SeedRecord Num → Type 0
  IsKnown row =
      (entity : EntitySpec) × (entity_named es row.entity_name ≡ some entity)
      × Conforms entity.fields row.fields

  abbrev pub AreKnown : SeedDraft Num → Type 0
  AreKnown d = All (λ seed. IsKnown seed.0) d.seeds

  -- From one draft to a later one, with a number of rows more at the most.
  abbrev pub Grows : ℕ → SeedDraft Num → SeedDraft Num → Type 0
  Grows n d d' = (length d'.seeds ≤ length d.seeds + n) × (AreKnown d → AreKnown d')

  add_cleaned-Grows :
      (at : RowPlace) (entity : EntitySpec) (r : RecordResult numbers) (d : SeedDraft Num)
      → entity_named es at.0 ≡ some entity
      → ((c : List (String × Value Num)) → r ≡ cleaned c → Conforms entity.fields c)
      → Grows 1 d (add_cleaned numbers uuid lower at r d)
  add_cleaned-Grows at entity (cleaned []) d there fits = (omega arith, λ h. h)
  add_cleaned-Grows at entity (cleaned (x ∷ xs)) d there fits = (
    omega (arith, length-append d.seeds ((_, at) ∷ [])),
    λ h. All-append _ d.seeds _ h ((entity, there, fits (x ∷ xs) refl), tt),
  )
  add_cleaned-Grows at entity (invalid errors) d there fits = (omega arith, λ h. h)
  add_cleaned-Grows at entity not_an_object d there fits = (omega arith, λ h. h)
  add_cleaned-Grows at entity type_error d there fits = (omega arith, λ h. h)

  with_known-Grows :
      (keys : List String) (at : RowPlace) (d d' : SeedDraft Num)
      → Grows 1 d d'
      → Grows 1 d (with_known numbers uuid lower keys at d' d)
  with_known-Grows [] at d d' h = h
  with_known-Grows (k ∷ ks) at d d' h = (omega arith, λ x. x)

  add_row-Grows :
      (entity : EntitySpec) (at : RowPlace) (v : Value Num) (d : SeedDraft Num)
      → entity_named es at.0 ≡ some entity
      → Grows 1 d (add_row numbers uuid lower entity at v d)
  unfolding add_row
  add_row-Grows entity at (obj ps) d there =
      with_known-Grows (unknown_keys numbers uuid lower entity ps) at d _ (
        add_cleaned-Grows at entity (validate_record_data numbers entity (obj ps)) d there
          (validate_record_data-Conforms numbers entity (obj ps)))
  add_row-Grows entity at null d there = (omega arith, λ h. h)
  add_row-Grows entity at _ d there = (omega arith, λ h. h)

  add_rows-Grows :
      (entity : EntitySpec) (name : String) (i : ℕ) (vs : List (Value Num)) (d : SeedDraft Num)
      → entity_named es name ≡ some entity
      → Grows (length vs) d (add_rows numbers uuid lower entity name i vs d)
  unfolding add_rows
  add_rows-Grows entity name i [] d there = (omega arith, λ h. h)
  add_rows-Grows entity name i (v ∷ vs) d there =
      let first = add_row-Grows entity (name, i) v d there in
      let rest =
        add_rows-Grows entity name (suc i) vs (add_row numbers uuid lower entity (name, i) v d)
          there in
      (omega (arith, first.0, rest.0), λ h. rest.1 (first.1 h))

  add_for-Grows :
      (name : String) (o : Option EntitySpec) (v : Value Num) (d : SeedDraft Num)
      → entity_named es name ≡ o
      → Grows (row_count v) d (add_for numbers uuid lower name o v d)
  unfolding array_of
  add_for-Grows name none v d there = (omega arith, λ h. h)
  add_for-Grows name (some entity) (arr vs) d there =
      add_rows-Grows entity name 0 (items vs) d there
  add_for-Grows name (some entity) _ d there = (omega arith, λ h. h)

  pub add_entities-Grows :
      (entries : List (String × Value Num)) (d : SeedDraft Num)
      → Grows
          (sum_of (λ entry. row_count entry.1) entries)
          d
          (add_entities numbers uuid lower es entries d)
  unfolding add_entities
  add_entities-Grows [] d = (omega arith, λ h. h)
  add_entities-Grows ((name, v) ∷ rest) d =
      let first = add_for-Grows name (entity_named es name) v d refl in
      let later =
        add_entities-Grows rest (add_for numbers uuid lower name (entity_named es name) v d) in
      (omega (arith, first.0, later.0), λ h. later.1 (first.1 h))
