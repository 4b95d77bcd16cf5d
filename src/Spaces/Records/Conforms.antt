-- ===== src/Spaces/Records/Conforms.antt =====
-- What a record that `validateRecordData` lets through holds.
use gomer.Base.{
  All_self, ◌≡◌, inl, inr, refl, sym, ap, ◌∙◌, true, Option, none, some, List, [], ◌∷◌, All,
}
use gomer.Base.Text.{String}
use gomer.Spaces.Json.{Value, null, obj, Props, Numbers}
use gomer.Spaces.Spec.WellFormed.{Distinct}
use gomer.Spaces.Convert.{read}
use gomer.Spaces.Records.{
  FieldSpec, EntitySpec, RecordError, Draft, check_field, and_then, check_fields, cleaned, settled,
  record_result, validate_record_data,
}
use gomer.Spaces.Records.Entries.{Fits, IsEntry, HasKey, Conforms, keys}
use gomer.Spaces.Records.Fields.{
  Passed, check_field-Passed, Passed-All, Passed-keeps, Passed-HasKey, Passed-Distinct,
}

module _ (numbers : Numbers) where
  open numbers use {Num}

  -- The loop over the fields, none of which has an error.
  abbrev Runs : List FieldSpec → Draft numbers → Draft numbers → Type 0
  Runs [] d d' = d' ≡ d
  Runs (f ∷ fs) d d' = (d1 : Draft numbers) × Passed numbers f d d1 × Runs fs d1 d'

  and_then-some :
      (o : Option (Draft numbers)) (k : Draft numbers → Option (Draft numbers)) (d : Draft numbers)
      → and_then numbers o k ≡ some d
      → (d1 : Draft numbers) × (o ≡ some d1) × (k d1 ≡ some d)
  and_then-some none k d e = cc
  and_then-some (some d1) k d e = (d1, refl, e)

  Passed-errors :
      (f : FieldSpec) (d d1 : Draft numbers)
      → Passed numbers f d d1
      → d1.errors ≡ []
      → d.errors ≡ []
  Passed-errors f d d1 (inl (may, same)) h = rw (← same) h
  Passed-errors f d d1 (inr (v, fits, same)) h = sym (ap (λ (x : Draft numbers). x.errors) same) ∙ h

  check_fields-Runs :
      (fs : List FieldSpec) (ps : Props Num) (d d' : Draft numbers)
      → check_fields numbers fs ps d ≡ some d'
      → d'.errors ≡ []
      → Runs fs d d' × (d.errors ≡ [])
  unfolding check_fields
  check_fields-Runs [] ps d d' e none_left = let same : d ≡ d' = cc in (sym same, rw same none_left)
  check_fields-Runs (f ∷ fs) ps d d' e none_left =
      let (d1, here, later) =
        and_then-some (check_field numbers f (read f.name ps) d) (check_fields numbers fs ps) d'
          e in
      let (runs, d1_empty) = check_fields-Runs fs ps d1 d' later none_left in
      let passed = check_field-Passed numbers f (read f.name ps) d d1 here d1_empty in
      ((d1, passed, runs), Passed-errors f d d1 passed d1_empty)

  Runs-All :
      (P : String × Value Num → Type 0) (fs : List FieldSpec) (d d' : Draft numbers)
      → Runs fs d d'
      → All
          (λ f. (entry : String × Value Num) → (f.name ≡ entry.0) × Fits f.type f entry.1 → P entry)
          fs
      → All P d.clean
      → All P d'.clean
  Runs-All P [] d d' r h all = rw r all
  Runs-All P (f ∷ fs) d d' (d1, passed, r) h all =
      Runs-All P fs d1 d' r h.1
        (Passed-All numbers P f d d1 passed (λ v fits. h.0 (f.name, v) (refl, fits)) all)

  Runs-keeps :
      (k : String) (fs : List FieldSpec) (d d' : Draft numbers)
      → Runs fs d d'
      → HasKey k d.clean
      → HasKey k d'.clean
  Runs-keeps k [] d d' r h = rw r h
  Runs-keeps k (f ∷ fs) d d' (d1, passed, r) h =
      Runs-keeps k fs d1 d' r (Passed-keeps numbers k f d d1 passed h)

  Runs-required :
      (fs : List FieldSpec) (d d' : Draft numbers)
      → Runs fs d d'
      → All (λ f. f.required ≡ true → HasKey f.name d'.clean) fs
  Runs-required [] d d' r = tt
  Runs-required (f ∷ fs) d d' (d1, passed, r) = (
    λ must. Runs-keeps f.name fs d1 d' r (Passed-HasKey numbers f d d1 passed must),
    Runs-required fs d1 d' r,
  )

  Runs-Distinct :
      (fs : List FieldSpec) (d d' : Draft numbers)
      → Runs fs d d'
      → Distinct (keys d.clean)
      → Distinct (keys d'.clean)
  Runs-Distinct [] d d' r h = rw r h
  Runs-Distinct (f ∷ fs) d d' (d1, passed, r) h =
      Runs-Distinct fs d1 d' r (Passed-Distinct numbers f d d1 passed h)

  Runs-Conforms :
      (fs : List FieldSpec) (d : Draft numbers)
      → Runs fs (record { clean = []; errors = [] }) d
      → Conforms fs d.clean
  Runs-Conforms fs d r =
      let start : Draft numbers = record { clean = []; errors = [] } in
      record {
        entries = Runs-All (IsEntry fs) fs start d r (All_self _ fs) tt;
        required = Runs-required fs start d r;
        distinct = Runs-Distinct fs start d r tt;
      }

  settled-cleaned :
      (es : List RecordError) (clean c : List (String × Value Num))
      → settled numbers es clean ≡ cleaned c
      → (es ≡ []) × (clean ≡ c)
  settled-cleaned [] clean c e = (refl, cc)
  settled-cleaned (x ∷ xs) clean c e = cc

  record_result-cleaned :
      (o : Option (Draft numbers)) (c : List (String × Value Num))
      → record_result numbers o ≡ cleaned c
      → (d : Draft numbers) × (o ≡ some d) × (d.errors ≡ []) × (d.clean ≡ c)
  record_result-cleaned none c e = cc
  record_result-cleaned (some d) c e =
      let (none_left, same) = settled-cleaned d.errors d.clean c e in (d, refl, none_left, same)

  -- A record that is accepted holds each key once; each of its entries is for a field of the entity
  -- and has a value of that field's type, for a select one of its options; and every required field
  -- is there.
  pub validate_record_data-Conforms :
      (entity : EntitySpec) (raw : Value Num) (c : List (String × Value Num))
      → validate_record_data numbers entity raw ≡ cleaned c
      → Conforms entity.fields c
  unfolding validate_record_data
  validate_record_data-Conforms entity (obj ps) c e =
      let (d, run, none_left, same) =
        record_result-cleaned
          (check_fields numbers entity.fields ps (record { clean = []; errors = [] })) c e in
      let (runs, start) =
        check_fields-Runs entity.fields ps (record { clean = []; errors = [] }) d run none_left in
      rw (← same) (Runs-Conforms entity.fields d runs)
  validate_record_data-Conforms entity null c e = cc
  validate_record_data-Conforms entity _ c e = cc
