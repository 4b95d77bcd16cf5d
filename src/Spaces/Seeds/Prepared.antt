-- ===== src/Spaces/Seeds/Prepared.antt =====
-- The rows that `prepareSeedRecords` gives.
use mathlib.Core.List.{map-append}
use gomer.Base.{
  All_self, ℕ, ◌≤◌, ◌≡◌, inl, inr, refl, sym, ap, ◌∙◌, true, Bool-cases, Option, none, some, List,
  [], ◌∷◌, ◌++◌, All, All-imp, map, arith, length, length-map, sum_of, ltb,
}
use gomer.Base.Text.{String, str_eq, truthy}
use gomer.Spaces.Json.{Value, null, str, obj, Numbers, props}
use gomer.Spaces.Spec.WellFormed.{Distinct}
use gomer.Spaces.Records.{FieldType, FieldSpec, EntitySpec, reference, put}
use gomer.Spaces.Records.Entries.{Fits, IsEntry, Conforms, put-All, put-keeps, put-Distinct}
use gomer.Spaces.Seeds.{
  AppSpec, SeedRecord, SeedDraft, SeedError, prepared, RowPlace, entity_named, fields_of, target_of,
  is_reference, NameMap, id_named, row_key, Linking, put_id, link_text, link_field, link_fields,
  names_of, resolve_rows, resolve_references, seed_result, draft_of, prepare_seed_records, text_at,
  row_count, max_seed_records,
}
use gomer.Spaces.Seeds.Names.{tag, tags, AreRows, names_of-AreRows, tags_self}
use gomer.Spaces.Seeds.Links.{Resolved, fields-Resolved}
use gomer.Spaces.Seeds.Drafts.{IsKnown, AreKnown, add_entities-Grows}

reference-Fits :
    (N : Type 0) (t : FieldType) (f : FieldSpec) (id : String)
    → is_reference t ≡ true
    → Fits {N = N} t f (str id)
reference-Fits N reference f id e = (id, refl)
reference-Fits N _ f id e = cc

put-Conforms :
    {N : Type 0} (fs : List FieldSpec) (k : String) (v : Value N) (c : List (String × Value N))
    → IsEntry fs (k, v)
    → Conforms fs c
    → Conforms fs (put k v c)
put-Conforms fs k v c entry h = record {
  entries = put-All (IsEntry fs) k v c entry h.entries;
  required = All-imp _ _ fs (λ f held must. put-keeps f.name k v c (held must)) h.required;
  distinct = put-Distinct k v c h.distinct;
}

-- The fields of each entity have distinct names.
abbrev pub HaveDistinct : List EntitySpec → Type 0
HaveDistinct es = All (λ (e : EntitySpec). Distinct (map (λ (f : FieldSpec). f.name) e.fields)) es

module _ (numbers : Numbers) (uuid : ℕ → String) (lower : String → String) where
  open numbers use {Num}

  module _ (m : NameMap numbers uuid lower) (at : RowPlace) (fs : List FieldSpec) where
    -- A field of the entity, for whose entries there is room.
    abbrev Belongs : FieldSpec → Type 0
    Belongs f =
        (entry : String × Value Num) → (f.name ≡ entry.0) × Fits f.type f entry.1 → IsEntry fs entry

    put_id-Conforms :
        (o : Option String) (f : FieldSpec) (name : String) (s : Linking numbers uuid lower)
        → Belongs f
        → is_reference f.type ≡ true
        → Conforms fs s.fields
        → Conforms fs (put_id numbers uuid lower o at f name s).fields
    put_id-Conforms none f name s b refers h = h
    put_id-Conforms (some id) f name s b refers h =
        put-Conforms fs f.name (str id) s.fields
          (b (f.name, str id) (refl, reference-Fits Num f.type f id refers)) h

    link_text-Conforms :
        (o : Option String) (f : FieldSpec) (s : Linking numbers uuid lower)
        → Belongs f
        → is_reference f.type ≡ true
        → Conforms fs s.fields
        → Conforms fs (link_text numbers uuid lower m at f o s).fields
    link_text-Conforms none f s b refers h = h
    link_text-Conforms (some name) f s b refers h =
        put_id-Conforms
          (truthy (
            id_named numbers uuid lower (target_of f.ref_entity) (row_key numbers uuid lower name)
              m))
          f name s b refers h

    link_fields-Conforms :
        (gs : List FieldSpec) (s : Linking numbers uuid lower)
        → All Belongs gs
        → Conforms fs s.fields
        → Conforms fs (link_fields numbers uuid lower m at gs s).fields
    unfolding link_fields link_field
    link_fields-Conforms [] s b h = h
    link_fields-Conforms (f ∷ gs) s b h =
        link_fields-Conforms gs (link_field numbers uuid lower m at f s) b.1
          (elim (Bool-cases (is_reference f.type)) [
            | inl refers ↦ rw refers (link_text-Conforms (text_at f.name s.fields) f s b.0 refers h)
            | inr plain ↦ rw plain h
          ])

  -- A row of an entity of the spec: its fields fit, and each reference names a row that is there.
  abbrev pub IsPrepared : List EntitySpec → List (String × String) → SeedRecord Num → Type 0
  IsPrepared es ts row =
      (entity : EntitySpec) × (entity_named es row.entity_name ≡ some entity)
      × Conforms entity.fields row.fields
      × All (λ f. Resolved ts f row.fields) entity.fields

  find-Distinct :
      (es : List EntitySpec) (n : String) (entity : EntitySpec)
      → HaveDistinct es
      → entity_named es n ≡ some entity
      → Distinct (map (λ (f : FieldSpec). f.name) entity.fields)
  find-Distinct [] n entity h e = cc
  find-Distinct (x ∷ es) n entity h e = elim (Bool-cases (str_eq x.name n)) [
    | inl same ↦ let is : x ≡ entity = cc (rw same at e) in rw (← is) h.0
    | inr other ↦ find-Distinct es n entity h.1 (rw other at e)
  ]

  module _ (es : List EntitySpec) (ts : List (String × String)) (m : NameMap numbers uuid lower)
      (distinct : HaveDistinct es) (right : AreRows numbers uuid lower ts m) where
    row-IsPrepared :
        (row : SeedRecord Num) (at : RowPlace) (errors : List SeedError) (o : Option EntitySpec)
        → entity_named es row.entity_name ≡ o
        → IsKnown numbers uuid lower es row
        → let linked =
            link_fields numbers uuid lower m at
              (fields_of o)
              (record { fields = row.fields; errors = errors }) in
          linked.errors ≡ []
          → IsPrepared es ts (record row { fields = linked.fields }) × (errors ≡ [])
    row-IsPrepared row at errors none there known e = cc (there, known.1)
    row-IsPrepared row at errors (some entity) there (known, found, fits) e =
        let same : known ≡ entity = cc in
        let start : Linking numbers uuid lower = record { fields = row.fields; errors = errors } in
        let (passed, resolved) =
          fields-Resolved numbers uuid lower ts m at entity.fields start right e
            (find-Distinct es row.entity_name entity distinct there) in
        (
          (
            entity,
            there,
            link_fields-Conforms m at entity.fields entity.fields start (All_self _ entity.fields)
                (rw (← same) fits),
            resolved,
          ),
          passed,
        )

    rows-IsPrepared :
        (seeds : List (SeedRecord Num × RowPlace)) (errors : List SeedError)
        → All (λ seed. IsKnown numbers uuid lower es seed.0) seeds
        → (resolve_rows numbers uuid lower es m seeds errors).1 ≡ []
        → All (IsPrepared es ts) (resolve_rows numbers uuid lower es m seeds errors).0
          × (errors ≡ [])
    unfolding resolve_rows
    rows-IsPrepared [] errors known e = (tt, e)
    rows-IsPrepared ((seed, at) ∷ seeds) errors known e =
        let linked =
          link_fields numbers uuid lower m at (fields_of (entity_named es seed.entity_name))
            (record { fields = seed.fields; errors = errors }) in
        let (rest, here) = rows-IsPrepared seeds linked.errors known.1 e in
        let (first, passed) =
          row-IsPrepared seed at errors (entity_named es seed.entity_name) refl known.0 here in
        ((first, rest), passed)

  -- Resolving changes neither the number of the rows nor their ids and entities.
  resolve_rows-tags :
      (es : List EntitySpec) (m : NameMap numbers uuid lower)
      (seeds : List (SeedRecord Num × RowPlace)) (errors : List SeedError)
      → tags (resolve_rows numbers uuid lower es m seeds errors).0 ≡ tags (map (λ s. s.0) seeds)
  unfolding resolve_rows
  resolve_rows-tags es m [] errors = refl
  resolve_rows-tags es m ((seed, at) ∷ seeds) errors =
      ap (λ (t : List (String × String)). tag seed ∷ t) (resolve_rows-tags es m seeds _)

  seed_result-prepared :
      (r : List (SeedRecord Num) × List SeedError) (rows : List (SeedRecord Num))
      → seed_result numbers uuid lower r ≡ prepared rows
      → (r.1 ≡ []) × (r.0 ≡ rows)
  seed_result-prepared (seeds, []) rows e = (refl, cc)
  seed_result-prepared (seeds, x ∷ xs) rows e = cc

  tags-append : (a b : List (SeedRecord Num)) → tags (a ++ b) ≡ tags a ++ tags b
  tags-append a b = map-append tag a b

  resolved-IsPrepared :
      (es : List EntitySpec) (existing : List (SeedRecord Num)) (d : SeedDraft Num)
      → HaveDistinct es
      → AreKnown numbers uuid lower es d
      → (resolve_references numbers uuid lower es existing d).1 ≡ []
      → let rows = (resolve_references numbers uuid lower es existing d).0 in
        (length rows ≡ length d.seeds) × All (IsPrepared es (tags (rows ++ existing))) rows
  unfolding resolve_references
  resolved-IsPrepared es existing d distinct known e =
      let seeds = map (λ (s : SeedRecord Num × RowPlace). s.0) d.seeds in
      let ts = tags (seeds ++ existing) in
      let m = names_of numbers uuid lower es (seeds ++ existing) [] in
      let right =
        names_of-AreRows numbers uuid lower ts es (seeds ++ existing) [] (tags_self _) tt in
      let rows = (resolve_rows numbers uuid lower es m d.seeds d.errors).0 in
      let kept = resolve_rows-tags es m d.seeds d.errors in
      let same : tags (rows ++ existing) ≡ ts =
        tags-append rows existing
        ∙ (ap (λ (t : List (String × String)). t ++ tags existing) kept
            ∙ sym (tags-append seeds existing)) in
      (
        sym (length-map tag rows)
            ∙ (ap length kept
                ∙ (length-map tag seeds
                    ∙ length-map (λ (s : SeedRecord Num × RowPlace). s.0) d.seeds)),
        rw same (rows-IsPrepared es ts m distinct right d.seeds d.errors known e).0,
      )

  -- Of entities whose fields have distinct names: the rows that are accepted are 200 at the most, and
  -- each is of an entity of the spec and conforms to it, and where a reference of it holds a text, that
  -- is the id of a row of the referenced entity, one of these rows or one that was there before.
  pub prepare_seed_records-IsPrepared :
      (spec : AppSpec) (input : Option (Value Num)) (existing rows : List (SeedRecord Num))
      → HaveDistinct spec.entities
      → prepare_seed_records numbers uuid lower spec input existing ≡ prepared rows
      → (length rows ≤ max_seed_records)
        × All (IsPrepared spec.entities (tags (rows ++ existing))) rows
  unfolding prepare_seed_records
  prepare_seed_records-IsPrepared spec none existing rows distinct e =
      let is : rows ≡ [] = cc in rw is (omega arith, tt)
  prepare_seed_records-IsPrepared spec (some null) existing rows distinct e =
      let is : rows ≡ [] = cc in rw is (omega arith, tt)
  prepare_seed_records-IsPrepared spec (some (obj ps)) existing rows distinct e =
      elim (Bool-cases (ltb max_seed_records (sum_of (λ entry. row_count entry.1) (props ps)))) [
        | inl many ↦ cc (rw many at e)
        | inr few ↦
            let d = draft_of numbers uuid lower spec ps in
            let grows =
              add_entities-Grows numbers uuid lower spec.entities (props ps)
                (record { seeds = []; errors = [] }) in
            let (none_left, is) = seed_result-prepared _ rows (rw few at e) in
            let (count, all) =
              resolved-IsPrepared spec.entities existing d distinct (grows.1 tt) none_left in
            rw (← is) (ground (arith, count, grows.0), all)
      ]
  prepare_seed_records-IsPrepared spec (some _) existing rows distinct e = cc
