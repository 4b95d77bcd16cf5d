-- ===== src/Spaces/Apps/Specs.antt =====
-- A new app: the spec that was accepted, the rows and the slug.
use gomer.Base.{ℕ, ◌≡◌, ◌≤◌, refl, ap, false, Option, List, [], ◌∷◌, ◌++◌, map, length, All}
use gomer.Base.Text.{String}
use gomer.Base.Answers.{given}
use gomer.Spaces.Json.{Value, Props, Numbers}
use gomer.Spaces.Checks.{has, text_of, array_of, members}
use gomer.Spaces.Spec.{validate_app_spec}
use gomer.Spaces.Spec.WellFormed.{Distinct, Each, done, more, IsField, IsEntity}
use gomer.Spaces.Spec.Iff.{validate_app_spec_iff}
use gomer.Spaces.Records.{FieldSpec}
use gomer.Spaces.Seeds.{SeedRecord, prepared, prepare_seed_records, max_seed_records}
use gomer.Spaces.Seeds.Names.{tags}
use gomer.Spaces.Seeds.Prepared.{HaveDistinct, IsPrepared, prepare_seed_records-IsPrepared}
use gomer.Spaces.Slug.{slug_base}
use gomer.Spaces.Slug.Unique.{unique_from_total}
use gomer.Spaces.Apps.{
  Tables, Seeded, slugs, unique_slug, seed_rows, insert_space, create_from_spec,
}
use gomer.Spaces.Accepted.{field_of, fields_in, entity_of, entities_in, spec_of, accepted_spec}

module _ {N : Type 0} where
  fields-names :
      {vs : List (Value N)} {ns : List String}
      → Each IsField vs ns
      → map (λ (f : FieldSpec). f.name) (fields_in vs) ≡ ns
  unfolding fields_in field_of
  fields-names done = refl
  fields-names (more {ps} {n} {vs} h each) =
      rw (h.0.0, text_of) (ap (λ (t : List String). n ∷ t) (fields-names each))

  entity-Distinct :
      (ps : Props N) (n : String)
      → IsEntity ps n
      → Distinct (map (λ (f : FieldSpec). f.name) (entity_of ps).fields)
  unfolding entity_of members array_of
  entity-Distinct ps n (named, (labelled, (v, vs, held, (ns, each, distinct)))) =
      rw held (rw (fields-names each) distinct)

  entities-Distinct :
      {vs : List (Value N)} {names : List String}
      → Each IsEntity vs names
      → HaveDistinct (entities_in vs)
  unfolding entities_in
  entities-Distinct done = tt
  entities-Distinct (more {ps} {n} h each) = (entity-Distinct ps n h, entities-Distinct each)

  -- The fields of each entity of an accepted spec have distinct names.
  pub spec_of-Distinct :
      (v : Value N) → validate_app_spec v ≡ [] → HaveDistinct (spec_of v).entities
  unfolding spec_of members array_of
  spec_of-Distinct v e =
      let (ps, names, is, h) = (validate_app_spec_iff v).0 e in
      let (x, xs, held, each) = h.entities in rw is (rw held (entities-Distinct each))

-- A spec that is accepted, with rows that are: the Space is created, at a slug that no Space has. It
-- has at most 200 new rows, each conforms to its entity and refers to rows among them, and they stand
-- behind the records that were there before; the other Spaces stay.
pub create_from_spec-Created :
    (numbers : Numbers) (lower : String → String) (uuid : ℕ → String) (now : ℕ)
    (new_id workspace_id : String) (v : Value numbers.Num) (input : Option (Value numbers.Num))
    (t : Tables numbers lower) (seeds : List (SeedRecord numbers.Num))
    → validate_app_spec v ≡ []
    → prepare_seed_records numbers uuid lower (spec_of v) input [] ≡ prepared seeds
    → (r : Seeded numbers lower) × (create_from_spec numbers lower uuid now new_id workspace_id v
          input t
        ≡ given r)
      × (has r.space.slug (slugs numbers lower t) ≡ false)
      × (r.added ≡ length seeds)
      × (r.added ≤ max_seed_records)
      × All (IsPrepared numbers uuid lower (spec_of v).entities (tags (seeds ++ []))) seeds
      × (r.tables.spaces ≡ t.spaces ++ r.space ∷ [])
      × (r.tables.records ≡ t.records ++ seed_rows numbers lower now new_id seeds)
unfolding create_from_spec accepted_spec unique_slug
create_from_spec-Created numbers lower uuid now new_id workspace_id v input t seeds accepted rows =
    let spec = spec_of v in
    let (slug, found, free) =
      unique_from_total (slug_base lower spec.name) (slugs numbers lower t) in
    let (few, all) =
      prepare_seed_records-IsPrepared numbers uuid lower spec input [] seeds
        (spec_of-Distinct v accepted) rows in
    (
      insert_space numbers lower now new_id workspace_id spec slug seeds t,
      rw (accepted, rows, found) refl,
      free,
      refl,
      few,
      all,
      refl,
      refl,
    )
