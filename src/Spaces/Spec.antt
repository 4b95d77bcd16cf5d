-- ===== src/Spaces/Spec.antt =====
-- `validateAppSpec` and its helpers (src/spaces/spec/validate-spec.ts). Each function gives the errors
-- that the code pushes, in their order.
pub mod WellFormed
pub mod Parts
pub mod Names
pub mod Entities
pub mod Views
pub mod Iff
use gomer.Base.{
  ℕ, suc, Bool, true, false, not, ◌||◌, Option, none, some, is_some, List, [], ◌∷◌, ◌++◌,
  if◌then◌else◌,
}
use gomer.Base.Text.{String}
use gomer.Spaces.Json.{Value, null, bool, num, str, arr, obj, native, Props, own}
use gomer.Spaces.Checks.{
  Place, whole, entity_at, field_at, view_at, widget_at, Fault, not_object, no_name,
  bad_description, no_entities, no_views, no_auth, bad_mode, bad_signup, no_label, no_fields,
  bad_type, no_options, no_ref_entity, bad_required, no_title, no_such_entity, no_widgets, bad_kind,
  no_sum_field, Faults, require, field_types, widget_kinds, is_filled, is_str, is_bool, equals,
  members, is_among, text_of, object_of, is_nonempty, name_faults, add_name,
}

module _ {N : Type 0} where
  -- What is wrong with the fields of a field, but for its name.
  unfoldable pub field_rest : Place → Props N → Faults
  unfolding own is_filled is_str is_bool equals members is_among
  field_rest p ps =
      require (is_filled (own "label" ps)) p no_label
      ++ (require (is_among field_types (own "type" ps)) p bad_type
          ++ (require
                (not (equals "select" (own "type" ps)) || is_nonempty (members (own "options" ps)))
                p no_options
              ++ (require (not (equals "reference" (own "type" ps)) || is_str (own "refEntity" ps))
                    p no_ref_entity
                  ++ require (not (is_some (own "required" ps)) || is_bool (own "required" ps)) p
                      bad_required)))

  unfoldable pub validate_field : Place → List String → Value N → List String × Faults
  unfolding field_rest add_name name_faults own text_of
  validate_field p names (obj ps) = (
    add_name names (text_of (own "name" ps)),
    name_faults p names (text_of (own "name" ps)) ++ field_rest p ps,
  )
  validate_field p names _ = (names, (p, not_object) ∷ [])

  -- The loop over the fields of the entity at an index.
  unfoldable pub validate_fields : ℕ → ℕ → List String → List (Value N) → Faults
  unfolding validate_field
  validate_fields i j names [] = []
  validate_fields i j names (v ∷ vs) =
      (validate_field (field_at i j) names v).1
      ++ validate_fields i (suc j) (validate_field (field_at i j) names v).0 vs

  -- What is wrong with an entity, but for its name.
  unfoldable pub entity_rest : ℕ → Props N → Faults
  unfolding own is_filled members validate_fields
  entity_rest i ps =
      require (is_filled (own "label" ps)) (entity_at i) no_label
      ++ (require (is_nonempty (members (own "fields" ps))) (entity_at i) no_fields
          ++ validate_fields i 0 [] (members (own "fields" ps)))

  unfoldable pub validate_entity : ℕ → List String → Value N → List String × Faults
  unfolding entity_rest add_name name_faults own text_of
  validate_entity i names (obj ps) = (
    add_name names (text_of (own "name" ps)),
    name_faults (entity_at i) names (text_of (own "name" ps)) ++ entity_rest i ps,
  )
  validate_entity i names _ = (names, (entity_at i, not_object) ∷ [])

  -- The names of the entities and what is wrong with them.
  unfoldable pub validate_entities : ℕ → List String → List (Value N) → List String × Faults
  unfolding validate_entity
  validate_entities i names [] = (names, [])
  validate_entities i names (v ∷ vs) =
      let one = validate_entity i names v in
      let rest = validate_entities (suc i) one.0 vs in (rest.0, one.1 ++ rest.1)

  unfoldable pub validate_widget : Place → List String → Value N → Faults
  unfolding own is_filled is_str equals is_among
  validate_widget p names (obj ps) =
      require (is_among widget_kinds (own "kind" ps)) p bad_kind
      ++ (require (is_filled (own "label" ps)) p no_label
          ++ (require (is_among names (own "entity" ps)) p no_such_entity
              ++ require (not (equals "sum" (own "kind" ps)) || is_str (own "field" ps)) p
                  no_sum_field))
  validate_widget p names _ = (p, not_object) ∷ []

  unfoldable pub validate_widgets : ℕ → ℕ → List String → List (Value N) → Faults
  unfolding validate_widget
  validate_widgets i j names [] = []
  validate_widgets i j names (v ∷ vs) =
      validate_widget (widget_at i j) names v ++ validate_widgets i (suc j) names vs

  -- What a view must have for its type.
  unfoldable pub view_body : ℕ → List String → Props N → Faults
  unfolding own equals members is_among validate_widgets
  view_body i names ps =
      if equals "form" (own "type" ps) || equals "table" (own "type" ps)
      then require (is_among names (own "entity" ps)) (view_at i) no_such_entity
      else if equals "dashboard" (own "type" ps)
      then require (is_nonempty (members (own "widgets" ps))) (view_at i) no_widgets
        ++ validate_widgets i 0 names (members (own "widgets" ps))
      else (view_at i, bad_type) ∷ []

  unfoldable pub validate_view : ℕ → List String → Value N → Faults
  unfolding own is_filled view_body
  validate_view i names (obj ps) =
      require (is_filled (own "title" ps)) (view_at i) no_title ++ view_body i names ps
  validate_view i names _ = (view_at i, not_object) ∷ []

  unfoldable pub validate_views : ℕ → List String → List (Value N) → Faults
  unfolding validate_view
  validate_views i names [] = []
  validate_views i names (v ∷ vs) = validate_view i names v ++ validate_views (suc i) names vs

  unfoldable pub auth_given : Option (Props N) → Faults
  unfolding own equals is_bool
  auth_given none = (whole, no_auth) ∷ []
  auth_given (some ps) =
      require (equals "magic-link" (own "mode" ps)) whole bad_mode
      ++ require (is_bool (own "allowSignup" ps)) whole bad_signup

  unfoldable pub spec_faults : Props N → Faults
  unfolding own is_filled is_str members validate_entities validate_views auth_given object_of
  spec_faults ps =
      let found = validate_entities 0 [] (members (own "entities" ps)) in
      require (is_filled (own "name" ps)) whole no_name
      ++ (require (not (is_some (own "description" ps)) || is_str (own "description" ps)) whole
            bad_description
          ++ (require (is_nonempty (members (own "entities" ps))) whole no_entities
              ++ (found.1
                  ++ (require (is_nonempty (members (own "views" ps))) whole no_views
                      ++ (validate_views 0 found.0 (members (own "views" ps))
                          ++ auth_given (object_of (own "auth" ps)))))))

  -- The errors with which the spec is rejected, if it is; else the code returns its input.
  unfoldable pub validate_app_spec : Value N → Faults
  unfolding spec_faults
  validate_app_spec (obj ps) = spec_faults ps
  validate_app_spec _ = (whole, not_object) ∷ []
