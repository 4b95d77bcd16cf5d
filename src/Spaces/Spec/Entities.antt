-- ===== src/Spaces/Spec/Entities.antt =====
-- `validateAppSpec` accepts what app-spec.ts describes: its fields and entities.
use mathlib.Core.List.{append-nil, append_assoc}
use gomer.Base.{ℕ, suc, ◌≡◌, ◌↔◌, refl, ◌∙◌, false, List, [], ◌∷◌, ◌++◌, All}
use gomer.Base.Text.{String}
use gomer.Spaces.Json.{Value, obj, Props, own}
use gomer.Spaces.Checks.{
  has, Place, Faults, field_types, members, text_of, name_faults, add_name, field_at, entity_at,
}
use gomer.Spaces.Spec.{
  field_rest, validate_field, validate_fields, entity_rest, validate_entity, validate_entities,
}
use gomer.Spaces.Spec.Parts.{
  iff_trans, split-nil, check_iff, when_iff, some-members_iff, require_iff, append_iff, text_of_iff,
  equals_iff, is_str_iff, is_bool_iff, is_filled_iff, is_among_iff, optional_iff, members_iff,
}
use gomer.Spaces.Spec.Names.{Fresh, Fresh-iff, name_faults_iff, add_name-new, IsNew}
use gomer.Spaces.Spec.WellFormed.{
  HasName, Each, done, more, FieldRest, IsField, AreFields, EntityRest, IsEntity,
}

pub All_any {ℓ κ} : {A : Type ℓ} (P : A → Type κ) (xs : List A) → ((x : A) → P x) → All P xs
All_any P [] f = tt
All_any P (x ∷ xs) f = (f x, All_any P xs f)

module _ {N : Type 0} where
  field_rest_iff : (p : Place) (ps : Props N) → (field_rest p ps ≡ []) ↔ FieldRest ps
  unfolding field_rest
  field_rest_iff p ps = append_iff _ _ (check_iff _ _ _ (is_filled_iff (own "label" ps))) (
      append_iff _ _ (check_iff _ _ _ (is_among_iff field_types (own "type" ps))) (
        append_iff _ _
          (check_iff _ _ _ (
            when_iff _ _ (equals_iff "select" (own "type" ps))
              (some-members_iff (own "options" ps))))
          (append_iff _ _
            (check_iff _ _ _ (
              when_iff _ _ (equals_iff "reference" (own "type" ps))
                (is_str_iff (own "refEntity" ps))))
            (check_iff _ _ _
              (optional_iff (own "required" ps) _ (is_bool_iff (own "required" ps)))))))

  -- The name of an object and the rest of it, where nothing is wrong.
  named_sound :
      (p : Place) (names : List String) (ps : Props N) (rest : Faults)
      → name_faults p names (text_of (own "name" ps)) ++ rest ≡ []
      → (n : String) × IsNew n names (text_of (own "name" ps)) × HasName ps n × (rest ≡ [])
  named_sound p names ps rest e =
      let (h, k) =
        (append_iff _ rest (name_faults_iff p names (text_of (own "name" ps))) (λ x. x, λ x. x)).0
          e in
      (h.0, h.1, ((text_of_iff (own "name" ps) h.0).0 h.1.0, h.1.1), k)

  named_complete :
      (p : Place) (names : List String) (ps : Props N) (rest : Faults) (n : String)
      → HasName ps n
      → has n names ≡ false
      → rest ≡ []
      → (name_faults p names (text_of (own "name" ps)) ++ rest ≡ [])
        × (add_name names (text_of (own "name" ps)) ≡ names ++ n ∷ [])
  named_complete p names ps rest n h new k =
      let is : IsNew n names (text_of (own "name" ps)) =
        ((text_of_iff (own "name" ps) n).1 h.0, h.1, new) in
      (
        (append_iff _ rest (name_faults_iff p names (text_of (own "name" ps))) (λ x. x, λ x. x)).1
            ((n, is), k),
        add_name-new names (text_of (own "name" ps)) n is,
      )

  fields_sound :
      (i j : ℕ) (names : List String) (vs : List (Value N))
      → validate_fields i j names vs ≡ []
      → (ns : List String) × Each IsField vs ns × Fresh names ns
  unfolding validate_fields validate_field
  fields_sound i j names [] e = ([], done, tt)
  fields_sound i j names (obj ps ∷ vs) e =
      let (here, later) = split-nil _ _ e in
      let (n, new, named, rest) = named_sound (field_at i j) names ps _ here in
      let e' = rw (add_name-new names (text_of (own "name" ps)) n new) at later in
      let (ns, each, fresh) = fields_sound i (suc j) (names ++ n ∷ []) vs e' in
      (n ∷ ns, more (named, (field_rest_iff (field_at i j) ps).0 rest) each, (new.2, fresh))
  fields_sound i j names (_ ∷ vs) e = cc

  fields_complete :
      (i j : ℕ) (names : List String) {vs : List (Value N)} {ns : List String}
      → Each IsField vs ns
      → Fresh names ns
      → validate_fields i j names vs ≡ []
  unfolding validate_fields validate_field
  fields_complete i j names done f = refl
  fields_complete i j names (more {ps} {n} h each) f =
      let (none_here, named) =
        named_complete (field_at i j) names ps _ n h.0 f.0
          ((field_rest_iff (field_at i j) ps).1 h.1) in
      rw (none_here, named) (fields_complete i (suc j) (names ++ n ∷ []) each f.1)

  fields_iff : (i : ℕ) (vs : List (Value N)) → (validate_fields i 0 [] vs ≡ []) ↔ AreFields vs
  unfolding has
  fields_iff i vs = (
    λ e.
        let (ns, each, fresh) = fields_sound i 0 [] vs e in
        (ns, each, ((Fresh-iff [] ns).0 fresh).1),
    λ h. fields_complete i 0 [] h.1 ((Fresh-iff [] h.0).1 (All_any _ h.0 (λ m. refl), h.2)),
  )

  entity_rest_iff : (i : ℕ) (ps : Props N) → (entity_rest i ps ≡ []) ↔ EntityRest ps
  unfolding entity_rest
  entity_rest_iff i ps =
      let list = members_iff AreFields (own "fields" ps) in
      append_iff _ _ (check_iff _ _ _ (is_filled_iff (own "label" ps))) (
        iff_trans (append_iff _ _ (require_iff _ _ _) (fields_iff i (members (own "fields" ps))))
          list)

  pub entities_sound :
      (i : ℕ) (names : List String) (vs : List (Value N))
      → (validate_entities i names vs).1 ≡ []
      → (ns : List String) × Each IsEntity vs ns
        × Fresh names ns
        × ((validate_entities i names vs).0 ≡ names ++ ns)
  unfolding validate_entities validate_entity
  entities_sound i names [] e = ([], done, tt, rw append-nil)
  entities_sound i names (obj ps ∷ vs) e =
      let (here, later) = split-nil _ _ e in
      let (n, new, named, rest) = named_sound (entity_at i) names ps _ here in
      let grown = add_name-new names (text_of (own "name" ps)) n new in
      let (ns, each, fresh, all) =
        entities_sound (suc i) (names ++ n ∷ []) vs (rw grown at later) in
      (
        n ∷ ns,
        more (named, (entity_rest_iff i ps).0 rest) each,
        (new.2, fresh),
        rw grown (all ∙ append_assoc names (n ∷ []) ns),
      )
  entities_sound i names (_ ∷ vs) e = cc

  pub entities_complete :
      (i : ℕ) (names : List String) {vs : List (Value N)} {ns : List String}
      → Each IsEntity vs ns
      → Fresh names ns
      → ((validate_entities i names vs).1 ≡ []) × ((validate_entities i names vs).0 ≡ names ++ ns)
  unfolding validate_entities validate_entity
  entities_complete i names done f = (refl, rw append-nil)
  entities_complete i names (more {ps} {n} {ns} h each) f =
      let (none_here, named) =
        named_complete (entity_at i) names ps _ n h.0 f.0 ((entity_rest_iff i ps).1 h.1) in
      let (faultless, all) = entities_complete (suc i) (names ++ n ∷ []) each f.1 in
      rw (none_here, named) (faultless, all ∙ append_assoc names (n ∷ []) ns)
