-- ===== src/Spaces/Spec/WellFormed.antt =====
-- When a value holds an app spec (src/spaces/spec/app-spec.ts) that is accepted.
use gomer.Base.{◌≡◌, ◌≢◌, ◌⊎◌, Bool, true, none, some, List, [], ◌∷◌, All}
use gomer.Base.Text.{String, trim}
use gomer.Spaces.Json.{Value, bool, str, arr, obj, Items, cons, Props, items, own}
use gomer.Spaces.Checks.{is_identifier, field_types, widget_kinds}

abbrev pub Among : String → List String → Type 0
Among s [] = ⊥
Among s (t ∷ ts) = (s ≡ t) ⊎ Among s ts

-- No text occurs twice.
abbrev pub Distinct : List String → Type 0
Distinct [] = Unit
Distinct (n ∷ ns) = All (λ m. m ≢ n) ns × Distinct ns

module _ {N : Type 0} where
  -- The key holds a text that is not blank.
  abbrev pub Filled : String → Props N → Type 0
  Filled k ps = (s : String) × (own k ps ≡ some (str s)) × (trim s ≢ "")

  abbrev pub HasText : String → Props N → Type 0
  HasText k ps = (s : String) × (own k ps ≡ some (str s))

  -- The key holds one of some texts.
  abbrev pub HasOneOf : String → List String → Props N → Type 0
  HasOneOf k ts ps = (s : String) × (own k ps ≡ some (str s)) × Among s ts

  abbrev pub HasBool : String → Props N → Type 0
  HasBool k ps = (b : Bool) × (own k ps ≡ some (bool b))

  -- The key holds an array that is not empty, with a property.
  abbrev pub HasList : String → Props N → (List (Value N) → Type 0) → Type 0
  HasList k ps P =
      (v : Value N) × (vs : Items N) × (own k ps ≡ some (arr (cons v vs))) × P (v ∷ items vs)

  abbrev pub HasName : Props N → String → Type 0
  HasName ps n = (own "name" ps ≡ some (str n)) × (is_identifier n ≡ true)

  -- Objects with a property that speaks of their names, which the second list holds.
  pub data Each (P : Props N → String → Type 0) : List (Value N) → List String → Type 0 where
    done : Each P [] []
    more :
        {ps : Props N} {n : String} {vs : List (Value N)} {ns : List String}
        → P ps n
        → Each P vs ns
        → Each P (obj ps ∷ vs) (n ∷ ns)

  -- Objects that all have a property.
  abbrev pub Every : (Props N → Type 0) → List (Value N) → Type 0
  Every P [] = Unit
  Every P (obj ps ∷ vs) = P ps × Every P vs
  Every P (_ ∷ vs) = ⊥

  abbrev pub FieldRest : Props N → Type 0
  FieldRest ps =
      Filled "label" ps
      × (HasOneOf "type" field_types ps
          × ((own "type" ps ≡ some (str "select") → HasList "options" ps (λ vs. Unit))
              × ((own "type" ps ≡ some (str "reference") → HasText "refEntity" ps)
                  × ((own "required" ps ≡ none) ⊎ HasBool "required" ps))))

  -- A field of the given name.
  abbrev pub IsField : Props N → String → Type 0
  IsField ps n = HasName ps n × FieldRest ps

  -- The fields of one entity.
  abbrev pub AreFields : List (Value N) → Type 0
  AreFields vs = (ns : List String) × Each IsField vs ns × Distinct ns

  abbrev pub EntityRest : Props N → Type 0
  EntityRest ps = Filled "label" ps × HasList "fields" ps AreFields

  abbrev pub IsEntity : Props N → String → Type 0
  IsEntity ps n = HasName ps n × EntityRest ps

  -- A widget over the entities of the given names.
  abbrev pub IsWidget : List String → Props N → Type 0
  IsWidget names ps =
      HasOneOf "kind" widget_kinds ps
      × (Filled "label" ps
          × (HasOneOf "entity" names ps × (own "kind" ps ≡ some (str "sum") → HasText "field" ps)))

  abbrev pub IsBody : List String → Props N → Type 0
  IsBody names ps =
      (((own "type" ps ≡ some (str "form")) ⊎ (own "type" ps ≡ some (str "table")))
        × HasOneOf "entity" names ps)
      ⊎ ((own "type" ps ≡ some (str "dashboard")) × HasList "widgets" ps (Every (IsWidget names)))

  abbrev pub IsView : List String → Props N → Type 0
  IsView names ps = Filled "title" ps × IsBody names ps

  abbrev pub IsAuth : Props N → Type 0
  IsAuth ps = (own "mode" ps ≡ some (str "magic-link")) × HasBool "allowSignup" ps

  -- A well-formed spec, with the names of its entities.
  pub record IsAppSpec (ps : Props N) (names : List String) : Type 0 where
    pub named : Filled "name" ps
    pub described : (own "description" ps ≡ none) ⊎ HasText "description" ps
    pub entities : HasList "entities" ps (λ vs. Each IsEntity vs names)
    pub distinct : Distinct names
    pub views : HasList "views" ps (Every (IsView names))
    pub auth : (qs : Props N) × (own "auth" ps ≡ some (obj qs)) × IsAuth qs
