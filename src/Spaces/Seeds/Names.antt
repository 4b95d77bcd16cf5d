-- ===== src/Spaces/Seeds/Names.antt =====
-- The map from rows' names to their ids in `resolveReferences`.
use gomer.Base.{
  AnyOf, ℕ, ◌≡◌, inl, inr, refl, Bool-cases, ◌&&◌, Option, none, some, List, [], ◌∷◌, All,
  All-append, All-imp, map, both_parts,
}
use gomer.Base.Text.{String, str_eq, eq_iff, trim}
use gomer.Spaces.Json.{Numbers}
use gomer.Spaces.Records.{EntitySpec}
use gomer.Spaces.Seeds.{
  SeedRecord, entity_named, NameMap, id_named, row_key, add_key, add_label, label_of, names_of,
}

-- The id of a row and the entity that it is of.
abbrev pub tag : {N : Type 0} → SeedRecord N → String × String
tag row = (row.id, row.entity_name)

abbrev pub tags : {N : Type 0} → List (SeedRecord N) → List (String × String)
tags rows = map tag rows

-- Among some rows there is one of the entity with the id.
abbrev pub IsRow : List (String × String) → String → String → Type 0
IsRow ts entity id = AnyOf (λ t. (t.0 ≡ id) × (t.1 ≡ entity)) ts

module _ (numbers : Numbers) (uuid : ℕ → String) (lower : String → String) where
  open numbers use {Num}

  -- The ids in the map are those of rows of the entity.
  abbrev pub AreRows : List (String × String) → NameMap numbers uuid lower → Type 0
  AreRows ts m = All (λ entry. IsRow ts entry.0.0 entry.1) m

  pub id_named-IsRow :
      (ts : List (String × String)) (entity key id : String) (m : NameMap numbers uuid lower)
      → AreRows ts m
      → id_named numbers uuid lower entity key m ≡ some id
      → IsRow ts entity id
  unfolding id_named
  id_named-IsRow ts entity key id [] h e = cc
  id_named-IsRow ts entity key id (((j, k), i) ∷ m) h e =
      elim (Bool-cases (str_eq j entity && str_eq k key)) [
        | inr other ↦ id_named-IsRow ts entity key id m h.1 (rw other at e)
        | inl same ↦
            let is : i ≡ id = cc (rw same at e) in
            let of : j ≡ entity = (eq_iff j entity).0 (both_parts _ _ same).0 in rw (← is, ← of) h.0
      ]

  add_key-AreRows :
      (ts : List (String × String)) (o : Option String) (entity key id : String)
      (m : NameMap numbers uuid lower)
      → IsRow ts entity id
      → AreRows ts m
      → AreRows ts (add_key numbers uuid lower o entity key id m)
  add_key-AreRows ts none entity key id m r h = All-append _ m (((entity, key), id) ∷ []) h (r, tt)
  add_key-AreRows ts (some old) entity key id m r h = h

  add_label-AreRows :
      (ts : List (String × String)) (o : Option String) (row : SeedRecord Num)
      (m : NameMap numbers uuid lower)
      → IsRow ts row.entity_name row.id
      → AreRows ts m
      → AreRows ts (add_label numbers uuid lower o row m)
  add_label-AreRows ts none row m r h = h
  add_label-AreRows ts (some label) row m r h = elim (Bool-cases (str_eq (trim label) "")) [
    | inl blank ↦ rw blank h
    | inr named ↦
        rw named
          (add_key-AreRows ts _ row.entity_name (row_key numbers uuid lower label) row.id m r h)
  ]

  pub names_of-AreRows :
      (ts : List (String × String)) (es : List EntitySpec) (rows : List (SeedRecord Num))
      (m : NameMap numbers uuid lower)
      → All (λ row. IsRow ts row.entity_name row.id) rows
      → AreRows ts m
      → AreRows ts (names_of numbers uuid lower es rows m)
  unfolding names_of
  names_of-AreRows ts es [] m r h = h
  names_of-AreRows ts es (row ∷ rows) m r h = names_of-AreRows ts es rows _ r.1 (
      add_label-AreRows ts (label_of numbers uuid lower (entity_named es row.entity_name) row) row m
        r.0 h)

-- Every row is among its own.
pub tags_self :
    {N : Type 0} (rows : List (SeedRecord N))
    → All (λ row. IsRow (tags rows) row.entity_name row.id) rows
tags_self [] = tt
tags_self (row ∷ rows) = (inl (refl, refl), All-imp _ _ rows (λ x h. inr h) (tags_self rows))
