-- ===== src/Spaces/Seeds/Links.antt =====
-- One row in `resolveReferences`: each reference becomes the id that the map has for it.
use gomer.Base.{
  ℕ, ◌≡◌, ◌≢◌, ◌⊎◌, inl, inr, refl, sym, ap, ◌∙◌, Bool-cases, Option, none, some, List, [], ◌∷◌,
  ◌++◌, if◌then◌else◌, All, map, arith,
}
use gomer.Base.Text.{String, str_eq, eq_iff, truthy}
use gomer.Spaces.Json.{Value, str, Numbers}
use gomer.Spaces.Checks.{text_of}
use gomer.Spaces.Spec.WellFormed.{Distinct}
use gomer.Spaces.Records.{FieldSpec, reference, put}
use gomer.Spaces.Seeds.{
  RowPlace, no_target, NameMap, id_named, row_key, target_of, Linking, put_id, link_text,
  link_field, link_fields, is_reference, value_at, text_at,
}
use gomer.Spaces.Seeds.Names.{IsRow, AreRows, id_named-IsRow}

append-ne-nil {ℓ} : {A : Type ℓ} (xs : List A) (x : A) → xs ++ x ∷ [] ≢ []
append-ne-nil [] x e = cc
append-ne-nil (y ∷ xs) x e = cc

module _ {N : Type 0} where
  value_at-put :
      (j k : String) (v : Value N) (c : List (String × Value N))
      → value_at j (put k v c) ≡ (if str_eq k j then some v else value_at j c)
  unfolding value_at put
  value_at-put j k v [] = refl
  value_at-put j k v ((i, w) ∷ c) =
      ground (arith, eq_iff i k, eq_iff i j, eq_iff k j, value_at-put j k v c)

  text_at-put_self :
      (k s : String) (c : List (String × Value N)) → text_at k (put k (str s) c) ≡ some s
  unfolding text_at text_of
  text_at-put_self k s c = rw (value_at-put k k (str s) c, (eq_iff k k).1 refl)

  text_at-put_other :
      (j k : String) (v : Value N) (c : List (String × Value N))
      → k ≢ j
      → text_at j (put k v c) ≡ text_at j c
  unfolding text_at
  text_at-put_other j k v c apart = elim (Bool-cases (str_eq k j)) [
    | inl same ↦ absurd (apart ((eq_iff k j).0 same))
    | inr other ↦ rw (value_at-put j k v c, other)
  ]

-- A reference that holds a text holds the id of a row of its entity.
abbrev pub Resolved :
    {N : Type 0} → List (String × String) → FieldSpec → List (String × Value N) → Type 0
Resolved ts f c =
    f.type ≡ reference
    → (id : String) → text_at f.name c ≡ some id
    → IsRow ts (target_of f.ref_entity) id

truthy-some : (o : Option String) (s : String) → truthy o ≡ some s → o ≡ some s
truthy-some none s e = cc
truthy-some (some t) s e = ground (arith, eq_iff t "")

module _ (numbers : Numbers) (uuid : ℕ → String) (lower : String → String) where
  open numbers use {Num}

  module _ (ts : List (String × String)) (m : NameMap numbers uuid lower) (at : RowPlace) where
    -- What a field without an error does to a row: nothing, where it holds no name, or it puts the id
    -- of a row of the field's entity.
    abbrev pub Links : FieldSpec → Linking numbers uuid lower → Linking numbers uuid lower → Type 0
    Links f s s1 =
        (s1.errors ≡ s.errors)
        × (((f.type ≡ reference → text_at f.name s.fields ≡ none) × (s1.fields ≡ s.fields))
            ⊎ ((id : String) × IsRow ts (target_of f.ref_entity) id
                × (s1.fields ≡ put f.name (str id) s.fields)))

    put_id-Links :
        (o : Option String) (f : FieldSpec) (name : String) (s : Linking numbers uuid lower)
        → ((id : String) → o ≡ some id → IsRow ts (target_of f.ref_entity) id)
        → (put_id numbers uuid lower o at f name s).errors ≡ []
        → Links f s (put_id numbers uuid lower o at f name s)
    put_id-Links none f name s h e = absurd (append-ne-nil s.errors (no_target at f.name name) e)
    put_id-Links (some id) f name s h e = (refl, inr (id, h id refl, refl))

    link_text-Links :
        (o : Option String) (f : FieldSpec) (s : Linking numbers uuid lower)
        → AreRows numbers uuid lower ts m
        → text_at f.name s.fields ≡ o
        → (link_text numbers uuid lower m at f o s).errors ≡ []
        → Links f s (link_text numbers uuid lower m at f o s)
    link_text-Links none f s h is e = (refl, inl (λ t. is, refl))
    link_text-Links (some name) f s h is e =
        let entity = target_of f.ref_entity in
        let key = row_key numbers uuid lower name in
        put_id-Links (truthy (id_named numbers uuid lower entity key m)) f name s
          (λ id found.
            id_named-IsRow numbers uuid lower ts entity key id m h (truthy-some _ id found))
          e

    link_field-Links :
        (f : FieldSpec) (s : Linking numbers uuid lower)
        → AreRows numbers uuid lower ts m
        → (link_field numbers uuid lower m at f s).errors ≡ []
        → Links f s (link_field numbers uuid lower m at f s)
    unfolding link_field
    link_field-Links f s h e = elim (Bool-cases (is_reference f.type)) [
      | inl refers ↦
          rw refers (link_text-Links (text_at f.name s.fields) f s h refl (rw refers at e))
      | inr plain ↦ rw plain (refl, inl (λ t. cc (plain, ap is_reference t), refl))
    ]

    field_passed :
        (f : FieldSpec) (s : Linking numbers uuid lower)
        → AreRows numbers uuid lower ts m
        → (link_field numbers uuid lower m at f s).errors ≡ []
        → s.errors ≡ []
    field_passed f s h e = sym (link_field-Links f s h e).0 ∙ e

    fields_passed :
        (fs : List FieldSpec) (s : Linking numbers uuid lower)
        → AreRows numbers uuid lower ts m
        → (link_fields numbers uuid lower m at fs s).errors ≡ []
        → s.errors ≡ []
    unfolding link_fields
    fields_passed [] s h e = e
    fields_passed (f ∷ fs) s h e =
        field_passed f s h (fields_passed fs (link_field numbers uuid lower m at f s) h e)

    Links-other :
        (k : String) (f : FieldSpec) (s s1 : Linking numbers uuid lower)
        → Links f s s1
        → f.name ≢ k
        → text_at k s1.fields ≡ text_at k s.fields
    Links-other k f s s1 (same, inl (none_there, kept)) apart = ap (text_at k) kept
    Links-other k f s s1 (same, inr (id, row, kept)) apart =
        ap (text_at k) kept ∙ text_at-put_other k f.name (str id) s.fields apart

    fields_other :
        (k : String) (fs : List FieldSpec) (s : Linking numbers uuid lower)
        → AreRows numbers uuid lower ts m
        → (link_fields numbers uuid lower m at fs s).errors ≡ []
        → All (λ n. n ≢ k) (map (λ (f : FieldSpec). f.name) fs)
        → text_at k (link_fields numbers uuid lower m at fs s).fields ≡ text_at k s.fields
    unfolding link_fields
    fields_other k [] s h e apart = refl
    fields_other k (f ∷ fs) s h e apart =
        let s1 = link_field numbers uuid lower m at f s in
        fields_other k fs s1 h e apart.1
        ∙ Links-other k f s s1 (link_field-Links f s h (fields_passed fs s1 h e)) apart.0

    Links-Resolved :
        (f : FieldSpec) (s s1 : Linking numbers uuid lower) → Links f s s1 → Resolved ts f s1.fields
    Links-Resolved f s s1 (same, inl (none_there, kept)) is id held =
        cc (none_there is, held, ap (text_at f.name) kept)
    Links-Resolved f s s1 (same, inr (i, row, kept)) is id held =
        let there : i ≡ id =
          cc (text_at-put_self f.name i s.fields, held, ap (text_at f.name) kept) in
        rw (← there) row

    pub fields-Resolved :
        (fs : List FieldSpec) (s : Linking numbers uuid lower)
        → AreRows numbers uuid lower ts m
        → (link_fields numbers uuid lower m at fs s).errors ≡ []
        → Distinct (map (λ (f : FieldSpec). f.name) fs)
        → (s.errors ≡ [])
          × All (λ f. Resolved ts f (link_fields numbers uuid lower m at fs s).fields) fs
    unfolding link_fields
    fields-Resolved [] s h e d = (e, tt)
    fields-Resolved (f ∷ fs) s h e d =
        let s1 = link_field numbers uuid lower m at f s in
        let (passed, later) = fields-Resolved fs s1 h e d.1 in
        let links = link_field-Links f s h passed in
        (
          field_passed f s h passed,
          (
            λ is id held.
                Links-Resolved f s s1 links is id (sym (fields_other f.name fs s1 h e d.0) ∙ held),
            later,
          ),
        )
