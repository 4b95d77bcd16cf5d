-- ===== src/Spaces/Records/Fields.antt =====
-- One field of a record in `validateRecordData`.
use gomer.Base.{
  ◌≡◌, ◌≢◌, ◌⊎◌, inl, inr, refl, sym, ap, ◌∙◌, Bool, true, false, Bool-cases, Option, none, some,
  List, [], ◌∷◌, ◌++◌, All,
}
use gomer.Base.Text.{String, str_eq}
use gomer.Spaces.Json.{Value, null, str, Numbers}
use gomer.Spaces.Spec.WellFormed.{Among, Distinct}
use gomer.Spaces.Spec.Parts.{has_iff}
use gomer.Spaces.Convert.{Numeric, to_text, number, nan, throws, to_number, to_bool}
use gomer.Spaces.Records.{
  FieldType, number_type, boolean, select, FieldSpec, missing, includes, put, Coerced, value, wrong,
  fails, number_field, text_value, select_field, coerce_as, coerce_field_value, Draft, add_coerced,
  missed, check_field,
}
use gomer.Spaces.Records.Entries.{Fits, HasKey, put-All, put-HasKey, put-keeps, put-Distinct, keys}

append-ne-nil {ℓ} : {A : Type ℓ} (xs : List A) (x : A) → xs ++ x ∷ [] ≢ []
append-ne-nil [] x e = cc
append-ne-nil (y ∷ xs) x e = cc

module _ (numbers : Numbers) where
  open numbers use {Num}

  number_field-Fits :
      (f : FieldSpec) (n : Numeric numbers) (v : Value Num)
      → number_field numbers f.name n ≡ value v
      → Fits number_type f v
  number_field-Fits f (number n) v e = (n, cc)
  number_field-Fits f nan v e = cc
  number_field-Fits f throws v e = cc

  text_value-Fits :
      (o : Option String) (v : Value Num)
      → text_value numbers o ≡ value v
      → (s : String) × (v ≡ str s)
  text_value-Fits none v e = cc
  text_value-Fits (some s) v e = (s, cc)

  includes-Among :
      (o : Option (List String)) (s : String)
      → includes o s ≡ true
      → (os : List String) × (o ≡ some os) × Among s os
  includes-Among none s e = cc
  includes-Among (some os) s e = (os, refl, (has_iff s os).0 e)

  select_field-Fits :
      (f : FieldSpec) (o : Option String) (v : Value Num)
      → select_field numbers f o ≡ value v
      → Fits select f v
  select_field-Fits f none v e = cc
  select_field-Fits f (some s) v e = elim (Bool-cases (includes f.options s)) [
    | inl listed ↦
        let (os, given, among) = includes-Among f.options s listed in
        (s, os, cc (rw listed at e), given, among)
    | inr other ↦ cc (rw other at e)
  ]

  coerce_as-Fits :
      (t : FieldType) (f : FieldSpec) (raw v : Value Num)
      → coerce_as numbers t f raw ≡ value v
      → Fits t f v
  coerce_as-Fits number_type f raw v e = number_field-Fits f (to_number numbers raw) v e
  coerce_as-Fits boolean f raw v e = (to_bool numbers raw, cc)
  coerce_as-Fits select f raw v e = select_field-Fits f (to_text numbers raw) v e
  coerce_as-Fits _ f raw v e = text_value-Fits (to_text numbers raw) v e

  -- What a field without an error does: it is optional and left out, or its value is put.
  abbrev pub Passed : FieldSpec → Draft numbers → Draft numbers → Type 0
  Passed f d d1 =
      ((f.required ≡ false) × (d1 ≡ d))
      ⊎ ((v : Value Num) × Fits f.type f v × (d1 ≡ record d { clean = put f.name v d.clean }))

  some_inj {ℓ} : {A : Type ℓ} (a b : A) → some a ≡ some b → a ≡ b
  some_inj a b e = cc

  missed-Passed :
      (must : Bool) (f : FieldSpec) (d d1 : Draft numbers)
      → f.required ≡ must
      → some (missed numbers must f.name d) ≡ some d1
      → d1.errors ≡ []
      → Passed f d d1
  missed-Passed true f d d1 is e none_left =
      let errors = ap (λ (x : Draft numbers). x.errors) (some_inj _ _ e) in
      absurd (append-ne-nil d.errors (missing f.name) (errors ∙ none_left))
  missed-Passed false f d d1 is e none_left = inl (is, sym (some_inj _ _ e))

  add_coerced-Passed :
      (f : FieldSpec) (c : Coerced numbers) (d d1 : Draft numbers)
      → ((v : Value Num) → c ≡ value v → Fits f.type f v)
      → add_coerced numbers f.name c d ≡ some d1
      → d1.errors ≡ []
      → Passed f d d1
  add_coerced-Passed f (value v) d d1 fits e none_left = inr (v, fits v refl, sym (some_inj _ _ e))
  add_coerced-Passed f (wrong w) d d1 fits e none_left =
      let errors = ap (λ (x : Draft numbers). x.errors) (some_inj _ _ e) in
      absurd (append-ne-nil d.errors w (errors ∙ none_left))
  add_coerced-Passed f fails d d1 fits e none_left = cc

  given-Passed :
      (f : FieldSpec) (raw : Value Num) (d d1 : Draft numbers)
      → add_coerced numbers f.name (coerce_field_value numbers f raw) d ≡ some d1
      → d1.errors ≡ []
      → Passed f d d1
  unfolding coerce_field_value
  given-Passed f raw d d1 =
      add_coerced-Passed f (coerce_as numbers f.type f raw) d d1 (coerce_as-Fits f.type f raw)

  pub check_field-Passed :
      (f : FieldSpec) (o : Option (Value Num)) (d d1 : Draft numbers)
      → check_field numbers f o d ≡ some d1
      → d1.errors ≡ []
      → Passed f d d1
  unfolding check_field
  check_field-Passed f none d d1 e none_left = missed-Passed f.required f d d1 refl e none_left
  check_field-Passed f (some null) d d1 e none_left =
      missed-Passed f.required f d d1 refl e none_left
  check_field-Passed f (some (str s)) d d1 e none_left = elim (Bool-cases (str_eq s "")) [
    | inl empty ↦ missed-Passed f.required f d d1 refl (rw empty at e) none_left
    | inr given ↦ given-Passed f (str s) d d1 (rw given at e) none_left
  ]
  check_field-Passed f (some raw) d d1 e none_left = given-Passed f raw d d1 e none_left

  -- What a checked field leaves of an entry, a key and the distinct keys.
  pub Passed-All :
      (P : String × Value Num → Type 0) (f : FieldSpec) (d d1 : Draft numbers)
      → Passed f d d1
      → ((v : Value Num) → Fits f.type f v → P (f.name, v))
      → All P d.clean
      → All P d1.clean
  Passed-All P f d d1 (inl (may, same)) h all = rw same all
  Passed-All P f d d1 (inr (v, fits, same)) h all =
      rw same (put-All P f.name v d.clean (h v fits) all)

  pub Passed-keeps :
      (k : String) (f : FieldSpec) (d d1 : Draft numbers)
      → Passed f d d1
      → HasKey k d.clean
      → HasKey k d1.clean
  Passed-keeps k f d d1 (inl (may, same)) h = rw same h
  Passed-keeps k f d d1 (inr (v, fits, same)) h = rw same (put-keeps k f.name v d.clean h)

  pub Passed-HasKey :
      (f : FieldSpec) (d d1 : Draft numbers)
      → Passed f d d1
      → f.required ≡ true
      → HasKey f.name d1.clean
  Passed-HasKey f d d1 (inl (may, same)) must = cc
  Passed-HasKey f d d1 (inr (v, fits, same)) must = rw same (put-HasKey f.name v d.clean)

  pub Passed-Distinct :
      (f : FieldSpec) (d d1 : Draft numbers)
      → Passed f d d1
      → Distinct (keys d.clean)
      → Distinct (keys d1.clean)
  Passed-Distinct f d d1 (inl (may, same)) h = rw same h
  Passed-Distinct f d d1 (inr (v, fits, same)) h = rw same (put-Distinct f.name v d.clean h)
