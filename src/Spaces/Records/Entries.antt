-- ===== src/Spaces/Records/Entries.antt =====
-- Cleaned records: their entries and keys, and what `clean[key] = value` does to them.
use gomer.Base.{
  AnyOf, ◌≡◌, ◌≢◌, inl, inr, refl, sym, Bool, true, Bool-cases, some, List, [], ◌∷◌, All, map,
}
use gomer.Base.Text.{String, str_eq, eq_iff}
use gomer.Spaces.Json.{Value, bool, num, str}
use gomer.Spaces.Spec.WellFormed.{Among, Distinct}
use gomer.Spaces.Records.{FieldType, number_type, boolean, select, FieldSpec, put}

module _ {N : Type 0} where
  -- A value of a field's type.
  abbrev pub Fits : FieldType → FieldSpec → Value N → Type 0
  Fits number_type f v = (n : N) × (v ≡ num n)
  Fits boolean f v = (b : Bool) × (v ≡ bool b)
  Fits select f v =
      (s : String) × (os : List String) × (v ≡ str s) × (f.options ≡ some os) × Among s os
  Fits _ f v = (s : String) × (v ≡ str s)

  -- An entry for one of the fields.
  abbrev pub IsEntry : List FieldSpec → String × Value N → Type 0
  IsEntry fs (k, v) = AnyOf (λ f. (f.name ≡ k) × Fits f.type f v) fs

  abbrev pub HasKey : String → List (String × Value N) → Type 0
  HasKey k c = AnyOf (λ entry. entry.0 ≡ k) c

  pub record Conforms (fs : List FieldSpec) (c : List (String × Value N)) : Type 0 where
    pub entries : All (IsEntry fs) c
    pub required : All (λ f. f.required ≡ true → HasKey f.name c) fs
    pub distinct : Distinct (map (λ entry. entry.0) c)

  pub put-All :
      (P : String × Value N → Type 0) (k : String) (v : Value N) (c : List (String × Value N))
      → P (k, v)
      → All P c
      → All P (put k v c)
  unfolding put
  put-All P k v [] h all = (h, tt)
  put-All P k v ((j, w) ∷ c) h all = elim (Bool-cases (str_eq j k)) [
    | inl same ↦ let e : j ≡ k = (eq_iff j k).0 same in rw same (rw e h, all.1)
    | inr other ↦ rw other (all.0, put-All P k v c h all.1)
  ]

  pub put-HasKey : (k : String) (v : Value N) (c : List (String × Value N)) → HasKey k (put k v c)
  unfolding put
  put-HasKey k v [] = inl refl
  put-HasKey k v ((j, w) ∷ c) = elim (Bool-cases (str_eq j k)) [
    | inl same ↦ rw same (inl ((eq_iff j k).0 same))
    | inr other ↦ rw other (inr (put-HasKey k v c))
  ]

  pub put-keeps :
      (i k : String) (v : Value N) (c : List (String × Value N)) → HasKey i c → HasKey i (put k v c)
  unfolding put
  put-keeps i k v [] h = elim h [ ]
  put-keeps i k v ((j, w) ∷ c) h = elim (Bool-cases (str_eq j k)) [
    | inl same ↦ rw same (elim h [ inl e ↦ inl e | inr e ↦ inr e ])
    | inr other ↦ rw other (elim h [ inl e ↦ inl e | inr e ↦ inr (put-keeps i k v c e) ])
  ]

  abbrev pub keys : List (String × Value N) → List String
  keys c = map (λ entry. entry.0) c

  put-apart :
      (j k : String) (v : Value N) (c : List (String × Value N))
      → k ≢ j
      → All (λ m. m ≢ j) (keys c)
      → All (λ m. m ≢ j) (keys (put k v c))
  unfolding put
  put-apart j k v [] h all = (h, tt)
  put-apart j k v ((i, w) ∷ c) h all = elim (Bool-cases (str_eq i k)) [
    | inl same ↦ rw same all
    | inr other ↦ rw other (all.0, put-apart j k v c h all.1)
  ]

  pub put-Distinct :
      (k : String) (v : Value N) (c : List (String × Value N))
      → Distinct (keys c)
      → Distinct (keys (put k v c))
  unfolding put
  put-Distinct k v [] d = (tt, tt)
  put-Distinct k v ((j, w) ∷ c) d = elim (Bool-cases (str_eq j k)) [
    | inl same ↦ rw same d
    | inr other ↦
        let apart : k ≢ j = λ e. cc (other, (eq_iff j k).1 (sym e)) in
        rw other (put-apart j k v c apart d.0, put-Distinct k v c d.1)
  ]
