-- ===== src/Spaces/Spec/Names.antt =====
-- The names that `validateEntity` and `validateField` collect, and duplicates among them.
use gomer.Base.{
  ◌≡◌, ◌≢◌, ◌↔◌, inl, inr, refl, true, false, ◌||◌, Option, none, some, List, [], ◌∷◌, ◌++◌, arith,
  Bool-cases, All, All-both, All-imp,
}
use gomer.Base.Text.{String, str_eq, eq_iff}
use gomer.Spaces.Checks.{Place, is_identifier, has, name_faults, add_name}
use gomer.Spaces.Spec.WellFormed.{Distinct}

-- Each name is new when its turn comes.
abbrev pub Fresh : List String → List String → Type 0
Fresh seen [] = Unit
Fresh seen (n ∷ ns) = (has n seen ≡ false) × Fresh (seen ++ n ∷ []) ns

abbrev pub IsNew : String → List String → Option String → Type 0
IsNew n seen o = (o ≡ some n) × (is_identifier n ≡ true) × (has n seen ≡ false)

-- A name without a fault is a new identifier.
pub name_faults_iff :
    (p : Place) (seen : List String) (o : Option String)
    → (name_faults p seen o ≡ []) ↔ ((n : String) × IsNew n seen o)
unfolding name_faults
name_faults_iff p seen none = (λ e. cc, λ h. cc (h.1.0))
name_faults_iff p seen (some s) = (
  λ e. elim (Bool-cases (is_identifier s)) [
    | inr wrong ↦ cc (rw wrong at e)
    | inl right ↦ elim (Bool-cases (has s seen)) [
      | inl old ↦ cc (rw (right, old) at e)
      | inr new ↦ (s, (refl, right, new))
    ]
  ],
  λ h. let text : s ≡ h.0 = cc (h.1.0) in rw (text, h.1.1, h.1.2),
)

pub add_name-new :
    (seen : List String) (o : Option String) (n : String)
    → IsNew n seen o
    → add_name seen o ≡ seen ++ n ∷ []
unfolding add_name
add_name-new seen none n h = cc (h.0)
add_name-new seen (some s) n h = let text : s ≡ n = cc (h.0) in rw (text, h.1, h.2)

has-append :
    (m n : String) (seen : List String) → has m (seen ++ n ∷ []) ≡ (has m seen || str_eq m n)
unfolding has
has-append m n [] = ground arith
has-append m n (s ∷ seen) = ground (arith, has-append m n seen)

differs :
    (m n : String) (seen : List String)
    → (has m (seen ++ n ∷ []) ≡ false) ↔ ((has m seen ≡ false) × (m ≢ n))
differs m n seen =
    rw (has-append m n seen)
      (λ e. (ground arith, λ h. ground (arith, eq_iff m n)), λ h. ground (arith, eq_iff m n))

-- New one after another: new at first, and distinct.
pub Fresh-iff :
    (seen ns : List String) → Fresh seen ns ↔ (All (λ m. has m seen ≡ false) ns × Distinct ns)
Fresh-iff seen [] = (λ h. (tt, tt), λ h. tt)
Fresh-iff seen (n ∷ ns) =
    let rest = Fresh-iff (seen ++ n ∷ []) ns in
    (
      λ h.
          let (later, apart) = rest.0 h.1 in
          (
            (h.0, All-imp _ _ ns (λ m e. ((differs m n seen).0 e).0) later),
            (All-imp _ _ ns (λ m e. ((differs m n seen).0 e).1) later, apart),
          ),
      λ h. (
        h.0.0,
        rest.1
            (All-imp _ _ ns (λ m k. (differs m n seen).1 k) (All-both _ _ ns h.0.1 h.1.0), h.1.1),
      ),
    )
