-- ===== src/Spaces/Spec/Views.antt =====
-- `validateAppSpec` accepts what app-spec.ts describes: its views and who may sign in.
use gomer.Base.{
  ℕ, suc, ◌≡◌, ◌↔◌, ◌⊎◌, inl, inr, refl, Bool, true, false, ◌||◌, if◌then◌else◌, Option, none, some,
  List, [], ◌∷◌,
}
use gomer.Base.Text.{String}
use gomer.Spaces.Json.{Value, obj, Props, own}
use gomer.Spaces.Checks.{
  Place, Fault, Faults, widget_kinds, equals, members, object_of, widget_at, view_at, whole,
  bad_type, bad_mode, bad_signup,
}
use gomer.Spaces.Spec.{
  validate_widget, validate_widgets, view_body, validate_view, validate_views, auth_given,
}
use gomer.Spaces.Spec.Parts.{
  iff_trans, check_iff, when_iff, require_iff, append_iff, object_of_iff, equals_iff, is_str_iff,
  is_bool_iff, is_filled_iff, is_among_iff, members_iff,
}
use gomer.Spaces.Spec.WellFormed.{Every, IsWidget, IsBody, IsView, IsAuth}

-- A view of either of two types, or of a third.
three_ways {ℓ κ μ ν ξ} :
    {A : Type ℓ} {B : Type κ} {C : Type μ} {P : Type ν} {Q : Type ξ} (a b c : Bool) (xs ys : Faults)
    (p : Place) (f : Fault)
    → (a ≡ true) ↔ A
    → (b ≡ true) ↔ B
    → (c ≡ true) ↔ C
    → ((A → C → ⊥) × (B → C → ⊥))
    → (xs ≡ []) ↔ P
    → (ys ≡ []) ↔ Q
    → ((if a || b then xs else if c then ys else (p, f) ∷ []) ≡ []) ↔ (((A ⊎ B) × P) ⊎ (C × Q))
three_ways true b c xs ys p f ia ib ic d ix iy = (
  λ e. inl (inl (ia.0 refl), ix.0 e),
  λ h. elim h [ inl k ↦ ix.1 k.1 | inr k ↦ absurd (d.0 (ia.0 refl) k.0) ],
)
three_ways false true c xs ys p f ia ib ic d ix iy = (
  λ e. inl (inr (ib.0 refl), ix.0 e),
  λ h. elim h [ inl k ↦ ix.1 k.1 | inr k ↦ absurd (d.1 (ib.0 refl) k.0) ],
)
three_ways false false true xs ys p f ia ib ic d ix iy = (
  λ e. inr (ic.0 refl, iy.0 e),
  λ h. elim h [ inl k ↦ elim k.0 [ inl a ↦ cc (ia.1 a) | inr b ↦ cc (ib.1 b) ] | inr k ↦ iy.1 k.1 ],
)
three_ways false false false xs ys p f ia ib ic d ix iy = (
  λ e. cc,
  λ h. elim h [
    | inl k ↦ elim k.0 [ inl a ↦ cc (ia.1 a) | inr b ↦ cc (ib.1 b) ]
    | inr k ↦ cc (ic.1 k.0)
  ],
)

module _ {N : Type 0} where
  IsWidget-iff :
      (p : Place) (names : List String) (ps : Props N)
      → (validate_widget p names (obj ps) ≡ []) ↔ IsWidget names ps
  unfolding validate_widget
  IsWidget-iff p names ps =
      append_iff _ _ (check_iff _ _ _ (is_among_iff widget_kinds (own "kind" ps))) (
        append_iff _ _ (check_iff _ _ _ (is_filled_iff (own "label" ps))) (
          append_iff _ _ (check_iff _ _ _ (is_among_iff names (own "entity" ps))) (
            check_iff _ _ _
              (when_iff _ _ (equals_iff "sum" (own "kind" ps)) (is_str_iff (own "field" ps))))))

  widgets_iff :
      (i j : ℕ) (names : List String) (vs : List (Value N))
      → (validate_widgets i j names vs ≡ []) ↔ Every (IsWidget names) vs
  unfolding validate_widgets
  widgets_iff i j names [] = (λ e. tt, λ h. refl)
  widgets_iff i j names (obj ps ∷ vs) =
      append_iff _ _ (IsWidget-iff (widget_at i j) names ps) (widgets_iff i (suc j) names vs)
  widgets_iff i j names (_ ∷ vs) = (λ e. cc, λ h. elim h [ ])

  IsBody-iff :
      (i : ℕ) (names : List String) (ps : Props N) → (view_body i names ps ≡ []) ↔ IsBody names ps
  unfolding view_body
  IsBody-iff i names ps =
      let type : Option (Value N) = own "type" ps in
      three_ways (equals "form" type) (equals "table" type) (equals "dashboard" type) _ _
        (view_at i) bad_type (equals_iff "form" type) (equals_iff "table" type)
        (equals_iff "dashboard" type) (λ e f. cc (← e, f), λ e f. cc (← e, f))
        (check_iff _ _ _ (is_among_iff names (own "entity" ps)))
        (iff_trans
          (append_iff _ _ (require_iff _ _ _) (widgets_iff i 0 names (members (own "widgets" ps))))
          (members_iff (Every (IsWidget names)) (own "widgets" ps)))

  pub views_iff :
      (i : ℕ) (names : List String) (vs : List (Value N))
      → (validate_views i names vs ≡ []) ↔ Every (IsView names) vs
  unfolding validate_views validate_view
  views_iff i names [] = (λ e. tt, λ h. refl)
  views_iff i names (obj ps ∷ vs) =
      append_iff _ _
        (append_iff _ _ (check_iff _ _ _ (is_filled_iff (own "title" ps))) (IsBody-iff i names ps))
        (views_iff (suc i) names vs)
  views_iff i names (_ ∷ vs) = (λ e. cc, λ h. elim h [ ])

  auth_given_iff :
      (o : Option (Props N)) → (auth_given o ≡ []) ↔ ((qs : Props N) × (o ≡ some qs) × IsAuth qs)
  unfolding auth_given
  auth_given_iff none = (λ e. cc, λ h. cc (h.1))
  auth_given_iff (some qs) =
      let is =
        append_iff _ _ (check_iff _ whole bad_mode (equals_iff "magic-link" (own "mode" qs)))
          (check_iff _ whole bad_signup (is_bool_iff (own "allowSignup" qs))) in
      (λ e. (qs, refl, is.0 e), λ h. let same : h.0 ≡ qs = cc (h.1) in is.1 (rw (← same) h.2))

  pub IsAuth-iff :
      (o : Option (Value N))
      → (auth_given (object_of o) ≡ []) ↔ ((qs : Props N) × (o ≡ some (obj qs)) × IsAuth qs)
  IsAuth-iff o =
      let is = auth_given_iff (object_of o) in
      (
        λ e. let (qs, f, h) = is.0 e in (qs, (object_of_iff o qs).0 f, h),
        λ h. is.1 (h.0, (object_of_iff o h.0).1 h.1, h.2),
      )
