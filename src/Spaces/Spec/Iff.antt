-- ===== src/Spaces/Spec/Iff.antt =====
-- `validateAppSpec` accepts what app-spec.ts describes: the whole spec.
use gomer.Base.{◌≡◌, ◌↔◌, refl, List, []}
use gomer.Base.Text.{String}
use gomer.Spaces.Json.{Value, null, bool, num, str, arr, obj, native, Props, own}
use gomer.Spaces.Checks.{has, members, whole, no_name, bad_description}
use gomer.Spaces.Spec.{validate_entities, validate_views, spec_faults, validate_app_spec}
use gomer.Spaces.Spec.Parts.{
  split-nil, check_iff, require_iff, is_str_iff, is_filled_iff, optional_iff, members_iff,
}
use gomer.Spaces.Spec.Names.{Fresh-iff}
use gomer.Spaces.Spec.Entities.{entities_sound, entities_complete, All_any}
use gomer.Spaces.Spec.Views.{views_iff, IsAuth-iff}
use gomer.Spaces.Spec.WellFormed.{Each, Every, IsEntity, IsView, IsAppSpec}

module _ {N : Type 0} where
  spec_sound : (ps : Props N) → spec_faults ps ≡ [] → (names : List String) × IsAppSpec ps names
  unfolding spec_faults
  spec_sound ps e =
      let (name, e1) = split-nil _ _ e in
      let (description, e2) = split-nil _ _ e1 in
      let (nonempty, e3) = split-nil _ _ e2 in
      let (entities, e4) = split-nil _ _ e3 in
      let (some_views, e5) = split-nil _ _ e4 in
      let (views, auth) = split-nil _ _ e5 in
      let checked : validate_views 0 (validate_entities 0 [] (members (own "entities" ps))).0
            (members (own "views" ps))
          ≡ [] =
        views in
      let (ns, each, fresh, found) = entities_sound 0 [] (members (own "entities" ps)) entities in
      (
        ns,
        record {
          named = (check_iff _ _ _ (is_filled_iff (own "name" ps))).0 name;
          described =
              (check_iff _ _ _
                  (optional_iff (own "description" ps) _ (is_str_iff (own "description" ps)))).0
                description;
          entities =
              (members_iff (λ vs. Each IsEntity vs ns) (own "entities" ps)).0
                ((require_iff _ _ _).0 nonempty, each);
          distinct = ((Fresh-iff [] ns).0 fresh).1;
          views = (members_iff (Every (IsView ns)) (own "views" ps)).0 (
            (require_iff _ _ _).0 some_views,
            (views_iff 0 ns (members (own "views" ps))).0 (rw found at checked),
          );
          auth = (IsAuth-iff (own "auth" ps)).0 auth;
        },
      )

  spec_complete : (ps : Props N) (ns : List String) → IsAppSpec ps ns → spec_faults ps ≡ []
  unfolding spec_faults has
  spec_complete ps ns h =
      let (some_entities, each) =
        (members_iff (λ vs. Each IsEntity vs ns) (own "entities" ps)).1 h.entities in
      let (some_views, views) = (members_iff (Every (IsView ns)) (own "views" ps)).1 h.views in
      let fresh = (Fresh-iff [] ns).1 (All_any _ ns (λ m. refl), h.distinct) in
      let (faultless, found) = entities_complete 0 [] each fresh in
      rw
        (
          (check_iff _ whole no_name (is_filled_iff (own "name" ps))).1 h.named,
          (check_iff _ whole bad_description
                (optional_iff (own "description" ps) _ (is_str_iff (own "description" ps)))).1
              h.described,
          some_entities,
          faultless,
          some_views,
          found,
          (views_iff 0 ns (members (own "views" ps))).1 views,
        )
        ((IsAuth-iff (own "auth" ps)).1 h.auth)

  -- A spec is accepted exactly if it is an object of a well-formed app, with the names of its
  -- entities: they are identifiers and differ from one another, so are and do the names of the
  -- fields of one entity, each entity has a field and the app a view, a field has one of the eight
  -- types, the views and their widgets are over these entities, labels and titles are not blank, and
  -- the sign-in has the one mode. Of a select field it only asks that there are options, of a
  -- reference that it names an entity, not one of these.
  pub validate_app_spec_iff :
      (v : Value N)
      → (validate_app_spec v ≡ [])
        ↔ ((ps : Props N) × (names : List String) × (v ≡ obj ps) × IsAppSpec ps names)
  unfolding validate_app_spec
  validate_app_spec_iff (obj ps) = (
    λ e. let (names, h) = spec_sound ps e in (ps, names, refl, h),
    λ h. let same : h.0 ≡ ps = cc (h.2) in spec_complete ps h.1 (rw (← same) h.3),
  )
  validate_app_spec_iff null = (λ e. cc, λ h. cc (h.2))
  validate_app_spec_iff (bool b) = (λ e. cc, λ h. cc (h.2))
  validate_app_spec_iff (num b) = (λ e. cc, λ h. cc (h.2))
  validate_app_spec_iff (str b) = (λ e. cc, λ h. cc (h.2))
  validate_app_spec_iff (arr b) = (λ e. cc, λ h. cc (h.2))
  validate_app_spec_iff (native b) = (λ e. cc, λ h. cc (h.2))
