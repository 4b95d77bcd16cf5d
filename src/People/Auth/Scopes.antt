-- ===== src/People/Auth/Scopes.antt =====
-- The two kinds of session, of members and of the visitors of a Space.
use mathlib.Core.Path.{subst}
use gomer.Base.{
  ℕ, ◌≡◌, inl, inr, refl, sym, ap, ◌∙◌, true, ◌&&◌, Option, some, Option-cases, List, find,
  find_holds, both_parts,
}
use gomer.Base.Text.{String, str_eq, eq_iff}
use gomer.Base.Answers.{
  given, refused, unauthorized, >>=-eq-given, or_refuse-eq-given, guard-eq-given, given_inj,
}
use gomer.Spaces.Json.{Value, str, Props, own}
use gomer.Spaces.Checks.{equals}
use gomer.Spaces.Spec.Parts.{equals_iff}
use gomer.Spaces.Rows.{Space, find_published_by_slug}
use gomer.Spaces.Sessions.{Platform, Tables}
use gomer.Spaces.Guard.{
  Claimed, bearer, claimed, pinned, let_in, check_token, verify_session, can_activate,
}
use gomer.People.Auth.{validate}

-- Claims with a scope are no member's.
validate-scoped :
    {N : Type 0} (claims : Props N) (v : Value N)
    → own "scope" claims ≡ some v
    → validate claims ≡ refused unauthorized
unfolding validate
validate-scoped claims v scope = rw scope refl

found-slug :
    (spaces : List Space) (slug : String) (space : Space)
    → find_published_by_slug spaces slug ≡ given space
    → (space.slug ≡ slug) × (space.is_published ≡ true)
unfolding find_published_by_slug
found-slug spaces slug space e =
    let q = λ (s : Space). str_eq s.slug slug && s.is_published in
    elim (Option-cases (find q spaces)) [
      | inl missing ↦ cc (rw missing at e)
      | inr (s, there) ↦
          let is : s ≡ space = given_inj (rw there at e) in
          let (slug_is, published) = both_parts _ _ (find_holds q spaces s there) in
          subst (λ (x : Space). (x.slug ≡ slug) × (x.is_published ≡ true)) is
            ((eq_iff s.slug slug).0 slug_is, published)
    ]

module _ (p : Platform) where
  -- The guard of the routes of a Space lets a request through only if the Space of the route is
  -- published, and its bearer token verifies with the claims of a visitor of that very Space; such a
  -- token is refused on the routes of members.
  pub can_activate-scoped :
      (now : ℕ) (header : Option String) (slug : String) (t : Tables) (space : Space)
      (visitor : Claimed p)
      → can_activate p now header slug t ≡ given (space, visitor)
      → (space.slug ≡ slug)
        × (space.is_published ≡ true)
        × (token : String) × (claims : Props p.Num) × (bearer header ≡ some token)
        × (p.verify now token ≡ some claims)
        × (own "scope" claims ≡ some (str "space"))
        × (own "spaceId" claims ≡ some (str space.id))
        × (visitor.space_user_id ≡ own "sub" claims)
        × (validate claims ≡ refused unauthorized)
  unfolding can_activate verify_session
  can_activate-scoped now header slug t space visitor e =
      let (token, held, e1) =
        or_refuse-eq-given (bearer header) unauthorized (check_token p now slug t) e in
      let (v, session, e2) = >>=-eq-given (verify_session p now token) (let_in p slug t) e1 in
      let (claims, verified, e3) =
        or_refuse-eq-given (p.verify now token) unauthorized (claimed p) session in
      let (scope, e4) = guard-eq-given (equals "space" (own "scope" claims)) unauthorized _ e3 in
      let (s, there, e5) = >>=-eq-given (find_published_by_slug t.spaces slug) (pinned p v) e2 in
      let (own_space, e6) =
        guard-eq-given (equals s.id v.space_id) unauthorized (given (s, v)) e5 in
      let v_is = given_inj e4 in
      let space_is : s ≡ space = ap (λ (r : Space × Claimed p). r.0) (given_inj e6) in
      let visitor_is : v ≡ visitor = ap (λ (r : Space × Claimed p). r.1) (given_inj e6) in
      let scoped = (equals_iff "space" (own "scope" claims)).0 scope in
      let pins = (equals_iff s.id v.space_id).0 own_space in
      let (slug_is, published) = found-slug t.spaces slug s there in
      (
        ap (λ (x : Space). x.slug) (sym space_is) ∙ slug_is,
        ap (λ (x : Space). x.is_published) (sym space_is) ∙ published,
        token,
        claims,
        held,
        verified,
        scoped,
        (ap (λ (x : Claimed p). x.space_id) v_is ∙ pins)
            ∙ ap (λ (x : Space). some (str x.id)) space_is,
        ap (λ (x : Claimed p). x.space_user_id) (sym visitor_is)
            ∙ ap (λ (x : Claimed p). x.space_user_id) (sym v_is),
        validate-scoped claims (str "space") scoped,
      )
