-- ===== src/People/Auth/Rotation.antt =====
-- The rotation of refresh tokens in `AuthService.refresh`.
use mathlib.Core.Path.{subst}
use gomer.Base.{
  ℕ, ◌≡◌, inl, inr, refl, sym, ap, ◌∙◌, Bool, true, false, ◌&&◌, Option, none, some, is_some,
  Bool-cases, [], ◌∷◌, take, arith, find_holds,
}
use gomer.Base.Text.{String, str_eq, eq_iff, codes, truthy}
use gomer.Base.Answers.{
  given, unauthorized, ◌>>◌, guard, or_refuse-eq-given, guard-eq-given, given_inj,
}
use gomer.Spaces.Json.{str, Props, own}
use gomer.Spaces.Checks.{text_of}
use gomer.Spaces.Spec.Parts.{text_of_iff}
use gomer.People.Users.{User, Users, find_by_id, set_refresh_token_hash}
use gomer.People.Auth.{
  Platform, AuthTokens, member_claims, issued, issue_tokens, user_of, hash_matches, refresh_as,
  refresh_with, refresh,
}

-- The row that is found has the new hash.
find-rehashed :
    (id : String) (h : Option String) (users : Users) (u : User)
    → find_by_id users id ≡ some u
    → find_by_id (set_refresh_token_hash id h users) id ≡ some (record u { refresh_token_hash = h })
unfolding find_by_id set_refresh_token_hash
find-rehashed id h [] u e = cc
find-rehashed id h (x ∷ users) u e = elim (Bool-cases (str_eq x.id id)) [
  | inl same ↦
      let is : x ≡ u = cc (rw same at e) in
      rw (same, same) (ap (λ (v : User). some (record v { refresh_token_hash = h })) is)
  | inr other ↦ rw (other, other) (find-rehashed id h users u (rw other at e))
]

module _ (p : Platform) where
  open p use {Num, hash, compare, sign_refresh, verify_refresh}

  -- What a refresh that succeeds went through.
  pub record Refreshed (now : ℕ) (token : String) (users : Users) (t : AuthTokens) (users' : Users)
      : Type 0 where
    pub claims : Props Num
    pub user : User
    pub verified : verify_refresh now token ≡ some claims
    pub found : user_of (text_of (own "sub" claims)) users ≡ some user
    pub active : is_some (truthy user.refresh_token_hash) && user.is_active ≡ true
    pub issued : issue_tokens p now user users ≡ given (t, users')

  pub refresh-Refreshed :
      (now : ℕ) (token : String) (users : Users) (t : AuthTokens) (users' : Users)
      → refresh p now token users ≡ given (t, users')
      → Refreshed now token users t users'
  unfolding refresh
  refresh-Refreshed now token users t users' e =
      let (claims, verified, e1) =
        or_refuse-eq-given (verify_refresh now token) unauthorized (refresh_with p now token users)
          e in
      let (user, found, e2) =
        or_refuse-eq-given (user_of (text_of (own "sub" claims)) users) unauthorized
          (refresh_as p now token users) e1 in
      let (active, e3) =
        guard-eq-given (is_some (truthy user.refresh_token_hash) && user.is_active) unauthorized
          (guard (hash_matches p token user.refresh_token_hash) unauthorized
            >> issue_tokens p now user users)
          e2 in
      let (matches, e4) =
        guard-eq-given (hash_matches p token user.refresh_token_hash) unauthorized
          (issue_tokens p now user users) e3 in
      record {
        claims = claims;
        user = user;
        verified = verified;
        found = found;
        active = active;
        issued = e4;
      }

  issued-parts :
      (now : ℕ) (user : User) (users : Users) (t : AuthTokens) (users' : Users)
      → issue_tokens p now user users ≡ given (t, users')
      → (str_eq user.workspace_id "" ≡ false)
        × (users'
            ≡ set_refresh_token_hash user.id
                (some (hash (sign_refresh now (member_claims user))))
                users)
  unfolding issue_tokens
  issued-parts now user users t users' e = elim (Bool-cases (str_eq user.workspace_id "")) [
    | inl empty ↦ cc (rw empty at e)
    | inr there ↦ (there, sym (ap (λ (r : AuthTokens × Users). r.1) (given_inj (rw there at e))))
  ]

  user_of-found :
      (o : Option String) (users : Users) (u : User)
      → user_of o users ≡ some u
      → (o ≡ some u.id) × (find_by_id users u.id ≡ some u)
  unfolding find_by_id
  user_of-found none users u e = cc
  user_of-found (some id) users u e =
      let is : u.id ≡ id = (eq_iff u.id id).0 (find_holds (λ x. str_eq x.id id) users u e) in
      (ap some (sym is), subst (λ i. find_by_id users i ≡ some u) (sym is) e)

  refresh_as-given :
      (now : ℕ) (token : String) (users : Users) (user : User)
      → is_some (truthy user.refresh_token_hash) && user.is_active ≡ true
      → hash_matches p token user.refresh_token_hash ≡ true
      → str_eq user.workspace_id "" ≡ false
      → (r : AuthTokens × Users) × (refresh_as p now token users user ≡ given r)
  unfolding issue_tokens
  refresh_as-given now token users user active matches there =
      (issued p now user users, rw (active, matches, there) refl)

  filled-active :
      (o : Option String) (s : String) (active : Bool)
      → str_eq s "" ≡ false
      → is_some (truthy o) && active ≡ true
      → is_some (truthy (some s)) && active ≡ true
  filled-active none s active e h = cc
  filled-active (some a) s true e h = rw e refl
  filled-active (some a) s false e h = ground (arith, eq_iff a "")

  -- A refresh token that has been rotated is still good: presented a second time, it is exchanged for
  -- new tokens again. This takes what bcrypt documents, that it reads the first 72 bytes of what it
  -- hashes and that no hash is empty, and the layout of a token: the tokens of one user begin with the
  -- same 72 characters, the encoded header and the claim `sub`.
  pub refresh-replayed :
      (now now' : ℕ) (token : String) (users users' : Users) (t : AuthTokens)
      → ((a b : String) → take 72 (codes a) ≡ take 72 (codes b) → compare a (hash b) ≡ true)
      → ((a : String) → str_eq (hash a) "" ≡ false)
      → ((n k : ℕ) (a : String) (c : Props Num) (user : User)
          → verify_refresh n a ≡ some c
          → own "sub" c ≡ some (str user.id)
          → take 72 (codes a) ≡ take 72 (codes (sign_refresh k (member_claims user))))
      → refresh p now token users ≡ given (t, users')
      → verify_refresh now' token ≡ verify_refresh now token
      → (r : AuthTokens × Users) × (refresh p now' token users' ≡ given r)
  unfolding refresh
  refresh-replayed now now' token users users' t reads_72 hash_filled same_start e still =
      let r = refresh-Refreshed now token users t users' e in
      let (sub, found) = user_of-found (text_of (own "sub" r.claims)) users r.user r.found in
      let (there, rotated) = issued-parts now r.user users t users' r.issued in
      let start =
        same_start now now token r.claims r.user r.verified
          ((text_of_iff (own "sub" r.claims) r.user.id).0 sub) in
      let matches = reads_72 token (sign_refresh now (member_claims r.user)) start in
      let again =
        find-rehashed r.user.id (some (hash (sign_refresh now (member_claims r.user)))) users r.user
          found in
      let h = hash (sign_refresh now (member_claims r.user)) in
      let user : User = record (r.user) { refresh_token_hash = some h } in
      let (result, given_again) =
        refresh_as-given now' token users' user
          (filled-active r.user.refresh_token_hash h r.user.is_active (hash_filled _) r.active)
          matches there in
      (
        result,
        rw (still ∙ r.verified, sub)
            (rw (subst (λ us. find_by_id us r.user.id ≡ some user) (sym rotated) again)
              given_again),
      )
