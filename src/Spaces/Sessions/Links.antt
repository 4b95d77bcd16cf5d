-- ===== src/Spaces/Sessions/Links.antt =====
-- A sign-in link is used once.
use gomer.Base.{
  ℕ, ◌≡◌, ◌≢◌, inl, inr, refl, sym, ap, ◌∙◌, Bool, true, false, not, ◌&&◌, Bool-cases, Option, none,
  some, is_some, Option-cases, List, [], ◌∷◌, map, if◌then◌else◌, All, All-append, All-keep, ltb,
  find_holds, find_All, both_parts,
}
use gomer.Base.Text.{String, str_eq, eq_iff}
use gomer.Base.Answers.{
  given, unauthorized, forbidden, ◌>>=◌, or_refuse, >>=-eq-given, or_refuse-eq-given,
  guard-eq-given, given_inj,
}
use gomer.Spaces.Rows.{Space, SpaceAuthToken, find_published_by_slug}
use gomer.Spaces.Sessions.{
  Platform, Tables, Session, before_dot, after_dot, secret_of, upsert_member, save_token, user_of,
  request_link, mint, Requested, is_declined, answer_request, normalized, enter_space, enter_as,
  enter_with, is_usable, is_filled, sign_in, redeem_in, redeem_row, token_row, verify_link,
  workspace_session, purge_expired, member_email,
}

-- No token of an id can be used again.
abbrev pub IsSpent : String → List SpaceAuthToken → Type 0
IsSpent id = All (λ k. k.id ≡ id → is_some k.used_at ≡ true)

upsert_member-tokens :
    (now : ℕ) (new_id space_id email : String) (name : Option String) (t : Tables)
    → (upsert_member now new_id space_id email name t).1.tokens ≡ t.tokens
unfolding upsert_member
upsert_member-tokens now new_id space_id email name t =
    elim (Option-cases (user_of t.users space_id email)) [
      | inl missing ↦ rw (missing, upsert_member) refl
      | inr (u, there) ↦ rw (there, upsert_member) refl
    ]

save_token-IsSpent :
    (new : SpaceAuthToken) (ks : List SpaceAuthToken)
    → is_some new.used_at ≡ true
    → IsSpent new.id (map (save_token new) ks)
save_token-IsSpent new [] used = tt
save_token-IsSpent new (k ∷ ks) used = elim (Bool-cases (str_eq k.id new.id)) [
  | inl same ↦ rw same (λ e. used, save_token-IsSpent new ks used)
  | inr other ↦ rw other (λ e. cc (other, (eq_iff k.id new.id).1 e), save_token-IsSpent new ks used)
]

save_token-keeps :
    (id : String) (new : SpaceAuthToken) (ks : List SpaceAuthToken)
    → is_some new.used_at ≡ true
    → IsSpent id ks
    → IsSpent id (map (save_token new) ks)
save_token-keeps id new [] used h = tt
save_token-keeps id new (k ∷ ks) used h = elim (Bool-cases (str_eq k.id new.id)) [
  | inl same ↦ rw same (λ e. used, save_token-keeps id new ks used h.1)
  | inr other ↦ rw other (h.0, save_token-keeps id new ks used h.1)
]

module _ (p : Platform) where
  -- The parts of a redeemed link.
  pub record Redeemed (now : ℕ) (new_id slug raw : String) (t : Tables) (s : Session) (t1 : Tables)
      : Type 0 where
    pub space : Space
    pub row : SpaceAuthToken
    pub found_space : find_published_by_slug t.spaces slug ≡ given space
    pub found_row : token_row p space raw t ≡ some row
    pub usable : is_usable p now (secret_of (after_dot raw)) row ≡ true
    pub result :
        sign_in p now new_id space.id row.email none
          (record t { tokens = map (save_token (record row { used_at = some now })) t.tokens })
        ≡ (s, t1)

  pub verify_link-Redeemed :
      (now : ℕ) (new_id slug raw : String) (t : Tables) (s : Session) (t1 : Tables)
      → verify_link p now new_id slug raw t ≡ given (s, t1)
      → Redeemed now new_id slug raw t s t1
  unfolding verify_link
  verify_link-Redeemed now new_id slug raw t s t1 e =
      let (space, found_space, e1) =
        >>=-eq-given (find_published_by_slug t.spaces slug) (redeem_in p now new_id raw t) e in
      let secret = secret_of (after_dot raw) in
      let (filled, e2) =
        guard-eq-given (is_filled p (before_dot raw) && is_filled p secret) unauthorized
          (or_refuse (token_row p space raw t) unauthorized
            >>= redeem_row p now new_id space secret t)
          e1 in
      let (row, found_row, e3) =
        or_refuse-eq-given (token_row p space raw t) unauthorized
          (redeem_row p now new_id space secret t) e2 in
      let (usable, e4) =
        guard-eq-given (is_usable p now secret row) unauthorized
          (given (
            sign_in p now new_id space.id row.email none (record t {
              tokens = map (save_token (record row { used_at = some now })) t.tokens;
            })))
          e3 in
      record {
        space = space;
        row = row;
        found_space = found_space;
        found_row = found_row;
        usable = usable;
        result = given_inj e4;
      }

  -- What happens to the tables afterwards; the database gives a new token another id.
  pub data Later (id : String) (t : Tables) : Tables → Type 0 where
    here : Later id t t
    requests :
        {u : Tables} (now : ℕ) (new_id secret slug email : String) (r : Requested p)
        → Later id t u
        → new_id ≢ id
        → request_link p now new_id secret slug email u ≡ given r
        → Later id t r.tables
    redeems :
        {u : Tables} (now : ℕ) (new_id slug raw : String) (s : Session) (v : Tables)
        → Later id t u
        → verify_link p now new_id slug raw u ≡ given (s, v)
        → Later id t v
    enters :
        {u : Tables} (now : ℕ) (new_id slug workspace_id user_id : String) (s : Session)
        (v : Tables)
        → Later id t u
        → workspace_session p now new_id slug workspace_id user_id u ≡ given (s, v)
        → Later id t v
    purges : {u : Tables} (now : ℕ) → Later id t u → Later id t (purge_expired now u)

  sign_in-tokens :
      (now : ℕ) (new_id space_id email : String) (name : Option String) (t : Tables) (s : Session)
      (t1 : Tables)
      → sign_in p now new_id space_id email name t ≡ (s, t1)
      → t1.tokens ≡ t.tokens
  sign_in-tokens now new_id space_id email name t s t1 e =
      let is = ap (λ (r : Session × Tables). r.1.tokens) e in
      sym is ∙ upsert_member-tokens now new_id space_id email name t

  verify_link-IsSpent :
      (id : String) (now : ℕ) (new_id slug raw : String) (t : Tables) (s : Session) (t1 : Tables)
      → verify_link p now new_id slug raw t ≡ given (s, t1)
      → (IsSpent id t.tokens → IsSpent id t1.tokens) × IsSpent (before_dot raw) t1.tokens
  verify_link-IsSpent id now new_id slug raw t s t1 e =
      let r = verify_link-Redeemed now new_id slug raw t s t1 e in
      let spent : SpaceAuthToken = record (r.row) { used_at = some now } in
      let same = sign_in-tokens now new_id r.space.id r.row.email none _ s t1 r.result in
      let right : r.row.id ≡ before_dot raw =
        (eq_iff r.row.id (before_dot raw)).0
          (both_parts _ _ (find_holds _ t.tokens r.row r.found_row)).0 in
      (
        λ h. rw same (save_token-keeps id spent t.tokens refl h),
        rw (same, ← right) (save_token-IsSpent spent t.tokens refl),
      )

  -- What `requestLink` makes of the tables: they stay, or there is one more token.
  requested_cases :
      (b : Bool) (now : ℕ) (new_id secret : String) (space : Space) (email : String) (t : Tables)
      (r : Requested p) (id : String)
      → (if b then record { tables = t; raw = none } else mint p now new_id secret space email t)
        ≡ r
      → new_id ≢ id
      → IsSpent id t.tokens
      → IsSpent id r.tables.tokens
  requested_cases true now new_id secret space email t r id e other h = rw (← e) h
  requested_cases false now new_id secret space email t r id e other h =
      rw (← e) (All-append _ t.tokens _ h ((λ same. absurd (other same)), tt))

  request_link-IsSpent :
      (now : ℕ) (new_id secret slug email : String) (t : Tables) (r : Requested p) (id : String)
      → request_link p now new_id secret slug email t ≡ given r
      → new_id ≢ id
      → IsSpent id t.tokens
      → IsSpent id r.tables.tokens
  unfolding request_link
  request_link-IsSpent now new_id secret slug email t r id e other h =
      let (space, found_space, e1) =
        >>=-eq-given (find_published_by_slug t.spaces slug)
          (answer_request p now new_id secret email t) e in
      requested_cases (is_declined p space email t) now new_id secret space (normalized p email) t r
        id (given_inj e1) other h

  workspace_session-tokens :
      (now : ℕ) (new_id slug workspace_id user_id : String) (t : Tables) (s : Session) (t1 : Tables)
      → workspace_session p now new_id slug workspace_id user_id t ≡ given (s, t1)
      → t1.tokens ≡ t.tokens
  unfolding workspace_session
  workspace_session-tokens now new_id slug workspace_id user_id t s t1 e =
      let (space, found_space, e1) =
        >>=-eq-given (find_published_by_slug t.spaces slug)
          (enter_space p now new_id workspace_id user_id t) e in
      let (own_space, e2) =
        guard-eq-given (str_eq space.workspace_id workspace_id) forbidden
          (or_refuse (p.find_user user_id) unauthorized >>= enter_as p now new_id space t) e1 in
      let (user, there, e3) =
        or_refuse-eq-given (p.find_user user_id) unauthorized (enter_as p now new_id space t) e2 in
      let (active, e4) =
        guard-eq-given user.is_active unauthorized
          (member_email p user.email >>= enter_with p now new_id space t user.name) e3 in
      let (email, read, e5) =
        >>=-eq-given (member_email p user.email) (enter_with p now new_id space t user.name) e4 in
      sign_in-tokens now new_id space.id (p.lower email) user.name t s t1 (given_inj e5)

  Later-IsSpent :
      (id : String) {t u : Tables} → Later id t u → IsSpent id t.tokens → IsSpent id u.tokens
  unfolding purge_expired
  Later-IsSpent id here h = h
  Later-IsSpent id (requests {u} now new_id secret slug email r l other e) h =
      request_link-IsSpent now new_id secret slug email u r id e other (Later-IsSpent id l h)
  Later-IsSpent id (redeems {u} now new_id slug raw s v l e) h =
      (verify_link-IsSpent id now new_id slug raw u s v e).0 (Later-IsSpent id l h)
  Later-IsSpent id (enters {u} now new_id slug workspace_id user_id s v l e) h =
      rw (workspace_session-tokens now new_id slug workspace_id user_id u s v e)
        (Later-IsSpent id l h)
  Later-IsSpent id (purges {u} now l) h =
      All-keep _ (λ k. not (ltb k.expires_at now)) u.tokens (Later-IsSpent id l h)

  used-unusable :
      (now : ℕ) (secret : String) (used : Option ℕ) (row : SpaceAuthToken)
      → row.used_at ≡ used
      → is_some used ≡ true
      → is_usable p now secret row ≡ true
      → ⊥
  used-unusable now secret none row is h e = cc
  used-unusable now secret (some t) row is h e = cc (is, e, ap is_some is)

  -- A link that was redeemed is never redeemed again, at whatever Space and time, whatever links are
  -- requested or redeemed and whatever members enter meanwhile, and whether or not expired tokens are
  -- purged, one operation after another; new tokens have other ids.
  pub verify_link-once :
      (now now' : ℕ) (new_id new_id' slug slug' raw : String) (t t1 u v : Tables) (s s' : Session)
      → verify_link p now new_id slug raw t ≡ given (s, t1)
      → Later (before_dot raw) t1 u
      → verify_link p now' new_id' slug' raw u ≢ given (s', v)
  verify_link-once now now' new_id new_id' slug slug' raw t t1 u v s s' first l again =
      let id = before_dot raw in
      let spent = Later-IsSpent id l (verify_link-IsSpent id now new_id slug raw t s t1 first).1 in
      let r = verify_link-Redeemed now' new_id' slug' raw u s' v again in
      let right : r.row.id ≡ id =
        (eq_iff r.row.id id).0 (both_parts _ _ (find_holds _ u.tokens r.row r.found_row)).0 in
      used-unusable now' (secret_of (after_dot raw)) r.row.used_at r.row refl
        (find_All _ _ u.tokens r.row spent r.found_row right) r.usable
