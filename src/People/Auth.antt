-- ===== src/People/Auth.antt =====
-- The sign-in of members: `JwtStrategy` and `AuthService` (src/auth), `RolesGuard` (src/common/guards)
-- and `SuperAdminAccessService` (src/super-admin/super-admin-access.service.ts).
pub mod Scopes
pub mod Rotation
use gomer.Base.{
  ℕ, ◌≡◌, Bool, true, false, not, ◌&&◌, ◌||◌, Option, none, some, is_some, List, [], ◌∷◌, find, map,
  if◌then◌else◌,
}
use gomer.Base.Text.{String, str_eq, truthy, trim}
use gomer.Base.Answers.{
  Answer, given, refused, not_found, bad_request, unauthorized, forbidden, ◌>>=◌, ◌>>◌, or_refuse,
  guard,
}
use gomer.Spaces.Json.{Value, str, Props, end, prop, own}
use gomer.Spaces.Checks.{has, text_of}
use gomer.People.Users.{
  UserRole, admin, member, User, Users, same_role, find_by_id, find_memberships_of,
  set_refresh_token_hash,
}

-- bcrypt, and the signing of tokens with the two secrets. A token that does not verify has no claims.
pub record Platform : Type 1 where
  pub Num : Type 0
  pub hash : String → String
  pub compare : String → String → Bool
  pub sign_access : ℕ → Props Num → String
  pub sign_refresh : ℕ → Props Num → String
  pub verify_refresh : ℕ → String → Option (Props Num)

abbrev pub role_name : UserRole → String
role_name admin = "admin"
role_name member = "member"

-- The role of a name, if it is one of WORKSPACE_ROLES.
abbrev pub role_of : Option String → Option UserRole
role_of none = none
role_of (some s) =
    if str_eq s "admin" then some admin else if str_eq s "member" then some member else none

pub record AuthenticatedUser (N : Type 0) : Type 0 where
  pub user_id : String
  pub workspace_id : String
  pub slack_user_id : Option (Value N)
  pub role : UserRole

abbrev pub any_role : List UserRole → UserRole → Bool
any_role [] r = false
any_role (x ∷ xs) r = same_role x r || any_role xs r

module _ {N : Type 0} where
  -- The claims that are asserted: texts that are not empty, and a role.
  abbrev pub asserted :
      Option String
      → Option String
      → Option UserRole
      → Option (Value N)
      → Answer (AuthenticatedUser N)
  asserted (some sub) (some workspace_id) (some role) slack =
      given
        (record { user_id = sub; workspace_id = workspace_id; slack_user_id = slack; role = role })
  asserted _ _ _ slack = refused unauthorized

  -- `JwtStrategy.validate`
  unfoldable pub validate : Props N → Answer (AuthenticatedUser N)
  unfolding own text_of
  validate claims = do
    guard (not (is_some (own "scope" claims))) unauthorized
    asserted (truthy (text_of (own "sub" claims))) (truthy (text_of (own "workspaceId" claims)))
        (role_of (text_of (own "role" claims))) (own "slackUserId" claims)

  -- The claims of a member's tokens.
  abbrev pub member_claims : User → Props N
  member_claims user = prop "sub" (str user.id) (
      prop "workspaceId" (str user.workspace_id)
        (prop "slackUserId" (str user.slack_user_id) (prop "role" (str (role_name user.role)) end)))

  abbrev pub role_allowed : List UserRole → Option (AuthenticatedUser N) → Bool
  role_allowed roles none = false
  role_allowed roles (some user) = any_role roles user.role

  -- `RolesGuard.canActivate`, with the roles that the route declares.
  unfoldable pub roles_allow :
      Option (List UserRole) → Option (AuthenticatedUser N) → Answer (Unit {0})
  roles_allow none user = given tt
  roles_allow (some []) user = given tt
  roles_allow (some (r ∷ roles)) user = guard (role_allowed (r ∷ roles) user) forbidden

-- `isSuperAdmin`, with the allowlist and the lower case of a text as parameters.
unfoldable pub is_super_admin : List String → (String → String) → Option String → Bool
unfolding has
is_super_admin allowlist lower none = false
is_super_admin allowlist lower (some email) =
    if str_eq email "" then false else has (lower (trim email)) allowlist

pub record AuthTokens : Type 0 where
  pub access_token : String
  pub refresh_token : String

pub record CurrentUserView : Type 0 where
  pub id : String
  pub workspace_id : String
  pub slack_user_id : String
  pub name : String
  pub email : Option String
  pub avatar_url : Option String
  pub role : UserRole
  pub is_active : Bool
  pub is_super_admin : Bool

-- `getCurrentUser`
unfoldable pub get_current_user :
    List String → (String → String) → String → Users → Answer CurrentUserView
unfolding find_by_id
get_current_user allowlist lower id users = do
  user ← or_refuse (find_by_id users id) not_found
  given (record {
    id = user.id;
    workspace_id = user.workspace_id;
    slack_user_id = user.slack_user_id;
    name = user.name;
    email = user.email;
    avatar_url = user.avatar_url;
    role = user.role;
    is_active = user.is_active;
    is_super_admin = is_super_admin allowlist lower user.email;
  })

-- `findById(payload.sub)`; each refresh token that is signed has a text there.
abbrev pub user_of : Option String → Users → Option User
user_of none users = none
user_of (some id) users = find_by_id users id

module _ (p : Platform) where
  open p use {Num, hash, compare, sign_access, sign_refresh, verify_refresh}

  -- The new tokens, and the table with the hash of the new refresh token.
  abbrev pub issued : ℕ → User → Users → AuthTokens × Users
  issued now user users =
      let refresh = sign_refresh now (member_claims user) in
      (
        record { access_token = sign_access now (member_claims user); refresh_token = refresh },
        set_refresh_token_hash user.id (some (hash refresh)) users,
      )

  -- `issueTokens`
  unfoldable pub issue_tokens : ℕ → User → Users → Answer (AuthTokens × Users)
  unfolding set_refresh_token_hash
  issue_tokens now user users =
      if str_eq user.workspace_id "" then refused bad_request else given (issued now user users)

  abbrev pub hash_matches : String → Option String → Bool
  hash_matches token none = false
  hash_matches token (some h) = compare token h

  abbrev pub refresh_as : ℕ → String → Users → User → Answer (AuthTokens × Users)
  refresh_as now token users user = do
    guard (is_some (truthy user.refresh_token_hash) && user.is_active) unauthorized
    guard (hash_matches token user.refresh_token_hash) unauthorized
    issue_tokens now user users

  abbrev pub refresh_with : ℕ → String → Users → Props Num → Answer (AuthTokens × Users)
  refresh_with now token users claims =
      or_refuse (user_of (text_of (own "sub" claims)) users) unauthorized
      >>= refresh_as now token users

  unfoldable pub refresh : ℕ → String → Users → Answer (AuthTokens × Users)
  unfolding find_by_id own text_of issue_tokens
  refresh now token users =
      or_refuse (verify_refresh now token) unauthorized >>= refresh_with now token users

  unfoldable pub logout : String → Users → Users
  unfolding set_refresh_token_hash
  logout id users = set_refresh_token_hash id none users

  unfoldable pub switch_workspace : ℕ → String → String → Users → Answer (AuthTokens × Users)
  unfolding find_by_id find_memberships_of issue_tokens
  switch_workspace now id workspace_id users = do
    user ← or_refuse (find_by_id users id) not_found
    target ←
        or_refuse
          (find (λ (u : User). str_eq u.workspace_id workspace_id) (find_memberships_of user users))
          forbidden
    issue_tokens now target users
