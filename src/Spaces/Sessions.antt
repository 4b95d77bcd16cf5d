-- ===== src/Spaces/Sessions.antt =====
-- `SpacesAuthService` (src/spaces/spaces-auth.service.ts): how a visitor of a Space signs in.
pub mod Links
pub mod Requests
use gomer.Base.{
  ℕ, ◌+◌, ◌*◌, ◌≡◌, Bool, true, false, not, ◌&&◌, ◌||◌, Option, none, some, is_some, List, [], ◌∷◌,
  ◌++◌, find, map, keep, any, or_else, ltb, leb, ◌==◌, if◌then◌else◌,
}
use gomer.Base.Text.{String, str_eq, trim, strip_text}
use Prim.Native.String.{◌++◌ as concat}
use Prim.Native.Char.{code}
use gomer.Spaces.Json.{Value, str, Props, end, prop, own}
use gomer.Spaces.Checks.{text_of, equals}
use gomer.Slack.{
  SlackReply, SlackEmailLookup, found, not_found as no_person, failed, lookup_user_by_email,
}
use gomer.Base.Answers.{
  Answer, given, refused, Refusal, not_found, bad_request, unauthorized, forbidden, ◌>>=◌, ◌>>◌,
  or_refuse, guard,
}
use gomer.Spaces.Rows.{Space, SpaceUser, SpaceAuthToken, find_published_by_slug}

-- A member of the workspace, as UsersService.findById gives it.
pub record Member : Type 0 where
  pub name : Option String
  pub email : Option String
  pub is_active : Bool

-- What the service calls: bcrypt, the signing of a session, Slack and the members' table. The claims
-- of a token are an object; a token that does not verify has none. A token is signed until a time.
pub record Platform : Type 1 where
  pub Num : Type 0
  pub hash : String → String
  pub compare : String → String → Bool
  pub sign : ℕ → Props Num → String
  pub verify : ℕ → String → Option (Props Num)
  pub bot_token : String → Option String
  pub ask_slack : String → String → Option SlackReply
  pub find_user : String → Option Member
  pub lower : String → String
  pub is_dev : Bool

pub record Tables : Type 0 where
  pub spaces : List Space
  pub users : List SpaceUser
  pub tokens : List SpaceAuthToken

-- 30 minutes
abbrev pub token_ttl_ms : ℕ
token_ttl_ms = 1_800_000

-- The row of who signed in; the response shows its id, email and name.
pub record Session : Type 0 where
  pub token : String
  pub user : SpaceUser

-- `raw.split('.')`: what is before the first dot, and what is between it and the next.
unfoldable pub before_dot : String → String
before_dot String.[] = ""
before_dot (String.◌∷◌ c s) = if code c == 46 then "" else String.◌∷◌ c (before_dot s)

unfoldable pub after_dot : String → Option String
after_dot String.[] = none
after_dot (String.◌∷◌ c s) = if code c == 46 then some s else after_dot s

abbrev pub secret_of : Option String → String
secret_of none = ""
secret_of (some s) = before_dot s

-- 7 days
abbrev pub session_ttl_ms : ℕ
session_ttl_ms = 604_800_000

abbrev teammate_id : SlackEmailLookup → Option String
teammate_id (found u) = if u.is_deleted || u.is_bot then none else some u.id
teammate_id no_person = none
teammate_id (failed e) = none

-- The row of a visitor of a Space by email.
abbrev pub user_of : List SpaceUser → String → String → Option SpaceUser
user_of users space_id email = find (λ u. str_eq u.space_id space_id && str_eq u.email email) users

abbrev pub save_user : SpaceUser → SpaceUser → SpaceUser
save_user new u = if str_eq u.id new.id then new else u

abbrev pub save_token : SpaceAuthToken → SpaceAuthToken → SpaceAuthToken
save_token new t = if str_eq t.id new.id then new else t

-- `upsertMember`, with the id that the database would generate.
unfoldable pub upsert_member :
    ℕ → String → String → String → Option String → Tables → SpaceUser × Tables
upsert_member now new_id space_id email name t = elim (user_of t.users space_id email) [
  | none ↦
      let user : SpaceUser = record {
        id = new_id;
        space_id = space_id;
        email = email;
        name = name;
        last_login_at = now;
      } in
      (user, record t { users = t.users ++ user ∷ [] })
  | some old ↦
      let user : SpaceUser = record old {
        last_login_at = now;
        name = elim old.name [ none ↦ name | some n ↦ some n ];
      } in
      (user, record t { users = map (save_user user) t.users })
]

-- `!admitted || (!teammate && !isDev)`
abbrev pub declines : Bool → Bool → Bool → Bool
declines admitted reached dev = not admitted || (not reached && not dev)

module _ (p : Platform) where
  open p use {Num, hash, compare, sign, verify, bot_token, ask_slack, find_user, lower, is_dev}

  -- `findTeammate` of spaces-link-delivery.service.ts
  unfoldable pub find_teammate : String → String → Option String
  unfolding lookup_user_by_email
  find_teammate workspace_id email = elim (bot_token workspace_id) [
    | none ↦ none
    | some token ↦
        if str_eq token ""
        then none
        else teammate_id (lookup_user_by_email (ask_slack token email) email)
  ]

  abbrev pub session_claims : String → SpaceUser → Props Num
  session_claims space_id user = prop "sub" (str user.id) (
      prop "spaceId" (str space_id)
        (prop "email" (str user.email) (prop "scope" (str "space") end)))

  -- `issueSession`
  unfoldable pub issue_session : ℕ → String → SpaceUser → Session
  issue_session now space_id user = record {
    token = sign (now + session_ttl_ms) (session_claims space_id user);
    user = user;
  }

  pub record Requested : Type 0 where
    pub tables : Tables
    -- The token of the link, if one was minted.
    pub raw : Option String

  abbrev pub normalized : String → String
  normalized email = lower (trim email)

  -- Closed signup admits teammates and people who have signed in before.
  abbrev pub is_admitted : Space → String → Option String → Tables → Bool
  is_admitted space email teammate t =
      space.spec.allow_signup || is_some teammate || is_some (user_of t.users space.id email)

  abbrev pub mint : ℕ → String → String → Space → String → Tables → Requested
  mint now new_id secret space email t = record {
    tables = record t {
      tokens =
          t.tokens
          ++ record {
            id = new_id;
            space_id = space.id;
            email = email;
            token_hash = hash secret;
            expires_at = now + token_ttl_ms;
            used_at = none;
          }
            ∷ [];
    };
    raw = some (concat new_id (concat "." secret));
  }

  -- No link: the address is not admitted, or nothing reaches it.
  abbrev pub is_declined : Space → String → Tables → Bool
  is_declined space email t =
      let teammate = find_teammate space.workspace_id (normalized email) in
      declines (is_admitted space (normalized email) teammate t) (is_some teammate) is_dev

  abbrev pub answer_request : ℕ → String → String → String → Tables → Space → Answer Requested
  answer_request now new_id secret email t space = given (
      if is_declined space email t
      then record { tables = t; raw = none }
      else mint now new_id secret space (normalized email) t)

  -- `requestLink`, with the id and the secret that are generated.
  unfoldable pub request_link : ℕ → String → String → String → String → Tables → Answer Requested
  unfolding find_published_by_slug find_teammate
  request_link now new_id secret slug email t = do
    space ← find_published_by_slug t.spaces slug
    answer_request now new_id secret email t space

  abbrev pub sign_in : ℕ → String → String → String → Option String → Tables → Session × Tables
  sign_in now new_id space_id email name t =
      let member = upsert_member now new_id space_id email name t in
      (issue_session now space_id member.0, member.1)

  abbrev pub is_usable : ℕ → String → SpaceAuthToken → Bool
  is_usable now secret row =
      not (is_some row.used_at || ltb row.expires_at now || not (compare secret row.token_hash))

  abbrev pub is_filled : String → Bool
  is_filled s = not (str_eq s "")

  -- `verify` once the row of the token is read: is it good, and if so it is spent.
  abbrev pub redeem_row :
      ℕ → String → Space → String → Tables → SpaceAuthToken → Answer (Session × Tables)
  redeem_row now new_id space secret t row = do
    guard (is_usable now secret row) unauthorized
    let spent = record t { tokens = map (save_token (record row { used_at = some now })) t.tokens }
    given (sign_in now new_id space.id row.email none spent)

  abbrev pub token_row : Space → String → Tables → Option SpaceAuthToken
  token_row space raw t =
      find (λ k. str_eq k.id (before_dot raw) && str_eq k.space_id space.id) t.tokens

  abbrev pub redeem_in : ℕ → String → String → Tables → Space → Answer (Session × Tables)
  redeem_in now new_id raw t space = do
    guard (is_filled (before_dot raw) && is_filled (secret_of (after_dot raw))) unauthorized
    row ← or_refuse (token_row space raw t) unauthorized
    redeem_row now new_id space (secret_of (after_dot raw)) t row

  -- `verify`
  unfoldable pub verify_link : ℕ → String → String → String → Tables → Answer (Session × Tables)
  unfolding find_published_by_slug before_dot after_dot upsert_member issue_session
  verify_link now new_id slug raw t = do
    space ← find_published_by_slug t.spaces slug
    redeem_in now new_id raw t space

  abbrev pub member_email : Option String → Answer String
  member_email none = refused forbidden
  member_email (some email) = if str_eq email "" then refused forbidden else given email

  abbrev pub enter_with :
      ℕ → String → Space → Tables → Option String → String → Answer (Session × Tables)
  enter_with now new_id space t name email =
      given (sign_in now new_id space.id (lower email) name t)

  abbrev pub enter_as : ℕ → String → Space → Tables → Member → Answer (Session × Tables)
  enter_as now new_id space t user = do
    guard user.is_active unauthorized
    email ← member_email user.email
    enter_with now new_id space t user.name email

  abbrev pub enter_space : ℕ → String → String → String → Tables → Space → Answer (Session × Tables)
  enter_space now new_id workspace_id user_id t space = do
    guard (str_eq space.workspace_id workspace_id) forbidden
    user ← or_refuse (find_user user_id) unauthorized
    enter_as now new_id space t user

  -- `workspaceSession`
  unfoldable pub workspace_session :
      ℕ → String → String → String → String → Tables → Answer (Session × Tables)
  unfolding find_published_by_slug upsert_member issue_session
  workspace_session now new_id slug workspace_id user_id t = do
    space ← find_published_by_slug t.spaces slug
    enter_space now new_id workspace_id user_id t space

-- `purgeExpired`
unfoldable pub purge_expired : ℕ → Tables → Tables
purge_expired now t = record t { tokens = keep (λ k. not (ltb k.expires_at now)) t.tokens }
