-- ===== src/Tests/Sessions.antt =====
-- Tests and witnesses for the sign-in of visitors and members.
use Prim.Native.String.{◌++◌ as concat}
use gomer.Base.{ℕ, ◌≡◌, ◌≢◌, refl, true, false, none, some, is_some, [], ◌∷◌, if◌then◌else◌, arith}
use gomer.Base.Text.{String, str_eq}
use gomer.Base.Answers.{given, refused, unauthorized}
use gomer.Slack.{SlackUser}
use gomer.Spaces.Json.{str, Props, end, prop, own}
use gomer.Spaces.Seeds.{AppSpec}
use gomer.Spaces.Rows.{Space, SpaceUser, SpaceAuthToken, find_published_by_slug}
use gomer.Spaces.Sessions.{
  Platform, Tables, Session, Requested, before_dot, request_link, verify_link, find_teammate,
  normalized, is_declined,
}
use gomer.Spaces.Guard.{Claimed, bearer, can_activate}
use gomer.Spaces.Sessions.Links.{here, verify_link-once}
use gomer.Spaces.Sessions.Requests.{request_link-production, verify_link-requested}
use gomer.People.Auth.{validate}
use gomer.People.Auth.Scopes.{can_activate-scoped}

abbrev ann : SlackUser
ann = record {
  id = "U1";
  name = some "ann";
  real_name = none;
  is_deleted = false;
  is_bot = false;
  display_name = none;
  profile_name = none;
  email = none;
  image_512 = none;
  image_192 = none;
}

abbrev visitor : SpaceUser
visitor = record { id = "V1"; space_id = "S1"; email = "ann@x.io"; name = none; last_login_at = 5 }

abbrev visitor_claims : Props ℕ
visitor_claims =
    prop "sub" (str "V1")
      (prop "spaceId" (str "S1") (prop "email" (str "ann@x.io") (prop "scope" (str "space") end)))

-- The Slack team knows one address; there is one session token.
abbrev production : Platform
production = record {
  Num = ℕ;
  hash = λ s. concat "#" s;
  compare = λ s h. str_eq (concat "#" s) h;
  sign = λ until claims. "token";
  verify = λ now t. if str_eq t "token" then some visitor_claims else none;
  bot_token = λ w. some "xoxb";
  ask_slack = λ token email.
      some (record {
        is_ok = str_eq email "ann@x.io";
        error = some "users_not_found";
        user = some ann;
      });
  find_user = λ id. none;
  lower = λ s. s;
  is_dev = false;
}

abbrev app : AppSpec
app = record { name = "Plan"; description = none; entities = []; allow_signup = true }

abbrev space : Space
space = record {
  id = "S1";
  workspace_id = "W1";
  slug = "plan";
  name = "Plan";
  description = none;
  is_published = true;
  is_page = false;
  spec = app;
}

abbrev start : Tables
start = record { spaces = space ∷ []; users = []; tokens = [] }

abbrev token : SpaceAuthToken
token = record {
  id = "T1";
  space_id = "S1";
  email = "ann@x.io";
  token_hash = "#secret";
  expires_at = 1_800_003;
  used_at = none;
}

abbrev minted : Requested production
minted = record { tables = record start { tokens = token ∷ [] }; raw = some "T1.secret" }

link_minted : request_link production 3 "T1" "secret" "plan" " ann@x.io" start ≡ given minted
unfolding request_link
link_minted = refl

-- Signup is open, but the address is nobody's on the team.
link_declined :
    request_link production 3 "T1" "secret" "plan" "bob@x.io" start
    ≡ given (record { tables = start; raw = none })
unfolding request_link
link_declined = refl

space_found : find_published_by_slug start.spaces "plan" ≡ given space
unfolding find_published_by_slug
space_found = refl

id_plain : before_dot "T1" ≡ "T1"
unfolding before_dot
id_plain = refl

secret_plain : before_dot "secret" ≡ "secret"
unfolding before_dot
secret_plain = refl

request_link-production_example :
    is_some minted.raw ≡ is_some (find_teammate production "W1" (normalized production " ann@x.io"))
request_link-production_example =
    request_link-production production 3 "T1" "secret" "plan" " ann@x.io" start space minted refl
      space_found link_minted

abbrev redeemed : Tables
redeemed = record {
  spaces = space ∷ [];
  users = visitor ∷ [];
  tokens = record token { used_at = some 5 } ∷ [];
}

abbrev session : Session
session = record { token = "token"; user = visitor }

link_redeemed :
    verify_link production 5 "V1" "plan" "T1.secret" minted.tables ≡ given (session, redeemed)
unfolding verify_link
link_redeemed = refl

verify_link-once_example :
    verify_link production 6 "V2" "plan" "T1.secret" redeemed ≢ given (session, redeemed)
verify_link-once_example =
    verify_link-once production 5 6 "V1" "V2" "plan" "plan" "T1.secret" minted.tables redeemed
      redeemed redeemed session session link_redeemed here

link_accepted : is_declined production space " ann@x.io" start ≡ false
unfolding find_teammate
link_accepted = refl

abbrev SignsIn : Type 0
SignsIn =
    (r : Requested production) × (raw : String) × (s : Session) × (t1 : Tables) × (request_link
        production 3 "T1" "secret" "plan" " ann@x.io" start
      ≡ given r)
    × (r.raw ≡ some raw)
    × (verify_link production 5 "V1" "plan" raw r.tables ≡ given (s, t1))
    × ((s.user.email ≡ normalized production " ann@x.io") × (s.user.space_id ≡ "S1"))

verify_link-requested_example : SignsIn
verify_link-requested_example =
    verify_link-requested production 3 5 "T1" "secret" "V1" "plan" " ann@x.io" start space
      space_found link_accepted refl (id_plain, refl) (secret_plain, refl) tt (omega arith)

visitor_let_in :
    can_activate production 9 (some "Bearer token") "plan" redeemed
    ≡ given (
      space,
      record {
        space_user_id = some (str "V1");
        space_id = some (str "S1");
        email = some (str "ann@x.io");
      },
    )
unfolding can_activate
visitor_let_in = refl

abbrev ann_in : Claimed production
ann_in = record {
  space_user_id = some (str "V1");
  space_id = some (str "S1");
  email = some (str "ann@x.io");
}

can_activate-scoped_example :
    (space.slug ≡ "plan")
    × (space.is_published ≡ true)
    × (token : String) × (claims : Props ℕ) × (bearer (some "Bearer token") ≡ some token)
    × (production.verify 9 token ≡ some claims)
    × (own "scope" claims ≡ some (str "space"))
    × (own "spaceId" claims ≡ some (str space.id))
    × (ann_in.space_user_id ≡ own "sub" claims)
    × (validate claims ≡ refused unauthorized)
can_activate-scoped_example =
    can_activate-scoped production 9 (some "Bearer token") "plan" redeemed space ann_in
      visitor_let_in
