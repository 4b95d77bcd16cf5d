-- ===== src/Slack.antt =====
-- Looking a person up on a Slack team (src/slack/slack.service.ts). Slack's reply is a parameter; none
-- is a request that fails.
use gomer.Base.{Bool, true, false, Option, none, some, or_else, if◌then◌else◌}
use gomer.Base.Text.{String, str_eq, truthy}

pub record SlackUser : Type 0 where
  pub id : String
  pub name : Option String
  pub real_name : Option String
  pub is_deleted : Bool
  pub is_bot : Bool
  pub display_name : Option String
  pub profile_name : Option String
  pub email : Option String
  pub image_512 : Option String
  pub image_192 : Option String

pub record SlackReply : Type 0 where
  pub is_ok : Bool
  pub error : Option String
  pub user : Option SlackUser

pub record Found : Type 0 where
  pub id : String
  pub name : String
  pub email : String
  pub avatar_url : Option String
  pub is_deleted : Bool
  pub is_bot : Bool

pub data SlackEmailLookup : Type 0 where
  found : Found → SlackEmailLookup
  not_found : SlackEmailLookup
  failed : String → SlackEmailLookup

-- `a || b`
abbrev pub or_text : Option String → String → String
or_text o later = or_else (truthy o) later

-- `a ?? b`, where b may be missing too
abbrev pub first_of : Option String → Option String → Option String
first_of none b = b
first_of (some a) b = some a

-- The name a Slack member goes by: display name, then real name, then handle.
unfoldable pub slack_display_name : SlackUser → String
slack_display_name u =
    or_text u.display_name (or_text u.profile_name (or_text u.real_name (or_text u.name u.id)))

abbrev pub failed_with : String → SlackEmailLookup
failed_with error = if str_eq error "users_not_found" then not_found else failed error

abbrev pub read_user : Bool → Option String → Option SlackUser → String → SlackEmailLookup
read_user false error user email = failed_with (or_else error "unknown_error")
read_user true error none email = failed_with (or_else error "unknown_error")
read_user true error (some u) email = found (record {
  id = u.id;
  name = slack_display_name u;
  email = or_else u.email email;
  avatar_url = first_of u.image_512 u.image_192;
  is_deleted = u.is_deleted;
  is_bot = u.is_bot;
})

-- `lookupUserByEmail`
unfoldable pub lookup_user_by_email : Option SlackReply → String → SlackEmailLookup
unfolding slack_display_name
lookup_user_by_email none email = failed "request failed"
lookup_user_by_email (some r) email = read_user r.is_ok r.error r.user email
