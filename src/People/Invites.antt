-- ===== src/People/Invites.antt =====
-- `InvitesService` (src/invites/invites.service.ts): inviting teammates by email. The lower case of a
-- text, what Slack says of an address and whether a message is delivered are parameters.
pub mod Addresses
pub mod Settled
pub mod Batches
pub mod Results
use gomer.Base.{
  ℕ, suc, ◌≡◌, Bool, true, false, not, ◌&&◌, ◌||◌, Option, none, some, is_some, List, [], ◌∷◌, ◌++◌,
  map, if◌then◌else◌,
}
use gomer.Base.Text.{String, str_eq, truthy, trim}
use gomer.Base.Answers.{
  Answer, given, refused, not_found, bad_request, ◌>>=◌, ◌>>◌, or_refuse, guard,
}
use gomer.Slack.{Found, SlackEmailLookup, found, not_found as unknown, failed}
use gomer.Spaces.Checks.{has}
use gomer.People.Users.{
  User, Users, ProvisionInput, find_by_id, list_all_by_workspace, provision_invited,
}

pub data InviteStatus : Type 0 where
  invited already_member not_in_slack lookup_failed : InviteStatus

-- Which message the result carries.
pub data Note : Type 0 where
  on_the_team no_answer add_to_slack deactivated is_bot added reminded not_delivered : Note

pub record InviteResult : Type 0 where
  pub email : String
  pub status : InviteStatus
  pub name : Option String
  pub notified : Bool
  pub note : Note

pub data SlackRosterStatus : Type 0 where
  on_gaspo invited_there not_on_gaspo : SlackRosterStatus

-- Lower-cases, trims and removes duplicates, keeping the order.
unfoldable pub normalize_from : (String → String) → List String → List String → List String
unfolding has
normalize_from lower seen [] = []
normalize_from lower seen (raw ∷ emails) =
    let email = lower (trim raw) in
    let later = normalize_from lower seen emails in
    let with_it = email ∷ normalize_from lower (email ∷ seen) emails in
    if str_eq email "" || has email seen then later else with_it

unfoldable pub normalize_emails : (String → String) → List String → List String
unfolding normalize_from
normalize_emails lower emails = normalize_from lower [] emails

-- Added by an admin and not yet seen.
unfoldable pub is_pending_invite : User → Bool
is_pending_invite u = u.is_active && (is_some u.invited_at && not (is_some u.last_active_at))

-- On the team, and no invite is pending.
abbrev pub is_settled : User → Bool
is_settled u = u.is_active && not (is_pending_invite u)

unfoldable pub roster_status : Option User → SlackRosterStatus
unfolding is_pending_invite
roster_status none = not_on_gaspo
roster_status (some u) =
    if not u.is_active
    then not_on_gaspo
    else if is_pending_invite u
    then invited_there
    else on_gaspo

-- A map by text; the latest entry of a key counts.
abbrev pub UserMap : Type 0
UserMap = List (String × User)

unfoldable pub get : String → UserMap → Option User
get k [] = none
get k ((j, u) ∷ m) = if str_eq j k then some u else get k m

abbrev pub add_email : (String → String) → Option String → User → UserMap → UserMap
add_email lower none u m = m
add_email lower (some e) u m = (lower e, u) ∷ m

-- The maps of the members that there are.
unfoldable pub emails_of : (String → String) → Users → UserMap → UserMap
emails_of lower [] m = m
emails_of lower (u ∷ users) m = emails_of lower users (add_email lower (truthy u.email) u m)

unfoldable pub slack_ids_of : Users → UserMap → UserMap
slack_ids_of [] m = m
slack_ids_of (u ∷ users) m = slack_ids_of users ((u.slack_user_id, u) ∷ m)

-- The table, the maps of the batch, and the people who got a message.
pub record Batch : Type 0 where
  pub users : Users
  pub by_email : UserMap
  pub by_slack_id : UserMap
  pub delivered : List String

abbrev pub result_for : String → InviteStatus → Option String → Bool → Note → InviteResult
result_for email status name notified note = record {
  email = email;
  status = status;
  name = name;
  notified = notified;
  note = note;
}

abbrev pub already : String → User → InviteResult
already email u = result_for email already_member (some u.name) false on_the_team

abbrev pub settled_user : Option User → Option User
settled_user none = none
settled_user (some u) = if is_settled u then some u else none

abbrev pub is_reminder : Option User → Bool
is_reminder none = false
is_reminder (some u) = is_pending_invite u

abbrev pub note_for : Bool → Bool → Note
note_for false reminder = not_delivered
note_for true true = reminded
note_for true false = added

module _ (workspace_id : String) (lower : String → String) (ask : String → SlackEmailLookup)
    (deliver : List String → String → Bool) where
  -- The person is added, or invited again, and gets a message.
  abbrev pub provision : ℕ → String → String → Found → Batch → InviteResult × Batch
  provision now new_id email person b =
      let input : ProvisionInput = record {
        workspace_id = workspace_id;
        slack_user_id = person.id;
        name = person.name;
        email = some person.email;
        avatar_url = person.avatar_url;
      } in
      let added = provision_invited now new_id input b.users in
      let notified = deliver b.delivered person.id in
      (
        result_for email invited (some added.0.name) notified
            (note_for notified (is_reminder (get person.id b.by_slack_id))),
        record {
          users = added.1;
          by_email = (email, added.0) ∷ b.by_email;
          by_slack_id = (added.0.slack_user_id, added.0) ∷ b.by_slack_id;
          delivered = b.delivered ++ person.id ∷ [];
        },
      )

  abbrev pub invite_person :
      ℕ → String → String → Found → Option User → Batch → InviteResult × Batch
  invite_person now new_id email person (some u) b = (already email u, b)
  invite_person now new_id email person none b = provision now new_id email person b

  -- A person Slack found: deactivated, a bot, or one to invite.
  abbrev pub invite_live : Bool → Bool → ℕ → String → String → Found → Batch → InviteResult × Batch
  invite_live true bot now new_id email person b =
      (result_for email not_in_slack (some person.name) false deactivated, b)
  invite_live false true now new_id email person b =
      (result_for email not_in_slack (some person.name) false is_bot, b)
  invite_live false false now new_id email person b =
      invite_person now new_id email person (settled_user (get person.id b.by_slack_id)) b

  abbrev pub invite_found : ℕ → String → String → SlackEmailLookup → Batch → InviteResult × Batch
  invite_found now new_id email (failed e) b =
      (result_for email lookup_failed none false no_answer, b)
  invite_found now new_id email unknown b =
      (result_for email not_in_slack none false add_to_slack, b)
  invite_found now new_id email (found person) b =
      invite_live person.is_deleted person.is_bot now new_id email person b

  abbrev pub invite_known : ℕ → String → String → Option User → Batch → InviteResult × Batch
  invite_known now new_id email (some u) b = (already email u, b)
  invite_known now new_id email none b = invite_found now new_id email (ask email) b

  -- `inviteOne`, with the id that a new member would get.
  unfoldable pub invite_one : ℕ → String → String → Batch → InviteResult × Batch
  unfolding get is_pending_invite provision_invited
  invite_one now new_id email b =
      invite_known now new_id email (settled_user (get email b.by_email)) b

  -- The loop over the addresses, with the ids in their order.
  unfoldable pub invite_all : ℕ → (ℕ → String) → ℕ → List String → Batch → List InviteResult × Batch
  unfolding invite_one
  invite_all now uuid i [] b = ([], b)
  invite_all now uuid i (email ∷ emails) b =
      let one = invite_one now (uuid i) email b in
      let rest = invite_all now uuid (suc i) emails one.1 in (one.0 ∷ rest.0, rest.1)

  abbrev pub batch_of : Users → Batch
  batch_of users = record {
    users = users;
    by_email = emails_of lower (list_all_by_workspace users workspace_id) [];
    by_slack_id = slack_ids_of (list_all_by_workspace users workspace_id) [];
    delivered = [];
  }

  abbrev pub invite_after :
      ℕ → (ℕ → String) → List String → Users → User → Answer (List InviteResult × Users)
  invite_after now uuid emails users inviter =
      let all = invite_all now uuid 0 (normalize_emails lower emails) (batch_of users) in
      given (all.0, all.1.users)

  -- `invite`, with the workspace's bot token.
  unfoldable pub invite :
      ℕ
      → (ℕ → String)
      → Option String
      → String
      → List String
      → Users
      → Answer (List InviteResult × Users)
  unfolding find_by_id normalize_emails invite_all emails_of slack_ids_of list_all_by_workspace
  invite now uuid bot_token inviter_id emails users = do
    guard (is_some (truthy bot_token)) bad_request
    inviter ← or_refuse (find_by_id users inviter_id) not_found
    invite_after now uuid emails users inviter
