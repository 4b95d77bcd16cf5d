-- ===== src/People/Users.antt =====
-- `UsersService` (src/users/users.service.ts) on the table of users, in the order of their creation.
pub mod Admins
pub mod History
use gomer.Base.{
  ℕ, suc, ◌≡◌, Bool, true, false, not, ◌&&◌, ◌||◌, Option, none, some, is_some, List, [], ◌∷◌, ◌++◌,
  find, map, keep, length, or_else, ◌==◌, if◌then◌else◌,
}
use gomer.Base.Text.{String, str_eq, truthy}
use gomer.Base.Answers.{Answer, given, refused, not_found, bad_request, or_refuse}

pub data UserRole : Type 0 where
  admin member : UserRole

pub record User : Type 0 where
  pub id : String
  pub workspace_id : String
  pub slack_user_id : String
  pub name : String
  pub email : Option String
  pub avatar_url : Option String
  pub role : UserRole
  pub is_active : Bool
  pub last_active_at : Option ℕ
  pub invited_at : Option ℕ
  pub refresh_token_hash : Option String

abbrev pub Users : Type 0
Users = List User

abbrev pub is_admin : UserRole → Bool
is_admin admin = true
is_admin member = false

abbrev pub same_role : UserRole → UserRole → Bool
same_role admin r = is_admin r
same_role member r = not (is_admin r)

abbrev pub same_bool : Bool → Bool → Bool
same_bool true b = b
same_bool false b = not b

-- `save` of a row that is there.
abbrev pub replace : User → User → User
replace new u = if str_eq u.id new.id then new else u

abbrev pub save : User → Users → Users
save new users = map (replace new) users

unfoldable pub find_by_id : Users → String → Option User
find_by_id users id = find (λ u. str_eq u.id id) users

-- A row of a workspace by its id.
unfoldable pub find_in : Users → String → String → Option User
find_in users workspace_id id =
    find (λ u. str_eq u.id id && str_eq u.workspace_id workspace_id) users

unfoldable pub find_by_slack_identity : Users → String → String → Option User
find_by_slack_identity users workspace_id slack_user_id =
    find (λ u. str_eq u.workspace_id workspace_id && str_eq u.slack_user_id slack_user_id) users

unfoldable pub count_by_workspace : Users → String → ℕ
count_by_workspace users workspace_id =
    length (keep (λ u. str_eq u.workspace_id workspace_id) users)

abbrev pub is_active_in : String → User → Bool
is_active_in workspace_id u = str_eq u.workspace_id workspace_id && u.is_active

unfoldable pub list_by_workspace : Users → String → Users
list_by_workspace users workspace_id = keep (is_active_in workspace_id) users

unfoldable pub count_active_by_workspace : Users → String → ℕ
count_active_by_workspace users workspace_id = length (keep (is_active_in workspace_id) users)

unfoldable pub list_all_by_workspace : Users → String → Users
list_all_by_workspace users workspace_id = keep (λ u. str_eq u.workspace_id workspace_id) users

abbrev pub is_active_admin : String → User → Bool
is_active_admin workspace_id u =
    str_eq u.workspace_id workspace_id && (is_admin u.role && u.is_active)

-- The active admins of a workspace but for one user.
unfoldable pub other_admins : Users → String → String → ℕ
other_admins users workspace_id id =
    length (keep (λ u. is_active_admin workspace_id u && not (str_eq u.id id)) users)

pub record ProvisionInput : Type 0 where
  pub workspace_id : String
  pub slack_user_id : String
  pub name : String
  pub email : Option String
  pub avatar_url : Option String

abbrev pub first_of : Option String → Option String → Option String
first_of none b = b
first_of (some a) b = some a

abbrev pub reinvited : ℕ → ProvisionInput → User → User
reinvited now input u = record u {
  name = or_else (truthy (some input.name)) u.name;
  email = first_of input.email u.email;
  avatar_url = first_of input.avatar_url u.avatar_url;
  is_active = true;
  invited_at = some now;
}

abbrev pub invited : ℕ → String → ProvisionInput → User
invited now new_id input = record {
  id = new_id;
  workspace_id = input.workspace_id;
  slack_user_id = input.slack_user_id;
  name = input.name;
  email = input.email;
  avatar_url = input.avatar_url;
  role = member;
  is_active = true;
  last_active_at = none;
  invited_at = some now;
  refresh_token_hash = none;
}

abbrev pub put_or_add : Option User → (User → User) → User → Users → User × Users
put_or_add none change new users = (new, users ++ new ∷ [])
put_or_add (some u) change new users = (change u, save (change u) users)

-- `provisionInvited`, with the id that the database would generate.
unfoldable pub provision_invited : ℕ → String → ProvisionInput → Users → User × Users
unfolding find_by_slack_identity
provision_invited now new_id input users =
    put_or_add (find_by_slack_identity users input.workspace_id input.slack_user_id)
      (reinvited now input) (invited now new_id input) users

abbrev pub signed_in : ℕ → ProvisionInput → User → User
signed_in now input u = record u {
  name = input.name;
  email = first_of input.email u.email;
  avatar_url = first_of input.avatar_url u.avatar_url;
  is_active = true;
  last_active_at = some now;
}

abbrev pub arrived : ℕ → String → ProvisionInput → UserRole → User
arrived now new_id input role = record (invited now new_id input) {
  role = role;
  last_active_at = some now;
  invited_at = none;
}

-- The role of who arrives without one being given: the first of a workspace is its admin.
abbrev pub founding_role : Option UserRole → ℕ → UserRole
founding_role (some r) n = r
founding_role none n = if n == 0 then admin else member

-- `upsertFromSlack`
unfoldable pub upsert_from_slack :
    ℕ → String → ProvisionInput → Option UserRole → Users → User × Users
unfolding find_by_slack_identity count_by_workspace
upsert_from_slack now new_id input role users =
    put_or_add (find_by_slack_identity users input.workspace_id input.slack_user_id)
      (signed_in now input)
      (arrived now new_id input (founding_role role (count_by_workspace users input.workspace_id)))
      users

abbrev pub saved : User → Users → Answer (User × Users)
saved u users = given (u, save u users)

-- Nothing to change, two reasons to refuse, or the save.
abbrev pub change : Bool → Bool → Bool → User → User → Users → Answer (User × Users)
change done barred last target new users =
    if done
    then given (target, users)
    else if barred
    then refused bad_request
    else if last
    then refused bad_request
    else saved new users

abbrev pub switch_active : String → String → Bool → Users → User → Answer (User × Users)
switch_active workspace_id caller_id active users target =
    change (same_bool target.is_active active) (not active && str_eq target.id caller_id)
      (not active && (is_admin target.role && other_admins users workspace_id target.id == 0))
      target (record target { is_active = active }) users

abbrev pub with_target : Option User → (User → Answer (User × Users)) → Answer (User × Users)
with_target none k = refused not_found
with_target (some u) k = k u

-- `setActive`
unfoldable pub set_active : String → String → String → Bool → Users → Answer (User × Users)
unfolding find_in other_admins
set_active workspace_id caller_id target_id active users =
    with_target (find_in users workspace_id target_id)
      (switch_active workspace_id caller_id active users)

abbrev pub switch_role : String → UserRole → Users → User → Answer (User × Users)
switch_role workspace_id role users target =
    change (same_role target.role role) false
      (not (is_admin role)
        && (is_admin target.role && other_admins users workspace_id target.id == 0))
      target (record target { role = role }) users

-- `updateRole`
unfoldable pub update_role : String → String → UserRole → Users → Answer (User × Users)
unfolding find_in other_admins
update_role workspace_id target_id role users =
    with_target (find_in users workspace_id target_id) (switch_role workspace_id role users)

abbrev same_email : Option String → Option String → Bool
same_email none e = false
same_email (some a) none = false
same_email (some a) (some b) = str_eq a b

-- `findMembershipsOf`
unfoldable pub find_memberships_of : User → Users → Users
find_memberships_of user users =
    keep
      (λ u.
        (str_eq u.slack_user_id user.slack_user_id || same_email (truthy user.email) u.email)
        && u.is_active)
      users

unfoldable pub set_refresh_token_hash : String → Option String → Users → Users
set_refresh_token_hash id hash users =
    map (λ u. if str_eq u.id id then record u { refresh_token_hash = hash } else u) users

unfoldable pub update_last_active : ℕ → String → Users → Users
update_last_active now id users =
    map (λ u. if str_eq u.id id then record u { last_active_at = some now } else u) users
