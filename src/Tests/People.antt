-- ===== src/Tests/People.antt =====
-- Tests and witnesses for the members: their tokens, the table of users and invites.
use Prim.Native.Char.{code}
use gomer.Base.{
  ℕ, ◌==◌, ◌<◌, ◌≡◌, ◌≢◌, inl, inr, refl, ap, Bool, true, false, none, some, Bool-cases, List, [],
  ◌∷◌, All, map, keep, take, zero, suc, if◌then◌else◌, arith,
}
use gomer.Base.Text.{String, str_eq, eq_iff, codes, ne_of_text, cons_inj, trim}
use gomer.Base.Answers.{given, refused, bad_request}
use gomer.Slack.{SlackEmailLookup, found, not_found}
use gomer.Spaces.Json.{str, Props, own}
use gomer.Spaces.Spec.WellFormed.{Distinct}
use gomer.People.Users.{
  User, Users, ProvisionInput, member, admin, set_active, update_role, upsert_from_slack,
  list_all_by_workspace,
}
use gomer.People.Users.Admins.{HasAdmin, ids}
use gomer.People.Users.History.{here, switches, signs_in, Later-HasAdmin}
use gomer.People.Auth.{Platform, AuthTokens, refresh, member_claims}
use gomer.People.Auth.Rotation.{refresh-replayed}
use gomer.People.Invites.{
  InviteResult, invited, already_member, not_in_slack, added, on_the_team, add_to_slack, invite,
}
use gomer.People.Invites.Settled.{KeepsSettled}
use gomer.People.Invites.Addresses.{firsts, not_empty}
use gomer.People.Invites.Results.{invite-results}

abbrev ann : User
ann = record {
  id = "A";
  workspace_id = "W1";
  slack_user_id = "U1";
  name = "Ann";
  email = some "ann@x.io";
  avatar_url = none;
  role = admin;
  is_active = true;
  last_active_at = some 1;
  invited_at = none;
  refresh_token_hash = some "#";
}

-- Every token begins with the same 72 characters.
abbrev padding : String
padding = "123456789012345678901234567890123456789012345678901234567890123456789012"

abbrev old_token : String
old_token = "123456789012345678901234567890123456789012345678901234567890123456789012.old"

abbrev new_token : String
new_token = "123456789012345678901234567890123456789012345678901234567890123456789012.new"

-- There is one user, whose tokens all hash alike.
abbrev tokens : Platform
tokens = record {
  Num = ℕ;
  hash = λ s. "#";
  compare = λ s h. str_eq h "#";
  sign_access = λ now claims. "access";
  sign_refresh = λ now claims. new_token;
  verify_refresh = λ now t. if str_eq t old_token then some (member_claims ann) else none;
}

abbrev issued_tokens : AuthTokens
issued_tokens = record { access_token = "access"; refresh_token = new_token }

first_refresh : refresh tokens 3 old_token (ann ∷ []) ≡ given (issued_tokens, ann ∷ [])
unfolding refresh
first_refresh = refl

same_start :
    (n k : ℕ) (a : String) (c : Props ℕ) (user : User)
    → tokens.verify_refresh n a ≡ some c
    → own "sub" c ≡ some (str user.id)
    → take 72 (codes a) ≡ take 72 (codes new_token)
same_start n k a c user e sub = elim (Bool-cases (str_eq a old_token)) [
  | inl is ↦ ap (λ (s : String). take 72 (codes s)) ((eq_iff a old_token).0 is)
  | inr other ↦ cc (rw other at e)
]

refresh-replayed_example :
    (r : AuthTokens × Users) × (refresh tokens 4 old_token (ann ∷ []) ≡ given r)
refresh-replayed_example =
    refresh-replayed tokens 3 4 old_token (ann ∷ []) (ann ∷ []) issued_tokens (λ a b e. refl)
      (λ a. refl) same_start first_refresh refl

abbrev bob_input : ProvisionInput
bob_input = record {
  workspace_id = "W1";
  slack_user_id = "U2";
  name = "Bob";
  email = some "bob@x.io";
  avatar_url = none;
}

abbrev with_bob : Users
with_bob = (upsert_from_slack 5 "B" bob_input none (ann ∷ [])).1

abbrev bob : User
bob = record {
  id = "B";
  workspace_id = "W1";
  slack_user_id = "U2";
  name = "Bob";
  email = some "bob@x.io";
  avatar_url = none;
  role = member;
  is_active = true;
  last_active_at = some 5;
  invited_at = none;
  refresh_token_hash = none;
}

bob_off :
    set_active "W1" "A" "B" false with_bob
    ≡ given (record bob { is_active = false }, ann ∷ record bob { is_active = false } ∷ [])
unfolding upsert_from_slack set_active
bob_off = refl

-- The last admin cannot be demoted.
last_admin_stays : update_role "W1" "A" member (ann ∷ []) ≡ refused bad_request
unfolding update_role
last_admin_stays = refl

-- Who was switched off and signs in is on again.
off_and_in :
    upsert_from_slack 9 "C" bob_input none (record bob { is_active = false } ∷ [])
    ≡ (record bob { last_active_at = some 9 }, record bob { last_active_at = some 9 } ∷ [])
unfolding upsert_from_slack
off_and_in = refl

Later-HasAdmin_example : HasAdmin "W1" (ann ∷ record bob { is_active = false } ∷ [])
Later-HasAdmin_example =
    Later-HasAdmin "W1" {users = ann ∷ []} {v = ann ∷ record bob { is_active = false } ∷ []}
      (tt, tt) (inl refl)
      (switches {v = with_bob} "W1" "A" "B" false (record bob { is_active = false })
        (ann ∷ record bob { is_active = false } ∷ [])
        (signs_in {v = ann ∷ []} 5 "B" bob_input none here (ne_of_text "A" "B" refl, tt)) bob_off)

-- Ids that differ from one another.
abbrev serial : ℕ → String
serial zero = "B"
serial (suc n) = String.◌∷◌ "i" (serial n)

abbrev begins_with_i : String → Bool
begins_with_i String.[] = false
begins_with_i (String.◌∷◌ c s) = code c == 105

serial-suc : (s : String) (j : ℕ) → begins_with_i s ≡ false → s ≢ serial (suc j)
serial-suc s j other e = cc (other, ap begins_with_i e)

serial-apart : (i j : ℕ) → i < j → serial i ≢ serial j
serial-apart zero zero h = absurd (omega arith)
serial-apart zero (suc j) h = serial-suc "B" j refl
serial-apart (suc i) zero h = absurd (omega arith)
serial-apart (suc i) (suc j) h =
    λ e. serial-apart i j (omega arith) (cons_inj "i" (serial i) (serial j) e)

serial-unused : (j : ℕ) → All (λ i. i ≢ serial j) (ids (ann ∷ []))
serial-unused zero = (ne_of_text "A" "B" refl, tt)
serial-unused (suc j) = (serial-suc "A" j refl, tt)

-- The Slack team has one person besides Ann.
abbrev ask_team : String → SlackEmailLookup
ask_team email =
    if str_eq email "bob@x.io"
    then found (record {
      id = "U2";
      name = "Bob";
      email = "bob@x.io";
      avatar_url = none;
      is_deleted = false;
      is_bot = false;
    })
    else not_found

abbrev asked_emails : List String
asked_emails = "bob@x.io " ∷ "ann@x.io" ∷ "bob@x.io" ∷ "eve@x.io" ∷ []

abbrev answers : List InviteResult
answers =
    record {
      email = "bob@x.io";
      status = invited;
      name = some "Bob";
      notified = true;
      note = added;
    }
    ∷ record {
      email = "ann@x.io";
      status = already_member;
      name = some "Ann";
      notified = false;
      note = on_the_team;
    }
    ∷ record {
      email = "eve@x.io";
      status = not_in_slack;
      name = none;
      notified = false;
      note = add_to_slack;
    }
    ∷ []

abbrev invited_bob : User
invited_bob = record bob { last_active_at = none; invited_at = some 7 }

abbrev plain : String → String
plain s = s

abbrev delivers : List String → String → Bool
delivers before id = true

team_invited :
    invite "W1" plain ask_team delivers 7 serial (some "xoxb") "A" asked_emails (ann ∷ [])
    ≡ given (answers, ann ∷ invited_bob ∷ [])
unfolding invite
team_invited = refl

one_slack_id :
    Distinct (map (λ (u : User). u.slack_user_id) (list_all_by_workspace (ann ∷ []) "W1"))
unfolding list_all_by_workspace
one_slack_id = (tt, tt)

invite-results_example :
    (map (λ (r : InviteResult). r.email) answers
      ≡ keep not_empty (firsts (map (λ raw. plain (trim raw)) asked_emails)))
    × Distinct (map (λ (r : InviteResult). r.email) answers)
    × KeepsSettled (ann ∷ []) (ann ∷ invited_bob ∷ [])
invite-results_example =
    invite-results "W1" plain ask_team delivers 7 serial (some "xoxb") "A" asked_emails (ann ∷ [])
      (ann ∷ invited_bob ∷ []) answers serial-apart serial-unused (tt, tt) one_slack_id team_invited
