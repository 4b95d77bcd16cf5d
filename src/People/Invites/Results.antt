-- ===== src/People/Invites/Results.antt =====
-- What `invite` answers, and what it leaves as it is.
use mathlib.Core.Path.{subst}
use gomer.Base.{
  ℕ, ◌<◌, ◌≡◌, ◌≢◌, inl, inr, refl, sym, ap, ◌∙◌, Bool, true, Option, some, is_some, Bool-cases,
  List, [], ◌∷◌, map, keep, All, All-imp,
}
use gomer.Base.Text.{String, str_eq, eq_iff, truthy, trim}
use gomer.Base.Answers.{
  given, not_found, bad_request, ◌>>=◌, or_refuse, or_refuse-eq-given, guard-eq-given, given_inj,
}
use gomer.Slack.{SlackEmailLookup}
use gomer.Spaces.Spec.WellFormed.{Distinct}
use gomer.People.Users.{User, Users, find_by_id, list_all_by_workspace}
use gomer.People.Users.Admins.{ids}
use gomer.People.Invites.{
  InviteResult, UserMap, get, slack_ids_of, invite_all, batch_of, invite, invite_after,
  normalize_emails,
}
use gomer.People.Invites.Settled.{KeepsSettled, Knows, get-same, get-other}
use gomer.People.Invites.Batches.{invite_all-Steps, all_emails}
use gomer.People.Invites.Addresses.{
  firsts, not_empty, normalize_from-Distinct, normalize_emails-firsts,
}

get-slack_ids_of :
    (k : String) (users : Users) (m : UserMap)
    → All (λ s. s ≢ k) (map (λ (u : User). u.slack_user_id) users)
    → get k (slack_ids_of users m) ≡ get k m
unfolding slack_ids_of
get-slack_ids_of k [] m h = refl
get-slack_ids_of k (u ∷ users) m h =
    get-slack_ids_of k users ((u.slack_user_id, u) ∷ m) h.1 ∙ get-other u.slack_user_id k u m h.0

slack_ids_of-All :
    (users : Users) (m : UserMap)
    → Distinct (map (λ (u : User). u.slack_user_id) users)
    → All (λ u. get u.slack_user_id (slack_ids_of users m) ≡ some u) users
unfolding slack_ids_of
slack_ids_of-All [] m d = tt
slack_ids_of-All (u ∷ users) m d = (
  get-slack_ids_of u.slack_user_id users ((u.slack_user_id, u) ∷ m) d.0
      ∙ get-same u.slack_user_id u m,
  slack_ids_of-All users ((u.slack_user_id, u) ∷ m) d.1,
)

All-of-keep :
    (P : User → Type 0) (q : User → Bool) (users : Users)
    → All P (keep q users)
    → All (λ u. q u ≡ true → P u) users
All-of-keep P q [] h = tt
All-of-keep P q (u ∷ users) h = elim (Bool-cases (q u)) [
  | inl is ↦
      let both : P u × All P (keep q users) = rw is at h in
      (λ e. both.0, All-of-keep P q users both.1)
  | inr not_so ↦ (λ e. cc, All-of-keep P q users (rw not_so at h))
]

-- Inviting addresses gives one result for each distinct one of them, trimmed and in lower case, in
-- the order of their first occurrence, the blank ones left out; and the members who are on the team,
-- with no invite pending, keep their rows as they are. This in a table where ids are distinct, and so
-- are the Slack ids of the workspace; the ids that new members get differ from one another and from
-- those.
pub invite-results :
    (workspace_id : String) (lower : String → String) (ask : String → SlackEmailLookup)
    (deliver : List String → String → Bool) (now : ℕ) (uuid : ℕ → String)
    (bot_token : Option String) (inviter_id : String) (emails : List String) (users users' : Users)
    (results : List InviteResult)
    → ((i j : ℕ) → i < j → uuid i ≢ uuid j)
    → ((j : ℕ) → All (λ i. i ≢ uuid j) (ids users))
    → Distinct (ids users)
    → Distinct (map (λ (u : User). u.slack_user_id) (list_all_by_workspace users workspace_id))
    → invite workspace_id lower ask deliver now uuid bot_token inviter_id emails users
      ≡ given (results, users')
    → (map (λ (r : InviteResult). r.email) results
        ≡ keep not_empty (firsts (map (λ raw. lower (trim raw)) emails)))
      × Distinct (map (λ (r : InviteResult). r.email) results)
      × KeepsSettled users users'
unfolding invite normalize_emails list_all_by_workspace
invite-results workspace_id lower ask deliver now uuid bot_token inviter_id emails users users'
      results apart unused distinct slack_distinct e =
    let (installed, e1) =
      guard-eq-given (is_some (truthy bot_token)) bad_request
        (or_refuse (find_by_id users inviter_id) not_found
          >>= invite_after workspace_id lower ask deliver now uuid emails users)
        e in
    let (inviter, there, e2) =
      or_refuse-eq-given (find_by_id users inviter_id) not_found
        (invite_after workspace_id lower ask deliver now uuid emails users) e1 in
    let addresses = normalize_emails lower emails in
    let b = batch_of workspace_id lower ask deliver users in
    let all = invite_all workspace_id lower ask deliver now uuid 0 addresses b in
    let knows : Knows workspace_id users b.by_slack_id =
      All-imp _ _ users (λ u h right. h ((eq_iff u.workspace_id workspace_id).1 right))
        (All-of-keep _ (λ u. str_eq u.workspace_id workspace_id) users
          (slack_ids_of-All (list_all_by_workspace users workspace_id) [] slack_distinct)) in
    let kept =
      invite_all-Steps workspace_id lower ask deliver now uuid apart 0 addresses b
        (knows, distinct, λ j le. unused j) in
    let pairs = given_inj e2 in
    let answered : map (λ (x : InviteResult). x.email) results ≡ addresses =
      ap (λ (r : List InviteResult × Users). map (λ (x : InviteResult). x.email) r.0) (sym pairs)
      ∙ all_emails workspace_id lower ask deliver now uuid apart 0 addresses b in
    (
      answered ∙ normalize_emails-firsts lower emails,
      subst Distinct (sym answered) (normalize_from-Distinct lower emails []).1,
      subst (KeepsSettled users) (ap (λ (r : List InviteResult × Users). r.1) pairs) kept,
    )
