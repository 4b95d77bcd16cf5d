-- ===== src/People/Users/History.antt =====
-- The table of users through any sequence of operations.
use mathlib.Core.Path.{subst}
use gomer.Base.{
  ℕ, ◌≡◌, ◌≢◌, inl, inr, refl, sym, ap, ◌∙◌, Bool, true, false, not, ◌&&◌, Option, some, Bool-cases,
  Option-cases, List, [], ◌∷◌, ◌++◌, find, map, ◌==◌, if◌then◌else◌, All, arith,
}
use gomer.Base.Text.{String, str_eq, eq_iff}
use gomer.Base.Answers.{given, given_inj}
use gomer.Spaces.Spec.WellFormed.{Distinct}
use gomer.People.Users.{
  UserRole, User, Users, is_admin, same_role, same_bool, save, find_in, find_by_slack_identity,
  is_active_admin, other_admins, ProvisionInput, reinvited, invited, put_or_add, provision_invited,
  signed_in, arrived, founding_role, upsert_from_slack, change, set_active, update_role,
  set_refresh_token_hash, update_last_active, count_by_workspace,
}
use gomer.People.Users.Admins.{HasAdmin, ids, save-found, set_active-After, update_role-After}

pub save-ids : (new : User) (users : Users) → ids (save new users) ≡ ids users
save-ids new [] = refl
save-ids new (u ∷ users) = elim (Bool-cases (str_eq u.id new.id)) [
  | inl same ↦ rw same (
      ap (λ (i : String). i ∷ ids (save new users)) (sym ((eq_iff u.id new.id).0 same))
      ∙ ap (λ (is : List String). u.id ∷ is) (save-ids new users))
  | inr apart ↦ rw apart (ap (λ (is : List String). u.id ∷ is) (save-ids new users))
]

apart-add :
    (i : String) (new : User) (users : Users)
    → i ≢ new.id
    → All (λ m. m ≢ i) (ids users)
    → All (λ m. m ≢ i) (ids (users ++ new ∷ []))
apart-add i new [] other h = ((λ e. other (sym e)), tt)
apart-add i new (x ∷ users) other h = (h.0, apart-add i new users other h.1)

pub Distinct-add :
    (new : User) (users : Users)
    → All (λ u. u.id ≢ new.id) users
    → Distinct (ids users)
    → Distinct (ids (users ++ new ∷ []))
Distinct-add new [] fresh d = (tt, tt)
Distinct-add new (u ∷ users) fresh d =
    (apart-add u.id new users fresh.0 d.0, Distinct-add new users fresh.1 d.1)

HasAdmin-add :
    (w : String) (new : User) (users : Users) → HasAdmin w users → HasAdmin w (users ++ new ∷ [])
HasAdmin-add w new [] h = elim h [ ]
HasAdmin-add w new (u ∷ users) h = elim h [
  | inl is ↦ inl is
  | inr later ↦ inr (HasAdmin-add w new users later)
]

-- Nobody loses an admin, and the ids stay distinct.
abbrev Keeps : String → Users → Users → Type 0
Keeps w users users' = Distinct (ids users') × (HasAdmin w users → HasAdmin w users')

put_or_add-Keeps :
    (w : String) (q : User → Bool) (f : User → User) (new : User) (users : Users)
    → Distinct (ids users)
    → All (λ u. u.id ≢ new.id) users
    → ((u : User) → (f u).id ≡ u.id)
    → ((u : User) → is_active_admin w u ≡ true → is_active_admin w (f u) ≡ true)
    → Keeps w users (put_or_add (find q users) f new users).1
put_or_add-Keeps w q f new users d fresh same keeps = elim (Option-cases (find q users)) [
  | inl missing ↦ rw missing (Distinct-add new users fresh d, HasAdmin-add w new users)
  | inr (u, there) ↦ rw there (
    subst Distinct (sym (save-ids (f u) users)) d,
    save-found w q users u (f u) d there (same u) (keeps u),
  )
]

-- A change of columns that concern no admin.
map-Keeps :
    (w : String) (f : User → User) (users : Users)
    → ((u : User) → (f u).id ≡ u.id)
    → ((u : User) → is_active_admin w u ≡ true → is_active_admin w (f u) ≡ true)
    → Distinct (ids users)
    → Keeps w users (map f users)
map-Keeps w f users same keeps d = (subst Distinct (sym (map-ids users)) d, held users)
  where
    map-ids : (users : Users) → ids (map f users) ≡ ids users
    map-ids [] = refl
    map-ids (u ∷ users) = cc (same u, map-ids users)

    held : (users : Users) → HasAdmin w users → HasAdmin w (map f users)
    held [] h = elim h [ ]
    held (u ∷ users) h = elim h [ inl is ↦ inl (keeps u is) | inr later ↦ inr (held users later) ]

if-id : (b : Bool) (v u : User) → v.id ≡ u.id → (if b then v else u).id ≡ u.id
if-id true v u e = e
if-id false v u e = refl

if-admin :
    (w : String) (b : Bool) (v u : User)
    → (is_active_admin w u ≡ true → is_active_admin w v ≡ true)
    → is_active_admin w u ≡ true
    → is_active_admin w (if b then v else u) ≡ true
if-admin w true v u h is = h is
if-admin w false v u h is = is

reactivated :
    (w v : String) (r : UserRole) (a : Bool)
    → (str_eq v w && (is_admin r && a)) ≡ true
    → (str_eq v w && (is_admin r && true)) ≡ true
reactivated w v r a e = ground (arith, eq_iff v w)

provision_invited-Keeps :
    (w : String) (now : ℕ) (new_id : String) (input : ProvisionInput) (users : Users)
    → Distinct (ids users)
    → All (λ u. u.id ≢ new_id) users
    → Keeps w users (provision_invited now new_id input users).1
unfolding provision_invited find_by_slack_identity
provision_invited-Keeps w now new_id input users d fresh =
    put_or_add-Keeps w _ (reinvited now input) (invited now new_id input) users d fresh (λ u. refl)
      (λ u is. reactivated w u.workspace_id u.role u.is_active is)

upsert_from_slack-Keeps :
    (w : String) (now : ℕ) (new_id : String) (input : ProvisionInput) (role : Option UserRole)
    (users : Users)
    → Distinct (ids users)
    → All (λ u. u.id ≢ new_id) users
    → Keeps w users (upsert_from_slack now new_id input role users).1
unfolding upsert_from_slack find_by_slack_identity
upsert_from_slack-Keeps w now new_id input role users d fresh =
    put_or_add-Keeps w _ (signed_in now input)
      (arrived now new_id input (founding_role role (count_by_workspace users input.workspace_id)))
      users d fresh (λ u. refl) (λ u is. reactivated w u.workspace_id u.role u.is_active is)

change-Distinct :
    (done barred last : Bool) (target new u : User) (users users' : Users)
    → Distinct (ids users)
    → change done barred last target new users ≡ given (u, users')
    → Distinct (ids users')
change-Distinct true barred last target new u users users' d e =
    let is : users ≡ users' = ap (λ (p : User × Users). p.1) (given_inj e) in rw (← is) d
change-Distinct false true last target new u users users' d e = cc
change-Distinct false false true target new u users users' d e = cc
change-Distinct false false false target new u users users' d e =
    let is : save new users ≡ users' = ap (λ (p : User × Users). p.1) (given_inj e) in
    rw (← is) (subst Distinct (sym (save-ids new users)) d)

set_active-Distinct :
    (workspace_id caller_id target_id : String) (active : Bool) (u : User) (users users' : Users)
    → Distinct (ids users)
    → set_active workspace_id caller_id target_id active users ≡ given (u, users')
    → Distinct (ids users')
unfolding set_active
set_active-Distinct workspace_id caller_id target_id active u users users' d e =
    elim (Option-cases (find_in users workspace_id target_id)) [
      | inl missing ↦ cc (rw missing at e)
      | inr (t, there) ↦
          change-Distinct (same_bool t.is_active active) (not active && str_eq t.id caller_id)
            (not active && (is_admin t.role && other_admins users workspace_id t.id == 0)) t
            (record t { is_active = active }) u users users' d (rw there at e)
    ]

update_role-Distinct :
    (workspace_id target_id : String) (role : UserRole) (u : User) (users users' : Users)
    → Distinct (ids users)
    → update_role workspace_id target_id role users ≡ given (u, users')
    → Distinct (ids users')
unfolding update_role
update_role-Distinct workspace_id target_id role u users users' d e =
    elim (Option-cases (find_in users workspace_id target_id)) [
      | inl missing ↦ cc (rw missing at e)
      | inr (t, there) ↦
          change-Distinct (same_role t.role role) false
            (not (is_admin role) && (is_admin t.role && other_admins users workspace_id t.id == 0))
            t (record t { role = role }) u users users' d (rw there at e)
    ]

-- What happens to the table; the database gives a new user an id of their own.
pub data Later (users : Users) : Users → Type 0 where
  here : Later users users
  switches :
      {v : Users} (workspace_id caller_id target_id : String) (active : Bool) (u : User)
      (v' : Users)
      → Later users v
      → set_active workspace_id caller_id target_id active v ≡ given (u, v')
      → Later users v'
  promotes :
      {v : Users} (workspace_id target_id : String) (role : UserRole) (u : User) (v' : Users)
      → Later users v
      → update_role workspace_id target_id role v ≡ given (u, v')
      → Later users v'
  signs_in :
      {v : Users} (now : ℕ) (new_id : String) (input : ProvisionInput) (role : Option UserRole)
      → Later users v
      → All (λ u. u.id ≢ new_id) v
      → Later users (upsert_from_slack now new_id input role v).1
  provisions :
      {v : Users} (now : ℕ) (new_id : String) (input : ProvisionInput)
      → Later users v
      → All (λ u. u.id ≢ new_id) v
      → Later users (provision_invited now new_id input v).1
  rehashes :
      {v : Users} (id : String) (hash : Option String)
      → Later users v
      → Later users (set_refresh_token_hash id hash v)
  is_seen :
      {v : Users} (now : ℕ) (id : String)
      → Later users v
      → Later users (update_last_active now id v)

then_Keeps :
    (w : String) (a b c : Users) → Keeps w a b → (Distinct (ids b) → Keeps w b c) → Keeps w a c
then_Keeps w a b c h k = let next = k h.0 in (next.0, λ x. next.1 (h.1 x))

Later-Keeps :
    (w : String) {users v : Users} → Later users v → Distinct (ids users) → Keeps w users v
unfolding set_refresh_token_hash update_last_active
Later-Keeps w here d = (d, λ h. h)
Later-Keeps w (switches {v} workspace_id caller_id target_id active u v' l e) d =
    then_Keeps w _ v v' (Later-Keeps w l d) (λ k. (
      set_active-Distinct workspace_id caller_id target_id active u v v' k e,
      set_active-After w workspace_id caller_id target_id active v k u v' e,
    ))
Later-Keeps w (promotes {v} workspace_id target_id role u v' l e) d =
    then_Keeps w _ v v' (Later-Keeps w l d) (λ k. (
      update_role-Distinct workspace_id target_id role u v v' k e,
      update_role-After w workspace_id target_id role v k u v' e,
    ))
Later-Keeps w (signs_in {v} now new_id input role l fresh) d =
    then_Keeps w _ v _ (Later-Keeps w l d)
      (λ k. upsert_from_slack-Keeps w now new_id input role v k fresh)
Later-Keeps w (provisions {v} now new_id input l fresh) d =
    then_Keeps w _ v _ (Later-Keeps w l d)
      (λ k. provision_invited-Keeps w now new_id input v k fresh)
Later-Keeps w (rehashes {v} id hash l) d = then_Keeps w _ v _ (Later-Keeps w l d) (
    map-Keeps w (λ u. if str_eq u.id id then record u { refresh_token_hash = hash } else u) v
      (λ u. if-id _ (record u { refresh_token_hash = hash }) u refl)
      (λ u. if-admin w _ (record u { refresh_token_hash = hash }) u (λ is. is)))
Later-Keeps w (is_seen {v} now id l) d = then_Keeps w _ v _ (Later-Keeps w l d) (
    map-Keeps w (λ u. if str_eq u.id id then record u { last_active_at = some now } else u) v
      (λ u. if-id _ (record u { last_active_at = some now }) u refl)
      (λ u. if-admin w _ (record u { last_active_at = some now }) u (λ is. is)))

-- In a table of users with distinct ids: a workspace that has an active admin has one ever after,
-- whoever signs in, is invited, promoted, demoted, switched off or switched on, one operation after
-- another.
pub Later-HasAdmin :
    (w : String) {users v : Users}
    → Distinct (ids users)
    → HasAdmin w users
    → Later users v
    → HasAdmin w v
Later-HasAdmin w d h l = (Later-Keeps w l d).1 h
