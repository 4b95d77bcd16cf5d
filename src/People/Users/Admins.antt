-- ===== src/People/Users/Admins.antt =====
-- The admins of a workspace, through the operations on the table of users.
use mathlib.Core.Path.{subst}
use gomer.Base.{
  ◌≡◌, ◌≢◌, inl, inr, refl, sym, ap, ◌∙◌, Bool, true, false, not, ◌&&◌, some, Bool-cases,
  Option-cases, List, [], ◌∷◌, find, map, ◌==◌, All, All-imp, AnyOf, arith, find_holds, both_parts,
}
use gomer.Base.Text.{String, str_eq, eq_iff}
use gomer.Base.Answers.{Answer, given, given_inj}
use gomer.Spaces.Spec.WellFormed.{Distinct}
use gomer.People.Users.{
  UserRole, admin, member, User, Users, is_admin, same_role, same_bool, save, find_in,
  is_active_admin, other_admins, change, set_active, update_role,
}

-- The workspace has an active admin.
abbrev pub HasAdmin : String → Users → Type 0
HasAdmin w users = AnyOf (λ u. is_active_admin w u ≡ true) users

abbrev pub ids : Users → List String
ids users = map (λ (u : User). u.id) users

and_parts : (a b : Bool) → (a && not b) ≡ true → (a ≡ true) × (b ≡ false)
and_parts true true e = cc
and_parts true false e = (refl, refl)
and_parts false b e = cc

none_both : (a b : Bool) → a ≡ true → b ≡ true → (a && b) ≡ false → ⊥
none_both a b e f n = cc (ap (λ (x : Bool). x && b) e, f, n)

last_of : (a b : Bool) → a ≡ true → (a && b) ≡ false → b ≡ false
last_of true b e n = n
last_of false b e n = cc

other_admins-AnyOf :
    (users : Users) (w id : String)
    → (other_admins users w id == 0) ≡ false
    → AnyOf (λ u. (is_active_admin w u ≡ true) × (str_eq u.id id ≡ false)) users
unfolding other_admins
other_admins-AnyOf [] w id e = cc
other_admins-AnyOf (u ∷ users) w id e =
    elim (Bool-cases (is_active_admin w u && not (str_eq u.id id))) [
      | inl both ↦ inl (and_parts _ _ both)
      | inr other ↦ inr (other_admins-AnyOf users w id (rw other at e))
    ]

-- Another active admin is left alone by a save.
save-other :
    (w : String) (new : User) (users : Users)
    → AnyOf (λ u. (is_active_admin w u ≡ true) × (str_eq u.id new.id ≡ false)) users
    → HasAdmin w (save new users)
save-other w new [] h = elim h [ ]
save-other w new (u ∷ users) h = elim h [
  | inl (is, apart) ↦ rw apart (inl is)
  | inr later ↦ inr (save-other w new users later)
]

-- So is the saved user, if it still is one where the row was one.
save-same :
    (w : String) (new : User) (users : Users)
    → All (λ u. u.id ≡ new.id → is_active_admin w u ≡ true → is_active_admin w new ≡ true) users
    → HasAdmin w users
    → HasAdmin w (save new users)
save-same w new [] k h = elim h [ ]
save-same w new (u ∷ users) k h = elim h [
  | inr later ↦ inr (save-same w new users k.1 later)
  | inl is ↦ elim (Bool-cases (str_eq u.id new.id)) [
    | inl same ↦ rw same (inl (k.0 ((eq_iff u.id new.id).0 same) is))
    | inr apart ↦ rw apart (inl is)
  ]
]

-- In a table with distinct ids a row that is found is the only one with its id.
pub found-only :
    (q : User → Bool) (users : Users) (u : User)
    → Distinct (ids users)
    → find q users ≡ some u
    → All (λ x. x.id ≡ u.id → x ≡ u) users
found-only q [] u d e = tt
found-only q (x ∷ users) u d e = elim (Bool-cases (q x)) [
  | inl passes ↦
      let is : x ≡ u = cc (rw passes at e) in
      (λ h. is, subst (λ v. All (λ y. y.id ≡ v.id → y ≡ v) users) is (apart-All x users d.0))
  | inr fails ↦
      let there : find q users ≡ some u = rw fails at e in
      (λ h. absurd (apart-find q x users u d.0 there h), found-only q users u d.1 there)
]
  where
    apart-All :
        (x : User) (users : Users)
        → All (λ m. m ≢ x.id) (ids users)
        → All (λ y. y.id ≡ x.id → y ≡ x) users
    apart-All x [] h = tt
    apart-All x (y ∷ users) h = (λ e. absurd (h.0 e), apart-All x users h.1)

    apart-find :
        (q : User → Bool) (x : User) (users : Users) (u : User)
        → All (λ m. m ≢ x.id) (ids users)
        → find q users ≡ some u
        → x.id ≡ u.id
        → ⊥
    apart-find q x [] u h e same = cc
    apart-find q x (y ∷ users) u h e same = elim (Bool-cases (q y)) [
      | inl passes ↦ h.0 (cc (rw passes at e, same))
      | inr fails ↦ apart-find q x users u h.1 (rw fails at e) same
    ]

-- A save of a row that was found, changed to `new`.
pub save-found :
    (w : String) (q : User → Bool) (users : Users) (u new : User)
    → Distinct (ids users)
    → find q users ≡ some u
    → new.id ≡ u.id
    → (is_active_admin w u ≡ true → is_active_admin w new ≡ true)
    → HasAdmin w users
    → HasAdmin w (save new users)
save-found w q users u new d there same keeps = save-same w new users (
    All-imp _ _ users
      (λ x only e is. keeps (subst (λ v. is_active_admin w v ≡ true) (only (e ∙ same)) is))
      (found-only q users u d there))

abbrev pub After : String → Users → Answer (User × Users) → Type 0
After w users r =
    (u : User) (users' : Users) → r ≡ given (u, users') → HasAdmin w users → HasAdmin w users'

pub change-After :
    (w : String) (done barred last : Bool) (target new : User) (users : Users)
    → (last ≡ false → HasAdmin w users → HasAdmin w (save new users))
    → After w users (change done barred last target new users)
change-After w true barred last target new users h u users' e has =
    let is : users ≡ users' = ap (λ (p : User × Users). p.1) (given_inj e) in rw (← is) has
change-After w false true last target new users h u users' e has = cc
change-After w false false true target new users h u users' e has = cc
change-After w false false false target new users h u users' e has =
    let is : save new users ≡ users' = ap (λ (p : User × Users). p.1) (given_inj e) in
    rw (← is) (h refl has)

-- The admin rights of an active admin: of which workspace, and with which role.
admin_parts :
    (w v : String) (r : UserRole) (a : Bool)
    → (str_eq v w && (is_admin r && a)) ≡ true
    → (v ≡ w) × (is_admin r ≡ true) × (a ≡ true)
admin_parts w v admin true e = (ground (arith, eq_iff v w), refl, refl)
admin_parts w v admin false e = ground (arith, eq_iff v w)
admin_parts w v member a e = ground (arith, eq_iff v w)

-- Taking an admin's rights away: another admin of the workspace is left, or there were none to take.
demote-HasAdmin :
    (w workspace_id : String) (q : User → Bool) (users : Users) (target new : User)
    → Distinct (ids users)
    → find q users ≡ some target
    → new.id ≡ target.id
    → target.workspace_id ≡ workspace_id
    → (is_admin target.role && other_admins users workspace_id target.id == 0) ≡ false
    → HasAdmin w users
    → HasAdmin w (save new users)
demote-HasAdmin w workspace_id q users target new d there same right some_left has =
    elim (Bool-cases (str_eq workspace_id w && is_admin target.role)) [
      | inl both ↦
          let (here, rights) = both_parts _ _ both in
          let others =
            other_admins-AnyOf users workspace_id target.id (last_of _ _ rights some_left) in
          save-other w new users (
            subst (λ i. AnyOf (λ u. (is_active_admin w u ≡ true) × (str_eq u.id i ≡ false)) users)
              (sym same)
              (subst
                (λ v.
                  AnyOf (λ u. (is_active_admin v u ≡ true) × (str_eq u.id target.id ≡ false)) users)
                ((eq_iff workspace_id w).0 here) others))
      | inr neither ↦
          save-found w q users target new d there same
            (λ is.
              let (of, rights, active) =
                admin_parts w target.workspace_id target.role target.is_active is in
              absurd (none_both _ _ ((eq_iff workspace_id w).1 (sym right ∙ of)) rights neither))
            has
    ]

found-workspace :
    (users : Users) (workspace_id id : String) (u : User)
    → find (λ x. str_eq x.id id && str_eq x.workspace_id workspace_id) users ≡ some u
    → u.workspace_id ≡ workspace_id
found-workspace users workspace_id id u there =
    (eq_iff u.workspace_id workspace_id).0
      (both_parts _ _
        (find_holds (λ x. str_eq x.id id && str_eq x.workspace_id workspace_id) users u there)).1

active-keeps :
    (w : String) (active : Bool) (u : User)
    → active ≡ true
    → is_active_admin w u ≡ true
    → is_active_admin w (record u { is_active = active }) ≡ true
active-keeps w active u on is =
    let (of, rights, a) = admin_parts w u.workspace_id u.role u.is_active is in
    rw ((eq_iff u.workspace_id w).1 of, rights, on) refl

role-keeps :
    (w : String) (role : UserRole) (u : User)
    → is_admin role ≡ true
    → is_active_admin w u ≡ true
    → is_active_admin w (record u { role = role }) ≡ true
role-keeps w role u on is =
    let (of, rights, a) = admin_parts w u.workspace_id u.role u.is_active is in
    rw ((eq_iff u.workspace_id w).1 of, on, a) refl

pub set_active-After :
    (w workspace_id caller_id target_id : String) (active : Bool) (users : Users)
    → Distinct (ids users)
    → After w users (set_active workspace_id caller_id target_id active users)
unfolding set_active find_in
set_active-After w workspace_id caller_id target_id active users d u users' e has =
    let q = λ (x : User). str_eq x.id target_id && str_eq x.workspace_id workspace_id in
    elim (Option-cases (find q users)) [
      | inl missing ↦ cc (rw missing at e)
      | inr (target, there) ↦
          change-After w (same_bool target.is_active active)
            (not active && str_eq target.id caller_id)
            (not active && (is_admin target.role && other_admins users workspace_id target.id == 0))
            target (record target { is_active = active }) users
            (λ some_left held. elim (Bool-cases active) [
              | inl on ↦
                  save-found w q users target (record target { is_active = active }) d there refl
                    (active-keeps w active target on) held
              | inr off ↦
                  demote-HasAdmin w workspace_id q users target
                    (record target { is_active = active }) d there refl
                    (found-workspace users workspace_id target_id target there)
                    (rw off at some_left) held
            ])
            u users' (rw there at e) has
    ]

pub update_role-After :
    (w workspace_id target_id : String) (role : UserRole) (users : Users)
    → Distinct (ids users)
    → After w users (update_role workspace_id target_id role users)
unfolding update_role find_in
update_role-After w workspace_id target_id role users d u users' e has =
    let q = λ (x : User). str_eq x.id target_id && str_eq x.workspace_id workspace_id in
    elim (Option-cases (find q users)) [
      | inl missing ↦ cc (rw missing at e)
      | inr (target, there) ↦
          change-After w (same_role target.role role) false
            (not (is_admin role)
              && (is_admin target.role && other_admins users workspace_id target.id == 0))
            target (record target { role = role }) users
            (λ some_left held. elim (Bool-cases (is_admin role)) [
              | inl on ↦
                  save-found w q users target (record target { role = role }) d there refl
                    (role-keeps w role target on) held
              | inr off ↦
                  demote-HasAdmin w workspace_id q users target (record target { role = role }) d
                    there refl (found-workspace users workspace_id target_id target there)
                    (rw off at some_left) held
            ])
            u users' (rw there at e) has
    ]
