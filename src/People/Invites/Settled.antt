-- ===== src/People/Invites/Settled.antt =====
-- One person who is invited, and the members who are on the team already.
use mathlib.Core.Path.{subst}
use gomer.Base.{
  ℕ, ◌≡◌, ◌≢◌, inl, inr, refl, sym, ap, ◌∙◌, Bool, true, false, ◌&&◌, none, some, Bool-cases,
  Option-cases, [], ◌∷◌, ◌++◌, find, All, All-imp, All-append, AnyOf, find_holds, both_parts,
}
use gomer.Base.Text.{String, str_eq, eq_iff}
use gomer.Spaces.Spec.WellFormed.{Distinct}
use gomer.People.Users.{
  User, Users, ProvisionInput, replace, save, reinvited, invited as new_member, put_or_add,
}
use gomer.People.Users.Admins.{ids, found-only}
use gomer.People.Users.History.{save-ids, Distinct-add}
use gomer.People.Invites.{is_settled, settled_user, UserMap, get}

abbrev pub IsIn : User → Users → Type 0
IsIn u users = AnyOf (λ x. x ≡ u) users

IsIn-All : (P : User → Type 0) (users : Users) (u : User) → All P users → IsIn u users → P u
IsIn-All P [] u h i = elim i [ ]
IsIn-All P (x ∷ users) u h i = elim i [
  | inl is ↦ subst P is h.0
  | inr later ↦ IsIn-All P users u h.1 later
]

IsIn-add : (u new : User) (users : Users) → IsIn u users → IsIn u (users ++ new ∷ [])
IsIn-add u new [] i = elim i [ ]
IsIn-add u new (x ∷ users) i = elim i [
  | inl is ↦ inl is
  | inr later ↦ inr (IsIn-add u new users later)
]

some_inj {ℓ} : {A : Type ℓ} {a b : A} → some a ≡ some b → a ≡ b
some_inj e = cc

-- A save leaves the rows with other ids.
IsIn-save :
    (u new : User) (users : Users)
    → str_eq u.id new.id ≡ false
    → IsIn u users
    → IsIn u (save new users)
IsIn-save u new [] other i = elim i [ ]
IsIn-save u new (x ∷ users) other i = elim i [
  | inl is ↦ inl (subst (λ (v : User). replace new v ≡ v) (sym is) (rw other refl) ∙ is)
  | inr later ↦ inr (IsIn-save u new users other later)
]

find-IsIn : (q : User → Bool) (users : Users) (u : User) → find q users ≡ some u → IsIn u users
find-IsIn q [] u e = cc
find-IsIn q (x ∷ users) u e = elim (Bool-cases (q x)) [
  | inl passes ↦ inl (some_inj (rw passes at e))
  | inr fails ↦ inr (find-IsIn q users u (rw fails at e))
]

find-none : (q : User → Bool) (users : Users) → find q users ≡ none → All (λ u. q u ≡ false) users
find-none q [] e = tt
find-none q (x ∷ users) e = elim (Bool-cases (q x)) [
  | inl passes ↦ cc (rw passes at e)
  | inr fails ↦ (fails, find-none q users (rw fails at e))
]

All-both-imp :
    {P Q R : User → Type 0} (users : Users)
    → All P users
    → All Q users
    → ((u : User) → P u → Q u → R u)
    → All R users
All-both-imp [] h k f = tt
All-both-imp (u ∷ users) h k f = (f u h.0 k.0, All-both-imp users h.1 k.1 f)

pub get-same : (k : String) (u : User) (m : UserMap) → get k ((k, u) ∷ m) ≡ some u
unfolding get
get-same k u m = rw ((eq_iff k k).1 refl) refl

pub get-other : (j k : String) (u : User) (m : UserMap) → j ≢ k → get k ((j, u) ∷ m) ≡ get k m
unfolding get
get-other j k u m other = elim (Bool-cases (str_eq j k)) [
  | inl same ↦ absurd (other ((eq_iff j k).0 same))
  | inr apart ↦ rw apart refl
]

unsettled : (u : User) → settled_user (some u) ≡ none → is_settled u ≡ false
unsettled u e = elim (Bool-cases (is_settled u)) [ inl is ↦ cc (rw is at e) | inr not_so ↦ not_so ]

true-false : true ≡ false → ⊥
true-false e = cc

-- The members who are on the team, with no invite pending, stay as they are.
abbrev pub KeepsSettled : Users → Users → Type 0
KeepsSettled users users' = (u : User) → is_settled u ≡ true → IsIn u users → IsIn u users'

module _ (workspace_id : String) where
  -- The map by Slack id knows the rows of the workspace.
  abbrev pub Knows : Users → UserMap → Type 0
  Knows users m = All (λ u. u.workspace_id ≡ workspace_id → get u.slack_user_id m ≡ some u) users

  abbrev slack_test : String → User → Bool
  slack_test slack_id u = str_eq u.workspace_id workspace_id && str_eq u.slack_user_id slack_id

  Knows-found :
      (users : Users) (m : UserMap) (slack_id : String) (u : User)
      → Knows users m
      → find (slack_test slack_id) users ≡ some u
      → get slack_id m ≡ some u
  Knows-found users m slack_id u k there =
      let (w, s) = both_parts _ _ (find_holds (slack_test slack_id) users u there) in
      let is = (eq_iff u.slack_user_id slack_id).0 s in
      subst (λ i. get i m ≡ some u) is
        (IsIn-All _ users u k (find-IsIn _ users u there)
          ((eq_iff u.workspace_id workspace_id).0 w))

  save-Knows :
      (new : User) (users : Users) (m : UserMap)
      → get new.slack_user_id m ≡ some new
      → All
          (λ y.
            str_eq y.id new.id ≡ false
            → y.workspace_id ≡ workspace_id
            → get y.slack_user_id m ≡ some y)
          users
      → Knows (save new users) m
  save-Knows new [] m self h = tt
  save-Knows new (y ∷ users) m self h = elim (Bool-cases (str_eq y.id new.id)) [
    | inl same ↦ rw same (λ right. self, save-Knows new users m self h.1)
    | inr other ↦ rw other (h.0 other, save-Knows new users m self h.1)
  ]

  slack_test-false :
      (u : User) (slack_id : String)
      → u.workspace_id ≡ workspace_id
      → u.slack_user_id ≡ slack_id
      → slack_test slack_id u ≡ false
      → ⊥
  slack_test-false u slack_id right same no_test = cc (
      rw ((eq_iff u.workspace_id workspace_id).1 right, (eq_iff u.slack_user_id slack_id).1 same) at
        no_test)

  -- What adding or inviting again does, where the map knows nobody settled of that Slack id.
  abbrev Provided : Users → UserMap → User × Users → Type 0
  Provided users m (u, users') =
      KeepsSettled users users' × Knows users' ((u.slack_user_id, u) ∷ m) × Distinct (ids users')

  pub provision-Provided :
      (now : ℕ) (new_id : String) (input : ProvisionInput) (users : Users) (m : UserMap)
      → input.workspace_id ≡ workspace_id
      → Knows users m
      → Distinct (ids users)
      → All (λ u. u.id ≢ new_id) users
      → settled_user (get input.slack_user_id m) ≡ none
      → Provided users m (
          put_or_add
            (find (slack_test input.slack_user_id) users)
            (reinvited now input)
            (new_member now new_id input)
            users)
  provision-Provided now new_id input users m here k d fresh nobody =
      elim (Option-cases (find (slack_test input.slack_user_id) users)) [
        | inl missing ↦ rw missing (
          λ u settled i. IsIn-add u (new_member now new_id input) users i,
          All-append _ users (new_member now new_id input ∷ [])
              (All-both-imp users k (find-none _ users missing) (λ u known other right.
                get-other input.slack_user_id u.slack_user_id (new_member now new_id input) m
                  (λ same. slack_test-false u input.slack_user_id right (sym same) other)
                ∙ known right))
              ((λ right. get-same input.slack_user_id (new_member now new_id input) m), tt),
          Distinct-add (new_member now new_id input) users fresh d,
        )
        | inr (x, there) ↦ rw there (
            let known = Knows-found users m input.slack_user_id x k there in
            let pending = unsettled x (subst (λ o. settled_user o ≡ none) known nobody) in
            let (x_right, x_slack) =
              both_parts _ _ (find_holds (slack_test input.slack_user_id) users x there) in
            let slack_is = (eq_iff x.slack_user_id input.slack_user_id).0 x_slack in
            let new = reinvited now input x in
            let m' : UserMap = (x.slack_user_id, new) ∷ m in
            (
              λ u settled i. elim (Bool-cases (str_eq u.id x.id)) [
                | inl same ↦
                    let is =
                      IsIn-All _ users u (found-only _ users x d there) i
                        ((eq_iff u.id x.id).0 same) in
                    absurd (true-false (sym settled ∙ (ap is_settled is ∙ pending)))
                | inr other ↦ IsIn-save u new users other i
              ],
              save-Knows new users m' (get-same x.slack_user_id new m) (
                  All-imp _ _ users
                    (λ y known_y other right.
                      get-other x.slack_user_id y.slack_user_id new m (λ same.
                        let twice = known_y right ∙ refl in
                        let it : y ≡ x = some_inj (
                          sym (known_y right)
                          ∙ subst (λ i. get i m ≡ some x) (sym slack_is ∙ same) known) in
                        absurd (
                          true-false
                            (sym ((eq_iff y.id x.id).1 (ap (λ (v : User). v.id) it)) ∙ other)))
                      ∙ known_y right)
                    k),
              subst Distinct (sym (save-ids new users)) d,
            ))
      ]
