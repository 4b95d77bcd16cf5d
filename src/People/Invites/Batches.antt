-- ===== src/People/Invites/Batches.antt =====
-- A batch of invites, and the members who are on the team already.
use mathlib.Core.Path.{subst}
use gomer.Base.{
  ℕ, suc, ◌≤◌, ◌<◌, ◌≡◌, ◌≢◌, refl, sym, Bool, true, false, Option, none, some, List, [], ◌∷◌, map,
  All, All-append, arith,
}
use gomer.Base.Text.{String}
use gomer.Slack.{Found, SlackEmailLookup, found, not_found as unknown, failed}
use gomer.Spaces.Spec.WellFormed.{Distinct}
use gomer.People.Users.{
  User, Users, ProvisionInput, find_by_slack_identity, reinvited, invited as new_member, put_or_add,
  provision_invited,
}
use gomer.People.Users.Admins.{ids}
use gomer.People.Users.History.{save-ids}
use gomer.People.Invites.{
  InviteResult, settled_user, get, Batch, provision, invite_person, invite_live, invite_found,
  invite_known, invite_one, invite_all,
}
use gomer.People.Invites.Settled.{KeepsSettled, Knows, provision-Provided}

map-All : (P : String → Type 0) (users : Users) → All P (ids users) → All (λ u. P u.id) users
map-All P [] h = tt
map-All P (u ∷ users) h = (h.0, map-All P users h.1)

All-map : (P : String → Type 0) (users : Users) → All (λ u. P u.id) users → All P (ids users)
All-map P [] h = tt
All-map P (u ∷ users) h = (h.0, All-map P users h.1)

module _ (workspace_id : String) (lower : String → String) (ask : String → SlackEmailLookup)
    (deliver : List String → String → Bool) (now : ℕ) (uuid : ℕ → String)
    (apart : (i j : ℕ) → i < j → uuid i ≢ uuid j) where
  -- The ids from a number on are nobody's.
  abbrev pub Unused : ℕ → Users → Type 0
  Unused n users = (j : ℕ) → n ≤ j → All (λ i. i ≢ uuid j) (ids users)

  -- A batch in good order before its ids from a number on are used.
  abbrev pub Good : ℕ → Batch → Type 0
  Good n b = Knows workspace_id b.users b.by_slack_id × Distinct (ids b.users) × Unused n b.users

  abbrev pub Steps : ℕ → Batch → Batch → Type 0
  Steps n b b' = KeepsSettled b.users b'.users × Good n b'

  stay : (n : ℕ) (b : Batch) → Good n b → Steps (suc n) b b
  stay n b g = ((λ u settled i. i), (g.0, g.1, λ j le. g.2 j (omega arith)))

  provided-Unused :
      (n : ℕ) (input : ProvisionInput) (users : Users) (o : Option User)
      → Unused n users
      → Unused (suc n) (put_or_add o (reinvited now input) (new_member now (uuid n) input) users).1
  provided-Unused n input users none h j le =
      All-map (λ i. i ≢ uuid j) _
        (All-append _ users (new_member now (uuid n) input ∷ [])
          (map-All (λ i. i ≢ uuid j) users (h j (omega arith))) (apart n j (omega arith), tt))
  provided-Unused n input users (some x) h j le =
      subst (All (λ i. i ≢ uuid j)) (sym (save-ids (reinvited now input x) users))
        (h j (omega arith))

  provision-Steps :
      (n : ℕ) (email : String) (person : Found) (b : Batch)
      → Good n b
      → settled_user (get person.id b.by_slack_id) ≡ none
      → Steps (suc n) b (provision workspace_id lower ask deliver now (uuid n) email person b).1
  unfolding provision_invited find_by_slack_identity
  provision-Steps n email person b g nobody =
      let input : ProvisionInput = record {
        workspace_id = workspace_id;
        slack_user_id = person.id;
        name = person.name;
        email = some person.email;
        avatar_url = person.avatar_url;
      } in
      let fresh = map-All (λ i. i ≢ uuid n) b.users (g.2 n (omega arith)) in
      let (kept, knows, distinct) =
        provision-Provided workspace_id now (uuid n) input b.users b.by_slack_id refl g.0 g.1 fresh
          nobody in
      (kept, (knows, distinct, provided-Unused n input b.users _ g.2))

  invite_person-Steps :
      (n : ℕ) (email : String) (person : Found) (o : Option User) (b : Batch)
      → Good n b
      → settled_user (get person.id b.by_slack_id) ≡ o
      → Steps
          (suc n)
          b
          (invite_person workspace_id lower ask deliver now (uuid n) email person o b).1
  invite_person-Steps n email person none b g e = provision-Steps n email person b g e
  invite_person-Steps n email person (some u) b g e = stay n b g

  invite_live-Steps :
      (gone bot : Bool) (n : ℕ) (email : String) (person : Found) (b : Batch)
      → Good n b
      → Steps
          (suc n)
          b
          (invite_live workspace_id lower ask deliver gone bot now (uuid n) email person b).1
  invite_live-Steps true bot n email person b g = stay n b g
  invite_live-Steps false true n email person b g = stay n b g
  invite_live-Steps false false n email person b g =
      invite_person-Steps n email person (settled_user (get person.id b.by_slack_id)) b g refl

  invite_found-Steps :
      (n : ℕ) (email : String) (l : SlackEmailLookup) (b : Batch)
      → Good n b
      → Steps (suc n) b (invite_found workspace_id lower ask deliver now (uuid n) email l b).1
  invite_found-Steps n email (failed e) b g = stay n b g
  invite_found-Steps n email unknown b g = stay n b g
  invite_found-Steps n email (found person) b g =
      invite_live-Steps person.is_deleted person.is_bot n email person b g

  invite_known-Steps :
      (n : ℕ) (email : String) (o : Option User) (b : Batch)
      → Good n b
      → Steps (suc n) b (invite_known workspace_id lower ask deliver now (uuid n) email o b).1
  invite_known-Steps n email (some u) b g = stay n b g
  invite_known-Steps n email none b g = invite_found-Steps n email (ask email) b g

  pub invite_all-Steps :
      (n : ℕ) (emails : List String) (b : Batch)
      → Good n b
      → KeepsSettled b.users (invite_all workspace_id lower ask deliver now uuid n emails b).1.users
  unfolding invite_all invite_one
  invite_all-Steps n [] b g u settled i = i
  invite_all-Steps n (email ∷ emails) b g u settled i =
      let one = invite_one workspace_id lower ask deliver now (uuid n) email b in
      let step = invite_known-Steps n email (settled_user (get email b.by_email)) b g in
      invite_all-Steps (suc n) emails one.1 step.1 u settled (step.0 u settled i)

  -- One result for each address, in their order.
  one_email :
      (n : ℕ) (email : String) (b : Batch)
      → (invite_one workspace_id lower ask deliver now (uuid n) email b).0.email ≡ email
  unfolding invite_one
  one_email n email b = known (settled_user (get email b.by_email))
    where
      person :
          (p : Found) (o : Option User)
          → (invite_person workspace_id lower ask deliver now (uuid n) email p o b).0.email ≡ email
      person p none = refl
      person p (some u) = refl

      live :
          (p : Found) (x y : Bool)
          → (invite_live workspace_id lower ask deliver x y now (uuid n) email p b).0.email ≡ email
      live p true y = refl
      live p false true = refl
      live p false false = person p (settled_user (get p.id b.by_slack_id))

      asked :
          (l : SlackEmailLookup)
          → (invite_found workspace_id lower ask deliver now (uuid n) email l b).0.email ≡ email
      asked (failed e) = refl
      asked unknown = refl
      asked (found p) = live p p.is_deleted p.is_bot

      known :
          (o : Option User)
          → (invite_known workspace_id lower ask deliver now (uuid n) email o b).0.email ≡ email
      known (some u) = refl
      known none = asked (ask email)

  pub all_emails :
      (n : ℕ) (emails : List String) (b : Batch)
      → map
          (λ (r : InviteResult). r.email)
          (invite_all workspace_id lower ask deliver now uuid n emails b).0
        ≡ emails
  unfolding invite_all
  all_emails n [] b = refl
  all_emails n (email ∷ emails) b = cc (
    one_email n email b,
    all_emails (suc n) emails (invite_one workspace_id lower ask deliver now (uuid n) email b).1,
  )
