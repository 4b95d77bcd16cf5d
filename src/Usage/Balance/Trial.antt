-- ===== src/Usage/Balance/Trial.antt =====
-- The free trial (`grantOnboardingCredits` of src/usage/usage.service.ts).
use Prim.Native.Nat.{max}
use gomer.Base.{
  ℕ, Bool, suc, ◌*◌, ◌≡◌, refl, inl, inr, Bool-cases, true, false, some, none, List, [], ◌∷◌, ◌++◌,
  arith, find, is_some, any, if◌then◌else◌,
}
use gomer.Usage.Types.{CreditGrant, CreditBucket, Ledger}
use gomer.Usage.Ledger.{
  grant_onboarding_credits, grant_credits, save_grant, is_onboarding_grant_of, onboarding_input,
  grant_of, trial_credits, clashes,
}

no_clash :
    (w c : ℕ) (l : Ledger) (gs : List CreditGrant)
    → any (clashes (grant_of (onboarding_input w c) l)) gs ≡ false
no_clash w c l [] = refl
no_clash w c l (g ∷ gs) = no_clash w c l gs

has_trial-append :
    (w : ℕ) (gs : List CreditGrant) (g : CreditGrant)
    → is_onboarding_grant_of w g ≡ true
    → is_some (find (is_onboarding_grant_of w) (gs ++ g ∷ [])) ≡ true
has_trial-append w [] g h = ground arith
has_trial-append w (x ∷ gs) g h = ground (arith, has_trial-append w gs g h)

module _ (w seats seats' : ℕ) (l : Ledger) where
  abbrev trial : CreditGrant
  trial = grant_of (onboarding_input w (trial_credits seats)) l

  abbrev had_trial : Bool
  had_trial = is_some (find (is_onboarding_grant_of w) l.grants)

  abbrev after_trial : Ledger
  after_trial =
      if had_trial then l else record l { grants = l.grants ++ trial ∷ []; next_id = suc l.next_id }

  trial-given :
      grant_onboarding_credits w seats l
      ≡ some (if had_trial then none else some trial, after_trial)
  unfolding grant_onboarding_credits grant_credits save_grant
  trial-given = elim (Bool-cases had_trial) [
    | inl had ↦ rw had
    | inr not_yet ↦ rw (not_yet, no_clash w (trial_credits seats) l l.grants)
  ]

  trial-again : grant_onboarding_credits w seats' after_trial ≡ some (none, after_trial)
  unfolding grant_onboarding_credits
  trial-again = elim (Bool-cases had_trial) [
    | inl had ↦ rw had (rw had)
    | inr not_yet ↦ rw not_yet (rw (has_trial-append w l.grants trial (ground arith)))
  ]

-- The trial is never refused by the database. A workspace without one gets a grant, which is a
-- reward without expiry of 10,000 credits for each active seat and of 40,000 at the least; one that
-- has had it gets none. A second call, whatever the number of seats is by then, changes nothing.
pub grant_onboarding_credits-once :
    (w seats seats' : ℕ) (l : Ledger)
    → (g : CreditGrant) × (l' : Ledger) × (grant_onboarding_credits w seats l
        ≡ some (if is_some (find (is_onboarding_grant_of w) l.grants) then none else some g, l'))
      × (g.credits ≡ max 40_000 (10_000 * max 1 seats))
      × (g.bucket ≡ CreditBucket.reward)
      × (g.expires_at ≡ none)
      × (grant_onboarding_credits w seats' l' ≡ some (none, l'))
grant_onboarding_credits-once w seats seats' l = (
  trial w seats seats' l,
  after_trial w seats seats' l,
  trial-given w seats seats' l,
  omega arith,
  refl,
  refl,
  trial-again w seats seats' l,
)
