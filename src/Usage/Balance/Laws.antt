-- ===== src/Usage/Balance/Laws.antt =====
-- The figures of `getBalance` (src/usage/usage.service.ts).
use gomer.Base.{
  ℕ, ◌+◌, ◌-◌, ◌≤◌, ◌≡◌, refl, sym, ap, ◌∙◌, Bool-cases, inl, inr, false, not, ◌&&◌, List, [], ◌∷◌,
  map, arith, ◌==◌, sum_of, keep, All, if◌then◌else◌, some,
}
use gomer.Usage.Types.{
  CreditBucket, CreditGrant, Ledger, bucket_eq, bucket_eq_sound, bucket_eq_comm, is_live,
}
use gomer.Usage.Planner.{spend_order}
use gomer.Usage.Ledger.{spent}
use gomer.Usage.Ledger.Invariant.{IsSound}
use gomer.Usage.Ledger.Sums.{available}
use gomer.Usage.Balance.{
  BucketMap, get_bucket, set_bucket, BucketBalance, GrantRow, Tally, tally_row, tally_rows,
  credits_in, entry_of, bucket_balance, row_of, remaining_by_grant, get_balance,
}

get_bucket-set :
    (b : CreditBucket) (v : BucketBalance) (m : BucketMap)
    → get_bucket b (set_bucket v m) ≡ (if bucket_eq v.bucket b then some v else get_bucket b m)
get_bucket-set b v [] = refl
get_bucket-set b v (u ∷ m) = elim (Bool-cases (bucket_eq u.bucket v.bucket)) [
  | inl same ↦
      let e : bucket_eq u.bucket b ≡ bucket_eq v.bucket b =
        ap (λ (t : CreditBucket). bucket_eq t b) (bucket_eq_sound u.bucket v.bucket same) in
      rw (same, e) (elim (Bool-cases (bucket_eq v.bucket b)) [ inl h ↦ rw h | inr h ↦ rw h ])
  | inr other ↦ rw other (elim (Bool-cases (bucket_eq u.bucket b)) [
    | inl e ↦
        let apart : bucket_eq v.bucket b ≡ false =
          ap (bucket_eq v.bucket) (sym (bucket_eq_sound u.bucket b e))
          ∙ bucket_eq_comm v.bucket u.bucket
          ∙ other in
        rw (e, apart)
    | inr e ↦ rw e (get_bucket-set b v m)
  ])
]

-- The credits of the four buckets together.
abbrev in_all : BucketMap → ℕ
in_all m = sum_of (λ b. b.credits) (map (bucket_balance m) spend_order)

in_all-set :
    (v : BucketBalance) (m : BucketMap)
    → in_all (set_bucket v m) + credits_in (get_bucket v.bucket m) ≡ in_all m + v.credits
in_all-set v m = ground (
  arith,
  get_bucket-set CreditBucket.rollover v m,
  get_bucket-set CreditBucket.plan v m,
  get_bucket-set CreditBucket.topup v m,
  get_bucket-set CreditBucket.reward v m,
)

-- The credits left on the rows that are live, and on those that are not.
abbrev left_on : GrantRow → ℕ
left_on row = row.granted - row.spent

abbrev live_left : GrantRow → ℕ
live_left row = if row.dead then 0 else left_on row

abbrev dead_left : GrantRow → ℕ
dead_left row = if row.dead then left_on row else 0

tally_row-sums :
    (row : GrantRow) (t : Tally)
    → let r = tally_row row t in
      (r.granted ≡ t.granted + row.granted)
      × (r.expired ≡ t.expired + dead_left row)
      × (in_all r.live ≡ in_all t.live + live_left row)
unfolding tally_row
tally_row-sums row t = elim (Bool-cases row.dead) [
  | inl e ↦ rw e (refl, omega arith, omega arith)
  | inr e ↦ rw e (refl, omega arith, omega (arith, in_all-set (entry_of row t.live) t.live))
]

tally_rows-sums :
    (rows : List GrantRow) (t : Tally)
    → let r = tally_rows rows t in
      (r.granted ≡ t.granted + sum_of (λ row. row.granted) rows)
      × (r.expired ≡ t.expired + sum_of dead_left rows)
      × (in_all r.live ≡ in_all t.live + sum_of live_left rows)
unfolding tally_rows
tally_rows-sums [] t = omega arith
tally_rows-sums (row ∷ rows) t =
    let one = tally_row-sums row t in
    let more = tally_rows-sums rows (tally_row row t) in
    (omega (arith, one, more), omega (arith, one, more), omega (arith, one, more))

module _ (l : Ledger) (w : ℕ) where
  rows-granted :
      (gs : List CreditGrant)
      → sum_of
          (λ row. row.granted)
          (map (row_of l.allocations l.now) (keep (λ g. g.workspace_id == w) gs))
        ≡ sum_of (λ g. if g.workspace_id == w then g.credits else 0) gs
  rows-granted [] = refl
  rows-granted (g ∷ gs) = ground (arith, rows-granted gs)

  rows-live :
      (gs : List CreditGrant)
      → sum_of live_left (map (row_of l.allocations l.now) (keep (λ g. g.workspace_id == w) gs))
        ≡ sum_of (available l.allocations l.now w) gs
  rows-live [] = refl
  rows-live (g ∷ gs) = ground (arith, rows-live gs)

  -- What is left of a grant that has expired.
  abbrev pub dead_of : CreditGrant → ℕ
  dead_of g =
      if g.workspace_id == w && not (is_live l.now g.expires_at)
      then g.credits - spent l.allocations g.id
      else 0

  rows-dead :
      (gs : List CreditGrant)
      → sum_of dead_left (map (row_of l.allocations l.now) (keep (λ g. g.workspace_id == w) gs))
        ≡ sum_of dead_of gs
  rows-dead [] = refl
  rows-dead (g ∷ gs) = ground (arith, rows-dead gs)

  -- The balance read off the buckets is what the workspace can still spend of its grants.
  pub balance-available :
      (get_balance l w).balance ≡ sum_of (available l.allocations l.now w) l.grants
  unfolding get_balance
  balance-available = omega (
    arith,
    tally_rows-sums (remaining_by_grant l w) (record { granted = 0; expired = 0; live = [] }),
    rows-live l.grants,
  )

  pub granted-sum :
      (get_balance l w).granted
      ≡ sum_of (λ g. if g.workspace_id == w then g.credits else 0) l.grants
  unfolding get_balance
  granted-sum = omega (
    arith,
    tally_rows-sums (remaining_by_grant l w) (record { granted = 0; expired = 0; live = [] }),
    rows-granted l.grants,
  )

  -- What has been drawn from a grant of the workspace.
  abbrev pub spent_of : CreditGrant → ℕ
  spent_of g = if g.workspace_id == w then spent l.allocations g.id else 0

  parts :
      (gs : List CreditGrant)
      → All (λ g. spent l.allocations g.id ≤ g.credits) gs
      → sum_of (λ g. if g.workspace_id == w then g.credits else 0) gs
        ≡ sum_of (available l.allocations l.now w) gs + sum_of dead_of gs + sum_of spent_of gs
  parts [] h = refl
  parts (g ∷ gs) h = ground (arith, parts gs h.1)

  -- In a sound ledger the credits granted to a workspace are its balance, the credits that expired
  -- unspent, and the credits drawn from its grants, with nothing counted twice.
  pub balance_partition :
      IsSound l
      → let b = get_balance l w in b.granted ≡ b.balance + b.expired + sum_of spent_of l.grants
  unfolding get_balance
  balance_partition s =
      let sums =
        tally_rows-sums (remaining_by_grant l w) (record { granted = 0; expired = 0; live = [] }) in
      omega (
        arith,
        sums,
        rows-granted l.grants,
        rows-live l.grants,
        rows-dead l.grants,
        parts l.grants s.within,
      )
