-- ===== src/Tasks/CheckIn.antt =====
-- `ensureSystemCheckIn` (src/tasks/tasks.service.ts).
use gomer.Base.{
  ℕ, ◌≡◌, refl, Bool, true, false, Bool-cases, Option-cases, inl, inr, some, none, Option, List, [],
  ◌∷◌, ◌++◌, arith, find, is_some, ◌==◌, ==_refl, ◌&&◌, not, find_holds, suc,
}
use gomer.Base.Text.{String, truthy}
use gomer.Rules.Types.{Outcome-cases, returned, thrown}
use gomer.Tasks.Rows.{ScheduledTask, TasksDb, Services, save_task, next_run_at}
use gomer.Tasks.Requests.{is_check_in, check_in_of, check_in_cron, ensure_system_check_in}

-- Replacing the first check-in by another keeps it the first.
find-check_in-save :
    (w : ℕ) (old new : ScheduledTask) (ts : List ScheduledTask)
    → find (is_check_in w) ts ≡ some old
    → new.id ≡ old.id
    → is_check_in w new ≡ true
    → find (is_check_in w) (save_task new ts) ≡ some new
unfolding save_task
find-check_in-save w old new [] found same mine = cc
find-check_in-save w old new (s ∷ ts) found same mine = elim (Bool-cases (s.id == new.id)) [
  | inl e ↦ rw (e, save_task) (rw mine refl)
  | inr e ↦ elim (Bool-cases (is_check_in w s)) [
    | inl first ↦
        let here : some s ≡ some old = rw first at found in
        let held : s ≡ old = cc in
        let ids : s.id ≡ new.id = cc in cc (rw (ids, ==_refl new.id) at e)
    | inr later ↦
        rw (e, save_task) (rw later (find-check_in-save w old new ts (rw later at found) same mine))
  ]
]

find-check_in-last :
    (w : ℕ) (t : ScheduledTask) (ts : List ScheduledTask)
    → find (is_check_in w) ts ≡ none
    → is_check_in w t ≡ true
    → find (is_check_in w) (ts ++ t ∷ []) ≡ some t
find-check_in-last w t [] none_there mine = rw mine refl
find-check_in-last w t (s ∷ ts) none_there mine = elim (Bool-cases (is_check_in w s)) [
  | inl first ↦ cc (rw first at none_there)
  | inr later ↦ rw later (find-check_in-last w t ts (rw later at none_there) mine)
]

module _ (p : Services) (prompt description : String) (w : ℕ) (channel : Option String) where
  -- Nothing is left to do: the check-in is there, with a destination or with none to give it.
  settled :
      (db : TasksDb) (t : ScheduledTask)
      → find (is_check_in w) db.tasks ≡ some t
      → (not (is_some (truthy t.slack_channel_id)) && is_some (truthy channel)) ≡ false
      → ensure_system_check_in p prompt description w channel db ≡ (returned false, db)
  unfolding ensure_system_check_in
  settled db t there done = rw (there, done, ensure_system_check_in) refl

  backfilled :
      (db : TasksDb) (t : ScheduledTask)
      → find (is_check_in w) db.tasks ≡ some t
      → (not (is_some (truthy t.slack_channel_id)) && is_some (truthy channel)) ≡ true
      → ensure_system_check_in p prompt description w channel db ≡ (
        returned false,
        record db { tasks = save_task (record t { slack_channel_id = channel }) db.tasks },
      )
  unfolding ensure_system_check_in
  backfilled db t there missing = rw (there, missing, ensure_system_check_in) refl

  seeded :
      (db : TasksDb) (next : ℕ)
      → find (is_check_in w) db.tasks ≡ none
      → next_run_at p check_in_cron none db.now ≡ returned next
      → ensure_system_check_in p prompt description w channel db ≡ (
        returned true,
        record db {
          tasks = db.tasks ++ check_in_of prompt description w channel next db ∷ [];
          next_id = suc db.next_id;
        },
      )
  unfolding ensure_system_check_in
  seeded db next missing parsed = rw (missing, parsed, ensure_system_check_in) refl

  not_seeded :
      (db : TasksDb) (x : String)
      → find (is_check_in w) db.tasks ≡ none
      → next_run_at p check_in_cron none db.now ≡ thrown x
      → ensure_system_check_in p prompt description w channel db ≡ (thrown x, db)
  unfolding ensure_system_check_in
  not_seeded db x missing failed = rw (missing, failed, ensure_system_check_in) refl

  no_gap : (not (is_some (truthy channel)) && is_some (truthy channel)) ≡ false
  no_gap = ground arith

  check_in_mine :
      (next : ℕ) (db : TasksDb)
      → is_check_in w (check_in_of prompt description w channel next db) ≡ true
  check_in_mine next db = rw (==_refl w) refl

-- Seeding the check-in again, with the same destination, changes nothing and reports that nothing was
-- created, whether the first call created it, gave it the destination that it lacked, or found it.
pub ensure_system_check_in-again :
    (p : Services) (prompt description : String) (w : ℕ) (channel : Option String) (created : Bool)
    (db : TasksDb)
    → (ensure_system_check_in p prompt description w channel db).0 ≡ returned created
    → let after = (ensure_system_check_in p prompt description w channel db).1 in
      ensure_system_check_in p prompt description w channel after ≡ (returned false, after)
ensure_system_check_in-again p prompt description w channel created db ok =
    elim (Option-cases (find (is_check_in w) db.tasks)) [
      | inl missing ↦ elim (Outcome-cases (next_run_at p check_in_cron none db.now)) [
        | inr (x, failed) ↦
            cc (rw (not_seeded p prompt description w channel db x missing failed) at ok)
        | inl (next, parsed) ↦
            let t = check_in_of prompt description w channel next db in
            rw (seeded p prompt description w channel db next missing parsed) (
              settled p prompt description w channel _ t
                (find-check_in-last w t db.tasks missing
                  (check_in_mine p prompt description w channel next db))
                (no_gap p prompt description w channel))
      ]
      | inr (t, there) ↦
          elim (Bool-cases
            (not (is_some (truthy t.slack_channel_id)) && is_some (truthy channel))) [
              | inr done ↦ let e = settled p prompt description w channel db t there done in rw e e
              | inl gap ↦
                  let new = record t { slack_channel_id = channel } in
                  rw (backfilled p prompt description w channel db t there gap) (
                    settled p prompt description w channel _ new
                      (find-check_in-save w t new db.tasks there refl
                        (find_holds (is_check_in w) db.tasks t there))
                      (no_gap p prompt description w channel))
            ]
    ]
