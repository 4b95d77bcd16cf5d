-- ===== src/Tasks/Laws.antt =====
-- `executeTask`, `update` and `remove` of src/tasks/tasks.service.ts.
use gomer.Base.{
  ℕ, ◌≡◌, refl, ap, Bool, true, false, Bool-cases, Option-cases, inl, inr, some, none, Option, List,
  [], ◌∷◌, arith, find, is_some, ◌==◌, ==_refl, ◌||◌,
}
use gomer.Base.Text.{String}
use gomer.Rules.Types.{Outcome, returned, thrown}
use gomer.Tasks.Rows.{
  ScheduledTask, TasksDb, Services, UpdateTaskDto, Given, left_out, null, value, save_task,
  is_system,
}
use gomer.Tasks.Runs.{execute_task, advanced, finish, is_due_task}
use gomer.Tasks.Requests.{
  is_task_of, find_modifiable, update_task, remove_task, edited, is_given, is_null, set_value,
  has_null,
}

-- The row with that id.
abbrev pub row_at : ℕ → TasksDb → Option ScheduledTask
row_at id db = find (λ s. s.id == id) db.tasks

find-save_task :
    (t : ScheduledTask) (ts : List ScheduledTask)
    → find (λ s. s.id == t.id) (save_task t ts) ≡ some t
unfolding save_task
find-save_task t [] = rw (==_refl t.id) refl
find-save_task t (s ∷ ts) = elim (Bool-cases (s.id == t.id)) [
  | inl e ↦ rw (e, save_task) (rw (==_refl t.id) refl)
  | inr e ↦ rw (e, save_task) (rw e (find-save_task t ts))
]

find-finish :
    (p : Services) (once : Bool) (t : ScheduledTask) (answer : Outcome String) (db : TasksDb)
    → is_some (p.next_after t.cron_expression t.timezone db.now) ≡ true
    → row_at t.id (finish p once t answer db).1
      ≡ some (advanced once t db.now (p.next_after t.cron_expression t.timezone db.now))
unfolding finish
find-finish p true t answer db parses = find-save_task (advanced true t db.now none) db.tasks
find-finish p false t answer db parses =
    elim (Option-cases (p.next_after t.cron_expression t.timezone db.now)) [
      | inl missing ↦ cc (rw missing at parses)
      | inr (next, there) ↦
          rw (there, finish) (find-save_task (advanced false t db.now (some next)) db.tasks)
    ]

-- What becomes of a task's row at the end of a run.
abbrev pub RunEnds : ScheduledTask → ℕ → Option ℕ → Option ScheduledTask → Type 0
RunEnds t now next row =
    (t' : ScheduledTask) × (row ≡ some t')
    × (t'.last_run ≡ some now)
    × (t.one_time ≡ true → (t'.is_active ≡ false) × (t'.next_run ≡ none))
    × (t.one_time ≡ false → (t'.is_active ≡ t.is_active) × (t'.next_run ≡ next))
    × (record t' { last_run = t.last_run; is_active = t.is_active; next_run = t.next_run } ≡ t)

advanced-RunEnds :
    (once : Bool) (t : ScheduledTask) (now : ℕ) (next : Option ℕ) (row : Option ScheduledTask)
    → t.one_time ≡ once
    → row ≡ some (advanced once t now next)
    → RunEnds t now next row
advanced-RunEnds true t now next row once e =
    (advanced true t now next, e, refl, λ h. (refl, refl), λ h. cc (once, h), refl)
advanced-RunEnds false t now next row once e =
    (advanced false t now next, e, refl, λ h. cc (once, h), λ h. (refl, refl), refl)

-- If the task's cron expression parses, then whether the prompt and the delivery succeed or fail,
-- and whatever other requests did to the table in the meantime, a run ends with the task's row as
-- it was read before the run, but for its last run, which is now, and this: a one-time task is
-- switched off and has no next run, the others get the next time of their cron expression.
pub execute_task-advanced :
    (p : Services) (t : ScheduledTask) (db : TasksDb)
    → ((now : ℕ) → is_some (p.next_after t.cron_expression t.timezone now) ≡ true)
    → let now = (p.run t db).1.now in
      RunEnds t now
        (p.next_after t.cron_expression t.timezone now)
        (row_at t.id (execute_task p t db).1)
unfolding execute_task
execute_task-advanced p t db parses =
    let (answer, after) = p.run t db in
    advanced-RunEnds t.one_time t after.now (p.next_after t.cron_expression t.timezone after.now) _
      refl (find-finish p t.one_time t answer after (parses after.now))

-- A system task is neither changed nor removed through the dashboard: both requests are refused.
pub modifiable-system :
    (p : Services) (w id : ℕ) (dto : UpdateTaskDto) (db : TasksDb) (t : ScheduledTask)
    → find (is_task_of w id) db.tasks ≡ some t
    → is_system t.type ≡ true
    → (update_task p w id dto db ≡ (thrown "System tasks cannot be modified", db))
      × (remove_task w id db ≡ (thrown "System tasks cannot be modified", db))
unfolding update_task remove_task find_modifiable
modifiable-system p w id dto db t found sys = (
  rw (found, update_task, find_modifiable) (rw sys refl),
  rw (found, remove_task, find_modifiable) (rw sys refl),
)

-- A task that is not the system's and has no next run, as a one-time task after its run, cannot be
-- resumed by switching it on: a request that switches it on, gives neither a cron expression nor a
-- timezone and no null for a column that takes none succeeds, whatever else it edits, and saves a row
-- that is active, as the dashboard shows it, has no next run and is due at no time.
pub update_task-finished :
    (p : Services) (w id : ℕ) (dto : UpdateTaskDto) (db : TasksDb) (t : ScheduledTask)
    → find (is_task_of w id) db.tasks ≡ some t
    → is_system t.type ≡ false
    → t.next_run ≡ none
    → dto.is_active ≡ value true
    → (is_given dto.cron_expression || is_given dto.timezone) ≡ false
    → has_null dto ≡ false
    → let (out, after) = update_task p w id dto db in
      (t' : ScheduledTask) × (out ≡ returned t')
      × (row_at t.id after ≡ some t')
      × (t'.is_active ≡ true)
      × (t'.next_run ≡ none)
      × ((now : ℕ) → is_due_task now t' ≡ false)
unfolding update_task find_modifiable
update_task-finished p w id dto db t found own done on same filled =
    let free : find_modifiable w id db ≡ returned t = rw (found, find_modifiable) (rw own refl) in
    let kept = no_cron dto.cron_expression dto.timezone same in
    let e : update_task p w id dto db
        ≡ (returned (edited dto t), record db { tasks = save_task (edited dto t) db.tasks }) =
      rw (free, kept, same, filled, update_task) refl in
    (
      edited dto t,
      rw e refl,
      rw e (find-save_task (edited dto t) db.tasks),
      ap (λ (g : Given Bool). set_value g t.is_active) on,
      done,
      λ now. ground arith,
    )
  where
    no_cron : (c z : Given String) → (is_given c || is_given z) ≡ false → is_null c ≡ false
    no_cron left_out z h = refl
    no_cron null z h = cc
    no_cron (value s) z h = refl
