-- ===== src/Tasks/Runs.antt =====
-- Running tasks: `executeTask` with `deliver`, `runNow` and `runDueTasks` (src/tasks/tasks.service.ts).
use gomer.Base.{ℕ, Bool, true, false, ◌&&◌, Option, none, some, List, [], ◌∷◌, keep, find, leb}
use gomer.Base.Text.{String, truthy, trim}
use gomer.Rules.Types.{Outcome, returned, thrown}
use gomer.Tasks.Rows.{ScheduledTask, TasksDb, Services, next_run_at, save_task}
use gomer.Tasks.Requests.{is_task_of}

-- `deliver`; only a failed post throws.
unfoldable pub deliver : Services → ScheduledTask → String → Outcome Unit
deliver p t answer = elim (truthy t.slack_channel_id) [
  | none ↦ returned tt
  | some channel ↦ elim (truthy (some (trim answer))) [
    | none ↦ returned tt
    | some message ↦ elim (truthy (p.bot_token t.workspace_id)) [
      | none ↦ returned tt
      | some token ↦ p.post token channel message
    ]
  ]
]

abbrev pub delivered : Services → ScheduledTask → Outcome String → Outcome Unit
delivered p t (returned answer) = deliver p t answer
delivered p t (thrown e) = thrown e

-- The assignments of the `finally` block, for a one-time task and for the others.
abbrev pub advanced : Bool → ScheduledTask → ℕ → Option ℕ → ScheduledTask
advanced true t now next = record t { last_run = some now; is_active = false; next_run = none }
advanced false t now next = record t { last_run = some now; next_run = next }

-- The end of a run, by whether the task is a one-time task.
unfoldable pub finish :
    Services → Bool → ScheduledTask → Outcome String → TasksDb → Outcome Unit × TasksDb
unfolding deliver save_task
finish p true t answer db =
    (delivered p t answer, record db { tasks = save_task (advanced true t db.now none) db.tasks })
finish p false t answer db = elim (next_run_at p t.cron_expression t.timezone db.now) [
  | thrown e ↦ (thrown e, db)
  | returned next ↦ (
    delivered p t answer,
    record db { tasks = save_task (advanced false t db.now (some next)) db.tasks },
  )
]

-- The task that is saved is the one that was read before the run.
unfoldable pub execute_task : Services → ScheduledTask → TasksDb → Outcome Unit × TasksDb
unfolding finish
execute_task p t db = let (answer, after) = p.run t db in finish p t.one_time t answer after

unfoldable pub run_now : Services → ℕ → ℕ → TasksDb → Outcome Unit × TasksDb
unfolding execute_task
run_now p w id db = elim (find (is_task_of w id) db.tasks) [
  | none ↦ (thrown "Task not found", db)
  | some t ↦ execute_task p t db
]

abbrev pub is_due_task : ℕ → ScheduledTask → Bool
is_due_task now t = t.is_active && elim t.next_run [ none ↦ false | some n ↦ leb n now ]

-- The loop of `runDueTasks`: an error is logged and the next task runs.
unfoldable pub run_tasks : Services → List ScheduledTask → TasksDb → TasksDb
unfolding execute_task
run_tasks p [] db = db
run_tasks p (t ∷ ts) db = run_tasks p ts (execute_task p t db).1

unfoldable pub run_due_tasks : Services → TasksDb → TasksDb
unfolding run_tasks
run_due_tasks p db = run_tasks p (keep (is_due_task db.now) db.tasks) db
