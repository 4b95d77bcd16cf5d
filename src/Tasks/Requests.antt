-- ===== src/Tasks/Requests.antt =====
-- Creating, editing and removing tasks, and seeding the check-in (src/tasks/tasks.service.ts).
use gomer.Base.{
  ℕ, suc, Bool, true, false, not, ◌&&◌, ◌||◌, Option, none, some, [], ◌∷◌, ◌++◌, keep, find,
  is_some, ◌==◌, if◌then◌else◌, or_else,
}
use gomer.Base.Text.{String, str_eq, truthy}
use gomer.Rules.Types.{Outcome, returned, thrown}
use gomer.Tasks.Rows.{
  is_system, ScheduledTask, TasksDb, Services, next_run_at, CreateTaskDto, UpdateTaskDto, Given,
  left_out, null, value, save_task, system, user,
}

abbrev pub task_of : CreateTaskDto → ℕ → ℕ → ℕ → TasksDb → ScheduledTask
task_of dto w member next db = record {
  id = db.next_id;
  workspace_id = w;
  name = dto.name;
  description = dto.description;
  cron_expression = dto.cron_expression;
  timezone = dto.timezone;
  prompt = dto.prompt;
  slack_channel_id = dto.slack_channel_id;
  is_active = true;
  type = user;
  model = dto.model;
  created_by_user_id = some member;
  last_run = none;
  next_run = some next;
  one_time = or_else dto.one_time false;
  created_at = db.now;
}

unfoldable pub create_task :
    Services → ℕ → ℕ → CreateTaskDto → TasksDb → Outcome ScheduledTask × TasksDb
create_task p w member dto db = elim (next_run_at p dto.cron_expression dto.timezone db.now) [
  | thrown e ↦ (thrown e, db)
  | returned next ↦
      let t = task_of dto w member next db in
      (returned t, record db { tasks = db.tasks ++ t ∷ []; next_id = suc db.next_id })
]

abbrev pub is_task_of : ℕ → ℕ → ScheduledTask → Bool
is_task_of w id t = t.id == id && t.workspace_id == w

-- `findOwned`
abbrev pub modifiable : Option ScheduledTask → Outcome ScheduledTask
modifiable none = thrown "Task not found"
modifiable (some t) =
    if is_system t.type then thrown "System tasks cannot be modified" else returned t

unfoldable pub find_modifiable : ℕ → ℕ → TasksDb → Outcome ScheduledTask
find_modifiable w id db = modifiable (find (is_task_of w id) db.tasks)

-- `field !== undefined`
abbrev pub is_given {ℓ} : {A : Type ℓ} → Given A → Bool
is_given left_out = false
is_given null = true
is_given (value a) = true

abbrev pub is_null {ℓ} : {A : Type ℓ} → Given A → Bool
is_null left_out = false
is_null null = true
is_null (value a) = false

-- `if (field !== undefined) current = field || null`
abbrev pub set_text : Given String → Option String → Option String
set_text left_out current = current
set_text null current = none
set_text (value s) current = truthy (some s)

abbrev pub set_description : Given String → Option String → Option String
set_description left_out current = current
set_description null current = none
set_description (value s) current = some s

-- A column that is not null; a null is refused when the row is saved.
abbrev pub set_value {ℓ} : {A : Type ℓ} → Given A → A → A
set_value left_out current = current
set_value null current = current
set_value (value a) current = a

-- The assignments of `update`, before the next run is computed.
abbrev pub edited : UpdateTaskDto → ScheduledTask → ScheduledTask
edited dto t = record t {
  name = set_value dto.name t.name;
  prompt = set_value dto.prompt t.prompt;
  description = set_description dto.description t.description;
  model = set_text dto.model t.model;
  one_time = set_value dto.one_time t.one_time;
  is_active = set_value dto.is_active t.is_active;
  slack_channel_id = set_text dto.slack_channel_id t.slack_channel_id;
  timezone = set_text dto.timezone t.timezone;
  cron_expression = set_value dto.cron_expression t.cron_expression;
}

abbrev pub null_violation : Outcome ScheduledTask
null_violation = thrown "null value in a column that is not null"

-- A null for a column that takes none.
abbrev pub has_null : UpdateTaskDto → Bool
has_null dto =
    is_null dto.name || is_null dto.prompt || is_null dto.one_time || is_null dto.is_active

abbrev pub save_edited : UpdateTaskDto → ScheduledTask → TasksDb → Outcome ScheduledTask × TasksDb
save_edited dto t db =
    if has_null dto
    then (null_violation, db)
    else (returned t, record db { tasks = save_task t db.tasks })

abbrev pub reschedule :
    UpdateTaskDto → ScheduledTask → Outcome ℕ → TasksDb → Outcome ScheduledTask × TasksDb
reschedule dto t (thrown e) db = (thrown e, db)
reschedule dto t (returned next) db = save_edited dto (record t { next_run = some next }) db

-- A null cron expression fails, in the parser or else when the row is saved.
unfoldable pub update_task :
    Services → ℕ → ℕ → UpdateTaskDto → TasksDb → Outcome ScheduledTask × TasksDb
unfolding find_modifiable save_task
update_task p w id dto db = elim (find_modifiable w id db) [
  | thrown e ↦ (thrown e, db)
  | returned t ↦
      let t1 = edited dto t in
      if is_null dto.cron_expression
      then (thrown "Invalid cron expression", db)
      else if is_given dto.cron_expression || is_given dto.timezone
      then reschedule dto t1 (next_run_at p t1.cron_expression t1.timezone db.now) db
      else save_edited dto t1 db
]

unfoldable pub remove_task : ℕ → ℕ → TasksDb → Outcome Unit × TasksDb
unfolding find_modifiable
remove_task w id db = elim (find_modifiable w id db) [
  | thrown e ↦ (thrown e, db)
  | returned t ↦ (returned tt, record db { tasks = keep (λ s. not (s.id == t.id)) db.tasks })
]

abbrev pub check_in_name : String
check_in_name = "Daily workspace check-in"

abbrev pub check_in_cron : String
check_in_cron = "0 9 * * *"

abbrev pub is_check_in : ℕ → ScheduledTask → Bool
is_check_in w t = t.workspace_id == w && (is_system t.type && str_eq t.name check_in_name)

-- The seeded task; its prompt and description are fixed texts.
abbrev pub check_in_of : String → String → ℕ → Option String → ℕ → TasksDb → ScheduledTask
check_in_of prompt description w channel next db = record {
  id = db.next_id;
  workspace_id = w;
  name = check_in_name;
  description = some description;
  cron_expression = check_in_cron;
  timezone = none;
  prompt = prompt;
  slack_channel_id = channel;
  is_active = true;
  type = system;
  model = none;
  created_by_user_id = none;
  last_run = none;
  next_run = some next;
  one_time = false;
  created_at = db.now;
}

-- `ensureSystemCheckIn`, true if the task was created.
unfoldable pub ensure_system_check_in :
    Services → String → String → ℕ → Option String → TasksDb → Outcome Bool × TasksDb
unfolding save_task
ensure_system_check_in p prompt description w channel db = elim (find (is_check_in w) db.tasks) [
  | some existing ↦
      if not (is_some (truthy existing.slack_channel_id)) && is_some (truthy channel)
      then (
        returned false,
        record db { tasks = save_task (record existing { slack_channel_id = channel }) db.tasks },
      )
      else (returned false, db)
  | none ↦ elim (next_run_at p check_in_cron none db.now) [
    | thrown e ↦ (thrown e, db)
    | returned next ↦
        let t = check_in_of prompt description w channel next db in
        (returned true, record db { tasks = db.tasks ++ t ∷ []; next_id = suc db.next_id })
  ]
]
