-- ===== src/Tests/Tasks.antt =====
-- Tests and witnesses for scheduled tasks.
use gomer.Base.{ℕ, ◌+◌, ◌≡◌, refl, true, false, none, some, [], ◌∷◌, map}
use gomer.Rules.Types.{returned, thrown}
use gomer.Tasks.Rows.{
  ScheduledTask, TasksDb, Services, UpdateTaskDto, left_out, null, value, system, user,
}
use gomer.Tasks.Runs.{execute_task, is_due_task}
use gomer.Tasks.Requests.{update_task, ensure_system_check_in, check_in_name}
use gomer.Tasks.Laws.{row_at, RunEnds, execute_task-advanced, update_task-finished}
use gomer.Tasks.CheckIn.{ensure_system_check_in-again}

abbrev daily : ScheduledTask
daily = record {
  id = 1;
  workspace_id = 7;
  name = "report";
  description = none;
  cron_expression = "0 9 * * *";
  timezone = none;
  prompt = "Report.";
  slack_channel_id = some "C1";
  is_active = true;
  type = user;
  model = none;
  created_by_user_id = some 3;
  last_run = none;
  next_run = some 50;
  one_time = false;
  created_at = 0;
}

abbrev ran_once : ScheduledTask
ran_once = record daily { id = 2; is_active = false; one_time = true; next_run = none }

abbrev once_due : ScheduledTask
once_due = record ran_once { is_active = true; next_run = some 50 }

abbrev check_in : ScheduledTask
check_in = record daily { id = 3; name = check_in_name; type = system; slack_channel_id = none }

abbrev table : TasksDb
table = record { tasks = daily ∷ ran_once ∷ check_in ∷ []; next_id = 4; now = 100 }

abbrev switched_off : ScheduledTask → ScheduledTask
switched_off t = record t { is_active = false }

-- While a prompt runs, a member pauses every task; the post to Slack fails.
abbrev services : Services
services = record {
  run =
      λ t db. (returned "done", record db { tasks = map switched_off db.tasks; now = db.now + 5 });
  bot_token = λ w. some "xoxb";
  post = λ token channel message. thrown "channel_not_found";
  next_after = λ cron timezone t. some (t + 1_000);
}

abbrev resume : UpdateTaskDto
resume = record {
  name = left_out;
  prompt = left_out;
  cron_expression = left_out;
  timezone = left_out;
  slack_channel_id = null;
  description = left_out;
  model = left_out;
  one_time = left_out;
  is_active = value true;
}

-- A null for the name passes the validation and fails in the database.
null_name :
    update_task services 7 1 (record resume { name = null }) table
    ≡ (thrown "null value in a column that is not null", table)
unfolding update_task
null_name = refl

-- The pause is undone by the end of the run.
pause_undone :
    row_at 1 (execute_task services daily table).1
    ≡ some (record daily { last_run = some 105; next_run = some 1_105 })
unfolding execute_task
pause_undone = refl

execute_task-advanced_example :
    RunEnds once_due 105 (some 1_105) (row_at 2 (execute_task services once_due table).1)
execute_task-advanced_example = execute_task-advanced services once_due table (λ now. refl)

update_task-finished_example :
    let (out, after) = update_task services 7 2 resume table in
    (t' : ScheduledTask) × (out ≡ returned t')
    × (row_at 2 after ≡ some t')
    × (t'.is_active ≡ true)
    × (t'.next_run ≡ none)
    × ((now : ℕ) → is_due_task now t' ≡ false)
update_task-finished_example =
    update_task-finished services 7 2 resume table ran_once refl refl refl refl refl refl

check_in_found :
    (ensure_system_check_in services "Check in." "A check-in." 7 (some "D1") table).0
    ≡ returned false
unfolding ensure_system_check_in
check_in_found = refl

ensure_system_check_in-again_example :
    let after = (ensure_system_check_in services "Check in." "A check-in." 7 (some "D1") table).1 in
    ensure_system_check_in services "Check in." "A check-in." 7 (some "D1") after
    ≡ (returned false, after)
ensure_system_check_in-again_example =
    ensure_system_check_in-again services "Check in." "A check-in." 7 (some "D1") false table
      check_in_found
