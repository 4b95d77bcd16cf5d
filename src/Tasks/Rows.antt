-- ===== src/Tasks/Rows.antt =====
-- The table of tasks (src/database/entities/scheduled-task.entity.ts), the bodies of requests, and what
-- src/tasks/tasks.service.ts calls.
use gomer.Base.{ℕ, Bool, true, false, Option, none, some, List, [], ◌∷◌, ◌==◌, if◌then◌else◌}
use gomer.Base.Text.{String}
use gomer.Rules.Types.{Outcome, returned, thrown}

pub data TaskType : Type 0 where
  system user : TaskType

abbrev pub is_system : TaskType → Bool
is_system system = true
is_system user = false

pub record ScheduledTask : Type 0 where
  pub id : ℕ
  pub workspace_id : ℕ
  pub name : String
  pub description : Option String
  pub cron_expression : String
  pub timezone : Option String
  pub prompt : String
  pub slack_channel_id : Option String
  pub is_active : Bool
  pub type : TaskType
  pub model : Option String
  pub created_by_user_id : Option ℕ
  pub last_run : Option ℕ
  pub next_run : Option ℕ
  pub one_time : Bool
  pub created_at : ℕ

pub record TasksDb : Type 0 where
  pub tasks : List ScheduledTask
  pub next_id : ℕ
  pub now : ℕ

-- What the service calls: the run of a prompt, after which the table may be another; the workspaces'
-- Slack tokens and the post of a text; the cron parser, none for an expression that does not parse.
pub record Services : Type 0 where
  pub run : ScheduledTask → TasksDb → Outcome String × TasksDb
  pub bot_token : ℕ → Option String
  pub post : String → String → String → Outcome Unit
  pub next_after : String → Option String → ℕ → Option ℕ

-- `nextRunFrom`
abbrev pub next_run_at : Services → String → Option String → ℕ → Outcome ℕ
next_run_at p cron timezone now = elim (p.next_after cron timezone now) [
  | none ↦ thrown "Invalid cron expression"
  | some t ↦ returned t
]

pub record CreateTaskDto : Type 0 where
  pub name : String
  pub prompt : String
  pub cron_expression : String
  pub timezone : Option String
  pub slack_channel_id : Option String
  pub description : Option String
  pub model : Option String
  pub one_time : Option Bool

-- A field of the body of an update: left out, null or a value. The validation passes each of them.
pub data Given {ℓ} (A : Type ℓ) : Type ℓ where
  left_out null : Given A
  value : A → Given A

pub record UpdateTaskDto : Type 0 where
  pub name : Given String
  pub prompt : Given String
  pub cron_expression : Given String
  pub timezone : Given String
  pub slack_channel_id : Given String
  pub description : Given String
  pub model : Given String
  pub one_time : Given Bool
  pub is_active : Given Bool

-- `save`: an update of the row with that id, or an insert if there is none.
unfoldable pub save_task : ScheduledTask → List ScheduledTask → List ScheduledTask
save_task t [] = t ∷ []
save_task t (s ∷ ts) = if s.id == t.id then t ∷ ts else s ∷ save_task t ts
