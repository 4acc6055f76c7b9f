-- ===== src/Scheduler/Record.antt =====
-- agents/scheduler.py: the record of a task and the constants of the scheduler.
use hollow_agent_os.Base.{ℕ, String, Bool, true, false, Option, List}
use hollow_agent_os.Event.{Json}

-- The texts that `status` takes.
pub data Status : Type 0 where
  queued running done failed checkpointed cancelled : Status

abbrev pub is_queued : Status → Bool
is_queued queued = true
is_queued _ = false

abbrev pub is_running : Status → Bool
is_running running = true
is_running _ = false

abbrev pub is_checkpointed : Status → Bool
is_checkpointed checkpointed = true
is_checkpointed _ = false

-- The model's answer, as `task.result`.
pub record Answer : Type 0 where
  pub response : String
  pub model : String
  pub tokens_in : ℕ
  pub tokens_out : ℕ
  pub ms : Option ℕ

-- `Task`.
pub record Task : Type 0 where
  pub task_id : String
  pub description : String
  pub complexity : ℕ
  pub submitted_by : String
  pub assigned_to : Option String
  pub status : Status
  pub result : Option Answer
  pub created_at : ℕ
  pub priority : ℕ
  pub started_at : Option ℕ
  pub finished_at : Option ℕ
  pub error : Option String
  pub context : Json
  pub depends_on : List String
  pub parent_task_id : Option String
  pub stream_enabled : Bool
  pub partial_output : String
  pub cancelled_flag : Bool

abbrev pub urgent : ℕ
urgent = 0

abbrev pub background : ℕ
background = 2

-- `_NUM_WORKERS`.
abbrev pub num_workers : ℕ
num_workers = 4

-- `MAX_TASKS`.
abbrev pub max_tasks : ℕ
max_tasks = 500
