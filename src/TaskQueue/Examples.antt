-- ===== src/TaskQueue/Examples.antt =====
-- The theorems on the task queue at concrete files.
use hollow_agent_os.Base.{ℕ, inr, ◌≡◌, refl, none, some, List, [], ◌∷◌, map, any_of}
use hollow_agent_os.TaskQueue.{
  Platform, Task, pending, assigned, completed, Line, task, expire_stale_tasks, complete_task,
}
use hollow_agent_os.TaskQueue.Claim.{HasCompleted}
use hollow_agent_os.TaskQueue.Expiry.{Expires, expire_stale_tasks-exact}
use hollow_agent_os.TaskQueue.Update.{complete_task-unlocks}

abbrev platform : Platform
platform = record {
  stamp = λ n. "2026-05-02 01:40";
  seconds = λ s. some 100;
  hours = λ n. "3.0";
  prefix = λ n s. s;
}

abbrev first : Task
first = record {
  task_id = "t1";
  spec = "summarize";
  files = [];
  assigned_to = none;
  output_file = none;
  depends_on = none;
  status = assigned;
  created_at = "2026-05-02 01:40";
  assigned_at = some "2026-05-02 01:40";
  completed_at = none;
  result = none;
}

abbrev second : Task
second = record first {
  task_id = "t2";
  depends_on = some "t1";
  status = pending;
  assigned_at = none;
}

abbrev tasks : List Task
tasks = first ∷ second ∷ []

expire_stale_tasks-exact_example :
    (us : List Task) × (n : ℕ) × Expires platform 9000 tasks us n
    × (expire_stale_tasks platform 9000 (some (map task tasks)) ≡ some (n, some (map task us)))
expire_stale_tasks-exact_example = expire_stale_tasks-exact platform 9000 tasks

complete_task-unlocks_example :
    (ls : List Line) × (complete_task platform "t1" 300 "done" (some (map task tasks))
      ≡ some (some ls))
    × HasCompleted "t1" ls
unfolding any_of
complete_task-unlocks_example =
    complete_task-unlocks platform "t1" 300 "done" tasks "t1" refl (inr refl)

-- The predecessor is completed, so the second task is claimed.
abbrev lines : List Line
lines = task (record first { status = completed }) ∷ task second ∷ []
