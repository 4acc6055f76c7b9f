-- ===== src/Scheduler.antt =====
-- agents/scheduler.py: the tasks and the workers of the scheduler. Task objects are shared between the
-- dict of tasks and the queue, which refer to them by identifiers. A clock reading and a fresh
-- identifier are arguments, and so are the answer of the model endpoint and the choices of the adaptive
-- router and the model manager. A worker runs a task in two steps, so that other calls can stand
-- between its start and its end.
pub mod Record
pub mod PriorityQueue
pub mod Payloads
pub mod Worker
pub mod Order
pub mod Lanes
pub mod Aged
pub mod Served
pub mod Runs
pub mod Cancelled
mod Examples
use Prim.Native.String.{◌++◌ as join}
use hollow_agent_os.Base.{
  ℕ, ◌+◌, ◌-◌, min, max, String, ◌==◌, Bool, true, false, ◌&&◌, ◌||◌, Option, none, some, List, [],
  ◌∷◌, ◌++◌, ltb, leb, if◌then◌else◌, get_or, length, filter, take, sort_by, contains,
}
use hollow_agent_os.Dict
use hollow_agent_os.Dict.{Dict}
use hollow_agent_os.Event.{Event, Json, emit}
use hollow_agent_os.Bus.{Bus, send, new_message}
use hollow_agent_os.Registry.Record.{Registry}
use hollow_agent_os.Registry.Lifecycle.{set_task}
use hollow_agent_os.Registry.Locks.{check_model_policy}
use hollow_agent_os.Registry.Usage.{update_usage}
use hollow_agent_os.Scheduler.Record.{
  Task, Answer, Status, queued, running, done, failed, checkpointed, cancelled, is_queued,
  is_running, is_checkpointed, urgent, num_workers, max_tasks,
}
use hollow_agent_os.Scheduler.PriorityQueue
use hollow_agent_os.Scheduler.PriorityQueue.{
  Queue, equal, add_id, remove_id, checkpoint_oldest_background, running_count, queue_depth,
}
use hollow_agent_os.Scheduler.Payloads.{
  queued_event, checkpointed_event, started_event, completed_event, failed_event, running_content,
  result_content, status_text,
}

-- `TaskScheduler`; `tasks` are the keys of `_tasks`, and `saved` is the file.
pub record Scheduler : Type 0 where
  pub registry : Registry
  pub bus : Bus
  pub event_bus : Option (List Event)
  pub objects : Dict Task
  pub tasks : List String
  pub saved : Dict Task
  pub queue : Queue

-- `COMPLEXITY_ROUTING.get(complexity, "general")`.
unfoldable pub role_for : ℕ → String
role_for n = if equal n 3 || equal n 4 then "code" else if equal n 5 then "reasoning" else "general"

abbrev created_of : Dict Task → String → ℕ
created_of objects i = elim (Dict.get i objects) [ none ↦ 0 | some t ↦ t.created_at ]

abbrev older : Dict Task → String → String → Bool
older objects i j = leb (created_of objects i) (created_of objects j)

unfoldable pub remove_ids : List String → List String → List String
unfolding remove_id
remove_ids [] ids = ids
remove_ids (i ∷ is) ids = remove_ids is (remove_id i ids)

-- The tasks that `_save` keeps: the oldest beyond `MAX_TASKS` are evicted.
unfoldable pub kept_tasks : Dict Task → List String → List String
unfolding remove_ids sort_by
kept_tasks objects ids =
    if ltb max_tasks (length ids)
    then remove_ids (take (length ids - max_tasks) (sort_by (older objects) ids)) ids
    else ids

unfoldable pub snapshot : Dict Task → List String → Dict Task
snapshot objects [] = []
snapshot objects (i ∷ ids) = elim (Dict.get i objects) [
  | none ↦ snapshot objects ids
  | some t ↦ (i, t) ∷ snapshot objects ids
]

-- `TaskScheduler._save`.
unfoldable pub save : Scheduler → Scheduler
unfolding kept_tasks snapshot
save s = record s {
  tasks = kept_tasks s.objects s.tasks;
  saved = snapshot s.objects (kept_tasks s.objects s.tasks);
}

-- A change of a task object.
unfoldable pub set_object : Task → Scheduler → Scheduler
set_object t s = record s { objects = Dict.put t.task_id t s.objects }

-- The arguments of `submit`.
pub record Request : Type 0 where
  pub description : String
  pub submitted_by : String
  pub complexity : ℕ
  pub context : Json
  pub priority : ℕ
  pub depends_on : List String
  pub parent_task_id : Option String
  pub stream : Bool

unfoldable pub new_task : String → ℕ → Request → Task
new_task task_id now r = record {
  task_id = task_id;
  description = r.description;
  complexity = max 1 (min 5 r.complexity);
  submitted_by = r.submitted_by;
  assigned_to = none;
  status = queued;
  result = none;
  created_at = now;
  priority = max 0 (min 2 r.priority);
  started_at = none;
  finished_at = none;
  error = none;
  context = r.context;
  depends_on = r.depends_on;
  parent_task_id = r.parent_task_id;
  stream_enabled = r.stream;
  partial_output = "";
  cancelled_flag = false;
}

-- The preemption of a background task by an urgent one.
unfoldable pub preempt : Scheduler → Scheduler
unfolding checkpoint_oldest_background checkpointed_event
preempt s =
    let (found, (objects, q)) = checkpoint_oldest_background s.objects s.queue in
    record s {
      objects = objects;
      queue = q;
      event_bus = elim found [
        | none ↦ s.event_bus
        | some t ↦ emit (checkpointed_event t) s.event_bus
      ];
    }

-- `TaskScheduler.submit` up to the point where it waits for the result.
unfoldable pub submit : Scheduler → String → ℕ → Request → Scheduler
unfolding new_task save set_object queued_event preempt PriorityQueue.put add_id running_count
submit s task_id now r =
    let t = new_task task_id now r in
    let s1 = save (set_object t (record s { tasks = add_id task_id s.tasks })) in
    let s2 = record s1 { event_bus = emit (queued_event t) s1.event_bus } in
    let s3 =
      if leb t.priority urgent && leb num_workers (running_count s2.queue)
      then preempt s2
      else s2 in
    record s3 { queue = PriorityQueue.put s3.queue task_id t.priority }

-- The answers of `cancel`.
pub data CancelReply : Type 0 where
  not_found cancelled_now cancelling : CancelReply
  already : Status → CancelReply

unfoldable pub cancelled_task : Task → ℕ → Task
cancelled_task t now = record t {
  status = cancelled;
  finished_at = some now;
  cancelled_flag = true;
}

unfoldable pub cancel_task : Scheduler → Task → ℕ → CancelReply × Scheduler
unfolding cancelled_task set_object save
cancel_task s t now = elim t.status [
  | done ↦ (already done, s)
  | failed ↦ (already failed, s)
  | cancelled ↦ (already cancelled, s)
  | running ↦ (cancelling, set_object (record t { cancelled_flag = true }) s)
  | queued ↦ (cancelled_now, save (set_object (cancelled_task t now) s))
  | checkpointed ↦ (cancelled_now, save (set_object (cancelled_task t now) s))
]

-- `self._tasks.get(task_id)`.
unfoldable pub get_task : Scheduler → String → Option Task
get_task s task_id = if contains task_id s.tasks then Dict.get task_id s.objects else none

-- `TaskScheduler.cancel`.
unfoldable pub cancel : Scheduler → String → ℕ → CancelReply × Scheduler
unfolding get_task cancel_task
cancel s task_id now = elim (get_task s task_id) [
  | none ↦ (not_found, s)
  | some t ↦ cancel_task s t now
]

abbrev newer_task : Task → Task → Bool
newer_task t u = leb u.created_at t.created_at

abbrev submitted_by_agent : Option String → Task → Bool
submitted_by_agent none t = true
submitted_by_agent (some agent_id) t = (agent_id == "") || (t.submitted_by == agent_id)

-- `TaskScheduler.list_tasks`.
unfoldable pub list_tasks : Scheduler → Option String → ℕ → List Task
unfolding snapshot sort_by Dict.values
list_tasks s agent_id limit = take limit (
    sort_by newer_task
      (filter (submitted_by_agent agent_id) (Dict.values (snapshot s.objects s.tasks))))

-- `TaskScheduler.queue_status`: the running tasks, the workers, and the depth of each priority.
unfoldable pub queue_status : Scheduler → ℕ × ℕ × List ℕ
unfolding running_count queue_depth
queue_status s = (
  running_count s.queue,
  num_workers,
  queue_depth s.queue 0 ∷ queue_depth s.queue 1 ∷ queue_depth s.queue 2 ∷ [],
)

-- What `_load` makes of a task in the file: no worker is left that could finish it.
unfoldable pub reloaded : ℕ → Task → Task
reloaded now t =
    if is_running t.status || (is_queued t.status || is_checkpointed t.status)
    then record t { status = failed; error = some "server_restart"; finished_at = some now }
    else t

unfoldable pub empty_queue : Queue
empty_queue = record { heap = []; seq = 0; pending = []; running = []; closed = false }

-- `TaskScheduler.__init__` with `_load`.
unfoldable pub load : Registry → Bus → Dict Task → ℕ → Scheduler
unfolding reloaded Dict.map_values Dict.keys empty_queue
load r b saved now = record {
  registry = r;
  bus = b;
  event_bus = none;
  objects = Dict.map_values (reloaded now) saved;
  tasks = Dict.keys saved;
  saved = saved;
  queue = empty_queue;
}
