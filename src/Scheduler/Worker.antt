-- ===== src/Scheduler/Worker.antt =====
-- agents/scheduler.py: a round of a worker, in two steps: the start of a task, and its end with the
-- outcome of the call of the model.
use Prim.Native.String.{◌++◌ as join}
use hollow_agent_os.Base.{ℕ, String, ◌==◌, Option, none, some, if◌then◌else◌, get_or}
use hollow_agent_os.Dict
use hollow_agent_os.Dict.{Dict}
use hollow_agent_os.Event.{Event, Json, emit}
use hollow_agent_os.Bus.{send, new_message}
use hollow_agent_os.Registry.Record.{Registry}
use hollow_agent_os.Registry.Lifecycle.{set_task}
use hollow_agent_os.Registry.Locks.{check_model_policy}
use hollow_agent_os.Registry.Usage.{update_usage}
use hollow_agent_os.Scheduler.Record.{Task, Answer, queued, running, done, failed, is_checkpointed}
use hollow_agent_os.Scheduler.PriorityQueue
use hollow_agent_os.Scheduler.PriorityQueue.{
  Queue, equal, add_id, remove_id, checkpoint_oldest_background, running_count,
}
use hollow_agent_os.Scheduler.Payloads.{
  started_event, completed_event, failed_event, running_content, result_content,
}
use hollow_agent_os.Scheduler.{Scheduler, Scheduler, role_for, save, set_object}

-- The start of a round of `_worker_loop`: a task from the queue, reset if it was preempted.
unfoldable pub reset : Task → Task
reset t = if is_checkpointed t.status then record t { status = queued } else t

unfoldable pub take_task : Scheduler → Option Task × Scheduler
unfolding reset set_object PriorityQueue.get
take_task s =
    let (found, q) = PriorityQueue.get s.queue in
    let s1 = record s { queue = q } in
    elim found [
      | none ↦ (none, s1)
      | some i ↦ elim (Dict.get i s.objects) [
        | none ↦ (none, s1)
        | some t ↦ (some (reset t), set_object (reset t) s1)
      ]
    ]

-- The model of `_run_task`: a hard override, the adaptive choice, the choice of the model manager, or
-- the default of the role. An empty text counts as no choice of the first two.
unfoldable pub or_else : Option String → String → String
or_else none m = m
or_else (some choice) m = if choice == "" then m else choice

unfoldable pub choose_model : Option String → Option String → Option String → String → String
unfolding or_else
choose_model override adaptive managed default =
    or_else override (or_else adaptive (get_or managed default))

unfoldable pub policy_error : String → String → String
policy_error model role =
    join "Agent model policy blocks use of '" (join model (join "' for role '" (join role "'")))

-- A message from the scheduler to the submitter.
unfoldable pub tell : Scheduler → String → String → Json → String → ℕ → Scheduler
unfolding send new_message
tell s msg_id to_id content msg_type now = record s {
  bus = send s.bus (new_message msg_id "scheduler" to_id content msg_type none none now);
}

unfoldable pub blocked : Task → String → ℕ → Task
unfolding policy_error role_for
blocked t model now = record t {
  status = failed;
  error = some (policy_error model (role_for t.complexity));
  finished_at = some now;
}

unfoldable pub started : Task → String → ℕ → Task
started t model now = record t { assigned_to = some model; status = running; started_at = some now }

unfoldable pub announce : Scheduler → Task → String → String → ℕ → Scheduler
unfolding started_event running_content tell role_for
announce s t model msg_id now =
    tell (record s { event_bus = emit (started_event t (role_for t.complexity) model) s.event_bus })
      msg_id t.submitted_by (running_content t (role_for t.complexity)) "log" now

unfoldable pub drop_task : Scheduler → String → Scheduler
unfolding PriorityQueue.mark_done
drop_task s task_id = record s { queue = PriorityQueue.mark_done s.queue task_id }

-- `_run_task` up to the call of the model, with the `mark_done` of the worker after a refusal.
unfoldable pub start_task : Scheduler → Task → String → String → ℕ → Scheduler
unfolding blocked started announce set_object save drop_task
start_task s t model msg_id now =
    if check_model_policy s.registry t.submitted_by model "ollama"
    then announce (set_object (started t model now) s) (started t model now) model msg_id now
    else drop_task (save (set_object (blocked t model now) s)) t.task_id

-- The outcome of the call of the model: the answer, or the text of the exception.
pub data Outcome : Type 0 where
  answered : Answer → Outcome
  raised : String → Outcome

unfoldable pub finished : Task → Outcome → ℕ → Task
finished t (answered a) now = record t { result = some a; status = done; finished_at = some now }
finished t (raised e) now = record t {
  status = failed;
  error = some e;
  result = none;
  finished_at = some now;
}

unfoldable pub charge_submitter : Registry → Task → Outcome → Registry
unfolding update_usage
charge_submitter r t (answered a) = update_usage r t.submitted_by 0 a.tokens_in a.tokens_out
charge_submitter r t (raised e) = r

unfoldable pub outcome_event : Task → Outcome → Event
unfolding completed_event failed_event
outcome_event t (answered a) = completed_event t a
outcome_event t (raised e) = failed_event t

-- `_run_task` after the call of the model, and the `mark_done` of the worker.
unfoldable pub finish_task : Scheduler → String → Outcome → String → ℕ → Scheduler
unfolding finished charge_submitter outcome_event set_object save tell result_content set_task
    PriorityQueue.mark_done
finish_task s task_id o msg_id now = elim (Dict.get task_id s.objects) [
  | none ↦ s
  | some t ↦
      let t' = finished t o now in
      let s1 = save (set_object t' (record s { registry = charge_submitter s.registry t o })) in
      let s2 = record s1 { event_bus = emit (outcome_event t' o) s1.event_bus } in
      let s3 = tell s2 msg_id t.submitted_by (result_content t') "result" now in
      record s3 {
        registry = set_task s3.registry t.submitted_by none;
        queue = PriorityQueue.mark_done s3.queue task_id;
      }
]
