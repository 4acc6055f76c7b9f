-- ===== src/Scheduler/Payloads.antt =====
-- agents/scheduler.py: the payloads of the events and messages of the scheduler.
use hollow_agent_os.Base.{ℕ, String, Option, none, some, [], ◌∷◌}
use hollow_agent_os.Event.{Event, Json, null, text, number, object_of, optional_text}
use hollow_agent_os.Scheduler.Record.{
  Task, Answer, Status, queued, running, done, failed, checkpointed, cancelled,
}

abbrev optional_number : Option ℕ → Json
optional_number none = null
optional_number (some n) = number n

abbrev pub status_text : Status → String
status_text queued = "queued"
status_text running = "running"
status_text done = "done"
status_text failed = "failed"
status_text checkpointed = "checkpointed"
status_text cancelled = "cancelled"

abbrev answer_json : Option Answer → Json
answer_json none = null
answer_json (some a) = object_of (
    ("response", text a.response)
    ∷ ("model", text a.model)
    ∷ ("tokens_in", number a.tokens_in)
    ∷ ("tokens_out", number a.tokens_out)
    ∷ ("ms", optional_number a.ms)
    ∷ [])

unfoldable pub queued_event : Task → Event
queued_event t = record {
  event_type = "task.queued";
  source_id = t.submitted_by;
  payload = object_of (
      ("task_id", text t.task_id)
      ∷ ("complexity", number t.complexity)
      ∷ ("priority", number t.priority)
      ∷ ("submitted_by", text t.submitted_by)
      ∷ []);
}

unfoldable pub checkpointed_event : Task → Event
checkpointed_event t = record {
  event_type = "task.checkpointed";
  source_id = t.submitted_by;
  payload = object_of (("task_id", text t.task_id) ∷ ("reason", text "urgent_preemption") ∷ []);
}

unfoldable pub started_event : Task → String → String → Event
started_event t role model = record {
  event_type = "task.started";
  source_id = t.submitted_by;
  payload = object_of (
      ("task_id", text t.task_id)
      ∷ ("model_role", text role)
      ∷ ("model", text model)
      ∷ ("priority", number t.priority)
      ∷ []);
}

unfoldable pub completed_event : Task → Answer → Event
completed_event t a = record {
  event_type = "task.completed";
  source_id = t.submitted_by;
  payload = object_of (
      ("task_id", text t.task_id)
      ∷ ("model", text a.model)
      ∷ ("tokens_in", number a.tokens_in)
      ∷ ("tokens_out", number a.tokens_out)
      ∷ ("ms", optional_number a.ms)
      ∷ ("complexity", number t.complexity)
      ∷ ("status", text "done")
      ∷ []);
}

unfoldable pub failed_event : Task → Event
failed_event t = record {
  event_type = "task.failed";
  source_id = t.submitted_by;
  payload = object_of (("task_id", text t.task_id) ∷ ("error", optional_text t.error) ∷ []);
}

-- The contents of the two messages to the submitter.
unfoldable pub running_content : Task → String → Json
running_content t role =
    object_of
      (("task_id", text t.task_id) ∷ ("status", text "running") ∷ ("model_role", text role) ∷ [])

unfoldable pub result_content : Task → Json
result_content t = object_of (
    ("task_id", text t.task_id)
    ∷ ("status", text (status_text t.status))
    ∷ ("result", answer_json t.result)
    ∷ ("error", optional_text t.error)
    ∷ [])
