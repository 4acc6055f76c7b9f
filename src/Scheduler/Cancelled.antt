-- ===== src/Scheduler/Cancelled.antt =====
-- agents/scheduler.py: a task that was cancelled while it waited.
use hollow_agent_os.Base.{
  ℕ, ◌≡◌, refl, ap, ◌∙◌, String, true, some, List, ◌∷◌, contains, inl, inr, Option-cases,
}
use hollow_agent_os.Dict
use hollow_agent_os.Dict.{get-put_self}
use hollow_agent_os.Registry.Locks.{check_model_policy}
use hollow_agent_os.Scheduler.Record.{Task, queued, running}
use hollow_agent_os.Scheduler.PriorityQueue
use hollow_agent_os.Scheduler.PriorityQueue.{Entry, hand_out}
use hollow_agent_os.Scheduler.Runs.{cancel-queue}
use hollow_agent_os.Scheduler.{
  Scheduler, get_task, cancel, cancel_task, cancelled_task, cancelled_now, set_object, save,
}
use hollow_agent_os.Scheduler.Worker.{take_task, reset, start_task, started, announce, tell}

-- What `cancel` does to a waiting task.
cancel-queued :
    (s : Scheduler) (t : Task) (now : ℕ)
    → get_task s t.task_id ≡ some t
    → t.status ≡ queued
    → ((cancel s t.task_id now).0 ≡ cancelled_now)
      × (Dict.get t.task_id (cancel s t.task_id now).1.objects ≡ some (cancelled_task t now))
      × ((cancel s t.task_id now).1.registry ≡ s.registry)
unfolding cancel cancel_task set_object save cancelled_task
cancel-queued s t now f e =
    rw (f, e, cancel, cancel_task)
      (refl, get-put_self t.task_id (cancelled_task t now) s.objects, refl)

-- What a worker takes when the first entry of the heap is a pending task.
take_task-front :
    (s : Scheduler) (e : Entry) (rest : List Entry) (t : Task)
    → s.queue.heap ≡ e ∷ rest
    → contains e.task_id s.queue.pending ≡ true
    → Dict.get e.task_id s.objects ≡ some t
    → (take_task s).0 ≡ some (reset t)
unfolding take_task PriorityQueue.get hand_out
take_task-front s e rest t front waits here =
    rw (front, waits, here, take_task, PriorityQueue.get, hand_out) refl

start_task-runs :
    (s : Scheduler) (t : Task) (model msg_id : String) (now : ℕ)
    → check_model_policy s.registry t.submitted_by model "ollama" ≡ true
    → Dict.get t.task_id (start_task s t model msg_id now).objects ≡ some (started t model now)
unfolding start_task announce tell set_object started
start_task-runs s t model msg_id now ok =
    rw (ok, start_task) (get-put_self t.task_id (started t model now) s.objects)

take_task-registry : (s : Scheduler) → (take_task s).1.registry ≡ s.registry
unfolding take_task set_object
take_task-registry s = elim (Option-cases (PriorityQueue.get s.queue).0) [
  | inl e ↦ rw (e, take_task) refl
  | inr (i, e) ↦ elim (Option-cases (Dict.get i s.objects)) [
    | inl f ↦ rw (e, f, take_task) refl
    | inr (t, f) ↦ rw (e, f, take_task) refl
  ]
]

-- A waiting task that stands in front of the queue and is cancelled stays there: cancel answers that
-- it is cancelled, and yet the next worker takes the task and, where the policy of the submitter
-- allows the model, sets it to running.
pub cancelled_runs :
    (s : Scheduler) (e : Entry) (rest : List Entry) (t : Task) (model msg_id : String)
    (now later : ℕ)
    → get_task s t.task_id ≡ some t
    → t.status ≡ queued
    → s.queue.heap ≡ e ∷ rest
    → e.task_id ≡ t.task_id
    → contains e.task_id s.queue.pending ≡ true
    → check_model_policy s.registry t.submitted_by model "ollama" ≡ true
    → let (reply, s1) = cancel s t.task_id now in
      let (found, s2) = take_task s1 in
      (reply ≡ cancelled_now)
      × (found ≡ some (cancelled_task t now))
      × (u : Task) × (Dict.get t.task_id
            (start_task s2 (cancelled_task t now) model msg_id later).objects
          ≡ some u)
      × (u.status ≡ running)
unfolding cancelled_task started reset
cancelled_runs s e rest t model msg_id now later filed waiting front same pending allowed =
    let (reply, here, registry) = cancel-queued s t now filed waiting in
    let s1 = (cancel s t.task_id now).1 in
    let u = cancelled_task t now in
    (
      reply,
      take_task-front s1 e rest u (ap (λ q. q.heap) (cancel-queue s t.task_id now) ∙ front)
          (ap (λ q. contains e.task_id q.pending) (cancel-queue s t.task_id now) ∙ pending)
          (ap (λ i. Dict.get i s1.objects) same ∙ here),
      started u model later,
      start_task-runs (take_task s1).1 u model msg_id later (
          ap (λ r. check_model_policy r t.submitted_by model "ollama")
            (take_task-registry s1 ∙ registry)
          ∙ allowed),
      refl,
    )
