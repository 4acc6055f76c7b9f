-- ===== src/Scheduler/Runs.antt =====
-- agents/scheduler.py: what every sequence of calls keeps of the queue.
use hollow_agent_os.Base.{
  ℕ, ◌≤◌, ◌≡◌, refl, sym, subst, min, max, String, ◌&&◌, List, [], ◌∷◌, arith, inl, inr, ltb, leb,
  if◌then◌else◌, Bool, Option, none, some, contains, if_ind, Option-cases, List-cases, All,
}
use hollow_agent_os.Dict
use hollow_agent_os.Dict.{Dict}
use hollow_agent_os.Registry.Record.{Registry}
use hollow_agent_os.Bus.{Bus}
use hollow_agent_os.Registry.Locks.{check_model_policy}
use hollow_agent_os.Scheduler.Record.{
  Task, Status, queued, running, done, failed, checkpointed, cancelled, is_running, background,
  urgent, num_workers,
}
use hollow_agent_os.Scheduler.PriorityQueue
use hollow_agent_os.Scheduler.PriorityQueue.{
  Entry, Queue, hand_out, equal, background_tasks, oldest_of, age_key, requeue,
  checkpoint_oldest_background, running_count, remove_id,
}
use hollow_agent_os.Scheduler.Order.{IsNumbered}
use hollow_agent_os.Scheduler.Aged.{hand_out-heap, Precedes, IsAged, IsFair, put-IsFair, get-IsFair}
use hollow_agent_os.Scheduler.{
  Scheduler, Request, new_task, submit, preempt, save, set_object, cancel, cancel_task, load,
  empty_queue, get_task,
}
use hollow_agent_os.Scheduler.Worker.{
  Outcome, take_task, start_task, announce, drop_task, tell, finish_task,
}

background_tasks-All :
    (objects : Dict Task) (ids : List String)
    → All (λ (t : Task). t.priority ≤ 2) (background_tasks objects ids)
unfolding background_tasks
background_tasks-All objects [] = tt
background_tasks-All objects (i ∷ ids) = elim (Option-cases (Dict.get i objects)) [
  | inl e ↦ rw (e, background_tasks) (background_tasks-All objects ids)
  | inr (t, e) ↦
      rw (e, background_tasks)
        (if_ind (All (λ (u : Task). u.priority ≤ 2))
          (equal t.priority background && is_running t.status) _ _
          (λ b. (ground arith, background_tasks-All objects ids))
          (λ b. background_tasks-All objects ids))
]

oldest_of-All :
    (t : Task) (ts : List Task)
    → t.priority ≤ 2
    → All (λ (u : Task). u.priority ≤ 2) ts
    → (oldest_of t ts).priority ≤ 2
unfolding oldest_of
oldest_of-All t [] p h = p
oldest_of-All t (u ∷ ts) p (q, h) =
    oldest_of-All (if ltb (age_key u) (age_key t) then u else t) ts
      (if_ind (λ (r : Task). r.priority ≤ 2) (ltb (age_key u) (age_key t)) u t (λ b. q) (λ b. p)) h

-- The part of the queue that the waiting and the running tasks do not touch.
kept :
    {q : Queue} {pending running : List String} {closed : Bool}
    → IsFair q
    → IsFair (record q { pending = pending; running = running; closed = closed })
kept h = record {
  ordered = record {
    sorted = h.ordered.sorted;
    numbered = h.ordered.numbered;
    clamped = h.ordered.clamped;
  };
  aged = h.aged;
}

checkpoint-IsFair :
    (objects : Dict Task) (q : Queue)
    → IsFair q
    → IsFair (checkpoint_oldest_background objects q).1.1
unfolding checkpoint_oldest_background requeue
checkpoint-IsFair objects q h = elim (List-cases (background_tasks objects q.running)) [
  | inl e ↦ rw (e, checkpoint_oldest_background) h
  | inr (t, ts, e) ↦
      let all =
        subst (All (λ (u : Task). u.priority ≤ 2)) e (background_tasks-All objects q.running) in
      rw (e, checkpoint_oldest_background)
        (put-IsFair (record q { running = remove_id (oldest_of t ts).task_id q.running })
          (oldest_of t ts).task_id (oldest_of t ts).priority (kept h)
          (oldest_of-All t ts all.0 all.1))
]

abbrev StaysFair : Scheduler → Type 0
StaysFair s = IsFair s.queue

submit-StaysFair :
    (s : Scheduler) (task_id : String) (now : ℕ) (r : Request)
    → StaysFair s
    → StaysFair (submit s task_id now r)
unfolding submit save set_object preempt new_task
submit-StaysFair s task_id now r h =
    put-IsFair _ task_id (max 0 (min 2 r.priority))
      (if_ind StaysFair
        (leb (max 0 (min 2 r.priority)) urgent && leb num_workers (running_count s.queue)) _ _
        (λ b. checkpoint-IsFair _ s.queue h) (λ b. h))
      (ground arith)

take_task-queue : (s : Scheduler) → (take_task s).1.queue ≡ (PriorityQueue.get s.queue).1
unfolding take_task set_object
take_task-queue s = elim (Option-cases (PriorityQueue.get s.queue).0) [
  | inl e ↦ rw (e, take_task) refl
  | inr (i, e) ↦ elim (Option-cases (Dict.get i s.objects)) [
    | inl f ↦ rw (e, f, take_task) refl
    | inr (t, f) ↦ rw (e, f, take_task) refl
  ]
]

take_task-StaysFair : (s : Scheduler) → StaysFair s → StaysFair (take_task s).1
take_task-StaysFair s h = subst IsFair (sym (take_task-queue s)) (get-IsFair s.queue h)

drop_task-StaysFair : (s : Scheduler) (i : String) → StaysFair s → StaysFair (drop_task s i)
unfolding drop_task PriorityQueue.mark_done
drop_task-StaysFair s i h = kept h

start_task-StaysFair :
    (s : Scheduler) (t : Task) (model msg_id : String) (now : ℕ)
    → StaysFair s
    → StaysFair (start_task s t model msg_id now)
unfolding start_task announce tell save set_object drop_task PriorityQueue.mark_done
start_task-StaysFair s t model msg_id now h =
    if_ind StaysFair (check_model_policy s.registry t.submitted_by model "ollama") _ _ (λ b. h)
      (λ b. drop_task-StaysFair s t.task_id h)

finish_task-StaysFair :
    (s : Scheduler) (i : String) (o : Outcome) (msg_id : String) (now : ℕ)
    → StaysFair s
    → StaysFair (finish_task s i o msg_id now)
unfolding finish_task tell save set_object drop_task
finish_task-StaysFair s i o msg_id now h = elim (Option-cases (Dict.get i s.objects)) [
  | inl e ↦ rw (e, finish_task) h
  | inr (t, e) ↦ rw (e, finish_task) (drop_task-StaysFair s i h)
]

cancel_task-queue :
    (s : Scheduler) (t : Task) (now : ℕ) (st : Status)
    → t.status ≡ st
    → (cancel_task s t now).1.queue ≡ s.queue
unfolding cancel_task save set_object
cancel_task-queue s t now queued e = rw (e, cancel_task) refl
cancel_task-queue s t now running e = rw (e, cancel_task) refl
cancel_task-queue s t now done e = rw (e, cancel_task) refl
cancel_task-queue s t now failed e = rw (e, cancel_task) refl
cancel_task-queue s t now checkpointed e = rw (e, cancel_task) refl
cancel_task-queue s t now cancelled e = rw (e, cancel_task) refl

-- Cancelling leaves the queue as it is.
pub cancel-queue : (s : Scheduler) (i : String) (now : ℕ) → (cancel s i now).1.queue ≡ s.queue
unfolding cancel
cancel-queue s i now = elim (Option-cases (get_task s i)) [
  | inl e ↦ rw (e, cancel) refl
  | inr (t, e) ↦ rw (e, cancel) (cancel_task-queue s t now t.status refl)
]

cancel-StaysFair :
    (s : Scheduler) (i : String) (now : ℕ) → StaysFair s → StaysFair (cancel s i now).1
cancel-StaysFair s i now h = subst IsFair (sym (cancel-queue s i now)) h

-- The calls on the scheduler, with what the environment answers.
pub data Call : Type 0 where
  submits : (task_id : String) (now : ℕ) → Request → Call
  takes : Call
  starts : Task → (model msg_id : String) (now : ℕ) → Call
  finishes : (task_id : String) → Outcome → (msg_id : String) (now : ℕ) → Call
  cancels : (task_id : String) (now : ℕ) → Call

unfoldable pub step : Scheduler → Call → Scheduler
step s (submits i now r) = submit s i now r
step s takes = (take_task s).1
step s (starts t model msg_id now) = start_task s t model msg_id now
step s (finishes i o msg_id now) = finish_task s i o msg_id now
step s (cancels i now) = (cancel s i now).1

unfoldable pub run : Scheduler → List Call → Scheduler
unfolding step
run s [] = s
run s (c ∷ cs) = run (step s c) cs

step-StaysFair : (s : Scheduler) (c : Call) → StaysFair s → StaysFair (step s c)
unfolding step
step-StaysFair s (submits i now r) h = submit-StaysFair s i now r h
step-StaysFair s takes h = take_task-StaysFair s h
step-StaysFair s (starts t model msg_id now) h = start_task-StaysFair s t model msg_id now h
step-StaysFair s (finishes i o msg_id now) h = finish_task-StaysFair s i o msg_id now h
step-StaysFair s (cancels i now) h = cancel-StaysFair s i now h

run-StaysFair : (s : Scheduler) (cs : List Call) → StaysFair s → StaysFair (run s cs)
unfolding run
run-StaysFair s [] h = h
run-StaysFair s (c ∷ cs) h = run-StaysFair (step s c) cs (step-StaysFair s c h)

-- What `get` does with a queue: none of an empty heap, and else the task of the first entry, if it
-- still waits.
pub data HandsOut (q : Queue) : Option String × Queue → Type 0 where
  idle : q.heap ≡ [] → HandsOut q (none, q)
  hands_out :
      {r : Option String × Queue} (e : Entry) (rest : List Entry)
      → q.heap ≡ e ∷ rest
      → All (Precedes e) rest
      → r.1.heap ≡ rest
      → r.0 ≡ (if contains e.task_id q.pending then some e.task_id else none)
      → HandsOut q r

hand_out-answer :
    (q : Queue) (i : String) → (hand_out q i).0 ≡ (if contains i q.pending then some i else none)
unfolding hand_out
hand_out-answer q i = ground arith

get-idle : (q : Queue) → q.heap ≡ [] → PriorityQueue.get q ≡ (none, q)
unfolding PriorityQueue.get
get-idle q e = ground arith

get-HandsOut : (q : Queue) → IsAged q.heap → HandsOut q (PriorityQueue.get q)
unfolding PriorityQueue.get
get-HandsOut q h = elim (List-cases q.heap) [
  | inl e ↦ subst (HandsOut q) (sym (get-idle q e)) (idle e)
  | inr (x, rest, e) ↦
      let aged : IsAged (x ∷ rest) = subst IsAged e h in
      hands_out x rest e aged.0
        (rw (e, PriorityQueue.get) (hand_out-heap (record q { heap = rest }) x.task_id))
        (rw (e, PriorityQueue.get) (hand_out-answer (record q { heap = rest }) x.task_id))
]

-- After a start and any sequence of submissions, preemptions, cancellations and rounds of the workers,
-- the next `get` of a queue with entries takes the most urgent one, and of those with its priority the
-- one with the smallest number, which is the oldest: all numbers in the queue are below the one that
-- the next `put` gives out. It hands out the task of that entry if the task waits, and leaves the other
-- entries; of an empty queue it gives none and leaves the queue as it is.
pub run-serves :
    (r : Registry) (b : Bus) (saved : Dict Task) (now : ℕ) (cs : List Call)
    → let q = (run (load r b saved now) cs).queue in
      IsNumbered q.seq q.heap × HandsOut q (PriorityQueue.get q)
unfolding load empty_queue
run-serves r b saved now cs =
    let s = run (load r b saved now) cs in
    let start : IsFair empty_queue = record {
      ordered = record { sorted = tt; numbered = tt; clamped = tt };
      aged = tt;
    } in
    let h = run-StaysFair (load r b saved now) cs start in
    (h.ordered.numbered, get-HandsOut s.queue h.aged)
