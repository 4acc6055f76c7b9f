-- ===== src/TaskQueue/Update.antt =====
-- agents/task_queue.py: what a completion does to the lines of the file, readable or not.
use hollow_agent_os.Base.{
  ℕ, ◌≡◌, refl, ap, String, ◌==◌, ◌||◌, true, Option, none, some, List, [], ◌∷◌, arith, ◌⊎◌, inl,
  inr, if◌then◌else◌, Bool-cases, contains, map, any_of,
}
use hollow_agent_os.TaskQueue.{
  Platform, Task, completed, Line, task, broken, rewrite, on_task, update_task, finished,
  complete_task, completed_ids, prepend,
}
use hollow_agent_os.TaskQueue.Claim.{HasCompleted, completed_ids-there, completed_ids-has}

-- A rewrite of readable lines changes each task in place.
pub rewrite-tasks :
    (f : Task → Task) (last : Option Task) (ts : List Task)
    → rewrite f last (map task ts) ≡ some (map (λ t. task (f t)) ts)
unfolding rewrite
rewrite-tasks f last [] = refl
rewrite-tasks f last (t ∷ ts) = ap (prepend (task (f t))) (rewrite-tasks f (some (f t)) ts)

-- Completing a task of a readable file never fails, and changes that task alone: it is completed with
-- the cut result, and the others stay in their places as they were.
pub complete_task-exact :
    (platform : Platform) (task_id : String) (now : ℕ) (result : String) (ts : List Task)
    → complete_task platform task_id now result (some (map task ts))
      ≡ some (
          some (
            map
              (λ t. task (
                if t.task_id == task_id
                then record t {
                  status = completed;
                  completed_at = some (platform.stamp now);
                  result = some (platform.prefix 500 result);
                }
                else t))
              ts))
unfolding complete_task update_task on_task finished
complete_task-exact platform task_id now result ts =
    rw
      (
        rewrite-tasks (on_task task_id (finished platform completed now 500 result)) none ts,
        update_task,
      )
      refl

contains-completed :
    (platform : Platform) (task_id : String) (now : ℕ) (result : String) (ts : List Task)
    → any_of (λ t. t.task_id == task_id) ts ≡ true
    → contains task_id (
        completed_ids
          (map (λ t. task (on_task task_id (finished platform completed now 500 result) t)) ts))
      ≡ true
unfolding contains completed_ids on_task finished any_of
contains-completed platform task_id now result [] h = cc
contains-completed platform task_id now result (t ∷ ts) h =
    elim (Bool-cases (t.task_id == task_id)) [
      | inl q ↦
          let rest =
            completed_ids (
              map (λ x. task (on_task task_id (finished platform completed now 500 result) x))
                ts) in
          rw (q) (ap (λ b. b || contains task_id rest) q)
      | inr q ↦ ground (arith, contains-completed platform task_id now result ts)
    ]

contains-kept :
    (platform : Platform) (task_id d : String) (now : ℕ) (result : String) (ts : List Task)
    → contains d (completed_ids (map task ts)) ≡ true
    → contains d (
        completed_ids
          (map (λ t. task (on_task task_id (finished platform completed now 500 result) t)) ts))
      ≡ true
unfolding contains completed_ids on_task finished
contains-kept platform task_id d now result [] h = h
contains-kept platform task_id d now result (t ∷ ts) h = elim (Bool-cases (t.task_id == task_id)) [
  | inl q ↦ rw (q) (ground (arith, contains-kept platform task_id d now result ts))
  | inr q ↦ rw (q) (ground (arith, contains-kept platform task_id d now result ts))
]

-- A completion of a task that is in a readable file succeeds. The file that it leaves has that task as
-- completed, and still every task that was completed before.
pub complete_task-unlocks :
    (platform : Platform) (task_id : String) (now : ℕ) (result : String) (ts : List Task)
    (d : String)
    → any_of (λ t. t.task_id == task_id) ts ≡ true
    → HasCompleted d (map task ts) ⊎ (d ≡ task_id)
    → (ls : List Line) × (complete_task platform task_id now result (some (map task ts))
        ≡ some (some ls))
      × HasCompleted d ls
unfolding on_task finished
complete_task-unlocks platform task_id now result ts d h before = (
  map (λ t. task (on_task task_id (finished platform completed now 500 result) t)) ts,
  complete_task-exact platform task_id now result ts,
  completed_ids-there d
      (map (λ t. task (on_task task_id (finished platform completed now 500 result) t)) ts)
      (elim before [
        | inl done ↦
            contains-kept platform task_id d now result ts (completed_ids-has d (map task ts) done)
        | inr same ↦ rw same (contains-completed platform task_id now result ts h)
      ]),
)

-- An unreadable line is not kept by a completion: after a readable line it is overwritten by a copy
-- of that line's task, and as the first line it makes the completion fail.
pub complete_task-broken :
    (platform : Platform) (task_id text : String) (now : ℕ) (result : String) (t : Task)
    (ls : List Line)
    → (complete_task platform task_id now result (some (broken text ∷ ls)) ≡ none)
      × (let t' = on_task task_id (finished platform completed now 500 result) t in
          complete_task platform task_id now result (some (task t ∷ broken text ∷ []))
          ≡ some (some (task t' ∷ task t' ∷ [])))
unfolding complete_task update_task rewrite
complete_task-broken platform task_id text now result t ls = (refl, refl)
