-- ===== src/Scheduler/PriorityQueue.antt =====
-- agents/scheduler.py, `PriorityTaskQueue`. The queue refers to the shared task objects by their
-- identifiers. The list that `heapq` keeps as a heap is the list of its entries in order: a push keeps
-- the order, and a pop takes the first entry. Waiting threads are left out: `get` answers at the
-- moment when its lock is free and there is an entry, or the time is over.
use hollow_agent_os.Base.{
  ℕ, ◌+◌, String, ◌==◌, Bool, true, ◌&&◌, ◌||◌, Option, none, some, List, [], ◌∷◌, ◌++◌, ltb, leb,
  if◌then◌else◌, length, count_if, insert_sorted, contains,
}
use hollow_agent_os.Dict
use hollow_agent_os.Dict.{Dict}
use hollow_agent_os.Scheduler.Record.{Task, checkpointed, is_running, background}

-- An element `(priority, seq, task_id)` of the heap; no two have the same `seq`.
pub record Entry : Type 0 where
  pub priority : ℕ
  pub seq : ℕ
  pub task_id : String

pub record Queue : Type 0 where
  pub heap : List Entry
  pub seq : ℕ
  pub pending : List String
  pub running : List String
  pub closed : Bool

abbrev pub equal : ℕ → ℕ → Bool
equal a b = leb a b && leb b a

-- The order of the tuples.
abbrev pub before : Entry → Entry → Bool
before x y = ltb x.priority y.priority || (equal x.priority y.priority && leb x.seq y.seq)

-- Writing a key of a dict, and `pop(key, None)`, as far as the keys go.
unfoldable pub add_id : String → List String → List String
add_id i ids = if contains i ids then ids else ids ++ i ∷ []

unfoldable pub remove_id : String → List String → List String
remove_id i [] = []
remove_id i (j ∷ ids) = let rest = remove_id i ids in if j == i then rest else j ∷ rest

unfoldable pub entry_of : Queue → String → ℕ → Entry
entry_of q task_id priority = record { priority = priority; seq = q.seq; task_id = task_id }

-- `PriorityTaskQueue.put`.
unfoldable pub put : Queue → String → ℕ → Queue
unfolding add_id insert_sorted entry_of
put q task_id priority = record q {
  pending = add_id task_id q.pending;
  heap = insert_sorted before (entry_of q task_id priority) q.heap;
  seq = q.seq + 1;
}

-- The end of `get`: the entry that was popped may have no pending task.
unfoldable pub hand_out : Queue → String → Option String × Queue
unfolding remove_id add_id
hand_out q task_id =
    if contains task_id q.pending
    then (
      some task_id,
      record q { pending = remove_id task_id q.pending; running = add_id task_id q.running },
    )
    else (none, q)

-- `PriorityTaskQueue.get`.
unfoldable pub get : Queue → Option String × Queue
unfolding hand_out
get q = elim q.heap [ [] ↦ (none, q) | e ∷ rest ↦ hand_out (record q { heap = rest }) e.task_id ]

-- `PriorityTaskQueue.mark_done`.
unfoldable pub mark_done : Queue → String → Queue
unfolding remove_id
mark_done q task_id = record q { running = remove_id task_id q.running }

-- The running tasks of the queue that run in the background.
unfoldable pub background_tasks : Dict Task → List String → List Task
background_tasks objects [] = []
background_tasks objects (i ∷ ids) =
    let rest = background_tasks objects ids in
    elim (Dict.get i objects) [
      | none ↦ rest
      | some t ↦ if equal t.priority background && is_running t.status then t ∷ rest else rest
    ]

-- `t.started_at or t.created_at`.
unfoldable pub age_key : Task → ℕ
age_key t = elim t.started_at [ none ↦ t.created_at | some n ↦ if ltb 0 n then n else t.created_at ]

-- `min(bg_tasks, key=…)`: the first of the least.
unfoldable pub oldest_of : Task → List Task → Task
unfolding age_key
oldest_of best [] = best
oldest_of best (t ∷ ts) = oldest_of (if ltb (age_key t) (age_key best) then t else best) ts

-- The checkpoint of one task: the object is changed, and the task goes back to the heap.
unfoldable pub requeue : Dict Task → Queue → Task → Dict Task × Queue
unfolding put remove_id
requeue objects q t = (
  Dict.put t.task_id (record t { status = checkpointed }) objects,
  put (record q { running = remove_id t.task_id q.running }) t.task_id t.priority,
)

-- `PriorityTaskQueue.checkpoint_oldest_background`.
unfoldable pub checkpoint_oldest_background : Dict Task → Queue → Option Task × (Dict Task × Queue)
unfolding background_tasks oldest_of requeue
checkpoint_oldest_background objects q = elim (background_tasks objects q.running) [
  | [] ↦ (none, (objects, q))
  | t ∷ ts ↦ (some (oldest_of t ts), requeue objects q (oldest_of t ts))
]

-- `PriorityTaskQueue.running_count` and `queue_depth_by_priority`.
unfoldable pub running_count : Queue → ℕ
running_count q = length q.running

unfoldable pub queue_depth : Queue → ℕ → ℕ
unfolding count_if
queue_depth q p = count_if (λ e. equal e.priority p) q.heap

-- `PriorityTaskQueue.close`.
unfoldable pub close : Queue → Queue
close q = record q { closed = true }
