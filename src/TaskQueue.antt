-- ===== src/TaskQueue.antt =====
-- agents/task_queue.py: the file of tasks that outside callers drop and the daemon claims. The state
-- is the lines of the file; a clock reading and a fresh identifier are arguments.
pub mod Claim
pub mod Expiry
pub mod Update
mod Examples
use Prim.Native.String.{◌++◌ as join}
use hollow_agent_os.Base.{
  ℕ, ◌+◌, ◌*◌, ◌-◌, String, Bool, true, false, not, ◌&&◌, ◌||◌, ◌==◌, Option, none, some, List, [],
  ◌∷◌, ◌++◌, ltb, if◌then◌else◌, contains, count_if,
}

-- What the queue calls of Python's `time` module and text functions: `strftime` to the minute, the
-- seconds that `mktime(strptime(…))` gives or `none` where it raises, the hours of an elapsed time
-- with one decimal, and a slice of a text.
pub record Platform : Type 0 where
  pub stamp : ℕ → String
  pub seconds : String → Option ℕ
  pub hours : ℕ → String
  pub prefix : ℕ → String → String

pub data Status : Type 0 where
  pending assigned completed failed : Status

pub record Task : Type 0 where
  pub task_id : String
  pub spec : String
  pub files : List String
  pub assigned_to : Option String
  pub output_file : Option String
  pub depends_on : Option String
  pub status : Status
  pub created_at : String
  pub assigned_at : Option String
  pub completed_at : Option String
  pub result : Option String

-- A line of the file: a task, or a text that is not JSON.
pub data Line : Type 0 where
  task : Task → Line
  broken : String → Line

-- The lines of the file, `none` where it does not exist.
abbrev pub Queue : Type 0
Queue = Option (List Line)

abbrev pub is_assigned : Status → Bool
is_assigned assigned = true
is_assigned _ = false

abbrev pub is_pending : Status → Bool
is_pending pending = true
is_pending _ = false

abbrev pub is_completed : Status → Bool
is_completed completed = true
is_completed _ = false

abbrev pub lines_of : Queue → List Line
lines_of none = []
lines_of (some ls) = ls

-- `submit_task`.
unfoldable pub submit_task :
    Platform
    → String
    → ℕ
    → String
    → List String
    → Option String
    → Option String
    → Option String
    → Queue
    → Queue
submit_task platform task_id now spec files assigned_to output_file depends_on q = some (
    lines_of q
    ++ task (record {
      task_id = task_id;
      spec = spec;
      files = files;
      assigned_to = assigned_to;
      output_file = output_file;
      depends_on = depends_on;
      status = pending;
      created_at = platform.stamp now;
      assigned_at = none;
      completed_at = none;
      result = none;
    })
      ∷ [])

-- `get_task`.
unfoldable pub find_task : String → List Line → Option Task
find_task task_id [] = none
find_task task_id (task t ∷ ls) = if t.task_id == task_id then some t else find_task task_id ls
find_task task_id (broken s ∷ ls) = find_task task_id ls

unfoldable pub get_task : String → Queue → Option Task
unfolding find_task
get_task task_id q = find_task task_id (lines_of q)

-- The seconds at which an assigned task was claimed, if they can be read back.
unfoldable pub assigned_seconds : Platform → Task → Option ℕ
assigned_seconds platform t = elim t.assigned_at [
  | none ↦ none
  | some s ↦ if s == "" then none else platform.seconds s
]

-- `hours_elapsed > TASK_TIMEOUT_HOURS`, which is 2, for an assigned task.
unfoldable pub overdue : Platform → ℕ → Task → Bool
unfolding assigned_seconds
overdue platform now t = elim (assigned_seconds platform t) [
  | none ↦ false
  | some since ↦ is_assigned t.status && ltb (since + 2 * 3600) now
]

unfoldable pub expire_task : Platform → ℕ → Task → Task
unfolding assigned_seconds overdue
expire_task platform now t = elim (assigned_seconds platform t) [
  | none ↦ t
  | some since ↦
      if overdue platform now t
      then record t {
        status = failed;
        completed_at = some (platform.stamp now);
        result = some (join "timed out after " (join (platform.hours (now - since)) "h"));
      }
      else t
]

abbrev prepend : Line → Option (List Line) → Option (List Line)
prepend l none = none
prepend l (some ls) = some (l ∷ ls)

-- The loop that rewrites the lines. In the source the variable `t` of an unreadable line is still the
-- task of the line before it, so that task is written in its place; `none` is the error that `t` is
-- not bound yet.
unfoldable pub rewrite : (Task → Task) → Option Task → List Line → Option (List Line)
rewrite f last [] = some []
rewrite f last (task t ∷ ls) = prepend (task (f t)) (rewrite f (some (f t)) ls)
rewrite f none (broken s ∷ ls) = none
rewrite f (some t) (broken s ∷ ls) = prepend (task t) (rewrite f (some t) ls)

abbrev pub line_is : (Task → Bool) → Line → Bool
line_is p (task t) = p t
line_is p (broken s) = false

-- `expire_stale_tasks`: the count and the file; `none` is the error of the loop.
unfoldable pub expire_stale_tasks : Platform → ℕ → Queue → Option (ℕ × Queue)
unfolding rewrite expire_task overdue count_if
expire_stale_tasks platform now none = some (0, none)
expire_stale_tasks platform now (some ls) = elim (rewrite (expire_task platform now) none ls) [
  | none ↦ none
  | some updated ↦
      let expired = count_if (line_is (overdue platform now)) ls in
      some (expired, if ltb 0 expired then some updated else some ls)
]

unfoldable pub completed_ids : List Line → List String
completed_ids [] = []
completed_ids (task t ∷ ls) =
    let rest = completed_ids ls in if is_completed t.status then t.task_id ∷ rest else rest
completed_ids (broken s ∷ ls) = completed_ids ls

abbrev pub is_for : String → Option String → Bool
is_for agent_id none = true
is_for agent_id (some a) = a == agent_id

abbrev pub is_unlocked : List String → Option String → Bool
is_unlocked ids none = true
is_unlocked ids (some d) = contains d ids

-- The test of the loop of `claim_task`, before one is claimed.
unfoldable pub claimable : String → List String → Task → Bool
claimable agent_id ids t =
    is_pending t.status && is_for agent_id t.assigned_to && is_unlocked ids t.depends_on

unfoldable pub claimed : Platform → String → ℕ → Task → Task
claimed platform agent_id now t = record t {
  status = assigned;
  assigned_to = some agent_id;
  assigned_at = some (platform.stamp now);
}

-- The loop of `claim_task`.
unfoldable pub claim_lines :
    Platform → String → ℕ → List String → List Line → Option Task × List Line
unfolding claimable claimed
claim_lines platform agent_id now ids [] = (none, [])
claim_lines platform agent_id now ids (broken s ∷ ls) =
    let (found, rest) = claim_lines platform agent_id now ids ls in (found, broken s ∷ rest)
claim_lines platform agent_id now ids (task t ∷ ls) =
    let (found, rest) = claim_lines platform agent_id now ids ls in
    if claimable agent_id ids t
    then (some (claimed platform agent_id now t), task (claimed platform agent_id now t) ∷ ls)
    else (found, task t ∷ rest)

-- The rest of `claim_task`: the file is written only if a task is claimed.
unfoldable pub claim_first : Platform → String → ℕ → Queue → Option Task × Queue
unfolding claim_lines completed_ids
claim_first platform agent_id now none = (none, none)
claim_first platform agent_id now (some ls) =
    let (found, updated) = claim_lines platform agent_id now (completed_ids ls) ls in
    (found, elim found [ none ↦ some ls | some t ↦ some updated ])

-- `claim_task`, with the clock readings of the expiry and of the claim.
unfoldable pub claim_task : Platform → String → ℕ → ℕ → Queue → Option (Option Task × Queue)
unfolding expire_stale_tasks claim_first
claim_task platform agent_id now at q = elim (expire_stale_tasks platform now q) [
  | none ↦ none
  | some (n, q') ↦ some (claim_first platform agent_id at q')
]

-- `_update_task`, with the new values of the keywords as a function on the task.
unfoldable pub on_task : String → (Task → Task) → Task → Task
on_task task_id f t = if t.task_id == task_id then f t else t

unfoldable pub update_task : String → (Task → Task) → Queue → Option Queue
unfolding rewrite on_task
update_task task_id f none = some none
update_task task_id f (some ls) = elim (rewrite (on_task task_id f) none ls) [
  | none ↦ none
  | some updated ↦ some (some updated)
]

unfoldable pub finished : Platform → Status → ℕ → ℕ → String → Task → Task
finished platform s now limit note t = record t {
  status = s;
  completed_at = some (platform.stamp now);
  result = some (platform.prefix limit note);
}

-- `complete_task` and `fail_task`.
unfoldable pub complete_task : Platform → String → ℕ → String → Queue → Option Queue
unfolding update_task finished
complete_task platform task_id now result q =
    update_task task_id (finished platform completed now 500 result) q

unfoldable pub fail_task : Platform → String → ℕ → String → Queue → Option Queue
unfolding update_task finished
fail_task platform task_id now reason q =
    update_task task_id (finished platform failed now 200 reason) q

-- `pending_count`.
unfoldable pub pending_count : Queue → ℕ
unfolding count_if
pending_count q = count_if (line_is (λ t. is_pending t.status || is_assigned t.status)) (lines_of q)
