-- ===== src/TaskQueue/Claim.antt =====
-- agents/task_queue.py: which task a claim takes, and what it changes.
use hollow_agent_os.Base.{
  ℕ, ◌≡◌, refl, String, true, Option, none, some, List, [], ◌∷◌, ◌++◌, inl, inr, ◌⊎◌, ◌↔◌, false,
  Bool-cases, All, contains, arith, eq_iff, ◌==◌,
}
use hollow_agent_os.TaskQueue.{
  Platform, Task, Line, task, broken, line_is, claimable, claimed, completed_ids, pending, assigned,
  completed, failed, Status, is_completed,
}

-- No line up to here can be claimed.
abbrev NoneIn : String → List String → List Line → Type 0
NoneIn agent_id ids ls = All (λ l. line_is (claimable agent_id ids) l ≡ false) ls

-- The claim of the first task of `ls` that can be claimed: the lines before and after it stay.
abbrev TakesFirst :
    Platform → String → ℕ → List String → List Line → Option Task × List Line → Type 0
TakesFirst platform agent_id now ids ls r =
    (before : List Line) × (t : Task) × (after : List Line) × (ls ≡ before ++ task t ∷ after)
    × NoneIn agent_id ids before
    × (claimable agent_id ids t ≡ true)
    × (r ≡ (
      some (claimed platform agent_id now t),
      before ++ task (claimed platform agent_id now t) ∷ after,
    ))

-- A line of the file is a completed task with this identifier.
abbrev pub IsCompletion : String → Line → Type 0
IsCompletion d (task t) = (t.task_id ≡ d) × (t.status ≡ completed)
IsCompletion d (broken s) = ⊥

abbrev pub HasCompleted : String → List Line → Type 0
HasCompleted d [] = ⊥
HasCompleted d (l ∷ ls) = IsCompletion d l ⊎ HasCompleted d ls

-- A task is for everyone or for this agent, and depends on nothing or on a completed task of the file.
abbrev pub IsFor : String → Option String → Type 0
IsFor agent_id none = Unit
IsFor agent_id (some a) = a ≡ agent_id

abbrev pub IsReady : List Line → Option String → Type 0
IsReady file none = Unit
IsReady file (some d) = HasCompleted d file

abbrev pub MayClaim : String → List Line → Task → Type 0
MayClaim agent_id file t =
    (t.status ≡ pending) × IsFor agent_id t.assigned_to × IsReady file t.depends_on

abbrev pub IsOpen : String → List Line → Line → Type 0
IsOpen agent_id file (task t) = MayClaim agent_id file t
IsOpen agent_id file (broken s) = ⊥

status-completed : (s : Status) → is_completed s ≡ true ↔ (s ≡ completed)
status-completed completed = (λ e. refl, λ e. refl)
status-completed assigned = (λ e. cc, λ e. cc)
status-completed pending = (λ e. cc, λ e. cc)
status-completed failed = (λ e. cc, λ e. cc)

pub completed_ids-there :
    (d : String) (ls : List Line) → contains d (completed_ids ls) ≡ true → HasCompleted d ls
unfolding completed_ids contains
completed_ids-there d [] h = cc
completed_ids-there d (broken s ∷ ls) h = inr (completed_ids-there d ls h)
completed_ids-there d (task t ∷ ls) h = elim (Bool-cases (is_completed t.status)) [
  | inr q ↦ inr (completed_ids-there d ls (ground arith))
  | inl q ↦ elim (Bool-cases (t.task_id == d)) [
    | inl e ↦ inl ((eq_iff t.task_id d).0 e, (status-completed t.status).0 q)
    | inr e ↦ inr (completed_ids-there d ls (ground arith))
  ]
]

pub completed_ids-has :
    (d : String) (ls : List Line) → HasCompleted d ls → contains d (completed_ids ls) ≡ true
unfolding completed_ids contains
completed_ids-has d [] h = absurd h
completed_ids-has d (broken s ∷ ls) (inl h) = absurd h
completed_ids-has d (broken s ∷ ls) (inr h) = completed_ids-has d ls h
completed_ids-has d (task t ∷ ls) (inl (e, q)) =
    rw ((status-completed t.status).1 q, (eq_iff t.task_id d).1 e) refl
completed_ids-has d (task t ∷ ls) (inr h) = ground (arith, completed_ids-has d ls h)
