-- ===== src/TaskQueue/Expiry.antt =====
-- agents/task_queue.py: which tasks the expiry fails, and its count.
use Prim.Native.String.{◌++◌ as join}
use hollow_agent_os.Base.{
  subst, ◌-◌, ◌<◌, ◌≢◌, ◌↔◌, ◌⊎◌, ◌==◌, ◌&&◌, String, eq_iff, true, ◌∙◌, ltb, ℕ, ◌+◌, ◌≡◌, refl,
  sym, ap, Bool, false, Option, none, some, List, [], ◌∷◌, arith, inl, inr, if◌then◌else◌, if_ind,
  Bool-cases, Option-cases, map, count_if,
}
use hollow_agent_os.TaskQueue.{
  Platform, Task, Status, pending, assigned, completed, failed, is_assigned, task, Queue, line_is,
  overdue, expire_task, expire_stale_tasks, assigned_seconds,
}
use hollow_agent_os.TaskQueue.Update.{rewrite-tasks}

expire_task-same :
    (platform : Platform) (now : ℕ) (t : Task)
    → overdue platform now t ≡ false
    → expire_task platform now t ≡ t
unfolding expire_task
expire_task-same platform now t h = elim (Option-cases (assigned_seconds platform t)) [
  | inl e ↦ rw (e, expire_task) refl
  | inr (since, e) ↦ rw (e, h, expire_task) refl
]

count_if-tasks :
    (p : Task → Bool) (ts : List Task) → count_if (line_is p) (map task ts) ≡ count_if p ts
unfolding count_if
count_if-tasks p [] = refl
count_if-tasks p (t ∷ ts) = ap (λ n. (if p t then 1 else 0) + n) (count_if-tasks p ts)

none_overdue :
    (platform : Platform) (now : ℕ) (ts : List Task)
    → count_if (overdue platform now) ts ≡ 0
    → map (λ t. task (expire_task platform now t)) ts ≡ map task ts
unfolding count_if
none_overdue platform now [] h = refl
none_overdue platform now (t ∷ ts) h = elim (Bool-cases (overdue platform now t)) [
  | inl q ↦ ground arith
  | inr q ↦ cc (expire_task-same platform now t q, none_overdue platform now ts (ground arith))
]

expire_stale_tasks-map :
    (platform : Platform) (now : ℕ) (ts : List Task)
    → expire_stale_tasks platform now (some (map task ts))
      ≡ some (
        count_if (overdue platform now) ts,
        some (map (λ t. task (expire_task platform now t)) ts),
      )
unfolding expire_stale_tasks
expire_stale_tasks-map platform now ts =
    let n = count_if (overdue platform now) ts in
    let answer : Queue → Option (ℕ × Queue) = λ q. some (n, q) in
    let late : Queue = some (map (λ t. task (expire_task platform now t)) ts) in
    rw
      (
        rewrite-tasks (expire_task platform now) none ts,
        expire_stale_tasks,
        count_if-tasks (overdue platform now) ts,
      )
      (if_ind (λ (q : Queue). answer q ≡ answer late) (ltb 0 n) _ _ (λ some_late. refl)
        (λ none_late.
          ap (λ ls. answer (some ls)) (sym (none_overdue platform now ts (ground arith)))))

-- A task that was assigned at a time that can be read, more than two hours ago.
abbrev pub IsOverdue : Platform → ℕ → Task → ℕ → Type 0
IsOverdue platform now t since =
    (s : String) × (t.status ≡ assigned)
    × (t.assigned_at ≡ some s)
    × (s ≢ "")
    × (platform.seconds s ≡ some since)
    × (since + 7200 < now)

-- What the expiry makes of a list of tasks, and how many of them it fails.
pub data Expires (platform : Platform) (now : ℕ) : List Task → List Task → ℕ → Type 0 where
  ends : Expires platform now [] [] 0
  fails :
      {t : Task} {ts us : List Task} {n : ℕ} (since : ℕ)
      → IsOverdue platform now t since
      → Expires platform now ts us n
      → Expires platform now
          (t ∷ ts)
          (record t {
            status = failed;
            completed_at = some (platform.stamp now);
            result = some (join "timed out after " (join (platform.hours (now - since)) "h"));
          }
            ∷ us)
          (1 + n)
  keeps :
      {t : Task} {ts us : List Task} {n : ℕ}
      → ((since : ℕ) → ¬ (IsOverdue platform now t since))
      → Expires platform now ts us n
      → Expires platform now (t ∷ ts) (t ∷ us) n

status-assigned : (s : Status) → is_assigned s ≡ true ↔ (s ≡ assigned)
status-assigned assigned = (λ e. refl, λ e. refl)
status-assigned pending = (λ e. cc, λ e. cc)
status-assigned completed = (λ e. cc, λ e. cc)
status-assigned failed = (λ e. cc, λ e. cc)

assigned_at-seconds :
    (platform : Platform) (t : Task) (since : ℕ)
    → assigned_seconds platform t ≡ some since
    → (s : String) × (t.assigned_at ≡ some s) × (s ≢ "") × (platform.seconds s ≡ some since)
unfolding assigned_seconds
assigned_at-seconds platform t since h = elim (Option-cases t.assigned_at) [
  | inl e ↦ absurd (cc (h, e))
  | inr (s, e) ↦ elim (Bool-cases (s == "")) [
    | inl q ↦ ground (arith)
    | inr q ↦ (s, e, λ same. cc (q, (eq_iff s "").1 same), ground arith)
  ]
]

seconds-assigned_at :
    (platform : Platform) (t : Task) (s : String) (since : ℕ)
    → t.assigned_at ≡ some s
    → s ≢ ""
    → platform.seconds s ≡ some since
    → assigned_seconds platform t ≡ some since
unfolding assigned_seconds
seconds-assigned_at platform t s since e other h = elim (Bool-cases (s == "")) [
  | inl q ↦ absurd (other ((eq_iff s "").0 q))
  | inr q ↦ rw (e, assigned_seconds, q) h
]

-- What the expiry writes into a task.
abbrev timed_out : Platform → ℕ → ℕ → Task → Task
timed_out platform now since t = record t {
  status = failed;
  completed_at = some (platform.stamp now);
  result = some (join "timed out after " (join (platform.hours (now - since)) "h"));
}

abbrev Verdict : Platform → ℕ → Task → Type 0
Verdict platform now t =
    ((since : ℕ) × IsOverdue platform now t since
      × (overdue platform now t ≡ true)
      × (expire_task platform now t ≡ timed_out platform now since t))
    ⊎ (((since : ℕ) → ¬ (IsOverdue platform now t since))
        × (overdue platform now t ≡ false)
        × (expire_task platform now t ≡ t))

overdue-since :
    (platform : Platform) (now : ℕ) (t : Task) (since : ℕ)
    → assigned_seconds platform t ≡ some since
    → overdue platform now t ≡ (is_assigned t.status && ltb (since + 7200) now)
unfolding overdue
overdue-since platform now t since e = rw (e, overdue) refl

expire_task-late :
    (platform : Platform) (now : ℕ) (t : Task) (since : ℕ)
    → assigned_seconds platform t ≡ some since
    → overdue platform now t ≡ true
    → expire_task platform now t ≡ timed_out platform now since t
unfolding expire_task
expire_task-late platform now t since e h = rw (e, h, expire_task) refl

late_since :
    (platform : Platform) (now : ℕ) (t : Task) (since : ℕ)
    → IsOverdue platform now t since
    → overdue platform now t ≡ true
late_since platform now t since (s, a, at, other, read, late) =
    overdue-since platform now t since (seconds-assigned_at platform t s since at other read)
    ∙ (let a' = (status-assigned t.status).1 a in ground (arith, a'))

overdue-none :
    (platform : Platform) (now : ℕ) (t : Task)
    → assigned_seconds platform t ≡ none
    → overdue platform now t ≡ false
unfolding overdue
overdue-none platform now t e = rw (e, overdue) refl

on_time :
    (platform : Platform) (now : ℕ) (t : Task)
    → overdue platform now t ≡ false
    → Verdict platform now t
on_time platform now t h = inr (
  λ since late. cc (h, late_since platform now t since late),
  h,
  expire_task-same platform now t h,
)

expire_task-cases : (platform : Platform) (now : ℕ) (t : Task) → Verdict platform now t
expire_task-cases platform now t = elim (Option-cases (assigned_seconds platform t)) [
  | inl e ↦ on_time platform now t (overdue-none platform now t e)
  | inr (since, e) ↦ elim (Bool-cases (overdue platform now t)) [
    | inr q ↦ on_time platform now t q
    | inl q ↦
        let (s, at, other, read) = assigned_at-seconds platform t since e in
        let both = overdue-since platform now t since e in
        inl (
          since,
          (
            s,
            (status-assigned t.status).0 (ground (arith, both)),
            at,
            other,
            read,
            ground (arith, both),
          ),
          q,
          expire_task-late platform now t since e q,
        )
  ]
]

map-Expires :
    (platform : Platform) (now : ℕ) (ts : List Task)
    → Expires platform now ts
        (map (expire_task platform now) ts)
        (count_if (overdue platform now) ts)
unfolding count_if
map-Expires platform now [] = ends
map-Expires platform now (t ∷ ts) = elim (expire_task-cases platform now t) [
  | inl (since, late, q, e) ↦ rw (q, e) (fails since late (map-Expires platform now ts))
  | inr (never, q, e) ↦
      let n = count_if (overdue platform now) ts in
      let same : n ≡ (if overdue platform now t then 1 else 0) + n = ground (arith, q) in
      rw e (
        subst (Expires platform now (t ∷ ts) (t ∷ map (expire_task platform now) ts)) same
          (keeps never (map-Expires platform now ts)))
]

map-task : (f : Task → Task) (ts : List Task) → map (λ t. task (f t)) ts ≡ map task (map f ts)
map-task f [] = refl
map-task f (t ∷ ts) = ap (λ ls. task (f t) ∷ ls) (map-task f ts)

-- On a readable file the expiry never fails: it sets the tasks that are assigned, at a time that can be
-- read and is more than two hours ago, to failed, with the time and the note of the timeout, keeps
-- every other task as it is, all in their places, and gives the number of those it failed.
pub expire_stale_tasks-exact :
    (platform : Platform) (now : ℕ) (ts : List Task)
    → (us : List Task) × (n : ℕ) × Expires platform now ts us n
      × (expire_stale_tasks platform now (some (map task ts)) ≡ some (n, some (map task us)))
expire_stale_tasks-exact platform now ts = (
  map (expire_task platform now) ts,
  count_if (overdue platform now) ts,
  map-Expires platform now ts,
  expire_stale_tasks-map platform now ts
      ∙ ap (λ ls. some (count_if (overdue platform now) ts, some ls))
          (map-task (expire_task platform now) ts),
)
