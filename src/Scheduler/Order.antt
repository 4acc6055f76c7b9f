-- ===== src/Scheduler/Order.antt =====
-- agents/scheduler.py: the priority queue behaves as three queues, one for each priority.
use hollow_agent_os.Base.{
  ℕ, ◌≤◌, ◌<◌, ◌≡◌, refl, String, List, [], ◌∷◌, ◌++◌, arith, inl, inr, if◌then◌else◌, if_ind,
  Bool-cases, insert_sorted, All, All-map,
}
use hollow_agent_os.Scheduler.PriorityQueue.{Entry, equal, before}

-- The tasks of a priority, first come first.
unfoldable pub lane : ℕ → List Entry → List String
lane p [] = []
lane p (e ∷ es) = let rest = lane p es in if equal e.priority p then e.task_id ∷ rest else rest

-- The heap is in order of priority, and its numbers are older than the next one.
abbrev pub IsSorted : List Entry → Type 0
IsSorted [] = Unit
IsSorted (e ∷ es) = All (λ f. e.priority ≤ f.priority) es × IsSorted es

abbrev pub IsNumbered : ℕ → List Entry → Type 0
IsNumbered n es = All (λ (e : Entry). e.seq < n) es

pub lane-above : (p : ℕ) (es : List Entry) → All (λ (f : Entry). p < f.priority) es → lane p es ≡ []
unfolding lane
lane-above p [] h = refl
lane-above p (e ∷ es) (a, h) = ground (arith, lane-above p es h)

pub insert-All :
    (P : Entry → Type 0) (x : Entry) (es : List Entry)
    → P x
    → All P es
    → All P (insert_sorted before x es)
unfolding insert_sorted
insert-All P x [] p h = (p, tt)
insert-All P x (e ∷ es) p (q, h) =
    if_ind (All P) (before x e) (x ∷ e ∷ es) (e ∷ insert_sorted before x es) (λ b. (p, (q, h)))
      (λ b. (q, insert-All P x es p h))

pub insert-IsSorted :
    (x : Entry) (es : List Entry) → IsSorted es → IsSorted (insert_sorted before x es)
unfolding insert_sorted
insert-IsSorted x [] h = (tt, tt)
insert-IsSorted x (e ∷ es) (a, h) =
    if_ind IsSorted (before x e) (x ∷ e ∷ es) (e ∷ insert_sorted before x es)
      (λ b. (((ground arith), All-map (λ f q. ground arith) es a), (a, h)))
      (λ b.
        (insert-All (λ f. e.priority ≤ f.priority) x es (ground arith) a, insert-IsSorted x es h))

-- A new entry that stands before the first one is more urgent than all.
lane-first :
    (p : ℕ) (x e : Entry) (es : List Entry)
    → IsSorted (e ∷ es)
    → x.priority < e.priority
    → lane p (x ∷ e ∷ es)
      ≡ (if equal x.priority p then lane p (e ∷ es) ++ x.task_id ∷ [] else lane p (e ∷ es))
unfolding lane
lane-first p x e es (a, h) l = elim (Bool-cases (equal x.priority p)) [
  | inl q ↦
      let none_there = lane-above p (e ∷ es) (ground arith, All-map (λ f r. ground arith) es a) in
      rw (q, none_there) refl
  | inr q ↦ rw (q) refl
]

lane-later :
    (p : ℕ) (x e : Entry) (es ls : List Entry)
    → lane p ls ≡ (if equal x.priority p then lane p es ++ x.task_id ∷ [] else lane p es)
    → lane p (e ∷ ls)
      ≡ (if equal x.priority p then lane p (e ∷ es) ++ x.task_id ∷ [] else lane p (e ∷ es))
unfolding lane
lane-later p x e es ls h = ground arith

-- A push goes to the end of the lane of its priority.
pub lane-insert :
    (p : ℕ) (x : Entry) (es : List Entry)
    → IsSorted es
    → IsNumbered x.seq es
    → lane p (insert_sorted before x es)
      ≡ (if equal x.priority p then lane p es ++ x.task_id ∷ [] else lane p es)
unfolding lane insert_sorted
lane-insert p x [] h n = refl
lane-insert p x (e ∷ es) (a, h) (m, n) =
    if_ind
      (λ ls.
        lane p ls
        ≡ (if equal x.priority p then lane p (e ∷ es) ++ x.task_id ∷ [] else lane p (e ∷ es)))
      (before x e) (x ∷ e ∷ es) (e ∷ insert_sorted before x es)
      (λ b. lane-first p x e es (a, h) (ground arith))
      (λ b. lane-later p x e es (insert_sorted before x es) (lane-insert p x es h n))
