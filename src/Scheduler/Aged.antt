-- ===== src/Scheduler/Aged.antt =====
-- agents/scheduler.py: the entries of the queue with the same priority stand in the order of their
-- numbers, which `put` gives out in the order of its calls.
use hollow_agent_os.Base.{
  ℕ, ◌≤◌, ◌<◌, ◌≡◌, ◌⊎◌, inl, inr, subst, String, List, [], ◌∷◌, arith, if_ind, List-cases, true,
  false, ltb, insert_sorted, All, All-map, Bool-cases,
}
use hollow_agent_os.Scheduler.PriorityQueue.{Entry, Queue, before, put, get, hand_out, entry_of}
use hollow_agent_os.Scheduler.Order.{IsNumbered, insert-All}
use hollow_agent_os.Scheduler.Lanes.{IsOrdered, put-IsOrdered, get-IsOrdered}

-- The first entry is more urgent, or as urgent and older.
abbrev pub Precedes : Entry → Entry → Type 0
Precedes e f = (e.priority < f.priority) ⊎ ((e.priority ≡ f.priority) × (e.seq < f.seq))

abbrev pub IsAged : List Entry → Type 0
IsAged [] = Unit
IsAged (e ∷ es) = All (Precedes e) es × IsAged es

-- The queue is in order, and its entries of one priority in the order of their numbers.
pub record IsFair (q : Queue) : Type 0 where
  pub ordered : IsOrdered q
  pub aged : IsAged q.heap

-- A new entry goes before an older one only by its priority.
ahead : (x e f : Entry) → before x e ≡ true → e.seq < x.seq → Precedes e f → Precedes x f
ahead x e f b older (inl p) = inl (ground arith)
ahead x e f b older (inr (p, s)) = inl (ground arith)

behind : (x e : Entry) → before x e ≡ false → e.seq < x.seq → Precedes e x
behind x e b older = elim (Bool-cases (ltb e.priority x.priority)) [
  | inl p ↦ inl (ground arith)
  | inr p ↦ inr (ground arith, older)
]

insert-IsAged :
    (x : Entry) (es : List Entry)
    → IsNumbered x.seq es
    → IsAged es
    → IsAged (insert_sorted before x es)
unfolding insert_sorted
insert-IsAged x [] n h = (tt, tt)
insert-IsAged x (e ∷ es) (older, n) (a, h) =
    if_ind IsAged (before x e) (x ∷ e ∷ es) (e ∷ insert_sorted before x es)
      (λ b. ((inl (ground arith), All-map (λ f p. ahead x e f b older p) es a), (a, h)))
      (λ b. (insert-All (Precedes e) x es (behind x e b older) a, insert-IsAged x es n h))

pub put-IsFair : (q : Queue) (i : String) (p : ℕ) → IsFair q → p ≤ 2 → IsFair (put q i p)
unfolding put entry_of
put-IsFair q i p h b = record {
  ordered = put-IsOrdered q i p h.ordered b;
  aged = insert-IsAged (entry_of q i p) q.heap h.ordered.numbered h.aged;
}

pub hand_out-heap : (q : Queue) (i : String) → (hand_out q i).1.heap ≡ q.heap
unfolding hand_out
hand_out-heap q i = ground arith

get-IsAged : (q : Queue) → IsAged q.heap → IsAged (get q).1.heap
unfolding get
get-IsAged q h = elim (List-cases q.heap) [
  | inl e ↦ rw (e, get) h
  | inr (x, rest, e) ↦
      let below : IsAged (x ∷ rest) = subst IsAged e h in
      rw (e, get, hand_out-heap (record q { heap = rest }) x.task_id) below.1
]

pub get-IsFair : (q : Queue) → IsFair q → IsFair (get q).1
get-IsFair q h = record { ordered = get-IsOrdered q h.ordered; aged = get-IsAged q h.aged }
