-- ===== src/Scheduler/Lanes.antt =====
-- agents/scheduler.py: the abstract view of the priority queue as three lanes, call by call.
use hollow_agent_os.Base.{
  ℕ, zero, suc, ◌+◌, ◌≤◌, ◌<◌, ◌≡◌, refl, subst, String, Bool, Option, none, some, List, [], ◌∷◌,
  ◌++◌, arith, inl, inr, if◌then◌else◌, if_ind, Bool-cases, List-cases, contains, All, All-map,
}
use hollow_agent_os.Scheduler.PriorityQueue.{
  Entry, Queue, equal, put, get, hand_out, entry_of, add_id, remove_id,
}
use hollow_agent_os.Scheduler.Order.{
  lane, IsSorted, IsNumbered, lane-above, insert-All, insert-IsSorted, lane-insert,
}

-- Three queues, with the tasks that wait and those that run.
pub record Lanes : Type 0 where
  pub urgent_lane : List String
  pub normal_lane : List String
  pub background_lane : List String
  pub waiting : List String
  pub active : List String

-- The view of a queue.
unfoldable pub lanes_of : Queue → Lanes
lanes_of q = record {
  urgent_lane = lane 0 q.heap;
  normal_lane = lane 1 q.heap;
  background_lane = lane 2 q.heap;
  waiting = q.pending;
  active = q.running;
}

unfoldable pub append_at : ℕ → String → Lanes → Lanes
append_at zero i l = record l { urgent_lane = l.urgent_lane ++ i ∷ [] }
append_at (suc zero) i l = record l { normal_lane = l.normal_lane ++ i ∷ [] }
append_at (suc (suc n)) i l = record l { background_lane = l.background_lane ++ i ∷ [] }

unfoldable pub enter : Lanes → String → ℕ → Lanes
unfolding append_at
enter l i p = append_at p i (record l { waiting = add_id i l.waiting })

unfoldable pub hand_over : String → Lanes → Option String × Lanes
hand_over i l =
    if contains i l.waiting
    then (some i, record l { waiting = remove_id i l.waiting; active = add_id i l.active })
    else (none, l)

-- The first task of the most urgent lane that has one.
unfoldable pub next_task : Lanes → Option String × Lanes
unfolding hand_over
next_task l = elim l.urgent_lane [
  | i ∷ is ↦ hand_over i (record l { urgent_lane = is })
  | [] ↦ elim l.normal_lane [
    | i ∷ is ↦ hand_over i (record l { normal_lane = is })
    | [] ↦ elim l.background_lane [
      | i ∷ is ↦ hand_over i (record l { background_lane = is })
      | [] ↦ (none, l)
    ]
  ]
]

-- The invariant of the queue.
pub record IsOrdered (q : Queue) : Type 0 where
  pub sorted : IsSorted q.heap
  pub numbered : IsNumbered q.seq q.heap
  pub clamped : All (λ (e : Entry). e.priority ≤ 2) q.heap

-- `append_at` by tests on the priority.
append_at-tests :
    (p : ℕ) (i : String) (l : Lanes)
    → p ≤ 2
    → record l {
      urgent_lane = if equal p 0 then l.urgent_lane ++ i ∷ [] else l.urgent_lane;
      normal_lane = if equal p 1 then l.normal_lane ++ i ∷ [] else l.normal_lane;
      background_lane = if equal p 2 then l.background_lane ++ i ∷ [] else l.background_lane;
    }
      ≡ append_at p i l
unfolding append_at
append_at-tests zero i l h = refl
append_at-tests (suc zero) i l h = refl
append_at-tests (suc (suc zero)) i l h = refl
append_at-tests (suc (suc (suc n))) i l h = absurd (omega arith)

pub put-lanes :
    (q : Queue) (i : String) (p : ℕ)
    → IsOrdered q
    → p ≤ 2
    → lanes_of (put q i p) ≡ enter (lanes_of q) i p
unfolding lanes_of put enter entry_of
put-lanes q i p h b =
    rw
      (
        lane-insert 0 (entry_of q i p) q.heap h.sorted h.numbered,
        lane-insert 1 (entry_of q i p) q.heap h.sorted h.numbered,
        lane-insert 2 (entry_of q i p) q.heap h.sorted h.numbered,
      )
      (append_at-tests p i (record (lanes_of q) { waiting = add_id i q.pending }) b)

pub put-IsOrdered : (q : Queue) (i : String) (p : ℕ) → IsOrdered q → p ≤ 2 → IsOrdered (put q i p)
unfolding put entry_of
put-IsOrdered q i p h b = record {
  sorted = insert-IsSorted (entry_of q i p) q.heap h.sorted;
  numbered =
      insert-All (λ e. e.seq < q.seq + 1) (entry_of q i p) q.heap (omega arith)
        (All-map (λ e l. omega arith) q.heap h.numbered);
  clamped = insert-All (λ e. e.priority ≤ 2) (entry_of q i p) q.heap b h.clamped;
}

pub hand_out-lanes :
    (q : Queue) (i : String)
    → ((hand_out q i).0, lanes_of (hand_out q i).1) ≡ hand_over i (lanes_of q)
unfolding hand_out lanes_of hand_over
hand_out-lanes q i = elim (Bool-cases (contains i q.pending)) [
  | inl b ↦ rw (b, hand_out, hand_over) refl
  | inr b ↦ rw (b, hand_out, hand_over) refl
]

-- `get` of a queue whose heap has the entry of a task with this priority in front.
get_front-lanes :
    (p n s : ℕ) (i : String) (rest : List Entry) (pending running : List String) (closed : Bool)
    → p ≤ 2
    → All (λ (e : Entry). p ≤ e.priority) rest
    → let q : Queue = record {
      heap = record { priority = p; seq = n; task_id = i } ∷ rest;
      seq = s;
      pending = pending;
      running = running;
      closed = closed;
    } in
      ((get q).0, lanes_of (get q).1) ≡ next_task (lanes_of q)
unfolding lanes_of get next_task lane
get_front-lanes zero n s i rest pending running closed b a =
    hand_out-lanes
      (record { heap = rest; seq = s; pending = pending; running = running; closed = closed }) i
get_front-lanes (suc zero) n s i rest pending running closed b a =
    rw (lane-above 0 rest (All-map (λ e l. omega arith) rest a), next_task)
      (hand_out-lanes
        (record { heap = rest; seq = s; pending = pending; running = running; closed = closed }) i)
get_front-lanes (suc (suc zero)) n s i rest pending running closed b a =
    rw
      (
        lane-above 0 rest (All-map (λ e l. omega arith) rest a),
        lane-above 1 rest (All-map (λ e l. omega arith) rest a),
        next_task,
      )
      (hand_out-lanes
        (record { heap = rest; seq = s; pending = pending; running = running; closed = closed }) i)
get_front-lanes (suc (suc (suc m))) n s i rest pending running closed b a = absurd (omega arith)

pub get_heap-lanes :
    (heap : List Entry) (s : ℕ) (pending running : List String) (closed : Bool)
    → IsSorted heap
    → All (λ (e : Entry). e.priority ≤ 2) heap
    → let q : Queue = record {
      heap = heap;
      seq = s;
      pending = pending;
      running = running;
      closed = closed;
    } in
      ((get q).0, lanes_of (get q).1) ≡ next_task (lanes_of q)
unfolding lanes_of get next_task lane
get_heap-lanes [] s pending running closed h c = refl
get_heap-lanes (e ∷ rest) s pending running closed (a, h) (b, c) =
    get_front-lanes e.priority e.seq s e.task_id rest pending running closed b a

hand_out-IsOrdered : (q : Queue) (i : String) → IsOrdered q → IsOrdered (hand_out q i).1
unfolding hand_out
hand_out-IsOrdered q i h =
    if_ind (λ (r : Option String × Queue). IsOrdered r.1) (contains i q.pending) _ _
      (λ b. record { sorted = h.sorted; numbered = h.numbered; clamped = h.clamped }) (λ b. h)

pub get-IsOrdered : (q : Queue) → IsOrdered q → IsOrdered (get q).1
unfolding get
get-IsOrdered q h = elim (List-cases q.heap) [
  | inl e ↦ rw (e, get) h
  | inr (x, rest, e) ↦
      let sorted = subst IsSorted e h.sorted in
      let numbered = subst (IsNumbered q.seq) e h.numbered in
      let clamped = subst (All (λ (f : Entry). f.priority ≤ 2)) e h.clamped in
      rw (e, get)
        (hand_out-IsOrdered (record q { heap = rest }) x.task_id
          (record { sorted = sorted.1; numbered = numbered.1; clamped = clamped.1 }))
]
