-- ===== src/Scheduler/Served.antt =====
-- agents/scheduler.py: sequences of calls of the priority queue, on the queue and on its lanes.
use hollow_agent_os.Base.{ℕ, ◌≤◌, ◌≡◌, refl, ap, ◌∙◌, String, Option, none, List, [], ◌∷◌, All}
use hollow_agent_os.Scheduler.PriorityQueue.{Queue, put, get, mark_done, remove_id}
use hollow_agent_os.Scheduler.Lanes.{
  Lanes, lanes_of, enter, next_task, IsOrdered, put-lanes, put-IsOrdered, get_heap-lanes,
  get-IsOrdered,
}

-- The calls of submitters and workers.
pub data Op : Type 0 where
  puts : String → (priority : ℕ) → Op
  takes : Op
  finishes : String → Op

abbrev IsClamped : Op → Type 0
IsClamped (puts i p) = p ≤ 2
IsClamped _ = Unit

unfoldable pub step : Queue → Op → Option String × Queue
step q (puts i p) = (none, put q i p)
step q takes = get q
step q (finishes i) = (none, mark_done q i)

unfoldable pub step_lanes : Lanes → Op → Option String × Lanes
step_lanes l (puts i p) = (none, enter l i p)
step_lanes l takes = next_task l
step_lanes l (finishes i) = (none, record l { active = remove_id i l.active })

-- The answers of a sequence of calls, and the state after it.
unfoldable pub run {ℓ} :
    {S : Type ℓ} → (S → Op → Option String × S) → S → List Op → List (Option String) × S
run step s [] = ([], s)
run step s (o ∷ ops) =
    let (a, s1) = step s o in let (answers, s2) = run step s1 ops in (a ∷ answers, s2)

step-lanes :
    (q : Queue) (o : Op)
    → IsOrdered q
    → IsClamped o
    → ((step q o).0, lanes_of (step q o).1) ≡ step_lanes (lanes_of q) o
unfolding step step_lanes lanes_of mark_done
step-lanes q (puts i p) h c = ap (λ l. (none, l)) (put-lanes q i p h c)
step-lanes q takes h c = get_heap-lanes q.heap q.seq q.pending q.running q.closed h.sorted h.clamped
step-lanes q (finishes i) h c = refl

step-IsOrdered : (q : Queue) (o : Op) → IsOrdered q → IsClamped o → IsOrdered (step q o).1
unfolding step mark_done
step-IsOrdered q (puts i p) h c = put-IsOrdered q i p h c
step-IsOrdered q takes h c = get-IsOrdered q h
step-IsOrdered q (finishes i) h c = record {
  sorted = h.sorted;
  numbered = h.numbered;
  clamped = h.clamped;
}

-- From a queue in order, with priorities from 0 to 2, every sequence of put, get and mark_done gives
-- the same answers as on three first-come-first-served lanes, of which get serves the most urgent one
-- that has a task; afterwards the lanes, the pending and the running tasks agree.
pub run-lanes :
    (q : Queue) (ops : List Op)
    → IsOrdered q
    → All IsClamped ops
    → ((run step q ops).0, lanes_of (run step q ops).1) ≡ run step_lanes (lanes_of q) ops
unfolding run
run-lanes q [] h c = refl
run-lanes q (o ∷ ops) h (c, cs) =
    let e = step-lanes q o h c in
    let rest = run-lanes (step q o).1 ops (step-IsOrdered q o h c) cs in
    ap (λ (r : List (Option String) × Lanes). ((step q o).0 ∷ r.0, r.1)) rest
    ∙ ap
        (λ (r : Option String × Lanes).
          (r.0 ∷ (run step_lanes r.1 ops).0, (run step_lanes r.1 ops).1))
        e
