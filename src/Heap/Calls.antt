-- ===== src/Heap/Calls.antt =====
-- memory/heap.py: the calls of a heap, and a sequence of them.
use hollow_agent_os.Base.{ℕ, String, Bool, Option, List, [], ◌∷◌}
use hollow_agent_os.Heap.Record.{Host, Heap}
use hollow_agent_os.Heap.{alloc, read, free, gc}
use hollow_agent_os.Heap.Swapping.{compress, swap_out, swap_in}
use hollow_agent_os.Heap.Manage.{auto_manage}

pub data Call : Type 0 where
  allocs : (key content : String) (priority : ℕ) (ttl : Option ℕ) (eligible : Bool) (now : ℕ) → Call
  reads : (key : String) (now at : ℕ) → Call
  frees : (key : String) → Call
  collects : (now : ℕ) → Call
  compresses : (key : String) → Call
  swaps_out : (key : String) → Call
  swaps_in : (key : String) → Call
  manages : (token_budget : ℕ) → Call

unfoldable pub step : Host → Heap → Call → Heap
step host h (allocs key content priority ttl eligible now) =
    (alloc host h key content priority ttl eligible now).1
step host h (reads key now at) = (read host h key now at).1
step host h (frees key) = (free h key).1
step host h (collects now) = (gc h now).1
step host h (compresses key) = (compress host h key).1
step host h (swaps_out key) = (swap_out h key).1
step host h (swaps_in key) = (swap_in host h key).1
step host h (manages token_budget) = (auto_manage host h token_budget).1

unfoldable pub run : Host → Heap → List Call → Heap
run host h [] = h
run host h (c ∷ cs) = run host (step host h c) cs
