-- ===== src/Heap/Manage.antt =====
-- memory/heap.py: relief of a heap that is close to its token budget, and the registry of heaps.
use hollow_agent_os.Base.{
  ℕ, ◌*◌, ◌/◌, max, String, Bool, true, false, not, ◌&&◌, Option, none, some, List, [], ◌∷◌,
  if◌then◌else◌, length, take, filter, map, sort_by, ltb, leb, get_or,
}
use Prim.Native.Nat.{Ordering, compare}
use hollow_agent_os.Dict
use hollow_agent_os.Dict.{Dict}
use hollow_agent_os.Event.{Event, object_of, text, number, emit}
use hollow_agent_os.Registry.Record.{Registry}
use hollow_agent_os.Heap.Record.{Host, Heap, Disk, MemoryObject, load}
use hollow_agent_os.Heap.Swapping.{missing, compress, swap_out}
use hollow_agent_os.Heap.Stats.{compressible, total_tokens}

-- The sort key `(priority, last_read_at)`.
unfoldable pub less_used : MemoryObject → MemoryObject → Bool
less_used o p = elim (compare o.priority p.priority) [
  | Ordering.lt ↦ true
  | Ordering.eq ↦ leb o.last_read_at p.last_read_at
  | Ordering.gt ↦ false
]

-- The keys of the first quarter, of one object at least, of those that pass the test.
unfoldable pub bottom_quarter : (MemoryObject → Bool) → Heap → List String
unfolding less_used
bottom_quarter p h =
    let candidates = sort_by less_used (filter p (Dict.values h.objects)) in
    map (λ o. o.key) (take (max 1 (length candidates / 4)) candidates)

unfoldable pub swappable : MemoryObject → Bool
swappable o = not o.swapped && ltb o.priority 5

-- The two loops: the keys that `compress` does not raise on, and those that are swapped out.
unfoldable pub compress_all : Host → List String → Heap → List String × Heap
unfolding compress
compress_all host [] h = ([], h)
compress_all host (k ∷ ks) h =
    let (answer, h1) = compress host h k in
    let (rest, h2) = compress_all host ks h1 in (elim answer [ missing ↦ rest | _ ↦ k ∷ rest ], h2)

unfoldable pub swap_all : List String → Heap → List String × Heap
unfolding swap_out
swap_all [] h = ([], h)
swap_all (k ∷ ks) h =
    let (moved, h1) = swap_out h k in
    let (rest, h2) = swap_all ks h1 in (if moved then k ∷ rest else rest, h2)

-- The dict that `auto_manage` returns.
pub data Relief : Type 0 where
  idle : (tokens : ℕ) → Relief
  relieved : (compressed_keys swapped_keys : List String) (before after : ℕ) → Relief

-- `int(token_budget * 0.80)`.
unfoldable pub threshold : ℕ → ℕ
threshold token_budget = token_budget * 4 / 5

unfoldable pub pressure_event : Heap → ℕ → Event
pressure_event h token_budget = record {
  event_type = "memory.pressure";
  source_id = h.agent_id;
  payload = object_of (
      ("agent_id", text h.agent_id)
      ∷ ("total_tokens", number (total_tokens h))
      ∷ ("budget", number token_budget)
      ∷ []);
}

-- The part of `auto_manage` that compresses.
unfoldable pub relieve : Host → Heap → ℕ → List String × Heap
unfolding compress_all bottom_quarter compressible pressure_event
relieve host h token_budget =
    let h0 = record h { events = emit (pressure_event h token_budget) h.events } in
    compress_all host (bottom_quarter compressible h0) h0

-- `WorkingMemoryHeap.auto_manage`.
unfoldable pub auto_manage : Host → Heap → ℕ → Relief × Heap
unfolding threshold relieve swap_all bottom_quarter swappable total_tokens
auto_manage host h token_budget =
    if ltb (total_tokens h) (threshold token_budget)
    then (idle (total_tokens h), h)
    else let (compressed_keys, h1) = relieve host h token_budget in
      let (swapped_keys, h2) =
        if leb (threshold token_budget) (total_tokens h1)
        then swap_all (bottom_quarter swappable h1) h1
        else ([], h1) in
      (relieved compressed_keys swapped_keys (total_tokens h) (total_tokens h2), h2)

-- `HeapRegistry`: the heaps that are open, and the directories of all of them, with the path of each.
pub record Heaps : Type 0 where
  pub heaps : Dict Heap
  pub disks : Dict Disk
  pub heap_dir : String → String
  pub event_bus : Option (List Event)

-- `HeapRegistry.get`.
unfoldable pub get : Heaps → String → Heap × Heaps
unfolding load
get r agent_id = elim (Dict.get agent_id r.heaps) [
  | some h ↦ (h, r)
  | none ↦
      let disk : Disk = get_or (Dict.get agent_id r.disks) (record { index = none; files = [] }) in
      let h = load agent_id (r.heap_dir agent_id) disk r.event_bus in
      (h, record r { heaps = Dict.put agent_id h r.heaps })
]

-- The test of `auto_manage_all` on one agent: the budget to relieve the heap for, if it is due.
unfoldable pub due : Registry → String → Option ℕ
due registry agent_id = elim (Dict.get agent_id registry.agents) [
  | none ↦ none
  | some agent ↦
      let limit = get_or (Dict.get "tokens_in" agent.budget) 0 in
      let used = get_or (Dict.get "tokens_in" agent.usage) 0 in
      if leb limit 0 then none else if leb (threshold limit) used then some limit else none
]

unfoldable pub manage_one : Host → Registry → String → Heap → Heap
unfolding due auto_manage
manage_one host registry agent_id h = elim (due registry agent_id) [
  | none ↦ h
  | some limit ↦ (auto_manage host h limit).1
]

-- `HeapRegistry.auto_manage_all`.
unfoldable pub manage_heaps : Host → Registry → Dict Heap → Dict Heap
unfolding manage_one
manage_heaps host registry [] = []
manage_heaps host registry ((i, h) ∷ d) =
    (i, manage_one host registry i h) ∷ manage_heaps host registry d

unfoldable pub auto_manage_all : Host → Registry → Heaps → Heaps
unfolding manage_heaps
auto_manage_all host registry r = record r { heaps = manage_heaps host registry r.heaps }
