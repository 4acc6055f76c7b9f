-- ===== src/Heap/Stats.antt =====
-- memory/heap.py: the statistics of a heap.
use hollow_agent_os.Base.{
  ℕ, ◌+◌, max, String, Bool, not, ◌&&◌, none, some, List, [], ◌∷◌, if◌then◌else◌, length, count_if,
}
use hollow_agent_os.Dict
use hollow_agent_os.Heap.Record.{Host, Heap, MemoryObject, count_tokens}
use hollow_agent_os.Heap.{read_file}

-- `sum(f(o) for o in objects if p(o))`.
unfoldable pub sum_where : (MemoryObject → Bool) → (MemoryObject → ℕ) → List MemoryObject → ℕ
sum_where p f [] = 0
sum_where p f (o ∷ os) = (if p o then f o else 0) + sum_where p f os

unfoldable pub in_memory : MemoryObject → Bool
in_memory o = not o.swapped

unfoldable pub compressible : MemoryObject → Bool
compressible o = o.compression_eligible && not o.compressed && not o.swapped

unfoldable pub total_tokens : Heap → ℕ
unfolding sum_where in_memory
total_tokens h = sum_where in_memory (λ o. o.token_count) (Dict.values h.objects)

-- The tokens of the file of a swapped object, 0 where the file is missing.
unfoldable pub file_tokens : Host → Heap → MemoryObject → ℕ
unfolding read_file count_tokens
file_tokens host h o = elim (read_file o.disk_path h) [
  | none ↦ 0
  | some content ↦ count_tokens host content
]

-- The dict of `heap_stats`; the score is `swapped_count / score_base`, before it is rounded.
pub record Stats : Type 0 where
  pub agent_id : String
  pub object_count : ℕ
  pub total_tokens : ℕ
  pub compressible_tokens : ℕ
  pub swapped_count : ℕ
  pub swapped_tokens : ℕ
  pub score_base : ℕ

-- `WorkingMemoryHeap.heap_stats`.
unfoldable pub heap_stats : Host → Heap → Stats
unfolding total_tokens sum_where compressible file_tokens
heap_stats host h = record {
  agent_id = h.agent_id;
  object_count = length h.objects;
  total_tokens = total_tokens h;
  compressible_tokens = sum_where compressible (λ o. o.token_count) (Dict.values h.objects);
  swapped_count = count_if (λ o. o.swapped) (Dict.values h.objects);
  swapped_tokens = sum_where (λ o. o.swapped) (file_tokens host h) (Dict.values h.objects);
  score_base = max 1 (length h.objects);
}
