-- ===== src/Heap/Examples.antt =====
-- The theorems on the heap at a concrete heap.
use hollow_agent_os.Base.{◌≡◌, refl, true, false, none, some, List, [], ◌∷◌}
use hollow_agent_os.Dict
use hollow_agent_os.Heap.Record.{Host, Heap, MemoryObject, count_tokens, swap_path, is_past}
use hollow_agent_os.Heap.{read, newlines_from}
use hollow_agent_os.Heap.Swapping.{compress, swap_out}
use hollow_agent_os.Heap.Stats.{sum_where, in_memory, total_tokens}
use hollow_agent_os.Heap.Stats.{compressible}
use hollow_agent_os.Heap.Manage.{auto_manage, swappable}
use hollow_agent_os.Heap.Protected.{auto_manage-protects}
use hollow_agent_os.Heap.Calls.{Call, allocs, reads, collects, compresses, swaps_out, manages, run}
use hollow_agent_os.Heap.Counted.{IsCounted}
use hollow_agent_os.Heap.Tokens.{run-total_tokens}
use hollow_agent_os.Heap.Swap.{swap_out-read, compress_swapped-loses}

abbrev host : Host
host = record { split = λ s. s ∷ []; prefix = λ n s. s; chat = λ s. some "short" }

abbrev note : MemoryObject
note = record {
  key = "note";
  content = "he\r\nllo";
  token_count = 1;
  priority = 5;
  ttl = some 50;
  compression_eligible = true;
  compressed = false;
  swapped = false;
  created_at = 10;
  last_read_at = 10;
  disk_path = none;
}

abbrev heap : Heap
heap = record {
  agent_id = "scout";
  heap_dir = "/heaps/scout";
  objects = ("note", note) ∷ ("plan", record note { key = "plan"; ttl = none }) ∷ [];
  disk = record { index = none; files = [] };
  events = none;
}

heap-IsCounted : IsCounted host heap
unfolding Dict.has_key Dict.get count_tokens
heap-IsCounted = ((refl, (refl, tt)), (refl, (refl, tt)))

swap_out-read_example :
    let (content, h') = read host (swap_out heap "note").1 "note" 20 21 in
    (content ≡ some "he\nllo")
    × (Dict.get "note" h'.objects
        ≡ some (record note {
          content = "he\nllo";
          token_count = count_tokens host "he\nllo";
          swapped = false;
          last_read_at = 21;
          disk_path = some (swap_path heap "note");
        }))
unfolding Dict.get is_past newlines_from
swap_out-read_example = swap_out-read host heap "note" note 20 21 refl refl refl

compress_swapped-loses_example :
    (read host (compress host (swap_out heap "note").1 "note").1 "note" 20 21).0 ≡ some ""
unfolding Dict.get is_past
compress_swapped-loses_example =
    compress_swapped-loses host heap "note" note 20 21 refl refl refl refl

abbrev calls : List Call
calls =
    allocs "log" "words" 3 none true 12
    ∷ swaps_out "note"
    ∷ compresses "plan"
    ∷ reads "note" 20 21
    ∷ collects 60
    ∷ manages 2
    ∷ []

run-total_tokens_example :
    total_tokens (run host heap calls)
    ≡ sum_where in_memory
        (λ o. count_tokens host o.content)
        (Dict.values (run host heap calls).objects)
run-total_tokens_example = run-total_tokens host heap calls heap-IsCounted

abbrev guarded : MemoryObject
guarded = record note { compression_eligible = false }

abbrev full : Heap
full = record heap {
  objects = ("note", guarded) ∷ ("plan", record note { key = "plan"; priority = 1 }) ∷ [];
}

auto_manage-protects_example : Dict.get "note" (auto_manage host full 2).1.objects ≡ some guarded
unfolding Dict.has_key Dict.get compressible swappable
auto_manage-protects_example =
    auto_manage-protects host full "note" guarded 2 (refl, (refl, tt)) (refl, (refl, tt)) refl refl
      refl
