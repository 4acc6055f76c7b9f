-- ===== src/Heap/Tokens.antt =====
-- memory/heap.py: the total of the token counts, over any sequence of calls.
use hollow_agent_os.Base.{
  ℕ, ◌≡◌, refl, String, Bool, true, false, not, List, [], ◌∷◌, arith, inl, inr, if◌then◌else◌,
  Bool-cases, leb, ltb,
}
use hollow_agent_os.Dict
use hollow_agent_os.Dict.{Dict}
use hollow_agent_os.Dict.Unique.{Every}
use hollow_agent_os.Event.{emit}
use hollow_agent_os.Heap.Record.{Host, Heap, MemoryObject, count_tokens}
use hollow_agent_os.Heap.{alloc}
use hollow_agent_os.Heap.Swapping.{compress, swap_out}
use hollow_agent_os.Heap.Stats.{sum_where, in_memory, total_tokens, compressible}
use hollow_agent_os.Heap.Manage.{
  pressure_event, compress_all, swap_all, auto_manage, relieve, threshold, bottom_quarter,
  swappable,
}
use hollow_agent_os.Heap.Calls.{
  Call, allocs, reads, frees, collects, compresses, swaps_out, swaps_in, manages, step, run,
}
use hollow_agent_os.Heap.Counted.{
  Recounts, Counted, IsCounted, set_object-IsCounted, read-IsCounted, free-IsCounted, gc-IsCounted,
  compress-IsCounted, swap_out-IsCounted, swap_in-IsCounted,
}

module _ (host : Host) where
  compress_all-IsCounted :
      (ks : List String) (h : Heap) → IsCounted host h → IsCounted host (compress_all host ks h).1
  unfolding compress_all
  compress_all-IsCounted [] h i = i
  compress_all-IsCounted (k ∷ ks) h i =
      compress_all-IsCounted ks (compress host h k).1 (compress-IsCounted host h k i)

  swap_all-IsCounted :
      (ks : List String) (h : Heap) → IsCounted host h → IsCounted host (swap_all ks h).1
  unfolding swap_all
  swap_all-IsCounted [] h i = i
  swap_all-IsCounted (k ∷ ks) h i =
      swap_all-IsCounted ks (swap_out h k).1 (swap_out-IsCounted host h k i)

  auto_manage-IsCounted :
      (h : Heap) (token_budget : ℕ)
      → IsCounted host h
      → IsCounted host (auto_manage host h token_budget).1
  unfolding auto_manage relieve
  auto_manage-IsCounted h b i = elim (Bool-cases (ltb (total_tokens h) (threshold b))) [
    | inl q ↦ rw (q, auto_manage) i
    | inr q ↦
        let h0 = record h { events = emit (pressure_event h b) h.events } in
        let h1 = (relieve host h b).1 in
        let i1 : IsCounted host h1 = compress_all-IsCounted (bottom_quarter compressible h0) h0 i in
        elim (Bool-cases (leb (threshold b) (total_tokens h1))) [
          | inl r ↦ rw (q, auto_manage, r) (swap_all-IsCounted (bottom_quarter swappable h1) h1 i1)
          | inr r ↦ rw (q, auto_manage, r) i1
        ]
  ]

  step-IsCounted : (h : Heap) (c : Call) → IsCounted host h → IsCounted host (step host h c)
  unfolding step alloc
  step-IsCounted h (allocs key content priority ttl eligible now) i =
      set_object-IsCounted host key _ h refl i
  step-IsCounted h (reads key now at) i = read-IsCounted host h key now at i
  step-IsCounted h (frees key) i = free-IsCounted host h key i
  step-IsCounted h (collects now) i = gc-IsCounted host h now i
  step-IsCounted h (compresses key) i = compress-IsCounted host h key i
  step-IsCounted h (swaps_out key) i = swap_out-IsCounted host h key i
  step-IsCounted h (swaps_in key) i = swap_in-IsCounted host h key i
  step-IsCounted h (manages token_budget) i = auto_manage-IsCounted h token_budget i

  run-IsCounted : (h : Heap) (cs : List Call) → IsCounted host h → IsCounted host (run host h cs)
  unfolding run
  run-IsCounted h [] i = i
  run-IsCounted h (c ∷ cs) i = run-IsCounted (step host h c) cs (step-IsCounted h c i)

  one-recount :
      (b : Bool) (n : ℕ) (content : String)
      → Recounts host b n content
      → (if not b then n else 0) ≡ (if not b then count_tokens host content else 0)
  one-recount true n content c = refl
  one-recount false n content c = c

  sum-recount :
      (d : Dict MemoryObject)
      → Every (Counted host) d
      → sum_where in_memory (λ o. o.token_count) (Dict.values d)
        ≡ sum_where in_memory (λ o. count_tokens host o.content) (Dict.values d)
  unfolding sum_where in_memory Dict.values
  sum-recount [] h = refl
  sum-recount ((k, o) ∷ d) (c, h) =
      omega (arith, one-recount o.swapped o.token_count o.content c, sum-recount d h)

  -- After any sequence of allocations, reads, frees, collections, compressions, swaps and automatic
  -- reliefs, on a heap that starts counted, the reported total is the sum of the token counts of the
  -- contents that are in memory.
  pub run-total_tokens :
      (h : Heap) (cs : List Call)
      → IsCounted host h
      → total_tokens (run host h cs)
        ≡ sum_where in_memory
            (λ o. count_tokens host o.content)
            (Dict.values (run host h cs).objects)
  unfolding total_tokens
  run-total_tokens h cs i = sum-recount (run host h cs).objects (run-IsCounted h cs i).1
