-- ===== src/Heap/Protected.antt =====
-- memory/heap.py: the objects that the automatic relief does not touch.
use hollow_agent_os.Base.{
  ℕ, ◌≡◌, String, ◌==◌, Bool, false, some, List, [], ◌∷◌, arith, inl, inr, Bool-cases, Option-cases,
  leb, ltb, contains,
}
use hollow_agent_os.Dict
use hollow_agent_os.Dict.{Dict, get-put}
use hollow_agent_os.Dict.Unique.{IsUnique, put-IsUnique}
use hollow_agent_os.Event.{emit}
use hollow_agent_os.Heap.Record.{
  Host, Heap, MemoryObject, summarize, original_path, swap_path, save,
}
use hollow_agent_os.Heap.{set_object, write_file}
use hollow_agent_os.Heap.Swapping.{
  compress, finish_compress, swap_out, swapped_object, compressed_object,
}
use hollow_agent_os.Heap.Stats.{compressible, total_tokens}
use hollow_agent_os.Heap.Manage.{
  bottom_quarter, swappable, less_used, compress_all, swap_all, auto_manage, relieve, threshold,
  pressure_event,
}
use hollow_agent_os.Heap.Keyed.{
  IsKeyed, put-IsKeyed, get-IsKeyed, Other, filter-Other, All-take, contains-keys, All-sort_by,
}

-- The object is there under its key, and keys are unique.
abbrev Has : String → MemoryObject → Dict MemoryObject → Type 0
Has k obj d = IsUnique d × IsKeyed d × (Dict.get k d ≡ some obj)

module _ (host : Host) (k : String) (obj : MemoryObject) where
  bottom_quarter-other :
      (p : MemoryObject → Bool) (h : Heap)
      → Has k obj h.objects
      → p obj ≡ false
      → contains k (bottom_quarter p h) ≡ false
  unfolding bottom_quarter
  bottom_quarter-other p h (u, i, e) out_p = contains-keys k _ (
      All-take (Other k) _ _
        (All-sort_by (Other k) less_used _ (filter-Other p k obj h.objects u i e out_p)))

  set_object-Has :
      (j : String) (o : MemoryObject) (h : Heap)
      → (j == k) ≡ false
      → o.key ≡ j
      → Has k obj h.objects
      → Has k obj (set_object j o h).objects
  unfolding set_object save
  set_object-Has j o h other keyed (u, i, e) = (
    put-IsUnique j o h.objects u,
    put-IsKeyed j o h.objects keyed i,
    ground (arith, get-put j k o h.objects),
  )

  finish_compress-Has :
      (h : Heap) (j content : String) (tokens : ℕ)
      → (j == k) ≡ false
      → Has k obj h.objects
      → Has k obj (finish_compress host h j content tokens).1.objects
  unfolding finish_compress write_file compressed_object
  finish_compress-Has h j content tokens other has =
      let h1 = write_file (original_path h j) content h in
      elim (Option-cases (Dict.get j h1.objects)) [
        | inl e ↦ rw (e, finish_compress) has
        | inr (o, e) ↦
            rw (e, finish_compress)
              (set_object-Has j
                (compressed_object host (summarize host content) (original_path h j) o) h1 other
                (get-IsKeyed j o h.objects has.1 e) has)
      ]

  compress-Has :
      (h : Heap) (j : String)
      → (j == k) ≡ false
      → Has k obj h.objects
      → Has k obj (compress host h j).1.objects
  unfolding compress
  compress-Has h j other has = elim (Option-cases (Dict.get j h.objects)) [
    | inl e ↦ rw (e, compress) has
    | inr (o, e) ↦ elim (Bool-cases o.compressed) [
      | inl q ↦ rw (e, q, compress) has
      | inr q ↦ rw (e, q, compress) (finish_compress-Has h j o.content o.token_count other has)
    ]
  ]

  swap_out-Has :
      (h : Heap) (j : String)
      → (j == k) ≡ false
      → Has k obj h.objects
      → Has k obj (swap_out h j).1.objects
  unfolding swap_out write_file swapped_object
  swap_out-Has h j other has = elim (Option-cases (Dict.get j h.objects)) [
    | inl e ↦ rw (e, swap_out) has
    | inr (o, e) ↦ elim (Bool-cases o.swapped) [
      | inl q ↦ rw (e, q, swap_out) has
      | inr q ↦
          rw (e, q, swap_out)
            (set_object-Has j (swapped_object (swap_path h j) o)
              (write_file (swap_path h j) o.content h) other (get-IsKeyed j o h.objects has.1 e)
              has)
    ]
  ]

  compress_all-Has :
      (ks : List String) (h : Heap)
      → contains k ks ≡ false
      → Has k obj h.objects
      → Has k obj (compress_all host ks h).1.objects
  unfolding compress_all contains
  compress_all-Has [] h other has = has
  compress_all-Has (j ∷ ks) h other has =
      compress_all-Has ks (compress host h j).1 (ground arith) (compress-Has h j (ground arith) has)

  swap_all-Has :
      (ks : List String) (h : Heap)
      → contains k ks ≡ false
      → Has k obj h.objects
      → Has k obj (swap_all ks h).1.objects
  unfolding swap_all contains
  swap_all-Has [] h other has = has
  swap_all-Has (j ∷ ks) h other has =
      swap_all-Has ks (swap_out h j).1 (ground arith) (swap_out-Has h j (ground arith) has)

  auto_manage-Has :
      (h : Heap) (b : ℕ)
      → compressible obj ≡ false
      → swappable obj ≡ false
      → Has k obj h.objects
      → Has k obj (auto_manage host h b).1.objects
  unfolding auto_manage relieve
  auto_manage-Has h b kept stays has = elim (Bool-cases (ltb (total_tokens h) (threshold b))) [
    | inl q ↦ rw (q, auto_manage) has
    | inr q ↦
        let h0 = record h { events = emit (pressure_event h b) h.events } in
        let h1 = (relieve host h b).1 in
        let has1 : Has k obj h1.objects =
          compress_all-Has (bottom_quarter compressible h0) h0
            (bottom_quarter-other compressible h0 has kept) has in
        elim (Bool-cases (leb (threshold b) (total_tokens h1))) [
          | inl r ↦
              rw (q, auto_manage, r)
                (swap_all-Has (bottom_quarter swappable h1) h1
                  (bottom_quarter-other swappable h1 has1 stays) has1)
          | inr r ↦ rw (q, auto_manage, r) has1
        ]
  ]

-- The automatic relief of a heap whose keys are unique and stand in their objects leaves alone every
-- object that passes neither test of it, whatever the budget: an object that is not eligible for
-- compression or is compressed or swapped already, and that has a priority of 5 or more or is
-- swapped already.
pub auto_manage-protects :
    (host : Host) (h : Heap) (k : String) (obj : MemoryObject) (token_budget : ℕ)
    → IsUnique h.objects
    → IsKeyed h.objects
    → Dict.get k h.objects ≡ some obj
    → compressible obj ≡ false
    → swappable obj ≡ false
    → Dict.get k (auto_manage host h token_budget).1.objects ≡ some obj
auto_manage-protects host h k obj token_budget u i e kept stays =
    (auto_manage-Has host k obj h token_budget kept stays (u, i, e)).2
