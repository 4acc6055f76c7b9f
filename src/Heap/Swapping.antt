-- ===== src/Heap/Swapping.antt =====
-- memory/heap.py: compression of a content into a summary, and swapping to disk.
use hollow_agent_os.Base.{
  ℕ, max, String, Bool, true, false, not, none, some, [], ◌∷◌, if◌then◌else◌,
}
use hollow_agent_os.Dict
use hollow_agent_os.Event.{Event, object_of, text, number, percent, emit}
use hollow_agent_os.Heap.Record.{
  Host, Heap, MemoryObject, count_tokens, swap_path, original_path, summarize,
}
use hollow_agent_os.Heap.{set_object, write_file, read_file, restored}

-- The answer of `compress`; the ratio is `compressed_tokens / ratio_base`, 1.0 for `already`.
pub data Compression : Type 0 where
  missing : Compression
  already : ℕ → Compression
  done : (original_tokens compressed_tokens ratio_base : ℕ) → Compression

-- The object after its content was replaced by the summary.
unfoldable pub compressed_object : Host → String → String → MemoryObject → MemoryObject
unfolding count_tokens
compressed_object host summary path obj = record obj {
  content = summary;
  token_count = count_tokens host summary;
  compressed = true;
  disk_path = some path;
}

-- `compress` from the second lock on: the object may have been freed in between. The original is on
-- disk by then, whatever the lookup gives.
unfoldable pub finish_compress : Host → Heap → String → String → ℕ → Compression × Heap
unfolding set_object write_file compressed_object original_path summarize count_tokens
finish_compress host h key original_content original_tokens =
    let summary = summarize host original_content in
    let h1 = write_file (original_path h key) original_content h in
    elim (Dict.get key h1.objects) [
      | none ↦ (missing, h1)
      | some obj ↦
          let h2 = set_object key (compressed_object host summary (original_path h key) obj) h1 in
          (
            done original_tokens (count_tokens host summary) (max 1 original_tokens),
            record h2 {
              events =
                  emit
                    (record {
                      event_type = "memory.compressed";
                      source_id = h.agent_id;
                      payload = object_of (
                          ("agent_id", text h.agent_id)
                          ∷ ("key", text key)
                          ∷ ("original_tokens", number original_tokens)
                          ∷ ("compressed_tokens", number (count_tokens host summary))
                          ∷ ("ratio", percent (count_tokens host summary) (max 1 original_tokens))
                          ∷ []);
                    })
                    h2.events;
            },
          )
    ]

-- `WorkingMemoryHeap.compress` where nothing runs between its two locks.
unfoldable pub compress : Host → Heap → String → Compression × Heap
unfolding finish_compress
compress host h key = elim (Dict.get key h.objects) [
  | none ↦ (missing, h)
  | some obj ↦
      if obj.compressed
      then (already obj.token_count, h)
      else finish_compress host h key obj.content obj.token_count
]

abbrev swapped_event : String → String → String → Event
swapped_event agent_id key direction = record {
  event_type = "memory.swapped";
  source_id = agent_id;
  payload =
      object_of
        (("agent_id", text agent_id) ∷ ("key", text key) ∷ ("direction", text direction) ∷ []);
}

-- The object after its content was moved to the file.
unfoldable pub swapped_object : String → MemoryObject → MemoryObject
swapped_object path obj = record obj {
  disk_path = some path;
  content = "";
  token_count = 0;
  swapped = true;
}

-- `WorkingMemoryHeap.swap_out`.
unfoldable pub swap_out : Heap → String → Bool × Heap
unfolding set_object write_file swapped_object swap_path
swap_out h key = elim (Dict.get key h.objects) [
  | none ↦ (false, h)
  | some obj ↦
      if obj.swapped
      then (false, h)
      else let path = swap_path h key in
        let h1 = set_object key (swapped_object path obj) (write_file path obj.content h) in
        (true, record h1 { events = emit (swapped_event h.agent_id key "out") h1.events })
]

-- `WorkingMemoryHeap.swap_in`.
unfoldable pub swap_in : Host → Heap → String → Bool × Heap
unfolding set_object restored read_file
swap_in host h key = elim (Dict.get key h.objects) [
  | none ↦ (false, h)
  | some obj ↦ if not obj.swapped then (true, h) else elim (read_file obj.disk_path h) [
    | none ↦ (false, h)
    | some content ↦
        let h1 = set_object key (restored host content obj) h in
        (true, record h1 { events = emit (swapped_event h.agent_id key "in") h1.events })
  ]
]
