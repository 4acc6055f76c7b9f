-- ===== src/Heap.antt =====
-- memory/heap.py: the working memory of one agent: allocation with a time to live, garbage
-- collection, compression by a summary, and swapping to disk. A clock reading is an argument.
pub mod Record
pub mod Swapping
pub mod Stats
pub mod Manage
pub mod Swap
pub mod Calls
pub mod Counted
pub mod Tokens
pub mod Collect
pub mod Keyed
pub mod Protected
mod Examples
use Prim.Native.Char.{code}
use Prim.Native.String.{◌++◌ as join}
use hollow_agent_os.Base.{
  leb, ℕ, ◌+◌, min, max, String, Bool, true, false, not, ◌&&◌, ◌||◌, Option, none, some, List, [],
  ◌∷◌, ◌++◌, is_some, ltb, if◌then◌else◌, length, count_if, filter,
}
use hollow_agent_os.Dict
use hollow_agent_os.Dict.{Dict}
use hollow_agent_os.Event.{Event, Json, object_of, text, texts, number, percent, emit}
use hollow_agent_os.Heap.Record.{
  Host, Heap, Disk, MemoryObject, count_tokens, is_past, swap_path, original_path, summarize, save,
}

abbrev equal : ℕ → ℕ → Bool
equal a b = leb a b && leb b a

-- `self._objects[key] = obj` and the save.
unfoldable pub set_object : String → MemoryObject → Heap → Heap
unfolding save
set_object key obj h = save (record h { objects = Dict.put key obj h.objects })

-- `Path.write_text` on a system that ends lines with `\n`, where the path names a file that can be
-- written, as those of the heap directory do for a key without `/`.
unfoldable pub write_file : String → String → Heap → Heap
write_file path content h = record h {
  disk = record h.disk { files = Dict.put path content h.disk.files };
}

-- `Path(obj.disk_path).unlink(missing_ok=True)`, if there is a path.
unfoldable pub unlink : Option String → Heap → Heap
unlink none h = h
unlink (some path) h = record h { disk = record h.disk { files = Dict.remove path h.disk.files } }

-- The line ends that Python's text mode gives: `\r\n` and a lone `\r` are read as `\n`. The test says
-- whether the character before was a `\r`, which has given its `\n` already.
unfoldable pub newlines_from : Bool → String → String
newlines_from after_return String.[] = ""
newlines_from after_return (String.◌∷◌ c s) =
    let fed = newlines_from true s in
    let rest = newlines_from false s in
    if equal (code c) 13
    then join "\n" fed
    else if equal (code c) 10 && after_return
    then rest
    else String.◌∷◌ c rest

abbrev pub universal_newlines : String → String
universal_newlines = newlines_from false

-- `Path(obj.disk_path).read_text()` where the path is set and exists.
unfoldable pub read_file : Option String → Heap → Option String
unfolding newlines_from
read_file none h = none
read_file (some path) h = elim (Dict.get path h.disk.files) [
  | none ↦ none
  | some written ↦ some (universal_newlines written)
]

-- `WorkingMemoryHeap.alloc`; a negative priority is clamped to 0 in the source.
unfoldable pub alloc : Host → Heap → String → String → ℕ → Option ℕ → Bool → ℕ → MemoryObject × Heap
unfolding set_object count_tokens
alloc host h key content priority ttl compression_eligible now =
    let obj : MemoryObject = record {
      key = key;
      content = content;
      token_count = count_tokens host content;
      priority = max 0 (min 10 priority);
      ttl = ttl;
      compression_eligible = compression_eligible;
      compressed = false;
      swapped = false;
      created_at = now;
      last_read_at = now;
      disk_path = none;
    } in
    (obj, set_object key obj h)

-- The object with its content back in memory.
unfoldable pub restored : Host → String → MemoryObject → MemoryObject
unfolding count_tokens
restored host content obj = record obj {
  content = content;
  swapped = false;
  token_count = count_tokens host content;
}

-- The last two lines of `read`: they do not save.
unfoldable pub touch : String → ℕ → MemoryObject → Heap → Option String × Heap
touch key at obj h = (
  some obj.content,
  record h { objects = Dict.put key (record obj { last_read_at = at }) h.objects },
)

-- The automatic swap-in of `read`.
unfoldable pub restore_and_touch : Host → String → ℕ → MemoryObject → Heap → Option String × Heap
unfolding set_object restored read_file touch
restore_and_touch host key at obj h = elim (read_file obj.disk_path h) [
  | none ↦ (none, h)
  | some content ↦ let obj' = restored host content obj in touch key at obj' (set_object key obj' h)
]

-- `WorkingMemoryHeap.read` with its two clock readings; `none` is the KeyError.
unfoldable pub read : Host → Heap → String → ℕ → ℕ → Option String × Heap
unfolding save restore_and_touch is_past touch
read host h key now at = elim (Dict.get key h.objects) [
  | none ↦ (none, h)
  | some obj ↦
      if is_past now obj.ttl
      then (none, save (record h { objects = Dict.remove key h.objects }))
      else if obj.swapped
      then restore_and_touch host key at obj h
      else touch key at obj h
]

-- `WorkingMemoryHeap.free`.
unfoldable pub free : Heap → String → Bool × Heap
unfolding save unlink
free h key = elim (Dict.get key h.objects) [
  | none ↦ (false, h)
  | some obj ↦
      (true, save (unlink obj.disk_path (record h { objects = Dict.remove key h.objects })))
]

-- `[key for key, obj in self._objects.items() if obj.ttl and now > obj.ttl]`.
unfoldable pub expired_keys : ℕ → Dict MemoryObject → List String
unfolding is_past
expired_keys now [] = []
expired_keys now ((k, obj) ∷ d) =
    let rest = expired_keys now d in if is_past now obj.ttl then k ∷ rest else rest

-- The loop of `gc`: each object is popped, its tokens are added up, its file is deleted.
unfoldable pub collect : List String → ℕ → Heap → ℕ × Heap
unfolding unlink
collect [] freed h = (freed, h)
collect (k ∷ ks) freed h = elim (Dict.get k h.objects) [
  | none ↦ collect ks freed h
  | some obj ↦
      collect ks (freed + obj.token_count)
        (unlink obj.disk_path (record h { objects = Dict.remove k h.objects }))
]

-- `if freed_keys: self._save()`.
unfoldable pub save_if : List String → Heap → Heap
unfolding save
save_if [] h = h
save_if (k ∷ ks) h = save h

-- `WorkingMemoryHeap.gc`.
unfoldable pub gc : Heap → ℕ → (List String × ℕ) × Heap
unfolding save_if collect expired_keys
gc h now =
    let freed_keys = expired_keys now h.objects in
    let (freed_tokens, h') = collect freed_keys 0 h in
    let saved = save_if freed_keys h' in
    (
      (freed_keys, freed_tokens),
      record saved {
        events =
            emit
              (record {
                event_type = "memory.gc_complete";
                source_id = h.agent_id;
                payload = object_of (
                    ("agent_id", text h.agent_id)
                    ∷ ("freed_keys", texts freed_keys)
                    ∷ ("freed_tokens", number freed_tokens)
                    ∷ []);
              })
              saved.events;
      },
    )
