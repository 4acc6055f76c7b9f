-- ===== src/Heap/Record.antt =====
-- memory/heap.py: the memory objects, the token estimate, and the summary of a content.
use Prim.Native.String.{◌++◌ as join}
use hollow_agent_os.Base.{
  ℕ, ◌*◌, ◌/◌, max, String, Bool, false, ◌&&◌, ◌==◌, Option, none, some, List, [], ◌∷◌, length,
  take, ltb, if◌then◌else◌,
}
use hollow_agent_os.Dict.{Dict}
use hollow_agent_os.Event.{Event}

-- What the heap calls: `str.split`, a slice of a text, and the chat endpoint, whose answer is the
-- stripped `response`, or `none` when the request raises.
pub record Host : Type 0 where
  pub split : String → List String
  pub prefix : ℕ → String → String
  pub chat : String → Option String

-- `_count_tokens`: `int(words * 1.3)` and at least 1.
unfoldable pub count_tokens : Host → String → ℕ
count_tokens host text = max 1 (length (host.split text) * 13 / 10)

pub record MemoryObject : Type 0 where
  pub key : String
  pub content : String
  pub token_count : ℕ
  pub priority : ℕ
  pub ttl : Option ℕ
  pub compression_eligible : Bool
  pub compressed : Bool
  pub swapped : Bool
  pub created_at : ℕ
  pub last_read_at : ℕ
  pub disk_path : Option String

-- The heap directory: the index file, and the other files by path.
pub record Disk : Type 0 where
  pub index : Option (Dict MemoryObject)
  pub files : Dict String

pub record Heap : Type 0 where
  pub agent_id : String
  pub heap_dir : String
  pub objects : Dict MemoryObject
  pub disk : Disk
  pub events : Option (List Event)

-- `obj.ttl and now > obj.ttl`: a `ttl` of 0 is as none.
unfoldable pub is_past : ℕ → Option ℕ → Bool
is_past now none = false
is_past now (some t) = ltb 0 t && ltb t now

unfoldable pub swap_path : Heap → String → String
swap_path h key = join h.heap_dir (join "/" (join key ".swap"))

unfoldable pub original_path : Heap → String → String
original_path h key = join h.heap_dir (join "/" (join key ".original.txt"))

-- `" ".join(words)`.
unfoldable pub spaced : List String → String
spaced [] = ""
spaced (x ∷ []) = x
spaced (x ∷ y ∷ ys) = join x (join " " (spaced (y ∷ ys)))

unfoldable pub truncated : Host → String → String
unfolding spaced
truncated host content =
    let words = host.split content in
    join (spaced (take (max 50 (length words / 5)) words)) " [truncated]"

abbrev prompt : String
prompt =
    "Summarize the following content concisely, preserving all key facts, decisions, numbers, and entities. Output only the summary, no preamble.\n\n"

-- `WorkingMemoryHeap._summarize`.
unfoldable pub summarize : Host → String → String
unfolding truncated
summarize host content = elim (host.chat (join prompt (host.prefix 8000 content))) [
  | none ↦ truncated host content
  | some summary ↦ if summary == "" then truncated host content else summary
]

-- `_save` and `_load`.
unfoldable pub save : Heap → Heap
save h = record h { disk = record h.disk { index = some h.objects } }

unfoldable pub load : String → String → Disk → Option (List Event) → Heap
load agent_id heap_dir disk events = record {
  agent_id = agent_id;
  heap_dir = heap_dir;
  objects = elim disk.index [ none ↦ [] | some objects ↦ objects ];
  disk = disk;
  events = events;
}
