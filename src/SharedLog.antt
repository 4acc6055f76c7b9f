-- ===== src/SharedLog.antt =====
-- agents/shared_log.py: the shared log, a file of JSON lines that is trimmed when it grows too large.
-- A clock reading is an argument; the cut of a message at 4000 characters is Python's slicing of a
-- text, a parameter.
pub mod Size
mod Examples
use hollow_agent_os.Base.{
  ℕ, zero, suc, ◌+◌, ◌-◌, ◌*◌, String, ◌==◌, Bool, true, false, not, ◌&&◌, Option, none, some, List,
  [], ◌∷◌, ◌++◌, ltb, leb, if◌then◌else◌, length, contains,
}

pub record LogEntry : Type 0 where
  pub ts : ℕ
  pub agent_id : String
  pub message : String
  pub tags : List String

-- A line of the file: an entry, or a text that is no JSON document.
pub data Line : Type 0 where
  entry : LogEntry → Line
  broken : String → Line

-- `SharedLog`: the file, which may not exist yet, and `MAX_ENTRIES`.
pub record SharedLog : Type 0 where
  pub max_entries : ℕ
  pub file : Option (List Line)

abbrev pub drop {ℓ} : {A : Type ℓ} → ℕ → List A → List A
drop zero xs = xs
drop (suc n) [] = []
drop (suc n) (x ∷ xs) = drop n xs

-- `xs[-n:]`: for 0 it is the whole list.
unfoldable pub last {ℓ} : {A : Type ℓ} → ℕ → List A → List A
last zero xs = xs
last (suc n) xs = drop (length xs - suc n) xs

abbrev pub lines_of : Option (List Line) → List Line
lines_of none = []
lines_of (some ls) = ls

-- `SharedLog._maybe_trim`, for the lines of the file: a tenth more than the limit is tolerated.
unfoldable pub maybe_trim : ℕ → List Line → List Line
unfolding last
maybe_trim max_entries ls =
    if ltb (max_entries * 11) (length ls * 10) then last max_entries ls else ls

-- `SharedLog.write`.
unfoldable pub write : (String → String) → SharedLog → String → String → List String → ℕ → SharedLog
unfolding maybe_trim
write cut l agent_id message tags now =
    let e : LogEntry = record {
      ts = now;
      agent_id = agent_id;
      message = cut message;
      tags = tags;
    } in
    record l { file = some (maybe_trim l.max_entries (lines_of l.file ++ entry e ∷ [])) }

abbrev since_ok : Option ℕ → LogEntry → Bool
since_ok none e = true
since_ok (some t) e = not (ltb e.ts t)

abbrev agent_ok : Option String → LogEntry → Bool
agent_ok none e = true
agent_ok (some i) e = e.agent_id == i

abbrev tag_ok : Option String → LogEntry → Bool
tag_ok none e = true
tag_ok (some t) e = contains t e.tags

-- The filters of `read`.
unfoldable pub selected : Option ℕ → Option String → Option String → List Line → List LogEntry
selected since agent_id tag [] = []
selected since agent_id tag (broken s ∷ ls) = selected since agent_id tag ls
selected since agent_id tag (entry e ∷ ls) =
    let rest = selected since agent_id tag ls in
    if since_ok since e && (agent_ok agent_id e && tag_ok tag e) then e ∷ rest else rest

-- `SharedLog.read`.
unfoldable pub read : SharedLog → ℕ → Option ℕ → Option String → Option String → List LogEntry
unfolding selected last
read l limit since agent_id tag = last limit (selected since agent_id tag (lines_of l.file))
