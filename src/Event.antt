-- ===== src/Event.antt =====
-- The values of event payloads and of saved files (the JSON documents of the source), and the event
-- bus as its clients see it: agents/events.py, `EventBus.emit`, appends each event to the log.
use hollow_agent_os.Base.{ℕ, String, Bool, Option, none, some, List, [], ◌∷◌, ◌++◌}
use hollow_agent_os.Dict.{Dict}

mutual
  pub data Json : Type 0 where
    null : Json
    flag : Bool → Json
    number : ℕ → Json
    text : String → Json
    percent : ℕ → ℕ → Json
    array : Items → Json
    object : Fields → Json

  pub data Items : Type 0 where
    nil : Items
    cons : Json → Items → Items

  pub data Fields : Type 0 where
    end : Fields
    field : String → Json → Fields → Fields

abbrev pub texts_items : List String → Items
texts_items [] = nil
texts_items (x ∷ xs) = cons (text x) (texts_items xs)

-- A list of texts as a JSON array.
abbrev pub texts : List String → Json
texts xs = array (texts_items xs)

abbrev pub fields_of : List (String × Json) → Fields
fields_of [] = end
fields_of ((k, v) ∷ r) = field k v (fields_of r)

-- A dict literal.
abbrev pub object_of : List (String × Json) → Json
object_of l = object (fields_of l)

abbrev pub counts_fields : Dict ℕ → Fields
counts_fields [] = end
counts_fields ((k, n) ∷ d) = field k (number n) (counts_fields d)

-- A dict of counters.
abbrev pub counts : Dict ℕ → Json
counts d = object (counts_fields d)

abbrev pub optional_text : Option String → Json
optional_text none = null
optional_text (some s) = text s

pub record Event : Type 0 where
  pub event_type : String
  pub source_id : String
  pub payload : Json

-- `if self._event_bus: self._event_bus.emit(…)`: the bus may not be injected yet.
abbrev pub emit : Event → Option (List Event) → Option (List Event)
emit e none = none
emit e (some log) = some (log ++ e ∷ [])

-- A loop of such calls.
abbrev pub emit_all : List Event → Option (List Event) → Option (List Event)
emit_all es none = none
emit_all es (some log) = some (log ++ es)
