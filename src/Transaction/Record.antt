-- ===== src/Transaction/Record.antt =====
-- agents/transaction.py: the records of a transaction and what its operations act on.
use Prim.Native.String.{◌++◌ as join}
use hollow_agent_os.Base.{
  length, ℕ, String, Bool, true, false, Option, none, some, List, [], ◌∷◌, if◌then◌else◌, get_or,
}
use hollow_agent_os.Dict
use hollow_agent_os.Dict.{Dict}
use hollow_agent_os.Event.{Event, Json, text, number, object_of}
use hollow_agent_os.Bus.{Bus, send, new_message}
use hollow_agent_os.Heap.Record.{Heap}
use hollow_agent_os.Heap.{alloc}
use hollow_agent_os.Heap.Manage.{Heaps}
use hollow_agent_os.Heap.Manage
use hollow_agent_os.Heap.Record as HeapRecord

pub data OpType : Type 0 where
  fs_write memory_set message_send : OpType

pub record StagedOp : Type 0 where
  pub op_type : OpType
  pub params : Dict Json
  pub resource : String
  pub staged_at : ℕ

pub data Status : Type 0 where
  opened committed rolled_back : Status

abbrev pub is_open : Status → Bool
is_open opened = true
is_open _ = false

pub record TxnRecord : Type 0 where
  pub txn_id : String
  pub agent_id : String
  pub status : Status
  pub ops_buffered : List StagedOp
  pub created_at : ℕ
  pub timeout_at : ℕ
  pub committed_at : Option ℕ
  pub rolled_back_at : Option ℕ
  pub rollback_reason : Option String
  pub conflict_resources : List String

-- What the coordinator calls of Python and of the system: `str` of a parameter and of a time, the
-- identifier that `uuid4` gives to the n-th message, the text of the error that an operation raises,
-- whether a file can be written, the text under which a dict files a key that is no text, or `none`
-- where it cannot be a key, and the host of the heaps.
pub record Platform : Type 0 where
  pub show : Json → String
  pub show_time : ℕ → String
  pub fresh : ℕ → String
  pub error : StagedOp → String
  pub writable : String → Bool
  pub key_of : Json → Option String
  pub heap_host : HeapRecord.Host

-- What the operations change: the files, and the heaps and the bus where they are injected.
pub record Store : Type 0 where
  pub files : Dict String
  pub heap_registry : Option Heaps
  pub bus : Option Bus

-- The coordinator; `writes` is `_resource_writes`, `saved` is the file of the last transactions.
pub record Coordinator : Type 0 where
  pub txns : Dict TxnRecord
  pub writes : Dict (String × ℕ)
  pub saved : Dict TxnRecord
  pub store : Store
  pub checkpoints : Option (List (String × String))
  pub events : Option (List Event)

-- `params.get(name, default)` in an f-string.
unfoldable pub shown : Platform → String → String → Dict Json → String
shown platform name default params = elim (Dict.get name params) [
  | none ↦ default
  | some v ↦ platform.show v
]

-- `_resource_key`.
unfoldable pub resource_key : Platform → ℕ → OpType → Dict Json → String
unfolding shown
resource_key platform now fs_write params = join "fs:" (shown platform "path" "" params)
resource_key platform now memory_set params = join "mem:" (shown platform "key" "" params)
resource_key platform now message_send params = join "msg:" (
    join (shown platform "to_id" "" params)
      (join ":" (shown platform "key" (platform.show_time now) params)))

-- `params[name]` where a text is needed: a missing key and another value raise.
unfoldable pub text_param : String → Dict Json → Option String
text_param name params = elim (Dict.get name params) [ some (text s) ↦ some s | _ ↦ none ]

-- `params[name]` where it becomes the key of a dict: a missing key raises, and a value that cannot be
-- a key makes the operation raise that files it.
unfoldable pub key_param : Platform → String → Dict Json → Option String
key_param platform name params = elim (Dict.get name params) [
  | none ↦ none
  | some (text s) ↦ some s
  | some v ↦ platform.key_of v
]

-- `params.get("priority", 5)`.
unfoldable pub priority_param : Dict Json → Option ℕ
priority_param params = elim (Dict.get "priority" params) [
  | none ↦ some 5
  | some (number n) ↦ some n
  | some _ ↦ none
]

unfoldable pub write_file : Platform → StagedOp → Store → Option Store
unfolding text_param
write_file platform op s = elim (text_param "path" op.params) [
  | none ↦ none
  | some path ↦ elim (text_param "content" op.params) [
    | none ↦ none
    | some content ↦
        if platform.writable path
        then some (record s { files = Dict.put path content s.files })
        else none
  ]
]

unfoldable pub set_memory : Platform → String → ℕ → StagedOp → Store → Option Store
unfolding text_param key_param priority_param alloc
set_memory platform agent_id now op s = elim s.heap_registry [
  | none ↦ none
  | some heaps ↦ elim (key_param platform "key" op.params) [
    | none ↦ none
    | some key ↦ elim (text_param "content" op.params) [
      | none ↦ none
      | some content ↦ elim (priority_param op.params) [
        | none ↦ none
        | some priority ↦
            let (h, heaps') = Manage.get heaps agent_id in
            let h' = (alloc platform.heap_host h key content priority none true now).1 in
            some (record s {
              heap_registry = some (record heaps' { heaps = Dict.put agent_id h' heaps'.heaps });
            })
      ]
    ]
  ]
]

-- `params.get("msg_type", "text")`; the bus takes what is no text for "data".
unfoldable pub msg_type_param : Dict Json → String
msg_type_param params = elim (Dict.get "msg_type" params) [
  | none ↦ "text"
  | some (text s) ↦ s
  | some _ ↦ "data"
]

unfoldable pub send_message : Platform → String → ℕ → StagedOp → Store → Option Store
unfolding key_param msg_type_param send new_message
send_message platform agent_id now op s = elim s.bus [
  | none ↦ none
  | some bus ↦ elim (key_param platform "to_id" op.params) [
    | none ↦ none
    | some to_id ↦
        let content = get_or (Dict.get "content" op.params) (object_of []) in
        let m =
          new_message (platform.fresh (length bus.all)) agent_id to_id content
            (msg_type_param op.params) none none now in
        some (record s { bus = some (send bus m) })
  ]
]

-- `_apply_op`; `none` where it raises.
unfoldable pub apply_op : Platform → String → ℕ → StagedOp → Store → Option Store
unfolding write_file set_memory send_message
apply_op platform agent_id now op s = elim op.op_type [
  | fs_write ↦ write_file platform op s
  | memory_set ↦ set_memory platform agent_id now op s
  | message_send ↦ send_message platform agent_id now op s
]

-- One step of `_rollback_applied`: the file of an applied `fs_write` is deleted.
unfoldable pub undo_op : StagedOp → Store → Store
unfolding text_param
undo_op op s = elim op.op_type [
  | fs_write ↦ elim (text_param "path" op.params) [
    | none ↦ s
    | some path ↦ record s { files = Dict.remove path s.files }
  ]
  | _ ↦ s
]

-- `_rollback_applied`, on the operations in the order of their undoing.
unfoldable pub rollback_applied : List StagedOp → Store → Store
unfolding undo_op
rollback_applied [] s = s
rollback_applied (op ∷ ops) s = rollback_applied ops (undo_op op s)
