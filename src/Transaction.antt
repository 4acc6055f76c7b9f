-- ===== src/Transaction.antt =====
-- agents/transaction.py: transactions that buffer operations, detect conflicting writes and apply all
-- of the operations at the commit. A clock reading and a fresh identifier are arguments.
pub mod Record
pub mod Committing
pub mod Commit
pub mod Race
pub mod Undo
pub mod Finality
mod Examples
use Prim.Native.String.{◌++◌ as join}
use hollow_agent_os.Base.{
  ℕ, ◌+◌, ◌-◌, ◌*◌, String, Bool, true, false, not, ◌&&◌, ◌||◌, ◌==◌, Option, none, some, List, [],
  ◌∷◌, ◌++◌, ltb, leb, if◌then◌else◌, length, take, sort_by, is_some, get_or, filter, map,
}
use hollow_agent_os.Dict
use hollow_agent_os.Dict.{Dict}
use hollow_agent_os.Event.{Event, Json, object_of, text, texts, number, emit, emit_all}
use hollow_agent_os.Bus.{Bus}
use hollow_agent_os.Heap.Manage.{Heaps}
use hollow_agent_os.Transaction.Record.{
  Platform, Coordinator, TxnRecord, StagedOp, OpType, Status, opened, committed, rolled_back,
  is_open, Store, apply_op, rollback_applied, resource_key,
}

-- `TXN_TIMEOUT_SECONDS` where the environment does not set it.
abbrev pub txn_timeout_seconds : ℕ
txn_timeout_seconds = 600

-- The order of the file: the latest first.
abbrev later : String × TxnRecord → String × TxnRecord → Bool
later x y = leb y.1.created_at x.1.created_at

-- `_save`.
unfoldable pub save : Coordinator → Coordinator
save c = record c { saved = take 200 (sort_by later c.txns) }

unfoldable pub file : TxnRecord → Coordinator → Coordinator
unfolding save
file t c = save (record c { txns = Dict.put t.txn_id t c.txns })

-- `TransactionCoordinator.set_event_bus`.
unfoldable set_event_bus : Coordinator → Option (List Event) → Coordinator
set_event_bus c events = record c { events = events }

-- `TransactionCoordinator.set_subsystems`, whose registry no operation reads.
unfoldable set_subsystems :
    Coordinator → Option Bus → Option Heaps → Option (List (String × String)) → Coordinator
set_subsystems c bus heap_registry checkpoints = record c {
  store = record c.store { bus = bus; heap_registry = heap_registry };
  checkpoints = checkpoints;
}

-- `TransactionCoordinator.begin`.
unfoldable pub begin : Coordinator → String → String → ℕ → Coordinator
unfolding file
begin c txn_id agent_id now =
    file
      (record {
        txn_id = txn_id;
        agent_id = agent_id;
        status = opened;
        ops_buffered = [];
        created_at = now;
        timeout_at = now + txn_timeout_seconds;
        committed_at = none;
        rolled_back_at = none;
        rollback_reason = none;
        conflict_resources = [];
      })
      c

pub data Refusal : Type 0 where
  unknown_op not_found timed_out : Refusal
  not_open : Status → Refusal

-- The answers of `stage`, `commit` and `rollback`.
pub data Reply : Type 0 where
  refused : Refusal → Reply
  staged : OpType → String → ℕ → Reply
  conflicting : List String → Reply
  failed : String → Reply
  done : ℕ → Reply
  undone : String → Reply

-- The operation types by their names.
unfoldable pub op_type_of : String → Option OpType
op_type_of s =
    if s == "fs_write"
    then some OpType.fs_write
    else if s == "memory_set"
    then some OpType.memory_set
    else if s == "message_send"
    then some OpType.message_send
    else none

-- The buffering of `stage`, and its guards.
unfoldable pub buffer : Platform → ℕ → OpType → Dict Json → TxnRecord → TxnRecord
unfolding resource_key
buffer platform now op_type params t = record t {
  ops_buffered =
      t.ops_buffered
      ++ record {
        op_type = op_type;
        params = params;
        resource = resource_key platform now op_type params;
        staged_at = now;
      }
        ∷ [];
}

unfoldable pub stage_op :
    Platform → Coordinator → String → OpType → Dict Json → ℕ → Reply × Coordinator
unfolding buffer file
stage_op platform c txn_id op_type params now = elim (Dict.get txn_id c.txns) [
  | none ↦ (refused not_found, c)
  | some t ↦
      if not (is_open t.status)
      then (refused (not_open t.status), c)
      else if ltb t.timeout_at now
      then (refused timed_out, c)
      else let t' = buffer platform now op_type params t in
        (
          staged op_type (resource_key platform now op_type params) (length t'.ops_buffered),
          file t' c,
        )
]

-- `TransactionCoordinator.stage`.
unfoldable pub stage :
    Platform → Coordinator → String → String → Dict Json → ℕ → Reply × Coordinator
unfolding op_type_of stage_op
stage platform c txn_id op_name params now = elim (op_type_of op_name) [
  | none ↦ (refused unknown_op, c)
  | some op_type ↦ stage_op platform c txn_id op_type params now
]

unfoldable pub rolled : String → ℕ → TxnRecord → TxnRecord
rolled reason now t = record t {
  status = rolled_back;
  rollback_reason = some reason;
  rolled_back_at = some now;
}

abbrev pub rolled_back_event : TxnRecord → List (String × Json) → Event
rolled_back_event t fields = record {
  event_type = "txn.rolled_back";
  source_id = t.agent_id;
  payload = object_of (("txn_id", text t.txn_id) ∷ fields);
}

-- The rollback of an open transaction, and its event.
unfoldable pub discard : String → ℕ → TxnRecord → Coordinator → Coordinator
unfolding file rolled
discard reason now t c =
    let c' = file (record (rolled reason now t) { ops_buffered = [] }) c in
    record c' { events = emit (rolled_back_event t (("reason", text reason) ∷ [])) c'.events }

-- `TransactionCoordinator.rollback`.
unfoldable pub rollback : Coordinator → String → String → ℕ → Reply × Coordinator
unfolding discard
rollback c txn_id reason now = elim (Dict.get txn_id c.txns) [
  | none ↦ (refused not_found, c)
  | some t ↦
      if not (is_open t.status)
      then (refused (not_open t.status), c)
      else (undone reason, discard reason now t c)
]

-- `TransactionCoordinator.status`, as the record, the count and the seconds left.
unfoldable pub status : Coordinator → String → ℕ → Option (TxnRecord × ℕ × ℕ)
status c txn_id now = elim (Dict.get txn_id c.txns) [
  | none ↦ none
  | some t ↦ some (t, length t.ops_buffered, t.timeout_at - now)
]

-- `record_external_write`.
unfoldable pub record_external_write : Coordinator → String → String → ℕ → Coordinator
record_external_write c resource agent_id now = record c {
  writes = Dict.put resource (agent_id, now) c.writes;
}

-- The open transactions whose time is over, and one pass of the watchdog.
unfoldable pub is_late : ℕ → TxnRecord → Bool
is_late now t = is_open t.status && ltb t.timeout_at now

unfoldable pub roll_late : List TxnRecord → ℕ → Coordinator → Coordinator
unfolding rollback
roll_late [] now c = c
roll_late (t ∷ ts) now c = roll_late ts now (rollback c t.txn_id "timeout" now).1

unfoldable pub watch : Coordinator → ℕ → Coordinator
unfolding roll_late is_late
watch c now = roll_late (filter (is_late now) (Dict.values c.txns)) now c

-- `_load`: the open transactions of the file timed out while the server was down.
unfoldable pub restore_txn : ℕ → TxnRecord → TxnRecord
unfolding rolled
restore_txn now t = if is_open t.status then rolled "server_restart" now t else t

unfoldable pub load : ℕ → Dict TxnRecord → Dict TxnRecord
unfolding restore_txn
load now saved = Dict.map_values (restore_txn now) saved
