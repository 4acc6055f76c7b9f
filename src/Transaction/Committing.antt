-- ===== src/Transaction/Committing.antt =====
-- agents/transaction.py: the commit, in the part under its first lock and the part after it.
use Prim.Native.String.{◌++◌ as join}
use hollow_agent_os.Base.{
  ℕ, ◌-◌, ◌*◌, String, Bool, false, not, ◌&&◌, ◌==◌, Option, none, some, List, [], ◌∷◌, ◌++◌, ltb,
  if◌then◌else◌, length,
}
use hollow_agent_os.Dict
use hollow_agent_os.Dict.{Dict}
use hollow_agent_os.Event.{Event, object_of, text, texts, number, emit, emit_all}
use hollow_agent_os.Transaction.Record.{
  Platform, Coordinator, TxnRecord, StagedOp, committed, is_open, Store, apply_op, rollback_applied,
}
use hollow_agent_os.Transaction.{
  file, not_found, timed_out, not_open, Reply, refused, conflicting, failed, done, rolled,
  rolled_back_event,
}

-- The last write of a resource is another agent's, and later than the start of the transaction.
unfoldable pub clashes : TxnRecord → Option (String × ℕ) → Bool
clashes t none = false
clashes t (some (agent_id, at)) = not (agent_id == t.agent_id) && ltb t.created_at at

unfoldable pub conflicts : TxnRecord → Dict (String × ℕ) → List StagedOp → List String
unfolding clashes
conflicts t writes [] = []
conflicts t writes (op ∷ ops) =
    let rest = conflicts t writes ops in
    if clashes t (Dict.get op.resource writes) then op.resource ∷ rest else rest

unfoldable pub conflict_events : TxnRecord → List String → List Event
conflict_events t found =
    record {
      event_type = "txn.conflict";
      source_id = t.agent_id;
      payload = object_of (
          ("txn_id", text t.txn_id)
          ∷ ("agent_id", text t.agent_id)
          ∷ ("conflicts", texts found)
          ∷ []);
    }
    ∷ rolled_back_event t (("reason", text "conflict") ∷ ("conflicts", texts found) ∷ [])
    ∷ []

-- The rollback of a transaction with conflicts, and its two events.
unfoldable pub close_conflict : ℕ → TxnRecord → List String → Coordinator → Coordinator
unfolding file rolled conflict_events
close_conflict now t found c =
    let c' = file (record (rolled "conflict" now t) { conflict_resources = found }) c in
    record c' { events = emit_all (conflict_events t found) c'.events }

-- The checkpoint before the operations, where a manager is injected.
unfoldable pub checkpoint : String → String → Coordinator → Coordinator
checkpoint agent_id txn_id c = record c {
  checkpoints = elim c.checkpoints [
    | none ↦ none
    | some made ↦ some (made ++ (agent_id, join "pre-commit:" txn_id) ∷ [])
  ];
}

-- The first part of `commit`, up to the applying: the answer if it ends there, else `none`.
unfoldable pub admit : Coordinator → String → ℕ → Option Reply × Coordinator
unfolding file rolled conflicts close_conflict checkpoint
admit c txn_id now = elim (Dict.get txn_id c.txns) [
  | none ↦ (some (refused not_found), c)
  | some t ↦
      if not (is_open t.status)
      then (some (refused (not_open t.status)), c)
      else if ltb t.timeout_at now
      then (some (refused timed_out), file (rolled "timeout" now t) c)
      else elim (conflicts t c.writes t.ops_buffered) [
        | [] ↦ (none, checkpoint t.agent_id txn_id c)
        | r ∷ rs ↦ (some (conflicting (r ∷ rs)), close_conflict now t (r ∷ rs) c)
      ]
]

-- The loop that applies the operations: the operation that raised, if one did, the operations that
-- were applied, the last one first, the store and the recorded writes.
unfoldable pub apply_ops :
    Platform
    → String
    → ℕ
    → List StagedOp
    → List StagedOp
    → Store
    → Dict (String × ℕ)
    → Option StagedOp × List StagedOp × Store × Dict (String × ℕ)
unfolding apply_op
apply_ops platform agent_id now applied [] s writes = (none, applied, s, writes)
apply_ops platform agent_id now applied (op ∷ ops) s writes =
    elim (apply_op platform agent_id now op s) [
      | none ↦ (some op, applied, s, writes)
      | some s' ↦
          apply_ops platform agent_id now (op ∷ applied) ops s'
            (Dict.put op.resource (agent_id, now) writes)
    ]

-- The new status after the operations, and the last event.
unfoldable pub settle :
    Platform → TxnRecord → ℕ → Option StagedOp → Coordinator → Reply × Coordinator
unfolding file rolled
settle platform t now (some op) c =
    let reason = join "op_failed: " (platform.error op) in
    let c' = file (rolled reason now t) c in
    (
      failed reason,
      record c' { events = emit (rolled_back_event t (("reason", text reason) ∷ [])) c'.events },
    )
settle platform t now none c =
    let c' = file (record t { status = committed; committed_at = some now }) c in
    (
      done (length t.ops_buffered),
      record c' {
        events =
            emit
              (record {
                event_type = "txn.committed";
                source_id = t.agent_id;
                payload = object_of (
                    ("txn_id", text t.txn_id)
                    ∷ ("ops_count", number (length t.ops_buffered))
                    ∷ ("duration_ms", number ((now - t.created_at) * 1000))
                    ∷ []);
              })
              c'.events;
      },
    )

-- The store after the loop: where an operation raised, those before it are undone.
unfoldable pub store_after : Option StagedOp → List StagedOp → Store → Store
unfolding rollback_applied
store_after none applied s = s
store_after (some op) applied s = rollback_applied applied s

-- The rest of `commit`, which reads the transaction anew.
unfoldable pub finish : Platform → Coordinator → String → ℕ → ℕ → Reply × Coordinator
unfolding apply_ops settle store_after
finish platform c txn_id now at = elim (Dict.get txn_id c.txns) [
  | none ↦ (refused not_found, c)
  | some t ↦
      let (raised, applied, s, writes) =
        apply_ops platform t.agent_id now [] t.ops_buffered c.store c.writes in
      settle platform t at raised
        (record c { store = store_after raised applied s; writes = writes })
]

-- `commit` goes on where the first part gave no answer.
unfoldable pub proceed :
    Platform → String → ℕ → ℕ → Option Reply × Coordinator → Reply × Coordinator
unfolding finish
proceed platform txn_id at end (some reply, c) = (reply, c)
proceed platform txn_id at end (none, c) = finish platform c txn_id at end

-- `TransactionCoordinator.commit` where nothing else runs between its locks; the clock is read for the
-- guards, for the writes and for the end.
unfoldable pub commit : Platform → Coordinator → String → ℕ → ℕ → ℕ → Reply × Coordinator
unfolding admit proceed
commit platform c txn_id now at end = proceed platform txn_id at end (admit c txn_id now)
