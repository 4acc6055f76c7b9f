-- ===== src/Transaction/Undo.antt =====
-- agents/transaction.py: what the undoing of a failed commit leaves of a file.
use hollow_agent_os.Base.{
  ℕ, ◌≡◌, refl, ap, ◌∙◌, String, eq_refl, Option, none, some, List, [], ◌∷◌, arith,
}
use hollow_agent_os.Dict
use hollow_agent_os.Dict.{Dict, get-remove}
use hollow_agent_os.Transaction.Record.{
  Platform, Coordinator, TxnRecord, StagedOp, fs_write, Store, apply_op, text_param, undo_op,
  rollback_applied,
}
use hollow_agent_os.Transaction.{save, file}
use hollow_agent_os.Transaction.Committing.{
  conflicts, checkpoint, apply_ops, settle, store_after, finish, commit,
}
use hollow_agent_os.Transaction.Commit.{IsReady, commit-clear}

undo-deletes :
    (op : StagedOp) (path : String) (s : Store)
    → op.op_type ≡ fs_write
    → text_param "path" op.params ≡ some path
    → Dict.get path (rollback_applied (op ∷ []) s).files ≡ none
unfolding rollback_applied undo_op
undo-deletes op path s write e =
    rw (write, e, rollback_applied, undo_op)
      (ground (arith, get-remove path path s.files, eq_refl path))

apply_ops-raises :
    (platform : Platform) (agent_id : String) (at : ℕ) (op bad : StagedOp) (s0 s : Store)
    (writes : Dict (String × ℕ))
    → apply_op platform agent_id at op s0 ≡ some s
    → apply_op platform agent_id at bad s ≡ none
    → apply_ops platform agent_id at [] (op ∷ bad ∷ []) s0 writes
      ≡ (some bad, op ∷ [], s, Dict.put op.resource (agent_id, at) writes)
unfolding apply_ops
apply_ops-raises platform agent_id at op bad s0 s writes good raises =
    rw (good, apply_ops, raises) refl

settle-store :
    (platform : Platform) (t : TxnRecord) (end : ℕ) (o : Option StagedOp) (c : Coordinator)
    → (settle platform t end o c).1.store ≡ c.store
unfolding settle file save
settle-store platform t end none c = refl
settle-store platform t end (some op) c = refl

finish-undone :
    (platform : Platform) (c : Coordinator) (t : TxnRecord) (op bad : StagedOp) (at end : ℕ)
    (s : Store)
    → Dict.get t.txn_id c.txns ≡ some t
    → t.ops_buffered ≡ op ∷ bad ∷ []
    → apply_op platform t.agent_id at op c.store ≡ some s
    → apply_op platform t.agent_id at bad s ≡ none
    → (finish platform c t.txn_id at end).1.store ≡ rollback_applied (op ∷ []) s
unfolding finish store_after
finish-undone platform c t op bad at end s e two good raises =
    let after : Option StagedOp × List StagedOp × Store × Dict (String × ℕ) → Store =
      λ x. store_after x.0 x.1 x.2 in
    let ops : apply_ops platform t.agent_id at [] t.ops_buffered c.store c.writes
        ≡ (some bad, op ∷ [], s, Dict.put op.resource (t.agent_id, at) c.writes) =
      ap (λ l. apply_ops platform t.agent_id at [] l c.store c.writes) two
      ∙ apply_ops-raises platform t.agent_id at op bad c.store s c.writes good raises in
    rw (e, finish) (settle-store platform t end _ _ ∙ ap after ops)

-- A commit of a file write and of a second operation that raises leaves no file at the path of the
-- write, whatever the file held before the commit.
pub failed_commit-deletes :
    (platform : Platform) (c : Coordinator) (t : TxnRecord) (op bad : StagedOp) (path : String)
    (now at end : ℕ) (s : Store)
    → IsReady c t now
    → conflicts t c.writes t.ops_buffered ≡ []
    → t.ops_buffered ≡ op ∷ bad ∷ []
    → op.op_type ≡ fs_write
    → text_param "path" op.params ≡ some path
    → apply_op platform t.agent_id at op c.store ≡ some s
    → apply_op platform t.agent_id at bad s ≡ none
    → Dict.get path (commit platform c t.txn_id now at end).1.store.files ≡ none
unfolding checkpoint
failed_commit-deletes platform c t op bad path now at end s r clear two write e good raises =
    rw
      (
        commit-clear platform c t now at end r clear,
        finish-undone platform (checkpoint t.agent_id t.txn_id c) t op bad at end s r.filed two good
            raises,
      )
      (undo-deletes op path s write e)
