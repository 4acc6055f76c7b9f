-- ===== src/Transaction/Race.antt =====
-- agents/transaction.py: a rollback between the two parts of a commit, which the lock does not keep
-- together.
use hollow_agent_os.Base.{ℕ, ◌≡◌, refl, String, true, some, []}
use hollow_agent_os.Dict
use hollow_agent_os.Dict.{get-put_self}
use hollow_agent_os.Transaction.Record.{Platform, Coordinator, TxnRecord, committed, is_open}
use hollow_agent_os.Transaction.{done, save, file, rolled, rollback, discard}
use hollow_agent_os.Transaction.Committing.{conflicts, admit, checkpoint, finish}
use hollow_agent_os.Transaction.Commit.{IsReady, admit-clear, finish-some}

rollback-open :
    (c : Coordinator) (t : TxnRecord) (reason : String) (now : ℕ)
    → Dict.get t.txn_id c.txns ≡ some t
    → is_open t.status ≡ true
    → (rollback c t.txn_id reason now).1 ≡ discard reason now t c
unfolding rollback
rollback-open c t reason now e live = rw (e, live, rollback) refl

-- A commit whose transaction is rolled back, by its agent or by the watchdog, after the guards have
-- passed and before the operations are read anew answers that it is done with no operation: the
-- transaction that was rolled back is committed, and nothing is applied.
pub rollback_during_commit :
    (platform : Platform) (c : Coordinator) (t : TxnRecord) (reason : String)
    (now meanwhile at end : ℕ)
    → IsReady c t now
    → conflicts t c.writes t.ops_buffered ≡ []
    → let c1 = (rollback (admit c t.txn_id now).1 t.txn_id reason meanwhile).1 in
      let (reply, c') = finish platform c1 t.txn_id at end in
      (reply ≡ done 0)
      × (c'.store ≡ c.store)
      × (Dict.get t.txn_id c'.txns
          ≡ some (record (rolled reason meanwhile t) {
            ops_buffered = [];
            status = committed;
            committed_at = some end;
          }))
unfolding discard file save checkpoint rolled
rollback_during_commit platform c t reason now meanwhile at end r clear =
    let c1 = checkpoint t.agent_id t.txn_id c in
    let t1 = record (rolled reason meanwhile t) { ops_buffered = [] } in
    rw (admit-clear c t now r clear, rollback-open c1 t reason meanwhile r.filed r.live)
      (finish-some platform (discard reason meanwhile t c1) t1 at end c.store
        (get-put_self t.txn_id t1 c.txns) refl)
