-- ===== src/Transaction/Examples.antt =====
-- The theorems on transactions at a concrete coordinator.
use hollow_agent_os.Base.{◌≡◌, refl, String, true, none, some, List, [], ◌∷◌, arith, any_of}
use hollow_agent_os.Dict
use hollow_agent_os.Dict.{Holds-put}
use hollow_agent_os.Event.{text}
use hollow_agent_os.Transaction.Record.{
  Platform, Coordinator, TxnRecord, StagedOp, fs_write, memory_set, opened, committed, rolled_back,
  Store, apply_op, write_file, set_memory, text_param, key_param,
}
use hollow_agent_os.Transaction.{done, failed, conflicting, rolled, rollback, record_external_write}
use hollow_agent_os.Transaction.Committing.{commit, admit, finish, conflicts, clashes}
use hollow_agent_os.Transaction.Commit.{
  IsReady, commit-applies, commit-fails, external_write-conflicts,
}
use hollow_agent_os.Transaction.Race.{rollback_during_commit}
use hollow_agent_os.Transaction.Undo.{failed_commit-deletes}
use hollow_agent_os.Transaction.Finality.{
  Call, begins, stages, commits, rolls, watches, run, run-final, IsFiled,
}

abbrev platform : Platform
platform = record {
  show = λ v. "a.txt";
  show_time = λ n. "10.0";
  fresh = λ n. "m1";
  error = λ op. "HeapRegistry not available for memory_set";
  writable = λ path. true;
  key_of = λ v. none;
  heap_host = record { split = λ s. s ∷ []; prefix = λ n s. s; chat = λ s. none };
}

abbrev write : StagedOp
write = record {
  op_type = fs_write;
  params = ("path", text "a.txt") ∷ ("content", text "new") ∷ [];
  resource = "fs:a.txt";
  staged_at = 11;
}

abbrev txn : TxnRecord
txn = record {
  txn_id = "x1";
  agent_id = "scout";
  status = opened;
  ops_buffered = write ∷ [];
  created_at = 10;
  timeout_at = 610;
  committed_at = none;
  rolled_back_at = none;
  rollback_reason = none;
  conflict_resources = [];
}

abbrev store : Store
store = record { files = ("a.txt", "old") ∷ []; heap_registry = none; bus = none }

abbrev holding : TxnRecord → Coordinator
holding t = record {
  txns = (t.txn_id, t) ∷ [];
  writes = [];
  saved = [];
  store = store;
  checkpoints = none;
  events = some [];
}

txn-IsReady : IsReady (holding txn) txn 20
unfolding Dict.get
txn-IsReady = record { filed = refl; live = refl; in_time = refl }

commit-applies_example :
    let (reply, c') = commit platform (holding txn) "x1" 20 21 22 in
    (reply ≡ done 1)
    × (c'.store ≡ record store { files = ("a.txt", "new") ∷ [] })
    × (Dict.get "x1" c'.txns ≡ some (record txn { status = committed; committed_at = some 22 }))
unfolding Dict.get conflicts clashes apply_op write_file text_param Dict.put
commit-applies_example =
    commit-applies platform (holding txn) txn 20 21 22
      (record store { files = ("a.txt", "new") ∷ [] }) txn-IsReady refl refl

-- The second operation needs a heap registry, which is not injected.
abbrev doomed : TxnRecord
doomed = record txn {
  ops_buffered = write ∷ record write { op_type = memory_set; resource = "mem:a" } ∷ [];
}

doomed-IsReady : IsReady (holding doomed) doomed 20
unfolding Dict.get
doomed-IsReady = record { filed = refl; live = refl; in_time = refl }

commit-fails_example :
    let (reply, c') = commit platform (holding doomed) "x1" 20 21 22 in
    (reason : String) × (reply ≡ failed reason)
    × (Dict.get "x1" c'.txns ≡ some (rolled reason 22 doomed))
unfolding Dict.get conflicts clashes apply_op write_file set_memory text_param key_param
commit-fails_example =
    commit-fails platform (holding doomed) doomed 20 21 22 doomed-IsReady refl refl

-- The file that held "old" before the commit is gone after it.
failed_commit-deletes_example :
    Dict.get "a.txt" (commit platform (holding doomed) "x1" 20 21 22).1.store.files ≡ none
unfolding Dict.get conflicts clashes apply_op write_file set_memory text_param key_param
failed_commit-deletes_example =
    failed_commit-deletes platform (holding doomed) doomed write
      (record write { op_type = memory_set; resource = "mem:a" }) "a.txt" 20 21 22
      (record store { files = Dict.put "a.txt" "new" store.files }) doomed-IsReady refl refl refl
      refl refl refl

external_write-conflicts_example :
    let c1 = record_external_write (holding txn) "fs:a.txt" "builder" 15 in
    let (reply, c') = commit platform c1 "x1" 20 21 22 in
    (found : List String) × (reply ≡ conflicting found)
    × (c'.store ≡ c1.store)
    × (c'.writes ≡ c1.writes)
    × (Dict.get "x1" c'.txns
        ≡ some (record (rolled "conflict" 20 txn) { conflict_resources = found }))
unfolding any_of
external_write-conflicts_example =
    external_write-conflicts platform (holding txn) txn "fs:a.txt" "builder" 15 20 21 22 txn-IsReady
      refl (omega arith) refl

rollback_during_commit_example :
    let c1 = (rollback (admit (holding txn) "x1" 20).1 "x1" "timeout" 20).1 in
    let (reply, c') = finish platform c1 "x1" 21 22 in
    (reply ≡ done 0)
    × (c'.store ≡ store)
    × (Dict.get "x1" c'.txns
        ≡ some (record (rolled "timeout" 20 txn) {
          ops_buffered = [];
          status = committed;
          committed_at = some 22;
        }))
unfolding conflicts clashes Dict.get
rollback_during_commit_example =
    rollback_during_commit platform (holding txn) txn "timeout" 20 20 21 22 txn-IsReady refl

abbrev closed : TxnRecord
closed = record txn { status = rolled_back }

closed-IsFiled : IsFiled (holding closed)
unfolding Dict.get Dict.put
closed-IsFiled = Holds-put {P = λ i r. r.txn_id ≡ i} "x1" closed [] refl (λ k t e. cc)

abbrev attempts : List Call
attempts =
    stages "x1" "fs_write" [] 30
    ∷ commits "x1" 40 41 42
    ∷ rolls "x1" "explicit" 50
    ∷ begins "x2" "builder" 60
    ∷ watches 900
    ∷ []

run-final_example : Dict.get "x1" (run platform (holding closed) attempts).txns ≡ some closed
unfolding Dict.get
run-final_example =
    run-final platform (holding closed) "x1" closed attempts closed-IsFiled refl refl
      (tt, (tt, (tt, (refl, (tt, tt)))))
