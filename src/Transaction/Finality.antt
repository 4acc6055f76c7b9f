-- ===== src/Transaction/Finality.antt =====
-- agents/transaction.py: a transaction that is committed or rolled back stays as it is.
use hollow_agent_os.Base.{
  ℕ, ◌≡◌, refl, sym, ap, ◌∙◌, subst, String, ◌==◌, eq_iff, true, false, Option, none, some, List,
  [], ◌∷◌, arith, inl, inr, Bool-cases, Option-cases, List-cases, ltb, All, filter,
}
use hollow_agent_os.Dict
use hollow_agent_os.Dict.{Dict, get-put, Holds, Holds-put}
use hollow_agent_os.Event.{Json}
use hollow_agent_os.Transaction.Record.{
  Platform, Coordinator, TxnRecord, StagedOp, OpType, committed, is_open,
}
use hollow_agent_os.Transaction.{
  begin, save, file, stage, stage_op, buffer, op_type_of, rolled, discard, rollback,
  record_external_write, roll_late, watch, is_late,
}
use hollow_agent_os.Transaction.Committing.{
  conflicts, close_conflict, checkpoint, admit, settle, finish, proceed, commit,
}
use hollow_agent_os.Transaction.Commit.{IsReady, commit-clear, commit-conflict}

pub data Call : Type 0 where
  begins : (txn_id agent_id : String) (now : ℕ) → Call
  stages : (txn_id op_name : String) (params : Dict Json) (now : ℕ) → Call
  commits : (txn_id : String) (now at end : ℕ) → Call
  rolls : (txn_id reason : String) (now : ℕ) → Call
  watches : (now : ℕ) → Call
  writes : (resource agent_id : String) (now : ℕ) → Call

unfoldable pub step : Platform → Coordinator → Call → Coordinator
step platform c (begins txn_id agent_id now) = begin c txn_id agent_id now
step platform c (stages txn_id op_name params now) = (stage platform c txn_id op_name params now).1
step platform c (commits txn_id now at end) = (commit platform c txn_id now at end).1
step platform c (rolls txn_id reason now) = (rollback c txn_id reason now).1
step platform c (watches now) = watch c now
step platform c (writes resource agent_id now) = record_external_write c resource agent_id now

unfoldable pub run : Platform → Coordinator → List Call → Coordinator
run platform c [] = c
run platform c (x ∷ xs) = run platform (step platform c x) xs

-- A call that does not begin a transaction under the identifier.
abbrev pub Spares : String → Call → Type 0
Spares k (begins txn_id agent_id now) = (txn_id == k) ≡ false
Spares k _ = Unit {0}

-- Every transaction is filed under its identifier.
abbrev pub IsFiled : Coordinator → Type 0
IsFiled c = Holds (λ k t. t.txn_id ≡ k) c.txns

module _ (k : String) (t : TxnRecord) (closed : is_open t.status ≡ false) where
  abbrev Kept : Dict TxnRecord → Type 0
  Kept d = Holds (λ i r. r.txn_id ≡ i) d × (Dict.get k d ≡ some t)

  file-Kept :
      (r : TxnRecord) (c : Coordinator)
      → (r.txn_id == k) ≡ false
      → Kept c.txns
      → Kept (file r c).txns
  unfolding file save
  file-Kept r c other (h, e) = (
    Holds-put {P = λ i r. r.txn_id ≡ i} r.txn_id r c.txns refl h,
    ground (arith, get-put r.txn_id k r c.txns),
  )

  -- An open transaction is another one.
  other_than :
      (j : String) (r : TxnRecord) (d : Dict TxnRecord)
      → Kept d
      → Dict.get j d ≡ some r
      → is_open r.status ≡ true
      → (r.txn_id == k) ≡ false
  other_than j r d (h, e) f live = elim (Bool-cases (r.txn_id == k)) [
    | inr q ↦ q
    | inl q ↦
        let same : j ≡ k = sym (h j r f) ∙ (eq_iff r.txn_id k).0 q in
        let one : r ≡ t = ground (arith, ap (λ i. Dict.get i d) same) in
        ground (arith, ap (λ (x : TxnRecord). is_open x.status) one)
  ]

  stage_op-Kept :
      (platform : Platform) (c : Coordinator) (j : String) (op_type : OpType) (params : Dict Json)
      (now : ℕ)
      → Kept c.txns
      → Kept (stage_op platform c j op_type params now).1.txns
  unfolding stage_op buffer
  stage_op-Kept platform c j op_type params now i = elim (Option-cases (Dict.get j c.txns)) [
    | inl f ↦ rw (f, stage_op) i
    | inr (r, f) ↦ elim (Bool-cases (is_open r.status)) [
      | inr live ↦ rw (f, live, stage_op) i
      | inl live ↦ elim (Bool-cases (ltb r.timeout_at now)) [
        | inl late ↦ rw (f, live, late, stage_op) i
        | inr late ↦
            rw (f, live, late, stage_op)
              (file-Kept (buffer platform now op_type params r) c (other_than j r c.txns i f live)
                i)
      ]
    ]
  ]

  stage-Kept :
      (platform : Platform) (c : Coordinator) (j name : String) (params : Dict Json) (now : ℕ)
      → Kept c.txns
      → Kept (stage platform c j name params now).1.txns
  unfolding stage
  stage-Kept platform c j name params now i = elim (Option-cases (op_type_of name)) [
    | inl f ↦ rw (f, stage) i
    | inr (op_type, f) ↦ rw (f, stage) (stage_op-Kept platform c j op_type params now i)
  ]

  rollback-Kept :
      (c : Coordinator) (j reason : String) (now : ℕ)
      → Kept c.txns
      → Kept (rollback c j reason now).1.txns
  unfolding rollback discard rolled
  rollback-Kept c j reason now i = elim (Option-cases (Dict.get j c.txns)) [
    | inl f ↦ rw (f, rollback) i
    | inr (r, f) ↦ elim (Bool-cases (is_open r.status)) [
      | inr live ↦ rw (f, live, rollback) i
      | inl live ↦
          rw (f, live, rollback)
            (file-Kept (record (rolled reason now r) { ops_buffered = [] }) c
              (other_than j r c.txns i f live) i)
    ]
  ]

  roll_late-Kept :
      (ts : List TxnRecord) (now : ℕ) (c : Coordinator)
      → Kept c.txns
      → Kept (roll_late ts now c).txns
  unfolding roll_late
  roll_late-Kept [] now c i = i
  roll_late-Kept (r ∷ ts) now c i =
      roll_late-Kept ts now (rollback c r.txn_id "timeout" now).1
        (rollback-Kept c r.txn_id "timeout" now i)

  settle-Kept :
      (platform : Platform) (r : TxnRecord) (end : ℕ) (o : Option StagedOp) (c : Coordinator)
      → (r.txn_id == k) ≡ false
      → Kept c.txns
      → Kept (settle platform r end o c).1.txns
  unfolding settle rolled
  settle-Kept platform r end none c other i =
      file-Kept (record r { status = committed; committed_at = some end }) c other i
  settle-Kept platform r end (some op) c other i = file-Kept (rolled _ end r) c other i

  finish-Kept :
      (platform : Platform) (c : Coordinator) (r : TxnRecord) (at end : ℕ)
      → Dict.get r.txn_id c.txns ≡ some r
      → (r.txn_id == k) ≡ false
      → Kept c.txns
      → Kept (finish platform c r.txn_id at end).1.txns
  unfolding finish
  finish-Kept platform c r at end f other i =
      rw (f, finish) (settle-Kept platform r end _ _ other i)

  commit_open-Kept :
      (platform : Platform) (c : Coordinator) (r : TxnRecord) (now at end : ℕ)
      → IsReady c r now
      → Kept c.txns
      → Kept (commit platform c r.txn_id now at end).1.txns
  unfolding checkpoint close_conflict rolled
  commit_open-Kept platform c r now at end ready i =
      let other = other_than r.txn_id r c.txns i ready.filed ready.live in
      elim (List-cases (conflicts r c.writes r.ops_buffered)) [
        | inl clear ↦
            rw (commit-clear platform c r now at end ready clear)
              (finish-Kept platform (checkpoint r.agent_id r.txn_id c) r at end ready.filed other i)
        | inr (x, xs, found) ↦
            rw (commit-conflict platform c r now at end x xs ready found) (
              file-Kept (record (rolled "conflict" now r) { conflict_resources = x ∷ xs }) c other
                i)
      ]

  commit-Kept :
      (platform : Platform) (c : Coordinator) (j : String) (now at end : ℕ)
      → Kept c.txns
      → Kept (commit platform c j now at end).1.txns
  unfolding commit admit proceed rolled
  commit-Kept platform c j now at end i = elim (Option-cases (Dict.get j c.txns)) [
    | inl f ↦ rw (f, commit, admit) i
    | inr (r, f) ↦ elim (Bool-cases (is_open r.status)) [
      | inr live ↦ rw (f, live, commit, admit) i
      | inl live ↦ elim (Bool-cases (ltb r.timeout_at now)) [
        | inl late ↦
            rw (f, live, late, commit, admit)
              (file-Kept (rolled "timeout" now r) c (other_than j r c.txns i f live) i)
        | inr late ↦
            let named = i.0 j r f in
            subst (λ l. Kept (commit platform c l now at end).1.txns) named
              (commit_open-Kept platform c r now at end
                (record {
                  filed = subst (λ l. Dict.get l c.txns ≡ some r) (sym named) f;
                  live = live;
                  in_time = late;
                })
                i)
      ]
    ]
  ]

  step-Kept :
      (platform : Platform) (c : Coordinator) (x : Call)
      → Spares k x
      → Kept c.txns
      → Kept (step platform c x).txns
  unfolding step begin watch record_external_write
  step-Kept platform c (begins j agent_id now) other i = file-Kept _ c other i
  step-Kept platform c (stages j name params now) _ i = stage-Kept platform c j name params now i
  step-Kept platform c (commits j now at end) _ i = commit-Kept platform c j now at end i
  step-Kept platform c (rolls j reason now) _ i = rollback-Kept c j reason now i
  step-Kept platform c (watches now) _ i =
      roll_late-Kept (filter (is_late now) (Dict.values c.txns)) now c i
  step-Kept platform c (writes resource agent_id now) _ i = i

  run-Kept :
      (platform : Platform) (c : Coordinator) (xs : List Call)
      → All (Spares k) xs
      → Kept c.txns
      → Kept (run platform c xs).txns
  unfolding run
  run-Kept platform c [] s i = i
  run-Kept platform c (x ∷ xs) (s, ss) i =
      run-Kept platform (step platform c x) xs ss (step-Kept platform c x s i)

-- A transaction that is committed or rolled back is never changed again by any sequence of calls that
-- does not begin a transaction under its identifier: no later stage, commit, rollback or watchdog
-- pass reaches it, where each of them runs as a whole.
pub run-final :
    (platform : Platform) (c : Coordinator) (k : String) (t : TxnRecord) (xs : List Call)
    → IsFiled c
    → Dict.get k c.txns ≡ some t
    → is_open t.status ≡ false
    → All (Spares k) xs
    → Dict.get k (run platform c xs).txns ≡ some t
run-final platform c k t xs filed e closed s = (run-Kept k t closed platform c xs s (filed, e)).1
