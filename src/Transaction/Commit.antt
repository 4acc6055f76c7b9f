-- ===== src/Transaction/Commit.antt =====
-- agents/transaction.py: what a commit does, by its cases.
use hollow_agent_os.Base.{
  ℕ, ◌<◌, ◌≡◌, refl, sym, ap, subst, String, ◌==◌, eq_iff, true, false, Option, none, some, List,
  [], ◌∷◌, arith, inl, inr, Bool-cases, Option-cases, is_some, ltb, lt→ltb, length, any_of,
}
use hollow_agent_os.Dict
use hollow_agent_os.Dict.{Dict, get-put, get-put_self}
use hollow_agent_os.Transaction.Record.{
  Platform, Coordinator, TxnRecord, StagedOp, committed, is_open, Store, apply_op,
}
use hollow_agent_os.Transaction.{
  conflicting, failed, done, save, file, rolled, record_external_write,
}
use hollow_agent_os.Transaction.Committing.{
  conflicts, clashes, admit, checkpoint, close_conflict, apply_ops, store_after, finish, proceed,
  settle, commit,
}

-- All operations in their order, `none` where one of them raises.
abbrev pub apply_all : Platform → String → ℕ → List StagedOp → Store → Option Store
apply_all platform agent_id now [] s = some s
apply_all platform agent_id now (op ∷ ops) s = elim (apply_op platform agent_id now op s) [
  | none ↦ none
  | some s' ↦ apply_all platform agent_id now ops s'
]

apply_ops-some :
    (platform : Platform) (agent_id : String) (now : ℕ) (ops applied : List StagedOp) (s s' : Store)
    (writes : Dict (String × ℕ))
    → apply_all platform agent_id now ops s ≡ some s'
    → ((apply_ops platform agent_id now applied ops s writes).0 ≡ none)
      × ((apply_ops platform agent_id now applied ops s writes).2 ≡ s')
unfolding apply_ops
apply_ops-some platform agent_id now [] applied s s' writes e = (refl, ground arith)
apply_ops-some platform agent_id now (op ∷ ops) applied s s' writes e =
    elim (Option-cases (apply_op platform agent_id now op s)) [
      | inl q ↦ ground arith
      | inr (s1, q) ↦
          rw (q, apply_ops)
            (apply_ops-some platform agent_id now ops (op ∷ applied) s1 s'
              (Dict.put op.resource (agent_id, now) writes) (ground arith))
    ]

apply_ops-none :
    (platform : Platform) (agent_id : String) (now : ℕ) (ops applied : List StagedOp) (s : Store)
    (writes : Dict (String × ℕ))
    → apply_all platform agent_id now ops s ≡ none
    → is_some (apply_ops platform agent_id now applied ops s writes).0 ≡ true
unfolding apply_ops
apply_ops-none platform agent_id now [] applied s writes e = cc
apply_ops-none platform agent_id now (op ∷ ops) applied s writes e =
    elim (Option-cases (apply_op platform agent_id now op s)) [
      | inl q ↦ rw (q, apply_ops) refl
      | inr (s1, q) ↦
          rw (q, apply_ops)
            (apply_ops-none platform agent_id now ops (op ∷ applied) s1
              (Dict.put op.resource (agent_id, now) writes) (ground arith))
    ]

-- A transaction that a commit may go on with: it is filed, open and in time.
pub record IsReady (c : Coordinator) (t : TxnRecord) (now : ℕ) : Type 0 where
  pub filed : Dict.get t.txn_id c.txns ≡ some t
  pub live : is_open t.status ≡ true
  pub in_time : ltb t.timeout_at now ≡ false

pub admit-clear :
    (c : Coordinator) (t : TxnRecord) (now : ℕ)
    → IsReady c t now
    → conflicts t c.writes t.ops_buffered ≡ []
    → admit c t.txn_id now ≡ (none, checkpoint t.agent_id t.txn_id c)
unfolding admit
admit-clear c t now r clear = rw (r.filed, r.live, r.in_time, clear, admit) refl

admit-conflict :
    (c : Coordinator) (t : TxnRecord) (now : ℕ) (x : String) (xs : List String)
    → IsReady c t now
    → conflicts t c.writes t.ops_buffered ≡ x ∷ xs
    → admit c t.txn_id now ≡ (some (conflicting (x ∷ xs)), close_conflict now t (x ∷ xs) c)
unfolding admit
admit-conflict c t now x xs r found = rw (r.filed, r.live, r.in_time, found, admit) refl

pub commit-clear :
    (platform : Platform) (c : Coordinator) (t : TxnRecord) (now at end : ℕ)
    → IsReady c t now
    → conflicts t c.writes t.ops_buffered ≡ []
    → commit platform c t.txn_id now at end
      ≡ finish platform (checkpoint t.agent_id t.txn_id c) t.txn_id at end
unfolding commit proceed
commit-clear platform c t now at end r clear =
    ap (proceed platform t.txn_id at end) (admit-clear c t now r clear)

pub commit-conflict :
    (platform : Platform) (c : Coordinator) (t : TxnRecord) (now at end : ℕ) (x : String)
    (xs : List String)
    → IsReady c t now
    → conflicts t c.writes t.ops_buffered ≡ x ∷ xs
    → commit platform c t.txn_id now at end
      ≡ (conflicting (x ∷ xs), close_conflict now t (x ∷ xs) c)
unfolding commit proceed
commit-conflict platform c t now at end x xs r found =
    ap (proceed platform t.txn_id at end) (admit-conflict c t now x xs r found)

pub finish-some :
    (platform : Platform) (c : Coordinator) (t : TxnRecord) (at end : ℕ) (s : Store)
    → Dict.get t.txn_id c.txns ≡ some t
    → apply_all platform t.agent_id at t.ops_buffered c.store ≡ some s
    → let (reply, c') = finish platform c t.txn_id at end in
      (reply ≡ done (length t.ops_buffered))
      × (c'.store ≡ s)
      × (Dict.get t.txn_id c'.txns
          ≡ some (record t { status = committed; committed_at = some end }))
unfolding finish settle store_after file save
finish-some platform c t at end s e applies =
    let (none_raised, store) =
      apply_ops-some platform t.agent_id at t.ops_buffered [] c.store s c.writes applies in
    rw (e, finish, none_raised)
      (
        refl,
        store,
        get-put_self t.txn_id (record t { status = committed; committed_at = some end }) c.txns,
      )

-- A commit of an open transaction in time, with no conflict and with operations that all succeed,
-- applies them in their order and leaves the transaction committed.
pub commit-applies :
    (platform : Platform) (c : Coordinator) (t : TxnRecord) (now at end : ℕ) (s : Store)
    → IsReady c t now
    → conflicts t c.writes t.ops_buffered ≡ []
    → apply_all platform t.agent_id at t.ops_buffered c.store ≡ some s
    → let (reply, c') = commit platform c t.txn_id now at end in
      (reply ≡ done (length t.ops_buffered))
      × (c'.store ≡ s)
      × (Dict.get t.txn_id c'.txns
          ≡ some (record t { status = committed; committed_at = some end }))
unfolding checkpoint
commit-applies platform c t now at end s r clear applies =
    rw (commit-clear platform c t now at end r clear)
      (finish-some platform (checkpoint t.agent_id t.txn_id c) t at end s r.filed applies)

settle-some :
    (platform : Platform) (t : TxnRecord) (end : ℕ) (o : Option StagedOp) (c : Coordinator)
    → is_some o ≡ true
    → (reason : String) × ((settle platform t end o c).0 ≡ failed reason)
      × (Dict.get t.txn_id (settle platform t end o c).1.txns ≡ some (rolled reason end t))
unfolding settle file save rolled
settle-some platform t end none c h = cc
settle-some platform t end (some op) c h = (_, refl, get-put_self t.txn_id (rolled _ end t) c.txns)

finish-none :
    (platform : Platform) (c : Coordinator) (t : TxnRecord) (at end : ℕ)
    → Dict.get t.txn_id c.txns ≡ some t
    → apply_all platform t.agent_id at t.ops_buffered c.store ≡ none
    → let (reply, c') = finish platform c t.txn_id at end in
      (reason : String) × (reply ≡ failed reason)
      × (Dict.get t.txn_id c'.txns ≡ some (rolled reason end t))
unfolding finish
finish-none platform c t at end e raises =
    rw (e, finish)
      (settle-some platform t end _ _
        (apply_ops-none platform t.agent_id at t.ops_buffered [] c.store c.writes raises))

-- A commit of an open transaction in time with an operation that raises never leaves it committed: it
-- is rolled back for the reason that the answer gives.
pub commit-fails :
    (platform : Platform) (c : Coordinator) (t : TxnRecord) (now at end : ℕ)
    → IsReady c t now
    → conflicts t c.writes t.ops_buffered ≡ []
    → apply_all platform t.agent_id at t.ops_buffered c.store ≡ none
    → let (reply, c') = commit platform c t.txn_id now at end in
      (reason : String) × (reply ≡ failed reason)
      × (Dict.get t.txn_id c'.txns ≡ some (rolled reason end t))
unfolding checkpoint
commit-fails platform c t now at end r clear raises =
    rw (commit-clear platform c t now at end r clear)
      (finish-none platform (checkpoint t.agent_id t.txn_id c) t at end r.filed raises)

-- An operation of the list on the resource makes the list of conflicts inhabited.
conflicts-clash :
    (t : TxnRecord) (writes : Dict (String × ℕ)) (resource : String) (ops : List StagedOp)
    → clashes t (Dict.get resource writes) ≡ true
    → any_of (λ op. op.resource == resource) ops ≡ true
    → (x : String) × (xs : List String) × (conflicts t writes ops ≡ x ∷ xs)
unfolding conflicts any_of
conflicts-clash t writes resource [] clash h = cc
conflicts-clash t writes resource (op ∷ ops) clash h =
    elim (Bool-cases (clashes t (Dict.get op.resource writes))) [
      | inl q ↦ rw (q, conflicts) (op.resource, conflicts t writes ops, refl)
      | inr q ↦ elim (Bool-cases (op.resource == resource)) [
        | inl same ↦
            ground (
              arith,
              ap (λ r. clashes t (Dict.get r writes)) ((eq_iff op.resource resource).0 same),
            )
        | inr other ↦ rw (q, conflicts) (conflicts-clash t writes resource ops clash (ground arith))
      ]
    ]

-- A write of a resource by another agent after the transaction began makes the commit of a
-- transaction with an operation on that resource a conflict: nothing is applied, no write is
-- recorded, and the transaction is rolled back with the conflicting resources.
pub external_write-conflicts :
    (platform : Platform) (c : Coordinator) (t : TxnRecord) (resource other : String)
    (written now at end : ℕ)
    → IsReady c t now
    → (other == t.agent_id) ≡ false
    → t.created_at < written
    → any_of (λ op. op.resource == resource) t.ops_buffered ≡ true
    → let c1 = record_external_write c resource other written in
      let (reply, c') = commit platform c1 t.txn_id now at end in
      (found : List String) × (reply ≡ conflicting found)
      × (c'.store ≡ c1.store)
      × (c'.writes ≡ c1.writes)
      × (Dict.get t.txn_id c'.txns
          ≡ some (record (rolled "conflict" now t) { conflict_resources = found }))
unfolding close_conflict file save record_external_write clashes
external_write-conflicts platform c t resource other written now at end r foreign late h =
    let c1 = record_external_write c resource other written in
    let r1 : IsReady c1 t now = record { filed = r.filed; live = r.live; in_time = r.in_time } in
    let clash : clashes t (Dict.get resource c1.writes) ≡ true =
      subst (λ o. clashes t o ≡ true) (sym (get-put_self resource (other, written) c.writes))
        (rw (foreign, lt→ltb t.created_at written late) refl) in
    let (x, xs, e) = conflicts-clash t c1.writes resource t.ops_buffered clash h in
    rw (commit-conflict platform c1 t now at end x xs r1 e) (
      x ∷ xs,
      refl,
      refl,
      refl,
      get-put_self t.txn_id (record (rolled "conflict" now t) { conflict_resources = x ∷ xs })
          c.txns,
    )
