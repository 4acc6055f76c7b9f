-- ===== src/Consensus/Finality.antt =====
-- agents/consensus.py: a proposal that is resolved stays as it is, and what one vote does.
use hollow_agent_os.Base.{
  ℕ, ◌≡◌, ◌≢◌, refl, inl, inr, sym, ◌∙◌, subst, ap, String, ◌==◌, eq_iff, Bool, true, false, some,
  List, [], ◌∷◌, arith, Option-cases, Bool-cases, All,
}
use hollow_agent_os.Dict
use hollow_agent_os.Dict.{Dict, get-put, get-put_self, get-map_values, Holds, length-remove-lt}
use hollow_agent_os.Consensus.Record.{
  Proposal, Status, pending, accepted, rejected, expired, is_pending,
}
use hollow_agent_os.Consensus.{
  Manager, Request, Reply, new_proposal, propose, decide, enter_vote, cast, expire_late, vote,
  withdraw, expire_one, expire_stale, save, is_stale,
}
use hollow_agent_os.Consensus.Cases.{MayVote, vote_on_ind, vote_ind}
use hollow_agent_os.Consensus.Invariant.{decide-fields}
use hollow_agent_os.Consensus.History.{
  Call, proposes, votes, withdraws, reaps, step, run, AllFiled, step-AllFiled, after_propose,
}

-- A call that does not file a new proposal under the identifier.
abbrev pub Spares : String → Call → Type 0
Spares i (proposes j now q) = (j == i) ≡ false
Spares i _ = Unit {0}

get-save_ne :
    (m : Manager) (p : Proposal) (i : String)
    → (p.proposal_id == i) ≡ false
    → Dict.get i (save p m).proposals ≡ Dict.get i m.proposals
unfolding save
get-save_ne m p i other = ground (arith, get-put p.proposal_id i p m.proposals)

-- A pending proposal that is filed under `j` is not the resolved one.
distinct :
    (m : Manager) (i j : String) (p r : Proposal)
    → AllFiled m
    → Dict.get i m.proposals ≡ some p
    → Dict.get j m.proposals ≡ some r
    → is_pending p.status ≡ false
    → is_pending r.status ≡ true
    → (r.proposal_id == i) ≡ false
distinct m i j p r h e f done live = elim (Bool-cases (r.proposal_id == i)) [
  | inr q ↦ q
  | inl q ↦
      let same : i ≡ j = sym ((eq_iff r.proposal_id i).0 q) ∙ (h j r f).0 in
      let one : p ≡ r = ground (arith, subst (λ k. Dict.get k m.proposals ≡ some p) same e) in
      ground (arith, ap (λ (x : Proposal). is_pending x.status) one)
]

live-is_pending : (r : Proposal) {voter : String} → MayVote r voter → is_pending r.status ≡ true
live-is_pending r may = ground (arith, may.live)

not_live : (s : Status) → s ≢ pending → is_pending s ≡ false
not_live pending h = absurd (h refl)
not_live accepted h = refl
not_live rejected h = refl
not_live expired h = refl

-- A vote on one proposal writes no other proposal, and none that is resolved.
vote-Spares :
    (m : Manager) (i : String) (p : Proposal) (voter j : String) (accept : Bool) (reason : String)
    (now at end : ℕ)
    → AllFiled m
    → Dict.get i m.proposals ≡ some p
    → is_pending p.status ≡ false
    → Dict.get i (vote m voter j accept reason now at end).1.proposals ≡ some p
unfolding expire_late cast enter_vote
vote-Spares m i p voter j accept reason now at end h e done =
    let P : Reply × Manager → Type 0 = λ s. Dict.get i s.1.proposals ≡ some p in
    vote_ind P m voter accept reason now at end j (λ x. e)
      λ r f.
        vote_on_ind P m voter accept reason now at end r (λ x. e)
          (λ may _. get-save_ne m _ i (distinct m i j p r h e f done (live-is_pending r may)) ∙ e)
          (λ may _.
            get-save_ne m (decide end (enter_vote voter accept reason at r)) i (
              subst (λ k. (k == i) ≡ false)
                (sym (decide-fields end (enter_vote voter accept reason at r)).3)
                (distinct m i j p r h e f done (live-is_pending r may)))
            ∙ e)

withdraw-Spares :
    (m : Manager) (i : String) (p : Proposal) (proposer j : String) (now : ℕ)
    → AllFiled m
    → Dict.get i m.proposals ≡ some p
    → is_pending p.status ≡ false
    → Dict.get i (withdraw m proposer j now).1.proposals ≡ some p
unfolding withdraw
withdraw-Spares m i p proposer j now h e done = elim (Option-cases (Dict.get j m.proposals)) [
  | inl f ↦ rw (f, withdraw) e
  | inr (r, f) ↦ elim (Bool-cases (r.proposer_id == proposer)) [
    | inr q ↦ rw (f, q, withdraw) e
    | inl q ↦ elim (Bool-cases (is_pending r.status)) [
      | inr live ↦ rw (f, q, live, withdraw) e
      | inl live ↦
          rw (f, q, live, withdraw) (get-save_ne m _ i (distinct m i j p r h e f done live) ∙ e)
    ]
  ]
]

propose-Spares :
    (m : Manager) (i j : String) (now : ℕ) (q : Request) (members : List String)
    → q.participants ≡ members
    → (j == i) ≡ false
    → Dict.get i (after_propose m (propose m j now q)).proposals ≡ Dict.get i m.proposals
unfolding propose new_proposal
propose-Spares m i j now q [] e other = rw (e, propose)
propose-Spares m i j now q (x ∷ xs) e other =
    rw (e, propose) (get-save_ne m (new_proposal j now q) i other)

reap-Spares :
    (m : Manager) (i : String) (p : Proposal) (now : ℕ)
    → Dict.get i m.proposals ≡ some p
    → is_pending p.status ≡ false
    → Dict.get i (expire_stale m now).proposals ≡ some p
unfolding expire_stale expire_one is_stale
reap-Spares m i p now e done = ground (arith, get-map_values (expire_one now) i m.proposals)

step-Spares :
    (m : Manager) (i : String) (p : Proposal) (c : Call)
    → AllFiled m
    → Dict.get i m.proposals ≡ some p
    → is_pending p.status ≡ false
    → Spares i c
    → Dict.get i (step m c).proposals ≡ some p
unfolding step
step-Spares m i p (proposes j now q) h e done other =
    propose-Spares m i j now q q.participants refl other ∙ e
step-Spares m i p (votes voter j accept reason now at end) h e done _ =
    vote-Spares m i p voter j accept reason now at end h e done
step-Spares m i p (withdraws proposer j now) h e done _ =
    withdraw-Spares m i p proposer j now h e done
step-Spares m i p (reaps now) h e done _ = reap-Spares m i p now e done

-- A decision is final: a proposal that was accepted, rejected, withdrawn or expired is never changed
-- again by any sequence of votes, withdrawals, reaper passes and proposals under other identifiers.
pub run-Spares :
    (m : Manager) (i : String) (p : Proposal) (cs : List Call)
    → AllFiled m
    → Dict.get i m.proposals ≡ some p
    → p.status ≢ pending
    → All (Spares i) cs
    → Dict.get i (run m cs).proposals ≡ some p
unfolding run
run-Spares m i p [] h e done _ = e
run-Spares m i p (c ∷ cs) h e done (s, ss) =
    run-Spares (step m c) i p cs (step-AllFiled m c h)
      (step-Spares m i p c h e (not_live p.status done) s) done ss
