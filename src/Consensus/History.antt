-- ===== src/Consensus/History.antt =====
-- agents/consensus.py: the proposals over any sequence of calls of the manager and of its reaper.
use hollow_agent_os.Base.{
  ℕ, ◌≡◌, refl, inl, inr, ap, String, ◌==◌, Bool, false, Option, none, some, List, [], ◌∷◌, arith,
  Option-cases, Bool-cases, length,
}
use hollow_agent_os.Dict
use hollow_agent_os.Dict.{Dict, get-put, get-map_values, Holds, Holds-put, Holds-map_values}
use hollow_agent_os.Consensus.Record.{Proposal, Outcome, rejected, expired, is_pending}
use hollow_agent_os.Consensus.{
  Manager, Request, Reply, new_proposal, propose, decide, enter_vote, cast, expire_late, vote,
  withdraw, expire_one, expire_stale, save, is_stale,
}
use hollow_agent_os.Consensus.Cases.{is_pending-status, vote_on_ind, vote_ind}
use hollow_agent_os.Consensus.Invariant.{
  IsValid, cast-IsValid, closed, close-IsValid, new_proposal-IsValid,
}

-- One call, with its clock readings and fresh identifiers.
pub data Call : Type 0 where
  proposes : String → ℕ → Request → Call
  votes : String → String → Bool → String → ℕ → ℕ → ℕ → Call
  withdraws : String → String → ℕ → Call
  reaps : ℕ → Call

abbrev pub after_propose : Manager → Option Manager → Manager
after_propose m none = m
after_propose m (some m') = m'

unfoldable pub step : Manager → Call → Manager
step m (proposes i now q) = after_propose m (propose m i now q)
step m (votes voter i accept reason now at end) = (vote m voter i accept reason now at end).1
step m (withdraws proposer i now) = (withdraw m proposer i now).1
step m (reaps now) = expire_stale m now

unfoldable pub run : Manager → List Call → Manager
run m [] = m
run m (c ∷ cs) = run (step m c) cs

-- Every file holds a valid proposal under its own identifier.
abbrev pub Filed : String → Proposal → Type 0
Filed i p = (p.proposal_id ≡ i) × IsValid p

abbrev pub AllFiled : Manager → Type 0
AllFiled m = (i : String) (p : Proposal) → Dict.get i m.proposals ≡ some p → Filed i p

save-AllFiled : (m : Manager) (p : Proposal) → IsValid p → AllFiled m → AllFiled (save p m)
unfolding save
save-AllFiled m p v h = Holds-put {P = Filed} p.proposal_id p m.proposals (refl, v) h

abbrev late_outcome : Outcome
late_outcome = record {
  accepted = false;
  reason = some "expired before vote cast";
  final_votes = none;
  resolved_at = none;
}

vote-AllFiled :
    (m : Manager) (voter i : String) (accept : Bool) (reason : String) (now at end : ℕ)
    → AllFiled m
    → AllFiled (vote m voter i accept reason now at end).1
unfolding expire_late cast
vote-AllFiled m voter i accept reason now at end h =
    let P : Reply × Manager → Type 0 = λ s. AllFiled s.1 in
    vote_ind P m voter accept reason now at end i (λ x. h)
      λ p e.
        vote_on_ind P m voter accept reason now at end p (λ x. h)
          (λ may _.
            save-AllFiled m (closed expired (some late_outcome) p)
              (close-IsValid p expired (some late_outcome) (h i p e).1 may.live (λ e. cc) (λ e. cc))
              h)
          (λ may _.
            save-AllFiled m (decide end (enter_vote voter accept reason at p))
              (cast-IsValid voter accept reason at end p (h i p e).1 may.live may.member may.new) h)

expire_one-Filed : (now : ℕ) (i : String) (p : Proposal) → Filed i p → Filed i (expire_one now p)
unfolding expire_one is_stale
expire_one-Filed now i p (named, v) = elim (Bool-cases (is_stale now p)) [
  | inr q ↦ rw (q, expire_one) (named, v)
  | inl q ↦
      rw (q, expire_one)
        (
          named,
          close-IsValid p expired
              (some (record {
                accepted = false;
                reason = some "ttl expired";
                final_votes = none;
                resolved_at = some now;
              }))
              v (is_pending-status p.status (ground arith)) (λ e. cc) (λ e. cc),
        )
]

withdraw-AllFiled :
    (m : Manager) (proposer i : String) (now : ℕ)
    → AllFiled m
    → AllFiled (withdraw m proposer i now).1
unfolding withdraw
withdraw-AllFiled m proposer i now h = elim (Option-cases (Dict.get i m.proposals)) [
  | inl e ↦ rw (e, withdraw) h
  | inr (p, e) ↦ elim (Bool-cases (p.proposer_id == proposer)) [
    | inr q ↦ rw (e, q, withdraw) h
    | inl q ↦ elim (Bool-cases (is_pending p.status)) [
      | inr r ↦ rw (e, q, r, withdraw) h
      | inl r ↦
          rw (e, q, r, withdraw)
            (save-AllFiled m (closed rejected _ p)
              (close-IsValid p rejected _ (h i p e).1 (is_pending-status p.status r) (λ e. cc)
                (λ e. cc))
              h)
    ]
  ]
]

propose-AllFiled :
    (m : Manager) (i : String) (now : ℕ) (q : Request) (members : List String)
    → q.participants ≡ members
    → AllFiled m
    → AllFiled (after_propose m (propose m i now q))
unfolding propose
propose-AllFiled m i now q [] e h = rw (e, propose) h
propose-AllFiled m i now q (x ∷ xs) e h =
    rw (e, propose)
      (save-AllFiled m (new_proposal i now q)
        (new_proposal-IsValid i now q (omega (arith, ap length e))) h)

pub step-AllFiled : (m : Manager) (c : Call) → AllFiled m → AllFiled (step m c)
unfolding step expire_stale
step-AllFiled m (proposes i now q) h = propose-AllFiled m i now q q.participants refl h
step-AllFiled m (votes voter i accept reason now at end) h =
    vote-AllFiled m voter i accept reason now at end h
step-AllFiled m (withdraws proposer i now) h = withdraw-AllFiled m proposer i now h
step-AllFiled m (reaps now) h =
    Holds-map_values {P = Filed} (expire_one now) m.proposals (expire_one-Filed now) h

-- Whatever is called, every proposal stays valid: its voters are distinct participants, it is
-- accepted only with the required accepting votes, and pending only while the outcome is open.
pub run-AllFiled : (m : Manager) (cs : List Call) → AllFiled m → AllFiled (run m cs)
unfolding run
run-AllFiled m [] h = h
run-AllFiled m (c ∷ cs) h = run-AllFiled (step m c) cs (step-AllFiled m c h)
