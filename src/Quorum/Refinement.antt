-- ===== src/Quorum/Refinement.antt =====
-- agents/agent_quorum.py: the files and their index behave as a map from identifiers to proposals.
use mathlib.Core.Path.{fun_ext}
use hollow_agent_os.Base.{
  ℕ, ◌≡◌, refl, sym, ap, ◌∙◌, subst, String, ◌==◌, eq_iff, none, some, List, [], ◌∷◌, ◌++◌, arith,
  inl, inr, if◌then◌else◌, Bool-cases, Option-cases, length,
}
use hollow_agent_os.Dict
use hollow_agent_os.Dict.{get-put, get-put_self}
use hollow_agent_os.Quorum.Store.{Quorum, ProposalRecord, rows, row, row-append, row-append_last}
use hollow_agent_os.Quorum.{propose, get_proposal}
use hollow_agent_os.Quorum.Rows.{
  update, IsIndexed, get_proposal-none, get_proposal-some, some_row, row_of-IsIndexed,
}
use hollow_agent_os.Quorum.Calls.{
  Op, step, run, replay_one, replay, Answers, vote-Refines, finalize-Answers, withdraw-Answers,
  proposes, votes, finalizes, withdraws,
}

-- The entry of the index after a proposal is filed.
propose-index :
    (q : Quorum) (p : ProposalRecord) (j : String)
    → Dict.get j (rows (propose q p).index)
      ≡ (if p.proposal_id == j then some (length (rows q.proposals)) else Dict.get j (rows q.index))
unfolding propose
propose-index q p j = get-put p.proposal_id j (length (rows q.proposals)) (rows q.index)

-- The index stays in order, and the entry leads to what the map has.
propose-at :
    (q : Quorum) (p : ProposalRecord)
    → IsIndexed q
    → (j : String) (n : ℕ) → Dict.get j (rows (propose q p).index) ≡ some n
    → (r : ProposalRecord) × (row n (rows (propose q p).proposals) ≡ some r)
      × (r.proposal_id ≡ j)
      × (update (get_proposal q) p.proposal_id p j ≡ some r)
unfolding propose
propose-at q p h j n e = elim (Bool-cases (p.proposal_id == j)) [
  | inl same ↦ (
    p,
    subst (λ k. row k (rows q.proposals ++ p ∷ []) ≡ some p)
        (some_row (length (rows q.proposals)) n (ground (arith, propose-index q p j)))
        (row-append_last (rows q.proposals) p),
    (eq_iff p.proposal_id j).0 same,
    rw (same) refl,
  )
  | inr other ↦
      let f : Dict.get j (rows q.index) ≡ some n = ground (arith, propose-index q p j) in
      let (r, at_n, id_r) = h j n f in
      (
        r,
        row-append n (rows q.proposals) p r at_n,
        id_r,
        rw (other) (get_proposal-some q j n (row_of-IsIndexed q j h ∙ f) ∙ at_n),
      )
]

propose-IsIndexed : (q : Quorum) (p : ProposalRecord) → IsIndexed q → IsIndexed (propose q p)
propose-IsIndexed q p h j n e =
    let (r, at_n, id_r, now_r) = propose-at q p h j n e in (r, at_n, id_r)

propose-absent :
    (q : Quorum) (p : ProposalRecord) (j : String)
    → IsIndexed q
    → Dict.get j (rows (propose q p).index) ≡ none
    → update (get_proposal q) p.proposal_id p j ≡ none
propose-absent q p j h e = elim (Bool-cases (p.proposal_id == j)) [
  | inl same ↦ ground (arith, propose-index q p j)
  | inr other ↦
      let f : Dict.get j (rows q.index) ≡ none = ground (arith, propose-index q p j) in
      rw (other) (get_proposal-none q j (row_of-IsIndexed q j h ∙ f))
]

propose-get :
    (q : Quorum) (p : ProposalRecord)
    → IsIndexed q
    → (j : String) → get_proposal (propose q p) j ≡ update (get_proposal q) p.proposal_id p j
propose-get q p h j = elim (Option-cases (Dict.get j (rows (propose q p).index))) [
  | inl e ↦
      get_proposal-none (propose q p) j
        (row_of-IsIndexed (propose q p) j (propose-IsIndexed q p h) ∙ e)
      ∙ sym (propose-absent q p j h e)
  | inr (n, e) ↦
      let (r, at_n, id_r, now_r) = propose-at q p h j n e in
      get_proposal-some (propose q p) j n
        (row_of-IsIndexed (propose q p) j (propose-IsIndexed q p h) ∙ e)
      ∙ at_n
      ∙ sym now_r
]

propose-Answers :
    (q : Quorum) (p : ProposalRecord)
    → IsIndexed q
    → Answers
        (step q (proposes p))
        q.percentage
        (replay_one q.percentage (get_proposal q) (proposes p))
unfolding step replay_one propose
propose-Answers q p h =
    (propose q p, refl, (propose-IsIndexed q p h, refl, fun_ext (propose-get q p h)))

step-Answers :
    (q : Quorum) (o : Op)
    → IsIndexed q
    → Answers (step q o) q.percentage (replay_one q.percentage (get_proposal q) o)
unfolding replay_one
step-Answers q (proposes p) h = propose-Answers q p h
step-Answers q (votes i voter v now) h = vote-Refines q i voter v now h
step-Answers q (finalizes i now) h = finalize-Answers q i now h
step-Answers q (withdraws i who) h = withdraw-Answers q i who h

-- From files whose index is in order, every sequence of proposals, votes, finalizations and
-- withdrawals runs to its end without an IndexError, leaves the index in order, and the proposals
-- that get_proposal then finds are those that the same calls leave in a plain map from identifiers to
-- proposals.
pub run_refines :
    (q : Quorum) (ops : List Op)
    → IsIndexed q
    → (q' : Quorum) × (run q ops ≡ some q')
      × IsIndexed q'
      × (get_proposal q' ≡ replay q.percentage (get_proposal q) ops)
unfolding run replay
run_refines q [] h = (q, refl, h, refl)
run_refines q (o ∷ ops) h =
    let (q1, e1, (h1, pc, g1)) = step-Answers q o h in
    let (q2, e2, h2, g2) = run_refines q1 ops h1 in
    (
      q2,
      rw (e1, run) e2,
      h2,
      g2 ∙ ap (λ n. replay n (get_proposal q1) ops) pc ∙ ap (λ f. replay q.percentage f ops) g1,
    )
