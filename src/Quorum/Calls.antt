-- ===== src/Quorum/Calls.antt =====
-- agents/agent_quorum.py: the calls on the files and on the map, and the calls that change a proposal.
use hollow_agent_os.Base.{
  ℕ, ◌≡◌, refl, sym, ◌∙◌, subst, String, ◌==◌, ◌&&◌, Bool, true, false, Option, none, some, List,
  [], ◌∷◌, inl, inr, if◌then◌else◌, if_ind, Bool-cases, Option-cases,
}
use hollow_agent_os.Quorum.Store.{Quorum, ProposalRecord, withdrawn, is_pending}
use hollow_agent_os.Quorum.{
  propose, row_of, get_proposal, with_vote, cast_vote, vote, finalized, rewrite, finalize_proposal,
  withdraw_proposal,
}
use hollow_agent_os.Quorum.Rows.{
  View, update, change, IsIndexed, Refines, get_proposal-some, change-same, write_row-Refines,
  not_filed, filed,
}

pub data Op : Type 0 where
  proposes : ProposalRecord → Op
  votes : (proposal_id voter_id : String) (v : Bool) (now : ℕ) → Op
  finalizes : (proposal_id : String) (now : ℕ) → Op
  withdraws : (proposal_id withdrawer_id : String) → Op

-- The calls on the files; `none` where one raises.
unfoldable pub step : Quorum → Op → Option Quorum
step q (proposes p) = some (propose q p)
step q (votes i voter v now) = elim (vote q i voter v now) [ none ↦ none | some r ↦ some r.1 ]
step q (finalizes i now) = some (finalize_proposal q i now).1
step q (withdraws i who) = some (withdraw_proposal q i who).1

unfoldable pub run : Quorum → List Op → Option Quorum
run q [] = some q
run q (o ∷ ops) = elim (step q o) [ none ↦ none | some q' ↦ run q' ops ]

-- The same calls on the map.
unfoldable pub replay_one : ℕ → View → Op → View
replay_one percentage f (proposes p) = update f p.proposal_id p
replay_one percentage f (votes i voter v now) = change f i (with_vote voter v)
replay_one percentage f (finalizes i now) =
    change f i (λ p. if is_pending p.status then finalized percentage now p else p)
replay_one percentage f (withdraws i who) = change f i (λ p.
    if is_pending p.status && p.proposer_id == who then record p { status = withdrawn } else p)

unfoldable pub replay : ℕ → View → List Op → View
replay percentage f [] = f
replay percentage f (o ∷ ops) = replay percentage (replay_one percentage f o) ops

-- A call answers, with a state of the files that refines the map.
abbrev pub Answers : Option Quorum → ℕ → View → Type 0
Answers r percentage f = (q' : Quorum) × (r ≡ some q') × Refines q' percentage f

pub vote-Refines :
    (q : Quorum) (i voter : String) (v : Bool) (now : ℕ)
    → IsIndexed q
    → Answers
        (step q (votes i voter v now))
        q.percentage
        (change (get_proposal q) i (with_vote voter v))
unfolding step vote cast_vote get_proposal
vote-Refines q i voter v now h = elim (Option-cases (row_of q i)) [
  | inl e ↦ (
    q,
    rw (e, step, vote) refl,
    (
      h,
      refl,
      change-same (get_proposal q) i (with_vote voter v) (λ p f. absurd (not_filed q i p e f)),
    ),
  )
  | inr (n, e) ↦
      let (p, at_n, id_p) = filed q i n h e in
      (
        cast_vote q n p i voter v now,
        rw (e, at_n, step, vote) refl,
        write_row-Refines q i n p (with_vote voter v) h e at_n (λ r. refl),
      )
]

rewrite-Refines :
    (q : Quorum) (i : String) (p : ProposalRecord) (g : ProposalRecord → ProposalRecord)
    → IsIndexed q
    → get_proposal q i ≡ some p
    → ((r : ProposalRecord) → (g r).proposal_id ≡ r.proposal_id)
    → Refines (rewrite q i (g p)) q.percentage (change (get_proposal q) i g)
unfolding rewrite
rewrite-Refines q i p g h e keeps = elim (Option-cases (row_of q i)) [
  | inl f ↦ absurd (not_filed q i p f e)
  | inr (n, f) ↦
      rw (f, rewrite) (write_row-Refines q i n p g h f (sym (get_proposal-some q i n f) ∙ e) keeps)
]

-- A call that changes the proposal where `test` holds of it.
module _ (test : ProposalRecord → Bool) (g : ProposalRecord → ProposalRecord) where
  abbrev guarded : ProposalRecord → ProposalRecord
  guarded p = if test p then g p else p

  guarded_on-Refines :
      (q : Quorum) (i : String) (p : ProposalRecord)
      → IsIndexed q
      → get_proposal q i ≡ some p
      → test p ≡ true
      → ((r : ProposalRecord) → (g r).proposal_id ≡ r.proposal_id)
      → Refines (rewrite q i (g p)) q.percentage (change (get_proposal q) i guarded)
  guarded_on-Refines q i p h e on keeps =
      subst (λ r. Refines (rewrite q i r) q.percentage (change (get_proposal q) i guarded))
        (rw (on) refl)
        (rewrite-Refines q i p guarded h e (λ r.
          if_ind (λ (x : ProposalRecord). x.proposal_id ≡ r.proposal_id) (test r) (g r) r
            (λ b. keeps r) (λ b. refl)))

  guarded_off-Refines :
      (q : Quorum) (i : String)
      → IsIndexed q
      → ((p : ProposalRecord) → get_proposal q i ≡ some p → test p ≡ false)
      → Refines q q.percentage (change (get_proposal q) i guarded)
  guarded_off-Refines q i h off =
      (h, refl, change-same (get_proposal q) i guarded (λ p e. rw (off p e, guarded) refl))

  -- The answer of such a call, by the three cases.
  guarded-Answers :
      (q : Quorum) (i : String) (r : Option Quorum)
      → IsIndexed q
      → ((p : ProposalRecord) → (g p).proposal_id ≡ p.proposal_id)
      → (get_proposal q i ≡ none → r ≡ some q)
      → ((p : ProposalRecord)
          → get_proposal q i ≡ some p
          → r ≡ (if test p then some (rewrite q i (g p)) else some q))
      → Answers r q.percentage (change (get_proposal q) i guarded)
  guarded-Answers q i r h keeps absent present = elim (Option-cases (get_proposal q i)) [
    | inl e ↦ (q, absent e, guarded_off-Refines q i h (λ p f. cc))
    | inr (p, e) ↦ elim (Bool-cases (test p)) [
      | inl on ↦
          (rewrite q i (g p), present p e ∙ rw (on) refl, guarded_on-Refines q i p h e on keeps)
      | inr off ↦ (q, present p e ∙ rw (off) refl, guarded_off-Refines q i h (λ r f. cc))
    ]
  ]

if_some :
    (b : Bool) (x y : Bool × Quorum)
    → some ((if b then x else y).1) ≡ (if b then some x.1 else some y.1)
if_some true x y = refl
if_some false x y = refl

pub finalize-Answers :
    (q : Quorum) (i : String) (now : ℕ)
    → IsIndexed q
    → Answers
        (step q (finalizes i now))
        q.percentage
        (replay_one q.percentage (get_proposal q) (finalizes i now))
unfolding step replay_one finalize_proposal finalized
finalize-Answers q i now h =
    guarded-Answers (λ p. is_pending p.status) (finalized q.percentage now) q i
      (step q (finalizes i now)) h (λ p. refl) (λ e. rw (e, step, finalize_proposal) refl)
      (λ p e. rw (e, step, finalize_proposal) (if_some (is_pending p.status) _ _))

pub withdraw-Answers :
    (q : Quorum) (i who : String)
    → IsIndexed q
    → Answers
        (step q (withdraws i who))
        q.percentage
        (replay_one q.percentage (get_proposal q) (withdraws i who))
unfolding step replay_one withdraw_proposal
withdraw-Answers q i who h =
    guarded-Answers (λ p. is_pending p.status && p.proposer_id == who)
      (λ p. record p { status = withdrawn }) q i (step q (withdraws i who)) h (λ p. refl)
      (λ e. rw (e, step, withdraw_proposal) refl)
      (λ p e.
        rw (e, step, withdraw_proposal) (if_some (is_pending p.status && p.proposer_id == who) _ _))
