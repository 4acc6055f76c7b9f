-- ===== src/Consensus/Decision.antt =====
-- agents/consensus.py: what one vote decides, and who has to vote until a proposal is decided.
use hollow_agent_os.Base.{
  ℕ, ◌+◌, ◌-◌, ◌≤◌, ◌<◌, ◌≡◌, refl, ◌⊎◌, inl, inr, sym, ◌∙◌, subst, String, eq_refl, Bool, true,
  false, some, arith, if◌then◌else◌, Bool-cases, contains, length,
}
use hollow_agent_os.Dict
use hollow_agent_os.Dict.{Dict, get-put, get-put_self, get-remove, has_key-put, length-remove-lt}
use hollow_agent_os.Consensus.Record.{
  Proposal, Status, pending, accepted, rejected, is_pending, accepts, remaining,
}
use hollow_agent_os.Consensus.{
  Manager, Refusal, Tally, tally_of, ok, refused, not_pending, not_participant, already_voted,
  decide, enter_vote, cast, vote_on, vote, save,
}
use hollow_agent_os.Consensus.Cases.{MayVote}
use hollow_agent_os.Consensus.Invariant.{decide-fields, decide_cases, enter_vote-counts}

-- The count of accepting votes after the vote, and the participants that are left.
abbrev pub yes_after : Proposal → Bool → ℕ
yes_after p accept = accepts p + (if accept then 1 else 0)

abbrev pub left_after : Proposal → ℕ
left_after p = length p.participants - (length p.votes + 1)

-- How the count settles the new status.
abbrev pub Settles : Proposal → Bool → Status → Type 0
Settles p accept s =
    ((s ≡ accepted) × (p.required_votes ≤ yes_after p accept))
    ⊎ ((s ≡ rejected) × (yes_after p accept + left_after p < p.required_votes))
    ⊎ ((s ≡ pending)
        × (yes_after p accept < p.required_votes)
        × (p.required_votes ≤ yes_after p accept + left_after p))

enter_vote-left :
    (i : String) (accept : Bool) (reason : String) (at : ℕ) (p : Proposal)
    → Dict.has_key i p.votes ≡ false
    → remaining (enter_vote i accept reason at p) ≡ left_after p
unfolding remaining enter_vote
enter_vote-left i accept reason at p h = omega (arith, (enter_vote-counts i accept reason at p h).2)

enter_vote-Settles :
    (i : String) (accept : Bool) (reason : String) (at end : ℕ) (p : Proposal)
    → p.status ≡ pending
    → Dict.has_key i p.votes ≡ false
    → Settles p accept (decide end (enter_vote i accept reason at p)).status
unfolding enter_vote
enter_vote-Settles i accept reason at end p live h =
    let p' = enter_vote i accept reason at p in
    let yes : accepts p' ≡ yes_after p accept = (enter_vote-counts i accept reason at p h).0 in
    let left : remaining p' ≡ left_after p = enter_vote-left i accept reason at p h in
    elim (decide_cases end p' live) [
      | inl (s, k) ↦ inl (s, omega (arith, yes))
      | inr (inl (s, k)) ↦ inr (inl (s, omega (arith, yes, left)))
      | inr (inr (s, k, l)) ↦ inr (inr (s, omega (arith, yes), omega (arith, yes, left)))
    ]

enter_vote-id :
    (i : String) (accept : Bool) (reason : String) (at : ℕ) (p : Proposal)
    → (enter_vote i accept reason at p).proposal_id ≡ p.proposal_id
unfolding enter_vote
enter_vote-id i accept reason at p = refl

enter_vote-votes :
    (i : String) (accept : Bool) (reason : String) (at : ℕ) (p : Proposal)
    → (enter_vote i accept reason at p).votes
      ≡ Dict.put i (record { accept = accept; reason = reason; cast_at = at }) p.votes
unfolding enter_vote
enter_vote-votes i accept reason at p = refl

saved :
    (p : Proposal) (m : Manager) (i : String)
    → p.proposal_id ≡ i
    → Dict.get i (save p m).proposals ≡ some p
unfolding save
saved p m i named =
    subst (λ k. Dict.get k (save p m).proposals ≡ some p) named
      (get-put_self p.proposal_id p m.proposals)

vote-eq-cast :
    (m : Manager) (p : Proposal) (voter i : String) (accept : Bool) (reason : String)
    (now at end : ℕ)
    → Dict.get i m.proposals ≡ some p
    → MayVote p voter
    → now ≤ p.expires_at
    → vote m voter i accept reason now at end ≡ cast m p voter accept reason at end
unfolding vote vote_on
vote-eq-cast m p voter i accept reason now at end e may timely =
    ground (arith, may.live, may.member, may.new)

-- The vote of a participant that has not voted, on a pending proposal and in time, is counted, filed
-- and settles the status: accepted as soon as the required number accept, rejected as soon as the
-- votes that are left cannot bring that number, and else pending.
pub vote-Settles :
    (m : Manager) (p : Proposal) (voter i : String) (accept : Bool) (reason : String)
    (now at end : ℕ)
    → p.proposal_id ≡ i
    → Dict.get i m.proposals ≡ some p
    → MayVote p voter
    → now ≤ p.expires_at
    → let (reply, m') = vote m voter i accept reason now at end in
      (q : Proposal) × (t : Tally) × (Dict.get i m'.proposals ≡ some q)
      × (reply ≡ ok t)
      × (q.votes
          ≡ Dict.put voter (record { accept = accept; reason = reason; cast_at = at }) p.votes)
      × (t.current_accepts ≡ yes_after p accept)
      × (t.status ≡ q.status)
      × Settles p accept q.status
unfolding cast
vote-Settles m p voter i accept reason now at end named e may timely =
    let p' = enter_vote voter accept reason at p in
    let q = decide end p' in
    let (votes, _, _, same, counted, _) = decide-fields end p' in
    rw (vote-eq-cast m p voter i accept reason now at end e may timely) (
      q,
      tally_of voter accept q,
      saved q m i (same ∙ enter_vote-id voter accept reason at p ∙ named),
      refl,
      votes ∙ enter_vote-votes voter accept reason at p,
      counted ∙ (enter_vote-counts voter accept reason at p may.new).0,
      refl,
      enter_vote-Settles voter accept reason at end p may.live may.new,
    )

-- Whoever has voted is refused.
voted_refused :
    (m : Manager) (q : Proposal) (voter i : String) (accept : Bool) (reason : String) (now : ℕ)
    → Dict.get i m.proposals ≡ some q
    → Dict.has_key voter q.votes ≡ true
    → (x : Refusal) × (vote m voter i accept reason now now now ≡ (refused x, m))
unfolding vote vote_on
voted_refused m q voter i accept reason now e voted = elim (Bool-cases (is_pending q.status)) [
  | inr r ↦ (not_pending, ground arith)
  | inl r ↦ elim (Bool-cases (contains voter q.participants)) [
    | inr s ↦ (not_participant, ground arith)
    | inl s ↦ (already_voted, ground arith)
  ]
]

-- Voting twice never counts twice: a second vote of the same agent is refused and changes nothing.
pub vote_twice :
    (m : Manager) (p : Proposal) (voter i : String) (accept again : Bool) (reason : String)
    (now at end later : ℕ)
    → p.proposal_id ≡ i
    → Dict.get i m.proposals ≡ some p
    → MayVote p voter
    → now ≤ p.expires_at
    → let m' = (vote m voter i accept reason now at end).1 in
      (x : Refusal) × (vote m' voter i again reason later later later ≡ (refused x, m'))
vote_twice m p voter i accept again reason now at end later named e may timely =
    let (q, t, filed, _, votes, _, _, _) =
      vote-Settles m p voter i accept reason now at end named e may timely in
    let m' = (vote m voter i accept reason now at end).1 in
    voted_refused m' q voter i again reason later filed (
      subst (λ d. Dict.has_key voter d ≡ true) (sym votes)
        (ground (
          arith,
          has_key-put voter voter (record { accept = accept; reason = reason; cast_at = at })
              p.votes,
          eq_refl voter,
        )))
