-- ===== src/Consensus/Cases.antt =====
-- agents/consensus.py, `vote`: its branches as one rule.
use hollow_agent_os.Base.{
  ℕ, ◌≡◌, refl, inl, inr, String, Bool, true, false, some, Bool-cases, ltb, contains, Option-cases,
}
use hollow_agent_os.Dict
use hollow_agent_os.Consensus.Record.{
  Proposal, Status, pending, accepted, rejected, expired, is_pending,
}
use hollow_agent_os.Consensus.{
  Manager, Reply, Refusal, refused, not_found, not_pending, not_participant, already_voted,
  past_expiry, cast, expire_late, vote_on, vote,
}

pub is_pending-status : (s : Status) → is_pending s ≡ true → s ≡ pending
is_pending-status pending h = refl
is_pending-status accepted h = cc
is_pending-status rejected h = cc
is_pending-status expired h = cc

-- What is known when a vote gets past the checks.
pub record MayVote (p : Proposal) (voter : String) : Type 0 where
  pub live : p.status ≡ pending
  pub member : contains voter p.participants ≡ true
  pub new : Dict.has_key voter p.votes ≡ false

module _ {ℓ} (P : Reply × Manager → Type ℓ) (m : Manager) (voter : String) (accept : Bool)
    (reason : String) (now at end : ℕ) where
  pub vote_on_ind :
      (p : Proposal)
      → ((x : Refusal) → P (refused x, m))
      → (MayVote p voter → ltb p.expires_at now ≡ true → P (refused past_expiry, expire_late m p))
      → (MayVote p voter → ltb p.expires_at now ≡ false → P (cast m p voter accept reason at end))
      → P (vote_on m p voter accept reason now at end)
  unfolding vote_on
  vote_on_ind p no_vote late entered = elim (Bool-cases (is_pending p.status)) [
    | inr q ↦ rw (q, vote_on) (no_vote not_pending)
    | inl q ↦ elim (Bool-cases (contains voter p.participants)) [
      | inr r ↦ rw (q, r, vote_on) (no_vote not_participant)
      | inl r ↦ elim (Bool-cases (Dict.has_key voter p.votes)) [
        | inl s ↦ rw (q, r, s, vote_on) (no_vote already_voted)
        | inr s ↦
            let may : MayVote p voter = record {
              live = is_pending-status p.status q;
              member = r;
              new = s;
            } in
            elim (Bool-cases (ltb p.expires_at now)) [
              | inl t ↦ rw (q, r, s, t, vote_on) (late may t)
              | inr t ↦ rw (q, r, s, t, vote_on) (entered may t)
            ]
      ]
    ]
  ]

  pub vote_ind :
      (i : String)
      → ((x : Refusal) → P (refused x, m))
      → ((p : Proposal)
          → Dict.get i m.proposals ≡ some p
          → P (vote_on m p voter accept reason now at end))
      → P (vote m voter i accept reason now at end)
  unfolding vote
  vote_ind i no_vote found = elim (Option-cases (Dict.get i m.proposals)) [
    | inl e ↦ rw (e, vote) (no_vote not_found)
    | inr (p, e) ↦ rw (e, vote) (found p e)
  ]
