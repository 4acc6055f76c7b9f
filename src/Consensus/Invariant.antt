-- ===== src/Consensus/Invariant.antt =====
-- agents/consensus.py: what holds of a proposal at all times, and that every operation keeps it.
use hollow_agent_os.Base.{
  ℕ, ◌+◌, ◌≤◌, ◌<◌, ◌≡◌, refl, ◌≢◌, ◌⊎◌, inl, inr, subst, String, ◌==◌, eq_iff, Bool, true, false,
  not, Option, List, [], ◌∷◌, arith, if◌then◌else◌, Bool-cases, contains, length,
}
use hollow_agent_os.Dict
use hollow_agent_os.Dict.{
  Dict, get-put, length-put_new, count_if-put_new, has_key-put, length-remove-lt,
}
use hollow_agent_os.Consensus.Record.{
  Proposal, Vote, Outcome, Status, pending, accepted, rejected, expired, accepts, rejects,
  remaining,
}
use hollow_agent_os.Consensus.{Request, new_proposal, decide, enter_vote}

-- The voters are distinct participants.
abbrev pub AreVoters : List String → Dict Vote → Type 0
AreVoters participants [] = Unit
AreVoters participants ((i, v) ∷ votes) =
    (contains i participants ≡ true) × (Dict.has_key i votes ≡ false) × AreVoters participants votes

-- What the status says about the count.
abbrev pub Decided : Proposal → Status → Type 0
Decided p pending = (accepts p < p.required_votes) × (p.required_votes ≤ accepts p + remaining p)
Decided p accepted = p.required_votes ≤ accepts p
Decided p rejected = accepts p < p.required_votes
Decided p expired = accepts p < p.required_votes

pub record IsValid (p : Proposal) : Type 0 where
  pub some_required : 1 ≤ p.required_votes
  pub enough_participants : p.required_votes ≤ length p.participants
  pub voters : AreVoters p.participants p.votes
  pub decided : Decided p p.status

-- The first occurrence of a text is taken out of a list.
erase : String → List String → List String
erase i [] = []
erase i (y ∷ ys) = let rest = erase i ys in if y == i then ys else y ∷ rest

length-erase :
    (i : String) (xs : List String) → contains i xs ≡ true → length (erase i xs) + 1 ≡ length xs
unfolding contains erase
length-erase i [] h = cc
length-erase i (y ∷ ys) h = ground (arith, length-erase i ys)

contains-erase :
    (i j : String) (xs : List String)
    → (i == j) ≡ false
    → contains j xs ≡ true
    → contains j (erase i xs) ≡ true
unfolding contains erase
contains-erase i j [] other h = cc
contains-erase i j (y ∷ ys) other h =
    ground (arith, contains-erase i j ys, eq_iff y i, eq_iff y j, eq_iff i j)

AreVoters-erase :
    (i : String) (xs : List String) (votes : Dict Vote)
    → Dict.has_key i votes ≡ false
    → AreVoters xs votes
    → AreVoters (erase i xs) votes
unfolding Dict.has_key Dict.get
AreVoters-erase i xs [] h v = tt
AreVoters-erase i xs ((j, w) ∷ votes) h v = (
  contains-erase i j xs (ground (arith, eq_iff i j, eq_iff j i)) v.0,
  v.1,
  AreVoters-erase i xs votes (ground arith) v.2,
)

-- No more agents vote than take part.
pub AreVoters-length-le :
    (xs : List String) (votes : Dict Vote) → AreVoters xs votes → length votes ≤ length xs
AreVoters-length-le xs [] v = omega arith
AreVoters-length-le xs ((i, w) ∷ votes) v = omega (
  arith,
  length-erase i xs v.0,
  AreVoters-length-le (erase i xs) votes (AreVoters-erase i xs votes v.1 v.2),
)

AreVoters-put :
    (xs : List String) (i : String) (w : Vote) (votes : Dict Vote)
    → contains i xs ≡ true
    → Dict.has_key i votes ≡ false
    → AreVoters xs votes
    → AreVoters xs (Dict.put i w votes)
unfolding Dict.put Dict.has_key Dict.get
AreVoters-put xs i w [] c h v = (c, refl, tt)
AreVoters-put xs i w ((j, u) ∷ votes) c h v = elim (Bool-cases (j == i)) [
  | inl q ↦ cc
  | inr q ↦
      rw (q, Dict.put)
        (
          v.0,
          ground (arith, has_key-put i j w votes, eq_iff i j, eq_iff j i, v.1),
          AreVoters-put xs i w votes c (ground arith) v.2,
        )
]

-- The counts after a vote is entered.
pub enter_vote-counts :
    (i : String) (accept : Bool) (reason : String) (at : ℕ) (p : Proposal)
    → Dict.has_key i p.votes ≡ false
    → let p' = enter_vote i accept reason at p in
      (accepts p' ≡ accepts p + (if accept then 1 else 0))
      × (rejects p' ≡ rejects p + (if accept then 0 else 1))
      × (length p'.votes ≡ length p.votes + 1)
unfolding enter_vote accepts rejects
enter_vote-counts i accept reason at p h = (
  count_if-put_new (λ v. v.accept) i (record { accept = accept; reason = reason; cast_at = at })
      p.votes h,
  ground (
    arith,
    count_if-put_new (λ v. not v.accept) i
        (record { accept = accept; reason = reason; cast_at = at }) p.votes h,
  ),
  length-put_new i (record { accept = accept; reason = reason; cast_at = at }) p.votes h,
)

-- The three outcomes of `decide` on a pending proposal.
pub decide_cases :
    (at : ℕ) (p : Proposal)
    → p.status ≡ pending
    → (((decide at p).status ≡ accepted) × (p.required_votes ≤ accepts p))
      ⊎ (((decide at p).status ≡ rejected) × (accepts p + remaining p < p.required_votes))
      ⊎ (((decide at p).status ≡ pending)
          × (accepts p < p.required_votes)
          × (p.required_votes ≤ accepts p + remaining p))
unfolding decide
decide_cases at p live = ground arith

-- `decide` changes nothing that is counted.
pub decide-fields :
    (at : ℕ) (p : Proposal)
    → ((decide at p).votes ≡ p.votes)
      × ((decide at p).participants ≡ p.participants)
      × ((decide at p).required_votes ≡ p.required_votes)
      × ((decide at p).proposal_id ≡ p.proposal_id)
      × (accepts (decide at p) ≡ accepts p)
      × (remaining (decide at p) ≡ remaining p)
unfolding decide accepts remaining
decide-fields at p =
    (ground arith, ground arith, ground arith, ground arith, ground arith, ground arith)

Decided-decide :
    (at : ℕ) (p : Proposal) → p.status ≡ pending → Decided (decide at p) (decide at p).status
Decided-decide at p live =
    let (_, _, required, _, yes_votes, left) = decide-fields at p in
    elim (decide_cases at p live) [
      | inl (s, h) ↦ simp s (omega arith)
      | inr (inl (s, h)) ↦ simp s (omega arith)
      | inr (inr (s, h, k)) ↦ simp s (omega arith, omega arith)
    ]

-- A vote that passes the checks keeps the proposal valid.
pub cast-IsValid :
    (i : String) (accept : Bool) (reason : String) (at end : ℕ) (p : Proposal)
    → IsValid p
    → p.status ≡ pending
    → contains i p.participants ≡ true
    → Dict.has_key i p.votes ≡ false
    → IsValid (decide end (enter_vote i accept reason at p))
unfolding enter_vote
cast-IsValid i accept reason at end p v live member new =
    let p' = enter_vote i accept reason at p in
    let (votes, members, required, _, _, _) = decide-fields end p' in
    record {
      some_required = omega (arith, v.some_required);
      enough_participants = ground (arith, v.enough_participants);
      voters =
          rw (votes, members)
            (AreVoters-put p.participants i
              (record { accept = accept; reason = reason; cast_at = at }) p.votes member new
              v.voters);
      decided = Decided-decide end p' live;
    }

-- Closing a pending proposal without acceptance, as `withdraw` and the two expiries do.
abbrev pub closed : Status → Option Outcome → Proposal → Proposal
closed s o p = record p { status = s; result = o }

pub close-IsValid :
    (p : Proposal) (s : Status) (o : Option Outcome)
    → IsValid p
    → p.status ≡ pending
    → s ≢ pending
    → s ≢ accepted
    → IsValid (closed s o p)
unfolding accepts
close-IsValid p pending o v live a b = absurd (a refl)
close-IsValid p accepted o v live a b = absurd (b refl)
close-IsValid p rejected o v live a b = record {
  some_required = v.some_required;
  enough_participants = v.enough_participants;
  voters = v.voters;
  decided = (subst (Decided p) live v.decided).0;
}
close-IsValid p expired o v live a b = record {
  some_required = v.some_required;
  enough_participants = v.enough_participants;
  voters = v.voters;
  decided = (subst (Decided p) live v.decided).0;
}

pub new_proposal-IsValid :
    (i : String) (now : ℕ) (q : Request)
    → 1 ≤ length q.participants
    → IsValid (new_proposal i now q)
unfolding new_proposal accepts remaining
new_proposal-IsValid i now q some_one = record {
  some_required = omega arith;
  enough_participants = omega arith;
  voters = tt;
  decided = (omega arith, omega arith);
}
