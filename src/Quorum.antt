-- ===== src/Quorum.antt =====
-- agents/agent_quorum.py: proposals in the rows of a file, with an index from the identifier to the
-- row. A clock reading and a fresh identifier are arguments; the percentage of the quorum is a number
-- of hundredths. The embedding of the description, which `propose` computes and drops, is left out.
pub mod Store
pub mod Rows
pub mod Calls
pub mod Refinement
mod Examples
use hollow_agent_os.Base.{
  ℕ, ◌+◌, ◌-◌, ◌*◌, String, Bool, true, false, not, ◌&&◌, ◌==◌, Option, none, some, List, [], ◌∷◌,
  ◌++◌, leb, if◌then◌else◌, length, take, filter, count_if, sort_by,
}
use hollow_agent_os.Dict
use hollow_agent_os.Dict.{Dict}
use hollow_agent_os.Event.{Json}
use hollow_agent_os.Quorum.Store.{
  Quorum, ProposalRecord, VoteEntry, Status, pending, approved, rejected, withdrawn, is_pending,
  rows, row, set_row,
}

-- The record that `propose` writes; it lives for seven days.
unfoldable pub new_proposal : String → ℕ → String → String → String → Json → ProposalRecord
new_proposal proposal_id now proposer_id proposal_type description payload = record {
  proposal_id = proposal_id;
  proposer_id = proposer_id;
  proposal_type = proposal_type;
  description = description;
  payload = payload;
  votes = [];
  required_quorum = 1;
  status = pending;
  created_at = now;
  expires_at = now + 7 * 86400;
  finalized_at = none;
}

-- `AgentQuorum.propose` of the record it builds: a new row, and its number in the index.
unfoldable pub propose : Quorum → ProposalRecord → Quorum
propose q p = record q {
  proposals = some (rows q.proposals ++ p ∷ []);
  index = some (Dict.put p.proposal_id (length (rows q.proposals)) (rows q.index));
}

-- The row of a proposal in the index, where both files exist.
unfoldable pub row_of : Quorum → String → Option ℕ
row_of q proposal_id = elim q.proposals [
  | none ↦ none
  | some ls ↦ Dict.get proposal_id (rows q.index)
]

-- `AgentQuorum.get_proposal`.
unfoldable pub get_proposal : Quorum → String → Option ProposalRecord
unfolding row_of
get_proposal q proposal_id = elim (row_of q proposal_id) [
  | none ↦ none
  | some n ↦ row n (rows q.proposals)
]

-- The proposals file with one row written anew.
unfoldable pub write_row : Quorum → ℕ → ProposalRecord → Quorum
write_row q n p = record q { proposals = some (set_row n p (rows q.proposals)) }

unfoldable pub with_vote : String → Bool → ProposalRecord → ProposalRecord
with_vote voter_id vote p = record p { votes = Dict.put voter_id (some vote) p.votes }

-- The writes of `vote`: the row of the proposal, and a line of the history.
unfoldable pub cast_vote : Quorum → ℕ → ProposalRecord → String → String → Bool → ℕ → Quorum
unfolding write_row with_vote
cast_vote q n p proposal_id voter_id v now = record (write_row q n (with_vote voter_id v p)) {
  history = some (
      rows q.history
      ++ record { proposal_id = proposal_id; voter_id = voter_id; vote = v; timestamp = now } ∷ []);
}

-- `AgentQuorum.vote`; `none` is the IndexError of a row that the file does not have.
unfoldable pub vote : Quorum → String → String → Bool → ℕ → Option (Bool × Quorum)
unfolding row_of cast_vote
vote q proposal_id voter_id v now = elim (row_of q proposal_id) [
  | none ↦ some (false, q)
  | some n ↦ elim (row n (rows q.proposals)) [
    | none ↦ none
    | some p ↦ some (true, cast_vote q n p proposal_id voter_id v now)
  ]
]

abbrev pub is_yes : Option Bool → Bool
is_yes (some true) = true
is_yes _ = false

abbrev pub is_no : Option Bool → Bool
is_no (some false) = true
is_no _ = false

abbrev pub is_abstention : Option Bool → Bool
is_abstention none = true
is_abstention _ = false

-- `AgentQuorum.get_voting_status`.
pub data VotingStatus : Type 0 where
  not_found : VotingStatus
  tally : (yes_votes no_votes abstain_votes : ℕ) → Status → VotingStatus

unfoldable pub get_voting_status : Quorum → String → VotingStatus
unfolding get_proposal count_if
get_voting_status q proposal_id = elim (get_proposal q proposal_id) [
  | none ↦ not_found
  | some p ↦
      tally (count_if is_yes (Dict.values p.votes)) (count_if is_no (Dict.values p.votes))
        (count_if is_abstention (Dict.values p.votes)) p.status
]

abbrev older : ProposalRecord → ProposalRecord → Bool
older p r = leb p.created_at r.created_at

-- `AgentQuorum.get_pending_proposals`.
unfoldable pub get_pending_proposals : Quorum → ℕ → List ProposalRecord
get_pending_proposals q limit =
    take limit (sort_by older (filter (λ p. is_pending p.status) (rows q.proposals)))

-- The decision of `finalize_proposal`: the votes reach the quorum, and the yes votes the percentage.
unfoldable pub approves : ℕ → ProposalRecord → Bool
unfolding count_if Dict.values
approves percentage p =
    let yes = count_if is_yes (Dict.values p.votes) in
    let total = count_if (λ v. not (is_abstention v)) (Dict.values p.votes) in
    leb p.required_quorum total && leb (total * percentage) (yes * 100)

unfoldable pub finalized : ℕ → ℕ → ProposalRecord → ProposalRecord
unfolding approves
finalized percentage now p = record p {
  status = if approves percentage p then approved else rejected;
  finalized_at = some now;
}

-- The write of `finalize_proposal` and `withdraw_proposal` to the row of the proposal.
unfoldable pub rewrite : Quorum → String → ProposalRecord → Quorum
unfolding row_of write_row
rewrite q proposal_id p = elim (row_of q proposal_id) [ none ↦ q | some n ↦ write_row q n p ]

-- `AgentQuorum.finalize_proposal`.
unfoldable pub finalize_proposal : Quorum → String → ℕ → Bool × Quorum
unfolding get_proposal finalized approves rewrite
finalize_proposal q proposal_id now = elim (get_proposal q proposal_id) [
  | none ↦ (false, q)
  | some p ↦
      if is_pending p.status
      then (approves q.percentage p, rewrite q proposal_id (finalized q.percentage now p))
      else (false, q)
]

-- `AgentQuorum.withdraw_proposal`.
unfoldable pub withdraw_proposal : Quorum → String → String → Bool × Quorum
unfolding get_proposal rewrite
withdraw_proposal q proposal_id withdrawer_id = elim (get_proposal q proposal_id) [
  | none ↦ (false, q)
  | some p ↦
      if is_pending p.status && p.proposer_id == withdrawer_id
      then (true, rewrite q proposal_id (record p { status = withdrawn }))
      else (false, q)
]

-- `AgentQuorum.get_proposal_history`.
unfoldable pub get_proposal_history : Quorum → String → ℕ → List VoteEntry
get_proposal_history q proposal_id limit =
    take limit (filter (λ e. e.proposal_id == proposal_id) (rows q.history))
