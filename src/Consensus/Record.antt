-- ===== src/Consensus/Record.antt =====
-- agents/consensus.py: the records of a proposal and of a vote, and the counts.
use hollow_agent_os.Base.{ℕ, ◌-◌, String, Bool, true, false, not, Option, List, length, count_if}
use hollow_agent_os.Dict
use hollow_agent_os.Dict.{Dict}
use hollow_agent_os.Event.{Json}

-- The value of `votes[agent_id]`.
pub record Vote : Type 0 where
  pub accept : Bool
  pub reason : String
  pub cast_at : ℕ

pub data Status : Type 0 where
  pending accepted rejected expired : Status

abbrev pub is_pending : Status → Bool
is_pending Status.pending = true
is_pending _ = false

-- The `result` dict; a key that it lacks is `none`.
pub record Outcome : Type 0 where
  pub accepted : Bool
  pub reason : Option String
  pub final_votes : Option (Dict Vote)
  pub resolved_at : Option ℕ

pub record Proposal : Type 0 where
  pub proposal_id : String
  pub proposer_id : String
  pub description : String
  pub action : Json
  pub participants : List String
  pub required_votes : ℕ
  pub votes : Dict Vote
  pub status : Status
  pub created_at : ℕ
  pub expires_at : ℕ
  pub result : Option Outcome

-- The three counts of `vote`.
unfoldable pub accepts : Proposal → ℕ
unfolding count_if Dict.values
accepts p = count_if (λ v. v.accept) (Dict.values p.votes)

unfoldable pub rejects : Proposal → ℕ
unfolding count_if Dict.values
rejects p = count_if (λ v. not v.accept) (Dict.values p.votes)

-- No more agents vote than take part, so the subtraction is the source's.
unfoldable pub remaining : Proposal → ℕ
remaining p = length p.participants - length p.votes
