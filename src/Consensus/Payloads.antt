-- ===== src/Consensus/Payloads.antt =====
-- agents/consensus.py: the events that a proposal's life emits.
use hollow_agent_os.Base.{String, Bool, List, [], ◌∷◌}
use hollow_agent_os.Dict.{Dict}
use hollow_agent_os.Event.{
  Event, Json, Fields, end, field, text, texts, number, flag, object, object_of,
}
use hollow_agent_os.Consensus.Record.{Proposal, Vote, accepts, rejects}

abbrev vote_json : Vote → Json
vote_json v =
    object_of
      (("accept", flag v.accept) ∷ ("reason", text v.reason) ∷ ("cast_at", number v.cast_at) ∷ [])

abbrev votes_fields : Dict Vote → Fields
votes_fields [] = end
votes_fields ((i, v) ∷ d) = field i (vote_json v) (votes_fields d)

abbrev votes_json : Dict Vote → Json
votes_json d = object (votes_fields d)

abbrev event : String → String → List (String × Json) → Event
event event_type source_id payload = record {
  event_type = event_type;
  source_id = source_id;
  payload = object_of payload;
}

unfoldable pub proposed_event : Proposal → Event
proposed_event p = event "consensus.proposed" p.proposer_id (
    ("proposal_id", text p.proposal_id)
    ∷ ("proposer_id", text p.proposer_id)
    ∷ ("description", text p.description)
    ∷ ("participants", texts p.participants)
    ∷ ("required_votes", number p.required_votes)
    ∷ ("expires_at", number p.expires_at)
    ∷ [])

unfoldable pub requested_event : Proposal → String → Event
requested_event p participant = event "consensus.vote_requested" participant (
    ("proposal_id", text p.proposal_id)
    ∷ ("proposer_id", text p.proposer_id)
    ∷ ("description", text p.description)
    ∷ ("action", p.action)
    ∷ ("required_votes", number p.required_votes)
    ∷ ("expires_at", number p.expires_at)
    ∷ [])

unfoldable pub cast_event : Proposal → String → Bool → String → Event
cast_event p voter_id accept reason = event "consensus.vote_cast" voter_id (
    ("proposal_id", text p.proposal_id)
    ∷ ("voter_id", text voter_id)
    ∷ ("accept", flag accept)
    ∷ ("reason", text reason)
    ∷ ("accepts", number (accepts p))
    ∷ ("rejects", number (rejects p))
    ∷ ("required", number p.required_votes)
    ∷ [])

unfoldable pub reached_event : Proposal → Event
reached_event p = event "consensus.reached" p.proposer_id (
    ("proposal_id", text p.proposal_id)
    ∷ ("proposer_id", text p.proposer_id)
    ∷ ("description", text p.description)
    ∷ ("action", p.action)
    ∷ ("final_votes", votes_json p.votes)
    ∷ ("participants", texts p.participants)
    ∷ [])

unfoldable pub rejected_event : Proposal → Event
rejected_event p = event "consensus.rejected" p.proposer_id (
    ("proposal_id", text p.proposal_id)
    ∷ ("proposer_id", text p.proposer_id)
    ∷ ("description", text p.description)
    ∷ ("reason", text "quorum impossible")
    ∷ ("final_votes", votes_json p.votes)
    ∷ [])

unfoldable pub withdrawn_event : Proposal → String → Event
withdrawn_event p proposer_id = event "consensus.rejected" proposer_id (
    ("proposal_id", text p.proposal_id)
    ∷ ("proposer_id", text proposer_id)
    ∷ ("reason", text "withdrawn by proposer")
    ∷ [])

unfoldable pub expired_event : Proposal → Event
expired_event p = event "consensus.expired" p.proposer_id (
    ("proposal_id", text p.proposal_id)
    ∷ ("proposer_id", text p.proposer_id)
    ∷ ("description", text p.description)
    ∷ [])
