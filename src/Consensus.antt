-- ===== src/Consensus.antt =====
-- agents/consensus.py: proposals on which agents vote, decided by a quorum, by its impossibility, by
-- withdrawal or by expiry. A clock reading and a fresh identifier are arguments.
pub mod Record
pub mod Payloads
pub mod Invariant
pub mod Cases
pub mod History
pub mod Finality
pub mod Decision
pub mod Turnout
mod Examples
use Prim.Native.Nat.{Ordering}
use Prim.Native.String.{◌++◌ as join, compare as compare_text}
use hollow_agent_os.Base.{
  ℕ, ◌+◌, ◌-◌, min, max, String, Bool, true, false, not, ◌&&◌, ◌||◌, Option, none, some, List, [],
  ◌∷◌, ◌++◌, ◌==◌, ltb, leb, if◌then◌else◌, contains, length, count_if, sort_by, map,
}
use hollow_agent_os.Dict
use hollow_agent_os.Dict.{Dict}
use hollow_agent_os.Event.{Event, Json, emit, emit_all}
use hollow_agent_os.Consensus.Record.{
  Proposal, Vote, Outcome, Status, pending, accepted, rejected, expired, is_pending, accepts,
  rejects, remaining,
}
use hollow_agent_os.Consensus.Payloads.{
  proposed_event, requested_event, cast_event, reached_event, rejected_event, withdrawn_event,
  expired_event,
}

-- `ConsensusManager`: the proposal files by identifier, and the events emitted, if a bus is set.
pub record Manager : Type 0 where
  pub proposals : Dict Proposal
  pub events : Option (List Event)

-- `ConsensusManager._save`; `_load` is `Dict.get`.
unfoldable pub save : Proposal → Manager → Manager
save p m = record m { proposals = Dict.put p.proposal_id p m.proposals }

-- The arguments of `propose`.
pub record Request : Type 0 where
  pub proposer_id : String
  pub description : String
  pub action : Json
  pub participants : List String
  pub required_votes : ℕ
  pub ttl_seconds : ℕ

unfoldable pub new_proposal : String → ℕ → Request → Proposal
new_proposal proposal_id now q = record {
  proposal_id = proposal_id;
  proposer_id = q.proposer_id;
  description = q.description;
  action = q.action;
  participants = q.participants;
  required_votes = max 1 (min q.required_votes (length q.participants));
  votes = [];
  status = pending;
  created_at = now;
  expires_at = now + q.ttl_seconds;
  result = none;
}

-- `ConsensusManager.propose`; `none` is the ValueError for no participants.
unfoldable pub propose : Manager → String → ℕ → Request → Option Manager
unfolding save new_proposal
propose m proposal_id now q = elim q.participants [
  | [] ↦ none
  | x ∷ xs ↦
      let p = new_proposal proposal_id now q in
      some (record (save p m) {
        events = emit_all (proposed_event p ∷ map (requested_event p) p.participants) m.events;
      })
]

pub data Refusal : Type 0 where
  not_found not_pending not_participant already_voted past_expiry : Refusal

pub record Tally : Type 0 where
  pub voter_id : String
  pub accepted : Bool
  pub current_accepts : ℕ
  pub current_rejects : ℕ
  pub required_votes : ℕ
  pub remaining_voters : ℕ
  pub status : Status

pub data Reply : Type 0 where
  ok : Tally → Reply
  refused : Refusal → Reply

-- The proposal after the vote is entered and the votes are counted; `at` is the last clock reading.
unfoldable pub decide : ℕ → Proposal → Proposal
decide at p =
    if leb p.required_votes (accepts p)
    then record p {
      status = accepted;
      result = some (record {
        accepted = true;
        reason = none;
        final_votes = some p.votes;
        resolved_at = some at;
      });
    }
    else if ltb (accepts p + remaining p) p.required_votes
    then record p {
      status = rejected;
      result = some (record {
        accepted = false;
        reason = some "quorum impossible";
        final_votes = some p.votes;
        resolved_at = some at;
      });
    }
    else p

-- The last two events, by the new status.
unfoldable pub decision_events : Status → Proposal → List Event
decision_events accepted p = reached_event p ∷ []
decision_events rejected p = rejected_event p ∷ []
decision_events _ p = []

unfoldable pub enter_vote : String → Bool → String → ℕ → Proposal → Proposal
enter_vote voter_id accept reason at p = record p {
  votes = Dict.put voter_id (record { accept = accept; reason = reason; cast_at = at }) p.votes;
}

abbrev pub tally_of : String → Bool → Proposal → Tally
tally_of voter_id accept p = record {
  voter_id = voter_id;
  accepted = accept;
  current_accepts = accepts p;
  current_rejects = rejects p;
  required_votes = p.required_votes;
  remaining_voters = remaining p;
  status = p.status;
}

-- The vote of an agent that may vote, in time: `at` when it is cast, `end` when it is resolved.
unfoldable pub cast : Manager → Proposal → String → Bool → String → ℕ → ℕ → Reply × Manager
unfolding decide enter_vote decision_events save
cast m p voter_id accept reason at end =
    let p' = decide end (enter_vote voter_id accept reason at p) in
    (
      ok (tally_of voter_id accept p'),
      record (save p' m) {
        events =
            emit_all (cast_event p' voter_id accept reason ∷ decision_events p'.status p') m.events;
      },
    )

-- A vote that comes too late marks the proposal as expired.
unfoldable pub expire_late : Manager → Proposal → Manager
unfolding save
expire_late m p =
    save
      (record p {
        status = expired;
        result = some (record {
          accepted = false;
          reason = some "expired before vote cast";
          final_votes = none;
          resolved_at = none;
        });
      })
      m

-- The checks of `vote` in their order; `now` is the reading that is held against `expires_at`.
unfoldable pub vote_on : Manager → Proposal → String → Bool → String → ℕ → ℕ → ℕ → Reply × Manager
unfolding cast expire_late
vote_on m p voter_id accept reason now at end =
    if not (is_pending p.status)
    then (refused not_pending, m)
    else if not (contains voter_id p.participants)
    then (refused not_participant, m)
    else if Dict.has_key voter_id p.votes
    then (refused already_voted, m)
    else if ltb p.expires_at now
    then (refused past_expiry, expire_late m p)
    else cast m p voter_id accept reason at end

-- `ConsensusManager.vote`.
unfoldable pub vote : Manager → String → String → Bool → String → ℕ → ℕ → ℕ → Reply × Manager
unfolding vote_on
vote m voter_id proposal_id accept reason now at end = elim (Dict.get proposal_id m.proposals) [
  | none ↦ (refused not_found, m)
  | some p ↦ vote_on m p voter_id accept reason now at end
]

pub data Withdrawal : Type 0 where
  withdrawn not_withdrawn not_proposer : Withdrawal

abbrev withdrawn_proposal : ℕ → Proposal → Proposal
withdrawn_proposal now p = record p {
  status = rejected;
  result = some (record {
    accepted = false;
    reason = some "withdrawn by proposer";
    final_votes = none;
    resolved_at = some now;
  });
}

-- `ConsensusManager.withdraw`.
unfoldable pub withdraw : Manager → String → String → ℕ → Withdrawal × Manager
unfolding save
withdraw m proposer_id proposal_id now = elim (Dict.get proposal_id m.proposals) [
  | none ↦ (not_withdrawn, m)
  | some p ↦
      if not (p.proposer_id == proposer_id)
      then (not_proposer, m)
      else if not (is_pending p.status)
      then (not_withdrawn, m)
      else (
        withdrawn,
        record (save (withdrawn_proposal now p) m) {
          events = emit (withdrawn_event p proposer_id) m.events;
        },
      )
]

-- The test of the reaper on one file: pending, and not `expires_at > now`.
unfoldable pub is_stale : ℕ → Proposal → Bool
is_stale now p = is_pending p.status && leb p.expires_at now

unfoldable pub expire_one : ℕ → Proposal → Proposal
expire_one now p =
    if is_stale now p
    then record p {
      status = expired;
      result = some (record {
        accepted = false;
        reason = some "ttl expired";
        final_votes = none;
        resolved_at = some now;
      });
    }
    else p

unfoldable pub expiry_events : ℕ → Dict Proposal → List Event
expiry_events now [] = []
expiry_events now ((i, p) ∷ d) =
    let rest = expiry_events now d in if is_stale now p then expired_event p ∷ rest else rest

-- `ConsensusManager._expire_stale`, one pass of the reaper.
unfoldable pub expire_stale : Manager → ℕ → Manager
unfolding expire_one expiry_events is_stale
expire_stale m now = record {
  proposals = Dict.map_values (expire_one now) m.proposals;
  events = emit_all (expiry_events now m.proposals) m.events;
}

-- `ConsensusManager.get`.
unfoldable pub get : Manager → String → Option Proposal
get m proposal_id = Dict.get proposal_id m.proposals

-- The test of `list_for_agent` on one file.
unfoldable pub concerns : String → Bool → Proposal → Bool
concerns agent_id include_resolved p =
    ((p.proposer_id == agent_id) || contains agent_id p.participants)
    && (include_resolved || is_pending p.status)

-- `sorted(…, reverse=True)` on the file names.
abbrev not_before : Proposal → Proposal → Bool
not_before p q = elim (compare_text (join p.proposal_id ".json") (join q.proposal_id ".json")) [
  | Ordering.lt ↦ false
  | _ ↦ true
]

-- `ConsensusManager.list_for_agent`.
unfoldable pub list_for_agent : Manager → String → Bool → List Proposal
unfolding concerns
list_for_agent m agent_id include_resolved = Dict.values (
    Dict.keep (concerns agent_id include_resolved)
      (sort_by (λ x y. not_before x.1 y.1) m.proposals))
