-- ===== src/Consensus/Examples.antt =====
-- The theorems on proposals at concrete inputs, and tests of the manager.
use hollow_agent_os.Base.{
  ℕ, ◌≡◌, ◌≢◌, refl, String, true, false, none, some, List, [], ◌∷◌, arith, contains,
}
use hollow_agent_os.Dict
use hollow_agent_os.Dict.{Dict}
use hollow_agent_os.Event.{null}
use hollow_agent_os.Consensus.Record.{
  Proposal, Vote, pending, accepted, rejected, accepts, remaining,
}
use hollow_agent_os.Consensus.{
  Manager, Request, Refusal, Tally, save, ok, refused, propose, new_proposal, vote, withdraw,
}
use hollow_agent_os.Consensus.Cases.{MayVote}
use hollow_agent_os.Consensus.History.{
  Call, proposes, votes, withdraws, reaps, step, run, AllFiled, run-AllFiled,
}
use hollow_agent_os.Consensus.Finality.{run-Spares}
use hollow_agent_os.Consensus.Decision.{vote-Settles, Settles, yes_after, vote_twice}
use hollow_agent_os.Consensus.Turnout.{full_turnout_ends}
use hollow_agent_os.Consensus.{cast, decide, enter_vote}

abbrev empty : Manager
empty = record { proposals = []; events = some [] }

abbrev request : List String → ℕ → Request
request members required = record {
  proposer_id = "root";
  description = "merge";
  action = null;
  participants = members;
  required_votes = required;
  ttl_seconds = 300;
}

abbrev members : List String
members = "a" ∷ "b" ∷ "c" ∷ []

abbrev opened : Proposal
opened = record {
  proposal_id = "p1";
  proposer_id = "root";
  description = "merge";
  action = null;
  participants = members;
  required_votes = 2;
  votes = [];
  status = pending;
  created_at = 10;
  expires_at = 310;
  result = none;
}

abbrev manager : Manager
manager = record { proposals = ("p1", opened) ∷ []; events = some [] }

empty-AllFiled : AllFiled empty
unfolding Dict.get
empty-AllFiled i p e = cc

run-AllFiled_example : AllFiled (
    run empty (
      proposes "p1" 10 (request members 2)
      ∷ votes "a" "p1" true "" 20 20 20
      ∷ votes "b" "p1" true "" 30 30 30
      ∷ reaps 400
      ∷ []))
run-AllFiled_example =
    run-AllFiled empty
      (proposes "p1" 10 (request members 2)
        ∷ votes "a" "p1" true "" 20 20 20
        ∷ votes "b" "p1" true "" 30 30 30
        ∷ reaps 400
        ∷ [])
      empty-AllFiled

may_vote : MayVote opened "a"
unfolding contains Dict.has_key Dict.get
may_vote = record { live = refl; member = refl; new = refl }

vote-Settles_example :
    let (reply, m') = vote manager "a" "p1" true "fine" 20 21 22 in
    (q : Proposal) × (t : Tally) × (Dict.get "p1" m'.proposals ≡ some q)
    × (reply ≡ ok t)
    × (q.votes
        ≡ Dict.put "a" (record { accept = true; reason = "fine"; cast_at = 21 }) opened.votes)
    × (t.current_accepts ≡ yes_after opened true)
    × (t.status ≡ q.status)
    × Settles opened true q.status
unfolding Dict.get
vote-Settles_example =
    vote-Settles manager opened "a" "p1" true "fine" 20 21 22 refl refl may_vote (omega arith)

vote_twice_example :
    let m' = (vote manager "a" "p1" true "fine" 20 21 22).1 in
    (x : Refusal) × (vote m' "a" "p1" false "fine" 30 30 30 ≡ (refused x, m'))
unfolding Dict.get
vote_twice_example =
    vote_twice manager opened "a" "p1" true false "fine" 20 21 22 30 refl refl may_vote
      (omega arith)

-- A proposal of two members that need both votes: one is for it, and one against.
abbrev pair : List Call
pair =
    proposes "p1" 10 (request ("a" ∷ "b" ∷ []) 2)
    ∷ votes "a" "p1" true "" 20 20 20
    ∷ votes "b" "p1" false "" 30 30 30
    ∷ []

abbrev ballots : Dict Vote
ballots =
    ("a", record { accept = true; reason = ""; cast_at = 20 })
    ∷ ("b", record { accept = false; reason = ""; cast_at = 30 })
    ∷ []

abbrev split : Proposal
split = record opened {
  participants = "a" ∷ "b" ∷ [];
  votes = ballots;
  status = rejected;
  result = some (record {
    accepted = false;
    reason = some "quorum impossible";
    final_votes = some ballots;
    resolved_at = some 30;
  });
}

full_turnout_ends_example : split.status ≢ pending
unfolding Dict.get Dict.has_key run step propose new_proposal vote cast decide enter_vote save
    Dict.put accepts remaining contains
full_turnout_ends_example =
    full_turnout_ends (some []) pair "p1" split refl (refl, (refl, tt)) (refl, (refl, tt))

-- A proposal that lists its only member twice, who has voted for it.
abbrev double : List Call
double = proposes "p1" 10 (request ("a" ∷ "a" ∷ []) 2) ∷ votes "a" "p1" true "" 20 20 20 ∷ []

abbrev doubled : Proposal
doubled = record opened {
  participants = "a" ∷ "a" ∷ [];
  votes = ("a", record { accept = true; reason = ""; cast_at = 20 }) ∷ [];
}

abbrev opening : List Call
opening = proposes "p1" 10 (request members 2) ∷ withdraws "root" "p1" 20 ∷ []

abbrev later : List Call
later =
    votes "a" "p1" true "" 30 30 30
    ∷ proposes "p2" 40 (request members 1)
    ∷ withdraws "root" "p1" 50
    ∷ reaps 400
    ∷ []

abbrev withdrawn : Proposal
withdrawn = record opened {
  status = rejected;
  result = some (record {
    accepted = false;
    reason = some "withdrawn by proposer";
    final_votes = none;
    resolved_at = some 20;
  });
}

run-Spares_example : Dict.get "p1" (run (run empty opening) later).proposals ≡ some withdrawn
unfolding Dict.get run step propose new_proposal withdraw save Dict.put
run-Spares_example =
    run-Spares (run empty opening) "p1" withdrawn later (run-AllFiled empty opening empty-AllFiled)
      refl (λ e. cc) (tt, (refl, (tt, (tt, tt))))
