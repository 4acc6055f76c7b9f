-- ===== src/Consensus/Turnout.antt =====
-- agents/consensus.py: what follows from who has voted and who can vote, after any sequence of calls.
use hollow_agent_os.Base.{
  Option, none-some, ◌≤◌, ◌≡◌, ◌≢◌, subst, String, eq_iff, true, false, some, List, [], ◌∷◌, arith,
  contains, length, All, IsSetList,
}
use hollow_agent_os.Dict
use hollow_agent_os.Dict.{Dict, get-put, get-put_self, get-remove, has_key-put, length-remove-lt}
use hollow_agent_os.Consensus.Record.{Proposal, Vote, pending, remaining}
use hollow_agent_os.Consensus.{Manager}
use hollow_agent_os.Consensus.Invariant.{IsValid, Decided}
use hollow_agent_os.Event.{Event}
use hollow_agent_os.Consensus.History.{Call, run, AllFiled, run-AllFiled}

All-keys-remove :
    (x : String) (xs : List String) (d : Dict Vote)
    → contains x xs ≡ false
    → All (λ i. Dict.has_key i d ≡ true) xs
    → All (λ i. Dict.has_key i (Dict.remove x d) ≡ true) xs
unfolding contains Dict.has_key
All-keys-remove x [] d h a = tt
All-keys-remove x (y ∷ ys) d h a = (
  ground (arith, get-remove x y d, eq_iff x y, eq_iff y x),
  All-keys-remove x ys d (ground arith) a.1,
)

-- A dict has as many entries as there are distinct keys in it.
keys_bound :
    (xs : List String) (d : Dict Vote)
    → IsSetList xs
    → All (λ i. Dict.has_key i d ≡ true) xs
    → length xs ≤ length d
keys_bound [] d s a = omega arith
keys_bound (x ∷ xs) d s a = omega (
  arith,
  length-remove-lt x d a.0,
  keys_bound xs (Dict.remove x d) s.1 (All-keys-remove x xs d s.0 a.1),
)

remaining_none : (p : Proposal) → length p.participants ≤ length p.votes → remaining p ≡ 0
unfolding remaining
remaining_none p h = omega arith

full_turnout-IsValid :
    (p : Proposal)
    → IsValid p
    → IsSetList p.participants
    → All (λ i. Dict.has_key i p.votes ≡ true) p.participants
    → p.status ≢ pending
full_turnout-IsValid p v distinct everyone live =
    let decided : Decided p pending = subst (Decided p) live v.decided in
    omega (
      arith,
      decided.0,
      decided.1,
      keys_bound p.participants p.votes distinct everyone,
      remaining_none p,
    )

-- A manager without proposals.
abbrev pub fresh : Option (List Event) → Manager
fresh events = record { proposals = []; events = events }

run-fresh : (events : Option (List Event)) (cs : List Call) → AllFiled (run (fresh events) cs)
unfolding Dict.get
run-fresh events cs = run-AllFiled (fresh events) cs (λ i p e. absurd (none-some p e))

-- After any sequence of proposals, votes, withdrawals and rounds of the reaper on a manager that had no
-- proposals, a proposal of distinct participants is not pending once all of them have voted.
pub full_turnout_ends :
    (events : Option (List Event)) (cs : List Call) (i : String) (p : Proposal)
    → Dict.get i (run (fresh events) cs).proposals ≡ some p
    → IsSetList p.participants
    → All (λ j. Dict.has_key j p.votes ≡ true) p.participants
    → p.status ≢ pending
full_turnout_ends events cs i p e distinct everyone =
    full_turnout-IsValid p (run-fresh events cs i p e).1 distinct everyone
