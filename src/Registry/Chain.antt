-- ===== src/Registry/Chain.antt =====
-- agents/registry.py, `get_lineage`: the loop ends, and the chain goes from each agent to its parent
-- without coming back.
use hollow_agent_os.Base.{
  ℕ, zero, suc, ◌+◌, ◌≤◌, ◌<◌, ◌≡◌, refl, String, ◌==◌, eq_iff, eq_refl, true, false, ◌||◌, Option,
  none, some, List, [], ◌∷◌, arith, inl, inr, if◌then◌else◌, Option-cases, Bool-cases, contains,
  length,
}
use hollow_agent_os.Dict
use hollow_agent_os.Dict.{Dict}
use hollow_agent_os.Registry.Record.{AgentRecord, Registry}
use hollow_agent_os.Registry.Ancestry.{walk, get_lineage, enough}

-- How many keys of the dict the loop has not visited.
unseen : List String → Dict AgentRecord → ℕ
unfolding contains
unseen seen [] = 0
unseen seen ((i, a) ∷ d) = (if contains i seen then 0 else 1) + unseen seen d

unseen-le-length : (seen : List String) (d : Dict AgentRecord) → unseen seen d ≤ length d
unfolding unseen
unseen-le-length seen [] = omega arith
unseen-le-length seen ((i, a) ∷ d) = ground (arith, unseen-le-length seen d)

unseen-cons-le :
    (k : String) (seen : List String) (d : Dict AgentRecord) → unseen (k ∷ seen) d ≤ unseen seen d
unfolding unseen
unseen-cons-le k seen [] = omega arith
unseen-cons-le k seen ((i, a) ∷ d) = ground (arith, unseen-cons-le k seen d)

-- A visit to an agent that is there and was not visited uses up one key.
unseen-visit :
    (k : String) (seen : List String) (d : Dict AgentRecord) (a : AgentRecord)
    → Dict.get k d ≡ some a
    → contains k seen ≡ false
    → unseen (k ∷ seen) d < unseen seen d
unfolding unseen Dict.get
unseen-visit k seen [] a e new = cc
unseen-visit k seen ((i, b) ∷ d) a e new = elim (Bool-cases (i == k)) [
  | inl q ↦ ground (arith, eq_iff i k, eq_refl k, unseen-cons-le k seen d)
  | inr q ↦ ground (arith, eq_iff i k, eq_iff k i, unseen-visit k seen d a)
]

-- Each agent of the chain is the one that the previous agent names as its parent, none was visited
-- before, and the chain stops only at a parent that is missing, empty, unknown or visited.
pub data Linked (d : Dict AgentRecord)
    : List String → Option String → List AgentRecord → Type 0 where
  top : {seen : List String} → Linked d seen none []
  stop :
      {seen : List String} {i : String}
      → ((i == "") || contains i seen) ≡ true
      → Linked d seen (some i) []
  gone : {seen : List String} {i : String} → Dict.get i d ≡ none → Linked d seen (some i) []
  parent :
      {seen : List String} {i : String} {a : AgentRecord} {chain : List AgentRecord}
      → contains i seen ≡ false
      → Dict.get i d ≡ some a
      → Linked d (i ∷ seen) a.parent_id chain
      → Linked d seen (some i) (a ∷ chain)

walk-Linked :
    (d : Dict AgentRecord) (fuel : ℕ) (seen : List String) (current : Option String)
    → unseen seen d < fuel
    → (chain : List AgentRecord) × (walk d fuel seen current ≡ some chain)
      × Linked d seen current chain
unfolding walk
walk-Linked d zero seen current h = elim h [ ]
walk-Linked d (suc fuel) seen none h = ([], refl, top)
walk-Linked d (suc fuel) seen (some i) h = elim (Bool-cases ((i == "") || contains i seen)) [
  | inl q ↦ ([], ground arith, stop q)
  | inr q ↦ elim (Option-cases (Dict.get i d)) [
    | inl e ↦ ([], ground arith, gone e)
    | inr (a, e) ↦
        let new : contains i seen ≡ false = ground arith in
        let (chain, w, linked) =
          walk-Linked d fuel (i ∷ seen) a.parent_id
            (omega (arith, unseen-visit i seen d a e new)) in
        (a ∷ chain, ground arith, parent new e linked)
  ]
]

-- `get_lineage` ends whatever the parents are, cycles included: one round for each agent and two more
-- are enough. Its result is the parent chain of the agent.
pub get_lineage-Linked :
    (r : Registry) (agent_id : String)
    → (chain : List AgentRecord) × (get_lineage r agent_id ≡ some chain)
      × Linked r.agents [] (some agent_id) chain
unfolding get_lineage
get_lineage-Linked r agent_id =
    walk-Linked r.agents (enough r.agents) [] (some agent_id)
      (omega (arith, unseen-le-length [] r.agents))
