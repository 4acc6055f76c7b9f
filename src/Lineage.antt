-- ===== src/Lineage.antt =====
-- agents/lineage.py: the graph of relationships between agents, and its queries. The file is the list
-- of edges. The registry, the scheduler and the coordinator may not be injected; of the scheduler the
-- tasks are seen that it lists.
pub mod Tree
pub mod Unvisited
pub mod Total
pub mod Path
pub mod Walks
pub mod Loop
pub mod Reach
mod Examples
use hollow_agent_os.Base.{
  ℕ, zero, suc, ◌+◌, String, Bool, true, false, ◌&&◌, ◌||◌, ◌==◌, Option, none, some, List, [], ◌∷◌,
  ◌++◌, ltb, if◌then◌else◌, get_or, map, filter, length, contains, take,
}
use hollow_agent_os.Dict
use hollow_agent_os.Dict.{Dict}
use hollow_agent_os.Event.{Json}
use hollow_agent_os.Registry.Record.{AgentRecord, Registry}
use hollow_agent_os.Registry.Ancestry
use hollow_agent_os.Transaction.Record.{TxnRecord, Coordinator, is_open}
use hollow_agent_os.Scheduler.Record.{Task, is_queued, is_running}
use hollow_agent_os.Lineage.Tree.{Edge, Node, build_node, count_descendants, collect_descendants}

-- `LineageGraph`.
pub record Graph : Type 0 where
  pub edges : List Edge
  pub registry : Option Registry
  pub tasks : Option (List Task)
  pub txn_coordinator : Option Coordinator

-- `if registry: self._registry = registry`: what is not given stays.
unfoldable given {ℓ} : {A : Type ℓ} → Option A → Option A → Option A
given none old = old
given (some new) old = some new

-- `LineageGraph.set_subsystems`.
unfoldable set_subsystems :
    Graph → Option Registry → Option (List Task) → Option Coordinator → Graph
unfolding given
set_subsystems g registry tasks coordinator = record g {
  registry = given registry g.registry;
  tasks = given tasks g.tasks;
  txn_coordinator = given coordinator g.txn_coordinator;
}

-- `LineageGraph._load`: a file that cannot be read leaves the edges as they are.
unfoldable load : Graph → Option (List Edge) → Graph
load g none = g
load g (some edges) = record g { edges = edges }

-- `LineageGraph.record_edge` of the edge it builds.
unfoldable pub record_edge : Graph → Edge → Graph
record_edge g e = record g { edges = g.edges ++ e ∷ [] }

-- `LineageGraph.get_lineage`: the loop of the registry's method, and nothing without a registry.
unfoldable pub get_lineage : Graph → String → Option (List AgentRecord)
get_lineage g agent_id = elim g.registry [
  | none ↦ some []
  | some r ↦ Ancestry.get_lineage r agent_id
]

-- Every level of the tree visits an agent that was not visited above it, and all but the first are the
-- child of some edge.
abbrev pub enough : List Edge → ℕ
enough edges = length edges + 2

-- The answer of `get_subtree`: without a registry the empty dict.
pub data Subtree : Type 0 where
  no_registry out_of_fuel : Subtree
  subtree : Node → (descendant_count : ℕ) → Subtree

unfoldable pub annotated : Option Node → Subtree
annotated none = out_of_fuel
annotated (some t) = subtree t (count_descendants t)

-- `LineageGraph.get_subtree`.
unfoldable pub get_subtree : Graph → String → Subtree
unfolding annotated build_node
get_subtree g root_id = elim g.registry [
  | none ↦ no_registry
  | some r ↦ annotated (build_node r.agents g.edges (enough g.edges) [] root_id)
]

unfoldable pub descendants_of : Subtree → List String
descendants_of no_registry = []
descendants_of out_of_fuel = []
descendants_of (subtree t n) = collect_descendants t

-- The locks of the agent, where it is registered.
unfoldable pub locked_resources : Graph → String → List String
unfolding Dict.keys
locked_resources g agent_id = elim g.registry [
  | none ↦ []
  | some r ↦ elim (Dict.get agent_id r.agents) [ none ↦ [] | some a ↦ Dict.keys a.locks ]
]

unfoldable pub open_transactions : Graph → String → List String
unfolding Dict.keep Dict.keys
open_transactions g agent_id = elim g.txn_coordinator [
  | none ↦ []
  | some c ↦ Dict.keys (Dict.keep (λ t. t.agent_id == agent_id && is_open t.status) c.txns)
]

unfoldable pub running_tasks : Graph → String → List String
running_tasks g agent_id = elim g.tasks [
  | none ↦ []
  | some ts ↦
      map (λ t. t.task_id)
        (filter (λ t. is_queued t.status || is_running t.status)
          (take 200 (filter (λ t. (agent_id == "") || (t.submitted_by == agent_id)) ts)))
]

pub record BlastRadius : Type 0 where
  pub agent_id : String
  pub affected_agents : List String
  pub affected_agent_count : ℕ
  pub locked_resources : List String
  pub open_transactions : List String
  pub running_tasks : List String

-- `LineageGraph.get_blast_radius`.
unfoldable pub get_blast_radius : Graph → String → BlastRadius
unfolding get_subtree locked_resources open_transactions running_tasks
get_blast_radius g agent_id =
    let affected = descendants_of (get_subtree g agent_id) in
    record {
      agent_id = agent_id;
      affected_agents = affected;
      affected_agent_count = length affected;
      locked_resources = locked_resources g agent_id;
      open_transactions = open_transactions g agent_id;
      running_tasks = running_tasks g agent_id;
    }

-- The tasks that list a task in `depends_on`, once for each time it is listed.
unfoldable pub dependents_in : String → Task → List String → List String
dependents_in dep t [] = []
dependents_in dep t (d ∷ ds) =
    let rest = dependents_in dep t ds in if d == dep then t.task_id ∷ rest else rest

unfoldable pub successors : List Task → String → List String
unfolding dependents_in
successors [] dep = []
successors (t ∷ ts) dep = dependents_in dep t t.depends_on ++ successors ts dep

-- The loop of `longest_path` over the successors: the first of the longest paths.
unfoldable pub best_path :
    (String → Option (List String)) → List String → List String → Option (List String)
best_path path [] best = some best
best_path path (s ∷ ss) best = elim (path s) [
  | none ↦ none
  | some p ↦ best_path path ss (if ltb (length best) (length p) then p else best)
]

unfoldable pub extend_path : String → Option (List String) → Option (List String)
extend_path tid none = none
extend_path tid (some best) = some (tid ∷ best)

-- `longest_path` of `critical_path`.
unfoldable pub longest_path : List Task → ℕ → List String → String → Option (List String)
unfolding best_path extend_path successors
longest_path ts zero visited tid = none
longest_path ts (suc fuel) visited tid =
    let below = best_path (longest_path ts fuel (tid ∷ visited)) (successors ts tid) [] in
    if contains tid visited then some (tid ∷ []) else extend_path tid below

-- `LineageGraph.critical_path`; every level visits a task, or is the last one.
unfoldable pub critical_path : Graph → String → Option (List String)
unfolding longest_path
critical_path g task_id = elim g.tasks [
  | none ↦ some (task_id ∷ [])
  | some ts ↦ let listed = take 1000 ts in longest_path listed (length listed + 2) [] task_id
]

abbrev touches : String → Edge → Bool
touches agent_id e = e.parent_id == agent_id || e.child_id == agent_id

-- `LineageGraph.list_edges`.
unfoldable pub list_edges : Graph → Option String → List Edge
list_edges g none = g.edges
list_edges g (some agent_id) = if agent_id == "" then g.edges else filter (touches agent_id) g.edges
