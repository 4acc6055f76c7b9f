-- ===== src/Lineage/Tree.antt =====
-- agents/lineage.py: the edges between agents, the call tree that `get_subtree` builds from them, and
-- the helpers that count and collect its descendants. The fuel bounds the depth of the tree.
use hollow_agent_os.Base.{
  ℕ, zero, suc, ◌+◌, String, ◌==◌, Option, none, some, List, [], ◌∷◌, ◌++◌, if◌then◌else◌, filter,
  contains,
}
use hollow_agent_os.Dict
use hollow_agent_os.Dict.{Dict}
use hollow_agent_os.Event.{Json}
use hollow_agent_os.Registry.Record.{AgentRecord}

-- `LineageEdge`.
pub record Edge : Type 0 where
  pub edge_id : String
  pub parent_id : String
  pub child_id : String
  pub edge_type : String
  pub metadata : Json
  pub timestamp : ℕ

-- A node of the tree: the agent, if the registry has it, its outgoing edges, and the dict of its
-- children.
mutual
  pub data Node : Type 0 where
    node : (agent_id : String) → Option AgentRecord → List Edge → Children → Node

  pub data Children : Type 0 where
    nil : Children
    child : String → Node → Children → Children

-- `children[child_id] = subtree`.
unfoldable pub put_child : String → Node → Children → Children
put_child i t nil = child i t nil
put_child i t (child j u cs) =
    let rest = put_child i t cs in if j == i then child i t cs else child j u rest

unfoldable pub outgoing : List Edge → String → List Edge
outgoing edges agent_id = filter (λ e. e.parent_id == agent_id) edges

-- The loop over the outgoing edges, where `build` gives the subtree of a child.
unfoldable pub build_children : (String → Option Node) → List Edge → Children → Option Children
unfolding put_child
build_children build [] cs = some cs
build_children build (e ∷ es) cs = elim (build e.child_id) [
  | none ↦ none
  | some t ↦ build_children build es (put_child e.child_id t cs)
]

-- The node of an agent that was visited above.
abbrev pub leaf : String → Node
leaf agent_id = node agent_id none [] nil

unfoldable pub close_node : Dict AgentRecord → List Edge → String → Option Children → Option Node
unfolding outgoing
close_node agents edges agent_id none = none
close_node agents edges agent_id (some cs) =
    some (node agent_id (Dict.get agent_id agents) (outgoing edges agent_id) cs)

-- `build_node` of `get_subtree`.
unfoldable pub build_node : Dict AgentRecord → List Edge → ℕ → List String → String → Option Node
unfolding build_children close_node outgoing
build_node agents edges zero visited agent_id = none
build_node agents edges (suc fuel) visited agent_id =
    let below =
      build_children (build_node agents edges fuel (agent_id ∷ visited)) (outgoing edges agent_id)
        nil in
    if contains agent_id visited
    then some (leaf agent_id)
    else close_node agents edges agent_id below

-- `_count_descendants`.
unfoldable mutual
  pub count_descendants : Node → ℕ
  count_descendants (node agent_id agent edges cs) = count_children cs

  pub count_children : Children → ℕ
  count_children nil = 0
  count_children (child i t cs) = (1 + count_descendants t) + count_children cs

-- `_collect_descendants`.
unfoldable mutual
  pub collect_descendants : Node → List String
  collect_descendants (node agent_id agent edges cs) = collect_children cs

  pub collect_children : Children → List String
  collect_children nil = []
  collect_children (child i t cs) = i ∷ (collect_descendants t ++ collect_children cs)
