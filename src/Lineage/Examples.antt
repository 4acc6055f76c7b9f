-- ===== src/Lineage/Examples.antt =====
-- The theorems on the call tree at a graph with a cycle.
use hollow_agent_os.Base.{◌≡◌, refl, ◌↔◌, String, true, false, none, some, List, [], ◌∷◌, contains}
use hollow_agent_os.Event.{object_of}
use hollow_agent_os.Registry.Record.{Registry}
use hollow_agent_os.Lineage.Tree.{Edge, Node}
use hollow_agent_os.Lineage.{Graph, subtree, get_subtree, get_blast_radius, critical_path}
use hollow_agent_os.Scheduler.Record.{Task, queued}
use hollow_agent_os.Lineage.Path.{StartsAt, critical_path-IsChain}
use hollow_agent_os.Lineage.Total.{get_subtree-ends}
use hollow_agent_os.Lineage.Walks.{Reach}
use hollow_agent_os.Lineage.Reach.{get_blast_radius-Reach}

abbrev edge : String → String → Edge
edge i j = record {
  edge_id = i;
  parent_id = i;
  child_id = j;
  edge_type = "spawned";
  metadata = object_of [];
  timestamp = 1000;
}

abbrev registry : Registry
registry = record {
  agents = [];
  token_index = [];
  master_token = "master";
  event_bus = none;
  budget_warned = [];
  budget_exhausted = [];
  saved = none;
  tombstones = [];
}

-- A cycle of two agents, and an edge out of it.
abbrev graph : Graph
graph = record {
  edges = edge "a" "b" ∷ edge "b" "a" ∷ edge "b" "c" ∷ edge "b" "c" ∷ [];
  registry = some registry;
  tasks = none;
  txn_coordinator = none;
}

get_subtree-ends_example :
    (t : Node) × (get_subtree graph "a"
      ≡ subtree t (get_blast_radius graph "a").affected_agent_count)
get_subtree-ends_example = get_subtree-ends graph registry "a" refl

get_blast_radius-Reach_example :
    (contains "a" (get_blast_radius graph "a").affected_agents ≡ true) ↔ Reach graph.edges "a" "a"
get_blast_radius-Reach_example = get_blast_radius-Reach graph registry "a" "a" refl

abbrev task : String → List String → Task
task i depends_on = record {
  task_id = i;
  description = "summarize";
  complexity = 2;
  submitted_by = "a";
  assigned_to = none;
  status = queued;
  result = none;
  created_at = 10;
  priority = 1;
  started_at = none;
  finished_at = none;
  error = none;
  context = object_of [];
  depends_on = depends_on;
  parent_task_id = none;
  stream_enabled = false;
  partial_output = "";
  cancelled_flag = false;
}

-- Two tasks that wait for each other, and one that waits for both.
abbrev tasks : List Task
tasks = task "t1" ("t2" ∷ []) ∷ task "t2" ("t1" ∷ []) ∷ task "t3" ("t1" ∷ "t2" ∷ []) ∷ []

abbrev busy : Graph
busy = record graph { tasks = some tasks }

critical_path-IsChain_example :
    (p : List String) × (critical_path busy "t1" ≡ some p) × StartsAt tasks "t1" p
critical_path-IsChain_example = critical_path-IsChain busy tasks "t1" refl
