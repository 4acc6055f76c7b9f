-- ===== src/Signals/Examples.antt =====
-- The theorem on group termination at a concrete registry.
use hollow_agent_os.Base.{◌≡◌, refl, true, none, some, [], ◌∷◌}
use hollow_agent_os.Dict
use hollow_agent_os.Registry.Record.{AgentRecord, active, is_terminated}
use hollow_agent_os.Signals.{System, terminate_group, fire_all}
use hollow_agent_os.Signals.Group.{terminate_group-ends}

abbrev agent : AgentRecord
agent = record {
  agent_id = "a";
  name = "scout";
  role = "worker";
  capabilities = [];
  token_hash = "hash";
  workspace_dir = "/agentOS/workspace/a";
  status = active;
  budget = [];
  usage = [];
  created_at = 10;
  parent_id = some "root";
  spawn_depth = 1;
  current_task = none;
  metadata = [];
  locks = [];
  model_policies = [];
  group_id = some "g";
  tombstone_path = none;
  parent_task_id = none;
}

abbrev system : System
system = record {
  registry = record {
    agents = ("a", agent) ∷ [];
    token_index = [];
    master_token = "master";
    event_bus = none;
    budget_warned = [];
    budget_exhausted = [];
    saved = none;
    tombstones = [];
  };
  bus = record { queues = []; all = []; objects = []; events = none };
  events = none;
  watchdogs = [];
}

terminate_group-ends_example :
    let s' = (terminate_group (λ i. i) system "g" "root" 30 100).1 in
    (b : AgentRecord) × (Dict.get "a" (fire_all s'.registry s'.watchdogs).agents ≡ some b)
    × (is_terminated b.status ≡ true)
unfolding Dict.get
terminate_group-ends_example =
    terminate_group-ends (λ i. i) system "g" "root" "a" 30 100 agent refl refl refl refl refl
