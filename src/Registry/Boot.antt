-- ===== src/Registry/Boot.antt =====
-- agents/registry.py: what `AgentRegistry.__init__` does. It loads the registry file, and then makes
-- sure that the root agent and the three core agents exist and are active.
use hollow_agent_os.Base.{
  ℕ, String, Option, none, some, List, [], ◌∷◌, if◌then◌else◌, true, is_some,
}
use hollow_agent_os.Dict
use hollow_agent_os.Dict.{Dict}
use hollow_agent_os.Event.{flag, text}
use hollow_agent_os.Registry.Record.{
  AgentRecord, Registry, active, is_active, all_caps, no_usage, save,
}
use hollow_agent_os.Registry.Accounts.{
  Crypto, hash_token, token_for, workspace_of, caps_for, budget_for, file_record,
}

-- One entry of the file; only active agents are in the token index.
unfoldable pub load_entry : AgentRecord → Registry → Registry
load_entry a r = record r {
  agents = Dict.put a.agent_id a r.agents;
  token_index =
      if is_active a.status then Dict.put a.token_hash a.agent_id r.token_index else r.token_index;
}

unfoldable pub load_entries : List AgentRecord → Registry → Registry
unfolding load_entry
load_entries [] r = r
load_entries (a ∷ l) r = load_entries l (load_entry a r)

abbrev file_entries : Option (Dict AgentRecord) → List AgentRecord
file_entries none = []
file_entries (some file) = Dict.values file

-- `AgentRegistry._load`, on a file that `_save` wrote, or on none.
unfoldable pub load : Registry → Registry
unfolding load_entries
load r = load_entries (file_entries r.saved) r

-- The fields before `_load` runs.
abbrev pub blank : String → Option (Dict AgentRecord) → Registry
blank master_token file = record {
  agents = [];
  token_index = [];
  master_token = master_token;
  event_bus = none;
  budget_warned = [];
  budget_exhausted = [];
  saved = file;
  tombstones = [];
}

module _ (crypto : Crypto) (now : ℕ) where
  -- The root record; its token is the master token itself.
  abbrev pub root_record : Registry → AgentRecord
  root_record r = record {
    agent_id = "root";
    name = "root";
    role = "root";
    capabilities = all_caps;
    token_hash = hash_token crypto r.master_token;
    workspace_dir = workspace_of "root";
    status = active;
    budget = budget_for "root" "root";
    usage = no_usage;
    created_at = now;
    parent_id = none;
    spawn_depth = 0;
    current_task = none;
    metadata = [];
    locks = [];
    model_policies = [];
    group_id = none;
    tombstone_path = none;
    parent_task_id = none;
  }

  -- `AgentRegistry._ensure_root`.
  unfoldable pub ensure_root : Registry → Registry
  unfolding file_record
  ensure_root r =
      if is_some (Dict.get "root" r.agents) then r else file_record crypto (root_record r) r

  -- The record of a core agent; `name` is `agent_id.capitalize()`.
  abbrev pub core_record : String → String → String → String → Registry → AgentRecord
  core_record agent_id name role description r = record {
    agent_id = agent_id;
    name = name;
    role = role;
    capabilities = caps_for "worker" role;
    token_hash = hash_token crypto (token_for crypto agent_id r.master_token);
    workspace_dir = workspace_of agent_id;
    status = active;
    budget = budget_for "worker" role;
    usage = no_usage;
    created_at = now;
    parent_id = none;
    spawn_depth = 1;
    current_task = none;
    metadata = ("description", text description) ∷ ("core", flag true) ∷ [];
    locks = [];
    model_policies = [];
    group_id = none;
    tombstone_path = none;
    parent_task_id = none;
  }

  -- One round of the loop; an agent that is there is made active again, and nothing else is changed.
  unfoldable pub ensure_core_agent : String → String → String → String → Registry → Registry
  unfolding file_record save
  ensure_core_agent agent_id name role description r = elim (Dict.get agent_id r.agents) [
    | some a ↦
        if is_active a.status
        then r
        else save (record r { agents = Dict.put agent_id (record a { status = active }) r.agents })
    | none ↦ file_record crypto (core_record agent_id name role description r) r
  ]

  abbrev pub ensure_scout : Registry → Registry
  ensure_scout =
      ensure_core_agent "scout" "Scout" "orchestrator" "Scout — discovers and maps the codebase"

  abbrev pub ensure_analyst : Registry → Registry
  ensure_analyst =
      ensure_core_agent "analyst" "Analyst" "coder" "Analyst — identifies issues and proposes fixes"

  abbrev pub ensure_builder : Registry → Registry
  ensure_builder =
      ensure_core_agent "builder" "Builder" "coder"
        "Builder — implements code changes and new capabilities"

  -- `AgentRegistry._ensure_core_agents`; saving after each change leaves the file that saving once
  -- at the end leaves.
  unfoldable pub ensure_core_agents : Registry → Registry
  unfolding ensure_core_agent
  ensure_core_agents r = ensure_builder (ensure_analyst (ensure_scout r))

  -- `AgentRegistry.__init__`.
  unfoldable pub start : String → Option (Dict AgentRecord) → Registry
  unfolding load ensure_root ensure_core_agents
  start master_token file = ensure_core_agents (ensure_root (load (blank master_token file)))
