-- ===== src/Registry/Accounts.antt =====
-- agents/registry.py: who exists and who may call. `register`, `authenticate`, the agents that every
-- start ensures, loading, and the parent chain. The hash functions of the standard library are the
-- parameter `crypto`; a clock reading and a fresh identifier are arguments.
use Prim.Native.String.{◌++◌ as join}
use hollow_agent_os.Base.{
  ℕ, ◌+◌, String, Option, none, some, List, [], ◌∷◌, ◌==◌, ltb, if◌then◌else◌, contains, filter,
  get_or,
}
use hollow_agent_os.Dict
use hollow_agent_os.Dict.{Dict}
use hollow_agent_os.Event.{Event, Json, text, number, object_of, optional_text, emit}
use hollow_agent_os.Registry.Record.{
  AgentRecord, Registry, active, is_active, role_defaults, role_budgets, no_usage, max_spawn_depth,
  save,
}

-- hashlib.sha256 and hmac.new(…, sha256), as functions of texts to hex digests.
pub record Crypto : Type 0 where
  pub sha256 : String → String
  pub hmac : String → String → String

-- `WORKSPACE_ROOT / agent_id`.
abbrev pub workspace_of : String → String
workspace_of agent_id = join "/agentOS/workspace/agents/" agent_id

-- `ROLE_DEFAULTS.get(role, ROLE_DEFAULTS[other])`.
unfoldable pub caps_for : String → String → List String
unfolding role_defaults
caps_for other role =
    get_or (Dict.get role role_defaults) (get_or (Dict.get other role_defaults) [])

-- `ROLE_BUDGETS.get(role, ROLE_BUDGETS[other])`.
unfoldable pub budget_for : String → String → Dict ℕ
unfolding role_budgets
budget_for other role =
    get_or (Dict.get role role_budgets) (get_or (Dict.get other role_budgets) [])

-- The arguments of `register`.
pub record Request : Type 0 where
  pub name : String
  pub role : String
  pub capabilities : Option (List String)
  pub budget : Option (Dict ℕ)
  pub parent_id : Option String
  pub metadata : Option (Dict Json)
  pub model_policies : Option (Dict (List String))
  pub group_id : Option String
  pub parent_task_id : Option String

-- `role if role in ROLE_DEFAULTS else "custom"`.
unfoldable pub known_role : String → String
unfolding Dict.has_key role_defaults
known_role role = if Dict.has_key role role_defaults then role else "custom"

-- `list(allowed & set(capabilities)) if capabilities else list(allowed)`.
unfoldable pub granted : List String → Option (List String) → List String
unfolding filter
granted allowed none = allowed
granted allowed (some []) = allowed
granted allowed (some (c ∷ cs)) = filter (λ x. contains x (c ∷ cs)) allowed

-- `budget or default`: an empty dict is false.
abbrev pub budget_or : Option (Dict ℕ) → Dict ℕ → Dict ℕ
budget_or none d = d
budget_or (some []) d = d
budget_or (some (x ∷ b)) d = x ∷ b

-- `self._agents.get(parent_id) if parent_id else None`: an empty text is false.
abbrev pub parent_record : Registry → Option String → Option AgentRecord
parent_record r none = none
parent_record r (some p) = if p == "" then none else Dict.get p r.agents

abbrev depth_below : Option AgentRecord → ℕ
depth_below none = 0
depth_below (some p) = p.spawn_depth + 1

pub data Registered : Type 0 where
  ok : AgentRecord → String → Registry → Registered
  depth_exceeded : Registered

module _ (crypto : Crypto) where
  -- `_hash_token`.
  unfoldable pub hash_token : String → String
  hash_token token = crypto.sha256 token

  -- `_token_for`.
  unfoldable pub token_for : String → String → String
  token_for agent_id master_secret = crypto.hmac master_secret agent_id

  -- The record that `register` builds.
  unfoldable pub new_record : Registry → String → ℕ → Request → AgentRecord
  unfolding hash_token token_for caps_for budget_for granted known_role
  new_record r agent_id now q =
      let role = known_role q.role in
      record {
        agent_id = agent_id;
        name = q.name;
        role = role;
        capabilities = granted (caps_for "custom" role) q.capabilities;
        token_hash = hash_token (token_for agent_id r.master_token);
        workspace_dir = workspace_of agent_id;
        status = active;
        budget = budget_or q.budget (budget_for "custom" role);
        usage = no_usage;
        created_at = now;
        parent_id = q.parent_id;
        spawn_depth = depth_below (parent_record r q.parent_id);
        current_task = none;
        metadata = get_or q.metadata [];
        locks = [];
        model_policies = get_or q.model_policies [];
        group_id = q.group_id;
        tombstone_path = none;
        parent_task_id = q.parent_task_id;
      }

  abbrev pub registered_event : AgentRecord → Event
  registered_event a = record {
    event_type = "agent.registered";
    source_id = a.agent_id;
    payload = object_of (
        ("agent_id", text a.agent_id)
        ∷ ("name", text a.name)
        ∷ ("role", text a.role)
        ∷ ("parent_id", optional_text a.parent_id)
        ∷ ("spawn_depth", number a.spawn_depth)
        ∷ ("group_id", optional_text a.group_id)
        ∷ []);
  }

  -- A record and its token are filed and the registry is saved.
  unfoldable pub file_record : AgentRecord → Registry → Registry
  unfolding save
  file_record a r = save (record r {
    agents = Dict.put a.agent_id a r.agents;
    token_index = Dict.put a.token_hash a.agent_id r.token_index;
  })

  -- `AgentRegistry.register`.
  unfoldable pub register : Registry → String → ℕ → Request → Registered
  unfolding new_record file_record
  register r agent_id now q =
      let a = new_record r agent_id now q in
      if ltb max_spawn_depth a.spawn_depth
      then depth_exceeded
      else ok a (token_for agent_id r.master_token)
          (record (file_record a r) { event_bus = emit (registered_event a) r.event_bus })

  abbrev pub if_active : Option AgentRecord → Option AgentRecord
  if_active none = none
  if_active (some a) = if is_active a.status then some a else none

  abbrev pub resolve : Dict AgentRecord → Option String → Option AgentRecord
  resolve agents none = none
  resolve agents (some agent_id) =
      if agent_id == "" then none else if_active (Dict.get agent_id agents)

  -- `AgentRegistry.authenticate`.
  unfoldable pub authenticate : Registry → String → Option AgentRecord
  unfolding hash_token
  authenticate r token =
      if token == r.master_token
      then Dict.get "root" r.agents
      else resolve r.agents (Dict.get (hash_token token) r.token_index)
