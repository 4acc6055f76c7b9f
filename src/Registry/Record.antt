-- ===== src/Registry/Record.antt =====
-- agents/registry.py: the record of one agent, the capability and budget tables of the roles, and the
-- state of `AgentRegistry`.
use hollow_agent_os.Base.{
  ℕ, String, Bool, true, false, Option, none, some, List, [], ◌∷◌, ◌==◌, leb, if◌then◌else◌,
  contains, get_or,
}
use hollow_agent_os.Dict
use hollow_agent_os.Dict.{Dict}
use hollow_agent_os.Event.{Event, Json}

-- `ALL_CAPS`.
abbrev pub all_caps : List String
all_caps =
    "shell" ∷ "shell_root" ∷ "fs_read" ∷ "fs_write" ∷ "fs_edit" ∷ "fs_root" ∷ "ollama" ∷ "spawn"
    ∷ "message" ∷ "semantic" ∷ "admin" ∷ []

-- `ROLE_DEFAULTS`.
unfoldable pub role_defaults : Dict (List String)
role_defaults =
    ("root", all_caps)
    ∷ (
      "orchestrator",
      "shell" ∷ "fs_read" ∷ "fs_write" ∷ "fs_edit" ∷ "ollama" ∷ "spawn" ∷ "message" ∷ "semantic"
          ∷ [],
    )
    ∷ (
      "worker",
      "shell" ∷ "fs_read" ∷ "fs_write" ∷ "fs_edit" ∷ "ollama" ∷ "message" ∷ "semantic" ∷ [],
    )
    ∷ ("readonly", "fs_read" ∷ "semantic" ∷ "message" ∷ [])
    ∷ (
      "coder",
      "shell" ∷ "fs_read" ∷ "fs_write" ∷ "fs_edit" ∷ "ollama" ∷ "message" ∷ "semantic" ∷ [],
    )
    ∷ ("reasoner", "fs_read" ∷ "ollama" ∷ "message" ∷ "semantic" ∷ [])
    ∷ ("custom", "fs_read" ∷ "message" ∷ [])
    ∷ []

abbrev budget_of : ℕ → ℕ → ℕ → Dict ℕ
budget_of calls tokens_in tokens_out =
    ("shell_calls", calls) ∷ ("tokens_in", tokens_in) ∷ ("tokens_out", tokens_out) ∷ []

-- `ROLE_BUDGETS`.
unfoldable pub role_budgets : Dict (Dict ℕ)
role_budgets =
    ("root", budget_of 10000 10_000_000 10_000_000)
    ∷ ("orchestrator", budget_of 1000 500_000 500_000)
    ∷ ("worker", budget_of 200 100_000 100_000)
    ∷ ("readonly", budget_of 0 50_000 0)
    ∷ ("coder", budget_of 500 200_000 200_000)
    ∷ ("reasoner", budget_of 10 200_000 200_000)
    ∷ ("custom", budget_of 50 50_000 50_000)
    ∷ []

-- `MAX_SPAWN_DEPTH`.
abbrev pub max_spawn_depth : ℕ
max_spawn_depth = 5

-- The `usage` of a new agent.
abbrev pub no_usage : Dict ℕ
no_usage = budget_of 0 0 0

pub data Status : Type 0 where
  registered active suspended terminated : Status

abbrev pub is_active : Status → Bool
is_active Status.active = true
is_active _ = false

abbrev pub is_suspended : Status → Bool
is_suspended Status.suspended = true
is_suspended _ = false

abbrev pub is_terminated : Status → Bool
is_terminated Status.terminated = true
is_terminated _ = false

-- The value of `locks[name]`.
pub record LockInfo : Type 0 where
  pub acquired_at : ℕ
  pub expires_at : ℕ

pub record AgentRecord : Type 0 where
  pub agent_id : String
  pub name : String
  pub role : String
  pub capabilities : List String
  pub token_hash : String
  pub workspace_dir : String
  pub status : Status
  pub budget : Dict ℕ
  pub usage : Dict ℕ
  pub created_at : ℕ
  pub parent_id : Option String
  pub spawn_depth : ℕ
  pub current_task : Option String
  pub metadata : Dict Json
  pub locks : Dict LockInfo
  pub model_policies : Dict (List String)
  pub group_id : Option String
  pub tombstone_path : Option String
  pub parent_task_id : Option String

-- `AgentRecord.has_cap`.
unfoldable pub has_cap : AgentRecord → String → Bool
has_cap a cap = contains cap a.capabilities

-- The loop of `AgentRecord.over_budget` over the entries of `budget`.
unfoldable pub first_exhausted : Dict ℕ → Dict ℕ → Option String
first_exhausted usage [] = none
first_exhausted usage ((key, limit) ∷ budget) =
    let rest = first_exhausted usage budget in
    if leb limit (get_or (Dict.get key usage) 0) then some key else rest

-- `AgentRecord.over_budget`.
unfoldable pub over_budget : AgentRecord → Option String
unfolding first_exhausted
over_budget a = first_exhausted a.usage a.budget

-- The contents of a tombstone.json.
pub record Tombstone : Type 0 where
  pub agent_id : String
  pub name : String
  pub role : String
  pub terminated_at : ℕ
  pub terminated_by : String
  pub reason : String
  pub final_usage : Dict ℕ
  pub current_task_at_termination : Option String
  pub children : List String
  pub parent_id : Option String
  pub group_id : Option String

-- `AgentRegistry`. `saved` is the registry file, `tombstones` the tombstone files by path, and
-- `event_bus` what was emitted, if a bus is injected.
pub record Registry : Type 0 where
  pub agents : Dict AgentRecord
  pub token_index : Dict String
  pub master_token : String
  pub event_bus : Option (List Event)
  pub budget_warned : List String
  pub budget_exhausted : List String
  pub saved : Option (Dict AgentRecord)
  pub tombstones : Dict Tombstone

-- `AgentRegistry.set_event_bus`.
unfoldable set_event_bus : Registry → Option (List Event) → Registry
set_event_bus r event_bus = record r { event_bus = event_bus }

-- `AgentRegistry._save`.
unfoldable pub save : Registry → Registry
save r = record r { saved = some r.agents }

-- `AgentRegistry.get`.
unfoldable pub get : Registry → String → Option AgentRecord
get r agent_id = Dict.get agent_id r.agents

-- `AgentRegistry.list_agents`.
unfoldable pub list_agents : Registry → List AgentRecord
list_agents r = Dict.values r.agents

-- `id == agent_id` for an optional id.
abbrev pub is_id : Option String → String → Bool
is_id none agent_id = false
is_id (some i) agent_id = i == agent_id
