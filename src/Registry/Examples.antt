-- ===== src/Registry/Examples.antt =====
-- The registry's theorems at concrete inputs, and tests of its operations.
use Prim.Native.String.{◌++◌ as join}
use hollow_agent_os.Base.{
  ◌+◌, ◌≤◌, ◌≡◌, refl, String, Option, none, some, List, [], ◌∷◌, length, contains, IsSetList,
}
use hollow_agent_os.Dict
use hollow_agent_os.Dict.{Dict}
use hollow_agent_os.Event.{Event, emit}
use hollow_agent_os.Registry.Record.{
  AgentRecord, Registry, Status, active, over_budget, get, max_spawn_depth,
}
use hollow_agent_os.Registry.Accounts.{
  Crypto, Request, register, authenticate, token_for, new_record, file_record, registered_event,
}
use hollow_agent_os.Registry.Boot.{start}
use hollow_agent_os.Registry.Ancestry.{get_lineage}
use hollow_agent_os.Registry.Lifecycle.{Cause, terminate, terminate_known, write_tombstone}
use hollow_agent_os.Registry.Locks.{acquire_lock}
use hollow_agent_os.Registry.Usage.{Alerts, update_usage}
use hollow_agent_os.Registry.Exclusion.{IsExclusive, acquire_lock-IsExclusive}
use hollow_agent_os.Registry.Access.{register-authenticate}
use hollow_agent_os.Registry.Termination.{terminate-adopts}
use hollow_agent_os.Registry.Chain.{get_lineage-Linked, Linked}
use hollow_agent_os.Registry.Budget.{update_usage_reports_once, reported}
use hollow_agent_os.Registry.History.{registers, acquires, terminates, run}
use hollow_agent_os.Registry.Sound.{IsSound}
use hollow_agent_os.Registry.Startup.{run-start-IsSound}

abbrev crypto : Crypto
crypto = record { sha256 = λ t. join "sha:" t; hmac = λ k m. join m (join "/" k) }

abbrev request : Request
request = record {
  name = "Mapper";
  role = "worker";
  capabilities = some ("shell" ∷ "admin" ∷ []);
  budget = none;
  parent_id = some "scout";
  metadata = none;
  model_policies = none;
  group_id = some "scout";
  parent_task_id = none;
}

abbrev agent : String → Option String → Status → AgentRecord
agent i parent s = record {
  agent_id = i;
  name = i;
  role = "worker";
  capabilities = "shell" ∷ [];
  token_hash = join "sha:" (join i "/master");
  workspace_dir = join "/w/" i;
  status = s;
  budget = ("shell_calls", 10) ∷ ("tokens_in", 100) ∷ [];
  usage = ("shell_calls", 3) ∷ ("tokens_in", 100) ∷ [];
  created_at = 5;
  parent_id = parent;
  spawn_depth = 1;
  current_task = none;
  metadata = [];
  locks = [];
  model_policies = [];
  group_id = none;
  tombstone_path = none;
  parent_task_id = none;
}

-- `b` is a child of `a`; the parents of `c` and `d` form a cycle.
abbrev small : Registry
small = record {
  agents =
      ("a", agent "a" none active)
      ∷ ("b", agent "b" (some "a") active)
      ∷ ("c", agent "c" (some "d") active)
      ∷ ("d", agent "d" (some "c") active)
      ∷ [];
  token_index = ("sha:a/master", "a") ∷ ("sha:b/master", "b") ∷ [];
  master_token = "master";
  event_bus = some [];
  budget_warned = [];
  budget_exhausted = [];
  saved = none;
  tombstones = [];
}

abbrev cause : Cause
cause = record { reason = "explicit"; terminated_by = "root"; at = 9 }

registered_capabilities : (new_record crypto small "m1" 7 request).capabilities ≡ "shell" ∷ []
unfolding new_record Dict.get contains
registered_capabilities = refl

lineage_cycle :
    get_lineage small "c" ≡ some (agent "c" (some "d") active ∷ agent "d" (some "c") active ∷ [])
unfolding get_lineage contains Dict.get
lineage_cycle = refl

over_budget_small : over_budget (agent "a" none active) ≡ some "tokens_in"
unfolding over_budget Dict.get
over_budget_small = refl

get_lineage-Linked_example :
    (chain : List AgentRecord) × (get_lineage small "c" ≡ some chain)
    × Linked small.agents [] (some "c") chain
get_lineage-Linked_example = get_lineage-Linked small "c"

acquire_lock-IsExclusive_example :
    IsExclusive (acquire_lock (start crypto 1 "master" none) "scout" "repo" 5 300).1.agents
unfolding run
acquire_lock-IsExclusive_example =
    acquire_lock-IsExclusive (start crypto 1 "master" none) "scout" "repo" 5 300
      (run-start-IsSound crypto 1 "master" []).locking

abbrev worker : AgentRecord
worker = new_record crypto small "m1" 7 (record request { parent_id = none })

abbrev filed_worker : Registry
filed_worker = record (file_record crypto worker small) {
  event_bus = emit (registered_event crypto worker) small.event_bus;
}

register-authenticate_example :
    (authenticate crypto (filed_worker) "m1/master" ≡ some worker)
    × (get filed_worker "m1" ≡ some worker)
    × (worker.spawn_depth ≤ max_spawn_depth)
unfolding register new_record Dict.get token_for
register-authenticate_example =
    register-authenticate crypto small "m1" 7 (record request { parent_id = none }) worker
      "m1/master" filed_worker refl refl refl

run-start-IsSound_example :
    IsSound
      (run crypto
        (start crypto 1 "master" none)
        (registers "m1" 2 request ∷ acquires "m1" "repo" 3 300 ∷ terminates "m1" cause ∷ [])).agents
run-start-IsSound_example =
    run-start-IsSound crypto 1 "master"
      (registers "m1" 2 request ∷ acquires "m1" "repo" 3 300 ∷ terminates "m1" cause ∷ [])

abbrev after_a : Registry
after_a = terminate_known (write_tombstone small "a" cause).1 "a" cause

terminate-adopts_example : Dict.get "b" after_a.agents ≡ some (agent "b" (some "root") active)
unfolding terminate Dict.get
terminate-adopts_example =
    terminate-adopts small after_a "a" "b" cause (agent "a" none active)
      (agent "b" (some "a") active) refl refl refl refl

update_usage_reports_once_example :
    let r' = update_usage small "a" 5 1 0 in
    (log' : List Event) × (r'.event_bus ≡ some log')
    × (length log' + reported small ≡ 0 + reported r')
    × IsSetList r'.budget_warned
    × IsSetList r'.budget_exhausted
update_usage_reports_once_example = update_usage_reports_once small "a" 5 1 0 [] refl tt tt

abbrev quiet : Alerts
quiet = record { warned = []; exhausted = []; events = [] }
