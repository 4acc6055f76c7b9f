-- ===== src/Registry/Lifecycle.antt =====
-- agents/registry.py: suspension, resumption, termination with its tombstone and the adoption of
-- orphans, and the current task.
use Prim.Native.String.{◌++◌ as join}
use hollow_agent_os.Base.{
  ℕ, String, not, ◌&&◌, Option, none, some, List, [], ◌∷◌, ◌==◌, if◌then◌else◌,
}
use hollow_agent_os.Dict
use hollow_agent_os.Dict.{Dict}
use hollow_agent_os.Event.{Event, text, counts, object_of, optional_text, emit}
use hollow_agent_os.Registry.Record.{
  AgentRecord, Registry, Tombstone, active, suspended, terminated, is_active, is_suspended,
  is_terminated, is_id, save,
}

-- `self._agents[agent_id] = a` for a record that is changed in place.
abbrev pub set_agent : String → AgentRecord → Registry → Registry
set_agent agent_id a r = record r { agents = Dict.put agent_id a r.agents }

-- `AgentRegistry.set_task`.
unfoldable pub set_task : Registry → String → Option String → Registry
unfolding save
set_task r agent_id task = elim (Dict.get agent_id r.agents) [
  | none ↦ r
  | some a ↦ save (set_agent agent_id (record a { current_task = task }) r)
]

abbrev status_event : String → String → Event
status_event event_type agent_id = record {
  event_type = event_type;
  source_id = agent_id;
  payload = object_of (("agent_id", text agent_id) ∷ []);
}

-- `AgentRegistry.suspend`.
unfoldable pub suspend : Registry → String → Registry
unfolding save
suspend r agent_id = elim (Dict.get agent_id r.agents) [
  | none ↦ r
  | some a ↦
      if is_active a.status
      then record (save (set_agent agent_id (record a { status = suspended }) r)) {
        event_bus = emit (status_event "agent.suspended" agent_id) r.event_bus;
      }
      else r
]

-- `AgentRegistry.resume`.
unfoldable pub resume : Registry → String → Registry
unfolding save
resume r agent_id = elim (Dict.get agent_id r.agents) [
  | none ↦ r
  | some a ↦
      if is_suspended a.status
      then record (save (set_agent agent_id (record a { status = active }) r)) {
        event_bus = emit (status_event "agent.resumed" agent_id) r.event_bus;
      }
      else r
]

-- `[aid for aid, rec in self._agents.items() if rec.parent_id == agent_id]`.
unfoldable pub children_of : String → Dict AgentRecord → List String
children_of agent_id [] = []
children_of agent_id ((aid, a) ∷ d) =
    let rest = children_of agent_id d in if is_id a.parent_id agent_id then aid ∷ rest else rest

-- The arguments that say why and by whom, with the clock reading of the tombstone.
pub record Cause : Type 0 where
  pub reason : String
  pub terminated_by : String
  pub at : ℕ

abbrev pub tombstone_of : AgentRecord → Cause → List String → Tombstone
tombstone_of a c children = record {
  agent_id = a.agent_id;
  name = a.name;
  role = a.role;
  terminated_at = c.at;
  terminated_by = c.terminated_by;
  reason = c.reason;
  final_usage = a.usage;
  current_task_at_termination = a.current_task;
  children = children;
  parent_id = a.parent_id;
  group_id = a.group_id;
}

-- `AgentRegistry.write_tombstone`; the path is the empty text for an unknown agent. The `agent_id`
-- that the file names is the argument.
unfoldable pub write_tombstone : Registry → String → Cause → String × Registry
unfolding save children_of
write_tombstone r agent_id c = elim (Dict.get agent_id r.agents) [
  | none ↦ ("", r)
  | some a ↦
      let path = join a.workspace_dir "/tombstone.json" in
      let file = record (tombstone_of a c (children_of agent_id r.agents)) {
        agent_id = agent_id;
      } in
      (
        path,
        record (save (set_agent agent_id (record a { tombstone_path = some path }) r)) {
          tombstones = Dict.put path file r.tombstones;
        },
      )
]

-- The body of the adoption loop.
unfoldable pub adopt : String → AgentRecord → AgentRecord
adopt agent_id a =
    if is_id a.parent_id agent_id && not (is_terminated a.status)
    then record a { parent_id = some "root" }
    else a

abbrev terminated_event : String → AgentRecord → Cause → Event
terminated_event agent_id a c = record {
  event_type = "agent.terminated";
  source_id = agent_id;
  payload = object_of (
      ("agent_id", text agent_id)
      ∷ ("name", text a.name)
      ∷ ("role", text a.role)
      ∷ ("parent_id", optional_text a.parent_id)
      ∷ ("final_usage", counts a.usage)
      ∷ ("reason", text c.reason)
      ∷ ("terminated_by", text c.terminated_by)
      ∷ []);
}

-- The rest of `terminate`, under the lock: `agents` is the dict after the adoption loop, and `a` the
-- record in it.
unfoldable pub retire : Registry → String → Cause → Dict AgentRecord → AgentRecord → Registry
unfolding save
retire r agent_id c agents a =
    record (save (record r {
      agents = Dict.put agent_id (record a { status = terminated }) agents;
      token_index = Dict.remove a.token_hash r.token_index;
    })) { event_bus = emit (terminated_event agent_id a c) r.event_bus }

unfoldable pub terminate_known : Registry → String → Cause → Registry
unfolding retire adopt
terminate_known r agent_id c =
    let agents = Dict.map_values (adopt agent_id) r.agents in
    elim (Dict.get agent_id agents) [ none ↦ r | some a ↦ retire r agent_id c agents a ]

-- `AgentRegistry.terminate`; `none` is the ValueError of the root agent.
unfoldable pub terminate : Registry → String → Cause → Option Registry
unfolding terminate_known write_tombstone
terminate r agent_id c =
    if agent_id == "root"
    then none
    else some (terminate_known (write_tombstone r agent_id c).1 agent_id c)

-- `AgentRegistry.force_terminate`.
unfoldable pub force_terminate : Registry → String → Cause → Registry
unfolding terminate_known write_tombstone
force_terminate r agent_id c =
    if agent_id == "root" then r else terminate_known (write_tombstone r agent_id c).1 agent_id c

-- The members that `terminate_group` collects.
unfoldable pub group_members : String → Dict AgentRecord → List String
group_members group_id [] = []
group_members group_id ((aid, a) ∷ d) =
    let rest = group_members group_id d in
    if is_id a.group_id group_id && not (is_terminated a.status) then a.agent_id ∷ rest else rest

unfoldable pub force_terminate_all : Registry → List String → Cause → Registry
unfolding force_terminate
force_terminate_all r [] c = r
force_terminate_all r (m ∷ members) c = force_terminate_all (force_terminate r m c) members c

-- `AgentRegistry.terminate_group` without a `signal_fn`: the members and the registry after it.
unfoldable pub terminate_group : Registry → String → String → ℕ → List String × Registry
unfolding force_terminate_all group_members
terminate_group r group_id sent_by now =
    let members = group_members group_id r.agents in
    (
      members,
      force_terminate_all r members
          (record { reason = "group_terminate"; terminated_by = sent_by; at = now }),
    )
