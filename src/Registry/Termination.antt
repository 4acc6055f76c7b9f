-- ===== src/Registry/Termination.antt =====
-- agents/registry.py, `terminate`: the token is revoked, the children are adopted by root, and the
-- other agents stay as they were.
use Prim.Native.String.{◌++◌ as join}
use hollow_agent_os.Base.{
  ◌≡◌, String, ◌==◌, eq_iff, eq_refl, false, not, ◌&&◌, some, arith, inl, inr, if◌then◌else◌,
  Option-cases,
}
use hollow_agent_os.Dict
use hollow_agent_os.Dict.{Dict, get-put, get-put_self, get-map_values, map_option}
use hollow_agent_os.Registry.Record.{AgentRecord, Registry, terminated, is_terminated, is_id}
use hollow_agent_os.Registry.Lifecycle.{
  Cause, terminate, terminate_known, retire, write_tombstone, adopt,
}

-- The record with its tombstone.
abbrev buried : AgentRecord → AgentRecord
buried a = record a { tombstone_path = some (join a.workspace_dir "/tombstone.json") }

-- What `adopt` and the final status make of the terminated agent itself.
abbrev pub retired : String → AgentRecord → AgentRecord
retired i a = record (adopt i (buried a)) { status = terminated }

module _ (r : Registry) (i : String) (c : Cause) (a : AgentRecord)
    (e : Dict.get i r.agents ≡ some a) where
  tombstone-agents :
      (j : String)
      → Dict.get j (write_tombstone r i c).1.agents
        ≡ (if i == j then some (buried a) else Dict.get j r.agents)
  unfolding write_tombstone
  tombstone-agents j = ground (arith, get-put i j (buried a) r.agents)

  adopted :
      (j : String)
      → Dict.get j (Dict.map_values (adopt i) (write_tombstone r i c).1.agents)
        ≡ (if i == j then some (adopt i (buried a)) else map_option (adopt i) (Dict.get j r.agents))
  adopted j =
      ground
        (arith, get-map_values (adopt i) j (write_tombstone r i c).1.agents, tombstone-agents j)

  adopted_self :
      Dict.get i (Dict.map_values (adopt i) (write_tombstone r i c).1.agents)
      ≡ some (adopt i (buried a))
  adopted_self = ground (arith, adopted i, eq_refl i)

  -- The agents that termination leaves.
  pub terminate-agents :
      (j : String)
      → Dict.get j (terminate_known (write_tombstone r i c).1 i c).agents
        ≡ (if i == j then some (retired i a) else map_option (adopt i) (Dict.get j r.agents))
  unfolding terminate_known retire
  terminate-agents j = ground (
    arith,
    adopted_self,
    adopted j,
    get-put i j (retired i a) (Dict.map_values (adopt i) (write_tombstone r i c).1.agents),
  )

adopt-orphan :
    (i : String) (b : AgentRecord)
    → is_terminated b.status ≡ false
    → (i == "root") ≡ false
    → is_id (adopt i b).parent_id i ≡ false
unfolding adopt
adopt-orphan i b live other = ground (arith, eq_iff i "root", eq_iff "root" i)

adopt-status : (i : String) (b : AgentRecord) → (adopt i b).status ≡ b.status
unfolding adopt
adopt-status i b = ground arith

-- After an agent is terminated, no live agent has it as its parent.
pub terminate_orphans :
    (r r' : Registry) (i j : String) (c : Cause) (a b : AgentRecord)
    → Dict.get i r.agents ≡ some a
    → terminate r i c ≡ some r'
    → Dict.get j r'.agents ≡ some b
    → is_terminated b.status ≡ false
    → is_id b.parent_id i ≡ false
unfolding terminate
terminate_orphans r r' i j c a b e done known live = elim (Option-cases (Dict.get j r.agents)) [
  | inl q ↦ ground (arith, terminate-agents r i c a e j)
  | inr (b', q) ↦ ground (arith, terminate-agents r i c a e j, adopt-orphan i b', adopt-status i b')
]

-- A live child of the terminated agent becomes a child of root, and is changed in nothing else; any
-- other agent stays as it was.
pub terminate-adopts :
    (r r' : Registry) (i j : String) (c : Cause) (a b : AgentRecord)
    → Dict.get i r.agents ≡ some a
    → Dict.get j r.agents ≡ some b
    → (i == j) ≡ false
    → terminate r i c ≡ some r'
    → Dict.get j r'.agents
      ≡ some (
          if is_id b.parent_id i && not (is_terminated b.status)
          then record b { parent_id = some "root" }
          else b)
unfolding terminate adopt
terminate-adopts r r' i j c a b e f other done = ground (arith, terminate-agents r i c a e j)
