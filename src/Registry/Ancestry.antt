-- ===== src/Registry/Ancestry.antt =====
-- agents/registry.py, `get_lineage`: the parent chain, whose loop stops at a parent that is missing or
-- was visited. The fuel bounds the loop; the module below shows how much is enough.
use hollow_agent_os.Base.{
  ℕ, zero, suc, ◌+◌, String, Option, none, some, List, [], ◌∷◌, ◌==◌, ◌||◌, if◌then◌else◌, contains,
  length,
}
use hollow_agent_os.Dict
use hollow_agent_os.Dict.{Dict}
use hollow_agent_os.Registry.Record.{AgentRecord, Registry}

-- `none` means that the fuel ran out. `walk` stands at `current_id`, which may be missing or empty.
unfoldable pub walk : Dict AgentRecord → ℕ → List String → Option String → Option (List AgentRecord)
walk agents zero seen current = none
walk agents (suc fuel) seen none = some []
walk agents (suc fuel) seen (some i) =
    let visit : Option (List AgentRecord) = elim (Dict.get i agents) [
      | none ↦ some []
      | some a ↦ elim (walk agents fuel (i ∷ seen) a.parent_id) [
        | none ↦ none
        | some chain ↦ some (a ∷ chain)
      ]
    ] in
    if (i == "") || contains i seen then some [] else visit

-- Each round visits an agent that was not visited before.
abbrev pub enough : Dict AgentRecord → ℕ
enough agents = length agents + 2

-- `AgentRegistry.get_lineage`.
unfoldable pub get_lineage : Registry → String → Option (List AgentRecord)
unfolding walk
get_lineage r agent_id = walk r.agents (enough r.agents) [] (some agent_id)
