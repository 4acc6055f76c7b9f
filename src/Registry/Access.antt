-- ===== src/Registry/Access.antt =====
-- agents/registry.py: whom a token lets in, over the life of an agent.
use hollow_agent_os.Base.{
  ℕ, ◌≤◌, ◌≡◌, String, ◌==◌, eq_iff, eq_refl, false, none, some, arith, if◌then◌else◌,
}
use hollow_agent_os.Dict
use hollow_agent_os.Dict.{Dict, get-put, get-put_self, get-remove, get-map_values}
use hollow_agent_os.Registry.Record.{AgentRecord, Registry, active, suspended, get, max_spawn_depth}
use hollow_agent_os.Registry.Accounts.{
  Crypto, Request, hash_token, token_for, register, ok, authenticate, new_record,
}
use hollow_agent_os.Registry.Lifecycle.{suspend, resume}

module _ (crypto : Crypto) where
  -- The token that a successful registration returns authenticates the registered record, which is
  -- active, within the depth limit, and filed under the identifier it was given.
  pub register-authenticate :
      (r : Registry) (agent_id : String) (now : ℕ) (q : Request) (a : AgentRecord) (token : String)
      (r' : Registry)
      → register crypto r agent_id now q ≡ ok a token r'
      → (token == r.master_token) ≡ false
      → (agent_id == "") ≡ false
      → (authenticate crypto r' token ≡ some a)
        × (get r' agent_id ≡ some a)
        × (a.spawn_depth ≤ max_spawn_depth)
  unfolding register authenticate get
  register-authenticate r agent_id now q a token r' e other named = ground (
    arith,
    get-put_self agent_id (new_record crypto r agent_id now q) r.agents,
    get-put_self (hash_token crypto (token_for crypto agent_id r.master_token)) agent_id
        r.token_index,
  )

  -- Without the master token, only an active agent is let in.
  pub authenticate_active :
      (r : Registry) (token : String) (a : AgentRecord)
      → (token == r.master_token) ≡ false
      → authenticate crypto r token ≡ some a
      → a.status ≡ active
  unfolding authenticate
  authenticate_active r token a other e = ground arith

-- The agents after an active one is suspended, and after a suspended one is resumed.
suspend-agents :
    (r : Registry) (i j : String) (a : AgentRecord)
    → Dict.get i r.agents ≡ some a
    → a.status ≡ active
    → Dict.get j (suspend r i).agents
      ≡ (if i == j then some (record a { status = suspended }) else Dict.get j r.agents)
unfolding suspend
suspend-agents r i j a e live =
    ground (arith, get-put i j (record a { status = suspended }) r.agents)

resume-agents :
    (r : Registry) (i j : String) (a : AgentRecord)
    → Dict.get i r.agents ≡ some a
    → a.status ≡ suspended
    → Dict.get j (resume r i).agents
      ≡ (if i == j then some (record a { status = active }) else Dict.get j r.agents)
unfolding resume
resume-agents r i j a e held = ground (arith, get-put i j (record a { status = active }) r.agents)

-- Resuming an agent that was suspended while active gives every agent back as it was.
pub resume-suspend :
    (r : Registry) (i j : String) (a : AgentRecord)
    → Dict.get i r.agents ≡ some a
    → a.status ≡ active
    → Dict.get j (resume (suspend r i) i).agents ≡ Dict.get j r.agents
resume-suspend r i j a e live = ground (
  arith,
  suspend-agents r i i a e live,
  suspend-agents r i j a e live,
  resume-agents (suspend r i) i j (record a { status = suspended }),
  eq_refl i,
  eq_iff i j,
)

suspend-token_index : (r : Registry) (i : String) → (suspend r i).token_index ≡ r.token_index
unfolding suspend
suspend-token_index r i = ground arith

suspend-master_token : (r : Registry) (i : String) → (suspend r i).master_token ≡ r.master_token
unfolding suspend
suspend-master_token r i = ground arith

-- While its agent is suspended, a token that is not the master token lets nobody in.
pub suspend-authenticate :
    (crypto : Crypto) (r : Registry) (i token : String) (a : AgentRecord)
    → (token == r.master_token) ≡ false
    → Dict.get (hash_token crypto token) r.token_index ≡ some i
    → Dict.get i r.agents ≡ some a
    → a.status ≡ active
    → authenticate crypto (suspend r i) token ≡ none
unfolding authenticate
suspend-authenticate crypto r i token a other indexed e live = ground (
  arith,
  suspend-token_index r i,
  suspend-master_token r i,
  suspend-agents r i i a e live,
  eq_refl i,
)
