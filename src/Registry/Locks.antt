-- ===== src/Registry/Locks.antt =====
-- agents/registry.py: named locks with a time to live, and the model policies.
use hollow_agent_os.Base.{
  ℕ, ◌+◌, ◌-◌, String, Bool, true, false, not, ◌&&◌, ◌||◌, Option, none, some, List, [], ◌∷◌, ◌==◌,
  ltb, if◌then◌else◌, contains,
}
use hollow_agent_os.Dict
use hollow_agent_os.Dict.{Dict}
use hollow_agent_os.Registry.Record.{AgentRecord, LockInfo, Registry, save}

-- Stale locks go: `expires_at < now`.
abbrev pub is_fresh : ℕ → LockInfo → Bool
is_fresh now l = not (ltb l.expires_at now)

unfoldable pub expire_locks : ℕ → AgentRecord → AgentRecord
expire_locks now a = record a { locks = Dict.keep (is_fresh now) a.locks }

-- The loop that looks for another holder: `a.agent_id != agent_id and lock_name in a.locks`.
unfoldable pub held_by_other : String → String → Dict AgentRecord → Bool
unfolding Dict.has_key
held_by_other agent_id lock_name [] = false
held_by_other agent_id lock_name ((i, a) ∷ d) =
    (not (a.agent_id == agent_id) && Dict.has_key lock_name a.locks)
    || held_by_other agent_id lock_name d

abbrev pub grant_lock : ℕ → ℕ → String → AgentRecord → AgentRecord
grant_lock now ttl lock_name a = record a {
  locks = Dict.put lock_name (record { acquired_at = now; expires_at = now + ttl }) a.locks;
}

-- The registry after the stale locks of all agents are gone.
unfoldable pub purge : ℕ → Registry → Registry
unfolding expire_locks
purge now r = record r { agents = Dict.map_values (expire_locks now) r.agents }

-- What follows the purge.
unfoldable pub take_lock : Registry → String → String → ℕ → ℕ → Bool × Registry
unfolding save held_by_other
take_lock r agent_id lock_name now ttl =
    let granted : Bool × Registry = elim (Dict.get agent_id r.agents) [
      | none ↦ (false, r)
      | some a ↦ (
        true,
        save (record r { agents = Dict.put agent_id (grant_lock now ttl lock_name a) r.agents }),
      )
    ] in
    if held_by_other agent_id lock_name r.agents then (false, r) else granted

-- `AgentRegistry.acquire_lock`.
unfoldable pub acquire_lock : Registry → String → String → ℕ → ℕ → Bool × Registry
unfolding purge take_lock
acquire_lock r agent_id lock_name now ttl = take_lock (purge now r) agent_id lock_name now ttl

-- `AgentRegistry.release_lock`.
unfoldable pub release_lock : Registry → String → String → Bool × Registry
unfolding save Dict.has_key
release_lock r agent_id lock_name = elim (Dict.get agent_id r.agents) [
  | none ↦ (false, r)
  | some a ↦
      if Dict.has_key lock_name a.locks
      then (
        true,
        save (record r {
          agents = Dict.put agent_id (record a { locks = Dict.remove lock_name a.locks }) r.agents;
        }),
      )
      else (false, r)
]

-- The entries of `get_locks`: those that have not run out, with the time that remains.
unfoldable pub live_locks : ℕ → Dict LockInfo → Dict (LockInfo × ℕ)
live_locks now [] = []
live_locks now ((name, l) ∷ d) =
    let rest = live_locks now d in
    if ltb now l.expires_at then (name, (l, l.expires_at - now)) ∷ rest else rest

-- `AgentRegistry.get_locks`.
unfoldable pub get_locks : Registry → String → ℕ → Dict (LockInfo × ℕ)
unfolding live_locks
get_locks r agent_id now = elim (Dict.get agent_id r.agents) [
  | none ↦ []
  | some a ↦ live_locks now a.locks
]

abbrev pub policy_allows : String → Option (List String) → Bool
policy_allows cap none = true
policy_allows cap (some policy) = contains cap policy

-- The policy of the model, or that of the wildcard.
abbrev pub policy_for : String → Dict (List String) → Option (List String)
policy_for model policies = elim (Dict.get model policies) [
  | none ↦ Dict.get "*" policies
  | some policy ↦ some policy
]

-- `AgentRegistry.check_model_policy`; an agent with no policies is not restricted.
unfoldable pub check_model_policy : Registry → String → String → String → Bool
check_model_policy r agent_id model cap = elim (Dict.get agent_id r.agents) [
  | none ↦ true
  | some a ↦ policy_allows cap (policy_for model a.model_policies)
]
