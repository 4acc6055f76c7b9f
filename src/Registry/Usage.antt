-- ===== src/Registry/Usage.antt =====
-- agents/registry.py, `update_usage`: counters, and the budget thresholds, each reported once.
use Prim.Native.String.{◌++◌ as join}
use hollow_agent_os.Base.{
  ℕ, ◌+◌, ◌*◌, String, Bool, not, ◌&&◌, none, some, List, [], ◌∷◌, leb, if◌then◌else◌, contains,
  add, get_or,
}
use hollow_agent_os.Dict
use hollow_agent_os.Dict.{Dict}
use hollow_agent_os.Event.{Event, Json, text, number, percent, object_of, emit_all}
use hollow_agent_os.Registry.Record.{AgentRecord, Registry, save}

-- `usage[key] = usage.get(key, 0) + n`.
unfoldable pub bump : String → ℕ → Dict ℕ → Dict ℕ
bump key n usage = Dict.put key (get_or (Dict.get key usage) 0 + n) usage

-- f"{agent_id}:{key}".
abbrev pub warn_key : String → String → String
warn_key agent_id key = join agent_id (join ":" key)

-- The two sets of thresholds that were reported, and the events to emit.
pub record Alerts : Type 0 where
  pub warned : List String
  pub exhausted : List String
  pub events : List Event

abbrev usage_fields : String → String → ℕ → ℕ → List (String × Json) → List (String × Json)
usage_fields agent_id key current limit rest =
    ("agent_id", text agent_id)
    ∷ ("resource", text key)
    ∷ ("usage", number current)
    ∷ ("budget", number limit)
    ∷ rest

abbrev pub exhausted_event : String → String → ℕ → ℕ → Event
exhausted_event agent_id key current limit = record {
  event_type = "budget.exhausted";
  source_id = agent_id;
  payload = object_of (usage_fields agent_id key current limit []);
}

abbrev pub warning_event : String → String → ℕ → ℕ → Event
warning_event agent_id key current limit = record {
  event_type = "budget.warning";
  source_id = agent_id;
  payload =
      object_of
        (usage_fields agent_id key current limit (("pct_used", percent current limit) ∷ []));
}

-- `pct >= 1.0` and `pct >= 0.8` for `pct = current / limit`.
abbrev pub is_full : ℕ → ℕ → Bool
is_full current limit = leb limit current

abbrev pub is_high : ℕ → ℕ → Bool
is_high current limit = leb (4 * limit) (5 * current)

-- One round of the loop over `budget.items()`, for a limit above 0. The events are consed, and
-- `update_usage` emits them from the first.
unfoldable pub check_threshold : String → String → ℕ → ℕ → Alerts → Alerts
check_threshold agent_id key current limit s =
    let wkey = warn_key agent_id key in
    if is_full current limit && not (contains wkey s.exhausted)
    then record s {
      exhausted = add wkey s.exhausted;
      events = exhausted_event agent_id key current limit ∷ s.events;
    }
    else if is_high current limit && not (contains wkey s.warned)
    then record s {
      warned = add wkey s.warned;
      events = warning_event agent_id key current limit ∷ s.events;
    }
    else s

unfoldable pub check_thresholds : String → Dict ℕ → Dict ℕ → Alerts → Alerts
unfolding check_threshold
check_thresholds agent_id usage [] s = s
check_thresholds agent_id usage ((key, limit) ∷ budget) s = check_thresholds agent_id usage budget (
    if leb limit 0 then s else check_threshold agent_id key (get_or (Dict.get key usage) 0) limit s)

abbrev pub reversed_onto : List Event → List Event → List Event
reversed_onto [] acc = acc
reversed_onto (e ∷ es) acc = reversed_onto es (e ∷ acc)

-- The three counters.
unfoldable pub add_usage : ℕ → ℕ → ℕ → Dict ℕ → Dict ℕ
unfolding bump
add_usage shell_calls tokens_in tokens_out usage =
    bump "tokens_out" tokens_out (bump "tokens_in" tokens_in (bump "shell_calls" shell_calls usage))

-- The part of `update_usage` for an agent that is known.
unfoldable pub charge : Registry → String → AgentRecord → Alerts → Registry
unfolding save
charge r agent_id a s =
    record (save (record r {
      agents = Dict.put agent_id a r.agents;
      budget_warned = s.warned;
      budget_exhausted = s.exhausted;
    })) { event_bus = emit_all (reversed_onto s.events []) r.event_bus }

-- The thresholds that the new counters cross.
abbrev pub alerts_for : Registry → String → AgentRecord → Alerts
alerts_for r agent_id a =
    check_thresholds agent_id a.usage a.budget
      (record { warned = r.budget_warned; exhausted = r.budget_exhausted; events = [] })

-- `AgentRegistry.update_usage`.
unfoldable pub update_usage : Registry → String → ℕ → ℕ → ℕ → Registry
unfolding check_thresholds add_usage charge
update_usage r agent_id shell_calls tokens_in tokens_out = elim (Dict.get agent_id r.agents) [
  | none ↦ r
  | some a ↦
      let a' = record a { usage = add_usage shell_calls tokens_in tokens_out a.usage } in
      charge r agent_id a' (alerts_for r agent_id a')
]
