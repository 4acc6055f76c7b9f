-- ===== src/Signals.antt =====
-- agents/signals.py: the dispatch of a signal to an agent, and the group termination of
-- agents/registry.py that uses it. A watchdog thread is an entry that fires at its time; a clock
-- reading and a fresh identifier are arguments, as is the checkpoint that the checkpoint manager saves.
pub mod Watch
pub mod Group
mod Examples
use hollow_agent_os.Base.{
  ℕ, ◌+◌, ◌-◌, String, ◌==◌, Bool, true, false, not, ◌||◌, Option, none, some, List, [], ◌∷◌, ◌++◌,
  if◌then◌else◌, contains,
}
use hollow_agent_os.Dict
use hollow_agent_os.Dict.{Dict}
use hollow_agent_os.Event.{
  Event, Json, text, number, object, object_of, counts, optional_text, emit,
}
use hollow_agent_os.Bus.{Bus, send, new_message}
use hollow_agent_os.Registry.Record.{
  AgentRecord, Registry, Status, LockInfo, registered, active, suspended, terminated, is_active,
  is_terminated, save,
}
use hollow_agent_os.Registry.Lifecycle.{set_agent, force_terminate, group_members}
use hollow_agent_os.Registry.Locks.{get_locks}

-- `SIGNALS`.
abbrev signals : List String
signals = "SIGTERM" ∷ "SIGPAUSE" ∷ "SIGINFO" ∷ []

-- A thread that sleeps until `fires_at`.
pub record Watchdog : Type 0 where
  pub agent_id : String
  pub sent_by : String
  pub fires_at : ℕ

-- What a signal acts on.
pub record System : Type 0 where
  pub registry : Registry
  pub bus : Bus
  pub events : Option (List Event)
  pub watchdogs : List Watchdog

pub data Reply : Type 0 where
  unknown_signal agent_not_found already_terminated dispatched : Reply

unfoldable pub received_event : String → String → String → Event
received_event agent_id signal sent_by = record {
  event_type = "agent.signal_received";
  source_id = sent_by;
  payload =
      object_of
        (("agent_id", text agent_id) ∷ ("signal", text signal) ∷ ("sent_by", text sent_by) ∷ []);
}

-- `bus.send(…)` of a signal message.
unfoldable pub post : System → String → String → String → Json → String → ℕ → System
unfolding send new_message
post s msg_id from_id to_id content msg_type now = record s {
  bus = send s.bus (new_message msg_id from_id to_id content msg_type none none now);
}

-- The change of the agent's metadata under the lock of the registry.
unfoldable pub mark : AgentRecord → List (String × Json) → AgentRecord
mark a [] = a
mark a ((k, v) ∷ d) = mark (record a { metadata = Dict.put k v a.metadata }) d

unfoldable pub update_agent : System → String → AgentRecord → System
unfolding save
update_agent s agent_id a = record s { registry = save (set_agent agent_id a s.registry) }

unfoldable pub term_content : ℕ → ℕ → Json
term_content grace terminating_after = object_of (
    ("signal", text "SIGTERM")
    ∷ ("description", text "graceful shutdown — write handoff and exit")
    ∷ ("grace_seconds", number grace)
    ∷ ("terminating_after", number terminating_after)
    ∷ [])

-- SIGTERM: the agent is told, and a watchdog is started.
unfoldable pub sigterm : System → String → AgentRecord → String → ℕ → String → ℕ → System
unfolding post mark update_agent term_content
sigterm s agent_id a sent_by grace msg_id now =
    let marked =
      mark a
        (("terminating_after", number (now + grace)) ∷ ("sigterm_sent_by", text sent_by) ∷ []) in
    let s1 =
      post (update_agent s agent_id marked) msg_id sent_by agent_id
        (term_content grace (now + grace)) "signal" now in
    record s1 {
      watchdogs =
          s1.watchdogs
          ++ record { agent_id = agent_id; sent_by = sent_by; fires_at = now + grace } ∷ [];
    }

unfoldable pub pause_content : Option String → Json
pause_content checkpoint_id = object_of (
    ("signal", text "SIGPAUSE")
    ∷ ("description", text "checkpoint current work, enter suspended state")
    ∷ ("checkpoint_id", optional_text checkpoint_id)
    ∷ [])

unfoldable pub paused_event : String → String → Option String → Event
paused_event agent_id sent_by checkpoint_id = record {
  event_type = "agent.suspended";
  source_id = agent_id;
  payload = object_of (
      ("agent_id", text agent_id)
      ∷ ("reason", text "SIGPAUSE")
      ∷ ("sent_by", text sent_by)
      ∷ ("checkpoint_id", optional_text checkpoint_id)
      ∷ []);
}

abbrev checkpoint_field : Option String → List (String × Json)
checkpoint_field none = []
checkpoint_field (some i) = if i == "" then [] else ("paused_checkpoint_id", text i) ∷ []

-- The agent that SIGPAUSE leaves.
unfoldable pub paused : AgentRecord → String → Option String → ℕ → AgentRecord
unfolding mark
paused a sent_by checkpoint_id now =
    mark (record a { status = suspended })
      (("paused_at", number now) ∷ ("paused_by", text sent_by) ∷ checkpoint_field checkpoint_id)

-- SIGPAUSE: an active agent is suspended; the message is sent in any case.
unfoldable pub sigpause :
    System → String → AgentRecord → String → Option String → String → ℕ → System
unfolding post paused update_agent pause_content paused_event
sigpause s agent_id a sent_by checkpoint_id msg_id now =
    let s1 =
      if is_active a.status
      then update_agent s agent_id (paused a sent_by checkpoint_id now)
      else s in
    let s2 = post s1 msg_id sent_by agent_id (pause_content checkpoint_id) "signal" now in
    record s2 {
      events =
          if is_active a.status
          then emit (paused_event agent_id sent_by checkpoint_id) s2.events
          else s2.events;
    }

abbrev status_text : Status → String
status_text registered = "registered"
status_text active = "active"
status_text suspended = "suspended"
status_text terminated = "terminated"

abbrev lock_json : LockInfo × ℕ → Json
lock_json (l, remaining) = object_of (
    ("acquired_at", number l.acquired_at)
    ∷ ("expires_at", number l.expires_at)
    ∷ ("ttl_remaining", number remaining)
    ∷ [])

abbrev lock_fields : Dict (LockInfo × ℕ) → List (String × Json)
lock_fields [] = []
lock_fields ((name, l) ∷ d) = (name, lock_json l) ∷ lock_fields d

unfoldable pub info_content : Registry → String → AgentRecord → ℕ → Json
unfolding get_locks
info_content r agent_id a now = object_of (
    ("signal", text "SIGINFO")
    ∷ ("agent_id", text agent_id)
    ∷ ("status", text (status_text a.status))
    ∷ ("current_task", optional_text a.current_task)
    ∷ ("usage", counts a.usage)
    ∷ ("locks", object_of (lock_fields (get_locks r agent_id now)))
    ∷ ("uptime_seconds", number (now - a.created_at))
    ∷ [])

-- The branch of the signal.
unfoldable pub act :
    System → String → AgentRecord → String → String → ℕ → Option String → String → ℕ → System
unfolding sigterm sigpause post info_content
act s agent_id a signal sent_by grace checkpoint_id msg_id now =
    if signal == "SIGTERM"
    then sigterm s agent_id a sent_by grace msg_id now
    else if signal == "SIGPAUSE"
    then sigpause s agent_id a sent_by checkpoint_id msg_id now
    else post s msg_id agent_id sent_by (info_content s.registry agent_id a now) "result" now

-- `signal_dispatch`.
unfoldable pub signal_dispatch :
    System → String → String → String → ℕ → Option String → String → ℕ → Reply × System
unfolding act received_event
signal_dispatch s agent_id signal sent_by grace checkpoint_id msg_id now =
    if not (contains signal signals)
    then (unknown_signal, s)
    else elim (Dict.get agent_id s.registry.agents) [
      | none ↦ (agent_not_found, s)
      | some a ↦ if is_terminated a.status then (already_terminated, s) else (
        dispatched,
        act (record s { events = emit (received_event agent_id signal sent_by) s.events }) agent_id
            a signal sent_by grace checkpoint_id msg_id now,
      )
    ]

-- `_watchdog`, after its sleep.
unfoldable pub fire : Registry → Watchdog → Registry
unfolding force_terminate
fire r w = elim (Dict.get w.agent_id r.agents) [
  | none ↦ r
  | some a ↦
      if is_terminated a.status
      then r
      else force_terminate r w.agent_id
          (record { reason = "grace_period_exceeded"; terminated_by = w.sent_by; at = w.fires_at })
]

unfoldable pub fire_all : Registry → List Watchdog → Registry
unfolding fire
fire_all r [] = r
fire_all r (w ∷ ws) = fire_all (fire r w) ws

-- The loop of `terminate_group` over its members; `name` gives the identifier of each message.
unfoldable pub signal_all : (String → String) → System → List String → String → ℕ → ℕ → System
unfolding signal_dispatch
signal_all name s [] sent_by grace now = s
signal_all name s (m ∷ ms) sent_by grace now =
    signal_all name (signal_dispatch s m "SIGTERM" sent_by grace none (name m) now).1 ms sent_by
      grace now

-- `AgentRegistry.terminate_group` with `signal_dispatch` as its `signal_fn`.
unfoldable pub terminate_group :
    (String → String) → System → String → String → ℕ → ℕ → List String × System
unfolding signal_all group_members
terminate_group name s group_id sent_by grace now =
    let members = group_members group_id s.registry.agents in
    (members, signal_all name s members sent_by grace now)
