-- ===== src/Events.antt =====
-- agents/events.py: the event bus with its subscriptions and its log. The match of a pattern is
-- Python's `fnmatch`, a parameter, as is the message bus that delivers. A clock reading and a fresh
-- identifier are arguments.
pub mod Delivery
mod Examples
use hollow_agent_os.Base.{
  ℕ, ◌+◌, ◌-◌, String, Bool, true, false, not, ◌&&◌, ◌||◌, ◌==◌, Option, none, some, List, [], ◌∷◌,
  ◌++◌, ltb, leb, if◌then◌else◌, map, filter, take, sort_by, contains,
}
use hollow_agent_os.Dict
use hollow_agent_os.Dict.{Dict}
use hollow_agent_os.Event.{Json}

-- `AgentEvent`.
pub record AgentEvent : Type 0 where
  pub event_id : String
  pub event_type : String
  pub source_id : String
  pub payload : Json
  pub timestamp : ℕ

pub record Subscription : Type 0 where
  pub subscription_id : String
  pub agent_id : String
  pub pattern : String
  pub created_at : ℕ
  pub expires_at : Option ℕ

-- A line of the event log: an event, or a text that is no JSON document.
pub data Line : Type 0 where
  entry : AgentEvent → Line
  broken : String → Line

-- `(now + ttl_seconds) if ttl_seconds else None`.
unfoldable pub expiry : ℕ → Option ℕ → Option ℕ
expiry now none = none
expiry now (some ttl) = if ltb 0 ttl then some (now + ttl) else none

unfoldable pub is_expired : ℕ → Subscription → Bool
is_expired now sub = elim sub.expires_at [ none ↦ false | some t ↦ ltb t now ]

-- The message bus and the matching of a pattern.
pub record Host {ℓ} (B : Type ℓ) : Type ℓ where
  pub deliver_event : B → String → AgentEvent → B
  pub fnmatch : String → String → Bool

-- `EventBus`; the log may not exist yet.
pub record EventBus {ℓ} (B : Type ℓ) : Type ℓ where
  pub subscriptions : Dict Subscription
  pub bus : Option B
  pub log : Option (List Line)

-- `EventBus.set_bus`.
unfoldable set_bus {ℓ} : {B : Type ℓ} → EventBus B → B → EventBus B
set_bus e b = record e { bus = some b }

-- `EventBus._append_log`.
unfoldable pub append_log : Option (List Line) → AgentEvent → Option (List Line)
append_log none e = some (entry e ∷ [])
append_log (some ls) e = some (ls ++ entry e ∷ [])

-- One round of the loop over the subscriptions: the recipients, and the keys of the expired ones.
unfoldable pub sort_out :
    (expired matches : Bool)
    → (sid agent_id : String) → List String × List String
    → List String × List String
sort_out true matches sid agent_id (recipients, gone) = (recipients, sid ∷ gone)
sort_out false true sid agent_id (recipients, gone) = (agent_id ∷ recipients, gone)
sort_out false false sid agent_id (recipients, gone) = (recipients, gone)

unfoldable pub scan : (String → Bool) → ℕ → Dict Subscription → List String × List String
unfolding is_expired sort_out
scan matches now [] = ([], [])
scan matches now ((sid, sub) ∷ d) =
    sort_out (is_expired now sub) (matches sub.pattern) sid sub.agent_id (scan matches now d)

unfoldable pub delete_all : List String → Dict Subscription → Dict Subscription
delete_all [] d = d
delete_all (sid ∷ sids) d = delete_all sids (Dict.remove sid d)

abbrev is_recent : Option ℕ → AgentEvent → Bool
is_recent none e = true
is_recent (some t) e = ltb t e.timestamp

abbrev is_listed : List String → AgentEvent → Bool
is_listed [] e = true
is_listed (x ∷ xs) e = contains e.event_type (x ∷ xs)

-- The filters of `get_history`.
unfoldable pub wanted_events : Option ℕ → List String → List Line → List AgentEvent
wanted_events since event_types [] = []
wanted_events since event_types (broken s ∷ ls) = wanted_events since event_types ls
wanted_events since event_types (entry e ∷ ls) =
    let rest = wanted_events since event_types ls in
    if is_recent since e && is_listed event_types e then e ∷ rest else rest

abbrev newer : AgentEvent → AgentEvent → Bool
newer e f = leb f.timestamp e.timestamp

-- `ttl_remaining`, not rounded.
unfoldable pub ttl_remaining : ℕ → Subscription → Option ℕ
ttl_remaining now sub = elim sub.expires_at [
  | none ↦ none
  | some t ↦ if ltb 0 t then some (t - now) else none
]

abbrev listed_for : Option String → Subscription → Bool
listed_for none sub = true
listed_for (some agent_id) sub = (agent_id == "") || (sub.agent_id == agent_id)

module _ {ℓ} {B : Type ℓ} where
  -- `EventBus.subscribe`.
  unfoldable pub subscribe : EventBus B → String → String → String → Option ℕ → ℕ → EventBus B
  unfolding expiry
  subscribe b sub_id agent_id pattern ttl now = record b {
    subscriptions =
        Dict.put sub_id
          (record {
            subscription_id = sub_id;
            agent_id = agent_id;
            pattern = pattern;
            created_at = now;
            expires_at = expiry now ttl;
          })
          b.subscriptions;
  }

  -- `EventBus.unsubscribe`.
  unfoldable pub unsubscribe : EventBus B → String → Bool × EventBus B
  unsubscribe b sub_id =
      if Dict.has_key sub_id b.subscriptions
      then (true, record b { subscriptions = Dict.remove sub_id b.subscriptions })
      else (false, b)

  unfoldable pub deliver_all : Host B → AgentEvent → List String → B → B
  deliver_all host e [] b = b
  deliver_all host e (agent_id ∷ agents) b =
      deliver_all host e agents (host.deliver_event b agent_id e)

  -- The part of `emit` after the log, with a message bus.
  unfoldable pub route : Host B → EventBus B → B → AgentEvent → ℕ → EventBus B
  unfolding scan delete_all deliver_all
  route host b bus e now =
      let (recipients, expired) = scan (host.fnmatch e.event_type) now b.subscriptions in
      record b {
        subscriptions = delete_all expired b.subscriptions;
        bus = some (deliver_all host e recipients bus);
      }

  -- `EventBus.emit` of the event it builds, with the second reading of the clock.
  unfoldable pub emit : Host B → EventBus B → AgentEvent → ℕ → EventBus B
  unfolding append_log route
  emit host b e now =
      let b1 = record b { log = append_log b.log e } in
      elim b.bus [ none ↦ b1 | some bus ↦ route host b1 bus e now ]

  -- `EventBus.get_history`.
  unfoldable pub get_history : EventBus B → Option ℕ → List String → ℕ → List AgentEvent
  unfolding wanted_events sort_by
  get_history b since event_types limit = elim b.log [
    | none ↦ []
    | some ls ↦ take limit (sort_by newer (wanted_events since event_types ls))
  ]

  -- `EventBus.list_subscriptions`.
  unfoldable pub list_subscriptions :
      EventBus B → Option String → ℕ → List (Subscription × Option ℕ)
  unfolding is_expired ttl_remaining Dict.values
  list_subscriptions b agent_id now =
      map (λ sub. (sub, ttl_remaining now sub))
        (filter (λ sub. not (is_expired now sub) && listed_for agent_id sub)
          (Dict.values b.subscriptions))
