-- ===== src/Bus.antt =====
-- agents/bus.py: the message bus. The message objects are shared by the queues and by `_all`, so they
-- stand in a store, `objects`, under a reference each, to which the queues and `all` refer. `send` takes
-- the fresh identifier of the message for the reference; `_deliver_event` gives the same identifier to
-- several messages, so there the fresh reference is an argument, as is a clock reading.
pub mod Inbox
mod Examples
use Prim.Native.String.{◌++◌ as join}
use hollow_agent_os.Base.{
  ℕ, ◌+◌, ◌-◌, String, Bool, true, false, not, ◌&&◌, ◌||◌, ◌==◌, Option, none, some, List, [], ◌∷◌,
  ◌++◌, ltb, leb, if◌then◌else◌, contains, filter, count_if, length, sort_by, get_or,
}
use hollow_agent_os.Dict
use hollow_agent_os.Dict.{Dict}
use hollow_agent_os.Event.{Event, Json, object_of, text, emit}

pub record Message : Type 0 where
  pub msg_id : String
  pub from_id : String
  pub to_id : String
  pub msg_type : String
  pub content : Json
  pub timestamp : ℕ
  pub read : Bool
  pub reply_to : Option String
  pub ttl : Option ℕ

pub record Bus : Type 0 where
  pub queues : Dict (List String)
  pub all : Dict String
  pub objects : Dict Message
  pub events : Option (List Event)

abbrev msg_types : List String
msg_types = "task" ∷ "result" ∷ "alert" ∷ "data" ∷ "ping" ∷ "log" ∷ "event" ∷ "signal" ∷ []

-- `ttl=time.time() + ttl_seconds if ttl_seconds else None`.
unfoldable pub expiry_of : ℕ → Option ℕ → Option ℕ
expiry_of now none = none
expiry_of now (some n) = if ltb 0 n then some (now + n) else none

-- `self._queues.setdefault(to_id, []).append(msg)`.
unfoldable pub append_to : String → String → Dict (List String) → Dict (List String)
append_to agent_id ref queues =
    Dict.put agent_id (get_or (Dict.get agent_id queues) [] ++ ref ∷ []) queues

-- The queues after a message was delivered: a broadcast goes to every queue there is.
unfoldable pub deliver : Message → Dict (List String) → Dict (List String)
unfolding append_to
deliver m queues =
    if m.to_id == "broadcast"
    then Dict.map_values (λ q. q ++ m.msg_id ∷ []) queues
    else append_to m.to_id m.msg_id queues

unfoldable pub received_event : Message → Event
received_event m = record {
  event_type = "message.received";
  source_id = m.from_id;
  payload = object_of (
      ("msg_id", text m.msg_id)
      ∷ ("to_id", text m.to_id)
      ∷ ("from_id", text m.from_id)
      ∷ ("msg_type", text m.msg_type)
      ∷ []);
}

-- The message that `send` builds.
unfoldable pub new_message :
    String → String → String → Json → String → Option String → Option ℕ → ℕ → Message
unfolding expiry_of contains
new_message msg_id from_id to_id content msg_type reply_to ttl_seconds now = record {
  msg_id = msg_id;
  from_id = from_id;
  to_id = to_id;
  msg_type = if contains msg_type msg_types then msg_type else "data";
  content = content;
  timestamp = now;
  read = false;
  reply_to = reply_to;
  ttl = expiry_of now ttl_seconds;
}

-- `MessageBus.send` of the message it builds.
unfoldable pub send : Bus → Message → Bus
unfolding deliver received_event
send b m = record {
  queues = deliver m b.queues;
  all = Dict.put m.msg_id m.msg_id b.all;
  objects = Dict.put m.msg_id m b.objects;
  events =
      if (m.msg_type == "event") || (m.msg_type == "signal")
      then b.events
      else emit (received_event m) b.events;
}

-- `MessageBus._deliver_event`.
unfoldable pub deliver_event : Bus → String → String → String → Json → ℕ → Bus
unfolding append_to
deliver_event b ref agent_id event_id event_data timestamp =
    let msg_id = join "ev-" event_id in
    record b {
      queues = append_to agent_id ref b.queues;
      all = Dict.put msg_id ref b.all;
      objects =
          Dict.put ref
            (record {
              msg_id = msg_id;
              from_id = "events";
              to_id = agent_id;
              msg_type = "event";
              content = event_data;
              timestamp = timestamp;
              read = false;
              reply_to = none;
              ttl = none;
            })
            b.objects;
    }

-- `m.ttl is None or m.ttl > now`, for the message of a reference.
unfoldable pub is_alive : ℕ → Dict Message → String → Bool
is_alive now objects ref = elim (Dict.get ref objects) [
  | none ↦ false
  | some m ↦ elim m.ttl [ none ↦ true | some t ↦ ltb now t ]
]

-- One round of the loop of `receive`, with the results of the rest where the message is skipped and
-- where it is taken. The limit is tested after the message was taken.
unfoldable pub take_step :
    Bool
    → ℕ
    → String
    → Message
    → Dict Message
    → List Message × Dict Message
    → List Message × Dict Message
    → List Message × Dict Message
take_step unread_only limit ref m objects skipped taken =
    if unread_only && m.read
    then skipped
    else if leb limit 1
    then (record m { read = true } ∷ [], Dict.put ref (record m { read = true }) objects)
    else (record m { read = true } ∷ taken.0, taken.1)

-- The loop of `receive`: the messages it gives, marked as read.
unfoldable pub take_messages : Bool → ℕ → List String → Dict Message → List Message × Dict Message
unfolding take_step
take_messages unread_only limit [] objects = ([], objects)
take_messages unread_only limit (i ∷ is) objects = elim (Dict.get i objects) [
  | none ↦ take_messages unread_only limit is objects
  | some m ↦
      take_step unread_only limit i m objects (take_messages unread_only limit is objects)
        (take_messages unread_only (limit - 1) is (Dict.put i (record m { read = true }) objects))
]

-- `MessageBus.receive`.
unfoldable pub receive : Bus → String → Bool → ℕ → ℕ → List Message × Bus
unfolding is_alive take_messages
receive b agent_id unread_only limit now =
    let q = filter (is_alive now b.objects) (get_or (Dict.get agent_id b.queues) []) in
    let (results, objects) = take_messages unread_only limit q b.objects in
    (results, record b { queues = Dict.put agent_id q b.queues; objects = objects })

-- `MessageBus.get_thread`.
abbrev earlier : Message → Message → Bool
earlier m n = leb m.timestamp n.timestamp

abbrev is_reply : String → Message → Bool
is_reply msg_id m = elim m.reply_to [ none ↦ false | some i ↦ i == msg_id ]

-- The objects of some references.
unfoldable pub resolve : Dict Message → List String → List Message
resolve objects [] = []
resolve objects (ref ∷ refs) =
    let rest = resolve objects refs in
    elim (Dict.get ref objects) [ none ↦ rest | some m ↦ m ∷ rest ]

unfoldable pub thread_of : Bus → String → List Message → List Message
unfolding resolve
thread_of b msg_id [] = []
thread_of b msg_id (root ∷ _) =
    sort_by earlier (root ∷ filter (is_reply msg_id) (resolve b.objects (Dict.values b.all)))

unfoldable pub get_thread : Bus → String → List Message
unfolding thread_of resolve
get_thread b msg_id = elim (Dict.get msg_id b.all) [
  | none ↦ []
  | some ref ↦ thread_of b msg_id (resolve b.objects (ref ∷ []))
]

-- `MessageBus.stats`: the total and the unread messages.
unfoldable pub is_unread : Dict Message → String → Bool
is_unread objects ref = elim (Dict.get ref objects) [ none ↦ false | some m ↦ not m.read ]

unfoldable pub stats : Bus → String → ℕ × ℕ
unfolding is_unread
stats b agent_id =
    let q = get_or (Dict.get agent_id b.queues) [] in (length q, count_if (is_unread b.objects) q)
