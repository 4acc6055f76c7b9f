-- ===== src/Events/Examples.antt =====
-- The theorem on deliveries at concrete subscriptions.
use hollow_agent_os.Base.{
  ℕ, ◌≡◌, refl, String, ◌==◌, ◌||◌, ◌++◌, get_or, Option, none, some, List, [], ◌∷◌,
}
use hollow_agent_os.Dict
use hollow_agent_os.Event.{object_of}
use hollow_agent_os.Events.{AgentEvent, Subscription, Host, EventBus, emit, entry}
use hollow_agent_os.Events.Delivery.{subscribers, is_live, fold, emit-delivers}

-- A bus that lists whom it delivered to; a pattern is the star or a plain type.
abbrev host : Host (List String)
host = record {
  deliver_event = λ inbox agent_id e. agent_id ∷ inbox;
  fnmatch = λ event_type pattern. (pattern == "*") || (pattern == event_type);
}

abbrev subscription : String → String → String → Option ℕ → Subscription
subscription i agent_id pattern expires_at = record {
  subscription_id = i;
  agent_id = agent_id;
  pattern = pattern;
  created_at = 10;
  expires_at = expires_at;
}

abbrev bus : EventBus (List String)
bus = record {
  subscriptions =
      ("s1", subscription "s1" "root" "*" none)
      ∷ ("s2", subscription "s2" "scout" "task.queued" (some 20))
      ∷ ("s3", subscription "s3" "coder" "task.queued" (some 90))
      ∷ [];
  bus = some [];
  log = none;
}

abbrev event : AgentEvent
event = record {
  event_id = "e1";
  event_type = "task.queued";
  source_id = "scheduler";
  payload = object_of [];
  timestamp = 30;
}

emit-delivers_example :
    let b' = emit host bus event 31 in
    let agents = subscribers (host.fnmatch event.event_type) 31 bus.subscriptions in
    (b'.log ≡ some (get_or bus.log [] ++ entry event ∷ []))
    × (b'.bus ≡ some (fold (λ b1 agent_id. host.deliver_event b1 agent_id event) [] agents))
    × (b'.subscriptions ≡ Dict.keep (λ sub. is_live 31 sub.expires_at) bus.subscriptions)
unfolding Dict.has_key Dict.get
emit-delivers_example = emit-delivers host bus [] event 31 refl (refl, (refl, (refl, tt)))
