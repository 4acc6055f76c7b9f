-- ===== src/Bus/Examples.antt =====
-- The theorems on the bus after a broadcast to two receivers.
use hollow_agent_os.Base.{◌≡◌, ◌≢◌, refl, true, false, none, [], ◌∷◌, All}
use hollow_agent_os.Dict
use hollow_agent_os.Dict.{Holds-put}
use hollow_agent_os.Event.{null}
use hollow_agent_os.Bus.{Bus, Message, receive, send}
use hollow_agent_os.Bus.Inbox.{IsNamed, receive_once}

abbrev notice : Message
notice = record {
  msg_id = "m1";
  from_id = "root";
  to_id = "broadcast";
  msg_type = "alert";
  content = null;
  timestamp = 10;
  read = false;
  reply_to = none;
  ttl = none;
}

abbrev bus : Bus
bus = record {
  queues = ("scout", "m1" ∷ []) ∷ ("builder", "m1" ∷ []) ∷ [];
  all = ("m1", "m1") ∷ [];
  objects = ("m1", notice) ∷ [];
  events = none;
}

bus-IsNamed : IsNamed bus.objects
unfolding Dict.get Dict.put
bus-IsNamed = Holds-put {P = λ i m. m.msg_id ≡ i} "m1" notice [] refl (λ i m e. cc)

receive_once_example :
    let (first, b1) = receive bus "scout" true 20 30 in
    let (second, b2) = receive b1 "builder" true 20 40 in
    All (λ m. All (λ n. m.msg_id ≢ n.msg_id) second) first
    × IsNamed b2.objects
    × ((m : Message) → IsNamed (send b2 m).objects)
receive_once_example = receive_once bus "scout" "builder" 20 20 30 40 bus-IsNamed
