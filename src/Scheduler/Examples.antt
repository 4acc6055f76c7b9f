-- ===== src/Scheduler/Examples.antt =====
-- The theorems on the scheduler at concrete queues.
use hollow_agent_os.Base.{◌≡◌, refl, false, none, some, List, [], ◌∷◌, arith, contains}
use hollow_agent_os.Dict
use hollow_agent_os.Event.{object_of}
use hollow_agent_os.Bus.{Bus}
use hollow_agent_os.Registry.Record.{Registry}
use hollow_agent_os.Registry.Locks.{check_model_policy}
use hollow_agent_os.Scheduler.Record.{Task, running}
use hollow_agent_os.Scheduler.PriorityQueue
use hollow_agent_os.Scheduler.Lanes.{lanes_of}
use hollow_agent_os.Scheduler.Order.{IsNumbered}
use hollow_agent_os.Scheduler.Served.{Op, puts, run, step, step_lanes, run-lanes}
use hollow_agent_os.Scheduler.Served
use hollow_agent_os.Scheduler.Runs
use hollow_agent_os.Scheduler.Runs.{HandsOut, run-serves}
use hollow_agent_os.Scheduler.Cancelled.{cancelled_runs}
use hollow_agent_os.Scheduler.{
  Scheduler, Request, empty_queue, load, new_task, cancel, cancelled_now, cancelled_task, get_task,
}
use hollow_agent_os.Scheduler.Worker.{take_task, start_task}

abbrev calls : List Op
calls =
    puts "t1" 1
    ∷ puts "t2" 2
    ∷ puts "t3" 0
    ∷ Served.takes
    ∷ puts "t4" 1
    ∷ Served.takes
    ∷ Served.finishes "t3"
    ∷ []

run-lanes_example :
    ((run step empty_queue calls).0, lanes_of (run step empty_queue calls).1)
    ≡ run step_lanes (lanes_of empty_queue) calls
unfolding empty_queue
run-lanes_example =
    run-lanes empty_queue calls (record { sorted = tt; numbered = tt; clamped = tt })
      (omega arith, (omega arith, (omega arith, (tt, (omega arith, (tt, (tt, tt)))))))

abbrev registry : Registry
registry = record {
  agents = [];
  token_index = [];
  master_token = "master";
  event_bus = none;
  budget_warned = [];
  budget_exhausted = [];
  saved = none;
  tombstones = [];
}

abbrev bus : Bus
bus = record { queues = []; all = []; objects = []; events = none }

abbrev request : Request
request = record {
  description = "summarize";
  submitted_by = "scout";
  complexity = 2;
  context = object_of [];
  priority = 1;
  depends_on = [];
  parent_task_id = none;
  stream = false;
}

abbrev rounds : List Runs.Call
rounds = Runs.submits "t1" 10 request ∷ Runs.submits "t2" 11 request ∷ Runs.takes ∷ []

run-serves_example :
    let q = (Runs.run (load registry bus [] 1) rounds).queue in
    IsNumbered q.seq q.heap × HandsOut q (PriorityQueue.get q)
run-serves_example = run-serves registry bus [] 1 rounds

-- One task that waits.
abbrev waiting : Scheduler
waiting = record {
  registry = registry;
  bus = bus;
  event_bus = none;
  objects = ("t1", new_task "t1" 10 request) ∷ [];
  tasks = "t1" ∷ [];
  saved = [];
  queue = record {
    heap = record { priority = 1; seq = 0; task_id = "t1" } ∷ [];
    seq = 1;
    pending = "t1" ∷ [];
    running = [];
    closed = false;
  };
}

cancelled_runs_example :
    let (reply, s1) = cancel waiting "t1" 20 in
    let (found, s2) = take_task s1 in
    (reply ≡ cancelled_now)
    × (found ≡ some (cancelled_task (new_task "t1" 10 request) 20))
    × (u : Task) × (Dict.get "t1"
          (start_task s2 (cancelled_task (new_task "t1" 10 request) 20) "qwen" "m1" 30).objects
        ≡ some u)
    × (u.status ≡ running)
unfolding new_task get_task Dict.get contains check_model_policy
cancelled_runs_example =
    cancelled_runs waiting (record { priority = 1; seq = 0; task_id = "t1" }) []
      (new_task "t1" 10 request) "qwen" "m1" 20 30 refl refl refl refl refl refl
