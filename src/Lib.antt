-- ===== src/Lib.antt =====
-- HollowOS: the state that the agents share, and the operations on it.
--
-- The program runs autonomous agents on one machine. A registry holds the agents, their
-- capabilities, budgets and locks; a consensus manager lets groups of agents vote on proposals; a
-- transaction coordinator buffers file writes, memory writes and messages and applies them at a
-- commit; every agent has a working memory heap; a file of tasks hands work from outside to the
-- agents. All of them report to an event bus, which may not be set. A scheduler keeps the tasks
-- for the model in a priority queue and hands them to its workers; a rate limiter gives every
-- agent its token buckets and penalizes an agent that behaves oddly; signals end or pause an
-- agent; a graph records which agent spawned or delegated to which; a second quorum of agents
-- votes on changes of the system. The coordinator writes into the heaps and sends messages, and
-- the registry of heaps relieves the heap of an agent by the budget and the usage that the agent
-- registry keeps.
--
-- Registry is agents/registry.py: Registry/Record holds AgentRecord and the state of
-- AgentRegistry, Registry/Accounts register and authenticate, Registry/Boot __init__ and _load,
-- Registry/Ancestry get_lineage, Registry/Lifecycle set_task, suspend, resume, tombstones and
-- termination, Registry/Locks the locks and check_model_policy, Registry/Usage update_usage.
-- Consensus is agents/consensus.py: ConsensusManager in Consensus, its records in
-- Consensus/Record, the payloads of its events in Consensus/Payloads. Heap is memory/heap.py: the
-- objects in Heap/Record, alloc, read, free and gc in Heap, compress, swap_out and swap_in in
-- Heap/Swapping, heap_stats in Heap/Stats, auto_manage and HeapRegistry in Heap/Manage.
-- Transaction is agents/transaction.py: the records, _apply_op and _rollback_applied in
-- Transaction/Record, the coordinator in Transaction and its commit in Transaction/Committing.
-- commit is the composition of admit (under its first lock) and finish, so that other calls can
-- stand between the two. Bus is agents/bus.py: MessageBus. Its message objects stand in a store,
-- to which the queues and the index by identifier refer, as several queues share one object; its
-- proofs are in Bus/Inbox. TaskQueue is agents/task_queue.py: the lines of the file and the
-- functions on them. Scheduler is agents/scheduler.py: PriorityTaskQueue in
-- Scheduler/PriorityQueue, Task in Scheduler/Record, the events and messages in
-- Scheduler/Payloads, TaskScheduler in Scheduler, and its workers in Scheduler/Worker; a worker
-- runs a task in two steps, start_task and finish_task, with the answer of the model between them.
-- RateLimit is agents/ratelimit.py: TokenBucket in RateLimit/Tokens, RateLimiter in RateLimit.
-- Quorum is agents/agent_quorum.py: the rows of its files in Quorum/Store, AgentQuorum in Quorum.
-- Lineage is agents/lineage.py: the edges and the tree of get_subtree in Lineage/Tree,
-- LineageGraph in Lineage. Events is agents/events.py: EventBus with its subscriptions and its
-- log. Signals is agents/signals.py, with the part of terminate_group that uses it. SharedLog is
-- agents/shared_log.py. The other modules of each part hold proofs, Examples the uses of the
-- theorems at concrete states. Base, Dict and Event hold what the parts share: lists over native
-- numbers, Python's dict as an association list in insertion order, JSON documents, and the event
-- log.
--
-- How state and effects are modelled: an object is a record and a method is a function from the
-- record to the answer and the new record. A clock reading and a fresh identifier are arguments.
-- Times and counters are natural numbers; a real number of seconds is rounded to whole ones, and a
-- quotient that the code rounds is kept as the pair it divides. A file that one component alone
-- reads and writes is a field; the exception of a call is an Option or a data type of refusals.
-- Hash functions, text functions, time formats, the model endpoint and the success of a write to
-- the file system belong to the environment: they are the records Crypto, Host and Platform that
-- the operations take, or their answers are arguments. A text file gives its line ends back as
-- Python's text mode reads them; the paths of a heap are taken to be files that can be written, as
-- they are for keys without a slash. A list that heapq keeps as a heap is the list of its entries
-- in order. Token buckets count in parts of a token, so that the rates per millisecond are whole
-- numbers, and they count exactly where the code uses floating point numbers, which round; the
-- percentage of a quorum is a number of hundredths.
--
-- Bounds and fuel: the walk of get_lineage has the fuel of one round for each agent and two more,
-- and the theorem on it shows that this always gives a result. The tree of get_subtree has a depth
-- of at most the number of edges and two, and the theorem on it shows the same, as does the one on
-- critical_path, whose fuel is the number of tasks and two. All other loops recurse on their
-- lists.
--
-- Not modelled: the threads themselves (each locked section is one step, and a thread that sleeps
-- is an entry that fires), set_event_bus of the heaps and of the message bus, to_dict of the
-- registry, list_objects of the heap, lines of the task file that are JSON but not objects, the
-- file of the message bus and its reload, the streaming tasks, spawn_agent and the shell usage log
-- of the scheduler, and the remaining components: checkpoints, the audit log, the daemon and the
-- autonomy loop with their prompts, the goal engine, the distributed layers, the model and
-- resource managers, the servers and tools. Outside Events, the event bus stands in every part as
-- the log of the events it was given.
pub mod Base
pub mod Dict
pub mod Event
pub mod Registry
pub mod Consensus
pub mod Bus
pub mod Heap
pub mod Transaction
pub mod TaskQueue
pub mod RateLimit
pub mod Quorum
pub mod Lineage
pub mod Scheduler
pub mod Events
pub mod Signals
pub mod SharedLog
