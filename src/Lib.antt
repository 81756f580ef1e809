-- ===== src/Lib.antt =====
-- deepagent-shell: a server that runs agents and workflows of agents. This library models the parts of the
-- server (server/src/agent_shell) that carry its own logic: the workflow graph from the canvas document
-- to the calls on LangGraph's builder and the functions of the nodes, the pool that puts output events in
-- order, the manager of background tasks, the redaction of values, the import of bundles, and the
-- feed of management events.
--
-- A workflow document goes through admission, the topology check and the compiler:
-- - Workflow/Contracts, Workflow/Catalog, Workflow/Issues: the records of workflow/contracts.py, the node
--   types of workflow/catalog.py, and the issues that the checks give. An issue keeps its code, path and
--   owner; messages are left out.
-- - Workflow/Admission: `_normalize_nodes`, `_admission_issues` and `admit_workflow_document` of
--   workflow/validation.py. The config models are pydantic's, and a parameter.
-- - Workflow/Topology: `validate_workflow_topology` of workflow/topology.py. Topology/Table has the dicts
--   by node id and the ends of an edge, Topology/Scan the loop over the edges, Topology/Reach the search
--   from the Start nodes and Topology/Validate the checks on the nodes and the whole. The search runs on
--   fuel, the number of Start nodes and of nodes: an id is put on the stack as a Start node or when it
--   enters the set, so the stack is empty before the fuel is spent.
-- - Workflow/Executable: `validate_workflow_executable` of workflow/validation.py; the validation of a main
--   agent is a parameter.
-- - Workflow/Compiler: `compile_workflow` of workflow/compiler.py as the list of its calls on the builder.
--   LangGraph itself is not modelled.
-- - Workflow/Scripts: command.py and task_dispatcher.py, which run an author's script on a copy of the state
--   and check what it returns. Scripts/Values has the copy, Scripts/Delta the channels that the script
--   changed, Scripts/Command and Scripts/Dispatcher `run_command` and `run_task_dispatcher`. Parameters are
--   the script, which may raise, pydantic's trimming of texts and its adapter of the state, and `==` of
--   Python on the values of the channels.
-- - Workflow/Nodes: the functions that the nodes run, of workflow/compiler.py. Nodes/Commands and
--   Nodes/Dispatchers turn a script's result into the targets of the graph, Nodes/Agents an agent's result
--   into an update of the channels. The agent's graph, the conversion of messages and the reducer of files
--   are parameters; a store that raises is left out.
--
-- A run's events go through the pool, and its background work through the task manager:
-- - Runtime/EventPool: `OutputEventRectifier` of runtime/output_event_pool.py. EventPool/Keys has the event
--   and its keys, EventPool/Drain the choice of the next item and its partner. A pending event that a stream
--   shares with the queue is found there by a number. A drain runs on fuel, the length of the queue, of
--   which each round takes an item off. The projector, which calls an author's script, is a parameter
--   that may raise.
-- - Runtime/BackgroundTasks: `BackgroundTaskManager` of runtime/background_tasks.py. BackgroundTasks/Runs has
--   the start of a task and the steps of its coroutine, Runs/Steps the step relation: each operation holds
--   the lifecycle's lock, so any interleaving is a sequence of steps. The store is a library's; a parameter
--   says which writes it takes. Times and UUIDs are arguments. Reports to the diagnostics are left out.
--   The list and the close of the manager are not modelled.
--
-- The channels that parallel branches of a workflow write are merged by runtime/state.py:
-- - Runtime/State: the merges of shared variables and of background tasks; State/Invocations that of agent
--   invocations, and State/Newest what becomes of one new record.
--
-- What leaves the process is redacted, what comes in as a bundle is imported, and events are read back:
-- - Redaction: `RedactionPolicy` of redaction.py on the tree of what Python reads from a value, in which an
--   object that is met again inside itself is a leaf. The regular expressions, the parser of URLs and
--   `str.lower` are parameters.
-- - Configuration/Imports: the import of a bundle, of configuration/bundles/transactions.py and journal.py, as
--   moves of the disk, each of which happens as a whole or raises. Any prefix of the moves, of the handler's
--   changes and of a recovery's is a crash at that point. The staging of an asset may also stop with some of
--   its files missing, and `shutil.rmtree` with any of what it removes gone. Imports/Cleanup has the changes
--   that clean up and recover, Imports/Undone the states that can be undone, and Imports/Forward,
--   Imports/Staging, Imports/Moves and Imports/Stopped that every move leads to such a state;
--   Imports/Removals is about removals that stop, and Imports/Recovered and Imports/Atomic about what a recovery
--   makes of it all; Imports/Cleaned and Imports/Committed are about the changes after the commit. A write of the
--   configuration that fails is also taken back by the repository itself, which is not modelled.
-- - EventFeed: the list and the deletion of event_feed.py, with the reads and deletions of the system log
--   (security_events.py) and of the diagnostics (storage/runtime_diagnostics.py) that they call. What an item
--   displays is left out. Every time is taken to parse.
-- - Validation/Subagents: the check on the subagents that are attached to one agent, of
--   validation/subagent_references.py. `str.casefold` is a parameter.
--
-- Prelude has the names of the libraries that the modules share, dicts as association lists in insertion
-- order, and the list lemmas. Not modelled: the HTTP routes, the storage on SQLite and files, the
-- packages of author code, the wiring of the agent libraries, and the frontend.
pub mod Prelude
pub mod Workflow
pub mod Runtime
pub mod Redaction
pub mod Configuration
pub mod EventFeed
pub mod Validation
