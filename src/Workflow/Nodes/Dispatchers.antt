-- ===== src/Workflow/Nodes/Dispatchers.antt =====
-- compiler.py: `_make_task_dispatcher_node`, which sends each task of the dispatcher to its worker.
use deepagent_shell.Prelude.{
  String, Bool, List, [], ◌∷◌, Option, none, some, Dict, lookup, string_eq,
}
use deepagent_shell.Runtime.State.{keys}
use deepagent_shell.Workflow.Scripts.Values.{Value}
use deepagent_shell.Workflow.Scripts.{Checked, ok, failed, channels}
use deepagent_shell.Workflow.Scripts.Dispatcher.{
  TaskDispatchItem, TaskDispatcherResult, ReturnedTasks, run_task_dispatcher,
}
use deepagent_shell.Workflow.Nodes.{
  NodeError, Outcome, done, error, ◌>>=◌, or_error, ExecutionInfo, NodeContext, invocation_metadata,
  WorkflowTaskContext,
}
use deepagent_shell.Workflow.Nodes.Commands.{NodeCommand}

-- `Send(node, {**parent_state, "workflow_task": workflow_task})`
pub record Send (P V : Type 0) : Type 0 where
  pub node : String
  pub parent_state : Dict String V
  pub workflow_task : WorkflowTaskContext P

abbrev pub with_channel : {V : Type 0} → String → Option V → Dict String V → Dict String V
with_channel key none rest = rest
with_channel key (some value) rest = (key, value) ∷ rest

-- `{key: state[key] for key in WorkflowState.__annotations__ if key in state}`
unfoldable pub channel_entries : {V : Type 0} → List String → Dict String V → Dict String V
channel_entries [] state = []
channel_entries (key ∷ names) state =
    with_channel key (lookup key state) (channel_entries names state)

abbrev pub workflow_task_of :
    {P : Type 0} → String → String → TaskDispatchItem P → WorkflowTaskContext P
workflow_task_of node_id invocation_id item = record {
  dispatcher_node_id = node_id;
  dispatcher_invocation_id = invocation_id;
  task_id = item.task_id;
  dispatch_key = item.dispatch_key;
  payload = item.payload;
}

abbrev pub cons_send :
    {P V : Type 0}
    → Dict String V
    → WorkflowTaskContext P
    → Option String
    → Option (List (Send P V))
    → Option (List (Send P V))
cons_send parent task none rest = none
cons_send parent task (some node) none = none
cons_send parent task (some node) (some rest) =
    some (record { node = node; parent_state = parent; workflow_task = task } ∷ rest)

-- The loop over the tasks. A dispatch key without a target raises a `KeyError`, `none`.
unfoldable pub sends_of :
    {P V : Type 0}
    → Dict String String
    → String
    → String
    → Dict String V
    → List (TaskDispatchItem P)
    → Option (List (Send P V))
sends_of targets node_id invocation_id parent [] = some []
sends_of targets node_id invocation_id parent (item ∷ items) =
    cons_send parent (workflow_task_of node_id invocation_id item)
      (lookup item.dispatch_key targets) (sends_of targets node_id invocation_id parent items)

abbrev pub tasks_or_error :
    {P V : Type 0} → Checked (TaskDispatcherResult P V) → Outcome (TaskDispatcherResult P V)
tasks_or_error (failed cause) = error NodeError.task_dispatcher_failed
tasks_or_error (ok result) = done result

module _ {A P T : Type 0} (trim : String → String) (same : Value A → Value A → Bool)
    (validate_update : Dict String (Value A) → Option (Dict String (Value A)))
    (dispatch : NodeContext
      → Dict String (Value A)
      → Option (ReturnedTasks P (Value A) × Dict String (Value A)))
    (node_id : String) (dispatch_targets : Dict String String) where
  unfoldable pub call_dispatcher :
      Dict String (Value A)
      → Option (ExecutionInfo T)
      → Outcome (NodeCommand (Value A) (Send P (Value A)))
  unfolding invocation_metadata sends_of channel_entries
  call_dispatcher state info = do
    metadata ← invocation_metadata info
    result ← tasks_or_error (
        run_task_dispatcher trim same validate_update
          (dispatch (record { workflow_node_id = node_id; invocation_id = metadata.0 })) state
          (keys dispatch_targets))
    sends ←
        or_error NodeError.key_error (
          sends_of dispatch_targets node_id metadata.0 (channel_entries channels state)
            result.tasks)
    done (record { update = result.update; goto = sends })
