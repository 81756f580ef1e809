-- ===== src/Workflow/Nodes.antt =====
-- server/src/agent_shell/workflow/compiler.py: the functions that the nodes of a compiled graph run. `T` is
-- the type of a time, `P` of a task's payload and `V` of the values of the channels.
pub mod Commands
pub mod Dispatchers
pub mod Agents
pub mod Targets
pub mod Sends
pub mod Merges
pub mod Returned
pub mod Invoked
use deepagent_shell.Prelude.{String, List, Option, none, some, Dict, string_eq, if◌then◌else◌, ◌==◌}

-- The codes of the `AgentRuntimeError`s that a node raises. `key_error` and `agent_raised` are exceptions
-- of another kind: a `KeyError`, and what the agent's own graph raises.
pub data NodeError : Type 0 where
  invocation_identity_unavailable identity_unavailable store_unavailable : NodeError
  command_failed task_dispatcher_failed key_error agent_raised : NodeError

pub data Outcome (A : Type 0) : Type 0 where
  done : A → Outcome A
  error : NodeError → Outcome A

infixl 5 ◌>>=◌ ◌>>◌
abbrev pub ◌>>=◌ : {A B : Type 0} → Outcome A → (A → Outcome B) → Outcome B
done a >>= f = f a
error e >>= f = error e

abbrev pub ◌>>◌ : {B : Type 0} → Outcome (Unit {0}) → Outcome B → Outcome B
m >> k = m >>= λ _. k

abbrev pub or_error : {A : Type 0} → NodeError → Option A → Outcome A
or_error e none = error e
or_error e (some a) = done a

-- `runtime.execution_info`
pub record ExecutionInfo (T : Type 0) : Type 0 where
  pub task_id : String
  pub node_first_attempt_time : Option T

-- The identity of a node invocation, which `for_workflow_node` binds.
pub record NodeContext : Type 0 where
  pub workflow_node_id : String
  pub invocation_id : String

abbrev pub timed_id : {T : Type 0} → String → Option T → Outcome (String × T)
timed_id id none = error NodeError.invocation_identity_unavailable
timed_id id (some time) =
    if id == "" then error NodeError.invocation_identity_unavailable else done (id, time)

-- `_invocation_metadata`
unfoldable pub invocation_metadata : {T : Type 0} → Option (ExecutionInfo T) → Outcome (String × T)
invocation_metadata none = error NodeError.invocation_identity_unavailable
invocation_metadata (some info) = timed_id info.task_id info.node_first_attempt_time

-- The private task of a node's input, `WorkflowTaskContext` of runtime/state.py.
pub record WorkflowTaskContext (P : Type 0) : Type 0 where
  pub dispatcher_node_id : String
  pub dispatcher_invocation_id : String
  pub task_id : String
  pub dispatch_key : String
  pub payload : P
