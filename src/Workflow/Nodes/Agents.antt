-- ===== src/Workflow/Nodes/Agents.antt =====
-- compiler.py: `_mapping_delta` and `_make_agent_node`. `M` is the type of messages.
use deepagent_shell.Prelude.{
  String, Bool, true, false, not, List, [], ◌∷◌, Option, none, some, Dict, contains, keep, map,
  string_eq, if◌then◌else◌, ◌==◌,
}
use deepagent_shell.Runtime.State.{keys, or_empty, write_all}
use deepagent_shell.Runtime.State.Invocations.{AgentInvocationRecord, WorkflowTaskReference}
use deepagent_shell.Workflow.Scripts.Delta.{changed_entries}
use deepagent_shell.Workflow.Nodes.{
  NodeError, Outcome, done, error, ◌>>=◌, ◌>>◌, or_error, ExecutionInfo, NodeContext,
  invocation_metadata, WorkflowTaskContext,
}

-- `before.keys() - after.keys()`, in the order of `before`.
unfoldable pub deleted_keys : {V : Type 0} → Dict String V → Dict String V → List String
deleted_keys before after = keep (λ key. not (contains key (keys after))) (keys before)

module _ {V : Type 0} (same : V → V → Bool) (null : V) where
  -- `_mapping_delta`. `null` is `None`.
  unfoldable pub mapping_delta : Bool → Dict String V → Dict String V → Dict String V
  unfolding deleted_keys
  mapping_delta include_deletions before after =
      if include_deletions
      then write_all (changed_entries same before after)
          (map (λ key. (key, null)) (deleted_keys before after))
      else changed_entries same before after

-- The state that a node is given.
pub record NodeInput (T P V : Type 0) : Type 0 where
  pub shared_vars : Option (Dict String V)
  pub agent_invocations : Option (Dict String (AgentInvocationRecord T))
  pub background_tasks : Option (Dict String V)
  pub files : Option (Dict String V)
  pub workflow_task : Option (WorkflowTaskContext P)

-- What the agent's graph is given: the fields over the agent's own input state. There are no messages, and
-- the snapshot is the node's input without its files.
pub record ChildInput (T P V : Type 0) : Type 0 where
  pub input_state : Dict String V
  pub shared_vars : Dict String V
  pub files : Dict String V
  pub workflow_task : Option (WorkflowTaskContext P)
  pub workflow_state_snapshot : NodeInput T P V

pub record AgentResult (M V : Type 0) : Type 0 where
  pub messages : M
  pub shared_vars : Option (Dict String V)
  pub files : Option (Dict String V)

-- The artifact that is put into the store.
pub record InvocationArtifact (T P M : Type 0) : Type 0 where
  pub invocation_id : String
  pub workflow_id : String
  pub workflow_node_id : String
  pub agent_id : String
  pub invoked_at : T
  pub messages : M
  pub workflow_task : Option (WorkflowTaskContext P)

-- The update of a node; a channel that it does not write is `none`.
pub record AgentUpdate (T V : Type 0) : Type 0 where
  pub agent_invocations : Dict String (AgentInvocationRecord T)
  pub shared_vars : Option (Dict String V)
  pub files : Option (Dict String V)

abbrev pub task_reference :
    {P : Type 0} → Option (WorkflowTaskContext P) → Option WorkflowTaskReference
task_reference none = none
task_reference (some task) = some (record {
  dispatcher_node_id = task.dispatcher_node_id;
  dispatcher_invocation_id = task.dispatcher_invocation_id;
  task_id = task.task_id;
  dispatch_key = task.dispatch_key;
})

-- `invocation_record`
abbrev pub record_of : {T P M : Type 0} → InvocationArtifact T P M → AgentInvocationRecord T
record_of artifact = record {
  invocation_id = artifact.invocation_id;
  workflow_id = artifact.workflow_id;
  workflow_node_id = artifact.workflow_node_id;
  agent_id = artifact.agent_id;
  invoked_at = artifact.invoked_at;
  result_ref = artifact.invocation_id;
  workflow_task = task_reference artifact.workflow_task;
}

-- `if delta: update[…] = delta`
abbrev pub unless_empty : {V : Type 0} → Dict String V → Option (Dict String V)
unless_empty [] = none
unless_empty (entry ∷ entries) = some (entry ∷ entries)

abbrev pub or_dict : {V : Type 0} → Dict String V → Option (Dict String V) → Dict String V
or_dict default none = default
or_dict default (some entries) = entries

abbrev pub child_input : {T P V : Type 0} → Dict String V → NodeInput T P V → ChildInput T P V
child_input input_state state = record {
  input_state = input_state;
  shared_vars = or_empty state.shared_vars;
  files = or_empty state.files;
  workflow_task = state.workflow_task;
  workflow_state_snapshot = record state { files = none };
}

module _ {T P M V : Type 0} (same : V → V → Bool) (null : V) where
  -- The update that a node returns for the result of its agent.
  unfoldable pub update_of :
      NodeInput T P V → AgentResult M V → InvocationArtifact T P M → AgentUpdate T V
  unfolding mapping_delta
  update_of state result artifact = record {
    agent_invocations = (artifact.invocation_id, record_of artifact) ∷ [];
    shared_vars =
        unless_empty (
          mapping_delta same null false (or_empty state.shared_vars) (or_empty result.shared_vars));
    files = unless_empty (
        mapping_delta same null true (or_empty state.files)
          (or_dict (or_empty state.files) result.files));
  }

  module _ (agent : NodeContext → ChildInput T P V → Option (AgentResult M V)) (convert : M → M)
      (node_id agent_id : String) (input_state : Dict String V) where
    -- `call_agent`: the artifact that it stores and the update that it returns. `convert` is
    -- `convert_to_openai_messages`; `has_store` says whether the runtime has a store.
    unfoldable pub call_agent :
        String
        → Bool
        → NodeInput T P V
        → Option (ExecutionInfo T)
        → Outcome (InvocationArtifact T P M × AgentUpdate T V)
    unfolding invocation_metadata update_of
    call_agent workflow_id has_store state info = do
      metadata ← invocation_metadata info
      (if workflow_id == "" then error NodeError.identity_unavailable else done tt)
      (if has_store then done tt else error NodeError.store_unavailable)
      result ← or_error NodeError.agent_raised (
          agent (record { workflow_node_id = node_id; invocation_id = metadata.0 })
            (child_input input_state state))
      let artifact : InvocationArtifact T P M = record {
        invocation_id = metadata.0;
        workflow_id = workflow_id;
        workflow_node_id = node_id;
        agent_id = agent_id;
        invoked_at = metadata.1;
        messages = convert result.messages;
        workflow_task = state.workflow_task;
      }
      done (artifact, update_of state result artifact)
