-- ===== src/Workflow/Nodes/Invoked.antt =====
-- compiler.py, `_make_agent_node`: the invocation that a node records, in the channel of runtime/state.py.
use deepagent_shell.Prelude.{
  String, Bool, true, false, Option, none, some, Dict, lookup, string_eq, ◌==◌, ◌≡◌, refl, sym, ◌∙◌,
  ap, subst, All,
}
use deepagent_shell.Runtime.State.{or_empty}
use deepagent_shell.Runtime.State.Invocations.{
  AgentInvocationRecord, WorkflowTaskReference, Slot, agent_invocation_slot, slot_of,
  merge_agent_invocations,
}
use deepagent_shell.Runtime.State.Newest.{merge_agent_invocations-newest}
use deepagent_shell.Workflow.Nodes.{
  NodeError, done, ExecutionInfo, NodeContext, invocation_metadata, WorkflowTaskContext,
}
use deepagent_shell.Workflow.Nodes.Returned.{
  bind-done, guard-done, done_injective, invocation_metadata-done, or_error-done, known_id,
  has_store_lem,
}
use deepagent_shell.Workflow.Nodes.Agents.{
  NodeInput, ChildInput, AgentResult, AgentUpdate, InvocationArtifact, task_reference, child_input,
  update_of, call_agent,
}

-- The slot of the task that a node works on, or that of the node.
abbrev pub invoked_slot : {P : Type 0} → String → Option (WorkflowTaskContext P) → Slot
invoked_slot node_id none = Slot.node_slot node_id
invoked_slot node_id (some task) = Slot.task_slot task.dispatcher_node_id task.task_id

recorded-slot :
    {T P : Type 0} (r : AgentInvocationRecord T) (task : Option (WorkflowTaskContext P))
    → (r.workflow_node_id == "") ≡ false
    → slot_of (task_reference task) r ≡ invoked_slot r.workflow_node_id task
recorded-slot r none h = rw h (refl)
recorded-slot r (some task) h = refl

-- What a record says of the task of its node.
abbrev pub task_recorded :
    {P : Type 0} → Option (WorkflowTaskContext P) → Option WorkflowTaskReference
task_recorded none = none
task_recorded (some task) = some (record {
  dispatcher_node_id = task.dispatcher_node_id;
  dispatcher_invocation_id = task.dispatcher_invocation_id;
  task_id = task.task_id;
  dispatch_key = task.dispatch_key;
})

task_recorded_lem :
    {P : Type 0} (task : Option (WorkflowTaskContext P)) → task_reference task ≡ task_recorded task
task_recorded_lem none = refl
task_recorded_lem (some task) = refl

module _ {T P M V : Type 0} (same : V → V → Bool) (null : V)
    (agent : NodeContext → ChildInput T P V → Option (AgentResult M V)) (convert : M → M)
    (node_id agent_id : String) (input_state : Dict String V) where
  -- The channel after an update: the record of an invocation, and that it is the only one of its slot.
  abbrev IsRecorded :
      String
      → String
      → T
      → Option (WorkflowTaskContext P)
      → Option (Dict String (AgentInvocationRecord T))
      → Dict String (AgentInvocationRecord T)
      → Type 0
  IsRecorded workflow_id id time task channel update =
      (lookup id (merge_agent_invocations channel (some update))
        ≡ some (record {
          invocation_id = id;
          workflow_id = workflow_id;
          workflow_node_id = node_id;
          agent_id = agent_id;
          invoked_at = time;
          result_ref = id;
          workflow_task = task_recorded task;
        }))
      × ((key : String) (r : AgentInvocationRecord T)
          → lookup key (merge_agent_invocations channel (some update)) ≡ some r
          → agent_invocation_slot r ≡ invoked_slot node_id task
          → r.invocation_id ≡ id)

  update_of-IsRecorded :
      (workflow_id : String) (state : NodeInput T P V) (id : String) (time : T)
      (result : AgentResult M V) (channel : Option (Dict String (AgentInvocationRecord T)))
      → (node_id == "") ≡ false
      → All (λ entry. (entry.1.invocation_id == id) ≡ false) (or_empty channel)
      → IsRecorded workflow_id id time state.workflow_task channel
          (update_of same null state result (record {
            invocation_id = id;
            workflow_id = workflow_id;
            workflow_node_id = node_id;
            agent_id = agent_id;
            invoked_at = time;
            messages = convert result.messages;
            workflow_task = state.workflow_task;
          })).agent_invocations
  unfolding update_of
  update_of-IsRecorded workflow_id state id time result channel placed apart =
      let kept : AgentInvocationRecord T = record {
        invocation_id = id;
        workflow_id = workflow_id;
        workflow_node_id = node_id;
        agent_id = agent_id;
        invoked_at = time;
        result_ref = id;
        workflow_task = task_reference state.workflow_task;
      } in
      let (stands, only) = merge_agent_invocations-newest kept channel apart in
      (
        stands
            ∙ ap (λ task. some (record kept { workflow_task = task }))
                (task_recorded_lem state.workflow_task),
        λ key r e slot.
            ap (λ x. x.invocation_id)
              (only key r e (slot ∙ sym (recorded-slot kept state.workflow_task placed))),
      )

  -- The node's id is not empty. Let `call_agent` return, whatever the runtime gives, and let no record of the
  -- channel that its update is merged into have the id of its invocation. Then the runtime gave an id that is
  -- not empty and a time, there are a workflow id and a store, and the agent's graph gave a result for the
  -- node's input. The artifact has the ids and the time of the invocation, the converted messages of the
  -- result and the node's task. In the merged channel, a record with the same ids and time, which refers to
  -- the artifact and to the task, stands under the invocation id, and no other record is kept for the slot of
  -- that task, or of the node if it was given none.
  pub call_agent-records :
      (workflow_id : String) (has_store : Bool) (state : NodeInput T P V)
      (info : Option (ExecutionInfo T)) (artifact : InvocationArtifact T P M)
      (update : AgentUpdate T V) (channel : Option (Dict String (AgentInvocationRecord T)))
      → (node_id == "") ≡ false
      → All (λ entry. (entry.1.invocation_id == artifact.invocation_id) ≡ false) (or_empty channel)
      → call_agent same null agent convert node_id agent_id input_state workflow_id has_store state
          info
        ≡ done (artifact, update)
      → (id : String) × (time : T) × (result : AgentResult M V) × (info
          ≡ some (record { task_id = id; node_first_attempt_time = some time }))
        × ((id == "") ≡ false)
        × ((workflow_id == "") ≡ false)
        × (has_store ≡ true)
        × (agent
              (record { workflow_node_id = node_id; invocation_id = id })
              (child_input input_state state)
            ≡ some result)
        × (artifact ≡ record {
          invocation_id = id;
          workflow_id = workflow_id;
          workflow_node_id = node_id;
          agent_id = agent_id;
          invoked_at = time;
          messages = convert result.messages;
          workflow_task = state.workflow_task;
        })
        × (lookup id (merge_agent_invocations channel (some update.agent_invocations))
            ≡ some (record {
              invocation_id = id;
              workflow_id = workflow_id;
              workflow_node_id = node_id;
              agent_id = agent_id;
              invoked_at = time;
              result_ref = id;
              workflow_task = task_recorded state.workflow_task;
            }))
        × ((key : String) (r : AgentInvocationRecord T)
            → lookup key (merge_agent_invocations channel (some update.agent_invocations)) ≡ some r
            → agent_invocation_slot r ≡ invoked_slot node_id state.workflow_task
            → r.invocation_id ≡ id)
  unfolding call_agent update_of
  call_agent-records workflow_id has_store state info artifact update channel placed apart
        returned =
      let (metadata, identified, h1) =
        bind-done (invocation_metadata info) _ (artifact, update) returned in
      let (known, h2) = guard-done _ _ (artifact, update) h1 in
      let (stored, h3) = guard-done _ _ (artifact, update) h2 in
      let (result, ran, h4) = bind-done _ _ (artifact, update) h3 in
      let (given, named) = invocation_metadata-done info metadata.0 metadata.1 identified in
      let made = done_injective _ (artifact, update) h4 in
      let apart_here =
        subst (λ id. All (λ entry. (entry.1.invocation_id == id) ≡ false) (or_empty channel))
          (sym (ap (λ p. p.0.invocation_id) made)) apart in
      let (stands, only) =
        subst
          (λ p.
            IsRecorded workflow_id metadata.0 metadata.1 state.workflow_task channel
              p.1.agent_invocations)
          made
          (update_of-IsRecorded workflow_id state metadata.0 metadata.1 result channel placed
            apart_here) in
      (
        metadata.0,
        metadata.1,
        result,
        given,
        named,
        known_id workflow_id known,
        has_store_lem has_store stored,
        or_error-done NodeError.agent_raised _ result ran,
        sym (ap (λ p. p.0) made),
        stands,
        only,
      )
