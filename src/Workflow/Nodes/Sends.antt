-- ===== src/Workflow/Nodes/Sends.antt =====
-- compiler.py, `_make_task_dispatcher_node`: to whom the tasks are sent.
use deepagent_shell.Prelude.{
  String, Bool, true, false, List, [], ◌∷◌, Option, some, Dict, lookup, contains, All, Distinct,
  map, string_eq, ◌==◌, ◌≡◌, ◌≢◌, refl, sym, ◌∙◌, subst, ap, arith, beq_refl,
}
use deepagent_shell.Runtime.State.{keys}
use deepagent_shell.Runtime.State.Invocations.{Slot, slot_eq}
use deepagent_shell.Workflow.Scripts.Values.{Value}
use deepagent_shell.Workflow.Scripts.{ok, channels}
use deepagent_shell.Workflow.Scripts.Dispatcher.{
  TaskDispatchItem, TaskDispatcherResult, ReturnedTasks, run_task_dispatcher, task_ids,
}
use deepagent_shell.Workflow.Scripts.Tasks.{run_task_dispatcher-tasks}
use deepagent_shell.Workflow.Nodes.{done, NodeContext, invocation_metadata}
use deepagent_shell.Workflow.Nodes.Commands.{NodeCommand}
use deepagent_shell.Workflow.Nodes.Dispatchers.{
  Send, channel_entries, sends_of, workflow_task_of, call_dispatcher,
}
use deepagent_shell.Workflow.Nodes.Targets.{lookup-key}

-- The task of a send, as the dispatcher gave it.
abbrev pub item_of : {P V : Type 0} → Send P V → TaskDispatchItem P
item_of send = record {
  task_id = send.workflow_task.task_id;
  dispatch_key = send.workflow_task.dispatch_key;
  payload = send.workflow_task.payload;
}

-- The slot of the invocation that a send starts.
abbrev pub slot_of_send : {P V : Type 0} → Send P V → Slot
slot_of_send send = Slot.task_slot send.workflow_task.dispatcher_node_id send.workflow_task.task_id

-- A send goes to the target of its key, with the channels of the state.
abbrev pub Leads : {P V : Type 0} → Dict String String → Dict String V → Send P V → Type 0
Leads targets parent send =
    (lookup send.workflow_task.dispatch_key targets ≡ some send.node) × (send.parent_state ≡ parent)

sends_of_lem :
    {P V : Type 0} (targets : Dict String String) (node_id id : String) (parent : Dict String V)
    (items : List (TaskDispatchItem P))
    → All (λ item. contains item.dispatch_key (keys targets) ≡ true) items
    → (sends : List (Send P V)) × (sends_of targets node_id id parent items ≡ some sends)
      × All (Leads targets parent) sends
      × (map item_of sends ≡ items)
      × (map slot_of_send sends ≡ map (λ item. Slot.task_slot node_id item.task_id) items)
unfolding sends_of
sends_of_lem targets node_id id parent [] h = ([], refl, tt, refl, refl)
sends_of_lem targets node_id id parent (item ∷ items) h =
    let (node, found) = lookup-key item.dispatch_key targets h.0 in
    let (sends, computed, lead, same, slots) = sends_of_lem targets node_id id parent items h.1 in
    let task = workflow_task_of node_id id item in
    (
      record { node = node; parent_state = parent; workflow_task = task } ∷ sends,
      rw (found, computed) (refl),
      ((found, refl), lead),
      ap (λ rest. item ∷ rest) same,
      ap (λ rest. Slot.task_slot node_id item.task_id ∷ rest) slots,
    )

slot-absent :
    {P : Type 0} (node_id id : String) (items : List (TaskDispatchItem P))
    → contains id (task_ids items) ≡ false
    → contains (Slot.task_slot node_id id) (map (λ item. Slot.task_slot node_id item.task_id) items)
      ≡ false
slot-absent node_id id [] h = refl
slot-absent node_id id (item ∷ items) h =
    ground (arith, h, beq_refl node_id, slot-absent node_id id items)

slots-Distinct :
    {P : Type 0} (node_id : String) (items : List (TaskDispatchItem P))
    → Distinct (task_ids items)
    → Distinct (map (λ item. Slot.task_slot node_id item.task_id) items)
slots-Distinct node_id [] h = tt
slots-Distinct node_id (item ∷ items) h =
    (slot-absent node_id item.task_id items h.0, slots-Distinct node_id items h.1)

module _ {A P T : Type 0} (trim : String → String) (same : Value A → Value A → Bool)
    (validate_update : Dict String (Value A) → Option (Dict String (Value A)))
    (keeps_keys : (u v : Dict String (Value A))
      → validate_update u ≡ some v
      → (k : String) → contains k (keys v) ≡ true
      → contains k (keys u) ≡ true)
    (dispatch : NodeContext
      → Dict String (Value A)
      → Option (ReturnedTasks P (Value A) × Dict String (Value A)))
    (node_id : String) (targets : Dict String String) where
  -- The validation of an update adds no key, and the runtime gives an invocation id that is not empty and
  -- its time. If `run_task_dispatcher` returns a result for the script, then the node returns a command,
  -- with no `KeyError`: it has the update of the result and sends the tasks of the result, in order and
  -- with at least one; each goes to the target of its dispatch key with the channels of the state, and no
  -- two of the invocations that they start have the same slot.
  pub call_dispatcher-sends :
      (state : Dict String (Value A)) (id : String) (time : T)
      (r : TaskDispatcherResult P (Value A))
      → (id == "") ≡ false
      → run_task_dispatcher trim same validate_update
          (dispatch (record { workflow_node_id = node_id; invocation_id = id }))
          state
          (keys targets)
        ≡ ok r
      → (c : NodeCommand (Value A) (Send P (Value A))) × (call_dispatcher trim same validate_update
            dispatch node_id targets state
            (some (record { task_id = id; node_first_attempt_time = some time }))
          ≡ done c)
        × (c.update ≡ r.update)
        × (map item_of c.goto ≡ r.tasks)
        × (c.goto ≢ [])
        × All (Leads targets (channel_entries channels state)) c.goto
        × Distinct (map slot_of_send c.goto)
  unfolding call_dispatcher invocation_metadata
  call_dispatcher-sends state id time r named ran =
      let context : NodeContext = record { workflow_node_id = node_id; invocation_id = id } in
      let (some_task, distinct, known, _) =
        run_task_dispatcher-tasks trim same validate_update keeps_keys (dispatch context) state
          (keys targets) r ran in
      let parent = channel_entries channels state in
      let (sends, computed, lead, items, slots) =
        sends_of_lem targets node_id id parent r.tasks known in
      (
        record { update = r.update; goto = sends },
        rw (named, ran, computed) (refl),
        refl,
        items,
        λ empty. some_task (sym items ∙ ap (λ ss. map item_of ss) empty),
        lead,
        subst (λ ss. Distinct ss) (sym slots) (slots-Distinct node_id r.tasks distinct),
      )
