-- ===== src/Workflow/NodeSamples.antt =====
-- The nodes of a compiled graph that run the sample scripts, and an agent's node.
use deepagent_shell.Prelude.{
  ℕ, String, Bool, true, false, [], ◌∷◌, Option, none, some, Dict, lookup, contains, All, Distinct,
  map, string_eq, nat_eq, option_eq, ◌==◌, ◌≡◌, ◌≢◌, refl, strip, beq_refl, insert, remove,
  lookup-insert, lookup-remove, Bool-cases, inl, inr, subst,
}
use mathlib.Core.Option.{some-injective}
use deepagent_shell.Runtime.State.{or_else, or_empty, merge_shared_vars}
use deepagent_shell.Runtime.State.Invocations.{
  AgentInvocationRecord, agent_invocation_slot, merge_agent_invocations, slot_eq,
}
use deepagent_shell.Workflow.Scripts.{channels}
use deepagent_shell.Workflow.Scripts.Values.{Value}
use deepagent_shell.Workflow.Scripts.Delta.{Agree}
use deepagent_shell.Workflow.ScriptSamples.{
  atoms_equal, accepts_all, accepts_all-keeps, before, approve, approved, branches_trimmed,
  run_approve, split_work, dispatched, run_split_work,
}
use deepagent_shell.Workflow.Nodes.{done, ExecutionInfo, invocation_metadata, WorkflowTaskContext}
use deepagent_shell.Workflow.Nodes.Commands.{NodeCommand, call_command}
use deepagent_shell.Workflow.Nodes.Dispatchers.{Send, call_dispatcher, channel_entries}
use deepagent_shell.Workflow.Nodes.Agents.{
  NodeInput, AgentResult, InvocationArtifact, call_agent, update_of,
}
use deepagent_shell.Workflow.Nodes.Targets.{call_command-goto, leads_to}
use deepagent_shell.Workflow.Nodes.Sends.{call_dispatcher-sends, item_of, slot_of_send, Leads}
use deepagent_shell.Workflow.Nodes.Merges.{
  update_of-shared_vars, update_of-files, merged_files, overlay,
}
use deepagent_shell.Workflow.Nodes.Invoked.{call_agent-records, invoked_slot, task_recorded}

abbrev command_targets : Dict String String
command_targets = ("ok", "writer") ∷ ("no", "end") ∷ []

abbrev invocation : ExecutionInfo ℕ
invocation = record { task_id = "i"; node_first_attempt_time = some 3 }

call_command-goto_example :
    (c : NodeCommand (Value ℕ) String) × (call_command strip atoms_equal accepts_all
        (λ _. approve)
        "n"
        command_targets
        before
        (some invocation)
      ≡ done c)
    × (c.update ≡ approved.update)
    × Distinct c.goto
    × ((t : String) → contains t c.goto ≡ leads_to command_targets approved.activate t)
call_command-goto_example =
    call_command-goto strip atoms_equal accepts_all accepts_all-keeps (λ _. approve) "n"
      command_targets branches_trimmed before "i" 3 approved refl run_approve

abbrev dispatch_targets : Dict String String
dispatch_targets = ("left", "a") ∷ ("right", "b") ∷ []

call_dispatcher-sends_example :
    (c : NodeCommand (Value ℕ) (Send ℕ (Value ℕ))) × (call_dispatcher strip atoms_equal accepts_all
        (λ _. split_work)
        "d"
        dispatch_targets
        before
        (some invocation)
      ≡ done c)
    × (c.update ≡ dispatched.update)
    × (map item_of c.goto ≡ dispatched.tasks)
    × (c.goto ≢ [])
    × All (Leads dispatch_targets (channel_entries channels before)) c.goto
    × Distinct (map slot_of_send c.goto)
call_dispatcher-sends_example =
    call_dispatcher-sends strip atoms_equal accepts_all accepts_all-keeps (λ _. split_work) "d"
      dispatch_targets before "i" 3 dispatched refl run_split_work

-- `none` is Python's `None`.
abbrev File : Type 0
File = Option ℕ

abbrev is_none : File → Bool
is_none none = true
is_none (some _) = false

abbrev files_equal : File → File → Bool
files_equal a b = a == b

-- A reducer that deletes the paths of `None`.
abbrev overwrite : Dict String File → Dict String File → Dict String File
overwrite current [] = current
overwrite current ((path, none) ∷ update) = remove path (overwrite current update)
overwrite current ((path, some file) ∷ update) = insert path (some file) (overwrite current update)

overwrite-overlay :
    (k : String) (current update : Dict String File)
    → lookup k (overwrite current update) ≡ overlay is_none (lookup k current) (lookup k update)
unfolding lookup
overwrite-overlay k current [] = refl
overwrite-overlay k current ((path, none) ∷ update) = elim (Bool-cases (path == k)) [
  | inl e ↦ rw (lookup-remove path k (overwrite current update), e) (refl)
  | inr e ↦
      rw (lookup-remove path k (overwrite current update), e) (overwrite-overlay k current update)
]
overwrite-overlay k current ((path, some file) ∷ update) = elim (Bool-cases (path == k)) [
  | inl e ↦ rw (lookup-insert path k (some file) (overwrite current update), e) (refl)
  | inr e ↦
      rw (lookup-insert path k (some file) (overwrite current update), e)
        (overwrite-overlay k current update)
]

abbrev task : WorkflowTaskContext ℕ
task = record {
  dispatcher_node_id = "d";
  dispatcher_invocation_id = "i";
  task_id = "t1";
  dispatch_key = "left";
  payload = 10;
}

abbrev given : NodeInput ℕ ℕ File
given = record {
  shared_vars = some (("x", some 1) ∷ ("y", some 2) ∷ []);
  agent_invocations = none;
  background_tasks = none;
  files = some (("/kept", some 1) ∷ ("/gone", some 2) ∷ []);
  workflow_task = some task;
}

abbrev left_files : Dict String File
left_files = ("/kept", some 4) ∷ ("/new", some 5) ∷ []

abbrev result : AgentResult ℕ File
result = record { messages = 0; shared_vars = some (("x", some 9) ∷ []); files = some left_files }

abbrev artifact : InvocationArtifact ℕ ℕ ℕ
artifact = record {
  invocation_id = "i";
  workflow_id = "w";
  workflow_node_id = "n";
  agent_id = "a";
  invoked_at = 3;
  messages = 0;
  workflow_task = some task;
}

update_of-shared_vars_example :
    Agree files_equal
      (lookup "x" (
        merge_shared_vars
          (some (or_empty given.shared_vars))
          (update_of files_equal none given result artifact).shared_vars))
      (or_else (lookup "x" (or_empty result.shared_vars)) (lookup "x" (or_empty given.shared_vars)))
update_of-shared_vars_example =
    update_of-shared_vars files_equal none beq_refl given result artifact (refl, tt) "x"

-- A file that is found is one of them.
found_file :
    (files : Dict String File)
    → All (λ entry. is_none entry.1 ≡ false) files
    → (path : String) (file : File) → lookup path files ≡ some file
    → is_none file ≡ false
unfolding lookup
found_file [] h path file e = cc
found_file ((here, old) ∷ files) h path file e = elim (Bool-cases (here == path)) [
  | inl t ↦ subst (λ f. is_none f ≡ false) (some-injective old file (rw t at e)) h.0
  | inr t ↦ found_file files h.1 path file (rw t at e)
]

update_of-files_example :
    Agree files_equal
      (lookup "/gone" (
        merged_files overwrite
          (or_empty given.files)
          (update_of files_equal none given result artifact).files))
      (lookup "/gone" left_files)
update_of-files_example =
    update_of-files files_equal none is_none overwrite overwrite-overlay beq_refl given result
      artifact left_files refl refl (refl, (refl, tt)) (refl, (refl, tt))
      (found_file left_files (refl, (refl, tt))) "/gone"

-- The record of an earlier invocation for the same task.
abbrev earlier : AgentInvocationRecord ℕ
earlier = record {
  invocation_id = "h";
  workflow_id = "w";
  workflow_node_id = "n";
  agent_id = "a";
  invoked_at = 1;
  result_ref = "h";
  workflow_task = task_recorded (some task);
}

abbrev channel : Option (Dict String (AgentInvocationRecord ℕ))
channel = some (("h", earlier) ∷ [])

returns :
    call_agent files_equal none
      (λ _ _. some result)
      (λ messages. messages)
      "n"
      "a"
      []
      "w"
      true
      given
      (some invocation)
    ≡ done (artifact, update_of files_equal none given result artifact)
unfolding call_agent invocation_metadata
returns = refl

call_agent-records_example :
    (id : String) × (time : ℕ) × (answer : AgentResult ℕ File) × (some invocation
      ≡ some (record { task_id = id; node_first_attempt_time = some time }))
    × ((id == "") ≡ false)
    × ((let workflow_id : String = "w" in workflow_id == "") ≡ false)
    × (true ≡ true)
    × (some result ≡ some answer)
    × (artifact ≡ record {
      invocation_id = id;
      workflow_id = "w";
      workflow_node_id = "n";
      agent_id = "a";
      invoked_at = time;
      messages = answer.messages;
      workflow_task = some task;
    })
    × (lookup id (
          merge_agent_invocations channel
            (some (update_of files_equal none given result artifact).agent_invocations))
        ≡ some (record {
          invocation_id = id;
          workflow_id = "w";
          workflow_node_id = "n";
          agent_id = "a";
          invoked_at = time;
          result_ref = id;
          workflow_task = task_recorded (some task);
        }))
    × ((key : String) (r : AgentInvocationRecord ℕ)
        → lookup key (
            merge_agent_invocations channel
              (some (update_of files_equal none given result artifact).agent_invocations))
          ≡ some r
        → agent_invocation_slot r ≡ invoked_slot "n" (some task)
        → r.invocation_id ≡ id)
call_agent-records_example =
    call_agent-records files_equal none (λ _ _. some result) (λ messages. messages) "n" "a" [] "w"
      true given (some invocation) artifact (update_of files_equal none given result artifact)
      channel refl (refl, tt) returns
