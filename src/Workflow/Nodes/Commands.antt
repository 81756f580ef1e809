-- ===== src/Workflow/Nodes/Commands.antt =====
-- compiler.py: `_make_command_node`. The parameters are those of `run_command`; the script's `runtime`
-- shows the identity of the node's invocation.
use deepagent_shell.Prelude.{
  String, Bool, List, [], ◌∷◌, Option, none, some, Dict, lookup, add, string_eq, option_eq,
}
use deepagent_shell.Runtime.State.{keys}
use deepagent_shell.Workflow.Scripts.Values.{Value}
use deepagent_shell.Workflow.Scripts.{Checked, ok, failed}
use deepagent_shell.Workflow.Scripts.Command.{CommandResult, Returned, run_command}
use deepagent_shell.Workflow.Nodes.{
  NodeError, Outcome, done, error, ◌>>=◌, or_error, ExecutionInfo, NodeContext, invocation_metadata,
}

-- `Command(update=…, goto=…)`
pub record NodeCommand (V G : Type 0) : Type 0 where
  pub update : Dict String V
  pub goto : List G

-- `dict.fromkeys(command_targets[branch] for branch in activate)`, after those seen: each target stands
-- where it came first. A branch that is no key raises a `KeyError`, `none`.
unfoldable pub activated_targets :
    Dict String String → List String → List String → Option (List String)
activated_targets targets [] seen = some seen
activated_targets targets (branch ∷ branches) seen = elim (lookup branch targets) [
  | none ↦ none
  | some target ↦ activated_targets targets branches (add target seen)
]

abbrev pub command_or_error : {V : Type 0} → Checked (CommandResult V) → Outcome (CommandResult V)
command_or_error (failed cause) = error NodeError.command_failed
command_or_error (ok result) = done result

module _ {A T : Type 0} (trim : String → String) (same : Value A → Value A → Bool)
    (validate_update : Dict String (Value A) → Option (Dict String (Value A)))
    (command : NodeContext
      → Dict String (Value A)
      → Option (Returned (Value A) × Dict String (Value A)))
    (node_id : String) (command_targets : Dict String String) where
  unfoldable pub call_command :
      Dict String (Value A) → Option (ExecutionInfo T) → Outcome (NodeCommand (Value A) String)
  unfolding invocation_metadata activated_targets
  call_command state info = do
    metadata ← invocation_metadata info
    result ← command_or_error (
        run_command trim same validate_update
          (command (record { workflow_node_id = node_id; invocation_id = metadata.0 })) state
          (keys command_targets))
    goto ← or_error NodeError.key_error (activated_targets command_targets result.activate [])
    done (record { update = result.update; goto = goto })
