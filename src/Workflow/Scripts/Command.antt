-- ===== src/Workflow/Scripts/Command.antt =====
-- command.py: what a command returns, and `run_command`. `trim` is pydantic's `strip_whitespace`,
-- `validate_update` is `validate_workflow_state_update`, a pydantic adapter that may refuse, and `same` is
-- Python's `==`. A script is a function of its copy of the state and raises (`none`), or returns a value
-- and leaves the copy changed; its `runtime` argument is applied already.
use deepagent_shell.Prelude.{
  String, Bool, not, List, [], Option, none, some, Dict, contains, any, string_eq, if◌then◌else◌,
}
use deepagent_shell.Runtime.State.{keys, write_all}
use deepagent_shell.Workflow.Scripts.{
  Checked, failed, Cause, ◌>>=◌, or_fail, channels, bounded_keys, is_unique,
}
use deepagent_shell.Workflow.Scripts.Values.{Value, detached_state}
use deepagent_shell.Workflow.Scripts.Delta.{state_delta}

pub record CommandResult (V : Type 0) : Type 0 where
  pub activate : List String
  pub update : Dict String V

-- What `model_validate` is given: an instance, which it takes as it is, a mapping with the fields or
-- without them, or a value that it refuses (no mapping, another field, a field of another type).
pub data Returned (V : Type 0) : Type 0 where
  instance_of : CommandResult V → Returned V
  fields : Option (List String) → Option (Dict String V) → Returned V
  other : Returned V

abbrev pub or_default : {A : Type 0} → A → Option A → A
or_default default none = default
or_default default (some a) = a

-- The validator `unique_branches`.
abbrev pub unique_branches :
    {V : Type 0} → Dict String V → Option (List String) → Option (CommandResult V)
unique_branches update none = none
unique_branches update (some branches) =
    if is_unique branches then some (record { activate = branches; update = update }) else none

module _ {V : Type 0} (trim : String → String) where
  -- `CommandResult(activate=…, update=…)`
  unfoldable pub command_result : List String → Dict String V → Option (CommandResult V)
  command_result activate update = unique_branches update (bounded_keys trim 64 activate)

  -- `CommandResult.model_validate(value)`
  unfoldable pub model_validate : Returned V → Option (CommandResult V)
  unfolding command_result
  model_validate (instance_of result) = some result
  model_validate (fields activate update) =
      command_result (or_default [] activate) (or_default [] update)
  model_validate other = none

module _ {A : Type 0} (trim : String → String) (same : Value A → Value A → Bool)
    (validate_update : Dict String (Value A) → Option (Dict String (Value A))) where
  -- From the returned value on: the state before, the state that the script left.
  unfoldable pub checked_result :
      List String
      → Dict String (Value A)
      → Returned (Value A) × Dict String (Value A)
      → Checked (CommandResult (Value A))
  unfolding model_validate command_result state_delta
  checked_result allowed original (value, script_state) = do
    result ← or_fail Cause.invalid_result (model_validate trim value)
    mutation ← state_delta same original script_state
    update ←
        (if any (λ key. not (contains key channels)) (keys (write_all mutation result.update))
          then failed Cause.unsupported_update
          else or_fail Cause.invalid_update (validate_update (write_all mutation result.update)))
    if any (λ branch. not (contains branch allowed)) result.activate
        then failed Cause.unknown_key
        else or_fail Cause.invalid_result (command_result trim result.activate update)

  unfoldable pub run_command :
      (Dict String (Value A) → Option (Returned (Value A) × Dict String (Value A)))
      → Dict String (Value A)
      → List String
      → Checked (CommandResult (Value A))
  unfolding checked_result
  run_command command state allowed =
      or_fail Cause.script_raised (command (detached_state state))
      >>= checked_result allowed (detached_state state)
