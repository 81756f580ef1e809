-- ===== src/Workflow/Scripts/Dispatcher.antt =====
-- task_dispatcher.py: the items that a task dispatcher returns, and `run_task_dispatcher`. The parameters
-- are those of the command, and `P` is the type of a payload, JSON that is carried along.
use deepagent_shell.Prelude.{
  String, Bool, not, List, [], ◌∷◌, Option, none, some, Dict, contains, any, map, string_eq,
  if◌then◌else◌,
}
use deepagent_shell.Runtime.State.{keys, write_all}
use deepagent_shell.Workflow.Scripts.{
  Checked, failed, Cause, ◌>>=◌, or_fail, channels, bounded_key, is_unique,
}
use deepagent_shell.Workflow.Scripts.Values.{Value, detached_state}
use deepagent_shell.Workflow.Scripts.Delta.{state_delta}

pub record TaskDispatchItem (P : Type 0) : Type 0 where
  pub task_id : String
  pub dispatch_key : String
  pub payload : P

pub record TaskDispatcherResult (P V : Type 0) : Type 0 where
  pub tasks : List (TaskDispatchItem P)
  pub update : Dict String V

-- An item of a returned mapping: an instance, a mapping with its two texts and its payload (`{}` where it
-- is missing), or what pydantic refuses.
pub data ReturnedItem (P : Type 0) : Type 0 where
  item_instance : TaskDispatchItem P → ReturnedItem P
  item_fields : String → String → P → ReturnedItem P
  item_other : ReturnedItem P

pub data ReturnedTasks (P V : Type 0) : Type 0 where
  instance_of : TaskDispatcherResult P V → ReturnedTasks P V
  -- The field `tasks` has no default.
  fields : List (ReturnedItem P) → Option (Dict String V) → ReturnedTasks P V
  other : ReturnedTasks P V

abbrev pub cons_item :
    {P : Type 0}
    → Option (TaskDispatchItem P)
    → Option (List (TaskDispatchItem P))
    → Option (List (TaskDispatchItem P))
cons_item none rest = none
cons_item (some item) none = none
cons_item (some item) (some rest) = some (item ∷ rest)

abbrev pub task_ids : {P : Type 0} → List (TaskDispatchItem P) → List String
task_ids tasks = map (λ item. item.task_id) tasks

-- `min_length=1` and the validator `unique_task_ids`.
abbrev pub unique_task_ids :
    {P V : Type 0}
    → Dict String V
    → Option (List (TaskDispatchItem P))
    → Option (TaskDispatcherResult P V)
unique_task_ids update none = none
unique_task_ids update (some []) = none
unique_task_ids update (some (item ∷ items)) =
    if is_unique (task_ids (item ∷ items))
    then some (record { tasks = item ∷ items; update = update })
    else none

abbrev pub or_empty_update : {V : Type 0} → Option (Dict String V) → Dict String V
or_empty_update none = []
or_empty_update (some update) = update

module _ {P : Type 0} (trim : String → String) where
  abbrev pub with_key : Option String → Option String → P → Option (TaskDispatchItem P)
  with_key (some id) (some key) payload =
      some (record { task_id = id; dispatch_key = key; payload = payload })
  with_key _ _ payload = none

  -- One item: an instance is taken as it is.
  unfoldable pub dispatch_item : ReturnedItem P → Option (TaskDispatchItem P)
  unfolding bounded_key
  dispatch_item (item_instance item) = some item
  dispatch_item (item_fields id key payload) =
      with_key (bounded_key trim 128 id) (bounded_key trim 64 key) payload
  dispatch_item item_other = none

  unfoldable pub dispatch_items : List (ReturnedItem P) → Option (List (TaskDispatchItem P))
  unfolding dispatch_item
  dispatch_items [] = some []
  dispatch_items (item ∷ items) = cons_item (dispatch_item item) (dispatch_items items)

module _ {P V : Type 0} (trim : String → String) where
  unfoldable pub model_validate : ReturnedTasks P V → Option (TaskDispatcherResult P V)
  unfolding dispatch_items
  model_validate (instance_of result) = some result
  model_validate (fields tasks update) =
      unique_task_ids (or_empty_update update) (dispatch_items trim tasks)
  model_validate other = none

module _ {A P : Type 0} (trim : String → String) (same : Value A → Value A → Bool)
    (validate_update : Dict String (Value A) → Option (Dict String (Value A))) where
  -- From the returned value on. The last validation is given the items of the first, as instances.
  unfoldable pub checked_tasks :
      List String
      → Dict String (Value A)
      → ReturnedTasks P (Value A) × Dict String (Value A)
      → Checked (TaskDispatcherResult P (Value A))
  unfolding model_validate state_delta
  checked_tasks allowed original (value, script_state) = do
    result ← or_fail Cause.invalid_result (model_validate trim value)
    mutation ← state_delta same original script_state
    update ←
        (if any (λ key. not (contains key channels)) (keys (write_all mutation result.update))
          then failed Cause.unsupported_update
          else or_fail Cause.invalid_update (validate_update (write_all mutation result.update)))
    if any (λ item. not (contains item.dispatch_key allowed)) result.tasks
        then failed Cause.unknown_key
        else or_fail Cause.invalid_result (unique_task_ids update (some result.tasks))

  unfoldable pub run_task_dispatcher :
      (Dict String (Value A) → Option (ReturnedTasks P (Value A) × Dict String (Value A)))
      → Dict String (Value A)
      → List String
      → Checked (TaskDispatcherResult P (Value A))
  unfolding checked_tasks
  run_task_dispatcher dispatch state allowed =
      or_fail Cause.script_raised (dispatch (detached_state state))
      >>= checked_tasks allowed (detached_state state)
