-- ===== src/Workflow/Scripts/Tasks.antt =====
-- task_dispatcher.py: what is known of the tasks that `run_task_dispatcher` returns.
use deepagent_shell.Prelude.{
  String, Bool, true, false, not, List, [], ◌∷◌, Option, some, Dict, contains, any, All, Distinct,
  string_eq, ◌≡◌, ◌≢◌, refl, ◌∙◌, subst, ap, arith, inl, inr, Bool-cases,
}
use deepagent_shell.Runtime.State.{keys, write_all}
use deepagent_shell.Workflow.Scripts.{
  ok, Cause, or_fail, channels, is_unique, >>=-ok, or_fail-ok, passed, is_unique-Distinct,
  none_unknown,
}
use deepagent_shell.Workflow.Scripts.Values.{Value, detached_state}
use deepagent_shell.Workflow.Scripts.Delta.{state_delta}
use deepagent_shell.Workflow.Scripts.Accepted.{allowed_key}
use deepagent_shell.Workflow.Scripts.Dispatcher.{
  TaskDispatcherResult, TaskDispatchItem, ReturnedTasks, checked_tasks, run_task_dispatcher,
  unique_task_ids, task_ids, model_validate,
}

unique_task_ids-ok :
    {P V : Type 0} (update : Dict String V) (tasks : List (TaskDispatchItem P))
    (r : TaskDispatcherResult P V)
    → unique_task_ids update (some tasks) ≡ some r
    → (tasks ≡ r.tasks) × (update ≡ r.update) × Distinct (task_ids r.tasks) × (r.tasks ≢ [])
unique_task_ids-ok update [] r h = cc
unique_task_ids-ok update (item ∷ items) r h =
    elim (Bool-cases (is_unique (task_ids (item ∷ items)))) [
      | inl e ↦
          let same : record { tasks = item ∷ items; update = update } ≡ r = cc (rw e at h) in
          subst
            (λ x.
              (item ∷ items ≡ x.tasks)
              × (update ≡ x.update)
              × Distinct (task_ids x.tasks)
              × (x.tasks ≢ []))
            same (refl, refl, is_unique-Distinct (task_ids (item ∷ items)) e, λ p. cc)
      | inr e ↦ cc (rw e at h)
    ]

known_tasks :
    {P : Type 0} (tasks : List (TaskDispatchItem P)) (allowed : List String)
    → any (λ item. not (contains item.dispatch_key allowed)) tasks ≡ false
    → All (λ item. contains item.dispatch_key allowed ≡ true) tasks
known_tasks [] allowed h = tt
known_tasks (item ∷ tasks) allowed h = (ground arith, known_tasks tasks allowed (ground arith))

module _ {A P : Type 0} (trim : String → String) (same : Value A → Value A → Bool)
    (validate_update : Dict String (Value A) → Option (Dict String (Value A))) where
  -- The guards that a dispatcher's result has passed.
  checked_tasks-ok :
      (allowed : List String) (before after : Dict String (Value A))
      (value : ReturnedTasks P (Value A)) (r : TaskDispatcherResult P (Value A))
      → checked_tasks trim same validate_update allowed before (value, after) ≡ ok r
      → (entries : Dict String (Value A)) × (any (λ key. not (contains key channels)) (keys entries)
          ≡ false)
        × (validate_update entries ≡ some r.update)
        × All (λ item. contains item.dispatch_key allowed ≡ true) r.tasks
        × Distinct (task_ids r.tasks)
        × (r.tasks ≢ [])
  unfolding checked_tasks
  checked_tasks-ok allowed before after value r h =
      let (result, valid, h1) =
        >>=-ok (or_fail Cause.invalid_result (model_validate trim value)) _ r h in
      let (mutation, taken, h2) = >>=-ok (state_delta same before after) _ r h1 in
      let (update, accepted, h3) = >>=-ok _ _ r h2 in
      let (supported, validated) = passed Cause.unsupported_update _ _ update accepted in
      let (known, last) = passed Cause.unknown_key _ _ r h3 in
      let (same_tasks, same_update, distinct, some_task) =
        unique_task_ids-ok update result.tasks r (or_fail-ok Cause.invalid_result _ r last) in
      (
        write_all mutation result.update,
        supported,
        or_fail-ok Cause.invalid_update _ update validated ∙ ap some same_update,
        subst (λ ts. All (λ item. contains item.dispatch_key allowed ≡ true) ts) same_tasks
            (known_tasks result.tasks allowed known),
        distinct,
        some_task,
      )

  module _
      (keeps_keys : (u v : Dict String (Value A))
        → validate_update u ≡ some v
        → (k : String) → contains k (keys v) ≡ true
        → contains k (keys u) ≡ true)
      (dispatch : Dict String (Value A)
        → Option (ReturnedTasks P (Value A) × Dict String (Value A)))
      (state : Dict String (Value A)) (allowed : List String) where
    -- The validation of an update adds no key. Then whatever the script does, a result that
    -- `run_task_dispatcher` returns has a task, tasks of distinct ids whose dispatch keys are all allowed,
    -- and an update of nothing but channels.
    pub run_task_dispatcher-tasks :
        (r : TaskDispatcherResult P (Value A))
        → run_task_dispatcher trim same validate_update dispatch state allowed ≡ ok r
        → (r.tasks ≢ [])
          × Distinct (task_ids r.tasks)
          × All (λ item. contains item.dispatch_key allowed ≡ true) r.tasks
          × ((k : String) → contains k (keys r.update) ≡ true → contains k channels ≡ true)
    unfolding run_task_dispatcher
    run_task_dispatcher-tasks r h =
        let (left, ran, rest) =
          >>=-ok (or_fail Cause.script_raised (dispatch (detached_state state))) _ r h in
        let (entries, supported, validated, known, distinct, some_task) =
          checked_tasks-ok allowed (detached_state state) left.1 left.0 r rest in
        (
          some_task,
          distinct,
          known,
          λ k c.
              allowed_key k (keys entries) channels (none_unknown (keys entries) channels supported)
                (keeps_keys entries r.update validated k c),
        )
