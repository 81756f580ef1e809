-- ===== src/Runtime/BackgroundTasks/Runs/Steps.antt =====
-- The steps of a manager: its operations and those of the tasks that it runs, in any order.
use deepagent_shell.Prelude.{
  String, ◌≡◌, Bool, true, false, List, Option, some, Dict, lookup, insert, string_eq, pair_eq,
}
use deepagent_shell.Runtime.BackgroundTasks.Records.{
  is_active, BackgroundTaskRecord, LiveTask, Manager,
}
use deepagent_shell.Runtime.BackgroundTasks.{check_locked, cancel_locked}
use deepagent_shell.Runtime.BackgroundTasks.Runs.{
  StartRequest, ExecutionEnd, stopped, as_running, begin_run, finish, start_task,
}

-- A coroutine that is cancelled before its first step never runs: the task is done, and stays in `_tasks`.
abbrev pub never_begun : String → LiveTask → Manager → Manager
never_begun task_id task m = record m {
  tasks = insert task_id (record task { done = true }) m.tasks;
}

pub data Step (writes : BackgroundTaskRecord → Bool) (lifecycles : String → Option String)
    (task_id_of : String → String → String → String) : Manager → Manager → Type 0 where
  starts :
      {m : Manager} (request : StartRequest)
      → Step writes lifecycles task_id_of m (start_task writes lifecycles task_id_of request m).1
  checks :
      {m : Manager} (now lifecycle_id : String) (task_ids : List String)
      → Step writes lifecycles task_id_of m (check_locked writes now lifecycle_id task_ids m).1
  cancels :
      {m : Manager} (now lifecycle_id : String) (task_ids : List String)
      → Step writes lifecycles task_id_of m (cancel_locked writes now lifecycle_id task_ids m).1
  begins :
      {m : Manager} (now task_id : String) (task : LiveTask)
      → lookup task_id m.tasks ≡ some task
      → task.done ≡ false
      → Step writes lifecycles task_id_of m (begin_run writes now task.current m)
  ends :
      {m : Manager} (now task_id : String) (task : LiveTask) (result : ExecutionEnd)
      → lookup task_id m.tasks ≡ some task
      → task.done ≡ false
      → Step writes lifecycles task_id_of m (finish writes now result task.current m)
  stops_early :
      {m : Manager} (now task_id : String) (task : LiveTask)
      → lookup task_id m.tasks ≡ some task
      → task.done ≡ false
      → Step writes lifecycles task_id_of m
          (finish writes now stopped (as_running writes now task.current) m)
  never_begins :
      {m : Manager} (task_id : String) (task : LiveTask)
      → lookup task_id m.tasks ≡ some task
      → task.done ≡ false
      → Step writes lifecycles task_id_of m (never_begun task_id task m)

-- Any number of steps.
pub data Steps (writes : BackgroundTaskRecord → Bool) (lifecycles : String → Option String)
    (task_id_of : String → String → String → String) : Manager → Manager → Type 0 where
  stay : {m : Manager} → Steps writes lifecycles task_id_of m m
  go :
      {m n o : Manager}
      → Step writes lifecycles task_id_of m n
      → Steps writes lifecycles task_id_of n o
      → Steps writes lifecycles task_id_of m o

-- A record stands in the store under its own ids; and the record of a task that is not done is active,
-- was written by this process, and is the one that the task's coroutine holds, up to its fields that change.
abbrev pub Keyed : Dict (String × String) BackgroundTaskRecord → Type 0
Keyed store =
    (l t : String) (r : BackgroundTaskRecord)
    → lookup (l, t) store ≡ some r
    → (r.lifecycle_id ≡ l) × (r.task_id ≡ t)

abbrev pub Backed :
    String → Dict (String × String) BackgroundTaskRecord → String → LiveTask → Type 0
Backed runtime store t task =
    (task.current.task_id ≡ t)
    × (task.current.runtime_instance_id ≡ runtime)
    × (r : BackgroundTaskRecord) × (lookup (task.current.lifecycle_id, t) store ≡ some r)
    × (is_active r.status ≡ true)
    × (r.runtime_instance_id ≡ runtime)

pub record Sound (runtime : String) (store : Dict (String × String) BackgroundTaskRecord)
    (tasks : Dict String LiveTask) : Type 0 where
  pub keyed : Keyed store
  pub backed :
      (t : String) (task : LiveTask)
      → lookup t tasks ≡ some task
      → task.done ≡ false
      → Backed runtime store t task

abbrev pub IsSound : Manager → Type 0
IsSound m = Sound m.runtime_instance_id m.store m.tasks

-- A record that is not active stays as it is.
abbrev pub Final :
    Dict (String × String) BackgroundTaskRecord
    → Dict (String × String) BackgroundTaskRecord
    → Type 0
Final before after =
    (l t : String) (r : BackgroundTaskRecord)
    → lookup (l, t) before ≡ some r
    → is_active r.status ≡ false
    → lookup (l, t) after ≡ some r
