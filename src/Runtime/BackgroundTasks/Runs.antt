-- ===== src/Runtime/BackgroundTasks/Runs.antt =====
-- background_tasks.py: `_start`, and the steps of `_run`, whose coroutine holds the lifecycle's lock for
-- each write and waits for the child's execution between them.
pub mod Steps
pub mod Writes
pub mod Keeps
pub mod Cancels
pub mod Final
use deepagent_shell.Prelude.{
  strip, size, text_append, ℕ, zero, suc, ◌+◌, String, Bool, true, false, not, ◌&&◌, ◌||◌, List, [],
  ◌∷◌, Option, none, some, Dict, lookup, insert, remove, if◌then◌else◌, string_eq, ◌==◌, ltb,
}
use deepagent_shell.Runtime.BackgroundTasks.Records.{
  TargetKind, target_kind_eq, BackgroundTaskStatus, pending, running, succeeded, failed, cancelled,
  ExecutionResult, BackgroundTaskRecord, BackgroundTaskHandle, Failure, Outcome, returned, raised,
  LiveTask, HistoryCall, register_run, finish_run, Manager, not_started,
  background_operation_id_invalid, workflow_lifecycle_not_found, workflow_lifecycle_deleting,
  background_operation_conflict, store_failed,
}
use deepagent_shell.Runtime.BackgroundTasks.{handle, get, stored, noted, try_put, normalize_active}

-- The arguments of `_start`, with the UUIDs and the time that it draws.
pub record StartRequest : Type 0 where
  pub lifecycle_id : String
  pub request_id : String
  pub launcher_run_id : String
  pub launcher_id : String
  pub operation_id : String
  pub caller_run_depth : ℕ
  pub target_kind : TargetKind
  pub target_id : String
  pub target_name : String
  pub target_graph_sha : String
  pub child_run_id : String
  pub child_thread_id : String
  pub now : String

-- How a child's execution ends: with a result, by a cancellation, by an `AgentRuntimeError` with its code,
-- or by another exception.
pub data ExecutionEnd : Type 0 where
  completed : ExecutionResult → ExecutionEnd
  stopped crashed : ExecutionEnd
  refused : String → ExecutionEnd

-- What `_run` hands to `_finish`.
abbrev end_status : ExecutionEnd → BackgroundTaskStatus
end_status (completed result) = succeeded
end_status stopped = cancelled
end_status crashed = failed
end_status (refused code) = failed

abbrev end_result : ExecutionEnd → Option ExecutionResult
end_result (completed result) = some result
end_result _ = none

abbrev end_code : ExecutionEnd → String
end_code (completed result) = ""
end_code stopped = "background_task_cancelled"
end_code crashed = "background_task_failed"
end_code (refused code) = code

-- The `update` of `_finish`.
abbrev pub ended : String → ExecutionEnd → BackgroundTaskRecord → BackgroundTaskRecord
ended now result r = record r {
  status = end_status result;
  finished_at = now;
  result = end_result result;
  error_code = end_code result;
}

abbrev run_status : ExecutionEnd → String
run_status (completed result) = "completed"
run_status stopped = "cancelled"
run_status crashed = "failed"
run_status (refused code) = "failed"

module _ (writes : BackgroundTaskRecord → Bool) where
  -- `_finish`, and the `finally` of `_run`.
  unfoldable pub finish : String → ExecutionEnd → BackgroundTaskRecord → Manager → Manager
  finish now result current m =
      let terminal = ended now result current in
      let after =
        noted
          (finish_run current.child_run_id (run_status result) terminal.error_code terminal.result)
          (try_put writes terminal m) in
      record after { tasks = remove current.task_id after.tasks }

  abbrev pub as_running : String → BackgroundTaskRecord → BackgroundTaskRecord
  as_running now r = record r { status = running; started_at = now }

  -- The start of `_run`: a write that fails goes to the last `except`.
  unfoldable pub begin_run : String → BackgroundTaskRecord → Manager → Manager
  begin_run now record_given m =
      let current = as_running now record_given in
      if writes current
      then (let after = stored current m in
          record after {
            tasks =
                insert record_given.task_id (record { current = current; done = false })
                  after.tasks;
          })
      else finish now crashed current m

  -- What `_start` does with the record it found under the task's id.
  unfoldable pub start_again :
      StartRequest
      → String
      → BackgroundTaskRecord
      → Manager
      → Outcome BackgroundTaskHandle × Manager
  start_again request operation_id existing m =
      if not (existing.operation_id == operation_id)
        || (not (existing.target_kind == request.target_kind)
            || not (existing.target_id == request.target_id))
      then (raised background_operation_conflict, m)
      else (let (now, after) = normalize_active writes request.now existing m in
          (returned (handle now), after))

  abbrev pub new_record : StartRequest → String → String → Manager → BackgroundTaskRecord
  new_record request operation_id task_id m = record {
    task_id = task_id;
    lifecycle_id = request.lifecycle_id;
    runtime_instance_id = m.runtime_instance_id;
    request_id = request.request_id;
    launcher_run_id = request.launcher_run_id;
    launcher_id = request.launcher_id;
    operation_id = operation_id;
    target_kind = request.target_kind;
    target_id = request.target_id;
    target_name = request.target_name;
    target_graph_sha = request.target_graph_sha;
    child_run_id = request.child_run_id;
    child_thread_id = request.child_thread_id;
    run_depth = request.caller_run_depth + 1;
    status = pending;
    created_at = request.now;
    started_at = "";
    finished_at = "";
    result = none;
    error_code = "";
  }

  -- The rest of `_start`: the record is written, the run registered, and the task created.
  unfoldable pub start_new : BackgroundTaskRecord → Manager → Outcome BackgroundTaskHandle × Manager
  start_new r m =
      if writes r
      then (let after = noted (register_run r) (stored r m) in
          (
            returned (handle r),
            record after {
              tasks = insert r.task_id (record { current = r; done = false }) after.tasks;
            },
          ))
      else (raised store_failed, m)

  abbrev pub start_found :
      StartRequest
      → String
      → String
      → Option BackgroundTaskRecord
      → Manager
      → Outcome BackgroundTaskHandle × Manager
  start_found request operation_id task_id none m =
      start_new (new_record request operation_id task_id m) m
  start_found request operation_id task_id (some existing) m =
      start_again request operation_id existing m

  module _ (lifecycles : String → Option String)
      (task_id_of : String → String → String → String) where
    -- The part of `_start` under the lock, by the lifecycle's status.
    abbrev pub start_in :
        StartRequest → String → Option String → Manager → Outcome BackgroundTaskHandle × Manager
    start_in request operation_id none m = (raised workflow_lifecycle_not_found, m)
    start_in request operation_id (some status) m =
        let task_id = task_id_of request.lifecycle_id request.launcher_run_id operation_id in
        if status == "deleting"
        then (raised workflow_lifecycle_deleting, m)
        else start_found request operation_id task_id (get request.lifecycle_id task_id m) m

    -- `_start`
    unfoldable pub start_task : StartRequest → Manager → Outcome BackgroundTaskHandle × Manager
    unfolding size
    start_task request m =
        let operation_id = strip request.operation_id in
        if not m.started
        then (raised not_started, m)
        else if operation_id == "" || ltb 128 (size operation_id)
        then (raised background_operation_id_invalid, m)
        else start_in request operation_id (lifecycles request.lifecycle_id) m
