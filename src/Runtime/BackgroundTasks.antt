-- ===== src/Runtime/BackgroundTasks.antt =====
-- server/src/agent_shell/runtime/background_tasks.py: `BackgroundTaskManager`. Each operation holds the
-- lifecycle's lock, so it is one step. The store is a library's: `writes` says whether it takes a write,
-- `lifecycles` gives the status of a lifecycle, if there is one, and `task_id_of` is the UUID of an
-- operation. Times and the UUIDs of a child run are arguments.
pub mod Records
pub mod Runs
pub mod Checked
use deepagent_shell.Prelude.{
  strip, size, text_append, ℕ, zero, suc, ◌+◌, String, Bool, true, false, not, ◌&&◌, ◌||◌, List, [],
  ◌∷◌, ◌++◌, Option, none, some, Dict, lookup, insert, remove, if◌then◌else◌, string_eq, pair_eq,
  ◌==◌, ltb, keep, map,
}
use deepagent_shell.Runtime.BackgroundTasks.Records.{
  TargetKind, agent, workflow, target_kind_eq, BackgroundTaskStatus, pending, running, succeeded,
  failed, cancel_requested, cancelled, interrupted, is_active, ExecutionResult,
  BackgroundTaskRecord, BackgroundTaskHandle, BackgroundTaskSnapshot, Failure, Outcome, returned,
  raised, LiveTask, HistoryCall, register_run, finish_run, Manager, not_started,
  background_operation_id_invalid, workflow_lifecycle_not_found, workflow_lifecycle_deleting,
  background_operation_conflict, store_failed,
}

-- `_handle`
abbrev pub handle : BackgroundTaskRecord → BackgroundTaskHandle
handle r = record {
  task_id = r.task_id;
  lifecycle_id = r.lifecycle_id;
  operation_id = r.operation_id;
  target_kind = r.target_kind;
  target_id = r.target_id;
  child_run_id = r.child_run_id;
  child_thread_id = r.child_thread_id;
  run_depth = r.run_depth;
  status = r.status;
}

-- `_snapshot`, and the snapshot of a task that is not there.
abbrev pub snapshot : String → BackgroundTaskRecord → BackgroundTaskSnapshot
snapshot checked_at r = record {
  task_id = r.task_id;
  lifecycle_id = r.lifecycle_id;
  checked_at = checked_at;
  found = some r;
}

abbrev pub not_found : String → String → String → BackgroundTaskSnapshot
not_found checked_at lifecycle_id task_id = record {
  task_id = task_id;
  lifecycle_id = lifecycle_id;
  checked_at = checked_at;
  found = none;
}

-- `live is not None and not live.done()`
abbrev pub is_running : Option LiveTask → Bool
is_running none = false
is_running (some t) = not t.done

-- `_get`
abbrev pub get : String → String → Manager → Option BackgroundTaskRecord
get lifecycle_id task_id m = lookup (lifecycle_id, task_id) m.store

-- `_put` where the store takes the write.
abbrev pub stored : BackgroundTaskRecord → Manager → Manager
stored r m = record m { store = insert (r.lifecycle_id, r.task_id) r m.store }

abbrev pub noted : HistoryCall → Manager → Manager
noted call m = record m { history = call ∷ m.history }

abbrev pub as_interrupted : String → BackgroundTaskRecord → BackgroundTaskRecord
as_interrupted checked_at r = record r {
  status = interrupted;
  finished_at = checked_at;
  error_code = "background_runtime_lost";
}

module _ (writes : BackgroundTaskRecord → Bool) where
  -- `_put` with its error caught.
  abbrev pub try_put : BackgroundTaskRecord → Manager → Manager
  try_put r m = if writes r then stored r m else m

  -- `_normalize_active`
  unfoldable pub normalize_active :
      String → BackgroundTaskRecord → Manager → BackgroundTaskRecord × Manager
  normalize_active checked_at r m =
      if not (is_active r.status)
      then (r, m)
      else if r.runtime_instance_id == m.runtime_instance_id
          && is_running (lookup r.task_id m.tasks)
      then (r, m)
      else let lost = as_interrupted checked_at r in
        (
          lost,
          noted (finish_run r.child_run_id "interrupted" "background_runtime_lost" none)
              (try_put lost m),
        )

  -- A round of `_check_locked`.
  abbrev pub check_one :
      String
      → String
      → String
      → Option BackgroundTaskRecord
      → Manager
      → BackgroundTaskSnapshot × Manager
  check_one checked_at lifecycle_id task_id none m = (not_found checked_at lifecycle_id task_id, m)
  check_one checked_at lifecycle_id task_id (some r) m =
      let (now, after) = normalize_active checked_at r m in (snapshot checked_at now, after)

  unfoldable pub check_locked :
      String → String → List String → Manager → List BackgroundTaskSnapshot × Manager
  check_locked checked_at lifecycle_id [] m = ([], m)
  check_locked checked_at lifecycle_id (task_id ∷ task_ids) m =
      let (one, after) = check_one checked_at lifecycle_id task_id (get lifecycle_id task_id m) m in
      let (more, end) = check_locked checked_at lifecycle_id task_ids after in (one ∷ more, end)

  abbrev pub as_cancel_requested : BackgroundTaskRecord → BackgroundTaskRecord
  as_cancel_requested r = record r { status = cancel_requested }

  -- `live.cancel()`
  abbrev pub cancelling : String → Manager → Manager
  cancelling task_id m = record m { cancellations = task_id ∷ m.cancellations }

  abbrev pub is_cancel_requested : BackgroundTaskStatus → Bool
  is_cancel_requested cancel_requested = true
  is_cancel_requested _ = false

  -- The end of a round of `_cancel_locked`, with the record normalized.
  unfoldable pub request_cancel :
      String → BackgroundTaskRecord → Manager → Outcome BackgroundTaskRecord × Manager
  request_cancel task_id r m =
      if is_active r.status && is_running (lookup task_id m.tasks)
      then (if is_cancel_requested r.status
          then (returned r, cancelling task_id m)
          else if writes (as_cancel_requested r)
          then (
            returned (as_cancel_requested r),
            cancelling task_id (stored (as_cancel_requested r) m),
          )
          else (raised store_failed, m))
      else (returned r, m)

  abbrev pub shown :
      String → Outcome BackgroundTaskRecord × Manager → Outcome BackgroundTaskSnapshot × Manager
  shown checked_at (returned r, m) = (returned (snapshot checked_at r), m)
  shown checked_at (raised e, m) = (raised e, m)

  abbrev pub cancel_one :
      String
      → String
      → String
      → Option BackgroundTaskRecord
      → Manager
      → Outcome BackgroundTaskSnapshot × Manager
  cancel_one checked_at lifecycle_id task_id none m =
      (returned (not_found checked_at lifecycle_id task_id), m)
  cancel_one checked_at lifecycle_id task_id (some r) m =
      let (now, after) = normalize_active checked_at r m in
      shown checked_at (request_cancel task_id now after)

  abbrev pub cons_shown :
      BackgroundTaskSnapshot
      → Outcome (List BackgroundTaskSnapshot) × Manager
      → Outcome (List BackgroundTaskSnapshot) × Manager
  cons_shown one (returned more, m) = (returned (one ∷ more), m)
  cons_shown one (raised e, m) = (raised e, m)

  -- A round's snapshot with the rest of the loop, which a raise leaves out.
  abbrev pub with_rest :
      Outcome BackgroundTaskSnapshot
      → Manager
      → Outcome (List BackgroundTaskSnapshot) × Manager
      → Outcome (List BackgroundTaskSnapshot) × Manager
  with_rest (returned one) after rest = cons_shown one rest
  with_rest (raised e) after rest = (raised e, after)

  -- `_cancel_locked`: a write that fails ends it.
  unfoldable pub cancel_locked :
      String → String → List String → Manager → Outcome (List BackgroundTaskSnapshot) × Manager
  cancel_locked checked_at lifecycle_id [] m = (returned [], m)
  cancel_locked checked_at lifecycle_id (task_id ∷ task_ids) m =
      let (outcome, after) =
        cancel_one checked_at lifecycle_id task_id (get lifecycle_id task_id m) m in
      with_rest outcome after (cancel_locked checked_at lifecycle_id task_ids after)
