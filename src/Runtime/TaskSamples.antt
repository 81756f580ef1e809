-- ===== src/Runtime/TaskSamples.antt =====
-- A manager of background tasks that starts one, checks it, runs it to its end and checks it again.
use deepagent_shell.Prelude.{
  strip, size, map, All, String, Bool, true, false, [], ◌∷◌, Option, none, some, ◌≡◌, refl, lookup,
  insert, string_eq, pair_eq,
}
use deepagent_shell.Runtime.BackgroundTasks.Records.{
  agent, target_kind_eq, BackgroundTaskRecord, pending, LiveTask, Manager,
}
use deepagent_shell.Runtime.BackgroundTasks.{check_locked}
use deepagent_shell.Runtime.BackgroundTasks.Runs.{
  StartRequest, completed, finish, start_task, start_new, ExecutionEnd,
}
use deepagent_shell.Runtime.BackgroundTasks.Runs.Steps.{
  IsSound, Steps, stay, go, starts, checks, ends,
}
use deepagent_shell.Runtime.BackgroundTasks.Runs.Keeps.{Keeps}
use deepagent_shell.Runtime.BackgroundTasks.Checked.{IsHonest, check_locked-IsHonest}
use deepagent_shell.Runtime.BackgroundTasks.Runs.Final.{Steps-Keeps, fresh-IsSound}

abbrev takes_all : BackgroundTaskRecord → Bool
takes_all r = true

abbrev all_active : String → Option String
all_active l = some "active"

-- One id for each operation of the sample.
abbrev operation_task : String → String → String → String
operation_task lifecycle launcher operation = operation

abbrev idle : Manager
idle = record {
  runtime_instance_id = "here";
  started = true;
  store = [];
  tasks = [];
  history = [];
  cancellations = [];
}

abbrev request : StartRequest
request = record {
  lifecycle_id = "l";
  request_id = "q";
  launcher_run_id = "p";
  launcher_id = "n";
  operation_id = " op ";
  caller_run_depth = 0;
  target_kind = agent;
  target_id = "a";
  target_name = "A";
  target_graph_sha = "";
  child_run_id = "c";
  child_thread_id = "ct";
  now = "1";
}

abbrev started : Manager
started = (start_task takes_all all_active operation_task request idle).1

abbrev first_record : BackgroundTaskRecord
first_record = record {
  task_id = "op";
  lifecycle_id = "l";
  runtime_instance_id = "here";
  request_id = "q";
  launcher_run_id = "p";
  launcher_id = "n";
  operation_id = "op";
  target_kind = agent;
  target_id = "a";
  target_name = "A";
  target_graph_sha = "";
  child_run_id = "c";
  child_thread_id = "ct";
  run_depth = 1;
  status = pending;
  created_at = "1";
  started_at = "";
  finished_at = "";
  result = none;
  error_code = "";
}

abbrev first_task : LiveTask
first_task = record { current = first_record; done = false }

started_task : lookup "op" started.tasks ≡ some first_task
unfolding start_task start_new strip size lookup insert
started_task = refl

abbrev good_end : ExecutionEnd
good_end = completed (record { finish_reason = "stop"; usage = [] })

abbrev finished : Manager
finished = finish takes_all "2" good_end first_record started

abbrev checked : Manager
checked = (check_locked takes_all "3" "l" ("op" ∷ "other" ∷ []) finished).1

sample-Steps : Steps takes_all all_active operation_task idle checked
sample-Steps = go (starts request) (
    go (ends "2" "op" first_task good_end started_task refl)
      (go (checks "3" "l" ("op" ∷ "other" ∷ [])) stay))

Steps-Keeps_example : Keeps idle checked
Steps-Keeps_example =
    Steps-Keeps takes_all all_active operation_task (fresh-IsSound idle refl refl) sample-Steps

started-IsSound : IsSound started
started-IsSound =
    (Steps-Keeps takes_all all_active operation_task (fresh-IsSound idle refl refl)
      (go (starts request) stay)).1

check_locked-IsHonest_example :
    (map (λ s. s.task_id) (check_locked takes_all "2" "l" ("op" ∷ "other" ∷ []) started).0
      ≡ "op" ∷ "other" ∷ [])
    × All (IsHonest started) (check_locked takes_all "2" "l" ("op" ∷ "other" ∷ []) started).0
check_locked-IsHonest_example =
    check_locked-IsHonest takes_all "2" "l" ("op" ∷ "other" ∷ []) started started-IsSound
