-- ===== src/Runtime/BackgroundTasks/Records.antt =====
-- The records of server/src/agent_shell/runtime/background_tasks.py, and what a manager keeps.
use deepagent_shell.Prelude.{ℕ, String, Bool, true, false, Dict, Option, List, ◌≡◌, ◌↔◌, arith, Eq}

pub data TargetKind : Type 0 where
  agent workflow : TargetKind

abbrev pub target_kind_beq : TargetKind → TargetKind → Bool
target_kind_beq agent agent = true
target_kind_beq workflow workflow = true
target_kind_beq _ _ = false

pub target_kind_beq_iff : (a b : TargetKind) → (target_kind_beq a b ≡ true) ↔ (a ≡ b)
target_kind_beq_iff a b = (λ h. ground arith, λ h. ground arith)

instance abbrev pub target_kind_eq : Eq TargetKind
target_kind_eq = record { beq = target_kind_beq; beq_iff = target_kind_beq_iff }

pub data BackgroundTaskStatus : Type 0 where
  pending running succeeded failed cancel_requested cancelled interrupted : BackgroundTaskStatus

-- `status in ACTIVE_BACKGROUND_STATUSES`
abbrev pub is_active : BackgroundTaskStatus → Bool
is_active pending = true
is_active running = true
is_active cancel_requested = true
is_active _ = false

-- What a run that succeeded leaves: its finish reason and token counts.
pub record ExecutionResult : Type 0 where
  pub finish_reason : String
  pub usage : Dict String ℕ

-- An empty `result` is `none`.
pub record BackgroundTaskRecord : Type 0 where
  pub task_id : String
  pub lifecycle_id : String
  pub runtime_instance_id : String
  pub request_id : String
  pub launcher_run_id : String
  pub launcher_id : String
  pub operation_id : String
  pub target_kind : TargetKind
  pub target_id : String
  pub target_name : String
  pub target_graph_sha : String
  pub child_run_id : String
  pub child_thread_id : String
  pub run_depth : ℕ
  pub status : BackgroundTaskStatus
  pub created_at : String
  pub started_at : String
  pub finished_at : String
  pub result : Option ExecutionResult
  pub error_code : String

pub record BackgroundTaskHandle : Type 0 where
  pub task_id : String
  pub lifecycle_id : String
  pub operation_id : String
  pub target_kind : TargetKind
  pub target_id : String
  pub child_run_id : String
  pub child_thread_id : String
  pub run_depth : ℕ
  pub status : BackgroundTaskStatus

-- `found` holds the fields that stay empty where the status is `not_found`.
pub record BackgroundTaskSnapshot : Type 0 where
  pub task_id : String
  pub lifecycle_id : String
  pub checked_at : String
  pub found : Option BackgroundTaskRecord

-- A failure that the caller of an operation sees.
pub data Failure : Type 0 where
  not_started background_operation_id_invalid workflow_lifecycle_not_found : Failure
  workflow_lifecycle_deleting background_operation_conflict store_failed : Failure

pub data Outcome (A : Type 0) : Type 0 where
  returned : A → Outcome A
  raised : Failure → Outcome A

-- The asyncio task of a background run, with the record that its coroutine holds.
pub record LiveTask : Type 0 where
  pub current : BackgroundTaskRecord
  pub done : Bool

-- A call on the run history of the lifecycle service. It changes nothing that the manager reads, and the
-- manager catches what it raises.
pub data HistoryCall : Type 0 where
  register_run : BackgroundTaskRecord → HistoryCall
  finish_run : String → String → String → Option ExecutionResult → HistoryCall

-- The store under `lifecycle_tasks_namespace`, by lifecycle and task; `_tasks`; the calls on the run history
-- and the cancellations asked for, the last one first.
pub record Manager : Type 0 where
  pub runtime_instance_id : String
  pub started : Bool
  pub store : Dict (String × String) BackgroundTaskRecord
  pub tasks : Dict String LiveTask
  pub history : List HistoryCall
  pub cancellations : List String
