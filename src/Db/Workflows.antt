-- ===== src/Db/Workflows.antt =====
-- apps/api/app/db/models.py and models/workflow.py: workflow executions and their steps.
use rgp.Prelude.{ℕ, String, Bool, Option, List, str_eq}
use rgp.Json.{Value, Entries}

-- String enumerations: two members are equal if their values are.
pub data WorkflowExecutionStatus : Type 0 where
  queued running paused completed failed canceled : WorkflowExecutionStatus

pub data WorkflowStepStatus : Type 0 where
  pending running completed failed skipped paused : WorkflowStepStatus

pub record WorkflowDefinitionTable : Type 0 where
  pub id : String
  pub tenant_id : String
  pub name : String
  pub version : String
  pub template_id : Option String
  pub steps : List Entries
  pub status : String
  pub created_at : ℕ
  pub updated_at : ℕ

pub record WorkflowExecutionTable : Type 0 where
  pub id : String
  pub tenant_id : String
  pub run_id : String
  pub request_id : String
  pub workflow_definition_id : Option String
  pub status : WorkflowExecutionStatus
  pub current_step_index : ℕ
  pub step_states : List Value
  pub pause_reason : Option String
  pub cancel_reason : Option String
  pub failure_reason : Option String
  pub retry_count : ℕ
  pub started_at : Option ℕ
  pub paused_at : Option ℕ
  pub resumed_at : Option ℕ
  pub completed_at : Option ℕ
  pub created_at : ℕ
  pub updated_at : ℕ

-- The name and the configuration are what the definition's JSON holds.
pub record WorkflowStepExecutionTable : Type 0 where
  pub id : String
  pub workflow_execution_id : String
  pub step_index : ℕ
  pub step_name : Value
  pub status : WorkflowStepStatus
  pub input_payload : Value
  pub output_payload : Value
  pub error_message : Option String
  pub retry_count : ℕ
  pub started_at : Option ℕ
  pub completed_at : Option ℕ

unfoldable pub execution_status_value : WorkflowExecutionStatus → String
execution_status_value WorkflowExecutionStatus.queued = "queued"
execution_status_value WorkflowExecutionStatus.running = "running"
execution_status_value WorkflowExecutionStatus.paused = "paused"
execution_status_value WorkflowExecutionStatus.completed = "completed"
execution_status_value WorkflowExecutionStatus.failed = "failed"
execution_status_value WorkflowExecutionStatus.canceled = "canceled"

unfoldable pub step_status_value : WorkflowStepStatus → String
step_status_value WorkflowStepStatus.pending = "pending"
step_status_value WorkflowStepStatus.running = "running"
step_status_value WorkflowStepStatus.completed = "completed"
step_status_value WorkflowStepStatus.failed = "failed"
step_status_value WorkflowStepStatus.skipped = "skipped"
step_status_value WorkflowStepStatus.paused = "paused"

unfoldable pub execution_status_eq : WorkflowExecutionStatus → WorkflowExecutionStatus → Bool
unfolding execution_status_value
execution_status_eq a b = str_eq (execution_status_value a) (execution_status_value b)

unfoldable pub step_status_eq : WorkflowStepStatus → WorkflowStepStatus → Bool
unfolding step_status_value
step_status_eq a b = str_eq (step_status_value a) (step_status_value b)
