-- ===== src/Workflow/Detail.antt =====
-- get_execution of apps/api/app/services/workflow_engine_service.py: an execution with its steps.
pub mod Ordered
use rgp.Prelude.{ℕ, String, Bool, Option, none, some, List, map, sort_by, ltb}
use rgp.Json.{Value}
use rgp.Db.{Db, Services, WorkflowExecutionTable, WorkflowStepExecutionTable}
use rgp.Db.Workflows.{WorkflowExecutionStatus, WorkflowStepStatus}
use rgp.Session.{Host, Action, read, pure, ◌>>=◌}
use rgp.Workflow.{load_execution, steps_of}

pub record WorkflowExecutionRecord : Type 0 where
  pub id : String
  pub tenant_id : String
  pub run_id : String
  pub request_id : String
  pub workflow_definition_id : Option String
  pub status : WorkflowExecutionStatus
  pub current_step_index : ℕ
  pub pause_reason : Option String
  pub cancel_reason : Option String
  pub failure_reason : Option String
  pub retry_count : ℕ
  pub started_at : Option ℕ
  pub paused_at : Option ℕ
  pub resumed_at : Option ℕ
  pub completed_at : Option ℕ
  pub created_at : ℕ
  pub updated_at : ℕ

pub record WorkflowStepExecutionRecord : Type 0 where
  pub id : String
  pub workflow_execution_id : String
  pub step_index : ℕ
  pub step_name : Value
  pub status : WorkflowStepStatus
  pub input_payload : Value
  pub output_payload : Value
  pub error_message : Option String
  pub retry_count : ℕ
  pub started_at : Option ℕ
  pub completed_at : Option ℕ

-- The record with its steps; the engine leaves the definition out.
pub record WorkflowExecutionDetail : Type 0 where
  pub execution : WorkflowExecutionRecord
  pub steps : List WorkflowStepExecutionRecord

unfoldable pub record_from_row : WorkflowExecutionTable → WorkflowExecutionRecord
record_from_row row = record {
  id = row.id;
  tenant_id = row.tenant_id;
  run_id = row.run_id;
  request_id = row.request_id;
  workflow_definition_id = row.workflow_definition_id;
  status = row.status;
  current_step_index = row.current_step_index;
  pause_reason = row.pause_reason;
  cancel_reason = row.cancel_reason;
  failure_reason = row.failure_reason;
  retry_count = row.retry_count;
  started_at = row.started_at;
  paused_at = row.paused_at;
  resumed_at = row.resumed_at;
  completed_at = row.completed_at;
  created_at = row.created_at;
  updated_at = row.updated_at;
}

unfoldable pub step_record_from_row : WorkflowStepExecutionTable → WorkflowStepExecutionRecord
step_record_from_row row = record {
  id = row.id;
  workflow_execution_id = row.workflow_execution_id;
  step_index = row.step_index;
  step_name = row.step_name;
  status = row.status;
  input_payload = row.input_payload;
  output_payload = row.output_payload;
  error_message = row.error_message;
  retry_count = row.retry_count;
  started_at = row.started_at;
  completed_at = row.completed_at;
}

-- order_by(step_index)
abbrev pub index_before : WorkflowStepExecutionTable → WorkflowStepExecutionTable → Bool
index_before p q = ltb p.step_index q.step_index

unfoldable pub get_execution : Host → String → Option String → Action WorkflowExecutionDetail
unfolding load_execution record_from_row step_record_from_row
get_execution host id tenant_id = do
  execution ← load_execution host id tenant_id
  steps ← read (λ d. sort_by index_before (steps_of id d.services.workflow_steps))
  pure (record { execution = record_from_row execution; steps = map step_record_from_row steps })
