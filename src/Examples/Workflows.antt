-- ===== src/Examples/Workflows.antt =====
-- The theorems on workflow executions at concrete inputs.
use rgp.Prelude.{List, inl, Bool-cases, str_eq, ℕ, String, refl, none, some, [], ◌∷◌, arith, inr}
use rgp.Json.{none_value, string}
use rgp.Db.{Db, WorkflowExecutionTable, WorkflowStepExecutionTable}
use rgp.Db.Workflows.{WorkflowExecutionStatus, WorkflowStepStatus}
use rgp.Session.{Host, with_session}
use rgp.Session.Outcomes.{Outcome}
use rgp.Workflow.{start_workflow}
use rgp.Workflow.Detail.{get_execution}
use rgp.Workflow.Detail.Ordered.{Shows, get_execution-Shows}
use rgp.Workflow.Moves.{advancing, pausing, retrying}
use rgp.Workflow.Sequences.{Operation, starting, commanding, perform, perform_all}
use rgp.Workflow.Starts.{IsStarted, start_workflow_contract}
use rgp.Workflow.Bounds.{IsBounded}
use rgp.Workflow.Places.{IsPlaced, AreFresh, perform_all-IsPlaced}
use rgp.Workflow.Final.{HasStatus, perform_all-HasStatus}
use rgp.Workflow.Termination.{advance_each, advance_each-completed}
use rgp.Examples.Data.{example_host, example_db}

abbrev example_execution : String → WorkflowExecutionStatus → WorkflowExecutionTable
example_execution id status = record {
  id = id;
  tenant_id = "tenant_demo";
  run_id = "run_1";
  request_id = "req_1";
  workflow_definition_id = none;
  status = status;
  current_step_index = 0;
  step_states = [];
  pause_reason = none;
  cancel_reason = none;
  failure_reason = none;
  retry_count = 0;
  started_at = some 1;
  paused_at = none;
  resumed_at = none;
  completed_at = none;
  created_at = 1;
  updated_at = 1;
}

abbrev example_step : String → ℕ → WorkflowStepStatus → WorkflowStepExecutionTable
example_step id index status = record {
  id = id;
  workflow_execution_id = "wfe_1";
  step_index = index;
  step_name = string "step";
  status = status;
  input_payload = none_value;
  output_payload = none_value;
  error_message = none;
  retry_count = 0;
  started_at = none;
  completed_at = none;
}

-- An execution that runs the first of its two steps, and a canceled one
abbrev example_flow : Db
example_flow = record example_db {
  services = record example_db.services {
    workflow_executions =
        example_execution "wfe_1" WorkflowExecutionStatus.running
        ∷ example_execution "wfe_2" WorkflowExecutionStatus.canceled
        ∷ [];
    workflow_steps =
        example_step "wfe_1_s0" 0 WorkflowStepStatus.running
        ∷ example_step "wfe_1_s1" 1 WorkflowStepStatus.pending
        ∷ [];
  };
}

get_execution-Shows_example :
    Outcome
      (Shows example_host "wfe_1" (some "tenant_demo") example_flow)
      example_flow
      (with_session (get_execution example_host "wfe_1" (some "tenant_demo")) example_flow)
get_execution-Shows_example =
    get_execution-Shows example_host "wfe_1" (some "tenant_demo") example_flow

start_workflow_contract_example :
    Outcome (IsStarted example_host "run_1" "req_1" "tenant_demo" none example_flow) example_flow (
      with_session
        (start_workflow example_host "run_1" "req_1" "tenant_demo" none "user_demo")
        example_flow)
start_workflow_contract_example =
    start_workflow_contract example_host "run_1" "req_1" "tenant_demo" none "user_demo" example_flow

example_flow-IsBounded : IsBounded example_flow
example_flow-IsBounded = record {
  steps = (omega arith, (omega arith, tt));
  executions = (omega arith, (omega arith, tt));
}

example_flow-IsPlaced : IsPlaced example_flow
example_flow-IsPlaced = record {
  bounded = example_flow-IsBounded;
  numbered = λ id. elim (Bool-cases (str_eq "wfe_1" id)) [
    | inl e ↦ rw e (refl, (refl, tt))
    | inr e ↦ rw e tt
  ];
}

abbrev example_operations : List (Host × Operation)
example_operations =
    (example_host, starting "run_1" "req_1" "tenant_demo" none "user_demo")
    ∷ (example_host, commanding advancing "wfe_1" "user_demo" none)
    ∷ (example_host, commanding (retrying 0) "wfe_1" "user_demo" none)
    ∷ []

example_operations-AreFresh : AreFresh example_operations example_flow
unfolding start_workflow perform with_session rgp.Session.◌>>=◌ rgp.Lifecycle.next_id
    rgp.Session.commit
example_operations-AreFresh = (refl, tt)

perform_all-IsPlaced_example : IsPlaced (perform_all example_operations example_flow)
perform_all-IsPlaced_example =
    perform_all-IsPlaced example_operations example_flow example_flow-IsPlaced
      example_operations-AreFresh

perform_all-HasStatus_example : HasStatus "wfe_2" WorkflowExecutionStatus.canceled (
    perform_all
      ((example_host, commanding (pausing "wait") "wfe_2" "user_demo" none)
        ∷ (example_host, commanding (retrying 0) "wfe_2" "user_demo" none)
        ∷ [])
      example_flow)
perform_all-HasStatus_example =
    perform_all-HasStatus "wfe_2" WorkflowExecutionStatus.canceled (inr refl) _ example_flow
      (example_execution "wfe_2" WorkflowExecutionStatus.canceled, refl, refl)

advance_each-completed_example :
    HasStatus "wfe_1" WorkflowExecutionStatus.completed (
      perform_all
        (advance_each "wfe_1" "user_demo" (example_host ∷ example_host ∷ []))
        example_flow)
advance_each-completed_example =
    advance_each-completed example_host (example_host ∷ []) "wfe_1" "user_demo" example_flow
      (example_execution "wfe_1" WorkflowExecutionStatus.running) tt refl refl (omega arith)
