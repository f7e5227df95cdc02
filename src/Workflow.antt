-- ===== src/Workflow.antt =====
-- apps/api/app/services/workflow_engine_service.py: executions of workflows, step by step.
pub mod Commands
pub mod Detail
pub mod Contracts
pub mod Moves
pub mod Sequences
pub mod Starts
pub mod Bounds
pub mod Places
pub mod Final
pub mod Termination
use rgp.Prelude.{
  ℕ, ◌+◌, suc, String, ◌<>◌, Bool, not, ◌&&◌, ◌||◌, Option, none, some, List, [], ◌∷◌, ◌++◌, length,
  first, select, update, str_eq, ◌==◌, leb, if◌then◌else◌,
}
use rgp.Json.{Value, Entries, none_value, string, no_entries, get_default}
use rgp.Text.{decimal}
use rgp.Db.{Db, Services, RequestTable, WorkflowExecutionTable, WorkflowStepExecutionTable}
use rgp.Db.Workflows.{
  WorkflowExecutionStatus, WorkflowStepStatus, execution_status_value, step_status_value,
  execution_status_eq, step_status_eq,
}
use rgp.Session.{
  Host, Action, Error, stop_iteration, value_error, read, required, raise_if, write_services, when,
  commit, match_row, pure, ◌>>=◌, ◌>>◌,
}
use rgp.Events.{append, or_text}
use rgp.Bridge.{get_request_state}
use rgp.Lifecycle.{next_id, is_set}

abbrev pub modify_execution :
    String → (WorkflowExecutionTable → WorkflowExecutionTable) → Action Unit
modify_execution id f =
    write_services
      (λ t. record t { workflow_executions = update (λ e. str_eq e.id id) f t.workflow_executions })

abbrev pub modify_step :
    String → (WorkflowStepExecutionTable → WorkflowStepExecutionTable) → Action Unit
modify_step id f =
    write_services
      (λ t. record t { workflow_steps = update (λ p. str_eq p.id id) f t.workflow_steps })

abbrev pub find_execution : String → Db → Option WorkflowExecutionTable
find_execution id d = first (λ e. str_eq e.id id) d.services.workflow_executions

-- the steps of an execution
abbrev pub steps_of : String → List WorkflowStepExecutionTable → List WorkflowStepExecutionTable
steps_of id steps = select (λ p. str_eq p.workflow_execution_id id) steps

abbrev pub find_step : String → ℕ → Db → Option WorkflowStepExecutionTable
find_step id index d =
    first (λ p. str_eq p.workflow_execution_id id && p.step_index == index)
      d.services.workflow_steps

-- The other tenant's execution, in _get_execution_row
unfoldable pub is_foreign : Host → Option String → WorkflowExecutionTable → Db → Bool
unfolding get_request_state
is_foreign host tenant_id execution d = elim tenant_id [
  | none ↦ Bool.false
  | some t ↦ elim (get_request_state host execution.request_id (some t) d) [
    | none ↦ Bool.true
    | some request ↦ not (str_eq execution.tenant_id request.tenant_id)
  ]
]

-- _get_execution_row, and the error for a row that is not there
unfoldable pub load_execution : Host → String → Option String → Action WorkflowExecutionTable
unfolding is_foreign
load_execution host id tenant_id = do
  found ← read (find_execution id)
  execution ← required (value_error ("Workflow execution " <> id <> " not found")) found
  foreign ← read (is_foreign host tenant_id execution)
  raise_if foreign (stop_iteration id)
  pure execution

-- event_store_service.append with the keywords that the engine gives
unfoldable pub workflow_event :
    Host → WorkflowExecutionTable → String → String → String → Action Unit
unfolding append
workflow_event host execution event_type actor_id detail = append host (record {
  tenant_id = execution.tenant_id;
  event_type = event_type;
  aggregate_type = "workflow_execution";
  aggregate_id = execution.id;
  actor = actor_id;
  detail = detail;
  request_id = some execution.request_id;
  run_id = some execution.run_id;
  artifact_id = none;
  promotion_id = none;
  check_run_id = none;
  payload = no_entries;
})

-- The rows that start_workflow adds
unfoldable pub execution_row :
    Host → String → String → String → RequestTable → Option String → WorkflowExecutionTable
execution_row host id run_id request_id request definition_id = record {
  id = id;
  tenant_id = request.tenant_id;
  run_id = run_id;
  request_id = request_id;
  workflow_definition_id = definition_id;
  status = WorkflowExecutionStatus.running;
  current_step_index = 0;
  step_states = [];
  pause_reason = none;
  cancel_reason = none;
  failure_reason = none;
  retry_count = 0;
  started_at = some host.now;
  paused_at = none;
  resumed_at = none;
  completed_at = none;
  created_at = host.now;
  updated_at = host.now;
}

unfoldable pub step_row : String → ℕ → Entries → WorkflowStepExecutionTable
unfolding decimal
step_row execution_id index definition = record {
  id = execution_id <> "_s" <> decimal index;
  workflow_execution_id = execution_id;
  step_index = index;
  step_name = get_default "name" (string ("step_" <> decimal index)) definition;
  status = WorkflowStepStatus.pending;
  input_payload = get_default "config" none_value definition;
  output_payload = none_value;
  error_message = none;
  retry_count = 0;
  started_at = none;
  completed_at = none;
}

-- for idx, step_def in enumerate(steps_json), from an index
unfoldable pub step_rows : String → ℕ → List Entries → List WorkflowStepExecutionTable
unfolding step_row
step_rows execution_id index [] = []
step_rows execution_id index (d ∷ ds) =
    step_row execution_id index d ∷ step_rows execution_id (suc index) ds

-- the steps of the definition, if one is named and found
unfoldable pub definition_steps : Option String → Db → List Entries
definition_steps definition_id d = elim definition_id [
  | none ↦ []
  | some id ↦
      if str_eq id ""
      then []
      else elim (first (λ w. str_eq w.id id) d.services.workflow_definitions) [
        | none ↦ []
        | some definition ↦ definition.steps
      ]
]

-- The row of the execution is returned.
unfoldable pub start_workflow :
    Host → String → String → String → Option String → String → Action WorkflowExecutionTable
unfolding get_request_state definition_steps execution_row step_rows workflow_event
start_workflow host run_id request_id tenant_id definition_id actor_id = do
  id ← next_id host "wfe_"
  found ← read (get_request_state host request_id (some tenant_id))
  request ← required (stop_iteration request_id) found
  steps ← read (definition_steps definition_id)
  write_services (λ t. record t {
    workflow_executions =
        t.workflow_executions ++ execution_row host id run_id request_id request definition_id ∷ [];
  })
  write_services (λ t. record t { workflow_steps = t.workflow_steps ++ step_rows id 0 steps })
  workflow_event host (execution_row host id run_id request_id request definition_id)
      "workflow.started" actor_id ("Workflow execution started for run " <> run_id)
  commit
  pure (execution_row host id run_id request_id request definition_id)
