-- ===== src/Workflow/Commands.antt =====
-- apps/api/app/services/workflow_engine_service.py: the commands on an execution. Each writes what it
-- changes, records an event, commits, and returns the row as it has changed it.
use rgp.Prelude.{
  ℕ, ◌+◌, String, ◌<>◌, not, ◌||◌, Option, none, some, length, str_eq, leb, if◌then◌else◌,
}
use rgp.Text.{decimal}
use rgp.Db.{WorkflowExecutionTable, WorkflowStepExecutionTable}
use rgp.Db.Workflows.{
  WorkflowExecutionStatus, WorkflowStepStatus, execution_status_value, step_status_value,
  execution_status_eq, step_status_eq,
}
use rgp.Session.{
  Host, Action, value_error, read, required, raise_if, commit, match_row, pure, ◌>>=◌, ◌>>◌,
}
use rgp.Workflow.{
  modify_execution, modify_step, find_step, steps_of, load_execution, workflow_event,
}

-- `text or default`
abbrev or_default : String → String → String
or_default text default = if str_eq text "" then default else text

-- f"Cannot {verb} workflow in status {status}"
abbrev cannot : String → WorkflowExecutionStatus → String
cannot verb status = "Cannot " <> verb <> " workflow in status " <> execution_status_value status

-- the rows that the commands write
unfoldable pub paused_row : Host → String → WorkflowExecutionTable → WorkflowExecutionTable
paused_row host reason e = record e {
  status = WorkflowExecutionStatus.paused;
  pause_reason = some reason;
  paused_at = some host.now;
  updated_at = host.now;
}

unfoldable pub resumed_row : Host → WorkflowExecutionTable → WorkflowExecutionTable
resumed_row host e = record e {
  status = WorkflowExecutionStatus.running;
  resumed_at = some host.now;
  updated_at = host.now;
}

unfoldable pub canceled_row : Host → String → WorkflowExecutionTable → WorkflowExecutionTable
canceled_row host reason e = record e {
  status = WorkflowExecutionStatus.canceled;
  cancel_reason = some reason;
  completed_at = some host.now;
  updated_at = host.now;
}

unfoldable pub retried_row : Host → ℕ → WorkflowExecutionTable → WorkflowExecutionTable
unfolding execution_status_eq
retried_row host index e = record e {
  status =
      if execution_status_eq e.status WorkflowExecutionStatus.failed
      then WorkflowExecutionStatus.running
      else e.status;
  current_step_index = index;
  retry_count = e.retry_count + 1;
  failure_reason = none;
  updated_at = host.now;
}

unfoldable pub touched_row : Host → WorkflowExecutionTable → WorkflowExecutionTable
touched_row host e = record e { updated_at = host.now }

unfoldable pub completed_row : Host → WorkflowExecutionTable → WorkflowExecutionTable
completed_row host e = record e {
  status = WorkflowExecutionStatus.completed;
  completed_at = some host.now;
  updated_at = host.now;
}

unfoldable pub moved_row : Host → ℕ → WorkflowExecutionTable → WorkflowExecutionTable
moved_row host index e = record e { current_step_index = index; updated_at = host.now }

unfoldable pub completed_step : Host → WorkflowStepExecutionTable → WorkflowStepExecutionTable
completed_step host p = record p {
  status = WorkflowStepStatus.completed;
  completed_at = some host.now;
}

unfoldable pub started_step : Host → WorkflowStepExecutionTable → WorkflowStepExecutionTable
started_step host p = record p { status = WorkflowStepStatus.running; started_at = some host.now }

unfoldable pub retried_step : Host → WorkflowStepExecutionTable → WorkflowStepExecutionTable
retried_step host p = record p {
  status = WorkflowStepStatus.running;
  error_message = none;
  retry_count = p.retry_count + 1;
  started_at = some host.now;
  completed_at = none;
}

unfoldable pub skipped_step : Host → WorkflowStepExecutionTable → WorkflowStepExecutionTable
skipped_step host p = record p { status = WorkflowStepStatus.skipped; completed_at = some host.now }

-- The last statements of a command, which returns the row that it has changed
unfoldable pub finish :
    Host
    → WorkflowExecutionTable
    → (WorkflowExecutionTable → WorkflowExecutionTable)
    → String
    → String
    → String
    → Action WorkflowExecutionTable
unfolding workflow_event
finish host execution f event_type actor_id detail =
    modify_execution execution.id f
    >> (workflow_event host execution event_type actor_id detail >> (commit >> pure (f execution)))

-- `if current_step: ...`
unfoldable pub if_step :
    Option WorkflowStepExecutionTable
    → (WorkflowStepExecutionTable → WorkflowStepExecutionTable)
    → Action Unit
if_step found f = match_row found (pure tt) (λ step. modify_step step.id f)

unfoldable pub advance_step : Host → String → String → Option String → Action WorkflowExecutionTable
unfolding load_execution if_step completed_step started_step completed_row moved_row finish decimal
    execution_status_eq
advance_step host id actor_id tenant_id = do
  execution ← load_execution host id tenant_id
  raise_if (not (execution_status_eq execution.status WorkflowExecutionStatus.running))
      (value_error (cannot "advance" execution.status))
  current ← read (find_step id execution.current_step_index)
  if_step current (completed_step host)
  total ← read (λ d. length (steps_of id d.services.workflow_steps))
  next ← read (find_step id (execution.current_step_index + 1))
  if leb total (execution.current_step_index + 1)
      then finish host execution (completed_row host) "workflow.completed" actor_id
          "All steps completed"
      else if_step next (started_step host)
        >> finish host execution (moved_row host (execution.current_step_index + 1))
            "workflow.step_advanced" actor_id
            ("Advanced to step " <> decimal (execution.current_step_index + 1))

unfoldable pub pause_workflow :
    Host → String → String → String → Option String → Action WorkflowExecutionTable
unfolding load_execution paused_row finish execution_status_eq
pause_workflow host id reason actor_id tenant_id = do
  execution ← load_execution host id tenant_id
  raise_if (not (execution_status_eq execution.status WorkflowExecutionStatus.running))
      (value_error (cannot "pause" execution.status))
  finish host execution (paused_row host reason) "workflow.paused" actor_id
      (or_default reason "Paused by operator")

unfoldable pub resume_workflow :
    Host → String → String → Option String → Action WorkflowExecutionTable
unfolding load_execution resumed_row finish execution_status_eq
resume_workflow host id actor_id tenant_id = do
  execution ← load_execution host id tenant_id
  raise_if (not (execution_status_eq execution.status WorkflowExecutionStatus.paused))
      (value_error (cannot "resume" execution.status))
  finish host execution (resumed_row host) "workflow.resumed" actor_id "Workflow resumed"

unfoldable pub cancel_workflow :
    Host → String → String → String → Option String → Action WorkflowExecutionTable
unfolding load_execution canceled_row finish execution_status_eq
cancel_workflow host id reason actor_id tenant_id = do
  execution ← load_execution host id tenant_id
  raise_if
      (execution_status_eq execution.status WorkflowExecutionStatus.completed
        || execution_status_eq execution.status WorkflowExecutionStatus.canceled)
      (value_error (cannot "cancel" execution.status))
  finish host execution (canceled_row host reason) "workflow.canceled" actor_id
      (or_default reason "Workflow canceled")

unfoldable pub retry_step :
    Host → String → ℕ → String → Option String → Action WorkflowExecutionTable
unfolding load_execution retried_row retried_step finish decimal step_status_eq step_status_value
retry_step host id step_index actor_id tenant_id = do
  execution ← load_execution host id tenant_id
  found ← read (find_step id step_index)
  step ← required (value_error ("Step " <> decimal step_index <> " not found")) found
  raise_if (not (step_status_eq step.status WorkflowStepStatus.failed))
      (value_error ("Can only retry failed steps, step is " <> step_status_value step.status))
  modify_step step.id (retried_step host)
  finish host execution (retried_row host step_index) "workflow.step_retried" actor_id
      ("Retrying step " <> decimal step_index)

unfoldable pub skip_step :
    Host → String → ℕ → String → Option String → Action WorkflowExecutionTable
unfolding load_execution touched_row skipped_step finish decimal
skip_step host id step_index actor_id tenant_id = do
  execution ← load_execution host id tenant_id
  found ← read (find_step id step_index)
  step ← required (value_error ("Step " <> decimal step_index <> " not found")) found
  modify_step step.id (skipped_step host)
  finish host execution (touched_row host) "workflow.step_skipped" actor_id
      ("Skipped step " <> decimal step_index)
