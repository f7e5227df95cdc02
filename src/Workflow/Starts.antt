-- ===== src/Workflow/Starts.antt =====
-- What a started workflow looks like: its execution and its steps.
use rgp.Prelude.{ℕ, suc, String, ◌<>◌, ◌≡◌, refl, Option, none, some, List, [], ◌∷◌, ◌++◌}
use rgp.Json.{Entries, none_value, string, get_default}
use rgp.Text.{decimal}
use rgp.Db.{Db, RequestTable, WorkflowExecutionTable, WorkflowStepExecutionTable}
use rgp.Db.Workflows.{WorkflowExecutionStatus, WorkflowStepStatus}
use rgp.Session.{Host, Result, ok, err, with_session}
use rgp.Session.Outcomes.{Outcome}
use rgp.Bridge.{get_request_state}
use rgp.Workflow.{definition_steps, execution_row, step_row, step_rows, start_workflow}
use rgp.Workflow.Contracts.{Steps, Committed}
use rgp.Workflow.Sequences.{Started, start_workflow-Started}

-- A running execution at its first step, of the run and of the request, whose tenant it has
pub record IsRunning (run_id request_id : String) (request : RequestTable)
    (definition : Option String) (e : WorkflowExecutionTable) : Type 0 where
  pub run : e.run_id ≡ run_id
  pub of_request : e.request_id ≡ request_id
  pub tenant : e.tenant_id ≡ request.tenant_id
  pub of_definition : e.workflow_definition_id ≡ definition
  pub status : e.status ≡ WorkflowExecutionStatus.running
  pub first_step : e.current_step_index ≡ 0
  pub retries : e.retry_count ≡ 0
  pub not_paused : e.paused_at ≡ none
  pub not_completed : e.completed_at ≡ none

-- A pending step of the execution, with its index and the configuration of its definition
pub record IsPending (id : String) (index : ℕ) (definition : Entries)
    (p : WorkflowStepExecutionTable) : Type 0 where
  pub of_execution : p.workflow_execution_id ≡ id
  pub place : p.step_index ≡ index
  pub key : p.id ≡ id <> "_s" <> decimal index
  pub name : p.step_name ≡ get_default "name" (string ("step_" <> decimal index)) definition
  pub input : p.input_payload ≡ get_default "config" none_value definition
  pub status : p.status ≡ WorkflowStepStatus.pending
  pub not_started : p.started_at ≡ none
  pub not_completed : p.completed_at ≡ none

-- A pending step for each definition, with the indices from k on
pub data ArePending (id : String) : ℕ → List Entries → Steps → Type 0 where
  no_steps : {k : ℕ} → ArePending id k [] []
  one_more :
      {k : ℕ} {definition : Entries} {definitions : List Entries} {p : WorkflowStepExecutionTable}
      {ps : Steps}
      → IsPending id k definition p
      → ArePending id (suc k) definitions ps
      → ArePending id k (definition ∷ definitions) (p ∷ ps)

step_rows-ArePending :
    (id : String) (k : ℕ) (definitions : List Entries)
    → ArePending id k definitions (step_rows id k definitions)
unfolding step_rows step_row
step_rows-ArePending id k [] = ArePending.no_steps
step_rows-ArePending id k (x ∷ xs) =
    ArePending.one_more
      (record {
        of_execution = refl;
        place = refl;
        key = refl;
        name = refl;
        input = refl;
        status = refl;
        not_started = refl;
        not_completed = refl;
      })
      (step_rows-ArePending id (suc k) xs)

execution_row-IsRunning :
    (host : Host) (id run_id request_id : String) (request : RequestTable)
    (definition : Option String)
    → IsRunning run_id request_id request definition
        (execution_row host id run_id request_id request definition)
unfolding execution_row
execution_row-IsRunning host id run_id request_id request definition = record {
  run = refl;
  of_request = refl;
  tenant = refl;
  of_definition = refl;
  status = refl;
  first_step = refl;
  retries = refl;
  not_paused = refl;
  not_completed = refl;
}

-- The tenant can see the request; a running execution and its pending steps are added to the
-- database, and the execution is returned.
abbrev pub IsStarted :
    Host → String → String → String → Option String → Db → WorkflowExecutionTable → Db → Type 0
IsStarted host run_id request_id tenant definition d a d' =
    (request : RequestTable) × (e : WorkflowExecutionTable) × (new : Steps) × (get_request_state
        host request_id (some tenant) d
      ≡ some request)
    × IsRunning run_id request_id request definition e
    × ArePending e.id 0 (definition_steps definition d) new
    × Committed e (d.services.workflow_executions ++ e ∷ []) (d.services.workflow_steps ++ new) a d'

Started-IsStarted :
    (host : Host) (run_id request_id tenant : String) (definition : Option String) (d : Db)
    (r : Result WorkflowExecutionTable × Db)
    → Outcome (Started host run_id request_id tenant definition d) d r
    → Outcome (IsStarted host run_id request_id tenant definition d) d r
unfolding execution_row
Started-IsStarted host run_id request_id tenant definition d (err e, d') h = h
Started-IsStarted host run_id request_id tenant definition d (ok a, d') (id, request, found, c) = (
  request,
  execution_row host id run_id request_id request definition,
  step_rows id 0 (definition_steps definition d),
  found,
  execution_row-IsRunning host id run_id request_id request definition,
  step_rows-ArePending id 0 (definition_steps definition d),
  c,
)

-- If starting a workflow returns, the tenant can see the request; one execution is added and
-- returned, running at its first step, of the run, the request, the request's tenant and the
-- definition, and after the stored steps one pending step of it for each step of the definition, in
-- their order, with the index, the name and the configuration of each; the other executions and
-- steps are as they were. If it raises, the database is unchanged.
pub start_workflow_contract :
    (host : Host) (run_id request_id tenant : String) (definition : Option String) (actor : String)
    (d : Db)
    → Outcome
        (IsStarted host run_id request_id tenant definition d)
        d
        (with_session (start_workflow host run_id request_id tenant definition actor) d)
start_workflow_contract host run_id request_id tenant definition actor d =
    Started-IsStarted host run_id request_id tenant definition d _
      (start_workflow-Started host run_id request_id tenant definition actor d)
