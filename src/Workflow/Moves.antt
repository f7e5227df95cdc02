-- ===== src/Workflow/Moves.antt =====
-- The commands of the workflow engine as moves of one execution and its steps.
use rgp.Prelude.{
  ℕ, ◌+◌, ◌≤◌, ◌<◌, String, ◌≡◌, refl, sym, ap, ◌∙◌, Bool, true, false, not, ◌||◌, Option, none,
  some, length, first-holds, length-select-update, arith, leb, eq_iff, str_eq, first, ◌==◌, ◌&&◌,
}
use rgp.Db.{Db, WorkflowExecutionTable, WorkflowStepExecutionTable}
use rgp.Db.Workflows.{
  WorkflowExecutionStatus, WorkflowStepStatus, execution_status_eq, step_status_eq,
}
use rgp.Session.{Host, Action, Session, required, raise_if, with_session, read, ◌>>=◌}
use rgp.Session.Contracts.{
  Ensures, Ensures-required, Ensures-raise_if, Ensures-read, Ensures-read_known, Ensures-weaken,
  Ensures-if, At,
}
use rgp.Session.Outcomes.{At-Unchanged, Outcome, Outcome-with_session, Unchanged}
use rgp.Workflow.{find_execution, find_step, steps_of, is_foreign}
use rgp.Workflow.Commands.{
  paused_row, resumed_row, canceled_row, retried_row, touched_row, completed_row, moved_row,
  completed_step, started_step, retried_step, skipped_step, finish, advance_step, pause_workflow,
  resume_workflow, cancel_workflow, retry_step, skip_step,
}
use rgp.Workflow.Contracts.{
  Steps, update_execution, update_step, update_found, HasFlow, Committed, Ensures-step,
  Ensures-if_step, Ensures-finish, At-HasFlow, Ensures-load_execution,
}

-- A command with its arguments
pub data Command : Type 0 where
  advancing resuming : Command
  pausing canceling : String → Command
  retrying skipping : ℕ → Command

unfoldable pub run_command :
    Host → Command → String → String → Option String → Action WorkflowExecutionTable
run_command host advancing id actor_id tenant = advance_step host id actor_id tenant
run_command host resuming id actor_id tenant = resume_workflow host id actor_id tenant
run_command host (pausing reason) id actor_id tenant = pause_workflow host id reason actor_id tenant
run_command host (canceling reason) id actor_id tenant =
    cancel_workflow host id reason actor_id tenant
run_command host (retrying index) id actor_id tenant = retry_step host id index actor_id tenant
run_command host (skipping index) id actor_id tenant = skip_step host id index actor_id tenant

-- the first step of an execution that has an index
abbrev pub step_in : String → ℕ → Steps → Option WorkflowStepExecutionTable
step_in id index ps = first (λ p. str_eq p.workflow_execution_id id && p.step_index == index) ps

-- The moves of the execution `row`: what becomes of the row, and of all steps.
pub data Move (host : Host) (row : WorkflowExecutionTable) (d : Db)
    : Command → (WorkflowExecutionTable → WorkflowExecutionTable) → Steps → Type 0 where
  pauses :
      (reason : String)
      → row.status ≡ WorkflowExecutionStatus.running
      → Move host row d (pausing reason) (paused_row host reason) d.services.workflow_steps
  resumes :
      row.status ≡ WorkflowExecutionStatus.paused
      → Move host row d resuming (resumed_row host) d.services.workflow_steps
  cancels :
      (reason : String)
      → (row.status ≡ WorkflowExecutionStatus.completed → ⊥)
      → (row.status ≡ WorkflowExecutionStatus.canceled → ⊥)
      → Move host row d (canceling reason) (canceled_row host reason) d.services.workflow_steps
  completes :
      row.status ≡ WorkflowExecutionStatus.running
      → length (steps_of row.id d.services.workflow_steps) ≤ row.current_step_index + 1
      → Move host row d advancing (completed_row host) (
          update_found
            (find_step row.id row.current_step_index d)
            (completed_step host)
            d.services.workflow_steps)
  advances :
      row.status ≡ WorkflowExecutionStatus.running
      → row.current_step_index + 1 < length (steps_of row.id d.services.workflow_steps)
      → Move host row d advancing (moved_row host (row.current_step_index + 1)) (
          update_found
            (step_in row.id (row.current_step_index + 1) (
              update_found
                (find_step row.id row.current_step_index d)
                (completed_step host)
                d.services.workflow_steps))
            (started_step host)
            (update_found
              (find_step row.id row.current_step_index d)
              (completed_step host)
              d.services.workflow_steps))
  retries :
      (index : ℕ) (step : WorkflowStepExecutionTable)
      → find_step row.id index d ≡ some step
      → step.status ≡ WorkflowStepStatus.failed
      → Move host row d
          (retrying index)
          (retried_row host index)
          (update_step step.id (retried_step host) d.services.workflow_steps)
  skips :
      (index : ℕ) (step : WorkflowStepExecutionTable)
      → find_step row.id index d ≡ some step
      → Move host row d
          (skipping index)
          (touched_row host)
          (update_step step.id (skipped_step host) d.services.workflow_steps)

-- The execution stood in the database and the tenant could access it. It has made a move of the command: its row is
-- changed and returned, the steps are those of the move, and no other execution has changed.
abbrev pub Moved :
    Host → Command → String → Option String → Db → WorkflowExecutionTable → Db → Type 0
Moved host c id tenant d a d' =
    (row : WorkflowExecutionTable) × (f : WorkflowExecutionTable → WorkflowExecutionTable)
    × (ps : Steps) × (find_execution id d ≡ some row)
    × (is_foreign host tenant row d ≡ false)
    × Move host row d c f ps
    × Committed (f row) (update_execution row.id f d.services.workflow_executions) ps a d'

pub find_execution-id :
    (id : String) (d : Db) (row : WorkflowExecutionTable)
    → find_execution id d ≡ some row
    → row.id ≡ id
find_execution-id id d row h =
    (eq_iff row.id id).0 (first-holds _ d.services.workflow_executions row h)

-- the running status, from the guard
guard-running :
    (s : WorkflowExecutionStatus)
    → not (execution_status_eq s WorkflowExecutionStatus.running) ≡ false
    → s ≡ WorkflowExecutionStatus.running
unfolding execution_status_eq
guard-running WorkflowExecutionStatus.running h = refl
guard-running _ h = cc h

guard-paused :
    (s : WorkflowExecutionStatus)
    → not (execution_status_eq s WorkflowExecutionStatus.paused) ≡ false
    → s ≡ WorkflowExecutionStatus.paused
unfolding execution_status_eq
guard-paused WorkflowExecutionStatus.paused h = refl
guard-paused _ h = cc h

guard-failed :
    (s : WorkflowStepStatus)
    → not (step_status_eq s WorkflowStepStatus.failed) ≡ false
    → s ≡ WorkflowStepStatus.failed
unfolding step_status_eq
guard-failed WorkflowStepStatus.failed h = refl
guard-failed _ h = cc h

guard-cancelable :
    (s : WorkflowExecutionStatus)
    → execution_status_eq s WorkflowExecutionStatus.completed
        || execution_status_eq s WorkflowExecutionStatus.canceled
      ≡ false
    → (s ≡ WorkflowExecutionStatus.completed → ⊥) × (s ≡ WorkflowExecutionStatus.canceled → ⊥)
unfolding execution_status_eq
guard-cancelable WorkflowExecutionStatus.completed h = cc h
guard-cancelable WorkflowExecutionStatus.canceled h = cc h
guard-cancelable _ h = (λ p. cc p, λ p. cc p)

module _ (host : Host) (id actor : String) (tenant : Option String) (d : Db)
    (row : WorkflowExecutionTable) (found : find_execution id d ≡ some row)
    (access : is_foreign host tenant row d ≡ false) where
  -- a move that is made is finished
  Ensures-Move :
      (c : Command) (f : WorkflowExecutionTable → WorkflowExecutionTable) (ps : Steps)
      (t detail : String)
      → Move host row d c f ps
      → Ensures
          (HasFlow d.services.workflow_executions ps d)
          (finish host row f t actor detail)
          (λ a s. Moved host c id tenant d a s.committed)
          (Unchanged d)
  Ensures-Move c f ps t detail m =
      Ensures-finish host row f t actor detail _ ps d (Moved host c id tenant d)
        (λ a d' done. (row, f, ps, found, access, m, done))

module _ (host : Host) (id actor : String) (tenant : Option String) (d : Db) where
  Ensures-guarded :
      (row : WorkflowExecutionTable) (c : Command) (b : Bool) (e : rgp.Session.Error)
      (f : WorkflowExecutionTable → WorkflowExecutionTable) (t detail : String)
      → find_execution id d ≡ some row
      → is_foreign host tenant row d ≡ false
      → (b ≡ false → Move host row d c f d.services.workflow_steps)
      → Ensures
          (At d)
          (raise_if b e >>= (λ _. finish host row f t actor detail))
          (λ a s. Moved host c id tenant d a s.committed)
          (Unchanged d)
  Ensures-guarded row c b e f t detail found access m =
      Ensures-raise_if b e _ (At-Unchanged d) (λ q.
        Ensures-weaken _ (At-HasFlow d)
          (Ensures-Move host id actor tenant d row found access c f _ t detail (m q)))

  -- a step that is found is changed, and the command finished
  Ensures-stepped :
      (row : WorkflowExecutionTable) (c : Command) (step : WorkflowStepExecutionTable)
      (g : WorkflowStepExecutionTable → WorkflowStepExecutionTable)
      (f : WorkflowExecutionTable → WorkflowExecutionTable) (t detail : String)
      → find_execution id d ≡ some row
      → is_foreign host tenant row d ≡ false
      → Move host row d c f (update_step step.id g d.services.workflow_steps)
      → Ensures
          (At d)
          (rgp.Workflow.modify_step step.id g >>= (λ _. finish host row f t actor detail))
          (λ a s. Moved host c id tenant d a s.committed)
          (Unchanged d)
  Ensures-stepped row c step g f t detail found access m = Ensures-weaken _ (At-HasFlow d) (
      Ensures-step step.id g _
        (Ensures-Move host id actor tenant d row found access c f _ t detail m))

  pausing-Ensures :
      (reason : String)
      → Ensures
          (At d)
          (pause_workflow host id reason actor tenant)
          (λ a s. Moved host (pausing reason) id tenant d a s.committed)
          (Unchanged d)
  unfolding pause_workflow
  pausing-Ensures reason = Ensures-load_execution host id tenant _ (λ row found access.
      Ensures-guarded row _ _ _ _ _ _ found access
        (λ q. Move.pauses reason (guard-running row.status q)))

  resuming-Ensures :
      Ensures
        (At d)
        (resume_workflow host id actor tenant)
        (λ a s. Moved host resuming id tenant d a s.committed)
        (Unchanged d)
  unfolding resume_workflow
  resuming-Ensures = Ensures-load_execution host id tenant _ (λ row found access.
      Ensures-guarded row _ _ _ _ _ _ found access (λ q. Move.resumes (guard-paused row.status q)))

  canceling-Ensures :
      (reason : String)
      → Ensures
          (At d)
          (cancel_workflow host id reason actor tenant)
          (λ a s. Moved host (canceling reason) id tenant d a s.committed)
          (Unchanged d)
  unfolding cancel_workflow
  canceling-Ensures reason = Ensures-load_execution host id tenant _ (λ row found access.
      Ensures-guarded row _ _ _ _ _ _ found access
        (λ q. let (p, p') = guard-cancelable row.status q in Move.cancels reason p p'))

  step_at :
      (row : WorkflowExecutionTable) (index : ℕ) (step : WorkflowStepExecutionTable)
      → find_execution id d ≡ some row
      → find_step id index d ≡ some step
      → find_step row.id index d ≡ some step
  step_at row index step found h =
      ap (λ x. find_step x index d) (find_execution-id id d row found) ∙ h

  retrying-Ensures :
      (index : ℕ)
      → Ensures
          (At d)
          (retry_step host id index actor tenant)
          (λ a s. Moved host (retrying index) id tenant d a s.committed)
          (Unchanged d)
  unfolding retry_step
  retrying-Ensures index = Ensures-load_execution host id tenant _ (λ row found access.
      Ensures-read (find_step id index) _ (
        Ensures-required _ _ _ (At-Unchanged d) (λ step at.
          Ensures-raise_if _ _ _ (At-Unchanged d) (λ q.
            Ensures-stepped row _ step _ _ _ _ found access (
              Move.retries index step (step_at row index step found at)
                (guard-failed step.status q))))))

  skipping-Ensures :
      (index : ℕ)
      → Ensures
          (At d)
          (skip_step host id index actor tenant)
          (λ a s. Moved host (skipping index) id tenant d a s.committed)
          (Unchanged d)
  unfolding skip_step
  skipping-Ensures index = Ensures-load_execution host id tenant _ (λ row found access.
      Ensures-read (find_step id index) _ (
        Ensures-required _ _ _ (At-Unchanged d) (λ step at.
          Ensures-stepped row _ step _ _ _ _ found access
            (Move.skips index step (step_at row index step found at)))))

-- marking a step does not change how many steps an execution has
pub length-steps_of-update_found :
    (host : Host) (id : String) (o : Option WorkflowStepExecutionTable) (ps : Steps)
    → length (steps_of id (update_found o (completed_step host) ps)) ≡ length (steps_of id ps)
unfolding completed_step
length-steps_of-update_found host id none ps = refl
length-steps_of-update_found host id (some p) ps =
    length-select-update (λ x. str_eq x.workflow_execution_id id) (λ x. str_eq x.id p.id)
      (completed_step host) ps (λ x. refl)

find_step-same :
    (id id' : String) (index : ℕ) (d d' : Db)
    → id ≡ id'
    → d ≡ d'
    → find_step id index d ≡ find_step id' index d'
find_step-same id id' index d d' p q = rw (p, q) refl

at_most : (a b : ℕ) → leb a b ≡ true → a ≤ b
at_most a b h = ground arith

above : (a b : ℕ) → leb a b ≡ false → b < a
above a b h = ground arith

module _ (host : Host) (id actor : String) (tenant : Option String) (d : Db) where
  advancing-Ensures :
      Ensures
        (At d)
        (advance_step host id actor tenant)
        (λ a s. Moved host advancing id tenant d a s.committed)
        (Unchanged d)
  unfolding advance_step
  advancing-Ensures = Ensures-load_execution host id tenant _ (λ row found access.
      Ensures-raise_if _ _ _ (At-Unchanged d) (λ q.
        let same = find_execution-id id d row found in
        let index = row.current_step_index in
        let done =
          update_found (find_step row.id index d) (completed_step host) d.services.workflow_steps in
        Ensures-read_known (find_step id index) (find_step row.id index d) _
          (λ s h. find_step-same id row.id index s.db d (sym same) h.current)
          (Ensures-weaken _ (At-HasFlow d) (
            Ensures-if_step _ _ _ (
              Ensures-read_known (λ x. length (steps_of id x.services.workflow_steps))
                (length (steps_of row.id d.services.workflow_steps)) _
                (λ s h.
                  ap (λ x. length (steps_of id x)) h.steps
                  ∙ (length-steps_of-update_found host id (find_step row.id index d)
                        d.services.workflow_steps
                      ∙ ap (λ x. length (steps_of x d.services.workflow_steps)) (sym same)))
                (Ensures-read_known (find_step id (index + 1)) (step_in row.id (index + 1) done) _
                  (λ s h.
                    ap (step_in id (index + 1)) h.steps
                    ∙ ap (λ x. step_in x (index + 1) done) (sym same))
                  (Ensures-if _ _ _
                    (λ t.
                      Ensures-Move host id actor tenant d row found access advancing _ done _ _
                        (Move.completes (guard-running row.status q) (at_most _ _ t)))
                    (λ t. Ensures-if_step (step_in row.id (index + 1) done) _ _ (
                      Ensures-Move host id actor tenant d row found access advancing _ _ _ _
                        (Move.advances (guard-running row.status q) (above _ _ t)))))))))))

pub run_command_contract :
    (host : Host) (c : Command) (id actor : String) (tenant : Option String) (d : Db)
    → Outcome (Moved host c id tenant d) d (with_session (run_command host c id actor tenant) d)
unfolding run_command
run_command_contract host advancing id actor tenant d =
    Outcome-with_session _ d _ (advancing-Ensures host id actor tenant d)
run_command_contract host resuming id actor tenant d =
    Outcome-with_session _ d _ (resuming-Ensures host id actor tenant d)
run_command_contract host (pausing reason) id actor tenant d =
    Outcome-with_session _ d _ (pausing-Ensures host id actor tenant d reason)
run_command_contract host (canceling reason) id actor tenant d =
    Outcome-with_session _ d _ (canceling-Ensures host id actor tenant d reason)
run_command_contract host (retrying index) id actor tenant d =
    Outcome-with_session _ d _ (retrying-Ensures host id actor tenant d index)
run_command_contract host (skipping index) id actor tenant d =
    Outcome-with_session _ d _ (skipping-Ensures host id actor tenant d index)
