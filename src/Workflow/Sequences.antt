-- ===== src/Workflow/Sequences.antt =====
-- Sequences of the engine's operations, by any actors and tenants, whether each returns or raises.
use rgp.Prelude.{String, ◌≡◌, refl, ap, Option, some, List, [], ◌∷◌, ◌++◌}
use rgp.Db.{Db, RequestTable, WorkflowExecutionTable}
use rgp.Session.{Host, Session, Action, write_services, commit, pure, with_session, ◌>>=◌, ◌>>◌}
use rgp.Session.Contracts.{
  Ensures, Ensures-Preserves, Ensures-bind, Ensures-required, Ensures-read, At,
}
use rgp.Bridge.{get_request_state}
use rgp.Session.Outcomes.{At-Unchanged, Ensures-next_id, Outcome, Outcome-with_session, Unchanged}
use rgp.Workflow.{definition_steps, execution_row, step_rows, start_workflow, workflow_event}
use rgp.Workflow.Contracts.{Executions, Steps, HasFlow, HasFlow-workflow_event, Committed}
use rgp.Workflow.Moves.{Command, run_command}

-- The rows that start_workflow adds for a visible request
abbrev pub Started :
    Host → String → String → String → Option String → Db → WorkflowExecutionTable → Db → Type 0
Started host run_id request_id tenant definition d a d' =
    (id : String) × (request : RequestTable) × (get_request_state host request_id (some tenant) d
      ≡ some request)
    × (let row = execution_row host id run_id request_id request definition in
        Committed row (d.services.workflow_executions ++ row ∷ [])
          (d.services.workflow_steps ++ step_rows id 0 (definition_steps definition d)) a d')

module _ {B : Type 0} {d : Db} {Q : B → Session → Type 0} {E : Session → Type 0} where
  Ensures-add :
      (e : WorkflowExecutionTable) (new : Steps) (n : Action B)
      → Ensures
          (HasFlow (d.services.workflow_executions ++ e ∷ []) (d.services.workflow_steps ++ new) d)
          n
          Q
          E
      → Ensures
          (At d)
          (write_services (λ t. record t { workflow_executions = t.workflow_executions ++ e ∷ [] })
            >>= (λ _.
                write_services (λ t. record t { workflow_steps = t.workflow_steps ++ new })
                >>= (λ _. n)))
          Q
          E
  unfolding ◌>>=◌ write_services
  Ensures-add e new n k = record {
    holds = λ s h. k.holds _ (record {
      executions = ap (λ (x : Db). x.services.workflow_executions ++ e ∷ []) h.current;
      steps = ap (λ (x : Db). x.services.workflow_steps ++ new) h.current;
      saved = h.saved;
    });
  }

-- the last statements of start_workflow
Ensures-end :
    (host : Host) (row : WorkflowExecutionTable) (t a r : String) (es : Executions) (ps : Steps)
    (d : Db) (Q : WorkflowExecutionTable → Db → Type 0)
    → ((d' : Db) → Committed row es ps row d' → Q row d')
    → Ensures
        (HasFlow es ps d)
        (workflow_event host row t a r >> (commit >> pure row))
        (λ b s. Q b s.committed)
        (Unchanged d)
unfolding commit ◌>>=◌ pure
Ensures-end host row t a r es ps d Q k =
    Ensures-bind (workflow_event host row t a r) _
      (Ensures-Preserves _ (HasFlow-workflow_event host es ps d row t a r) (λ s h. h.saved))
      (λ _. record {
        holds = λ s h. k _ (record { returned = refl; executions = h.executions; steps = h.steps });
      })

-- start_workflow adds the rows that it builds, or it raises and changes nothing.
pub start_workflow-Started :
    (host : Host) (run_id request_id tenant : String) (definition : Option String) (actor : String)
    (d : Db)
    → Outcome
        (Started host run_id request_id tenant definition d)
        d
        (with_session (start_workflow host run_id request_id tenant definition actor) d)
unfolding start_workflow
start_workflow-Started host run_id request_id tenant definition actor d =
    Outcome-with_session (Started host run_id request_id tenant definition d) d _ (
      Ensures-next_id host "wfe_" _ (λ id.
        Ensures-read (get_request_state host request_id (some tenant)) _ (
          Ensures-required _ _ _ (At-Unchanged d) (λ request p.
            Ensures-read (definition_steps definition) _ (
              let row = execution_row host id run_id request_id request definition in
              let new = step_rows id 0 (definition_steps definition d) in
              Ensures-add row new _
                (Ensures-end host row _ _ _ _ _ d _ (λ d' c. (id, request, p, c))))))))

-- An operation with its arguments: the run, the request, the tenant, the definition and the actor;
-- or the command, the execution, the actor and the tenant.
pub data Operation : Type 0 where
  starting : String → String → String → Option String → String → Operation
  commanding : Command → String → String → Option String → Operation

-- The database after an operation
unfoldable pub perform : Host → Operation → Db → Db
perform host (starting run_id request_id tenant definition actor) d =
    (with_session (start_workflow host run_id request_id tenant definition actor) d).1
perform host (commanding c id actor tenant) d =
    (with_session (run_command host c id actor tenant) d).1

-- Each operation has its own host: its instant and its identifiers
unfoldable pub perform_all : List (Host × Operation) → Db → Db
unfolding perform
perform_all [] d = d
perform_all ((host, op) ∷ ops) d = perform_all ops (perform host op d)
