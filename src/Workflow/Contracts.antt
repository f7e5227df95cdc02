-- ===== src/Workflow/Contracts.antt =====
-- What the actions of the workflow engine do to the executions and the steps of the open transaction.
use rgp.Prelude.{String, ◌≡◌, refl, ap, false, Option, none, some, List, update, str_eq}
use rgp.Db.{Db, EventLog, WorkflowExecutionTable, WorkflowStepExecutionTable}
use rgp.Session.{
  Host, Session, Action, Error, Result, ok, err, value_error, stop_iteration, read, required,
  raise_if, write_events, match_row, commit, pure, with_session, ◌>>=◌, ◌>>◌,
}
use rgp.Session.Preserves.{Preserves, preserves_rules}
use rgp.Session.Contracts.{
  Ensures, Ensures-Preserves, Ensures-bind, Ensures-required, Ensures-raise_if, At, Ensures-read,
  Ensures-assoc, Ensures-pure,
}
use rgp.Events.{append, enqueue}
use rgp.Session.Outcomes.{At-Unchanged, Unchanged}
use rgp.Workflow.{
  modify_execution, modify_step, find_execution, is_foreign, load_execution, workflow_event,
}
use rgp.Workflow.Commands.{finish, if_step}

abbrev pub Executions : Type 0
Executions = List WorkflowExecutionTable

abbrev pub Steps : Type 0
Steps = List WorkflowStepExecutionTable

abbrev pub update_execution :
    String → (WorkflowExecutionTable → WorkflowExecutionTable) → Executions → Executions
update_execution id f es = update (λ e. str_eq e.id id) f es

abbrev pub update_step :
    String → (WorkflowStepExecutionTable → WorkflowStepExecutionTable) → Steps → Steps
update_step id f ps = update (λ p. str_eq p.id id) f ps

-- `if current_step: ...`, as it changes the steps
abbrev pub update_found :
    Option WorkflowStepExecutionTable
    → (WorkflowStepExecutionTable → WorkflowStepExecutionTable)
    → Steps
    → Steps
update_found none f ps = ps
update_found (some p) f ps = update_step p.id f ps

-- The open transaction has these executions and steps, and nothing of it is committed.
pub record HasFlow (es : Executions) (ps : Steps) (d : Db) (s : Session) : Type 0 where
  pub executions : s.db.services.workflow_executions ≡ es
  pub steps : s.db.services.workflow_steps ≡ ps
  pub saved : s.committed ≡ d

-- What a command returns, and the executions and steps that it commits
pub record Committed (r : WorkflowExecutionTable) (es : Executions) (ps : Steps)
    (a : WorkflowExecutionTable) (d' : Db) : Type 0 where
  pub returned : a ≡ r
  pub executions : d'.services.workflow_executions ≡ es
  pub steps : d'.services.workflow_steps ≡ ps

module _ (host : Host) (es : Executions) (ps : Steps) (d : Db) where
  HasFlow-events : (f : EventLog → EventLog) → Preserves (HasFlow es ps d) (write_events f)
  unfolding write_events
  HasFlow-events f = record {
    after = λ s k. record { executions = k.executions; steps = k.steps; saved = k.saved };
  }

  pub HasFlow-workflow_event :
      (e : WorkflowExecutionTable) (t a r : String)
      → Preserves (HasFlow es ps d) (workflow_event host e t a r)
  unfolding workflow_event append enqueue
  HasFlow-workflow_event e t a r = search (preserves_rules, HasFlow-events) depth 24

module _ {B : Type 0} {es : Executions} {ps : Steps} {d : Db} {Q : B → Session → Type 0}
    {E : Session → Type 0} where
  pub Ensures-execution :
      (id : String) (f : WorkflowExecutionTable → WorkflowExecutionTable) (n : Action B)
      → Ensures (HasFlow (update_execution id f es) ps d) n Q E
      → Ensures (HasFlow es ps d) (modify_execution id f >>= (λ _. n)) Q E
  unfolding ◌>>=◌ rgp.Session.write_services
  Ensures-execution id f n k = record {
    holds = λ s h. k.holds _ (record {
      executions = ap (update_execution id f) h.executions;
      steps = h.steps;
      saved = h.saved;
    });
  }

  pub Ensures-step :
      (id : String) (f : WorkflowStepExecutionTable → WorkflowStepExecutionTable) (n : Action B)
      → Ensures (HasFlow es (update_step id f ps) d) n Q E
      → Ensures (HasFlow es ps d) (modify_step id f >>= (λ _. n)) Q E
  unfolding ◌>>=◌ rgp.Session.write_services
  Ensures-step id f n k = record {
    holds = λ s h. k.holds _ (record {
      executions = h.executions;
      steps = ap (update_step id f) h.steps;
      saved = h.saved;
    });
  }

module _ {B : Type 0} {es : Executions} {ps : Steps} {d : Db} {Q : B → Session → Type 0}
    {E : Session → Type 0} where
  pub Ensures-if_step :
      (o : Option WorkflowStepExecutionTable)
      (f : WorkflowStepExecutionTable → WorkflowStepExecutionTable) (n : Action B)
      → Ensures (HasFlow es (update_found o f ps) d) n Q E
      → Ensures (HasFlow es ps d) (if_step o f >>= (λ _. n)) Q E
  unfolding ◌>>=◌ if_step match_row pure rgp.Session.write_services
  Ensures-if_step none f n k = record { holds = λ s h. k.holds s h }
  Ensures-if_step (some p) f n k = record { holds = λ s h. (Ensures-step p.id f n k).holds s h }

-- The end of a command: the row is changed, the event recorded, and all is committed.
pub Ensures-finish :
    (host : Host) (e : WorkflowExecutionTable) (f : WorkflowExecutionTable → WorkflowExecutionTable)
    (t a r : String) (es : Executions) (ps : Steps) (d : Db)
    (Q : WorkflowExecutionTable → Db → Type 0)
    → ((b : WorkflowExecutionTable) (d' : Db)
        → Committed (f e) (update_execution e.id f es) ps b d'
        → Q b d')
    → Ensures (HasFlow es ps d) (finish host e f t a r) (λ b s. Q b s.committed) (Unchanged d)
unfolding finish commit ◌>>=◌ pure
Ensures-finish host e f t a r es ps d Q k =
    let es' = update_execution e.id f es in
    Ensures-execution e.id f _ (
      Ensures-bind (workflow_event host e t a r) _
        (Ensures-Preserves _ (HasFlow-workflow_event host es' ps d e t a r) (λ s h. h.saved))
        (λ _. record {
          holds =
              λ s h. k _ _ (record { returned = refl; executions = h.executions; steps = h.steps });
        }))

pub At-HasFlow :
    (d : Db) (s : Session)
    → At d s
    → HasFlow d.services.workflow_executions d.services.workflow_steps d s
At-HasFlow d s h = record {
  executions = ap (λ (x : Db). x.services.workflow_executions) h.current;
  steps = ap (λ (x : Db). x.services.workflow_steps) h.current;
  saved = h.saved;
}

module _ {B : Type 0} {d : Db} {Q : B → Session → Type 0} where
  -- the execution is found, and the tenant may access it
  pub Ensures-load_execution :
      (host : Host) (id : String) (tenant : Option String) (f : WorkflowExecutionTable → Action B)
      → ((row : WorkflowExecutionTable)
          → find_execution id d ≡ some row
          → is_foreign host tenant row d ≡ false
          → Ensures (At d) (f row) Q (Unchanged d))
      → Ensures (At d) (load_execution host id tenant >>= f) Q (Unchanged d)
  unfolding load_execution
  Ensures-load_execution host id tenant f k = Ensures-assoc (read (find_execution id)) _ f (
      Ensures-read (find_execution id) _ (
        Ensures-assoc (required _ (find_execution id d)) _ f (
          Ensures-required _ _ _ (At-Unchanged d) (λ row p.
            Ensures-assoc (read (is_foreign host tenant row)) _ f (
              Ensures-read (is_foreign host tenant row) _ (
                Ensures-assoc (raise_if (is_foreign host tenant row d) (stop_iteration id)) _ f (
                  Ensures-raise_if _ _ _ (At-Unchanged d)
                    (λ q. Ensures-pure row f (k row p q)))))))))
