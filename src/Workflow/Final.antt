-- ===== src/Workflow/Final.antt =====
-- A completed or canceled execution stays so.
use rgp.Prelude.{
  String, ◌≡◌, refl, sym, ap, ◌∙◌, false, Option, some, List, [], ◌∷◌, first, first-update-same,
  first-update-other, first-append-found, Bool-cases, inl, inr, str_eq, eq_iff, ◌⊎◌,
}
use rgp.Db.{Db, WorkflowExecutionTable}
use rgp.Db.Workflows.{WorkflowExecutionStatus, execution_status_eq}
use rgp.Session.{Host}
use rgp.Session.Outcomes.{OutcomeOr}
use rgp.Workflow.{find_execution}
use rgp.Workflow.Commands.{
  paused_row, resumed_row, canceled_row, retried_row, touched_row, completed_row, moved_row,
}
use rgp.Workflow.Contracts.{Steps}
use rgp.Workflow.Moves.{Move, Moved, Command, run_command_contract, find_execution-id}
use rgp.Workflow.Sequences.{
  Started, Operation, starting, commanding, perform, perform_all, start_workflow-Started,
}

abbrev pub IsOver : WorkflowExecutionStatus → Type 0
IsOver s = (s ≡ WorkflowExecutionStatus.completed) ⊎ (s ≡ WorkflowExecutionStatus.canceled)

-- The execution is there, with this status.
abbrev pub HasStatus : String → WorkflowExecutionStatus → Db → Type 0
HasStatus id status d =
    (e : WorkflowExecutionTable) × (find_execution id d ≡ some e) × (e.status ≡ status)

pub Move-id :
    (host : Host) (row : WorkflowExecutionTable) (d : Db) (c : Command)
    (f : WorkflowExecutionTable → WorkflowExecutionTable) (ps : Steps)
    → Move host row d c f ps
    → (e : WorkflowExecutionTable) → (f e).id ≡ e.id
unfolding paused_row resumed_row canceled_row retried_row touched_row completed_row moved_row
Move-id host row d c f ps (Move.pauses reason h) e = refl
Move-id host row d c f ps (Move.resumes h) e = refl
Move-id host row d c f ps (Move.cancels reason h k) e = refl
Move-id host row d c f ps (Move.completes h k) e = refl
Move-id host row d c f ps (Move.advances h k) e = refl
Move-id host row d c f ps (Move.retries index step h k) e = refl
Move-id host row d c f ps (Move.skips index step h) e = refl

not-running : (s : WorkflowExecutionStatus) → IsOver s → s ≡ WorkflowExecutionStatus.running → ⊥
not-running s (inl h) k = cc (h, k)
not-running s (inr h) k = cc (h, k)

not-paused : (s : WorkflowExecutionStatus) → IsOver s → s ≡ WorkflowExecutionStatus.paused → ⊥
not-paused s (inl h) k = cc (h, k)
not-paused s (inr h) k = cc (h, k)

over-failed :
    (s : WorkflowExecutionStatus)
    → IsOver s
    → execution_status_eq s WorkflowExecutionStatus.failed ≡ false
unfolding execution_status_eq
over-failed s (inl h) = rw h refl
over-failed s (inr h) = rw h refl

-- no move changes the status of an execution that is over
Move-over :
    (host : Host) (row : WorkflowExecutionTable) (d : Db) (c : Command)
    (f : WorkflowExecutionTable → WorkflowExecutionTable) (ps : Steps)
    → Move host row d c f ps
    → IsOver row.status
    → (f row).status ≡ row.status
unfolding retried_row touched_row
Move-over host row d c f ps (Move.pauses reason h) over = absurd (not-running row.status over h)
Move-over host row d c f ps (Move.resumes h) over = absurd (not-paused row.status over h)
Move-over host row d c f ps (Move.cancels reason h k) (inl over) = absurd (h over)
Move-over host row d c f ps (Move.cancels reason h k) (inr over) = absurd (k over)
Move-over host row d c f ps (Move.completes h k) over = absurd (not-running row.status over h)
Move-over host row d c f ps (Move.advances h k) over = absurd (not-running row.status over h)
Move-over host row d c f ps (Move.retries index step h k) over =
    rw (over-failed row.status over) refl
Move-over host row d c f ps (Move.skips index step h) over = refl

some-injective : (x y : WorkflowExecutionTable) → some x ≡ some y → x ≡ y
some-injective x y h = cc h

module _ (id : String) (status : WorkflowExecutionStatus) (over : IsOver status) (d : Db) where
  status_stays :
      (row e : WorkflowExecutionTable) (f : WorkflowExecutionTable → WorkflowExecutionTable)
      → row ≡ e
      → e.status ≡ status
      → (IsOver row.status → (f row).status ≡ row.status)
      → (f e).status ≡ status
  status_stays row e f p same stays =
      let at : row.status ≡ status = ap (λ (x : WorkflowExecutionTable). x.status) p ∙ same in
      let q : (f row).status ≡ status = stays (rw at over) ∙ at in
      sym (ap (λ (x : WorkflowExecutionTable). (f x).status) p) ∙ q

  Moved-HasStatus :
      (host : Host) (c : Command) (j : String) (tenant : Option String) (d' : Db)
      (a : WorkflowExecutionTable)
      → HasStatus id status d
      → Moved host c j tenant d a d'
      → HasStatus id status d'
  Moved-HasStatus host c j tenant d' a (e, found, same) (row, f, ps, at, access, m, k) =
      let es = d.services.workflow_executions in
      let keeps = Move-id host row d c f ps m in
      let find : List WorkflowExecutionTable → Option WorkflowExecutionTable =
        first (λ x. str_eq x.id id) in
      elim (Bool-cases (str_eq row.id id)) [
        | inl p ↦
            let ids = (eq_iff row.id id).0 p in
            let same_id = sym (find_execution-id j d row at) ∙ ids in
            let same_row =
              some-injective row e (sym at ∙ (ap (λ x. find_execution x d) same_id ∙ found)) in
            (
              f e,
              ap find k.executions
                  ∙ first-update-same (λ (x : WorkflowExecutionTable). x.id) id row.id f es e keeps
                      found ids,
              status_stays row e f same_row same (Move-over host row d c f ps m),
            )
        | inr p ↦ (
          e,
          ap find k.executions
              ∙ (first-update-other (λ (x : WorkflowExecutionTable). x.id) id row.id f es keeps p
                  ∙ found),
          same,
        )
      ]

  Started-HasStatus :
      (host : Host) (run_id request_id tenant : String) (definition : Option String) (d' : Db)
      (a : WorkflowExecutionTable)
      → HasStatus id status d
      → Started host run_id request_id tenant definition d a d'
      → HasStatus id status d'
  Started-HasStatus host run_id request_id tenant definition d' a (e, found, same)
        (new, request, q, k) =
      (
        e,
        ap (λ es. first (λ (x : WorkflowExecutionTable). str_eq x.id id) es) k.executions
            ∙ first-append-found _ d.services.workflow_executions _ e found,
        same,
      )

pub perform-HasStatus :
    (id : String) (status : WorkflowExecutionStatus)
    → IsOver status
    → (host : Host) (op : Operation) (d : Db) → HasStatus id status d
    → HasStatus id status (perform host op d)
unfolding perform
perform-HasStatus id status over host (starting run_id request_id tenant definition actor) d w =
    OutcomeOr _ (HasStatus id status) d _
      (start_workflow-Started host run_id request_id tenant definition actor d) w
      (λ a d'. Started-HasStatus id status over d host run_id request_id tenant definition d' a w)
perform-HasStatus id status over host (commanding c j actor tenant) d w =
    OutcomeOr _ (HasStatus id status) d _ (run_command_contract host c j actor tenant d) w
      (λ a d'. Moved-HasStatus id status over d host c j tenant d' a w)

-- An execution that is completed or canceled keeps this status through every sequence of starts and
-- commands, retries among them, by any actors and tenants, whether each returns or raises.
pub perform_all-HasStatus :
    (id : String) (status : WorkflowExecutionStatus)
    → IsOver status
    → (ops : List (Host × Operation)) (d : Db) → HasStatus id status d
    → HasStatus id status (perform_all ops d)
unfolding perform_all
perform_all-HasStatus id status over [] d w = w
perform_all-HasStatus id status over ((host, op) ∷ ops) d w =
    perform_all-HasStatus id status over ops (perform host op d)
      (perform-HasStatus id status over host op d w)
