-- ===== src/Workflow/Termination.antt =====
-- Advancing an execution step by step completes it.
use rgp.Prelude.{
  ℕ, suc, ◌+◌, ◌≤◌, String, ◌≡◌, refl, sym, ap, ◌∙◌, false, Option, none, some, List, [], ◌∷◌,
  length, map, first, first-update-same, arith, ◌⊎◌, inl, inr, str_eq, leb,
}
use rgp.Db.{Db, Services, WorkflowExecutionTable, WorkflowStepExecutionTable}
use rgp.Db.Workflows.{WorkflowExecutionStatus, execution_status_eq}
use rgp.Session.{
  Host, Session, Action, Result, ok, err, read, required, raise_if, write_services, match_row,
  commit, pure, with_session, ◌>>=◌, ◌>>◌,
}
use rgp.Session.Contracts.{
  Holds, Ensures, Ensures-read_known, Ensures-read_any, Ensures-assoc, Ensures-pure, Ensures-some,
  Ensures-passed, Ensures-if, Ensures-weaken,
}
use rgp.Events.{NewEvent, append, event_row}
use rgp.Events.Outbox.{NumberedFrom, NumberedFrom-append, append_lem}
use rgp.Session.Outcomes.{Outcome}
use rgp.Workflow.{find_execution, steps_of, load_execution, is_foreign, workflow_event}
use rgp.Workflow.Commands.{advance_step, finish, if_step, completed_row, moved_row}
use rgp.Workflow.Contracts.{Steps}
use rgp.Workflow.Moves.{
  Move, Moved, advancing, run_command, run_command_contract, find_execution-id,
}
use rgp.Workflow.Sequences.{Operation, commanding, perform, perform_all}
use rgp.Workflow.Bounds.{Move-Kept}
use rgp.Workflow.Final.{HasStatus, Move-id, perform_all-HasStatus}

-- The keys of the stored events count up from 1.
abbrev pub IsNumbered : Db → Type 0
IsNumbered d = NumberedFrom 1 d.events.event_store

-- An action that never raises, and keeps the events numbered
abbrev Returns : {A : Type 0} → (Session → Type 0) → Action A → Type 0
Returns P m = Ensures P m (λ _ s. IsNumbered s.committed) (λ _. ⊥)

abbrev Open : Session → Type 0
Open s = IsNumbered s.db

module _ {B : Type 0} where
  Returns-services :
      (f : Services → Services) (n : Action B)
      → Returns Open n
      → Returns Open (write_services f >> n)
  unfolding ◌>>=◌ write_services
  Returns-services f n k = record { holds = λ s h. k.holds _ h }

  Returns-append :
      (host : Host) (e : NewEvent) (n : Action B)
      → Returns Open n
      → Returns Open (append host e >> n)
  unfolding ◌>>=◌ event_row
  Returns-append host e n k = record {
    holds = λ s h.
        rw (append_lem host e s h)
          (k.holds _ (NumberedFrom-append 1 s.db.events.event_store _ h (omega arith)));
  }

  Returns-if_step :
      (o : Option WorkflowStepExecutionTable)
      (f : WorkflowStepExecutionTable → WorkflowStepExecutionTable) (n : Action B)
      → Returns Open n
      → Returns Open (if_step o f >> n)
  unfolding ◌>>=◌ if_step match_row pure write_services
  Returns-if_step none f n k = record { holds = λ s h. k.holds s h }
  Returns-if_step (some p) f n k = record { holds = λ s h. k.holds _ h }

Returns-commit : {A : Type 0} (a : A) → Returns Open (commit >> pure a)
unfolding ◌>>=◌ commit pure
Returns-commit a = record { holds = λ s h. h }

Returns-finish :
    (host : Host) (e : WorkflowExecutionTable) (f : WorkflowExecutionTable → WorkflowExecutionTable)
    (t a r : String)
    → Returns Open (finish host e f t a r)
unfolding finish workflow_event
Returns-finish host e f t a r =
    Returns-services _ _ (Returns-append host _ _ (Returns-commit (f e)))

-- The session has read d, whose events are numbered.
abbrev Fresh : Db → Session → Type 0
Fresh d s = (s.db ≡ d) × IsNumbered s.db

advance_step-Returns :
    (host : Host) (id actor : String) (d : Db) (row : WorkflowExecutionTable)
    → find_execution id d ≡ some row
    → row.status ≡ WorkflowExecutionStatus.running
    → Returns (Fresh d) (advance_step host id actor none)
unfolding advance_step load_execution is_foreign execution_status_eq
advance_step-Returns host id actor d row found running =
    Ensures-assoc (read (find_execution id)) _ _ (
      Ensures-read_known (find_execution id) (some row) _
        (λ s h. ap (find_execution id) h.0 ∙ found)
        (Ensures-assoc (required _ (some row)) _ _ (
          Ensures-some _ row _ (
            Ensures-assoc (read (is_foreign host none row)) _ _ (
              Ensures-read_known (is_foreign host none row) false _ (λ s h. refl)
                (Ensures-assoc (raise_if false _) _ _ (
                  Ensures-passed false _ _ refl (
                    Ensures-pure row _ (
                      Ensures-passed _ _ _ (rw running refl) (
                        Ensures-read_any _ _ (λ current.
                          Ensures-weaken _ (λ s h. h.1)
                            (Returns-if_step current _ _ (
                              Ensures-read_any _ _ (λ total. Ensures-read_any _ _ (λ next.
                                Ensures-if (leb total (row.current_step_index + 1)) _ _
                                  (λ t. Returns-finish host row _ _ _ _)
                                  (λ t.
                                    Returns-if_step next _ _
                                      (Returns-finish host row _ _ _ _)))))))))))))))))

-- An operation that has returned, with its events numbered
abbrev Ended : {A : Type 0} → Result A × Db → Type 0
Ended (ok a, d') = IsNumbered d'
Ended (err e, d') = ⊥

Ended-Holds :
    {A : Type 0} (r : Result A) (s : Session)
    → Holds (λ _ s. IsNumbered s.committed) (λ _. ⊥) (r, s)
    → Ended (r, s.committed)
Ended-Holds (ok a) s h = h
Ended-Holds (err e) s h = h

Ended-with_session :
    {A : Type 0} (m : Action A) (d : Db)
    → IsNumbered d
    → Ensures (Fresh d) m (λ _ s. IsNumbered s.committed) (λ _. ⊥)
    → Ended (with_session m d)
unfolding with_session
Ended-with_session m d n k =
    let s : Session = record { db = d; committed = d; draws = 0; threads = []; objects = [] } in
    Ended-Holds (m s).0 (m s).1 (k.holds s (refl, n))

Ended-Outcome :
    {A : Type 0} (Q : A → Db → Type 0) (P : Db → Type 0) (d : Db) (r : Result A × Db)
    → Ended r
    → Outcome Q d r
    → ((a : A) (d' : Db) → Q a d' → P d')
    → IsNumbered r.1 × P r.1
Ended-Outcome Q P d (ok a, d') n q k = (n, k a d' q)
Ended-Outcome Q P d (err e, d') n q k = absurd n

-- The execution runs, and the steps behind the current one are no more than k.
record Live (id : String) (k : ℕ) (d : Db) : Type 0 where
  row : WorkflowExecutionTable
  found : find_execution id d ≡ some row
  running : row.status ≡ WorkflowExecutionStatus.running
  remaining : length (steps_of id d.services.workflow_steps) ≤ row.current_step_index + k

some-injective : (x y : WorkflowExecutionTable) → some x ≡ some y → x ≡ y
some-injective x y h = cc h

-- What one more step does: the execution is completed, or stands at a later step that it has.
Move-Live :
    (host : Host) (id : String) (k : ℕ) (d d' : Db) (row : WorkflowExecutionTable)
    (f : WorkflowExecutionTable → WorkflowExecutionTable) (ps : Steps)
    → Move host row d advancing f ps
    → row.id ≡ id
    → length (steps_of id d.services.workflow_steps) ≤ row.current_step_index + suc k
    → row.status ≡ WorkflowExecutionStatus.running
    → d'.services.workflow_steps ≡ ps
    → find_execution id d' ≡ some (f row)
    → HasStatus id WorkflowExecutionStatus.completed d' ⊎ ((1 ≤ k) × Live id k d')
unfolding completed_row moved_row
Move-Live host id k d d' row f ps (Move.completes h q) same below running steps at =
    inl (f row, at, refl)
Move-Live host id k d d' row f ps (Move.advances h q) same below running steps at =
    let kept = Move-Kept host row d advancing f ps (Move.advances h q) in
    let n = ap (λ x. length (steps_of x d.services.workflow_steps)) same in
    let m = ap (λ x. length (steps_of id x)) steps in
    inr (
      omega (arith, below, q, n),
      record {
        row = f row;
        found = at;
        running = running;
        remaining = omega (arith, below, q, n, m, kept.same_counts id);
      },
    )

Moved-Live :
    (host : Host) (id : String) (k : ℕ) (d d' : Db) (a : WorkflowExecutionTable)
    → Live id (suc k) d
    → Moved host advancing id none d a d'
    → HasStatus id WorkflowExecutionStatus.completed d' ⊎ ((1 ≤ k) × Live id k d')
Moved-Live host id k d d' a live (row, f, ps, at, access, m, c) =
    let same = find_execution-id id d row at in
    let same_row = some-injective live.row row (sym live.found ∙ at) in
    let there =
      first-update-same (λ (x : WorkflowExecutionTable). x.id) id row.id f
        d.services.workflow_executions row (Move-id host row d advancing f ps m) at same in
    Move-Live host id k d d' row f ps m same
      (omega
        (arith, live.remaining, ap (λ (x : WorkflowExecutionTable). x.current_step_index) same_row))
      (sym (ap (λ (x : WorkflowExecutionTable). x.status) same_row) ∙ live.running) c.steps
      (ap (λ es. first (λ (x : WorkflowExecutionTable). str_eq x.id id) es) c.executions ∙ there)

-- an advance of a live execution returns and keeps the events numbered
advanced :
    (host : Host) (id actor : String) (k : ℕ) (d : Db)
    → IsNumbered d
    → Live id (suc k) d
    → (let d' = perform host (commanding advancing id actor none) d in
        IsNumbered d'
        × (HasStatus id WorkflowExecutionStatus.completed d' ⊎ ((1 ≤ k) × Live id k d')))
unfolding perform run_command
advanced host id actor k d n live =
    Ended-Outcome (Moved host advancing id none d)
      (λ d'. HasStatus id WorkflowExecutionStatus.completed d' ⊎ ((1 ≤ k) × Live id k d')) d _
      (Ended-with_session (advance_step host id actor none) d n
        (advance_step-Returns host id actor d live.row live.found live.running))
      (run_command_contract host advancing id actor none d)
      (λ a d' q. Moved-Live host id k d d' a live q)

-- One advance for each host, by one actor
abbrev pub advance_each : String → String → List Host → List (Host × Operation)
advance_each id actor hosts = map (λ host. (host, commanding advancing id actor none)) hosts

advance_each-Live :
    (host : Host) (hosts : List Host) (id actor : String) (d : Db)
    → IsNumbered d
    → Live id (suc (length hosts)) d
    → HasStatus id WorkflowExecutionStatus.completed
        (perform_all (advance_each id actor (host ∷ hosts)) d)
unfolding perform_all
advance_each-Live host [] id actor d n live =
    let (n', r) = advanced host id actor 0 d n live in
    elim r [ inl done ↦ done | inr (more, _) ↦ absurd (omega (arith, more)) ]
advance_each-Live host (next ∷ hosts) id actor d n live =
    let (n', r) = advanced host id actor (suc (length hosts)) d n live in
    let d' = perform host (commanding advancing id actor none) d in
    elim r [
      | inl done ↦
          perform_all-HasStatus id WorkflowExecutionStatus.completed (inl refl)
            (advance_each id actor (next ∷ hosts)) d' done
      | inr (more, later) ↦ advance_each-Live next hosts id actor d' n' later
    ]

-- A running execution is completed by advancing it at least once, and at least once for each step
-- from its current one on; the events that are stored so far are numbered from 1.
pub advance_each-completed :
    (host : Host) (hosts : List Host) (id actor : String) (d : Db) (row : WorkflowExecutionTable)
    → IsNumbered d
    → find_execution id d ≡ some row
    → row.status ≡ WorkflowExecutionStatus.running
    → length (steps_of id d.services.workflow_steps) ≤ row.current_step_index + suc (length hosts)
    → HasStatus id WorkflowExecutionStatus.completed
        (perform_all (advance_each id actor (host ∷ hosts)) d)
advance_each-completed host hosts id actor d row n found running below =
    advance_each-Live host hosts id actor d n
      (record { row = row; found = found; running = running; remaining = below })
