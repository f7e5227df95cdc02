-- ===== src/Workflow/Places.antt =====
-- Every execution stands at one of its steps, which are numbered in order.
use rgp.Prelude.{
  ℕ, suc, ◌+◌, String, ◌≡◌, refl, sym, ap, ◌∙◌, false, Option, none, some, List, [], ◌∷◌, ◌++◌, map,
  str_eq, if◌then◌else◌, Bool-cases, inl, inr, eq_iff, eq_refl,
}
use rgp.Json.{Entries}
use rgp.Db.{Db, WorkflowExecutionTable, WorkflowStepExecutionTable}
use rgp.Session.{Host, Result, ok, err, with_session}
use rgp.Session.Outcomes.{Outcome, OutcomeOr}
use rgp.Workflow.{
  steps_of, find_step, step_row, step_rows, execution_row, definition_steps, start_workflow,
}
use rgp.Workflow.Commands.{completed_step, started_step, retried_step, skipped_step}
use rgp.Workflow.Contracts.{Steps, update_step, update_found}
use rgp.Workflow.Moves.{step_in, Move, Moved, Command, run_command_contract}
use rgp.Workflow.Sequences.{
  Started, Operation, starting, commanding, perform, perform_all, start_workflow-Started,
}
use rgp.Workflow.Bounds.{IsBounded, KeepsKeys, perform-IsBounded}

-- the indices of the steps of an execution, in the order in which the steps are stored
abbrev pub indices : String → Steps → List ℕ
indices id ps = map (λ p. p.step_index) (steps_of id ps)

-- The numbers count up from k.
abbrev pub IsRange : ℕ → List ℕ → Type 0
IsRange k [] = Unit
IsRange k (i ∷ is) = (i ≡ k) × IsRange (suc k) is

-- The steps of every execution have the indices 0, 1 and so on, and the current step's index is below
-- their number: it is the index of one of them.
pub record IsPlaced (d : Db) : Type 0 where
  pub bounded : IsBounded d
  pub numbered : (id : String) → IsRange 0 (indices id d.services.workflow_steps)

-- The execution that is returned has an identifier of which no step is stored.
abbrev pub IsFresh : Db → Result WorkflowExecutionTable × Db → Type 0
IsFresh d (ok e, d') = indices e.id d.services.workflow_steps ≡ []
IsFresh d (err e, d') = Unit

-- Each start of the sequence draws a fresh identifier.
abbrev pub AreFresh : List (Host × Operation) → Db → Type 0
AreFresh [] d = Unit
AreFresh ((host, starting run_id request_id tenant definition actor) ∷ ops) d =
    IsFresh d (with_session (start_workflow host run_id request_id tenant definition actor) d)
    × AreFresh ops (perform host (starting run_id request_id tenant definition actor) d)
AreFresh ((host, commanding c id actor tenant) ∷ ops) d =
    AreFresh ops (perform host (commanding c id actor tenant) d)

indices-cons :
    (j : String) (p : WorkflowStepExecutionTable) (ps : Steps)
    → indices j (p ∷ ps)
      ≡ (if str_eq p.workflow_execution_id j then p.step_index ∷ indices j ps else indices j ps)
indices-cons j p ps = elim (Bool-cases (str_eq p.workflow_execution_id j)) [
  | inl e ↦ rw e refl
  | inr e ↦ rw e refl
]

indices-same :
    (j : String) (p q : WorkflowStepExecutionTable) (ps qs : Steps)
    → q.workflow_execution_id ≡ p.workflow_execution_id
    → q.step_index ≡ p.step_index
    → indices j qs ≡ indices j ps
    → indices j (q ∷ qs) ≡ indices j (p ∷ ps)
indices-same j p q ps qs a b c =
    indices-cons j q qs ∙ (rw (a, b, c) refl ∙ sym (indices-cons j p ps))

indices-update :
    (id j : String) (f : WorkflowStepExecutionTable → WorkflowStepExecutionTable) (ps : Steps)
    → KeepsKeys f
    → indices j (update_step id f ps) ≡ indices j ps
indices-update id j f [] keeps = refl
indices-update id j f (p ∷ ps) keeps = elim (Bool-cases (str_eq p.id id)) [
  | inl e ↦ rw e (
      indices-same j p (f p) ps (update_step id f ps) (keeps p).0 (keeps p).1
        (indices-update id j f ps keeps))
  | inr e ↦
      rw e (indices-same j p p ps (update_step id f ps) refl refl (indices-update id j f ps keeps))
]

indices-found :
    (o : Option WorkflowStepExecutionTable) (j : String)
    (f : WorkflowStepExecutionTable → WorkflowStepExecutionTable) (ps : Steps)
    → KeepsKeys f
    → indices j (update_found o f ps) ≡ indices j ps
indices-found none j f ps keeps = refl
indices-found (some p) j f ps keeps = indices-update p.id j f ps keeps

Move-indices :
    (host : Host) (row : WorkflowExecutionTable) (d : Db) (c : Command)
    (f : WorkflowExecutionTable → WorkflowExecutionTable) (ps : Steps) (j : String)
    → Move host row d c f ps
    → indices j ps ≡ indices j d.services.workflow_steps
unfolding completed_step started_step retried_step skipped_step
Move-indices host row d c f ps j (Move.pauses reason h) = refl
Move-indices host row d c f ps j (Move.resumes h) = refl
Move-indices host row d c f ps j (Move.cancels reason h k) = refl
Move-indices host row d c f ps j (Move.completes h k) =
    indices-found (find_step row.id row.current_step_index d) j (completed_step host)
      d.services.workflow_steps (λ p. (refl, refl))
Move-indices host row d c f ps j (Move.advances h k) =
    let current = find_step row.id row.current_step_index d in
    let done = update_found current (completed_step host) d.services.workflow_steps in
    indices-found (step_in row.id (row.current_step_index + 1) done) j (started_step host) done
      (λ p. (refl, refl))
    ∙ indices-found current j (completed_step host) d.services.workflow_steps (λ p. (refl, refl))
Move-indices host row d c f ps j (Move.retries index step h k) =
    indices-update step.id j (retried_step host) d.services.workflow_steps (λ p. (refl, refl))
Move-indices host row d c f ps j (Move.skips index step h) =
    indices-update step.id j (skipped_step host) d.services.workflow_steps (λ p. (refl, refl))

indices-append : (j : String) (ps qs : Steps) → indices j (ps ++ qs) ≡ indices j ps ++ indices j qs
indices-append j [] qs = refl
indices-append j (p ∷ ps) qs = elim (Bool-cases (str_eq p.workflow_execution_id j)) [
  | inl e ↦ rw e (ap (λ r. p.step_index ∷ r) (indices-append j ps qs))
  | inr e ↦ rw e (indices-append j ps qs)
]

step_rows-IsRange :
    (id : String) (k : ℕ) (ds : List Entries) → IsRange k (indices id (step_rows id k ds))
unfolding step_rows step_row
step_rows-IsRange id k [] = tt
step_rows-IsRange id k (x ∷ ds) = rw (eq_refl id) (refl, step_rows-IsRange id (suc k) ds)

step_rows-other :
    (id j : String) (k : ℕ) (ds : List Entries)
    → str_eq id j ≡ false
    → indices j (step_rows id k ds) ≡ []
unfolding step_rows step_row
step_rows-other id j k [] e = refl
step_rows-other id j k (x ∷ ds) e = rw e (step_rows-other id j (suc k) ds e)

append_nil : (xs : List ℕ) → xs ++ [] ≡ xs
append_nil [] = refl
append_nil (x ∷ xs) = ap (λ r. x ∷ r) (append_nil xs)

IsRange-as : (k : ℕ) (xs ys : List ℕ) → xs ≡ ys → IsRange k ys → IsRange k xs
IsRange-as k xs ys e h = rw e h

-- the steps of a new execution beside those of the others
added-IsRange :
    (id j : String) (ps : Steps) (ds : List Entries)
    → indices id ps ≡ []
    → IsRange 0 (indices j ps)
    → IsRange 0 (indices j (ps ++ step_rows id 0 ds))
added-IsRange id j ps ds fresh h = elim (Bool-cases (str_eq id j)) [
  | inr e ↦
      IsRange-as 0 _ (indices j ps)
        (indices-append j ps _
          ∙ (ap (λ r. indices j ps ++ r) (step_rows-other id j 0 ds e) ∙ append_nil _))
        h
  | inl e ↦
      let same = (eq_iff id j).0 e in
      IsRange-as 0 _ (indices id (step_rows id 0 ds))
        (ap (λ x. indices x (ps ++ step_rows id 0 ds)) (sym same)
          ∙ (indices-append id ps _ ∙ ap (λ r. r ++ indices id (step_rows id 0 ds)) fresh))
        (step_rows-IsRange id 0 ds)
]

abbrev Numbered : Db → Type 0
Numbered d = (j : String) → IsRange 0 (indices j d.services.workflow_steps)

Started-Numbered :
    (host : Host) (run_id request_id tenant : String) (definition : Option String) (d : Db)
    (r : Result WorkflowExecutionTable × Db)
    → Outcome (Started host run_id request_id tenant definition d) d r
    → IsFresh d r
    → Numbered d
    → Numbered r.1
unfolding execution_row
Started-Numbered host run_id request_id tenant definition d (err e, d') same fresh h =
    λ j. rw same (h j)
Started-Numbered host run_id request_id tenant definition d (ok a, d') (id, request, found, c) fresh
      h =
    λ j. IsRange-as 0 _ _ (ap (indices j) c.steps) (
      added-IsRange id j d.services.workflow_steps (definition_steps definition d)
        (ap (λ (x : WorkflowExecutionTable). indices x.id d.services.workflow_steps)
            (sym c.returned)
          ∙ fresh)
        (h j))

Moved-Numbered :
    (host : Host) (co : Command) (id : String) (tenant : Option String) (d d' : Db)
    (a : WorkflowExecutionTable)
    → Numbered d
    → Moved host co id tenant d a d'
    → Numbered d'
Moved-Numbered host co id tenant d d' a h (row, f, ps, found, access, m, c) =
    λ j. IsRange-as 0 _ _ (ap (indices j) c.steps ∙ Move-indices host row d co f ps j m) (h j)

-- Where the steps of every execution are numbered 0, 1 and so on and the index of its current step is
-- below their number (or 0 if it has none), so that the current step is one of its steps, this stays
-- so through every sequence of starts and commands, by any actors and tenants, whether each of them
-- returns or raises; each start has to draw an identifier of which no step is stored.
pub perform_all-IsPlaced :
    (ops : List (Host × Operation)) (d : Db)
    → IsPlaced d
    → AreFresh ops d
    → IsPlaced (perform_all ops d)
unfolding perform_all perform
perform_all-IsPlaced [] d w fresh = w
perform_all-IsPlaced ((host, starting run_id request_id tenant definition actor) ∷ ops) d w
      (fresh, rest) =
    perform_all-IsPlaced ops _
      (record {
        bounded =
            perform-IsBounded host (starting run_id request_id tenant definition actor) d w.bounded;
        numbered =
            Started-Numbered host run_id request_id tenant definition d _
              (start_workflow-Started host run_id request_id tenant definition actor d) fresh
              w.numbered;
      })
      rest
perform_all-IsPlaced ((host, commanding c id actor tenant) ∷ ops) d w rest =
    perform_all-IsPlaced ops _
      (record {
        bounded = perform-IsBounded host (commanding c id actor tenant) d w.bounded;
        numbered =
            OutcomeOr _ Numbered d _ (run_command_contract host c id actor tenant d) w.numbered
              (λ a d' q. Moved-Numbered host c id tenant d d' a w.numbered q);
      })
      rest
