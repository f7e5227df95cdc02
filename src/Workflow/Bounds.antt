-- ===== src/Workflow/Bounds.antt =====
-- The index of an execution's current step is below the number of its steps, whatever operations are
-- performed.
use rgp.Prelude.{
  ℕ, suc, ◌+◌, ◌-◌, ◌≤◌, ◌<◌, String, ◌≡◌, refl, ap, ◌∙◌, Bool, true, false, Option, none, some,
  List, [], ◌∷◌, ◌++◌, length, All, All-weaken, All-append, All-update, All-first,
  length-select-update, length-select-append, first-holds, eq_refl, arith, eq_iff, str_eq, ◌==◌,
  ◌&&◌,
}
use rgp.Json.{Entries}
use rgp.Db.{Db, WorkflowExecutionTable, WorkflowStepExecutionTable}
use rgp.Session.{Host}
use rgp.Session.Outcomes.{OutcomeOr}
use rgp.Workflow.{steps_of, find_step, step_row, step_rows, execution_row, definition_steps}
use rgp.Workflow.Commands.{
  paused_row, resumed_row, canceled_row, retried_row, touched_row, completed_row, moved_row,
  completed_step, started_step, retried_step, skipped_step,
}
use rgp.Workflow.Contracts.{Executions, Steps, update_execution, update_step, update_found}
use rgp.Workflow.Moves.{Move, Moved, Command, run_command_contract}
use rgp.Workflow.Sequences.{
  Started, Operation, starting, commanding, perform, start_workflow-Started,
}

-- how many steps each execution has
abbrev counts : Steps → String → ℕ
counts ps id = length (steps_of id ps)

abbrev pub StepBound : (String → ℕ) → WorkflowStepExecutionTable → Type 0
StepBound n p = p.step_index < n p.workflow_execution_id

-- An execution without steps stands at 0.
abbrev pub ExecutionBound : (String → ℕ) → WorkflowExecutionTable → Type 0
ExecutionBound n e = e.current_step_index ≤ n e.id - 1

-- The indices of every execution's current step and of every step are below the number of steps.
pub record IsBounded (d : Db) : Type 0 where
  pub steps : All (StepBound (counts d.services.workflow_steps)) d.services.workflow_steps
  pub executions :
      All (ExecutionBound (counts d.services.workflow_steps)) d.services.workflow_executions

-- The steps keep their executions and indices.
pub record Kept (ps ps' : Steps) : Type 0 where
  pub same_counts : (id : String) → counts ps' id ≡ counts ps id
  bounds : (n : String → ℕ) → All (StepBound n) ps → All (StepBound n) ps'

Kept-refl : (ps : Steps) → Kept ps ps
Kept-refl ps = record { same_counts = λ id. refl; bounds = λ n h. h }

Kept-trans : (ps qs rs : Steps) → Kept ps qs → Kept qs rs → Kept ps rs
Kept-trans ps qs rs h k = record {
  same_counts = λ id. k.same_counts id ∙ h.same_counts id;
  bounds = λ n b. k.bounds n (h.bounds n b);
}

-- a change of a step that keeps its execution and its index
abbrev pub KeepsKeys : (WorkflowStepExecutionTable → WorkflowStepExecutionTable) → Type 0
KeepsKeys f =
    (p : WorkflowStepExecutionTable)
    → ((f p).workflow_execution_id ≡ p.workflow_execution_id) × ((f p).step_index ≡ p.step_index)

Kept-update :
    (id : String) (f : WorkflowStepExecutionTable → WorkflowStepExecutionTable) (ps : Steps)
    → KeepsKeys f
    → Kept ps (update_step id f ps)
Kept-update id f ps keeps = record {
  same_counts = λ j.
      length-select-update (λ p. str_eq p.workflow_execution_id j) (λ p. str_eq p.id id) f ps
        (λ p. ap (λ x. str_eq x j) (keeps p).0);
  bounds = λ n.
      All-update (StepBound n) (λ p. str_eq p.id id) f ps
        (λ p t b. rw ((keeps p).0, (keeps p).1) b);
}

Kept-found :
    (o : Option WorkflowStepExecutionTable)
    (f : WorkflowStepExecutionTable → WorkflowStepExecutionTable) (ps : Steps)
    → KeepsKeys f
    → Kept ps (update_found o f ps)
Kept-found none f ps keeps = Kept-refl ps
Kept-found (some p) f ps keeps = Kept-update p.id f ps keeps

pub Move-Kept :
    (host : Host) (row : WorkflowExecutionTable) (d : Db) (c : Command)
    (f : WorkflowExecutionTable → WorkflowExecutionTable) (ps : Steps)
    → Move host row d c f ps
    → Kept d.services.workflow_steps ps
unfolding completed_step started_step retried_step skipped_step
Move-Kept host row d c f ps (Move.pauses reason h) = Kept-refl _
Move-Kept host row d c f ps (Move.resumes h) = Kept-refl _
Move-Kept host row d c f ps (Move.cancels reason h k) = Kept-refl _
Move-Kept host row d c f ps (Move.completes h k) = Kept-found _ _ _ (λ p. (refl, refl))
Move-Kept host row d c f ps (Move.advances h k) =
    let current = find_step row.id row.current_step_index d in
    Kept-trans d.services.workflow_steps
      (update_found current (completed_step host) d.services.workflow_steps) _
      (Kept-found current (completed_step host) _ (λ p. (refl, refl)))
      (Kept-found _ (started_step host) _ (λ p. (refl, refl)))
Move-Kept host row d c f ps (Move.retries index step h k) = Kept-update _ _ _ (λ p. (refl, refl))
Move-Kept host row d c f ps (Move.skips index step h) = Kept-update _ _ _ (λ p. (refl, refl))

-- a change of the rows of one execution, to an index that it has
ExecutionBound-update :
    (n : String → ℕ) (id : String) (f : WorkflowExecutionTable → WorkflowExecutionTable)
    (es : Executions)
    → ((e : WorkflowExecutionTable) → (f e).id ≡ e.id)
    → ((e : WorkflowExecutionTable)
        → e.id ≡ id
        → ExecutionBound n e
        → (f e).current_step_index ≤ n id - 1)
    → All (ExecutionBound n) es
    → All (ExecutionBound n) (update_execution id f es)
ExecutionBound-update n id f es keeps moves =
    All-update (ExecutionBound n) _ f es
      (λ e t b. let same = (eq_iff e.id id).0 t in rw (keeps e ∙ same) (moves e same b))

same_index-bound :
    (n : String → ℕ) (id : String) (f : WorkflowExecutionTable → WorkflowExecutionTable)
    (es : Executions)
    → ((e : WorkflowExecutionTable) → (f e).id ≡ e.id)
    → ((e : WorkflowExecutionTable) → (f e).current_step_index ≡ e.current_step_index)
    → All (ExecutionBound n) es
    → All (ExecutionBound n) (update_execution id f es)
same_index-bound n id f es keeps same =
    ExecutionBound-update n id f es keeps (λ e p b. omega (arith, same e, ap n p, b))

both_true : (a b : Bool) → a && b ≡ true → (a ≡ true) × (b ≡ true)
both_true true true h = (refl, refl)
both_true true false h = cc h
both_true false b h = cc h

same_number : (a b : ℕ) → (a == b) ≡ true → a ≡ b
same_number a b h = ground arith

step_below :
    (n : String → ℕ) (id : String) (index : ℕ) (d : Db) (step : WorkflowStepExecutionTable)
    → All (StepBound n) d.services.workflow_steps
    → find_step id index d ≡ some step
    → index < n id
step_below n id index d step b h =
    let (p, q) = both_true _ _ (first-holds _ d.services.workflow_steps step h) in
    let bound = All-first (StepBound n) _ d.services.workflow_steps step b h in
    omega (
      arith,
      bound,
      ap n ((eq_iff step.workflow_execution_id id).0 p),
      same_number step.step_index index q,
    )

Move-bounded :
    (host : Host) (row : WorkflowExecutionTable) (d : Db) (c : Command)
    (f : WorkflowExecutionTable → WorkflowExecutionTable) (ps : Steps)
    → Move host row d c f ps
    → IsBounded d
    → All
        (ExecutionBound (counts d.services.workflow_steps))
        (update_execution row.id f d.services.workflow_executions)
unfolding paused_row resumed_row canceled_row retried_row touched_row completed_row moved_row
Move-bounded host row d c f ps (Move.pauses reason h) w =
    same_index-bound _ row.id f _ (λ e. refl) (λ e. refl) w.executions
Move-bounded host row d c f ps (Move.resumes h) w =
    same_index-bound _ row.id f _ (λ e. refl) (λ e. refl) w.executions
Move-bounded host row d c f ps (Move.cancels reason h k) w =
    same_index-bound _ row.id f _ (λ e. refl) (λ e. refl) w.executions
Move-bounded host row d c f ps (Move.completes h k) w =
    same_index-bound _ row.id f _ (λ e. refl) (λ e. refl) w.executions
Move-bounded host row d c f ps (Move.advances h k) w =
    ExecutionBound-update _ row.id f _ (λ e. refl) (λ e p b. omega (arith, k)) w.executions
Move-bounded host row d c f ps (Move.retries index step h k) w =
    ExecutionBound-update _ row.id f _ (λ e. refl)
      (λ e p b. omega (arith, step_below _ row.id index d step w.steps h)) w.executions
Move-bounded host row d c f ps (Move.skips index step h) w =
    same_index-bound _ row.id f _ (λ e. refl) (λ e. refl) w.executions

recount :
    (n m : String → ℕ) (es : Executions)
    → ((id : String) → n id ≤ m id)
    → All (ExecutionBound n) es
    → All (ExecutionBound m) es
recount n m es h = All-weaken _ _ es (λ e b. omega (arith, h e.id, b))

recount_steps :
    (n m : String → ℕ) (ps : Steps)
    → ((id : String) → n id ≤ m id)
    → All (StepBound n) ps
    → All (StepBound m) ps
recount_steps n m ps h = All-weaken _ _ ps (λ p b. omega (arith, h p.workflow_execution_id, b))

-- the invariant, from the committed rows
IsBounded-rows :
    (es : Executions) (ps : Steps) (d' : Db)
    → d'.services.workflow_executions ≡ es
    → d'.services.workflow_steps ≡ ps
    → All (StepBound (counts ps)) ps
    → All (ExecutionBound (counts ps)) es
    → IsBounded d'
IsBounded-rows es ps d' p q h k = record { steps = rw q h; executions = rw (p, q) k }

Moved-IsBounded :
    (host : Host) (co : Command) (id : String) (tenant : Option String) (d d' : Db)
    (a : WorkflowExecutionTable)
    → IsBounded d
    → Moved host co id tenant d a d'
    → IsBounded d'
Moved-IsBounded host co id tenant d d' a w (row, f, ps, found, access, m, c) =
    let kept = Move-Kept host row d co f ps m in
    let n = counts d.services.workflow_steps in
    let grows : (j : String) → n j ≤ counts ps j = λ j. omega (arith, kept.same_counts j) in
    IsBounded-rows (update_execution row.id f d.services.workflow_executions) ps d' c.executions
      c.steps (recount_steps n (counts ps) ps grows (kept.bounds n w.steps))
      (recount n (counts ps) _ grows (Move-bounded host row d co f ps m w))

counts-step_rows :
    (id : String) (k : ℕ) (ds : List Entries) → counts (step_rows id k ds) id ≡ length ds
unfolding step_rows step_row
counts-step_rows id k [] = refl
counts-step_rows id k (x ∷ ds) = rw (eq_refl id) (ap suc (counts-step_rows id (suc k) ds))

step_rows-bound :
    (n : String → ℕ) (id : String) (k : ℕ) (ds : List Entries)
    → k + length ds ≤ n id
    → All (StepBound n) (step_rows id k ds)
unfolding step_rows step_row
step_rows-bound n id k [] h = tt
step_rows-bound n id k (x ∷ ds) h =
    (omega (arith, h), step_rows-bound n id (suc k) ds (omega (arith, h)))

Started-IsBounded :
    (host : Host) (run_id request_id tenant : String) (definition : Option String) (d d' : Db)
    (a : WorkflowExecutionTable)
    → IsBounded d
    → Started host run_id request_id tenant definition d a d'
    → IsBounded d'
unfolding execution_row
Started-IsBounded host run_id request_id tenant definition d d' a w (id, request, found, c) =
    let ps = d.services.workflow_steps in
    let ds = definition_steps definition d in
    let new = step_rows id 0 ds in
    let grown : (j : String) → counts (ps ++ new) j ≡ counts ps j + counts new j =
      λ j. length-select-append (λ p. str_eq p.workflow_execution_id j) ps new in
    let grows : (j : String) → counts ps j ≤ counts (ps ++ new) j = λ j. omega (arith, grown j) in
    IsBounded-rows _ (ps ++ new) d' c.executions c.steps
      (All-append _ ps new (recount_steps (counts ps) _ ps grows w.steps) (
        step_rows-bound (counts (ps ++ new)) id 0 ds
          (omega (arith, grown id, counts-step_rows id 0 ds))))
      (All-append _ d.services.workflow_executions _
        (recount (counts ps) _ d.services.workflow_executions grows w.executions) (omega arith, tt))

pub perform-IsBounded :
    (host : Host) (op : Operation) (d : Db) → IsBounded d → IsBounded (perform host op d)
unfolding perform
perform-IsBounded host (starting run_id request_id tenant definition actor) d w =
    OutcomeOr _ IsBounded d _
      (start_workflow-Started host run_id request_id tenant definition actor d) w
      (λ a d' q. Started-IsBounded host run_id request_id tenant definition d d' a w q)
perform-IsBounded host (commanding c id actor tenant) d w =
    OutcomeOr _ IsBounded d _ (run_command_contract host c id actor tenant d) w
      (λ a d' q. Moved-IsBounded host c id tenant d d' a w q)
