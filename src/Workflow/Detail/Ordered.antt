-- ===== src/Workflow/Detail/Ordered.antt =====
-- get_execution returns what is stored, in order, and changes nothing.
use rgp.Prelude.{
  ◌≤◌, String, ◌≡◌, refl, Bool, false, Option, some, [], ◌∷◌, map, insert_sorted, sort_by, count_if,
  All, arith, Bool-cases, inl, inr, All-weaken,
}
use rgp.Db.{Db, WorkflowExecutionTable, WorkflowStepExecutionTable}
use rgp.Session.{Host, pure, with_session}
use rgp.Session.Contracts.{Ensures, At, Ensures-read}
use rgp.Session.Outcomes.{Outcome, Outcome-with_session, Unchanged}
use rgp.Workflow.{find_execution, is_foreign, steps_of}
use rgp.Workflow.Contracts.{Steps, Ensures-load_execution}
use rgp.Workflow.Detail.{
  WorkflowExecutionDetail, record_from_row, step_record_from_row, index_before, get_execution,
}

-- No step stands before a step of a smaller index.
unfoldable pub IsOrdered : Steps → Type 0
IsOrdered [] = Unit
IsOrdered (p ∷ ps) = All (λ q. p.step_index ≤ q.step_index) ps × IsOrdered ps

insert_sorted-All :
    (P : WorkflowStepExecutionTable → Type 0) (x : WorkflowStepExecutionTable) (ps : Steps)
    → P x
    → All P ps
    → All P (insert_sorted index_before x ps)
insert_sorted-All P x [] h k = (h, tt)
insert_sorted-All P x (p ∷ ps) h (k, ks) = elim (Bool-cases (index_before p x)) [
  | inl e ↦ rw e (k, insert_sorted-All P x ps h ks)
  | inr e ↦ rw e (h, (k, ks))
]

insert_sorted-IsOrdered :
    (x : WorkflowStepExecutionTable) (ps : Steps)
    → IsOrdered ps
    → IsOrdered (insert_sorted index_before x ps)
unfolding IsOrdered
insert_sorted-IsOrdered x [] h = (tt, tt)
insert_sorted-IsOrdered x (p ∷ ps) (h, hs) = elim (Bool-cases (index_before p x)) [
  | inl e ↦ rw e (
    insert_sorted-All (λ q. p.step_index ≤ q.step_index) x ps (ground (arith, e)) h,
    insert_sorted-IsOrdered x ps hs,
  )
  | inr e ↦
      let below : x.step_index ≤ p.step_index = ground (arith, e) in
      rw e (
        (
          below,
          All-weaken (λ q. p.step_index ≤ q.step_index) (λ q. x.step_index ≤ q.step_index) ps
              (λ q k. omega (arith, below, k)) h,
        ),
        (h, hs),
      )
]

sort_by-IsOrdered : (ps : Steps) → IsOrdered (sort_by index_before ps)
unfolding IsOrdered
sort_by-IsOrdered [] = tt
sort_by-IsOrdered (p ∷ ps) =
    insert_sorted-IsOrdered p (sort_by index_before ps) (sort_by-IsOrdered ps)

insert_sorted-count_if :
    (c : WorkflowStepExecutionTable → Bool) (x : WorkflowStepExecutionTable) (ps : Steps)
    → count_if c (insert_sorted index_before x ps) ≡ count_if c (x ∷ ps)
insert_sorted-count_if c x [] = refl
insert_sorted-count_if c x (p ∷ ps) = elim (Bool-cases (index_before p x)) [
  | inl e ↦ rw e (ground (arith, insert_sorted-count_if c x ps))
  | inr e ↦ rw e refl
]

sort_by-count_if :
    (c : WorkflowStepExecutionTable → Bool) (ps : Steps)
    → count_if c (sort_by index_before ps) ≡ count_if c ps
sort_by-count_if c [] = refl
sort_by-count_if c (p ∷ ps) =
    ground (arith, sort_by-count_if c ps, insert_sorted-count_if c p (sort_by index_before ps))

-- The detail is that of an accessible execution, with its steps: as many of each kind as are stored,
-- by their indices. The database is as it was.
pub record Shows (host : Host) (id : String) (tenant : Option String) (d : Db)
    (detail : WorkflowExecutionDetail) (d' : Db) : Type 0 where
  pub unchanged : d' ≡ d
  pub row : WorkflowExecutionTable
  pub found : find_execution id d ≡ some row
  pub access : is_foreign host tenant row d ≡ false
  pub shown : detail.execution ≡ record_from_row row
  pub steps : Steps
  pub steps_shown : detail.steps ≡ map step_record_from_row steps
  pub ordered : IsOrdered steps
  pub complete :
      (c : WorkflowStepExecutionTable → Bool)
      → count_if c steps ≡ count_if c (steps_of id d.services.workflow_steps)

module _ (host : Host) (id : String) (tenant : Option String) (d : Db) where
  shows :
      (row : WorkflowExecutionTable)
      → find_execution id d ≡ some row
      → is_foreign host tenant row d ≡ false
      → Ensures
          (At d)
          (pure (record {
            execution = record_from_row row;
            steps =
                map step_record_from_row
                  (sort_by index_before (steps_of id d.services.workflow_steps));
          }))
          (λ a s. Shows host id tenant d a s.committed)
          (Unchanged d)
  unfolding pure
  shows row found access = record {
    holds = λ s h. record {
      unchanged = h.saved;
      row = row;
      found = found;
      access = access;
      shown = refl;
      steps = sort_by index_before (steps_of id d.services.workflow_steps);
      steps_shown = refl;
      ordered = sort_by-IsOrdered (steps_of id d.services.workflow_steps);
      complete = λ c. sort_by-count_if c (steps_of id d.services.workflow_steps);
    };
  }

-- get_execution shows the first execution with the identifier, which the tenant may access, with all
-- of its steps and no other, in the order of their indices, and changes nothing; if it raises, it
-- changes nothing either.
pub get_execution-Shows :
    (host : Host) (id : String) (tenant : Option String) (d : Db)
    → Outcome (Shows host id tenant d) d (with_session (get_execution host id tenant) d)
unfolding get_execution
get_execution-Shows host id tenant d = Outcome-with_session _ d _ (
    Ensures-load_execution host id tenant _ (λ row found access.
      Ensures-read (λ d. sort_by index_before (steps_of id d.services.workflow_steps)) _
        (shows host id tenant d row found access)))
