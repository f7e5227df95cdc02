-- ===== src/Lifecycle/Effects.antt =====
-- governance_repository.py, _apply_transition_side_effects: what each target status changes beside
-- the request. The branches test one value each, so at most one of the groups below runs.
use rgp.Prelude.{
  ℕ, Bool, ◌||◌, String, ◌<>◌, true, false, not, Option, none, some, List, [], ◌∷◌, ◌++◌, ltb,
  str_eq, if◌then◌else◌,
}
use rgp.Request.{
  RequestStatus, status_eq, is_in, planned, queued, in_execution, awaiting_review, under_review,
  changes_requested, approved, promotion_pending, promoted, completed,
}
use rgp.Db.{RequestTable, ArtifactTable, RunTable, PromotionTable}
use rgp.Db.Runs.{RunStatus}
use rgp.Session.{Host, Action, pure, read, when, match_row, ◌>>=◌, ◌>>◌}
use rgp.Events.{or_text}
use rgp.Checks.Dispatch.{has_pending_request_run, enqueue_request_checks, enqueue_promotion_checks}
use rgp.Lifecycle.{get_request, modify_request, default_binding}
use rgp.Lifecycle.Artifacts.{artifact_of_request}
use rgp.Lifecycle.Artifacts.Updates.{ensure_artifact_for_request, update_artifact_review_state}
use rgp.Lifecycle.Runs.{has_run, modify_run, ensure_run_for_request, dispatch_run_to_runtime}
use rgp.Lifecycle.Reviews.{
  modify_review, modify_promotion, review_of, promotion_of, update_review_queue_status,
  ensure_review_queue_item, ensure_promotion_record,
}
use rgp.Lifecycle.Registration.{apply_registration_request_side_effects}

abbrev max : ℕ → ℕ → ℕ
max a b = if ltb a b then b else a

-- `if row.current_run_id:` with the identifier of the run
abbrev with_run : Option String → (String → Action Unit) → Action Unit
with_run o f = match_row o (pure tt) (λ run_id. when (not (str_eq run_id "")) (f run_id))

started : Host → RunTable → RunTable
started host r = record r {
  status = RunStatus.running;
  current_step = "Execute Governed Workflow";
  waiting_reason = none;
  progress_percent = max r.progress_percent 35;
  current_step_input_summary = "Request entered governed execution.";
  current_step_output_summary = "Execution in progress.";
  updated_at = host.now;
}

waiting_for_review : Host → RunTable → RunTable
waiting_for_review host r = record r {
  status = RunStatus.waiting;
  current_step = "Human Review";
  waiting_reason = some "Awaiting reviewer approval";
  progress_percent = max r.progress_percent 75;
  updated_at = host.now;
}

review_approved : Host → RunTable → RunTable
review_approved host r = record r {
  status = RunStatus.completed;
  current_step = "Review Approved";
  waiting_reason = none;
  progress_percent = 100;
  current_step_output_summary = "Review approved and ready for promotion or completion.";
  updated_at = host.now;
}

run_completed : Host → RunTable → RunTable
run_completed host r = record r {
  status = RunStatus.completed;
  current_step = "Completed";
  waiting_reason = none;
  progress_percent = 100;
  updated_at = host.now;
}

unfoldable pub bind_workflow : Host → RequestTable → RequestTable
bind_workflow host r = record r {
  workflow_binding_id = some (or_text r.workflow_binding_id (default_binding host r));
}

unfoldable pub on_queued : Host → String → String → Action Unit
unfolding bind_workflow
on_queued host request_id actor_id = do
  modify_request request_id (bind_workflow host)
  row ← get_request request_id
  with_run row.current_run_id
      (λ run_id. dispatch_run_to_runtime host request_id run_id "enqueue" actor_id false)

-- whether a query or session.get finds a row of some kind
abbrev is_found {ℓ} : {A : Type ℓ} → Option A → Bool
is_found none = false
is_found (some x) = true

-- The session does not flush by itself. A run that ensure_run_for_request has just added is found
-- only after an event has been appended: here, that of a new version of an artifact.
unfoldable pub on_in_execution : Host → String → String → Bool → Action Unit
unfolding started
on_in_execution host request_id actor_id run_stored = do
  row ← get_request request_id
  with_run row.current_run_id (λ run_id. do
    had_artifact ← read (λ d. is_found (artifact_of_request request_id d))
    artifact ← ensure_artifact_for_request host request_id actor_id "in_revision" "pending" true
    when (run_stored || had_artifact) (modify_run run_id (started host))
    dispatch_run_to_runtime host request_id run_id "start" actor_id false)

unfoldable pub show_artifact : ArtifactTable → String → Action Unit
show_artifact artifact request_id = do
  review_row ← read (review_of request_id)
  match_row review_row (pure tt) (λ q.
      modify_review q.id (λ r. record r {
        artifact_or_changeset = artifact.name <> " " <> artifact.current_version;
      }))

-- Queueing a check run flushes too, so that a review item or a run that is just added is found.
unfoldable pub on_awaiting_review : Host → String → String → Bool → Action Unit
unfolding show_artifact waiting_for_review has_pending_request_run
on_awaiting_review host request_id actor_id run_stored = do
  had_artifact ← read (λ d. is_found (artifact_of_request request_id d))
  artifact ← ensure_artifact_for_request host request_id actor_id "awaiting_review" "pending" true
  had_review ← read (λ d. is_found (review_of request_id d))
  ensure_review_queue_item host request_id
  pending ← read (has_pending_request_run request_id)
  enqueue_request_checks host request_id actor_id "Review-entry request checks queued"
  when (had_review || not pending) (show_artifact artifact request_id)
  row ← get_request request_id
  with_run row.current_run_id (λ run_id.
      when (run_stored || (had_artifact || not pending))
        (modify_run run_id (waiting_for_review host)))

unfoldable pub on_under_review : Host → String → Action Unit
on_under_review host request_id = do
  update_artifact_review_state host request_id "under_review" "pending" false none
  update_review_queue_status request_id "Review in progress"

unfoldable pub on_changes_requested : Host → String → Action Unit
on_changes_requested host request_id = do
  update_artifact_review_state host request_id "changes_requested" "changes_requested" true none
  update_review_queue_status request_id "Changes requested"

unfoldable pub on_approved : Host → String → String → Action Unit
unfolding review_approved
on_approved host request_id actor_id = do
  update_artifact_review_state host request_id "approved" "approved" false none
  update_review_queue_status request_id "Approved"
  enqueue_request_checks host request_id actor_id "Approval request checks queued"
  apply_registration_request_side_effects host request_id actor_id approved
  row ← get_request request_id
  with_run row.current_run_id (λ run_id. modify_run run_id (review_approved host))

unfoldable pub enqueue_for : Host → String → String → Option PromotionTable → Action Unit
enqueue_for host request_id actor_id promotion_row =
    match_row promotion_row (pure tt)
      (λ p. enqueue_promotion_checks host p.id request_id actor_id "Promotion gate checks queued")

unfoldable pub on_promotion_pending : Host → String → String → Action Unit
unfolding enqueue_for
on_promotion_pending host request_id actor_id = do
  update_artifact_review_state host request_id "promotion_pending" "approved" false (some true)
  ensure_promotion_record host request_id actor_id
  promotion_row ← read (promotion_of request_id)
  enqueue_for host request_id actor_id promotion_row

promotion_executed : Host → String → PromotionTable → PromotionTable
promotion_executed host actor_id p = record p {
  execution_readiness = "Promotion executed successfully.";
  promotion_history =
      p.promotion_history
      ++ (record { timestamp = host.now; actor = actor_id; action = "Promotion executed" }) ∷ [];
}

unfoldable pub on_promoted : Host → String → String → Action Unit
unfolding promotion_executed
on_promoted host request_id actor_id = do
  update_artifact_review_state host request_id "promoted" "approved" false (some true)
  promotion_row ← read (promotion_of request_id)
  match_row promotion_row (pure tt) (λ p. modify_promotion p.id (promotion_executed host actor_id))

unfoldable pub on_completed : Host → String → String → Action Unit
unfolding run_completed
on_completed host request_id actor_id = do
  row ← get_request request_id
  with_run row.current_run_id (λ run_id. do
    update_artifact_review_state host request_id "completed" "approved" false (some true)
    apply_registration_request_side_effects host request_id actor_id completed
    modify_run run_id (run_completed host))

abbrev needs_run : List RequestStatus
needs_run = planned ∷ queued ∷ in_execution ∷ awaiting_review ∷ []

unfoldable pub apply_transition_side_effects : Host → String → RequestStatus → String → Action Unit
unfolding is_in status_eq on_queued on_in_execution on_awaiting_review on_under_review
    on_changes_requested on_approved on_promotion_pending on_promoted on_completed
apply_transition_side_effects host request_id target actor_id = do
  row ← get_request request_id
  run_stored ← read (has_run row.current_run_id)
  when (is_in target needs_run) (ensure_run_for_request host request_id target)
  when (status_eq target queued) (on_queued host request_id actor_id)
  when (status_eq target in_execution) (on_in_execution host request_id actor_id run_stored)
  when (status_eq target awaiting_review) (on_awaiting_review host request_id actor_id run_stored)
  when (status_eq target under_review) (on_under_review host request_id)
  when (status_eq target changes_requested) (on_changes_requested host request_id)
  when (status_eq target approved) (on_approved host request_id actor_id)
  when (status_eq target promotion_pending) (on_promotion_pending host request_id actor_id)
  when (status_eq target promoted) (on_promoted host request_id actor_id)
  when (status_eq target completed) (on_completed host request_id actor_id)
