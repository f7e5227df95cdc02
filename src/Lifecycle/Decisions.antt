-- ===== src/Lifecycle/Decisions.antt =====
-- record_review_decision of apps/api/app/repositories/governance_repository.py: a reviewer approves a
-- request or asks for changes. Where the request is in the second store, that store writes the rest.
use rgp.Prelude.{
  String, ◌<>◌, Bool, not, ◌||◌, Option, none, some, ◌+◌, first, update, str_eq, if◌then◌else◌,
}
use rgp.Request.{RequestStatus, approved, changes_requested}
use rgp.Db.{Db, RequestTable, ReviewQueueTable, RunTable}
use rgp.Db.Runs.{RunStatus}
use rgp.Session.{
  Host, Action, stop_iteration, value_error, delegated, pure, raise, read, required, write_tables,
  commit, when, raise_if, match_row, ◌>>=◌, ◌>>◌,
}
use rgp.Events.{append_event}
use rgp.Bridge.{get_request_state}
use rgp.Lifecycle.{modify_request}
use rgp.Lifecycle.Artifacts.Updates.{update_artifact_review_state}
use rgp.Lifecycle.Operations.{find_request, ensure_request_tenant_access}

pub record ReviewDecisionRequest : Type 0 where
  pub actor_id : String
  pub decision : String
  pub reason : String

abbrev pub find_review : String → Db → Option ReviewQueueTable
find_review review_id d = first (λ r. str_eq r.id review_id) d.tables.reviews

abbrev pub is_approval : String → Bool
is_approval decision = str_eq decision "approve"

-- the status that a decision gives the request
abbrev pub decision_status : String → RequestStatus
decision_status decision = if is_approval decision then approved else changes_requested

abbrev pub is_supported : String → Bool
is_supported decision = is_approval decision || str_eq decision "changes_requested"

unfoldable pub reviewed : String → ReviewQueueTable → ReviewQueueTable
reviewed decision r = record r {
  blocking_status = if is_approval decision then "Approved" else "Changes requested";
  stale = not (is_approval decision);
}

unfoldable pub run_approved : Host → RunTable → RunTable
run_approved host r = record r {
  status = RunStatus.completed;
  current_step = "Review Approved";
  progress_percent = 100;
  waiting_reason = none;
  updated_at = host.now;
}

-- the run of an approved request, if it has one
unfoldable pub approve_run : Host → Option String → Action Unit
unfolding run_approved
approve_run host run_id = match_row run_id (pure tt) (λ id.
    write_tables (λ t. record t { runs = update (λ r. str_eq r.id id) (run_approved host) t.runs }))

unfoldable pub decide_review : Host → ReviewQueueTable → RequestTable → String → Action Unit
unfolding reviewed approve_run
decide_review host review request decision = do
  write_tables (λ t. record t {
    reviews = update (λ r. str_eq r.id review.id) (reviewed decision) t.reviews;
  })
  if is_approval decision
      then update_artifact_review_state host review.request_id "approved" "approved" Bool.false none
      else update_artifact_review_state host review.request_id "changes_requested"
          "changes_requested" Bool.true none
  when (is_approval decision) (approve_run host request.current_run_id)

unfoldable pub decided : Host → String → String → RequestTable → RequestTable
decided host decision actor_id r = record r {
  status = decision_status decision;
  updated_at = host.now;
  updated_by = actor_id;
  version = r.version + 1;
}

-- The writes to the request, if it is a row of this database
unfoldable pub decide_request :
    Host → String → ReviewDecisionRequest → Option RequestTable → Action Unit
unfolding decided
decide_request host request_id p row = match_row row (commit >> raise (delegated request_id)) (λ r.
    modify_request request_id (decided host p.decision p.actor_id)
    >> (append_event host request_id p.actor_id
          ("Review " <> host.title (host.replace p.decision "_" " ")) p.reason
        >> commit))

unfoldable pub decide : Host → String → ReviewDecisionRequest → String → Action Unit
unfolding get_request_state ensure_request_tenant_access decide_review decide_request
decide host review_id p tenant = do
  found ← read (find_review review_id)
  review ← required (stop_iteration review_id) found
  state ← read (get_request_state host review.request_id (some tenant))
  request ← required (stop_iteration review.request_id) state
  row ← read (find_request review.request_id)
  match_row row (pure tt) (λ r. ensure_request_tenant_access r (some tenant))
  raise_if (not (is_supported p.decision))
      (value_error ("Unsupported review decision " <> p.decision))
  decide_review host review request p.decision
  decide_request host review.request_id p row

unfoldable pub record_review_decision :
    Host → String → ReviewDecisionRequest → Option String → Action Unit
unfolding decide
record_review_decision host review_id p tenant_id =
    match_row tenant_id (raise (value_error "tenant_id is required")) (decide host review_id p)
