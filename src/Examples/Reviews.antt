-- ===== src/Examples/Reviews.antt =====
-- The theorems on review decisions and stored checks at concrete inputs.
use rgp.Prelude.{◌≡◌, refl, none, some, [], ◌∷◌, false}
use rgp.Request.{RequestStatus}
use rgp.Db.{Db, ReviewQueueTable}
use rgp.Session.{with_session}
use rgp.Checks.Registry.{CheckResult, builtins, evaluate}
use rgp.Checks.Evaluation.Handlers.{
  Stored, Counterpart, Agrees, check_of, context_of, evaluate-Agrees,
}
use rgp.Lifecycle.Decisions.{ReviewDecisionRequest, record_review_decision}
use rgp.Lifecycle.Contracts.{Outcome}
use rgp.Lifecycle.Contracts.Decisions.{Decided, record_review_decision_contract}
use rgp.Examples.Data.{example_host, example_db, example_request, example_check}

abbrev example_review : ReviewQueueTable
example_review = record {
  id = "rev_1";
  request_id = "req_3";
  review_scope = "request";
  artifact_or_changeset = "art_1";
  type = "Artifact Review";
  priority = "medium";
  sla = "On track";
  blocking_status = "Awaiting";
  assigned_reviewer = "user_demo";
  stale = false;
}

-- A review of the canceled request
abbrev reviewed_db : Db
reviewed_db = record example_db {
  tables = record example_db.tables { reviews = example_review ∷ [] };
}

abbrev example_decision : ReviewDecisionRequest
example_decision = record { actor_id = "user_demo"; decision = "approve"; reason = "fine" }

record_review_decision_contract_example :
    Outcome (Decided "rev_1" example_decision "tenant_demo" reviewed_db) reviewed_db (
      with_session
        (record_review_decision example_host "rev_1" example_decision (some "tenant_demo"))
        reviewed_db)
record_review_decision_contract_example =
    record_review_decision_contract example_host "rev_1" example_decision "tenant_demo" reviewed_db

evaluate-Agrees_example :
    (r : CheckResult) × (evaluate "Intake Completeness"
        (context_of (example_request "req_1" RequestStatus.under_review) none (some example_review))
        (builtins example_host)
      ≡ some r)
    × Agrees
        (check_of Stored.of_request example_host
          (example_request "req_1" RequestStatus.under_review)
          none
          (some example_review)
          example_check)
        r
evaluate-Agrees_example =
    evaluate-Agrees example_host (example_request "req_1" RequestStatus.under_review) none
      (some example_review) example_check Stored.of_request "Intake Completeness"
      "Intake Completeness" refl Counterpart.intake refl
