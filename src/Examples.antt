-- ===== src/Examples.antt =====
-- The theorems at concrete inputs.
pub mod Data
pub mod Workflows
pub mod Services
pub mod Reviews
use rgp.Prelude.{
  ℕ, ◌+◌, String, ◌≡◌, refl, ◌≢◌, ◌≤◌, ◌↔◌, Bool, true, false, Option, none, some, [], ◌∷◌, arith,
  All,
}
use rgp.Request.{RequestStatus, is_in}
use rgp.StateMachine.{
  is_valid_transition, assert_submittable, assert_amendable, assert_cancelable, amendable_statuses,
  cancelable_statuses,
}
use rgp.StateMachine.Paths.{
  Outcome as LifecycleOutcome, Avoids, is_unapproved, no_bypass_of_approval, guards_agree,
}
use rgp.StateMachine.Sla.{
  aware, severity, compute_sla_risk, key_error, compute_sla_risk_mono,
  compute_sla_risk-ne-key_error,
}
use rgp.Checks.{is_resolved, promotion_readiness, ready, blocked}
use rgp.Checks.Readiness.{Reports, promotion_readiness-Reports}
use rgp.Json.{item, string, no_elements}
use rgp.Session.{ok, with_session}
use rgp.Template.Payload.{list_at, validate_payload}
use rgp.Template.Payload.Accepted.{
  AllGiven, validate_payload-validate_payload, validate_payload_draft, validate_payload-AllGiven,
}
use rgp.Lifecycle.Submission.{
  CreateRequestDraft, SubmitRequest, engine, create_request_draft, submit_request,
}
use rgp.Lifecycle.Preserved.{core, cores}
use rgp.Lifecycle.Contracts.Final.{
  amending, transitioning, superseding, perform_all, find_core, perform_all-final,
}
use rgp.Lifecycle.Contracts.Progress.{Progressed, perform_all-Progressed}
use rgp.Lifecycle.Contracts.Acceptance.{Accepted, cancel_request_iff, amend_request_iff}
use rgp.Lifecycle.Contracts.Submission.{
  Drafted, IsSubmittable, create_request_draft_contract, submit_request_contract,
}
use rgp.Lifecycle.Operations.{
  AmendRequest, CancelRequest, TransitionRequest, CloneRequest, SupersedeRequest, cancel_request,
  amend_request, transition_request, clone_request, supersede_request,
}
use rgp.Lifecycle.Contracts.{Outcome, Changed, move_core}
use rgp.Lifecycle.Contracts.Moves.{cancel_request_contract, amend_request_contract}
use rgp.Lifecycle.Contracts.Transition.{IsAllowed, transition_request_contract}
use rgp.Lifecycle.Contracts.Copies.{
  Superseded, Cloned, supersede_request_contract, clone_request_contract,
}
use rgp.Events.Outbox.{IsPublished}
use rgp.Lifecycle.Contracts.Events.{LeavesPublished, operations-IsPublished}
use rgp.Examples.Data.{
  example_host, example_db, example_request, example_check, example_amendment, example_approval,
  example_copy, example_successor, example_draft, example_schema, example_input, example_payload,
}

no_bypass_of_approval_example : is_unapproved RequestStatus.validated ≡ true
unfolding is_valid_transition
no_bypass_of_approval_example =
    no_bypass_of_approval RequestStatus.submitted RequestStatus.validated refl
      (Avoids.then {t = RequestStatus.validated} refl (λ e. cc e) Avoids.stay)

compute_sla_risk_mono_example :
    severity (compute_sla_risk 0 "under_review" "high" none (aware 0))
    ≤ severity (compute_sla_risk 7200000000 "under_review" "high" none (aware 0))
compute_sla_risk_mono_example =
    compute_sla_risk_mono 0 7200000000 "under_review" "high" none (aware 0) (omega arith)

compute_sla_risk-ne-key_error_example :
    compute_sla_risk 5 "queued" "low" (some "other") (aware 2) ≢ key_error
compute_sla_risk-ne-key_error_example =
    compute_sla_risk-ne-key_error 5 "queued" "low" (some "other") (aware 2)

cancel_request_contract_example :
    Outcome
      (Changed "req_1" none
        (λ row. is_in row.status cancelable_statuses ≡ true)
        (move_core RequestStatus.canceled)
        example_db)
      example_db
      (with_session
        (cancel_request example_host "req_1"
          (record { actor_id = "user_demo"; reason = "stop" })
          none)
        example_db)
cancel_request_contract_example =
    cancel_request_contract example_host "req_1"
      (record { actor_id = "user_demo"; reason = "stop" }) none example_db

amend_request_contract_example :
    Outcome
      (Changed "req_1" none
        (λ row. is_in row.status amendable_statuses ≡ true)
        (move_core RequestStatus.draft)
        example_db)
      example_db
      (with_session (amend_request example_host "req_1" example_amendment none) example_db)
amend_request_contract_example =
    amend_request_contract example_host "req_1" example_amendment none example_db

transition_request_contract_example :
    Outcome
      (Changed "req_1"
        (some "tenant_demo")
        (IsAllowed RequestStatus.approved example_db)
        (move_core RequestStatus.approved)
        example_db)
      example_db
      (with_session
        (transition_request example_host "req_1" example_approval (some "tenant_demo"))
        example_db)
transition_request_contract_example =
    transition_request_contract example_host "req_1" example_approval (some "tenant_demo")
      example_db

clone_request_contract_example :
    Outcome
      (Cloned "req_1" none example_db)
      example_db
      (with_session (clone_request example_host "req_1" example_copy none) example_db)
clone_request_contract_example =
    clone_request_contract example_host "req_1" example_copy none example_db

supersede_request_contract_example :
    Outcome
      (Superseded "req_1" "req_2" none example_db)
      example_db
      (with_session (supersede_request example_host "req_1" example_successor none) example_db)
supersede_request_contract_example =
    supersede_request_contract example_host "req_1" example_successor none example_db

operations-IsPublished_example :
    ((p : CreateRequestDraft) (actor own : String)
      → LeavesPublished example_host example_db (create_request_draft example_host p actor own))
    × ((p : SubmitRequest)
        → LeavesPublished example_host example_db (submit_request example_host "req_1" p none))
    × ((p : AmendRequest)
        → LeavesPublished example_host example_db (amend_request example_host "req_1" p none))
    × ((p : CancelRequest)
        → LeavesPublished example_host example_db (cancel_request example_host "req_1" p none))
    × ((p : TransitionRequest)
        → LeavesPublished example_host example_db (transition_request example_host "req_1" p none))
    × ((p : CloneRequest)
        → LeavesPublished example_host example_db (clone_request example_host "req_1" p none))
    × ((p : SupersedeRequest)
        → LeavesPublished example_host example_db (supersede_request example_host "req_1" p none))
operations-IsPublished_example =
    operations-IsPublished example_host "req_1" none example_db
      (record { numbered = tt; paired = refl })

promotion_readiness-Reports_example :
    Reports (example_check ∷ []) [] [] (promotion_readiness (example_check ∷ []) [] [])
promotion_readiness-Reports_example = promotion_readiness-Reports (example_check ∷ []) [] []

guards_agree_example :
    ((is_valid_transition RequestStatus.queued RequestStatus.canceled ≡ true) ↔ (
      (assert_cancelable RequestStatus.queued ≡ none)
      × (RequestStatus.queued ≢ RequestStatus.draft)))
    × ((is_valid_transition RequestStatus.queued RequestStatus.draft ≡ true) ↔ (
        (assert_submittable RequestStatus.queued ≡ none)
        × (RequestStatus.queued ≢ RequestStatus.draft)))
    × ((assert_amendable RequestStatus.queued ≡ none) ↔ (
        (assert_cancelable RequestStatus.queued ≡ none)
        × (RequestStatus.queued ≢ RequestStatus.in_execution)))
guards_agree_example = guards_agree RequestStatus.queued

cancel_request_iff_example :
    ((with_session
        (cancel_request example_host "req_1"
          (record { actor_id = "user_demo"; reason = "stop" })
          none)
        example_db).0
      ≡ ok tt)
    ↔ Accepted "req_1" none cancelable_statuses example_db
cancel_request_iff_example =
    cancel_request_iff example_host "req_1" (record { actor_id = "user_demo"; reason = "stop" })
      none example_db (record { numbered = tt; paired = refl })

amend_request_iff_example :
    ((with_session (amend_request example_host "req_1" example_amendment none) example_db).0
      ≡ ok tt)
    ↔ Accepted "req_1" none amendable_statuses example_db
amend_request_iff_example =
    amend_request_iff example_host "req_1" example_amendment none example_db
      (record { numbered = tt; paired = refl })

create_request_draft_contract_example :
    Outcome (Drafted example_host example_draft "user_demo" "tenant_demo" example_db) example_db (
      with_session
        (create_request_draft example_host example_draft "user_demo" "tenant_demo")
        example_db)
create_request_draft_contract_example =
    create_request_draft_contract example_host example_draft "user_demo" "tenant_demo" example_db

submit_request_contract_example :
    Outcome
      (Changed "req_2" none
        (IsSubmittable example_host example_db)
        (move_core RequestStatus.submitted)
        example_db)
      example_db
      (with_session
        (submit_request example_host "req_2"
          (record { actor_id = "user_demo"; reason = "ready" })
          none)
        example_db)
submit_request_contract_example =
    submit_request_contract example_host "req_2"
      (record { actor_id = "user_demo"; reason = "ready" }) none example_db

validate_payload-validate_payload_example :
    validate_payload (engine example_host) example_schema example_payload true ≡ ok example_payload
unfolding validate_payload
validate_payload-validate_payload_example =
    validate_payload-validate_payload (engine example_host) example_schema example_input
      example_payload true refl

validate_payload_draft_example :
    validate_payload (engine example_host) example_schema example_input false ≡ ok example_payload
unfolding validate_payload
validate_payload_draft_example =
    validate_payload_draft (engine example_host) example_schema example_input example_payload refl

validate_payload-AllGiven_example :
    AllGiven (engine example_host) (item (string "email") no_elements) example_payload
unfolding validate_payload list_at
validate_payload-AllGiven_example =
    validate_payload-AllGiven (engine example_host) example_schema example_input example_payload
      (item (string "email") no_elements) refl refl

perform_all-final_example :
    find_core "req_3" (
      cores (
        perform_all
          ((example_host, amending "req_3" example_amendment none)
            ∷ (example_host, transitioning "req_1" example_approval none)
            ∷ (example_host, superseding "req_3" example_successor none)
            ∷ [])
          example_db))
    ≡ some (core (example_request "req_3" RequestStatus.canceled))
unfolding perform_all is_in
perform_all-final_example =
    perform_all-final
      ((example_host, amending "req_3" example_amendment none)
        ∷ (example_host, transitioning "req_1" example_approval none)
        ∷ (example_host, superseding "req_3" example_successor none)
        ∷ [])
      "req_3" (core (example_request "req_3" RequestStatus.canceled)) example_db refl refl

perform_all-Progressed_example :
    Progressed "req_1" (core (example_request "req_1" RequestStatus.under_review)) (
      perform_all
        ((example_host, transitioning "req_1" example_approval none)
          ∷ (example_host, superseding "req_1" example_successor none)
          ∷ [])
        example_db)
unfolding perform_all
perform_all-Progressed_example =
    perform_all-Progressed
      ((example_host, transitioning "req_1" example_approval none)
        ∷ (example_host, superseding "req_1" example_successor none)
        ∷ [])
      "req_1" (core (example_request "req_1" RequestStatus.under_review)) example_db refl
