-- ===== src/Db/Runs.antt =====
-- apps/api/app/db/models.py: runs, reviews and promotions. Instants are natural numbers.
use rgp.Prelude.{ℕ, String, Bool, Option, List}
use rgp.Json.{Entries}

-- models/governance.py
pub data RunStatus : Type 0 where
  queued running waiting failed completed paused : RunStatus

pub data StepStatus : Type 0 where
  completed active blocked failed pending : StepStatus

-- An entry of `steps`
pub record RunStep : Type 0 where
  pub id : String
  pub name : String
  pub status : StepStatus
  pub owner : String

-- An entry of `required_approvals`
pub record Approval : Type 0 where
  pub reviewer : String
  pub state : String
  pub scope : String

-- An entry of `required_checks`
pub record RequiredCheck : Type 0 where
  pub name : String
  pub state : String
  pub detail : String

-- An entry of `promotion_history`
pub record HistoryEntry : Type 0 where
  pub timestamp : ℕ
  pub actor : String
  pub action : String

pub record RunTable : Type 0 where
  pub id : String
  pub request_id : String
  pub workflow : String
  pub status : RunStatus
  pub current_step : String
  pub elapsed_time : String
  pub waiting_reason : Option String
  pub updated_at : ℕ
  pub owner_team : String
  pub workflow_identity : String
  pub progress_percent : ℕ
  pub current_step_input_summary : String
  pub current_step_output_summary : String
  pub failure_reason : Option String
  pub command_surface : List String
  pub steps : List RunStep
  pub run_context : List (String × String)
  pub conversation_thread_id : String

pub record RuntimeDispatchTable : Type 0 where
  pub id : String
  pub tenant_id : String
  pub run_id : String
  pub request_id : String
  pub integration_id : String
  pub dispatch_type : String
  pub status : String
  pub external_reference : Option String
  pub detail : String
  pub payload : Entries
  pub response_payload : Entries
  pub dispatched_at : ℕ

pub record ReviewQueueTable : Type 0 where
  pub id : String
  pub request_id : String
  pub review_scope : String
  pub artifact_or_changeset : String
  pub type : String
  pub priority : String
  pub sla : String
  pub blocking_status : String
  pub assigned_reviewer : String
  pub stale : Bool

pub record PromotionTable : Type 0 where
  pub id : String
  pub request_id : String
  pub target : String
  pub strategy : String
  pub required_checks : List RequiredCheck
  pub required_approvals : List Approval
  pub stale_warnings : List String
  pub execution_readiness : String
  pub promotion_history : List HistoryEntry
