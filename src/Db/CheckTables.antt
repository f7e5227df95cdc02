-- ===== src/Db/CheckTables.antt =====
-- apps/api/app/db/models.py: checks, check runs and transition gates. Instants are natural numbers.
use rgp.Prelude.{ℕ, String, Bool, Option}

-- models/governance.py
pub data CheckRunStatus : Type 0 where
  queued running completed failed : CheckRunStatus

pub record CheckResultTable : Type 0 where
  pub id : String
  pub request_id : String
  pub promotion_id : Option String
  pub name : String
  pub state : String
  pub detail : String
  pub severity : String
  pub evidence : String
  pub evaluated_at : ℕ
  pub evaluated_by : String

pub record CheckOverrideTable : Type 0 where
  pub id : String
  pub check_result_id : String
  pub request_id : String
  pub promotion_id : Option String
  pub state : String
  pub reason : String
  pub requested_by : String
  pub decided_by : String
  pub created_at : ℕ
  pub decided_at : ℕ

pub record CheckRunTable : Type 0 where
  pub id : String
  pub request_id : String
  pub promotion_id : Option String
  pub scope : String
  pub status : CheckRunStatus
  pub trigger_reason : String
  pub enqueued_by : String
  pub worker_task_id : Option String
  pub error_message : Option String
  pub queued_at : ℕ
  pub started_at : Option ℕ
  pub completed_at : Option ℕ

pub record TransitionGateTable : Type 0 where
  pub id : String
  pub tenant_id : String
  pub policy_id : String
  pub gate_scope : String
  pub transition_target : String
  pub required_check_name : String
  pub gate_order : ℕ
  pub active : Bool
