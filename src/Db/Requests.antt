-- ===== src/Db/Requests.antt =====
-- apps/api/app/db/models.py: the requests and what is recorded of them. Instants are natural numbers.
use rgp.Prelude.{ℕ, String, Bool, Option, List}
use rgp.Json.{Entries}
use rgp.Request.{RequestStatus}

pub record RequestTable : Type 0 where
  pub id : String
  pub tenant_id : String
  pub request_type : String
  pub template_id : String
  pub template_version : String
  pub title : String
  pub summary : String
  pub status : RequestStatus
  pub priority : String
  pub sla_policy_id : Option String
  pub submitter_id : String
  pub owner_team_id : Option String
  pub owner_user_id : Option String
  pub workflow_binding_id : Option String
  pub current_run_id : Option String
  pub policy_context : Entries
  pub input_payload : Entries
  pub tags : List String
  pub created_at : ℕ
  pub created_by : String
  pub updated_at : ℕ
  pub updated_by : String
  pub version : ℕ
  pub is_archived : Bool

pub record TemplateTable : Type 0 where
  pub pk : ℕ
  pub tenant_id : String
  pub id : String
  pub version : String
  pub name : String
  pub description : String
  pub status : String
  pub template_schema : Entries
  pub created_at : ℕ
  pub updated_at : ℕ

pub record RequestEventTable : Type 0 where
  pub id : ℕ
  pub request_id : String
  pub timestamp : ℕ
  pub actor : String
  pub action : String
  pub object_type : String
  pub object_id : String
  pub reason_or_evidence : String

pub record RequestRelationshipTable : Type 0 where
  pub id : ℕ
  pub source_request_id : String
  pub target_request_id : String
  pub relationship_type : String
  pub created_at : ℕ
  pub created_by : String
