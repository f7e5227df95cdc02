-- ===== src/Db/Governance.antt =====
-- apps/api/app/db/models.py and models/collaboration.py: collaboration modes and policy rules.
use rgp.Prelude.{ℕ, String, Bool, Option}
use rgp.Json.{Elements, Entries}

pub record CollaborationModeTransitionTable : Type 0 where
  pub id : String
  pub tenant_id : String
  pub request_id : String
  pub from_mode : String
  pub to_mode : String
  pub actor : String
  pub reason : Option String
  pub policy_basis : Option Entries
  pub created_at : ℕ

-- The condition and the actions are JSON.
pub record PolicyRuleTable : Type 0 where
  pub id : String
  pub tenant_id : String
  pub policy_id : String
  pub name : String
  pub condition : Entries
  pub actions : Elements
  pub priority : ℕ
  pub active : Bool
  pub created_at : ℕ
  pub updated_at : ℕ
