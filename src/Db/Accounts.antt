-- ===== src/Db/Accounts.antt =====
-- apps/api/app/db/models.py: users, teams and integrations. Instants are natural numbers.
use rgp.Prelude.{ℕ, String, Bool, Option, List}
use rgp.Json.{Entries}

pub record UserTable : Type 0 where
  pub id : String
  pub tenant_id : String
  pub display_name : String
  pub email : String
  pub role_summary : List String
  pub status : String
  pub password_hash : Option String
  pub password_reset_required : Bool
  pub registration_request_id : Option String
  pub created_at : ℕ
  pub updated_at : ℕ

pub record TeamTable : Type 0 where
  pub id : String
  pub tenant_id : String
  pub organization_id : String
  pub name : String
  pub kind : String
  pub status : String
  pub created_at : ℕ
  pub updated_at : ℕ

pub record TeamMembershipTable : Type 0 where
  pub id : String
  pub tenant_id : String
  pub team_id : String
  pub user_id : String
  pub role : String
  pub created_at : ℕ

pub record IntegrationTable : Type 0 where
  pub id : String
  pub tenant_id : String
  pub name : String
  pub type : String
  pub status : String
  pub endpoint : String
  pub settings : Entries
