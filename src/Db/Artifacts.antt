-- ===== src/Db/Artifacts.antt =====
-- apps/api/app/db/models.py: artifacts, their events and their lineage. Instants are natural numbers.
use rgp.Prelude.{ℕ, String, Bool, Option, List}

-- An entry of `versions`
pub record ArtifactVersion : Type 0 where
  pub id : String
  pub label : String
  pub status : String
  pub created_at : ℕ
  pub author : String
  pub summary : String
  pub content : String
  pub content_ref : String

pub record ArtifactTable : Type 0 where
  pub id : String
  pub type : String
  pub name : String
  pub current_version : String
  pub status : String
  pub request_id : String
  pub updated_at : ℕ
  pub owner : String
  pub review_state : String
  pub promotion_relevant : Bool
  pub versions : List ArtifactVersion
  pub selected_version_id : String
  pub stale_review : Bool

pub record ArtifactEventTable : Type 0 where
  pub id : ℕ
  pub artifact_id : String
  pub artifact_version_id : Option String
  pub timestamp : ℕ
  pub actor : String
  pub action : String
  pub detail : String

pub record ArtifactLineageEdgeTable : Type 0 where
  pub id : ℕ
  pub artifact_id : String
  pub from_version_id : Option String
  pub to_version_id : String
  pub relation : String
  pub created_at : ℕ
