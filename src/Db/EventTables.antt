-- ===== src/Db/EventTables.antt =====
-- apps/api/app/db/models.py: the event store and its outbox. Instants are natural numbers.
use rgp.Prelude.{ℕ, String, Option}
use rgp.Json.{Entries}

pub record EventStoreTable : Type 0 where
  pub id : ℕ
  pub tenant_id : String
  pub event_type : String
  pub aggregate_type : String
  pub aggregate_id : String
  pub request_id : Option String
  pub run_id : Option String
  pub artifact_id : Option String
  pub promotion_id : Option String
  pub check_run_id : Option String
  pub actor : String
  pub detail : String
  pub payload : Entries
  pub occurred_at : ℕ

pub record EventOutboxTable : Type 0 where
  pub id : ℕ
  pub event_store_id : ℕ
  pub tenant_id : String
  pub topic : String
  pub partition_key : String
  pub payload : Entries
  pub status : String
  pub backend : String
  pub error_message : Option String
  pub created_at : ℕ
  pub published_at : Option ℕ
