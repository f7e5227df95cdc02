-- ===== src/Db.antt =====
-- The database that the services share (apps/api/app/db/models.py), and the session over it.
pub mod Requests
pub mod Accounts
pub mod Runs
pub mod Artifacts
pub mod CheckTables
pub mod EventTables
pub mod Workflows
pub mod Governance
use rgp.Prelude.{List}
pub use Requests.{RequestTable, TemplateTable, RequestEventTable, RequestRelationshipTable}
pub use Accounts.{UserTable, TeamTable, TeamMembershipTable, IntegrationTable}
pub use Runs.{RunTable, RuntimeDispatchTable, ReviewQueueTable, PromotionTable}
pub use Artifacts.{ArtifactTable, ArtifactEventTable, ArtifactLineageEdgeTable}
pub use CheckTables.{CheckResultTable, CheckOverrideTable, CheckRunTable, TransitionGateTable}
pub use EventTables.{EventStoreTable, EventOutboxTable}
pub use Workflows.{
  WorkflowDefinitionTable, WorkflowExecutionTable, WorkflowStepExecutionTable,
  WorkflowExecutionStatus, WorkflowStepStatus,
}
pub use Governance.{CollaborationModeTransitionTable, PolicyRuleTable}

-- What the platform records of its own actions: tables that are only appended to.
pub record Journal : Type 0 where
  pub request_events : List RequestEventTable
  pub relationships : List RequestRelationshipTable
  pub artifact_events : List ArtifactEventTable
  pub artifact_lineage : List ArtifactLineageEdgeTable

-- The events of the platform, and what is to be published of them.
pub record EventLog : Type 0 where
  pub event_store : List EventStoreTable
  pub event_outbox : List EventOutboxTable

-- The tables that stand beside the requests.
pub record Tables : Type 0 where
  pub templates : List TemplateTable
  pub users : List UserTable
  pub teams : List TeamTable
  pub memberships : List TeamMembershipTable
  pub integrations : List IntegrationTable
  pub runs : List RunTable
  pub dispatches : List RuntimeDispatchTable
  pub reviews : List ReviewQueueTable
  pub promotions : List PromotionTable
  pub artifacts : List ArtifactTable
  pub check_results : List CheckResultTable
  pub check_overrides : List CheckOverrideTable
  pub check_runs : List CheckRunTable
  pub transition_gates : List TransitionGateTable

-- The tables of the services that work beside the repository.
pub record Services : Type 0 where
  pub workflow_definitions : List WorkflowDefinitionTable
  pub workflow_executions : List WorkflowExecutionTable
  pub workflow_steps : List WorkflowStepExecutionTable
  pub mode_transitions : List CollaborationModeTransitionTable
  pub policy_rules : List PolicyRuleTable

pub record Db : Type 0 where
  pub requests : List RequestTable
  pub journal : Journal
  pub events : EventLog
  pub tables : Tables
  pub services : Services
