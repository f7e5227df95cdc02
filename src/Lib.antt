-- ===== src/Lib.antt =====
-- The request platform's API core: how a governed request moves through its lifecycle.
--
-- A request (apps/api/app/models/request.py) is a row of a relational database
-- (apps/api/app/db/models.py). The repository (apps/api/app/repositories/governance_repository.py)
-- changes it in sessions: each operation loads the row, checks the tenant and the status, writes,
-- records events and commits. The rules of the lifecycle are pure functions
-- (apps/api/app/domain/state_machine.py). A transition may be gated by checks
-- (apps/api/app/services/policy_check_service.py), which are queued as check runs
-- (apps/api/app/services/check_dispatch_service.py), and it has side effects on runs, artifacts,
-- reviews, promotions and users. Every event is stored and put into an outbox
-- (apps/api/app/services/event_store_service.py, event_publisher_service.py).
--
-- Request: statuses and priorities. StateMachine: TRANSITION_RULES, the status sets and assertions;
--   StateMachine/Paths: chains of transitions; StateMachine/Sla: compute_sla_risk.
-- Db and the files below it: the tables, a record for each with the columns of the source.
-- Session: `with SessionLocal() as session` as a state with the tables as the open transaction sees
--   them and as they are committed; an operation is an action that returns or raises, and what it
--   has not committed is lost. Session/Preserves and Session/Contracts: reasoning about actions.
-- Events: append and enqueue; Events/Outbox: the outbox follows the event store.
-- Checks and Checks/Evaluation: PolicyCheckService; Checks/Dispatch: CheckDispatchService; Checks/Readiness.
-- Template: coerce_value; Template/Payload: validate_payload; Template/Routing: resolve_routing, of
--   apps/api/app/domain/template_engine.py.
-- Lifecycle: helpers of the repository; Lifecycle/Submission: create_request_draft and
--   submit_request; Lifecycle/Operations: amend_request, cancel_request, transition_request,
--   clone_request and supersede_request; Lifecycle/Decisions: record_review_decision;
--   Lifecycle/Effects:
--   _apply_transition_side_effects, with Artifacts, Runs, Reviews and Registration for the functions
--   that it calls. Lifecycle/Preserved: what side effects leave alone, for any invariant that their
--   single writes keep. Lifecycle/Contracts: the contract of each operation, with Additions for those that add a request; its
--   children Final and Progress: sequences of operations.
-- Bridge: get_request_state of apps/api/app/services/request_state_bridge.py.
-- Workflow: apps/api/app/services/workflow_engine_service.py. An execution is a row with a status and
--   the index of its current step; Workflow/Commands: advance_step, pause_workflow, resume_workflow,
--   cancel_workflow, retry_step and skip_step; Workflow/Detail: get_execution;
--   Workflow/Moves: the moves that commands make;
--   Workflow/Starts: what a start adds; Workflow/Sequences, Bounds, Places, Final and Termination:
--   sequences of starts and commands.
-- Policy: evaluate_condition of apps/api/app/domain/policy_dsl.py; Policy/Rules: its actions and rules;
--   Policy/Laws and WellFormed: conditions; Policy/Engine:
--   apps/api/app/services/policy_engine_service.py, with Isolation for the tenants.
-- Graph: traverse and impact_analysis of apps/api/app/services/relationship_graph_service.py;
--   Graph/Dependencies: assert_dependencies_met, and
--   apps/api/app/services/dependency_execution_service.py; Graph/Order: get_dependency_order, with
--   Totality.
-- Collaboration: apps/api/app/services/collaboration_mode_service.py, with History and Chains.
-- Checks/Registry: apps/api/app/domain/check_registry.py.
-- Session/Outcomes: operations that commit, or raise and leave the database as it was.
-- Json: dict, list and scalar values; Text: decimal numbers and identifiers.
-- Examples: the theorems at concrete inputs.
--
-- Instants and numbers are natural numbers. The settings, the clock, random identifiers, the text
-- methods of Python, the task broker, the runtime and the second store are fields of Session.Host;
-- nothing is assumed of them. The floats and regular expressions of policy conditions are the fields
-- of Policy.Python. A row that an operation holds is read again by its key. Three loops
-- have fuel: decimal numbers, which have fewer digits than their value, and the traversal of
-- relationships, which takes at most one round for each relationship and one for the start, and the
-- topological sort, which takes at most one for each given request and each degree. A missing row
-- that the second store (DynamoDB) may hold is the error `delegated`. Stored events get the keys that
-- the next number of rows gives, where a database may leave gaps. A session does not flush by itself:
-- where an operation looks for a row that it has just added, it finds it if something has flushed.
--
-- Not modelled: the web application, the HTTP layer, the DynamoDB adapter, the workers that evaluate
-- checks, agents, projections to external systems, analytics and billing, which are input, output
-- or records beside the lifecycle of a request; queue routing, sagas and editorial stages, access to
-- tools (MCP) and the validation of template definitions, which stand beside it too.
pub mod Prelude
pub mod Text
pub mod Json
pub mod Request
pub mod StateMachine
pub mod Db
pub mod Session
pub mod Events
pub mod Checks
pub mod Lifecycle
pub mod Examples
pub mod Template
pub mod Bridge
pub mod Workflow
pub mod Policy
pub mod Graph
pub mod Collaboration
