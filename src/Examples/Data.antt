-- ===== src/Examples/Data.antt =====
-- A small platform: one tenant's requests, a gate and its check, for the examples.
use rgp.Prelude.{String, true, false, none, some, [], ◌∷◌}
use rgp.Json.{Entries, string, dict_of, list_of, item, no_elements, entry, no_entries}
use rgp.Request.{RequestStatus, RequestPriority}
use rgp.Db.{Db, RequestTable, TemplateTable, TransitionGateTable, CheckResultTable}
use rgp.Session.{Host}
use rgp.Lifecycle.Submission.{CreateRequestDraft}
use rgp.Lifecycle.Operations.{AmendRequest, CloneRequest, SupersedeRequest, TransitionRequest}

abbrev pub example_host : Host
example_host = record {
  now = 1000;
  isoformat = λ _. "2026-01-01T00:00:00Z";
  hex12 = λ _. "0123456789ab";
  hex10 = λ _. "0123456789";
  lower = λ t. t;
  strip = λ t. t;
  title = λ t. t;
  replace = λ t _ _. t;
  has_substring = λ _ _. false;
  show = λ _. "value";
  fullmatch = λ _ _. true;
  check_dispatch_local = true;
  event_bus_topic_prefix = "rgp";
  event_bus_backend = "local";
  event_family = λ t. t;
  send_task = λ _. none;
  runtime_dispatch = λ _ _. some no_entries;
  dynamodb_request = λ _ _. none;
  dynamodb_tenant = λ _. none;
}

-- A required address, and a role that has a default
abbrev pub example_schema : Entries
example_schema =
    entry "properties"
      (dict_of (
        entry "email" (dict_of (entry "type" (string "string") no_entries))
          (entry "role" (dict_of (entry "default" (string "submitter") no_entries)) no_entries)))
      (entry "required" (list_of (item (string "email") no_elements)) no_entries)

abbrev pub example_input : Entries
example_input = entry "email" (string "a@example.org") no_entries

abbrev pub example_payload : Entries
example_payload =
    entry "email" (string "a@example.org") (entry "role" (string "submitter") no_entries)

abbrev pub example_request : String → RequestStatus → RequestTable
example_request id status = record {
  id = id;
  tenant_id = "tenant_demo";
  request_type = "custom";
  template_id = "tmpl_curriculum";
  template_version = "1.0";
  title = "Unit";
  summary = "A unit";
  status = status;
  priority = "medium";
  sla_policy_id = none;
  submitter_id = "user_demo";
  owner_team_id = none;
  owner_user_id = none;
  workflow_binding_id = none;
  current_run_id = none;
  policy_context = no_entries;
  input_payload = example_input;
  tags = [];
  created_at = 1;
  created_by = "user_demo";
  updated_at = 1;
  updated_by = "user_demo";
  version = 1;
  is_archived = false;
}

abbrev pub example_gate : TransitionGateTable
example_gate = record {
  id = "gate_1";
  tenant_id = "tenant_demo";
  policy_id = "policy_1";
  gate_scope = "request";
  transition_target = "approved";
  required_check_name = "Intake Completeness";
  gate_order = 1;
  active = true;
}

abbrev pub example_check : CheckResultTable
example_check = record {
  id = "reqchk_1";
  request_id = "req_1";
  promotion_id = none;
  name = "Intake Completeness";
  state = "passed";
  detail = "";
  severity = "required";
  evidence = "";
  evaluated_at = 2;
  evaluated_by = "system";
}

abbrev example_template : TemplateTable
example_template = record {
  pk = 1;
  tenant_id = "tenant_demo";
  id = "tmpl_curriculum";
  version = "1.0";
  name = "Curriculum";
  description = "";
  status = "published";
  template_schema = example_schema;
  created_at = 1;
  updated_at = 1;
}

abbrev pub example_draft : CreateRequestDraft
example_draft = record {
  template_id = "tmpl_curriculum";
  template_version = "1.0";
  title = "Unit";
  summary = "A unit";
  priority = RequestPriority.medium;
  input_payload = example_input;
}

-- Three requests: under review, a draft, and canceled
abbrev pub example_db : Db
example_db = record {
  requests =
      example_request "req_1" RequestStatus.under_review
      ∷ example_request "req_2" RequestStatus.draft
      ∷ example_request "req_3" RequestStatus.canceled
      ∷ [];
  journal = record {
    request_events = [];
    relationships = [];
    artifact_events = [];
    artifact_lineage = [];
  };
  events = record { event_store = []; event_outbox = [] };
  tables = record {
    templates = example_template ∷ [];
    users = [];
    teams = [];
    memberships = [];
    integrations = [];
    runs = [];
    dispatches = [];
    reviews = [];
    promotions = [];
    artifacts = [];
    check_results = example_check ∷ [];
    check_overrides = [];
    check_runs = [];
    transition_gates = example_gate ∷ [];
  };
  services = record {
    workflow_definitions = [];
    workflow_executions = [];
    workflow_steps = [];
    mode_transitions = [];
    policy_rules = [];
  };
}

abbrev pub example_amendment : AmendRequest
example_amendment = record {
  actor_id = "user_demo";
  reason = "new title";
  title = some "Other unit";
  summary = none;
  priority = none;
  input_payload = none;
}

abbrev pub example_approval : TransitionRequest
example_approval = record {
  actor_id = "user_demo";
  target_status = RequestStatus.approved;
  reason = "reviewed";
}

abbrev pub example_copy : CloneRequest
example_copy = record { actor_id = "user_demo"; reason = "again"; title = none; summary = none }

abbrev pub example_successor : SupersedeRequest
example_successor = record {
  actor_id = "user_demo";
  replacement_request_id = "req_2";
  reason = "replaced";
}
