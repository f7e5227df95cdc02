-- ===== src/Lifecycle/Submission.antt =====
-- governance_repository.py: a request is drafted and submitted. Its payload is validated against its
-- template, and the template's routing is stored. A routed owner or workflow that is no text is a
-- type error here, where the source leaves it to the database driver.
use rgp.Prelude.{
  String, ◌<>◌, Bool, false, not, ◌&&◌, Option, none, some, List, [], ◌∷◌, ◌++◌, first, str_eq,
  if◌then◌else◌,
}
use rgp.Json.{Value, Entries, string, dict_of, list_of, no_entries, entry, put, truthy}
use rgp.Text.{join}
use rgp.Request.{RequestPriority, status_value, priority_value, is_in, draft, submitted}
use rgp.StateMachine.{submittable_statuses}
use rgp.Db.{Db, RequestTable, TemplateTable}
use rgp.Session.{
  Host, Action, Result, ok, err, value_error, type_error, pure, read, required, lift,
  write_requests, raise_if, commit, ◌>>=◌, ◌>>◌,
}
use rgp.Events.{append_event, opt_str, or_text}
use rgp.Checks.Dispatch.{enqueue_request_checks}
use rgp.Template.{Engine}
use rgp.Template.Payload.{validate_payload}
use rgp.Template.Routing.{Routing, resolve_routing}
use rgp.Lifecycle.{modify_request, next_id}
use rgp.Lifecycle.Reviews.{texts_of}
use rgp.Lifecycle.Operations.{load_request, moved}

pub record CreateRequestDraft : Type 0 where
  pub template_id : String
  pub template_version : String
  pub title : String
  pub summary : String
  pub priority : RequestPriority
  pub input_payload : Entries

pub record SubmitRequest : Type 0 where
  pub actor_id : String
  pub reason : String

abbrev pub engine : Host → Engine
engine host = record {
  strip = host.strip;
  show = host.show;
  has_substring = host.has_substring;
  fullmatch = host.fullmatch;
}

abbrev pub find_template : String → String → String → Db → Option TemplateTable
find_template id version tenant d =
    first (λ t. str_eq t.id id && str_eq t.version version && str_eq t.tenant_id tenant)
      d.tables.templates

unfoldable pub draft_row :
    Host → CreateRequestDraft → String → String → Entries → String → RequestTable
unfolding priority_value
draft_row host p actor_id tenant_id payload id = record {
  id = id;
  tenant_id = tenant_id;
  request_type = "custom";
  template_id = p.template_id;
  template_version = p.template_version;
  title = p.title;
  summary = p.summary;
  status = draft;
  priority = priority_value p.priority;
  sla_policy_id = none;
  submitter_id = actor_id;
  owner_team_id = none;
  owner_user_id = none;
  workflow_binding_id = none;
  current_run_id = none;
  policy_context = no_entries;
  input_payload = payload;
  tags = [];
  created_at = host.now;
  created_by = actor_id;
  updated_at = host.now;
  updated_by = actor_id;
  version = 1;
  is_archived = false;
}

-- The identifier of the draft is returned.
unfoldable pub create_request_draft : Host → CreateRequestDraft → String → String → Action String
unfolding validate_payload draft_row
create_request_draft host p actor_id tenant_id = do
  found ← read (find_template p.template_id p.template_version tenant_id)
  template ←
      required
        (value_error (
          "Template " <> p.template_id <> "@" <> p.template_version
          <> " is not available for tenant " <> tenant_id))
        found
  payload ← lift (validate_payload (engine host) template.template_schema p.input_payload false)
  id ← next_id host "req_"
  write_requests (λ rows. rows ++ draft_row host p actor_id tenant_id payload id ∷ [])
  append_event host id actor_id "Draft Created" "Initial draft created through API"
  commit
  pure id

-- routing[key] or the value of the column
unfoldable pub routed_column : Value → Option String → Result {0} (Option String)
unfolding truthy
routed_column (string t) column = ok (if str_eq t "" then column else some t)
routed_column v column = if truthy v then err (type_error "routing") else ok column

routing_context : Host → Option String → Option String → Routing → Value
routing_context host owner binding routing = dict_of (
    entry "resolved_at" (string (host.isoformat host.now)) (
      entry "owner_team_id" (opt_str owner) (
        entry "workflow_binding_id" (opt_str binding) (
          entry "reviewers" (list_of routing.reviewers)
            (entry "promotion_approvers" (list_of routing.promotion_approvers) no_entries)))))

unfoldable pub routed_row :
    Host → Option String → Option String → Routing → RequestTable → RequestTable
unfolding routing_context put
routed_row host owner binding routing r = record r {
  owner_team_id = owner;
  workflow_binding_id = binding;
  policy_context = put "routing" (routing_context host owner binding routing) r.policy_context;
}

routing_evidence : Option String → Option String → List String → String
routing_evidence owner binding reviewers =
    "owner_team="
    <> or_text owner "unassigned"
    <> " workflow_binding="
    <> or_text binding "unassigned"
    <> " reviewers="
    <> or_text (some (join reviewers)) "none"

unfoldable pub submit_request : Host → String → SubmitRequest → Option String → Action Unit
unfolding is_in submittable_statuses load_request validate_payload resolve_routing routed_column
    routed_row routing_evidence texts_of
submit_request host request_id p tenant_id = do
  row ← load_request request_id tenant_id
  found ← read (find_template row.template_id row.template_version row.tenant_id)
  template ←
      required
        (value_error (
          "Bound template " <> row.template_id <> "@" <> row.template_version
          <> " is no longer available"))
        found
  payload ←
      lift (validate_payload (engine host) template.template_schema row.input_payload Bool.true)
  modify_request request_id (λ r. record r { input_payload = payload })
  routing ← lift (resolve_routing template.template_schema payload)
  owner ← lift (routed_column routing.owner_team_id row.owner_team_id)
  binding ← lift (routed_column routing.workflow_binding_id row.workflow_binding_id)
  modify_request request_id (routed_row host owner binding routing)
  raise_if (not (is_in row.status submittable_statuses)) (
      value_error (
        "Request " <> request_id <> " cannot be submitted from status " <> status_value row.status))
  modify_request request_id (moved host submitted p.actor_id)
  enqueue_request_checks host request_id p.actor_id p.reason
  append_event host request_id p.actor_id "Submitted" p.reason
  reviewers ← required (type_error "reviewers") (texts_of routing.reviewers)
  append_event host request_id p.actor_id "Routing Resolved"
      (routing_evidence owner binding reviewers)
  commit
