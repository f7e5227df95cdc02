-- ===== src/Lifecycle/Runs.antt =====
-- governance_repository.py: the run of a request, and its dispatch to the runtime.
use rgp.Prelude.{
  String, ◌<>◌, Bool, false, not, ◌&&◌, Option, none, some, List, [], ◌∷◌, ◌++◌, any, first, update,
  str_eq, if◌then◌else◌,
}
use rgp.Json.{Entries, string, no_entries, entry, get, get_default, truthy}
use rgp.Request.{RequestStatus, status_value, status_eq, queued, in_execution, awaiting_review}
use rgp.Db.{Db, RequestTable, RunTable, RuntimeDispatchTable, IntegrationTable}
use rgp.Db.Runs.{RunStatus, StepStatus, RunStep}
use rgp.Session.{Host, Action, value_error, read, required, write_tables, when, ◌>>=◌, ◌>>◌}
use rgp.Events.{append, or_text}
use rgp.Lifecycle.{get_request, modify_request, next_id, to_text, default_binding}

abbrev pub modify_run : String → (RunTable → RunTable) → Action Unit
modify_run run_id f =
    write_tables (λ t. record t { runs = update (λ r. str_eq r.id run_id) f t.runs })

-- One of three values, by the status that the request enters
abbrev by_target : {A : Type 0} → RequestStatus → A → A → A → A
by_target target a b c =
    if status_eq target queued then a else if status_eq target in_execution then b else c

run_steps : RequestStatus → List RunStep
unfolding status_eq
run_steps target =
    (record {
      id = "step_1";
      name = "Queue Request";
      owner = "system";
      status = if status_eq target queued then StepStatus.active else StepStatus.completed;
    })
    ∷ (record {
      id = "step_2";
      name = "Execute Governed Workflow";
      owner = "agent-runtime";
      status = if status_eq target in_execution then StepStatus.active else StepStatus.pending;
    })
    ∷ (record {
      id = "step_3";
      name = "Human Review";
      owner = "review_queue";
      status = if status_eq target awaiting_review then StepStatus.blocked else StepStatus.pending;
    })
    ∷ []

new_run : Host → RequestTable → RequestStatus → String → RunTable
unfolding status_eq status_value run_steps
new_run host row target run_id = record {
  id = run_id;
  request_id = row.id;
  workflow =
      host.title (host.replace (host.replace row.template_id "tmpl_" "") "_" " ") <> " Workflow";
  status = by_target target RunStatus.queued RunStatus.running RunStatus.waiting;
  current_step = by_target target "Queue Request" "Execute Governed Workflow" "Human Review";
  elapsed_time = "0m";
  waiting_reason =
      if status_eq target queued
      then some "Awaiting execution slot"
      else if status_eq target awaiting_review
      then some "Awaiting reviewer approval"
      else none;
  updated_at = host.now;
  owner_team = or_text row.owner_team_id "team_ops";
  workflow_identity = or_text row.workflow_binding_id (default_binding host row);
  progress_percent = by_target target 10 40 80;
  current_step_input_summary = "Request " <> row.id <> " entered " <> status_value target <> ".";
  current_step_output_summary = "Governed processing initialized.";
  failure_reason = none;
  command_surface = "Pause" ∷ "Resume" ∷ "Retry Step" ∷ "Cancel Run" ∷ [];
  steps = run_steps target;
  run_context =
      ("Template", row.template_id <> "@" <> row.template_version)
      ∷ ("Priority", row.priority)
      ∷ ("Request Status", status_value target)
      ∷ [];
  conversation_thread_id = "thr_" <> run_id;
}

abbrev pub has_run : Option String → Db → Bool
has_run none d = false
has_run (some run_id) d = not (str_eq run_id "") && any (λ r. str_eq r.id run_id) d.tables.runs

unfoldable pub add_run : Host → RequestTable → RequestStatus → Action Unit
unfolding new_run
add_run host row target = do
  run_id ← next_id host "run_"
  write_tables (λ t. record t { runs = t.runs ++ new_run host row target run_id ∷ [] })
  modify_request row.id (λ r. record r { current_run_id = some run_id })

unfoldable pub ensure_run_for_request : Host → String → RequestStatus → Action Unit
unfolding add_run
ensure_run_for_request host request_id target = do
  row ← get_request request_id
  found ← read (has_run row.current_run_id)
  when (not found) (add_run host row target)

dispatch_payload : Host → RequestTable → String → String → String → Entries
dispatch_payload host row run_id dispatch_type actor_id = entry "request_id" (string row.id) (
    entry "run_id" (string run_id) (
      entry "dispatch_type" (string dispatch_type) (
        entry "workflow_binding_id"
          (string (or_text row.workflow_binding_id (default_binding host row)))
          (entry "template_id" (string row.template_id) (
            entry "template_version" (string row.template_version) (
              entry "priority" (string row.priority)
                (entry "actor_id" (string actor_id) no_entries)))))))

dispatch_summary : Host → String → Entries → String
unfolding get
dispatch_summary host dispatch_type response =
    to_text host (
      get_default "summary" (string ("Runtime accepted " <> dispatch_type <> " dispatch."))
        response)

external_reference : Host → Entries → Option String
unfolding get truthy
external_reference host response = elim (get "dispatch_id" response) [
  | none ↦ none
  | some v ↦ if truthy v then some (to_text host v) else none
]

new_dispatch :
    Host
    → RequestTable
    → IntegrationTable
    → String
    → String
    → Entries
    → Entries
    → String
    → RuntimeDispatchTable
unfolding get dispatch_summary external_reference
new_dispatch host row integration run_id dispatch_type payload response id = record {
  id = id;
  tenant_id = row.tenant_id;
  run_id = run_id;
  request_id = row.id;
  integration_id = integration.id;
  dispatch_type = dispatch_type;
  status = to_text host (get_default "status" (string "accepted") response);
  external_reference = external_reference host response;
  detail = dispatch_summary host dispatch_type response;
  payload = payload;
  response_payload = response;
  dispatched_at = host.now;
}

-- What the run shows of the runtime's answer
run_dispatched : Host → String → Entries → RunTable → RunTable
unfolding get
run_dispatched host dispatch_type response r = record r {
  current_step_output_summary =
      to_text host (get_default "summary" (string r.current_step_output_summary) response);
  run_context =
      r.run_context
      ++ ("Runtime Dispatch", dispatch_type)
        ∷ (
          "Runtime Reference",
          to_text host (get_default "dispatch_id" (string "accepted") response),
        )
        ∷ [];
}

unfoldable pub send_dispatch :
    Host → RequestTable → IntegrationTable → String → String → String → Action Unit
unfolding dispatch_payload new_dispatch run_dispatched dispatch_summary
send_dispatch host row integration run_id dispatch_type actor_id = do
  let payload = dispatch_payload host row run_id dispatch_type actor_id
  response ←
      required (value_error "Runtime dispatch failed") (host.runtime_dispatch integration payload)
  id ← next_id host "rtd_"
  write_tables (λ t. record t {
    dispatches =
        t.dispatches
        ++ new_dispatch host row integration run_id dispatch_type payload response id ∷ [];
  })
  append host (record {
    tenant_id = row.tenant_id;
    event_type = "runtime.dispatch." <> dispatch_type;
    aggregate_type = "run";
    aggregate_id = run_id;
    actor = actor_id;
    detail = dispatch_summary host dispatch_type response;
    request_id = some row.id;
    run_id = some run_id;
    artifact_id = none;
    promotion_id = none;
    check_run_id = none;
    payload = payload;
  })
  modify_run run_id (run_dispatched host dispatch_type response)

abbrev is_runtime : String → IntegrationTable → Bool
is_runtime tenant_id i =
    str_eq i.tenant_id tenant_id && str_eq i.type "runtime" && str_eq i.status "connected"

unfoldable pub dispatch_run_to_runtime :
    Host → String → String → String → String → Bool → Action Unit
unfolding send_dispatch
dispatch_run_to_runtime host request_id run_id dispatch_type actor_id force = do
  row ← get_request request_id
  found ← read (λ d. first (is_runtime row.tenant_id) d.tables.integrations)
  integration ←
      required (value_error "No connected runtime integration is available for this tenant") found
  existing ← read (λ d.
      any (λ x. str_eq x.run_id run_id && str_eq x.dispatch_type dispatch_type) d.tables.dispatches)
  when (not (existing && not force))
      (send_dispatch host row integration run_id dispatch_type actor_id)
