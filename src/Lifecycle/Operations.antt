-- ===== src/Lifecycle/Operations.antt =====
-- governance_repository.py: a request is created, submitted, amended, canceled, transitioned, cloned
-- and superseded. Each operation is one session; what it returns to its caller is the row's fields.
use rgp.Prelude.{
  suc, String, ◌<>◌, Bool, not, ◌&&◌, Option, none, some, false, true, List, [], ◌∷◌, ◌++◌, ◌+◌,
  length, first, str_eq,
}
use rgp.Json.{Entries}
use rgp.Request.{
  RequestStatus, RequestPriority, status_value, priority_value, is_in, draft, submitted, completed,
  canceled, archived,
}
use rgp.StateMachine.{is_valid_transition, amendable_statuses, cancelable_statuses}
use rgp.Db.{Db, RequestTable}
use rgp.Session.{
  Host, Action, Error, stop_iteration, value_error, permission_error, delegated, pure, raise, read,
  required, write_requests, write_journal, commit, when, raise_if, except_value_error, ◌>>=◌, ◌>>◌,
}
use rgp.Events.{append_event, or_text}
use rgp.Checks.{active_transition_gate_check_names, assert_request_transition_ready}
use rgp.Checks.Dispatch.{has_pending_request_check_run, enqueue_request_checks}
use rgp.Lifecycle.{modify_request, next_id}
use rgp.Lifecycle.Effects.{apply_transition_side_effects}

pub record AmendRequest : Type 0 where
  pub actor_id : String
  pub reason : String
  pub title : Option String
  pub summary : Option String
  pub priority : Option RequestPriority
  pub input_payload : Option Entries

pub record CancelRequest : Type 0 where
  pub actor_id : String
  pub reason : String

pub record CloneRequest : Type 0 where
  pub actor_id : String
  pub reason : String
  pub title : Option String
  pub summary : Option String

pub record SupersedeRequest : Type 0 where
  pub actor_id : String
  pub replacement_request_id : String
  pub reason : String

pub record TransitionRequest : Type 0 where
  pub actor_id : String
  pub target_status : RequestStatus
  pub reason : String

abbrev pub find_request : String → Db → Option RequestTable
find_request request_id d = first (λ r. str_eq r.id request_id) d.requests

-- What a missing row raises: without a tenant, StopIteration; with one, the second store answers.
abbrev pub missing : String → Option String → Error
missing request_id none = stop_iteration request_id
missing request_id (some tenant) = delegated request_id

-- `tenant_id and row.tenant_id != tenant_id`
abbrev pub denied : Option String → RequestTable → Bool
denied none row = false
denied (some tenant) row = not (str_eq tenant "") && not (str_eq row.tenant_id tenant)

abbrev pub denial : Option String → String → Error
denial tenant_id request_id = permission_error (or_text tenant_id "") request_id

unfoldable pub ensure_request_tenant_access : RequestTable → Option String → Action Unit
ensure_request_tenant_access row tenant_id =
    raise_if (denied tenant_id row) (denial tenant_id row.id)

-- The row of the request, if the tenant may access it
unfoldable pub load_request : String → Option String → Action RequestTable
unfolding ensure_request_tenant_access
load_request request_id tenant_id = do
  found ← read (find_request request_id)
  row ← required (missing request_id tenant_id) found
  ensure_request_tenant_access row tenant_id
  pure row

-- row.status, updated_at, updated_by and version
abbrev pub moved : Host → RequestStatus → String → RequestTable → RequestTable
moved host target actor_id r = record r {
  status = target;
  updated_at = host.now;
  updated_by = actor_id;
  version = r.version + 1;
}

unfoldable pub append_relationship : Host → String → String → String → String → Action Unit
append_relationship host source_request_id target_request_id relationship_type actor_id = do
  id ← read (λ d. suc (length d.journal.relationships))
  write_journal (λ j. record j {
    relationships =
        j.relationships
        ++ (record {
          id = id;
          source_request_id = source_request_id;
          target_request_id = target_request_id;
          relationship_type = relationship_type;
          created_at = host.now;
          created_by = actor_id;
        })
          ∷ [];
  })

abbrev or_else {ℓ} : {A : Type ℓ} → Option A → A → A
or_else none a = a
or_else (some b) a = b

unfoldable pub amended : AmendRequest → RequestTable → RequestTable
amended p r = record r {
  title = or_else p.title r.title;
  summary = or_else p.summary r.summary;
  priority = elim p.priority [ none ↦ r.priority | some level ↦ priority_value level ];
  input_payload = or_else p.input_payload r.input_payload;
}

unfoldable pub amend_request : Host → String → AmendRequest → Option String → Action Unit
unfolding is_in amendable_statuses amended load_request
amend_request host request_id p tenant_id = do
  row ← load_request request_id tenant_id
  raise_if (not (is_in row.status amendable_statuses)) (
      value_error
        ("Request " <> request_id <> " cannot be amended from status " <> status_value row.status))
  modify_request request_id (λ r. moved host draft p.actor_id (amended p r))
  append_event host request_id p.actor_id "Amended" p.reason
  commit

unfoldable pub cancel_request : Host → String → CancelRequest → Option String → Action Unit
unfolding is_in cancelable_statuses load_request
cancel_request host request_id p tenant_id = do
  row ← load_request request_id tenant_id
  raise_if (not (is_in row.status cancelable_statuses)) (
      value_error
        ("Request " <> request_id <> " cannot be canceled from status " <> status_value row.status))
  modify_request request_id (moved host canceled p.actor_id)
  append_event host request_id p.actor_id "Canceled" p.reason
  commit

-- The statuses that have an operation of their own
abbrev pub dedicated : List RequestStatus
dedicated = draft ∷ submitted ∷ canceled ∷ archived ∷ []

abbrev pub is_empty {ℓ} : {A : Type ℓ} → List A → Bool
is_empty [] = true
is_empty (x ∷ xs) = false

-- The checks are not ready: they are queued, which is committed, and the error is raised again.
unfoldable pub queue_checks : Host → String → RequestStatus → String → String → Action Unit
unfolding status_value
queue_checks host request_id target actor_id text = do
  enqueue_request_checks host request_id actor_id
      ("Transition preflight for " <> status_value target)
  commit
  raise (value_error (text <> ". Automated evaluation queued"))

unfoldable pub pass_gates : Host → RequestTable → RequestStatus → String → Action Unit
unfolding queue_checks
pass_gates host row target actor_id = do
  pending ← read (has_pending_request_check_run row.id)
  raise_if pending (
      value_error (
        "Request checks are still queued or running for " <> row.id
        <> ". Retry the transition after they complete"))
  except_value_error (assert_request_transition_ready row.id target row.tenant_id)
      (queue_checks host row.id target actor_id)

unfoldable pub check_gates : Host → RequestTable → RequestStatus → String → Action Unit
unfolding pass_gates
check_gates host row target actor_id = do
  required_checks ← read (active_transition_gate_check_names target row.tenant_id)
  when (not (is_empty required_checks)) (pass_gates host row target actor_id)

unfoldable pub transition_request : Host → String → TransitionRequest → Option String → Action Unit
unfolding is_in is_valid_transition load_request check_gates
transition_request host request_id p tenant_id = do
  row ← load_request request_id tenant_id
  raise_if (is_in p.target_status dedicated) (
      value_error ("Use the dedicated mutation for target status " <> status_value p.target_status))
  raise_if (not (is_valid_transition row.status p.target_status)) (
      value_error (
        "Request "
        <> request_id
        <> " cannot transition from "
        <> status_value row.status
        <> " to "
        <> status_value p.target_status))
  check_gates host row p.target_status p.actor_id
  modify_request request_id (moved host p.target_status p.actor_id)
  apply_transition_side_effects host request_id p.target_status p.actor_id
  append_event host request_id p.actor_id ("Transitioned to " <> status_value p.target_status)
      p.reason
  commit

unfoldable pub clone_row : Host → RequestTable → CloneRequest → String → RequestTable
clone_row host source p next = record source {
  id = next;
  title = or_text p.title (source.title <> " (Clone)");
  summary = or_text p.summary source.summary;
  status = draft;
  submitter_id = p.actor_id;
  current_run_id = none;
  created_at = host.now;
  created_by = p.actor_id;
  updated_at = host.now;
  updated_by = p.actor_id;
  version = 1;
  is_archived = false;
}

-- The identifier of the clone is returned.
unfoldable pub clone_request : Host → String → CloneRequest → Option String → Action String
unfolding load_request clone_row append_relationship
clone_request host request_id p tenant_id = do
  source ← load_request request_id tenant_id
  next ← next_id host "req_"
  write_requests (λ rows. rows ++ clone_row host source p next ∷ [])
  append_event host request_id p.actor_id "Cloned" (p.reason <> ". Replacement draft: " <> next)
  append_relationship host request_id next "clone" p.actor_id
  append_event host next p.actor_id "Draft Created" ("Cloned from request " <> request_id)
  commit
  pure next

unfoldable pub superseded : Host → String → RequestTable → RequestTable
superseded host actor_id r = record (moved host archived actor_id r) { is_archived = true }

-- Of two rows, the one that is missing: the request, or its replacement
abbrev pub both : Option RequestTable → Option RequestTable → Option (RequestTable × RequestTable)
both (some row) (some replacement) = some (row, replacement)
both none _ = none
both (some row) none = none

abbrev missing_of : Option RequestTable → String → String → String
missing_of none request_id replacement_id = request_id
missing_of (some row) request_id replacement_id = replacement_id

unfoldable pub supersede_request : Host → String → SupersedeRequest → Option String → Action Unit
unfolding is_in ensure_request_tenant_access superseded append_relationship
supersede_request host request_id p tenant_id = do
  found ← read (find_request request_id)
  replacement ← read (find_request p.replacement_request_id)
  rows ←
      required (missing (missing_of found request_id p.replacement_request_id) tenant_id)
        (both found replacement)
  ensure_request_tenant_access rows.0 tenant_id
  ensure_request_tenant_access rows.1 tenant_id
  raise_if (str_eq rows.1.id rows.0.id)
      (value_error "Replacement request must differ from the request being superseded")
  raise_if (is_in rows.0.status (archived ∷ canceled ∷ completed ∷ [])) (
      value_error (
        "Request "
        <> request_id
        <> " cannot be superseded from status "
        <> status_value rows.0.status))
  modify_request request_id (superseded host p.actor_id)
  append_event host request_id p.actor_id "Superseded"
      (p.reason <> ". Replacement request: " <> p.replacement_request_id)
  append_relationship host request_id p.replacement_request_id "supersedes" p.actor_id
  append_event host p.replacement_request_id p.actor_id "Superseding Request Linked"
      ("Supersedes request " <> request_id)
  commit
