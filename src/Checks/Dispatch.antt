-- ===== src/Checks/Dispatch.antt =====
-- apps/api/app/services/check_dispatch_service.py: check runs are queued once, recorded as events and
-- handed to a worker.
use rgp.Prelude.{
  ℕ, suc, String, ◌<>◌, Bool, true, false, ◌&&◌, Option, none, some, List, [], ◌∷◌, ◌++◌, any,
  first, update, leb, str_eq, if◌then◌else◌,
}
use rgp.Json.{string, no_entries, entry}
use rgp.Text.{decimal3, parse_digits, after_underscore}
use rgp.Db.{Db, CheckRunTable}
use rgp.Db.CheckTables.{CheckRunStatus}
use rgp.Session.{
  Host, Action, stop_iteration, value_error, pure, read, required, write_tables, when, start_thread,
  ◌>>=◌, ◌>>◌,
}
use rgp.Events.{append}

-- QUEUED or RUNNING
abbrev pub is_pending : CheckRunTable → Bool
is_pending c = elim c.status [
  | CheckRunStatus.queued ↦ true
  | CheckRunStatus.running ↦ true
  | CheckRunStatus.completed ↦ false
  | CheckRunStatus.failed ↦ false
]

-- the number after the first underscore of an identifier, where there is one
abbrev pub numeric_suffix : String → Option ℕ
numeric_suffix identifier = elim (after_underscore identifier) [
  | none ↦ none
  | some digits ↦ parse_digits digits
]

-- max(numeric_suffixes, default=0)
unfoldable pub max_suffix : List String → ℕ
unfolding parse_digits after_underscore
max_suffix [] = 0
max_suffix (identifier ∷ rest) = elim (numeric_suffix identifier) [
  | none ↦ max_suffix rest
  | some n ↦ (let m = max_suffix rest in if leb m n then n else m)
]

abbrev check_run_ids : List CheckRunTable → List String
check_run_ids [] = []
check_run_ids (c ∷ cs) = c.id ∷ check_run_ids cs

unfoldable pub next_check_run_id : Db → String
unfolding max_suffix
next_check_run_id d = "cr_" <> decimal3 (suc (max_suffix (check_run_ids d.tables.check_runs)))

abbrev is_run_of_request : String → CheckRunTable → Bool
is_run_of_request request_id c =
    str_eq c.request_id request_id && str_eq c.scope "request" && is_pending c

unfoldable pub has_pending_request_check_run : String → Db → Bool
has_pending_request_check_run request_id d = any (is_run_of_request request_id) d.tables.check_runs

unfoldable pub has_pending_promotion_check_run : String → Db → Bool
has_pending_promotion_check_run promotion_id d =
    any
      (λ c.
        elim c.promotion_id [ none ↦ false | some p ↦ str_eq p promotion_id ]
        && str_eq c.scope "promotion"
        && is_pending c)
      d.tables.check_runs

-- The tenant of the request, which may be in the second store.
unfoldable pub request_tenant_id : Host → String → Action String
request_tenant_id host request_id = do
  found ← read (λ d. first (λ r. str_eq r.id request_id) d.requests)
  required (stop_iteration request_id) (elim found [
    | some request_row ↦ some request_row.tenant_id
    | none ↦ host.dynamodb_tenant request_id
  ])

abbrev write_check_runs : (List CheckRunTable → List CheckRunTable) → Action Unit
write_check_runs f = write_tables (λ t. record t { check_runs = f t.check_runs })

set_worker_task : String → String → Action Unit
set_worker_task check_run_id task_id =
    write_check_runs
      (update (λ c. str_eq c.id check_run_id) (λ c. record c { worker_task_id = some task_id }))

unfoldable pub dispatch_found : Host → String → Action Unit
unfolding set_worker_task
dispatch_found host check_run_id =
    if host.check_dispatch_local
    then (do set_worker_task check_run_id ("local:" <> check_run_id); start_thread check_run_id)
    else (do
      task_id ← required (value_error "Check dispatch failed") (host.send_task check_run_id)
      set_worker_task check_run_id task_id)

unfoldable pub dispatch : Host → String → Action Unit
unfolding dispatch_found
dispatch host check_run_id = do
  found ← read (λ d. any (λ c. str_eq c.id check_run_id) d.tables.check_runs)
  when found (dispatch_found host check_run_id)

unfoldable pub new_check_run :
    Host → String → String → Option String → String → String → String → CheckRunTable
new_check_run host id request_id promotion_id scope actor_id reason = record {
  id = id;
  request_id = request_id;
  promotion_id = promotion_id;
  scope = scope;
  status = CheckRunStatus.queued;
  trigger_reason = reason;
  enqueued_by = actor_id;
  worker_task_id = none;
  error_message = none;
  queued_at = host.now;
  started_at = none;
  completed_at = none;
}

-- What the two `enqueue_*_checks` do when no run is pending
unfoldable pub enqueue_run : Host → String → Option String → String → String → String → Action Unit
unfolding next_check_run_id new_check_run request_tenant_id dispatch
enqueue_run host request_id promotion_id scope actor_id reason = do
  id ← read next_check_run_id
  write_check_runs
      (λ rows. rows ++ new_check_run host id request_id promotion_id scope actor_id reason ∷ [])
  tenant_id ← request_tenant_id host request_id
  append host (record {
    tenant_id = tenant_id;
    event_type = "check_run.enqueued";
    aggregate_type = "check_run";
    aggregate_id = id;
    actor = actor_id;
    detail = reason;
    request_id = some request_id;
    run_id = none;
    artifact_id = none;
    promotion_id = promotion_id;
    check_run_id = some id;
    payload = entry "scope" (string scope) no_entries;
  })
  dispatch host id

is_pending_request_run : String → CheckRunTable → Bool
is_pending_request_run request_id c =
    is_run_of_request request_id c && elim c.promotion_id [ none ↦ true | some _ ↦ false ]

-- a check run of the request is queued or running
unfoldable pub has_pending_request_run : String → Db → Bool
unfolding is_pending_request_run
has_pending_request_run request_id d = any (is_pending_request_run request_id) d.tables.check_runs

unfoldable pub enqueue_request_checks : Host → String → String → String → Action Unit
unfolding enqueue_run has_pending_request_run
enqueue_request_checks host request_id actor_id reason = do
  existing ← read (has_pending_request_run request_id)
  if existing then pure tt else enqueue_run host request_id none "request" actor_id reason

unfoldable pub enqueue_promotion_checks : Host → String → String → String → String → Action Unit
unfolding enqueue_run has_pending_promotion_check_run
enqueue_promotion_checks host promotion_id request_id actor_id reason = do
  existing ← read (has_pending_promotion_check_run promotion_id)
  if existing
      then pure tt
      else enqueue_run host request_id (some promotion_id) "promotion" actor_id reason
