-- ===== src/Events.antt =====
-- apps/api/app/services/event_store_service.py, and `enqueue` of event_publisher_service.py: every
-- event is stored and put into the outbox in the same transaction.
pub mod Outbox
use rgp.Prelude.{
  ℕ, suc, String, ◌<>◌, Bool, Option, none, some, List, [], ◌∷◌, ◌++◌, length, first, ◌==◌, str_eq,
  if◌then◌else◌,
}
use rgp.Json.{Value, Entries, none_value, number, string, dict_of, no_entries, entry}
use rgp.Db.{Db, EventStoreTable, EventOutboxTable, RequestTable, RequestEventTable}
use rgp.Request.{status_value}
use rgp.Session.{
  Host, Error, Action, Session, stop_iteration, missing_event, pure, read, required, write_journal,
  write_events, ◌>>=◌, ◌>>◌,
}

-- The keyword arguments of `append`
pub record NewEvent : Type 0 where
  pub tenant_id : String
  pub event_type : String
  pub aggregate_type : String
  pub aggregate_id : String
  pub actor : String
  pub detail : String
  pub request_id : Option String
  pub run_id : Option String
  pub artifact_id : Option String
  pub promotion_id : Option String
  pub check_run_id : Option String
  pub payload : Entries

abbrev pub opt_str : Option String → Value
opt_str none = none_value
opt_str (some t) = string t

-- `text or default`, for a text that may be None
abbrev pub or_text : Option String → String → String
or_text none default = default
or_text (some t) default = if str_eq t "" then default else t

pub partition_key : EventStoreTable → String
partition_key e =
    or_text e.request_id
      (or_text e.run_id (or_text e.artifact_id (or_text e.promotion_id e.aggregate_id)))

outbox_payload : Host → EventStoreTable → Entries
outbox_payload host e = entry "event_id" (number e.id) (
    entry "event_type" (string e.event_type) (
      entry "aggregate_type" (string e.aggregate_type) (
        entry "aggregate_id" (string e.aggregate_id) (
          entry "tenant_id" (string e.tenant_id) (
            entry "request_id" (opt_str e.request_id) (
              entry "run_id" (opt_str e.run_id) (
                entry "artifact_id" (opt_str e.artifact_id) (
                  entry "promotion_id" (opt_str e.promotion_id) (
                    entry "check_run_id" (opt_str e.check_run_id) (
                      entry "actor" (string e.actor) (
                        entry "detail" (string e.detail) (
                          entry "payload" (dict_of e.payload) (
                            entry "occurred_at" (string (host.isoformat e.occurred_at))
                              no_entries)))))))))))))

pub topic_for : Host → String → String
topic_for host event_type = host.event_bus_topic_prefix <> "." <> host.event_family event_type

pub outbox_row : Host → EventStoreTable → ℕ → EventOutboxTable
unfolding topic_for partition_key outbox_payload
outbox_row host e id = record {
  id = id;
  event_store_id = e.id;
  tenant_id = e.tenant_id;
  topic = topic_for host e.event_type;
  partition_key = partition_key e;
  payload = outbox_payload host e;
  status = "pending";
  backend = host.event_bus_backend;
  error_message = none;
  created_at = host.now;
  published_at = none;
}

-- event_publisher_service.enqueue
unfoldable pub enqueue : Host → ℕ → Action Unit
unfolding outbox_row
enqueue host event_store_id = do
  found ← read (λ d. first (λ e. e.id == event_store_id) d.events.event_store)
  event_row ← required (missing_event event_store_id) found
  id ← read (λ d. suc (length d.events.event_outbox))
  write_events
      (λ j. record j { event_outbox = j.event_outbox ++ outbox_row host event_row id ∷ [] })

unfoldable pub event_row : Host → NewEvent → ℕ → EventStoreTable
event_row host e id = record {
  id = id;
  tenant_id = e.tenant_id;
  event_type = e.event_type;
  aggregate_type = e.aggregate_type;
  aggregate_id = e.aggregate_id;
  request_id = e.request_id;
  run_id = e.run_id;
  artifact_id = e.artifact_id;
  promotion_id = e.promotion_id;
  check_run_id = e.check_run_id;
  actor = e.actor;
  detail = e.detail;
  payload = e.payload;
  occurred_at = host.now;
}

-- event_store_service.append. The table's key counts up from 1.
unfoldable pub append : Host → NewEvent → Action Unit
unfolding event_row enqueue
append host e = do
  id ← read (λ d. suc (length d.events.event_store))
  write_events (λ j. record j { event_store = j.event_store ++ event_row host e id ∷ [] })
  enqueue host id

-- _append_event of governance_repository.py: the row of the request's own history, and the event.
unfoldable pub append_event : Host → String → String → String → String → Action Unit
unfolding append status_value
append_event host request_id actor action reason_or_evidence = do
  found ← read (λ d. first (λ r. str_eq r.id request_id) d.requests)
  request_row ← required (stop_iteration request_id) found
  id ← read (λ d. suc (length d.journal.request_events))
  write_journal (λ j. record j {
    request_events =
        j.request_events
        ++ (record {
          id = id;
          request_id = request_id;
          timestamp = host.now;
          actor = actor;
          action = action;
          object_type = "request";
          object_id = request_id;
          reason_or_evidence = reason_or_evidence;
        })
          ∷ [];
  })
  append host (record {
    tenant_id = request_row.tenant_id;
    event_type = "request.event_recorded";
    aggregate_type = "request";
    aggregate_id = request_id;
    actor = actor;
    detail = action;
    request_id = some request_id;
    run_id = none;
    artifact_id = none;
    promotion_id = none;
    check_run_id = none;
    payload =
        entry "reason_or_evidence" (string reason_or_evidence)
          (entry "status" (string (status_value request_row.status)) no_entries);
  })
