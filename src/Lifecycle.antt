-- ===== src/Lifecycle.antt =====
-- apps/api/app/repositories/governance_repository.py: the operations on requests, and what a
-- transition does to runs, artifacts, reviews, promotions and users. A row that the code holds is read
-- again by its key where its fields are used.
pub mod Artifacts
pub mod Runs
pub mod Reviews
pub mod Registration
pub mod Effects
pub mod Operations
pub mod Submission
pub mod Decisions
pub mod Preserved
pub mod Contracts
use rgp.Prelude.{
  String, ◌<>◌, Bool, not, ◌&&◌, Option, none, some, List, first, update, str_eq, if◌then◌else◌,
}
use rgp.Json.{Value, Entries, string, no_entries, dict_of, get, truthy}
use rgp.Db.{RequestTable}
use rgp.Session.{
  Host, Action, Error, stop_iteration, permission_error, type_error, pure, raise, read, required,
  write_requests, write_journal, draw, raise_if, ◌>>=◌, ◌>>◌,
}

-- session.get(RequestTable, request_id) of a request that the session holds
pub get_request : String → Action RequestTable
get_request request_id = do
  found ← read (λ d. first (λ r. str_eq r.id request_id) d.requests)
  required (stop_iteration request_id) found

abbrev pub modify_request : String → (RequestTable → RequestTable) → Action Unit
modify_request request_id f = write_requests (update (λ r. str_eq r.id request_id) f)

-- f"{prefix}{uuid4().hex[:12]}"
unfoldable pub next_id : Host → String → Action String
next_id host prefix = do n ← draw; pure (prefix <> host.hex12 n)

-- str(value)
abbrev pub to_text : Host → Value → String
to_text host v = elim v [ string t ↦ t | other ↦ host.show other ]

-- A text that may be None, in a test
abbrev pub is_set : Option String → Bool
is_set o = elim o [ none ↦ Bool.false | some t ↦ not (str_eq t "") ]

-- f"wf_{template_id}_{template_version.replace('.', '_')}"
abbrev pub default_binding : Host → RequestTable → String
default_binding host row =
    "wf_" <> row.template_id <> "_" <> host.replace row.template_version "." "_"

-- dict((row.policy_context or {}).get("routing") or {}), with `none` for a value that is no dict
unfoldable pub routing_fields : RequestTable → Option Entries
unfolding get truthy
routing_fields row = elim (get "routing" row.policy_context) [
  | none ↦ some no_entries
  | some v ↦
      if truthy v then (elim v [ dict_of fields ↦ some fields | _ ↦ none ]) else some no_entries
]
