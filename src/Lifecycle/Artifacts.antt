-- ===== src/Lifecycle/Artifacts.antt =====
-- governance_repository.py: the artifacts of a request, their versions, events and lineage.
pub mod Updates
use rgp.Prelude.{
  suc, String, ◌<>◌, false, ◌||◌, Option, none, some, List, [], ◌∷◌, ◌++◌, length, first, best,
  update, update_last, get_last?, contains, select, ltb, str_eq, if◌then◌else◌,
}
use rgp.Json.{string, no_entries, entry}
use rgp.Db.{Db, RequestTable, ArtifactTable}
use rgp.Db.Artifacts.{ArtifactVersion}
use rgp.Session.{
  Host, Action, pure, read, write_journal, write_tables, put_text, match_row, ◌>>=◌, ◌>>◌,
}
use rgp.Events.{append, or_text, opt_str}
use rgp.Lifecycle.{next_id}

artifact_type_for_request : Host → RequestTable → String
artifact_type_for_request host row =
    if host.has_substring "assessment" row.template_id
      || host.has_substring "assessment" row.request_type
    then "assessment"
    else "curriculum_unit"

unfoldable pub artifact_content_for_request : RequestTable → String → String
artifact_content_for_request row version_label =
    row.title <> "\n" <> "Version: " <> version_label <> "\n" <> "Template: " <> row.template_id
    <> "@" <> row.template_version <> "\n" <> "Summary: " <> row.summary <> "\n"

unfoldable pub artifact_content_ref : String → String → String
artifact_content_ref artifact_id version_id =
    "artifacts/" <> artifact_id <> "/" <> version_id <> ".txt"

abbrev pub modify_artifact : String → (ArtifactTable → ArtifactTable) → Action Unit
modify_artifact artifact_id f =
    write_tables (λ t. record t { artifacts = update (λ a. str_eq a.id artifact_id) f t.artifacts })

-- The newest artifact of the request: order_by(desc(ArtifactTable.updated_at))
abbrev pub artifact_of_request : String → Db → Option ArtifactTable
artifact_of_request request_id d =
    best (λ a b. ltb b.updated_at a.updated_at)
      (select (λ a. str_eq a.request_id request_id) d.tables.artifacts)

-- The tenant of the request of an artifact, which may be in the second store.
abbrev artifact_tenant : Host → ArtifactTable → Db → Option String
artifact_tenant host a d = elim (first (λ r. str_eq r.id a.request_id) d.requests) [
  | some r ↦ some r.tenant_id
  | none ↦ host.dynamodb_tenant a.request_id
]

unfoldable pub artifact_event_recorded :
    Host → String → Option String → String → String → String → ArtifactTable → Action Unit
artifact_event_recorded host artifact_id artifact_version_id actor action detail a = do
  tenant ← read (artifact_tenant host a)
  match_row tenant (pure tt) (λ tenant_id. append host (record {
    tenant_id = tenant_id;
    event_type = "artifact.event_recorded";
    aggregate_type = "artifact";
    aggregate_id = artifact_id;
    actor = actor;
    detail = action;
    request_id = some a.request_id;
    run_id = none;
    artifact_id = some artifact_id;
    promotion_id = none;
    check_run_id = none;
    payload =
        entry "artifact_version_id" (opt_str artifact_version_id)
          (entry "message" (string detail) no_entries);
  }))

-- The row that append_artifact_event adds
unfoldable pub add_artifact_event :
    Host → String → Option String → String → String → String → Action Unit
add_artifact_event host artifact_id artifact_version_id actor action detail = do
  id ← read (λ d. suc (length d.journal.artifact_events))
  write_journal (λ j. record j {
    artifact_events =
        j.artifact_events
        ++ (record {
          id = id;
          artifact_id = artifact_id;
          artifact_version_id = artifact_version_id;
          timestamp = host.now;
          actor = actor;
          action = action;
          detail = detail;
        })
          ∷ [];
  })

-- append_artifact_event, of an artifact that is stored
unfoldable pub append_artifact_event :
    Host → String → Option String → String → String → String → Action Unit
unfolding artifact_event_recorded add_artifact_event
append_artifact_event host artifact_id artifact_version_id actor action detail = do
  artifact_row ← read (λ d. first (λ a. str_eq a.id artifact_id) d.tables.artifacts)
  add_artifact_event host artifact_id artifact_version_id actor action detail
  match_row artifact_row (pure tt)
      (λ a. artifact_event_recorded host artifact_id artifact_version_id actor action detail a)

unfoldable pub append_artifact_lineage :
    Host → String → Option String → String → String → Action Unit
append_artifact_lineage host artifact_id from_version_id to_version_id relation = do
  id ← read (λ d. suc (length d.journal.artifact_lineage))
  write_journal (λ j. record j {
    artifact_lineage =
        j.artifact_lineage
        ++ (record {
          id = id;
          artifact_id = artifact_id;
          from_version_id = from_version_id;
          to_version_id = to_version_id;
          relation = relation;
          created_at = host.now;
        })
          ∷ [];
  })

unfoldable pub new_version :
    Host → RequestTable → String → String → String → String → String → String → ArtifactVersion
unfolding artifact_content_for_request artifact_content_ref
new_version host row actor_id artifact_id version_id label artifact_status summary = record {
  id = version_id;
  label = label;
  status = artifact_status;
  created_at = host.now;
  author = actor_id;
  summary = summary;
  content = artifact_content_for_request row label;
  content_ref = artifact_content_ref artifact_id version_id;
}

abbrev pub set_status : String → ArtifactVersion → ArtifactVersion
set_status artifact_status v = record v { status = artifact_status }

-- The last version is superseded unless its status is final.
unfoldable pub supersede_last : List ArtifactVersion → List ArtifactVersion
supersede_last versions =
    update_last
      (λ v.
        if contains v.status ("approved" ∷ "promoted" ∷ "completed" ∷ [])
        then v
        else set_status "superseded" v)
      versions

abbrev pub last_version_id : List ArtifactVersion → Option String
last_version_id versions = elim (get_last? versions) [ none ↦ none | some v ↦ some v.id ]

-- The new artifact is not flushed, so session.get does not find it for an event in the event store.
unfoldable pub create_artifact :
    Host → RequestTable → String → String → String → Action ArtifactTable
unfolding add_artifact_event artifact_type_for_request artifact_content_for_request
    artifact_content_ref new_version
create_artifact host row actor_id artifact_status review_state = do
  artifact_id ← next_id host "art_"
  version_id ← next_id host "artv_"
  put_text (artifact_content_ref artifact_id version_id) (artifact_content_for_request row "v1")
  let artifact_row : ArtifactTable = record {
    id = artifact_id;
    type = artifact_type_for_request host row;
    name = row.title;
    current_version = "v1";
    status = artifact_status;
    request_id = row.id;
    updated_at = host.now;
    owner = or_text row.owner_team_id "team_ops";
    review_state = review_state;
    promotion_relevant = false;
    versions =
        new_version host row actor_id artifact_id version_id "v1" artifact_status
          ("Initial governed artifact generated for request " <> row.id <> ".")
        ∷ [];
    selected_version_id = version_id;
    stale_review = false;
  }
  write_tables (λ t. record t { artifacts = t.artifacts ++ artifact_row ∷ [] })
  add_artifact_event host artifact_id (some version_id) actor_id "Artifact Created"
      ("Initial artifact v1 created for request " <> row.id <> ".")
  append_artifact_lineage host artifact_id none version_id "generated_from_request"
  pure artifact_row
