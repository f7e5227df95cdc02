-- ===== src/Lifecycle/Artifacts/Updates.antt =====
-- governance_repository.py: a request's artifact is created once, and advanced by the transitions.
use rgp.Prelude.{
  suc, String, ◌<>◌, Bool, Option, none, some, [], ◌∷◌, ◌++◌, length, update_last, if◌then◌else◌,
}
use rgp.Text.{decimal}
use rgp.Db.{RequestTable, ArtifactTable}
use rgp.Session.{Host, Action, pure, read, put_text, match_row, ◌>>=◌, ◌>>◌}
use rgp.Lifecycle.{get_request, next_id}
use rgp.Lifecycle.Artifacts.{
  artifact_content_for_request, artifact_content_ref, modify_artifact, artifact_of_request,
  append_artifact_event, append_artifact_lineage, new_version, set_status, supersede_last,
  last_version_id, create_artifact,
}

-- status, review_state and updated_at
abbrev touched : Host → String → String → ArtifactTable → ArtifactTable
touched host artifact_status review_state a = record a {
  status = artifact_status;
  review_state = review_state;
  updated_at = host.now;
}

abbrev with_last_status : String → ArtifactTable → ArtifactTable
with_last_status artifact_status a = record a {
  versions = update_last (set_status artifact_status) a.versions;
}

-- The artifact with a further version
unfoldable pub advanced :
    Host → RequestTable → String → String → String → ArtifactTable → ArtifactTable
unfolding new_version supersede_last
advanced host row actor_id artifact_status version_id a =
    let label = "v" <> decimal (suc (length a.versions)) in
    record a {
      versions =
          supersede_last a.versions
          ++ new_version host row actor_id a.id version_id label artifact_status
              ("Governed artifact advanced to " <> artifact_status <> ".")
            ∷ [];
      current_version = label;
      selected_version_id = version_id;
    }

unfoldable pub advance_artifact :
    Host → RequestTable → String → String → String → ArtifactTable → Action ArtifactTable
unfolding advanced artifact_content_ref artifact_content_for_request
advance_artifact host row actor_id artifact_status review_state a = do
  version_id ← next_id host "artv_"
  let label = "v" <> decimal (suc (length a.versions))
  put_text (artifact_content_ref a.id version_id) (artifact_content_for_request row label)
  let step = λ (x : ArtifactTable).
      advanced host row actor_id artifact_status version_id
        (touched host artifact_status review_state x)
  modify_artifact a.id step
  append_artifact_event host a.id (some version_id) actor_id "Artifact Version Created"
      ("Artifact advanced to " <> label <> " with status " <> artifact_status <> ".")
  append_artifact_lineage host a.id (last_version_id a.versions) version_id "supersedes"
  pure (step a)

unfoldable pub revise_artifact : Host → String → String → ArtifactTable → Action ArtifactTable
revise_artifact host artifact_status review_state a = do
  let step = λ (x : ArtifactTable).
      with_last_status artifact_status (touched host artifact_status review_state x)
  modify_artifact a.id step
  pure (step a)

unfoldable pub ensure_artifact_for_request :
    Host → String → String → String → String → Bool → Action ArtifactTable
unfolding create_artifact advance_artifact revise_artifact
ensure_artifact_for_request host request_id actor_id artifact_status review_state append_version =
    do
      row ← get_request request_id
      artifact_row ← read (artifact_of_request request_id)
      match_row artifact_row (create_artifact host row actor_id artifact_status review_state) (λ a.
          if append_version
          then advance_artifact host row actor_id artifact_status review_state a
          else revise_artifact host artifact_status review_state a)

set_review_state : Host → String → String → Bool → Option Bool → ArtifactTable → ArtifactTable
set_review_state host artifact_status review_state stale_review promotion_relevant a =
    record (with_last_status artifact_status (touched host artifact_status review_state a)) {
      stale_review = stale_review;
      promotion_relevant = elim promotion_relevant [ none ↦ a.promotion_relevant | some b ↦ b ];
    }

unfoldable pub review_state_updated :
    Host → String → String → Bool → Option Bool → ArtifactTable → Action Unit
unfolding set_review_state
review_state_updated host artifact_status review_state stale_review promotion_relevant a = do
  modify_artifact a.id
      (set_review_state host artifact_status review_state stale_review promotion_relevant)
  match_row (last_version_id a.versions) (pure tt) (λ version_id.
      append_artifact_event host a.id (some version_id) "system" "Artifact Status Updated"
        ("Artifact status updated to " <> artifact_status <> "."))

unfoldable pub update_artifact_review_state :
    Host → String → String → String → Bool → Option Bool → Action Unit
unfolding review_state_updated
update_artifact_review_state host request_id artifact_status review_state stale_review
      promotion_relevant =
    do
      artifact_row ← read (artifact_of_request request_id)
      match_row artifact_row (pure tt)
          (review_state_updated host artifact_status review_state stale_review promotion_relevant)
