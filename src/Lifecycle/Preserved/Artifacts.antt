-- ===== src/Lifecycle/Preserved/Artifacts.antt =====
-- The artifact functions preserve what their actions preserve.
use rgp.Prelude.{String, Bool, Option}
use rgp.Db.{RequestTable, ArtifactTable}
use rgp.Session.{Host, Session}
use rgp.Session.Preserves.{Preserves, preserves_rules}
use rgp.Lifecycle.Artifacts.{
  add_artifact_event, artifact_event_recorded, append_artifact_event, append_artifact_lineage,
  create_artifact,
}
use rgp.Lifecycle.Artifacts.Updates.{
  advance_artifact, revise_artifact, ensure_artifact_for_request, review_state_updated,
  update_artifact_review_state,
}
use rgp.Lifecycle.Preserved.{SideEffectLaws, Preserves-get_request, Preserves-next_id}

module _ {host : Host} {P : Session → Type 0} (laws : SideEffectLaws host P) where
  Preserves-recorded :
      (artifact_id : String) (version_id : Option String) (actor action detail : String)
      (a : ArtifactTable)
      → Preserves P (artifact_event_recorded host artifact_id version_id actor action detail a)
  unfolding artifact_event_recorded
  Preserves-recorded artifact_id version_id actor action detail a =
      search (preserves_rules, laws.on_append) depth 24

  Preserves-add_event :
      (artifact_id : String) (version_id : Option String) (actor action detail : String)
      → Preserves P (add_artifact_event host artifact_id version_id actor action detail)
  unfolding add_artifact_event
  Preserves-add_event artifact_id version_id actor action detail =
      search (preserves_rules, laws.on_journal) depth 24

  Preserves-artifact_event :
      (artifact_id : String) (version_id : Option String) (actor action detail : String)
      → Preserves P (append_artifact_event host artifact_id version_id actor action detail)
  unfolding append_artifact_event
  Preserves-artifact_event artifact_id version_id actor action detail =
      search (preserves_rules, Preserves-add_event, Preserves-recorded) depth 24

  Preserves-lineage :
      (artifact_id : String) (from_id : Option String) (to_id relation : String)
      → Preserves P (append_artifact_lineage host artifact_id from_id to_id relation)
  unfolding append_artifact_lineage
  Preserves-lineage artifact_id from_id to_id relation =
      search (preserves_rules, laws.on_journal) depth 24

  Preserves-create :
      (row : RequestTable) (actor_id status review_state : String)
      → Preserves P (create_artifact host row actor_id status review_state)
  unfolding create_artifact
  Preserves-create row actor_id status review_state =
      search
        (
          preserves_rules,
          laws.on_tables,
          laws.on_put_text,
          Preserves-next_id laws,
          Preserves-add_event,
          Preserves-lineage,
        )
        depth 24

  Preserves-advance :
      (row : RequestTable) (actor_id status review_state : String) (a : ArtifactTable)
      → Preserves P (advance_artifact host row actor_id status review_state a)
  unfolding advance_artifact
  Preserves-advance row actor_id status review_state a =
      search
        (
          preserves_rules,
          laws.on_tables,
          laws.on_put_text,
          Preserves-next_id laws,
          Preserves-artifact_event,
          Preserves-lineage,
        )
        depth 24

  Preserves-revise :
      (status review_state : String) (a : ArtifactTable)
      → Preserves P (revise_artifact host status review_state a)
  unfolding revise_artifact
  Preserves-revise status review_state a = search (preserves_rules, laws.on_tables) depth 24

  pub Preserves-ensure_artifact :
      (request_id actor_id status review_state : String) (append_version : Bool)
      → Preserves P
          (ensure_artifact_for_request host request_id actor_id status review_state append_version)
  unfolding ensure_artifact_for_request
  Preserves-ensure_artifact request_id actor_id status review_state append_version =
      search
        (
          preserves_rules, Preserves-get_request, Preserves-create, Preserves-advance,
          Preserves-revise,
        )
        depth 24

  Preserves-updated :
      (status review_state : String) (stale : Bool) (relevant : Option Bool) (a : ArtifactTable)
      → Preserves P (review_state_updated host status review_state stale relevant a)
  unfolding review_state_updated
  Preserves-updated status review_state stale relevant a =
      search (preserves_rules, laws.on_tables, Preserves-artifact_event) depth 24

  pub Preserves-update_artifact :
      (request_id status review_state : String) (stale : Bool) (relevant : Option Bool)
      → Preserves P
          (update_artifact_review_state host request_id status review_state stale relevant)
  unfolding update_artifact_review_state
  Preserves-update_artifact request_id status review_state stale relevant =
      search (preserves_rules, Preserves-updated) depth 24
