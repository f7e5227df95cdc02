-- ===== src/Lifecycle/Preserved/Effects.antt =====
-- The side effects of a transition preserve what their actions preserve.
use rgp.Prelude.{Bool, String, Option}
use rgp.Request.{RequestStatus}
use rgp.Db.{ArtifactTable, PromotionTable}
use rgp.Session.{Host, Session}
use rgp.Session.Preserves.{Preserves, preserves_rules}
use rgp.Lifecycle.Effects.{
  on_queued, on_in_execution, show_artifact, on_awaiting_review, on_under_review,
  on_changes_requested, on_approved, enqueue_for, on_promotion_pending, on_promoted, on_completed,
  apply_transition_side_effects, bind_workflow,
}
use rgp.Lifecycle.Preserved.{SideEffectLaws, Preserves-get_request}
use rgp.Lifecycle.Preserved.Artifacts.{Preserves-ensure_artifact, Preserves-update_artifact}
use rgp.Lifecycle.Preserved.Runs.{Preserves-ensure_run, Preserves-dispatch_run}
use rgp.Lifecycle.Preserved.Reviews.{
  Preserves-enqueue_request, Preserves-enqueue_promotion, Preserves-queue_status,
  Preserves-ensure_review, Preserves-ensure_promotion,
}
use rgp.Lifecycle.Preserved.Registration.{Preserves-registration}

module _ {host : Host} {P : Session → Type 0} (laws : SideEffectLaws host P) where
  Preserves-queued :
      (request_id actor_id : String) → Preserves P (on_queued host request_id actor_id)
  unfolding on_queued bind_workflow
  Preserves-queued request_id actor_id =
      search (preserves_rules, laws.on_requests, Preserves-get_request, Preserves-dispatch_run laws)
        depth 24

  Preserves-in_execution :
      (request_id actor_id : String) (run_stored : Bool)
      → Preserves P (on_in_execution host request_id actor_id run_stored)
  unfolding on_in_execution
  Preserves-in_execution request_id actor_id run_stored =
      search
        (
          preserves_rules,
          laws.on_tables,
          Preserves-get_request,
          Preserves-ensure_artifact laws,
          Preserves-dispatch_run laws,
        )
        depth 24

  Preserves-show_artifact :
      (a : ArtifactTable) (request_id : String) → Preserves P (show_artifact a request_id)
  unfolding show_artifact
  Preserves-show_artifact a request_id = search (preserves_rules, laws.on_tables) depth 24

  Preserves-awaiting_review :
      (request_id actor_id : String) (run_stored : Bool)
      → Preserves P (on_awaiting_review host request_id actor_id run_stored)
  unfolding on_awaiting_review
  Preserves-awaiting_review request_id actor_id run_stored =
      search
        (
          preserves_rules,
          laws.on_tables,
          Preserves-get_request,
          Preserves-ensure_artifact laws,
          Preserves-ensure_review laws,
          Preserves-enqueue_request laws,
          Preserves-show_artifact,
        )
        depth 24

  Preserves-under_review : (request_id : String) → Preserves P (on_under_review host request_id)
  unfolding on_under_review
  Preserves-under_review request_id =
      search (preserves_rules, Preserves-update_artifact laws, Preserves-queue_status laws) depth 24

  Preserves-changes : (request_id : String) → Preserves P (on_changes_requested host request_id)
  unfolding on_changes_requested
  Preserves-changes request_id =
      search (preserves_rules, Preserves-update_artifact laws, Preserves-queue_status laws) depth 24

  Preserves-approved :
      (request_id actor_id : String) → Preserves P (on_approved host request_id actor_id)
  unfolding on_approved
  Preserves-approved request_id actor_id =
      search
        (
          preserves_rules,
          laws.on_tables,
          Preserves-get_request,
          Preserves-update_artifact laws,
          Preserves-queue_status laws,
          Preserves-enqueue_request laws,
          Preserves-registration laws,
        )
        depth 24

  Preserves-enqueue_for :
      (request_id actor_id : String) (p : Option PromotionTable)
      → Preserves P (enqueue_for host request_id actor_id p)
  unfolding enqueue_for
  Preserves-enqueue_for request_id actor_id p =
      search (preserves_rules, Preserves-enqueue_promotion laws) depth 24

  Preserves-promotion_pending :
      (request_id actor_id : String) → Preserves P (on_promotion_pending host request_id actor_id)
  unfolding on_promotion_pending
  Preserves-promotion_pending request_id actor_id =
      search
        (
          preserves_rules,
          Preserves-update_artifact laws,
          Preserves-ensure_promotion laws,
          Preserves-enqueue_for,
        )
        depth 24

  Preserves-promoted :
      (request_id actor_id : String) → Preserves P (on_promoted host request_id actor_id)
  unfolding on_promoted
  Preserves-promoted request_id actor_id =
      search (preserves_rules, laws.on_tables, Preserves-update_artifact laws) depth 24

  Preserves-completed :
      (request_id actor_id : String) → Preserves P (on_completed host request_id actor_id)
  unfolding on_completed
  Preserves-completed request_id actor_id =
      search
        (
          preserves_rules,
          laws.on_tables,
          Preserves-get_request,
          Preserves-update_artifact laws,
          Preserves-registration laws,
        )
        depth 24

  pub Preserves-side_effects :
      (request_id : String) (target : RequestStatus) (actor_id : String)
      → Preserves P (apply_transition_side_effects host request_id target actor_id)
  unfolding apply_transition_side_effects rgp.Session.◌>>=◌ rgp.Lifecycle.get_request
  Preserves-side_effects request_id target actor_id =
      search
        (
          preserves_rules,
          Preserves-ensure_run laws,
          Preserves-queued,
          Preserves-in_execution,
          Preserves-awaiting_review,
          Preserves-under_review,
          Preserves-changes,
          Preserves-approved,
          Preserves-promotion_pending,
          Preserves-promoted,
          Preserves-completed,
        )
        depth 30
