-- ===== src/Lifecycle/Preserved/Reviews.antt =====
-- The functions on checks, reviews and promotions preserve what their actions preserve.
use rgp.Prelude.{String, Option, List}
use rgp.Db.{RequestTable, PromotionTable}
use rgp.Session.{Host, Session}
use rgp.Session.Preserves.{Preserves, preserves_rules}
use rgp.Checks.{ensure_promotion_check_records}
use rgp.Checks.Dispatch.{
  request_tenant_id, dispatch_found, dispatch, enqueue_run, enqueue_request_checks,
  enqueue_promotion_checks,
}
use rgp.Lifecycle.Reviews.{
  update_review_queue_status, add_review, ensure_review_queue_item, refresh_promotion,
  add_promotion, reset_promotion, ensure_promotion_record,
}
use rgp.Lifecycle.Preserved.{SideEffectLaws, Preserves-get_request, Preserves-next_id}

module _ {host : Host} {P : Session → Type 0} (laws : SideEffectLaws host P) where
  Preserves-tenant : (request_id : String) → Preserves P (request_tenant_id host request_id)
  unfolding request_tenant_id
  Preserves-tenant request_id = search preserves_rules depth 24

  Preserves-dispatch_found : (id : String) → Preserves P (dispatch_found host id)
  unfolding dispatch_found
  Preserves-dispatch_found id = search (preserves_rules, laws.on_tables, laws.on_thread) depth 24

  Preserves-dispatch : (id : String) → Preserves P (dispatch host id)
  unfolding dispatch
  Preserves-dispatch id = search (preserves_rules, Preserves-dispatch_found) depth 24

  Preserves-enqueue_run :
      (request_id : String) (promotion_id : Option String) (scope actor_id reason : String)
      → Preserves P (enqueue_run host request_id promotion_id scope actor_id reason)
  unfolding enqueue_run
  Preserves-enqueue_run request_id promotion_id scope actor_id reason =
      search (preserves_rules, laws.on_tables, laws.on_append, Preserves-tenant, Preserves-dispatch)
        depth 24

  pub Preserves-enqueue_request :
      (request_id actor_id reason : String)
      → Preserves P (enqueue_request_checks host request_id actor_id reason)
  unfolding enqueue_request_checks
  Preserves-enqueue_request request_id actor_id reason =
      search (preserves_rules, Preserves-enqueue_run) depth 24

  pub Preserves-enqueue_promotion :
      (promotion_id request_id actor_id reason : String)
      → Preserves P (enqueue_promotion_checks host promotion_id request_id actor_id reason)
  unfolding enqueue_promotion_checks
  Preserves-enqueue_promotion promotion_id request_id actor_id reason =
      search (preserves_rules, Preserves-enqueue_run) depth 24

  pub Preserves-queue_status :
      (request_id status : String) → Preserves P (update_review_queue_status request_id status)
  unfolding update_review_queue_status
  Preserves-queue_status request_id status = search (preserves_rules, laws.on_tables) depth 24

  Preserves-add_review :
      (row : RequestTable) (reviewer : String) → Preserves P (add_review host row reviewer)
  unfolding add_review
  Preserves-add_review row reviewer =
      search (preserves_rules, laws.on_tables, Preserves-next_id laws) depth 24

  pub Preserves-ensure_review :
      (request_id : String) → Preserves P (ensure_review_queue_item host request_id)
  unfolding ensure_review_queue_item
  Preserves-ensure_review request_id =
      search (preserves_rules, laws.on_tables, Preserves-get_request, Preserves-add_review) depth 24

  Preserves-ensure_checks :
      (p : PromotionTable) (actor_id : String)
      → Preserves P (ensure_promotion_check_records host p actor_id)
  unfolding ensure_promotion_check_records
  Preserves-ensure_checks p actor_id = search (preserves_rules, laws.on_tables) depth 24

  Preserves-refresh :
      (p : PromotionTable) (actor_id : String) → Preserves P (refresh_promotion host p actor_id)
  unfolding refresh_promotion
  Preserves-refresh p actor_id =
      search (preserves_rules, laws.on_tables, Preserves-ensure_checks) depth 24

  Preserves-add_promotion :
      (row : RequestTable) (actor_id : String) (approvers : List String)
      → Preserves P (add_promotion host row actor_id approvers)
  unfolding add_promotion
  Preserves-add_promotion row actor_id approvers =
      search (preserves_rules, laws.on_tables, Preserves-next_id laws, Preserves-refresh) depth 24

  Preserves-reset :
      (p : PromotionTable) (actor_id : String) (approvers : List String)
      → Preserves P (reset_promotion host p actor_id approvers)
  unfolding reset_promotion
  Preserves-reset p actor_id approvers =
      search (preserves_rules, laws.on_tables, Preserves-refresh) depth 24

  pub Preserves-ensure_promotion :
      (request_id actor_id : String)
      → Preserves P (ensure_promotion_record host request_id actor_id)
  unfolding ensure_promotion_record
  Preserves-ensure_promotion request_id actor_id =
      search (preserves_rules, Preserves-get_request, Preserves-add_promotion, Preserves-reset)
        depth 24
