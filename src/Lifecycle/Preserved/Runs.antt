-- ===== src/Lifecycle/Preserved/Runs.antt =====
-- The functions on runs preserve what their actions preserve.
use rgp.Prelude.{String, Bool}
use rgp.Request.{RequestStatus}
use rgp.Db.{RequestTable, IntegrationTable}
use rgp.Session.{Host, Session}
use rgp.Session.Preserves.{Preserves, preserves_rules}
use rgp.Lifecycle.Runs.{add_run, ensure_run_for_request, send_dispatch, dispatch_run_to_runtime}
use rgp.Lifecycle.Preserved.{SideEffectLaws, Preserves-get_request, Preserves-next_id}

module _ {host : Host} {P : Session → Type 0} (laws : SideEffectLaws host P) where
  Preserves-add_run :
      (row : RequestTable) (target : RequestStatus) → Preserves P (add_run host row target)
  unfolding add_run
  Preserves-add_run row target =
      search (preserves_rules, laws.on_tables, laws.on_requests, Preserves-next_id laws) depth 24

  pub Preserves-ensure_run :
      (request_id : String) (target : RequestStatus)
      → Preserves P (ensure_run_for_request host request_id target)
  unfolding ensure_run_for_request
  Preserves-ensure_run request_id target =
      search (preserves_rules, Preserves-get_request, Preserves-add_run) depth 24

  Preserves-send :
      (row : RequestTable) (integration : IntegrationTable) (run_id dispatch_type actor_id : String)
      → Preserves P (send_dispatch host row integration run_id dispatch_type actor_id)
  unfolding send_dispatch
  Preserves-send row integration run_id dispatch_type actor_id =
      search (preserves_rules, laws.on_tables, laws.on_append, Preserves-next_id laws) depth 24

  pub Preserves-dispatch_run :
      (request_id run_id dispatch_type actor_id : String) (force : Bool)
      → Preserves P (dispatch_run_to_runtime host request_id run_id dispatch_type actor_id force)
  unfolding dispatch_run_to_runtime
  Preserves-dispatch_run request_id run_id dispatch_type actor_id force =
      search (preserves_rules, Preserves-get_request, Preserves-send) depth 24
