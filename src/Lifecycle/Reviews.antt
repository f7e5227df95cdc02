-- ===== src/Lifecycle/Reviews.antt =====
-- governance_repository.py: the review queue and the promotion record of a request. The texts that
-- `submit_request` stores under "routing" are lists of texts; the model raises a type error for
-- any other value there.
use rgp.Prelude.{
  String, ◌<>◌, false, Option, none, some, List, [], ◌∷◌, ◌++◌, map, select, best, first, update,
  str_eq, if◌then◌else◌,
}
use rgp.Json.{Elements, Entries, string, list_of, no_elements, item, get, truthy}
use rgp.Text.{text_lt}
use rgp.Db.{Db, RequestTable, ReviewQueueTable, PromotionTable}
use rgp.Db.Runs.{Approval}
use rgp.Session.{
  Host, Action, type_error, pure, read, required, write_tables, match_row, ◌>>=◌, ◌>>◌,
}
use rgp.Events.{or_text}
use rgp.Checks.{
  ensure_promotion_check_records, sync_promotion_checks, promotion_readiness_from_db,
  readiness_text,
}
use rgp.Lifecycle.{get_request, next_id, routing_fields}

unfoldable pub texts_of : Elements → Option (List String)
texts_of no_elements = some []
texts_of (item (string t) rest) = elim (texts_of rest) [ none ↦ none | some ts ↦ some (t ∷ ts) ]
texts_of (item _ _) = none

-- routing.get(key) or default
unfoldable pub routed_to : String → List String → Entries → Option (List String)
unfolding get truthy texts_of
routed_to key default routing = elim (get key routing) [
  | none ↦ some default
  | some v ↦
      if truthy v then (elim v [ list_of items ↦ texts_of items | _ ↦ none ]) else some default
]

abbrev pub head_or : String → List String → String
head_or default [] = default
head_or default (t ∷ ts) = t

abbrev pub modify_review : String → (ReviewQueueTable → ReviewQueueTable) → Action Unit
modify_review id f =
    write_tables (λ t. record t { reviews = update (λ r. str_eq r.id id) f t.reviews })

abbrev pub modify_promotion : String → (PromotionTable → PromotionTable) → Action Unit
modify_promotion id f =
    write_tables (λ t. record t { promotions = update (λ p. str_eq p.id id) f t.promotions })

abbrev pub review_of : String → Db → Option ReviewQueueTable
review_of request_id d = first (λ r. str_eq r.request_id request_id) d.tables.reviews

abbrev pub promotion_of : String → Db → Option PromotionTable
promotion_of request_id d = first (λ p. str_eq p.request_id request_id) d.tables.promotions

-- order_by(desc(ReviewQueueTable.id))
abbrev latest_review_of : String → Db → Option ReviewQueueTable
latest_review_of request_id d =
    best (λ a b. text_lt b.id a.id) (select (λ r. str_eq r.request_id request_id) d.tables.reviews)

unfoldable pub update_review_queue_status : String → String → Action Unit
update_review_queue_status request_id blocking_status = do
  queue_row ← read (latest_review_of request_id)
  match_row queue_row (pure tt) (λ q. modify_review q.id (λ r. record r {
    blocking_status = blocking_status;
    stale = str_eq blocking_status "Changes requested";
  }))

new_review : RequestTable → String → String → ReviewQueueTable
new_review row assigned_reviewer id = record {
  id = id;
  request_id = row.id;
  review_scope = "artifact_version";
  artifact_or_changeset = row.title <> " review package";
  type = "governance_review";
  priority = row.priority;
  sla = "Due in 4h";
  blocking_status = "Blocking request progress";
  assigned_reviewer = assigned_reviewer;
  stale = false;
}

unfoldable pub add_review : Host → RequestTable → String → Action Unit
unfolding new_review
add_review host row assigned_reviewer = do
  id ← next_id host "revq_"
  write_tables (λ t. record t { reviews = t.reviews ++ new_review row assigned_reviewer id ∷ [] })

unfoldable pub ensure_review_queue_item : Host → String → Action Unit
unfolding routed_to routing_fields add_review
ensure_review_queue_item host request_id = do
  row ← get_request request_id
  routing ← required (type_error "routing") (routing_fields row)
  let default = or_text row.owner_team_id "reviewer_queue"
  reviewers ← required (type_error "routing") (routed_to "reviewers" (default ∷ []) routing)
  existing ← read (review_of request_id)
  match_row existing (add_review host row (head_or default reviewers)) (λ q.
      modify_review q.id (λ r. record r {
        blocking_status = "Blocking request progress";
        stale = false;
        assigned_reviewer = head_or default reviewers;
      }))

pending_approval : String → Approval
pending_approval approver = record { reviewer = approver; state = "pending"; scope = "promotion" }

-- ensure_promotion_check_records, sync_promotion_checks and the readiness that follows from them
unfoldable pub refresh_promotion : Host → PromotionTable → String → Action Unit
refresh_promotion host p actor_id = do
  ensure_promotion_check_records host p actor_id
  checks ← read (sync_promotion_checks p)
  modify_promotion p.id (λ x. record x { required_checks = checks })
  readiness ← read (promotion_readiness_from_db p)
  modify_promotion p.id (λ x. record x { execution_readiness = readiness_text readiness })

new_promotion : Host → RequestTable → String → List String → String → PromotionTable
unfolding pending_approval
new_promotion host row actor_id promotion_approvers id = record {
  id = id;
  request_id = row.id;
  target = "Production Governance Target";
  strategy = "Governed direct promotion";
  required_checks = [];
  required_approvals = map pending_approval promotion_approvers;
  stale_warnings = [];
  execution_readiness = "Blocked until pending checks and approvals are satisfied.";
  promotion_history =
      (record { timestamp = host.now; actor = actor_id; action = "Promotion request created" })
      ∷ [];
}

unfoldable pub add_promotion : Host → RequestTable → String → List String → Action Unit
unfolding new_promotion refresh_promotion
add_promotion host row actor_id promotion_approvers = do
  id ← next_id host "pro_"
  let promotion = new_promotion host row actor_id promotion_approvers id
  write_tables (λ t. record t { promotions = t.promotions ++ promotion ∷ [] })
  refresh_promotion host promotion actor_id

-- New approvals are required of a promotion that stands already.
unfoldable pub reset_promotion : Host → PromotionTable → String → List String → Action Unit
unfolding pending_approval refresh_promotion
reset_promotion host p actor_id promotion_approvers = do
  let reset = λ (x : PromotionTable). record x {
    required_approvals = map pending_approval promotion_approvers;
  }
  modify_promotion p.id reset
  refresh_promotion host (reset p) actor_id

unfoldable pub ensure_promotion_record : Host → String → String → Action Unit
unfolding routed_to routing_fields add_promotion reset_promotion
ensure_promotion_record host request_id actor_id = do
  row ← get_request request_id
  routing ← required (type_error "routing") (routing_fields row)
  promotion_approvers ←
      required (type_error "routing")
        (routed_to "promotion_approvers" (or_text row.owner_team_id "ops_reviewer" ∷ []) routing)
  existing ← read (promotion_of request_id)
  match_row existing (add_promotion host row actor_id promotion_approvers)
      (λ p. reset_promotion host p actor_id promotion_approvers)
