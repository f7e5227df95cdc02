-- ===== src/Checks/Evaluation.antt =====
-- run_request_checks and run_promotion_checks of apps/api/app/services/policy_check_service.py: the
-- checks of a request and of a promotion are evaluated on what is stored of them.
pub mod Handlers
use rgp.Prelude.{
  String, ◌<>◌, Bool, true, false, not, ◌&&◌, ◌||◌, Option, none, some, List, update, select, best,
  str_eq, ltb, if◌then◌else◌,
}
use rgp.Json.{Value, boolean, dict_of, get, get_default}
use rgp.Text.{text_lt}
use rgp.Db.{Db, RequestTable, ArtifactTable, ReviewQueueTable, PromotionTable, CheckResultTable}
use rgp.Session.{Host, Action, read, write_tables, ◌>>=◌, ◌>>◌}
use rgp.Checks.{
  is_request_check, is_promotion_check, ensure_request_check_records,
  ensure_promotion_check_records, sync_promotion_checks,
}

-- the artifact of the request that was updated last, and its last review
abbrev pub latest_artifact : String → Db → Option ArtifactTable
latest_artifact request_id d =
    best (λ a b. ltb b.updated_at a.updated_at)
      (select (λ a. str_eq a.request_id request_id) d.tables.artifacts)

abbrev pub latest_review : String → Db → Option ReviewQueueTable
latest_review request_id d =
    best (λ a b. text_lt b.id a.id) (select (λ r. str_eq r.request_id request_id) d.tables.reviews)

abbrev pub exists {ℓ} : {A : Type ℓ} → Option A → Bool
exists none = false
exists (some a) = true

abbrev pub is_approved_review : Option ReviewQueueTable → Bool
is_approved_review none = true
is_approved_review (some r) = str_eq r.blocking_status "Approved"

-- the artifact is there and its approval fresh
abbrev pub is_fresh : Option ArtifactTable → Option ReviewQueueTable → Bool
is_fresh none review = false
is_fresh (some a) review = not a.stale_review && is_approved_review review

-- bool(text.strip())
abbrev pub is_filled : Host → String → Bool
is_filled host text = not (str_eq (host.strip text) "")

abbrev bool_text : Bool → String
bool_text true = "True"
bool_text false = "False"

abbrev artifact_id : Option ArtifactTable → String
artifact_id none = "missing"
artifact_id (some a) = a.id

abbrev artifact_stale : Option ArtifactTable → String
artifact_stale none = "missing"
artifact_stale (some a) = bool_text a.stale_review

abbrev review_id : Option ReviewQueueTable → String
review_id none = "missing"
review_id (some r) = r.id

abbrev review_status : Option ReviewQueueTable → String
review_status none = "missing"
review_status (some r) = r.blocking_status

-- the three fields of a check that an evaluation sets
abbrev evaluated : Bool → String → String → String → String → CheckResultTable → CheckResultTable
evaluated passed otherwise good bad evidence c = record c {
  state = if passed then "passed" else otherwise;
  detail = if passed then good else bad;
  evidence = evidence;
}

-- the `if` of the loop over the checks of a request
unfoldable pub request_check :
    Host
    → RequestTable
    → Option ArtifactTable
    → Option ReviewQueueTable
    → CheckResultTable
    → CheckResultTable
request_check host row artifact review c =
    if str_eq c.name "Intake Completeness"
    then (let title = is_filled host row.title in
        let summary = is_filled host row.summary in
        let template_id = is_filled host row.template_id in
        evaluated (title && (summary && template_id)) "failed"
          "All canonical intake fields are populated."
          "Title, summary, and template binding are required."
          ("{'title': "
            <> bool_text title
            <> ", 'summary': "
            <> bool_text summary
            <> ", 'template_id': "
            <> bool_text template_id
            <> "}")
          c)
    else if str_eq c.name "Review Package Readiness"
    then evaluated (exists artifact && exists review) "pending"
        "Artifact and review routing are ready."
        "Artifact generation and reviewer routing must complete."
        ("artifact=" <> artifact_id artifact <> ", review=" <> review_id review) c
    else if str_eq c.name "Approval Freshness"
    then evaluated (is_fresh artifact review) "pending" "Latest approval evidence is fresh."
        "A fresh approved review is required before promotion."
        ("artifact_stale=" <> artifact_stale artifact <> ", review=" <> review_status review) c
    else c

-- `value is not False`
abbrev pub is_not_false : Value → Bool
is_not_false (boolean false) = false
is_not_false _ = true

-- the `if` of the loop over the checks of a promotion
unfoldable pub promotion_check :
    Host
    → RequestTable
    → Option ArtifactTable
    → Option ReviewQueueTable
    → CheckResultTable
    → CheckResultTable
unfolding get
promotion_check host row artifact review c =
    if str_eq c.name "Policy Bundle"
    then evaluated
        (is_not_false (get_default "policy_bundle_passed" (boolean true) row.policy_context))
        "failed" "Automated policy bundle evaluation passed."
        "Automated policy bundle evaluation failed."
        ("policy_context=" <> host.show (dict_of row.policy_context)) c
    else if str_eq c.name "Approval Freshness"
    then evaluated (is_fresh artifact review) "pending" "Latest approved artifact is fresh."
        "Waiting for fresh approval evidence."
        ("artifact_stale=" <> artifact_stale artifact <> ", review_state=" <> review_status review)
        c
    else c

abbrev stamped : Host → String → CheckResultTable → CheckResultTable
stamped host actor_id c = record c { evaluated_at = host.now; evaluated_by = actor_id }

unfoldable pub run_request_checks : Host → RequestTable → String → Action Unit
unfolding text_lt request_check
run_request_checks host row actor_id = do
  ensure_request_check_records host row.id actor_id
  artifact ← read (latest_artifact row.id)
  review ← read (latest_review row.id)
  write_tables (λ t. record t {
    check_results =
        update (is_request_check row.id)
          (λ c. stamped host actor_id (request_check host row artifact review c)) t.check_results;
  })

unfoldable pub run_promotion_checks : Host → RequestTable → PromotionTable → String → Action Unit
unfolding text_lt promotion_check
run_promotion_checks host row promotion actor_id = do
  ensure_promotion_check_records host promotion actor_id
  artifact ← read (latest_artifact row.id)
  review ← read (latest_review row.id)
  write_tables (λ t. record t {
    check_results =
        update (is_promotion_check promotion.id)
          (λ c. stamped host actor_id (promotion_check host row artifact review c)) t.check_results;
  })
  checks ← read (sync_promotion_checks promotion)
  write_tables (λ t. record t {
    promotions =
        update (λ p. str_eq p.id promotion.id) (λ p. record p { required_checks = checks })
          t.promotions;
  })
