-- ===== src/Checks/Evaluation/Handlers.antt =====
-- The checks that are evaluated in the database agree with the handlers of the registry.
use rgp.Prelude.{
  String, ◌≡◌, refl, sym, Bool, false, not, ◌&&◌, Option, none, some, str_eq, Bool-cases, inl, inr,
  arith, eq_iff, lookup, insert,
}
use rgp.Json.{no_entries}
use rgp.Request.{status_value}
use rgp.Db.{RequestTable, ArtifactTable, ReviewQueueTable, CheckResultTable}
use rgp.Session.{Host}
use rgp.Checks.Registry.{
  CheckContext, CheckResult, is_fresh as registry_fresh, intake_completeness,
  review_package_readiness, approval_freshness, policy_bundle, promotion_approval_freshness,
  builtins, evaluate,
}
use rgp.Checks.Evaluation.{exists, is_fresh, is_filled, request_check, promotion_check}

abbrev stale_of : Option ArtifactTable → Bool
stale_of none = false
stale_of (some a) = a.stale_review

abbrev blocking_of : Option ReviewQueueTable → String
blocking_of none = ""
blocking_of (some r) = r.blocking_status

-- The context that stands for the rows
unfoldable pub context_of :
    RequestTable → Option ArtifactTable → Option ReviewQueueTable → CheckContext
unfolding status_value
context_of row artifact review = record {
  request_id = row.id;
  title = row.title;
  summary = row.summary;
  template_id = row.template_id;
  status = status_value row.status;
  priority = row.priority;
  policy_context = row.policy_context;
  has_artifact = exists artifact;
  artifact_stale_review = stale_of artifact;
  has_review = exists review;
  review_blocking_status = blocking_of review;
  extra = no_entries;
}

-- The same state and detail
pub record Agrees (c : CheckResultTable) (r : CheckResult) : Type 0 where
  pub state : c.state ≡ r.state
  pub detail : c.detail ≡ r.detail

-- the registry tests the text before it strips it
strip_filled :
    (host : Host) (text : String)
    → host.strip "" ≡ ""
    → is_filled host text ≡ (not (str_eq text "") && not (str_eq (host.strip text) ""))
strip_filled host text p = elim (Bool-cases (str_eq text "")) [
  | inl e ↦ rw ((eq_iff text "").0 e, p) refl
  | inr e ↦ rw e refl
]

fresh_same :
    (row : RequestTable) (artifact : Option ArtifactTable) (review : Option ReviewQueueTable)
    → is_fresh artifact review ≡ registry_fresh (context_of row artifact review)
unfolding context_of
fresh_same row none review = refl
fresh_same row (some a) none = ground arith
fresh_same row (some a) (some r) = refl

-- Whose check it is
pub data Stored : Type 0 where
  of_request of_promotion : Stored

abbrev pub check_of :
    Stored
    → Host
    → RequestTable
    → Option ArtifactTable
    → Option ReviewQueueTable
    → CheckResultTable
    → CheckResultTable
check_of Stored.of_request host row artifact review c = request_check host row artifact review c
check_of Stored.of_promotion host row artifact review c = promotion_check host row artifact review c

-- A stored check, by its name, and the name of its handler
pub data Counterpart : Stored → String → String → Type 0 where
  intake : Counterpart Stored.of_request "Intake Completeness" "Intake Completeness"
  review_package :
      Counterpart Stored.of_request "Review Package Readiness" "Review Package Readiness"
  freshness : Counterpart Stored.of_request "Approval Freshness" "Approval Freshness"
  bundle : Counterpart Stored.of_promotion "Policy Bundle" "Policy Bundle"
  promotion_freshness :
      Counterpart Stored.of_promotion "Approval Freshness" "Promotion Approval Freshness"

-- The checks that the database evaluates and the registry's built-in handlers agree: a handler is
-- registered for each, and gives the state and the detail that the stored check gets, on the
-- artifact and the review that are stored. Stripping the empty text has to give the empty text.
pub evaluate-Agrees :
    (host : Host) (row : RequestTable) (artifact : Option ArtifactTable)
    (review : Option ReviewQueueTable) (c : CheckResultTable) (stored : Stored)
    (name registered : String)
    → host.strip "" ≡ ""
    → Counterpart stored name registered
    → c.name ≡ name
    → (r : CheckResult) × (evaluate registered (context_of row artifact review) (builtins host)
        ≡ some r)
      × Agrees (check_of stored host row artifact review c) r
unfolding evaluate builtins lookup insert context_of request_check promotion_check
    intake_completeness review_package_readiness approval_freshness policy_bundle
    promotion_approval_freshness
evaluate-Agrees host row artifact review c stored name registered strip Counterpart.intake p = (
  intake_completeness host (context_of row artifact review),
  refl,
  rw
      (
        p,
        sym (strip_filled host row.title strip),
        sym (strip_filled host row.summary strip),
        sym (strip_filled host row.template_id strip),
      )
      (record { state = refl; detail = refl }),
)
evaluate-Agrees host row artifact review c stored name registered strip Counterpart.review_package
      p =
    (
      review_package_readiness (context_of row artifact review),
      refl,
      rw p (record { state = refl; detail = refl }),
    )
evaluate-Agrees host row artifact review c stored name registered strip Counterpart.freshness p = (
  approval_freshness (context_of row artifact review),
  refl,
  rw (p, fresh_same row artifact review) (record { state = refl; detail = refl }),
)
evaluate-Agrees host row artifact review c stored name registered strip Counterpart.bundle p = (
  policy_bundle host (context_of row artifact review),
  refl,
  rw p (record { state = refl; detail = refl }),
)
evaluate-Agrees host row artifact review c stored name registered strip
      Counterpart.promotion_freshness p =
    (
      promotion_approval_freshness (context_of row artifact review),
      refl,
      rw (p, fresh_same row artifact review) (record { state = refl; detail = refl }),
    )
