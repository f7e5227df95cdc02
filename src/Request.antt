-- ===== src/Request.antt =====
-- apps/api/app/models/request.py: the statuses and priorities of a request. Both are string
-- enumerations: two members are equal if their values are.
use rgp.Prelude.{
  String, Bool, true, Option, none, some, List, any, str_eq, if◌then◌else◌, ◌≡◌, refl, ap, ◌↔◌,
  eq_iff,
}

pub data RequestStatus : Type 0 where
  draft submitted validation_failed validated classified ownership_resolved : RequestStatus
  planned queued in_execution awaiting_input awaiting_review under_review : RequestStatus
  changes_requested approved rejected promotion_pending promoted completed : RequestStatus
  failed canceled archived : RequestStatus

-- `status.value`
unfoldable pub status_value : RequestStatus → String
status_value draft = "draft"
status_value submitted = "submitted"
status_value validation_failed = "validation_failed"
status_value validated = "validated"
status_value classified = "classified"
status_value ownership_resolved = "ownership_resolved"
status_value planned = "planned"
status_value queued = "queued"
status_value in_execution = "in_execution"
status_value awaiting_input = "awaiting_input"
status_value awaiting_review = "awaiting_review"
status_value under_review = "under_review"
status_value changes_requested = "changes_requested"
status_value approved = "approved"
status_value rejected = "rejected"
status_value promotion_pending = "promotion_pending"
status_value promoted = "promoted"
status_value completed = "completed"
status_value failed = "failed"
status_value canceled = "canceled"
status_value archived = "archived"

-- `RequestStatus(text)`, with `none` for the ValueError
unfoldable pub parse_status : String → Option RequestStatus
parse_status text =
    if str_eq "draft" text
    then some draft
    else if str_eq "submitted" text
    then some submitted
    else if str_eq "validation_failed" text
    then some validation_failed
    else if str_eq "validated" text
    then some validated
    else if str_eq "classified" text
    then some classified
    else if str_eq "ownership_resolved" text
    then some ownership_resolved
    else if str_eq "planned" text
    then some planned
    else if str_eq "queued" text
    then some queued
    else if str_eq "in_execution" text
    then some in_execution
    else if str_eq "awaiting_input" text
    then some awaiting_input
    else if str_eq "awaiting_review" text
    then some awaiting_review
    else if str_eq "under_review" text
    then some under_review
    else if str_eq "changes_requested" text
    then some changes_requested
    else if str_eq "approved" text
    then some approved
    else if str_eq "rejected" text
    then some rejected
    else if str_eq "promotion_pending" text
    then some promotion_pending
    else if str_eq "promoted" text
    then some promoted
    else if str_eq "completed" text
    then some completed
    else if str_eq "failed" text
    then some failed
    else if str_eq "canceled" text
    then some canceled
    else if str_eq "archived" text
    then some archived
    else none

pub parse_status-status_value : (s : RequestStatus) → parse_status (status_value s) ≡ some s
unfolding parse_status status_value
parse_status-status_value draft = refl
parse_status-status_value _ = refl

unfoldable pub status_eq : RequestStatus → RequestStatus → Bool
unfolding status_value
status_eq a b = str_eq (status_value a) (status_value b)

pub status_value_injective : (a b : RequestStatus) → status_value a ≡ status_value b → a ≡ b
status_value_injective a b p = cc (parse_status-status_value a, parse_status-status_value b)

pub status_eq_iff : (a b : RequestStatus) → (status_eq a b ≡ true) ↔ (a ≡ b)
unfolding status_eq
status_eq_iff a b =
    (λ h. status_value_injective a b ((eq_iff _ _).0 h), λ p. (eq_iff _ _).1 (ap status_value p))

-- `status in statuses`
unfoldable pub is_in : RequestStatus → List RequestStatus → Bool
unfolding status_eq
is_in s l = any (status_eq s) l

pub data RequestPriority : Type 0 where
  low medium high urgent : RequestPriority

unfoldable pub priority_value : RequestPriority → String
priority_value low = "low"
priority_value medium = "medium"
priority_value high = "high"
priority_value urgent = "urgent"
