-- ===== src/StateMachine.antt =====
-- apps/api/app/domain/state_machine.py: the lifecycle rules of a request.
pub mod Paths
pub mod Sla
use rgp.Prelude.{Bool, not, Option, none, some, List, [], ◌∷◌, if◌then◌else◌}
use rgp.Request.{
  RequestStatus, is_in, draft, submitted, validation_failed, validated, classified,
  ownership_resolved, planned, queued, in_execution, awaiting_input, awaiting_review, under_review,
  changes_requested, approved, rejected, promotion_pending, promoted, completed, failed, canceled,
}

unfoldable pub transition_rules : RequestStatus → List RequestStatus
transition_rules submitted = validated ∷ validation_failed ∷ canceled ∷ []
transition_rules validation_failed = draft ∷ canceled ∷ []
transition_rules validated = classified ∷ canceled ∷ []
transition_rules classified = ownership_resolved ∷ canceled ∷ []
transition_rules ownership_resolved = planned ∷ canceled ∷ []
transition_rules planned = queued ∷ canceled ∷ []
transition_rules queued = in_execution ∷ failed ∷ canceled ∷ []
transition_rules in_execution = awaiting_input ∷ awaiting_review ∷ failed ∷ canceled ∷ []
transition_rules awaiting_input = draft ∷ canceled ∷ []
transition_rules awaiting_review = under_review ∷ changes_requested ∷ approved ∷ canceled ∷ []
transition_rules under_review = changes_requested ∷ approved ∷ rejected ∷ canceled ∷ []
transition_rules changes_requested = draft ∷ canceled ∷ []
transition_rules approved = promotion_pending ∷ completed ∷ canceled ∷ []
transition_rules promotion_pending = promoted ∷ failed ∷ canceled ∷ []
transition_rules promoted = completed ∷ []
transition_rules failed = planned ∷ canceled ∷ []
transition_rules _ = []

unfoldable pub is_valid_transition : RequestStatus → RequestStatus → Bool
unfolding is_in transition_rules
is_valid_transition current target = is_in target (transition_rules current)

unfoldable pub submittable_statuses : List RequestStatus
submittable_statuses = draft ∷ changes_requested ∷ validation_failed ∷ awaiting_input ∷ []

unfoldable pub amendable_statuses : List RequestStatus
amendable_statuses =
    draft ∷ submitted ∷ validation_failed ∷ validated ∷ classified ∷ ownership_resolved ∷ planned
    ∷ queued ∷ awaiting_input ∷ awaiting_review ∷ under_review ∷ changes_requested ∷ approved
    ∷ promotion_pending ∷ failed ∷ []

unfoldable pub cancelable_statuses : List RequestStatus
cancelable_statuses =
    draft ∷ submitted ∷ validation_failed ∷ validated ∷ classified ∷ ownership_resolved ∷ planned
    ∷ queued ∷ in_execution ∷ awaiting_input ∷ awaiting_review ∷ under_review ∷ changes_requested
    ∷ approved ∷ promotion_pending ∷ failed ∷ []

unfoldable pub allowed_transitions : RequestStatus → List RequestStatus
unfolding transition_rules
allowed_transitions current = transition_rules current

-- The ValueErrors of the `assert_*` helpers, with the statuses that the message names.
pub data LifecycleError : Type 0 where
  cannot_submit cannot_amend cannot_cancel : RequestStatus → LifecycleError
  not_allowed : RequestStatus → RequestStatus → LifecycleError

-- An assertion returns the error that it raises, or `none`.
unfoldable pub assert_submittable : RequestStatus → Option LifecycleError
unfolding is_in submittable_statuses
assert_submittable current =
    if not (is_in current submittable_statuses) then some (cannot_submit current) else none

unfoldable pub assert_amendable : RequestStatus → Option LifecycleError
unfolding is_in amendable_statuses
assert_amendable current =
    if not (is_in current amendable_statuses) then some (cannot_amend current) else none

unfoldable pub assert_cancelable : RequestStatus → Option LifecycleError
unfolding is_in cancelable_statuses
assert_cancelable current =
    if not (is_in current cancelable_statuses) then some (cannot_cancel current) else none

unfoldable pub assert_valid_transition : RequestStatus → RequestStatus → Option LifecycleError
unfolding is_valid_transition
assert_valid_transition current target =
    if not (is_valid_transition current target) then some (not_allowed current target) else none
