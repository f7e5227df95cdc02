-- ===== src/StateMachine/Paths.antt =====
-- The lifecycle as a graph: which statuses a chain of allowed transitions can reach.
use rgp.Prelude.{[], ◌∷◌, arith, ◌≡◌, refl, ◌≢◌, ◌↔◌, ◌⊎◌, Bool, true, false, none}
use rgp.Request.{
  RequestStatus, is_in, draft, validation_failed, in_execution, awaiting_input, changes_requested,
  approved, rejected, promotion_pending, promoted, completed, canceled, archived,
}
use rgp.StateMachine.{is_valid_transition, assert_submittable, assert_amendable, assert_cancelable}

-- A chain of allowed transitions.
pub data Lifecycle : RequestStatus → RequestStatus → Type 0 where
  stay : {s : RequestStatus} → Lifecycle s s
  then : {s t u : RequestStatus} → is_valid_transition s t ≡ true → Lifecycle t u → Lifecycle s u

-- A chain of allowed transitions in which no step leads to `avoid`.
pub data Avoids (avoid : RequestStatus) : RequestStatus → RequestStatus → Type 0 where
  stay : {s : RequestStatus} → Avoids avoid s s
  then :
      {s t u : RequestStatus}
      → is_valid_transition s t ≡ true
      → t ≢ avoid
      → Avoids avoid t u
      → Avoids avoid s u

-- The statuses of a request that has not been approved.
abbrev pub is_unapproved : RequestStatus → Bool
is_unapproved approved = false
is_unapproved promotion_pending = false
is_unapproved promoted = false
is_unapproved completed = false
is_unapproved archived = false
is_unapproved _ = true

unapproved_step :
    (s t : RequestStatus)
    → is_unapproved s ≡ true
    → is_valid_transition s t ≡ true
    → t ≢ approved
    → is_unapproved t ≡ true
unfolding is_valid_transition
unapproved_step s approved e h n = absurd (n refl)
unapproved_step approved promotion_pending e h n = cc
unapproved_step _ promotion_pending e h n = cc
unapproved_step approved promoted e h n = cc
unapproved_step _ promoted e h n = cc
unapproved_step approved completed e h n = cc
unapproved_step _ completed e h n = cc
unapproved_step approved archived e h n = cc
unapproved_step _ archived e h n = cc
unapproved_step s _ e h n = refl

-- From a status of a request that has not been approved, every chain of allowed transitions with
-- no step to `approved` ends in such a status: in none of `approved`, `promotion_pending`,
-- `promoted`, `completed` and `archived`.
pub no_bypass_of_approval :
    (s t : RequestStatus) → is_unapproved s ≡ true → Avoids approved s t → is_unapproved t ≡ true
no_bypass_of_approval s t e stay = e
no_bypass_of_approval s t e (then {t = m} h n rest) =
    no_bypass_of_approval m t (unapproved_step s m e h n) rest

-- A status with no transition, one that goes back to the draft, or one on the way to `completed`
pub data Outcome : RequestStatus → Type 0 where
  ends :
      (s : RequestStatus)
      → is_in s (draft ∷ rejected ∷ completed ∷ canceled ∷ archived ∷ []) ≡ true
      → ((t : RequestStatus) → is_valid_transition s t ≡ false)
      → Outcome s
  returns :
      (s : RequestStatus)
      → is_in s (validation_failed ∷ awaiting_input ∷ changes_requested ∷ []) ≡ true
      → ((t : RequestStatus) → is_valid_transition s t ≡ true → (t ≡ draft) ⊎ (t ≡ canceled))
      → is_valid_transition s draft ≡ true
      → Outcome s
  completes : (s : RequestStatus) → Lifecycle s completed → Outcome s

-- A status has a transition to `canceled` exactly if it can be canceled and is not a draft; it has
-- one to `draft` exactly if it can be submitted and is not a draft; and it can be amended exactly
-- if it can be canceled and is not in execution.
pub guards_agree :
    (s : RequestStatus)
    → ((is_valid_transition s canceled ≡ true) ↔ ((assert_cancelable s ≡ none) × (s ≢ draft)))
      × ((is_valid_transition s draft ≡ true) ↔ ((assert_submittable s ≡ none) × (s ≢ draft)))
      × ((assert_amendable s ≡ none) ↔ ((assert_cancelable s ≡ none) × (s ≢ in_execution)))
unfolding is_valid_transition assert_cancelable assert_submittable assert_amendable
guards_agree draft = ground arith
guards_agree _ = ground arith
