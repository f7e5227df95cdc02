-- ===== src/StateMachine/Sla.antt =====
-- compute_sla_risk of apps/api/app/domain/state_machine.py. Instants are microseconds since the
-- epoch; `age_hours >= h` is stated without the division, as microseconds.
use rgp.Prelude.{
  ℕ, ◌-◌, ◌*◌, ◌≤◌, String, ◌≡◌, ◌≢◌, ◌⊎◌, inl, inr, eq_iff, refl, Bool, Option, none, some, [],
  ◌∷◌, arith, leb, if◌then◌else◌, str_eq, contains, Dict, lookup,
}
use rgp.Request.{
  status_value, priority_value, failed, awaiting_review, under_review, changes_requested,
  promotion_pending, queued, in_execution, awaiting_input, urgent,
}

-- A datetime without a time zone is read as UTC.
pub data Timestamp : Type 0 where
  naive aware : ℕ → Timestamp

abbrev pub as_utc : Timestamp → ℕ
as_utc (naive t) = t
as_utc (aware t) = t

abbrev Hours : Type 0
Hours = Dict ℕ

abbrev SlaPolicy : Type 0
SlaPolicy = Dict Hours

abbrev sla_standard_v1 : SlaPolicy
sla_standard_v1 =
    ("review_hours", ("medium", 4) ∷ ("high", 2) ∷ ("urgent", 1) ∷ [])
    ∷ ("promotion_hours", ("medium", 6) ∷ ("high", 4) ∷ ("urgent", 2) ∷ [])
    ∷ ("execution_hours", ("medium", 8) ∷ ("high", 6) ∷ ("urgent", 3) ∷ [])
    ∷ []

sla_policy_rules : Dict SlaPolicy
sla_policy_rules = ("sla_standard_v1", sla_standard_v1) ∷ []

pub data SlaLevel : Type 0 where
  watch_medium watch_high watch_critical : SlaLevel

pub data SlaReason : Type 0 where
  execution_failure rapid_response_exceeded urgent_watch : SlaReason
  review_delay promotion_delay execution_delay : SlaReason

-- The pair that is returned, and the KeyError of a missing table entry.
pub data SlaRisk : Type 0 where
  within_sla key_error : SlaRisk
  at_risk : SlaLevel → SlaReason → SlaRisk

abbrev micros_per_hour : ℕ
micros_per_hour = 3600000000

-- `age_hours >= hours`
abbrev older_than : ℕ → ℕ → Bool
older_than age hours = leb (hours * micros_per_hour) age

-- `policy[name][priority]`
threshold : SlaPolicy → String → String → Option ℕ
unfolding lookup
threshold policy name priority = elim (lookup name policy) [
  | none ↦ none
  | some hours ↦ lookup priority hours
]

-- `threshold = policy[name][priority]`, the comparison, and what follows when it fails
check_threshold : Option ℕ → ℕ → SlaRisk → SlaRisk → SlaRisk
check_threshold none age risk rest = key_error
check_threshold (some hours) age risk rest = if older_than age hours then risk else rest

-- `policy_id = sla_policy_id or "sla_standard_v1"`
abbrev policy_name : Option String → String
policy_name none = "sla_standard_v1"
policy_name (some p) = if str_eq p "" then "sla_standard_v1" else p

sla_policy : Option String → SlaPolicy
unfolding sla_policy_rules lookup
sla_policy id = elim (lookup (policy_name id) sla_policy_rules) [
  | none ↦ sla_standard_v1
  | some policy ↦ policy
]

norm_priority : String → String
norm_priority priority =
    if contains priority ("medium" ∷ "high" ∷ "urgent" ∷ []) then priority else "medium"

-- The tests from the age on, last to first; a threshold that is missing in its table counts only
-- where it is read.
assess_execution : ℕ → String → Option ℕ → SlaRisk
unfolding check_threshold status_value
assess_execution age status execution_hours =
    if contains status
      (status_value queued ∷ status_value in_execution ∷ status_value awaiting_input ∷ [])
    then check_threshold execution_hours age (at_risk watch_medium execution_delay) within_sla
    else within_sla

assess_promotion : ℕ → String → Option ℕ → Option ℕ → SlaRisk
unfolding assess_execution
assess_promotion age status promotion_hours execution_hours =
    let rest = assess_execution age status execution_hours in
    if str_eq status (status_value promotion_pending)
    then check_threshold promotion_hours age (at_risk watch_high promotion_delay) rest
    else rest

assess_review : ℕ → String → Option ℕ → Option ℕ → Option ℕ → SlaRisk
unfolding assess_promotion
assess_review age status review_hours promotion_hours execution_hours =
    let rest = assess_promotion age status promotion_hours execution_hours in
    if contains status (
      status_value awaiting_review
      ∷ status_value under_review
      ∷ status_value changes_requested
      ∷ [])
    then check_threshold review_hours age (at_risk watch_high review_delay) rest
    else rest

assess : ℕ → String → String → Option ℕ → Option ℕ → Option ℕ → SlaRisk
unfolding assess_review priority_value
assess age status priority review_hours promotion_hours execution_hours =
    let rest = assess_review age status review_hours promotion_hours execution_hours in
    if str_eq status (status_value failed)
    then at_risk watch_critical execution_failure
    else if str_eq priority (priority_value urgent)
    then (if older_than age 2
        then at_risk watch_critical rapid_response_exceeded
        else at_risk watch_high urgent_watch)
    else rest

pub compute_sla_risk : ℕ → String → String → Option String → Timestamp → SlaRisk
unfolding threshold sla_policy norm_priority assess
compute_sla_risk now status priority sla_policy_id updated_at =
    let policy = sla_policy sla_policy_id in
    let norm = norm_priority priority in
    assess (now - as_utc updated_at) status priority (threshold policy "review_hours" norm)
      (threshold policy "promotion_hours" norm) (threshold policy "execution_hours" norm)

sla_policy_standard : (id : Option String) → sla_policy id ≡ sla_standard_v1
unfolding sla_policy lookup
sla_policy_standard id = ground arith

-- How urgent an outcome is.
abbrev pub severity : SlaRisk → ℕ
severity within_sla = 0
severity key_error = 0
severity (at_risk watch_medium _) = 1
severity (at_risk watch_high _) = 2
severity (at_risk watch_critical _) = 3

norm_priority_cases :
    (p : String)
    → (norm_priority p ≡ "medium") ⊎ (norm_priority p ≡ "high") ⊎ (norm_priority p ≡ "urgent")
unfolding norm_priority
norm_priority_cases p = ground (arith, eq_iff p "medium", eq_iff p "high", eq_iff p "urgent")

abbrev Present : Option ℕ → Type 0
Present o = (h : ℕ) × (o ≡ some h)

abbrev AllPresent : String → Type 0
AllPresent p =
    Present (threshold sla_standard_v1 "review_hours" p)
    × Present (threshold sla_standard_v1 "promotion_hours" p)
    × Present (threshold sla_standard_v1 "execution_hours" p)

thresholds_present : (p : String) → AllPresent (norm_priority p)
unfolding threshold
thresholds_present p = elim (norm_priority_cases p) [
  | inl e ↦ rw e ((4, refl), (6, refl), (8, refl))
  | inr (inl e) ↦ rw e ((2, refl), (4, refl), (6, refl))
  | inr (inr e) ↦ rw e ((1, refl), (2, refl), (3, refl))
]

assess-ne-key_error :
    (age : ℕ) (status priority : String) (a b c : ℕ)
    → assess age status priority (some a) (some b) (some c) ≢ key_error
unfolding assess
assess-ne-key_error age status priority a b c = ground arith

-- The risk stays below a bound, and does not fall with the age.
abbrev Grows : ℕ → (ℕ → SlaRisk) → Type 0
Grows bound f =
    (age later : ℕ)
    → age ≤ later
    → (severity (f age) ≤ severity (f later)) × (severity (f age) ≤ bound)

check_threshold-Grows :
    (o : Option ℕ) (risk : SlaRisk) (rest : ℕ → SlaRisk)
    → Grows (severity risk) rest
    → Grows (severity risk) (λ age. check_threshold o age risk (rest age))
unfolding check_threshold
check_threshold-Grows none risk rest k age later h = omega arith
check_threshold-Grows (some n) risk rest k age later h = ground (arith, k age later h)

execution-Grows : (status : String) (c : Option ℕ) → Grows 1 (λ age. assess_execution age status c)
unfolding assess_execution
execution-Grows status c age later h = ground (
  arith,
  check_threshold-Grows c (at_risk watch_medium execution_delay) (λ _. within_sla)
      (λ _ _ _. omega arith) age later h,
)

promotion-Grows :
    (status : String) (b c : Option ℕ) → Grows 2 (λ age. assess_promotion age status b c)
unfolding assess_promotion
promotion-Grows status b c age later h =
    let rest : Grows 2 (λ age. assess_execution age status c) =
      λ m n k. omega (arith, execution-Grows status c m n k) in
    ground (
      arith,
      rest age later h,
      check_threshold-Grows b (at_risk watch_high promotion_delay) _ rest age later h,
    )

review-Grows :
    (status : String) (a b c : Option ℕ) → Grows 2 (λ age. assess_review age status a b c)
unfolding assess_review
review-Grows status a b c age later h =
    let rest = promotion-Grows status b c in
    ground (
      arith,
      rest age later h,
      check_threshold-Grows a (at_risk watch_high review_delay) _ rest age later h,
    )

assess_mono :
    (age later : ℕ) (status priority : String) (a b c : Option ℕ)
    → age ≤ later
    → severity (assess age status priority a b c) ≤ severity (assess later status priority a b c)
unfolding assess
assess_mono age later status priority a b c h =
    ground (arith, review-Grows status a b c age later h)

-- Whatever the texts of status, priority and policy are, no table entry is missing.
pub compute_sla_risk-ne-key_error :
    (now : ℕ) (status priority : String) (id : Option String) (updated_at : Timestamp)
    → compute_sla_risk now status priority id updated_at ≢ key_error
unfolding compute_sla_risk
compute_sla_risk-ne-key_error now status priority id updated_at =
    let (review, promotion, execution) = thresholds_present priority in
    rw (sla_policy_standard id, review.1, promotion.1, execution.1)
      (assess-ne-key_error (now - as_utc updated_at) status priority review.0 promotion.0
        execution.0)

-- As time passes, the severity computed for the same request never falls.
pub compute_sla_risk_mono :
    (now later : ℕ) (status priority : String) (id : Option String) (updated_at : Timestamp)
    → now ≤ later
    → severity (compute_sla_risk now status priority id updated_at)
      ≤ severity (compute_sla_risk later status priority id updated_at)
compute_sla_risk_mono now later status priority id updated_at h =
    unfold compute_sla_risk in
    assess_mono (now - as_utc updated_at) (later - as_utc updated_at) status priority _ _ _
      (omega arith)
