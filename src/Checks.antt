-- ===== src/Checks.antt =====
-- apps/api/app/services/policy_check_service.py: transition gates, the checks of a request and of a
-- promotion, and when a promotion is ready.
pub mod Dispatch
pub mod Registry
pub mod Evaluation
pub mod Readiness
use rgp.Prelude.{
  ℕ, suc, String, ◌<>◌, Bool, true, false, not, ◌&&◌, ◌||◌, Option, none, some, List, [], ◌∷◌, ◌++◌,
  map, any, all, select, first, best, sort_by, distinct, count_if, ltb, str_eq, if◌then◌else◌,
}
use rgp.Json.{Value, Entries, boolean, get, none_value}
use rgp.Text.{decimal, text_lt, join}
use rgp.Request.{RequestStatus, status_value}
use rgp.Db.{
  Db, Tables, RequestTable, ArtifactTable, ReviewQueueTable, PromotionTable, CheckResultTable,
  CheckOverrideTable, TransitionGateTable,
}
use rgp.Db.Runs.{Approval, RequiredCheck}
use rgp.Session.{
  Host, Action, Error, value_error, pure, read, write_tables, when, raise_if, ◌>>=◌, ◌>>◌,
}

abbrev pub request_check_definitions : List (String × String)
request_check_definitions =
    ("Intake Completeness", "Awaiting request field validation.")
    ∷ ("Review Package Readiness", "Awaiting artifact and reviewer routing.")
    ∷ ("Approval Freshness", "Awaiting approved review evidence.")
    ∷ []

abbrev pub promotion_check_definitions : List (String × String)
promotion_check_definitions =
    ("Policy Bundle", "Awaiting final policy verification.")
    ∷ ("Approval Freshness", "Awaiting final approver confirmation.")
    ∷ []

-- A check of the request itself: `promotion_id.is_(None)`
abbrev pub is_request_check : String → CheckResultTable → Bool
is_request_check request_id c =
    str_eq c.request_id request_id && elim c.promotion_id [ none ↦ true | some _ ↦ false ]

abbrev pub is_promotion_check : String → CheckResultTable → Bool
is_promotion_check promotion_id c = elim c.promotion_id [
  | none ↦ false
  | some p ↦ str_eq p promotion_id
]

-- A gate that holds for a transition of the tenant's requests to the status.
abbrev pub gate_applies : String → String → TransitionGateTable → Bool
gate_applies tenant_id target g =
    str_eq g.tenant_id tenant_id
    && str_eq g.gate_scope "request"
    && str_eq g.transition_target target
    && g.active

unfoldable pub active_transition_gate_check_names : RequestStatus → String → Db → List String
unfolding status_value
active_transition_gate_check_names target tenant_id d = distinct (
    map (λ g. g.required_check_name)
      (select (gate_applies tenant_id (status_value target)) d.tables.transition_gates))

-- The state of the last check of that name: later rows replace earlier ones in `checks_by_name`.
unfoldable pub state_of : String → List CheckResultTable → Option String
state_of name [] = none
state_of name (c ∷ rest) = elim (state_of name rest) [
  | some state ↦ some state
  | none ↦ if str_eq c.name name then some c.state else none
]

abbrev pub is_passed : Option String → Bool
is_passed none = false
is_passed (some state) = str_eq state "passed"

-- The names of the required checks that have not passed.
unfoldable pub unresolved : List CheckResultTable → List String → List String
unfolding state_of
unresolved checks names = select (λ name. not (is_passed (state_of name checks))) names

abbrev is_empty {ℓ} : {A : Type ℓ} → List A → Bool
is_empty [] = true
is_empty (x ∷ xs) = false

unfoldable pub assert_request_transition_ready : String → RequestStatus → String → Action Unit
unfolding active_transition_gate_check_names unresolved status_value
assert_request_transition_ready request_id target tenant_id = do
  required_names ← read (active_transition_gate_check_names target tenant_id)
  checks ← read (λ d. select (is_request_check request_id) d.tables.check_results)
  raise_if (not (is_empty (unresolved checks required_names))) (
      value_error (
        "Request cannot transition to "
        <> status_value target
        <> " until checks pass: "
        <> join (sort_by text_lt (unresolved checks required_names))))

new_check : Host → String → Option String → String → String → (String × String) → CheckResultTable
new_check host request_id promotion_id actor_id id (name, detail) = record {
  id = id;
  request_id = request_id;
  promotion_id = promotion_id;
  name = name;
  state = "pending";
  detail = detail;
  severity = "required";
  evidence = "Not yet evaluated";
  evaluated_at = host.now;
  evaluated_by = actor_id;
}

-- `enumerate(definitions, start=index)`
number_checks :
    (String → (String × String) → CheckResultTable)
    → String
    → ℕ
    → List (String × String)
    → List CheckResultTable
number_checks make prefix index [] = []
number_checks make prefix index (d ∷ ds) =
    make (prefix <> decimal index) d ∷ number_checks make prefix (suc index) ds

abbrev has_rows {ℓ} : {A : Type ℓ} → (A → Bool) → List A → Bool
has_rows test rows = any test rows

pub ensure_request_check_records : Host → String → String → Action Unit
unfolding new_check number_checks
ensure_request_check_records host request_id actor_id = do
  existing ← read (λ d. has_rows (is_request_check request_id) d.tables.check_results)
  when (not existing) (
      write_tables (λ t. record t {
        check_results =
            t.check_results
            ++ number_checks (new_check host request_id none actor_id)
                ("reqchk_" <> request_id <> "_") 1 request_check_definitions;
      }))

unfoldable pub ensure_promotion_check_records : Host → PromotionTable → String → Action Unit
unfolding new_check number_checks
ensure_promotion_check_records host p actor_id = do
  existing ← read (λ d. has_rows (is_promotion_check p.id) d.tables.check_results)
  when (not existing) (
      write_tables (λ t. record t {
        check_results =
            t.check_results
            ++ number_checks (new_check host p.request_id (some p.id) actor_id)
                ("chk_" <> p.id <> "_") 1 promotion_check_definitions;
      }))

-- An approved override of the check stands among the rows.
abbrev pub is_overridden : List CheckOverrideTable → CheckResultTable → Bool
is_overridden overrides c =
    any (λ o. str_eq o.check_result_id c.id && str_eq o.state "approved") overrides

abbrev pub is_resolved : List CheckOverrideTable → CheckResultTable → Bool
is_resolved overrides c = str_eq c.state "passed" || is_overridden overrides c

abbrev pub is_approved : Approval → Bool
is_approved a = str_eq a.state "approved"

unfoldable pub promotion_ready :
    List CheckResultTable → List CheckOverrideTable → List Approval → Bool
promotion_ready checks overrides approvals =
    all (is_resolved overrides) checks && all is_approved approvals

-- promotion_readiness: the message, with the two numbers that it names
pub data PromotionReadiness : Type 0 where
  ready : PromotionReadiness
  blocked : (checks approvals : ℕ) → PromotionReadiness

unfoldable pub promotion_readiness :
    List CheckResultTable → List CheckOverrideTable → List Approval → PromotionReadiness
unfolding promotion_ready
promotion_readiness checks overrides approvals =
    if promotion_ready checks overrides approvals
    then ready
    else blocked
        (count_if (λ c. not (str_eq c.state "passed") && not (is_overridden overrides c)) checks)
        (count_if (λ a. not (is_approved a)) approvals)

unfoldable pub readiness_text : PromotionReadiness → String
readiness_text ready = "Approved for promotion execution."
readiness_text (blocked checks approvals) =
    "Blocked until "
    <> decimal checks
    <> " checks and "
    <> decimal approvals
    <> " approvals are satisfied."

abbrev pub promotion_overrides : String → Db → List CheckOverrideTable
promotion_overrides promotion_id d =
    select (λ o. elim o.promotion_id [ none ↦ false | some p ↦ str_eq p promotion_id ])
      d.tables.check_overrides

pub promotion_readiness_from_db : PromotionTable → Db → PromotionReadiness
unfolding promotion_readiness
promotion_readiness_from_db p d =
    promotion_readiness (select (is_promotion_check p.id) d.tables.check_results)
      (promotion_overrides p.id d) p.required_approvals

required_check : List CheckOverrideTable → CheckResultTable → RequiredCheck
required_check overrides c = record {
  name = c.name;
  state = if is_overridden overrides c then "overridden" else c.state;
  detail = c.detail;
}

-- The new value of `promotion_row.required_checks`
pub sync_promotion_checks : PromotionTable → Db → List RequiredCheck
unfolding required_check
sync_promotion_checks p d = map (required_check (promotion_overrides p.id d)) (
    sort_by (λ a b. text_lt a.name b.name)
      (select (is_promotion_check p.id) d.tables.check_results))
