-- ===== src/Checks/Registry.antt =====
-- apps/api/app/domain/check_registry.py: named check handlers, and the built-in ones. A handler is a
-- function from the context to a result, or to none where it raises.
pub mod Laws
use rgp.Prelude.{
  String, ◌<>◌, Bool, true, false, not, ◌&&◌, ◌||◌, Option, none, some, List, [], ◌∷◌, Dict, lookup,
  insert, str_eq, sort_by, if◌then◌else◌,
}
use rgp.Json.{Value, Entries, boolean, dict_of, get, get_default}
use rgp.Text.{text_lt}
use rgp.Session.{Host}

pub record CheckContext : Type 0 where
  pub request_id : String
  pub title : String
  pub summary : String
  pub template_id : String
  pub status : String
  pub priority : String
  pub policy_context : Entries
  pub has_artifact : Bool
  pub artifact_stale_review : Bool
  pub has_review : Bool
  pub review_blocking_status : String
  pub extra : Entries

pub record CheckResult : Type 0 where
  pub state : String
  pub detail : String
  pub evidence : String

-- A registered callable: `none` is an exception that it raises.
abbrev pub CheckHandler : Type 0
CheckHandler = CheckContext → Option CheckResult

-- str(flag)
abbrev bool_text : Bool → String
bool_text true = "True"
bool_text false = "False"

abbrev present : Bool → String
present b = if b then "present" else "missing"

-- bool(text and text.strip())
abbrev is_filled : Host → String → Bool
is_filled host text = not (str_eq text "") && not (str_eq (host.strip text) "")

abbrev result : Bool → String → String → String → String → CheckResult
result passed otherwise good bad evidence = record {
  state = if passed then "passed" else otherwise;
  detail = if passed then good else bad;
  evidence = evidence;
}

unfoldable pub intake_completeness : Host → CheckContext → CheckResult
intake_completeness host ctx =
    let title = is_filled host ctx.title in
    let summary = is_filled host ctx.summary in
    let template_id = is_filled host ctx.template_id in
    result (title && (summary && template_id)) "failed" "All canonical intake fields are populated."
      "Title, summary, and template binding are required."
      ("{'title': "
        <> bool_text title
        <> ", 'summary': "
        <> bool_text summary
        <> ", 'template_id': "
        <> bool_text template_id
        <> "}")

unfoldable pub review_package_readiness : CheckContext → CheckResult
review_package_readiness ctx =
    result (ctx.has_artifact && ctx.has_review) "pending" "Artifact and review routing are ready."
      "Artifact generation and reviewer routing must complete."
      ("artifact=" <> present ctx.has_artifact <> ", review=" <> present ctx.has_review)

-- The review is fresh: what both freshness checks test
abbrev pub is_fresh : CheckContext → Bool
is_fresh ctx =
    ctx.has_artifact
    && (not ctx.artifact_stale_review
        && (not ctx.has_review || str_eq ctx.review_blocking_status "Approved"))

abbrev status_text : CheckContext → String
status_text ctx =
    if str_eq ctx.review_blocking_status "" then "missing" else ctx.review_blocking_status

unfoldable pub approval_freshness : CheckContext → CheckResult
approval_freshness ctx =
    result (is_fresh ctx) "pending" "Latest approval evidence is fresh."
      "A fresh approved review is required before promotion."
      ("artifact_stale=" <> bool_text ctx.artifact_stale_review <> ", review=" <> status_text ctx)

-- `value is not False`
abbrev is_not_false : Value → Bool
is_not_false (boolean false) = false
is_not_false _ = true

unfoldable pub policy_bundle : Host → CheckContext → CheckResult
unfolding get
policy_bundle host ctx =
    result (is_not_false (get_default "policy_bundle_passed" (boolean true) ctx.policy_context))
      "failed" "Automated policy bundle evaluation passed."
      "Automated policy bundle evaluation failed."
      ("policy_context=" <> host.show (dict_of ctx.policy_context))

unfoldable pub promotion_approval_freshness : CheckContext → CheckResult
promotion_approval_freshness ctx =
    result (is_fresh ctx) "pending" "Latest approved artifact is fresh."
      "Waiting for fresh approval evidence."
      ("artifact_stale="
        <> bool_text ctx.artifact_stale_review
        <> ", review_state="
        <> status_text ctx)

abbrev pub Handlers : Type 0
Handlers = Dict CheckHandler

unfoldable pub register : String → CheckHandler → Handlers → Handlers
unfolding insert
register name handler handlers = insert name handler handlers

-- a callable that does not raise
abbrev pub returning : (CheckContext → CheckResult) → CheckHandler
returning f ctx = some (f ctx)

-- _register_builtins
unfoldable pub builtins : Host → Handlers
unfolding register intake_completeness review_package_readiness approval_freshness policy_bundle
    promotion_approval_freshness
builtins host = register "Promotion Approval Freshness" (returning promotion_approval_freshness) (
    register "Policy Bundle" (returning (policy_bundle host)) (
      register "Approval Freshness" (returning approval_freshness) (
        register "Review Package Readiness" (returning review_package_readiness)
          (register "Intake Completeness" (returning (intake_completeness host)) []))))

-- name in self._handlers
unfoldable pub has : String → Handlers → Bool
has name [] = false
has name ((k, h) ∷ rest) = str_eq k name || has name rest

-- del: a dictionary holds each key once
abbrev pub removed : String → Handlers → Handlers
removed name [] = []
removed name ((k, h) ∷ rest) =
    let later = removed name rest in if str_eq k name then later else (k, h) ∷ later

-- unregister: `none` is the KeyError
unfoldable pub unregister : String → Handlers → Option Handlers
unfolding has
unregister name handlers = if has name handlers then some (removed name handlers) else none

abbrev pub names_of : Handlers → List String
names_of [] = []
names_of ((k, h) ∷ rest) = k ∷ names_of rest

unfoldable pub list_names : Handlers → List String
unfolding text_lt
list_names handlers = sort_by text_lt (names_of handlers)

abbrev pub apply_handler : Option CheckHandler → CheckContext → Option CheckResult
apply_handler none ctx = none
apply_handler (some handler) ctx = handler ctx

-- evaluate: `none` is the KeyError, or what the handler raises
unfoldable pub evaluate : String → CheckContext → Handlers → Option CheckResult
unfolding lookup
evaluate name ctx handlers = apply_handler (lookup name handlers) ctx

-- one entry of the dict comprehension of evaluate_all
abbrev pub add_result : String → Option CheckResult → Dict CheckResult → Dict CheckResult
add_result name none results = results
add_result name (some r) results = insert name r results

-- evaluate_all, from the results so far: {name: self.evaluate(name, context) for name in names if ...}
unfoldable pub evaluate_from :
    List String → CheckContext → Handlers → Dict CheckResult → Option (Dict CheckResult)
unfolding has evaluate insert
evaluate_from [] ctx handlers results = some results
evaluate_from (name ∷ names) ctx handlers results =
    if has name handlers
    then (elim (evaluate name ctx handlers) [
      | none ↦ none
      | some r ↦ evaluate_from names ctx handlers (insert name r results)
    ])
    else evaluate_from names ctx handlers results

unfoldable pub evaluate_all : List String → CheckContext → Handlers → Option (Dict CheckResult)
unfolding evaluate_from
evaluate_all names ctx handlers = evaluate_from names ctx handlers []
