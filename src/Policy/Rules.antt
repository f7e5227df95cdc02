-- ===== src/Policy/Rules.antt =====
-- apps/api/app/domain/policy_dsl.py: actions, and the rules that give them. `none` stands for an
-- exception.
use rgp.Prelude.{
  ℕ, String, ◌<>◌, Bool, true, false, not, ◌&&◌, Option, none, some, List, [], ◌∷◌, ◌++◌, ltb,
  if◌then◌else◌, contains, sort_by, map,
}
use Prim.Native.String.{[] as empty, ◌∷◌ as char}
use rgp.Json.{
  Value, Elements, Entries, none_value, boolean, number, string, list_of, dict_of, no_elements,
  item, no_entries, entry, get, get_default, truthy, equal, as_number,
}
use rgp.Policy.{Python, text_of, evaluate_condition}

abbrev pub valid_action_types : List String
valid_action_types =
    "route" ∷ "block" ∷ "escalate" ∷ "require_review" ∷ "branch" ∷ "remediate" ∷ "notify"
    ∷ "add_tag" ∷ "set_field" ∷ []

-- if test: errors.append(message)
abbrev pub error_if : Bool → String → List String
error_if true message = message ∷ []
error_if false message = []

-- action_type == name and not action.get(field)
unfoldable pub lacks : Entries → String → String → Bool
unfolding get equal truthy
lacks action name field =
    equal (get_default "type" none_value action) (string name)
    && not (truthy (get_default field none_value action))

-- `action_type not in VALID_ACTION_TYPES`: a list or a dict has no hash
abbrev pub unknown_type : Value → Option Bool
unknown_type (string t) = some (not (contains t valid_action_types))
unknown_type (list_of xs) = none
unknown_type (dict_of d) = none
unknown_type _ = some true

unfoldable pub field_errors : Entries → List String
unfolding lacks
field_errors action =
    error_if (lacks action "block" "reason") "Block action requires a reason"
    ++ (error_if (lacks action "route" "target_team") "Route action requires target_team"
        ++ (error_if (lacks action "escalate" "to") "Escalate action requires 'to' field"
            ++ (error_if (lacks action "require_review" "reviewer")
                  "Require_review action requires 'reviewer' field"
                ++ error_if (lacks action "branch" "workflow")
                    "Branch action requires 'workflow' field")))

unfoldable pub validate_action : Python → Value → Option (List String)
unfolding field_errors
validate_action python (dict_of action) =
    let action_type = get_default "type" none_value action in
    elim (unknown_type action_type) [
      | none ↦ none
      | some unknown ↦ some (
          error_if unknown ("Unknown action type: " <> text_of python action_type)
          ++ field_errors action)
    ]
validate_action python _ = some ("Action must be a dict" ∷ [])

abbrev pub elements : Elements → List Value
elements no_elements = []
elements (item v vs) = v ∷ elements vs

abbrev pub keys : Entries → List Value
keys no_entries = []
keys (entry k v rest) = string k ∷ keys rest

abbrev pub characters : String → List Value
characters empty = []
characters (char c rest) = string (char c empty) ∷ characters rest

-- the values that `extend` takes from a value
unfoldable pub iterate : Value → Option (List Value)
iterate (list_of xs) = some (elements xs)
iterate (dict_of d) = some (keys d)
iterate (string t) = some (characters t)
iterate _ = none

-- Actions that are to be executed: `none` for an exception
unfoldable pub evaluate_rule : Python → Entries → Entries → Option Value
unfolding get truthy evaluate_condition
evaluate_rule python context rule =
    if truthy (get_default "active" (boolean true) rule)
    then (elim (evaluate_condition python context
        (get_default "condition" (dict_of no_entries) rule)) [
          | none ↦ none
          | some true ↦ some (get_default "actions" (list_of no_elements) rule)
          | some false ↦ some (list_of no_elements)
        ])
    else some (list_of no_elements)

-- The actions of a rule, as `extend` takes them
unfoldable pub rule_actions : Python → Entries → Entries → Option (List Value)
unfolding evaluate_rule iterate
rule_actions python context rule = elim (evaluate_rule python context rule) [
  | none ↦ none
  | some actions ↦ iterate actions
]

abbrev pub append_results : Option (List Value) → Option (List Value) → Option (List Value)
append_results none later = none
append_results (some xs) none = none
append_results (some xs) (some ys) = some (xs ++ ys)

-- for rule in sorted_rules: actions.extend(evaluate_rule(rule, context))
unfoldable pub evaluate_sorted : Python → Entries → List Entries → Option (List Value)
unfolding rule_actions
evaluate_sorted python context [] = some []
evaluate_sorted python context (rule ∷ rules) =
    append_results (rule_actions python context rule) (evaluate_sorted python context rules)

abbrev pub ranked_by : Entries → Option ℕ → Option (ℕ × Entries)
ranked_by rule none = none
ranked_by rule (some n) = some (n, rule)

-- r.get("priority", 0). Priorities are numbers: with any other key, `none`.
abbrev pub with_priority : Entries → Option (ℕ × Entries)
with_priority rule = ranked_by rule (as_number (get_default "priority" (number 0) rule))

abbrev pub cons_result :
    Option (ℕ × Entries) → Option (List (ℕ × Entries)) → Option (List (ℕ × Entries))
cons_result none rest = none
cons_result (some r) none = none
cons_result (some r) (some rs) = some (r ∷ rs)

unfoldable pub with_priorities : List Entries → Option (List (ℕ × Entries))
unfolding get
with_priorities [] = some []
with_priorities (rule ∷ rules) = cons_result (with_priority rule) (with_priorities rules)

abbrev pub before : ℕ × Entries → ℕ × Entries → Bool
before (n, _) (m, _) = ltb n m

abbrev pub rule_of : ℕ × Entries → Entries
rule_of (_, rule) = rule

-- evaluate_rules: sorted by priority, rules of one priority in the given order
unfoldable pub evaluate_rules : Python → List Entries → Entries → Option (List Value)
unfolding with_priorities evaluate_sorted
evaluate_rules python rules context = elim (with_priorities rules) [
  | none ↦ none
  | some ranked ↦ evaluate_sorted python context (map rule_of (sort_by before ranked))
]

-- a.get("type") == action_type, of an action that is a dict
abbrev pub has_type : String → Value → Option Bool
has_type action_type (dict_of action) =
    some (equal (get_default "type" none_value action) (string action_type))
has_type action_type _ = none

unfoldable pub has_blocking_action : List Value → Option Bool
unfolding get equal
has_blocking_action [] = some false
has_blocking_action (a ∷ actions) =
    let later = has_blocking_action actions in
    elim (has_type "block" a) [ none ↦ none | some true ↦ some true | some false ↦ later ]

unfoldable pub get_actions_by_type : String → List Value → Option (List Value)
unfolding get equal
get_actions_by_type action_type [] = some []
get_actions_by_type action_type (a ∷ actions) =
    let later = get_actions_by_type action_type actions in
    elim (has_type action_type a) [
      | none ↦ none
      | some b ↦ append_results (some (if b then a ∷ [] else [])) later
    ]
