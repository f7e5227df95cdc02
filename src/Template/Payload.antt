-- ===== src/Template/Payload.antt =====
-- template_engine.py, validate_payload: a payload is completed by the defaults of its template, and then
-- checked. It is not changed by the checks.
pub mod Stable
pub mod Accepted
use rgp.Prelude.{
  String, ◌<>◌, ◌≡◌, refl, Bool, true, false, not, ◌&&◌, ◌||◌, Option, none, some, str_eq,
  if◌then◌else◌, arith, eq_iff, eq_refl,
}
use rgp.Json.{
  Value, Elements, Entries, none_value, string, list_of, dict_of, no_elements, item, no_entries,
  entry, get, put, has_key, member, truthy, equal,
}
use rgp.Session.{Error, value_error, type_error, Result, ok, err}
use rgp.Template.{Engine, ◌>>=◌, fail_if, is_in_value, coerce_value, value_of, dict_at, text_of}

-- d.get(key, []) of what is to be a list
unfoldable pub list_at : String → Entries → Result {0} Elements
unfolding get
list_at key d = elim (get key d) [
  | none ↦ ok no_elements
  | some v ↦ elim v [ list_of items ↦ ok items | _ ↦ err (type_error key) ]
]

abbrev equals_value : Value → Value → Bool
equals_value v w = equal v w

-- The tests of a `when` clause, in the order of the code
when_matches : Engine → Entries → Value → Result {0} Bool
unfolding get equal is_in_value
when_matches engine clause current =
    if has_key "equals" clause
    then ok (equals_value current (value_of "equals" clause))
    else if has_key "not_equals" clause
    then ok (not (equals_value current (value_of "not_equals" clause)))
    else if has_key "in" clause
    then is_in_value engine current (value_of "in" clause)
    else ok false

unfoldable pub conditional_rule_matches : Engine → Entries → Entries → Result {0} Bool
unfolding get truthy when_matches
conditional_rule_matches engine rule values = do
  clause ← dict_at "when" rule
  elim (value_of "field" clause) [
    | string name ↦
        if str_eq name "" then ok false else when_matches engine clause (value_of name values)
    | other ↦ if truthy other then when_matches engine clause none_value else ok false
  ]

-- The default of a field is used where the payload has no such field.
with_default : String → Entries → Entries → Entries
unfolding get put
with_default name schema payload =
    if not (has_key name payload) && has_key "default" schema
    then put name (value_of "default" schema) payload
    else payload

-- `"default" in field_schema` also searches a text or a list, which has no default to give.
default_of : Engine → String → Value → Entries → Result {0} Entries
unfolding with_default get member
default_of engine name (dict_of schema) payload = ok (with_default name schema payload)
default_of engine name (string t) payload =
    if has_key name payload || not (engine.has_substring "default" t)
    then ok payload
    else err (type_error name)
default_of engine name (list_of xs) payload =
    if has_key name payload || not (member (string "default") xs)
    then ok payload
    else err (type_error name)
default_of engine name _ payload =
    if has_key name payload then ok payload else err (type_error name)

pub apply_defaults : Engine → Entries → Entries → Result {0} Entries
unfolding default_of
apply_defaults engine no_entries payload = ok payload
apply_defaults engine (entry name v rest) payload = do
  completed ← default_of engine name v payload
  apply_defaults engine rest completed

-- value is None or (isinstance(value, str) and not value.strip())
unfoldable pub is_blank : Engine → Value → Bool
is_blank engine none_value = true
is_blank engine (string t) = str_eq (engine.strip t) ""
is_blank engine _ = false

required_error : String → Error
required_error name =
    value_error ("Template validation failed for " <> name <> ": field is required")

pub check_required : Engine → Bool → Elements → Entries → Result {0} Unit
unfolding is_blank required_error get
check_required engine require_required no_elements payload = ok tt
check_required engine require_required (item (string name) rest) payload = do
  given ←
      fail_if (require_required && is_blank engine (value_of name payload)) (required_error name)
  check_required engine require_required rest payload
check_required engine require_required (item _ rest) payload = err (type_error "required")

-- rule.get("message") or the message of a required field
rule_error : Engine → Entries → String → Error
unfolding get truthy required_error
rule_error engine rule target =
    if truthy (value_of "message" rule)
    then value_error (text_of engine (value_of "message" rule))
    else required_error target

-- The target of a rule that applies to the payload
rule_target : Engine → Entries → Entries → Value → Result {0} (Option String)
unfolding conditional_rule_matches truthy
rule_target engine rule payload (string target) = do
  matches ← if str_eq target "" then ok false else conditional_rule_matches engine rule payload
  ok (if matches then some target else none)
rule_target engine rule payload other = if truthy other then err (type_error "field") else ok none

check_target : Engine → Bool → Entries → Entries → Option String → Result {0} Unit
unfolding is_blank rule_error get
check_target engine require_required rule payload none = ok tt
check_target engine require_required rule payload (some target) =
    fail_if (require_required && is_blank engine (value_of target payload))
      (rule_error engine rule target)

check_rule : Engine → Bool → Entries → Entries → Result {0} Unit
unfolding rule_target check_target get
check_rule engine require_required rule payload = do
  target ← rule_target engine rule payload (value_of "field" rule)
  check_target engine require_required rule payload target

pub check_rules : Engine → Bool → Elements → Entries → Result {0} Unit
unfolding check_rule
check_rules engine require_required no_elements payload = ok tt
check_rules engine require_required (item (dict_of rule) rest) payload = do
  passed ← check_rule engine require_required rule payload
  check_rules engine require_required rest payload
check_rules engine require_required (item _ rest) payload = err (type_error "conditional_required")

-- A value that the schema knows is checked.
coerce_known : Engine → String → Value → Option Value → Result {0} Value
unfolding coerce_value
coerce_known engine name v none = ok v
coerce_known engine name v (some none_value) = ok v
coerce_known engine name v (some (dict_of es)) = coerce_value engine name es v
coerce_known engine name v (some _) = err (type_error name)

-- What coerce_value returns is stored again.
unfoldable pub coerce_values : Engine → Entries → Entries → Result {0} Entries
unfolding coerce_known get
coerce_values engine properties no_entries = ok no_entries
coerce_values engine properties (entry name v rest) = do
  w ← coerce_known engine name v (get name properties)
  others ← coerce_values engine properties rest
  ok (entry name w others)

unfoldable pub validate_payload : Engine → Entries → Entries → Bool → Result {0} Entries
unfolding list_at apply_defaults check_required check_rules coerce_values
validate_payload engine schema payload require_required = do
  properties ← dict_at "properties" schema
  required_fields ← list_at "required" schema
  conditional_required ← list_at "conditional_required" schema
  normalized ← apply_defaults engine properties payload
  given ← check_required engine require_required required_fields normalized
  ruled ← check_rules engine require_required conditional_required normalized
  coerce_values engine properties normalized
