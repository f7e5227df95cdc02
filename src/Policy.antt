-- ===== src/Policy.antt =====
-- apps/api/app/domain/policy_dsl.py: conditions on a context. A condition is JSON; the result is
-- `none` where Python raises (an AttributeError or a TypeError on ill-formed JSON, a re.error, an
-- OverflowError).
pub mod Laws
pub mod WellFormed
pub mod Rules
pub mod Engine
use Prim.Native.Char.{code}
use Prim.Native.String.{[] as empty, ◌∷◌ as char}
use rgp.Prelude.{
  ℕ, String, ◌<>◌, Bool, true, false, not, ◌&&◌, ◌||◌, Option, none, some, List, [], ◌∷◌, ◌==◌,
  str_eq, if◌then◌else◌,
}
use rgp.Json.{
  Value, Elements, Entries, none_value, boolean, number, string, list_of, dict_of, no_elements,
  item, no_entries, entry, get, get_default, truthy, equal, member,
}

-- float(value): a float, a TypeError or a ValueError, or the OverflowError of a huge number
pub data Conversion (F : Type 0) : Type 0 where
  converted : F → Conversion F
  refused overflows : Conversion F

-- What the code calls of Python: float(value), the order of floats, str(value), `in` for texts, and
-- re.fullmatch, where `none` stands for an exception.
pub record Python : Type 1 where
  pub Float : Type 0
  pub float : Value → Conversion Float
  pub greater : Float → Float → Bool
  pub show : Value → String
  pub has_substring : String → String → Bool
  pub fullmatch : String → String → Option Bool

split_from : String → String → List String
split_from part empty = part ∷ []
split_from part (char c rest) =
    let more = split_from (part <> char c empty) rest in
    let next = split_from "" rest in if code c == 46 then part ∷ next else more

-- field.split(".")
unfoldable pub split_dots : String → List String
unfolding split_from
split_dots text = split_from "" text

-- _resolve_field, for a field that is split
unfoldable pub resolve_parts : List String → Value → Value
unfolding get
resolve_parts [] v = v
resolve_parts (part ∷ parts) (dict_of fields) =
    resolve_parts parts (get_default part none_value fields)
resolve_parts (part ∷ parts) _ = none_value

pub data Sign : Type 0 where
  negative equal_sign positive : Sign

-- (fa > fb) - (fa < fb)
abbrev pub sign_of : Bool → Bool → Sign
sign_of true false = Sign.positive
sign_of false true = Sign.negative
sign_of _ _ = Sign.equal_sign

abbrev pub is_positive : Sign → Bool
is_positive Sign.positive = true
is_positive _ = false

abbrev pub is_negative : Sign → Bool
is_negative Sign.negative = true
is_negative _ = false

-- `sign >= 0` and `sign <= 0`
abbrev pub is_at_least_zero : Sign → Bool
is_at_least_zero Sign.positive = true
is_at_least_zero Sign.equal_sign = true
is_at_least_zero Sign.negative = false

abbrev pub is_at_most_zero : Sign → Bool
is_at_most_zero Sign.positive = false
is_at_most_zero Sign.equal_sign = true
is_at_most_zero Sign.negative = true

-- `op == name`
abbrev pub is_op : Value → String → Bool
is_op op name = equal op (string name)

abbrev pub is_none : Value → Bool
is_none none_value = true
is_none _ = false

-- `value is not None`
abbrev pub is_given : Value → Bool
is_given none_value = false
is_given _ = true

-- `expected if isinstance(expected, (list, set, tuple)) else []`
abbrev pub listed : Value → Elements
listed (list_of xs) = xs
listed _ = no_elements

-- str(value)
abbrev pub text_of : Python → Value → String
text_of python (string t) = t
text_of python v = python.show v

-- The operator "contains"
abbrev pub contains_value : Python → Value → Value → Bool
contains_value python (list_of xs) expected = member expected xs
contains_value python (string t) expected = python.has_substring (text_of python expected) t
contains_value python _ expected = false

abbrev pub compare_floats :
    {F : Type 0} → (F → F → Bool) → Conversion F → Conversion F → Option Sign
compare_floats greater Conversion.refused b = some Sign.equal_sign
compare_floats greater Conversion.overflows b = none
compare_floats greater (Conversion.converted x) Conversion.refused = some Sign.equal_sign
compare_floats greater (Conversion.converted x) Conversion.overflows = none
compare_floats greater (Conversion.converted x) (Conversion.converted y) =
    some (sign_of (greater x y) (greater y x))

-- _compare: `none` is the OverflowError, which it does not catch
unfoldable pub compare_values : Python → Value → Value → Option Sign
compare_values python a b = compare_floats python.greater (python.float a) (python.float b)

-- a test of the sign, if there is one
abbrev pub tested : (Sign → Bool) → Option Sign → Option Bool
tested test none = none
tested test (some sign) = some (test sign)

-- The operators on a field
unfoldable pub evaluate_operator : Python → Value → Value → Value → Option Bool
unfolding equal member truthy compare_values
evaluate_operator python op actual expected =
    if is_op op "eq"
    then some (equal actual expected)
    else if is_op op "ne"
    then some (not (equal actual expected))
    else if is_op op "in"
    then some (member actual (listed expected))
    else if is_op op "not_in"
    then some (not (member actual (listed expected)))
    else if is_op op "contains"
    then some (contains_value python actual expected)
    else if is_op op "not_null"
    then some (is_given actual)
    else if is_op op "is_null"
    then some (is_none actual)
    else if is_op op "gt"
    then tested is_positive (compare_values python actual expected)
    else if is_op op "gte"
    then tested is_at_least_zero (compare_values python actual expected)
    else if is_op op "lt"
    then tested is_negative (compare_values python actual expected)
    else if is_op op "lte"
    then tested is_at_most_zero (compare_values python actual expected)
    else if is_op op "matches"
    then python.fullmatch (text_of python expected)
        (if truthy actual then text_of python actual else "")
    else some false

-- What follows the logical operators: no field is false, a field that is no text raises.
unfoldable pub evaluate_field : Python → Value → Entries → Entries → Option Bool
unfolding get split_dots resolve_parts evaluate_operator
evaluate_field python op condition context = elim (get_default "field" none_value condition) [
  | none_value ↦ some false
  | string field ↦
      evaluate_operator python op (resolve_parts (split_dots field) (dict_of context))
        (get_default "value" none_value condition)
  | _ ↦ none
]

-- all and any stop at the first condition that decides
abbrev pub and_then : Option Bool → Option Bool → Option Bool
and_then none next = none
and_then (some true) next = next
and_then (some false) next = some false

abbrev pub or_else : Option Bool → Option Bool → Option Bool
or_else none next = none
or_else (some true) next = some true
or_else (some false) next = next

abbrev pub negated : Option Bool → Option Bool
negated none = none
negated (some b) = some (not b)

abbrev pub is_empty_text : String → Bool
is_empty_text t = str_eq t ""

abbrev pub is_empty_dict : Entries → Bool
is_empty_dict no_entries = true
is_empty_dict (entry k v rest) = false

-- evaluate_condition. Whatever iterates over a text or the keys of a dict meets texts, which are no
-- conditions.
unfoldable mutual
  unfolding get equal evaluate_field

  pub evaluate_condition : Python → Entries → Value → Option Bool
  evaluate_condition python context (dict_of condition) =
      let op = get_default "op" (string "eq") condition in
      let conjunction = all_in python context condition in
      let disjunction = any_in python context condition in
      let inner = inner_in python context condition in
      if is_op op "and"
      then conjunction
      else if is_op op "or"
      then disjunction
      else if is_op op "not"
      then negated inner
      else if is_op op "always"
      then some true
      else if is_op op "never"
      then some false
      else evaluate_field python op condition context
  evaluate_condition python context _ = some false

  -- all(evaluate_condition(c, context) for c in condition.get("conditions", []))
  pub all_in : Python → Entries → Entries → Option Bool
  all_in python context no_entries = some true
  all_in python context (entry k v rest) =
      let here = all_of python context v in
      let later = all_in python context rest in if str_eq k "conditions" then here else later

  pub all_of : Python → Entries → Value → Option Bool
  all_of python context (list_of cs) = all_conditions python context cs
  all_of python context (string t) = some (is_empty_text t)
  all_of python context (dict_of d) = some (is_empty_dict d)
  all_of python context _ = none

  pub all_conditions : Python → Entries → Elements → Option Bool
  all_conditions python context no_elements = some true
  all_conditions python context (item c cs) =
      and_then (evaluate_condition python context c) (all_conditions python context cs)

  -- any(evaluate_condition(c, context) for c in condition.get("conditions", []))
  pub any_in : Python → Entries → Entries → Option Bool
  any_in python context no_entries = some false
  any_in python context (entry k v rest) =
      let here = any_of python context v in
      let later = any_in python context rest in if str_eq k "conditions" then here else later

  pub any_of : Python → Entries → Value → Option Bool
  any_of python context (list_of cs) = any_conditions python context cs
  any_of python context (string t) = some false
  any_of python context (dict_of d) = some false
  any_of python context _ = none

  pub any_conditions : Python → Entries → Elements → Option Bool
  any_conditions python context no_elements = some false
  any_conditions python context (item c cs) =
      or_else (evaluate_condition python context c) (any_conditions python context cs)

  -- evaluate_condition(condition.get("condition", {}), context)
  pub inner_in : Python → Entries → Entries → Option Bool
  inner_in python context no_entries = some false
  inner_in python context (entry k v rest) =
      let here = evaluate_condition python context v in
      let later = inner_in python context rest in if str_eq k "condition" then here else later
