-- ===== src/Template.antt =====
-- apps/api/app/domain/template_engine.py: the values of a payload against the schema of a template.
-- A schema is a JSON object; where the code calls a method of a value that does not have it, the model
-- returns a type error. Numbers are natural numbers: a payload with other numbers is not modelled.
pub mod Payload
pub mod Routing
use Prim.Native.String.{[], ◌∷◌}
use rgp.Prelude.{
  ℕ, suc, String, ◌<>◌, Bool, true, false, not, ◌&&◌, ◌||◌, Option, none, some, List, ltb, str_eq,
  if◌then◌else◌,
}
use rgp.Json.{
  Value, Elements, Entries, none_value, boolean, number, string, list_of, dict_of, no_entries,
  no_elements, item, get, has_key, truthy, equal, member,
}
use rgp.Text.{parse_digits, join}
use rgp.Session.{Error, value_error, type_error, Result, ok, err}

-- What the engine takes from Python: texts, and regular expressions.
pub record Engine : Type 0 where
  pub strip : String → String
  pub show : Value → String  -- str(value) of a value that is no text
  pub has_substring : String → String → Bool
  pub fullmatch : String → String → Bool  -- the pattern, and the text

-- str(value)
abbrev pub text_of : Engine → Value → String
text_of engine v = elim v [ string t ↦ t | other ↦ engine.show other ]

-- str(item) for each item
texts_of : Engine → Elements → List String
texts_of engine no_elements = List.[]
texts_of engine (item v rest) = List.◌∷◌ (text_of engine v) (texts_of engine rest)

-- The items that an error names
abbrev listed : Engine → Value → String
listed engine v = elim v [
  | list_of items ↦ join (texts_of engine items)
  | other ↦ text_of engine other
]

infixl 5 ◌>>=◌
abbrev pub ◌>>=◌ : {A B : Type 0} → Result A → (A → Result B) → Result B
ok a >>= f = f a
err e >>= f = err e

-- `if test: raise`
abbrev pub fail_if : Bool → Error → Result {0} Unit
fail_if true e = err e
fail_if false e = ok tt

unfoldable pub len : String → ℕ
len [] = 0
len (c ∷ rest) = suc (len rest)

-- int(value)
unfoldable pub to_int : Value → Result {0} ℕ
unfolding parse_digits
to_int (number n) = ok n
to_int (boolean true) = ok 1
to_int (boolean false) = ok 0
to_int (string t) = elim (parse_digits t) [ none ↦ err (value_error t) | some n ↦ ok n ]
to_int _ = err (type_error "int")

-- value in container
unfoldable pub is_in_value : Engine → Value → Value → Result {0} Bool
unfolding member get
is_in_value engine v (list_of items) = ok (member v items)
is_in_value engine (string k) (dict_of es) = ok (has_key k es)
is_in_value engine (list_of items) (dict_of es) = err (type_error "unhashable")
is_in_value engine (dict_of d) (dict_of es) = err (type_error "unhashable")
is_in_value engine v (dict_of es) = ok false
is_in_value engine (string s) (string t) = ok (engine.has_substring s t)
is_in_value engine v w = err (type_error "in")

-- The type that a schema names, and the values of that type; any other name admits all values.
unfoldable pub has_type : String → Value → Bool
has_type t (string s) = not (
    str_eq t "integer"
    || str_eq t "number"
    || str_eq t "boolean"
    || str_eq t "array"
    || str_eq t "object")
has_type t (number n) =
    not (str_eq t "string" || str_eq t "boolean" || str_eq t "array" || str_eq t "object")
has_type t (boolean b) = not (
    str_eq t "string"
    || str_eq t "integer"
    || str_eq t "number"
    || str_eq t "array"
    || str_eq t "object")
has_type t (list_of items) = not (
    str_eq t "string"
    || str_eq t "integer"
    || str_eq t "number"
    || str_eq t "boolean"
    || str_eq t "object")
has_type t (dict_of es) = not (
    str_eq t "string"
    || str_eq t "integer"
    || str_eq t "number"
    || str_eq t "boolean"
    || str_eq t "array")
has_type t none_value = not (
    str_eq t "string"
    || str_eq t "integer"
    || str_eq t "number"
    || str_eq t "boolean"
    || str_eq t "array"
    || str_eq t "object")

failed_validation : String → String → Error
failed_validation name reason =
    value_error ("Template validation failed for " <> name <> ": " <> reason)

check_type : String → Entries → Value → Result {0} Unit
unfolding get has_type failed_validation
check_type name schema value = elim (get "type" schema) [
  | some (string t) ↦ fail_if (not (has_type t value)) (failed_validation name ("expected " <> t))
  | _ ↦ ok tt
]

check_enum : Engine → String → Entries → Value → Result {0} Unit
unfolding get truthy is_in_value failed_validation texts_of join
check_enum engine name schema value = elim (get "enum" schema) [
  | none ↦ ok tt
  | some allowed ↦
      if truthy allowed
      then (do
        found ← is_in_value engine value allowed
        fail_if (not found) (failed_validation name ("expected one of " <> listed engine allowed)))
      else ok tt
]

-- A bound of the schema that is given and not None
abbrev bound : String → Entries → Option Value
bound key schema = elim (get key schema) [ some none_value ↦ none | other ↦ other ]

check_min : Engine → String → Entries → String → Result {0} Unit
unfolding get to_int len failed_validation
check_min engine name schema t = elim (bound "min_length" schema) [
  | none ↦ ok tt
  | some v ↦ do
    n ← to_int v
    fail_if (ltb (len (engine.strip t)) n)
        (failed_validation name ("minimum length is " <> text_of engine v))
]

check_max : Engine → String → Entries → String → Result {0} Unit
unfolding get to_int len failed_validation
check_max engine name schema t = elim (bound "max_length" schema) [
  | none ↦ ok tt
  | some v ↦ do
    n ← to_int v
    fail_if (ltb n (len t)) (failed_validation name ("maximum length is " <> text_of engine v))
]

check_pattern : Engine → String → Entries → String → Result {0} Unit
unfolding get truthy failed_validation
check_pattern engine name schema t = elim (get "pattern" schema) [
  | none ↦ ok tt
  | some v ↦
      fail_if (truthy v && not (engine.fullmatch (text_of engine v) t))
        (failed_validation name "does not match required format")
]

check_text : Engine → String → Entries → Value → Result {0} Unit
unfolding check_min check_max check_pattern
check_text engine name schema (string t) = do
  low ← check_min engine name schema t
  high ← check_max engine name schema t
  check_pattern engine name schema t
check_text engine name schema _ = ok tt

unfoldable pub coerce_value : Engine → String → Entries → Value → Result {0} Value
unfolding check_type check_enum check_text
coerce_value engine name schema value = do
  typed ← check_type name schema value
  listed ← check_enum engine name schema value
  sized ← check_text engine name schema value
  ok value

-- The value of a field of a payload, or None
abbrev pub value_of : String → Entries → Value
value_of name payload = elim (get name payload) [ none ↦ none_value | some v ↦ v ]

-- d.get(key, {}) of what is to be an object
abbrev pub dict_at : String → Entries → Result {0} Entries
dict_at key d = elim (get key d) [
  | none ↦ ok no_entries
  | some v ↦ elim v [ dict_of es ↦ ok es | _ ↦ err (type_error key) ]
]
