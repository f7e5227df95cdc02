-- ===== src/Policy/WellFormed.antt =====
-- Conditions of the documented form never raise.
use rgp.Prelude.{
  String, ◌≢◌, ◌≡◌, refl, ap, Bool, true, false, not, Option, none, some, if◌then◌else◌,
}
use rgp.Json.{Value, Elements, Entries, string, dict_of, no_elements, item, no_entries, entry}
use rgp.Policy.{
  Conversion, Sign, sign_of, compare_floats, compare_values, tested, is_none, is_given,
  resolve_parts, split_dots, Python, text_of, negated, and_then, or_else, evaluate_operator,
  evaluate_field, evaluate_condition, all_conditions, any_conditions,
}
use rgp.Policy.Laws.{conjunction, disjunction, negation, field_test}

-- It has returned a Boolean.
abbrev pub Returns : Option Bool → Type 0
Returns o = (b : Bool) × (o ≡ some b)

-- float(value) does not raise an OverflowError.
abbrev pub Fits : Python → Value → Type 0
Fits python v = python.float v ≢ Conversion.overflows

-- {"field": field, "op": op}
abbrev pub presence_test : String → String → Value
presence_test field op = dict_of (entry "field" (string field) (entry "op" (string op) no_entries))

mutual
  -- The forms of conditions that the module's documentation lists, with their keys in the order in
  -- which it writes them, over a context. A pattern that is matched is one that Python's `re`
  -- accepts, and neither the value nor what the context has in the field is too large for a float.
  pub data IsCondition (python : Python) (context : Entries) : Value → Type 0 where
    both_hold :
        {cs : Elements}
        → AreConditions python context cs
        → IsCondition python context (conjunction cs)
    either_holds :
        {cs : Elements}
        → AreConditions python context cs
        → IsCondition python context (disjunction cs)
    negates : {c : Value} → IsCondition python context c → IsCondition python context (negation c)
    holds_always : IsCondition python context (dict_of (entry "op" (string "always") no_entries))
    holds_never : IsCondition python context (dict_of (entry "op" (string "never") no_entries))
    tests_null : (field : String) → IsCondition python context (presence_test field "is_null")
    tests_not_null : (field : String) → IsCondition python context (presence_test field "not_null")
    tests_field :
        (field op : String) (v : Value)
        → ((text : String) → Returns (python.fullmatch (text_of python v) text))
        → Fits python (resolve_parts (split_dots field) (dict_of context))
        → Fits python v
        → IsCondition python context (field_test field op v)

  pub data AreConditions (python : Python) (context : Entries) : Elements → Type 0 where
    no_conditions : AreConditions python context no_elements
    one_more :
        {c : Value} {cs : Elements}
        → IsCondition python context c
        → AreConditions python context cs
        → AreConditions python context (item c cs)

Returns-if : (b : Bool) (x y : Option Bool) → Returns x → Returns y → Returns (if b then x else y)
Returns-if true x y p q = p
Returns-if false x y p q = q

Returns-negated : (o : Option Bool) → Returns o → Returns (negated o)
Returns-negated o (b, p) = (not b, ap negated p)

Returns-and_then : (x y : Option Bool) → Returns x → Returns y → Returns (and_then x y)
Returns-and_then none y (b, p) q = cc p
Returns-and_then (some true) y p q = q
Returns-and_then (some false) y p q = (false, refl)

Returns-or_else : (x y : Option Bool) → Returns x → Returns y → Returns (or_else x y)
Returns-or_else none y (b, p) q = cc p
Returns-or_else (some true) y p q = (true, refl)
Returns-or_else (some false) y p q = q

Returns-some : (b : Bool) → Returns (some b)
Returns-some b = (b, refl)

Returns-compared :
    {F : Type 0} (test : Sign → Bool) (greater : F → F → Bool) (a b : Conversion F)
    → a ≢ Conversion.overflows
    → b ≢ Conversion.overflows
    → Returns (tested test (compare_floats greater a b))
Returns-compared test greater Conversion.refused b p q = (test Sign.equal_sign, refl)
Returns-compared test greater Conversion.overflows b p q = absurd (p refl)
Returns-compared test greater (Conversion.converted x) Conversion.refused p q =
    (test Sign.equal_sign, refl)
Returns-compared test greater (Conversion.converted x) Conversion.overflows p q = absurd (q refl)
Returns-compared test greater (Conversion.converted x) (Conversion.converted y) p q =
    (test (sign_of (greater x y) (greater y x)), refl)

module _ (python : Python) where
  Returns-tested :
      (test : Sign → Bool) (x v : Value)
      → Fits python x
      → Fits python v
      → Returns (tested test (compare_values python x v))
  unfolding compare_values
  Returns-tested test x v p q = Returns-compared test python.greater _ _ p q

  evaluate_operator-Returns :
      (op : String) (x v : Value)
      → ((text : String) → Returns (python.fullmatch (text_of python v) text))
      → Fits python x
      → Fits python v
      → Returns (evaluate_operator python (string op) x v)
  unfolding evaluate_operator
  evaluate_operator-Returns op x v h p q =
      search (Returns-if, Returns-some, Returns-tested, h, p, q) depth 40

  field_test-Returns :
      (context : Entries) (field op : String) (v : Value)
      → ((text : String) → Returns (python.fullmatch (text_of python v) text))
      → Fits python (resolve_parts (split_dots field) (dict_of context))
      → Fits python v
      → Returns (evaluate_condition python context (field_test field op v))
  unfolding evaluate_condition evaluate_field
  field_test-Returns context field op v h p q =
      search (Returns-if, Returns-some, Returns-negated, evaluate_operator-Returns, h, p, q) depth
        40

mutual
  unfolding evaluate_condition

  IsCondition-Returns :
      (python : Python) (context : Entries) (c : Value)
      → IsCondition python context c
      → Returns (evaluate_condition python context c)
  IsCondition-Returns python context c (IsCondition.both_hold h) =
      all_conditions-Returns python context _ h
  IsCondition-Returns python context c (IsCondition.either_holds h) =
      any_conditions-Returns python context _ h
  IsCondition-Returns python context c (IsCondition.negates h) =
      Returns-negated _ (IsCondition-Returns python context _ h)
  IsCondition-Returns python context c IsCondition.holds_always = (true, refl)
  IsCondition-Returns python context c IsCondition.holds_never = (false, refl)
  IsCondition-Returns python context c (IsCondition.tests_null field) =
      (is_none (resolve_parts (split_dots field) (dict_of context)), refl)
  IsCondition-Returns python context c (IsCondition.tests_not_null field) =
      (is_given (resolve_parts (split_dots field) (dict_of context)), refl)
  IsCondition-Returns python context c (IsCondition.tests_field field op v h p q) =
      field_test-Returns python context field op v h p q

  all_conditions-Returns :
      (python : Python) (context : Entries) (cs : Elements)
      → AreConditions python context cs
      → Returns (all_conditions python context cs)
  all_conditions-Returns python context cs AreConditions.no_conditions = (true, refl)
  all_conditions-Returns python context cs (AreConditions.one_more h k) =
      Returns-and_then _ _ (IsCondition-Returns python context _ h)
        (all_conditions-Returns python context _ k)

  any_conditions-Returns :
      (python : Python) (context : Entries) (cs : Elements)
      → AreConditions python context cs
      → Returns (any_conditions python context cs)
  any_conditions-Returns python context cs AreConditions.no_conditions = (false, refl)
  any_conditions-Returns python context cs (AreConditions.one_more h k) =
      Returns-or_else _ _ (IsCondition-Returns python context _ h)
        (any_conditions-Returns python context _ k)

-- A condition of a documented form, nested to any depth, evaluates to true or false: it does not
-- raise, whatever operators, fields and values its field tests name, where the patterns that it
-- matches are ones that `re` accepts, and neither a value nor what the context has in its field is
-- too large for a float.
pub evaluate_condition-Returns :
    (python : Python) (context : Entries) (c : Value)
    → IsCondition python context c
    → Returns (evaluate_condition python context c)
evaluate_condition-Returns python context c h = IsCondition-Returns python context c h
