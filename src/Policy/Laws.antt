-- ===== src/Policy/Laws.antt =====
-- The logical operators of policy conditions obey the laws of logic.
use rgp.Prelude.{String, ◌≡◌, refl, ap, ◌∙◌, Bool, true, false, Option, none, some}
use rgp.Json.{
  Value, Elements, Entries, string, list_of, dict_of, no_elements, item, no_entries, entry,
}
use rgp.Policy.{
  Python, negated, and_then, or_else, evaluate_condition, all_conditions, any_conditions,
}

-- {"op": "and", "conditions": cs}, {"op": "or", ...} and {"op": "not", "condition": c}
abbrev pub conjunction : Elements → Value
conjunction cs = dict_of (entry "op" (string "and") (entry "conditions" (list_of cs) no_entries))

abbrev pub disjunction : Elements → Value
disjunction cs = dict_of (entry "op" (string "or") (entry "conditions" (list_of cs) no_entries))

abbrev pub negation : Value → Value
negation c = dict_of (entry "op" (string "not") (entry "condition" c no_entries))

-- {"field": field, "op": op, "value": value}
abbrev pub field_test : String → String → Value → Value
field_test field op value =
    dict_of (entry "field" (string field) (entry "op" (string op) (entry "value" value no_entries)))

abbrev pub negate_each : Elements → Elements
negate_each no_elements = no_elements
negate_each (item c cs) = item (negation c) (negate_each cs)

module _ (python : Python) (context : Entries) where
  pub evaluate-conjunction :
      (cs : Elements)
      → evaluate_condition python context (conjunction cs) ≡ all_conditions python context cs
  unfolding evaluate_condition
  evaluate-conjunction cs = refl

  pub evaluate-disjunction :
      (cs : Elements)
      → evaluate_condition python context (disjunction cs) ≡ any_conditions python context cs
  unfolding evaluate_condition
  evaluate-disjunction cs = refl

  pub evaluate-negation :
      (c : Value)
      → evaluate_condition python context (negation c)
        ≡ negated (evaluate_condition python context c)
  unfolding evaluate_condition
  evaluate-negation c = refl

negated-and_then : (a b : Option Bool) → negated (and_then a b) ≡ or_else (negated a) (negated b)
negated-and_then none b = refl
negated-and_then (some true) b = refl
negated-and_then (some false) b = refl

negated-or_else : (a b : Option Bool) → negated (or_else a b) ≡ and_then (negated a) (negated b)
negated-or_else none b = refl
negated-or_else (some true) b = refl
negated-or_else (some false) b = refl

module _ (python : Python) (context : Entries) where
  negated-all :
      (cs : Elements)
      → negated (all_conditions python context cs) ≡ any_conditions python context (negate_each cs)
  unfolding evaluate_condition
  negated-all no_elements = refl
  negated-all (item c cs) =
      negated-and_then (evaluate_condition python context c) (all_conditions python context cs)
      ∙ ap (or_else (negated (evaluate_condition python context c))) (negated-all cs)

  negated-any :
      (cs : Elements)
      → negated (any_conditions python context cs) ≡ all_conditions python context (negate_each cs)
  unfolding evaluate_condition
  negated-any no_elements = refl
  negated-any (item c cs) =
      negated-or_else (evaluate_condition python context c) (any_conditions python context cs)
      ∙ ap (and_then (negated (evaluate_condition python context c))) (negated-any cs)

-- De Morgan's laws hold of policy conditions, with the conditions at which evaluation raises and
-- those that it does not reach: the negation of a conjunction is the disjunction of the negations,
-- and the negation of a disjunction the conjunction of the negations.
pub de_morgan :
    (python : Python) (context : Entries) (cs : Elements)
    → (evaluate_condition python context (negation (conjunction cs))
        ≡ evaluate_condition python context (disjunction (negate_each cs)))
      × (evaluate_condition python context (negation (disjunction cs))
          ≡ evaluate_condition python context (conjunction (negate_each cs)))
unfolding evaluate_condition
de_morgan python context cs = (negated-all python context cs, negated-any python context cs)
