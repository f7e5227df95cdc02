-- ===== src/Examples/Services.antt =====
-- The theorems on policies, relationships and collaboration modes at concrete inputs.
use rgp.Prelude.{
  ℕ, String, ◌≡◌, refl, ◌↔◌, ◌⊎◌, length, Bool, true, false, Option, some, List, [], ◌∷◌, ◌<>◌,
  arith, All, count_if, str_eq, contains,
}
use rgp.Json.{
  Value, Elements, Entries, string, number, dict_of, no_elements, item, entry, no_entries,
}
use rgp.Text.{join}
use rgp.Db.{Db, RequestRelationshipTable, PolicyRuleTable}
use rgp.Session.{value_error, with_session}
use rgp.Policy.{Conversion, Python, evaluate_condition}
use rgp.Policy.Laws.{conjunction, disjunction, negation, negate_each, field_test, de_morgan}
use rgp.Policy.WellFormed.{IsCondition, AreConditions, Fits, Returns, evaluate_condition-Returns}
use rgp.Policy.Engine.Isolation.{RuleChange, change_rules, rules_of, change_rules-rules_of}
use rgp.Graph.{Edge, Direction, traverse}
use rgp.Graph.Order.{Order, get_dependency_order}
use rgp.Graph.Order.Totality.{get_dependency_order-Returns}
use rgp.Graph.Traversal.{IsSound, traverse-IsSound}
use rgp.Graph.Dependencies.{
  IsMet, guard, can_proceed, check_dependencies, assert_dependencies_met, can_proceed_iff,
}
use rgp.Collaboration.{CollaborationMode}
use rgp.Collaboration.Chains.{
  Switch, IsConsistent, AllConsistent, switch_all, switch_all-IsConsistent,
}
use rgp.Checks.Registry.{CheckContext}
use rgp.Examples.Data.{example_host, example_db}

-- Numbers are their own floats, and every pattern matches.
abbrev example_python : Python
example_python = record {
  Float = ℕ;
  float = λ v. elim v [ number n ↦ Conversion.converted n | _ ↦ Conversion.refused ];
  greater = λ a b. rgp.Prelude.ltb b a;
  show = λ _. "value";
  has_substring = λ _ _. false;
  fullmatch = λ _ _. some true;
}

abbrev example_context : Entries
example_context = entry "priority" (string "urgent") (entry "age_hours" (number 30) no_entries)

abbrev urgent_test : Value
urgent_test = field_test "priority" "eq" (string "urgent")

abbrev old_test : Value
old_test = field_test "age_hours" "gt" (number 24)

abbrev example_conditions : Elements
example_conditions = item urgent_test (item old_test no_elements)

de_morgan_example :
    (evaluate_condition example_python example_context (negation (conjunction example_conditions))
      ≡ evaluate_condition example_python example_context
          (disjunction (negate_each example_conditions)))
    × (evaluate_condition example_python example_context (negation (disjunction example_conditions))
        ≡ evaluate_condition example_python example_context
            (conjunction (negate_each example_conditions)))
de_morgan_example = de_morgan example_python example_context example_conditions

example_python-Fits : (v : Value) → Fits example_python v
example_python-Fits (number n) h = cc h
example_python-Fits _ h = cc h

example_conditions-AreConditions : AreConditions example_python example_context example_conditions
example_conditions-AreConditions =
    AreConditions.one_more
      (IsCondition.tests_field "priority" "eq" (string "urgent") (λ text. (true, refl))
        (example_python-Fits _) (example_python-Fits (string "urgent")))
      (AreConditions.one_more
        (IsCondition.tests_field "age_hours" "gt" (number 24) (λ text. (true, refl))
          (example_python-Fits _) (example_python-Fits (number 24)))
        AreConditions.no_conditions)

evaluate_condition-Returns_example :
    Returns (evaluate_condition example_python example_context (conjunction example_conditions))
evaluate_condition-Returns_example =
    evaluate_condition-Returns example_python example_context (conjunction example_conditions)
      (IsCondition.both_hold example_conditions-AreConditions)

abbrev block_action : Elements
block_action = item (dict_of (entry "type" (string "block") no_entries)) no_elements

abbrev example_stored : String → PolicyRuleTable
example_stored tenant = record {
  id = "pr_1";
  tenant_id = tenant;
  policy_id = "policy_1";
  name = "urgent";
  condition = no_entries;
  actions = block_action;
  priority = 1;
  active = true;
  created_at = 1;
  updated_at = 1;
}

abbrev example_rules : Db
example_rules = record example_db {
  services = record example_db.services {
    policy_rules = example_stored "tenant_demo" ∷ example_stored "tenant_other" ∷ [];
  };
}

change_rules-rules_of_example :
    rules_of "tenant_demo"
      (with_session
        (change_rules example_host (RuleChange.deleting "pr_1") "tenant_other")
        example_rules).1.services.policy_rules
    ≡ rules_of "tenant_demo" example_rules.services.policy_rules
change_rules-rules_of_example =
    change_rules-rules_of example_host (RuleChange.deleting "pr_1") "tenant_other" "tenant_demo"
      example_rules refl

abbrev example_relationship : String → String → RequestRelationshipTable
example_relationship source target = record {
  id = 1;
  source_request_id = source;
  target_request_id = target;
  relationship_type = "blocks";
  created_at = 1;
  created_by = "user_demo";
}

-- Two requests that block each other
abbrev example_graph : Db
example_graph = record example_db {
  journal = record example_db.journal {
    relationships =
        example_relationship "req_1" "req_2" ∷ example_relationship "req_2" "req_1" ∷ [];
  };
}

traverse-IsSound_example :
    (edges : List Edge) × (traverse "req_1" Direction.outbound 5 example_graph ≡ some edges)
    × All (IsSound Direction.outbound example_graph.journal.relationships "req_1" 5) edges
traverse-IsSound_example = traverse-IsSound "req_1" Direction.outbound 5 example_graph

get_dependency_order-Returns_example :
    ((order : List String) × (get_dependency_order ("req_1" ∷ "req_2" ∷ []) example_graph
        ≡ Order.order_of order)
      × (length order ≡ 2)
      × All (λ id. contains id ("req_1" ∷ "req_2" ∷ []) ≡ true) order)
    ⊎ (get_dependency_order ("req_1" ∷ "req_2" ∷ []) example_graph ≡ Order.cycle_detected)
get_dependency_order-Returns_example =
    get_dependency_order-Returns ("req_1" ∷ "req_2" ∷ []) example_graph

can_proceed_iff_example :
    ((can_proceed example_host "req_2" "approved" "tenant_demo" example_graph ≡ true)
      ↔ All
          (IsMet example_host "req_2" "tenant_demo" example_graph)
          example_graph.journal.relationships)
    × (with_session (assert_dependencies_met example_host "req_2" "tenant_demo") example_graph
        ≡ guard
            (can_proceed example_host "req_2" "approved" "tenant_demo" example_graph)
            (value_error (
              "Blocking dependencies not met for "
              <> "req_2"
              <> ": "
              <> join
                  (check_dependencies example_host "req_2" "approved" "tenant_demo" example_graph)))
            example_graph)
can_proceed_iff_example =
    can_proceed_iff example_host "req_2" "approved" "tenant_demo" example_graph

abbrev switch_to : CollaborationMode → Switch
switch_to mode = record {
  request_id = "req_1";
  payload = record { actor_id = "user_demo"; target_mode = mode; reason = "" };
  tenant_id = "tenant_demo";
}

abbrev example_switches : List (rgp.Session.Host × Switch)
example_switches =
    (example_host, switch_to CollaborationMode.agent_assisted)
    ∷ (record example_host { now = 1001 }, switch_to CollaborationMode.agent_led)
    ∷ []

switch_all-IsConsistent_example : AllConsistent (switch_all example_switches example_db)
switch_all-IsConsistent_example =
    switch_all-IsConsistent example_switches example_db IsConsistent.no_rows

abbrev example_check_context : CheckContext
example_check_context = record {
  request_id = "req_1";
  title = "Unit";
  summary = "A unit";
  template_id = "tmpl_curriculum";
  status = "submitted";
  priority = "medium";
  policy_context = no_entries;
  has_artifact = true;
  artifact_stale_review = false;
  has_review = false;
  review_blocking_status = "";
  extra = no_entries;
}
