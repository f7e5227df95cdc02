-- ===== src/Policy/Engine.antt =====
-- apps/api/app/services/policy_engine_service.py: the stored rules of a tenant.
pub mod Isolation
use rgp.Prelude.{
  ℕ, String, ◌<>◌, Bool, not, ◌&&◌, Option, none, some, List, [], ◌∷◌, ◌++◌, str_eq, ltb,
  if◌then◌else◌, select, sort_by, update, map,
}
use rgp.Json.{
  Value, Elements, Entries, none_value, boolean, number, string, list_of, dict_of, no_elements,
  item, no_entries, entry,
}
use rgp.Request.{status_value}
use rgp.Db.{Db, RequestTable, PolicyRuleTable, TransitionGateTable}
use rgp.Session.{
  Host, Action, Error, query_error, pure, read, required, write_services, commit, lift, Result, ok,
  err, ◌>>=◌, ◌>>◌,
}
use rgp.Events.{opt_str}
use rgp.Lifecycle.{next_id}
use rgp.Policy.{Python}
use rgp.Policy.Rules.{evaluate_rules}

abbrev texts : List String → Elements
texts [] = no_elements
texts (t ∷ ts) = item (string t) (texts ts)

-- _build_context
unfoldable pub build_context : RequestTable → String → Entries
unfolding status_value
build_context request target_status = entry "request_id" (string request.id) (
    entry "request_type" (string request.request_type) (
      entry "template_id" (string request.template_id) (
        entry "status" (string (status_value request.status)) (
          entry "target_status" (string target_status) (
            entry "priority" (string request.priority) (
              entry "owner_team_id" (opt_str request.owner_team_id) (
                entry "submitter_id" (string request.submitter_id) (
                  entry "tags" (list_of (texts request.tags))
                    (entry "policy_context" (dict_of request.policy_context) no_entries)))))))))

-- The action that a gate gives
unfoldable pub gate_action : TransitionGateTable → Value
gate_action gate = dict_of (
    entry "type" (string "require_review") (
      entry "reviewer" (string gate.required_check_name) (
        entry "reason" (string ("Transition gate: " <> gate.gate_scope)) (
          entry "source" (string "transition_gate")
            (entry "gate_id" (string gate.id) no_entries)))))

-- _evaluate_transition_gates
unfoldable pub evaluate_transition_gates : String → String → Db → List Value
unfolding gate_action
evaluate_transition_gates target_status tenant_id d = map gate_action (
    sort_by (λ g h. ltb g.gate_order h.gate_order)
      (select
        (λ g.
          str_eq g.tenant_id tenant_id && (str_eq g.transition_target target_status && g.active))
        d.tables.transition_gates))

abbrev by_priority : List PolicyRuleTable → List PolicyRuleTable
by_priority rows = sort_by (λ r s. ltb r.priority s.priority) rows

-- the rule as the DSL takes it
unfoldable pub rule_dict : PolicyRuleTable → Entries
rule_dict r = entry "id" (string r.id) (
    entry "condition" (dict_of r.condition) (
      entry "actions" (list_of r.actions)
        (entry "priority" (number r.priority) (entry "active" (boolean r.active) no_entries))))

-- evaluate_for_transition: `none` if a rule raises
unfoldable pub evaluate_for_transition :
    Python → RequestTable → String → String → Db → Option (List Value)
unfolding build_context rule_dict evaluate_transition_gates
evaluate_for_transition python request target_status tenant_id d =
    let rows =
      by_priority
        (select (λ r. str_eq r.tenant_id tenant_id && r.active) d.services.policy_rules) in
    elim (evaluate_rules python (map rule_dict rows) (build_context request target_status)) [
      | none ↦ none
      | some actions ↦ some (actions ++ evaluate_transition_gates target_status tenant_id d)
    ]

unfoldable pub list_policy_rules : String → Db → List PolicyRuleTable
list_policy_rules tenant_id d =
    by_priority (select (λ r. str_eq r.tenant_id tenant_id) d.services.policy_rules)

pub record CreatePolicyRuleRequest : Type 0 where
  pub name : String
  pub condition : Entries
  pub actions : Elements
  pub priority : ℕ
  pub active : Bool

pub record UpdatePolicyRuleRequest : Type 0 where
  pub name : Option String
  pub condition : Option Entries
  pub actions : Option Elements
  pub priority : Option ℕ
  pub active : Option Bool

unfoldable pub create_policy_rule : Host → String → String → CreatePolicyRuleRequest → Action Unit
create_policy_rule host tenant_id policy_id p = do
  id ← next_id host "pr_"
  write_services (λ t. record t {
    policy_rules =
        t.policy_rules
        ++ (record {
          id = id;
          tenant_id = tenant_id;
          policy_id = policy_id;
          name = p.name;
          condition = p.condition;
          actions = p.actions;
          priority = p.priority;
          active = p.active;
          created_at = host.now;
          updated_at = host.now;
        })
          ∷ [];
  })
  commit

-- `value` if it is given
abbrev or_else {ℓ} : {A : Type ℓ} → Option A → A → A
or_else none a = a
or_else (some b) a = b

-- setattr for the fields that are not None
unfoldable pub updated_rule : Host → UpdatePolicyRuleRequest → PolicyRuleTable → PolicyRuleTable
updated_rule host p r = record r {
  name = or_else p.name r.name;
  condition = or_else p.condition r.condition;
  actions = or_else p.actions r.actions;
  priority = or_else p.priority r.priority;
  active = or_else p.active r.active;
  updated_at = host.now;
}

abbrev pub owns_rule : String → String → PolicyRuleTable → Bool
owns_rule rule_id tenant_id r = str_eq r.id rule_id && str_eq r.tenant_id tenant_id

-- query.one()
abbrev pub one : List PolicyRuleTable → Option PolicyRuleTable
one (r ∷ []) = some r
one _ = none

unfoldable pub update_policy_rule : Host → String → String → UpdatePolicyRuleRequest → Action Unit
unfolding updated_rule
update_policy_rule host rule_id tenant_id p = do
  found ← read (λ d. one (select (owns_rule rule_id tenant_id) d.services.policy_rules))
  row ← required (query_error rule_id) found
  write_services (λ t. record t {
    policy_rules = update (owns_rule rule_id tenant_id) (updated_rule host p) t.policy_rules;
  })
  commit

unfoldable pub delete_policy_rule : String → String → Action Unit
delete_policy_rule rule_id tenant_id = do
  found ← read (λ d. one (select (owns_rule rule_id tenant_id) d.services.policy_rules))
  row ← required (query_error rule_id) found
  write_services (λ t. record t {
    policy_rules = select (λ r. not (owns_rule rule_id tenant_id r)) t.policy_rules;
  })
  commit
