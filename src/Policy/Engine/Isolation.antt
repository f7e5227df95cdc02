-- ===== src/Policy/Engine/Isolation.antt =====
-- The rules of one tenant are out of reach of the others.
use rgp.Prelude.{
  String, ◌≡◌, refl, ◌∙◌, true, false, not, List, [], ◌∷◌, ◌++◌, str_eq, select, update, arith,
  eq_iff,
}
use rgp.Db.{Db, PolicyRuleTable}
use rgp.Session.{Host, Session, Action, write_services, commit, draw, pure, with_session, ◌>>=◌}
use rgp.Session.Preserves.{Preserves, Preserves-bind, Preserves-read, Preserves-required}
use rgp.Lifecycle.{next_id}
use rgp.Policy.Engine.{
  CreatePolicyRuleRequest, UpdatePolicyRuleRequest, create_policy_rule, update_policy_rule,
  delete_policy_rule, updated_rule, owns_rule,
}

-- the rules of a tenant
abbrev pub rules_of : String → List PolicyRuleTable → List PolicyRuleTable
rules_of tenant rows = select (λ r. str_eq r.tenant_id tenant) rows

-- The tenant has these rules, in the open transaction and committed.
record HasRules (tenant : String) (rules : List PolicyRuleTable) (s : Session) : Type 0 where
  open_rules : rules_of tenant s.db.services.policy_rules ≡ rules
  saved_rules : rules_of tenant s.committed.services.policy_rules ≡ rules

-- a change of the rules that the tenant does not notice
abbrev Hidden : String → (List PolicyRuleTable → List PolicyRuleTable) → Type 0
Hidden tenant f = (rows : List PolicyRuleTable) → rules_of tenant (f rows) ≡ rules_of tenant rows

module _ (tenant other : String) (differ : str_eq other tenant ≡ false) where
  Hidden-append :
      (r : PolicyRuleTable) → r.tenant_id ≡ other → Hidden tenant (λ rows. rows ++ r ∷ [])
  Hidden-append r p [] = rw (p, differ) refl
  Hidden-append r p (x ∷ rows) = ground (arith, Hidden-append r p rows)

  owned_by_other :
      (id : String) (r : PolicyRuleTable)
      → owns_rule id other r ≡ true
      → str_eq r.tenant_id tenant ≡ false
  owned_by_other id r h =
      ground (arith, eq_iff r.tenant_id other, eq_iff other tenant, eq_iff r.tenant_id tenant)

  Hidden-update :
      (id : String) (f : PolicyRuleTable → PolicyRuleTable)
      → ((r : PolicyRuleTable) → (f r).tenant_id ≡ r.tenant_id)
      → Hidden tenant (update (owns_rule id other) f)
  Hidden-update id f keeps [] = refl
  Hidden-update id f keeps (r ∷ rows) =
      ground (arith, keeps r, owned_by_other id r, Hidden-update id f keeps rows)

  Hidden-delete : (id : String) → Hidden tenant (select (λ r. not (owns_rule id other r)))
  Hidden-delete id [] = refl
  Hidden-delete id (r ∷ rows) = ground (arith, owned_by_other id r, Hidden-delete id rows)

module _ (tenant : String) (rules : List PolicyRuleTable) where
  HasRules-write :
      (f : List PolicyRuleTable → List PolicyRuleTable)
      → Hidden tenant f
      → Preserves
          (HasRules tenant rules)
          (write_services (λ t. record t { policy_rules = f t.policy_rules }))
  unfolding write_services
  HasRules-write f hidden = record {
    after = λ s h. record {
      open_rules = hidden s.db.services.policy_rules ∙ h.open_rules;
      saved_rules = h.saved_rules;
    };
  }

  HasRules-commit : Preserves (HasRules tenant rules) commit
  unfolding commit
  HasRules-commit = record {
    after = λ s h. record { open_rules = h.open_rules; saved_rules = h.open_rules };
  }

  HasRules-next_id :
      (host : Host) (prefix : String) → Preserves (HasRules tenant rules) (next_id host prefix)
  unfolding next_id draw pure ◌>>=◌
  HasRules-next_id host prefix = record {
    after = λ s h. record { open_rules = h.open_rules; saved_rules = h.saved_rules };
  }

-- A change of the rules by a tenant
pub data RuleChange : Type 0 where
  creating : String → CreatePolicyRuleRequest → RuleChange
  updating : String → UpdatePolicyRuleRequest → RuleChange
  deleting : String → RuleChange

unfoldable pub change_rules : Host → RuleChange → String → Action Unit
change_rules host (creating policy_id p) tenant_id = create_policy_rule host tenant_id policy_id p
change_rules host (updating rule_id p) tenant_id = update_policy_rule host rule_id tenant_id p
change_rules host (deleting rule_id) tenant_id = delete_policy_rule rule_id tenant_id

change_rules-HasRules :
    (host : Host) (c : RuleChange) (other tenant : String) (rules : List PolicyRuleTable)
    → str_eq other tenant ≡ false
    → Preserves (HasRules tenant rules) (change_rules host c other)
unfolding change_rules create_policy_rule update_policy_rule delete_policy_rule updated_rule
change_rules-HasRules host (creating policy_id p) other tenant rules differ =
    Preserves-bind _ _ (HasRules-next_id tenant rules host "pr_") (λ id.
      Preserves-bind _ _ (HasRules-write tenant rules _ (Hidden-append tenant other differ _ refl))
        (λ _. HasRules-commit tenant rules))
change_rules-HasRules host (updating rule_id p) other tenant rules differ =
    Preserves-bind _ _ (Preserves-read _) (λ found.
      Preserves-bind _ _ (Preserves-required _ found) (λ row.
        Preserves-bind _ _
          (HasRules-write tenant rules _ (Hidden-update tenant other differ rule_id _ (λ r. refl)))
          (λ _. HasRules-commit tenant rules)))
change_rules-HasRules host (deleting rule_id) other tenant rules differ =
    Preserves-bind _ _ (Preserves-read _) (λ found.
      Preserves-bind _ _ (Preserves-required _ found) (λ row.
        Preserves-bind _ _
          (HasRules-write tenant rules _ (Hidden-delete tenant other differ rule_id))
          (λ _. HasRules-commit tenant rules)))

-- A tenant that creates, updates or deletes a policy rule, or tries to, by any identifier, changes no
-- rule of another tenant.
pub change_rules-rules_of :
    (host : Host) (c : RuleChange) (other tenant : String) (d : Db)
    → str_eq other tenant ≡ false
    → rules_of tenant (with_session (change_rules host c other) d).1.services.policy_rules
      ≡ rules_of tenant d.services.policy_rules
unfolding with_session
change_rules-rules_of host c other tenant d differ =
    let rules = rules_of tenant d.services.policy_rules in
    let s : Session = record { db = d; committed = d; draws = 0; threads = []; objects = [] } in
    let k = change_rules-HasRules host c other tenant rules differ in
    (k.after s (record { open_rules = refl; saved_rules = refl })).saved_rules
