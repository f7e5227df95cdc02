-- ===== src/Graph/Dependencies.antt =====
-- assert_dependencies_met of apps/api/app/services/relationship_graph_service.py, and
-- check_dependencies and can_proceed of dependency_execution_service.py.
use rgp.Prelude.{
  String, ◌<>◌, ◌≡◌, refl, sym, ap, ◌∙◌, ◌↔◌, Bool, true, false, not, ◌&&◌, Option, none, some,
  List, [], ◌∷◌, ◌++◌, select, contains, str_eq, if◌then◌else◌, All, all, Bool-cases, inl, inr,
  arith, length, ◌==◌,
}
use rgp.Request.{status_value}
use rgp.Text.{join}
use rgp.Db.{Db, RequestTable, RequestRelationshipTable}
use rgp.Session.{
  Host, Action, Error, Result, ok, err, value_error, read, raise_if, with_session, ◌>>=◌,
}
use rgp.Bridge.{get_request_state}

abbrev pub terminal_statuses : List String
terminal_statuses = "completed" ∷ "cancelled" ∷ "canceled" ∷ "promoted" ∷ []

abbrev pub blocking_types : List String
blocking_types = "blocks" ∷ "depends_on" ∷ []

-- the relationships of the query `inbound`
abbrev pub is_inbound : String → RequestRelationshipTable → Bool
is_inbound request_id r =
    str_eq r.target_request_id request_id && contains r.relationship_type blocking_types

abbrev pub is_empty : List String → Bool
is_empty [] = true
is_empty (x ∷ xs) = false

-- the sources of the relationships that are not in a terminal status
unfoldable pub collect_blockers : Host → String → Db → List RequestRelationshipTable → List String
unfolding get_request_state status_value
collect_blockers host tenant_id d [] = []
collect_blockers host tenant_id d (rel ∷ rels) =
    let later = collect_blockers host tenant_id d rels in
    elim (get_request_state host rel.source_request_id (some tenant_id) d) [
      | none ↦ later
      | some source ↦
          if contains (status_value source.status) terminal_statuses
          then later
          else source.id ∷ later
    ]

unfoldable pub assert_dependencies_met : Host → String → String → Action Unit
unfolding collect_blockers join
assert_dependencies_met host request_id tenant_id = do
  blockers ← read (λ d.
      collect_blockers host tenant_id d (select (is_inbound request_id) d.journal.relationships))
  raise_if (not (is_empty blockers))
      (value_error ("Blocking dependencies not met for " <> request_id <> ": " <> join blockers))

-- _TERMINAL_STATUSES and _BLOCKING_TYPES of dependency_execution_service.py
abbrev pub execution_terminal_statuses : List String
execution_terminal_statuses = "completed" ∷ "cancelled" ∷ "canceled" ∷ "promoted" ∷ []

abbrev pub execution_blocking_types : List String
execution_blocking_types = "blocks" ∷ "depends_on" ∷ []

-- the query of check_dependencies
abbrev pub is_dependency : String → RequestRelationshipTable → Bool
is_dependency request_id r =
    str_eq r.target_request_id request_id && contains r.relationship_type execution_blocking_types

-- the loop of check_dependencies, with the blockers so far
unfoldable pub check_from :
    Host → String → Db → List RequestRelationshipTable → List String → List String
unfolding get_request_state status_value
check_from host tenant_id d [] blockers = blockers
check_from host tenant_id d (rel ∷ rels) blockers =
    let same = check_from host tenant_id d rels blockers in
    elim (get_request_state host rel.source_request_id (some tenant_id) d) [
      | none ↦ same
      | some source ↦
          let grown = check_from host tenant_id d rels (blockers ++ source.id ∷ []) in
          if not (contains (status_value source.status) execution_terminal_statuses)
          then grown
          else same
    ]

-- The target status is not looked at.
unfoldable pub check_dependencies : Host → String → String → String → Db → List String
unfolding check_from
check_dependencies host request_id target_status tenant_id d =
    check_from host tenant_id d (select (is_dependency request_id) d.journal.relationships) []

unfoldable pub can_proceed : Host → String → String → String → Db → Bool
unfolding check_dependencies
can_proceed host request_id target_status tenant_id d =
    length (check_dependencies host request_id target_status tenant_id d) == 0

-- A relationship that blocks nothing: it is of another type or of another request, or its source is
-- not to be seen or in a terminal status.
abbrev pub IsMet : Host → String → String → Db → RequestRelationshipTable → Type 0
IsMet host request_id tenant_id d rel =
    is_inbound request_id rel ≡ true
    → (source : RequestTable)
    → get_request_state host rel.source_request_id (some tenant_id) d ≡ some source
    → contains (status_value source.status) terminal_statuses ≡ true

-- whether a source blocks
abbrev blocks : Option RequestTable → Bool
blocks none = false
blocks (some source) = not (contains (status_value source.status) terminal_statuses)

abbrev source_of : Host → String → Db → RequestRelationshipTable → Option RequestTable
source_of host tenant_id d rel = get_request_state host rel.source_request_id (some tenant_id) d

module _ (host : Host) (request_id tenant_id : String) (d : Db) where
  collect_blockers-first :
      (rel : RequestRelationshipTable) (rels : List RequestRelationshipTable)
      (o : Option RequestTable)
      → source_of host tenant_id d rel ≡ o
      → is_empty (collect_blockers host tenant_id d (rel ∷ rels))
        ≡ (not (blocks o) && is_empty (collect_blockers host tenant_id d rels))
  unfolding collect_blockers
  collect_blockers-first rel rels none e = rw (collect_blockers, e) refl
  collect_blockers-first rel rels (some source) e =
      elim (Bool-cases (contains (status_value source.status) terminal_statuses)) [
        | inl t ↦ rw (collect_blockers, e, t) refl
        | inr t ↦ rw (collect_blockers, e, t) refl
      ]

  is_blocker : RequestRelationshipTable → Bool
  is_blocker rel = is_inbound request_id rel && blocks (source_of host tenant_id d rel)

  no_blockers :
      (rows : List RequestRelationshipTable)
      → is_empty (collect_blockers host tenant_id d (select (is_inbound request_id) rows))
        ≡ all (λ rel. not (is_blocker rel)) rows
  unfolding collect_blockers is_blocker
  no_blockers [] = refl
  no_blockers (rel ∷ rows) = elim (Bool-cases (is_inbound request_id rel)) [
    | inl e ↦ rw e (
        collect_blockers-first rel (select (is_inbound request_id) rows)
          (source_of host tenant_id d rel) refl
        ∙ ap (λ b. not (blocks (source_of host tenant_id d rel)) && b) (no_blockers rows))
    | inr e ↦ rw e (no_blockers rows)
  ]

left_true : (a b : Bool) → a && b ≡ true → a ≡ true
left_true a b h = ground arith

right_true : (a b : Bool) → a && b ≡ true → b ≡ true
right_true a b h = ground arith

both : {a b : Bool} → a ≡ true → b ≡ true → a && b ≡ true
both p q = rw (p, q) refl

met_of :
    (b : Bool) (o : Option RequestTable)
    → not (b && blocks o) ≡ true
    → b ≡ true
    → (source : RequestTable) → o ≡ some source
    → contains (status_value source.status) terminal_statuses ≡ true
met_of b none h p source q = cc q
met_of b (some x) h p source q = ground (arith, h, p, ap blocks q)

of_met :
    (b : Bool) (o : Option RequestTable)
    → (b ≡ true
        → (source : RequestTable) → o ≡ some source
        → contains (status_value source.status) terminal_statuses ≡ true)
    → not (b && blocks o) ≡ true
of_met false o h = refl
of_met true none h = refl
of_met true (some x) h = ground (arith, h refl x refl)

module _ (host : Host) (request_id tenant_id : String) (d : Db) where
  all-IsMet :
      (rows : List RequestRelationshipTable)
      → (all (λ rel. not (is_blocker host request_id tenant_id d rel)) rows ≡ true)
        ↔ All (IsMet host request_id tenant_id d) rows
  unfolding is_blocker
  all-IsMet [] = (λ h. tt, λ h. refl)
  all-IsMet (rel ∷ rows) =
      let o = source_of host tenant_id d rel in
      let b = is_inbound request_id rel in
      (
        λ h. (met_of b o (left_true _ _ h), (all-IsMet rows).0 (right_true _ _ h)),
        λ h. both (of_met b o h.0) ((all-IsMet rows).1 h.1),
      )

append_append : (xs ys zs : List String) → (xs ++ ys) ++ zs ≡ xs ++ (ys ++ zs)
append_append [] ys zs = refl
append_append (x ∷ xs) ys zs = ap (λ r. x ∷ r) (append_append xs ys zs)

append_nil : (xs : List String) → xs ++ [] ≡ xs
append_nil [] = refl
append_nil (x ∷ xs) = ap (λ r. x ∷ r) (append_nil xs)

module _ (host : Host) (tenant_id : String) (d : Db) where
  -- the two loops find the same blockers
  check_from-first :
      (rel : RequestRelationshipTable) (rels : List RequestRelationshipTable)
      (blockers : List String) (o : Option RequestTable)
      → source_of host tenant_id d rel ≡ o
      → ((found : List String)
          → check_from host tenant_id d rels found
            ≡ found ++ collect_blockers host tenant_id d rels)
      → check_from host tenant_id d (rel ∷ rels) blockers
        ≡ blockers ++ collect_blockers host tenant_id d (rel ∷ rels)
  unfolding check_from collect_blockers
  check_from-first rel rels blockers none e h = rw (check_from, collect_blockers, e) (h blockers)
  check_from-first rel rels blockers (some source) e h =
      elim (Bool-cases (contains (status_value source.status) terminal_statuses)) [
        | inl t ↦ rw (check_from, collect_blockers, e, t) (h blockers)
        | inr t ↦
            rw (check_from, collect_blockers, e, t)
              (h (blockers ++ source.id ∷ [])
                ∙ append_append blockers (source.id ∷ []) (collect_blockers host tenant_id d rels))
      ]

  check_from-collect_blockers :
      (rels : List RequestRelationshipTable) (blockers : List String)
      → check_from host tenant_id d rels blockers
        ≡ blockers ++ collect_blockers host tenant_id d rels
  unfolding check_from collect_blockers
  check_from-collect_blockers [] blockers = sym (append_nil blockers)
  check_from-collect_blockers (rel ∷ rels) blockers =
      check_from-first rel rels blockers (source_of host tenant_id d rel) refl
        (check_from-collect_blockers rels)

  -- what the two services find
  check_dependencies-collect_blockers :
      (request_id target_status : String)
      → check_dependencies host request_id target_status tenant_id d
        ≡ collect_blockers host tenant_id d (select (is_inbound request_id) d.journal.relationships)
  unfolding check_dependencies
  check_dependencies-collect_blockers request_id target_status =
      check_from-collect_blockers (select (is_inbound request_id) d.journal.relationships) []

length_zero : (xs : List String) → (length xs == 0) ≡ is_empty xs
length_zero [] = refl
length_zero (x ∷ xs) = ground arith

-- It returns if the test holds, raises if not, and changes nothing.
abbrev pub guard : Bool → Error → Db → Result {0} (Unit {0}) × Db
guard true e d = (ok tt, d)
guard false e d = (err e, d)

raise_if-guard :
    (blockers : Db → List String) (e : List String → Error) (d : Db)
    → with_session (read blockers >>= (λ b. raise_if (not (is_empty b)) (e b))) d
      ≡ guard (is_empty (blockers d)) (e (blockers d)) d
unfolding with_session read raise_if ◌>>=◌
raise_if-guard blockers e d = elim (Bool-cases (is_empty (blockers d))) [
  | inl t ↦ rw (t, raise_if) refl
  | inr t ↦ rw (t, raise_if) refl
]

-- A request can proceed, whatever its target status, exactly if every relationship is met: each
-- "blocks" or "depends_on" relationship to it comes from a request that the tenant cannot see or
-- that is in a terminal status. The two services agree: assert_dependencies_met returns if the
-- request can proceed; if not, it raises the error that names the blockers, and it changes nothing.
pub can_proceed_iff :
    (host : Host) (request_id target_status tenant_id : String) (d : Db)
    → ((can_proceed host request_id target_status tenant_id d ≡ true)
        ↔ All (IsMet host request_id tenant_id d) d.journal.relationships)
      × (with_session (assert_dependencies_met host request_id tenant_id) d
          ≡ guard
              (can_proceed host request_id target_status tenant_id d)
              (value_error (
                "Blocking dependencies not met for "
                <> request_id
                <> ": "
                <> join (check_dependencies host request_id target_status tenant_id d)))
              d)
unfolding can_proceed assert_dependencies_met
can_proceed_iff host request_id target_status tenant_id d =
    let rows = d.journal.relationships in
    let blockers = λ (x : Db).
      collect_blockers host tenant_id x (select (is_inbound request_id) x.journal.relationships) in
    let same = check_dependencies-collect_blockers host tenant_id d request_id target_status in
    let empty = length_zero (blockers d) in
    let free =
      ap (λ b. length b == 0) same ∙ (empty ∙ no_blockers host request_id tenant_id d rows) in
    let met = all-IsMet host request_id tenant_id d rows in
    let text = λ (b : List String).
      value_error ("Blocking dependencies not met for " <> request_id <> ": " <> join b) in
    (
      (λ h. met.0 (sym free ∙ h), λ h. free ∙ met.1 h),
      raise_if-guard blockers text d
          ∙ (ap (λ b. guard b (text (blockers d)) d) (sym empty)
              ∙ ap (λ b. guard (length b == 0) (text b) d) (sym same)),
    )
