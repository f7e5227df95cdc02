-- ===== src/Checks/Readiness.antt =====
-- When a promotion is ready, and what its readiness counts.
use rgp.Prelude.{
  ℕ, ◌+◌, ◌≤◌, ◌≡◌, ◌↔◌, refl, sym, Bool, true, false, suc, eq_iff, not, ◌&&◌, List, [], ◌∷◌, arith,
  all, count_if, str_eq, Bool-cases, inl, inr,
}
use rgp.Db.{CheckResultTable, CheckOverrideTable}
use rgp.Db.Runs.{Approval}
use rgp.Checks.{
  is_resolved, is_overridden, is_approved, promotion_ready, promotion_readiness, ready, blocked,
  PromotionReadiness,
}

all-iff-count_if {ℓ} :
    {A : Type ℓ} (p q : A → Bool) (xs : List A)
    → ((x : A) → q x ≡ not (p x))
    → (all p xs ≡ true) ↔ (count_if q xs ≡ 0)
all-iff-count_if p q [] h = ground arith
all-iff-count_if p q (x ∷ xs) h = ground (arith, h x, all-iff-count_if p q xs h)

-- Of the rows of a list, n do not have the property.
pub data Lack {A : Type 0} (P : A → Type 0) : ℕ → List A → Type 0 where
  none_left : Lack P 0 []
  met : {n : ℕ} {x : A} {xs : List A} → P x → Lack P n xs → Lack P n (x ∷ xs)
  unmet : {n : ℕ} {x : A} {xs : List A} → (P x → ⊥) → Lack P n xs → Lack P (suc n) (x ∷ xs)

-- The check has passed, or an override of it is approved.
pub data IsSettled (c : CheckResultTable) : List CheckOverrideTable → Type 0 where
  passed : {overrides : List CheckOverrideTable} → c.state ≡ "passed" → IsSettled c overrides
  overridden :
      {o : CheckOverrideTable} {overrides : List CheckOverrideTable}
      → o.check_result_id ≡ c.id
      → o.state ≡ "approved"
      → IsSettled c (o ∷ overrides)
  overridden_later :
      {o : CheckOverrideTable} {overrides : List CheckOverrideTable}
      → IsSettled c overrides
      → IsSettled c (o ∷ overrides)

abbrev pub IsGiven : Approval → Type 0
IsGiven a = a.state ≡ "approved"

-- What a report says of a promotion: the numbers of checks and of approvals that it waits for
pub data Reports (checks : List CheckResultTable) (overrides : List CheckOverrideTable)
    (approvals : List Approval) : PromotionReadiness → Type 0 where
  waits_for_none :
      Lack (λ c. IsSettled c overrides) 0 checks
      → Lack IsGiven 0 approvals
      → Reports checks overrides approvals ready
  waits_for :
      {c a : ℕ}
      → 1 ≤ c + a
      → Lack (λ x. IsSettled x overrides) c checks
      → Lack IsGiven a approvals
      → Reports checks overrides approvals (blocked c a)

-- a test that decides a property, for the tests of a list
Lack-count_if :
    {A : Type 0} (P : A → Type 0) (p q : A → Bool) (xs : List A)
    → ((x : A) → (p x ≡ true → P x) × (P x → p x ≡ true) × (q x ≡ not (p x)))
    → Lack P (count_if q xs) xs
Lack-count_if P p q [] h = Lack.none_left
Lack-count_if P p q (x ∷ xs) h = elim (Bool-cases (p x)) [
  | inl e ↦
      let t : q x ≡ false = ground (arith, (h x).2, e) in
      rw t (Lack.met ((h x).0 e) (Lack-count_if P p q xs h))
  | inr e ↦
      let t : q x ≡ true = ground (arith, (h x).2, e) in
      rw t (Lack.unmet (λ k. cc (e, (h x).1 k)) (Lack-count_if P p q xs h))
]

Lack-as : {A : Type 0} (P : A → Type 0) (n m : ℕ) (xs : List A) → n ≡ m → Lack P n xs → Lack P m xs
Lack-as P n m xs e h = rw (sym e) h

IsSettled-of :
    (c : CheckResultTable) (overrides : List CheckOverrideTable)
    → is_resolved overrides c ≡ true
    → IsSettled c overrides
IsSettled-of c [] h = IsSettled.passed ((eq_iff c.state "passed").0 (ground (arith, h)))
IsSettled-of c (o ∷ os) h =
    elim (Bool-cases (str_eq o.check_result_id c.id && str_eq o.state "approved")) [
      | inl e ↦
          IsSettled.overridden ((eq_iff o.check_result_id c.id).0 (ground (arith, e)))
            ((eq_iff o.state "approved").0 (ground (arith, e)))
      | inr e ↦ IsSettled.overridden_later (IsSettled-of c os (ground (arith, e, h)))
    ]

is_resolved-of :
    (c : CheckResultTable) (overrides : List CheckOverrideTable)
    → IsSettled c overrides
    → is_resolved overrides c ≡ true
is_resolved-of c os (IsSettled.passed p) = ground (arith, (eq_iff c.state "passed").1 p)
is_resolved-of c (o ∷ os) (IsSettled.overridden p q) =
    ground (arith, (eq_iff o.check_result_id c.id).1 p, (eq_iff o.state "approved").1 q)
is_resolved-of c (o ∷ os) (IsSettled.overridden_later h) = ground (arith, is_resolved-of c os h)

-- Every promotion gets a true report: it is ready if each of its checks has passed or has an
-- approved override and each approval is given; otherwise it is blocked, with the exact numbers of
-- the checks and of the approvals of which this is not so, not both zero.
pub promotion_readiness-Reports :
    (checks : List CheckResultTable) (overrides : List CheckOverrideTable)
    (approvals : List Approval)
    → Reports checks overrides approvals (promotion_readiness checks overrides approvals)
unfolding promotion_readiness promotion_ready
promotion_readiness-Reports checks overrides approvals =
    let unresolved =
      λ (x : CheckResultTable). not (str_eq x.state "passed") && not (is_overridden overrides x) in
    let unapproved = λ (x : Approval). not (is_approved x) in
    let open_checks =
      Lack-count_if (λ c. IsSettled c overrides) (is_resolved overrides) unresolved checks
        (λ x. (IsSettled-of x overrides, is_resolved-of x overrides, ground arith)) in
    let open_approvals =
      Lack-count_if IsGiven is_approved unapproved approvals
        (λ x. ((eq_iff x.state "approved").0, (eq_iff x.state "approved").1, refl)) in
    let c0 = all-iff-count_if (is_resolved overrides) unresolved checks (λ x. ground arith) in
    let a0 = all-iff-count_if is_approved unapproved approvals (λ x. refl) in
    elim (Bool-cases (promotion_ready checks overrides approvals)) [
      | inl e ↦ rw e (
          Reports.waits_for_none
            (Lack-as (λ c. IsSettled c overrides) _ 0 checks (c0.0 (ground (arith, e))) open_checks)
            (Lack-as IsGiven _ 0 approvals (a0.0 (ground (arith, e))) open_approvals))
      | inr e ↦ rw e (Reports.waits_for (ground (arith, e, c0, a0)) open_checks open_approvals)
    ]
