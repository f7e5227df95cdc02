-- ===== src/Lifecycle/Contracts/Decisions.antt =====
-- A review decision moves one request, whatever its status is.
use rgp.Prelude.{
  Bool-cases, inl, inr, eq_iff, arith, String, ◌≡◌, refl, sym, ap, true, false, Option, none, some,
  update, str_eq,
}
use rgp.Request.{RequestStatus, approved, changes_requested}
use rgp.Db.{Db, RequestTable, ReviewQueueTable}
use rgp.Session.{Host, Session, Action, raise, commit, match_row, pure, with_session, ◌>>=◌, ◌>>◌}
use rgp.Session.Preserves.{Preserves, preserves_rules}
use rgp.Session.Contracts.{
  Ensures, Ensures-required, Ensures-read, Ensures-raise_if, Ensures-weaken, At,
}
use rgp.Events.{append_event}
use rgp.Bridge.{get_request_state}
use rgp.Lifecycle.Decisions.{
  ReviewDecisionRequest, find_review, decision_status, is_supported, decide_review, decide_request,
  decided, decide, record_review_decision, approve_run,
}
use rgp.Lifecycle.Operations.{find_request, denied, denial, ensure_request_tenant_access}
use rgp.Lifecycle.{modify_request}
use rgp.Lifecycle.Preserved.{Core, cores, SideEffectLaws}
use rgp.Lifecycle.Preserved.Artifacts.{Preserves-update_artifact}
use rgp.Lifecycle.Preserved.Registration.{Preserves-append_event}
use rgp.Lifecycle.Contracts.{
  Changed, move_core, Outcome, OnCommitted, Committed, HasCores, HasCores-laws, At-Committed,
  Outcome-with_session, Ensures-modify_again, Ensures-step, Ensures-commit,
}
use rgp.Lifecycle.Contracts.Moves.{guard_holds}

-- The status that each decision gives the request
pub data Gives : String → RequestStatus → Type 0 where
  approval : Gives "approve" approved
  changes : Gives "changes_requested" changes_requested

-- The review was found, and its request moved to the status of the decision.
abbrev pub Decided : String → ReviewDecisionRequest → String → Db → Unit {0} → Db → Type 0
Decided review_id p tenant d a d' =
    (review : ReviewQueueTable) × (find_review review_id d ≡ some review)
    × (status : RequestStatus) × Gives p.decision status
    × Changed review.request_id (some tenant) (λ row. Unit) (move_core status) d a d'

decision_status-Gives :
    (decision : String) → is_supported decision ≡ true → Gives decision (decision_status decision)
decision_status-Gives decision h = elim (Bool-cases (str_eq decision "approve")) [
  | inl e ↦ rw ((eq_iff decision "approve").0 e) Gives.approval
  | inr e ↦
      let same : str_eq decision "changes_requested" ≡ true = ground (arith, e, h) in
      rw ((eq_iff decision "changes_requested").0 same) Gives.changes
]

Preserves-decide_review :
    {host : Host} {P : Session → Type 0} (laws : SideEffectLaws host P) (review : ReviewQueueTable)
    (request : RequestTable) (decision : String)
    → Preserves P (decide_review host review request decision)
unfolding decide_review approve_run
Preserves-decide_review laws review request decision =
    search (preserves_rules, laws.on_tables, Preserves-update_artifact laws) depth 24

At-HasCores : (d : Db) (s : Session) → At d s → HasCores (cores d) d s
At-HasCores d s h = record { open_cores = ap cores h.current; saved = h.saved }

module _ (host : Host) (p : ReviewDecisionRequest) (review_id tenant : String) (d : Db)
    (review : ReviewQueueTable) (found : find_review review_id d ≡ some review)
    (supported : is_supported p.decision ≡ true) where
  Ensures-decided :
      (row : RequestTable) (t : String)
      → find_request review.request_id d ≡ some row
      → denied (some tenant) row ≡ false
      → Ensures
          (HasCores (cores d) d)
          (modify_request review.request_id (decided host p.decision p.actor_id)
            >> (append_event host review.request_id p.actor_id t p.reason >> commit))
          (OnCommitted (Decided review_id p tenant d))
          (Committed (cores d))
  unfolding decided
  Ensures-decided row t e allowed =
      let cs =
        update (λ (c : Core). str_eq c.id review.request_id)
          (move_core (decision_status p.decision)) (cores d) in
      Ensures-modify_again (cores d) review.request_id _ (move_core (decision_status p.decision)) _
        (λ r. refl)
        (Ensures-step cs _ _
          (Preserves-append_event (HasCores-laws host cs d) review.request_id p.actor_id t p.reason)
          (Ensures-commit cs d _ _ (λ d' same. (
            review,
            found,
            decision_status p.decision,
            decision_status-Gives p.decision supported,
            (row, e, allowed, tt, same),
          ))))

  Ensures-decide_request :
      (o : Option RequestTable)
      → find_request review.request_id d ≡ o
      → ((row : RequestTable) → o ≡ some row → denied (some tenant) row ≡ false)
      → Ensures
          (HasCores (cores d) d)
          (decide_request host review.request_id p o)
          (OnCommitted (Decided review_id p tenant d))
          (Committed (cores d))
  unfolding decide_request match_row decided commit raise ◌>>=◌
  Ensures-decide_request none e allowed = record { holds = λ s h. record { same = h.open_cores } }
  Ensures-decide_request (some row) e allowed = record {
    holds = λ s h. (Ensures-decided row _ e (allowed row refl)).holds s h;
  }

some-injective : (x y : RequestTable) → some x ≡ some y → x ≡ y
some-injective x y h = cc h

same_access :
    (tenant : Option String) (x y : RequestTable)
    → denied tenant x ≡ false
    → x ≡ y
    → denied tenant y ≡ false
same_access tenant x y h p = rw (sym p) h

module _ {B : Type 0} {d : Db} {Q : B → Session → Type 0} where
  -- the tenant may access the row, if there is one
  Ensures-access :
      (o : Option RequestTable) (tenant : Option String) (n : Action B)
      → (((row : RequestTable) → o ≡ some row → denied tenant row ≡ false)
          → Ensures (At d) n Q (Committed (cores d)))
      → Ensures
          (At d)
          (match_row o (pure tt) (λ r. ensure_request_tenant_access r tenant) >>= (λ _. n))
          Q
          (Committed (cores d))
  unfolding match_row pure ensure_request_tenant_access ◌>>=◌
  Ensures-access none tenant n k = record { holds = (k (λ row e. cc e)).holds }
  Ensures-access (some row) tenant n k = record {
    holds =
        (Ensures-raise_if (denied tenant row) (denial tenant row.id) n (At-Committed d)
          (λ q. k (λ r e. same_access tenant row r q (some-injective row r e)))).holds;
  }

module _ (host : Host) (p : ReviewDecisionRequest) (review_id tenant : String) (d : Db) where
  decide-Ensures :
      Ensures
        (At d)
        (decide host review_id p tenant)
        (OnCommitted (Decided review_id p tenant d))
        (Committed (cores d))
  unfolding decide
  decide-Ensures = Ensures-read (find_review review_id) _ (
      Ensures-required _ _ _ (At-Committed d) (λ review found.
        Ensures-read (get_request_state host review.request_id (some tenant)) _ (
          Ensures-required _ _ _ (At-Committed d) (λ request seen.
            Ensures-read (find_request review.request_id) _ (
              Ensures-access (find_request review.request_id d) (some tenant) _ (λ allowed.
                Ensures-raise_if _ _ _ (At-Committed d) (λ g. Ensures-weaken _ (At-HasCores d) (
                  Ensures-step (cores d) (decide_review host review request p.decision) _
                    (Preserves-decide_review (HasCores-laws host (cores d) d) review request
                      p.decision)
                    (Ensures-decide_request host p review_id tenant d review found (guard_holds _ g)
                      (find_request review.request_id d) refl allowed)))))))))

-- If a review decision is recorded, the review was found, the tenant may access its request, and the
-- decision is "approve" or "changes_requested"; the first makes the request approved and the second
-- changes_requested, and its version is one higher, whatever its status was before; no other request has changed in its
-- identity, tenant, status, version or archive flag. If it raises, no request has.
pub record_review_decision_contract :
    (host : Host) (review_id : String) (p : ReviewDecisionRequest) (tenant : String) (d : Db)
    → Outcome
        (Decided review_id p tenant d)
        d
        (with_session (record_review_decision host review_id p (some tenant)) d)
unfolding record_review_decision match_row
record_review_decision_contract host review_id p tenant d =
    Outcome-with_session (Decided review_id p tenant d) d _
      (decide-Ensures host p review_id tenant d)
